-- ===== src/Approval/Unanimity.antt =====
-- Mode all of api/internal/service/approval.go compares two numbers; here is what that means for the
-- approvers.
use mathlib.Core.Path.{subst}
use helios_ci_cd.Prelude.{
  ℕ, suc, ◌≤◌, String, true, false, ◌&&◌, ◌≡◌, inl, inr, refl, sym, ap, ◌∙◌, some, List, [], ◌∷◌,
  ◌==◌, length, All, member, str_eq, eq_iff, eq_refl, arith, Bool-cases, str_eq-cases,
  if◌then◌else◌,
}
use helios_ci_cd.Approval.{
  ApprovalRequest, Approval, Store, is_approve, find_request, has_voted, approve_count, is_approver,
}
use helios_ci_cd.Approval.Soundness.{OneVote, IsVoter, IsSound, find_request-id}
use helios_ci_cd.Approval.Histories.{Act, act_all, act_all-IsSound}

-- The list without the first place where the name stands.
without : String → List String → List String
without x [] = []
without x (y ∷ ys) = let rest = y ∷ without x ys in if str_eq y x then ys else rest

length-without :
    (x : String) (ys : List String) → member x ys ≡ true → length ys ≡ suc (length (without x ys))
unfolding without
length-without x [] h = cc h
length-without x (y ∷ ys) h = elim (Bool-cases (str_eq y x)) [
  | inl e ↦ rw e refl
  | inr e ↦ rw e (ap suc (length-without x ys (rw e at h)))
]

member-without :
    (x z : String) (ys : List String)
    → str_eq x z ≡ false
    → member z ys ≡ true
    → member z (without x ys) ≡ true
unfolding without
member-without x z [] n h = h
member-without x z (y ∷ ys) n h = elim (Bool-cases (str_eq y x)) [
  | inl e ↦ rw e (ground (arith, h, n, e, eq_iff y x, eq_iff y z, eq_iff x z))
  | inr e ↦ rw e (elim (Bool-cases (str_eq y z)) [
    | inl f ↦ rw f refl
    | inr f ↦ rw f (member-without x z ys n (rw f at h))
  ])
]

-- The users who approved the request.
abbrev pub approvers_of : ℕ → List Approval → List String
approvers_of id [] = []
approvers_of id (v ∷ vs) =
    if v.request_id == id && is_approve v.decision
    then v.username ∷ approvers_of id vs
    else approvers_of id vs

length-approvers_of :
    (id : ℕ) (vs : List Approval) → length (approvers_of id vs) ≡ approve_count id vs
unfolding approve_count
length-approvers_of id [] = refl
length-approvers_of id (v ∷ vs) = elim (Bool-cases (v.request_id == id && is_approve v.decision)) [
  | inl e ↦ rw e (ap suc (length-approvers_of id vs))
  | inr e ↦ rw e (length-approvers_of id vs)
]

-- No name twice.
abbrev IsDistinct : List String → Type 0
IsDistinct [] = Unit
IsDistinct (x ∷ xs) = (member x xs ≡ false) × IsDistinct xs

-- A list of distinct names of another list is no longer than that.
length-distinct :
    (xs ys : List String)
    → IsDistinct xs
    → ((z : String) → member z xs ≡ true → member z ys ≡ true)
    → length xs ≤ length ys
length-distinct [] ys d sub = omega arith
length-distinct (x ∷ xs) ys (new, d) sub =
    let here = length-without x ys (sub x (ground (arith, eq_refl x))) in
    let rest =
      length-distinct xs (without x ys) d
        (λ z m. member-without x z ys (apart z m) (sub z (ground (arith, m)))) in
    omega (arith, here, rest)
  where
    apart : (z : String) → member z xs ≡ true → str_eq x z ≡ false
    apart z m = elim (str_eq-cases x z) [
      | inl e ↦ cc (sym new ∙ subst (λ n. member n xs ≡ true) (sym e) m)
      | inr n ↦ n
    ]

-- If it is as long as that list, it has all its names.
all_of_long :
    (xs ys : List String) (a : String)
    → IsDistinct xs
    → ((z : String) → member z xs ≡ true → member z ys ≡ true)
    → length ys ≤ length xs
    → member a ys ≡ true
    → member a xs ≡ true
all_of_long xs ys a d sub long there = elim (Bool-cases (member a xs)) [
  | inl known ↦ known
  | inr missing ↦ absurd (too_long missing)
]
  where
    apart : (z : String) → member z xs ≡ true → member a xs ≡ false → str_eq a z ≡ false
    apart z m missing = elim (str_eq-cases a z) [
      | inl e ↦ cc (sym missing ∙ subst (λ n. member n xs ≡ true) (sym e) m)
      | inr n ↦ n
    ]

    too_long : member a xs ≡ false → ⊥
    too_long missing =
        let here = length-without a ys there in
        let fits =
          length-distinct xs (without a ys) d
            (λ z m. member-without a z ys (apart z m missing) (sub z m)) in
        omega (arith, here, fits, long)

approved-has_voted :
    (id : ℕ) (u : String) (vs : List Approval)
    → member u (approvers_of id vs) ≡ true
    → has_voted id u vs ≡ true
unfolding has_voted
approved-has_voted id u [] h = cc h
approved-has_voted id u (v ∷ vs) h =
    elim (Bool-cases (v.request_id == id && is_approve v.decision)) [
      | inl e ↦ ground (arith, rw e at h, e, approved-has_voted id u vs)
      | inr e ↦ ground (arith, approved-has_voted id u vs (rw e at h))
    ]

approvers-IsDistinct : (id : ℕ) (vs : List Approval) → OneVote vs → IsDistinct (approvers_of id vs)
approvers-IsDistinct id [] h = tt
approvers-IsDistinct id (v ∷ vs) (new, h) =
    elim (Bool-cases (v.request_id == id && is_approve v.decision)) [
      | inl e ↦ rw e (fresh e, approvers-IsDistinct id vs h)
      | inr e ↦ rw e (approvers-IsDistinct id vs h)
    ]
  where
    fresh :
        (v.request_id == id && is_approve v.decision) ≡ true
        → member v.username (approvers_of id vs) ≡ false
    fresh e = ground (arith, e, new, approved-has_voted id v.username vs)

-- Without the wildcard an approver stands in the list.
is_approver-member :
    (u : String) (list : List String)
    → member "*" list ≡ false
    → is_approver u list ≡ true
    → member u list ≡ true
unfolding is_approver
is_approver-member u [] star h = h
is_approver-member u (a ∷ rest) star h = ground (arith, star, h, is_approver-member u rest)

approvers_may :
    (id : ℕ) (r : ApprovalRequest) (u : String) (vs : List Approval)
    → All (λ v. v.request_id ≡ id → IsVoter r v.username) vs
    → member u (approvers_of id vs) ≡ true
    → IsVoter r u
approvers_may id r u [] fair h = cc h
approvers_may id r u (v ∷ vs) (f, fair) h =
    elim (Bool-cases (v.request_id == id && is_approve v.decision)) [
      | inr e ↦ approvers_may id r u vs fair (rw e at h)
      | inl e ↦ elim (str_eq-cases v.username u) [
        | inl same ↦ subst (IsVoter r) same (f (ground (arith, e)))
        | inr other ↦ approvers_may id r u vs fair (rw (e, other) at h)
      ]
    ]

-- In mode all, in whatever history of the tables: if a request is approved, has no wildcard among its
-- approvers, and the system did not vote on it, then each of its approvers has approved it.
pub act_all_unanimous :
    (s : Store) (acts : List Act) (id : ℕ) (r : ApprovalRequest) (a : String)
    → IsSound s
    → find_request id (act_all s acts).requests ≡ some r
    → r.status ≡ "approved"
    → r.mode ≡ "all"
    → member "*" r.required_approvers ≡ false
    → has_voted id "system" (act_all s acts).votes ≡ false
    → member a r.required_approvers ≡ true
    → member a (approvers_of id (act_all s acts).votes) ≡ true
act_all_unanimous s acts id r a sound found approved all star quiet there =
    all_of_long (approvers_of id votes) r.required_approvers a
      (approvers-IsDistinct id votes after.one_vote) listed enough there
  where
    votes : List Approval
    votes = (act_all s acts).votes

    after : IsSound (act_all s acts)
    after = act_all-IsSound s acts sound

    own : r.id ≡ id
    own = find_request-id id (act_all s acts).requests r found

    listed :
        (z : String)
        → member z (approvers_of id votes) ≡ true
        → member z r.required_approvers ≡ true
    listed z m = elim (approvers_may id r z votes (after.fair id r found) m) [
      | inl is_system ↦ cc (
          sym quiet
          ∙ subst (λ u. has_voted id u votes ≡ true) is_system (approved-has_voted id z votes m))
      | inr voter ↦ is_approver-member z r.required_approvers star voter
    ]

    enough : length r.required_approvers ≤ length (approvers_of id votes)
    enough = elim ((after.justified id r found).by_all approved all) [
      | inl count ↦
          subst (λ n. length r.required_approvers ≤ n) (sym (length-approvers_of id votes))
            (subst (λ k. length r.required_approvers ≤ approve_count k votes) own count)
      | inr system ↦ cc (sym quiet ∙ subst (λ k. has_voted k "system" votes ≡ true) own system)
    ]
