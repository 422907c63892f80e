-- ===== src/Approval/Changes.antt =====
-- What a change of the approval tables keeps (api/internal/service/approval.go).
use mathlib.Core.Path.{subst}
use helios_ci_cd.Prelude.{
  ℕ, true, false, ◌≡◌, ◌⊎◌, inl, inr, refl, sym, ◌∙◌, some, List, [], ◌∷◌, ◌++◌, ◌==◌, arith,
  Bool-cases, some_inj, ap, All, ◌||◌, ◌≤◌, length, ne_of_str_eq,
}
use helios_ci_cd.Approval.{
  ApprovalRequest, Approval, Store, is_pending, find_request, has_id, save_request, has_voted,
  approve_count, is_approver,
}
use helios_ci_cd.Approval.Soundness.{
  IsKeyed, IsJustified, IsSound, has_rejected, Change, same, added, decided, find_request-save,
  find_request-append, find_request-id, IsVoter, KeepsColumns,
}
use helios_ci_cd.Approval.Votes.{Cast-OneVote, Cast-IsJustified, Cast-referenced, Cast-fair}

weaken-All :
    {P Q : Approval → Type 0} (vs : List Approval)
    → ((v : Approval) → P v → Q v)
    → All P vs
    → All Q vs
weaken-All [] f h = tt
weaken-All (v ∷ vs) f (h, hs) = (f v h, weaken-All vs f hs)

has_id-append :
    (id : ℕ) (rs : List ApprovalRequest) (y : ApprovalRequest)
    → has_id id (rs ++ y ∷ []) ≡ (has_id id rs || (y.id == id))
unfolding has_id
has_id-append id [] y = ground arith
has_id-append id (x ∷ rs) y = ground (arith, has_id-append id rs y)

has_id-save :
    (id : ℕ) (new : ApprovalRequest) (rs : List ApprovalRequest)
    → has_id id (save_request new rs) ≡ has_id id rs
unfolding has_id save_request
has_id-save id new [] = refl
has_id-save id new (x ∷ rs) = ground (arith, has_id-save id new rs)

IsKeyed-append :
    (rs : List ApprovalRequest) (y : ApprovalRequest)
    → IsKeyed rs
    → has_id y.id rs ≡ false
    → IsKeyed (rs ++ y ∷ [])
unfolding has_id
IsKeyed-append [] y k new = (refl, tt)
IsKeyed-append (x ∷ rs) y (h, k) new =
    (ground (arith, has_id-append x.id rs y), IsKeyed-append rs y k (ground arith))

IsKeyed-save :
    (new : ApprovalRequest) (rs : List ApprovalRequest) → IsKeyed rs → IsKeyed (save_request new rs)
unfolding save_request
IsKeyed-save new [] k = tt
IsKeyed-save new (x ∷ rs) (h, k) = elim (Bool-cases (x.id == new.id)) [
  | inl e ↦ rw e (ground (arith, has_id-save new.id new rs), IsKeyed-save new rs k)
  | inr e ↦ rw e (ground (arith, has_id-save x.id new rs), IsKeyed-save new rs k)
]

-- A row found after an insert is the new one or was found before.
found_append :
    (id : ℕ) (rs : List ApprovalRequest) (y r : ApprovalRequest)
    → find_request id (rs ++ y ∷ []) ≡ some r
    → (y ≡ r) ⊎ (find_request id rs ≡ some r)
unfolding find_request
found_append id [] y r h = elim (Bool-cases (y.id == id)) [
  | inl e ↦ inl (some_inj (rw e at h))
  | inr e ↦ cc (rw e at h)
]
found_append id (x ∷ rs) y r h = elim (Bool-cases (x.id == id)) [
  | inl e ↦ rw e (inr (rw e at h))
  | inr e ↦ rw e (found_append id rs y r (rw e at h))
]

found_save :
    (id : ℕ) (new : ApprovalRequest) (rs : List ApprovalRequest) (r : ApprovalRequest)
    → find_request id (save_request new rs) ≡ some r
    → (new ≡ r) ⊎ (find_request id rs ≡ some r)
unfolding find_request save_request
found_save id new [] r h = cc h
found_save id new (x ∷ rs) r h = elim (Bool-cases (x.id == id)) [
  | inl f ↦ rw f (elim (Bool-cases (x.id == new.id)) [
    | inl e ↦ inl (some_inj (ground (arith, h)))
    | inr e ↦ inr (ground (arith, h))
  ])
  | inr f ↦ rw f (elim (Bool-cases (x.id == new.id)) [
    | inl e ↦ found_save id new rs r (ground (arith, h))
    | inr e ↦ found_save id new rs r (ground (arith, h))
  ])
]

-- What a change leaves of each row: all but its status and the time of its change.
abbrev pub KeepsRows : Store → Store → Type 0
KeepsRows s t =
    (id : ℕ) (r : ApprovalRequest)
    → find_request id s.requests ≡ some r
    → (r' : ApprovalRequest) × (find_request id t.requests ≡ some r') × KeepsColumns r r'

pub KeepsRows-refl : (s : Store) → KeepsRows s s
KeepsRows-refl s id r f = (r, f, refl)

KeepsColumns-trans :
    (a b c : ApprovalRequest) → KeepsColumns a b → KeepsColumns b c → KeepsColumns a c
KeepsColumns-trans a b c h k =
    k ∙ ap {A = ApprovalRequest} (λ x. record x { status = c.status; updated_at = c.updated_at }) h

pub KeepsRows-trans : (s t u : Store) → KeepsRows s t → KeepsRows t u → KeepsRows s u
KeepsRows-trans s t u h k id r f =
    let (r', f', c) = h id r f in
    let (r'', f'', d) = k id r' f' in (r'', f'', KeepsColumns-trans r r' r'' c d)

find_saved :
    (new r : ApprovalRequest) (rs : List ApprovalRequest)
    → find_request new.id rs ≡ some r
    → find_request new.id (save_request new rs) ≡ some new
unfolding find_request save_request
find_saved new r [] h = cc h
find_saved new r (x ∷ rs) h = elim (Bool-cases (x.id == new.id)) [
  | inl e ↦ ground (arith, e)
  | inr e ↦ rw e (rw e (find_saved new r rs (rw e at h)))
]

pub Change-KeepsRows :
    {read : List ApprovalRequest} (s s' : Store) → Change read s s' → KeepsRows s s'
Change-KeepsRows s s' (same e c) id r f = (r, rw e f, refl)
Change-KeepsRows s s' (added y new p e c) id r f =
    (r, rw e (find_request-append id s.requests y r f), refl)
Change-KeepsRows s s' (decided old y new seen was found k e c j) id r f =
    elim (Bool-cases (new.id == id)) [
      | inr other ↦ (r, rw e (find_request-save id new s.requests other ∙ f), refl)
      | inl mine ↦
          let at_id : new.id ≡ id = ground (arith, mine) in
          let own : y.id ≡ id = sym (ap (λ x. x.id) k) ∙ at_id in
          let row : y ≡ r =
            some_inj (sym found ∙ subst (λ n. find_request n s.requests ≡ some r) (sym own) f) in
          let there : find_request new.id s.requests ≡ some r =
            subst (λ n. find_request n s.requests ≡ some r) (sym at_id) f in
          (
            new,
            rw e (
                subst (λ n. find_request n (save_request new s.requests) ≡ some new) at_id
                  (find_saved new r s.requests there)),
            subst (λ x. KeepsColumns x new) row k,
          )
    ]

-- A request that was decided when the operation read it stays as it is, in every column.
pub Change-decided :
    {read : List ApprovalRequest} (s s' : Store) (id : ℕ) (x y : ApprovalRequest)
    → Change read s s'
    → find_request id read ≡ some x
    → is_pending x ≡ false
    → find_request id s.requests ≡ some y
    → find_request id s'.requests ≡ some y
Change-decided s s' id x y (same e c) f d g = rw e g
Change-decided s s' id x y (added r new p e c) f d g =
    rw e (find_request-append id s.requests r y g)
Change-decided {read} s s' id x y (decided old r new seen was found k e c j) f d g =
    elim (Bool-cases (new.id == id)) [
      | inr other ↦ rw e (find_request-save id new s.requests other ∙ g)
      | inl mine ↦
          let own : r.id ≡ id = sym (ap (λ q. q.id) k) ∙ ground (arith, mine) in
          let row : old ≡ x =
            some_inj (sym seen ∙ subst (λ n. find_request n read ≡ some x) (sym own) f) in
          cc (d, subst (λ q. is_pending q ≡ true) row was)
    ]

pub pending-IsJustified :
    (votes : List Approval) (r : ApprovalRequest) → is_pending r ≡ true → IsJustified votes r
pending-IsJustified votes r p = record {
  approved = λ a. cc (rw a at p);
  by_all = λ a m. cc (rw a at p);
  rejected = λ a. cc (rw a at p);
}

module _ (votes : List Approval) (r : ApprovalRequest) (now : ℕ) where
  pub approved-IsJustified :
      1 ≤ approve_count r.id votes
      → (r.mode ≡ "all"
          → (length r.required_approvers ≤ approve_count r.id votes)
            ⊎ (has_voted r.id "system" votes ≡ true))
      → IsJustified votes (record r { status = "approved"; updated_at = now })
  approved-IsJustified one all = record {
    approved = λ a. one;
    by_all = λ a m. all m;
    rejected = λ a. absurd (ne_of_str_eq "approved" "rejected" refl a);
  }

  pub rejected-IsJustified :
      has_rejected r.id votes ≡ true
      → IsJustified votes (record r { status = "rejected"; updated_at = now })
  rejected-IsJustified h = record {
    approved = λ a. absurd (ne_of_str_eq "rejected" "approved" refl a);
    by_all = λ a m. absurd (ne_of_str_eq "rejected" "approved" refl a);
    rejected = λ a. h;
  }

  pub expired-IsJustified : IsJustified votes (record r { status = "timeout"; updated_at = now })
  expired-IsJustified = record {
    approved = λ a. absurd (ne_of_str_eq "timeout" "approved" refl a);
    by_all = λ a m. absurd (ne_of_str_eq "timeout" "approved" refl a);
    rejected = λ a. absurd (ne_of_str_eq "timeout" "rejected" refl a);
  }

-- A change keeps the keys distinct, the votes one for each user and request, and every decision
-- justified.
pub Change-IsSound :
    {read : List ApprovalRequest} (s s' : Store) → Change read s s' → IsSound s → IsSound s'
Change-IsSound s s' (same e c) h = record {
  keyed = rw e h.keyed;
  one_vote = Cast-OneVote s.requests s.votes s'.votes c h.one_vote;
  referenced = rw e (Cast-referenced s.requests s.votes s'.votes c h.referenced);
  fair = λ id r f.
      let old = rw e at f in Cast-fair s.requests s.votes s'.votes id r c old (h.fair id r old);
  justified =
      λ id r f. Cast-IsJustified s.requests s.votes s'.votes r c (h.justified id r (rw e at f));
}
Change-IsSound s s' (added y new p e c) h =
    let known = Cast-referenced s.requests s.votes s'.votes c h.referenced in
    record {
      keyed = rw e (IsKeyed-append s.requests y h.keyed new);
      one_vote = Cast-OneVote s.requests s.votes s'.votes c h.one_vote;
      referenced = rw e (
          weaken-All s'.votes (λ v k. ground (arith, k, has_id-append v.request_id s.requests y))
            known);
      fair = λ id r f.
          let g = rw e at f in
          elim (found_append id s.requests y r g) [
            | inl here ↦
                weaken-All s'.votes (λ v k i. absurd (unvoted v.request_id id r g here i k)) known
            | inr old ↦ Cast-fair s.requests s.votes s'.votes id r c old (h.fair id r old)
          ];
      justified = λ id r f. elim (found_append id s.requests y r (rw e at f)) [
        | inl here ↦ subst (IsJustified s'.votes) here (pending-IsJustified s'.votes y p)
        | inr old ↦ Cast-IsJustified s.requests s.votes s'.votes r c (h.justified id r old)
      ];
    }
  where
    unvoted :
        (k id : ℕ) (r : ApprovalRequest)
        → find_request id (s.requests ++ y ∷ []) ≡ some r
        → y ≡ r
        → k ≡ id
        → has_id k s.requests ≡ true
        → ⊥
    unvoted k id r g here i known =
        let own = find_request-id id (s.requests ++ y ∷ []) r g in
        let key = i ∙ sym own ∙ ap (λ x. x.id) (sym here) in
        cc (sym new ∙ subst (λ n. has_id n s.requests ≡ true) key known)
Change-IsSound s s' (decided old y new seen was found kept e c j) h = record {
  keyed = rw e (IsKeyed-save new s.requests h.keyed);
  one_vote = Cast-OneVote s.requests s.votes s'.votes c h.one_vote;
  referenced = rw e (
      weaken-All s'.votes (λ v k. has_id-save v.request_id new s.requests ∙ k)
        (Cast-referenced s.requests s.votes s'.votes c h.referenced));
  fair = λ id r f.
      let g = rw e at f in
      elim (found_save id new s.requests r g) [
        | inl here ↦
            let old = replaced id r g here in
            weaken-All s'.votes
              (λ v u k.
                subst (λ x. IsVoter x v.username) here
                  (subst (λ l. (v.username ≡ "system") ⊎ (is_approver v.username l ≡ true)) (sym q)
                    (u k)))
              (Cast-fair s.requests s.votes s'.votes id y c old (h.fair id y old))
        | inr old ↦ Cast-fair s.requests s.votes s'.votes id r c old (h.fair id r old)
      ];
  justified = λ id r f. elim (found_save id new s.requests r (rw e at f)) [
    | inl here ↦ subst (IsJustified s'.votes) here j
    | inr old ↦ Cast-IsJustified s.requests s.votes s'.votes r c (h.justified id r old)
  ];
}
  where
    i : new.id ≡ y.id
    i = ap (λ x. x.id) kept

    q : new.required_approvers ≡ y.required_approvers
    q = ap (λ x. x.required_approvers) kept

    replaced :
        (id : ℕ) (r : ApprovalRequest)
        → find_request id (save_request new s.requests) ≡ some r
        → new ≡ r
        → find_request id s.requests ≡ some y
    replaced id r g here =
        let own = find_request-id id (save_request new s.requests) r g in
        subst (λ n. find_request n s.requests ≡ some y) (sym i ∙ ap (λ x. x.id) here ∙ own) found
