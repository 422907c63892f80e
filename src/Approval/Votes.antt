-- ===== src/Approval/Votes.antt =====
-- The votes table when it gets a row (api/internal/service/approval.go): nothing that was counted is
-- lost.
use mathlib.Core.Path.{subst}
use helios_ci_cd.Prelude.{
  some_inj, sym, All, some, true, ◌∙◌, ℕ, suc, String, false, ◌&&◌, ◌||◌, not, ◌≡◌, refl, List, [],
  ◌∷◌, ◌++◌, ◌==◌, str_eq, eq_iff, arith, if◌then◌else◌,
}
use helios_ci_cd.Approval.{
  Approval, ApprovalRequest, is_approve, has_voted, approve_count, has_id, find_request,
}
use helios_ci_cd.Approval.Soundness.{
  has_rejected, OneVote, IsJustified, IsVoter, Cast, no_vote, one, find_request-has_id,
}

All-snoc :
    (P : Approval → Type 0) (vs : List Approval) (v : Approval)
    → All P vs
    → P v
    → All P (vs ++ v ∷ [])
All-snoc P [] v h p = (p, tt)
All-snoc P (w ∷ vs) v (h, hs) p = (h, All-snoc P vs v hs p)

module _ (v : Approval) where
  pub has_voted-append :
      (id : ℕ) (u : String) (vs : List Approval)
      → has_voted id u (vs ++ v ∷ [])
        ≡ (has_voted id u vs || (v.request_id == id && str_eq v.username u))
  unfolding has_voted
  has_voted-append id u [] = ground arith
  has_voted-append id u (w ∷ vs) = ground (arith, has_voted-append id u vs)

  pub approve_count-append :
      (id : ℕ) (vs : List Approval)
      → approve_count id (vs ++ v ∷ []) ≡ (
          if v.request_id == id && is_approve v.decision
          then suc (approve_count id vs)
          else approve_count id vs)
  unfolding approve_count
  approve_count-append id [] = ground arith
  approve_count-append id (w ∷ vs) = ground (arith, approve_count-append id vs)

  pub has_rejected-append :
      (id : ℕ) (vs : List Approval)
      → has_rejected id (vs ++ v ∷ [])
        ≡ (has_rejected id vs || (v.request_id == id && not (is_approve v.decision)))
  unfolding has_rejected
  has_rejected-append id [] = ground arith
  has_rejected-append id (w ∷ vs) = ground (arith, has_rejected-append id vs)

  OneVote-append :
      (vs : List Approval)
      → OneVote vs
      → has_voted v.request_id v.username vs ≡ false
      → OneVote (vs ++ v ∷ [])
  unfolding has_voted
  OneVote-append [] h new = (refl, tt)
  OneVote-append (w ∷ vs) (h, hs) new = (apart, OneVote-append vs hs (ground (arith)))
    where
      apart : has_voted w.request_id w.username (vs ++ v ∷ []) ≡ false
      apart = ground (
        arith,
        has_voted-append w.request_id w.username vs,
        eq_iff v.username w.username,
        eq_iff w.username v.username,
      )

pub Cast-OneVote :
    (rs : List ApprovalRequest) (vs ws : List Approval) → Cast rs vs ws → OneVote vs → OneVote ws
Cast-OneVote rs vs ws (no_vote e) h = rw e h
Cast-OneVote rs vs ws (one v q f u new e) h = rw e (OneVote-append v vs h new)

-- What justified a request still does when a vote is added.
pub Cast-IsJustified :
    (rs : List ApprovalRequest) (vs ws : List Approval) (r : ApprovalRequest)
    → Cast rs vs ws
    → IsJustified vs r
    → IsJustified ws r
Cast-IsJustified rs vs ws r (no_vote e) h = rw e h
Cast-IsJustified rs vs ws r (one v q f u new e) h = rw e (record {
  approved = λ a. ground (arith, approve_count-append v r.id vs, h.approved a);
  by_all = λ a m.
      ground
        (arith, approve_count-append v r.id vs, has_voted-append v r.id "system" vs, h.by_all a m);
  rejected = λ a. ground (arith, has_rejected-append v r.id vs, h.rejected a);
})

-- A vote that is added refers to a request that is there.
pub Cast-referenced :
    (rs : List ApprovalRequest) (vs ws : List Approval)
    → Cast rs vs ws
    → All (λ v. has_id v.request_id rs ≡ true) vs
    → All (λ v. has_id v.request_id rs ≡ true) ws
Cast-referenced rs vs ws (no_vote e) h = rw e h
Cast-referenced rs vs ws (one v q f u new e) h =
    rw e (All-snoc _ vs v h (find_request-has_id v.request_id rs q f))

-- Who has voted on a request may vote on it, after one more vote too.
pub Cast-fair :
    (rs : List ApprovalRequest) (vs ws : List Approval) (id : ℕ) (r : ApprovalRequest)
    → Cast rs vs ws
    → find_request id rs ≡ some r
    → All (λ v. v.request_id ≡ id → IsVoter r v.username) vs
    → All (λ v. v.request_id ≡ id → IsVoter r v.username) ws
Cast-fair rs vs ws id r (no_vote e) found h = rw e h
Cast-fair rs vs ws id r (one v q f u new e) found h =
    rw e (All-snoc _ vs v h (λ i. subst (λ x. IsVoter x v.username) (same_row i) u))
  where
    same_row : v.request_id ≡ id → q ≡ r
    same_row i = some_inj (sym f ∙ subst (λ k. find_request k rs ≡ some r) (sym i) found)
