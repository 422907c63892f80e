-- ===== src/Approval/Soundness.antt =====
-- The tables of the approval service (api/internal/db/migrations, 007_approvals) as a state
-- machine: what one operation can do to them, and what they hold in consequence.
use mathlib.Core.Path.{subst}
use helios_ci_cd.Prelude.{
  ℕ, All, ◌≤◌, String, Bool, true, false, not, ◌&&◌, ◌||◌, ◌≡◌, refl, ◌⊎◌, inl, inr, some, List, [],
  ◌∷◌, ◌++◌, ◌==◌, length, arith, Bool-cases, some_inj,
}
use helios_ci_cd.Approval.{
  ApprovalRequest, Approval, Store, is_approve, is_pending, is_waiting, find_pending, find_request,
  has_id, save_request, has_voted, approve_count, is_approver,
}

unfoldable pub has_rejected : ℕ → List Approval → Bool
has_rejected id [] = false
has_rejected id (v ∷ vs) = (v.request_id == id && not (is_approve v.decision)) || has_rejected id vs

-- No two requests have the same key.
abbrev pub IsKeyed : List ApprovalRequest → Type 0
IsKeyed [] = Unit
IsKeyed (r ∷ rs) = (has_id r.id rs ≡ false) × IsKeyed rs

-- No user has two votes on one request.
abbrev pub OneVote : List Approval → Type 0
OneVote [] = Unit
OneVote (v ∷ vs) = (has_voted v.request_id v.username vs ≡ false) × OneVote vs

-- An approved request has an approval; in mode all it has as many as it has approvers, unless the
-- system approved it. A rejected one has a rejection.
pub record IsJustified (votes : List Approval) (r : ApprovalRequest) : Type 0 where
  pub approved : r.status ≡ "approved" → 1 ≤ approve_count r.id votes
  pub by_all :
      r.status ≡ "approved"
      → r.mode ≡ "all"
      → (length r.required_approvers ≤ approve_count r.id votes)
        ⊎ (has_voted r.id "system" votes ≡ true)
  pub rejected : r.status ≡ "rejected" → has_rejected r.id votes ≡ true

-- The user may vote on the request: an approver, or the system.
abbrev pub IsVoter : ApprovalRequest → String → Type 0
IsVoter r u = (u ≡ "system") ⊎ (is_approver u r.required_approvers ≡ true)

-- Distinct keys, votes of users who may vote on requests that are there, one for each user and
-- request, and justified decisions.
pub record IsSound (s : Store) : Type 0 where
  pub keyed : IsKeyed s.requests
  pub one_vote : OneVote s.votes
  pub referenced : All (λ v. has_id v.request_id s.requests ≡ true) s.votes
  pub fair :
      (id : ℕ) (r : ApprovalRequest)
      → find_request id s.requests ≡ some r
      → All (λ v. v.request_id ≡ id → IsVoter r v.username) s.votes
  pub justified :
      (id : ℕ) (r : ApprovalRequest) → find_request id s.requests ≡ some r → IsJustified s.votes r

-- The votes stay, or get one vote of a user who had none on that request and may vote on it.
pub data Cast (requests : List ApprovalRequest) (votes votes' : List Approval) : Type 0 where
  no_vote : votes' ≡ votes → Cast requests votes votes'
  one :
      (v : Approval) (r : ApprovalRequest)
      → find_request v.request_id requests ≡ some r
      → IsVoter r v.username
      → has_voted v.request_id v.username votes ≡ false
      → votes' ≡ votes ++ v ∷ []
      → Cast requests votes votes'

-- The row but for its status and the time of its change.
abbrev pub KeepsColumns : ApprovalRequest → ApprovalRequest → Type 0
KeepsColumns r new = new ≡ record r { status = new.status; updated_at = new.updated_at }

-- The requests stay, get a pending one with a key of its own, or the status of one is written, which was
-- pending when the operation read the requests.
pub data Change (read : List ApprovalRequest) (s s' : Store) : Type 0 where
  same : s'.requests ≡ s.requests → Cast s.requests s.votes s'.votes → Change read s s'
  added :
      (r : ApprovalRequest)
      → has_id r.id s.requests ≡ false
      → is_pending r ≡ true
      → s'.requests ≡ s.requests ++ r ∷ []
      → Cast s.requests s.votes s'.votes
      → Change read s s'
  decided :
      (old r new : ApprovalRequest)
      → find_request r.id read ≡ some old
      → is_pending old ≡ true
      → find_request r.id s.requests ≡ some r
      → KeepsColumns r new
      → s'.requests ≡ save_request new s.requests
      → Cast s.requests s.votes s'.votes
      → IsJustified s'.votes new
      → Change read s s'

-- The row that a key finds has that key.
pub find_request-id :
    (id : ℕ) (rs : List ApprovalRequest) (r : ApprovalRequest)
    → find_request id rs ≡ some r
    → r.id ≡ id
unfolding find_request
find_request-id id [] r h = cc h
find_request-id id (x ∷ rs) r h = elim (Bool-cases (x.id == id)) [
  | inl e ↦ let same = some_inj (rw e at h) in subst (λ y. y.id ≡ id) same (ground arith)
  | inr e ↦ find_request-id id rs r (rw e at h)
]

pub find_request-has_id :
    (id : ℕ) (rs : List ApprovalRequest) (r : ApprovalRequest)
    → find_request id rs ≡ some r
    → has_id id rs ≡ true
unfolding find_request has_id
find_request-has_id id [] r h = cc h
find_request-has_id id (x ∷ rs) r h = elim (Bool-cases (x.id == id)) [
  | inl e ↦ rw e refl
  | inr e ↦ rw e (find_request-has_id id rs r (rw e at h))
]

-- With distinct keys the pending row of a stage is the row of its key.
pub find_request_of_pending :
    (run_id : ℕ) (stage_id : String) (rs : List ApprovalRequest) (r : ApprovalRequest)
    → IsKeyed rs
    → find_pending run_id stage_id rs ≡ some r
    → (find_request r.id rs ≡ some r) × (is_waiting run_id stage_id r ≡ true)
unfolding find_pending find_request
find_request_of_pending run_id stage_id [] r k h = cc h
find_request_of_pending run_id stage_id (x ∷ rs) r (fresh, k) h =
    elim (Bool-cases (is_waiting run_id stage_id x)) [
      | inl e ↦
          let here = some_inj (rw e at h) in
          subst (λ y. (find_request y.id (x ∷ rs) ≡ some y) × (is_waiting run_id stage_id y ≡ true))
            here (ground arith, e)
      | inr e ↦
          let rest = find_request_of_pending run_id stage_id rs r k (rw e at h) in
          let known = find_request-has_id r.id rs r rest.0 in
          elim (Bool-cases (x.id == r.id)) [
            | inl mine ↦ absurd (clash mine known)
            | inr other ↦ (rw other rest.0, rest.1)
          ]
    ]
  where
    clash : (x.id == r.id) ≡ true → has_id r.id rs ≡ true → ⊥
    clash mine known = ground (arith, fresh)

pub find_request-save :
    (id : ℕ) (new : ApprovalRequest) (rs : List ApprovalRequest)
    → (new.id == id) ≡ false
    → find_request id (save_request new rs) ≡ find_request id rs
unfolding find_request save_request
find_request-save id new [] h = refl
find_request-save id new (x ∷ rs) h = ground (arith, find_request-save id new rs h)

pub find_request-append :
    (id : ℕ) (rs : List ApprovalRequest) (y r : ApprovalRequest)
    → find_request id rs ≡ some r
    → find_request id (rs ++ y ∷ []) ≡ some r
unfolding find_request
find_request-append id [] y r h = cc h
find_request-append id (x ∷ rs) y r h = elim (Bool-cases (x.id == id)) [
  | inl e ↦ rw e (rw e at h)
  | inr e ↦ rw e (find_request-append id rs y r (rw e at h))
]
