-- ===== src/Approval/Outcomes.antt =====
-- The tables of api/internal/service/approval.go after an operation that was refused, and after
-- what follows a commit.
pub mod Votes
pub mod Creates
pub mod Timeouts
use mathlib.Core.Path.{subst}
use helios_ci_cd.Prelude.{
  ℕ, suc, ◌≤◌, String, Bool, true, false, not, ◌&&◌, ◌||◌, ◌≡◌, ◌⊎◌, inl, inr, refl, sym, ◌∙◌,
  Option, none, some, List, [], ◌∷◌, ◌++◌, ◌==◌, length, leb, str_eq, eq_iff, eq_refl, arith,
  Bool-cases, Option-cases, str_eq-cases, if◌then◌else◌,
}
use helios_ci_cd.Runstate.{running, failed}
use helios_ci_cd.Runstate.Machine.{Run, Db, Error, mark_running, mark_failed, mark_timeout}
use helios_ci_cd.Approval.{
  Decision, approve, reject, ApprovalRequest, Approval, Store, Service, Outside, ApprovalError,
  Reply, done, refused, is_pending, find_pending, find_request, has_voted, approve_count,
  is_approver, query_error, update_request, insert_audit, commit_tx,
}
use helios_ci_cd.Approval.Requests.{CreateInput, create, announce, new_request, can_insert}
use helios_ci_cd.Approval.Voting.{
  VoteInput, VoteResult, ballot, resolve, counts, settle, cast, vote_locked, resume_orchestrate,
  after_move, push_run, finish_vote, vote, decided_request, decided_requests,
}
use helios_ci_cd.Approval.Timeouts.{
  TimeoutResult, close, expire, expire_locked, move_run, finish_timeout, handle_timeout, is_early,
}
use helios_ci_cd.Approval.Soundness.{
  IsKeyed, IsJustified, IsSound, Cast, no_vote, one, Change, same, added, decided, has_rejected,
  find_request_of_pending, find_request-id,
}
use helios_ci_cd.Approval.Votes.{has_voted-append, approve_count-append, has_rejected-append}

pub unchanged : {read : List ApprovalRequest} (s : Store) → Change read s s
unchanged s = same refl (no_vote refl)

pub guard-Change {ℓ} :
    {A : Type ℓ} {read : List ApprovalRequest} (s : Store) (b : Bool) (e : ApprovalError)
    (out : Reply A × Store)
    → Change read s out.1
    → Change read s (if b then (refused e, s) else out).1
guard-Change s true e out h = unchanged s
guard-Change s false e out h = h

pub if-Change {ℓ} :
    {A : Type ℓ} {read : List ApprovalRequest} (s : Store) (b : Bool) (x y : A × Store)
    → Change read s x.1
    → Change read s y.1
    → Change read s (if b then x else y).1
if-Change s true x y hx hy = hx
if-Change s false x y hx hy = hy

-- What follows a commit touches neither table.
pub Change-later :
    {read : List ApprovalRequest} (s s' s'' : Store)
    → Change read s s'
    → s''.requests ≡ s'.requests
    → s''.votes ≡ s'.votes
    → Change read s s''
Change-later s s' s'' (same e c) r v = same (r ∙ e) (subst (Cast s.requests s.votes) (sym v) c)
Change-later s s' s'' (added y new p e c) r v =
    added y new p (r ∙ e) (subst (Cast s.requests s.votes) (sym v) c)
Change-later s s' s'' (decided old y new g p f k e c j) r v =
    decided old y new g p f k (r ∙ e) (subst (Cast s.requests s.votes) (sym v) c)
      (subst (λ vs. IsJustified vs new) (sym v) j)

pub record SameTables (s s' : Store) : Type 0 where
  pub requests_kept : s'.requests ≡ s.requests
  pub votes_kept : s'.votes ≡ s.votes

pub kept : {s s' : Store} → s'.requests ≡ s.requests → s'.votes ≡ s.votes → SameTables s s'
kept r v = record { requests_kept = r; votes_kept = v }

pub if-SameTables :
    (s : Store) (b : Bool) (x y : Store)
    → SameTables s x
    → SameTables s y
    → SameTables s (if b then x else y)
if-SameTables s true x y hx hy = hx
if-SameTables s false x y hx hy = hy

pub if-SameTables1 {ℓ} :
    {A : Type ℓ} (s : Store) (b : Bool) (x y : A × Store)
    → SameTables s x.1
    → SameTables s y.1
    → SameTables s (if b then x else y).1
if-SameTables1 s true x y hx hy = hx
if-SameTables1 s false x y hx hy = hy
