-- ===== src/Approval/Outcomes/Timeouts.antt =====
-- What HandleTimeout of api/pkg/approval/timeout.go does to the approval tables.
use helios_ci_cd.Prelude.{
  ℕ, String, true, false, not, ◌||◌, ◌≡◌, inl, inr, refl, sym, Option, none, some, List, [], ◌∷◌,
  ◌++◌, str_eq, arith, Bool-cases, if◌then◌else◌,
}
use mathlib.Core.Path.{subst}
use helios_ci_cd.Runstate.Machine.{Db, Error}
use helios_ci_cd.Approval.{
  ApprovalRequest, Approval, Store, Service, Outside, Reply, done, refused, is_pending,
  find_request, query_error, insert_row, has_voted,
}
use helios_ci_cd.Approval.Timeouts.{
  TimeoutResult, system_vote, close, expire, expire_locked, moved, move_run, finish_timeout,
  handle_timeout, is_early,
}
use helios_ci_cd.Approval.Soundness.{
  IsJustified, Cast, no_vote, one, Change, decided, find_request-id,
}
use helios_ci_cd.Approval.Votes.{has_voted-append, approve_count-append}
use helios_ci_cd.Approval.Changes.{approved-IsJustified, expired-IsJustified}
use helios_ci_cd.Approval.Outcomes.{
  unchanged, guard-Change, Change-later, SameTables, kept, if-SameTables1, if-Change,
}

module _ (service : Service) (o : Outside) where
  close-Change :
      (s : Store) (r : ApprovalRequest) (on_timeout status : String) (votes : List Approval)
      → find_request r.id s.requests ≡ some r
      → is_pending r ≡ true
      → Cast s.requests s.votes votes
      → IsJustified votes (record r { status = status; updated_at = o.now })
      → Change s.requests s (close o s r on_timeout status votes).1
  unfolding close
  close-Change s r on_timeout status votes found p c j = guard-Change s (not o.update_ok) _ _ (
      guard-Change s (not o.audit_ok) _ _
        (guard-Change s (not o.commit_ok) _ _ (decided r r _ found p found refl refl c j)))

  expire-Change :
      (s : Store) (r : ApprovalRequest) (on_timeout : String)
      → find_request r.id s.requests ≡ some r
      → is_pending r ≡ true
      → Change s.requests s (expire o s r on_timeout).1
  unfolding expire system_vote
  expire-Change s r on_timeout found p =
      if-Change s (str_eq on_timeout "reject") _ _ (late "timeout" (expired-IsJustified _ r o.now))
        (if-Change s (str_eq on_timeout "approve") _ _ auto (
          if-Change s (str_eq on_timeout "pause") _ _
            (late "timeout" (expired-IsJustified _ r o.now)) (unchanged s)))
    where
      late :
          (status : String)
          → IsJustified s.votes (record r { status = status; updated_at = o.now })
          → Change s.requests s (close o s r on_timeout status s.votes).1
      late status j = close-Change s r on_timeout status s.votes found p (no_vote refl) j

      voted :
          has_voted r.id "system" s.votes ≡ false
          → Change s.requests s
              (close o s r on_timeout "approved" (s.votes ++ system_vote o r ∷ [])).1
      voted new =
          close-Change s r on_timeout "approved" _ found p
            (one (system_vote o r) r found (inl refl) new refl)
            (approved-IsJustified _ r o.now
              (ground (arith, approve_count-append (system_vote o r) r.id s.votes))
              (λ m. inr (ground (arith, has_voted-append (system_vote o r) r.id "system" s.votes))))

      auto :
          Change s.requests s
            (if has_voted r.id "system" s.votes
              then (refused (query_error insert_row), s)
              else if not o.insert_ok
              then (refused (query_error insert_row), s)
              else close o s r on_timeout "approved" (s.votes ++ system_vote o r ∷ [])).1
      auto = elim (Bool-cases (has_voted r.id "system" s.votes)) [
        | inl e ↦ rw e (unchanged s)
        | inr e ↦ rw e (guard-Change s (not o.insert_ok) _ _ (voted e))
      ]

  expire_locked-Change :
      (s : Store) (id : ℕ) (row : Option ApprovalRequest)
      → find_request id s.requests ≡ row
      → Change s.requests s (expire_locked o s row).1
  unfolding expire_locked
  expire_locked-Change s id none e = unchanged s
  expire_locked-Change s id (some r) e = elim (Bool-cases (is_pending r)) [
    | inr not_pending ↦ rw not_pending (unchanged s)
    | inl p ↦
        rw p
          (if-Change s (is_early o.now r.timeout_at) _ _ (unchanged s) (expire-Change s r _ own p))
  ]
    where
      own : find_request r.id s.requests ≡ some r
      own =
          subst (λ k. find_request k s.requests ≡ some r) (sym (find_request-id id s.requests r e))
            e

  moved-SameTables :
      (t : TimeoutResult) (to : String) (s : Store) (out : Option Error × Db)
      → SameTables s (moved t to s out).1
  unfolding moved
  moved-SameTables t to s (none, db) = kept refl refl
  moved-SameTables t to s (some e, db) = kept refl refl

  move_run-SameTables :
      (stage_id : String) (t : TimeoutResult) (s : Store)
      → SameTables s (move_run service o stage_id t s).1
  unfolding move_run
  move_run-SameTables stage_id t s =
      if-SameTables1 s (t.no_op || not service.has_machine) _ _ (kept refl refl) (
        if-SameTables1 s (str_eq t.on_timeout "reject") _ _ (moved-SameTables t _ s _) (
          if-SameTables1 s (str_eq t.on_timeout "approve") _ _ (moved-SameTables t _ s _)
            (kept refl refl)))

  finish_timeout-Change :
      (stage_id : String) (s : Store) (out : Reply TimeoutResult × Store)
      → Change s.requests s out.1
      → Change s.requests s (finish_timeout service o stage_id out).1
  unfolding finish_timeout
  finish_timeout-Change stage_id s (refused e, s') h = h
  finish_timeout-Change stage_id s (done t, s') h =
      let tables = move_run-SameTables stage_id t s' in
      Change-later s s' _ h tables.requests_kept tables.votes_kept

  pub handle_timeout-Change :
      (s : Store) (id : ℕ) → Change s.requests s (handle_timeout service o s id).1
  unfolding handle_timeout
  handle_timeout-Change s id = guard-Change s (not service.has_db) _ _ (
      guard-Change s (not o.begin_ok) _ _ (
        guard-Change s (not o.select_ok) _ _
          (finish_timeout-Change _ s _ (expire_locked-Change s id _ refl))))
