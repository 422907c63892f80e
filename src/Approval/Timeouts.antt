-- ===== src/Approval/Timeouts.antt =====
-- api/pkg/approval/timeout.go: HandleTimeout, run by the worker when the delayed task of a request
-- fires. Its transaction is one step; the run moves after the commit.
use Prim.Native.String.{◌++◌ as ◌<>◌}
use helios_ci_cd.Prelude.{
  ℕ, ◌+◌, String, Bool, true, false, not, ◌||◌, Option, none, some, List, [], ◌∷◌, ◌++◌, ltb,
  str_eq, if◌then◌else◌,
}
use helios_ci_cd.Prelude.Json.{text, num, pos}
use helios_ci_cd.Runstate.{running, timeout}
use helios_ci_cd.Runstate.Machine.{Db, AuditLog, TransitionOpts, Error, mark_running, mark_timeout}
use helios_ci_cd.Approval.{
  approve, ApprovalRequest, Approval, Store, Service, Outside, db_unavailable, not_found,
  unknown_on_timeout, query_error, begin_tx, select_row, insert_row, update_request, insert_audit,
  commit_tx, Reply, done, refused, is_pending, find_request, save_request, has_voted,
}

-- `run_status` is "" where the run was not moved.
pub record TimeoutResult : Type 0 where
  pub request_id : ℕ
  pub run_id : ℕ
  pub on_timeout : String
  pub new_status : String
  pub run_status : String
  pub no_op : Bool

-- timeoutAt is more than a second ahead.
unfoldable pub is_early : ℕ → Option ℕ → Bool
is_early now none = false
is_early now (some t) = ltb (now + 1000000000) t

no_op_result : ApprovalRequest → TimeoutResult
no_op_result r = record {
  request_id = r.id;
  run_id = r.run_id;
  on_timeout = r.on_timeout;
  new_status = r.status;
  run_status = "";
  no_op = true;
}

unfoldable pub system_vote : Outside → ApprovalRequest → Approval
system_vote o r = record {
  id = o.new_id;
  request_id = r.id;
  user_id = none;
  username = "system";
  decision = approve;
  comment = "system auto-approve on timeout (mode=" <> (r.mode <> ")");
  created_at = o.now;
}

timeout_audit : Outside → ApprovalRequest → (on_timeout status : String) → AuditLog
timeout_audit o r on_timeout status = record {
  actor_id = none;
  org_id = none;
  action = "approval.timeout";
  resource_id = r.id;
  payload =
      ("request_id", num (pos r.id))
      ∷ ("stage_id", text r.stage_id)
      ∷ ("on_timeout", text on_timeout)
      ∷ ("new_status", text status)
      ∷ ("mode", text r.mode)
      ∷ ("actor", text "system")
      ∷ [];
  created_at = o.now;
}

-- UPDATE approval_requests … WHERE id = $3 AND status = 'pending', the audit row, the commit. The row
-- is locked and pending.
unfoldable pub close :
    Outside
    → Store
    → ApprovalRequest
    → (on_timeout status : String) → List Approval
    → Reply TimeoutResult × Store
unfolding timeout_audit
close o s r on_timeout status votes =
    if not o.update_ok
    then (refused (query_error update_request), s)
    else if not o.audit_ok
    then (refused (query_error insert_audit), s)
    else if not o.commit_ok
    then (refused (query_error commit_tx), s)
    else (
      done (record {
        request_id = r.id;
        run_id = r.run_id;
        on_timeout = on_timeout;
        new_status = status;
        run_status = "";
        no_op = false;
      }),
      record s {
        requests = save_request (record r { status = status; updated_at = o.now }) s.requests;
        votes = votes;
        audit_logs = s.audit_logs ++ timeout_audit o r on_timeout status ∷ [];
      },
    )

-- The three strategies. The system's vote meets UNIQUE (request_id, username).
unfoldable pub expire : Outside → Store → ApprovalRequest → String → Reply TimeoutResult × Store
expire o s r on_timeout =
    if str_eq on_timeout "reject"
    then close o s r on_timeout "timeout" s.votes
    else if str_eq on_timeout "approve"
    then if has_voted r.id "system" s.votes
      then (refused (query_error insert_row), s)
      else if not o.insert_ok
      then (refused (query_error insert_row), s)
      else close o s r on_timeout "approved" (s.votes ++ system_vote o r ∷ [])
    else if str_eq on_timeout "pause"
    then close o s r on_timeout "timeout" s.votes
    else (refused (unknown_on_timeout on_timeout), s)

unfoldable pub expire_locked :
    Outside → Store → Option ApprovalRequest → Reply TimeoutResult × Store
unfolding no_op_result
expire_locked o s none = (refused not_found, s)
expire_locked o s (some r) =
    if not (is_pending r)
    then (done (no_op_result r), s)
    else if is_early o.now r.timeout_at
    then (done (no_op_result r), s)
    else expire o s r (if str_eq r.on_timeout "" then "reject" else r.on_timeout)

plain_opts : String → TransitionOpts
plain_opts reason = record {
  reason = reason;
  actor_id = none;
  org_id = none;
  project_id = none;
  extra = [];
}

unfoldable pub moved :
    TimeoutResult → String → Store → Option Error × Db → Reply TimeoutResult × Store
moved t to s (none, db) = (done (record t { run_status = to }), record s { core = db })
moved t to s (some e, db) = (done t, record s { core = db })

-- After the commit; `stage_id` is the one that was scanned.
unfoldable pub move_run :
    Service → Outside → String → TimeoutResult → Store → Reply TimeoutResult × Store
unfolding plain_opts
move_run service o stage_id t s =
    let reason = "approval on_timeout=" <> (t.on_timeout <> (" on stage=" <> stage_id)) in
    if t.no_op || not service.has_machine
    then (done t, s)
    else if str_eq t.on_timeout "reject"
    then moved t timeout s (mark_timeout o.machine s.core t.run_id reason (plain_opts ""))
    else if str_eq t.on_timeout "approve"
    then moved t running s (mark_running o.machine s.core t.run_id (plain_opts reason))
    else (done t, s)

unfoldable pub finish_timeout :
    Service → Outside → String → Reply TimeoutResult × Store → Reply TimeoutResult × Store
finish_timeout service o stage_id (refused e, s) = (refused e, s)
finish_timeout service o stage_id (done t, s) = move_run service o stage_id t s

unfoldable pub stage_of : Option ApprovalRequest → String
stage_of none = ""
stage_of (some r) = r.stage_id

-- HandleTimeout
unfoldable pub handle_timeout : Service → Outside → Store → ℕ → Reply TimeoutResult × Store
handle_timeout service o s id =
    let row = find_request id s.requests in
    if not service.has_db
    then (refused db_unavailable, s)
    else if not o.begin_ok
    then (refused (query_error begin_tx), s)
    else if not o.select_ok
    then (refused (query_error select_row), s)
    else finish_timeout service o (stage_of row) (expire_locked o s row)
