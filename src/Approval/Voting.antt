-- ===== src/Approval/Voting.antt =====
-- ApprovalService.Approve, Reject and vote of api/internal/service/approval.go, and ResumeOrchestrate
-- of api/pkg/runengine/dispatch.go. The transaction locks the run's row, but not that of the request:
-- it reads the request in one store and writes it, by its id, in a later one. Nothing is kept unless it
-- commits. The run itself moves after the commit.
use Prim.Native.String.{◌++◌ as ◌<>◌}
use helios_ci_cd.Prelude.{
  ℕ, String, Bool, false, not, ◌&&◌, Option, none, some, List, [], ◌∷◌, ◌++◌, leb, length, str_eq,
  if◌then◌else◌,
}
use helios_ci_cd.Prelude.Json.{text, num, pos}
use helios_ci_cd.Runstate.{running, approval, failed}
use helios_ci_cd.Runstate.Machine.{
  Run, Db, AuditLog, TransitionOpts, Error, mark_running, mark_failed,
}
use helios_ci_cd.Approval.{
  Decision, approve, reject, ApprovalRequest, Approval, Store, Service, Outside, db_unavailable,
  username_required, not_found, not_approver, already_voted, run_not_in_approval, query_error,
  begin_tx, select_row, load_request, insert_row, count_votes, update_request, insert_audit,
  commit_tx, Reply, done, refused, decision_text, find_pending, save_request, has_voted,
  approve_count, is_approver,
}

pub record VoteInput : Type 0 where
  pub run_id : ℕ
  pub stage_id : String
  pub user_id : Option ℕ
  pub username : String
  pub comment : String

-- `next_run_status` is "" where the run is to stay as it is.
pub record VoteResult : Type 0 where
  pub request : ApprovalRequest
  pub vote : Approval
  pub next_run_status : String

unfoldable pub ballot : Outside → VoteInput → Decision → ApprovalRequest → Approval
ballot o i d r = record {
  id = o.new_id;
  request_id = r.id;
  user_id = i.user_id;
  username = i.username;
  decision = d;
  comment = i.comment;
  created_at = o.now;
}

-- The request's status after the vote, and the run's next status: `votes` holds the new vote.
unfoldable pub resolve : Decision → ApprovalRequest → List Approval → String × String
resolve reject r votes = ("rejected", failed)
resolve approve r votes =
    if str_eq r.mode "any"
    then ("approved", running)
    else if str_eq r.mode "all" && leb (length r.required_approvers) (approve_count r.id votes)
    then ("approved", running)
    else (r.status, "")

-- Only an approval in mode all counts the votes.
unfoldable pub counts : Decision → ApprovalRequest → Bool
counts reject r = false
counts approve r = str_eq r.mode "all"

unfoldable pub vote_audit : Outside → VoteInput → Decision → ApprovalRequest → AuditLog
vote_audit o i d r = record {
  actor_id = i.user_id;
  org_id = none;
  action = "approval." <> decision_text d;
  resource_id = r.id;
  payload =
      ("decision", text (decision_text d))
      ∷ ("username", text i.username)
      ∷ ("request_id", num (pos r.id))
      ∷ ("stage_id", text r.stage_id)
      ∷ ("comment", text i.comment)
      ∷ [];
  created_at = o.now;
}

-- The request as it is after the vote, and the table with it: Save is only called for a decision.
abbrev pub decided_request : Outside → ApprovalRequest → String → ApprovalRequest
decided_request o r status =
    if str_eq status "pending" then r else record r { status = status; updated_at = o.now }

abbrev pub decided_requests :
    Outside → ApprovalRequest → String → List ApprovalRequest → List ApprovalRequest
decided_requests o r status rs =
    if str_eq status "pending"
    then rs
    else save_request (record r { status = status; updated_at = o.now }) rs

-- The end of the transaction: the request, the audit row, the commit.
unfoldable pub settle :
    Outside
    → Store
    → VoteInput
    → Decision
    → ApprovalRequest
    → String × String
    → Reply VoteResult × Store
settle o s i d r (status, next_run) =
    if not (str_eq status "pending") && not o.update_ok
    then (refused (query_error update_request), s)
    else if not o.audit_ok
    then (refused (query_error insert_audit), s)
    else if not o.commit_ok
    then (refused (query_error commit_tx), s)
    else (
      done (record {
        request = decided_request o r status;
        vote = ballot o i d r;
        next_run_status = next_run;
      }),
      record s {
        requests = decided_requests o r status s.requests;
        votes = s.votes ++ ballot o i d r ∷ [];
        audit_logs = s.audit_logs ++ vote_audit o i d r ∷ [];
      },
    )

-- The vote on the pending request that was read, if there is one.
unfoldable pub cast :
    Outside → Store → VoteInput → Decision → Option ApprovalRequest → Reply VoteResult × Store
cast o s i d none = (refused not_found, s)
cast o s i d (some r) =
    if not (is_approver i.username r.required_approvers)
    then (refused not_approver, s)
    else if has_voted r.id i.username s.votes
    then (refused already_voted, s)
    else if not o.insert_ok
    then (refused (query_error insert_row), s)
    else if counts d r && not o.count_ok
    then (refused (query_error count_votes), s)
    else settle o s i d r (resolve d r (s.votes ++ ballot o i d r ∷ []))

-- The transaction with the run's row locked: `s` is the store when the request is read, `t` the store
-- when the vote is inserted.
unfoldable pub vote_locked :
    Outside → (s t : Store) → VoteInput → Decision → Option Run → Reply VoteResult × Store
vote_locked o s t i d none = (refused not_found, t)
vote_locked o s t i d (some run) =
    if str_eq run.status ""
    then (refused not_found, t)
    else if not (str_eq run.status approval)
    then (refused (run_not_in_approval run.status), t)
    else if not o.load_ok
    then (refused (query_error load_request), t)
    else cast o t i d (find_pending i.run_id i.stage_id s.requests)

-- ResumeOrchestrate: the run is loaded, and a tick is queued. LoadRun is told by `load_run_ok`.
unfoldable pub resume_orchestrate : Service → Outside → ℕ → Store → Store
resume_orchestrate service o run_id s =
    if service.has_orchestrate_queue && (o.load_run_ok && o.queue_ok)
    then record s { orchestrate_tasks = s.orchestrate_tasks ++ (run_id, s.project_of run_id) ∷ [] }
    else s

unfoldable pub vote_reason : VoteInput → Decision → String
vote_reason i d =
    "approval " <> (decision_text d <> (" by " <> (i.username <> (" on stage=" <> i.stage_id))))

unfoldable pub vote_opts : VoteInput → String → TransitionOpts
vote_opts i reason = record {
  reason = reason;
  actor_id = i.user_id;
  org_id = none;
  project_id = none;
  extra = [];
}

-- A failed Transition is only logged; the scheduler is woken after a successful move to running.
unfoldable pub after_move : Service → Outside → ℕ → Store → Option Error × Db → Store
unfolding resume_orchestrate
after_move service o run_id s (none, db) =
    resume_orchestrate service o run_id (record s { core = db })
after_move service o run_id s (some e, db) = record s { core = db }

-- After the commit.
unfoldable pub push_run : Service → Outside → VoteInput → Decision → String → Store → Store
unfolding vote_reason vote_opts
push_run service o i d next_run s =
    let reason = vote_reason i d in
    if not service.has_machine
    then s
    else if str_eq next_run running
    then after_move service o i.run_id s
        (mark_running o.machine s.core i.run_id (vote_opts i reason))
    else if str_eq next_run failed
    then record s { core = (mark_failed o.machine s.core i.run_id reason (vote_opts i "")).1 }
    else s

unfoldable pub finish_vote :
    Service → Outside → VoteInput → Decision → Reply VoteResult × Store → Reply VoteResult × Store
finish_vote service o i d (refused e, s) = (refused e, s)
finish_vote service o i d (done v, s) = (done v, push_run service o i d v.next_run_status s)

-- vote: Approve and Reject are its two decisions.
unfoldable pub vote :
    Service → Outside → (s t : Store) → VoteInput → Decision → Reply VoteResult × Store
vote service o s t i d =
    if not service.has_db
    then (refused db_unavailable, t)
    else if str_eq i.username ""
    then (refused username_required, t)
    else if not o.begin_ok
    then (refused (query_error begin_tx), t)
    else if not o.select_ok
    then (refused (query_error select_row), t)
    else finish_vote service o i d (vote_locked o s t i d (s.core.runs i.run_id))
