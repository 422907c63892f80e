-- ===== src/Runengine/Approvals.antt =====
-- api/pkg/runengine/approval_create.go: the request of an approval stage. time.ParseDuration is a
-- parameter; a negative duration is not modelled.
use Prim.Native.String.{◌++◌ as ◌<>◌}
use helios_ci_cd.Prelude.{
  ℕ, ◌+◌, String, Bool, true, false, not, ◌&&◌, Option, none, some, [], ◌∷◌, ◌++◌, ltb, str_eq,
  if◌then◌else◌,
}
use helios_ci_cd.Runstate.Machine.{Db, Error, TransitionOpts, mark_approval}
use helios_ci_cd.Dsl.{Stage}
use helios_ci_cd.Approval.{ApprovalRequest, Store, Outside}
use helios_ci_cd.Approval.Requests.{can_insert}
use helios_ci_cd.Runengine.{AdvanceOpts}

-- The duration of the stage's timeout: none where it cannot be parsed, and inside it none where the
-- stage has no timeout.
unfoldable pub stage_timeout : (String → Option ℕ) → Stage → Option (Option ℕ)
stage_timeout parse s =
    if str_eq s.timeout ""
    then some none
    else elim (parse s.timeout) [ none ↦ none | some d ↦ some (some d) ]

unfoldable pub deadline : ℕ → Option ℕ → Option ℕ
deadline now none = none
deadline now (some d) = some (now + d)

unfoldable pub stage_request : Outside → ℕ → Stage → Option ℕ → ApprovalRequest
stage_request o run_id s timeout = record {
  id = o.new_id;
  run_id = run_id;
  stage_id = s.id;
  required_approvers = s.approvers;
  mode = if str_eq s.mode "" then "any" else s.mode;
  status = "pending";
  on_timeout = if str_eq s.on_timeout "" then "reject" else s.on_timeout;
  timeout_at = deadline o.now timeout;
  created_at = o.now;
  updated_at = o.now;
}

-- A delay of 0 is not queued, and an error of the queue is dropped.
unfoldable pub queue_timeout : AdvanceOpts → Outside → ApprovalRequest → Option ℕ → Store → Store
queue_timeout opts o r none store = store
queue_timeout opts o r (some d) store =
    if opts.has_timeout_queue && (ltb 0 d && o.queue_ok)
    then record store { timeout_tasks = store.timeout_tasks ++ (r.id, d) ∷ [] }
    else store

unfoldable pub stage_opts : Stage → TransitionOpts
stage_opts s = record {
  reason = "waiting approval on stage " <> s.id;
  actor_id = none;
  org_id = none;
  project_id = none;
  extra = [];
}

-- After the run was asked to wait: an error is returned, with the request already there.
unfoldable pub after_mark :
    AdvanceOpts → Outside → ApprovalRequest → Option ℕ → Store → Option Error × Db → Bool × Store
after_mark opts o r timeout store (none, db) =
    (true, queue_timeout opts o r timeout (record store { core = db }))
after_mark opts o r timeout store (some e, db) = (false, record store { core = db })

unfoldable pub insert_approval : AdvanceOpts → Outside → Store → ℕ → Stage → Option ℕ → Bool × Store
insert_approval opts o store run_id s timeout =
    let r = stage_request o run_id s timeout in
    let inserted = record store { requests = store.requests ++ r ∷ [] } in
    if not (o.insert_ok && can_insert r store)
    then (false, store)
    else if not opts.has_machine
    then (true, queue_timeout opts o r timeout inserted)
    else after_mark opts o r timeout inserted
        (mark_approval o.machine inserted.core run_id (stage_opts s))

-- CreateApproval: whether it succeeded, and the store.
unfoldable pub create_approval :
    (String → Option ℕ) → AdvanceOpts → Outside → Store → ℕ → Stage → Bool × Store
create_approval parse opts o store run_id s =
    if not (str_eq s.type "approval") then (false, store) else elim (stage_timeout parse s) [
      | none ↦ (false, store)
      | some timeout ↦ insert_approval opts o store run_id s timeout
    ]
