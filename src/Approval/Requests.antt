-- ===== src/Approval/Requests.antt =====
-- ApprovalService.Create and ListByRun of api/internal/service/approval.go, with the constraints of
-- the table `approval_requests` that an insert meets.
use Prim.Native.String.{◌++◌ as ◌<>◌}
use helios_ci_cd.Prelude.{
  ℕ, ◌+◌, String, Bool, true, false, not, ◌&&◌, ◌||◌, Option, none, some, List, [], ◌∷◌, ◌++◌, ltb,
  ◌==◌, str_eq, select, map, if◌then◌else◌,
}
use helios_ci_cd.Runstate.Machine.{TransitionOpts, mark_approval}
use helios_ci_cd.Approval.{
  ApprovalRequest, Approval, Store, Service, Outside, db_unavailable, no_approvers,
  unsupported_mode, query_error, insert_row, select_row, Reply, done, refused, find_pending, has_id,
}

-- `timeout` is in nanoseconds; a negative one counts as 0 here, as the source only asks whether it
-- is positive.
pub record CreateInput : Type 0 where
  pub run_id : ℕ
  pub stage_id : String
  pub required_approvers : List String
  pub mode : String
  pub on_timeout : String
  pub timeout : ℕ

abbrev or_default : String → String → String
or_default s d = if str_eq s "" then d else s

abbrev pub is_some {ℓ} : {A : Type ℓ} → Option A → Bool
is_some none = false
is_some (some a) = true

-- The row that Create inserts.
unfoldable pub new_request : Outside → CreateInput → ApprovalRequest
new_request o i = record {
  id = o.new_id;
  run_id = i.run_id;
  stage_id = i.stage_id;
  required_approvers = i.required_approvers;
  mode = or_default i.mode "any";
  status = "pending";
  on_timeout = or_default i.on_timeout "reject";
  timeout_at = if ltb 0 i.timeout then some (o.now + i.timeout) else none;
  created_at = o.now;
  updated_at = o.now;
}

-- The CHECK clauses of the table for a new row.
checks_hold : ApprovalRequest → Bool
checks_hold r =
    (str_eq r.mode "any" || str_eq r.mode "all")
    && (str_eq r.on_timeout "reject"
        || (str_eq r.on_timeout "approve" || str_eq r.on_timeout "pause"))

-- The primary key, the reference to `runs`, the CHECK clauses, and the index
-- uq_approval_pending_per_stage.
unfoldable pub can_insert : ApprovalRequest → Store → Bool
unfolding checks_hold
can_insert r s =
    not (has_id r.id s.requests)
    && (is_some (s.core.runs r.run_id)
        && (checks_hold r && not (is_some (find_pending r.run_id r.stage_id s.requests))))

waiting_opts : String → TransitionOpts
waiting_opts stage_id = record {
  reason = "waiting approval on stage=" <> stage_id;
  actor_id = none;
  org_id = none;
  project_id = none;
  extra = [];
}

-- After the insert: the run goes to approval, and the delayed task is put in its queue. A failure
-- of either is only logged.
unfoldable pub announce : Service → Outside → CreateInput → ApprovalRequest → Store → Store
unfolding waiting_opts
announce service o i r s = record s {
  core =
      if service.has_machine
      then (mark_approval o.machine s.core i.run_id (waiting_opts i.stage_id)).1
      else s.core;
  timeout_tasks =
      if service.has_timeout_queue && (ltb 0 i.timeout && o.queue_ok)
      then s.timeout_tasks ++ (r.id, i.timeout) ∷ []
      else s.timeout_tasks;
}

unfoldable pub insert_request :
    Service → Outside → CreateInput → Store → Reply ApprovalRequest × Store
insert_request service o i s =
    let r = new_request o i in
    if not (o.insert_ok && can_insert r s)
    then (refused (query_error insert_row), s)
    else (done r, announce service o i r (record s { requests = s.requests ++ r ∷ [] }))

-- Create
unfoldable pub create : Service → Outside → Store → CreateInput → Reply ApprovalRequest × Store
create service o s i =
    let mode = or_default i.mode "any" in
    if not service.has_db
    then (refused db_unavailable, s)
    else if not (str_eq mode "any" || str_eq mode "all")
    then (refused (unsupported_mode mode), s)
    else elim i.required_approvers [
      | [] ↦ (refused no_approvers, s)
      | a ∷ rest ↦ insert_request service o i s
    ]

-- ListByRun: the requests of a run, each with its votes; the votes are read only if there is a request.
-- Rows stand in the order of their creation.
unfoldable pub list_by_run :
    Service → Outside → Store → ℕ → Reply (List (ApprovalRequest × List Approval))
list_by_run service o s run_id =
    if not service.has_db
    then refused db_unavailable
    else if not o.select_ok
    then refused (query_error select_row)
    else elim (select (λ r. r.run_id == run_id) s.requests) [
      | [] ↦ done []
      | r ∷ rows ↦
          if not o.load_ok
          then refused (query_error select_row)
          else done (map (λ q. (q, select (λ v. v.request_id == q.id) s.votes)) (r ∷ rows))
    ]
