-- ===== src/Runengine/Starting.antt =====
-- api/pkg/runengine/orchestrate.go: the loop of Advance that starts the ready stages.
use helios_ci_cd.Prelude.{
  ℕ, String, Bool, true, false, not, ◌&&◌, Option, none, some, List, [], ◌∷◌, ◌++◌, str_eq,
  if◌then◌else◌, Dict, lookup,
}
use helios_ci_cd.Engine.Dag.{Dag, Node}
use helios_ci_cd.Engine.Scheduler.{failed, Scheduler}
use helios_ci_cd.Engine.Scheduler.Reports.{complete}
use helios_ci_cd.Approval.{Store}
use helios_ci_cd.Runengine.{
  StageRow, StageExecutePayload, World, AdvanceOpts, Tick, AdvanceError, enqueue_failed,
}
use helios_ci_cd.Runengine.Rows.{update_stage_status}
use helios_ci_cd.Runengine.Approvals.{create_approval}

pub record AdvanceResult : Type 0 where
  pub done : Bool
  pub dispatched : List StageExecutePayload
  pub waiting_approval : List String
  pub run_outcome : String

abbrev pub nothing_yet : AdvanceResult
nothing_yet = record { done = false; dispatched = []; waiting_approval = []; run_outcome = "" }

-- The state of the loop over the ready nodes: what is next is done unless the queue failed.
pub record Loop : Type 0 where
  pub scheduler : Scheduler
  pub world : World
  pub result : AdvanceResult

-- An approval stage: its request is made, or the stage fails.
unfoldable pub request_approval : Tick → String → Loop → StageRow → Bool × Store → Loop
request_approval t id l row (true, store) =
    let w = record l.world { store = store } in
    record l {
      world = update_stage_status t w row.id "approval" none;
      result = record l.result { waiting_approval = l.result.waiting_approval ++ id ∷ [] };
    }
request_approval t id l row (false, store) =
    let w = record l.world { store = store } in
    record l {
      scheduler = (complete l.scheduler id failed).1;
      world = update_stage_status t w row.id "failed" (some 1);
    }

unfoldable pub task_of : ℕ → ℕ → String → StageRow → StageExecutePayload
task_of run_id project_id id row = record {
  run_id = run_id;
  project_id = project_id;
  stage_record_id = row.id;
  stage_id = id;
}

-- Any other stage: it runs, and its task is queued.
unfoldable pub execute_stage :
    AdvanceOpts → Tick → ℕ → ℕ → String → Loop → StageRow → Option AdvanceError × Loop
execute_stage opts t run_id project_id id l row =
    let task = task_of run_id project_id id row in
    let w = update_stage_status t l.world row.id "running" none in
    if opts.has_stage_queue && not (t.queue_ok id)
    then (some (enqueue_failed id), record l { world = w })
    else (
      none,
      record l {
        world =
            if opts.has_stage_queue
            then record w { stage_tasks = w.stage_tasks ++ task ∷ [] }
            else w;
        result = record l.result { dispatched = l.result.dispatched ++ task ∷ [] };
      },
    )

-- What a tick works with beside its state.
pub record Context : Type 0 where
  pub opts : AdvanceOpts
  pub tick : Tick
  pub parse_duration : String → Option ℕ
  pub run_id : ℕ
  pub project_id : ℕ

unfoldable pub start_stage :
    Context → String → Loop → StageRow → Option Node → Option AdvanceError × Loop
start_stage c id l row none = execute_stage c.opts c.tick c.run_id c.project_id id l row
start_stage c id l row (some node) =
    if str_eq node.stage.type "approval"
    then (
      none,
      request_approval c.tick id l row (
          create_approval c.parse_duration c.opts (c.tick.outside id) l.world.store c.run_id
            node.stage),
    )
    else execute_stage c.opts c.tick c.run_id c.project_id id l row

-- A ready node that has no row is passed over.
unfoldable pub start_row :
    Context → Dag → Loop → String → Option StageRow → Option AdvanceError × Loop
start_row c dag l id none = (none, l)
start_row c dag l id (some row) = start_stage c id l row (lookup id dag.nodes)

unfoldable pub start_node :
    Context → Dag → Dict StageRow → Loop → String → Option AdvanceError × Loop
start_node c dag rows l id = start_row c dag l id (lookup id rows)

unfoldable pub then_nodes :
    (Loop → Option AdvanceError × Loop) → Option AdvanceError × Loop → Option AdvanceError × Loop
then_nodes next (some e, l) = (some e, l)
then_nodes next (none, l) = next l

unfoldable pub start_all :
    Context → Dag → Dict StageRow → Loop → List String → Option AdvanceError × Loop
start_all c dag rows l [] = (none, l)
start_all c dag rows l (id ∷ ids) =
    then_nodes (λ l'. start_all c dag rows l' ids) (start_node c dag rows l id)
