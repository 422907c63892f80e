-- ===== src/Runengine/Orchestrate/Examples.antt =====
-- Ticks of api/pkg/runengine/orchestrate.go on a small pipeline.
use helios_ci_cd.Prelude.{
  ℕ, String, true, false, ◌≡◌, refl, none, some, List, [], ◌∷◌, ◌==◌, if◌then◌else◌, lookup, insert,
  remove, has_key,
}
use helios_ci_cd.Runstate.{running}
use helios_ci_cd.Runstate.Machine.{Run, Calls}
use helios_ci_cd.Dsl.{Stage, Pipeline}
use helios_ci_cd.Engine.Dag.{build_dag, add_stages, connect_nodes, connect_all, connect, modify}
use helios_ci_cd.Engine.Scheduler.{new_scheduler, next_ready, status_of}
use helios_ci_cd.Engine.Scheduler.Reports.{restore_from_db, done}
use helios_ci_cd.Runengine.Rows.{update_stage_status, update_rows, stage_with}
use helios_ci_cd.Approval.{Outside}
use helios_ci_cd.Runengine.{StageRow, StageExecutePayload, World, ok}
use helios_ci_cd.Runengine.Sync.{
  stage_by_node, status_map, sync_approval_stages, sync_one, mark_skipped_stages,
}
use helios_ci_cd.Runengine.Starting.{
  Context, start_all, start_node, start_row, start_stage, execute_stage, then_nodes, task_of,
}
use helios_ci_cd.Runengine.Orchestrate.{drive, wind_up}
use helios_ci_cd.Runengine.Orchestrate.Dispatching.{Queued, IsStage}
use helios_ci_cd.Runengine.Orchestrate.Fresh.{IsStoredPending, drive-Queued}

abbrev stage : String → List String → Stage
stage id needs = record {
  id = id;
  name = "";
  needs = needs;
  type = "";
  if_expr = "";
  runs_on = none;
  matrix = none;
  steps = [];
  uses = "";
  with = [];
  env = [];
  secrets = [];
  outputs = [];
  services = [];
  approvers = [];
  mode = "";
  timeout = "";
  on_timeout = "";
}

abbrev pipeline_of : List Stage → Pipeline
pipeline_of stages = record {
  version = "1";
  name = "demo";
  description = "";
  triggers = [];
  env = [];
  variables = [];
  stages = stages;
  extra = [];
}

abbrev calls : Calls
calls = record {
  now = 5;
  begin_ok = true;
  select_ok = true;
  update_ok = true;
  insert_ok = true;
  commit_ok = true;
}

abbrev outside : Outside
outside = record {
  now = 5;
  new_id = 5;
  begin_ok = true;
  select_ok = true;
  load_ok = true;
  insert_ok = true;
  count_ok = true;
  update_ok = true;
  audit_ok = true;
  commit_ok = true;
  queue_ok = true;
  load_run_ok = true;
  machine = calls;
}

abbrev context : Context
context = record {
  opts = record {
    has_db = true;
    has_machine = true;
    has_stage_queue = true;
    has_timeout_queue = true;
  };
  tick = record {
    now = 5;
    load_run_ok = true;
    count_ok = true;
    list_ok = true;
    insert_ok = λ id. true;
    update_ok = λ id. true;
    approval_ok = λ id. true;
    outside = λ id. outside;
    queue_ok = λ id. true;
    machine = calls;
  };
  parse_duration = λ text. none;
  run_id = 1;
  project_id = 7;
}

abbrev active : Run
active = record {
  status = running;
  started_at = some 1;
  finished_at = none;
  message = none;
  duration_ms = none;
}

abbrev row : ℕ → String → List String → String → StageRow
row id stage_id needs status = record {
  id = id;
  run_id = 1;
  stage_id = stage_id;
  name = stage_id;
  status = status;
  needs = needs;
  matrix_index = none;
  matrix_values = none;
  started_at = none;
  finished_at = none;
  exit_code = none;
}

abbrev world : List StageRow → World
world rows = record {
  store = record {
    core = record { runs = λ id. if id == 1 then some active else none; audit_logs = [] };
    project_of = λ id. 7;
    requests = [];
    votes = [];
    audit_logs = [];
    timeout_tasks = [];
    orchestrate_tasks = [];
  };
  version_of = λ id. 3;
  stages = rows;
  steps = [];
  row_seq = 10;
  stage_tasks = [];
}

abbrev line : Pipeline
line = pipeline_of (stage "build" [] ∷ stage "test" ("build" ∷ []) ∷ [])

abbrev line_rows : List StageRow
line_rows = row 1 "build" [] "success" ∷ row 2 "test" ("build" ∷ []) "pending" ∷ []

abbrev test_task : StageExecutePayload
test_task = record { run_id = 1; project_id = 7; stage_record_id = 2; stage_id = "test" }

drive-Queued_example :
    Queued
      (IsStage (IsStoredPending line_rows) (build_dag (some line)) (stage_by_node line_rows []))
      (world line_rows)
      (drive context (build_dag (some line)) line_rows (world line_rows)).1
drive-Queued_example = drive-Queued context (build_dag (some line)) line_rows (world line_rows)

-- The tick after the build queues the tests.
test_is_queued :
    (drive context (build_dag (some line)) line_rows (world line_rows)).1.stage_tasks
    ≡ test_task ∷ []
unfolding drive restore_from_db new_scheduler status_map sync_approval_stages sync_one
    mark_skipped_stages next_ready done start_all start_node start_row start_stage execute_stage
    then_nodes task_of stage_by_node wind_up lookup insert update_stage_status update_rows
    stage_with build_dag add_stages connect_nodes connect_all connect modify has_key status_of
    remove
test_is_queued = refl

abbrev backwards : Pipeline
backwards =
    pipeline_of (stage "ship" ("test" ∷ []) ∷ stage "test" ("build" ∷ []) ∷ stage "build" [] ∷ [])

abbrev backwards_rows : List StageRow
backwards_rows =
    row 1 "ship" ("test" ∷ []) "pending"
    ∷ row 2 "test" ("build" ∷ []) "pending"
    ∷ row 3 "build" [] "failed"
    ∷ []

-- With the stages declared before what they need, the tick after a failure neither queues anything
-- nor ends the run: the one pass over the nodes skips "test" after it has looked at "ship".
backwards_stalls :
    drive context (build_dag (some backwards)) backwards_rows (world backwards_rows) ≡ (
      ok (record { done = false; dispatched = []; waiting_approval = []; run_outcome = "" }),
      world backwards_rows,
    )
unfolding drive restore_from_db new_scheduler status_map sync_approval_stages sync_one
    mark_skipped_stages next_ready done start_all start_node start_row start_stage execute_stage
    then_nodes task_of stage_by_node wind_up lookup insert update_stage_status update_rows
    stage_with build_dag add_stages connect_nodes connect_all connect modify has_key status_of
    remove
backwards_stalls = refl
