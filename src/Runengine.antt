-- ===== src/Runengine.antt =====
-- api/pkg/runengine: the orchestration of a run with several stages. The database is that of the
-- approvals, with the tables `stages` and `steps`; each statement is its own transaction, so what was
-- written before an error stays. The stored spec of a version, parsed by YAML, is a parameter.
pub mod Rows
pub mod Bootstrap
pub mod Approvals
pub mod Sync
pub mod Starting
pub mod Orchestrate
pub mod Outputs
use helios_ci_cd.Prelude.{ℕ, String, Bool, Option, List, Dict}
use helios_ci_cd.Prelude.Json.{Json}
use helios_ci_cd.Runstate.Machine.{Error, Calls}
use helios_ci_cd.Dsl.{Pipeline}
use helios_ci_cd.Engine.Matrix.{MatrixError}
use helios_ci_cd.Approval.{Store, Outside}

-- The columns of `stages`.
pub record StageRow : Type 0 where
  pub id : ℕ
  pub run_id : ℕ
  pub stage_id : String
  pub name : String
  pub status : String
  pub needs : List String
  pub matrix_index : Option ℕ
  pub matrix_values : Option Json
  pub started_at : Option ℕ
  pub finished_at : Option ℕ
  pub exit_code : Option ℕ

pub record StepRow : Type 0 where
  pub id : ℕ
  pub stage_record_id : ℕ
  pub step_index : ℕ
  pub name : String
  pub uses : String
  pub status : String

-- tasks.StageExecutePayload
pub record StageExecutePayload : Type 0 where
  pub run_id : ℕ
  pub project_id : ℕ
  pub stage_record_id : ℕ
  pub stage_id : String

-- `row_seq` is the next key of the tables `stages` and `steps`.
pub record World : Type 0 where
  pub store : Store
  pub version_of : ℕ → ℕ
  pub stages : List StageRow
  pub steps : List StepRow
  pub row_seq : ℕ
  pub stage_tasks : List StageExecutePayload

-- What an orchestrator is configured with.
pub record AdvanceOpts : Type 0 where
  pub has_db : Bool
  pub has_machine : Bool
  pub has_stage_queue : Bool
  pub has_timeout_queue : Bool

-- The clock and the outcome of each call to the outside: of the selects, of the insert and of the
-- update of a row by its key, of what concerns the approval of a stage, and of the queue.
pub record Tick : Type 0 where
  pub now : ℕ
  pub load_run_ok : Bool
  pub count_ok : Bool
  pub list_ok : Bool
  pub insert_ok : ℕ → Bool
  pub update_ok : ℕ → Bool
  pub approval_ok : String → Bool
  pub outside : String → Outside
  pub queue_ok : String → Bool
  pub machine : Calls

pub data AdvanceError : Type 0 where
  db_required run_not_found no_stages bad_spec panicked load_failed count_failed list_failed
        stage_not_found :
      AdvanceError
  expand_failed : MatrixError → AdvanceError
  cycle : List String → AdvanceError
  insert_failed enqueue_failed : String → AdvanceError
  machine_failed : Error → AdvanceError

pub data Reply {ℓ} (A : Type ℓ) : Type ℓ where
  ok : A → Reply A
  err : AdvanceError → Reply A
