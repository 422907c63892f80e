-- ===== src/Runengine/Rows.antt =====
-- api/pkg/runengine/store.go: the statements on the tables `stages` and `steps`.
use helios_ci_cd.Prelude.{
  ℕ, suc, String, Option, none, some, List, [], ◌∷◌, ◌++◌, ◌==◌, ltb, length, select, str_eq, ◌||◌,
  ◌&&◌, if◌then◌else◌,
}
use helios_ci_cd.Prelude.Json.{Json}
use helios_ci_cd.Approval.{ApprovalRequest}
use helios_ci_cd.Runengine.{StageRow, StepRow, World, Tick}

-- ListStages, of the rows: in the order of their keys, in which the table is kept.
unfoldable pub list_stages : World → ℕ → List StageRow
list_stages w run_id = select (λ row. row.run_id == run_id) w.stages

-- CountStages
unfoldable pub count_stages : World → ℕ → ℕ
unfolding list_stages
count_stages w run_id = length (list_stages w run_id)

-- ListSteps
unfoldable pub list_steps : World → ℕ → List StepRow
list_steps w id = select (λ step. step.stage_record_id == id) w.steps

-- InsertStage, with the key that it returns.
unfoldable pub insert_stage :
    World
    → (run_id : ℕ) → (stage_id name : String) → List String
    → Option ℕ
    → Option Json
    → ℕ × World
insert_stage w run_id stage_id name needs index values = (
  w.row_seq,
  record w {
    stages =
        w.stages
        ++ record {
          id = w.row_seq;
          run_id = run_id;
          stage_id = stage_id;
          name = name;
          status = "pending";
          needs = needs;
          matrix_index = index;
          matrix_values = values;
          started_at = none;
          finished_at = none;
          exit_code = none;
        }
          ∷ [];
    row_seq = suc w.row_seq;
  },
)

-- InsertStep
unfoldable pub insert_step : World → (stage_record_id index : ℕ) → (name uses : String) → World
insert_step w stage_record_id index name uses = record w {
  steps =
      w.steps
      ++ record {
        id = w.row_seq;
        stage_record_id = stage_record_id;
        step_index = index;
        name = name;
        uses = uses;
        status = "pending";
      }
        ∷ [];
  row_seq = suc w.row_seq;
}

-- COALESCE(column, now)
abbrev or_now : Option ℕ → ℕ → Option ℕ
or_now none now = some now
or_now (some t) now = some t

-- The row after UpdateStageStatus.
unfoldable pub stage_with : ℕ → String → Option ℕ → StageRow → StageRow
stage_with now status exit_code row =
    if str_eq status "running" || str_eq status "approval"
    then record row { status = status; started_at = or_now row.started_at now }
    else if str_eq status "success"
        || (str_eq status "failed" || (str_eq status "skipped" || str_eq status "canceled"))
    then record row { status = status; finished_at = some now; exit_code = exit_code }
    else record row { status = status }

unfoldable pub update_rows : ℕ → ℕ → String → Option ℕ → List StageRow → List StageRow
update_rows id now status exit_code [] = []
update_rows id now status exit_code (row ∷ rows) =
    let rest = update_rows id now status exit_code rows in
    if row.id == id then stage_with now status exit_code row ∷ rest else row ∷ rest

-- UpdateStageStatus, whose error the orchestrator drops.
unfoldable pub update_stage_status : Tick → World → ℕ → String → Option ℕ → World
update_stage_status t w id status exit_code =
    if t.update_ok id
    then record w { stages = update_rows id t.now status exit_code w.stages }
    else w

-- The later of two requests, by the key.
unfoldable pub newest : ApprovalRequest → Option ApprovalRequest → Option ApprovalRequest
newest r none = some r
newest r (some other) = if ltb r.id other.id then some other else some r

-- GetApprovalForStage
unfoldable pub get_approval_for_stage : ℕ → String → List ApprovalRequest → Option ApprovalRequest
get_approval_for_stage run_id stage_id [] = none
get_approval_for_stage run_id stage_id (r ∷ rs) =
    let later = get_approval_for_stage run_id stage_id rs in
    if r.run_id == run_id && str_eq r.stage_id stage_id then newest r later else later
