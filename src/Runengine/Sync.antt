-- ===== src/Runengine/Sync.antt =====
-- api/pkg/runengine/orchestrate.go: what a tick takes over from the tables into the scheduler, and
-- from the scheduler into the tables, before it hands out stages.
use helios_ci_cd.Prelude.{
  ℕ, String, Bool, true, false, not, ◌&&◌, ◌||◌, Option, none, some, List, [], ◌∷◌, str_eq,
  if◌then◌else◌, Dict, lookup, insert,
}
use helios_ci_cd.Engine.Scheduler.{
  NodeStatus, unset, pending, ready, running, waiting_approval, success, failed, skipped, canceled,
  Scheduler,
}
use helios_ci_cd.Engine.Scheduler.Reports.{CompleteError, complete}
use helios_ci_cd.Approval.{ApprovalRequest}
use helios_ci_cd.Runengine.{StageRow, World, Tick}
use helios_ci_cd.Runengine.Rows.{update_stage_status, get_approval_for_stage}

-- string(status)
abbrev pub status_text : NodeStatus → String
status_text unset = ""
status_text pending = "pending"
status_text ready = "ready"
status_text running = "running"
status_text waiting_approval = "approval"
status_text success = "success"
status_text failed = "failed"
status_text skipped = "skipped"
status_text canceled = "canceled"

-- statusMap and stageByNode
unfoldable pub status_map : List StageRow → Dict String → Dict String
status_map [] m = m
status_map (row ∷ rows) m = status_map rows (insert row.stage_id row.status m)

unfoldable pub stage_by_node : List StageRow → Dict StageRow → Dict StageRow
stage_by_node [] m = m
stage_by_node (row ∷ rows) m = stage_by_node rows (insert row.stage_id row m)

-- The result that an approval stage gets from the status of its request, if any.
unfoldable pub approval_result : String → Option NodeStatus
approval_result status =
    if str_eq status "approved"
    then some success
    else if str_eq status "rejected" || str_eq status "timeout"
    then some failed
    else none

abbrev exit_of : NodeStatus → Option ℕ
exit_of success = some 0
exit_of _ = some 1

unfoldable pub report_stage :
    Tick → StageRow → NodeStatus → World → Option CompleteError × Scheduler → Scheduler × World
report_stage t row result w (some e, sch) = (sch, w)
report_stage t row result w (none, sch) =
    (sch, update_stage_status t w row.id (status_text result) (exit_of result))

unfoldable pub sync_result :
    Tick → StageRow → Scheduler → World → Option NodeStatus → Scheduler × World
sync_result t row sch w none = (sch, w)
sync_result t row sch w (some result) =
    report_stage t row result w (complete sch row.stage_id result)

unfoldable pub result_of_request : Option ApprovalRequest → Option NodeStatus
result_of_request none = none
result_of_request (some r) = approval_result r.status

unfoldable pub sync_one : Tick → ℕ → Scheduler → World → StageRow → Scheduler × World
sync_one t run_id sch w row =
    if not (str_eq row.status "approval")
    then (sch, w)
    else if not (t.approval_ok row.stage_id)
    then (sch, w)
    else sync_result t row sch w
        (result_of_request (get_approval_for_stage run_id row.stage_id w.store.requests))

-- syncApprovalStages
unfoldable pub sync_approval_stages :
    Tick → ℕ → Scheduler → World → List StageRow → Scheduler × World
sync_approval_stages t run_id sch w [] = (sch, w)
sync_approval_stages t run_id sch w (row ∷ rows) =
    let (sch', w') = sync_one t run_id sch w row in sync_approval_stages t run_id sch' w' rows

abbrev pub is_skipped : Option NodeStatus → Bool
is_skipped (some skipped) = true
is_skipped _ = false

-- markSkippedStages
unfoldable pub mark_skipped_stages : Tick → Scheduler → World → List StageRow → World
mark_skipped_stages t sch w [] = w
mark_skipped_stages t sch w (row ∷ rows) =
    mark_skipped_stages t sch
      (if is_skipped (lookup row.stage_id sch.status) && str_eq row.status "pending"
        then update_stage_status t w row.id "skipped" none
        else w)
      rows
