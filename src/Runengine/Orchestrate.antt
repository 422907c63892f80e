-- ===== src/Runengine/Orchestrate.antt =====
-- api/pkg/runengine/orchestrate.go: one tick of the orchestration of a run. The rows that a tick has
-- listed are those it works with, whatever it writes to the table afterwards.
pub mod Dispatching
pub mod Fresh
pub mod Examples
use Prim.Native.String.{◌++◌ as ◌<>◌}
use helios_ci_cd.Prelude.{
  ℕ, String, Bool, true, false, not, ◌&&◌, ◌||◌, Option, none, some, List, [], ◌∷◌, ◌++◌, str_eq,
  if◌then◌else◌, Dict, lookup, insert,
}
use helios_ci_cd.Runstate.{is_terminal}
use helios_ci_cd.Runstate.Machine.{
  Run, Db, Error, TransitionOpts, mark_success, mark_failed, mark_canceled,
}
use helios_ci_cd.Dsl.{Stage, Pipeline}
use helios_ci_cd.Engine.Dag.{Dag, Node}
use helios_ci_cd.Engine.Scheduler.{
  NodeStatus, unset, pending, ready, running, waiting_approval, success, failed, skipped, canceled,
  Scheduler, new_scheduler, next_ready,
}
use helios_ci_cd.Engine.Scheduler.Reports.{CompleteError, complete, done, outcome, restore_from_db}
use helios_ci_cd.Approval.{ApprovalRequest, Store}
use helios_ci_cd.Runengine.{
  StageRow, StageExecutePayload, World, AdvanceOpts, Tick, AdvanceError, db_required, run_not_found,
  bad_spec, load_failed, list_failed, enqueue_failed, stage_not_found, machine_failed, Reply, ok,
  err,
}
use helios_ci_cd.Runengine.Rows.{list_stages, update_stage_status, get_approval_for_stage}
use helios_ci_cd.Runengine.Bootstrap.{bootstrap, build_run_dag}
use helios_ci_cd.Runengine.Sync.{
  status_text, status_map, stage_by_node, sync_approval_stages, mark_skipped_stages,
}
use helios_ci_cd.Runengine.Starting.{AdvanceResult, nothing_yet, Loop, Context, start_all}
use helios_ci_cd.Runengine.Approvals.{create_approval}

finish_opts : World → ℕ → String → TransitionOpts
finish_opts w run_id out = record {
  reason = "pipeline " <> out;
  actor_id = none;
  org_id = none;
  project_id = some (w.store.project_of run_id);
  extra = [];
}

-- The call that finalizeRun makes for an outcome.
unfoldable pub final_call : Tick → World → ℕ → String → Option Error × Db
unfolding finish_opts
final_call t w run_id out =
    let opts = finish_opts w run_id out in
    if str_eq out "failed"
    then mark_failed t.machine w.store.core run_id "pipeline failed" opts
    else if str_eq out "canceled"
    then mark_canceled t.machine w.store.core run_id opts
    else mark_success t.machine w.store.core run_id opts

unfoldable pub after_final :
    AdvanceResult → String → World → Option Error × Db → Reply AdvanceResult × World
after_final res out w (some e, db) =
    (err (machine_failed e), record w { store = record w.store { core = db } })
after_final res out w (none, db) = (
  ok (record res { done = true; run_outcome = out }),
  record w { store = record w.store { core = db } },
)

-- finalizeRun, and the result of the tick after it.
unfoldable pub finalize_run :
    AdvanceOpts → Tick → AdvanceResult → World → ℕ → String → Reply AdvanceResult × World
finalize_run opts t res w run_id out =
    if opts.has_machine
    then after_final res out w (final_call t w run_id out)
    else (ok (record res { done = true; run_outcome = out }), w)

abbrev pub is_idle : AdvanceResult → Bool
is_idle r = elim r.dispatched [
  | [] ↦ elim r.waiting_approval [ [] ↦ true | id ∷ ids ↦ false ]
  | task ∷ tasks ↦ false
]

-- The end of the tick.
unfoldable pub wind_up : Context → Option AdvanceError × Loop → Reply AdvanceResult × World
wind_up c (some e, l) = (err e, l.world)
wind_up c (none, l) =
    if is_idle l.result && done l.scheduler
    then finalize_run c.opts c.tick l.result l.world c.run_id (status_text (outcome l.scheduler))
    else (ok l.result, l.world)

-- From the restored scheduler on, with the listed rows.
unfoldable pub drive : Context → Dag → List StageRow → World → Reply AdvanceResult × World
drive c dag rows w =
    let restored = restore_from_db (new_scheduler dag) (status_map rows []) in
    let (sch, synced) = sync_approval_stages c.tick c.run_id restored w rows in
    let marked = mark_skipped_stages c.tick sch synced rows in
    let (sch', ids) = next_ready sch in
    if done sch
    then finalize_run c.opts c.tick nothing_yet marked c.run_id (status_text (outcome sch))
    else wind_up c (
        start_all c dag (stage_by_node rows [])
          (record { scheduler = sch'; world = marked; result = nothing_yet }) ids)

unfoldable pub drive_if : Context → World → Reply Dag → Reply AdvanceResult × World
drive_if c w (err e) = (err e, w)
drive_if c w (ok dag) =
    if c.tick.list_ok then drive c dag (list_stages w c.run_id) w else (err list_failed, w)

unfoldable pub with_spec :
    Context → Option Pipeline → Reply World × World → Reply AdvanceResult × World
with_spec c spec (err e, w) = (err e, w)
with_spec c none (ok _, w) = (err bad_spec, w)
with_spec c (some p) (ok _, w) = drive_if c w (build_run_dag p)

-- A run that is over is only reported.
unfoldable pub with_run :
    Context → (ℕ → Option Pipeline) → World → Option Run → Reply AdvanceResult × World
with_run c spec_of w none = (err run_not_found, w)
with_run c spec_of w (some run) =
    let spec = spec_of (w.version_of c.run_id) in
    if is_terminal run.status
    then (ok (record nothing_yet { done = true; run_outcome = run.status }), w)
    else with_spec c spec (bootstrap c.tick w c.run_id spec)

-- Advance. `spec_of` is what LoadPipelineSpec and parsePipeline give for a version.
unfoldable pub advance : Context → (ℕ → Option Pipeline) → World → Reply AdvanceResult × World
advance c spec_of w =
    if not c.opts.has_db
    then (err db_required, w)
    else if not c.tick.load_run_ok
    then (err load_failed, w)
    else with_run c spec_of w (w.store.core.runs c.run_id)

unfoldable pub row_for : String → List StageRow → Option StageRow
row_for stage_id [] = none
row_for stage_id (row ∷ rows) =
    if str_eq row.stage_id stage_id then some row else row_for stage_id rows

-- The rest of OnStageComplete, with the stage's row: its status is written, the graph is built to see
-- whether it can be, and the next tick follows. The report to the scheduler that is rebuilt there is
-- only logged, since that scheduler is thrown away.
unfoldable pub after_stage :
    Context
    → (ℕ → Option Pipeline)
    → World
    → Bool
    → ℕ
    → Option StageRow
    → Reply AdvanceResult × World
after_stage c spec_of w succeeded exit_code none = (err stage_not_found, w)
after_stage c spec_of w succeeded exit_code (some row) =
    let st = if succeeded then "success" else "failed" in
    let written = update_stage_status c.tick w row.id st (some exit_code) in
    if not c.tick.load_run_ok
    then (err load_failed, written)
    else elim (w.store.core.runs c.run_id) [
      | none ↦ (err run_not_found, written)
      | some run ↦ elim (spec_of (w.version_of c.run_id)) [
        | none ↦ (err bad_spec, written)
        | some p ↦ elim (build_run_dag p) [
          | err e ↦ (err e, written)
          | ok dag ↦ advance c spec_of written
        ]
      ]
    ]

-- OnStageComplete
unfoldable pub on_stage_complete :
    Context → (ℕ → Option Pipeline) → World → String → Bool → ℕ → Reply AdvanceResult × World
on_stage_complete c spec_of w stage_id succeeded exit_code =
    if not c.tick.list_ok
    then (err list_failed, w)
    else after_stage c spec_of w succeeded exit_code (row_for stage_id (list_stages w c.run_id))
