-- ===== src/Runengine/Orchestrate/Fresh.antt =====
-- A tick of api/pkg/runengine/orchestrate.go starts no stage twice: what is stored of the stages
-- that it queues.
use helios_ci_cd.Prelude.{
  ℕ, String, Bool, true, false, not, ◌&&◌, ◌≡◌, ◌≢◌, refl, sym, ap, ◌∙◌, inl, inr, Option, none,
  some, List, [], ◌∷◌, arith, All, member, str_eq, eq_refl, some_inj, Bool-cases, if◌then◌else◌,
  Dict, lookup, insert, lookup-insert,
}
use helios_ci_cd.Runstate.Machine.{Db, Error}
use helios_ci_cd.Engine.Dag.{Dag}
use helios_ci_cd.Engine.Scheduler.{
  NodeStatus, pending, Scheduler, status_of, new_scheduler, next_ready, is_terminal,
}
use helios_ci_cd.Engine.Scheduler.Reports.{
  CompleteError, complete, complete_from, finish, from_db, restore_from_db, is_result, done,
}
use helios_ci_cd.Engine.Scheduler.Drives.{next_ready_picks}
use helios_ci_cd.Engine.Scheduler.Summary.{pending_restored}
use helios_ci_cd.Approval.{ApprovalRequest}
use helios_ci_cd.Runengine.{StageRow, World, AdvanceOpts, Tick, AdvanceError}
use helios_ci_cd.Runengine.Rows.{update_stage_status}
use helios_ci_cd.Runengine.Sync.{
  status_map, stage_by_node, approval_result, report_stage, sync_result, result_of_request,
  sync_one, sync_approval_stages, mark_skipped_stages, is_skipped,
}
use helios_ci_cd.Runengine.Starting.{AdvanceResult, nothing_yet, Loop, Context}
use helios_ci_cd.Runengine.Orchestrate.{after_final, finalize_run, wind_up, drive, is_idle}
use helios_ci_cd.Runengine.Orchestrate.Dispatching.{
  Queued, Queued-same, Queued-trans, update-stage_tasks, IsStage, start_all-Grows,
}

-- What is pending after was pending before.
abbrev pub KeepsPending : Scheduler → Scheduler → Type 0
KeepsPending s s' = (j : String) → status_of s' j ≡ pending → status_of s j ≡ pending

complete_from-KeepsPending :
    (s : Scheduler) (id : String) (result : NodeStatus) (cur : Option NodeStatus)
    → result ≢ pending
    → KeepsPending s (complete_from cur s id result).1
unfolding complete_from status_of finish
complete_from-KeepsPending s id result none ne j h = h
complete_from-KeepsPending s id result (some cur) ne j h = elim (Bool-cases (is_terminal cur)) [
  | inl t ↦ rw t at h
  | inr t ↦ elim (Bool-cases (is_result result)) [
    | inr r ↦ rw (t, r) at h
    | inl r ↦ elim (Bool-cases (str_eq id j)) [
      | inl e ↦ absurd (ne (sym (written t r e) ∙ h))
      | inr e ↦ sym (left t r e) ∙ h
    ]
  ]
]
  where
    written :
        is_terminal cur ≡ false
        → is_result result ≡ true
        → str_eq id j ≡ true
        → status_of (complete_from (some cur) s id result).1 j ≡ result
    written t r e = rw (t, r) (rw lookup-insert (rw e refl))

    left :
        is_terminal cur ≡ false
        → is_result result ≡ true
        → str_eq id j ≡ false
        → status_of (complete_from (some cur) s id result).1 j ≡ status_of s j
    left t r e = rw (t, r) (rw lookup-insert (rw e refl))

complete-KeepsPending :
    (s : Scheduler) (id : String) (result : NodeStatus)
    → result ≢ pending
    → KeepsPending s (complete s id result).1
unfolding complete
complete-KeepsPending s id result ne = complete_from-KeepsPending s id result _ ne

-- What a step of the tick keeps: of the scheduler, what was not pending is not; of the world, the
-- queue.
pub record Keeps (s : Scheduler) (w : World) (out : Scheduler × World) : Type 0 where
  pub pendings : KeepsPending s out.0
  pub queue : out.1.stage_tasks ≡ w.stage_tasks

module _ (t : Tick) (run_id : ℕ) where
  nothing-Keeps : (s : Scheduler) (w : World) → Keeps s w (s, w)
  nothing-Keeps s w = record { pendings = λ j h. h; queue = refl }

  report-Keeps :
      (row : StageRow) (result : NodeStatus) (s : Scheduler) (w : World)
      (out : Option CompleteError × Scheduler)
      → KeepsPending s out.1
      → Keeps s w (report_stage t row result w out)
  unfolding report_stage
  report-Keeps row result s w (some e, s') h = record { pendings = h; queue = refl }
  report-Keeps row result s w (none, s') h = record {
    pendings = h;
    queue = update-stage_tasks t w row.id _ _;
  }

  sync_result-Keeps :
      (row : StageRow) (s : Scheduler) (w : World) (result : Option NodeStatus)
      → ((r : NodeStatus) → result ≡ some r → r ≢ pending)
      → Keeps s w (sync_result t row s w result)
  unfolding sync_result
  sync_result-Keeps row s w none h = nothing-Keeps s w
  sync_result-Keeps row s w (some r) h =
      report-Keeps row r s w _ (complete-KeepsPending s row.stage_id r (h r refl))

  ended_result :
      (r : Option ApprovalRequest) (st : NodeStatus) → result_of_request r ≡ some st → st ≢ pending
  unfolding result_of_request approval_result
  ended_result none st h e = cc h
  ended_result (some r) st h e = ground (arith, h, e)

  if-Keeps :
      (s : Scheduler) (w : World) (b : Bool) (x y : Scheduler × World)
      → Keeps s w x
      → Keeps s w y
      → Keeps s w (if b then x else y)
  if-Keeps s w true x y h k = h
  if-Keeps s w false x y h k = k

  sync_one-Keeps :
      (s : Scheduler) (w : World) (row : StageRow) → Keeps s w (sync_one t run_id s w row)
  unfolding sync_one
  sync_one-Keeps s w row =
      if-Keeps s w (not (str_eq row.status "approval")) _ _ (nothing-Keeps s w) (
        if-Keeps s w (not (t.approval_ok row.stage_id)) _ _ (nothing-Keeps s w)
          (sync_result-Keeps row s w _ (ended_result _)))

  pub sync-Keeps :
      (s : Scheduler) (w : World) (rows : List StageRow)
      → Keeps s w (sync_approval_stages t run_id s w rows)
  unfolding sync_approval_stages
  sync-Keeps s w [] = nothing-Keeps s w
  sync-Keeps s w (row ∷ rows) =
      let one = sync_one-Keeps s w row in
      let rest = sync-Keeps (sync_one t run_id s w row).0 (sync_one t run_id s w row).1 rows in
      record {
        pendings = λ j h. one.pendings j (rest.pendings j h);
        queue = rest.queue ∙ one.queue;
      }

  pub mark-stage_tasks :
      (s : Scheduler) (rows : List StageRow) (w : World)
      → (mark_skipped_stages t s w rows).stage_tasks ≡ w.stage_tasks
  unfolding mark_skipped_stages
  mark-stage_tasks s [] w = refl
  mark-stage_tasks s (row ∷ rows) w =
      mark-stage_tasks s rows _
      ∙ one (is_skipped (lookup row.stage_id s.status) && str_eq row.status "pending")
    where
      one :
          (b : Bool)
          → (if b then update_stage_status t w row.id "skipped" none else w).stage_tasks
            ≡ w.stage_tasks
      one true = update-stage_tasks t w row.id "skipped" none
      one false = refl

-- The status map holds the status of the row that the map of the rows holds.
status_of_row :
    (id : String) (rows : List StageRow) (m : Dict String) (n : Dict StageRow)
    → ((row : StageRow) → lookup id n ≡ some row → lookup id m ≡ some row.status)
    → (row : StageRow) → lookup id (stage_by_node rows n) ≡ some row
    → lookup id (status_map rows m) ≡ some row.status
unfolding status_map stage_by_node
status_of_row id [] m n h row f = h row f
status_of_row id (r ∷ rows) m n h row f =
    status_of_row id rows (insert r.stage_id r.status m) (insert r.stage_id r n) step row f
  where
    step :
        (q : StageRow)
        → lookup id (insert r.stage_id r n) ≡ some q
        → lookup id (insert r.stage_id r.status m) ≡ some q.status
    step q g = elim (Bool-cases (str_eq r.stage_id id)) [
      | inl e ↦
          rw lookup-insert (rw e (ap (λ x. some x.status) (some_inj (rw (lookup-insert, e) at g))))
      | inr e ↦ rw lookup-insert (rw e (h q (rw (lookup-insert, e) at g)))
    ]

-- A list of which each member is as asked.
from_members :
    (P : String → Type 0) (ids : List String)
    → ((id : String) → member id ids ≡ true → P id)
    → All P ids
from_members P [] h = tt
from_members P (id ∷ ids) h =
    (h id (ground (arith, eq_refl id)), from_members P ids (λ j m. h j (ground (arith, m))))

final-queue :
    (res : AdvanceResult) (out : String) (w : World) (moved : Option Error × Db)
    → (after_final res out w moved).1.stage_tasks ≡ w.stage_tasks
unfolding after_final
final-queue res out w (some e, db) = refl
final-queue res out w (none, db) = refl

finalize-queue :
    (opts : AdvanceOpts) (t : Tick) (res : AdvanceResult) (w : World) (id : ℕ) (out : String)
    → (finalize_run opts t res w id out).1.stage_tasks ≡ w.stage_tasks
unfolding finalize_run
finalize-queue opts t res w id out = elim (Bool-cases opts.has_machine) [
  | inl e ↦ simp e (final-queue res out w _)
  | inr e ↦ simp e refl
]

wind_up-queue :
    (c : Context) (out : Option AdvanceError × Loop)
    → (wind_up c out).1.stage_tasks ≡ out.1.world.stage_tasks
unfolding wind_up
wind_up-queue c (some e, l) = refl
wind_up-queue c (none, l) = elim (Bool-cases (is_idle l.result && done l.scheduler)) [
  | inl e ↦ rw e (finalize-queue c.opts c.tick l.result l.world c.run_id _)
  | inr e ↦ rw e refl
]

-- The node's stage is stored as neither running, waiting for an approval, nor ended.
abbrev pub IsStoredPending : List StageRow → String → Type 0
IsStoredPending rows id =
    (row : StageRow)
    → lookup id (stage_by_node rows []) ≡ some row
    → (from_db row.status).0 ≡ pending

-- A tick that is driven by the listed rows adds to the queue only tasks of stages that have a row,
-- whose key the task carries; that are stored as neither running, waiting for an approval, nor ended;
-- and that are no approval stages. So a stage whose start is stored is never queued again.
pub drive-Queued :
    (c : Context) (dag : Dag) (rows : List StageRow) (w : World)
    → Queued (IsStage (IsStoredPending rows) dag (stage_by_node rows [])) w (drive c dag rows w).1
unfolding drive lookup
drive-Queued c dag rows w = elim (Bool-cases (done sch)) [
  | inl over ↦
      rw over
        (Queued-same _ w _ (finalize-queue c.opts c.tick nothing_yet marked c.run_id _ ∙ quiet))
  | inr live ↦ rw live (
      Queued-trans _ w marked _ (Queued-same _ w marked quiet) (
        Queued-trans _ marked _ _
          (start_all-Grows c dag (stage_by_node rows []) (IsStoredPending rows) (next_ready sch).1
            (record { scheduler = (next_ready sch).0; world = marked; result = nothing_yet }) fresh)
          (Queued-same _ _ _ (wind_up-queue c _))))
]
  where
    restored : Scheduler
    restored = restore_from_db (new_scheduler dag) (status_map rows [])

    sch : Scheduler
    sch = (sync_approval_stages c.tick c.run_id restored w rows).0

    synced : World
    synced = (sync_approval_stages c.tick c.run_id restored w rows).1

    marked : World
    marked = mark_skipped_stages c.tick sch synced rows

    keeps : Keeps restored w (sch, synced)
    keeps = sync-Keeps c.tick c.run_id restored w rows

    quiet : marked.stage_tasks ≡ w.stage_tasks
    quiet = mark-stage_tasks c.tick c.run_id sch rows synced ∙ keeps.queue

    fresh : All (IsStoredPending rows) (next_ready sch).1
    fresh = from_members (IsStoredPending rows) (next_ready sch).1 (λ id m row f.
        pending_restored (new_scheduler dag) (status_map rows []) id row.status
          (keeps.pendings id (next_ready_picks sch id m).0)
          (status_of_row id rows [] [] (λ q g. cc g) row f))
