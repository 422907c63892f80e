-- ===== src/Runengine/Orchestrate/Dispatching.antt =====
-- Which stages a tick of api/pkg/runengine/orchestrate.go puts in the queue.
use mathlib.Core.Path.{subst}
use mathlib.Core.List.{append-nil, append_assoc}
use helios_ci_cd.Prelude.{
  ℕ, String, Bool, true, false, not, ◌&&◌, ◌≡◌, refl, sym, ap, ◌∙◌, inl, inr, Option, none, some,
  List, [], ◌∷◌, ◌++◌, All, str_eq, some_inj, Bool-cases, if◌then◌else◌, Dict, lookup,
}
use helios_ci_cd.Engine.Dag.{Dag, Node}
use helios_ci_cd.Approval.{Store}
use helios_ci_cd.Runengine.{StageRow, StageExecutePayload, World, Tick, AdvanceError}
use helios_ci_cd.Runengine.Rows.{update_stage_status}
use helios_ci_cd.Runengine.Starting.{
  Loop, Context, task_of, request_approval, execute_stage, start_stage, start_row, start_node,
  then_nodes, start_all,
}

-- From `w` to `w'` the queue got tasks that all have the property.
pub record Queued (P : StageExecutePayload → Type 0) (w w' : World) : Type 0 where
  pub tasks : List StageExecutePayload
  pub written : w'.stage_tasks ≡ w.stage_tasks ++ tasks
  pub each : All P tasks

All-append :
    (P : StageExecutePayload → Type 0) (xs ys : List StageExecutePayload)
    → All P xs
    → All P ys
    → All P (xs ++ ys)
All-append P [] ys h k = k
All-append P (x ∷ xs) ys (h, hs) k = (h, All-append P xs ys hs k)

module _ (P : StageExecutePayload → Type 0) where
  pub Queued-same : (w w' : World) → w'.stage_tasks ≡ w.stage_tasks → Queued P w w'
  Queued-same w w' e = record {
    tasks = [];
    written = e ∙ sym (append-nil w.stage_tasks);
    each = tt;
  }

  pub Queued-trans : (w v u : World) → Queued P w v → Queued P v u → Queued P w u
  Queued-trans w v u h k = record {
    tasks = h.tasks ++ k.tasks;
    written =
        k.written ∙ ap (λ l. l ++ k.tasks) h.written ∙ append_assoc w.stage_tasks h.tasks k.tasks;
    each = All-append P h.tasks k.tasks h.each k.each;
  }

pub update-stage_tasks :
    (t : Tick) (w : World) (id : ℕ) (status : String) (code : Option ℕ)
    → (update_stage_status t w id status code).stage_tasks ≡ w.stage_tasks
unfolding update_stage_status
update-stage_tasks t w id status code = elim (Bool-cases (t.update_ok id)) [
  | inl e ↦ rw e refl
  | inr e ↦ rw e refl
]

-- A task for a node of which `Ready` holds: the node has a row, whose key the task carries, and is
-- no approval stage.
pub record IsStage (Ready : String → Type 0) (dag : Dag) (rows : Dict StageRow)
    (task : StageExecutePayload) : Type 0 where
  pub ready : Ready task.stage_id
  pub row : StageRow
  pub found : lookup task.stage_id rows ≡ some row
  pub key : task.stage_record_id ≡ row.id
  pub no_approval :
      (n : Node) → lookup task.stage_id dag.nodes ≡ some n → str_eq n.stage.type "approval" ≡ false

module _ (c : Context) (dag : Dag) (rows : Dict StageRow) (Ready : String → Type 0) where
  abbrev pub Grows : World → World → Type 0
  Grows w w' = Queued (IsStage Ready dag rows) w w'

  if-Grows :
      (w : World) (b : Bool) (x y : Option AdvanceError × Loop)
      → Grows w x.1.world
      → Grows w y.1.world
      → Grows w (if b then x else y).1.world
  if-Grows w true x y h k = h
  if-Grows w false x y h k = k

  add-Grows :
      (w v : World) (task : StageExecutePayload) (b : Bool)
      → v.stage_tasks ≡ w.stage_tasks
      → IsStage Ready dag rows task
      → Grows w (if b then record v { stage_tasks = v.stage_tasks ++ task ∷ [] } else v)
  add-Grows w v task true e h = record {
    tasks = task ∷ [];
    written = ap (λ l. l ++ task ∷ []) e;
    each = (h, tt);
  }
  add-Grows w v task false e h = Queued-same _ w v e

  request-Grows :
      (id : String) (l : Loop) (row : StageRow) (out : Bool × Store)
      → Grows l.world (request_approval c.tick id l row out).world
  unfolding request_approval
  request-Grows id l row (true, store) =
      Queued-same _ l.world _ (update-stage_tasks c.tick _ row.id "approval" none)
  request-Grows id l row (false, store) =
      Queued-same _ l.world _ (update-stage_tasks c.tick _ row.id "failed" (some 1))

  execute-Grows :
      (id : String) (l : Loop) (row : StageRow)
      → IsStage Ready dag rows (task_of c.run_id c.project_id id row)
      → Grows l.world (execute_stage c.opts c.tick c.run_id c.project_id id l row).1.world
  unfolding execute_stage
  execute-Grows id l row fits =
      if-Grows l.world (c.opts.has_stage_queue && not (c.tick.queue_ok id)) _ _
        (Queued-same _ l.world _ kept) (add-Grows l.world _ _ c.opts.has_stage_queue kept fits)
    where
      kept :
          (update_stage_status c.tick l.world row.id "running" none).stage_tasks
          ≡ l.world.stage_tasks
      kept = update-stage_tasks c.tick l.world row.id "running" none

  task_of-IsStage :
      (id : String) (row : StageRow)
      → Ready id
      → lookup id rows ≡ some row
      → ((n : Node) → lookup id dag.nodes ≡ some n → str_eq n.stage.type "approval" ≡ false)
      → IsStage Ready dag rows (task_of c.run_id c.project_id id row)
  unfolding task_of
  task_of-IsStage id row r f a = record {
    ready = r;
    row = row;
    found = f;
    key = refl;
    no_approval = a;
  }

  start_stage-Grows :
      (id : String) (l : Loop) (row : StageRow) (node : Option Node)
      → Ready id
      → lookup id rows ≡ some row
      → lookup id dag.nodes ≡ node
      → Grows l.world (start_stage c id l row node).1.world
  unfolding start_stage
  start_stage-Grows id l row none r f g =
      execute-Grows id l row (task_of-IsStage id row r f (λ n h. cc (g, h)))
  start_stage-Grows id l row (some node) r f g =
      elim (Bool-cases (str_eq node.stage.type "approval")) [
        | inl a ↦ simp a (request-Grows id l row _)
        | inr a ↦ simp a (execute-Grows id l row (task_of-IsStage id row r f (plain a)))
      ]
    where
      plain :
          str_eq node.stage.type "approval" ≡ false
          → (n : Node) → lookup id dag.nodes ≡ some n
          → str_eq n.stage.type "approval" ≡ false
      plain a n h = subst (λ m. str_eq m.stage.type "approval" ≡ false) (some_inj (sym g ∙ h)) a

  start_row-Grows :
      (l : Loop) (id : String) (row : Option StageRow)
      → Ready id
      → lookup id rows ≡ row
      → Grows l.world (start_row c dag l id row).1.world
  unfolding start_row
  start_row-Grows l id none r f = Queued-same _ l.world l.world refl
  start_row-Grows l id (some row) r f = start_stage-Grows id l row _ r f refl

  start_node-Grows :
      (l : Loop) (id : String) → Ready id → Grows l.world (start_node c dag rows l id).1.world
  unfolding start_node
  start_node-Grows l id r = start_row-Grows l id _ r refl

  then-Grows :
      (w : World) (next : Loop → Option AdvanceError × Loop) (out : Option AdvanceError × Loop)
      → Grows w out.1.world
      → ((l : Loop) → Grows l.world (next l).1.world)
      → Grows w (then_nodes next out).1.world
  unfolding then_nodes
  then-Grows w next (some e, l) h k = h
  then-Grows w next (none, l) h k = Queued-trans _ w l.world _ h (k l)

  -- What the loop queues are tasks of the nodes that it is given.
  pub start_all-Grows :
      (ids : List String) (l : Loop)
      → All Ready ids
      → Grows l.world (start_all c dag rows l ids).1.world
  unfolding start_all
  start_all-Grows [] l h = Queued-same _ l.world l.world refl
  start_all-Grows (id ∷ ids) l (r, rs) =
      then-Grows l.world _ (start_node c dag rows l id) (start_node-Grows l id r)
        (λ l'. start_all-Grows ids l' rs)
