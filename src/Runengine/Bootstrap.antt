-- ===== src/Runengine/Bootstrap.antt =====
-- api/pkg/runengine/bootstrap.go and pipeline.go: the rows of a run's stages, and its graph.
pub mod Accepted
mod Examples
use Prim.Native.String.{◌++◌ as ◌<>◌}
use helios_ci_cd.Prelude.{
  ℕ, suc, String, Bool, not, Option, none, some, List, [], ◌∷◌, ◌==◌, str_eq, if◌then◌else◌, lookup,
}
use helios_ci_cd.Prelude.Texts.{itoa}
use helios_ci_cd.Dsl.{Stage, Step, Pipeline}
use helios_ci_cd.Engine.Matrix.{Attempt, ok, error, panic, expand_pipeline}
use helios_ci_cd.Engine.Dag.{Dag, build_dag}
use helios_ci_cd.Engine.Cycles.{detect_cycles}
use helios_ci_cd.Runengine.{
  World, Tick, count_failed, bad_spec, no_stages, panicked, expand_failed, cycle, insert_failed,
  Reply,
}
use helios_ci_cd.Runengine.{ok as done, err}
use helios_ci_cd.Runengine.Rows.{count_stages, insert_stage, insert_step}

-- buildDAG, on what the expansion gave.
unfoldable pub checked_dag : Dag → List (List String) → Reply Dag
checked_dag dag [] = done dag
checked_dag dag (path ∷ cycles) = err (cycle path)

unfoldable pub dag_of : Attempt Pipeline → Reply Dag
dag_of (ok p) = let dag = build_dag (some p) in checked_dag dag (detect_cycles dag)
dag_of (error e) = err (expand_failed e)
dag_of panic = err panicked

-- buildDAG
unfoldable pub build_run_dag : Pipeline → Reply Dag
build_run_dag p = dag_of (expand_pipeline (some p))

unfoldable pub step_name : ℕ → Step → String
step_name j step =
    if not (str_eq step.name "")
    then step.name
    else if not (str_eq step.run "")
    then "run-" <> itoa j
    else step.uses

unfoldable pub insert_steps :
    Tick → World → (stage_record_id index : ℕ) → List Step → Reply World × World
insert_steps t w id j [] = (done w, w)
insert_steps t w id j (step ∷ steps) =
    let name = step_name j step in
    let rest = insert_steps t (insert_step w id j name step.uses) id (suc j) steps in
    if t.insert_ok w.row_seq then rest else (err (insert_failed name), w)

blank_step : Stage → Step
blank_step s = record {
  id = "";
  name = s.uses;
  if_expr = "";
  run = "";
  uses = s.uses;
  with = s.with;
  env = [];
  working_dir = "";
  shell = "";
  continue_on_error = Bool.false;
  timeout_minutes = 0;
}

-- A stage that only names what it uses has one step.
unfoldable pub steps_of : Stage → List Step
unfolding blank_step
steps_of s = elim s.steps [
  | [] ↦ if str_eq s.uses "" then [] else blank_step s ∷ []
  | step ∷ steps ↦ step ∷ steps
]

abbrev stage_name : Stage → String
stage_name s = if str_eq s.name "" then s.id else s.name

unfoldable pub then_stages :
    (World → Reply World × World) → Reply World × World → Reply World × World
then_stages next (done w, _) = next w
then_stages next (err e, w) = (err e, w)

-- The loop of Bootstrap. The source asks whether the index is a float64; the expansion stores an int,
-- so the column stays NULL.
unfoldable pub insert_stages : Tick → World → ℕ → List Stage → Reply World × World
insert_stages t w run_id [] = (done w, w)
insert_stages t w run_id (s ∷ stages) =
    let (id, inserted) =
      insert_stage w run_id s.id (stage_name s) s.needs none (lookup "__matrix_values" s.with) in
    let later =
      then_stages (λ w'. insert_stages t w' run_id stages)
        (insert_steps t inserted id 0 (steps_of s)) in
    if t.insert_ok w.row_seq then later else (err (insert_failed s.id), w)

unfoldable pub insert_expanded : Tick → World → ℕ → Attempt Pipeline → Reply World × World
insert_expanded t w run_id (ok p) = insert_stages t w run_id p.stages
insert_expanded t w run_id (error e) = (err (expand_failed e), w)
insert_expanded t w run_id panic = (err panicked, w)

unfoldable pub bootstrap_stages : Tick → World → ℕ → Pipeline → List Stage → Reply World × World
bootstrap_stages t w run_id p [] = (err no_stages, w)
bootstrap_stages t w run_id p (s ∷ stages) = insert_expanded t w run_id (expand_pipeline (some p))

unfoldable pub bootstrap_spec : Tick → World → ℕ → Option Pipeline → Reply World × World
bootstrap_spec t w run_id none = (err bad_spec, w)
bootstrap_spec t w run_id (some p) = bootstrap_stages t w run_id p p.stages

-- Bootstrap: nothing is done for a run that has stages already. `spec` is what LoadPipelineSpec and
-- parsePipeline give for the run's version.
unfoldable pub bootstrap : Tick → World → ℕ → Option Pipeline → Reply World × World
bootstrap t w run_id spec =
    if not t.count_ok
    then (err count_failed, w)
    else if not (count_stages w run_id == 0)
    then (done w, w)
    else bootstrap_spec t w run_id spec
