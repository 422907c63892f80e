-- ===== src/Runengine/Bootstrap/Accepted.antt =====
-- The graphs that buildDAG of api/pkg/runengine/pipeline.go accepts, and the scheduler on them.

use mathlib.Core.Path.{subst}
use helios_ci_cd.Prelude.{
  ℕ, String, ◌≡◌, ◌≢◌, refl, sym, ◌∙◌, ap, Option, some, List, [], ◌∷◌, true, arith, member,
}
use helios_ci_cd.Dsl.{Pipeline}
use helios_ci_cd.Engine.Matrix.{Attempt, ok, error, panic, expand_pipeline}
use helios_ci_cd.Engine.Dag.{Dag, build_dag}
use helios_ci_cd.Engine.Cycles.{detect_cycles}
use helios_ci_cd.Engine.Cycles.Ranks.{build_dag-IsRanked}
use helios_ci_cd.Engine.Scheduler.{pending, Scheduler, status_of, next_ready}
use helios_ci_cd.Engine.Scheduler.Progress.{IsRanked, IsIdle, next_ready_progress}
use helios_ci_cd.Runengine.{ok as done}
use helios_ci_cd.Runengine.Bootstrap.{checked_dag, dag_of, build_run_dag}

done_inj : {a b : Dag} → done a ≡ done b → a ≡ b
done_inj e = ground (arith, e)

checked_dag-IsRanked :
    (p : Option Pipeline) (cycles : List (List String)) (dag : Dag)
    → detect_cycles (build_dag p) ≡ cycles
    → checked_dag (build_dag p) cycles ≡ done dag
    → (rank : String → ℕ) × IsRanked dag rank
unfolding checked_dag
checked_dag-IsRanked p [] dag quiet e =
    subst (λ d. (rank : String → ℕ) × IsRanked d rank) (done_inj e) (build_dag-IsRanked p quiet)
checked_dag-IsRanked p (path ∷ cycles) dag quiet e = cc e

dag_of-IsRanked :
    (a : Attempt Pipeline) (dag : Dag)
    → dag_of a ≡ done dag
    → (rank : String → ℕ) × IsRanked dag rank
unfolding dag_of
dag_of-IsRanked (ok p) dag e =
    checked_dag-IsRanked (some p) (detect_cycles (build_dag (some p))) dag refl e
dag_of-IsRanked (error x) dag e = cc e
dag_of-IsRanked panic dag e = cc e

-- On the graph of a pipeline that buildDAG accepts, whatever its stages need, when nothing is handed
-- out and some stage is pending, NextReady hands out or skips a pending stage.
pub build_run_dag_progress :
    (p : Pipeline) (dag : Dag) (s : Scheduler) (id : String)
    → build_run_dag p ≡ done dag
    → s.dag ≡ dag
    → IsIdle s
    → member id dag.order ≡ true
    → status_of s id ≡ pending
    → (j : String) × (status_of s j ≡ pending) × (status_of (next_ready s).0 j ≢ pending)
unfolding build_run_dag
build_run_dag_progress p dag s id accepted same idle m waits =
    let (rank, ranked) = dag_of-IsRanked (expand_pipeline (some p)) dag accepted in
    next_ready_progress s rank id (subst (λ d. IsRanked d rank) (sym same) ranked) idle
      (ap (λ d. member id d.order) same ∙ m) waits
