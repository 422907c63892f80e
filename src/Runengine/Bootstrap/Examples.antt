-- ===== src/Runengine/Bootstrap/Examples.antt =====
-- A pipeline whose stages need each other, themselves and a stage that there is not.
use helios_ci_cd.Prelude.{
  ℕ, String, ◌≡◌, ◌≢◌, refl, none, some, List, [], ◌∷◌, arith, lookup, insert, has_key,
}
use helios_ci_cd.Prelude.Texts.{sort_texts, insert_text, text_le, is_internal}
use helios_ci_cd.Dsl.{Stage, Pipeline}
use helios_ci_cd.Engine.Matrix.{
  expand_pipeline, expand_stages, expand_matrix, expand_with, ◌>>=◌, rewire, gather, add_needs,
  add_need, targets,
}
use helios_ci_cd.Engine.Dag.{
  Dag, build_dag, add_stages, connect_nodes, connect_all, connect, modify,
}
use helios_ci_cd.Engine.Dag.Links.{IsLinked}
use helios_ci_cd.Engine.Dag.Built.{build_dag-IsLinked}
use helios_ci_cd.Engine.Cycles.{
  detect_cycles, search_from, dfs, leave, meet_all, nexts_of, meet, enter, pop,
}
use helios_ci_cd.Engine.Cycles.Ranks.{build_dag-IsRanked}
use helios_ci_cd.Engine.Scheduler.{pending, Scheduler, new_scheduler, status_of, next_ready}
use helios_ci_cd.Engine.Scheduler.Progress.{IsRanked, IsIdle}
use helios_ci_cd.Runengine.{ok as done}
use helios_ci_cd.Runengine.Bootstrap.{build_run_dag, dag_of, checked_dag}
use helios_ci_cd.Runengine.Bootstrap.Accepted.{build_run_dag_progress}

abbrev stage : String → List String → Stage
stage id needs = record {
  id = id;
  name = "";
  needs = needs;
  type = "";
  if_expr = "";
  runs_on = none;
  matrix = none;
  steps = [];
  uses = "";
  with = [];
  env = [];
  secrets = [];
  outputs = [];
  services = [];
  approvers = [];
  mode = "";
  timeout = "";
  on_timeout = "";
}

abbrev odd : Pipeline
odd = record {
  version = "1";
  name = "demo";
  description = "";
  triggers = [];
  env = [];
  variables = [];
  stages = stage "test" ("build" ∷ "ghost" ∷ "test" ∷ []) ∷ stage "build" [] ∷ [];
  extra = [];
}

abbrev odd_dag : Dag
odd_dag = build_dag (some odd)

build_dag-IsLinked_example : IsLinked odd_dag
build_dag-IsLinked_example = build_dag-IsLinked (some odd)

no_cycles : detect_cycles odd_dag ≡ []
unfolding detect_cycles search_from sort_texts insert_text text_le lookup dfs leave insert meet_all
    nexts_of meet enter has_key pop build_dag add_stages connect_nodes connect_all connect modify
no_cycles = refl

build_dag-IsRanked_example : (rank : String → ℕ) × IsRanked odd_dag rank
build_dag-IsRanked_example = build_dag-IsRanked (some odd) no_cycles

accepted : build_run_dag odd ≡ done odd_dag
unfolding build_run_dag dag_of checked_dag expand_pipeline expand_stages expand_matrix expand_with
    ◌>>=◌ is_internal rewire gather add_needs add_need targets detect_cycles search_from sort_texts
    insert_text text_le lookup dfs leave insert meet_all nexts_of meet enter has_key pop build_dag
    add_stages connect_nodes connect_all connect modify
accepted = refl

abbrev idle : Scheduler
idle = new_scheduler odd_dag

idle-IsIdle : IsIdle idle
unfolding new_scheduler status_of lookup insert has_key build_dag add_stages connect_nodes
    connect_all connect modify
idle-IsIdle = record { waiting = λ id m. ground arith; free = λ id p. refl }

build_run_dag_progress_example :
    (j : String) × (status_of idle j ≡ pending) × (status_of (next_ready idle).0 j ≢ pending)
unfolding new_scheduler status_of lookup insert has_key build_dag add_stages connect_nodes
    connect_all connect modify
build_run_dag_progress_example =
    build_run_dag_progress odd odd_dag idle "test" accepted refl idle-IsIdle refl refl
