-- ===== src/Engine/Cycles/Examples.antt =====
-- A graph with a loop (api/pkg/engine/dag.go).
use helios_ci_cd.Prelude.{String, ◌≡◌, refl, none, List, [], ◌∷◌, All, lookup, insert, has_key}
use helios_ci_cd.Dsl.{Stage}
use helios_ci_cd.Engine.Dag.{Dag}
use helios_ci_cd.Engine.Cycles.{
  detect_cycles, search_from, dfs, leave, meet_all, nexts_of, meet, enter, report, canonical_cycle,
  down_to, loop_from, loop_of, pop, reverse_onto, rotate_from, top,
}
use helios_ci_cd.Prelude.Texts.{sort_texts, insert_text, text_le, join}
use helios_ci_cd.Engine.Cycles.Paths.{IsCycle}
use helios_ci_cd.Engine.Cycles.Soundness.{detect_cycles-IsCycle}

abbrev stage : String → List String → Stage
stage id needs = record {
  id = id;
  name = "";
  needs = needs;
  type = "";
  if_expr = "";
  runs_on = none;
  matrix = none;
  steps = [];
  uses = "";
  with = [];
  env = [];
  secrets = [];
  outputs = [];
  services = [];
  approvers = [];
  mode = "";
  timeout = "";
  on_timeout = "";
}

-- a comes before b, b before a and c, and c before a.
abbrev looped : Dag
looped = record {
  nodes =
      (
        "a",
        record {
          id = "a";
          stage = stage "a" ("b" ∷ "c" ∷ []);
          in_edges = "b" ∷ "c" ∷ [];
          out_edges = "b" ∷ [];
        },
      )
      ∷ (
        "b",
        record {
          id = "b";
          stage = stage "b" ("a" ∷ []);
          in_edges = "a" ∷ [];
          out_edges = "a" ∷ "c" ∷ [];
        },
      )
      ∷ (
        "c",
        record {
          id = "c";
          stage = stage "c" ("b" ∷ []);
          in_edges = "b" ∷ [];
          out_edges = "a" ∷ [];
        },
      )
      ∷ [];
  order = "a" ∷ "b" ∷ "c" ∷ [];
  dangling = [];
}

two_cycles : detect_cycles looped ≡ ("a" ∷ "b" ∷ "a" ∷ []) ∷ ("a" ∷ "b" ∷ "c" ∷ "a" ∷ []) ∷ []
unfolding detect_cycles search_from sort_texts insert_text text_le lookup dfs leave insert meet_all
    nexts_of meet enter report has_key join canonical_cycle down_to loop_from loop_of pop
    reverse_onto rotate_from top
two_cycles = refl

detect_cycles-IsCycle_example : All (IsCycle looped) (detect_cycles looped)
detect_cycles-IsCycle_example = detect_cycles-IsCycle looped
