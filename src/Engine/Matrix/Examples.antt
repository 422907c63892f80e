-- ===== src/Engine/Matrix/Examples.antt =====
-- A test stage on two systems and two versions, without one of the four (api/pkg/engine/matrix.go).
use helios_ci_cd.Prelude.{
  ℕ, String, ◌≡◌, refl, none, some, List, [], ◌∷◌, any, member, map, Dict, lookup, insert, has_key,
  ◌++◌,
}
use helios_ci_cd.Prelude.Json.{Json, text, num, pos}
use helios_ci_cd.Prelude.Texts.{itoa, sort_texts, insert_text, text_le, is_internal, sprint}
use helios_ci_cd.Dsl.{Stage, Matrix, Pipeline}
use helios_ci_cd.Engine.Matrix.{
  ok, ◌>>=◌, Combo, MatrixInstance, expand_matrix, expand_pipeline, cartesian, axis_keys, rewire,
  filter_combos, expand_stages, expand_with, expand_dims, product, extend, extend_one, values_of,
  matches_any_exclude, subset_eq, holds_all, val_eq, same_value, copies, instances_from,
  instance_of, infos_from, matrix_suffix, pin_single_value, fields_of, gather, add_needs, add_need,
  targets,
}
use helios_ci_cd.Engine.Matrix.Rewiring.{IsDistinct, leads_to, needs-rewire}
use helios_ci_cd.Engine.Matrix.Instances.{
  Instances, Groups, AllRewired, expand_matrix-Instances, expand_pipeline-Groups,
}

abbrev plain : String → List String → Stage
plain id needs = record {
  id = id;
  name = "";
  needs = needs;
  type = "";
  if_expr = "";
  runs_on = none;
  matrix = none;
  steps = [];
  uses = "";
  with = [];
  env = [];
  secrets = [];
  outputs = [];
  services = [];
  approvers = [];
  mode = "";
  timeout = "";
  on_timeout = "";
}

abbrev axes : Dict (List Json)
axes = ("os", text "linux" ∷ text "mac" ∷ []) ∷ ("go", num (pos 21) ∷ num (pos 22) ∷ []) ∷ []

abbrev grid : Matrix
grid = record {
  dimensions = axes;
  include = [];
  exclude = (("os", text "mac") ∷ ("go", num (pos 21)) ∷ []) ∷ [];
}

abbrev test : Stage
test = record (plain "test" ("build" ∷ [])) { matrix = some grid }

abbrev ship : Stage
ship = plain "ship" ("test" ∷ "build" ∷ "test" ∷ [])

abbrev pipeline : Pipeline
pipeline = record {
  version = "1";
  name = "demo";
  description = "";
  triggers = [];
  env = [];
  variables = [];
  stages = plain "build" [] ∷ test ∷ ship ∷ [];
  extra = [];
}

abbrev combo : String → ℕ → Combo
combo os go = ("go", num (pos go)) ∷ ("os", text os) ∷ []

abbrev four : List Combo
four = combo "linux" 21 ∷ combo "mac" 21 ∷ combo "linux" 22 ∷ combo "mac" 22 ∷ []

abbrev left : List Combo
left = combo "linux" 21 ∷ combo "linux" 22 ∷ combo "mac" 22 ∷ []

abbrev tests : List Stage × List MatrixInstance
tests = (instances_from test 0 left, infos_from 0 left)

abbrev ids : Dict (List String)
ids =
    ("build", "build" ∷ [])
    ∷ ("test", "test-0" ∷ "test-1" ∷ "test-2" ∷ [])
    ∷ ("ship", "ship" ∷ [])
    ∷ []

abbrev stages : List Stage
stages = plain "build" [] ∷ (instances_from test 0 left ++ ship ∷ [])

abbrev expanded : Pipeline
expanded = record pipeline { stages = map (rewire ids) stages }

expand_test : expand_matrix (some test) ≡ ok tests
unfolding expand_pipeline expand_stages expand_matrix expand_with expand_dims cartesian axis_keys
    product extend extend_one values_of lookup insert sort_texts insert_text text_le filter_combos
    matches_any_exclude subset_eq holds_all val_eq same_value sprint copies instances_from
    instance_of infos_from matrix_suffix itoa pin_single_value fields_of ◌>>=◌ is_internal rewire
    gather add_needs add_need targets has_key
expand_test = refl

expand_demo : expand_pipeline (some pipeline) ≡ ok expanded
unfolding expand_pipeline expand_stages expand_matrix expand_with expand_dims cartesian axis_keys
    product extend extend_one values_of lookup insert sort_texts insert_text text_le filter_combos
    matches_any_exclude subset_eq holds_all val_eq same_value sprint copies instances_from
    instance_of infos_from matrix_suffix itoa pin_single_value fields_of ◌>>=◌ is_internal rewire
    gather add_needs add_need targets has_key
expand_demo = refl

ship_needs : (rewire ids ship).needs ≡ "test-0" ∷ "test-1" ∷ "test-2" ∷ "build" ∷ []
unfolding expand_pipeline expand_stages expand_matrix expand_with expand_dims cartesian axis_keys
    product extend extend_one values_of lookup insert sort_texts insert_text text_le filter_combos
    matches_any_exclude subset_eq holds_all val_eq same_value sprint copies instances_from
    instance_of infos_from matrix_suffix itoa pin_single_value fields_of ◌>>=◌ is_internal rewire
    gather add_needs add_need targets has_key
ship_needs = refl

expand_matrix-Instances_example : Instances test tests
expand_matrix-Instances_example = expand_matrix-Instances test tests expand_test

expand_pipeline-Groups_example :
    (made : List Stage) × ((table : Dict (List String)) × Groups [] pipeline.stages made table
      × AllRewired table made expanded.stages
      × (expanded ≡ record pipeline { stages = expanded.stages }))
expand_pipeline-Groups_example = expand_pipeline-Groups pipeline expanded expand_demo

needs-rewire_example :
    IsDistinct (rewire ids ship).needs
    × ((e : String) → member e (rewire ids ship).needs ≡ any (leads_to ids e) ship.needs)
    × (rewire ids ship ≡ record ship { needs = (rewire ids ship).needs })
needs-rewire_example = needs-rewire ids ship
