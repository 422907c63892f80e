-- ===== src/Dsl/Render/Examples.antt =====
-- A pipeline without blocks.
use helios_ci_cd.Prelude.{ℕ, ◌≡◌, none, some, [], ◌∷◌, arith}
use helios_ci_cd.Expr.{codes, text, num, no_fields, field}
use helios_ci_cd.Expr.Examples.{tenths}
use helios_ci_cd.Dsl.Render.{Step, Stage, Pipeline, ok, render_pipeline}
use helios_ci_cd.Dsl.Render.Plain.{IsPlain, render_pipeline-plain}

abbrev step : Step ℕ
step = record { run = codes "make"; if_expr = []; env = none; with = none }

abbrev stage : Stage ℕ
stage = record {
  if_expr = codes "x";
  image = some (codes "go");
  env = some ((codes "A", codes "b") ∷ []);
  outputs = none;
  with = some (field (codes "n") (num 10) (field (codes "s") (text (codes "t")) no_fields));
  steps = step ∷ [];
}

abbrev plain : Pipeline ℕ
plain = record {
  env = none;
  variables = none;
  stages = stage ∷ [];
  extra = field (codes "owner") (text (codes "me")) no_fields;
}

plain-IsPlain : IsPlain plain
plain-IsPlain = record {
  env = tt;
  variables = tt;
  stages = (
    record {
      if_expr = omega arith;
      image = omega arith;
      env = (omega arith, tt);
      outputs = tt;
      with_map = (tt, (omega arith, tt));
      steps = (record { run = omega arith; if_expr = tt; env = tt; with_map = tt }, tt);
    },
    tt,
  );
}

render_pipeline-plain_example :
    render_pipeline tenths none plain ≡ ok (record plain { extra = no_fields }) []
render_pipeline-plain_example = render_pipeline-plain tenths none plain plain-IsPlain
