-- ===== src/Dsl/Render.antt =====
-- api/pkg/dsl/render.go: the texts of a pipeline with their blocks replaced. A stage and a step are here
-- the fields that are rendered, as bytes; their other fields are copied. A map that may be nil is an Option.
pub mod Parts
pub mod Plain
mod Examples
use helios_ci_cd.Prelude.{ℕ, zero, suc, String, Option, none, some, List, [], ◌∷◌, ◌++◌, map}
use helios_ci_cd.Prelude.Texts.{itoa}
use helios_ci_cd.Expr.{Bytes, codes, Go, Value, text, Fields, no_fields, field}
use helios_ci_cd.Expr.Eval.{Context}
use helios_ci_cd.Expr.Render
use helios_ci_cd.Expr.Render.{RenderError, Rendered, render_string}
use helios_ci_cd.Engine.Outputs.{kept}

abbrev pub Texts : Type 0
Texts = List (Bytes × Bytes)

pub record Step (F : Type 0) : Type 0 where
  pub run : Bytes
  pub if_expr : Bytes
  pub env : Option Texts
  pub with : Option (Fields F)

-- `image` is the image of the field runs-on, when there is one.
pub record Stage (F : Type 0) : Type 0 where
  pub if_expr : Bytes
  pub image : Option Bytes
  pub env : Option Texts
  pub outputs : Option Texts
  pub with : Option (Fields F)
  pub steps : List (Step F)

pub record Pipeline (F : Type 0) : Type 0 where
  pub env : Option Texts
  pub variables : Option Texts
  pub stages : List (Stage F)
  pub extra : Fields F

-- A result and the errors that were appended, or a panic of Eval.
pub data Rendering (F : Type 0) (A : Type 0) : Type 0 where
  ok : A → List (RenderError F) → Rendering F A
  panicked : Rendering F A

append_errors : {F B : Type 0} → List (RenderError F) → Rendering F B → Rendering F B
append_errors errs (ok b more) = ok b (errs ++ more)
append_errors errs panicked = panicked

module _ {F : Type 0} {A B : Type 0} where
  -- The next part, with its errors after the first ones.
  unfoldable pub and_then : Rendering F A → (A → Rendering F B) → Rendering F B
  unfolding append_errors
  and_then (ok a errs) next = append_errors errs (next a)
  and_then panicked next = panicked

module _ {F : Type 0} {A : Type 0} where
  -- A field that is rendered if it is not nil.
  unfoldable pub when_some : (A → Rendering F A) → Option A → Rendering F (Option A)
  unfolding and_then
  when_some render none = ok none []
  when_some render (some a) = and_then (render a) λ b. ok (some b) []

  -- xs[i] for each index from i on.
  unfoldable pub each_from : (ℕ → A → Rendering F A) → ℕ → List A → Rendering F (List A)
  unfolding and_then
  each_from render i [] = ok [] []
  each_from render i (a ∷ rest) =
      and_then (render i a) λ b. and_then (each_from render (suc i) rest) λ bs. ok (b ∷ bs) []

module _ {F : Type 0} (go : Go F) (ctx : Option (Context F)) where
  pub text_of : Rendered F → Rendering F Bytes
  text_of (Rendered.done s raw errs) = ok s errs
  text_of Rendered.panicked = panicked

  -- renderStr
  unfoldable pub render_str : Bytes → Bytes → Rendering F Bytes
  unfolding text_of
  render_str path s = text_of (render_string go ctx path s)

  -- A text that is rendered if it is not empty.
  unfoldable pub render_filled : Bytes → Bytes → Rendering F Bytes
  unfolding render_str
  render_filled path [] = ok [] []
  render_filled path (b ∷ s) = render_str path (b ∷ s)

  -- renderStrMap
  unfoldable pub render_str_map : Bytes → Texts → Rendering F Texts
  unfolding render_str and_then
  render_str_map path [] = ok [] []
  render_str_map path (e ∷ m) =
      and_then (render_str (path ++ (codes "." ++ e.0)) e.1)
        λ s. and_then (render_str_map path m) λ out. ok ((e.0, s) ∷ out) []

  value_of : Rendered F → Rendering F (Value F)
  unfolding kept
  value_of (Rendered.done s raw errs) = ok (kept s raw) errs
  value_of Rendered.panicked = panicked

  render_any : Bytes → Value F → Rendering F (Value F)
  unfolding value_of
  render_any path (text s) = value_of (render_string go ctx path s)
  render_any path v = ok v []

  -- renderAnyMap. An evaluation with an error gives the empty text, or what could be replaced.
  unfoldable pub render_any_map : Bytes → Fields F → Rendering F (Fields F)
  unfolding render_any and_then
  render_any_map path no_fields = ok no_fields []
  render_any_map path (field k v m) =
      and_then (render_any (path ++ (codes "." ++ k)) v)
        λ w. and_then (render_any_map path m) λ out. ok (field k w out) []

  -- <path>.steps[<i>]
  pub indexed : Bytes → String → ℕ → Bytes
  indexed path name i = path ++ (codes name ++ (codes "[" ++ (codes (itoa i) ++ codes "]")))

  -- renderStep
  unfoldable pub render_step : Bytes → Step F → Rendering F (Step F)
  unfolding render_filled when_some render_str_map render_any_map and_then
  render_step path st = and_then (render_filled (path ++ codes ".run") st.run) λ run.
      and_then (render_filled (path ++ codes ".if") st.if_expr) λ if_expr.
        and_then (when_some (render_str_map (path ++ codes ".env")) st.env) λ env.
          and_then (when_some (render_any_map (path ++ codes ".with")) st.with)
            λ with_map. ok (record { run = run; if_expr = if_expr; env = env; with = with_map }) []

  -- renderStage, which is RenderStage
  unfoldable pub render_stage : Bytes → Stage F → Rendering F (Stage F)
  unfolding render_filled when_some render_str_map render_any_map render_step each_from and_then
      indexed
  render_stage path s = and_then (render_filled (path ++ codes ".if") s.if_expr) λ if_expr.
      and_then (when_some (render_filled (path ++ codes ".runs-on.image")) s.image) λ image.
        and_then (when_some (render_str_map (path ++ codes ".env")) s.env) λ env.
          and_then (when_some (render_str_map (path ++ codes ".outputs")) s.outputs) λ outputs.
            and_then (when_some (render_any_map (path ++ codes ".with")) s.with) λ with_map.
              and_then (each_from (λ i. render_step (indexed path ".steps" i)) 0 s.steps) λ steps.
                ok
                  (record {
                    if_expr = if_expr;
                    image = image;
                    env = env;
                    outputs = outputs;
                    with = with_map;
                    steps = steps;
                  })
                  []

  -- RenderPipeline, for a pipeline that is there
  unfoldable pub render_pipeline : Pipeline F → Rendering F (Pipeline F)
  unfolding when_some render_str_map render_stage each_from and_then indexed
  render_pipeline p = and_then (when_some (render_str_map (codes "env")) p.env) λ env.
      and_then (when_some (render_str_map (codes "variables")) p.variables) λ variables.
        and_then (each_from (λ i. render_stage (indexed (codes "stages") "" i)) 0 p.stages)
          λ stages.
            ok (record { env = env; variables = variables; stages = stages; extra = no_fields }) []
