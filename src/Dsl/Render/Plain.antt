-- ===== src/Dsl/Render/Plain.antt =====
-- RenderPipeline of api/pkg/dsl/render.go on a pipeline without blocks.
use helios_ci_cd.Prelude.{ℕ, suc, ◌≡◌, refl, ap, Option, none, some, List, [], ◌∷◌, ◌++◌, All}
use helios_ci_cd.Expr.{
  Bytes, codes, Go, Value, text, null, bool, num, int, int64, items, fields, texts, text_map,
  Fields, no_fields, field,
}
use helios_ci_cd.Expr.Eval.{Context}
use helios_ci_cd.Expr.Render.{render_string, rebuilt, whole_block, render_from, Rendered}
use helios_ci_cd.Expr.Render.Blocks.{HasNoDollar, whole_block-plain, render_from-end}
use helios_ci_cd.Engine.Outputs.{kept}
use helios_ci_cd.Dsl.Render.{
  Texts, Step, Stage, Pipeline, Rendering, ok, append_errors, and_then, when_some, each_from,
  text_of, render_str, render_filled, render_str_map, value_of, render_any, render_any_map,
  render_step, render_stage, render_pipeline, indexed,
}

abbrev pub IsPlainMap : Texts → Type 0
IsPlainMap = All (λ e. HasNoDollar e.1)

abbrev pub OnSome : {A : Type 0} → (A → Type 0) → Option A → Type 0
OnSome P none = Unit
OnSome P (some a) = P a

module _ {F : Type 0} where
  abbrev pub IsPlainValue : Value F → Type 0
  IsPlainValue (text s) = HasNoDollar s
  IsPlainValue _ = Unit

  abbrev pub IsPlainFields : Fields F → Type 0
  IsPlainFields no_fields = Unit
  IsPlainFields (field k v m) = IsPlainValue v × IsPlainFields m

  pub record IsPlainStep (st : Step F) : Type 0 where
    pub run : HasNoDollar st.run
    pub if_expr : HasNoDollar st.if_expr
    pub env : OnSome IsPlainMap st.env
    pub with_map : OnSome IsPlainFields st.with

  -- No text of the stage that is rendered has a $.
  pub record IsPlainStage (s : Stage F) : Type 0 where
    pub if_expr : HasNoDollar s.if_expr
    pub image : OnSome HasNoDollar s.image
    pub env : OnSome IsPlainMap s.env
    pub outputs : OnSome IsPlainMap s.outputs
    pub with_map : OnSome IsPlainFields s.with
    pub steps : All IsPlainStep s.steps

  pub record IsPlain (p : Pipeline F) : Type 0 where
    pub env : OnSome IsPlainMap p.env
    pub variables : OnSome IsPlainMap p.variables
    pub stages : All IsPlainStage p.stages

  when_some-same :
      {A : Type 0} (P : A → Type 0) (render : A → Rendering F A) (o : Option A)
      → ((a : A) → P a → render a ≡ ok a [])
      → OnSome P o
      → when_some render o ≡ ok o []
  unfolding when_some and_then append_errors
  when_some-same P render none same h = refl
  when_some-same P render (some a) same h = rw (same a h) refl

  each_from-same :
      {A : Type 0} (P : A → Type 0) (render : ℕ → A → Rendering F A) (xs : List A) (i : ℕ)
      → ((j : ℕ) (a : A) → P a → render j a ≡ ok a [])
      → All P xs
      → each_from render i xs ≡ ok xs []
  unfolding each_from and_then append_errors
  each_from-same P render [] i same h = refl
  each_from-same P render (a ∷ xs) i same h =
      rw (same i a h.0, each_from-same P render xs (suc i) same h.1) refl

  module _ (go : Go F) (ctx : Option (Context F)) where
    render_string-plain :
        (path s : Bytes) → HasNoDollar s → render_string go ctx path s ≡ Rendered.done s (text s) []
    unfolding render_string whole_block render_from rebuilt
    render_string-plain path [] h = refl
    render_string-plain path (c ∷ s) h =
        rw (whole_block-plain c s h.0, render_string)
          (ap (rebuilt go) (render_from-end go ctx path (c ∷ s) h))

    render_str-plain : (path s : Bytes) → HasNoDollar s → render_str go ctx path s ≡ ok s []
    unfolding render_str text_of
    render_str-plain path s h = ap (text_of go ctx) (render_string-plain path s h)

    render_filled-plain : (path s : Bytes) → HasNoDollar s → render_filled go ctx path s ≡ ok s []
    unfolding render_filled
    render_filled-plain path [] h = refl
    render_filled-plain path (c ∷ s) h = render_str-plain path (c ∷ s) h

    render_str_map-plain :
        (path : Bytes) (m : Texts) → IsPlainMap m → render_str_map go ctx path m ≡ ok m []
    unfolding render_str_map and_then append_errors
    render_str_map-plain path [] h = refl
    render_str_map-plain path (e ∷ m) h =
        rw (render_str-plain (path ++ (codes "." ++ e.0)) e.1 h.0, render_str_map-plain path m h.1)
          refl

    render_any-plain :
        (path : Bytes) (v : Value F) → IsPlainValue v → render_any go ctx path v ≡ ok v []
    unfolding render_any value_of kept
    render_any-plain path (text s) h = ap (value_of go ctx) (render_string-plain path s h)
    render_any-plain path null h = refl
    render_any-plain path (bool b) h = refl
    render_any-plain path (num x) h = refl
    render_any-plain path (int z) h = refl
    render_any-plain path (int64 z) h = refl
    render_any-plain path (items vs) h = refl
    render_any-plain path (fields fs) h = refl
    render_any-plain path (texts ss) h = refl
    render_any-plain path (text_map m) h = refl

    render_any_map-plain :
        (path : Bytes) (m : Fields F) → IsPlainFields m → render_any_map go ctx path m ≡ ok m []
    unfolding render_any_map and_then append_errors
    render_any_map-plain path no_fields h = refl
    render_any_map-plain path (field k v m) h =
        rw (render_any-plain (path ++ (codes "." ++ k)) v h.0, render_any_map-plain path m h.1) refl

    render_step-plain :
        (path : Bytes) (st : Step F) → IsPlainStep st → render_step go ctx path st ≡ ok st []
    unfolding render_step and_then append_errors
    render_step-plain path st h =
        rw
          (
            render_filled-plain (path ++ codes ".run") st.run h.run,
            render_filled-plain (path ++ codes ".if") st.if_expr h.if_expr,
            when_some-same IsPlainMap (render_str_map go ctx (path ++ codes ".env")) st.env
                (render_str_map-plain (path ++ codes ".env")) h.env,
            when_some-same IsPlainFields (render_any_map go ctx (path ++ codes ".with")) st.with
                (render_any_map-plain (path ++ codes ".with")) h.with_map,
          )
          refl

    render_stage-plain :
        (path : Bytes) (s : Stage F) → IsPlainStage s → render_stage go ctx path s ≡ ok s []
    unfolding render_stage and_then append_errors
    render_stage-plain path s h =
        rw
          (
            render_filled-plain (path ++ codes ".if") s.if_expr h.if_expr,
            when_some-same HasNoDollar (render_filled go ctx (path ++ codes ".runs-on.image"))
                s.image (render_filled-plain (path ++ codes ".runs-on.image")) h.image,
            when_some-same IsPlainMap (render_str_map go ctx (path ++ codes ".env")) s.env
                (render_str_map-plain (path ++ codes ".env")) h.env,
            when_some-same IsPlainMap (render_str_map go ctx (path ++ codes ".outputs")) s.outputs
                (render_str_map-plain (path ++ codes ".outputs")) h.outputs,
            when_some-same IsPlainFields (render_any_map go ctx (path ++ codes ".with")) s.with
                (render_any_map-plain (path ++ codes ".with")) h.with_map,
            each_from-same IsPlainStep (λ i. render_step go ctx (indexed go ctx path ".steps" i))
                s.steps 0 (λ i. render_step-plain (indexed go ctx path ".steps" i)) h.steps,
          )
          refl

    -- A pipeline without $ in the texts that are rendered is left as it is in any context, without an
    -- error, but for its extra keys, which the result has not.
    pub render_pipeline-plain :
        (p : Pipeline F)
        → IsPlain p
        → render_pipeline go ctx p ≡ ok (record p { extra = no_fields }) []
    unfolding render_pipeline and_then append_errors
    render_pipeline-plain p h =
        rw
          (
            when_some-same IsPlainMap (render_str_map go ctx (codes "env")) p.env
                (render_str_map-plain (codes "env")) h.env,
            when_some-same IsPlainMap (render_str_map go ctx (codes "variables")) p.variables
                (render_str_map-plain (codes "variables")) h.variables,
            each_from-same IsPlainStage
                (λ i. render_stage go ctx (indexed go ctx (codes "stages") "" i)) p.stages 0
                (λ i. render_stage-plain (indexed go ctx (codes "stages") "" i)) h.stages,
          )
          refl
