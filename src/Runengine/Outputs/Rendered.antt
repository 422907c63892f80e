-- ===== src/Runengine/Outputs/Rendered.antt =====
-- The outputs of a stage in ExecuteStage of api/pkg/runengine/execute.go: RenderStage renders their
-- templates before the steps have run, and ResolveStageOutputs what that gives, after they have.
use mathlib.Core.Path.{subst}
use helios_ci_cd.Prelude.{
  ◌≡◌, ◌≢◌, refl, sym, ◌∙◌, ap, false, Option, none, some, some_inj, arith, List, [], ◌∷◌, ◌++◌,
  All,
}
use helios_ci_cd.Expr.{Bytes, codes, Go, Value, null, text, Fields}
use helios_ci_cd.Expr.Texts.{bytes_eq}
use helios_ci_cd.Expr.Values.{find, find_field, member_access, to_string}
use helios_ci_cd.Expr.Eval.{Context, eval_node, value_or_null}
use helios_ci_cd.Expr.Render.{
  RenderError, Rendered, render_string, attempt, eval, render_whole, whole_block, render_from,
}
use helios_ci_cd.Dsl.Render as Dsl
use helios_ci_cd.Dsl.Render.{
  Texts, Stage, Rendering, ok, text_of, render_str, render_str_map, render_stage,
}
use helios_ci_cd.Dsl.Render.Parts.{
  render_str_map-find, ok_inj, render_str_map-cons, render_str_map-none, render_stage-outputs,
}
use helios_ci_cd.Engine.Outputs.{
  StageOutputs, StepOutputs, Resolved, outputs, panicked, keep, resolve_all, kept, outputs_context,
  place_of, resolve_stage_outputs,
}
use helios_ci_cd.Engine.Outputs.Needs.{find-put}
use helios_ci_cd.Engine.Outputs.Templates.{
  IsMap, IsReference, entry_of, rendered, wanted, resolve_stage_outputs-Resolves,
}
use helios_ci_cd.Runengine.Outputs.{
  RunInfo, Spec, Disk, base_values, put_texts, put_spec, put_needs, build_expr_context,
  base_context, Executed, resolved, texts_or_none, after_steps, after_render, execute_stage,
}

module _ {F : Type 0} where
  abbrev HasNoSteps : List (Bytes × Value F) → Type 0
  HasNoSteps values = find (codes "steps") values ≡ none

  put_texts-HasNoSteps :
      (k : Bytes) (m : List (Bytes × Bytes)) (values : List (Bytes × Value F))
      → bytes_eq k (codes "steps") ≡ false
      → HasNoSteps values
      → HasNoSteps (put_texts k m values)
  unfolding put_texts
  put_texts-HasNoSteps k [] values other h = h
  put_texts-HasNoSteps k (e ∷ m) values other h = find-put k (codes "steps") _ values ∙ rw other h

  put_spec-HasNoSteps :
      (p : Option Spec) (values : List (Bytes × Value F))
      → HasNoSteps values
      → HasNoSteps (put_spec p values)
  unfolding put_spec bytes_eq
  put_spec-HasNoSteps none values h = h
  put_spec-HasNoSteps (some p) values h =
      put_texts-HasNoSteps (codes "env") p.env _ refl
        (put_texts-HasNoSteps (codes "vars") p.variables values refl h)

  put_needs-HasNoSteps :
      (m : StepOutputs F) (values : List (Bytes × Value F))
      → HasNoSteps values
      → HasNoSteps (put_needs m values)
  unfolding put_needs bytes_eq
  put_needs-HasNoSteps [] values h = h
  put_needs-HasNoSteps (e ∷ m) values h = find-put (codes "needs") (codes "steps") _ values ∙ h

  build_expr_context-HasNoSteps :
      (run : RunInfo) (p : Option Spec) (m : StepOutputs F)
      → HasNoSteps (build_expr_context run p m).values
  unfolding build_expr_context base_values find bytes_eq
  build_expr_context-HasNoSteps run p m =
      put_needs-HasNoSteps m (put_spec p (base_values run))
        (put_spec-HasNoSteps p (base_values run) refl)

  -- A reference to a step has no value yet.
  render_string-early :
      (go : Go F) (ctx : Context F) (path tpl step name : Bytes)
      → HasNoSteps ctx.values
      → IsReference go tpl step name
      → render_string go (some ctx) path tpl ≡ Rendered.done [] null []
  unfolding render_string attempt eval render_whole eval_node value_or_null member_access to_string
  render_string-early go ctx path tpl step name absent h =
      rw (h.whole, render_string) (rw (h.reads, attempt) (rw absent refl))

  render_string-nil :
      (go : Go F) (ctx : Option (Context F)) (path : Bytes)
      → render_string go ctx path [] ≡ Rendered.done [] (text []) []
  unfolding render_string whole_block render_from
  render_string-nil go ctx path = refl

  rendered-IsMap :
      (go : Go F) (ctx : Option (Context F)) (path : Bytes) (m out : Texts)
      (errs : List (RenderError F))
      → render_str_map go ctx path m ≡ ok out errs
      → IsMap m
      → IsMap out
  unfolding render_str_map
  rendered-IsMap go ctx path [] out errs h d = subst IsMap (ok_inj h).0 tt
  rendered-IsMap go ctx path (e ∷ m) out errs h d =
      let (s, out', es, es', first, more, is) = render_str_map-cons go ctx path e m out errs h in
      subst IsMap (sym is) (
        render_str_map-none go ctx path m out' es' e.0 more d.0,
        rendered-IsMap go ctx path m out' es' more d.1,
      )

  -- A turn that gives a result had one from its template, and from the later ones.
  keep-outputs :
      (key : Bytes) (r : Rendered F) (rest : Resolved F) (out : Fields F)
      (errs : List (RenderError F))
      → keep key r rest ≡ outputs out errs
      → (r ≢ Rendered.panicked)
        × ((out' : Fields F) × (errs' : List (RenderError F)) × (rest ≡ outputs out' errs'))
  unfolding keep
  keep-outputs key (Rendered.done s raw []) (outputs o es) out errs h = (λ e. cc e, (o, es, refl))
  keep-outputs key (Rendered.done s raw (x ∷ xs)) (outputs o es) out errs h =
      (λ e. cc e, (o, es, refl))
  keep-outputs key (Rendered.done s raw []) panicked out errs h = cc h
  keep-outputs key (Rendered.done s raw (x ∷ xs)) panicked out errs h = cc h
  keep-outputs key Rendered.panicked rest out errs h = cc h

  resolve_all-outputs :
      (go : Go F) (ctx : Context F) (id : Bytes) (m : Texts) (out : Fields F)
      (errs : List (RenderError F))
      → resolve_all go ctx id m ≡ outputs out errs
      → All (λ e. rendered go ctx id e.0 e.1 ≢ Rendered.panicked) m
  unfolding resolve_all
  resolve_all-outputs go ctx id [] out errs h = tt
  resolve_all-outputs go ctx id (e ∷ m) out errs h =
      let (fine, (out', errs', more)) =
        keep-outputs e.0 (rendered go ctx id e.0 e.1) (resolve_all go ctx id m) out errs h in
      (fine, resolve_all-outputs go ctx id m out' errs' more)

  outputs_inj :
      {a b : Fields F} {es fs : List (RenderError F)} → outputs a es ≡ outputs b fs → a ≡ b
  outputs_inj e = ground (arith, e)

  -- An output whose template has become the empty text is the empty text.
  resolve_stage_outputs-nil :
      (go : Go F) (stage : StageOutputs) (step_outputs : StepOutputs F) (base : Option (Context F))
      (key : Bytes) (out : Fields F) (errs : List (RenderError F))
      → IsMap stage.outputs
      → find key stage.outputs ≡ some []
      → resolve_stage_outputs go (some stage) step_outputs base ≡ outputs out errs
      → find_field key out ≡ text []
  unfolding resolve_stage_outputs kept
  resolve_stage_outputs-nil go stage step_outputs base key out errs d nil h =
      let ctx = outputs_context step_outputs base in
      let (out', is, gives) =
        resolve_stage_outputs-Resolves go stage step_outputs base d
          (resolve_all-outputs go ctx stage.id stage.outputs out errs h) in
      ap (find_field key) (outputs_inj (sym h ∙ is))
      ∙ gives key
      ∙ ap (wanted go ctx stage.id key) nil
      ∙ ap entry_of (render_string-nil go (some ctx) (place_of go stage.id key))

  resolved_inj :
      (go : Go F) (a b : Resolved F) → ◌≡◌ {A = Executed go} (resolved a) (resolved b) → a ≡ b
  resolved_inj go a b e = ground (arith, e)

  -- The outputs of the rendered stage, in which the template is empty.
  after_steps-early :
      (go : Go F) (ctx : Context F) (id : Bytes) (outs : Texts) (o : Option Texts)
      (step_outputs : Option (StepOutputs F)) (key : Bytes) (out : Fields F)
      (errs : List (RenderError F))
      → o ≡ some outs
      → IsMap outs
      → find key outs ≡ some []
      → after_steps go id ctx o step_outputs ≡ resolved (outputs out errs)
      → find_field key out ≡ text []
  unfolding after_steps texts_or_none
  after_steps-early go ctx id outs o none key out errs is d nil h = cc h
  after_steps-early go ctx id outs none (some step_outputs) key out errs is d nil h = cc is
  after_steps-early go ctx id outs (some o) (some step_outputs) key out errs is d nil h =
      let same : o ≡ outs = some_inj is in
      resolve_stage_outputs-nil go (record { id = id; outputs = o }) step_outputs (some ctx) key out
        errs (subst IsMap (sym same) d) (ap (find key) same ∙ nil) (resolved_inj go _ _ h)

  early_text :
      (go : Go F) (ctx : Context F) (path j tpl step name t : Bytes) (es : List (RenderError F))
      → HasNoSteps ctx.values
      → IsReference go tpl step name
      → render_str go (some ctx) j tpl ≡ ok t es
      → t ≡ []
  unfolding render_str
  early_text go ctx path j tpl step name t es absent h e =
      sym
        (ok_inj (
          sym (ap (text_of go (some ctx)) (render_string-early go ctx j tpl step name absent h))
          ∙ e)).0

  after_render-early :
      (go : Go F) (ctx : Context F) (path id : Bytes) (stage : Stage F)
      (steps : Stage F → Option (StepOutputs F)) (m : Texts) (key tpl step name : Bytes)
      (out : Fields F) (errs : List (RenderError F))
      → HasNoSteps ctx.values
      → stage.outputs ≡ some m
      → IsMap m
      → find key m ≡ some tpl
      → IsReference go tpl step name
      → after_render go id ctx steps (render_stage go (some ctx) path stage)
        ≡ resolved (outputs out errs)
      → find_field key out ≡ text []
  unfolding after_render
  after_render-early go ctx path id stage steps m key tpl step name out errs absent there d found
        ref h =
      by_result (render_stage go (some ctx) path stage) refl h
    where
      by_result :
          (r : Rendering F (Stage F))
          → render_stage go (some ctx) path stage ≡ r
          → after_render go id ctx steps r ≡ resolved (outputs out errs)
          → find_field key out ≡ text []
      by_result (ok s []) is h' =
          let (outs, es, is_there, maps) =
            render_stage-outputs go (some ctx) path stage s m [] is there in
          let (t, j, fs, t_there, t_is) =
            render_str_map-find go (some ctx) (path ++ codes ".outputs") m outs es key tpl maps
              found in
          let nil = early_text go ctx path j tpl step name t fs absent ref t_is in
          after_steps-early go ctx id outs s.outputs (steps s) key out errs is_there
            (rendered-IsMap go (some ctx) (path ++ codes ".outputs") m outs es maps d)
            (t_there ∙ ap some nil) h'
      by_result (ok s (x ∷ xs)) is h' = cc h'
      by_result Dsl.panicked is h' = cc h'

  -- Whatever the steps of a stage give, when ExecuteStage resolves its outputs, an output whose template is
  -- one block with steps.<step>.outputs.<name> inside is the empty text: the template is rendered with the
  -- stage, before the steps run, in a context without steps.
  pub execute_stage-early :
      (go : Go F) (disk : Disk) (file : Option Bytes) (run : RunInfo) (p : Option Spec) (id : Bytes)
      (stage : Stage F) (steps : Stage F → Option (StepOutputs F)) (m : Texts)
      (key tpl step name : Bytes) (out : Fields F) (errs : List (RenderError F))
      → stage.outputs ≡ some m
      → IsMap m
      → find key m ≡ some tpl
      → IsReference go tpl step name
      → execute_stage go disk file run p id stage steps ≡ resolved (outputs out errs)
      → find_field key out ≡ text []
  unfolding execute_stage base_context
  execute_stage-early go disk file run p id stage steps m key tpl step name out errs =
      after_render-early go (base_context go disk file run p) (codes "stages." ++ id) id stage steps
        m key tpl step name out errs (build_expr_context-HasNoSteps run p _)
