-- ===== src/Engine/Outputs/Templates.antt =====
-- ResolveStageOutputs of api/pkg/engine/outputs.go: each template by itself.
use helios_ci_cd.Prelude.{
  ℕ, ◌≡◌, ◌≢◌, refl, sym, ◌∙◌, ap, inl, inr, Option, none, some, List, [], ◌∷◌, ◌++◌, All,
  Bool-cases, if◌then◌else◌,
}
use helios_ci_cd.Expr.{Bytes, codes, Go, Value, null, fields, Fields, no_fields, field}
use helios_ci_cd.Expr.Texts.{bytes_eq}
use helios_ci_cd.Expr.Values.{find, find_field, to_string}
use helios_ci_cd.Expr.Eval.{Context}
use helios_ci_cd.Expr.Parser.{parse}
use helios_ci_cd.Expr.Parser.Outcome.{Parsed}
use helios_ci_cd.Expr.Render.{
  RenderError, Rendered, render_string, whole_block, trim, attempt, eval, render_whole,
}
use helios_ci_cd.Engine.Outputs.{
  StageOutputs, StepOutputs, Resolved, outputs, outputs_by_id, outputs_context, kept, keep,
  place_of, resolve_all, resolve_stage_outputs,
}
use helios_ci_cd.Engine.Outputs.Needs.{
  bytes_eq_iff, bytes_eq_refl, find-put, outputs_of, reference, eval_node-reference,
}

-- The keys of a map are distinct.
abbrev pub IsMap : List (Bytes × Bytes) → Type 0
IsMap [] = Unit
IsMap (e ∷ m) = (find e.0 m ≡ none) × IsMap m

module _ {F : Type 0} where
  -- What a template gives its key: its value, or nothing when it has errors.
  abbrev pub entry_of : Rendered F → Value F
  entry_of (Rendered.done s raw []) = kept s raw
  entry_of (Rendered.done s raw (e ∷ es)) = null
  entry_of Rendered.panicked = null

  abbrev pub errors_of : Rendered F → List (RenderError F)
  errors_of (Rendered.done s raw es) = es
  errors_of Rendered.panicked = []

  -- The result of one turn.
  keep_lem :
      (key : Bytes) (r : Rendered F) (out : Fields F) (errs : List (RenderError F))
      → r ≢ Rendered.panicked
      → find_field key out ≡ null
      → (out' : Fields F) × (keep key r (outputs out errs) ≡ outputs out' (errors_of r ++ errs))
        × ((k : Bytes)
            → find_field k out' ≡ (if bytes_eq key k then entry_of r else find_field k out))
  unfolding keep find_field
  keep_lem key (Rendered.done s raw []) out errs fine fresh =
      (field key (kept s raw) out, refl, λ k. refl)
  keep_lem key (Rendered.done s raw (e ∷ es)) out errs fine fresh = (
    out,
    refl,
    λ k. elim (Bool-cases (bytes_eq key k)) [
      | inl same ↦ rw same (ap (λ j. find_field j out) (sym ((bytes_eq_iff key k).0 same)) ∙ fresh)
      | inr other ↦ rw other refl
    ],
  )
  keep_lem key Rendered.panicked out errs fine fresh = absurd (fine refl)

  module _ (go : Go F) (ctx : Context F) (id : Bytes) where
    abbrev pub rendered : Bytes → Bytes → Rendered F
    rendered key tpl = render_string go (some ctx) (place_of go id key) tpl

    abbrev pub wanted : Bytes → Option Bytes → Value F
    wanted key none = null
    wanted key (some tpl) = entry_of (rendered key tpl)

    abbrev pub errors_in : List (Bytes × Bytes) → List (RenderError F)
    errors_in [] = []
    errors_in (e ∷ m) = errors_of (rendered e.0 e.1) ++ errors_in m

    abbrev pub Resolves : List (Bytes × Bytes) → Resolved F → Type 0
    Resolves m r =
        (out : Fields F) × (r ≡ outputs out (errors_in m))
        × ((key : Bytes) → find_field key out ≡ wanted key (find key m))

    resolve_all-Resolves :
        (m : List (Bytes × Bytes))
        → IsMap m
        → All (λ e. rendered e.0 e.1 ≢ Rendered.panicked) m
        → Resolves m (resolve_all go ctx id m)
    unfolding resolve_all find find_field
    resolve_all-Resolves [] d fine = (no_fields, refl, λ key. refl)
    resolve_all-Resolves (e ∷ m) d fine =
        let (out, is, gives) = resolve_all-Resolves m d.1 fine.1 in
        let (out', is', gives') =
          keep_lem e.0 (rendered e.0 e.1) out (errors_in m) fine.0
            (gives e.0 ∙ ap (wanted e.0) d.0) in
        (
          out',
          ap (keep e.0 (rendered e.0 e.1)) is ∙ is',
          λ key. elim (Bool-cases (bytes_eq e.0 key)) [
            | inl same ↦
                gives' key
                ∙ rw same (ap (λ k. entry_of (rendered k e.1)) ((bytes_eq_iff e.0 key).0 same))
            | inr other ↦ gives' key ∙ rw other (gives key)
          ],
        )

  -- ResolveStageOutputs treats each template by itself: with a map for the outputs of a stage, and no
  -- template whose evaluation panics, it returns, for each key of the map, the value of its template, or
  -- nothing where the template has errors, no other key, and the errors of all templates and no other.
  pub resolve_stage_outputs-Resolves :
      (go : Go F) (stage : StageOutputs) (step_outputs : StepOutputs F) (base : Option (Context F))
      → IsMap stage.outputs
      → All
          (λ e.
            rendered go (outputs_context step_outputs base) stage.id e.0 e.1 ≢ Rendered.panicked)
          stage.outputs
      → Resolves go
          (outputs_context step_outputs base)
          stage.id
          stage.outputs
          (resolve_stage_outputs go (some stage) step_outputs base)
  unfolding resolve_stage_outputs
  resolve_stage_outputs-Resolves go stage step_outputs base =
      resolve_all-Resolves go (outputs_context step_outputs base) stage.id stage.outputs

  -- The steps of the stage stand in the context of its templates.
  find-outputs_context :
      (step_outputs : StepOutputs F) (base : Option (Context F))
      → find (codes "steps") (outputs_context step_outputs base).values
        ≡ some (fields (outputs_by_id step_outputs))
  unfolding outputs_context
  find-outputs_context step_outputs base =
      find-put (codes "steps") (codes "steps") _ _ ∙ rw (bytes_eq_refl (codes "steps")) refl

  -- A template that is one block with steps.<step>.outputs.<name> inside.
  pub record IsReference (go : Go F) (tpl step name : Bytes) : Type 0 where
    pub inner : Bytes
    pub p : ℕ
    pub q : ℕ
    pub r : ℕ
    pub t : ℕ
    pub whole : whole_block tpl ≡ some inner
    pub reads : parse go (trim inner) ≡ Parsed.ok (reference (codes "steps") step name p q r t)

  render_string-reference :
      (go : Go F) (step_outputs : StepOutputs F) (base : Option (Context F))
      (path tpl step name : Bytes)
      → IsReference go tpl step name
      → render_string go (some (outputs_context step_outputs base)) path tpl
        ≡ Rendered.done
            (to_string go (find_field name (outputs_of step_outputs step)))
            (find_field name (outputs_of step_outputs step))
            []
  unfolding render_string attempt eval render_whole
  render_string-reference go step_outputs base path tpl step name h =
      rw (h.whole, render_string)
        (rw (h.reads, attempt)
          (rw
            (eval_node-reference go (outputs_context step_outputs base) step_outputs (codes "steps")
              step name h.p h.q h.r h.t (find-outputs_context step_outputs base))
            refl))

  -- An output whose template is one block with steps.<step>.outputs.<name> inside is what the step gave
  -- under that name, of the type that it has; where the step gave nil, or nothing, it is the empty text.
  -- The other templates of the stage may have errors.
  pub resolve_stage_outputs-reference :
      (go : Go F) (stage : StageOutputs) (step_outputs : StepOutputs F) (base : Option (Context F))
      (key tpl step name : Bytes)
      → IsMap stage.outputs
      → All
          (λ e.
            rendered go (outputs_context step_outputs base) stage.id e.0 e.1 ≢ Rendered.panicked)
          stage.outputs
      → find key stage.outputs ≡ some tpl
      → IsReference go tpl step name
      → (out : Fields F) × (errs : List (RenderError F)) × (resolve_stage_outputs go
            (some stage)
            step_outputs
            base
          ≡ outputs out errs)
        × (find_field key out
            ≡ kept
                (to_string go (find_field name (outputs_of step_outputs step)))
                (find_field name (outputs_of step_outputs step)))
  resolve_stage_outputs-reference go stage step_outputs base key tpl step name d fine found h =
      let ctx = outputs_context step_outputs base in
      let (out, is, gives) = resolve_stage_outputs-Resolves go stage step_outputs base d fine in
      (
        out,
        errors_in go ctx stage.id stage.outputs,
        is,
        gives key
            ∙ ap (wanted go ctx stage.id key) found
            ∙ ap entry_of (
                render_string-reference go step_outputs base (place_of go stage.id key) tpl step
                  name h),
      )
