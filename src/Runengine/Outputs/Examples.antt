-- ===== src/Runengine/Outputs/Examples.antt =====
-- Two stages that leave outputs for a third, after api/pkg/engine/outputs.go and
-- api/pkg/runengine/outputs_file.go.
use helios_ci_cd.Prelude.{ℕ, true, ◌≡◌, ◌≢◌, refl, none, some, List, [], ◌∷◌, All}
use helios_ci_cd.Prelude.Json.{pos}
use helios_ci_cd.Expr.{text, Bytes, codes, Go, num, fields, Fields, no_fields, field, pos_of}
use helios_ci_cd.Expr.Texts
use helios_ci_cd.Expr.Lexer
use helios_ci_cd.Expr.Parser
use helios_ci_cd.Expr.Parser.{parse}
use helios_ci_cd.Expr.Values
use helios_ci_cd.Expr.Values.{find, find_field}
use helios_ci_cd.Expr.Eval.{Context, Evaluated, eval_node}
use helios_ci_cd.Expr.Examples.{tenths}
use helios_ci_cd.Expr.Render
use helios_ci_cd.Expr.Render.{RenderError, Rendered, render_string, whole_block}
use helios_ci_cd.Engine.Outputs
use helios_ci_cd.Engine.Outputs.{
  StageOutputs, StepOutputs, outputs, resolve_stage_outputs, RunOutputs, new_run_outputs, kept,
  outputs_context, put,
}
use helios_ci_cd.Engine.Outputs.Needs.{
  reference, outputs_of, set_all, with_needs, eval_node-set_all,
}
use helios_ci_cd.Engine.Outputs.Templates.{
  Resolves, rendered, IsMap, IsReference, resolve_stage_outputs-Resolves,
  resolve_stage_outputs-reference,
}
use helios_ci_cd.Dsl.Render as Dsl
use helios_ci_cd.Dsl.Render.{Stage}
use helios_ci_cd.Runengine.Outputs.Rendered.{execute_stage-early}
use helios_ci_cd.Runengine.Outputs as Runengine
use helios_ci_cd.Runengine.Outputs.{
  RunInfo, Disk, as_fields, load, save, set, base_context, resolved, execute_stage,
}
use helios_ci_cd.Runengine.Outputs.Reading.{eval_node-set}

abbrev tag : Fields ℕ
tag = field (codes "tag") (num 10) no_fields

abbrev empty_context : Context ℕ
empty_context = record { values = []; run_status = codes "running" }

eval_node-set_all_example :
    eval_node tenths
      (with_needs empty_context
        (set_all new_run_outputs ((codes "build", none) ∷ (codes "build", some tag) ∷ [])))
      (reference (codes "needs") (codes "build") (codes "tag") 0 5 11 19)
    ≡ Evaluated.ok (num 10)
unfolding find find_field Texts.bytes_eq Outputs.or_empty
eval_node-set_all_example =
    eval_node-set_all tenths empty_context new_run_outputs
      ((codes "build", none) ∷ (codes "build", some tag) ∷ []) (codes "build") (codes "tag") 0 5 11
      19

-- A stage with an output of its step "up" and one whose template does not parse.
abbrev up_tpl : Bytes
up_tpl = codes "${{ steps.up.outputs.tag }}"

abbrev stage : StageOutputs
stage = record {
  id = codes "b";
  outputs = (codes "v", up_tpl) ∷ (codes "w", codes "${{ + }}") ∷ [];
}

abbrev steps : StepOutputs ℕ
steps = (codes "up", tag) ∷ []

stage-IsMap : IsMap stage.outputs
unfolding find Texts.bytes_eq
stage-IsMap = (refl, (refl, tt))

stage_fine :
    All
      (λ e. rendered tenths (outputs_context steps none) stage.id e.0 e.1 ≢ Rendered.panicked)
      stage.outputs
unfolding parse Lexer.lexeme Parser.parse_ternary Texts.bytes_eq pos_of render_string
    Texts.has_suffix Texts.decode_rune eval_node outputs_context find Values.member_access put
stage_fine = (λ e. cc e, (λ e. cc e, tt))

resolve_stage_outputs-Resolves_example :
    Resolves tenths
      (outputs_context steps none)
      stage.id
      stage.outputs
      (resolve_stage_outputs tenths (some stage) steps none)
resolve_stage_outputs-Resolves_example =
    resolve_stage_outputs-Resolves tenths stage steps none stage-IsMap stage_fine

up-IsReference : IsReference tenths up_tpl (codes "up") (codes "tag")
unfolding parse Lexer.lexeme Parser.parse_ternary Texts.bytes_eq pos_of Texts.has_suffix
    Texts.decode_rune whole_block Render.trim
up-IsReference = record {
  inner = codes " steps.up.outputs.tag ";
  p = 0;
  q = 0;
  r = 0;
  t = 0;
  whole = refl;
  reads = refl;
}

resolve_stage_outputs-reference_example :
    (out : Fields ℕ) × (errs : List (RenderError ℕ)) × (resolve_stage_outputs tenths
        (some stage)
        steps
        none
      ≡ outputs out errs)
    × (find_field (codes "v") out ≡ num 10)
unfolding find find_field Texts.bytes_eq kept Outputs.or_empty
resolve_stage_outputs-reference_example =
    resolve_stage_outputs-reference tenths stage steps none (codes "v") up_tpl (codes "up")
      (codes "tag") stage-IsMap stage_fine refl up-IsReference

-- The file before and after the stage "b" has stored its outputs, with stand-ins for JSON.
abbrev before : StepOutputs ℕ
before = (codes "a", tag) ∷ []

abbrev after : StepOutputs ℕ
after = (codes "a", tag) ∷ (codes "b", tag) ∷ []

abbrev go : Go ℕ
go = record tenths {
  marshal = λ v. some (codes "{ab}");
  unmarshal = λ s. elim s [
    | [] ↦ none
    | b ∷ rest ↦ elim rest [
      | [] ↦ some (fields (as_fields before))
      | c ∷ more ↦ some (fields (as_fields after))
    ]
  ];
}

abbrev sound_disk : Disk
sound_disk = record { read_ok = true; mkdir_ok = true; write_ok = true; torn = none }

abbrev run : RunInfo
run = record {
  id = pos 7;
  status = codes "running";
  branch = codes "main";
  commit_sha = codes "c0ffee";
}

before-load : load go sound_disk (some (codes "a")) ≡ some before
unfolding load Runengine.as_outputs as_fields
before-load = refl

eval_node-set_example :
    (set go sound_disk (some (codes "a")) (codes "b") tag ≡ (true, some (codes "{ab}")))
    × (eval_node go
          (base_context go sound_disk (some (codes "{ab}")) run none)
          (reference (codes "needs") (codes "a") (codes "tag") 0 0 0 0)
        ≡ Evaluated.ok (num 10))
unfolding find find_field Texts.bytes_eq Outputs.or_empty put as_fields
eval_node-set_example =
    eval_node-set go sound_disk sound_disk (some (codes "a")) before (codes "b") tag (codes "{ab}")
      run none (codes "a") (codes "tag") 0 0 0 0 before-load refl refl refl refl refl

-- Two stages that end together: both load the file before either saves it, since each has a mutex of its
-- own, and the outputs of the first are lost.
abbrev both_loaded : StepOutputs ℕ × StepOutputs ℕ
both_loaded = (put (codes "x") tag before, put (codes "y") tag before)

lost_outputs :
    ((save go sound_disk both_loaded.0 (some (codes "a"))).0 ≡ true)
    × ((save go sound_disk both_loaded.1 (some (codes "a"))).0 ≡ true)
    × (outputs_of both_loaded.1 (codes "x") ≡ no_fields)
unfolding save put find Outputs.or_empty Texts.bytes_eq
lost_outputs = (refl, refl, refl)

-- A stage with an output of its step "up", which gives a tag.
abbrev templated : Stage ℕ
templated = record {
  if_expr = [];
  image = none;
  env = none;
  outputs = some ((codes "v", up_tpl) ∷ []);
  with = none;
  steps = [];
}

templated-resolved :
    execute_stage tenths sound_disk none run none (codes "b") templated (λ s. some steps)
    ≡ resolved (outputs (field (codes "v") (text []) no_fields) [])
unfolding execute_stage load Runengine.build_expr_context Runengine.put_needs Runengine.put_spec
    Runengine.base_values put resolve_stage_outputs outputs_context kept find Texts.bytes_eq parse
    Lexer.lexeme Parser.parse_ternary pos_of render_string Texts.has_suffix Texts.decode_rune
    eval_node Values.member_access Dsl.render_stage Dsl.each_from Dsl.when_some Dsl.and_then
    Dsl.render_str_map Dsl.render_filled Outputs.resolve_all Values.to_string
templated-resolved = refl

abbrev no_text : Fields ℕ
no_text = no_fields

execute_stage-early_example : find_field (codes "v") (field (codes "v") (text []) no_text) ≡ text []
unfolding find Texts.bytes_eq
execute_stage-early_example =
    execute_stage-early tenths sound_disk none run none (codes "b") templated (λ s. some steps)
      ((codes "v", up_tpl) ∷ []) (codes "v") up_tpl (codes "up") (codes "tag")
      (field (codes "v") (text []) no_fields) [] refl (refl, tt) refl up-IsReference
      templated-resolved
