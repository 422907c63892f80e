-- ===== src/Engine/Outputs.antt =====
-- api/pkg/engine/outputs.go: the outputs of stages, and the contexts that hold them. A
-- map[string]any is the fields of a value; the copies
-- of a map are the map itself, as a value. The mutex makes each call of RunOutputs atomic.
pub mod Needs
pub mod Templates
use helios_ci_cd.Prelude.{Option, none, some, List, [], ◌∷◌, ◌++◌, if◌then◌else◌}
use helios_ci_cd.Expr.{Bytes, codes, Go, Value, null, text, fields, Fields, no_fields, field}
use helios_ci_cd.Expr.Texts.{bytes_eq}
use helios_ci_cd.Expr.Eval.{Context}
use helios_ci_cd.Expr.Render
use helios_ci_cd.Expr.Render.{RenderError, Rendered, render_string}

-- What is read of a dsl.Stage.
pub record StageOutputs : Type 0 where
  pub id : Bytes
  pub outputs : List (Bytes × Bytes)

-- m[k] = v
unfoldable pub put {ℓ} : {V : Type ℓ} → Bytes → V → List (Bytes × V) → List (Bytes × V)
put k v [] = (k, v) ∷ []
put k v (e ∷ m) = let rest = put k v m in if bytes_eq e.0 k then (k, v) ∷ m else e ∷ rest

-- map[string]map[string]any
abbrev pub StepOutputs : Type 0 → Type 0
StepOutputs F = List (Bytes × Fields F)

-- The two results of ResolveStageOutputs, or a panic of Eval.
pub data Resolved (F : Type 0) : Type 0 where
  outputs : Fields F → List (RenderError F) → Resolved F
  panicked : Resolved F

module _ {F : Type 0} where
  -- map[string]any{"outputs": outs}
  abbrev pub with_outputs : Fields F → Value F
  with_outputs outs = fields (field (codes "outputs") (fields outs) no_fields)

  -- The loop that makes steps[sid], or needs[sid].
  unfoldable pub outputs_by_id : StepOutputs F → Fields F
  outputs_by_id [] = no_fields
  outputs_by_id (e ∷ m) = field e.0 (with_outputs e.1) (outputs_by_id m)

  abbrev pub values_of : Option (Context F) → List (Bytes × Value F)
  values_of none = []
  values_of (some ctx) = ctx.values

  abbrev pub status_of : Option (Context F) → Bytes
  status_of none = []
  status_of (some ctx) = ctx.run_status

  -- The context of the templates: the base with `steps` over it.
  unfoldable pub outputs_context : StepOutputs F → Option (Context F) → Context F
  outputs_context step_outputs base = record {
    values = put (codes "steps") (fields (outputs_by_id step_outputs)) (values_of base);
    run_status = status_of base;
  }

  -- out[key]: the value as it is, unless it is nil or a string.
  unfoldable pub kept : Bytes → Value F → Value F
  kept rendered null = text rendered
  kept rendered (text s) = text rendered
  kept rendered raw = raw

  -- One turn of the loop over stage.Outputs, before what the later ones give.
  unfoldable pub keep : Bytes → Rendered F → Resolved F → Resolved F
  unfolding kept
  keep key (Rendered.done s raw []) (outputs out errs) = outputs (field key (kept s raw) out) errs
  keep key (Rendered.done s raw (e ∷ es)) (outputs out errs) = outputs out ((e ∷ es) ++ errs)
  keep key (Rendered.done s raw es) panicked = panicked
  keep key Rendered.panicked rest = panicked

  module _ (go : Go F) where
    -- stages.<id>.outputs.<key>
    unfoldable pub place_of : Bytes → Bytes → Bytes
    place_of id key = codes "stages." ++ (id ++ (codes ".outputs." ++ key))

    unfoldable pub resolve_all : Context F → Bytes → List (Bytes × Bytes) → Resolved F
    unfolding keep
    resolve_all ctx id [] = outputs no_fields []
    resolve_all ctx id (e ∷ rest) =
        keep e.0 (render_string go (some ctx) (place_of id e.0) e.1) (resolve_all ctx id rest)

    -- ResolveStageOutputs; the nil map reads as the empty one.
    unfoldable pub resolve_stage_outputs :
        Option StageOutputs → StepOutputs F → Option (Context F) → Resolved F
    resolve_stage_outputs none step_outputs base = outputs no_fields []
    resolve_stage_outputs (some stage) step_outputs base =
        resolve_all (outputs_context step_outputs base) stage.id stage.outputs

-- RunOutputs
pub record RunOutputs (F : Type 0) : Type 0 where
  pub m : StepOutputs F

module _ {F : Type 0} where
  -- NewRunOutputs
  abbrev pub new_run_outputs : RunOutputs F
  new_run_outputs = record { m = [] }

  -- The map to store, where nil is stored as the empty map.
  unfoldable pub or_empty : Option (Fields F) → Fields F
  or_empty none = no_fields
  or_empty (some outs) = outs

  -- Set
  unfoldable pub set : RunOutputs F → Bytes → Option (Fields F) → RunOutputs F
  unfolding put or_empty
  set r stage_id outs = record { m = put stage_id (or_empty outs) r.m }

  -- Snapshot
  abbrev pub snapshot : RunOutputs F → StepOutputs F
  snapshot r = r.m

  -- BuildNeedsContext
  unfoldable pub build_needs_context : RunOutputs F → Fields F
  unfolding outputs_by_id
  build_needs_context r = outputs_by_id (snapshot r)
