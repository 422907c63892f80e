-- ===== src/Runengine/Outputs.antt =====
-- api/pkg/runengine/context.go and outputs_file.go: what a stage reads of its run, and the file in which
-- the stages of a run leave their outputs for one another. The file is its bytes, if it is there.
pub mod Reading
pub mod Rendered
mod Examples
use helios_ci_cd.Prelude.{Bool, true, false, Option, none, some, List, [], ◌∷◌, ◌++◌, if◌then◌else◌}
use helios_ci_cd.Prelude.Json.{ℤ}
use helios_ci_cd.Expr.{Bytes, codes, Go, Value, null, text, int64, fields, Fields, no_fields, field}
use helios_ci_cd.Expr.Eval.{Context}
use helios_ci_cd.Expr.Render.{RenderError}
use helios_ci_cd.Dsl.Render.{Texts, Stage, Rendering, ok, panicked, render_stage}
use helios_ci_cd.Engine.Outputs.{put, StepOutputs, outputs_by_id, Resolved, resolve_stage_outputs}

-- What is read of a RunInfo.
pub record RunInfo : Type 0 where
  pub id : ℤ
  pub status : Bytes
  pub branch : Bytes
  pub commit_sha : Bytes

-- What is read of a dsl.Pipeline.
pub record Spec : Type 0 where
  pub variables : List (Bytes × Bytes)
  pub env : List (Bytes × Bytes)

-- What the calls of the system do: whether the file can be read, its directory made and the file written,
-- and what it holds after a write that failed.
pub record Disk : Type 0 where
  pub read_ok : Bool
  pub mkdir_ok : Bool
  pub write_ok : Bool
  pub torn : Option Bytes

module _ {F : Type 0} where
  -- The loops that copy a map[string]string.
  unfoldable pub texts_of : List (Bytes × Bytes) → Fields F
  texts_of [] = no_fields
  texts_of (e ∷ m) = field e.0 (text e.1) (texts_of m)

  github_of : RunInfo → Fields F
  github_of run =
      field (codes "sha") (text run.commit_sha)
        (field (codes "ref") (text run.branch) (field (codes "branch") (text run.branch) no_fields))

  run_of : RunInfo → Fields F
  run_of run =
      field (codes "id") (int64 run.id) (field (codes "status") (text run.status) no_fields)

  -- The map before the pipeline and the outputs are looked at.
  unfoldable pub base_values : RunInfo → List (Bytes × Value F)
  unfolding github_of run_of
  base_values run =
      (codes "vars", fields no_fields)
      ∷ (codes "env", fields no_fields)
      ∷ (codes "github", fields (github_of run))
      ∷ (codes "run", fields (run_of run))
      ∷ []

  -- values[name] = m, when m is not empty.
  unfoldable pub put_texts :
      Bytes → List (Bytes × Bytes) → List (Bytes × Value F) → List (Bytes × Value F)
  unfolding put texts_of
  put_texts name [] values = values
  put_texts name (e ∷ m) values = put name (fields (texts_of (e ∷ m))) values

  unfoldable pub put_spec : Option Spec → List (Bytes × Value F) → List (Bytes × Value F)
  unfolding put_texts
  put_spec none values = values
  put_spec (some p) values =
      put_texts (codes "env") p.env (put_texts (codes "vars") p.variables values)

  unfoldable pub put_needs : StepOutputs F → List (Bytes × Value F) → List (Bytes × Value F)
  unfolding put outputs_by_id
  put_needs [] values = values
  put_needs (e ∷ m) values = put (codes "needs") (fields (outputs_by_id (e ∷ m))) values

  -- BuildExprContext
  unfoldable pub build_expr_context : RunInfo → Option Spec → StepOutputs F → Context F
  unfolding base_values put_spec put_needs
  build_expr_context run p stage_outputs = record {
    values = put_needs stage_outputs (put_spec p (base_values run));
    run_status = run.status;
  }

  -- The map as the value that json.Marshal is given.
  unfoldable pub as_fields : StepOutputs F → Fields F
  as_fields [] = no_fields
  as_fields (e ∷ m) = field e.0 (fields e.1) (as_fields m)

  and_outputs : Bytes → Option (Fields F) → Option (StepOutputs F) → Option (StepOutputs F)
  and_outputs k (some outs) (some m) = some ((k, outs) ∷ m)
  and_outputs k _ _ = none

  inner_map : Value F → Option (Fields F)
  inner_map (fields fs) = some fs
  inner_map null = some no_fields
  inner_map _ = none

  -- json.Unmarshal into a map[string]map[string]any: an object of objects, or null at either place.
  unfoldable pub outputs_in : Fields F → Option (StepOutputs F)
  unfolding and_outputs inner_map
  outputs_in no_fields = some []
  outputs_in (field k v fs) = and_outputs k (inner_map v) (outputs_in fs)

  unfoldable pub as_outputs : Option (Value F) → Option (StepOutputs F)
  unfolding outputs_in
  as_outputs (some (fields fs)) = outputs_in fs
  as_outputs (some null) = some []
  as_outputs _ = none

  module _ (go : Go F) where
    -- load; none is an error.
    unfoldable pub load : Disk → Option Bytes → Option (StepOutputs F)
    unfolding as_outputs
    load disk none = if disk.read_ok then some [] else none
    load disk (some bytes) = if disk.read_ok then as_outputs (go.unmarshal bytes) else none

    write : Disk → Option Bytes → Option Bytes → Bool × Option Bytes
    write disk none file = (false, file)
    write disk (some bytes) file = if disk.write_ok then (true, some bytes) else (false, disk.torn)

    -- save: whether it returns no error, and the file after it.
    unfoldable pub save : Disk → StepOutputs F → Option Bytes → Bool × Option Bytes
    unfolding write as_fields
    save disk m file =
        if disk.mkdir_ok then write disk (go.marshal (fields (as_fields m))) file else (false, file)

    set_on : Disk → Option (StepOutputs F) → Bytes → Fields F → Option Bytes → Bool × Option Bytes
    unfolding save put
    set_on disk none stage_id outs file = (false, file)
    set_on disk (some m) stage_id outs file = save disk (put stage_id outs m) file

    -- OutputsFile.Set
    unfoldable pub set : Disk → Option Bytes → Bytes → Fields F → Bool × Option Bytes
    unfolding set_on load
    set disk file stage_id outs = set_on disk (load disk file) stage_id outs file

    -- OutputsFile.Snapshot
    unfoldable pub snapshot : Disk → Option Bytes → Option (StepOutputs F)
    unfolding load
    snapshot disk file = load disk file

    -- The second result of Snapshot is dropped, and the nil map reads as the empty one.
    abbrev pub read_outputs : Option (StepOutputs F) → StepOutputs F
    read_outputs none = []
    read_outputs (some m) = m

    -- The context in which ExecuteStage renders a stage.
    unfoldable pub base_context : Disk → Option Bytes → RunInfo → Option Spec → Context F
    unfolding snapshot build_expr_context
    base_context disk file run p = build_expr_context run p (read_outputs (snapshot disk file))

    -- ExecuteStage after LoadRun and the expansion, for a stage that is not an approval, up to what it
    -- gives to Set. What the steps of the rendered stage do is an argument: their outputs, or an error.
    pub data Executed : Type 0 where
      render_failed : RenderError F → Executed
      step_failed : Executed
      resolved : Resolved F → Executed
      crashed : Executed

    pub texts_or_none : Option Texts → Texts
    texts_or_none none = []
    texts_or_none (some m) = m

    pub after_steps : Bytes → Context F → Option Texts → Option (StepOutputs F) → Executed
    unfolding texts_or_none
    after_steps id ctx outs none = step_failed
    after_steps id ctx outs (some step_outputs) = resolved (
        resolve_stage_outputs go (some (record { id = id; outputs = texts_or_none outs }))
          step_outputs (some ctx))

    pub after_render :
        Bytes → Context F → (Stage F → Option (StepOutputs F)) → Rendering F (Stage F) → Executed
    unfolding after_steps
    after_render id ctx steps (ok s []) = after_steps id ctx s.outputs (steps s)
    after_render id ctx steps (ok s (e ∷ errs)) = render_failed e
    after_render id ctx steps panicked = crashed

    unfoldable pub execute_stage :
        Disk
        → Option Bytes
        → RunInfo
        → Option Spec
        → Bytes
        → Stage F
        → (Stage F → Option (StepOutputs F))
        → Executed
    unfolding base_context after_render
    execute_stage disk file run p id stage steps =
        let ctx = base_context disk file run p in
        after_render id ctx steps (render_stage go (some ctx) (codes "stages." ++ id) stage)
