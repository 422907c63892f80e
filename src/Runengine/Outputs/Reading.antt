-- ===== src/Runengine/Outputs/Reading.antt =====
-- What a later stage reads of the file of api/pkg/runengine/outputs_file.go through the context of
-- context.go.
use helios_ci_cd.Prelude.{
  ℕ, ◌≡◌, refl, ◌∙◌, ap, inl, inr, true, Option, some, List, [], ◌∷◌, Bool-cases, if◌then◌else◌,
}
use helios_ci_cd.Expr.{Bytes, codes, Go, Value, fields, Fields}
use helios_ci_cd.Expr.Texts.{bytes_eq}
use helios_ci_cd.Expr.Values.{find, find_field}
use helios_ci_cd.Expr.Eval.{Evaluated, eval_node}
use helios_ci_cd.Engine.Outputs.{put, StepOutputs, outputs_by_id}
use helios_ci_cd.Engine.Outputs.Needs.{
  bytes_eq_refl, find-put, outputs_of, outputs_of-put, reference, eval_node-reference,
}
use helios_ci_cd.Runengine.Outputs.{
  RunInfo, Spec, Disk, put_needs, put_spec, base_values, build_expr_context, as_fields, outputs_in,
  as_outputs, load, save, set, snapshot, base_context,
}

module _ {F : Type 0} where
  outputs_in-as_fields : (m : StepOutputs F) → outputs_in (as_fields m) ≡ some m
  unfolding outputs_in as_fields
  outputs_in-as_fields [] = refl
  outputs_in-as_fields (e ∷ m) = rw (outputs_in-as_fields m) refl

  -- A map with an entry is put into the context.
  needs_there :
      (e : Bytes × Fields F) (m : StepOutputs F) (values : List (Bytes × Value F))
      → find (codes "needs") (put_needs (e ∷ m) values) ≡ some (fields (outputs_by_id (e ∷ m)))
  unfolding put_needs
  needs_there e m values =
      find-put (codes "needs") (codes "needs") _ values ∙ rw (bytes_eq_refl (codes "needs")) refl

  find-put_needs :
      (k : Bytes) (outs : Fields F) (m : StepOutputs F) (values : List (Bytes × Value F))
      → find (codes "needs") (put_needs (put k outs m) values)
        ≡ some (fields (outputs_by_id (put k outs m)))
  unfolding put
  find-put_needs k outs [] values = needs_there (k, outs) [] values
  find-put_needs k outs (e ∷ m) values = elim (Bool-cases (bytes_eq e.0 k)) [
    | inl same ↦ rw same (needs_there (k, outs) m values)
    | inr other ↦ rw other (needs_there e (put k outs m) values)
  ]

  load-as_fields :
      (go : Go F) (disk : Disk) (m : StepOutputs F) (written : Bytes)
      → disk.read_ok ≡ true
      → go.unmarshal written ≡ some (fields (as_fields m))
      → load go disk (some written) ≡ some m
  unfolding load as_outputs
  load-as_fields go disk m written readable back = rw readable (rw back (outputs_in-as_fields m))

  -- What a stage has stored in the file is what a later stage of the run reads: Set succeeds and writes a
  -- file, and in the context that is built from that file needs.<id>.outputs.<key> is the value of that key in
  -- the outputs that were set, and for another stage in the outputs that the file had before, or nil if
  -- these do not have it. (The file could be read before, the map to save comes back from JSON as it was,
  -- and the calls of the system succeed.)
  pub eval_node-set :
      (go : Go F) (disk later : Disk) (file : Option Bytes) (m : StepOutputs F) (k : Bytes)
      (outs : Fields F) (written : Bytes) (run : RunInfo) (p : Option Spec) (sid key : Bytes)
      (a b c d : ℕ)
      → load go disk file ≡ some m
      → disk.mkdir_ok ≡ true
      → disk.write_ok ≡ true
      → later.read_ok ≡ true
      → go.marshal (fields (as_fields (put k outs m))) ≡ some written
      → go.unmarshal written ≡ some (fields (as_fields (put k outs m)))
      → (set go disk file k outs ≡ (true, some written))
        × (eval_node go
              (base_context go later (some written) run p)
              (reference (codes "needs") sid key a b c d)
            ≡ Evaluated.ok (find_field key (if bytes_eq k sid then outs else outputs_of m sid)))
  unfolding set save snapshot base_context build_expr_context
  eval_node-set go disk later file m k outs written run p sid key a b c d was made wrote readable
        out back =
      (
        rw (was, set) (rw (made, save) (rw out (rw wrote refl))),
        rw (load-as_fields go later (put k outs m) written readable back, base_context)
            (eval_node-reference go (build_expr_context run p (put k outs m)) (put k outs m)
                (codes "needs") sid key a b c d
                (find-put_needs k outs m (put_spec p (base_values run)))
              ∙ ap (λ o. Evaluated.ok (find_field key o)) (outputs_of-put m k sid outs)),
      )
