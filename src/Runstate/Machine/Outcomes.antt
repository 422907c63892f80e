-- ===== src/Runstate/Machine/Outcomes.antt =====
-- What one Transition of api/pkg/runstate/runstate.go can do to the database.
use helios_ci_cd.Prelude.{
  ℕ, String, ◌≡◌, refl, inl, inr, Bool, true, false, not, Option, none, some, ◌∷◌, [], ◌++◌, arith,
  eq_iff, eq_refl, Bool-cases, str_eq-cases, if◌then◌else◌,
}
use helios_ci_cd.Runstate.{is_terminal, is_valid_status, can_transition}
use helios_ci_cd.Runstate.Edges.{◌⟶◌, can_transition_iff}
use helios_ci_cd.Runstate.Machine.{
  Run, Db, TransitionOpts, Calls, Error, terminal, not_found, illegal_transition, db_error,
  update_run, insert_audit, commit_tx, Moved, Result, ok, err, moved_run, audit_row, set_run, write,
  unchanged, decide, transition,
}

module _ (c : Calls) (db : Db) (id : ℕ) (to : String) (opts : TransitionOpts) where
  abbrev pub moved_result : Run → Result Moved
  moved_result run =
      let new = moved_run to c.now opts run in
      ok (record { status = to; started = new.started_at; finished = new.finished_at })

  abbrev pub moved_db : Run → Db
  moved_db run = record {
    runs = set_run db.runs id (moved_run to c.now opts run);
    audit_logs = db.audit_logs ++ audit_row id run.status to c.now opts ∷ [];
  }

  -- Refused with nothing written, found in the status already, or moved along an arrow of the
  -- diagram with one audit row.
  pub data Outcome (out : Result Moved × Db) : Type 0 where
    refused : (e : Error) → out ≡ (err e, db) → Outcome out
    kept :
        (run : Run)
        → db.runs id ≡ some run
        → run.status ≡ to
        → out ≡ (unchanged run, db)
        → Outcome out
    moved :
        (run : Run)
        → db.runs id ≡ some run
        → run.status ⟶ to
        → out ≡ (moved_result run, moved_db run)
        → Outcome out

  guard-Outcome :
      (b : Bool) (e : Error) (out : Result Moved × Db)
      → Outcome out
      → Outcome (if not b then (err e, db) else out)
  guard-Outcome true e out h = h
  guard-Outcome false e out h = refused e refl

  pub write_lem :
      (run : Run)
      → db.runs id ≡ some run
      → write c db id to opts run ≡ (
          if not c.update_ok
          then (err (db_error update_run), db)
          else if not c.insert_ok
          then (err (db_error insert_audit), db)
          else if not c.commit_ok
          then (err (db_error commit_tx), db)
          else (moved_result run, moved_db run))
  unfolding write
  write_lem run h = simp (h, eq_refl) (ground arith)

  write-Outcome :
      (run : Run) → db.runs id ≡ some run → run.status ⟶ to → Outcome (write c db id to opts run)
  write-Outcome run h edge = rw (write_lem run h) (
      guard-Outcome c.update_ok _ _
        (guard-Outcome c.insert_ok _ _ (guard-Outcome c.commit_ok _ _ (moved run h edge refl))))

  edge-Outcome :
      (run : Run)
      → db.runs id ≡ some run
      → Outcome (
          if not (can_transition run.status to)
          then (err (illegal_transition run.status to), db)
          else write c db id to opts run)
  edge-Outcome run h = elim (Bool-cases (can_transition run.status to)) [
    | inl can ↦ rw can (write-Outcome run h ((can_transition_iff run.status to).0 can))
    | inr cannot ↦ rw cannot (refused (illegal_transition run.status to) refl)
  ]

  decide-Outcome : (row : Option Run) → db.runs id ≡ row → Outcome (decide c db id to opts row)
  unfolding decide
  decide-Outcome none h = refused not_found refl
  decide-Outcome (some run) h = elim (Bool-cases (is_terminal run.status)) [
    | inl ended ↦ rw ended (elim (str_eq-cases run.status to) [
      | inl same ↦ rw ((eq_iff _ _).1 same) (kept run h same refl)
      | inr other ↦ rw other (refused (terminal run.status) refl)
    ])
    | inr live ↦ rw live (elim (str_eq-cases run.status to) [
      | inl same ↦ rw ((eq_iff _ _).1 same) (kept run h same refl)
      | inr other ↦ rw other (edge-Outcome run h)
    ])
  ]

  -- Every Transition is refused and writes nothing, or finds the run in the wanted status and writes
  -- nothing, or moves the run along an arrow of the diagram, adds one audit row and leaves every
  -- other run as it was.
  pub transition-Outcome : Outcome (transition c db id to opts)
  unfolding transition
  transition-Outcome = guard-Outcome (is_valid_status to) _ _ (
      guard-Outcome c.begin_ok _ _
        (guard-Outcome c.select_ok _ _ (decide-Outcome (db.runs id) refl)))
