-- ===== src/Runstate/Machine/Histories.antt =====
-- Any sequence of Transitions, of any runs, by any callers: what holds of a run and of its audit
-- rows (api/pkg/runstate/runstate.go).
use Prim.Native.String.{◌++◌ as ◌<>◌}
use mathlib.Core.List.{append-nil, append_assoc}
use mathlib.Core.Path.{subst}
use helios_ci_cd.Prelude.{
  ℕ, String, ◌≡◌, ◌≢◌, refl, sym, ap, ◌∙◌, inl, inr, true, some, List, All, ◌∷◌, [], ◌++◌, arith,
  ◌==◌, Bool-cases,
}
use helios_ci_cd.Runstate.{is_terminal}
use helios_ci_cd.Runstate.Edges.{◌⟶◌, ◌⟶*◌, here, next, ⟶*_trans, edge_from_live}
use helios_ci_cd.Runstate.Machine.{
  Run, Db, AuditLog, TransitionOpts, Calls, moved_run, audit_row, transition,
}
use helios_ci_cd.Runstate.Machine.Outcomes.{refused, kept, moved, transition-Outcome, moved_db}

-- One call of Transition, by anybody.
pub record Request : Type 0 where
  pub calls : Calls
  pub run_id : ℕ
  pub to : String
  pub opts : TransitionOpts

abbrev pub after : Db → Request → Db
after db r = (transition r.calls db r.run_id r.to r.opts).1

unfoldable pub serve : Db → List Request → Db
serve db [] = db
serve db (r ∷ rs) = serve (after db r) rs

-- The statuses that the audit rows of one run tell, from the first to the last: each row of the run
-- is an arrow, and names its end. Rows of other runs are passed over.
pub data Walk (id : ℕ) : String → List AuditLog → String → Type 0 where
  end : {s : String} → Walk id s [] s
  other :
      {s t : String} {row : AuditLog} {rows : List AuditLog}
      → row.resource_id ≢ id
      → Walk id s rows t
      → Walk id s (row ∷ rows) t
  arrow :
      {s t u : String} {row : AuditLog} {rows : List AuditLog}
      → s ⟶ u
      → row.resource_id ≡ id
      → row.action ≡ "run." <> u
      → Walk id u rows t
      → Walk id s (row ∷ rows) t

module _ {id : ℕ} where
  Walk-append :
      {s t u : String} {xs ys : List AuditLog}
      → Walk id s xs t
      → Walk id t ys u
      → Walk id s (xs ++ ys) u
  Walk-append end w = w
  Walk-append (other n v) w = other n (Walk-append v w)
  Walk-append (arrow e i a v) w = arrow e i a (Walk-append v w)

  -- The rows of a walk lead along arrows.
  pub ⟶*_of_Walk : {s t : String} {rows : List AuditLog} → Walk id s rows t → s ⟶* t
  ⟶*_of_Walk end = here
  ⟶*_of_Walk (other n v) = ⟶*_of_Walk v
  ⟶*_of_Walk (arrow e i a v) = ⟶*_trans (next here e) (⟶*_of_Walk v)

-- From `db` to `db'` the run `id` went, with new audit rows that tell how.
pub record Told (id : ℕ) (db : Db) (status : String) (db' : Db) : Type 0 where
  pub run : Run
  pub found : db'.runs id ≡ some run
  pub rows : List AuditLog
  pub written : db'.audit_logs ≡ db.audit_logs ++ rows
  pub walk : Walk id status rows run.status

module _ (id : ℕ) (db : Db) (run : Run) (found : db.runs id ≡ some run) where
  Told-refl : Told id db run.status db
  Told-refl = record {
    run = run;
    found = found;
    rows = [];
    written = sym (append-nil db.audit_logs);
    walk = end;
  }

  Told-moved :
      (r : Request) (q : Run)
      → db.runs r.run_id ≡ some q
      → q.status ⟶ r.to
      → Told id db run.status (moved_db r.calls db r.run_id r.to r.opts q)
  unfolding moved_run audit_row
  Told-moved r q f edge = elim (Bool-cases (id == r.run_id)) [
    | inl mine ↦ record {
      run = moved_run r.to r.calls.now r.opts q;
      found = rw mine;
      rows = audit_row r.run_id q.status r.to r.calls.now r.opts ∷ [];
      written = refl;
      walk = arrow (subst (λ s. s ⟶ r.to) (same_status mine) edge) (ground arith) refl end;
    }
    | inr theirs ↦ record {
      run = run;
      found = rw theirs found;
      rows = audit_row r.run_id q.status r.to r.calls.now r.opts ∷ [];
      written = refl;
      walk = other (ground arith) end;
    }
  ]
    where
      same_status : (id == r.run_id) ≡ true → q.status ≡ run.status
      same_status mine = ground (arith, f, found)

  Told-after : (r : Request) → Told id db run.status (after db r)
  Told-after r = elim (transition-Outcome r.calls db r.run_id r.to r.opts) [
    | refused e out ↦ subst (λ o. Told id db run.status o.1) (sym out) Told-refl
    | kept q f s out ↦ subst (λ o. Told id db run.status o.1) (sym out) Told-refl
    | moved q f edge out ↦ subst (λ o. Told id db run.status o.1) (sym out) (Told-moved r q f edge)
  ]

Told-trans :
    (id : ℕ) (db mid db' : Db) (s : String) (first : Told id db s mid)
    → Told id mid first.run.status db'
    → Told id db s db'
Told-trans id db mid db' s first second = record {
  run = second.run;
  found = second.found;
  rows = first.rows ++ second.rows;
  written =
      second.written
      ∙ ap (λ l. l ++ second.rows) first.written
      ∙ append_assoc db.audit_logs first.rows second.rows;
  walk = Walk-append first.walk second.walk;
}

-- Whatever Transitions are made, of whatever runs, with whatever database failures: the run is
-- still there, and the audit rows added for it tell a walk along arrows of the diagram from the
-- status that it had to the status that it has.
pub serve-Told :
    (id : ℕ) (db : Db) (run : Run) (requests : List Request)
    → db.runs id ≡ some run
    → Told id db run.status (serve db requests)
unfolding serve
serve-Told id db run [] found = Told-refl id db run found
serve-Told id db run (r ∷ rs) found =
    let first = Told-after id db run found r in
    Told-trans id db (after db r) _ run.status first
      (serve-Told id (after db r) first.run rs first.found)

-- A walk from a terminal status has no row of the run.
ended-Walk :
    {id : ℕ} {s t : String} {rows : List AuditLog}
    → is_terminal s ≡ true
    → Walk id s rows t
    → All (λ row. row.resource_id ≢ id) rows × (t ≡ s)
ended-Walk h end = (tt, refl)
ended-Walk h (other n v) = let rest = ended-Walk h v in ((n, rest.0), rest.1)
ended-Walk h (arrow e i a v) = cc (edge_from_live e)

ended_after :
    (id : ℕ) (db : Db) (run : Run) (r : Request)
    → db.runs id ≡ some run
    → is_terminal run.status ≡ true
    → (after db r).runs id ≡ some run
ended_after id db run r found h = elim (transition-Outcome r.calls db r.run_id r.to r.opts) [
  | refused e out ↦ subst (λ o. o.1.runs id ≡ some run) (sym out) found
  | kept q f s out ↦ subst (λ o. o.1.runs id ≡ some run) (sym out) found
  | moved q f edge out ↦
      subst (λ o. o.1.runs id ≡ some run) (sym out)
        (ground (arith, f, found, h, edge_from_live edge))
]

ended_row :
    (id : ℕ) (db : Db) (run : Run) (requests : List Request)
    → db.runs id ≡ some run
    → is_terminal run.status ≡ true
    → (serve db requests).runs id ≡ some run
unfolding serve
ended_row id db run [] found h = found
ended_row id db run (r ∷ rs) found h =
    ended_row id (after db r) run rs (ended_after id db run r found h) h

-- A run in a terminal status never changes again, in any column, and no audit row is written for
-- it any more: the rows that are added are of other runs.
pub serve_ended :
    (id : ℕ) (db : Db) (run : Run) (requests : List Request)
    → db.runs id ≡ some run
    → is_terminal run.status ≡ true
    → ((serve db requests).runs id ≡ some run)
      × ((rows : List AuditLog) × ((serve db requests).audit_logs ≡ db.audit_logs ++ rows)
          × All (λ row. row.resource_id ≢ id) rows)
serve_ended id db run requests found h =
    let told = serve-Told id db run requests found in
    (ended_row id db run requests found h, (told.rows, told.written, (ended-Walk h told.walk).0))
