-- ===== src/Runstate/Machine/Times.antt =====
-- The times and the answers of a Transition (api/pkg/runstate/runstate.go).
use mathlib.Core.Path.{subst}
use helios_ci_cd.Prelude.{
  some_inj, ℕ, String, ◌≡◌, ◌≢◌, refl, sym, ap, ◌∙◌, str_eq, ◌⊎◌, inl, inr, true, false, Option,
  none, some, List, ◌∷◌, [], arith, ◌==◌, Bool-cases, ne_of_str_eq, eq_iff,
}
use helios_ci_cd.Runstate.{running, approval, success, is_terminal, is_valid_status, can_transition}
use helios_ci_cd.Runstate.Edges.{
  ◌⟶◌, start, drop, wait, succeed, can_transition_iff, edge_from_live,
}
use helios_ci_cd.Runstate.Machine.{
  Run, Db, TransitionOpts, Calls, Moved, Result, ok, moved_run, stamp_finished, stamp_started,
  decide, transition, unchanged,
}
use helios_ci_cd.Runstate.Machine.Outcomes.{
  Outcome, refused, kept, moved, transition-Outcome, moved_db, moved_result, write_lem,
}
use helios_ci_cd.Runstate.Machine.Histories.{Request, after, serve}

-- The stored times fit the status: finished_at is set exactly in the terminal statuses, and a run
-- that runs, waits for an approval or succeeded has started.
pub record IsStamped (run : Run) : Type 0 where
  pub ended : is_terminal run.status ≡ true → run.finished_at ≢ none
  pub live : is_terminal run.status ≡ false → run.finished_at ≡ none
  pub ran :
      (run.status ≡ running) ⊎ (run.status ≡ approval) ⊎ (run.status ≡ success)
      → run.started_at ≢ none

from_running : {s t : String} → s ⟶ t → (t ≡ approval) ⊎ (t ≡ success) → s ≡ running
from_running wait e = refl
from_running succeed e = refl
from_running _ (inl e) = absurd (ne_of_str_eq _ _ refl e)
from_running _ (inr e) = absurd (ne_of_str_eq _ _ refl e)

stamp_finished-ne-none :
    (to : String) (now : ℕ) (old : Option ℕ)
    → is_terminal to ≡ true
    → stamp_finished to now old ≢ none
unfolding stamp_finished
stamp_finished-ne-none to now old h e = ground arith

stamp_finished-none :
    (to : String) (now : ℕ) {old : Option ℕ}
    → is_terminal to ≡ false
    → old ≡ none
    → stamp_finished to now old ≡ none
unfolding stamp_finished
stamp_finished-none to now h e = ground arith

stamp_started-ne-none :
    (to : String) (now : ℕ) (old : Option ℕ)
    → (to ≡ running) ⊎ (old ≢ none)
    → stamp_started to now old ≢ none
unfolding stamp_started
stamp_started-ne-none to now none (inl h) e = ground (arith, eq_iff to running)
stamp_started-ne-none to now none (inr h) e = h refl
stamp_started-ne-none to now (some t) h e = cc

-- No database call fails.
pub record AllOk (c : Calls) : Type 0 where
  pub begins : c.begin_ok ≡ true
  pub selects : c.select_ok ≡ true
  pub updates : c.update_ok ≡ true
  pub inserts : c.insert_ok ≡ true
  pub commits : c.commit_ok ≡ true

moved_run-IsStamped :
    (to : String) (now : ℕ) (opts : TransitionOpts) (run : Run)
    → run.status ⟶ to
    → IsStamped run
    → IsStamped (moved_run to now opts run)
unfolding moved_run
moved_run-IsStamped to now opts run edge h = record {
  ended = stamp_finished-ne-none to now run.finished_at;
  live = λ l. stamp_finished-none to now l (h.live (edge_from_live edge));
  ran = λ r. stamp_started-ne-none to now run.started_at (started r);
}
  where
    started :
        (to ≡ running) ⊎ (to ≡ approval) ⊎ (to ≡ success) → (to ≡ running) ⊎ (run.started_at ≢ none)
    started (inl r) = inl r
    started (inr r) = inr (h.ran (inl (from_running edge r)))

abbrev AllStamped : Db → Type 0
AllStamped db = (id : ℕ) (run : Run) → db.runs id ≡ some run → IsStamped run

after-AllStamped : (db : Db) (r : Request) → AllStamped db → AllStamped (after db r)
after-AllStamped db r h = elim (transition-Outcome r.calls db r.run_id r.to r.opts) [
  | refused e out ↦ subst (λ o. AllStamped o.1) (sym out) h
  | kept q f s out ↦ subst (λ o. AllStamped o.1) (sym out) h
  | moved q f edge out ↦
      let stamped = moved_run-IsStamped r.to r.calls.now r.opts q edge (h r.run_id q f) in
      subst (λ o. AllStamped o.1) (sym out)
        (λ id run found. elim (Bool-cases (id == r.run_id)) [
          | inl mine ↦ subst IsStamped (some_inj (rw mine at found)) stamped
          | inr theirs ↦ h id run (rw theirs at found)
        ])
]

-- From a database whose runs carry fitting times, every sequence of Transitions leads to one:
-- finished_at is set exactly in the terminal statuses, and what runs, waits or succeeded has
-- started.
pub serve-IsStamped :
    (db : Db) (requests : List Request)
    → ((id : ℕ) (run : Run) → db.runs id ≡ some run → IsStamped run)
    → (id : ℕ) (run : Run) → (serve db requests).runs id ≡ some run
    → IsStamped run
unfolding serve
serve-IsStamped db [] h = h
serve-IsStamped db (r ∷ rs) h = serve-IsStamped (after db r) rs (after-AllStamped db r h)

abbrev Answered : ℕ → String → Moved → Result Moved × Db → Type 0
Answered id to m out =
    (m.status ≡ to)
    × ((run : Run) × (out.1.runs id ≡ some run)
        × (run.status ≡ to)
        × (m.started ≡ run.started_at)
        × (m.finished ≡ run.finished_at))

answer :
    (c : Calls) (db : Db) (id : ℕ) (to : String) (opts : TransitionOpts) (m : Moved)
    (out : Result Moved × Db)
    → Outcome c db id to opts out
    → out.0 ≡ ok m
    → Answered id to m out
unfolding moved_run
answer c db id to opts m out (refused e o) h = cc
answer c db id to opts m out (kept run f s o) h =
    let same : ok m ≡ unchanged run = sym h ∙ ap (λ p. p.0) o in
    (ground (arith, same, s), (run, rw o f, s, ground (arith, same), ground (arith, same)))
answer c db id to opts m out (moved run f edge o) h =
    let same : ok m ≡ moved_result c db id to opts run = sym h ∙ ap (λ p. p.0) o in
    (
      ground (arith, same),
      (
        moved_run to c.now opts run,
        rw o (ground arith),
        refl,
        ground (arith, same),
        ground (arith, same),
      ),
    )

-- A Transition that returns no error leaves the run in the wanted status, and says so.
pub transition_ok :
    (c : Calls) (db : Db) (id : ℕ) (to : String) (opts : TransitionOpts) (m : Moved)
    → (transition c db id to opts).0 ≡ ok m
    → (m.status ≡ to)
      × ((run : Run) × ((transition c db id to opts).1.runs id ≡ some run)
          × (run.status ≡ to)
          × (m.started ≡ run.started_at)
          × (m.finished ≡ run.finished_at))
transition_ok c db id to opts m h =
    answer c db id to opts m _ (transition-Outcome c db id to opts) h

valid_of_edge : {s t : String} → s ⟶ t → is_valid_status t ≡ true
unfolding is_valid_status
valid_of_edge start = refl
valid_of_edge drop = refl
valid_of_edge _ = refl

ne_of_edge : {s t : String} → s ⟶ t → str_eq s t ≡ false
ne_of_edge start = refl
ne_of_edge drop = refl
ne_of_edge _ = refl

-- When no database call fails, a Transition moves a run along every arrow of the diagram: the
-- answer is no error, and the row and the audit row are written.
pub transition_edge :
    (c : Calls) (db : Db) (id : ℕ) (to : String) (opts : TransitionOpts) (run : Run)
    → db.runs id ≡ some run
    → run.status ⟶ to
    → AllOk c
    → transition c db id to opts ≡ (moved_result c db id to opts run, moved_db c db id to opts run)
unfolding transition decide
transition_edge c db id to opts run found edge calls =
    simp
      (
        valid_of_edge edge,
        calls.begins,
        calls.selects,
        found,
        edge_from_live edge,
        ne_of_edge edge,
        can,
      )
      (simp (write_lem c db id to opts run found, calls.updates, calls.inserts, calls.commits) refl)
  where
    can : can_transition run.status to ≡ true
    can = (can_transition_iff run.status to).1 edge
