-- ===== src/Runstate/Examples.antt =====
-- A run that starts, waits for an approval, goes on and succeeds; and one that is canceled.
use mathlib.Core.Path.{subst}
use helios_ci_cd.Prelude.{
  some_inj, ne_of_str_eq, Bool-cases, inr, inl, ℕ, ◌≡◌, ◌≢◌, refl, true, none, some, ◌∷◌, [], List,
  ◌++◌, ◌==◌, All, ◌↔◌, ◌⊎◌, if◌then◌else◌,
}
use helios_ci_cd.Runstate.{
  pending, running, approval, success, canceled, is_terminal, is_valid_status, can_transition,
}
use helios_ci_cd.Runstate.Edges.{◌⟶◌, start, can_transition_iff}
use helios_ci_cd.Runstate.Machine.{
  Run, Db, AuditLog, TransitionOpts, Calls, moved_run, write, transition,
}
use helios_ci_cd.Runstate.Machine.Outcomes.{Outcome, transition-Outcome, moved_result, moved_db}
use helios_ci_cd.Runstate.Machine.Histories.{Request, serve, Told, serve-Told, serve_ended}
use helios_ci_cd.Runstate.Machine.Times.{IsStamped, serve-IsStamped, transition_edge}

abbrev opts : TransitionOpts
opts = record { reason = "ok"; actor_id = some 7; org_id = none; project_id = some 3; extra = [] }

abbrev at : ℕ → Calls
at now = record {
  now = now;
  begin_ok = true;
  select_ok = true;
  update_ok = true;
  insert_ok = true;
  commit_ok = true;
}

abbrev fresh : Run
fresh = record {
  status = pending;
  started_at = none;
  finished_at = none;
  message = none;
  duration_ms = none;
}

abbrev stopped : Run
stopped = record fresh { status = canceled; finished_at = some 5 }

abbrev two_runs : Db
two_runs = record {
  runs = λ k. if k == 1 then some fresh else if k == 2 then some stopped else none;
  audit_logs = [];
}

abbrev script : List Request
script =
    record { calls = at 1000000; run_id = 1; to = running; opts = opts }
    ∷ record { calls = at 2000000; run_id = 1; to = approval; opts = opts }
    ∷ record { calls = at 3000000; run_id = 2; to = running; opts = opts }
    ∷ record { calls = at 4000000; run_id = 1; to = running; opts = opts }
    ∷ record { calls = at 9000000; run_id = 1; to = success; opts = opts }
    ∷ []

-- The script moves the first run to success, stamps it, and writes one audit row for each move.
script_result :
    ((serve two_runs script).runs 1
      ≡ some (record {
        status = success;
        started_at = some 1000000;
        finished_at = some 9000000;
        message = some "\n[running] ok\n[approval] ok\n[running] ok\n[success] ok";
        duration_ms = some 8;
      }))
    × ((serve two_runs script).runs 2 ≡ some stopped)
unfolding serve transition write moved_run is_valid_status can_transition
script_result = (refl, refl)

can_transition_iff_example : (can_transition running success ≡ true) ↔ (running ⟶ success)
can_transition_iff_example = can_transition_iff running success

transition-Outcome_example :
    Outcome (at 1) two_runs 1 running opts (transition (at 1) two_runs 1 running opts)
transition-Outcome_example = transition-Outcome (at 1) two_runs 1 running opts

serve-Told_example : Told 1 two_runs pending (serve two_runs script)
serve-Told_example = serve-Told 1 two_runs fresh script refl

serve_ended_example :
    ((serve two_runs script).runs 2 ≡ some stopped)
    × ((rows : List AuditLog) × ((serve two_runs script).audit_logs ≡ [] ++ rows)
        × All (λ row. row.resource_id ≢ 2) rows)
unfolding is_terminal
serve_ended_example = serve_ended 2 two_runs stopped script refl refl

fresh_not_ran : ¬ ((pending ≡ running) ⊎ (pending ≡ approval) ⊎ (pending ≡ success))
fresh_not_ran (inl e) = ne_of_str_eq _ _ refl e
fresh_not_ran (inr (inl e)) = ne_of_str_eq _ _ refl e
fresh_not_ran (inr (inr e)) = ne_of_str_eq _ _ refl e

fresh-IsStamped : IsStamped fresh
unfolding is_terminal
fresh-IsStamped = record {
  ended = λ t e. cc t;
  live = λ t. refl;
  ran = λ t. absurd (fresh_not_ran t);
}

stopped_not_ran : ¬ ((canceled ≡ running) ⊎ (canceled ≡ approval) ⊎ (canceled ≡ success))
stopped_not_ran (inl e) = ne_of_str_eq _ _ refl e
stopped_not_ran (inr (inl e)) = ne_of_str_eq _ _ refl e
stopped_not_ran (inr (inr e)) = ne_of_str_eq _ _ refl e

stopped-IsStamped : IsStamped stopped
unfolding is_terminal
stopped-IsStamped = record {
  ended = λ t e. cc e;
  live = λ t. cc t;
  ran = λ t. absurd (stopped_not_ran t);
}

all-IsStamped : (id : ℕ) (run : Run) → two_runs.runs id ≡ some run → IsStamped run
all-IsStamped id run h = elim (Bool-cases (id == 1)) [
  | inl e ↦ subst IsStamped (some_inj (rw e at h)) fresh-IsStamped
  | inr e ↦ elim (Bool-cases (id == 2)) [
    | inl f ↦ subst IsStamped (some_inj (rw (e, f) at h)) stopped-IsStamped
    | inr f ↦ cc (rw (e, f) at h)
  ]
]

abbrev done : Run
done = record {
  status = success;
  started_at = some 1000000;
  finished_at = some 9000000;
  message = some "\n[running] ok\n[approval] ok\n[running] ok\n[success] ok";
  duration_ms = some 8;
}

serve-IsStamped_example : IsStamped done
serve-IsStamped_example = serve-IsStamped two_runs script all-IsStamped 1 done script_result.0

transition_edge_example : transition (at 1) two_runs 1 running opts ≡ (
  moved_result (at 1) two_runs 1 running opts fresh,
  moved_db (at 1) two_runs 1 running opts fresh,
)
transition_edge_example =
    transition_edge (at 1) two_runs 1 running opts fresh refl start
      (record { begins = refl; selects = refl; updates = refl; inserts = refl; commits = refl })
