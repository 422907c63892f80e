-- ===== src/Engine/Scheduler/Examples.antt =====
-- A pipeline of three stages: `build`, then `gate`, an approval, then `deploy`.
use helios_ci_cd.Prelude.{
  ℕ, String, ◌≡◌, ◌≢◌, refl, inl, inr, true, false, none, some, ◌∷◌, [], arith, str_eq, eq_iff,
  member, lookup, insert, remove, has_key, Dict, Bool-cases, if◌then◌else◌,
}
use helios_ci_cd.Dsl.{Stage}
use helios_ci_cd.Engine.Dag.{Dag, Node}
use helios_ci_cd.Engine.Scheduler.{
  pending, running, waiting_approval, success, failed, skipped, Scheduler, new_scheduler, status_of,
  contains, next_ready,
}
use helios_ci_cd.Engine.Scheduler.Reports.{complete, done, outcome, restore_from_db}
use helios_ci_cd.Engine.Scheduler.Settled.{Settled}
use helios_ci_cd.Engine.Scheduler.Advance.{Advance}
use helios_ci_cd.Engine.Scheduler.Drives.{
  Drives, here, next, pick, report, Drives-Advance, started-Settled, handed_out_once,
}
use helios_ci_cd.Engine.Scheduler.Progress.{IsRanked, IsIdle, next_ready_progress}
use helios_ci_cd.Engine.Scheduler.Summary.{Restored, status-restore_from_db}

abbrev plain : Stage
plain = record {
  id = "build";
  name = "";
  needs = [];
  type = "";
  if_expr = "";
  runs_on = none;
  matrix = none;
  steps = [];
  uses = "helios/build@v1";
  with = [];
  env = [];
  secrets = [];
  outputs = [];
  services = [];
  approvers = [];
  mode = "";
  timeout = "";
  on_timeout = "";
}

abbrev build_node : Node
build_node = record { id = "build"; stage = plain; in_edges = []; out_edges = "gate" ∷ [] }

abbrev gate_node : Node
gate_node = record {
  id = "gate";
  stage = record plain { id = "gate"; type = "approval"; needs = "build" ∷ [] };
  in_edges = "build" ∷ [];
  out_edges = "deploy" ∷ [];
}

abbrev deploy_node : Node
deploy_node = record {
  id = "deploy";
  stage = record plain { id = "deploy"; needs = "gate" ∷ [] };
  in_edges = "gate" ∷ [];
  out_edges = [];
}

abbrev dag : Dag
dag = record {
  nodes = ("build", build_node) ∷ ("gate", gate_node) ∷ ("deploy", deploy_node) ∷ [];
  order = "build" ∷ "gate" ∷ "deploy" ∷ [];
  dangling = [];
}

abbrev start : Scheduler
start = new_scheduler dag

abbrev first : Scheduler
first = (next_ready start).0

abbrev built : Scheduler
built = (complete first "build" success).1

abbrev gated : Scheduler
gated = (next_ready built).0

abbrev rejected : Scheduler
rejected = (next_ready (complete gated "gate" failed).1).0

-- The stages go out one by one; a rejected approval skips what depends on it.
drive_result :
    ((next_ready start).1 ≡ "build" ∷ [])
    × ((next_ready built).1 ≡ "gate" ∷ [])
    × (status_of gated "gate" ≡ waiting_approval)
    × (status_of rejected "deploy" ≡ skipped)
    × (done rejected ≡ true)
    × (outcome rejected ≡ failed)
unfolding next_ready new_scheduler status_of complete done outcome lookup insert remove contains
drive_result = (refl, refl, refl, refl, refl, refl)

first_build : status_of first "build" ≡ running
unfolding next_ready new_scheduler status_of complete lookup insert remove contains
first_build = refl

gated_gate : status_of gated "gate" ≡ waiting_approval
unfolding next_ready new_scheduler status_of complete lookup insert remove contains
gated_gate = refl

to_first : Drives start first
to_first = next here pick

to_gated : Drives first gated
to_gated = next (next here (report "build" success (rw first_build refl))) pick

Drives-Advance_example : Advance first gated
Drives-Advance_example = Drives-Advance to_gated

from_start : Drives start gated
from_start = next (next to_first (report "build" success (rw first_build refl))) pick

started-Settled_example : Settled gated gate_node
unfolding lookup
started-Settled_example =
    started-Settled dag gated "gate" gate_node from_start refl (rw gated_gate refl)

build_picked : member "build" (next_ready start).1 ≡ true
unfolding next_ready new_scheduler status_of lookup insert contains
build_picked = refl

handed_out_once_example : member "build" (next_ready gated).1 ≡ false
handed_out_once_example = handed_out_once start gated "build" build_picked to_gated

abbrev rank : String → ℕ
rank id = if str_eq "gate" id then 1 else 0

abbrev two_stages : Dag
two_stages = record {
  nodes = ("build", build_node) ∷ ("gate", gate_node) ∷ [];
  order = "build" ∷ "gate" ∷ [];
  dangling = [];
}

abbrev two : Scheduler
two = new_scheduler two_stages

two-IsRanked : IsRanked two_stages rank
unfolding lookup
two-IsRanked = record {
  known = known;
  closed = λ id d n f m.
      ground (arith, eq_iff "build" id, eq_iff "gate" id, eq_iff "build" d, eq_iff "gate" d);
  below = λ id d n f m.
      ground (arith, eq_iff "build" id, eq_iff "gate" id, eq_iff "build" d, eq_iff "gate" d);
}
  where
    known :
        (id : String)
        → member id two_stages.order ≡ true
        → (n : Node) × (lookup id two_stages.nodes ≡ some n)
    known id m = elim (Bool-cases (str_eq "build" id)) [
      | inl e ↦ (build_node, rw e refl)
      | inr e ↦ (gate_node, ground arith)
    ]

two-IsIdle : IsIdle two
unfolding new_scheduler status_of lookup
two-IsIdle = record { waiting = λ id m. ground arith; free = λ id p. refl }

next_ready_progress_example :
    (j : String) × (status_of two j ≡ pending) × (status_of (next_ready two).0 j ≢ pending)
unfolding new_scheduler status_of lookup
next_ready_progress_example = next_ready_progress two rank "gate" two-IsRanked two-IsIdle refl refl

abbrev stored : Dict String
stored = ("build", "success") ∷ ("gate", "approval") ∷ []

status-restore_from_db_example :
    Restored
      (lookup "gate" stored)
      (status_of start "gate")
      (status_of (restore_from_db start stored) "gate")
unfolding has_key new_scheduler
status-restore_from_db_example = status-restore_from_db start stored "gate" refl
