-- ===== src/Engine/Scheduler.antt =====
-- api/pkg/engine/scheduler.go: the state machine that hands out the stages of a graph.
pub mod Reports
pub mod Settled
pub mod Advance
mod Rounds
pub mod Drives
pub mod Progress
pub mod Summary
mod Examples
use text.Mathlib.Text.{find?}
use helios_ci_cd.Prelude.{
  String, Bool, true, false, not, ◌&&◌, ◌||◌, Option, none, some, List, [], ◌∷◌, ◌++◌, str_eq,
  if◌then◌else◌, Dict, lookup, insert,
}
use helios_ci_cd.Engine.Dag.{Dag, Node}

-- `unset` is Go's zero value "", which a map read gives for a node that it does not know.
pub data NodeStatus : Type 0 where
  unset pending ready running waiting_approval success failed skipped canceled : NodeStatus

abbrev pub is_terminal : NodeStatus → Bool
is_terminal success = true
is_terminal failed = true
is_terminal skipped = true
is_terminal canceled = true
is_terminal _ = false

abbrev is_pending : NodeStatus → Bool
is_pending pending = true
is_pending _ = false

pub record Scheduler : Type 0 where
  pub dag : Dag
  pub status : Dict NodeStatus
  pub dispatched : Dict Bool

all_pending : Dict Node → Dict NodeStatus
all_pending [] = []
all_pending ((id, n) ∷ nodes) = (id, pending) ∷ all_pending nodes

-- NewScheduler
unfoldable pub new_scheduler : Dag → Scheduler
unfolding all_pending
new_scheduler dag = record { dag = dag; status = all_pending dag.nodes; dispatched = [] }

abbrev or_unset : Option NodeStatus → NodeStatus
or_unset none = unset
or_unset (some st) = st

abbrev or_false : Option Bool → Bool
or_false none = false
or_false (some b) = b

-- Status: s.status[id]
unfoldable pub status_of : Scheduler → String → NodeStatus
status_of s id = or_unset (lookup id s.status)

-- s.dispatched[id]
abbrev is_dispatched : Scheduler → String → Bool
is_dispatched s id = or_false (lookup id s.dispatched)

-- strings.Contains
unfoldable pub contains : String → String → Bool
contains s sub = elim (find? s sub) [ none ↦ false | some i ↦ true ]

-- What the loop over the upstream nodes collects.
pub record Upstream : Type 0 where
  pub has_failed : Bool
  pub has_skipped : Bool
  pub has_canceled : Bool
  pub all_done : Bool

abbrev none_seen : Upstream
none_seen = record {
  has_failed = false;
  has_skipped = false;
  has_canceled = false;
  all_done = true;
}

see : NodeStatus → Upstream → Upstream
see success u = u
see failed u = record u { has_failed = true }
see skipped u = record u { has_skipped = true }
see canceled u = record u { has_canceled = true }
see _ u = record u { all_done = false }

pub survey : Scheduler → List String → Upstream → Upstream
unfolding see
survey s [] u = u
survey s (dep ∷ deps) u = survey s deps (see (status_of s dep) u)

-- The tests that follow the loop.
pub judge : String → Upstream → NodeStatus
judge cond u =
    let always = not (str_eq cond "") && contains cond "always()" in
    let failure_only = not (str_eq cond "") && contains cond "failure()" in
    if not u.all_done
    then pending
    else if u.has_canceled && not always
    then skipped
    else if u.has_failed
    then (if always || failure_only then ready else skipped)
    else if u.has_skipped && not always
    then skipped
    else if failure_only && not u.has_failed
    then skipped
    else ready

-- The two parts of computeReadyOrSkip: without upstream nodes, and with.
pub compute : Scheduler → String → List String → NodeStatus
compute s cond [] = if contains cond "failure()" then skipped else ready
compute s cond (dep ∷ deps) = judge cond (survey s (dep ∷ deps) none_seen)

-- computeReadyOrSkip
pub compute_ready_or_skip : Scheduler → String → NodeStatus
compute_ready_or_skip s id = elim (lookup id s.dag.nodes) [
  | none ↦ pending
  | some n ↦ compute s n.stage.if_expr n.in_edges
]

pub is_approval : Option Node → Bool
is_approval none = false
is_approval (some n) = str_eq n.stage.type "approval"

pub set_status : Scheduler → String → NodeStatus → Scheduler
set_status s id st = record s { status = insert id st s.status }

-- The node is handed out.
pub dispatch : Scheduler → String → Scheduler
unfolding is_approval
dispatch s id = record s {
  status =
      insert id (if is_approval (lookup id s.dag.nodes) then waiting_approval else running)
        s.status;
  dispatched = insert id true s.dispatched;
}

-- One round of the loop of NextReady, with the nodes handed out so far.
pub settle : NodeStatus → Scheduler → String → List String → Scheduler × List String
settle ready s id picked = (dispatch s id, picked ++ id ∷ [])
settle skipped s id picked = (set_status s id skipped, picked)
settle _ s id picked = (s, picked)

pub visit : Scheduler → String → List String → Scheduler × List String
visit s id picked =
    if not (is_pending (status_of s id))
    then (s, picked)
    else if is_dispatched s id
    then (s, picked)
    else settle (compute_ready_or_skip s id) s id picked

pub next_ready_from : Scheduler → List String → List String → Scheduler × List String
next_ready_from s picked [] = (s, picked)
next_ready_from s picked (id ∷ order) =
    let (s', picked') = visit s id picked in next_ready_from s' picked' order

-- NextReady
unfoldable pub next_ready : Scheduler → Scheduler × List String
unfolding next_ready_from visit settle dispatch set_status compute_ready_or_skip compute judge
    survey
next_ready s = next_ready_from s [] s.dag.order
