-- ===== src/Engine/Scheduler/Reports.antt =====
-- api/pkg/engine/scheduler.go: what is reported to the scheduler, what it reports, and the rebuild
-- from the stored statuses.
use helios_ci_cd.Prelude.{
  String, Bool, true, false, ◌&&◌, Option, none, some, [], ◌∷◌, ◌==◌, str_eq, any, all, length,
  if◌then◌else◌, Dict, lookup, insert, remove,
}
use helios_ci_cd.Engine.Scheduler.{
  NodeStatus, pending, running, waiting_approval, success, failed, skipped, canceled, is_terminal,
  Scheduler,
}

pub data CompleteError : Type 0 where
  unknown_node already_terminal invalid_result : CompleteError

-- The results that Complete takes.
abbrev pub is_result : NodeStatus → Bool
is_result success = true
is_result failed = true
is_result canceled = true
is_result _ = false

unfoldable pub finish : Scheduler → String → NodeStatus → Scheduler
finish s id st = record s { status = insert id st s.status; dispatched = remove id s.dispatched }

unfoldable pub complete_from :
    Option NodeStatus → Scheduler → String → NodeStatus → Option CompleteError × Scheduler
unfolding finish
complete_from none s id result = (some unknown_node, s)
complete_from (some cur) s id result =
    if is_terminal cur
    then (some already_terminal, s)
    else if is_result result
    then (none, finish s id result)
    else (some invalid_result, s)

-- Complete
unfoldable pub complete : Scheduler → String → NodeStatus → Option CompleteError × Scheduler
unfolding complete_from
complete s id result = complete_from (lookup id s.status) s id result

unfoldable pub cancel_statuses : Dict NodeStatus → Dict NodeStatus
cancel_statuses [] = []
cancel_statuses ((id, st) ∷ m) = (id, if is_terminal st then st else canceled) ∷ cancel_statuses m

cancel_dispatched : Dict NodeStatus → Dict Bool → Dict Bool
cancel_dispatched [] dispatched = dispatched
cancel_dispatched ((id, st) ∷ m) dispatched =
    cancel_dispatched m (if is_terminal st then dispatched else remove id dispatched)

-- CancelAll
unfoldable pub cancel_all : Scheduler → Scheduler
unfolding cancel_statuses cancel_dispatched
cancel_all s = record s {
  status = cancel_statuses s.status;
  dispatched = cancel_dispatched s.status s.dispatched;
}

abbrev pub has_ended : String × NodeStatus → Bool
has_ended e = is_terminal e.1

-- Done
unfoldable pub done : Scheduler → Bool
done s = all has_ended s.status

abbrev pub has_failed : String × NodeStatus → Bool
has_failed (id, failed) = true
has_failed (id, _) = false

abbrev pub has_canceled : String × NodeStatus → Bool
has_canceled (id, canceled) = true
has_canceled (id, _) = false

abbrev pub has_skipped : String × NodeStatus → Bool
has_skipped (id, skipped) = true
has_skipped (id, _) = false

-- Outcome
unfoldable pub outcome : Scheduler → NodeStatus
outcome s =
    if any has_failed s.status
    then failed
    else if any has_canceled s.status
    then canceled
    else if any has_skipped s.status && length s.status == 1
    then skipped
    else success

-- The stored status of a stage, as RestoreFromDB reads it, and whether it counts as handed out.
unfoldable pub from_db : String → NodeStatus × Bool
from_db st =
    if str_eq st "success"
    then (success, false)
    else if str_eq st "failed"
    then (failed, false)
    else if str_eq st "skipped"
    then (skipped, false)
    else if str_eq st "canceled"
    then (canceled, false)
    else if str_eq st "running"
    then (running, true)
    else if str_eq st "approval"
    then (waiting_approval, true)
    else (pending, false)

unfoldable pub mark : String → Bool → Dict Bool → Dict Bool
mark id true dispatched = insert id true dispatched
mark id false dispatched = remove id dispatched

unfoldable pub restore_one : String → Option String → Scheduler → Scheduler
unfolding mark
restore_one id none s = s
restore_one id (some db) s =
    let (st, out) = from_db db in
    record s { status = insert id st s.status; dispatched = mark id out s.dispatched }

unfoldable pub restore_all : Dict String → Dict NodeStatus → Scheduler → Scheduler
restore_all statuses [] s = s
restore_all statuses ((id, st) ∷ m) s =
    restore_all statuses m (restore_one id (lookup id statuses) s)

-- RestoreFromDB
unfoldable pub restore_from_db : Scheduler → Dict String → Scheduler
unfolding restore_all restore_one from_db
restore_from_db s statuses = restore_all statuses s.status s
