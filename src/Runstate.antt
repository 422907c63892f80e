-- ===== src/Runstate.antt =====
-- api/pkg/runstate/runstate.go: the statuses of a run and the transition matrix. A status is the
-- Go string that stands in the database, so it need not be one of the seven.
pub mod Edges
mod Examples
pub mod Machine
use helios_ci_cd.Prelude.{String, Bool, false, not, ◌&&◌, ◌||◌, str_eq, if◌then◌else◌}

abbrev pub pending : String
pending = "pending"

abbrev pub running : String
running = "running"

abbrev pub approval : String
approval = "approval"

abbrev pub success : String
success = "success"

abbrev pub failed : String
failed = "failed"

abbrev pub canceled : String
canceled = "canceled"

abbrev pub timeout : String
timeout = "timeout"

-- IsTerminal
unfoldable pub is_terminal : String → Bool
is_terminal s = str_eq s success || str_eq s failed || str_eq s canceled || str_eq s timeout

-- IsValidStatus
unfoldable pub is_valid_status : String → Bool
is_valid_status s =
    str_eq s pending
    || str_eq s running
    || str_eq s approval
    || str_eq s success
    || str_eq s failed
    || str_eq s canceled
    || str_eq s timeout

-- The `switch from` of CanTransition; its default is the last `return false`.
allowed_from : String → String → Bool
allowed_from from to =
    if str_eq from pending
    then str_eq to running || str_eq to canceled
    else if str_eq from running
    then str_eq to approval || str_eq to success || str_eq to failed || str_eq to canceled
    else if str_eq from approval
    then str_eq to running || str_eq to failed || str_eq to timeout || str_eq to canceled
    else false

-- CanTransition
unfoldable pub can_transition : String → String → Bool
unfolding is_valid_status is_terminal allowed_from
can_transition from to =
    if not (is_valid_status from && is_valid_status to)
    then false
    else if str_eq from to
    then false
    else if is_terminal from
    then false
    else allowed_from from to
