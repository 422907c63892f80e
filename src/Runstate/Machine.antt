-- ===== src/Runstate/Machine.antt =====
-- api/pkg/runstate/runstate.go: the machine that moves a run. The database is the `runs` table by
-- its primary key, and the `audit_logs` rows that the machine writes, oldest first. `Calls` says
-- which database calls of one transaction fail. A time is a number of nanoseconds.
pub mod Outcomes
pub mod Histories
pub mod Times
use Prim.Native.String.{◌++◌ as ◌<>◌}
use helios_ci_cd.Prelude.{
  ℕ, ◌-◌, ◌/◌, String, Bool, not, Option, none, some, List, [], ◌∷◌, ◌++◌, ◌==◌, ltb, str_eq,
  if◌then◌else◌, Dict, insert,
}
use helios_ci_cd.Prelude.Json.{Json, text, num, pos}
use helios_ci_cd.Runstate.{
  running, approval, success, failed, canceled, timeout, is_terminal, is_valid_status,
  can_transition,
}

-- The columns of `runs` that the machine reads or writes.
pub record Run : Type 0 where
  pub status : String
  pub started_at : Option ℕ
  pub finished_at : Option ℕ
  pub message : Option String
  pub duration_ms : Option ℕ

-- A row of `audit_logs` that the machine writes; `result` is always 'success' and
-- `resource_type` is always 'run'.
pub record AuditLog : Type 0 where
  pub actor_id : Option ℕ
  pub org_id : Option ℕ
  pub action : String
  pub resource_id : ℕ
  pub payload : Dict Json
  pub created_at : ℕ

pub record Db : Type 0 where
  pub runs : ℕ → Option Run
  pub audit_logs : List AuditLog

pub record TransitionOpts : Type 0 where
  pub reason : String
  pub actor_id : Option ℕ
  pub org_id : Option ℕ
  pub project_id : Option ℕ
  pub extra : Dict Json

-- The clock and the outcome of each database call of one Transition.
pub record Calls : Type 0 where
  pub now : ℕ
  pub begin_ok : Bool
  pub select_ok : Bool
  pub update_ok : Bool
  pub insert_ok : Bool
  pub commit_ok : Bool

pub data DbCall : Type 0 where
  begin_tx select_run update_run insert_audit commit_tx : DbCall

pub data Error : Type 0 where
  not_found changed_concurrently : Error
  invalid_status terminal : String → Error
  illegal_transition : (from to : String) → Error
  db_error : DbCall → Error

-- What Transition returns beside a nil error.
pub record Moved : Type 0 where
  pub status : String
  pub started : Option ℕ
  pub finished : Option ℕ

pub data Result {ℓ} (A : Type ℓ) : Type ℓ where
  ok : A → Result A
  err : Error → Result A

-- The new started_at: set on the first move to running.
stamp_started : String → ℕ → Option ℕ → Option ℕ
stamp_started to now none = if str_eq to running then some now else none
stamp_started to now (some t) = some t

-- The new finished_at: set on the move to a terminal status.
stamp_finished : String → ℕ → Option ℕ → Option ℕ
unfolding is_terminal
stamp_finished to now none = if is_terminal to then some now else none
stamp_finished to now (some t) = some t

-- updFinished.Sub(updStarted).Milliseconds(). A negative span counts as 0 here: the statement
-- below only asks whether it is positive.
duration_ms : Option ℕ → Option ℕ → ℕ
duration_ms (some started) (some finished) = (finished - started) / 1000000
duration_ms _ _ = 0

message_suffix : String → String → String
message_suffix to reason = if str_eq reason "" then "" else "\n[" <> (to <> ("] " <> reason))

-- COALESCE(NULLIF(message, ''), '')
text_or_empty : Option String → String
text_or_empty none = ""
text_or_empty (some m) = m

-- The row that the UPDATE of Transition writes.
unfoldable pub moved_run : String → ℕ → TransitionOpts → Run → Run
unfolding stamp_started stamp_finished duration_ms message_suffix text_or_empty
moved_run to now opts run =
    let started = stamp_started to now run.started_at in
    let finished = stamp_finished to now run.finished_at in
    let ms = duration_ms started finished in
    record {
      status = to;
      started_at = started;
      finished_at = finished;
      message = some (text_or_empty run.message <> message_suffix to opts.reason);
      duration_ms = if ltb 0 ms then some ms else run.duration_ms;
    }

put_all : Dict Json → Dict Json → Dict Json
put_all [] payload = payload
put_all ((k, v) ∷ extra) payload = put_all extra (insert k v payload)

put_some : String → Option Json → Dict Json → Dict Json
put_some k none payload = payload
put_some k (some v) payload = insert k v payload

project_json : Option ℕ → Option Json
project_json none = none
project_json (some id) = some (num (pos id))

reason_json : String → Option Json
reason_json r = if str_eq r "" then none else some (text r)

audit_payload : String → String → TransitionOpts → Dict Json
unfolding put_all put_some project_json reason_json
audit_payload cur to opts = put_all opts.extra (
    put_some "project_id" (project_json opts.project_id)
      (put_some "reason" (reason_json opts.reason) (("from", text cur) ∷ ("to", text to) ∷ [])))

pub audit_row : ℕ → String → String → ℕ → TransitionOpts → AuditLog
audit_row id cur to now opts = record {
  actor_id = opts.actor_id;
  org_id = opts.org_id;
  action = "run." <> to;
  resource_id = id;
  payload = audit_payload cur to opts;
  created_at = now;
}

abbrev pub set_run : (ℕ → Option Run) → ℕ → Run → ℕ → Option Run
set_run runs id run k = if k == id then some run else runs k

-- UPDATE runs SET … WHERE id = $6 AND status = $7, with the number of rows that it changed.
update_if : (ℕ → Option Run) → ℕ → String → Run → Option Run → (ℕ → Option Run) × ℕ
update_if runs id cur new none = (runs, 0)
update_if runs id cur new (some old) =
    if str_eq old.status cur then (set_run runs id new, 1) else (runs, 0)

-- The end of Transition: the two writes and the commit. Until the commit nothing is kept.
unfoldable pub write : Calls → Db → ℕ → String → TransitionOpts → Run → Result Moved × Db
unfolding update_if
write c db id to opts run =
    let new = moved_run to c.now opts run in
    let (runs, affected) = update_if db.runs id run.status new (db.runs id) in
    let audit_logs = db.audit_logs ++ audit_row id run.status to c.now opts ∷ [] in
    if not c.update_ok
    then (err (db_error update_run), db)
    else if affected == 0
    then (err changed_concurrently, db)
    else if not c.insert_ok
    then (err (db_error insert_audit), db)
    else if not c.commit_ok
    then (err (db_error commit_tx), db)
    else (
      ok (record { status = to; started = new.started_at; finished = new.finished_at }),
      record { runs = runs; audit_logs = audit_logs },
    )

-- The same status again is not an error: it is returned with the stored times.
abbrev unchanged : Run → Result Moved
unchanged run =
    ok (record { status = run.status; started = run.started_at; finished = run.finished_at })

-- What Transition does with the row that it has locked.
unfoldable pub decide : Calls → Db → ℕ → String → TransitionOpts → Option Run → Result Moved × Db
decide c db id to opts none = (err not_found, db)
decide c db id to opts (some run) =
    if is_terminal run.status
    then (if str_eq run.status to then unchanged run else err (terminal run.status), db)
    else if str_eq run.status to
    then (unchanged run, db)
    else if not (can_transition run.status to)
    then (err (illegal_transition run.status to), db)
    else write c db id to opts run

-- Transition
unfoldable pub transition : Calls → Db → ℕ → String → TransitionOpts → Result Moved × Db
unfolding decide
transition c db id to opts =
    if not (is_valid_status to)
    then (err (invalid_status to), db)
    else if not c.begin_ok
    then (err (db_error begin_tx), db)
    else if not c.select_ok
    then (err (db_error select_run), db)
    else decide c db id to opts (db.runs id)

abbrev discard {ℓ} : {A : Type ℓ} → Result A → Option Error
discard (ok a) = none
discard (err e) = some e

abbrev pub only_error : Result Moved × Db → Option Error × Db
only_error (r, db) = (discard r, db)

-- The wrappers return the error alone.
unfoldable pub mark_running : Calls → Db → ℕ → TransitionOpts → Option Error × Db
mark_running c db id opts = only_error (transition c db id running opts)

unfoldable pub mark_success : Calls → Db → ℕ → TransitionOpts → Option Error × Db
mark_success c db id opts = only_error (transition c db id success opts)

unfoldable pub mark_failed : Calls → Db → ℕ → String → TransitionOpts → Option Error × Db
mark_failed c db id reason opts =
    only_error (transition c db id failed (record opts { reason = reason }))

unfoldable pub mark_canceled : Calls → Db → ℕ → TransitionOpts → Option Error × Db
mark_canceled c db id opts = only_error (transition c db id canceled opts)

unfoldable pub mark_approval : Calls → Db → ℕ → TransitionOpts → Option Error × Db
mark_approval c db id opts = only_error (transition c db id approval opts)

unfoldable pub mark_timeout : Calls → Db → ℕ → String → TransitionOpts → Option Error × Db
mark_timeout c db id reason opts =
    only_error (transition c db id timeout (record opts { reason = reason }))

status_of : Option Run → Result String
status_of none = err not_found
status_of (some run) = ok run.status

-- Status: a read with no lock.
unfoldable pub read_status : Calls → Db → ℕ → Result String
unfolding status_of
read_status c db id = if not c.select_ok then err (db_error select_run) else status_of (db.runs id)
