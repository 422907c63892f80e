-- ===== src/Approval/Examples.antt =====
-- Concrete approvals: the theorems about api/internal/service/approval.go and
-- api/pkg/approval/timeout.go at work.
use mathlib.Core.Path.{subst}
use helios_ci_cd.Prelude.{
  ℕ, String, true, ◌≡◌, refl, inl, inr, none, some, List, [], ◌∷◌, ◌==◌, Bool-cases, some_inj,
  if◌then◌else◌, member,
}
use helios_ci_cd.Runstate.{approval, can_transition, is_valid_status}
use helios_ci_cd.Runstate.Machine.{
  Run, Calls, transition, write, moved_run, mark_running, mark_failed, mark_timeout,
}
use helios_ci_cd.Approval.{
  approve, reject, ApprovalRequest, Approval, Store, Service, Outside, find_request, find_pending,
  has_id, has_voted, approve_count, is_approver, save_request,
}
use helios_ci_cd.Approval.Voting.{
  VoteInput, vote, ballot, resolve, counts, settle, cast, vote_locked, finish_vote, push_run,
  after_move, resume_orchestrate,
}
use helios_ci_cd.Approval.Timeouts.{
  handle_timeout, is_early, expire, close, moved, expire_locked, finish_timeout, move_run,
}
use helios_ci_cd.Approval.Soundness.{IsSound, IsJustified, has_rejected}
use helios_ci_cd.Approval.Changes.{pending-IsJustified, rejected-IsJustified}
use helios_ci_cd.Approval.Histories.{
  Act, step, voting, expiring, take_step, take_steps, act, act_all, IsChange, between, act-Change,
  act_all_decided, act_all-IsSound,
}
use helios_ci_cd.Approval.Unanimity.{approvers_of, act_all_unanimous}
use helios_ci_cd.Approval.Accepted.{Accepted, vote-Accepted}

abbrev service : Service
service = record {
  has_db = true;
  has_machine = true;
  has_timeout_queue = true;
  has_orchestrate_queue = true;
}

abbrev calls : ℕ → Calls
calls t = record {
  now = t;
  begin_ok = true;
  select_ok = true;
  update_ok = true;
  insert_ok = true;
  commit_ok = true;
}

abbrev outside : ℕ → Outside
outside t = record {
  now = t;
  new_id = t;
  begin_ok = true;
  select_ok = true;
  load_ok = true;
  insert_ok = true;
  count_ok = true;
  update_ok = true;
  audit_ok = true;
  commit_ok = true;
  queue_ok = true;
  load_run_ok = true;
  machine = calls t;
}

abbrev held : Run
held = record {
  status = approval;
  started_at = some 1;
  finished_at = none;
  message = none;
  duration_ms = none;
}

abbrev deploy : ApprovalRequest
deploy = record {
  id = 5;
  run_id = 1;
  stage_id = "deploy";
  required_approvers = "alice" ∷ "bob" ∷ [];
  mode = "all";
  status = "pending";
  on_timeout = "reject";
  timeout_at = some 1000;
  created_at = 2;
  updated_at = 2;
}

abbrev store : List ApprovalRequest → List Approval → Store
store requests votes = record {
  core = record { runs = λ id. if id == 1 then some held else none; audit_logs = [] };
  project_of = λ id. 7;
  requests = requests;
  votes = votes;
  audit_logs = [];
  timeout_tasks = [];
  orchestrate_tasks = [];
}

abbrev by : String → VoteInput
by username = record {
  run_id = 1;
  stage_id = "deploy";
  user_id = none;
  username = username;
  comment = "";
}

abbrev open_store : Store
open_store = store (deploy ∷ []) []

abbrev refusal : Approval
refusal = ballot (outside 3) (by "alice") reject deploy

abbrev refused_deploy : ApprovalRequest
refused_deploy = record deploy { status = "rejected"; updated_at = 3 }

abbrev closed_store : Store
closed_store = store (refused_deploy ∷ []) (refusal ∷ [])

-- What the only request of a store has, every request that is found has.
only_request :
    (id : ℕ) (only r : ApprovalRequest) (votes : List Approval)
    → find_request id (only ∷ []) ≡ some r
    → IsJustified votes only
    → IsJustified votes r
unfolding find_request
only_request id only r votes found j = elim (Bool-cases (only.id == id)) [
  | inl e ↦ subst (IsJustified votes) (some_inj (rw e at found)) j
  | inr e ↦ cc (rw e at found)
]

open_store-IsSound : IsSound open_store
unfolding has_id
open_store-IsSound = record {
  keyed = (refl, tt);
  one_vote = tt;
  referenced = tt;
  fair = λ id r f. tt;
  justified = λ id r f. only_request id deploy r [] f (pending-IsJustified [] deploy refl);
}

alice_may :
    (id : ℕ) (r : ApprovalRequest)
    → find_request id (refused_deploy ∷ []) ≡ some r
    → is_approver "alice" r.required_approvers ≡ true
unfolding find_request is_approver
alice_may id r found = elim (Bool-cases (refused_deploy.id == id)) [
  | inl e ↦
      subst (λ x. is_approver "alice" x.required_approvers ≡ true) (some_inj (rw e at found)) refl
  | inr e ↦ cc (rw e at found)
]

closed_store-IsSound : IsSound closed_store
unfolding has_id has_voted ballot has_rejected
closed_store-IsSound = record {
  keyed = (refl, tt);
  one_vote = (refl, tt);
  referenced = (refl, tt);
  fair = λ id r f. (λ k. inr (alice_may id r f), tt);
  justified = λ id r f.
      only_request id refused_deploy r (refusal ∷ []) f
        (rejected-IsJustified (refusal ∷ []) deploy 3 refl);
}

abbrev both : List Act
both =
    voting service (outside 3) (by "alice") approve []
    ∷ voting service (outside 4) (by "bob") approve []
    ∷ step (expiring service (outside 2000000000) 5)
    ∷ []

-- Alice's approval leaves the request open; Bob's closes it, and the timeout finds it closed.
both_approve :
    (act_all open_store both).requests ≡ record deploy { status = "approved"; updated_at = 4 } ∷ []
unfolding act_all act take_step take_steps vote vote_locked cast settle finish_vote push_run
    after_move resume_orchestrate handle_timeout expire_locked finish_timeout move_run find_pending
    find_request is_approver has_voted approve_count counts resolve ballot save_request transition
    write moved_run can_transition is_valid_status mark_running mark_failed
both_approve = refl

-- Alice's approval is read while the request is open, and saved after the timeout has rejected it: the
-- save by id carries the row as it was read, with the timeout's reject lost.
late_approval :
    (act (store (record deploy { mode = "any" } ∷ []) []) (
      voting service
        (outside 2000000001)
        (by "alice")
        approve
        (expiring service (outside 2000000000) 5 ∷ []))).requests
    ≡ record deploy { mode = "any"; status = "approved"; updated_at = 2000000001 } ∷ []
unfolding act take_step take_steps vote vote_locked cast settle finish_vote push_run after_move
    resume_orchestrate handle_timeout is_early expire_locked expire close moved finish_timeout
    move_run mark_timeout find_pending find_request is_approver has_voted approve_count counts
    resolve ballot save_request transition write moved_run can_transition is_valid_status
    mark_running mark_failed
late_approval = refl

abbrev late : Act
late = voting service (outside 4) (by "bob") approve (expiring service (outside 2000000000) 5 ∷ [])

act-Change_example :
    IsChange open_store (take_steps open_store (between late)) (act open_store late)
act-Change_example = act-Change open_store late open_store-IsSound

act_all-IsSound_example : IsSound (act_all open_store both)
act_all-IsSound_example = act_all-IsSound open_store both open_store-IsSound

act_all_decided_example : find_request 5 (act_all closed_store both).requests ≡ some refused_deploy
unfolding find_request
act_all_decided_example =
    act_all_decided closed_store both 5 refused_deploy closed_store-IsSound refl refl

act_all_unanimous_example : member "alice" (approvers_of 5 (act_all open_store both).votes) ≡ true
unfolding act_all act take_step take_steps vote vote_locked cast settle finish_vote push_run
    after_move resume_orchestrate handle_timeout expire_locked finish_timeout move_run find_pending
    find_request is_approver has_voted approve_count counts resolve ballot save_request transition
    write moved_run can_transition is_valid_status mark_running mark_failed
act_all_unanimous_example =
    act_all_unanimous open_store both 5 (record deploy { status = "approved"; updated_at = 4 })
      "alice" open_store-IsSound refl refl refl refl refl refl

vote-Accepted_example :
    Accepted service
      (outside 3)
      open_store
      open_store
      (by "alice")
      approve
      (vote service (outside 3) open_store open_store (by "alice") approve)
vote-Accepted_example = vote-Accepted service (outside 3) open_store open_store (by "alice") approve
