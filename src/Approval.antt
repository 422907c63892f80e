-- ===== src/Approval.antt =====
-- Manual approval: the tables `approval_requests` and `approvals` of
-- api/internal/db/migrations, the rows that api/internal/model/approval.go maps to them, and
-- the queries that api/internal/service/approval.go and api/pkg/approval/timeout.go make on them.
-- A primary key is drawn by the caller of the model: the insert of a key in use fails.
pub mod Requests
pub mod Voting
pub mod Timeouts
pub mod Soundness
pub mod Votes
pub mod Changes
pub mod Outcomes
pub mod Histories
pub mod Accepted
pub mod Unanimity
pub mod Examples
use helios_ci_cd.Prelude.{
  ℕ, suc, ◌≤◌, String, Bool, true, false, ◌&&◌, ◌||◌, Option, none, some, List, [], ◌∷◌, ◌==◌,
  str_eq, if◌then◌else◌,
}
use helios_ci_cd.Runstate.Machine.{Db, AuditLog, Calls}

pub data Decision : Type 0 where
  approve reject : Decision

pub record ApprovalRequest : Type 0 where
  pub id : ℕ
  pub run_id : ℕ
  pub stage_id : String
  pub required_approvers : List String
  pub mode : String
  pub status : String
  pub on_timeout : String
  pub timeout_at : Option ℕ
  pub created_at : ℕ
  pub updated_at : ℕ

pub record Approval : Type 0 where
  pub id : ℕ
  pub request_id : ℕ
  pub user_id : Option ℕ
  pub username : String
  pub decision : Decision
  pub comment : String
  pub created_at : ℕ

-- The database of the approval service and of the timeout handler, with the two queues that they
-- write to. `audit_logs` holds the rows whose resource_type is 'approval_request'; those of the runs
-- are in `core`.
pub record Store : Type 0 where
  pub core : Db
  pub project_of : ℕ → ℕ
  pub requests : List ApprovalRequest
  pub votes : List Approval
  pub audit_logs : List AuditLog
  pub timeout_tasks : List (ℕ × ℕ)
  pub orchestrate_tasks : List (ℕ × ℕ)

-- What an ApprovalService or a Timeouter was built with.
pub record Service : Type 0 where
  pub has_db : Bool
  pub has_machine : Bool
  pub has_timeout_queue : Bool
  pub has_orchestrate_queue : Bool

-- The clock, the key that the sequence gives, and the outcome of each call to the outside.
pub record Outside : Type 0 where
  pub now : ℕ
  pub new_id : ℕ
  pub begin_ok : Bool
  pub select_ok : Bool
  pub load_ok : Bool
  pub insert_ok : Bool
  pub count_ok : Bool
  pub update_ok : Bool
  pub audit_ok : Bool
  pub commit_ok : Bool
  pub queue_ok : Bool
  pub load_run_ok : Bool
  pub machine : Calls

pub data Query : Type 0 where
  begin_tx select_row load_request insert_row count_votes update_request insert_audit commit_tx :
      Query

pub data ApprovalError : Type 0 where
  db_unavailable username_required no_approvers not_found not_approver already_voted : ApprovalError
  unsupported_mode unknown_on_timeout : String → ApprovalError
  run_not_in_approval : String → ApprovalError
  query_error : Query → ApprovalError

pub data Reply {ℓ} (A : Type ℓ) : Type ℓ where
  done : A → Reply A
  refused : ApprovalError → Reply A

abbrev pub is_approve : Decision → Bool
is_approve approve = true
is_approve reject = false

abbrev pub decision_text : Decision → String
decision_text approve = "approve"
decision_text reject = "reject"

abbrev pub is_pending : ApprovalRequest → Bool
is_pending r = str_eq r.status "pending"

abbrev pub is_waiting : ℕ → String → ApprovalRequest → Bool
is_waiting run_id stage_id r = r.run_id == run_id && (str_eq r.stage_id stage_id && is_pending r)

-- WHERE run_id = ? AND stage_id = ? AND status = 'pending' LIMIT 1
unfoldable pub find_pending : ℕ → String → List ApprovalRequest → Option ApprovalRequest
find_pending run_id stage_id [] = none
find_pending run_id stage_id (r ∷ rs) =
    if is_waiting run_id stage_id r then some r else find_pending run_id stage_id rs

-- WHERE id = ?
unfoldable pub find_request : ℕ → List ApprovalRequest → Option ApprovalRequest
find_request id [] = none
find_request id (r ∷ rs) = if r.id == id then some r else find_request id rs

unfoldable pub has_id : ℕ → List ApprovalRequest → Bool
has_id id [] = false
has_id id (r ∷ rs) = r.id == id || has_id id rs

-- tx.Save(&req): every column of the row with this key.
unfoldable pub save_request : ApprovalRequest → List ApprovalRequest → List ApprovalRequest
save_request new [] = []
save_request new (r ∷ rs) =
    let rest = save_request new rs in if r.id == new.id then new ∷ rest else r ∷ rest

-- UNIQUE (request_id, username): is the pair in use?
unfoldable pub has_voted : ℕ → String → List Approval → Bool
has_voted id username [] = false
has_voted id username (v ∷ vs) =
    (v.request_id == id && str_eq v.username username) || has_voted id username vs

-- SELECT count(*) FROM approvals WHERE request_id = ? AND decision = 'approve'
unfoldable pub approve_count : ℕ → List Approval → ℕ
approve_count id [] = 0
approve_count id (v ∷ vs) =
    let rest = approve_count id vs in
    if v.request_id == id && is_approve v.decision then suc rest else rest

unfoldable pub is_approver : String → List String → Bool
is_approver username [] = false
is_approver username (a ∷ rest) =
    if str_eq a "*" || str_eq a username then true else is_approver username rest
