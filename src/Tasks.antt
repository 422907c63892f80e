-- ===== src/Tasks.antt =====
-- api/pkg/tasks/tasks.go: the payloads of the background tasks and their validation. An int64 is an
-- integer here, since no sum is made of it. JSON decoding is a parameter of Unmarshal.
pub mod Queue
mod Examples
use helios_ci_cd.Prelude.{
  ℕ, zero, suc, String, Bool, true, false, ◌||◌, ◌≡◌, Option, none, some, List, str_eq,
  if◌then◌else◌,
}
use helios_ci_cd.Prelude.Json.{ℤ, pos, negsuc}

pub record GitCheckoutPayload : Type 0 where
  pub run_id : ℤ
  pub project_id : ℤ
  pub repo_url : String
  pub branch : String
  pub commit_sha : String

pub record WebhookRegisterPayload : Type 0 where
  pub project_id : ℤ
  pub repo_url : String
  pub owner : String
  pub repo : String

pub record RunBuildPayload : Type 0 where
  pub run_id : ℤ
  pub project_id : ℤ

pub record ApprovalTimeoutPayload : Type 0 where
  pub request_id : ℤ

pub record RunOrchestratePayload : Type 0 where
  pub run_id : ℤ
  pub project_id : ℤ

pub record StageExecutePayload : Type 0 where
  pub run_id : ℤ
  pub project_id : ℤ
  pub stage_record_id : ℤ
  pub stage_id : String

-- n <= 0
abbrev pub not_positive : ℤ → Bool
not_positive (pos zero) = true
not_positive (pos (suc n)) = false
not_positive (negsuc n) = true

-- The Validate methods: the error, if any.
unfoldable pub validate_git_checkout : GitCheckoutPayload → Option String
validate_git_checkout p =
    if not_positive p.run_id
    then some "run_id required"
    else if not_positive p.project_id
    then some "project_id required"
    else if str_eq p.repo_url ""
    then some "repo_url required"
    else if str_eq p.branch ""
    then some "branch required"
    else none

unfoldable pub validate_webhook_register : WebhookRegisterPayload → Option String
validate_webhook_register p =
    if not_positive p.project_id
    then some "project_id required"
    else if str_eq p.owner "" || str_eq p.repo ""
    then some "owner and repo required"
    else none

unfoldable pub validate_run_build : RunBuildPayload → Option String
validate_run_build p =
    if not_positive p.run_id
    then some "run_id required"
    else if not_positive p.project_id
    then some "project_id required"
    else none

unfoldable pub validate_approval_timeout : ApprovalTimeoutPayload → Option String
validate_approval_timeout p = if not_positive p.request_id then some "request_id required" else none

unfoldable pub validate_run_orchestrate : RunOrchestratePayload → Option String
validate_run_orchestrate p =
    if not_positive p.run_id
    then some "run_id required"
    else if not_positive p.project_id
    then some "project_id required"
    else none

unfoldable pub validate_stage_execute : StageExecutePayload → Option String
validate_stage_execute p =
    if not_positive p.run_id
    then some "run_id required"
    else if not_positive p.project_id
    then some "project_id required"
    else if not_positive p.stage_record_id
    then some "stage_record_id required"
    else if str_eq p.stage_id ""
    then some "stage_id required"
    else none

pub data Unmarshalled {ℓ} (A : Type ℓ) : Type ℓ where
  payload : A → Unmarshalled A
  malformed : Unmarshalled A
  invalid : String → Unmarshalled A

unfoldable pub checked {ℓ} : {A : Type ℓ} → A → Option String → Unmarshalled A
checked p none = payload p
checked p (some e) = invalid e

unfoldable pub unmarshal_with {ℓ} : {A : Type ℓ} → (A → Option String) → Option A → Unmarshalled A
unmarshal_with validate none = malformed
unmarshal_with validate (some p) = checked p (validate p)

-- The Unmarshal functions, on what json.Unmarshal gives.
unfoldable pub unmarshal_git_checkout : Option GitCheckoutPayload → Unmarshalled GitCheckoutPayload
unmarshal_git_checkout decoded = unmarshal_with validate_git_checkout decoded

unfoldable pub unmarshal_webhook_register :
    Option WebhookRegisterPayload → Unmarshalled WebhookRegisterPayload
unmarshal_webhook_register decoded = unmarshal_with validate_webhook_register decoded

unfoldable pub unmarshal_run_build : Option RunBuildPayload → Unmarshalled RunBuildPayload
unmarshal_run_build decoded = unmarshal_with validate_run_build decoded

unfoldable pub unmarshal_approval_timeout :
    Option ApprovalTimeoutPayload → Unmarshalled ApprovalTimeoutPayload
unmarshal_approval_timeout decoded = unmarshal_with validate_approval_timeout decoded

unfoldable pub unmarshal_run_orchestrate :
    Option RunOrchestratePayload → Unmarshalled RunOrchestratePayload
unmarshal_run_orchestrate decoded = unmarshal_with validate_run_orchestrate decoded

unfoldable pub unmarshal_stage_execute :
    Option StageExecutePayload → Unmarshalled StageExecutePayload
unmarshal_stage_execute decoded = unmarshal_with validate_stage_execute decoded
