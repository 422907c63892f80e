-- ===== src/Tasks/Queue.antt =====
-- api/pkg/queue/fake.go: the queue that records what is put in it. Each method holds the mutex from
-- its beginning to its end, so it is one step.
use helios_ci_cd.Prelude.{
  ℕ, zero, suc, String, Bool, true, false, ◌||◌, arith, ne_of_str_eq, ◌≡◌, ◌≢◌, refl, Option, none,
  some, List, [], ◌∷◌, ◌++◌, str_eq, if◌then◌else◌, All,
}
use helios_ci_cd.Prelude.Json.{ℤ, pos, negsuc}
use helios_ci_cd.Tasks.{
  GitCheckoutPayload, WebhookRegisterPayload, RunBuildPayload, ApprovalTimeoutPayload,
  RunOrchestratePayload, StageExecutePayload, validate_git_checkout, validate_webhook_register,
  validate_run_build, validate_approval_timeout, validate_run_orchestrate, validate_stage_execute,
  not_positive,
}

-- `err` is the injected error, and `next_id` "" where none is injected. A delay is in nanoseconds.
pub record FakeEnqueuer : Type 0 where
  pub checkouts : List GitCheckoutPayload
  pub webhooks : List WebhookRegisterPayload
  pub run_builds : List RunBuildPayload
  pub approval_timeouts : List (ApprovalTimeoutPayload × ℤ)
  pub run_orchestrates : List RunOrchestratePayload
  pub stage_executes : List StageExecutePayload
  pub next_id : String
  pub err : Option String

pub data Enqueued : Type 0 where
  task_id : String → Enqueued
  failed : String → Enqueued

-- The common course of the methods: the injected error, the validation, the record, the id.
unfoldable pub put :
    FakeEnqueuer → (injected invalid : Option String) → FakeEnqueuer → Enqueued × FakeEnqueuer
put f (some e) invalid kept = (failed e, f)
put f none (some e) kept = (failed e, f)
put f none none kept = (task_id (if str_eq f.next_id "" then "fake-task-id" else f.next_id), kept)

pub data Task : Type 0 where
  git_checkout : GitCheckoutPayload → Task
  webhook_register : WebhookRegisterPayload → Task
  run_build : RunBuildPayload → Task
  approval_timeout : ApprovalTimeoutPayload → ℤ → Task
  run_orchestrate : RunOrchestratePayload → Task
  stage_execute : StageExecutePayload → Task

-- The Enqueue methods.
unfoldable pub enqueue : FakeEnqueuer → Task → Enqueued × FakeEnqueuer
enqueue f (git_checkout p) =
    put f f.err (validate_git_checkout p) (record f { checkouts = f.checkouts ++ p ∷ [] })
enqueue f (webhook_register p) =
    put f f.err (validate_webhook_register p) (record f { webhooks = f.webhooks ++ p ∷ [] })
enqueue f (run_build p) =
    put f f.err (validate_run_build p) (record f { run_builds = f.run_builds ++ p ∷ [] })
enqueue f (approval_timeout p delay) =
    put f f.err (validate_approval_timeout p)
      (record f { approval_timeouts = f.approval_timeouts ++ (p, delay) ∷ [] })
enqueue f (run_orchestrate p) =
    put f f.err (validate_run_orchestrate p)
      (record f { run_orchestrates = f.run_orchestrates ++ p ∷ [] })
enqueue f (stage_execute p) =
    put f f.err (validate_stage_execute p)
      (record f { stage_executes = f.stage_executes ++ p ∷ [] })

unfoldable pub enqueue_all : FakeEnqueuer → List Task → FakeEnqueuer
enqueue_all f [] = f
enqueue_all f (t ∷ ts) = enqueue_all (enqueue f t).1 ts

abbrev pub IsPositive : ℤ → Type 0
IsPositive z = (n : ℕ) × (z ≡ pos (suc n))

-- What the queue may hold: the ids are positive and the texts that a task needs are not empty.
pub record IsValid (f : FakeEnqueuer) : Type 0 where
  pub valid_checkouts :
      All
        (λ p. IsPositive p.run_id × IsPositive p.project_id × (p.repo_url ≢ "") × (p.branch ≢ ""))
        f.checkouts
  pub valid_webhooks :
      All (λ p. IsPositive p.project_id × (p.owner ≢ "") × (p.repo ≢ "")) f.webhooks
  pub valid_run_builds : All (λ p. IsPositive p.run_id × IsPositive p.project_id) f.run_builds
  pub valid_approval_timeouts : All (λ e. IsPositive e.0.request_id) f.approval_timeouts
  pub valid_run_orchestrates :
      All (λ p. IsPositive p.run_id × IsPositive p.project_id) f.run_orchestrates
  pub valid_stage_executes :
      All
        (λ p.
          IsPositive p.run_id
          × IsPositive p.project_id
          × IsPositive p.stage_record_id
          × (p.stage_id ≢ ""))
        f.stage_executes

positive : (z : ℤ) → not_positive z ≡ false → IsPositive z
positive (pos zero) h = cc h
positive (pos (suc n)) h = (n, refl)
positive (negsuc n) h = cc h

-- A check that has passed, and those after it.
passed :
    (b : Bool) (e : String) {more : Option String}
    → (if b then some e else more) ≡ none
    → (b ≡ false) × (more ≡ none)
passed true e h = cc h
passed false e h = (refl, h)

id_passed :
    (z : ℤ) (e : String) {more : Option String}
    → (if not_positive z then some e else more) ≡ none
    → IsPositive z × (more ≡ none)
id_passed z e h = let (ok, rest) = passed (not_positive z) e h in (positive z ok, rest)

text_passed :
    (s : String) (e : String) {more : Option String}
    → (if str_eq s "" then some e else more) ≡ none
    → (s ≢ "") × (more ≡ none)
text_passed s e h = let (ok, rest) = passed (str_eq s "") e h in (ne_of_str_eq s "" ok, rest)

git_checkout_lem :
    (p : GitCheckoutPayload)
    → validate_git_checkout p ≡ none
    → IsPositive p.run_id × IsPositive p.project_id × (p.repo_url ≢ "") × (p.branch ≢ "")
unfolding validate_git_checkout
git_checkout_lem p h =
    let (run, h1) = id_passed p.run_id _ h in
    let (project, h2) = id_passed p.project_id _ h1 in
    let (url, h3) = text_passed p.repo_url _ h2 in
    (run, project, url, (text_passed p.branch _ h3).0)

webhook_register_lem :
    (p : WebhookRegisterPayload)
    → validate_webhook_register p ≡ none
    → IsPositive p.project_id × (p.owner ≢ "") × (p.repo ≢ "")
unfolding validate_webhook_register
webhook_register_lem p h =
    let (project, h1) = id_passed p.project_id _ h in
    let texts = (passed (str_eq p.owner "" || str_eq p.repo "") _ h1).0 in
    (
      project,
      ne_of_str_eq p.owner "" (ground (arith, texts)),
      ne_of_str_eq p.repo "" (ground (arith, texts)),
    )

run_build_lem :
    (p : RunBuildPayload)
    → validate_run_build p ≡ none
    → IsPositive p.run_id × IsPositive p.project_id
unfolding validate_run_build
run_build_lem p h = let (run, h1) = id_passed p.run_id _ h in (run, (id_passed p.project_id _ h1).0)

approval_timeout_lem :
    (p : ApprovalTimeoutPayload) → validate_approval_timeout p ≡ none → IsPositive p.request_id
unfolding validate_approval_timeout
approval_timeout_lem p h = (id_passed p.request_id _ h).0

run_orchestrate_lem :
    (p : RunOrchestratePayload)
    → validate_run_orchestrate p ≡ none
    → IsPositive p.run_id × IsPositive p.project_id
unfolding validate_run_orchestrate
run_orchestrate_lem p h =
    let (run, h1) = id_passed p.run_id _ h in (run, (id_passed p.project_id _ h1).0)

stage_execute_lem :
    (p : StageExecutePayload)
    → validate_stage_execute p ≡ none
    → IsPositive p.run_id
      × IsPositive p.project_id
      × IsPositive p.stage_record_id
      × (p.stage_id ≢ "")
unfolding validate_stage_execute
stage_execute_lem p h =
    let (run, h1) = id_passed p.run_id _ h in
    let (project, h2) = id_passed p.project_id _ h1 in
    let (row, h3) = id_passed p.stage_record_id _ h2 in
    (run, project, row, (text_passed p.stage_id _ h3).0)

All-snoc {ℓ κ} :
    {A : Type ℓ} (P : A → Type κ) (xs : List A) (y : A) → All P xs → P y → All P (xs ++ y ∷ [])
All-snoc P [] y h p = (p, tt)
All-snoc P (x ∷ xs) y (h, hs) p = (h, All-snoc P xs y hs p)

put-IsValid :
    (f : FakeEnqueuer) (injected invalid : Option String) (kept : FakeEnqueuer)
    → IsValid f
    → (invalid ≡ none → IsValid kept)
    → IsValid (put f injected invalid kept).1
unfolding put
put-IsValid f (some e) invalid kept h k = h
put-IsValid f none (some e) kept h k = h
put-IsValid f none none kept h k = k refl

enqueue-IsValid : (f : FakeEnqueuer) (t : Task) → IsValid f → IsValid (enqueue f t).1
unfolding enqueue
enqueue-IsValid f (git_checkout p) h = put-IsValid f f.err _ _ h (λ v. record {
  valid_checkouts = All-snoc _ f.checkouts p h.valid_checkouts (git_checkout_lem p v);
  valid_webhooks = h.valid_webhooks;
  valid_run_builds = h.valid_run_builds;
  valid_approval_timeouts = h.valid_approval_timeouts;
  valid_run_orchestrates = h.valid_run_orchestrates;
  valid_stage_executes = h.valid_stage_executes;
})
enqueue-IsValid f (webhook_register p) h = put-IsValid f f.err _ _ h (λ v. record {
  valid_checkouts = h.valid_checkouts;
  valid_webhooks = All-snoc _ f.webhooks p h.valid_webhooks (webhook_register_lem p v);
  valid_run_builds = h.valid_run_builds;
  valid_approval_timeouts = h.valid_approval_timeouts;
  valid_run_orchestrates = h.valid_run_orchestrates;
  valid_stage_executes = h.valid_stage_executes;
})
enqueue-IsValid f (run_build p) h = put-IsValid f f.err _ _ h (λ v. record {
  valid_checkouts = h.valid_checkouts;
  valid_webhooks = h.valid_webhooks;
  valid_run_builds = All-snoc _ f.run_builds p h.valid_run_builds (run_build_lem p v);
  valid_approval_timeouts = h.valid_approval_timeouts;
  valid_run_orchestrates = h.valid_run_orchestrates;
  valid_stage_executes = h.valid_stage_executes;
})
enqueue-IsValid f (approval_timeout p delay) h = put-IsValid f f.err _ _ h (λ v. record {
  valid_checkouts = h.valid_checkouts;
  valid_webhooks = h.valid_webhooks;
  valid_run_builds = h.valid_run_builds;
  valid_approval_timeouts =
      All-snoc _ f.approval_timeouts (p, delay) h.valid_approval_timeouts
        (approval_timeout_lem p v);
  valid_run_orchestrates = h.valid_run_orchestrates;
  valid_stage_executes = h.valid_stage_executes;
})
enqueue-IsValid f (run_orchestrate p) h = put-IsValid f f.err _ _ h (λ v. record {
  valid_checkouts = h.valid_checkouts;
  valid_webhooks = h.valid_webhooks;
  valid_run_builds = h.valid_run_builds;
  valid_approval_timeouts = h.valid_approval_timeouts;
  valid_run_orchestrates =
      All-snoc _ f.run_orchestrates p h.valid_run_orchestrates (run_orchestrate_lem p v);
  valid_stage_executes = h.valid_stage_executes;
})
enqueue-IsValid f (stage_execute p) h = put-IsValid f f.err _ _ h (λ v. record {
  valid_checkouts = h.valid_checkouts;
  valid_webhooks = h.valid_webhooks;
  valid_run_builds = h.valid_run_builds;
  valid_approval_timeouts = h.valid_approval_timeouts;
  valid_run_orchestrates = h.valid_run_orchestrates;
  valid_stage_executes =
      All-snoc _ f.stage_executes p h.valid_stage_executes (stage_execute_lem p v);
})

-- Whatever is put in the recording queue of fake.go, each payload that it holds has positive ids and its
-- needed texts (the URL and the branch, the owner and the repository, the stage's id), if that was so
-- before. It validates each payload as the Asynq client does, which is not modelled.
pub enqueue_all-IsValid :
    (f : FakeEnqueuer) (ts : List Task) → IsValid f → IsValid (enqueue_all f ts)
unfolding enqueue_all
enqueue_all-IsValid f [] h = h
enqueue_all-IsValid f (t ∷ ts) h = enqueue_all-IsValid (enqueue f t).1 ts (enqueue-IsValid f t h)
