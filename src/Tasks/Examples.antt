-- ===== src/Tasks/Examples.antt =====
-- A queue that is given a valid and an invalid task (api/pkg/queue/fake.go).
use helios_ci_cd.Prelude.{List, [], ◌∷◌, none, ◌≡◌, refl}
use helios_ci_cd.Prelude.Json.{pos}
use helios_ci_cd.Tasks.{RunBuildPayload, validate_run_build}
use helios_ci_cd.Tasks.Queue.{
  FakeEnqueuer, Task, run_build, put, enqueue, enqueue_all, IsValid, enqueue_all-IsValid,
}

abbrev new_fake : FakeEnqueuer
new_fake = record {
  checkouts = [];
  webhooks = [];
  run_builds = [];
  approval_timeouts = [];
  run_orchestrates = [];
  stage_executes = [];
  next_id = "";
  err = none;
}

abbrev good : RunBuildPayload
good = record { run_id = pos 1; project_id = pos 7 }

abbrev two_tasks : List Task
two_tasks = run_build good ∷ run_build (record good { project_id = pos 0 }) ∷ []

one_is_kept : (enqueue_all new_fake two_tasks).run_builds ≡ good ∷ []
unfolding enqueue_all enqueue put validate_run_build
one_is_kept = refl

new_fake-IsValid : IsValid new_fake
new_fake-IsValid = record {
  valid_checkouts = tt;
  valid_webhooks = tt;
  valid_run_builds = tt;
  valid_approval_timeouts = tt;
  valid_run_orchestrates = tt;
  valid_stage_executes = tt;
}

enqueue_all-IsValid_example : IsValid (enqueue_all new_fake two_tasks)
enqueue_all-IsValid_example = enqueue_all-IsValid new_fake two_tasks new_fake-IsValid
