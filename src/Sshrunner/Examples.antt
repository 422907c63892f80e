-- ===== src/Sshrunner/Examples.antt =====
-- Runs over three hosts, the second of which fails (api/pkg/sshrunner/batch.go).
use helios_ci_cd.Prelude.{
  suc, ◌+◌, String, none, some, List, [], ◌∷◌, ◌≡◌, refl, str_eq, if◌then◌else◌,
}
use helios_ci_cd.Prelude.Json.{pos}
use helios_ci_cd.Sshrunner.{
  BatchOpts, HostTask, new_batch_executor, should_stop, not_positive, count_of, stopped, perform,
  tally, serial_from, run_serial, perform_all, failed, take, drop, rolling_from, run_rolling,
}
use helios_ci_cd.Sshrunner.Cuts.{limit, Cut}
use helios_ci_cd.Sshrunner.Threshold.{run-Cut}

abbrev opts : BatchOpts
opts = record {
  strategy = "rolling";
  batch_size = pos 2;
  interval = pos 0;
  max_failures = pos 0;
  max_concurrency = pos 0;
}

abbrev task : HostTask
task i host = (if str_eq host "b" then some "exit 1" else none, 3)

abbrev hosts : List String
hosts = "a" ∷ "b" ∷ "c" ∷ []

third_is_stopped :
    run_serial (new_batch_executor opts) hosts task
    ≡ perform task 0 "a" ∷ perform task 1 "b" ∷ stopped "c" ∷ []
unfolding run_serial serial_from new_batch_executor should_stop not_positive count_of tally
third_is_stopped = refl

first_batch_runs :
    run_rolling (new_batch_executor opts) hosts task
    ≡ perform task 0 "a" ∷ perform task 1 "b" ∷ stopped "c" ∷ []
unfolding run_rolling rolling_from new_batch_executor should_stop not_positive count_of tally
    perform_all failed take drop
first_batch_runs = refl

run-Cut_example :
    Cut
      (suc (limit opts.max_failures))
      (limit opts.max_failures)
      task
      0
      0
      hosts
      (run_serial (new_batch_executor opts) hosts task)
    × Cut
        (limit opts.max_failures + count_of (new_batch_executor opts).batch_size)
        (limit opts.max_failures)
        task
        0
        0
        hosts
        (run_rolling (new_batch_executor opts) hosts task)
run-Cut_example = run-Cut opts hosts task
