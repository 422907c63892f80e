-- ===== src/Sshrunner.antt =====
-- api/pkg/sshrunner/batch.go: a task run on many hosts, one after the other or batch by batch. A task
-- is a function of the place and the name of a host to its error, if any, and the time it took.
mod Cuts
pub mod Threshold
mod Examples
use helios_ci_cd.Prelude.{
  ℕ, zero, suc, ◌+◌, String, Bool, true, false, Option, none, some, List, [], ◌∷◌, ◌++◌, map,
  length, leb, ltb, if◌then◌else◌,
}
use helios_ci_cd.Prelude.Json.{ℤ, pos, negsuc}

pub record BatchOpts : Type 0 where
  pub strategy : String
  pub batch_size : ℤ
  pub interval : ℤ
  pub max_failures : ℤ
  pub max_concurrency : ℤ

abbrev pub HostTask : Type 0
HostTask = ℕ → String → Option String × ℕ

pub record HostResult : Type 0 where
  pub host : String
  pub error : Option String
  pub elapsed : ℕ

-- n <= 0
unfoldable pub not_positive : ℤ → Bool
not_positive (pos n) = leb n 0
not_positive (negsuc n) = true

-- A positive number of Go as a count.
unfoldable pub count_of : ℤ → ℕ
count_of (pos n) = n
count_of (negsuc n) = 0

unfoldable pub new_batch_executor : BatchOpts → BatchOpts
new_batch_executor opts = record opts {
  batch_size = if not_positive opts.batch_size then pos 1 else opts.batch_size;
  max_concurrency = if not_positive opts.max_concurrency then pos 5 else opts.max_concurrency;
}

-- shouldStop
unfoldable pub should_stop : BatchOpts → ℕ → Bool
should_stop opts failures =
    if not_positive opts.max_failures
    then ltb 0 failures
    else leb (count_of opts.max_failures) failures

abbrev pub stopped : String → HostResult
stopped host = record {
  host = host;
  error = some "stopped: failure threshold reached";
  elapsed = 0;
}

abbrev pub perform : HostTask → ℕ → String → HostResult
perform task i host = record { host = host; error = (task i host).0; elapsed = (task i host).1 }

unfoldable pub tally : Option String → ℕ → ℕ
tally none failures = failures
tally (some e) failures = suc failures

-- The loop of runSerial, from the i-th host on.
unfoldable pub serial_from : BatchOpts → HostTask → ℕ → ℕ → List String → List HostResult
serial_from opts task i failures [] = []
serial_from opts task i failures (h ∷ hosts) =
    let stop = should_stop opts failures in
    (if stop then stopped h else perform task i h)
    ∷ serial_from opts task (suc i)
        (if stop then failures else tally (perform task i h).error failures) hosts

unfoldable pub run_serial : BatchOpts → List String → HostTask → List HostResult
run_serial opts hosts task = serial_from opts task 0 0 hosts

-- The hosts of a batch, each with its own entry of the results, and the failures they add. The order
-- in which they end makes no difference to either.
unfoldable pub perform_all : HostTask → ℕ → List String → List HostResult
perform_all task i [] = []
perform_all task i (h ∷ hosts) = perform task i h ∷ perform_all task (suc i) hosts

unfoldable pub failed : List HostResult → ℕ
failed [] = 0
failed (r ∷ results) = tally r.error (failed results)

-- hosts[:n] and hosts[n:], with the end of the list where n is beyond it.
unfoldable pub take : ℕ → List String → List String
take zero xs = []
take (suc n) [] = []
take (suc n) (x ∷ xs) = x ∷ take n xs

unfoldable pub drop : ℕ → List String → List String
drop zero xs = xs
drop (suc n) [] = []
drop (suc n) (x ∷ xs) = drop n xs

-- The loop of runRolling from the i-th host on, as many batches as the first number says.
unfoldable pub rolling_from : ℕ → BatchOpts → HostTask → ℕ → ℕ → List String → List HostResult
rolling_from fuel opts task i failures [] = []
rolling_from zero opts task i failures (h ∷ hosts) = []
rolling_from (suc fuel) opts task i failures (h ∷ hosts) =
    let size = count_of opts.batch_size in
    let batch = take size (h ∷ hosts) in
    let others = drop size (h ∷ hosts) in
    let results = perform_all task i batch in
    let total = failed results + failures in
    let further = rolling_from fuel opts task (length batch + i) total others in
    results ++ (if should_stop opts total then map stopped others else further)

unfoldable pub run_rolling : BatchOpts → List String → HostTask → List HostResult
run_rolling opts hosts task = rolling_from (length hosts) opts task 0 0 hosts
