-- ===== src/Sshrunner/Threshold.antt =====
-- Which hosts of api/pkg/sshrunner/batch.go are left out once too many have failed.
use mathlib.Core.Path.{subst}
use helios_ci_cd.Prelude.{
  ℕ, zero, suc, ◌+◌, ◌≤◌, ◌<◌, String, true, false, ◌≡◌, refl, sym, ap, ◌∙◌, ◌⊎◌, inl, inr, Option,
  none, some, List, [], ◌∷◌, map, length, arith, Bool-cases, if◌then◌else◌,
}
use helios_ci_cd.Prelude.Json.{ℤ, pos, negsuc}
use helios_ci_cd.Sshrunner.Cuts.{
  limit, Cut, should_stop-limit, failed-perform_all, take-drop, length-take, length-drop, extend,
}
use helios_ci_cd.Sshrunner.{
  BatchOpts, HostTask, HostResult, not_positive, count_of, new_batch_executor, should_stop, stopped,
  tally, serial_from, run_serial, perform_all, failed, take, drop, rolling_from, run_rolling,
}

-- Once the limit is met, all that is left is reported as stopped.
serial-stopped :
    (opts : BatchOpts) (task : HostTask) (i failures : ℕ) (hosts : List String)
    → should_stop opts failures ≡ true
    → serial_from opts task i failures hosts ≡ map stopped hosts
unfolding serial_from
serial-stopped opts task i failures [] e = refl
serial-stopped opts task i failures (h ∷ hosts) e =
    rw e (ap (λ rest. stopped h ∷ rest) (serial-stopped opts task (suc i) failures hosts e))

tally-shift : (e : Option String) (f : ℕ) → tally e f ≡ tally e 0 + f
unfolding tally
tally-shift none f = omega arith
tally-shift (some e) f = omega arith

tally-bound : (e : Option String) (f most : ℕ) → f < most → tally e f ≤ most
unfolding tally
tally-bound none f most h = omega (arith, h)
tally-bound (some e) f most h = omega (arith, h)

room : (opts : BatchOpts) (f : ℕ) → should_stop opts f ≡ false → f < limit opts.max_failures
room opts f e = ground (arith, sym (should_stop-limit opts f) ∙ e)

met : (opts : BatchOpts) (f : ℕ) → should_stop opts f ≡ true → limit opts.max_failures ≤ f
met opts f e = ground (arith, sym (should_stop-limit opts f) ∙ e)

serial_from-Cut :
    (opts : BatchOpts) (task : HostTask) (i f : ℕ) (hosts : List String)
    → f ≤ limit opts.max_failures
    → Cut
        (suc (limit opts.max_failures))
        (limit opts.max_failures)
        task
        i
        f
        hosts
        (serial_from opts task i f hosts)
unfolding serial_from perform_all failed
serial_from-Cut opts task i f [] h = record {
  ran = [];
  left_out = [];
  whole = refl;
  reported = refl;
  few = omega (arith, h);
  reason = inl refl;
}
serial_from-Cut opts task i f (x ∷ hosts) h = elim (Bool-cases (should_stop opts f)) [
  | inl e ↦ record {
    ran = [];
    left_out = x ∷ hosts;
    whole = refl;
    reported = serial-stopped opts task i f (x ∷ hosts) e;
    few = omega (arith, h);
    reason = inr (omega (arith, met opts f e));
  }
  | inr e ↦ rw e (
      extend _ _ task i f (x ∷ []) hosts _ (
        second (task i x).0 (
          serial_from-Cut opts task (suc i) (tally (task i x).0 f) hosts
            (tally-bound (task i x).0 f (limit opts.max_failures) (room opts f e)))))
]
  where
    Later : ℕ → ℕ → List HostResult → Type 0
    Later k n rs = Cut (suc (limit opts.max_failures)) (limit opts.max_failures) task k n hosts rs

    next : suc i ≡ suc 0 + i
    next = omega arith

    second :
        (e : Option String)
        → Later (suc i) (tally e f) (serial_from opts task (suc i) (tally e f) hosts)
        → Later (suc 0 + i) (tally e 0 + f) (serial_from opts task (suc i) (tally e f) hosts)
    second e c =
        subst (λ k. Later k (tally e 0 + f) (serial_from opts task (suc i) (tally e f) hosts)) next
          (subst (λ n. Later (suc i) n (serial_from opts task (suc i) (tally e f) hosts))
            (tally-shift e f) c)

length-drop_first :
    (n : ℕ) (x : String) (xs : List String) → 1 ≤ n → length (drop n (x ∷ xs)) ≤ length xs
unfolding drop
length-drop_first zero x xs h = omega (arith, h)
length-drop_first (suc n) x xs h = length-drop n xs

rolling_from-Cut :
    (fuel : ℕ) (opts : BatchOpts) (task : HostTask) (i f : ℕ) (hosts : List String)
    → 1 ≤ count_of opts.batch_size
    → length hosts ≤ fuel
    → f < limit opts.max_failures
    → Cut
        (limit opts.max_failures + count_of opts.batch_size)
        (limit opts.max_failures)
        task
        i
        f
        hosts
        (rolling_from fuel opts task i f hosts)
unfolding rolling_from perform_all failed
rolling_from-Cut fuel opts task i f [] one enough h = record {
  ran = [];
  left_out = [];
  whole = refl;
  reported = refl;
  few = omega (arith, h);
  reason = inl refl;
}
rolling_from-Cut zero opts task i f (x ∷ hosts) one enough h = absurd (omega (arith, enough))
rolling_from-Cut (suc fuel) opts task i f (x ∷ hosts) one enough h =
    subst
      (λ l.
        Cut (limit opts.max_failures + count_of opts.batch_size) (limit opts.max_failures) task i f
          l (rolling_from (suc fuel) opts task i f (x ∷ hosts)))
      (sym (take-drop size (x ∷ hosts)))
      (extend _ _ task i f batch others _ (
        rest (Bool-cases (should_stop opts total)) (λ less.
          rolling_from-Cut fuel opts task (length batch + i) total others one
            (shorter (length-drop_first size x hosts one)) less)))
  where
    size : ℕ
    size = count_of opts.batch_size

    batch : List String
    batch = take size (x ∷ hosts)

    others : List String
    others = drop size (x ∷ hosts)

    total : ℕ
    total = failed (perform_all task i batch) + f

    further : List HostResult
    further = rolling_from fuel opts task (length batch + i) total others

    shorter : length others ≤ length hosts → length others ≤ fuel
    shorter less = omega (arith, enough, less)

    few_more : total < limit opts.max_failures + size
    few_more =
        let a = failed-perform_all task i batch in
        let b = length-take size (x ∷ hosts) in omega (arith, a, b, h)

    rest :
        (should_stop opts total ≡ true) ⊎ (should_stop opts total ≡ false)
        → (total < limit opts.max_failures
            → Cut
                (limit opts.max_failures + size)
                (limit opts.max_failures)
                task
                (length batch + i)
                total
                others
                further)
        → Cut
            (limit opts.max_failures + size)
            (limit opts.max_failures)
            task
            (length batch + i)
            total
            others
            (if should_stop opts total then map stopped others else further)
    rest (inl e) again = rw e (record {
      ran = [];
      left_out = others;
      whole = refl;
      reported = refl;
      few = omega (arith, few_more);
      reason = inr (omega (arith, met opts total e));
    })
    rest (inr e) again = rw e (again (room opts total e))

size-positive : (opts : BatchOpts) → 1 ≤ count_of (new_batch_executor opts).batch_size
unfolding count_of new_batch_executor not_positive
size-positive opts = by_sign opts.batch_size
  where
    by_sign : (m : ℤ) → 1 ≤ count_of (if not_positive m then pos 1 else m)
    by_sign (pos zero) = omega arith
    by_sign (pos (suc n)) = ground arith
    by_sign (negsuc n) = omega arith

limit-positive : (m : ℤ) → 0 < limit m
unfolding limit
limit-positive (pos zero) = omega arith
limit-positive (pos (suc n)) = omega arith
limit-positive (negsuc n) = omega arith

-- Serial and rolling runs have a result for each host, in the order of the hosts: a first part of them
-- has what their tasks returned, the others are reported as stopped, and there are such only if the
-- failures met MaxFailures (or one, where that is not positive). In a serial run no more tasks fail
-- than that number, in a rolling one fewer than that number plus the size of a batch. (The comment on
-- MaxFailures promises the stop only above the number.)
pub run-Cut :
    (opts : BatchOpts) (hosts : List String) (task : HostTask)
    → Cut
        (suc (limit opts.max_failures))
        (limit opts.max_failures)
        task
        0
        0
        hosts
        (run_serial (new_batch_executor opts) hosts task)
      × Cut
          (limit opts.max_failures + count_of (new_batch_executor opts).batch_size)
          (limit opts.max_failures)
          task
          0
          0
          hosts
          (run_rolling (new_batch_executor opts) hosts task)
unfolding run_serial run_rolling new_batch_executor
run-Cut opts hosts task = (
  serial_from-Cut (new_batch_executor opts) task 0 0 hosts zero_fits,
  rolling_from-Cut (length hosts) (new_batch_executor opts) task 0 0 hosts (size-positive opts)
      (omega arith) positive,
)
  where
    positive : 0 < limit (new_batch_executor opts).max_failures
    positive = limit-positive (new_batch_executor opts).max_failures

    zero_fits : 0 ≤ limit (new_batch_executor opts).max_failures
    zero_fits = omega arith
