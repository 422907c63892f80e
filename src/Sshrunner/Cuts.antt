-- ===== src/Sshrunner/Cuts.antt =====
-- A run of api/pkg/sshrunner/batch.go cut in two: the hosts that ran and those left out.
use mathlib.Core.Path.{subst}
use mathlib.Core.List.{append_assoc}
use helios_ci_cd.Prelude.{
  ℕ, zero, suc, ◌+◌, ◌≤◌, ◌<◌, String, ◌≡◌, refl, sym, ap, ◌∙◌, ◌⊎◌, inl, inr, Option, none, some,
  List, [], ◌∷◌, ◌++◌, map, length, leb, ltb, arith, if◌then◌else◌,
}
use helios_ci_cd.Prelude.Json.{ℤ, pos, negsuc}
use helios_ci_cd.Sshrunner.{
  BatchOpts, HostTask, HostResult, not_positive, count_of, should_stop, stopped, perform, tally,
  perform_all, failed, take, drop,
}

-- The failures that stop a run: MaxFailures, or one where that is not positive.
unfoldable pub limit : ℤ → ℕ
limit (pos zero) = 1
limit (pos (suc n)) = suc n
limit (negsuc n) = 1

-- The results of a run: a first part of the hosts ran, the others are reported as stopped; fewer than
-- `most` tasks failed, and hosts are left out only when the limit was met.
pub record Cut (most least : ℕ) (task : HostTask) (i failures : ℕ) (hosts : List String)
    (results : List HostResult) : Type 0 where
  pub ran : List String
  pub left_out : List String
  pub whole : hosts ≡ ran ++ left_out
  pub reported : results ≡ perform_all task i ran ++ map stopped left_out
  pub few : failed (perform_all task i ran) + failures < most
  pub reason : (left_out ≡ []) ⊎ (least ≤ failed (perform_all task i ran) + failures)

pub should_stop-limit :
    (opts : BatchOpts) (f : ℕ) → should_stop opts f ≡ leb (limit opts.max_failures) f
unfolding should_stop not_positive count_of limit
should_stop-limit opts f = by_sign opts.max_failures
  where
    by_sign : (m : ℤ) → (if not_positive m then ltb 0 f else leb (count_of m) f) ≡ leb (limit m) f
    by_sign (pos zero) = ground arith
    by_sign (pos (suc n)) = ground arith
    by_sign (negsuc n) = ground arith

failed-append : (xs ys : List HostResult) → failed (xs ++ ys) ≡ failed xs + failed ys
unfolding failed tally
failed-append [] ys = omega arith
failed-append (x ∷ xs) ys = by_error x.error (failed-append xs ys)
  where
    by_error :
        (e : Option String)
        → failed (xs ++ ys) ≡ failed xs + failed ys
        → tally e (failed (xs ++ ys)) ≡ tally e (failed xs) + failed ys
    by_error none h = h
    by_error (some e) h = omega (arith, h)

pub failed-perform_all :
    (task : HostTask) (i : ℕ) (hosts : List String)
    → failed (perform_all task i hosts) ≤ length hosts
unfolding failed perform_all tally
failed-perform_all task i [] = omega arith
failed-perform_all task i (h ∷ hosts) =
    by_error (perform task i h).error (failed-perform_all task (suc i) hosts)
  where
    by_error :
        (e : Option String)
        → failed (perform_all task (suc i) hosts) ≤ length hosts
        → tally e (failed (perform_all task (suc i) hosts)) ≤ suc (length hosts)
    by_error none h = omega (arith, h)
    by_error (some e) h = omega (arith, h)

perform_all-append :
    (task : HostTask) (i : ℕ) (xs ys : List String)
    → perform_all task i (xs ++ ys) ≡ perform_all task i xs ++ perform_all task (length xs + i) ys
unfolding perform_all
perform_all-append task i [] ys = ap (λ k. perform_all task k ys) (omega arith)
perform_all-append task i (x ∷ xs) ys =
    ap (λ rest. perform task i x ∷ rest)
      (perform_all-append task (suc i) xs ys
        ∙ ap (λ k. perform_all task (suc i) xs ++ perform_all task k ys) (position (length xs)))
  where
    position : (n : ℕ) → n + suc i ≡ suc n + i
    position n = omega arith

pub take-drop : (n : ℕ) (xs : List String) → xs ≡ take n xs ++ drop n xs
unfolding take drop
take-drop zero xs = refl
take-drop (suc n) [] = refl
take-drop (suc n) (x ∷ xs) = ap (λ rest. x ∷ rest) (take-drop n xs)

pub length-take : (n : ℕ) (xs : List String) → length (take n xs) ≤ n
unfolding take
length-take zero xs = omega arith
length-take (suc n) [] = omega arith
length-take (suc n) (x ∷ xs) = omega (arith, length-take n xs)

pub length-drop : (n : ℕ) (xs : List String) → length (drop n xs) ≤ length xs
unfolding drop
length-drop zero xs = omega arith
length-drop (suc n) [] = omega arith
length-drop (suc n) (x ∷ xs) = omega (arith, length-drop n xs)

-- Hosts that ran before a run with that start are a first part of it.
pub extend :
    (most least : ℕ) (task : HostTask) (i f : ℕ) (xs ys : List String) (rs : List HostResult)
    → Cut most least task (length xs + i) (failed (perform_all task i xs) + f) ys rs
    → Cut most least task i f (xs ++ ys) (perform_all task i xs ++ rs)
extend most least task i f xs ys rs c = record {
  ran = xs ++ c.ran;
  left_out = c.left_out;
  whole = ap (λ l. xs ++ l) c.whole ∙ sym (append_assoc xs c.ran c.left_out);
  reported =
      ap (λ l. perform_all task i xs ++ l) c.reported
      ∙ sym (append_assoc (perform_all task i xs) later (map stopped c.left_out))
      ∙ ap (λ l. l ++ map stopped c.left_out) (sym (perform_all-append task i xs c.ran));
  few = subst (λ n. n < most) (sym count) c.few;
  reason = elim c.reason [
    | inl none_left ↦ inl none_left
    | inr met ↦ inr (subst (λ n. least ≤ n) (sym count) met)
  ];
}
  where
    later : List HostResult
    later = perform_all task (length xs + i) c.ran

    sums : (n a b : ℕ) → n ≡ a + b → n + f ≡ b + (a + f)
    sums n a b h = omega (arith, h)

    count :
        failed (perform_all task i (xs ++ c.ran)) + f
        ≡ failed later + (failed (perform_all task i xs) + f)
    count = sums _ (failed (perform_all task i xs)) (failed later) (
        ap failed (perform_all-append task i xs c.ran)
        ∙ failed-append (perform_all task i xs) later)
