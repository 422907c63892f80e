-- ===== src/Prelude/Lists.antt =====
-- Lists measured and indexed by native numbers, membership tests on texts, and the predicate that
-- every element has.
use Prim.Native.Nat.{ℕ, suc, ◌+◌}
use Prim.Native.String.{String}
use mathlib.Core.Path.{◌≡◌, refl}
use mathlib.Core.Logic.{◌⊎◌, inl, inr}
use text.Mathlib.TextEquality.{eq_iff}
use mathlib.Core.Bool.{Bool, true, false, ◌||◌, ◌&&◌}
use mathlib.Core.List.{List, [], ◌∷◌, ◌++◌}
use native.Mathlib.Omega.{arith}
use text.Mathlib.Text.{◌==◌ as str_eq}
use helios_ci_cd.Prelude.Tests.{Bool-cases, if◌then◌else◌}

module _ {ℓ} {A : Type ℓ} where
  abbrev pub length : List A → ℕ
  length [] = 0
  length (x ∷ xs) = suc (length xs)

  pub length-append : (xs ys : List A) → length (xs ++ ys) ≡ length xs + length ys
  length-append [] ys = omega arith
  length-append (x ∷ xs) ys = omega (arith, length-append xs ys)

  abbrev pub select : (A → Bool) → List A → List A
  select p [] = []
  select p (x ∷ xs) = let rest = select p xs in if p x then x ∷ rest else rest

  abbrev pub any : (A → Bool) → List A → Bool
  any p [] = false
  any p (x ∷ xs) = p x || any p xs

  abbrev pub all : (A → Bool) → List A → Bool
  all p [] = true
  all p (x ∷ xs) = p x && all p xs

abbrev pub All {ℓ κ} : {A : Type ℓ} → (A → Type κ) → List A → Type κ
All Holds [] = Unit
All Holds (first ∷ others) = Holds first × All Holds others

abbrev pub member : String → List String → Bool
member s [] = false
member s (x ∷ xs) = str_eq x s || member s xs

pub member-append :
    (s : String) (xs : List String) (y : String)
    → member s (xs ++ y ∷ []) ≡ true
    → (member s xs ≡ true) ⊎ (y ≡ s)
member-append s [] y h = inr ((eq_iff y s).0 (ground arith))
member-append s (x ∷ xs) y h = elim (Bool-cases (str_eq x s)) [
  | inl e ↦ inl (rw e refl)
  | inr e ↦ rw e (member-append s xs y (rw e at h))
]
