-- ===== src/Prelude/Maps.antt =====
-- A Go map with text keys, as an association list with at most one entry for a key it inserts.
-- A program that ranges over such a map sees its entries in some order; the list fixes one.
use Prim.Native.String.{String}
use mathlib.Core.Path.{◌≡◌, refl}
use mathlib.Core.Bool.{Bool, true, false}
use mathlib.Core.Option.{Option, none, some}
use mathlib.Core.List.{List, [], ◌∷◌, map}
use native.Mathlib.Omega.{arith}
use text.Mathlib.Text.{◌==◌ as str_eq}
use text.Mathlib.TextEquality.{eq_iff}
use helios_ci_cd.Prelude.Tests.{if◌then◌else◌}

abbrev pub Dict {ℓ} : (V : Type ℓ) → Type ℓ
Dict V = List (String × V)

module _ {ℓ} {V : Type ℓ} where
  -- v, ok := m[k]
  unfoldable pub lookup : String → Dict V → Option V
  lookup key [] = none
  lookup key (entry ∷ more) = if str_eq entry.0 key then some entry.1 else lookup key more

  -- m[k] = v
  unfoldable pub insert : String → V → Dict V → Dict V
  insert key value [] = (key, value) ∷ []
  insert key value (entry ∷ more) =
      let kept = entry ∷ insert key value more in
      if str_eq entry.0 key then (key, value) ∷ more else kept

  -- delete(m, k)
  unfoldable pub remove : String → Dict V → Dict V
  remove key [] = []
  remove key (entry ∷ more) =
      let kept = remove key more in if str_eq entry.0 key then kept else entry ∷ kept

  -- _, ok := m[k]
  unfoldable pub has_key : String → Dict V → Bool
  has_key key [] = false
  has_key key (entry ∷ more) = if str_eq entry.0 key then true else has_key key more

  pub lookup-insert :
      (written asked : String) (value : V) (m : Dict V)
      → lookup asked (insert written value m)
        ≡ (if str_eq written asked then some value else lookup asked m)
  unfolding lookup insert
  lookup-insert written asked value [] = refl
  lookup-insert written asked value (entry ∷ more) =
      let rest = lookup-insert written asked value more in
      let first = eq_iff entry.0 written in
      let second = eq_iff entry.0 asked in ground (arith, rest, first, second, eq_iff written asked)

  pub lookup-remove :
      (gone asked : String) (m : Dict V)
      → lookup asked (remove gone m) ≡ (if str_eq gone asked then none else lookup asked m)
  unfolding lookup remove
  lookup-remove gone asked [] = ground arith
  lookup-remove gone asked (entry ∷ more) =
      let rest = lookup-remove gone asked more in
      let first = eq_iff entry.0 gone in
      let second = eq_iff entry.0 asked in ground (arith, rest, first, second, eq_iff gone asked)

-- The keys in the list's order.
abbrev pub keys {ℓ} : {V : Type ℓ} → Dict V → List String
keys = map (λ entry. entry.0)
