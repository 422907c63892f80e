-- ===== src/Expr/Parser/Outcome.antt =====
-- The outcome of a parser of api/pkg/expr/parser.go, and postconditions on it.
use helios_ci_cd.Prelude.{ℕ, Bool, true, false, ◌≡◌, refl, if◌then◌else◌}
use helios_ci_cd.Expr.{Message}

-- `crashed` is an index out of range, `out_of_fuel` has no counterpart in the program.
pub data Parsed (F : Type 0) (A : Type 0) : Type 0 where
  ok : A → Parsed F A
  failed : ℕ → Message F → Parsed F A
  crashed : Parsed F A
  out_of_fuel : Parsed F A

abbrev pub bind : {F : Type 0} {A B : Type 0} → Parsed F A → (A → Parsed F B) → Parsed F B
bind (ok a) k = k a
bind (failed p m) k = failed p m
bind crashed k = crashed
bind out_of_fuel k = out_of_fuel

-- A ParseError, or a value with `Good`.
pub data Yields {F : Type 0} {A : Type 0} (Good : A → Type 0) : Parsed F A → Type 0 where
  good : (a : A) → Good a → Yields Good (ok a)
  refused : (p : ℕ) (m : Message F) → Yields Good (failed p m)

module _ {F : Type 0} {A : Type 0} {Good : A → Type 0} where
  pub Yields-if :
      (b : Bool) {x y : Parsed F A}
      → (b ≡ true → Yields Good x)
      → (b ≡ false → Yields Good y)
      → Yields Good (if b then x else y)
  Yields-if true hx hy = hx refl
  Yields-if false hx hy = hy refl

  pub Yields-bind :
      {B : Type 0} {Fine : B → Type 0} {r : Parsed F A} {k : A → Parsed F B}
      → Yields Good r
      → ((a : A) → Good a → Yields Fine (k a))
      → Yields Fine (bind r k)
  Yields-bind (good a h) next = next a h
  Yields-bind (refused p m) next = refused p m
