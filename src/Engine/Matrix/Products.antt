-- ===== src/Engine/Matrix/Products.antt =====
-- The combinations of cartesian in api/pkg/engine/matrix.go.
use helios_ci_cd.Prelude.{
  String, Bool, true, false, ◌≡◌, some, List, length, All, Dict, lookup, has_key, member,
}
use helios_ci_cd.Prelude.Json.{Json}
use helios_ci_cd.Engine.Matrix.{Combo}
use helios_ci_cd.Engine.Matrix.Axes.{Member, values, combinations, Picks}

-- The axes of the combination.
abbrev pub HasAxes : (String → Bool) → Combo → Type 0
HasAxes on c = (k : String) → has_key k c ≡ on k

-- A combination with the choice on the axes, and as before elsewhere.
record Chosen (f : String → Json) (keys : List String) (c : Combo) (made : List Combo)
    : Type 0 where
  pub combo : Combo
  pub among : Member combo made
  pub chosen : (j : String) → member j keys ≡ true → lookup j combo ≡ some (f j)
  pub others : (j : String) → member j keys ≡ false → lookup j combo ≡ lookup j c

-- The product of the axes: combinations that have just these axes, with a value of each axis on it, as
-- many as the axes' lengths multiply to, and one for every choice of a value on each axis.
pub record IsProduct (dims : Dict (List Json)) (keys : List String) (combos : List Combo)
    : Type 0 where
  pub number : length combos ≡ combinations dims keys
  pub picks : All (λ c. Picks dims c × HasAxes (λ k. member k keys) c) combos
  pub every :
      (f : String → Json)
      → ((k : String) → member k keys ≡ true → Member (f k) (values dims k))
      → (c : Combo) × (Member c combos
          × ((k : String) → member k keys ≡ true → lookup k c ≡ some (f k)))
