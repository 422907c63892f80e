-- ===== src/Engine/Matrix/Axes.antt =====
-- The number and the values of the combinations of the axes, in cartesian of api/pkg/engine/matrix.go.
use mathlib.Core.Path.{subst}
use native.Mathlib.Nat.{mul_assoc}
use helios_ci_cd.Prelude.{
  ℕ, suc, ◌*◌, String, false, ◌≡◌, refl, ap, ◌∙◌, inl, inr, some, List, [], ◌∷◌, ◌++◌, length,
  length-append, arith, All, str_eq, str_eq-cases, eq_iff, some_inj, lookup-insert, Dict, lookup,
  insert,
}
use helios_ci_cd.Prelude.Json.{Json}
use helios_ci_cd.Engine.Matrix.{Combo, values_of, extend_one, extend, product}

-- The value stands in the list.
pub data Member {A : Type 0} (x : A) : List A → Type 0 where
  first : {xs : List A} → Member x (x ∷ xs)
  later : {y : A} {xs : List A} → Member x xs → Member x (y ∷ xs)

abbrev pub values : Dict (List Json) → String → List Json
values dims k = values_of (lookup k dims)

-- The number of combinations that the axes have.
abbrev pub combinations : Dict (List Json) → List String → ℕ
combinations dims [] = 1
combinations dims (k ∷ keys) = length (values dims k) * combinations dims keys

length-extend_one :
    (k : String) (vals : List Json) (c : Combo) → length (extend_one k vals c) ≡ length vals
unfolding extend_one
length-extend_one k [] c = refl
length-extend_one k (v ∷ vals) c = ap suc (length-extend_one k vals c)

length-extend :
    (k : String) (vals : List Json) (combos : List Combo)
    → length (extend k vals combos) ≡ length combos * length vals
unfolding extend
length-extend k vals [] = omega arith
length-extend k vals (c ∷ combos) = grind (
  arith,
  length-append (extend_one k vals c) (extend k vals combos),
  length-extend_one k vals c,
  length-extend k vals combos,
)

-- The product has as many combinations as the axes' lengths multiply to.
pub length-product :
    (dims : Dict (List Json)) (keys : List String) (combos : List Combo)
    → length (product dims keys combos) ≡ length combos * combinations dims keys
unfolding product
length-product dims [] combos = grind arith
length-product dims (k ∷ keys) combos =
    length-product dims keys (extend k (values dims k) combos)
    ∙ grind (
      arith,
      length-extend k (values dims k) combos,
      mul_assoc (length combos) (length (values dims k)) (combinations dims keys),
    )

-- Every value of the combination is one of its axis.
abbrev pub Picks : Dict (List Json) → Combo → Type 0
Picks dims c = (k : String) (v : Json) → lookup k c ≡ some v → Member v (values dims k)

Picks-insert :
    (dims : Dict (List Json)) (k : String) (v : Json) (c : Combo)
    → Picks dims c
    → Member v (values dims k)
    → Picks dims (insert k v c)
Picks-insert dims k v c h m j w found = elim (str_eq-cases k j) [
  | inl here ↦
      subst (λ i. Member w (values dims i)) here
        (subst (λ x. Member x (values dims k)) (some_inj (own here)) m)
  | inr other ↦ h j w (theirs other)
]
  where
    own : k ≡ j → some v ≡ some w
    own here = ground (arith, found, lookup-insert k j v c, eq_iff k j, here)

    theirs : str_eq k j ≡ false → lookup j c ≡ some w
    theirs other = ground (arith, found, lookup-insert k j v c, other)

pub All-append : (P : Combo → Type 0) (xs ys : List Combo) → All P xs → All P ys → All P (xs ++ ys)
All-append P [] ys h k = k
All-append P (x ∷ xs) ys (h, hs) k = (h, All-append P xs ys hs k)

Picks-extend_one :
    (dims : Dict (List Json)) (k : String) (vals : List Json) (c : Combo)
    → Picks dims c
    → ((v : Json) → Member v vals → Member v (values dims k))
    → All (Picks dims) (extend_one k vals c)
unfolding extend_one
Picks-extend_one dims k [] c h m = tt
Picks-extend_one dims k (v ∷ vals) c h m =
    (Picks-insert dims k v c h (m v first), Picks-extend_one dims k vals c h (λ w n. m w (later n)))

Picks-extend :
    (dims : Dict (List Json)) (k : String) (combos : List Combo)
    → All (Picks dims) combos
    → All (Picks dims) (extend k (values dims k) combos)
unfolding extend
Picks-extend dims k [] h = tt
Picks-extend dims k (c ∷ combos) (h, hs) =
    All-append (Picks dims) (extend_one k (values dims k) c) (extend k (values dims k) combos)
      (Picks-extend_one dims k (values dims k) c h (λ v m. m)) (Picks-extend dims k combos hs)

pub Picks-product :
    (dims : Dict (List Json)) (keys : List String) (combos : List Combo)
    → All (Picks dims) combos
    → All (Picks dims) (product dims keys combos)
unfolding product
Picks-product dims [] combos h = h
Picks-product dims (k ∷ keys) combos h =
    Picks-product dims keys (extend k (values dims k) combos) (Picks-extend dims k combos h)
