-- ===== src/Engine/Matrix/Copies.antt =====
-- The copies of a stage for combinations, as ExpandMatrix of api/pkg/engine/matrix.go makes them.
use Prim.Native.String.{◌++◌ as ◌<>◌}
use helios_ci_cd.Prelude.{
  ℕ, suc, lookup-insert, lookup, insert, str_eq-false_of_ne, ◌≢◌, ◌∙◌, String, ◌≡◌, refl, sym, some,
  List, [], ◌∷◌, map,
}
use helios_ci_cd.Prelude.Json.{Json, num, pos, obj, Fields, end, field}
use helios_ci_cd.Prelude.Texts.{itoa}
use helios_ci_cd.Dsl.{Stage}
use helios_ci_cd.Engine.Matrix.{
  Combo, MatrixInstance, instances_from, infos_from, instance_of, matrix_suffix, pin_single_value,
  fields_of,
}

-- The combination as an object.
pub data AreFields : Combo → Fields → Type 0 where
  no_field : AreFields [] end
  one_field :
      {k : String} {v : Json} {c : Combo} {fs : Fields}
      → AreFields c fs
      → AreFields ((k, v) ∷ c) (field k v fs)

fields_of-AreFields : (c : Combo) → AreFields c (fields_of c)
unfolding fields_of
fields_of-AreFields [] = no_field
fields_of-AreFields ((k, v) ∷ c) = one_field (fields_of-AreFields c)

-- The copy of a stage for a combination: the id with the number, the combination as a matrix of single
-- values, and two parameters more; all else is the stage's.
pub record IsCopy (s : Stage) (i : ℕ) (c : Combo) (t : Stage) : Type 0 where
  pub named : t.id ≡ s.id <> ("-" <> itoa i)
  pub pinned :
      t.matrix
      ≡ some (record { dimensions = map (λ e. (e.0, e.1 ∷ [])) c; include = []; exclude = [] })
  pub numbered : lookup "__matrix_index" t.with ≡ some (num (pos i))
  pub fields : Fields
  pub valued : lookup "__matrix_values" t.with ≡ some (obj fields)
  pub same_fields : AreFields c fields
  pub same_parameters :
      (k : String)
      → k ≢ "__matrix_index"
      → k ≢ "__matrix_values"
      → lookup k t.with ≡ lookup k s.with
  pub same_rest : t ≡ record s { id = t.id; matrix = t.matrix; with = t.with }

-- A copy for each combination, numbered from i on, with its entry.
pub data Copies (s : Stage) : ℕ → List Combo → List Stage → List MatrixInstance → Type 0 where
  no_more : {i : ℕ} → Copies s i [] [] []
  copy :
      {i : ℕ} {c : Combo} {cs : List Combo} {t : Stage} {ts : List Stage}
      {infos : List MatrixInstance}
      → IsCopy s i c t
      → Copies s (suc i) cs ts infos
      → Copies s i (c ∷ cs) (t ∷ ts) (record { index = i; values = c } ∷ infos)

instance_of-IsCopy : (s : Stage) (i : ℕ) (c : Combo) → IsCopy s i c (instance_of s i c)
unfolding instance_of matrix_suffix pin_single_value
instance_of-IsCopy s i c = record {
  named = refl;
  pinned = refl;
  numbered =
      lookup-insert "__matrix_values" "__matrix_index" _ _
      ∙ lookup-insert "__matrix_index" "__matrix_index" _ s.with;
  fields = fields_of c;
  valued = lookup-insert "__matrix_values" "__matrix_values" _ _;
  same_fields = fields_of-AreFields c;
  same_parameters = λ k no_index no_values.
      rw
        (
          lookup-insert "__matrix_values" k (obj (fields_of c))
              (insert "__matrix_index" (num (pos i)) s.with),
          str_eq-false_of_ne "__matrix_values" k (λ e. no_values (sym e)),
          lookup-insert "__matrix_index" k (num (pos i)) s.with,
          str_eq-false_of_ne "__matrix_index" k (λ e. no_index (sym e)),
        )
        refl;
  same_rest = refl;
}

pub instances_from-Copies :
    (s : Stage) (i : ℕ) (cs : List Combo) → Copies s i cs (instances_from s i cs) (infos_from i cs)
unfolding instances_from infos_from
instances_from-Copies s i [] = no_more
instances_from-Copies s i (c ∷ cs) =
    copy (instance_of-IsCopy s i c) (instances_from-Copies s (suc i) cs)
