-- ===== src/Engine/Matrix.antt =====
-- api/pkg/engine/matrix.go: the expansion of a stage with a matrix, and of a pipeline. A YAML value
-- is a Json; a float is not modelled. The order in which Go visits a map is that of the list.
pub mod Axes
pub mod Products
pub mod Rewiring
pub mod Copies
pub mod Instances
mod Examples
use Prim.Native.String.{◌++◌ as ◌<>◌}
use helios_ci_cd.Prelude.{
  ℕ, suc, String, Bool, true, false, not, ◌&&◌, Option, none, some, List, [], ◌∷◌, ◌++◌, map,
  str_eq, if◌then◌else◌, Dict, lookup, insert, has_key,
}
use helios_ci_cd.Prelude.Json.{pos, Json, null, bool, num, text, arr, obj, Fields, end, field}
use helios_ci_cd.Prelude.Texts.{itoa, sort_texts, is_internal, sprint}
use helios_ci_cd.Dsl.{Stage, Matrix, Pipeline}

pub data MatrixError : Type 0 where
  nil_stage nil_pipeline no_combos : MatrixError
  empty_dimension : String → MatrixError

-- A result, an error, or a panic of the runtime.
pub data Attempt {ℓ} (A : Type ℓ) : Type ℓ where
  ok : A → Attempt A
  error : MatrixError → Attempt A
  panic : Attempt A

infixl 20 ◌>>=◌
unfoldable pub ◌>>=◌ {ℓ κ} : {A : Type ℓ} {B : Type κ} → Attempt A → (A → Attempt B) → Attempt B
ok a >>= f = f a
error e >>= f = error e
panic >>= f = panic

abbrev pub Combo : Type 0
Combo = Dict Json

pub record MatrixInstance : Type 0 where
  pub index : ℕ
  pub values : Combo

-- The first loop of cartesian: the axes, without the internal ones, or the name of an empty one.
unfoldable pub axis_keys : Dict (List Json) → Attempt (List String)
axis_keys [] = ok []
axis_keys ((k, vals) ∷ dims) =
    let later = axis_keys dims in
    if is_internal k
    then later
    else elim vals [ [] ↦ error (empty_dimension k) | v ∷ vs ↦ later >>= (λ keys. ok (k ∷ keys)) ]

-- dims[k]
unfoldable pub values_of : Option (List Json) → List Json
values_of none = []
values_of (some vals) = vals

-- The combinations so far, each with every value of one more axis.
unfoldable pub extend_one : String → List Json → Combo → List Combo
extend_one k [] c = []
extend_one k (v ∷ vals) c = insert k v c ∷ extend_one k vals c

unfoldable pub extend : String → List Json → List Combo → List Combo
extend k vals [] = []
extend k vals (c ∷ combos) = extend_one k vals c ++ extend k vals combos

unfoldable pub product : Dict (List Json) → List String → List Combo → List Combo
product dims [] combos = combos
product dims (k ∷ keys) combos = product dims keys (extend k (values_of (lookup k dims)) combos)

-- cartesian
unfoldable pub cartesian : Dict (List Json) → Attempt (List Combo)
cartesian [] = ok []
cartesian (d ∷ dims) =
    axis_keys (d ∷ dims) >>= (λ keys. ok (product (d ∷ dims) (sort_texts keys) ([] ∷ [])))

-- a == b on interface values: two lists, or two maps, panic.
unfoldable pub same_value : Json → Json → Attempt Bool
same_value (arr xs) (arr ys) = panic
same_value (obj xs) (obj ys) = panic
same_value null null = ok true
same_value (bool true) (bool b) = ok b
same_value (bool false) (bool b) = ok (not b)
same_value (num m) (num n) = ok (str_eq (sprint (num m)) (sprint (num n)))
same_value (text s) (text t) = ok (str_eq s t)
same_value _ _ = ok false

-- valEq
unfoldable pub val_eq : Json → Json → Attempt Bool
val_eq a b = same_value a b >>= (λ same. ok (if same then true else str_eq (sprint a) (sprint b)))

-- The loop of subsetEq.
unfoldable pub holds_all : Combo → Combo → Attempt Bool
holds_all [] full = ok true
holds_all ((k, v) ∷ sub) full =
    let later = holds_all sub full in
    elim (lookup k full) [
      | none ↦ ok false
      | some fv ↦ val_eq fv v >>= (λ same. if same then later else ok false)
    ]

-- subsetEq: an empty subset matches nothing.
unfoldable pub subset_eq : Combo → Combo → Attempt Bool
subset_eq [] full = ok false
subset_eq (e ∷ sub) full = holds_all (e ∷ sub) full

-- matchesAnyExclude
unfoldable pub matches_any_exclude : Combo → List Combo → Attempt Bool
matches_any_exclude c [] = ok false
matches_any_exclude c (ex ∷ excludes) =
    let later = matches_any_exclude c excludes in
    subset_eq ex c >>= (λ hit. if hit then ok true else later)

unfoldable pub filter_combos : List Combo → List Combo → Attempt (List Combo)
filter_combos [] excludes = ok []
filter_combos (c ∷ combos) excludes =
    let later = filter_combos combos excludes in
    matches_any_exclude c excludes
    >>= (λ hit. later >>= (λ rest. ok (if hit then rest else c ∷ rest)))

-- pinSingleValue
unfoldable pub pin_single_value : Combo → Dict (List Json)
pin_single_value c = map (λ e. (e.0, e.1 ∷ [])) c

unfoldable pub fields_of : Combo → Fields
fields_of [] = end
fields_of ((k, v) ∷ c) = field k v (fields_of c)

-- matrixSuffix
unfoldable pub matrix_suffix : String → ℕ → String
matrix_suffix id i = id <> ("-" <> itoa i)

-- The copy of the stage for one combination.
unfoldable pub instance_of : Stage → ℕ → Combo → Stage
instance_of s i c = record s {
  id = matrix_suffix s.id i;
  matrix = some (record { dimensions = pin_single_value c; include = []; exclude = [] });
  with =
      insert "__matrix_values" (obj (fields_of c)) (insert "__matrix_index" (num (pos i)) s.with);
}

unfoldable pub instances_from : Stage → ℕ → List Combo → List Stage
instances_from s i [] = []
instances_from s i (c ∷ combos) = instance_of s i c ∷ instances_from s (suc i) combos

unfoldable pub infos_from : ℕ → List Combo → List MatrixInstance
infos_from i [] = []
infos_from i (c ∷ combos) = record { index = i; values = c } ∷ infos_from (suc i) combos

-- The end of ExpandMatrix, with the combinations that are left.
unfoldable pub copies : Stage → List Combo → Attempt (List Stage × List MatrixInstance)
copies s [] = error no_combos
copies s (c ∷ combos) = ok (instances_from s 0 (c ∷ combos), infos_from 0 (c ∷ combos))

unfoldable pub expand_dims : Stage → Matrix → Attempt (List Stage × List MatrixInstance)
expand_dims s m =
    cartesian m.dimensions
    >>= (λ combos. filter_combos combos m.exclude >>= (λ left. copies s (left ++ m.include)))

-- A stage without a matrix is its own only instance.
abbrev pub alone : Stage → Attempt (List Stage × List MatrixInstance)
alone s = ok (s ∷ [], record { index = 0; values = [] } ∷ [])

unfoldable pub expand_with : Stage → Option Matrix → Attempt (List Stage × List MatrixInstance)
expand_with s none = alone s
expand_with s (some m) = elim m.dimensions [
  | [] ↦ elim m.include [ [] ↦ alone s | c ∷ cs ↦ expand_dims s m ]
  | d ∷ ds ↦ expand_dims s m
]

-- ExpandMatrix
unfoldable pub expand_matrix : Option Stage → Attempt (List Stage × List MatrixInstance)
expand_matrix none = error nil_stage
expand_matrix (some s) = expand_with s s.matrix

-- The first loop of ExpandPipeline: all instances, and the instances' ids by the stage's id.
unfoldable pub expand_stages :
    List Stage → Dict (List String) → Attempt (List Stage × Dict (List String))
expand_stages [] expansion = ok ([], expansion)
expand_stages (s ∷ stages) expansion = expand_matrix (some s) >>= (λ out.
    expand_stages stages (insert s.id (map (λ i. i.id) out.0) expansion)
    >>= (λ rest. ok (out.0 ++ rest.0, rest.1)))

-- The needs gathered so far, and the set `seen`.
unfoldable pub add_need : String → List String × Dict Bool → List String × Dict Bool
add_need e (needs, seen) =
    if has_key e seen then (needs, seen) else (needs ++ e ∷ [], insert e true seen)

unfoldable pub add_needs : List String → List String × Dict Bool → List String × Dict Bool
add_needs [] gathered = gathered
add_needs (e ∷ es) gathered = add_needs es (add_need e gathered)

-- expansion[dep], or the name itself where no stage has it.
unfoldable pub targets : String → Option (List String) → List String
targets dep none = dep ∷ []
targets dep (some ids) = ids

unfoldable pub gather :
    Dict (List String) → List String → List String × Dict Bool → List String × Dict Bool
gather expansion [] gathered = gathered
gather expansion (dep ∷ deps) gathered =
    gather expansion deps (add_needs (targets dep (lookup dep expansion)) gathered)

-- The second loop, on one stage.
unfoldable pub rewire : Dict (List String) → Stage → Stage
rewire expansion s = record s { needs = (gather expansion s.needs ([], [])).0 }

-- ExpandPipeline
unfoldable pub expand_pipeline : Option Pipeline → Attempt Pipeline
expand_pipeline none = error nil_pipeline
expand_pipeline (some p) =
    expand_stages p.stages [] >>= (λ out. ok (record p { stages = map (rewire out.1) out.0 }))
