-- ===== src/Engine/Matrix/Instances.antt =====
-- The instances that ExpandMatrix of api/pkg/engine/matrix.go makes of a stage, and the stages of the
-- expanded pipeline.
use mathlib.Core.Path.{subst}
use helios_ci_cd.Prelude.{
  insert, any, member, ◌≢◌, String, ◌≡◌, refl, Option, none, some, List, [], ◌∷◌, ◌++◌, map, Dict,
}
use helios_ci_cd.Prelude.Json.{Json}
use helios_ci_cd.Dsl.{Stage, Matrix, Pipeline}
use helios_ci_cd.Engine.Matrix.{
  Attempt, ok, error, panic, ◌>>=◌, Combo, MatrixInstance, cartesian, filter_combos, copies,
  expand_dims, expand_with, expand_matrix, expand_stages, expand_pipeline, rewire,
}
use helios_ci_cd.Engine.Matrix.Rewiring.{IsDistinct, leads_to, needs-rewire}
use helios_ci_cd.Engine.Matrix.Copies.{Copies, instances_from-Copies}

-- The instances of a stage: itself where it has no matrix or an empty one; or else a copy for each
-- combination of the axes that no exclude takes away, and then for each of include, one at least.
pub data Instances (s : Stage) : List Stage × List MatrixInstance → Type 0 where
  no_matrix : s.matrix ≡ none → Instances s (s ∷ [], record { index = 0; values = [] } ∷ [])
  empty_matrix :
      (m : Matrix)
      → s.matrix ≡ some m
      → m.dimensions ≡ []
      → m.include ≡ []
      → Instances s (s ∷ [], record { index = 0; values = [] } ∷ [])
  each :
      (m : Matrix) (combos left : List Combo) (ts : List Stage) (infos : List MatrixInstance)
      → s.matrix ≡ some m
      → cartesian m.dimensions ≡ ok combos
      → filter_combos combos m.exclude ≡ ok left
      → left ++ m.include ≢ []
      → Copies s 0 (left ++ m.include) ts infos
      → Instances s (ts, infos)

ok_eq {ℓ} : {A : Type ℓ} {a b : A} → ok a ≡ ok b → a ≡ b
ok_eq h = cc

-- If the attempt gives a value, the value has the property.
abbrev Gives {ℓ κ} : {A : Type ℓ} → (A → Type κ) → Attempt A → Type (ℓ ⊔ κ)
Gives {A = A} P out = (a : A) → out ≡ ok a → P a

bind-ok :
    {A : Type 0} {B : Type 0} (out : Attempt A) (f : A → Attempt B) (b : B)
    → out >>= f ≡ ok b
    → (a : A) × ((out ≡ ok a) × (f a ≡ ok b))
unfolding ◌>>=◌
bind-ok (ok a) f b h = (a, (refl, h))
bind-ok (error e) f b h = cc h
bind-ok panic f b h = cc h

copies-ok :
    (s : Stage) (combos : List Combo) (out : List Stage × List MatrixInstance)
    → copies s combos ≡ ok out
    → (combos ≢ []) × Copies s 0 combos out.0 out.1
unfolding copies
copies-ok s [] out h = cc h
copies-ok s (c ∷ combos) out h = (
  λ none_left. cc none_left,
  subst (λ o. Copies s 0 (c ∷ combos) o.0 o.1) (ok_eq h) (instances_from-Copies s 0 (c ∷ combos)),
)

expand_dims-Instances :
    (s : Stage) (m : Matrix) → s.matrix ≡ some m → Gives (Instances s) (expand_dims s m)
unfolding expand_dims
expand_dims-Instances s m has = λ out h.
    let (combos, (combos_eq, h1)) = bind-ok (cartesian m.dimensions) _ out h in
    let (left, (left_eq, h2)) = bind-ok (filter_combos combos m.exclude) _ out h1 in
    let (some_left, made) = copies-ok s (left ++ m.include) out h2 in
    each m combos left out.0 out.1 has combos_eq left_eq some_left made

expand_with-Instances :
    (s : Stage) (o : Option Matrix) → s.matrix ≡ o → Gives (Instances s) (expand_with s o)
unfolding expand_with
expand_with-Instances s none has = λ a q. subst (Instances s) (ok_eq q) (no_matrix has)
expand_with-Instances s (some m) has = by_dims m.dimensions m.include refl refl
  where
    by_dims :
        (dims : Dict (List Json)) (include : List Combo)
        → m.dimensions ≡ dims
        → m.include ≡ include
        → Gives (Instances s) (elim dims as (λ x. Attempt (List Stage × List MatrixInstance)) [
          | [] ↦ elim include as (λ x. Attempt (List Stage × List MatrixInstance)) [
            | [] ↦ ok (s ∷ [], record { index = 0; values = [] } ∷ [])
            | c ∷ cs ↦ expand_dims s m
          ]
          | d ∷ ds ↦ expand_dims s m
        ])
    by_dims [] [] no_axes no_more_combos =
        λ a q. subst (Instances s) (ok_eq q) (empty_matrix m has no_axes no_more_combos)
    by_dims [] (c ∷ cs) e f = expand_dims-Instances s m has
    by_dims (d ∷ ds) include e f = expand_dims-Instances s m has

-- What ExpandMatrix gives for a stage: the stage itself, where it has no matrix or an empty one; or else a
-- copy of it for each of one or more combinations, first those of cartesian that the filter leaves, then
-- those of include. The copies are numbered from 0 and differ from the stage in their id, their matrix
-- (one value on each axis) and two parameters alone.
pub expand_matrix-Instances :
    (s : Stage) (out : List Stage × List MatrixInstance)
    → expand_matrix (some s) ≡ ok out
    → Instances s out
unfolding expand_matrix
expand_matrix-Instances s out h = expand_with-Instances s s.matrix refl out h

-- The instances of each stage in turn, with the table of their ids: before, and after.
pub data Groups : Dict (List String) → List Stage → List Stage → Dict (List String) → Type 0 where
  none_left : {table : Dict (List String)} → Groups table [] [] table
  group :
      {table after : Dict (List String)} {s : Stage} {stages rest : List Stage}
      (out : List Stage × List MatrixInstance)
      → Instances s out
      → Groups (insert s.id (map (λ t. t.id) out.0) table) stages rest after
      → Groups table (s ∷ stages) (out.0 ++ rest) after

expand_stages-Groups :
    (stages : List Stage) (table : Dict (List String)) (out : List Stage × Dict (List String))
    → expand_stages stages table ≡ ok out
    → Groups table stages out.0 out.1
unfolding expand_stages
expand_stages-Groups [] table out h = subst (λ o. Groups table [] o.0 o.1) (ok_eq h) none_left
expand_stages-Groups (s ∷ stages) table out h =
    let (made, (made_eq, after)) = bind-ok (expand_matrix (some s)) _ out h in
    let (rest, (rest_eq, last)) = bind-ok (expand_stages stages _) _ out after in
    subst (λ o. Groups table (s ∷ stages) o.0 o.1) (ok_eq last)
      (group made (expand_matrix-Instances s made made_eq)
        (expand_stages-Groups stages _ rest rest_eq))

-- A stage with its needs replaced by what they stand for, none twice, and all else as it was.
pub record IsRewired (table : Dict (List String)) (s t : Stage) : Type 0 where
  pub distinct : IsDistinct t.needs
  pub needed : (e : String) → member e t.needs ≡ any (leads_to table e) s.needs
  pub same_rest : t ≡ record s { needs = t.needs }

pub data AllRewired (table : Dict (List String)) : List Stage → List Stage → Type 0 where
  no_stages : AllRewired table [] []
  rewired :
      {s t : Stage} {ss ts : List Stage}
      → IsRewired table s t
      → AllRewired table ss ts
      → AllRewired table (s ∷ ss) (t ∷ ts)

map-AllRewired :
    (table : Dict (List String)) (stages : List Stage)
    → AllRewired table stages (map (rewire table) stages)
map-AllRewired table [] = no_stages
map-AllRewired table (s ∷ stages) =
    let (distinct, needed, same_rest) = needs-rewire table s in
    rewired (record { distinct = distinct; needed = needed; same_rest = same_rest })
      (map-AllRewired table stages)

-- The expanded pipeline has the instances of each stage in turn, and differs in its stages alone. Each
-- instance needs exactly the instances of the stages that its stage needed, and the names that no
-- stage has; it needs none twice, and nothing else of it is changed.
pub expand_pipeline-Groups :
    (p q : Pipeline)
    → expand_pipeline (some p) ≡ ok q
    → (made : List Stage) × ((table : Dict (List String)) × Groups [] p.stages made table
        × AllRewired table made q.stages
        × (q ≡ record p { stages = q.stages }))
unfolding expand_pipeline
expand_pipeline-Groups p q h =
    let (out, (out_eq, last)) = bind-ok (expand_stages p.stages []) _ q h in
    subst
      (λ r.
        (made : List Stage) × ((table : Dict (List String)) × Groups [] p.stages made table
          × AllRewired table made r.stages
          × (r ≡ record p { stages = r.stages })))
      (ok_eq last)
      (
        out.0,
        (out.1, expand_stages-Groups p.stages [] out out_eq, map-AllRewired out.1 out.0, refl),
      )
