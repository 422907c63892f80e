-- ===== src/Engine/Matrix/Rewiring.antt =====
-- The needs of a stage after ExpandPipeline of api/pkg/engine/matrix.go.
use helios_ci_cd.Prelude.{
  String, Bool, true, false, ◌||◌, ◌≡◌, refl, sym, inl, inr, ◌∙◌, List, [], ◌∷◌, ◌++◌, arith, any,
  member, str_eq, eq_iff, Bool-cases, Option, none, some, Dict, lookup, insert, has_key,
}
use helios_ci_cd.Dsl.{Stage}
use helios_ci_cd.Engine.Matrix.{add_need, add_needs, targets, gather, rewire}

-- No name stands twice in the list.
abbrev pub IsDistinct : List String → Type 0
IsDistinct [] = Unit
IsDistinct (x ∷ xs) = (member x xs ≡ false) × IsDistinct xs

member_snoc :
    (e : String) (xs : List String) (y : String)
    → member e (xs ++ y ∷ []) ≡ (member e xs || str_eq y e)
member_snoc e [] y = ground arith
member_snoc e (x ∷ xs) y = ground (arith, member_snoc e xs y)

IsDistinct-snoc :
    (xs : List String) (y : String)
    → IsDistinct xs
    → member y xs ≡ false
    → IsDistinct (xs ++ y ∷ [])
IsDistinct-snoc [] y d new = (refl, tt)
IsDistinct-snoc (x ∷ xs) y (h, d) new = (
  ground (arith, member_snoc x xs y, eq_iff y x, eq_iff x y),
  IsDistinct-snoc xs y d (ground arith),
)

pub has_key-insert :
    {V : Type 0} (k e : String) (v : V) (m : Dict V)
    → has_key e (insert k v m) ≡ (str_eq k e || has_key e m)
unfolding has_key insert
has_key-insert k e v [] = ground arith
has_key-insert k e v (entry ∷ m) =
    let rest = has_key-insert k e v m in
    ground (arith, rest, eq_iff entry.0 k, eq_iff entry.0 e, eq_iff k e)

-- The set is that of the needs gathered, each of which stands there once.
pub record IsGathered (g : List String × Dict Bool) : Type 0 where
  pub agree : (e : String) → has_key e g.1 ≡ member e g.0
  pub distinct : IsDistinct g.0

add_need-member :
    (x e : String) (g : List String × Dict Bool)
    → IsGathered g
    → member e (add_need x g).0 ≡ (member e g.0 || str_eq x e)
unfolding add_need
add_need-member x e (needs, seen) h = elim (Bool-cases (has_key x seen)) [
  | inl k ↦ rw k (ground (arith, k, h.agree x, eq_iff x e))
  | inr k ↦ rw k (member_snoc e needs x)
]

add_need-IsGathered :
    (x : String) (g : List String × Dict Bool) → IsGathered g → IsGathered (add_need x g)
unfolding add_need
add_need-IsGathered x (needs, seen) h = elim (Bool-cases (has_key x seen)) [
  | inl k ↦ rw k h
  | inr k ↦ rw k (record {
    agree = λ e. ground (arith, has_key-insert x e true seen, member_snoc e needs x, h.agree e);
    distinct = IsDistinct-snoc needs x h.distinct (sym (h.agree x) ∙ k);
  })
]

add_needs_lem :
    (xs : List String) (g : List String × Dict Bool)
    → IsGathered g
    → IsGathered (add_needs xs g)
      × ((e : String) → member e (add_needs xs g).0 ≡ (member e g.0 || member e xs))
unfolding add_needs
add_needs_lem [] g h = (h, λ e. ground arith)
add_needs_lem (x ∷ xs) g h =
    let rest = add_needs_lem xs (add_need x g) (add_need-IsGathered x g h) in
    (rest.0, λ e. ground (arith, rest.1 e, add_need-member x e g h))

-- Is `e` among the ids of the instances, or, where there are none, the name itself?
abbrev pub stands_for : String → String → Option (List String) → Bool
stands_for e dep none = str_eq dep e
stands_for e dep (some ids) = member e ids

-- Does the dependency stand for the stage `e`?
abbrev pub leads_to : Dict (List String) → String → String → Bool
leads_to expansion e dep = stands_for e dep (lookup dep expansion)

targets-member :
    (e dep : String) (o : Option (List String)) → member e (targets dep o) ≡ stands_for e dep o
unfolding targets
targets-member e dep none = ground arith
targets-member e dep (some ids) = refl

gather_lem :
    (expansion : Dict (List String)) (deps : List String) (g : List String × Dict Bool)
    → IsGathered g
    → IsGathered (gather expansion deps g)
      × ((e : String)
          → member e (gather expansion deps g).0
            ≡ (member e g.0 || any (leads_to expansion e) deps))
unfolding gather
gather_lem expansion [] g h = (h, λ e. ground arith)
gather_lem expansion (dep ∷ deps) g h =
    let names = targets dep (lookup dep expansion) in
    let first = add_needs_lem names g h in
    let rest = gather_lem expansion deps (add_needs names g) first.0 in
    (rest.0, λ e. ground (arith, rest.1 e, first.1 e, targets-member e dep (lookup dep expansion)))

-- A rewired stage needs exactly the ids that the table has for the names it needed, and the names that
-- the table has not; it needs none of them twice; and nothing else of it is changed.
pub needs-rewire :
    (expansion : Dict (List String)) (s : Stage)
    → IsDistinct (rewire expansion s).needs
      × ((e : String) → member e (rewire expansion s).needs ≡ any (leads_to expansion e) s.needs)
      × (rewire expansion s ≡ record s { needs = (rewire expansion s).needs })
unfolding rewire has_key
needs-rewire expansion s =
    let all = gather_lem expansion s.needs ([], []) (record { agree = λ e. refl; distinct = tt }) in
    (all.0.distinct, all.1, refl)
