-- ===== src/Engine/Cycles/Paths.antt =====
-- Paths along the edges of the graph, and the loop that DetectCycles of api/pkg/engine/dag.go reads off
-- its stack.
use mathlib.Core.Path.{subst}
use helios_ci_cd.Prelude.{
  ◌≤◌, String, true, ◌||◌, ◌≡◌, ◌≢◌, refl, ◌∙◌, ap, inl, inr, Option, none, some, List, [], ◌∷◌,
  ◌++◌, arith, member, str_eq, eq_iff, some_inj, Bool-cases, Option-cases, str_eq-cases, length,
}
use helios_ci_cd.Prelude.Texts.{sort_texts, insert_text, text_le}
use helios_ci_cd.Engine.Dag.{Dag}
use helios_ci_cd.Engine.Cycles.{nexts_of, reverse_onto, down_to}

module _ (d : Dag) where
  abbrev pub Edge : String → String → Type 0
  Edge x y = member y (nexts_of d x) ≡ true

  -- From x along edges through the list, in order.
  abbrev pub ChainFrom : String → List String → Type 0
  ChainFrom x [] = Unit
  ChainFrom x (y ∷ ys) = Edge x y × ChainFrom y ys

  -- Along edges up to x, whose predecessors the list holds, the last one first.
  abbrev pub BackFrom : String → List String → Type 0
  BackFrom x [] = Unit
  BackFrom x (y ∷ ys) = Edge y x × BackFrom y ys

  abbrev pub IsBack : List String → Type 0
  IsBack [] = Unit
  IsBack (x ∷ xs) = BackFrom x xs

abbrev pub last_from : String → List String → String
last_from x [] = x
last_from x (y ∷ ys) = last_from y ys

-- A path along one or more edges that ends where it begins.
pub record IsCycle (d : Dag) (path : List String) : Type 0 where
  pub start : String
  pub rest : List String
  pub written : path ≡ start ∷ rest
  pub some_edge : rest ≢ []
  pub chain : ChainFrom d start rest
  pub closed : last_from start rest ≡ start

member-insert_text :
    (e y : String) (ys : List String) → member e (insert_text y ys) ≡ (str_eq y e || member e ys)
unfolding insert_text
member-insert_text e y [] = refl
member-insert_text e y (z ∷ zs) = elim (Bool-cases (text_le y z)) [
  | inl le ↦ rw le refl
  | inr gt ↦ rw gt (ground (arith, member-insert_text e y zs))
]

pub member-sort_texts : (e : String) (xs : List String) → member e (sort_texts xs) ≡ member e xs
unfolding sort_texts
member-sort_texts e [] = refl
member-sort_texts e (x ∷ xs) =
    member-insert_text e x (sort_texts xs) ∙ ap (λ b. str_eq x e || b) (member-sort_texts e xs)

pub reverse_onto-append :
    (xs ys zs : List String) → reverse_onto xs ys ++ zs ≡ reverse_onto xs (ys ++ zs)
unfolding reverse_onto
reverse_onto-append [] ys zs = refl
reverse_onto-append (x ∷ xs) ys zs = reverse_onto-append xs (x ∷ ys) zs

-- What is on the stack is found on it.
pub down_to-member : (id : String) (xs : List String) → member id xs ≡ true → down_to id xs ≢ none
unfolding down_to
down_to-member id [] h = λ e. cc h
down_to-member id (x ∷ xs) h = elim (Bool-cases (str_eq x id)) [
  | inl e ↦ λ f. cc (rw e at f)
  | inr e ↦ λ f. down_to-member id xs (rw e at h) (deeper_none (rw e at f))
]
  where
    deeper_none :
        (elim (down_to id xs) as (λ o. Option (List String)) [
          | none ↦ none
          | some ys ↦ some (x ∷ ys)
        ])
          ≡ none
        → down_to id xs ≡ none
    deeper_none f = elim (Option-cases (down_to id xs)) [ inl n ↦ n | inr (ys, g) ↦ cc (rw g at f) ]

-- What `loop_of` reads off a stack with the top x, put in front of a path from x.
pub record Looped (d : Dag) (id x : String) (acc ys : List String) : Type 0 where
  pub tail : List String
  pub reads : reverse_onto ys acc ≡ id ∷ tail
  pub along : ChainFrom d id tail
  pub same_end : last_from id tail ≡ last_from x acc
  pub longer : length acc ≤ length tail

top-Looped :
    (d : Dag) (x : String) (acc : List String) → ChainFrom d x acc → Looped d x x acc (x ∷ [])
unfolding reverse_onto
top-Looped d x acc chain = record {
  tail = acc;
  reads = refl;
  along = chain;
  same_end = refl;
  longer = omega arith;
}

deeper-Looped :
    (d : Dag) (id x y : String) (acc ws : List String)
    → Looped d id y (x ∷ acc) ws
    → Looped d id x acc (x ∷ ws)
unfolding reverse_onto
deeper-Looped d id x y acc ws h = record {
  tail = h.tail;
  reads = h.reads;
  along = h.along;
  same_end = h.same_end;
  longer = omega (arith, h.longer);
}

found_at_top :
    (d : Dag) (id x : String) (xs acc ys : List String)
    → ChainFrom d x acc
    → x ≡ id
    → down_to id (x ∷ xs) ≡ some ys
    → Looped d id x acc ys
unfolding down_to
found_at_top d id x xs acc ys chain e h =
    subst (Looped d id x acc) (some_inj (rw ((eq_iff x id).1 e) at h))
      (subst (λ i. Looped d i x acc (x ∷ [])) e (top-Looped d x acc chain))

pub down_to-Looped :
    (d : Dag) (id : String) (xs : List String) (x : String) (acc ys : List String)
    → BackFrom d x xs
    → ChainFrom d x acc
    → down_to id (x ∷ xs) ≡ some ys
    → Looped d id x acc ys
unfolding down_to
down_to-Looped d id [] x acc ys back chain h = elim (str_eq-cases x id) [
  | inl e ↦ found_at_top d id x [] acc ys chain e h
  | inr e ↦ cc (rw e at h)
]
down_to-Looped d id (y ∷ zs) x acc ys back chain h = elim (str_eq-cases x id) [
  | inl e ↦ found_at_top d id x (y ∷ zs) acc ys chain e h
  | inr e ↦ elim (Option-cases (down_to id (y ∷ zs))) [
    | inl n ↦ cc (rw (e, n) at h)
    | inr (ws, g) ↦ subst (Looped d id x acc) (some_inj (rw (e, g) at h)) (
        deeper-Looped d id x y acc ws
          (down_to-Looped d id zs y (x ∷ acc) ws back.1 (back.0, chain) g))
  ]
]
