-- ===== src/Engine/Cycles/Soundness.antt =====
-- DetectCycles of api/pkg/engine/dag.go reports cycles of the graph alone.
use mathlib.Core.Path.{subst}
use helios_ci_cd.Prelude.{
  ℕ, zero, suc, ◌≤◌, String, Bool, true, false, ◌≡◌, ◌≢◌, refl, sym, ◌∙◌, ap, inl, inr, some, List,
  [], ◌∷◌, ◌++◌, arith, All, member, length, str_eq, eq_refl, Bool-cases, Option-cases,
  if◌then◌else◌, lookup, insert, lookup-insert,
}
use helios_ci_cd.Prelude.Texts.{sort_texts}
use helios_ci_cd.Engine.Dag.{Dag}
use helios_ci_cd.Engine.Cycles.{
  Color, white, gray, black, Search, color_of, nexts_of, reverse_onto, down_to, loop_from, loop_of,
  report, meet, meet_all, enter, leave, pop, dfs, search_from, detect_cycles,
}
use helios_ci_cd.Engine.Cycles.Paths.{
  Edge, BackFrom, IsBack, IsCycle, member-sort_texts, reverse_onto-append, down_to-member,
  down_to-Looped,
}

-- The stack is a path to its top, the gray nodes are on it, and what was reported are cycles.
pub record IsGood (d : Dag) (st : Search) : Type 0 where
  pub back : IsBack d st.stack
  pub grays : (x : String) → color_of st x ≡ gray → member x st.stack ≡ true
  pub sound : All (IsCycle d) st.cycles

All-snoc :
    (d : Dag) (xs : List (List String)) (y : List String)
    → All (IsCycle d) xs
    → IsCycle d y
    → All (IsCycle d) (xs ++ y ∷ [])
All-snoc d [] y h p = (p, tt)
All-snoc d (x ∷ xs) y (h, hs) p = (h, All-snoc d xs y hs p)

pub members_All :
    (P : String → Type 0) (xs : List String) → ((e : String) → member e xs ≡ true → P e) → All P xs
members_All P [] f = tt
members_All P (x ∷ xs) f =
    (f x (ground (arith, eq_refl x)), members_All P xs (λ e m. f e (ground (arith, m))))

no_gray :
    (x : String) → color_of (record { color = []; stack = []; cycles = []; reported = [] }) x ≢ gray
unfolding lookup
no_gray x g = cc g

module _ (d : Dag) where
  IsBack-tail : (x : String) (xs : List String) → IsBack d (x ∷ xs) → IsBack d xs
  IsBack-tail x [] h = tt
  IsBack-tail x (y ∷ ys) h = h.1

  loop-IsCycle :
      (nxt top : String) (rest ys : List String)
      → BackFrom d top rest
      → Edge d top nxt
      → down_to nxt (top ∷ rest) ≡ some ys
      → IsCycle d (reverse_onto ys [] ++ nxt ∷ [])
  loop-IsCycle nxt top rest ys back edge h =
      let loop = down_to-Looped d nxt rest top (nxt ∷ []) ys back (edge, tt) h in
      record {
        start = nxt;
        rest = loop.tail;
        written = reverse_onto-append ys [] (nxt ∷ []) ∙ loop.reads;
        some_edge = λ e. too_short (subst (λ l. 1 ≤ length l) e loop.longer);
        chain = loop.along;
        closed = loop.same_end;
      }
    where
      too_short : 1 ≤ 0 → ⊥
      too_short h = omega (arith, h)

  loop_of-IsCycle :
      (nxt top : String) (rest : List String)
      → BackFrom d top rest
      → Edge d top nxt
      → member nxt (top ∷ rest) ≡ true
      → IsCycle d (loop_of nxt (top ∷ rest) ++ nxt ∷ [])
  unfolding loop_of loop_from
  loop_of-IsCycle nxt top rest back edge m = elim (Option-cases (down_to nxt (top ∷ rest))) [
    | inl n ↦ absurd (down_to-member nxt (top ∷ rest) m n)
    | inr (ys, f) ↦
        subst (λ o. IsCycle d (loop_from (top ∷ rest) o ++ nxt ∷ [])) (sym f)
          (loop-IsCycle nxt top rest ys back edge f)
  ]

  -- A good state with the stack as it was.
  abbrev Kept : Search → Search → Type 0
  Kept st st' = IsGood d st' × (st'.stack ≡ st.stack)

  if-Kept : (b : Bool) (st x y : Search) → Kept st x → Kept st y → Kept st (if b then x else y)
  if-Kept true st x y h k = h
  if-Kept false st x y h k = k

  report-Kept :
      (st : Search) (nxt top : String) (rest : List String)
      → st.stack ≡ top ∷ rest
      → Edge d top nxt
      → color_of st nxt ≡ gray
      → IsGood d st
      → Kept st (report nxt st)
  unfolding report
  report-Kept st nxt top rest s edge g h =
      if-Kept _ st st _ (h, refl)
        (
          record {
            back = h.back;
            grays = h.grays;
            sound = All-snoc d st.cycles _ h.sound (
                subst (λ l. IsCycle d (loop_of nxt l ++ nxt ∷ [])) (sym s)
                  (loop_of-IsCycle nxt top rest (subst (IsBack d) s h.back) edge
                    (subst (λ l. member nxt l ≡ true) s (h.grays nxt g))));
          },
          refl,
        )

  -- What a search from a node keeps.
  abbrev Searches : (Search → String → Search) → Type 0
  Searches go =
      (st : Search) (id : String) → IsGood d st → IsBack d (id ∷ st.stack) → Kept st (go st id)

  meet-Kept :
      (go : Search → String → Search) (st : Search) (nxt top : String) (rest : List String)
      → Searches go
      → st.stack ≡ top ∷ rest
      → Edge d top nxt
      → IsGood d st
      → Kept st (meet go st nxt)
  unfolding meet
  meet-Kept go st nxt top rest k s edge h = by_color (color_of st nxt) refl
    where
      by_color :
          (c : Color)
          → color_of st nxt ≡ c
          → Kept st
              (elim c as (λ x. Search) [ gray ↦ report nxt st | white ↦ go st nxt | black ↦ st ])
      by_color white e =
          k st nxt h (subst (λ l. IsBack d (nxt ∷ l)) (sym s) (edge, subst (IsBack d) s h.back))
      by_color gray e = report-Kept st nxt top rest s edge e h
      by_color black e = (h, refl)

  meet_all-Kept :
      (go : Search → String → Search) (top : String) (rest nexts : List String) (st : Search)
      → Searches go
      → st.stack ≡ top ∷ rest
      → All (Edge d top) nexts
      → IsGood d st
      → Kept st (meet_all go st nexts)
  unfolding meet_all
  meet_all-Kept go top rest [] st k s edges h = (h, refl)
  meet_all-Kept go top rest (nxt ∷ nexts) st k s (edge, edges) h =
      let one = meet-Kept go st nxt top rest k s edge h in
      let more = meet_all-Kept go top rest nexts (meet go st nxt) k (one.1 ∙ s) edges one.0 in
      (more.0, more.1 ∙ one.1)

  enter-IsGood :
      (st : Search) (id : String) → IsGood d st → IsBack d (id ∷ st.stack) → IsGood d (enter id st)
  unfolding enter
  enter-IsGood st id h back = record {
    back = back;
    grays = λ x g. elim (Bool-cases (str_eq id x)) [
      | inl e ↦ rw e refl
      | inr e ↦ rw e (h.grays x (same_color x e ∙ g))
    ];
    sound = h.sound;
  }
    where
      same_color :
          (x : String)
          → str_eq id x ≡ false
          → color_of st x
            ≡ color_of (record st { color = insert id gray st.color; stack = id ∷ st.stack }) x
      same_color x e = ground (arith, lookup-insert id x gray st.color)

  leave-Kept :
      (old st : Search) (id : String)
      → IsGood d st
      → st.stack ≡ id ∷ old.stack
      → Kept old (leave id st)
  unfolding leave pop
  leave-Kept old st id h s = (
    record {
      back =
          subst (λ l. IsBack d (pop l)) (sym s)
            (IsBack-tail id old.stack (subst (IsBack d) s h.back));
      grays = λ x g. subst (λ l. member x (pop l) ≡ true) (sym s) (still x g);
      sound = h.sound;
    },
    ap pop s,
  )
    where
      on_stack : (x : String) → color_of st x ≡ gray → member x (id ∷ old.stack) ≡ true
      on_stack x g = subst (λ l. member x l ≡ true) s (h.grays x g)

      before :
          (x : String)
          → str_eq id x ≡ false
          → color_of (record st { color = insert id black st.color; stack = pop st.stack }) x ≡ gray
          → color_of st x ≡ gray
      before x e g = ground (arith, g, e, lookup-insert id x black st.color)

      still :
          (x : String)
          → color_of (record st { color = insert id black st.color; stack = pop st.stack }) x ≡ gray
          → member x old.stack ≡ true
      still x g = elim (Bool-cases (str_eq id x)) [
        | inl e ↦ ground (arith, g, e, lookup-insert id x black st.color)
        | inr e ↦ ground (arith, e, on_stack x (before x e g))
      ]

  entered : (st : Search) (id : String) → (enter id st).stack ≡ id ∷ st.stack
  unfolding enter
  entered st id = refl

  edges : (id : String) → All (Edge d id) (sort_texts (nexts_of d id))
  edges id =
      from_members (sort_texts (nexts_of d id))
        (λ e m. sym (member-sort_texts e (nexts_of d id)) ∙ m)
    where
      from_members :
          (xs : List String)
          → ((e : String) → member e xs ≡ true → Edge d id e)
          → All (Edge d id) xs
      from_members xs f = members_All (Edge d id) xs f

  dfs-Searches : (fuel : ℕ) → Searches (dfs fuel d)
  unfolding dfs
  dfs-Searches zero st id h back = (h, refl)
  dfs-Searches (suc fuel) st id h back =
      let inside =
        meet_all-Kept (dfs fuel d) id st.stack (sort_texts (nexts_of d id)) (enter id st)
          (dfs-Searches fuel) (entered st id) (edges id) (enter-IsGood st id h back) in
      leave-Kept st _ id inside.0 (inside.1 ∙ entered st id)

  root_Kept :
      (fuel : ℕ) (st : Search) (r : String)
      → IsGood d st
      → st.stack ≡ []
      → Kept st (elim (color_of st r) as (λ x. Search) [ white ↦ dfs fuel d st r | _ ↦ st ])
  root_Kept fuel st r h s = by_color (color_of st r)
    where
      by_color :
          (c : Color) → Kept st (elim c as (λ x. Search) [ white ↦ dfs fuel d st r | _ ↦ st ])
      by_color white = dfs-Searches fuel st r h (subst (λ l. IsBack d (r ∷ l)) (sym s) tt)
      by_color gray = (h, refl)
      by_color black = (h, refl)

  search_from_sound :
      (fuel : ℕ) (roots : List String) (st : Search)
      → IsGood d st
      → st.stack ≡ []
      → All (IsCycle d) (search_from fuel d st roots).cycles
  unfolding search_from
  search_from_sound fuel [] st h s = h.sound
  search_from_sound fuel (r ∷ roots) st h s =
      let one = root_Kept fuel st r h s in search_from_sound fuel roots _ one.0 (one.1 ∙ s)

-- Every path that DetectCycles reports leads along one or more edges of the graph, and ends where it
-- begins.
pub detect_cycles-IsCycle : (d : Dag) → All (IsCycle d) (detect_cycles d)
unfolding detect_cycles
detect_cycles-IsCycle d =
    search_from_sound d (suc (length d.nodes)) _
      (record { color = []; stack = []; cycles = []; reported = [] })
      (record { back = tt; grays = λ x g. absurd (no_gray x g); sound = tt }) refl
