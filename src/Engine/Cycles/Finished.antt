-- ===== src/Engine/Cycles/Finished.antt =====
-- The nodes that DetectCycles of api/pkg/engine/dag.go has finished, while it reports nothing.
use mathlib.Core.Path.{subst}
use helios_ci_cd.Prelude.{
  ℕ, zero, suc, ◌+◌, ◌≤◌, ◌<◌, String, true, false, ◌≡◌, ◌≢◌, refl, inl, inr, List, [], ◌∷◌, ◌++◌,
  arith, member, str_eq, Bool-cases, if◌then◌else◌, Dict, lookup, insert, lookup-insert, has_key,
}
use helios_ci_cd.Prelude.Texts.{sort_texts, join}
use helios_ci_cd.Engine.Dag.{Dag}
use helios_ci_cd.Engine.Cycles.{
  Color, white, gray, black, Search, or_white, color_of, nexts_of, canonical_cycle, loop_of, report,
  meet, meet_all, enter, leave, dfs,
}
use helios_ci_cd.Engine.Cycles.Paths.{Edge}

abbrev pub weight : Color → ℕ
weight white = 1
weight gray = 0
weight black = 0

-- How many of the nodes are white.
abbrev pub whites : Search → List String → ℕ
whites st [] = 0
whites st (k ∷ ks) = weight (color_of st k) + whites st ks

pub color-insert :
    (id x : String) (c : Color) (colors : Dict Color)
    → or_white (lookup x (insert id c colors))
      ≡ (if str_eq id x then c else or_white (lookup x colors))
color-insert id x c colors = elim (Bool-cases (str_eq id x)) [
  | inl e ↦ rw (lookup-insert id x c colors, e) refl
  | inr e ↦ rw (lookup-insert id x c colors, e) refl
]

module _ (d : Dag) where
  -- Each node after those that it leads to.
  abbrev pub IsOrdered : List String → Type 0
  IsOrdered [] = Unit
  IsOrdered (x ∷ xs) =
      (member x xs ≡ false) × ((y : String) → Edge d x y → member y xs ≡ true) × IsOrdered xs

  -- The black nodes are those on the list, which is ordered; without a cycle nothing is reported.
  pub record Tracks (st : Search) (done : List String) : Type 0 where
    pub listed : (x : String) → color_of st x ≡ black → member x done ≡ true
    pub blacks : (x : String) → member x done ≡ true → color_of st x ≡ black
    pub ordered : IsOrdered done
    pub quiet : st.cycles ≡ [] → st.reported ≡ []

  -- What a search that reports nothing leads to.
  pub record Explored (ks : List String) (st st' : Search) (done : List String) : Type 0 where
    pub finished : List String
    pub tracks : Tracks st' finished
    pub more : (x : String) → member x done ≡ true → member x finished ≡ true
    pub grays : (x : String) → color_of st x ≡ gray → color_of st' x ≡ gray
    pub no_new : (x : String) → color_of st' x ≡ gray → color_of st x ≡ gray
    pub fewer : whites st' ks ≤ whites st ks

  abbrev pub same_state :
      (ks : List String) (st : Search) (done : List String)
      → Tracks st done
      → Explored ks st st done
  same_state ks st done t = record {
    finished = done;
    tracks = t;
    more = λ x m. m;
    grays = λ x g. g;
    no_new = λ x g. g;
    fewer = omega arith;
  }

  abbrev pub then_explored :
      (ks : List String) (st mid st' : Search) (done : List String) (a : Explored ks st mid done)
      → Explored ks mid st' a.finished
      → Explored ks st st' done
  then_explored ks st mid st' done a b = record {
    finished = b.finished;
    tracks = b.tracks;
    more = λ x m. b.more x (a.more x m);
    grays = λ x g. b.grays x (a.grays x g);
    no_new = λ x g. a.no_new x (b.no_new x g);
    fewer = omega (arith, a.fewer, b.fewer);
  }

  append-ne-nil : (xs : List (List String)) (y : List String) → (xs ++ y ∷ []) ≢ []
  append-ne-nil [] y e = cc e
  append-ne-nil (x ∷ xs) y e = cc e

  -- A gray node that is met is reported, the first time at least.
  report-nonempty :
      (st : Search) (nxt : String)
      → (st.cycles ≡ [] → st.reported ≡ [])
      → (report nxt st).cycles ≢ []
  unfolding report has_key
  report-nonempty st nxt quiet e =
      elim (Bool-cases (has_key (join ">" (canonical_cycle (loop_of nxt st.stack))) st.reported)) [
        | inl old ↦ no_key _ (quiet (rw old at e)) old
        | inr new ↦ append-ne-nil st.cycles _ (rw new at e)
      ]
    where
      no_key : (key : String) → st.reported ≡ [] → has_key key st.reported ≡ true → ⊥
      no_key key none_yet old = cc (subst (λ r. has_key key r ≡ true) none_yet old)

  -- Searches that report nothing, from a white node of the graph.
  abbrev pub Explores : List String → ℕ → (Search → String → Search) → Type 0
  Explores ks bound go =
      (st : Search) (id : String) (done : List String)
      → Tracks st done
      → color_of st id ≡ white
      → member id ks ≡ true
      → whites st ks < bound
      → (go st id).cycles ≡ []
      → (e : Explored ks st (go st id) done) × (member id e.finished ≡ true)

  abbrev pub Keeps : (Search → String → Search) → Type 0
  Keeps go = (st : Search) (id : String) → (go st id).cycles ≡ [] → st.cycles ≡ []

  pub meet-Explored :
      (ks : List String) (bound : ℕ) (go : Search → String → Search) (st : Search) (nxt : String)
      (done : List String)
      → Explores ks bound go
      → Tracks st done
      → member nxt ks ≡ true
      → whites st ks < bound
      → (meet go st nxt).cycles ≡ []
      → (e : Explored ks st (meet go st nxt) done) × (member nxt e.finished ≡ true)
  unfolding meet
  meet-Explored ks bound go st nxt done k t m w e = by_color (color_of st nxt) refl e
    where
      by_color :
          (c : Color)
          → color_of st nxt ≡ c
          → (elim c as (λ x. Search) [
            | gray ↦ report nxt st
            | white ↦ go st nxt
            | black ↦ st
          ]).cycles
            ≡ []
          → (x : Explored ks st
              (elim c as (λ x. Search) [ gray ↦ report nxt st | white ↦ go st nxt | black ↦ st ])
              done)
            × (member nxt x.finished ≡ true)
      by_color white is_c none_new = k st nxt done t is_c m w none_new
      by_color gray is_c none_new = absurd (report-nonempty st nxt t.quiet none_new)
      by_color black is_c none_new = (same_state ks st done t, t.listed nxt is_c)

  report-keeps : (st : Search) (nxt : String) → (report nxt st).cycles ≡ [] → st.cycles ≡ []
  unfolding report
  report-keeps st nxt e =
      elim (Bool-cases (has_key (join ">" (canonical_cycle (loop_of nxt st.stack))) st.reported)) [
        | inl old ↦ rw old at e
        | inr new ↦ absurd (append-ne-nil st.cycles _ (rw new at e))
      ]

  meet-Keeps :
      (go : Search → String → Search) (st : Search) (nxt : String)
      → Keeps go
      → (meet go st nxt).cycles ≡ []
      → st.cycles ≡ []
  unfolding meet
  meet-Keeps go st nxt k e = by_color (color_of st nxt) e
    where
      by_color :
          (c : Color)
          → (elim c as (λ x. Search) [
            | gray ↦ report nxt st
            | white ↦ go st nxt
            | black ↦ st
          ]).cycles
            ≡ []
          → st.cycles ≡ []
      by_color white h = k st nxt h
      by_color gray h = report-keeps st nxt h
      by_color black h = h

  pub meet_all-Keeps :
      (go : Search → String → Search) (nexts : List String) (st : Search)
      → Keeps go
      → (meet_all go st nexts).cycles ≡ []
      → st.cycles ≡ []
  unfolding meet_all
  meet_all-Keeps go [] st k e = e
  meet_all-Keeps go (nxt ∷ nexts) st k e =
      meet-Keeps go st nxt k (meet_all-Keeps go nexts (meet go st nxt) k e)

  pub dfs-Keeps : (fuel : ℕ) → Keeps (dfs fuel d)
  unfolding dfs leave enter
  dfs-Keeps zero st id e = e
  dfs-Keeps (suc fuel) st id e =
      meet_all-Keeps (dfs fuel d) (sort_texts (nexts_of d id)) (enter id st) (dfs-Keeps fuel) e
