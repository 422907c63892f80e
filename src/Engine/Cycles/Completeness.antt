-- ===== src/Engine/Cycles/Completeness.antt =====
-- DetectCycles of api/pkg/engine/dag.go misses no graph with a cycle.
use mathlib.Core.Path.{subst}
use helios_ci_cd.Prelude.{
  ℕ, zero, suc, ◌≤◌, ◌<◌, String, true, ◌≡◌, ◌≢◌, refl, sym, ◌∙◌, ap, inl, inr, List, [], ◌∷◌,
  arith, All, member, length, str_eq, eq_iff, eq_refl, Bool-cases, str_eq-cases, if◌then◌else◌,
  Dict, lookup, keys,
}
use helios_ci_cd.Prelude.Texts.{sort_texts}
use helios_ci_cd.Engine.Dag.{Dag, Node}
use helios_ci_cd.Engine.Cycles.{
  Color, white, gray, black, Search, color_of, nexts_of, out_of, meet_all, enter, leave, dfs,
  search_from, detect_cycles,
}
use helios_ci_cd.Engine.Cycles.Paths.{Edge, member-sort_texts}
use helios_ci_cd.Engine.Cycles.Soundness.{members_All}
use helios_ci_cd.Engine.Cycles.Finished.{
  whites, IsOrdered, Tracks, Explored, same_state, then_explored, Explores, dfs-Keeps,
}
use helios_ci_cd.Engine.Cycles.Coloring.{
  member_at, entered_color, apart, meet_all-Explored, whites-paint, color_self, color-other,
  whites-enter, enter-Tracks, leave-Tracks,
}

-- The place of a node from the end of the list.
unfoldable pub place : List String → String → ℕ
place [] x = 0
place (y ∷ ys) x = let rest = place ys x in if str_eq y x then suc (length ys) else rest

place-le : (ys : List String) (x : String) → place ys x ≤ length ys
unfolding place
place-le [] x = omega arith
place-le (y ∷ ys) x = ground (arith, place-le ys x)

module _ (d : Dag) where
  -- The edges lead to nodes of the graph.
  abbrev pub IsClosed : List String → Type 0
  IsClosed ks = (x y : String) → Edge d x y → member y ks ≡ true

  dfs-Explores : (ks : List String) → IsClosed ks → (fuel : ℕ) → Explores d ks fuel (dfs fuel d)
  unfolding dfs leave
  dfs-Explores ks closed zero st id done t w m wh quiet = absurd (omega (arith, wh))
  dfs-Explores ks closed (suc fuel) st id done t w m wh quiet =
      let entered = whites-enter d id st (enter id st) ks (entered_color id st) w m in
      let (a, all_there) =
        meet_all-Explored d ks fuel (dfs fuel d) (sort_texts (nexts_of d id)) (enter id st) done
          (dfs-Explores ks closed fuel) (dfs-Keeps d fuel) (enter-Tracks d st id done w t)
          (members_All (λ y. member y ks ≡ true) _
            (λ y edge. closed id y (sym (member-sort_texts y (nexts_of d id)) ∙ edge)))
          (omega (arith, entered, wh)) quiet in
      let st2 = meet_all (dfs fuel d) (enter id st) (sort_texts (nexts_of d id)) in
      (
        record {
          finished = id ∷ a.finished;
          tracks =
              leave-Tracks d st2 id a.finished
                (a.grays id (color_self d id gray st (enter id st) (entered_color id st)))
                (λ y edge.
                  member_at (λ z. member z a.finished ≡ true) _ all_there y
                    (member-sort_texts y (nexts_of d id) ∙ edge))
                a.tracks;
          more = λ x there. ground (arith, a.more x there);
          grays = λ x g. elim (str_eq-cases id x) [
            | inl same ↦ cc (sym w ∙ subst (λ y. color_of st y ≡ gray) (sym same) g)
            | inr other ↦
                color-other d id x black st2 (leave id st2) refl other
                ∙ a.grays x
                    (color-other d id x gray st (enter id st) (entered_color id st) other ∙ g)
          ];
          no_new = λ x g. elim (str_eq-cases id x) [
            | inl same ↦ cc (
                sym (color_self d id black st2 (leave id st2) refl)
                ∙ subst (λ y. color_of (leave id st2) y ≡ gray) (sym same) g)
            | inr other ↦
                sym (color-other d id x gray st (enter id st) (entered_color id st) other)
                ∙ a.no_new x (sym (color-other d id x black st2 (leave id st2) refl other) ∙ g)
          ];
          fewer =
              omega
                (arith, whites-paint d id black st2 (leave id st2) ks refl refl, a.fewer, entered);
        },
        ground (arith, eq_refl id),
      )

  -- One root.
  abbrev root_step : ℕ → Search → String → Color → Search
  root_step fuel st r c = elim c as (λ x. Search) [
    | white ↦ dfs fuel d st r
    | gray ↦ st
    | black ↦ st
  ]

  root_step-keeps :
      (fuel : ℕ) (st : Search) (r : String) (c : Color)
      → (root_step fuel st r c).cycles ≡ []
      → st.cycles ≡ []
  root_step-keeps fuel st r white h = dfs-Keeps d fuel st r h
  root_step-keeps fuel st r gray h = h
  root_step-keeps fuel st r black h = h

  search_from-keeps :
      (fuel : ℕ) (roots : List String) (st : Search)
      → (search_from fuel d st roots).cycles ≡ []
      → st.cycles ≡ []
  unfolding search_from
  search_from-keeps fuel [] st e = e
  search_from-keeps fuel (r ∷ roots) st e =
      root_step-keeps fuel st r (color_of st r)
        (search_from-keeps fuel roots (root_step fuel st r (color_of st r)) e)

  root_step-Explored :
      (ks : List String)
      → IsClosed ks
      → (fuel : ℕ) (st : Search) (r : String) (done : List String) (c : Color) → color_of st r ≡ c
      → Tracks d st done
      → ((x : String) → color_of st x ≢ gray)
      → member r ks ≡ true
      → whites st ks < fuel
      → (root_step fuel st r c).cycles ≡ []
      → (e : Explored d ks st (root_step fuel st r c) done) × (member r e.finished ≡ true)
  root_step-Explored ks closed fuel st r done white e t calm m w quiet =
      dfs-Explores ks closed fuel st r done t e m w quiet
  root_step-Explored ks closed fuel st r done gray e t calm m w quiet = absurd (calm r e)
  root_step-Explored ks closed fuel st r done black e t calm m w quiet =
      (same_state d ks st done t, t.listed r e)

  search_from-Explored :
      (ks : List String)
      → IsClosed ks
      → (fuel : ℕ) (roots : List String) (st : Search) (done : List String) → Tracks d st done
      → ((x : String) → color_of st x ≢ gray)
      → All (λ y. member y ks ≡ true) roots
      → whites st ks < fuel
      → (search_from fuel d st roots).cycles ≡ []
      → (e : Explored d ks st (search_from fuel d st roots) done) × All
          (λ y. member y e.finished ≡ true)
          roots
  unfolding search_from
  search_from-Explored ks closed fuel [] st done t calm h w quiet = (same_state d ks st done t, tt)
  search_from-Explored ks closed fuel (r ∷ roots) st done t calm h w quiet =
      let next = root_step fuel st r (color_of st r) in
      let (a, there) =
        root_step-Explored ks closed fuel st r done (color_of st r) refl t calm h.0 w
          (search_from-keeps fuel roots next quiet) in
      let (b, others) =
        search_from-Explored ks closed fuel roots next a.finished a.tracks
          (λ x g. calm x (a.no_new x g)) h.1 (omega (arith, a.fewer, w)) quiet in
      (
        then_explored d ks st next (search_from fuel d next roots) done a b,
        (b.more r there, others),
      )

  -- The edges from an ordered list stay on it.
  IsOrdered-member :
      (ys : List String) (x y : String)
      → IsOrdered d ys
      → member x ys ≡ true
      → Edge d x y
      → member y ys ≡ true
  IsOrdered-member [] x y o m e = cc m
  IsOrdered-member (z ∷ ys) x y o m e = elim (str_eq-cases z x) [
    | inl same ↦ ground (arith, o.1 y (subst (λ w. Edge d w y) (sym same) e))
    | inr other ↦ ground (arith, IsOrdered-member ys x y o.2 (rw other at m) e)
  ]

  -- On an ordered list an edge leads to a lower place.
  place-Edge :
      (ys : List String) (x y : String)
      → IsOrdered d ys
      → member x ys ≡ true
      → Edge d x y
      → place ys y < place ys x
  unfolding place
  place-Edge [] x y o m e = cc m
  place-Edge (z ∷ ys) x y o m e = elim (str_eq-cases z x) [
    | inl same ↦
        let inside = o.1 y (subst (λ w. Edge d w y) (sym same) e) in
        rw (apart ys z y o.0 inside, (eq_iff z x).1 same) (omega (arith, place-le ys y))
    | inr other ↦
        let inside = IsOrdered-member ys x y o.2 (rw other at m) e in
        rw (apart ys z y o.0 inside, other) (place-Edge ys x y o.2 (rw other at m) e)
  ]

  no_colors : Search
  no_colors = record { color = []; stack = []; cycles = []; reported = [] }

  start-Tracks : Tracks d no_colors []
  unfolding no_colors lookup
  start-Tracks = record {
    listed = λ x b. cc b;
    blacks = λ x m. cc m;
    ordered = tt;
    quiet = λ e. refl;
  }

  whites-start : (ks : List String) → whites no_colors ks ≤ length ks
  unfolding no_colors lookup
  whites-start [] = omega arith
  whites-start (k ∷ ks) = omega (arith, whites-start ks)

  length-keys : (m : Dict Node) → length (keys m) ≡ length m
  length-keys [] = refl
  length-keys (x ∷ m) = ap suc (length-keys m)

  no_gray : (x : String) → color_of no_colors x ≢ gray
  unfolding no_colors lookup
  no_gray x g = cc g

  -- A node with an edge is a node of the graph.
  key_of_edge :
      (m : Dict Node) (x y : String)
      → member y (out_of (lookup x m)) ≡ true
      → member x (keys m) ≡ true
  unfolding lookup out_of
  key_of_edge [] x y e = cc e
  key_of_edge (n ∷ m) x y e = elim (Bool-cases (str_eq n.0 x)) [
    | inl same ↦ rw same refl
    | inr other ↦ rw other (key_of_edge m x y (rw other at e))
  ]

  -- When DetectCycles reports nothing, the graph has no cycle: its nodes have bounded ranks that fall
  -- along its edges. (The edges lead to nodes of the graph.)
  pub detect_cycles-ranked :
      IsClosed (keys d.nodes)
      → detect_cycles d ≡ []
      → (rank : String → ℕ) × (bound : ℕ) × ((x : String) → rank x ≤ bound)
        × ((x y : String) → Edge d x y → rank y < rank x)
  unfolding detect_cycles nexts_of no_colors
  detect_cycles-ranked closed quiet =
      let (e, all_there) =
        search_from-Explored (keys d.nodes) closed (suc (length d.nodes))
          (sort_texts (keys d.nodes)) no_colors [] start-Tracks no_gray
          (members_All (λ y. member y (keys d.nodes) ≡ true) _
            (λ y m. sym (member-sort_texts y (keys d.nodes)) ∙ m))
          (omega (arith, whites-start (keys d.nodes), length-keys d.nodes)) quiet in
      (
        place e.finished,
        length e.finished,
        place-le e.finished,
        λ x y edge.
            place-Edge e.finished x y e.tracks.ordered
              (member_at (λ z. member z e.finished ≡ true) _ all_there x
                (member-sort_texts x (keys d.nodes) ∙ key_of_edge d.nodes x y edge))
              edge,
      )
