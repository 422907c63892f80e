-- ===== src/Engine/Cycles/Coloring.antt =====
-- What a call of the search of DetectCycles (api/pkg/engine/dag.go) does to the colours and to the nodes
-- that are finished.
use mathlib.Core.Path.{subst}
use helios_ci_cd.Prelude.{
  ℕ, ◌≤◌, ◌<◌, String, Bool, true, false, ◌≡◌, refl, sym, ◌∙◌, ap, ◌⊎◌, inl, inr, List, [], ◌∷◌,
  arith, All, member, str_eq, eq_iff, eq_refl, Bool-cases, str_eq-cases, if◌then◌else◌, lookup,
  insert,
}
use helios_ci_cd.Engine.Dag.{Dag}
use helios_ci_cd.Engine.Cycles.{
  Color, white, gray, black, Search, or_white, color_of, meet, meet_all, enter, leave,
}
use helios_ci_cd.Engine.Cycles.Paths.{Edge}
use helios_ci_cd.Engine.Cycles.Finished.{
  whites, weight, color-insert, Tracks, Explored, same_state, then_explored, Explores, Keeps,
  meet-Explored, meet_all-Keeps,
}

pub member_at :
    (P : String → Type 0) (xs : List String) → All P xs → (y : String) → member y xs ≡ true → P y
member_at P [] h y m = cc m
member_at P (x ∷ xs) h y m = elim (str_eq-cases x y) [
  | inl same ↦ subst P same h.0
  | inr other ↦ member_at P xs h.1 y (rw other at m)
]

pub entered_color : (id : String) (st : Search) → (enter id st).color ≡ insert id gray st.color
unfolding enter
entered_color id st = refl

pub apart :
    (ys : List String) (z y : String)
    → member z ys ≡ false
    → member y ys ≡ true
    → str_eq z y ≡ false
apart ys z y out inside = elim (str_eq-cases z y) [
  | inl same ↦ cc (sym out ∙ subst (λ w. member w ys ≡ true) (sym same) inside)
  | inr other ↦ other
]

module _ (d : Dag) where
  -- What a node and its way to its nexts leaves.
  pub meet_all-Explored :
      (ks : List String) (bound : ℕ) (go : Search → String → Search) (nexts : List String)
      (st : Search) (done : List String)
      → Explores d ks bound go
      → Keeps d go
      → Tracks d st done
      → All (λ y. member y ks ≡ true) nexts
      → whites st ks < bound
      → (meet_all go st nexts).cycles ≡ []
      → (e : Explored d ks st (meet_all go st nexts) done) × All
          (λ y. member y e.finished ≡ true)
          nexts
  unfolding meet_all
  meet_all-Explored ks bound go [] st done k keep t h w e = (same_state d ks st done t, tt)
  meet_all-Explored ks bound go (nxt ∷ nexts) st done k keep t h w e =
      let mid_quiet = meet_all-Keeps d go nexts (meet go st nxt) keep e in
      let (a, there) = meet-Explored d ks bound go st nxt done k t h.0 w mid_quiet in
      let (b, others) =
        meet_all-Explored ks bound go nexts (meet go st nxt) a.finished k keep a.tracks h.1
          (omega (arith, a.fewer, w)) e in
      (
        then_explored d ks st (meet go st nxt) (meet_all go (meet go st nxt) nexts) done a b,
        (b.more nxt there, others),
      )

  weight-paint :
      (id k : String) (c : Color) (st st' : Search)
      → st'.color ≡ insert id c st.color
      → weight c ≡ 0
      → weight (color_of st' k) ≤ weight (color_of st k)
  weight-paint id k c st st' e h =
      subst (λ colors. weight (or_white (lookup k colors)) ≤ weight (color_of st k)) (sym e)
        (subst (λ x. weight x ≤ weight (color_of st k)) (sym (color-insert id k c st.color))
          (by_key (str_eq id k)))
    where
      by_key : (b : Bool) → weight (if b then c else color_of st k) ≤ weight (color_of st k)
      by_key true = omega (arith, h)
      by_key false = omega arith

  pub whites-paint :
      (id : String) (c : Color) (st st' : Search) (ks : List String)
      → st'.color ≡ insert id c st.color
      → weight c ≡ 0
      → whites st' ks ≤ whites st ks
  whites-paint id c st st' [] e h = omega arith
  whites-paint id c st st' (k ∷ ks) e h =
      omega (arith, weight-paint id k c st st' e h, whites-paint id c st st' ks e h)

  -- The color of a node after it is painted.
  pub color_self :
      (id : String) (c : Color) (st st' : Search)
      → st'.color ≡ insert id c st.color
      → color_of st' id ≡ c
  color_self id c st st' e =
      ap (λ colors. or_white (lookup id colors)) e
      ∙ color-insert id id c st.color
      ∙ ap (λ b. if b then c else color_of st id) (eq_refl id)

  pub color-other :
      (id x : String) (c : Color) (st st' : Search)
      → st'.color ≡ insert id c st.color
      → str_eq id x ≡ false
      → color_of st' x ≡ color_of st x
  color-other id x c st st' e n =
      ap (λ colors. or_white (lookup x colors)) e
      ∙ color-insert id x c st.color
      ∙ ap (λ b. if b then c else color_of st x) n

  pub whites-enter :
      (id : String) (st st' : Search) (ks : List String)
      → st'.color ≡ insert id gray st.color
      → color_of st id ≡ white
      → member id ks ≡ true
      → whites st' ks < whites st ks
  whites-enter id st st' [] e w m = cc m
  whites-enter id st st' (k ∷ ks) e w m = elim (str_eq-cases k id) [
    | inl same ↦
        let before = ap weight (subst (λ x. color_of st x ≡ white) (sym same) w) in
        let after =
          ap weight (subst (λ x. color_of st' x ≡ gray) (sym same) (color_self id gray st st' e)) in
        omega (arith, before, after, whites-paint id gray st st' ks e refl)
    | inr other ↦
        omega (
          arith,
          weight-paint id k gray st st' e refl,
          whites-enter id st st' ks e w (rw other at m),
        )
  ]

  pub enter-Tracks :
      (st : Search) (id : String) (done : List String)
      → color_of st id ≡ white
      → Tracks d st done
      → Tracks d (enter id st) done
  unfolding enter
  enter-Tracks st id done w t = record {
    listed = λ x b. elim (str_eq-cases id x) [
      | inl same ↦ cc (
          sym (color_self id gray st (enter id st) refl)
          ∙ subst (λ y. color_of (enter id st) y ≡ black) (sym same) b)
      | inr other ↦ t.listed x (sym (color-other id x gray st (enter id st) refl other) ∙ b)
    ];
    blacks = λ x m. elim (str_eq-cases id x) [
      | inl same ↦ cc (sym w ∙ subst (λ y. color_of st y ≡ black) (sym same) (t.blacks x m))
      | inr other ↦ color-other id x gray st (enter id st) refl other ∙ t.blacks x m
    ];
    ordered = t.ordered;
    quiet = t.quiet;
  }

  pub leave-Tracks :
      (st : Search) (id : String) (done : List String)
      → color_of st id ≡ gray
      → ((y : String) → Edge d id y → member y done ≡ true)
      → Tracks d st done
      → Tracks d (leave id st) (id ∷ done)
  unfolding leave
  leave-Tracks st id done g all_done t = record {
    listed = λ x b. elim (str_eq-cases id x) [
      | inl same ↦ ground (arith, eq_iff id x, same)
      | inr other ↦
          ground (
            arith,
            t.listed x (sym (color-other id x black st (leave id st) refl other) ∙ b),
            other,
          )
    ];
    blacks = λ x m. elim (str_eq-cases id x) [
      | inl same ↦
          subst (λ y. color_of (leave id st) y ≡ black) same
            (color_self id black st (leave id st) refl)
      | inr other ↦ color-other id x black st (leave id st) refl other ∙ t.blacks x (rw other at m)
    ];
    ordered = (fresh (Bool-cases (member id done)), all_done, t.ordered);
    quiet = t.quiet;
  }
    where
      fresh : (member id done ≡ true) ⊎ (member id done ≡ false) → member id done ≡ false
      fresh (inl m) = cc (sym g ∙ t.blacks id m)
      fresh (inr n) = n
