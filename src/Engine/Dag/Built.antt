-- ===== src/Engine/Dag/Built.antt =====
-- The graph that BuildDAG of api/pkg/engine/dag.go makes of a pipeline.
use mathlib.Core.Path.{subst}
use helios_ci_cd.Prelude.{
  String, Bool, true, false, ◌||◌, ◌≡◌, refl, sym, ◌∙◌, ap, inl, inr, Option, none, some, List, [],
  ◌∷◌, ◌++◌, arith, member, str_eq, eq_iff, Bool-cases, str_eq-cases, if◌then◌else◌, Dict, lookup,
  insert, lookup-insert, has_key,
}
use helios_ci_cd.Dsl.{Stage, Pipeline}
use helios_ci_cd.Engine.Dag.{Dag, Node, empty, add_stages, build_dag}
use helios_ci_cd.Engine.Dag.Links.{IsLinked, ins, outs, member-snoc, connect_nodes-IsLinked}

lookup-missing {ℓ} :
    {V : Type ℓ} (k : String) (m : Dict V) → has_key k m ≡ false → lookup k m ≡ none
unfolding has_key lookup
lookup-missing k [] h = refl
lookup-missing k (e ∷ m) h = elim (Bool-cases (str_eq e.0 k)) [
  | inl same ↦ cc (rw same at h)
  | inr other ↦ rw other (lookup-missing k m (rw other at h))
]

abbrev fresh_node : Stage → Node
fresh_node s = record { id = s.id; stage = s; in_edges = []; out_edges = [] }

ins-fresh :
    (s : Stage) (x y : String) (m : Dict Node)
    → member x (ins (lookup y (insert s.id (fresh_node s) m)))
      ≡ (if str_eq s.id y then false else member x (ins (lookup y m)))
ins-fresh s x y m =
    ap (λ o. member x (ins o)) (lookup-insert s.id y (fresh_node s) m) ∙ by_key (str_eq s.id y)
  where
    by_key :
        (b : Bool)
        → member x (ins (if b then some (fresh_node s) else lookup y m))
          ≡ (if b then false else member x (ins (lookup y m)))
    by_key true = refl
    by_key false = refl

outs-fresh :
    (s : Stage) (x y : String) (m : Dict Node)
    → member y (outs (lookup x (insert s.id (fresh_node s) m)))
      ≡ (if str_eq s.id x then false else member y (outs (lookup x m)))
outs-fresh s x y m =
    ap (λ o. member y (outs o)) (lookup-insert s.id x (fresh_node s) m) ∙ by_key (str_eq s.id x)
  where
    by_key :
        (b : Bool)
        → member y (outs (if b then some (fresh_node s) else lookup x m))
          ≡ (if b then false else member y (outs (lookup x m)))
    by_key true = refl
    by_key false = refl

-- A node that is not there has no edges at all.
no_edges :
    (dag : Dag) (k x : String)
    → IsLinked dag
    → lookup k dag.nodes ≡ none
    → (member k (ins (lookup x dag.nodes)) ≡ false)
      × (member x (outs (lookup k dag.nodes)) ≡ false)
      × (member x (ins (lookup k dag.nodes)) ≡ false)
no_edges dag k x h missing =
    (h.both_ends k x ∙ gone_out, gone_out, ap (λ o. member x (ins o)) missing)
  where
    gone_out : member x (outs (lookup k dag.nodes)) ≡ false
    gone_out = ap (λ o. member x (outs o)) missing

add_stage-IsLinked :
    (s : Stage) (dag : Dag)
    → lookup s.id dag.nodes ≡ none
    → IsLinked dag
    → IsLinked (record dag {
      nodes = insert s.id (fresh_node s) dag.nodes;
      order = dag.order ++ s.id ∷ [];
    })
add_stage-IsLinked s dag missing h = record {
  known = λ x m. elim (str_eq-cases s.id x) [
    | inl same ↦ (
      fresh_node s,
      lookup-insert s.id x (fresh_node s) dag.nodes ∙ rw ((eq_iff s.id x).1 same) refl,
    )
    | inr other ↦
        let (n, f) = h.known x (old x other m) in
        (n, lookup-insert s.id x (fresh_node s) dag.nodes ∙ rw other f)
  ];
  named = λ x n f. member-snoc x dag.order s.id ∙ elim (str_eq-cases s.id x) [
    | inl same ↦ ground (arith, eq_iff s.id x, same)
    | inr other ↦ ground (
      arith,
      h.named x n (sym (lookup-insert s.id x (fresh_node s) dag.nodes ∙ rw other refl) ∙ f),
    )
  ];
  both_ends = λ x y. ins-fresh s x y dag.nodes ∙ ends x y ∙ sym (outs-fresh s x y dag.nodes);
  from_node =
      λ x y m. member-snoc x dag.order s.id ∙ from_old x y (sym (ins-fresh s x y dag.nodes) ∙ m);
}
  where
    old :
        (x : String)
        → str_eq s.id x ≡ false
        → member x (dag.order ++ s.id ∷ []) ≡ true
        → member x dag.order ≡ true
    old x other m = ground (arith, member-snoc x dag.order s.id, other, m)

    ends :
        (x y : String)
        → (if str_eq s.id y then false else member x (ins (lookup y dag.nodes)))
          ≡ (if str_eq s.id x then false else member y (outs (lookup x dag.nodes)))
    ends x y = elim (str_eq-cases s.id y) [
      | inl is_y ↦
          let gone =
            subst (λ z. member z (outs (lookup x dag.nodes)) ≡ false) is_y
              (sym (h.both_ends x s.id) ∙ (no_edges dag s.id x h missing).2) in
          ground (arith, gone, eq_iff s.id y, is_y)
      | inr not_y ↦ elim (str_eq-cases s.id x) [
        | inl is_x ↦
            let gone =
              subst (λ z. member z (ins (lookup y dag.nodes)) ≡ false) is_x
                (no_edges dag s.id y h missing).0 in
            ground (arith, gone, eq_iff s.id x, is_x, not_y)
        | inr not_x ↦ ground (arith, h.both_ends x y, not_x, not_y)
      ]
    ]

    from_old :
        (x y : String)
        → (if str_eq s.id y then false else member x (ins (lookup y dag.nodes))) ≡ true
        → (member x dag.order || str_eq s.id x) ≡ true
    from_old x y m = elim (Bool-cases (str_eq s.id y)) [
      | inl is_y ↦ cc (rw is_y at m)
      | inr not_y ↦ ground (arith, h.from_node x y (rw not_y at m))
    ]

add_stages-IsLinked :
    (stages : List Stage) (dag : Dag) → IsLinked dag → IsLinked (add_stages dag stages)
unfolding add_stages
add_stages-IsLinked [] dag h = h
add_stages-IsLinked (s ∷ stages) dag h = elim (Bool-cases (str_eq s.id "")) [
  | inl unnamed ↦ rw unnamed (add_stages-IsLinked stages dag h)
  | inr some_name ↦ elim (Bool-cases (has_key s.id dag.nodes)) [
    | inl taken ↦ rw (some_name, taken) (add_stages-IsLinked stages dag h)
    | inr new ↦
        rw (some_name, new)
          (add_stages-IsLinked stages _
            (add_stage-IsLinked s dag (lookup-missing s.id dag.nodes new) h))
  ]
]

empty-IsLinked : IsLinked empty
unfolding lookup
empty-IsLinked = record {
  known = λ x m. cc m;
  named = λ x n f. cc f;
  both_ends = λ x y. refl;
  from_node = λ x y m. cc m;
}

-- The graph of any pipeline: its order names its nodes, its edges lead between nodes, and each edge
-- stands at both of its ends, whatever the stages need, a stage that there is not or itself included.
pub build_dag-IsLinked : (p : Option Pipeline) → IsLinked (build_dag p)
unfolding build_dag
build_dag-IsLinked none = empty-IsLinked
build_dag-IsLinked (some p) =
    connect_nodes-IsLinked _ (add_stages empty p.stages) (λ x m. m)
      (add_stages-IsLinked p.stages empty empty-IsLinked)
