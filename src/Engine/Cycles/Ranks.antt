-- ===== src/Engine/Cycles/Ranks.antt =====
-- DetectCycles on the graph that BuildDAG makes (api/pkg/engine/dag.go).
use helios_ci_cd.Prelude.{
  ℕ, ◌-◌, String, ◌≡◌, refl, sym, ◌∙◌, ap, inl, inr, Option, none, some, [], ◌∷◌, true, arith,
  member, Bool-cases, Option-cases, str_eq, lookup, keys, Dict,
}
use helios_ci_cd.Dsl.{Pipeline}
use helios_ci_cd.Engine.Dag.{Dag, Node, build_dag}
use helios_ci_cd.Engine.Dag.Links.{IsLinked, ins, outs}
use helios_ci_cd.Engine.Dag.Built.{build_dag-IsLinked}
use helios_ci_cd.Engine.Cycles.{detect_cycles, nexts_of, out_of}
use helios_ci_cd.Engine.Cycles.Paths.{Edge}
use helios_ci_cd.Engine.Cycles.Completeness.{IsClosed, detect_cycles-ranked}
use helios_ci_cd.Engine.Scheduler.Progress.{IsRanked}

outs-nexts_of : (d : Dag) (x : String) → nexts_of d x ≡ outs (lookup x d.nodes)
unfolding nexts_of out_of
outs-nexts_of d x = by_node (lookup x d.nodes)
  where
    by_node : (o : Option Node) → out_of o ≡ outs o
    by_node none = refl
    by_node (some n) = refl

member-keys :
    (m : Dict Node) (x : String) (n : Node) → lookup x m ≡ some n → member x (keys m) ≡ true
unfolding lookup
member-keys [] x n f = cc f
member-keys (e ∷ m) x n f = elim (Bool-cases (str_eq e.0 x)) [
  | inl same ↦ rw same refl
  | inr other ↦ rw other (member-keys m x n (rw other at f))
]

-- An edge of the search is an edge at its lower end.
arrives :
    (d : Dag) → IsLinked d → (x y : String) → Edge d x y → member x (ins (lookup y d.nodes)) ≡ true
arrives d h x y e = h.both_ends x y ∙ ap (member y) (sym (outs-nexts_of d x)) ∙ e

departs :
    (d : Dag) → IsLinked d → (x y : String) → member x (ins (lookup y d.nodes)) ≡ true → Edge d x y
departs d h x y e = ap (member y) (outs-nexts_of d x) ∙ sym (h.both_ends x y) ∙ e

-- The edges of a linked graph lead to nodes of it.
linked-IsClosed : (d : Dag) → IsLinked d → IsClosed d (keys d.nodes)
linked-IsClosed d h x y e = elim (Option-cases (lookup y d.nodes)) [
  | inl none_there ↦ cc (rw none_there at (arrives d h x y e))
  | inr (n, f) ↦ member-keys d.nodes y n f
]

-- When DetectCycles reports nothing on the graph of a pipeline, the stages have ranks that grow along
-- its edges.
pub build_dag-IsRanked :
    (p : Option Pipeline)
    → detect_cycles (build_dag p) ≡ []
    → (rank : String → ℕ) × IsRanked (build_dag p) rank
build_dag-IsRanked p quiet =
    let d = build_dag p in
    let h = build_dag-IsLinked p in
    let (fall, bound, within, falls) = detect_cycles-ranked d (linked-IsClosed d h) quiet in
    (
      λ x. bound - fall x,
      record {
        known = h.known;
        closed = λ id dep n f m. h.from_node dep id (rw f m);
        below =
            λ id dep n f m. omega (arith, falls dep id (departs d h dep id (rw f m)), within dep);
      },
    )
