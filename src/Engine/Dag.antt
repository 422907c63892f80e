-- ===== src/Engine/Dag.antt =====
-- api/pkg/engine/dag.go: the graph of stages. A `*Node` of the source is shared by its map alone,
-- so a node is a value in the map and a change of it is a change of that entry.
pub mod Links
pub mod Built
use helios_ci_cd.Prelude.{
  String, Option, none, some, List, [], ◌∷◌, ◌++◌, str_eq, if◌then◌else◌, Dict, lookup, insert,
  has_key,
}
use helios_ci_cd.Dsl.{Stage, Pipeline}

pub record Node : Type 0 where
  pub id : String
  pub stage : Stage
  pub in_edges : List String
  pub out_edges : List String

pub record Dag : Type 0 where
  pub nodes : Dict Node
  pub order : List String
  pub dangling : Dict (List String)

abbrev pub empty : Dag
empty = record { nodes = []; order = []; dangling = [] }

-- The first loop of BuildDAG: a node for each stage with an id that is not taken.
unfoldable pub add_stages : Dag → List Stage → Dag
add_stages dag [] = dag
add_stages dag (s ∷ stages) =
    let added = record dag {
      nodes =
          insert s.id (record { id = s.id; stage = s; in_edges = []; out_edges = [] }) dag.nodes;
      order = dag.order ++ s.id ∷ [];
    } in
    add_stages (if str_eq s.id "" then dag else if has_key s.id dag.nodes then dag else added)
      stages

-- n.In = append(n.In, dep), on the node of the map.
add_in : String → Node → Node
add_in dep n = record n { in_edges = n.in_edges ++ dep ∷ [] }

add_out : String → Node → Node
add_out id n = record n { out_edges = n.out_edges ++ id ∷ [] }

unfoldable pub modify {ℓ} : {V : Type ℓ} → String → (V → V) → Dict V → Dict V
modify k f [] = []
modify k f ((j, v) ∷ m) =
    let rest = modify k f m in if str_eq j k then (j, f v) ∷ m else (j, v) ∷ rest

list_of : Option (List String) → List String
list_of none = []
list_of (some l) = l

-- One need of the second loop.
unfoldable pub connect : String → Dag → String → Dag
unfolding add_in add_out list_of
connect id dag dep =
    if str_eq dep id
    then dag
    else if has_key dep dag.nodes
    then record dag { nodes = modify dep (add_out id) (modify id (add_in dep) dag.nodes) }
    else record dag {
      dangling = insert id (list_of (lookup id dag.dangling) ++ dep ∷ []) dag.dangling;
    }

unfoldable pub connect_all : String → Dag → List String → Dag
connect_all id dag [] = dag
connect_all id dag (dep ∷ deps) = connect_all id (connect id dag dep) deps

needs_of : Option Node → List String
needs_of none = []
needs_of (some n) = n.stage.needs

unfoldable pub connect_nodes : Dag → List String → Dag
unfolding needs_of
connect_nodes dag [] = dag
connect_nodes dag (id ∷ order) =
    connect_nodes (connect_all id dag (needs_of (lookup id dag.nodes))) order

-- BuildDAG
unfoldable pub build_dag : Option Pipeline → Dag
build_dag none = empty
build_dag (some p) = let dag = add_stages empty p.stages in connect_nodes dag dag.order
