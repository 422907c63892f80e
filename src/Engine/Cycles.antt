-- ===== src/Engine/Cycles.antt =====
-- api/pkg/engine/dag.go: DetectCycles, the depth-first search that colours the nodes.
pub mod Paths
pub mod Soundness
pub mod Finished
pub mod Coloring
pub mod Completeness
pub mod Ranks
mod Examples
use helios_ci_cd.Prelude.{
  ℕ, zero, suc, String, Bool, true, Option, none, some, List, [], ◌∷◌, ◌++◌, length, str_eq,
  if◌then◌else◌, Dict, lookup, insert, has_key, keys,
}
use helios_ci_cd.Prelude.Texts.{sort_texts, text_le, join}
use helios_ci_cd.Engine.Dag.{Dag, Node}

pub data Color : Type 0 where
  white gray black : Color

-- The variables that the search shares. `stack` has its top first, the source's slice its top last.
pub record Search : Type 0 where
  pub color : Dict Color
  pub stack : List String
  pub cycles : List (List String)
  pub reported : Dict Bool

abbrev pub or_white : Option Color → Color
or_white none = white
or_white (some c) = c

abbrev pub color_of : Search → String → Color
color_of st id = or_white (lookup id st.color)

out_of : Option Node → List String
out_of none = []
out_of (some n) = n.out_edges

-- d.Nodes[id].Out
unfoldable pub nexts_of : Dag → String → List String
unfolding out_of
nexts_of d id = out_of (lookup id d.nodes)

unfoldable pub reverse_onto : List String → List String → List String
reverse_onto [] ys = ys
reverse_onto (x ∷ xs) ys = reverse_onto xs (x ∷ ys)

-- The stack from its top down to the first `id`, that one included: the source's stack[idx:],
-- backwards. A stack without `id` gives its top alone.
unfoldable pub down_to : String → List String → Option (List String)
down_to id [] = none
down_to id (x ∷ xs) =
    let deeper = down_to id xs in
    if str_eq x id then some (x ∷ []) else elim deeper [ none ↦ none | some ys ↦ some (x ∷ ys) ]

unfoldable pub top : List String → List String
top [] = []
top (x ∷ xs) = x ∷ []

unfoldable pub loop_from : List String → Option (List String) → List String
loop_from stack none = top stack
loop_from stack (some xs) = reverse_onto xs []

unfoldable pub loop_of : String → List String → List String
loop_of id stack = loop_from stack (down_to id stack)

-- canonicalCycle: the rotation that begins with the first of the least names. `best` is what the
-- loop has found, with what stands before it.
unfoldable pub rotate_from : (before best after acc : List String) → List String
rotate_from before best [] acc = best ++ before
rotate_from before [] (x ∷ xs) acc = rotate_from before (x ∷ []) xs (acc ++ x ∷ [])
rotate_from before (b ∷ bs) (x ∷ xs) acc =
    let keep = rotate_from before (b ∷ bs ++ x ∷ []) xs (acc ++ x ∷ []) in
    let move = rotate_from acc (x ∷ []) xs (acc ++ x ∷ []) in if text_le b x then keep else move

unfoldable pub canonical_cycle : List String → List String
canonical_cycle path = rotate_from [] [] path []

-- A gray node was met: the loop on the stack is a cycle, reported once.
unfoldable pub report : String → Search → Search
report nxt st =
    let loop = loop_of nxt st.stack in
    let key = join ">" (canonical_cycle loop) in
    if has_key key st.reported then st else record st {
      cycles = st.cycles ++ (loop ++ nxt ∷ []) ∷ [];
      reported = insert key true st.reported;
    }

unfoldable pub meet : (Search → String → Search) → Search → String → Search
meet dfs st nxt = elim (color_of st nxt) [ gray ↦ report nxt st | white ↦ dfs st nxt | black ↦ st ]

unfoldable pub meet_all : (Search → String → Search) → Search → List String → Search
meet_all dfs st [] = st
meet_all dfs st (nxt ∷ nexts) = meet_all dfs (meet dfs st nxt) nexts

unfoldable pub pop : List String → List String
pop [] = []
pop (x ∷ xs) = xs

unfoldable pub enter : String → Search → Search
enter id st = record st { color = insert id gray st.color; stack = id ∷ st.stack }

unfoldable pub leave : String → Search → Search
leave id st = record st { color = insert id black st.color; stack = pop st.stack }

-- dfs: each call within a call colours one more node, so one more than the nodes is enough fuel.
unfoldable pub dfs : ℕ → Dag → Search → String → Search
dfs zero d st id = st
dfs (suc fuel) d st id = leave id (meet_all (dfs fuel d) (enter id st) (sort_texts (nexts_of d id)))

unfoldable pub search_from : ℕ → Dag → Search → List String → Search
search_from fuel d st [] = st
search_from fuel d st (r ∷ roots) =
    search_from fuel d (elim (color_of st r) [ white ↦ dfs fuel d st r | _ ↦ st ]) roots

-- DetectCycles
unfoldable pub detect_cycles : Dag → List (List String)
detect_cycles d =
    (search_from (suc (length d.nodes)) d
      (record { color = []; stack = []; cycles = []; reported = [] })
      (sort_texts (keys d.nodes))).cycles
