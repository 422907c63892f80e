-- ===== src/Engine/Dag/Links.antt =====
-- The nodes that BuildDAG of api/pkg/engine/dag.go makes, and the edges between them.
use mathlib.Core.Path.{subst}
use helios_ci_cd.Prelude.{
  String, Bool, true, false, ◌&&◌, ◌||◌, ◌≡◌, ◌≢◌, refl, sym, ◌∙◌, ap, inl, inr, Option, none, some,
  List, [], ◌∷◌, ◌++◌, arith, member, str_eq, eq_iff, eq_refl, Bool-cases, Option-cases,
  if◌then◌else◌, Dict, lookup, has_key,
}
use helios_ci_cd.Engine.Dag.{
  Dag, Node, add_in, add_out, modify, connect, connect_all, connect_nodes, needs_of,
}

apply_to {ℓ} : {V : Type ℓ} → (V → V) → Option V → Option V
apply_to f none = none
apply_to f (some v) = some (f v)

lookup-modify {ℓ} :
    {V : Type ℓ} (k x : String) (f : V → V) (m : Dict V)
    → lookup x (modify k f m) ≡ (if str_eq k x then apply_to f (lookup x m) else lookup x m)
unfolding lookup modify apply_to
lookup-modify k x f [] = ground arith
lookup-modify k x f ((j, v) ∷ m) =
    ground (arith, lookup-modify k x f m, eq_iff j k, eq_iff j x, eq_iff k x)

has_key-lookup {ℓ} :
    {V : Type ℓ} (k : String) (m : Dict V) → has_key k m ≡ true → (v : V) × (lookup k m ≡ some v)
unfolding has_key lookup
has_key-lookup k [] h = cc h
has_key-lookup k (e ∷ m) h = elim (Bool-cases (str_eq e.0 k)) [
  | inl same ↦ (e.1, rw same refl)
  | inr other ↦ let (v, f) = has_key-lookup k m (rw other at h) in (v, rw other f)
]

abbrev pub ins : Option Node → List String
ins none = []
ins (some n) = n.in_edges

abbrev pub outs : Option Node → List String
outs none = []
outs (some n) = n.out_edges

-- The order names the nodes, the edges lead between nodes, and each edge stands at both of its ends.
pub record IsLinked (dag : Dag) : Type 0 where
  pub known :
      (id : String) → member id dag.order ≡ true → (n : Node) × (lookup id dag.nodes ≡ some n)
  pub named : (id : String) (n : Node) → lookup id dag.nodes ≡ some n → member id dag.order ≡ true
  pub both_ends :
      (x y : String) → member x (ins (lookup y dag.nodes)) ≡ member y (outs (lookup x dag.nodes))
  pub from_node :
      (x y : String) → member x (ins (lookup y dag.nodes)) ≡ true → member x dag.order ≡ true

pub member-snoc :
    (x : String) (xs : List String) (y : String)
    → member x (xs ++ y ∷ []) ≡ (member x xs || str_eq y x)
member-snoc x [] y = ground arith
member-snoc x (z ∷ xs) y = ground (arith, member-snoc x xs y)

known-modify {ℓ} :
    {V : Type ℓ} (k x : String) (f : V → V) (m : Dict V) (v : V)
    → lookup x m ≡ some v
    → (w : V) × (lookup x (modify k f m) ≡ some w)
unfolding apply_to
known-modify k x f m v h = elim (Bool-cases (str_eq k x)) [
  | inl e ↦ (f v, lookup-modify k x f m ∙ rw (e, h) refl)
  | inr e ↦ (v, lookup-modify k x f m ∙ rw (e, h) refl)
]

named-modify {ℓ} :
    {V : Type ℓ} (k x : String) (f : V → V) (m : Dict V) (w : V)
    → lookup x (modify k f m) ≡ some w
    → (v : V) × (lookup x m ≡ some v)
unfolding apply_to
named-modify k x f m w h = elim (Option-cases (lookup x m)) [
  | inr found ↦ found
  | inl n ↦ elim (Bool-cases (str_eq k x)) [
    | inl e ↦ cc (rw (e, n) at (sym (lookup-modify k x f m) ∙ h))
    | inr e ↦ cc (rw (e, n) at (sym (lookup-modify k x f m) ∙ h))
  ]
]

ins_kept :
    (id : String) (b : Bool) (o : Option Node)
    → ins (if b then apply_to (add_out id) o else o) ≡ ins o
unfolding apply_to add_out
ins_kept id true none = refl
ins_kept id true (some k) = refl
ins_kept id false o = refl

outs_kept :
    (dep : String) (b : Bool) (o : Option Node)
    → outs (if b then apply_to (add_in dep) o else o) ≡ outs o
unfolding apply_to add_in
outs_kept dep true none = refl
outs_kept dep true (some k) = refl
outs_kept dep false o = refl

ins_added :
    (dep x : String) (b : Bool) (o : Option Node)
    → (b ≡ true → o ≢ none)
    → member x (ins (if b then apply_to (add_in dep) o else o))
      ≡ (member x (ins o) || (b && str_eq dep x))
unfolding apply_to add_in
ins_added dep x true none h = absurd (h refl refl)
ins_added dep x true (some n) h = member-snoc x n.in_edges dep
ins_added dep x false o h = ground arith

outs_added :
    (id y : String) (b : Bool) (o : Option Node)
    → (b ≡ true → o ≢ none)
    → member y (outs (if b then apply_to (add_out id) o else o))
      ≡ (member y (outs o) || (b && str_eq id y))
unfolding apply_to add_out
outs_added id y true none h = absurd (h refl refl)
outs_added id y true (some n) h = member-snoc y n.out_edges id
outs_added id y false o h = ground arith

some-ne-none {ℓ} :
    {V : Type ℓ} (k x : String) (m : Dict V) (v : V)
    → lookup k m ≡ some v
    → str_eq k x ≡ true
    → lookup x m ≢ none
some-ne-none k x m v found same e = cc (sym found ∙ ap (λ z. lookup z m) ((eq_iff k x).0 same) ∙ e)

-- Edges after one is added at both ends.
abbrev linked : String → String → Dict Node → Dict Node
linked id dep m = modify dep (add_out id) (modify id (add_in dep) m)

ins-linked :
    (id dep x y : String) (m : Dict Node) (n : Node)
    → lookup id m ≡ some n
    → member x (ins (lookup y (linked id dep m)))
      ≡ (member x (ins (lookup y m)) || (str_eq id y && str_eq dep x))
ins-linked id dep x y m n found =
    ap (λ o. member x (ins o)) (lookup-modify dep y (add_out id) (modify id (add_in dep) m))
    ∙ ap (λ es. member x es) (ins_kept id (str_eq dep y) (lookup y (modify id (add_in dep) m)))
    ∙ ap (λ o. member x (ins o)) (lookup-modify id y (add_in dep) m)
    ∙ ins_added dep x (str_eq id y) (lookup y m) (some-ne-none id y m n found)

outs-linked :
    (id dep x y : String) (m : Dict Node) (k : Node)
    → lookup dep m ≡ some k
    → member y (outs (lookup x (linked id dep m)))
      ≡ (member y (outs (lookup x m)) || (str_eq dep x && str_eq id y))
outs-linked id dep x y m k found =
    let (k', found') = known-modify id dep (add_in dep) m k found in
    ap (λ o. member y (outs o)) (lookup-modify dep x (add_out id) (modify id (add_in dep) m))
    ∙ outs_added id y (str_eq dep x) (lookup x (modify id (add_in dep) m))
        (some-ne-none dep x (modify id (add_in dep) m) k' found')
    ∙ ap (λ es. member y es || (str_eq dep x && str_eq id y))
        (ap outs (lookup-modify id x (add_in dep) m) ∙ outs_kept dep (str_eq id x) (lookup x m))

linked-IsLinked :
    (id dep : String) (dag : Dag) (n k : Node)
    → lookup id dag.nodes ≡ some n
    → lookup dep dag.nodes ≡ some k
    → IsLinked dag
    → IsLinked (record dag { nodes = linked id dep dag.nodes })
linked-IsLinked id dep dag n k found there h = record {
  known = λ x m.
      let (v, f) = h.known x m in
      let (w, g) = known-modify id x (add_in dep) dag.nodes v f in
      known-modify dep x (add_out id) (modify id (add_in dep) dag.nodes) w g;
  named = λ x v f.
      let (w, g) = named-modify dep x (add_out id) (modify id (add_in dep) dag.nodes) v f in
      let (u, e) = named-modify id x (add_in dep) dag.nodes w g in h.named x u e;
  both_ends = λ x y.
      ins-linked id dep x y dag.nodes n found
      ∙ swapped (str_eq id y) (str_eq dep x) (h.both_ends x y)
      ∙ sym (outs-linked id dep x y dag.nodes k there);
  from_node = λ x y m. old_or_new x y (sym (ins-linked id dep x y dag.nodes n found) ∙ m);
}
  where
    swapped : (a b : Bool) {p q : Bool} → p ≡ q → (p || (a && b)) ≡ (q || (b && a))
    swapped a b e = ground (arith, e)

    old_or_new :
        (x y : String)
        → (member x (ins (lookup y dag.nodes)) || (str_eq id y && str_eq dep x)) ≡ true
        → member x dag.order ≡ true
    old_or_new x y m = elim (Bool-cases (member x (ins (lookup y dag.nodes)))) [
      | inl old ↦ h.from_node x y old
      | inr new ↦
          subst (λ z. member z dag.order ≡ true) ((eq_iff dep x).0 (ground (arith, m, new)))
            (h.named dep k there)
    ]

connect-IsLinked :
    (id dep : String) (dag : Dag)
    → member id dag.order ≡ true
    → IsLinked dag
    → IsLinked (connect id dag dep) × ((connect id dag dep).order ≡ dag.order)
unfolding connect
connect-IsLinked id dep dag here h = elim (Bool-cases (str_eq dep id)) [
  | inl self ↦ rw self (h, refl)
  | inr other ↦ elim (Bool-cases (has_key dep dag.nodes)) [
    | inl there ↦
        let (n, found) = h.known id here in
        let (k, found') = has_key-lookup dep dag.nodes there in
        rw (other, there) (linked-IsLinked id dep dag n k found found' h, refl)
    | inr missing ↦
        rw (other, missing)
          (
            record {
              known = h.known;
              named = h.named;
              both_ends = h.both_ends;
              from_node = h.from_node;
            },
            refl,
          )
  ]
]

connect_all-IsLinked :
    (id : String) (deps : List String) (dag : Dag)
    → member id dag.order ≡ true
    → IsLinked dag
    → IsLinked (connect_all id dag deps) × ((connect_all id dag deps).order ≡ dag.order)
unfolding connect_all
connect_all-IsLinked id [] dag here h = (h, refl)
connect_all-IsLinked id (dep ∷ deps) dag here h =
    let (one, same) = connect-IsLinked id dep dag here h in
    let (rest, same') =
      connect_all-IsLinked id deps (connect id dag dep)
        (subst (λ o. member id o ≡ true) (sym same) here) one in
    (rest, same' ∙ same)

pub connect_nodes-IsLinked :
    (ids : List String) (dag : Dag)
    → ((x : String) → member x ids ≡ true → member x dag.order ≡ true)
    → IsLinked dag
    → IsLinked (connect_nodes dag ids)
unfolding connect_nodes
connect_nodes-IsLinked [] dag sub h = h
connect_nodes-IsLinked (id ∷ ids) dag sub h =
    let here = sub id (ground (arith, eq_refl id)) in
    let (one, same) = connect_all-IsLinked id (needs_of (lookup id dag.nodes)) dag here h in
    connect_nodes-IsLinked ids _
      (λ x m. subst (λ o. member x o ≡ true) (sym same) (sub x (ground (arith, m)))) one
