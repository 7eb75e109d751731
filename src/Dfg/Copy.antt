-- ===== src/Dfg/Copy.antt =====
-- dfg/dfg.cpp, `operator=`: the copy of a graph into an empty one.
use fdra.Prelude.{
  ℕ, suc, true, false, Option, none, some, [], ◌∷◌, ◌≡◌, refl, sym, ◌∙◌, ◌==◌, inl, inr, arith,
  is_some, Option-cases, Bool-cases, nat_key, pair_key,
}
use fdra.Prelude.Map
use fdra.Prelude.Map.{Map}
use fdra.Prelude.Set
use fdra.Prelude.Sorted.{IsFrom, IsSorted, lookup_below, insert-IsSorted}
use fdra.Graph.Edge.{GraphEdge}
use fdra.Graph.Node
use fdra.Dfg.Node.{DfgNode}
use fdra.Dfg.Store.{Dfg, node, edge, copy_node, copy_nodes, copy_edges, assign}
use fdra.Dfg.Ends.{has_src_edge, has_src_pair, dst_edge, dst_pair}
use fdra.Dfg.Content.{SameOwn}
use fdra.Dfg.Consistent.{IsConsistent}
use fdra.Dfg.Consistent.Grow.{HaveSameEnds, IsConsistent-same}

-- The nodes of the table that are listed as input and output nodes are those that have that part.
abbrev pub AllIo : Dfg → Map ℕ DfgNode → Type 0
AllIo that [] = Unit {0}
AllIo that ((id, n) ∷ ns) = (Set.count id that.io_nodes ≡ is_some n.io) × AllIo that ns

copy_node-same :
    (that : Dfg) (id : ℕ) (n : DfgNode)
    → Set.count id that.io_nodes ≡ is_some n.io
    → copy_node that id n ≡ some n
copy_node-same that id n is_io = elim (Option-cases n.io) [
  | inl plain ↦
      let listed : Set.count id that.io_nodes ≡ false = is_io ∙ rw plain refl in
      rw listed (rw (sym plain) refl)
  | inr (part, there) ↦
      let listed : Set.count id that.io_nodes ≡ true = is_io ∙ rw there refl in
      ground (arith, listed, there)
]

abbrev first_of {ℓ} : {A : Type ℓ} → Option A → Option A → Option A
first_of (some a) other = some a
first_of none other = other

first_of-none {ℓ} : {A : Type ℓ} (a : Option A) → first_of a none ≡ a
first_of-none none = refl
first_of-none (some a) = refl

copy_nodes-same :
    (that : Dfg) (k : ℕ) (ns copies : Map ℕ DfgNode)
    → IsFrom k ns
    → AllIo that ns
    → IsSorted copies
    → (r : Map ℕ DfgNode) × (copy_nodes that ns copies ≡ some r)
      × IsSorted r
      × ((i : ℕ) → Map.lookup i r ≡ first_of (Map.lookup i ns) (Map.lookup i copies))
unfolding copy_nodes
copy_nodes-same that k [] copies rising ios sorted = (copies, refl, sorted, λ i. refl)
copy_nodes-same that k ((id, n) ∷ ns) copies (at, rising) (has_io, ios) sorted =
    let (r, run, sorted', found) =
      copy_nodes-same that (suc id) ns (Map.insert id n copies) rising ios
        (insert-IsSorted id n copies sorted) in
    (
      r,
      rw (copy_node-same that id n has_io) run,
      sorted',
      λ i. found i ∙ elim (Bool-cases (id == i)) [
        | inl own ↦
            let absent : Map.lookup i ns ≡ none =
              lookup_below i (suc id) ns (ground arith) rising in
            rw (absent, Map.lookup-insert i id n copies, own) refl
        | inr other ↦ rw (Map.lookup-insert i id n copies, other) refl
      ],
    )

copy_edges-same :
    (k : ℕ) (es copies : Map ℕ GraphEdge) (i : ℕ)
    → IsFrom k es
    → Map.lookup i (copy_edges es copies) ≡ first_of (Map.lookup i es) (Map.lookup i copies)
unfolding copy_edges
copy_edges-same k [] copies i rising = refl
copy_edges-same k ((id, e) ∷ es) copies i (at, rising) =
    copy_edges-same (suc id) es (Map.insert id e copies) i rising ∙ elim (Bool-cases (id == i)) [
      | inl own ↦
          let absent : Map.lookup i es ≡ none = lookup_below i (suc id) es (ground arith) rising in
          rw (absent, Map.lookup-insert i id e copies, own) refl
      | inr other ↦ rw (Map.lookup-insert i id e copies, other) refl
    ]

copy_edges-IsSorted :
    (es copies : Map ℕ GraphEdge) → IsSorted copies → IsSorted (copy_edges es copies)
unfolding copy_edges
copy_edges-IsSorted [] copies sorted = sorted
copy_edges-IsSorted ((id, e) ∷ es) copies sorted =
    copy_edges-IsSorted es (Map.insert id e copies) (insert-IsSorted id e copies sorted)

ends_of-same :
    (n m : Option DfgNode) (p i c q : ℕ)
    → m ≡ n
    → (elim m [ none ↦ false | some x ↦ Set.count i (Node.output_edge p x.graph_node) ]
        ≡ elim n [ none ↦ false | some x ↦ Set.count i (Node.output_edge p x.graph_node) ])
      × (elim m [ none ↦ false | some x ↦ Set.count (c, q) (Node.output p x.graph_node) ]
          ≡ elim n [ none ↦ false | some x ↦ Set.count (c, q) (Node.output p x.graph_node) ])
      × (elim m [ none ↦ none | some x ↦ Node.input_edge p x.graph_node ]
          ≡ elim n [ none ↦ none | some x ↦ Node.input_edge p x.graph_node ])
      × (elim m [ none ↦ none | some x ↦ Map.lookup p x.graph_node.inputs ]
          ≡ elim n [ none ↦ none | some x ↦ Map.lookup p x.graph_node.inputs ])
      × (is_some m ≡ is_some n)
ends_of-same n m p i c q same =
    (rw same refl, rw same refl, rw same refl, rw same refl, rw same refl)

-- The copy.
pub record IsCopy (that g : Dfg) : Type 0 where
  pub nodes_sorted : IsSorted g.nodes
  pub edges_sorted : IsSorted g.edges
  pub ends : (n p i c q : ℕ) → HaveSameEnds that g n p i c q
  pub same_node : (i : ℕ) → node i g ≡ node i that
  pub rest : SameOwn that g
  pub own_id : g.id ≡ that.id

pub assign-IsCopy :
    (this that : Dfg)
    → this.nodes ≡ []
    → this.edges ≡ []
    → IsSorted that.nodes
    → IsSorted that.edges
    → AllIo that that.nodes
    → (g : Dfg) × (assign this that ≡ some g) × IsCopy that g
unfolding assign has_src_edge has_src_pair dst_edge dst_pair node edge
assign-IsCopy this that no_nodes no_edges nodes_rise edges_rise ios =
    let (r, run, sorted, found) =
      copy_nodes-same that 0 that.nodes this.nodes nodes_rise ios (rw no_nodes tt) in
    let es = copy_edges that.edges this.edges in
    let g : Dfg = record {
      graph = that.graph;
      nodes = r;
      edges = es;
      io_nodes = that.io_nodes;
      topo_nodes = that.topo_nodes;
    } in
    let same_edge : (i : ℕ) → Map.lookup i es ≡ Map.lookup i that.edges = λ i.
      copy_edges-same 0 that.edges this.edges i edges_rise
      ∙ rw no_edges (first_of-none (Map.lookup i that.edges)) in
    let same_node : (i : ℕ) → Map.lookup i r ≡ Map.lookup i that.nodes =
      λ i. found i ∙ rw no_nodes (first_of-none (Map.lookup i that.nodes)) in
    (
      g,
      rw run refl,
      record {
        nodes_sorted = sorted;
        edges_sorted = copy_edges-IsSorted that.edges this.edges (rw no_edges tt);
        ends = λ n p i c q.
            let a = ends_of-same (Map.lookup n that.nodes) (Map.lookup n r) p i c q (same_node n) in
            elim (Bool-cases (n == that.id)) [
              | inl own ↦ rw own (refl, refl, refl, refl, same_edge i)
              | inr other ↦ rw other (a.0, a.1, a.2, a.3, same_edge i)
            ];
        same_node = same_node;
        rest = record { own = refl; io_nodes = refl; topo_nodes = refl };
        own_id = refl;
      },
    )

pub IsCopy-Consistent : (that g : Dfg) → IsCopy that g → IsConsistent that → IsConsistent g
IsCopy-Consistent that g copy = IsConsistent-same that g copy.ends
