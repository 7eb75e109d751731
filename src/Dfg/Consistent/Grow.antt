-- ===== src/Dfg/Consistent/Grow.antt =====
-- Where `addEdge` succeeds, and a node that is added without edges.
use fdra.Prelude.{
  ℕ, Bool, true, none, some, [], ◌≡◌, ◌==◌, ◌||◌, arith, is_some, is_some_value, nat_key, pair_key,
}
use fdra.Prelude.Options.{◌>>=◌}
use fdra.Prelude.Map
use fdra.Graph.Edge.{GraphEdge}
use fdra.Graph.Node
use fdra.Dfg.Node.{DfgNode}
use fdra.Dfg.Store.{Dfg, node, edge, add_node, add_edge, add_edge_src, add_edge_dst}
use fdra.Dfg.Ends.{has_src_edge, has_src_pair, dst_edge, dst_pair}
use fdra.Dfg.Ends.Add.{src-Adds}
use fdra.Dfg.Consistent.{Runs, IsConsistent}

-- The graph itself, or a node of it.
abbrev pub knows : Dfg → ℕ → Bool
knows g n = n == g.id || is_some (node n g)

add_edge_src_total :
    (e : GraphEdge) (g : Dfg) → knows g e.src_id ≡ true → (h : Dfg) × (add_edge_src e g ≡ some h)
unfolding add_edge_src
add_edge_src_total e g known = is_some_value (add_edge_src e g) (ground arith)

add_edge_dst_total :
    (e : GraphEdge) (g : Dfg) → knows g e.dst_id ≡ true → (h : Dfg) × (add_edge_dst e g ≡ some h)
unfolding add_edge_dst
add_edge_dst_total e g known = is_some_value (add_edge_dst e g) (ground arith)

pub add_edge_total :
    (e : GraphEdge) (g : Dfg)
    → knows g e.src_id ≡ true
    → knows g e.dst_id ≡ true
    → (g' : Dfg) × (add_edge e g ≡ some g')
unfolding add_edge node
add_edge_total e g src dst =
    let g0 = record g { edges = Map.insert e.id e g.edges } in
    let (h, first) = add_edge_src_total e g0 src in
    let a = src-Adds e g0 h first e.dst_id 0 0 0 0 in
    let (g', second) = add_edge_dst_total e h (ground (arith, a, dst)) in
    (g', rw (first, ◌>>=◌) second)

-- The ends of an edge of a consistent graph are known.
pub ends-knows :
    (g : Dfg) (i : ℕ) (e : GraphEdge)
    → IsConsistent g
    → edge i g ≡ some e
    → (knows g e.src_id ≡ true) × (knows g e.dst_id ≡ true)
unfolding has_src_edge dst_edge
ends-knows g i e c stored =
    (ground (arith, c.src_edge i e stored), ground (arith, c.in_edge i e stored))

-- Two graphs with the same edges, whose ends read the same.
abbrev pub HaveSameEnds : Dfg → Dfg → ℕ → ℕ → ℕ → ℕ → ℕ → Type 0
HaveSameEnds g g' n p i c q =
    (has_src_edge g' n p i ≡ has_src_edge g n p i)
    × (has_src_pair g' n p (c, q) ≡ has_src_pair g n p (c, q))
    × (dst_edge g' n p ≡ dst_edge g n p)
    × (dst_pair g' n p ≡ dst_pair g n p)
    × (edge i g' ≡ edge i g)

module _ (g g' : Dfg) (same : (n p i c q : ℕ) → HaveSameEnds g g' n p i c q) where
  Runs-same : (n p i c q : ℕ) → Runs g n p i c q → Runs g' n p i c q
  Runs-same n p i c q r = record {
    e = r.e;
    stored = ground (arith, same n p i c q, r.stored);
    src = r.src;
    src_port = r.src_port;
    dst = r.dst;
    dst_port = r.dst_port;
  }

  was_stored : (i : ℕ) (e : GraphEdge) → edge i g' ≡ some e → edge i g ≡ some e
  was_stored i e h = ground (arith, same 0 0 i 0 0)

  pub IsConsistent-same : IsConsistent g → IsConsistent g'
  IsConsistent-same old = record {
    keyed = λ i e h. old.keyed i e (was_stored i e h);
    src_edge = λ i e h.
        ground (arith, same e.src_id e.src_port_idx i 0 0, old.src_edge i e (was_stored i e h));
    src_pair = λ i e h. ground (
      arith,
      same e.src_id e.src_port_idx 0 e.dst_id e.dst_port_idx,
      old.src_pair i e (was_stored i e h),
    );
    in_edge = λ i e h.
        ground (arith, same e.dst_id e.dst_port_idx 0 0 0, old.in_edge i e (was_stored i e h));
    in_pair = λ i e h.
        ground (arith, same e.dst_id e.dst_port_idx 0 0 0, old.in_pair i e (was_stored i e h));
    src_edge_only = λ n p i h.
        let (c, q, r) = old.src_edge_only n p i (ground (arith, same n p i 0 0)) in
        (c, q, Runs-same n p i c q r);
    src_pair_only = λ n p c q h.
        let (i, r) = old.src_pair_only n p c q (ground (arith, same n p 0 c q)) in
        (i, Runs-same n p i c q r);
    in_edge_only = λ c q i h.
        let (n, p, r) = old.in_edge_only c q i (ground (arith, same c q 0 0 0)) in
        (n, p, Runs-same n p i c q r);
    in_pair_only = λ c q n p h.
        let (i, r) = old.in_pair_only c q n p (ground (arith, same c q 0 0 0)) in
        (i, Runs-same n p i c q r);
  }

-- The new node shows no ends.
module _ (x : DfgNode) (g : Dfg) (new : node x.id g ≡ none) (no_inputs : x.inputs ≡ [])
    (no_outputs : x.outputs ≡ []) (no_input_edges : x.input_edges ≡ [])
    (no_output_edges : x.output_edges ≡ []) where
  pub add_node-ends :
      (n p i c q : ℕ)
      → let g' = add_node x g in
        (has_src_edge g' n p i ≡ has_src_edge g n p i)
        × (has_src_pair g' n p (c, q) ≡ has_src_pair g n p (c, q))
        × (dst_edge g' n p ≡ dst_edge g n p)
        × (dst_pair g' n p ≡ dst_pair g n p)
        × (is_some (node n g') ≡ (x.id == n || is_some (node n g)))
        × (edge i g' ≡ edge i g)
        × (g'.id ≡ g.id)
  unfolding add_node has_src_edge has_src_pair dst_edge dst_pair node edge Node.output_edge
      Node.output Node.input_edge
  add_node-ends n p i c q =
      let stored = Map.lookup-insert n x.id x g.nodes in
      (
        ground (arith, stored, new, no_output_edges),
        ground (arith, stored, new, no_outputs),
        ground (arith, stored, new, no_input_edges),
        ground (arith, stored, new, no_inputs),
        ground (arith, stored),
        ground arith,
        ground arith,
      )

  -- So the graph stays consistent.
  pub add_node-IsConsistent : IsConsistent g → IsConsistent (add_node x g)
  add_node-IsConsistent =
      IsConsistent-same g (add_node x g)
        (λ n p i c q. let a = add_node-ends n p i c q in (a.0, a.1, a.2, a.3, a.5))
