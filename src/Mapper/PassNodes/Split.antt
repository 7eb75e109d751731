-- ===== src/Mapper/PassNodes/Split.antt =====
-- mapper/mapping.cpp, `insertPassDfgNodes`: one node on one edge.
use fdra.Prelude.{
  ℕ, suc, ◌≤◌, true, none, some, ◌≡◌, refl, sym, ap, ◌==◌, ◌||◌, ◌&&◌, inl, inr, arith,
  if◌then◌else◌, is_some, Option-cases, Bool-cases, nat_key,
}
use mathlib.Core.Path.{subst}
use fdra.Graph.Edge.{GraphEdge}
use fdra.Operations
use fdra.Operations.{OpTable}
use fdra.Dfg.Node.{DfgNode, set_operation}
use fdra.Dfg.Store.{Dfg, node, edge, add_node, add_edge, del_edge}
use fdra.Dfg.Ends.{dst_edge}
use fdra.Dfg.Ends.Whole.{add_edge-Added, del_edge-Deleted}
use fdra.Dfg.Consistent.{IsConsistent}
use fdra.Dfg.Consistent.Keep.{add_edge-IsConsistent}
use fdra.Dfg.Consistent.Delete.{del_edge_safe}
use fdra.Dfg.Consistent.Grow.{
  knows, add_edge_total, ends-knows, add_node-ends, add_node-IsConsistent,
}
use fdra.Mapper.PassNodes.{new_node, Insertion, edge_in, edge_out, insert_pass}

-- The graph is consistent, and the two numbers are at least all identifiers.
pub record IsReady (s : Insertion) : Type 0 where
  pub consistent : IsConsistent s.dfg
  pub nodes_below : (i : ℕ) → is_some (node i s.dfg) ≡ true → i ≤ s.max_node_id
  pub edges_below : (i : ℕ) → is_some (edge i s.dfg) ≡ true → i ≤ s.max_edge_id
  pub own_below : (s.dfg).id ≤ s.max_node_id

-- What one round does: the edge is replaced by two that run through the new node.
pub record IsSplit (id : ℕ) (e : GraphEdge) (s s' : Insertion) : Type 0 where
  pub node_id : s'.max_node_id ≡ suc s.max_node_id
  pub edge_id : s'.max_edge_id ≡ suc (suc s.max_edge_id)
  pub nodes : (i : ℕ) → is_some (node i s'.dfg) ≡ (suc s.max_node_id == i || is_some (node i s.dfg))
  pub edges :
      (i : ℕ)
      → edge i s'.dfg ≡ (
          if suc (suc s.max_edge_id) == i
          then some (edge_out e s)
          else if suc s.max_edge_id == i
          then some (edge_in e s)
          else if id == i
          then none
          else edge i s.dfg)
  pub own_id : (s'.dfg).id ≡ (s.dfg).id

IsSplit-Ready :
    (id : ℕ) (e : GraphEdge) (s s' : Insertion)
    → IsReady s
    → IsConsistent s'.dfg
    → IsSplit id e s s'
    → IsReady s'
IsSplit-Ready id e s s' ready consistent split = record {
  consistent = consistent;
  nodes_below = λ i there. elim (Bool-cases (is_some (node i s.dfg))) [
    | inl old ↦ omega (arith, ready.nodes_below i old, split.node_id)
    | inr new ↦ ground (arith, split.nodes i, split.node_id, new, there)
  ];
  edges_below = λ i there. elim (Bool-cases (is_some (edge i s.dfg))) [
    | inl old ↦ omega (arith, ready.edges_below i old, split.edge_id)
    | inr new ↦ ground (arith, split.edges i, split.edge_id, new, there)
  ];
  own_below = omega (arith, ready.own_below, split.own_id, split.node_id);
}

-- The operation is one that the table has.
pub pass_node :
    (table : OpTable) (id : ℕ)
    → Operations.op_capable table "PASS" ≡ true
    → (x : DfgNode) × (set_operation table "PASS" (new_node id) ≡ some x)
      × (x.graph_node ≡ (new_node id).graph_node)
unfolding set_operation
pass_node table id capable = (
  record (new_node id) {
    operation = "PASS";
    op_latency = Operations.latency table "PASS";
    commutative = Operations.is_commutative table "PASS";
    accumulative = Operations.is_accumulative table "PASS";
  },
  rw capable refl,
  refl,
)

module _ (table : OpTable) (id : ℕ) (e : GraphEdge) (s : Insertion)
    (capable : Operations.op_capable table "PASS" ≡ true) (ready : IsReady s)
    (stored : edge id s.dfg ≡ some e) where
  abbrev new_id : ℕ
  new_id = suc s.max_node_id

  fresh_node : node new_id s.dfg ≡ none
  fresh_node = elim (Option-cases (node new_id s.dfg)) [
    | inl absent ↦ absent
    | inr (x, there) ↦ absurd (omega (arith, ready.nodes_below new_id (ground (arith, there))))
  ]

  fresh_edge : (i : ℕ) → suc s.max_edge_id ≤ i → edge i s.dfg ≡ none
  fresh_edge i above = elim (Option-cases (edge i s.dfg)) [
    | inl absent ↦ absent
    | inr (x, there) ↦ absurd (omega (arith, above, ready.edges_below i (ground (arith, there))))
  ]

  known_below : (n : ℕ) → knows s.dfg n ≡ true → n ≤ s.max_node_id
  known_below n known = elim (Bool-cases (n == (s.dfg).id)) [
    | inl own ↦
        let same : n ≡ (s.dfg).id = ground arith in
        subst (λ k. k ≤ s.max_node_id) (sym same) ready.own_below
    | inr other ↦ ready.nodes_below n (ground arith)
  ]

  fresh_dst : dst_edge s.dfg new_id 0 ≡ none
  unfolding dst_edge
  fresh_dst = ground (arith, fresh_node, ready.own_below)

  -- The graph without the edge and with the node; then with the first new edge.
  abbrev IsBare : Dfg → Type 0
  IsBare g =
      (n p i : ℕ)
      → (dst_edge g n p
          ≡ (if e.dst_id == n && e.dst_port_idx == p then none else dst_edge s.dfg n p))
        × (is_some (node n g) ≡ (new_id == n || is_some (node n s.dfg)))
        × (edge i g ≡ (if id == i then none else edge i s.dfg))
        × (g.id ≡ (s.dfg).id)

  abbrev IsHalf : Dfg → Type 0
  IsHalf g =
      (i : ℕ)
      → (is_some (node i g) ≡ (new_id == i || is_some (node i s.dfg)))
        × (edge i g ≡ (
            if suc s.max_edge_id == i
            then some (edge_in e s)
            else if id == i
            then none
            else edge i s.dfg))
        × (g.id ≡ (s.dfg).id)

  without :
      (x : DfgNode)
      → x.graph_node ≡ (new_node new_id).graph_node
      → (g1 : Dfg) × (del_edge id s.dfg ≡ some g1)
        × IsConsistent (add_node x g1)
        × IsBare (add_node x g1)
  without x is_new =
      let (g1, gone, c1, kept) = del_edge_safe id e s.dfg ready.consistent stored in
      let d = λ (n p i : ℕ). del_edge-Deleted id e s.dfg g1 n p i 0 0 stored gone in
      let x_id : x.id ≡ new_id = ap (λ g. g.id) is_new in
      let absent : node x.id g1 ≡ none = rw x_id (elim (Option-cases (node new_id g1)) [
        | inl absent ↦ absent
        | inr (y, there) ↦ absurd (ground (arith, d new_id 0 0, there, fresh_node))
      ]) in
      let no_in = ap (λ g. g.inputs) is_new in
      let no_out = ap (λ g. g.outputs) is_new in
      let no_in_edge = ap (λ g. g.input_edges) is_new in
      let no_out_edge = ap (λ g. g.output_edges) is_new in
      (
        g1,
        gone,
        add_node-IsConsistent x g1 absent no_in no_out no_in_edge no_out_edge c1,
        λ n p i.
            let a = add_node-ends x g1 absent no_in no_out no_in_edge no_out_edge n p i 0 0 in
            (
              ground (arith, a, d n p i),
              ground (arith, a, d n p i, x_id),
              ground (arith, a, d n p i),
              ground (arith, a, d n p i),
            ),
      )

  ends : (knows s.dfg e.src_id ≡ true) × (knows s.dfg e.dst_id ≡ true)
  ends = ends-knows s.dfg id e ready.consistent stored

  first_edge :
      (g : Dfg)
      → IsConsistent g
      → IsBare g
      → (g2 : Dfg) × (add_edge (edge_in e s) g ≡ some g2)
        × IsConsistent g2
        × (dst_edge g2 e.dst_id e.dst_port_idx ≡ none)
        × IsHalf g2
  first_edge g c d =
      let dst_below = known_below e.dst_id ends.1 in
      let (g2, done2) =
        add_edge_total (edge_in e s) g (ground (arith, d e.src_id 0 0, ends.0))
          (ground (arith, d new_id 0 0)) in
      let fresh2 : edge (suc s.max_edge_id) g ≡ none =
        ground (arith, d 0 0 (suc s.max_edge_id), fresh_edge (suc s.max_edge_id) (omega arith)) in
      let free2 : dst_edge g new_id 0 ≡ none = ground (arith, d new_id 0 0, fresh_dst) in
      let a = λ (n p i : ℕ). add_edge-Added (edge_in e s) g g2 n p i 0 0 done2 in
      (
        g2,
        done2,
        add_edge-IsConsistent (edge_in e s) g g2 c fresh2 free2 done2,
        ground (arith, a e.dst_id e.dst_port_idx 0, d e.dst_id e.dst_port_idx 0, dst_below),
        λ i. (
          ground (arith, a i 0 0, d i 0 0),
          ground (arith, a 0 0 i, d 0 0 i),
          ground (arith, a 0 0 0, d 0 0 0),
        ),
      )

  second_edge :
      (g : Dfg)
      → IsConsistent g
      → dst_edge g e.dst_id e.dst_port_idx ≡ none
      → IsHalf g
      → (g3 : Dfg) × (add_edge (edge_out e s) g ≡ some g3)
        × IsConsistent g3
        × IsSplit id e s
            (record { dfg = g3; max_node_id = new_id; max_edge_id = suc (suc s.max_edge_id) })
  second_edge g c free half =
      let (g3, done3) =
        add_edge_total (edge_out e s) g (ground (arith, half new_id))
          (ground (arith, half e.dst_id, ends.1)) in
      let k = suc (suc s.max_edge_id) in
      let fresh3 : edge k g ≡ none = ground (arith, half k, fresh_edge k (omega arith)) in
      let b = λ (n p i : ℕ). add_edge-Added (edge_out e s) g g3 n p i 0 0 done3 in
      (
        g3,
        done3,
        add_edge-IsConsistent (edge_out e s) g g3 c fresh3 free done3,
        record {
          node_id = refl;
          edge_id = refl;
          nodes = λ i. ground (arith, b i 0 0, half i);
          edges = λ i. ground (arith, b 0 0 i, half i);
          own_id = ground (arith, b 0 0 0, half 0);
        },
      )

  -- One round succeeds.
  pub insert_pass-IsReady :
      (s' : Insertion) × (insert_pass table id s ≡ some s') × IsReady s' × IsSplit id e s s'
  unfolding insert_pass
  insert_pass-IsReady =
      let (x, is_x, is_new) = pass_node table new_id capable in
      let (g1, gone, c1, bare) = without x is_new in
      let (g2, done2, c2, free, half) = first_edge (add_node x g1) c1 bare in
      let (g3, done3, c3, split) = second_edge g2 c2 free half in
      (
        record { dfg = g3; max_node_id = new_id; max_edge_id = suc (suc s.max_edge_id) },
        rw (stored, gone, is_x, done2, done3) refl,
        IsSplit-Ready id e s _ ready c3 split,
        split,
      )
