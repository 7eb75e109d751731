-- ===== src/Dfg/Consistent.antt =====
-- The edges and the port tables of a data-flow graph tell the same story, and `addEdge` and
-- `delEdge` keep it so.
pub mod Keep
pub mod Delete
pub mod Grow
use fdra.Prelude.{ℕ, true, some, ◌≡◌}
use fdra.Graph.Edge.{GraphEdge}
use fdra.Dfg.Store.{Dfg, edge}
use fdra.Dfg.Ends.{has_src_edge, has_src_pair, dst_edge, dst_pair}

-- Edge `i` of the graph runs from port `p` of `n` to port `q` of `c`.
pub record Runs (g : Dfg) (n p i c q : ℕ) : Type 0 where
  pub e : GraphEdge
  pub stored : edge i g ≡ some e
  pub src : e.src_id ≡ n
  pub src_port : e.src_port_idx ≡ p
  pub dst : e.dst_id ≡ c
  pub dst_port : e.dst_port_idx ≡ q

-- Every edge stands under its identifier and in the four port tables of its ends, and the port
-- tables hold nothing else.
pub record IsConsistent (g : Dfg) : Type 0 where
  pub keyed : (i : ℕ) (e : GraphEdge) → edge i g ≡ some e → e.id ≡ i
  pub src_edge :
      (i : ℕ) (e : GraphEdge) → edge i g ≡ some e → has_src_edge g e.src_id e.src_port_idx i ≡ true
  pub src_pair :
      (i : ℕ) (e : GraphEdge)
      → edge i g ≡ some e
      → has_src_pair g e.src_id e.src_port_idx (e.dst_id, e.dst_port_idx) ≡ true
  pub in_edge :
      (i : ℕ) (e : GraphEdge) → edge i g ≡ some e → dst_edge g e.dst_id e.dst_port_idx ≡ some i
  pub in_pair :
      (i : ℕ) (e : GraphEdge)
      → edge i g ≡ some e
      → dst_pair g e.dst_id e.dst_port_idx ≡ some (e.src_id, e.src_port_idx)
  pub src_edge_only :
      (n p i : ℕ) → has_src_edge g n p i ≡ true → (c : ℕ) × (q : ℕ) × Runs g n p i c q
  pub src_pair_only : (n p c q : ℕ) → has_src_pair g n p (c, q) ≡ true → (i : ℕ) × Runs g n p i c q
  pub in_edge_only : (c q i : ℕ) → dst_edge g c q ≡ some i → (n : ℕ) × (p : ℕ) × Runs g n p i c q
  pub in_pair_only : (c q n p : ℕ) → dst_pair g c q ≡ some (n, p) → (i : ℕ) × Runs g n p i c q
