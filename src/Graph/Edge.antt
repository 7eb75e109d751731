-- ===== src/Graph/Edge.antt =====
-- graph/graph_edge.h: an edge from a source port to a destination port. `id`, `src_id` and `dst_id`
-- are the identifiers of the edge and of its two ends; an end may be the graph itself.
use fdra.Prelude.{ℕ}

pub record GraphEdge : Type 0 where
  pub id : ℕ
  pub src_port_idx : ℕ
  pub dst_port_idx : ℕ
  pub src_id : ℕ
  pub dst_id : ℕ

-- `setEdge(srcId, dstId)` and its overload with the ports.
pub set_edge : ℕ → ℕ → GraphEdge → GraphEdge
set_edge src dst e = record e { src_id = src; dst_id = dst }

pub set_edge_ports : ℕ → ℕ → ℕ → ℕ → GraphEdge → GraphEdge
set_edge_ports src src_port dst dst_port e = record e {
  src_id = src;
  src_port_idx = src_port;
  dst_id = dst;
  dst_port_idx = dst_port;
}
