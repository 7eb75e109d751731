-- ===== src/Dfg/Ends/Whole.antt =====
-- The effect of the whole `addEdge` and of the whole `delEdge` on the ends of the edges.
use fdra.Prelude.{
  ℕ, not, none, some, ◌≡◌, refl, ◌==◌, ◌||◌, ◌&&◌, arith, if◌then◌else◌, is_some, nat_key, pair_key,
}
use fdra.Prelude.Options.{◌>>=◌, >>=-eq-some}
use fdra.Prelude.Map
use fdra.Prelude.Map.{Map}
use fdra.Graph.Edge.{GraphEdge}
use fdra.Dfg.Store.{
  Dfg, node, edge, add_edge, del_edge, add_edge_src, add_edge_dst, del_edge_src, del_edge_dst,
}
use fdra.Dfg.Ends.{has_src_edge, has_src_pair, dst_edge, dst_pair}
use fdra.Dfg.Ends.Add.{src-Adds, dst-Adds}
use fdra.Dfg.Ends.Del.{src-Dels, dst-Dels}

-- The port tables do not depend on the table of the edges.
module _ (g : Dfg) (es : Map ℕ GraphEdge) where
  ends-edges :
      (n p i c q : ℕ)
      → let g' = record g { edges = es } in
        (has_src_edge g' n p i ≡ has_src_edge g n p i)
        × (has_src_pair g' n p (c, q) ≡ has_src_pair g n p (c, q))
        × (dst_edge g' n p ≡ dst_edge g n p)
        × (dst_pair g' n p ≡ dst_pair g n p)
        × (is_some (node n g') ≡ is_some (node n g))
        × (g'.id ≡ g.id)
  unfolding has_src_edge has_src_pair dst_edge dst_pair node
  ends-edges n p i c q = (refl, refl, refl, refl, refl, refl)

pub record Added (e : GraphEdge) (g g' : Dfg) (n p i c q : ℕ) : Type 0 where
  pub src_edge :
      has_src_edge g' n p i
      ≡ ((e.src_id == n && (e.src_port_idx == p && e.id == i)) || has_src_edge g n p i)
  pub src_pair : has_src_pair g' n p (c, q) ≡ (
      (e.src_id == n && (e.src_port_idx == p && (e.dst_id == c && e.dst_port_idx == q)))
      || has_src_pair g n p (c, q))
  pub in_edge :
      dst_edge g' n p ≡ (if e.dst_id == n && e.dst_port_idx == p then some e.id else dst_edge g n p)
  pub in_pair : dst_pair g' n p ≡ (
      if e.dst_id == n && e.dst_port_idx == p
      then some (e.src_id, e.src_port_idx)
      else dst_pair g n p)
  pub has_node : is_some (node n g') ≡ is_some (node n g)
  pub own_id : g'.id ≡ g.id
  pub stored : edge i g' ≡ (if e.id == i then some e else edge i g)

pub add_edge-Added :
    (e : GraphEdge) (g g' : Dfg) (n p i c q : ℕ) → add_edge e g ≡ some g' → Added e g g' n p i c q
unfolding add_edge edge
add_edge-Added e g g' n p i c q done =
    let es = Map.insert e.id e g.edges in
    let g0 = record g { edges = es } in
    let (h, first, second) = >>=-eq-some (add_edge_src e g0) (add_edge_dst e) done in
    let s = src-Adds e g0 h first n p i c q in
    let d = dst-Adds e h g' second n p i c q in
    let b = ends-edges g es n p i c q in
    record {
      src_edge = ground (arith, s, d, b);
      src_pair = ground (arith, s, d, b);
      in_edge = ground (arith, s, d, b);
      in_pair = ground (arith, s, d, b);
      has_node = ground (arith, s, d, b);
      own_id = ground (arith, s, d, b);
      stored = ground (arith, s, d, Map.lookup-insert i e.id e g.edges);
    }

pub record Deleted (k : ℕ) (e : GraphEdge) (g g' : Dfg) (n p i c q : ℕ) : Type 0 where
  pub src_edge :
      has_src_edge g' n p i
      ≡ (not (e.src_id == n && (e.src_port_idx == p && k == i)) && has_src_edge g n p i)
  pub src_pair : has_src_pair g' n p (c, q) ≡ (
      not (e.src_id == n && (e.src_port_idx == p && (e.dst_id == c && e.dst_port_idx == q)))
      && has_src_pair g n p (c, q))
  pub in_edge :
      dst_edge g' n p ≡ (if e.dst_id == n && e.dst_port_idx == p then none else dst_edge g n p)
  pub in_pair :
      dst_pair g' n p ≡ (if e.dst_id == n && e.dst_port_idx == p then none else dst_pair g n p)
  pub has_node : is_some (node n g') ≡ is_some (node n g)
  pub own_id : g'.id ≡ g.id
  pub stored : edge i g' ≡ (if k == i then none else edge i g)

pub del_edge-Deleted :
    (k : ℕ) (e : GraphEdge) (g g' : Dfg) (n p i c q : ℕ)
    → edge k g ≡ some e
    → del_edge k g ≡ some g'
    → Deleted k e g g' n p i c q
unfolding del_edge edge
del_edge-Deleted k e g g' n p i c q found done =
    let last = λ (h' : Dfg). some (record h' { edges = Map.erase k h'.edges }) in
    let tail = λ (h : Dfg). del_edge_dst e h >>= last in
    let (h, first, second) = >>=-eq-some (del_edge_src k e g) tail (rw (found, ◌>>=◌) at done) in
    let (h', third, fourth) = >>=-eq-some (del_edge_dst e h) last second in
    let s = src-Dels k e g h first n p i c q in
    let d = dst-Dels e h h' third n p i c q in
    let b = ends-edges h' (Map.erase k h'.edges) n p i c q in
    let t = Map.lookup-erase i k h'.edges in
    record {
      src_edge = ground (arith, s, d, b);
      src_pair = ground (arith, s, d, b);
      in_edge = ground (arith, s, d, b);
      in_pair = ground (arith, s, d, b);
      has_node = ground (arith, s, d, b);
      own_id = ground (arith, s, d, b);
      stored = ground (arith, s, d, t);
    }
