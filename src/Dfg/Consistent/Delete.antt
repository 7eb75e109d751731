-- ===== src/Dfg/Consistent/Delete.antt =====
-- `delEdge` on a consistent graph: it meets no null pointer and no failed assertion, keeps the graph
-- consistent, and takes back what `addEdge` did.
use fdra.Prelude.{
  ℕ, true, false, none, some, ◌≡◌, ◌≢◌, ◌∙◌, ◌==◌, ◌&&◌, inl, inr, arith, if◌then◌else◌, is_some,
  is_some_value, Bool-cases, Option-cases, nat_key, pair_key,
}
use fdra.Prelude.Map
use fdra.Graph.Edge.{GraphEdge}
use fdra.Graph.Node
use fdra.Dfg.Store.{Dfg, node, edge, add_edge, del_edge, del_edge_src, del_edge_dst}
use fdra.Prelude.Options.{◌>>=◌}
use fdra.Dfg.Ends.{has_src_edge, has_src_pair, dst_edge, dst_pair}
use fdra.Dfg.Ends.Del.{src-Dels}
use fdra.Dfg.Ends.Whole.{add_edge-Added, Deleted, del_edge-Deleted}
use fdra.Dfg.Content.{
  SameContents, SameContents-trans, add_edge-SameContents, del_edge-SameContents,
}
use fdra.Dfg.Consistent.{Runs, IsConsistent}
use fdra.Dfg.Consistent.Keep.{add_edge-IsConsistent}

del_edge_src_total :
    (k : ℕ) (e : GraphEdge) (g : Dfg)
    → has_src_edge g e.src_id e.src_port_idx k ≡ true
    → (h : Dfg) × (del_edge_src k e g ≡ some h)
unfolding del_edge_src has_src_edge Node.del_output_edge
del_edge_src_total k e g h = is_some_value (del_edge_src k e g) (ground arith)

del_edge_dst_total :
    (k : ℕ) (e : GraphEdge) (g : Dfg)
    → dst_edge g e.dst_id e.dst_port_idx ≡ some k
    → (h : Dfg) × (del_edge_dst e g ≡ some h)
unfolding del_edge_dst dst_edge
del_edge_dst_total k e g h = is_some_value (del_edge_dst e g) (ground arith)

del_edge_total :
    (k : ℕ) (e : GraphEdge) (g : Dfg)
    → IsConsistent g
    → edge k g ≡ some e
    → (g' : Dfg) × (del_edge k g ≡ some g')
unfolding del_edge
del_edge_total k e g c found =
    let (h, first) = del_edge_src_total k e g (c.src_edge k e found) in
    let same = src-Dels k e g h first e.dst_id e.dst_port_idx 0 0 0 in
    let (h', second) = del_edge_dst_total k e h (same.2 ∙ c.in_edge k e found) in
    (
      record h' { edges = Map.erase k h'.edges },
      rw (found, ◌>>=◌) (rw (first, ◌>>=◌) (rw (second, ◌>>=◌))),
    )

module _ (k : ℕ) (e : GraphEdge) (g g' : Dfg) (old : IsConsistent g) (found : edge k g ≡ some e)
    (done : del_edge k g ≡ some g') where
  abbrev at : (n p i c q : ℕ) → Deleted k e g g' n p i c q
  at n p i c q = del_edge-Deleted k e g g' n p i c q found done

  was_stored : (i : ℕ) (f : GraphEdge) → edge i g' ≡ some f → (edge i g ≡ some f) × (i ≢ k)
  was_stored i f h = (ground (arith, at 0 0 i 0 0), λ same. ground (arith, at 0 0 i 0 0))

  Runs-on : (n p i c q : ℕ) → i ≢ k → Runs g n p i c q → Runs g' n p i c q
  Runs-on n p i c q other r = record {
    e = r.e;
    stored = ground (arith, at 0 0 i 0 0, r.stored);
    src = r.src;
    src_port = r.src_port;
    dst = r.dst;
    dst_port = r.dst_port;
  }

  -- Another edge does not enter the same port.
  apart :
      (i : ℕ) (f : GraphEdge)
      → edge i g ≡ some f
      → i ≢ k
      → (e.dst_id == f.dst_id && e.dst_port_idx == f.dst_port_idx) ≡ false
  apart i f h other = ground (arith, old.in_edge i f h, old.in_edge k e found)

  del_edge-IsConsistent : IsConsistent g'
  del_edge-IsConsistent = record {
    keyed = λ i f h. old.keyed i f (was_stored i f h).0;
    src_edge = λ i f h.
        let (was, other) = was_stored i f h in
        ground (arith, at f.src_id f.src_port_idx i 0 0, old.src_edge i f was);
    src_pair = λ i f h.
        let (was, other) = was_stored i f h in
        ground (
          arith,
          at f.src_id f.src_port_idx 0 f.dst_id f.dst_port_idx,
          old.src_pair i f was,
          apart i f was other,
        );
    in_edge = λ i f h.
        let (was, other) = was_stored i f h in
        ground (arith, at f.dst_id f.dst_port_idx 0 0 0, old.in_edge i f was, apart i f was other);
    in_pair = λ i f h.
        let (was, other) = was_stored i f h in
        ground (arith, at f.dst_id f.dst_port_idx 0 0 0, old.in_pair i f was, apart i f was other);
    src_edge_only = λ n p i h.
        let (c, q, r) = old.src_edge_only n p i (ground (arith, at n p i 0 0)) in
        (
          c,
          q,
          Runs-on n p i c q
              (λ same. ground (arith, at n p i 0 0, r.stored, r.src, r.src_port, found)) r,
        );
    src_pair_only = λ n p c q h.
        let (i, r) = old.src_pair_only n p c q (ground (arith, at n p 0 c q)) in
        (
          i,
          Runs-on n p i c q
              (λ same.
                ground (arith, at n p 0 c q, r.stored, r.src, r.src_port, r.dst, r.dst_port, found))
              r,
        );
    in_edge_only = λ c q i h.
        let (n, p, r) = old.in_edge_only c q i (ground (arith, at c q 0 0 0)) in
        (
          n,
          p,
          Runs-on n p i c q
              (λ same. ground (arith, at c q 0 0 0, r.stored, r.dst, r.dst_port, found)) r,
        );
    in_pair_only = λ c q n p h.
        let (i, r) = old.in_pair_only c q n p (ground (arith, at c q 0 0 0)) in
        (
          i,
          Runs-on n p i c q
              (λ same. ground (arith, at c q 0 0 0, r.stored, r.dst, r.dst_port, found)) r,
        );
  }

-- Deleting an edge that a consistent graph has succeeds. The result is consistent, has the edge no
-- more, and has every other edge as before.
pub del_edge_safe :
    (k : ℕ) (e : GraphEdge) (g : Dfg)
    → IsConsistent g
    → edge k g ≡ some e
    → (g' : Dfg) × (del_edge k g ≡ some g')
      × IsConsistent g'
      × ((i : ℕ) → edge i g' ≡ (if k == i then none else edge i g))
del_edge_safe k e g c found =
    let (g', done) = del_edge_total k e g c found in
    (
      g',
      done,
      del_edge-IsConsistent k e g g' c found done,
      λ i. (del_edge-Deleted k e g g' 0 0 i 0 0 found done).stored,
    )

-- The ends of all edges, and the edges, are the same in two graphs.
pub record SameEnds (g g' : Dfg) (n p i c q : ℕ) : Type 0 where
  pub src_edge : has_src_edge g' n p i ≡ has_src_edge g n p i
  pub src_pair : has_src_pair g' n p (c, q) ≡ has_src_pair g n p (c, q)
  pub in_edge : dst_edge g' n p ≡ dst_edge g n p
  pub in_pair : dst_pair g' n p ≡ dst_pair g n p
  pub has_node : is_some (node n g') ≡ is_some (node n g)
  pub stored : edge i g' ≡ edge i g

module _ (e : GraphEdge) (g g' : Dfg) (old : IsConsistent g) (fresh : edge e.id g ≡ none)
    (free : dst_edge g e.dst_id e.dst_port_idx ≡ none) (done : add_edge e g ≡ some g') where
  not_src_edge : has_src_edge g e.src_id e.src_port_idx e.id ≡ false
  not_src_edge = elim (Bool-cases (has_src_edge g e.src_id e.src_port_idx e.id)) [
    | inl was ↦ let (c, q, r) = old.src_edge_only e.src_id e.src_port_idx e.id was in cc r.stored
    | inr miss ↦ miss
  ]

  not_src_pair : has_src_pair g e.src_id e.src_port_idx (e.dst_id, e.dst_port_idx) ≡ false
  not_src_pair =
      elim (Bool-cases (has_src_pair g e.src_id e.src_port_idx (e.dst_id, e.dst_port_idx))) [
        | inl was ↦
            let (i, r) = old.src_pair_only e.src_id e.src_port_idx e.dst_id e.dst_port_idx was in
            ground (arith, old.in_edge i r.e r.stored, r.dst, r.dst_port)
        | inr miss ↦ miss
      ]

  not_in_pair : dst_pair g e.dst_id e.dst_port_idx ≡ none
  not_in_pair = elim (Option-cases (dst_pair g e.dst_id e.dst_port_idx)) [
    | inl miss ↦ miss
    | inr ((n, p), was) ↦
        let (i, r) = old.in_pair_only e.dst_id e.dst_port_idx n p was in
        ground (arith, old.in_edge i r.e r.stored, r.dst, r.dst_port)
  ]

  -- Deleting an edge just added, of a fresh identifier and to a free destination port, succeeds and
  -- restores the edges and all port tables as they are read. (The set of an output port may stay
  -- behind empty, which reads like no entry.) All other members of every node and of the graph, the
  -- operations and the set of input and output nodes among them, are as before the two steps.
  pub del_edge-add_edge :
      (g'' : Dfg) × (del_edge e.id g' ≡ some g'')
      × ((n p i c q : ℕ) → SameEnds g g'' n p i c q)
      × SameContents g g''
  del_edge-add_edge =
      let there = (add_edge-Added e g g' 0 0 e.id 0 0 done).stored in
      let found : edge e.id g' ≡ some e = ground (arith, there) in
      let c' = add_edge-IsConsistent e g g' old fresh free done in
      let (g'', gone) = del_edge_total e.id e g' c' found in
      (
        g'',
        gone,
        (λ n p i c q.
            let a = add_edge-Added e g g' n p i c q done in
            let d = del_edge-Deleted e.id e g' g'' n p i c q found gone in
            record {
              src_edge = ground (arith, a, d, not_src_edge);
              src_pair = ground (arith, a, d, not_src_pair);
              in_edge = ground (arith, a, d, free);
              in_pair = ground (arith, a, d, not_in_pair);
              has_node = ground (arith, a, d);
              stored = ground (arith, a, d, fresh);
            }),
        SameContents-trans g g' g'' (add_edge-SameContents e g g' done)
            (del_edge-SameContents e.id g' g'' gone),
      )
