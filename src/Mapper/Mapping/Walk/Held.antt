-- ===== src/Mapper/Mapping/Walk/Held.antt =====
-- mapper/mapping.cpp, `routeDfgEdge`: the ports that the passing edges hold stay marked.
use fdra.Prelude.{ℕ, not, ◌&&◌, Option, none, some, ◌≡◌, ◌==◌, nat_key, arith, Bool-cases, inl, inr}
use mathlib.Core.Path.{subst}
use fdra.Prelude.Set.{Set}
use fdra.Prelude.Outcome.{Outcome, done, ◌>>=◌, or_fault, >>=-eq-done}
use fdra.Graph.Edge.{GraphEdge}
use fdra.Dfg.Store as DfgStore
use fdra.Dfg.Store.{Dfg}
use fdra.Adg.Node.{as_fu}
use fdra.Adg.Store as AdgStore
use fdra.Adg.Store.{Adg}
use fdra.Mapper.Mapping.{Mapping}
use fdra.Mapper.Mapping.Operands.{avail_dst_ports}
use fdra.Mapper.Mapping.Unroute.{AllHeld}
use fdra.Mapper.Mapping.Search.{Search, Found, Quest, search, enough, start_search}
use fdra.Mapper.Mapping.Walk.{
  reuse_links, walk_enough, next_of, touch_edge, links_of, is_empty, record_path, place_source,
  route_dfg_edge_from_dst, route_dfg_edge,
}
use fdra.Mapper.Mapping.Walk.Links.{
  walk-AllHeld, AllMarked, reuse_links-AllHeld, place_source-AllHeld,
}

-- Every link of every edge has its ports marked where it lies.
abbrev pub IsAllMarked : Mapping → Type 0
IsAllMarked m = (x : ℕ) → AllMarked m.adg_node_attrs (links_of x m)

record_path-AllHeld :
    (e : GraphEdge) (dst : ℕ) (s : Search) (final : ℕ × ℕ) (same : Option GraphEdge)
    (m m' : Mapping)
    → AllHeld m.adg_node_attrs
    → IsAllMarked m
    → record_path e dst (s, record { final_src_node = final; same_src_edge = same }) m ≡ done m'
    → AllHeld m'.adg_node_attrs
unfolding record_path
record_path-AllHeld e dst s final none m m' held marked h =
    walk-AllHeld e dst final s.visit_nodes (walk_enough s.visit_nodes) none (final.0, some final.1)
      m m' held h
record_path-AllHeld e dst s final (some x) m m' held marked h =
    let info = next_of (final.0, some final.1) s.visit_nodes in
    let m1 = reuse_links e final (links_of x.id m) (touch_edge x.id m) in
    elim (Bool-cases (x.id == e.id && not (is_empty (links_of x.id m)))) [
      | inl itself ↦ absurd (ground arith)
      | inr other ↦
          walk-AllHeld e dst final s.visit_nodes (walk_enough s.visit_nodes)
            (some info.dst_in_port_idx) (info.dst_node_id, info.dst_out_port_idx) m1 m'
            (reuse_links-AllHeld e final (links_of x.id m) (touch_edge x.id m) held (marked x.id))
            (rw other at h)
    ]

abbrev after_search :
    GraphEdge → Option ℕ → ℕ → Mapping → Option (Search × Found) → Outcome (Option Mapping)
after_search e src dst m answer = elim answer [
  | none ↦ done none
  | some (s, f) ↦ do
    m' ← record_path e dst (s, f) m
    done (some (place_source e src f.final_src_node.0 m'))
]

answer-AllHeld :
    (e : GraphEdge) (src : Option ℕ) (dst : ℕ) (answer : Option (Search × Found)) (m m' : Mapping)
    → AllHeld m.adg_node_attrs
    → IsAllMarked m
    → after_search e src dst m answer ≡ done (some m')
    → AllHeld m'.adg_node_attrs
answer-AllHeld e src dst none m m' held marked h = absurd (ground arith)
answer-AllHeld e src dst (some (s, f)) m m' held marked h =
    let (m1, ran, h1) = >>=-eq-done (record_path e dst (s, f) m) _ h in
    let last : place_source e src f.final_src_node.0 m1 ≡ m' = ground arith in
    let kept = record_path-AllHeld e dst s f.final_src_node f.same_src_edge m m1 held marked ran in
    subst (λ x. AllHeld x.adg_node_attrs) last
      (place_source-AllHeld e src f.final_src_node.0 m1 kept)

from_dst-AllHeld :
    (dfg : Dfg) (adg : Adg) (e : GraphEdge) (src : Option ℕ) (dst : ℕ) (range : Set ℕ)
    (m m' : Mapping)
    → AllHeld m.adg_node_attrs
    → IsAllMarked m
    → route_dfg_edge_from_dst dfg adg e src dst range m ≡ done (some m')
    → AllHeld m'.adg_node_attrs
unfolding route_dfg_edge_from_dst
from_dst-AllHeld dfg adg e src dst range m m' held marked h =
    let (n, e1, h1) = >>=-eq-done (or_fault (DfgStore.node e.src_id dfg)) _ h in
    let q : Quest = record {
      edge = e;
      src = src;
      op = n.operation;
      dst = dst;
      dst_port_range = range;
    } in
    let (answer, e2, h2) = >>=-eq-done (search (enough adg) adg m q (start_search dst)) _ h1 in
    answer-AllHeld e src dst answer m m' held marked h2

-- If every passing edge holds its ports, and every link of a routed edge has its ports marked, then
-- after an edge has been routed every passing edge holds its ports, the new one and those whose path
-- it shares included.
pub route_dfg_edge-AllHeld :
    (dfg : Dfg) (adg : Adg) (e : GraphEdge) (src dst : ℕ) (m m' : Mapping)
    → AllHeld m.adg_node_attrs
    → IsAllMarked m
    → route_dfg_edge dfg adg e src dst m ≡ done (some m')
    → AllHeld m'.adg_node_attrs
unfolding route_dfg_edge
route_dfg_edge-AllHeld dfg adg e src dst m m' held marked h =
    let (n, e1, h1) = >>=-eq-done (or_fault (DfgStore.node e.dst_id dfg)) _ h in
    let (unit, e2, h2) = >>=-eq-done (or_fault (AdgStore.node dst adg)) _ h1 in
    let (fu, e3, h3) = >>=-eq-done (or_fault (as_fu unit)) _ h2 in
    let (range, e4, h4) = >>=-eq-done (or_fault (avail_dst_ports m n fu e)) _ h3 in
    elim (Bool-cases (is_empty range)) [
      | inl closed ↦ absurd (ground arith)
      | inr offered ↦
          from_dst-AllHeld dfg adg e (some src) dst range m m' held marked (rw offered at h4)
    ]
