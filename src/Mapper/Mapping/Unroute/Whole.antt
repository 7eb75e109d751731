-- ===== src/Mapper/Mapping/Unroute/Whole.antt =====
-- mapper/mapping.cpp, `unrouteDfgEdge` as a whole: which entries go, and which ports are freed.
use fdra.Prelude.{
  ℕ, false, not, ◌&&◌, none, some, List, [], ◌∷◌, ◌≡◌, ◌≢◌, refl, ap, ◌∙◌, ◌==◌, if◌then◌else◌,
  or_else, nat_key, arith, Bool-cases, Option-cases, inl, inr,
}
use mathlib.Core.Path.{subst}
use fdra.Prelude.Map
use fdra.Prelude.Map.{Map}
use fdra.Mapper.Mapping.{Mapping, EdgeLinkAttr, AdgNodeAttr, is_routed, routed_edge_links}
use fdra.Mapper.Mapping.Unroute.{
  unroute_node, unroute_links, unroute_dfg_edge, uses_in, uses_out, AllHeld, unroute_links-AllHeld,
}
use fdra.Mapper.Mapping.Unroute.Ports.{
  others, listed_at, in_used_at, out_used_at, visits, enters, leaves, others_twice, node-listed,
  node-in_used, node-out_used,
}

-- How the entry of node `a` differs between two tables after an edge has been unrouted at some links:
-- the edge is no more listed where a link is, and a port of a link is free unless one of the other
-- edges that are listed uses it.
pub record IsFreed (id : ℕ) (links : List EdgeLinkAttr) (a : ℕ) (attrs attrs' : Map ℕ AdgNodeAttr)
    : Type 0 where
  pub listed : listed_at (Map.lookup a attrs') ≡ (
      if visits a links
      then others id (listed_at (Map.lookup a attrs))
      else listed_at (Map.lookup a attrs))
  pub in_used :
      (p : ℕ)
      → in_used_at (some p) (Map.lookup a attrs') ≡ (
          in_used_at (some p) (Map.lookup a attrs)
          && not (
              enters a (some p) links
              && not (uses_in (some p) (others id (listed_at (Map.lookup a attrs))))))
  pub out_used :
      (p : ℕ)
      → out_used_at (some p) (Map.lookup a attrs') ≡ (
          out_used_at (some p) (Map.lookup a attrs)
          && not (
              leaves a (some p) links
              && not (uses_out (some p) (others id (listed_at (Map.lookup a attrs))))))

nil-IsFreed : (id a : ℕ) (attrs : Map ℕ AdgNodeAttr) → IsFreed id [] a attrs attrs
nil-IsFreed id a attrs = record {
  listed = refl;
  in_used = λ p. ground arith;
  out_used = λ p. ground arith;
}

-- A link at a node without an entry, or at another node, changes nothing here.
absent-IsFreed :
    (id : ℕ) (link : EdgeLinkAttr) (a : ℕ) (attrs : Map ℕ AdgNodeAttr)
    → Map.lookup link.adg_node attrs ≡ none
    → IsFreed id (link ∷ []) a attrs attrs
absent-IsFreed id link a attrs absent = elim (Bool-cases (link.adg_node == a)) [
  | inl own ↦
      let same : link.adg_node ≡ a = ground arith in
      let here : Map.lookup a attrs ≡ none = subst (λ k. Map.lookup k attrs ≡ none) same absent in
      record {
        listed = rw (here, own) refl;
        in_used = λ p. rw here (ground arith);
        out_used = λ p. rw here (ground arith);
      }
  | inr other ↦ record {
    listed = ground (arith, other);
    in_used = λ p. ground (arith, other);
    out_used = λ p. ground (arith, other);
  }
]

link-IsFreed :
    (id : ℕ) (link : EdgeLinkAttr) (a : ℕ) (attrs : Map ℕ AdgNodeAttr) (attr : AdgNodeAttr)
    → Map.lookup link.adg_node attrs ≡ some attr
    → IsFreed id (link ∷ []) a attrs (Map.insert link.adg_node (unroute_node id link attr) attrs)
link-IsFreed id link a attrs attr there =
    let attr' = unroute_node id link attr in
    let stored = Map.lookup-insert a link.adg_node attr' attrs in
    elim (Bool-cases (link.adg_node == a)) [
      | inl own ↦
          let same : link.adg_node ≡ a = ground arith in
          let was : Map.lookup a attrs ≡ some attr =
            subst (λ k. Map.lookup k attrs ≡ some attr) same there in
          let now : Map.lookup a (Map.insert link.adg_node attr' attrs) ≡ some attr' =
            stored ∙ rw own refl in
          record {
            listed = ap listed_at now ∙ rw (was, own) (node-listed id link attr);
            in_used = λ p.
                ap (in_used_at (some p)) now
                ∙ node-in_used id link attr p
                ∙ rw (was, own) (ground arith);
            out_used = λ p.
                ap (out_used_at (some p)) now
                ∙ node-out_used id link attr p
                ∙ rw (was, own) (ground arith);
          }
      | inr other ↦
          let now : Map.lookup a (Map.insert link.adg_node attr' attrs) ≡ Map.lookup a attrs =
            stored ∙ rw other refl in
          record {
            listed = ap listed_at now ∙ rw other refl;
            in_used = λ p. ap (in_used_at (some p)) now ∙ ground (arith, other);
            out_used = λ p. ap (out_used_at (some p)) now ∙ ground (arith, other);
          }
    ]

-- The other edges that are listed are the same ones.
IsFreed-others :
    (id : ℕ) (links : List EdgeLinkAttr) (a : ℕ) (attrs attrs' : Map ℕ AdgNodeAttr)
    → IsFreed id links a attrs attrs'
    → others id (listed_at (Map.lookup a attrs')) ≡ others id (listed_at (Map.lookup a attrs))
IsFreed-others id links a attrs attrs' f = elim (Bool-cases (visits a links)) [
  | inl at ↦
      let gone : listed_at (Map.lookup a attrs') ≡ others id (listed_at (Map.lookup a attrs)) =
        f.listed ∙ rw at refl in
      ap (others id) gone ∙ others_twice id (listed_at (Map.lookup a attrs))
  | inr off ↦
      let stays : listed_at (Map.lookup a attrs') ≡ listed_at (Map.lookup a attrs) =
        f.listed ∙ rw off refl in
      ap (others id) stays
]

IsFreed-trans :
    (id : ℕ) (link : EdgeLinkAttr) (links : List EdgeLinkAttr) (a : ℕ)
    (attrs attrs1 attrs' : Map ℕ AdgNodeAttr)
    → IsFreed id (link ∷ []) a attrs attrs1
    → IsFreed id links a attrs1 attrs'
    → IsFreed id (link ∷ links) a attrs attrs'
IsFreed-trans id link links a attrs attrs1 attrs' f g =
    let same = IsFreed-others id (link ∷ []) a attrs attrs1 f in
    record {
      listed = g.listed ∙ elim (Bool-cases (link.adg_node == a)) [
        | inl at ↦ elim (Bool-cases (visits a links)) [
          | inl again ↦ rw (at, again) same
          | inr last ↦ rw (at, last) (f.listed ∙ rw at refl)
        ]
        | inr off ↦ elim (Bool-cases (visits a links)) [
          | inl later ↦ rw (off, later) same
          | inr never ↦ rw (off, never) (f.listed ∙ rw off refl)
        ]
      ];
      in_used = λ p.
          let step = f.in_used p in
          let next = g.in_used p in
          let next' =
            next
            ∙ ap
                (λ xs.
                  in_used_at (some p) (Map.lookup a attrs1)
                  && not (enters a (some p) links && not (uses_in (some p) xs)))
                same in
          ground (arith, step, next');
      out_used = λ p.
          let step = f.out_used p in
          let next = g.out_used p in
          let next' =
            next
            ∙ ap
                (λ xs.
                  out_used_at (some p) (Map.lookup a attrs1)
                  && not (leaves a (some p) links && not (uses_out (some p) xs)))
                same in
          ground (arith, step, next');
    }

unroute_links-IsFreed :
    (id : ℕ) (links : List EdgeLinkAttr) (a : ℕ) (attrs : Map ℕ AdgNodeAttr)
    → IsFreed id links a attrs (unroute_links id links attrs)
unfolding unroute_links
unroute_links-IsFreed id [] a attrs = nil-IsFreed id a attrs
unroute_links-IsFreed id (link ∷ links) a attrs =
    elim (Option-cases (Map.lookup link.adg_node attrs)) [
      | inl absent ↦
          let rest = unroute_links-IsFreed id links a attrs in
          let first = absent-IsFreed id link a attrs absent in
          rw absent
            (IsFreed-trans id link links a attrs attrs (unroute_links id links attrs) first rest)
      | inr (attr, there) ↦
          let attrs1 = Map.insert link.adg_node (unroute_node id link attr) attrs in
          let rest = unroute_links-IsFreed id links a attrs1 in
          let first = link-IsFreed id link a attrs attr there in
          rw there
            (IsFreed-trans id link links a attrs attrs1 (unroute_links id links attrs1) first rest)
    ]

-- Unrouting an edge: at each node that a link of the edge names, the edge is no more listed as passing
-- (in `dfgEdgePass`), and every node keeps the other edges that it lists, in their order. A port that
-- is marked as used is free afterwards exactly if a link of the edge has it there and none of the other
-- listed edges uses it. (The unit that an edge starts from does not list it, so an output port there is
-- freed even if another edge leaves by it.) So if every listed edge had both of its ports marked as
-- used, then every edge still listed has. The edge itself is then not routed, and how every other edge
-- is routed stays as it was.
pub unroute_dfg_edge-AllHeld :
    (id : ℕ) (m : Mapping)
    → AllHeld m.adg_node_attrs
    → AllHeld (unroute_dfg_edge id m).adg_node_attrs
      × (is_routed id (unroute_dfg_edge id m) ≡ false)
      × ((other : ℕ)
          → other ≢ id
          → Map.lookup other (unroute_dfg_edge id m).dfg_edge_attrs
            ≡ Map.lookup other m.dfg_edge_attrs)
      × ((a : ℕ)
          → IsFreed id
              (or_else [] (routed_edge_links id m))
              a
              m.adg_node_attrs
              (unroute_dfg_edge id m).adg_node_attrs)
unfolding unroute_dfg_edge is_routed routed_edge_links
unroute_dfg_edge-AllHeld id m all = elim (Option-cases (Map.lookup id m.dfg_edge_attrs)) [
  | inl absent ↦
      rw (absent, unroute_dfg_edge)
        (
          all,
          rw (absent, is_routed) refl,
          (λ other h. refl),
          (λ a. rw (absent, routed_edge_links) (nil-IsFreed id a m.adg_node_attrs)),
        )
  | inr (attr, there) ↦
      rw (there, unroute_dfg_edge)
        (
          unroute_links-AllHeld id attr.edge_links m.adg_node_attrs all,
          ground (arith, Map.lookup-erase id id m.dfg_edge_attrs),
          (λ other h. ground (arith, Map.lookup-erase other id m.dfg_edge_attrs)),
          (λ a.
              rw (there, routed_edge_links)
                (unroute_links-IsFreed id attr.edge_links a m.adg_node_attrs)),
        )
]
