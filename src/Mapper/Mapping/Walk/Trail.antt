-- ===== src/Mapper/Mapping/Walk/Trail.antt =====
-- mapper/mapping.cpp, `routeDfgEdgeFromDst`: the chain of cached keys from a source to the destination,
-- and the path that the recording loop makes of it.
use fdra.Prelude.{
  ℕ, zero, suc, ◌<◌, true, false, ◌&&◌, none, some, List, [], ◌∷◌, ◌++◌, ◌≡◌, ◌≢◌, refl, ap, ◌∙◌,
  ◌==◌, nat_key, pair_key, pair_eq, pair_eq_iff, arith,
}
use fdra.Prelude.Map
use fdra.Prelude.Map.{Map}
use fdra.Prelude.Set
use fdra.Prelude.Set.{Set}
use fdra.Prelude.Outcome.{Outcome, done}
use fdra.Graph.Edge.{GraphEdge}
use fdra.Graph.Node as GraphNode
use fdra.Adg.Node as AdgNode
use fdra.Adg.Node.{base}
use fdra.Adg.Store as AdgStore
use fdra.Adg.Store.{Adg}
use fdra.Mapper.Port.{Port, port_key, port_eq}
use fdra.Mapper.Mapping.{Mapping, EdgeLinkAttr, AdgNodeAttr}
use fdra.Mapper.Mapping.Route.{push_link, update_node, pass_through}
use fdra.Mapper.Mapping.Search.{VisitNodeInfo}
use fdra.Mapper.Mapping.Walk.{use_in, use_out, next_of, walk, links_of}
use fdra.Mapper.Mapping.Walk.Links.{links_of-push_link}

-- Two links that follow each other: the input port of the second is wired to the output port of the
-- first.
abbrev pub Joined : Adg → EdgeLinkAttr → EdgeLinkAttr → Type 0
Joined adg l k =
    (p : ℕ) × (i : ℕ) × (n : AdgNode.Node) × (l.dst_port ≡ some p)
    × (k.src_port ≡ some i)
    × (AdgStore.node k.adg_node adg ≡ some n)
    × (GraphNode.input i (base n).graph_node ≡ (l.adg_node, p))

abbrev EndsIn : Set ℕ → Port → Type 0
EndsIn range none = ⊥
EndsIn range (some i) = Set.count i range ≡ true

-- The links form a path in the architecture graph that ends at the destination, at one of the
-- offered input ports.
abbrev pub IsRoute : Adg → ℕ → Set ℕ → List EdgeLinkAttr → Type 0
IsRoute adg dst range [] = ⊥
IsRoute adg dst range (l ∷ []) = (l.adg_node ≡ dst) × (l.dst_port ≡ none) × EndsIn range l.src_port
IsRoute adg dst range (l ∷ k ∷ ls) = Joined adg l k × IsRoute adg dst range (k ∷ ls)

pub snoc-append :
    (xs : List EdgeLinkAttr) (x : EdgeLinkAttr) (ys : List EdgeLinkAttr)
    → (xs ++ x ∷ []) ++ ys ≡ xs ++ x ∷ ys
snoc-append [] x ys = refl
snoc-append (y ∷ xs) x ys = ap (λ zs. y ∷ zs) (snoc-append xs x ys)

module _ (adg : Adg) (dst : ℕ) (range : Set ℕ) where
  -- A cached entry is a wire of the graph; a wire into the destination ends at an offered port.
  abbrev pub Feeds : ℕ × ℕ → VisitNodeInfo → Type 0
  Feeds key info =
      (n : AdgNode.Node) × (AdgStore.node info.dst_node_id adg ≡ some n)
      × (GraphNode.input info.dst_in_port_idx (base n).graph_node ≡ key)
      × (info.dst_out_port_idx ≡ none → Set.count info.dst_in_port_idx range ≡ true)

  -- In so many steps the cached entries lead to the destination.
  abbrev pub Trail : Map (ℕ × ℕ) VisitNodeInfo → ℕ → ℕ × Port → Type 0
  Trail v zero (id, port) = (id ≡ dst) × (port ≡ none)
  Trail v (suc n) (id, port) =
      (k : ℕ) × (info : VisitNodeInfo) × (port ≡ some k)
      × (id ≢ dst)
      × (Map.lookup (id, k) v ≡ some info)
      × Feeds (id, k) info
      × Trail v n (info.dst_node_id, info.dst_out_port_idx)

  -- A new key breaks no chain.
  pub Trail-insert :
      (v : Map (ℕ × ℕ) VisitNodeInfo) (key : ℕ × ℕ) (new : VisitNodeInfo) (n : ℕ) (route : ℕ × Port)
      → Map.count key v ≡ false
      → Trail v n route
      → Trail (Map.insert key new v) n route
  Trail-insert v key new zero route fresh t = t
  Trail-insert v key new (suc n) route fresh (k, info, e, away, found, feeds, t) = (
    k,
    info,
    e,
    away,
    ground (arith, Map.lookup-insert (route.0, k) key new v, pair_eq_iff key (route.0, k)),
    feeds,
    Trail-insert v key new n (info.dst_node_id, info.dst_out_port_idx) fresh t,
  )

  module _ (e : GraphEdge) (final : ℕ × ℕ) (v : Map (ℕ × ℕ) VisitNodeInfo)
      (fresh : Map.count final v ≡ false) (last : VisitNodeInfo) where
    abbrev pub whole : Map (ℕ × ℕ) VisitNodeInfo
    whole = Map.insert final last v

    -- A recording starts with the link of its first node and goes on as a path to the destination.
    abbrev pub Records : EdgeLinkAttr → Mapping → Outcome Mapping → Type 0
    Records link m result =
        (m' : Mapping) × (ls : List EdgeLinkAttr) × (result ≡ done m')
        × (links_of e.id m' ≡ links_of e.id m ++ link ∷ ls)
        × IsRoute adg dst range (link ∷ ls)

    Records-step :
        (step : AdgNodeAttr → AdgNodeAttr) (link next : EdgeLinkAttr) (m : Mapping)
        (result : Outcome Mapping)
        → Joined adg link next
        → Records next (update_node link.adg_node step (push_link e.id link m)) result
        → Records link m result
    Records-step step link next m result joined (m', ls, e1, e2, route) = (
      m',
      next ∷ ls,
      e1,
      e2
          ∙ ap (λ xs. xs ++ next ∷ ls) (links_of-push_link e.id link m)
          ∙ snoc-append (links_of e.id m) link (next ∷ ls),
      (joined, route),
    )

    pub next_of-final : next_of (final.0, some final.1) whole ≡ last
    next_of-final = ground (arith, Map.lookup-insert final final last v, pair_eq_iff final final)

    -- Enough rounds record the chain as a path, starting at the given ports.
    pub walk-IsRoute :
        (fuel n : ℕ) (src_port : Port) (id : ℕ) (port : Port) (m : Mapping)
        → n < fuel
        → (port ≡ none → EndsIn range src_port)
        → Trail v n (id, port)
        → Records
            (record { src_port = src_port; dst_port = port; adg_node = id })
            m
            (walk fuel e dst final whole src_port (id, port) m)
    unfolding walk
    walk-IsRoute zero n src_port id port m lt ends t = absurd (omega arith)
    walk-IsRoute (suc fuel) zero src_port id none m lt ends (at_dst, at_end) =
        let link : EdgeLinkAttr = record { src_port = src_port; dst_port = none; adg_node = id } in
        let at_source : (id == final.0 && port_eq none (some final.1)) ≡ false = ground arith in
        (
          update_node id (use_in src_port) (push_link e.id link m),
          [],
          ground (arith, at_source),
          links_of-push_link e.id link m,
          (at_dst, refl, ends refl),
        )
    walk-IsRoute (suc fuel) zero src_port id (some port) m lt ends (at_dst, at_end) =
        absurd (cc at_end)
    walk-IsRoute (suc fuel) (suc n) src_port id none m lt ends
          (k, info, eq, away, found, feeds, t) =
        absurd (cc eq)
    walk-IsRoute (suc fuel) (suc n) src_port id (some port) m lt ends
          (k, info, eq, away, found, (node, stored, wired, offered), t) =
        let link : EdgeLinkAttr = record {
          src_port = src_port;
          dst_port = some port;
          adg_node = id;
        } in
        let next : EdgeLinkAttr = record {
          src_port = some info.dst_in_port_idx;
          dst_port = info.dst_out_port_idx;
          adg_node = info.dst_node_id;
        } in
        let is_k : port ≡ k = ground arith in
        let known : Map.lookup (id, port) v ≡ some info = rw is_k found in
        let away_src : pair_eq final (id, port) ≡ false =
          ground (arith, pair_eq_iff final (id, port)) in
        let at_source : (id == final.0 && port == final.1) ≡ false = ground (arith, away_src) in
        let elsewhere : (id == dst) ≡ false = ground arith in
        let follows : next_of (id, some port) whole ≡ info =
          ground (arith, Map.lookup-insert (id, port) final last v) in
        let m1 = update_node id (pass_through e src_port (some port)) (push_link e.id link m) in
        let rest =
          walk-IsRoute fuel n (some info.dst_in_port_idx) info.dst_node_id info.dst_out_port_idx m1
            (omega arith) offered t in
        Records-step (pass_through e src_port (some port)) link next m _
          (port, info.dst_in_port_idx, node, refl, refl, stored, rw is_k wired)
          (rw (at_source, elsewhere, follows) rest)

    -- The same from the source end itself, where the first round only marks the output port.
    pub walk-from_source :
        (fuel n : ℕ) (m : Mapping)
        → n < fuel
        → Feeds final last
        → Trail v n (last.dst_node_id, last.dst_out_port_idx)
        → Records
            (record { src_port = none; dst_port = some final.1; adg_node = final.0 })
            m
            (walk (suc fuel) e dst final whole none (final.0, some final.1) m)
    unfolding walk
    walk-from_source fuel n m lt (node, stored, wired, offered) t =
        let link : EdgeLinkAttr = record {
          src_port = none;
          dst_port = some final.1;
          adg_node = final.0;
        } in
        let next : EdgeLinkAttr = record {
          src_port = some last.dst_in_port_idx;
          dst_port = last.dst_out_port_idx;
          adg_node = last.dst_node_id;
        } in
        let m1 = update_node final.0 (use_out (some final.1)) (push_link e.id link m) in
        let at_source : (final.0 == final.0 && final.1 == final.1) ≡ true = ground arith in
        let rest =
          walk-IsRoute fuel n (some last.dst_in_port_idx) last.dst_node_id last.dst_out_port_idx m1
            lt offered t in
        Records-step (use_out (some final.1)) link next m _
          (final.1, last.dst_in_port_idx, node, refl, refl, stored, wired)
          (rw (at_source, next_of-final) rest)
