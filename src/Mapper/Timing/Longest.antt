-- ===== src/Mapper/Timing/Longest.antt =====
-- mapper/mapping.cpp, `latencyBound`: the latencies as lengths of paths.
use fdra.Prelude.{
  ℕ, true, false, not, none, some, List, [], ◌∷◌, ◌≡◌, ◌≢◌, refl, sym, ◌∙◌, ◌⊎◌, ◌==◌,
  if◌then◌else◌, nat_key, arith, Bool-cases, inl, inr,
}
use fdra.Prelude.Int.{ℤ, pos, ◌+ℤ◌, ◌≤ℤ◌, ltb_ℤ, +ℤ_parts}
use fdra.Prelude.Map
use fdra.Prelude.Map.{Map}
use fdra.Prelude.Set
use fdra.Dfg.Node.{DfgNode}
use fdra.Dfg.Store as DfgStore
use fdra.Dfg.Store.{Dfg}
use fdra.Dfg.Topo.Lists.{IsDistinct}
use fdra.Mapper.Mapping.{Mapping}
use fdra.Mapper.Timing.{node_attr}
use fdra.Mapper.Timing.Bound.{Bound, set_lat, bound_node, bound_nodes, latency_bound}
use fdra.Mapper.Timing.Latest.{
  AllFrom, IsSequence, NoneLater, OneArrives, IsLatest, AllLatest, AllWithin, max_in-found,
  same-NoneLater, same-OneArrives,
}

module _ (dfg : Dfg) where
  -- The greatest latency is as before, which can be for want of nodes or since it was positive, or it is
  -- that of a node of the list.
  abbrev IsTop : List ℕ → Bound → Bound → Type 0
  IsTop ids b b' =
      ((b'.max_lat_dfg ≡ b.max_lat_dfg)
        × (b'.max_lat_node ≡ b.max_lat_node)
        × ((ids ≡ []) ⊎ (ltb_ℤ (pos 0) b.max_lat_dfg ≡ true)))
      ⊎ ((i : ℕ) × (Set.count i ids ≡ true)
          × (b'.max_lat_node ≡ some i)
          × ((node_attr i b'.mapping).lat ≡ b'.max_lat_dfg))

  record IsBounded (ids : List ℕ) (b b' : Bound) : Type 0 where
    links : b'.mapping.dfg_edge_attrs ≡ b.mapping.dfg_edge_attrs
    others :
        (i : ℕ)
        → Set.count i ids ≡ false
        → (node_attr i b'.mapping).lat ≡ (node_attr i b.mapping).lat
    latest : AllLatest dfg b'.mapping ids
    within : AllWithin dfg b'.mapping b'.max_lat_dfg ids
    grows : b.max_lat_dfg ≤ℤ b'.max_lat_dfg
    top : IsTop ids b b'

  set_lat-lat :
      (i id : ℕ) (lat : ℤ) (m : Mapping)
      → (node_attr i (set_lat id lat m)).lat ≡ (if id == i then lat else (node_attr i m).lat)
  set_lat-lat i id lat m =
      let attr = record (node_attr id m) { lat = lat } in
      ground (arith, Map.lookup-insert i id attr m.dfg_node_attrs)

  module _ (id : ℕ) (ids : List ℕ) (b b' : Bound) (n : DfgNode) (k : ℤ)
      (stored : DfgStore.node id dfg ≡ some n) (takes : pos 0 ≤ℤ n.op_latency)
      (behind : AllFrom dfg (λ src. not (Set.count src (id ∷ ids))) n.input_edges)
      (once : Set.count id ids ≡ false) (least : pos 0 ≤ℤ k)
      (none_later : NoneLater dfg b.mapping k n.input_edges)
      (last : (k ≡ pos 0) ⊎ OneArrives dfg b.mapping k n.input_edges) where
    abbrev lat : ℤ
    lat = k +ℤ n.op_latency

    abbrev b1 : Bound
    b1 = bound_node id lat b

    module _ (rest : IsBounded ids b1 b') where
      own_lat : (node_attr id b'.mapping).lat ≡ lat
      own_lat = rest.others id once ∙ ground (arith, set_lat-lat id id lat b.mapping)

      other_lat :
          (i : ℕ)
          → Set.count i (id ∷ ids) ≡ false
          → (node_attr i b'.mapping).lat ≡ (node_attr i b.mapping).lat
      other_lat i away =
          rest.others i (ground arith) ∙ ground (arith, set_lat-lat i id lat b.mapping)

      source_lat :
          (src : ℕ)
          → not (Set.count src (id ∷ ids)) ≡ true
          → (node_attr src b'.mapping).lat ≡ (node_attr src b.mapping).lat
      source_lat src away = other_lat src (ground arith)

      own-IsLatest : IsLatest dfg b'.mapping id
      own-IsLatest = (
        n,
        k,
        stored,
        own_lat,
        least,
        same-NoneLater dfg b.mapping b'.mapping _ k n.input_edges rest.links source_lat behind
            none_later,
        elim last [
          | inl zero_wait ↦ inl zero_wait
          | inr one ↦ inr (
              same-OneArrives dfg b.mapping b'.mapping _ k n.input_edges rest.links source_lat
                behind one)
        ],
      )

      -- The two branches of `lat >= maxLatDfg`.
      raised : (b.max_lat_dfg ≤ℤ b1.max_lat_dfg) × (lat ≤ℤ b1.max_lat_dfg)
      raised = elim (Bool-cases (ltb_ℤ lat b.max_lat_dfg)) [
        | inl less ↦ rw less (ground (arith, less))
        | inr not_less ↦ rw not_less (ground (arith, not_less))
      ]

      cons-IsTop : IsTop (id ∷ ids) b b'
      cons-IsTop = elim (Bool-cases (ltb_ℤ lat b.max_lat_dfg)) [
        | inl less ↦ elim rest.top [
          | inl (same_max, same_node, why) ↦
              let positive : ltb_ℤ (pos 0) b.max_lat_dfg ≡ true =
                ground (arith, +ℤ_parts k n.op_latency, less) in
              inl (same_max ∙ rw less refl, same_node ∙ rw less refl, inr positive)
          | inr (i, there, is_node, is_lat) ↦ inr (i, ground arith, is_node, is_lat)
        ]
        | inr not_less ↦ elim rest.top [
          | inl (same_max, same_node, why) ↦ inr (
            id,
            ground arith,
            same_node ∙ rw not_less refl,
            own_lat ∙ sym (same_max ∙ rw not_less refl),
          )
          | inr (i, there, is_node, is_lat) ↦ inr (i, ground arith, is_node, is_lat)
        ]
      ]

      IsBounded-cons : IsBounded (id ∷ ids) b b'
      IsBounded-cons = record {
        links = rest.links;
        others = other_lat;
        latest = (own-IsLatest, rest.latest);
        within = (rw own_lat (omega (arith, raised.1, rest.grows)), rest.within);
        grows = omega (arith, raised.0, rest.grows);
        top = cons-IsTop;
      }

  bound_nodes-found :
      (ids : List ℕ) (b : Bound)
      → IsSequence dfg ids
      → IsDistinct ids
      → (b' : Bound) × (bound_nodes dfg ids b ≡ some b') × IsBounded ids b b'
  unfolding bound_nodes
  bound_nodes-found [] b sequence distinct = (
    b,
    refl,
    record {
      links = refl;
      others = λ i away. refl;
      latest = tt;
      within = tt;
      grows = omega arith;
      top = inl (refl, refl, inl refl);
    },
  )
  bound_nodes-found (id ∷ ids) b ((n, stored, takes, behind), sequence) distinct =
      let (k, found, least, none_later, last) =
        max_in-found dfg b.mapping _ n.input_edges (pos 0) behind in
      let (b', run, rest) =
        bound_nodes-found ids (bound_node id (k +ℤ n.op_latency) b) sequence distinct.1 in
      (
        b',
        rw (stored, found) run,
        IsBounded-cons id ids b b' n k stored takes behind distinct.0 least none_later last rest,
      )

  -- The result: each node is as late as its last input and itself, and the greatest latency is that of
  -- the node that is named.
  pub record IsLongest (m m' : Mapping) : Type 0 where
    pub links : m'.dfg_edge_attrs ≡ m.dfg_edge_attrs
    pub latest : AllLatest dfg m' dfg.topo_nodes
    pub within : AllWithin dfg m' m'.max_lat dfg.topo_nodes
    pub attained : (node_attr m'.max_lat_node_id m').lat ≡ m'.max_lat
    pub named : Set.count m'.max_lat_node_id dfg.topo_nodes ≡ true

  -- On an order of distinct nodes, each behind the sources of its input edges, whose operations take no
  -- negative time, the pass succeeds. Afterwards the latency of each node is that of its operation
  -- after the arrival of its last input (or after 0): the length of the longest path to it. The maximum
  -- is the greatest of them, that of the node named, and the routes are as before.
  pub latency_bound-IsLongest :
      (m : Mapping)
      → IsSequence dfg dfg.topo_nodes
      → IsDistinct dfg.topo_nodes
      → dfg.topo_nodes ≢ []
      → (m' : Mapping) × (latency_bound dfg m ≡ some m') × IsLongest m m'
  unfolding latency_bound
  latency_bound-IsLongest m sequence distinct some_node =
      let start : Bound = record { mapping = m; max_lat_dfg = pos 0; max_lat_node = none } in
      let (b, run, bounded) = bound_nodes-found dfg.topo_nodes start sequence distinct in
      elim bounded.top [
        | inl (same_max, same_node, why) ↦
            absurd (elim why [ inl nothing ↦ some_node nothing | inr positive ↦ cc positive ])
        | inr (i, there, is_node, is_lat) ↦ (
          record b.mapping { max_lat = b.max_lat_dfg; max_lat_node_id = i },
          rw (run, is_node) refl,
          record {
            links = bounded.links;
            latest = bounded.latest;
            within = bounded.within;
            attained = is_lat;
            named = there;
          },
        )
      ]
