-- ===== src/Mapper/Timing/Examples.antt =====
-- Two nodes in a row, on which the theorems about the latencies are used.
use fdra.Prelude.{
  ℕ, ◌==◌, sym, ap, ◌∙◌, Bool-cases, inl, inr, Option, none, some, [], ◌∷◌, ◌≡◌, ◌≢◌, refl, nat_key,
  arith,
}
use fdra.Prelude.Int.{ℤ, pos, ◌+ℤ◌, ◌-ℤ◌}
use fdra.Dfg.Store as DfgStore
use fdra.Dfg.Store.{Dfg}
use fdra.Dfg.Topo.Lists.{IsDistinct}
use fdra.Adg.Node as AdgNode
use fdra.Adg.Node.{FuNode, as_fu}
use fdra.Adg.Store as AdgStore
use mathlib.Core.Path.{subst}
use mathlib.Core.Option.{some-injective}
use fdra.Mapper.Mapping.{Mapping}
use fdra.Mapper.Mapping.Examples.{chain, edge_of, nothing_mapped, one_node}
use fdra.Mapper.Mapping.Walk.Examples.{sink_node, two_dfg}
use fdra.Mapper.Timing.Bound.{latency_bound, bound_nodes, max_in}
use fdra.Mapper.Timing.Latest.{IsSequence}
use fdra.Mapper.Timing.Longest.{IsLongest, latency_bound-IsLongest}
use fdra.Mapper.Timing.Delay.{get_avail_delay}
use fdra.Mapper.Timing.Violation.{
  cal_edge_lat_vio, check_nodes, check_edges, check_edge, assign_delay, compare_delay, note_vio,
}
use fdra.Mapper.Timing.Met.{AllOnce}
use fdra.Mapper.Timing.Within.{AllUnitsKeyed, AllWithin, cal_edge_lat_vio-AllWithin}
use fdra.Mapper.Timing.Whole.{IsMet, cal_edge_lat_vio-IsMet}

abbrev row : Dfg
row = record two_dfg { topo_nodes = 6 ∷ 7 ∷ [] }

-- The edge takes two cycles.
abbrev routed : Mapping
routed = record nothing_mapped {
  dfg_edge_attrs = (1, record { lat = pos 2; delay = pos 0; vio = pos 0; edge_links = [] }) ∷ [];
}

row-IsSequence : IsSequence row row.topo_nodes
unfolding DfgStore.node DfgStore.edge
row-IsSequence = (
  (one_node, refl, omega arith, tt),
  ((sink_node, refl, omega arith, ((edge_of 1, refl, refl), tt)), tt),
)

row-IsDistinct : IsDistinct row.topo_nodes
row-IsDistinct = (refl, (refl, tt))

row_non_empty : row.topo_nodes ≢ []
row_non_empty same = cc same

latency_bound-IsLongest_example :
    (m' : Mapping) × (latency_bound row routed ≡ some m') × IsLongest row routed m'
latency_bound-IsLongest_example =
    latency_bound-IsLongest row routed row-IsSequence row-IsDistinct row_non_empty

abbrev lat_of : Option Mapping → Option ℤ
lat_of none = none
lat_of (some m) = some m.max_lat

-- Computed: one cycle, two on the way, one cycle.
row_lat : lat_of (latency_bound row routed) ≡ some (pos 4)
unfolding latency_bound bound_nodes max_in DfgStore.node DfgStore.edge ◌+ℤ◌
row_lat = refl

-- Both nodes placed; the second one can wait until its time 5.
abbrev timed : Mapping
timed = record routed {
  dfg_node_attrs =
      (6, record { min_lat = pos 0; max_lat = pos 1; lat = pos 1; adg_node = some 1 })
      ∷ (7, record { min_lat = pos 4; max_lat = pos 5; lat = pos 4; adg_node = some 3 })
      ∷ [];
}

row-AllOnce : AllOnce row row.topo_nodes []
unfolding DfgStore.node
row-AllOnce = (tt, ((refl, tt), tt))

abbrev mapping_of : Option Mapping → Mapping
mapping_of none = nothing_mapped
mapping_of (some m) = m

abbrev short : Mapping
short = mapping_of (cal_edge_lat_vio row chain timed)

short_found : cal_edge_lat_vio row chain timed ≡ some short
unfolding cal_edge_lat_vio check_nodes check_edges check_edge assign_delay compare_delay note_vio
    get_avail_delay DfgStore.node DfgStore.edge AdgStore.node ◌-ℤ◌ ◌+ℤ◌
short_found = refl

-- Computed: the unit has one operand, and no delay to give; two cycles are missing.
short_by_2 : short.total_violation ≡ pos 2
unfolding cal_edge_lat_vio check_nodes check_edges check_edge assign_delay compare_delay note_vio
    get_avail_delay DfgStore.node DfgStore.edge AdgStore.node ◌-ℤ◌ ◌+ℤ◌
short_by_2 = refl

cal_edge_lat_vio-IsMet_example : IsMet row chain timed short
cal_edge_lat_vio-IsMet_example =
    cal_edge_lat_vio-IsMet row chain timed short row-AllOnce short_found

-- A unit of the architecture, read through its lookup.
abbrev KeyedAt : ℕ → Option AdgNode.Node → Type 0
KeyedAt u none = Unit {0}
KeyedAt u (some x) = (fu : FuNode) → as_fu x ≡ some fu → fu.id ≡ u

chain-AllUnitsKeyed : AllUnitsKeyed chain
unfolding AdgStore.node
chain-AllUnitsKeyed u x fu is_x is_fu = elim (Bool-cases (1 == u)) [
  | inl at_1 ↦
      let e : 1 ≡ u = ground arith in
      subst (KeyedAt u) (rw at_1 at is_x)
        (λ f h. sym (ap (λ (g : FuNode). g.id) (some-injective _ _ h)) ∙ e) fu is_fu
  | inr not_1 ↦ elim (Bool-cases (2 == u)) [
    | inl at_2 ↦ subst (KeyedAt u) (rw (not_1, at_2) at is_x) (λ f h. absurd (cc h)) fu is_fu
    | inr not_2 ↦ elim (Bool-cases (3 == u)) [
      | inl at_3 ↦
          let e : 3 ≡ u = ground arith in
          subst (KeyedAt u) (rw (not_1, not_2, at_3) at is_x)
            (λ f h. sym (ap (λ (g : FuNode). g.id) (some-injective _ _ h)) ∙ e) fu is_fu
      | inr not_3 ↦ absurd (cc (rw (not_1, not_2, not_3) at is_x))
    ]
  ]
]

timed-AllWithin : AllWithin chain timed
timed-AllWithin u x fu is_x is_fu = (omega arith, refl)

cal_edge_lat_vio-AllWithin_example : AllWithin chain short
cal_edge_lat_vio-AllWithin_example =
    cal_edge_lat_vio-AllWithin row chain chain-AllUnitsKeyed timed short timed-AllWithin short_found
