-- ===== src/Mapper/Timing/Within.antt =====
-- mapper/mapping.cpp, `calEdgeLatVio`: the delays that the units give out.
use fdra.Prelude.{
  ℕ, not, ◌&&◌, some, List, [], ◌∷◌, ◌≡◌, refl, sym, ap, ◌∙◌, inl, inr, arith, Bool-cases, nat_key,
}
use mathlib.Core.Path.{subst}
use mathlib.Core.Option.{some-injective}
use fdra.Prelude.Int.{ℤ, pos, ◌+ℤ◌, ◌≤ℤ◌, ltb_ℤ, min_ℤ, +ℤ_parts}
use fdra.Prelude.Options.{>>=-eq-some}
use fdra.Prelude.Map
use fdra.Prelude.Map.{Map}
use fdra.Dfg.Node.{DfgNode}
use fdra.Dfg.Store as DfgStore
use fdra.Dfg.Store.{Dfg}
use fdra.Adg.Node as AdgNode
use fdra.Adg.Node.{FuNode, as_fu}
use fdra.Adg.Store as AdgStore
use fdra.Adg.Store.{Adg}
use fdra.Mapper.Mapping.{Mapping}
use fdra.Mapper.Timing.{node_attr}
use fdra.Mapper.Timing.Delay.{new_fu_delay, get_avail_delay}
use fdra.Mapper.Timing.Violation.{
  Tally, update_fu_delay, set_delay, assign_delay, note_vio, required_delay, compare_delay,
  check_edge, check_edges, unit_of_node, check_nodes, cal_edge_lat_vio,
}
use fdra.Mapper.Timing.Frame.{touch-attr}
use fdra.Mapper.Timing.Left.{sum_delays, sum_at, total_at, avail-left, assign-total}

-- The units of the architecture stand under their identifiers.
abbrev pub AllUnitsKeyed : Adg → Type 0
AllUnitsKeyed adg =
    (u : ℕ) (x : AdgNode.Node) (fu : FuNode)
    → AdgStore.node u adg ≡ some x
    → as_fu x ≡ some fu
    → fu.id ≡ u

-- The delays that a unit has assigned to its ports are together no more than it has, and the counter
-- `totalDelayUsed` is their sum.
abbrev pub AllWithin : Adg → Mapping → Type 0
AllWithin adg m =
    (u : ℕ) (x : AdgNode.Node) (fu : FuNode)
    → AdgStore.node u adg ≡ some x
    → as_fu x ≡ some fu
    → (sum_at u m ≤ℤ pos fu.max_delay) × (total_at u m ≡ sum_at u m)

min_ℤ-below : (a b : ℤ) → min_ℤ a b ≤ℤ a
min_ℤ-below a b = ground arith

more_within :
    (fu : FuNode) (n : DfgNode) (required : ℤ) (m : Mapping)
    → total_at fu.id m ≤ℤ pos fu.max_delay
    → total_at fu.id m +ℤ min_ℤ (get_avail_delay fu n m) required ≤ℤ pos fu.max_delay
more_within fu n required m most =
    let d = min_ℤ (get_avail_delay fu n m) required in
    omega (
      arith,
      avail-left fu n m most,
      min_ℤ-below (get_avail_delay fu n m) required,
      +ℤ_parts (total_at fu.id m) (get_avail_delay fu n m),
      +ℤ_parts (total_at fu.id m) d,
    )

AllWithin-same :
    (adg : Adg) (m m' : Mapping)
    → m'.fu_delay_attrs ≡ m.fu_delay_attrs
    → AllWithin adg m
    → AllWithin adg m'
AllWithin-same adg m m' same within u x fu is_x is_fu =
    let total : total_at u m' ≡ total_at u m =
      ap (λ a. (Map.get_or u new_fu_delay a).total_delay_used) same in
    let sum : sum_at u m' ≡ sum_at u m =
      ap (λ a. sum_delays (Map.get_or u new_fu_delay a).delay_used) same in
    rw (total, sum) (within u x fu is_x is_fu)

compare_delay-same :
    (id : ℕ) (required assigned : ℤ) (t t' : Tally)
    → compare_delay id required assigned t ≡ some t'
    → t'.mapping.fu_delay_attrs ≡ t.mapping.fu_delay_attrs
unfolding compare_delay note_vio
compare_delay-same id required assigned t t' h =
    elim (Bool-cases (not (ltb_ℤ required assigned) && not (ltb_ℤ assigned (pos 0)))) [
      | inl holds ↦ elim (Bool-cases (ltb_ℤ assigned required)) [
        | inl missing ↦ sym (
            ap (λ (t : Tally). t.mapping.fu_delay_attrs)
              (some-injective _ _ (rw (holds, missing) at h)))
        | inr enough ↦ sym (
            ap (λ (t : Tally). t.mapping.fu_delay_attrs)
              (some-injective _ _ (rw (holds, enough) at h)))
      ]
      | inr fails ↦ absurd (ground arith)
    ]

module _ (dfg : Dfg) (adg : Adg) (keyed : AllUnitsKeyed adg) where
  assign-AllWithin :
      (u0 : ℕ) (x0 : AdgNode.Node) (node_id : ℕ) (fu : FuNode) (n : DfgNode) (port : ℕ)
      (required : ℤ) (m : Mapping)
      → AdgStore.node u0 adg ≡ some x0
      → as_fu x0 ≡ some fu
      → AllWithin adg m
      → AllWithin adg (assign_delay node_id fu n port required m).1
  assign-AllWithin u0 x0 node_id fu n port required m is_x0 is_fu within u x fu' is_x is_fu' =
      elim (assign-total node_id fu n port required m u) [
        | inl (total, sum) ↦ rw (total, sum) (within u x fu' is_x is_fu')
        | inr (at, more_total, more) ↦
            let own : fu.id ≡ u0 = keyed u0 x0 fu is_x0 is_fu in
            let here : u ≡ u0 = at ∙ own in
            let same_x : x0 ≡ x = ground (arith, is_x0, is_x, here) in
            let same_fu : fu ≡ fu' = ground (arith, is_fu, is_fu', same_x) in
            let d = min_ℤ (get_avail_delay fu n m) required in
            let (most, counted) = within u x fu' is_x is_fu' in
            let at_u : total_at u m ≤ℤ pos fu'.max_delay = rw counted most in
            let at_fu : total_at fu.id m ≤ℤ pos fu.max_delay =
              subst (λ f. total_at fu.id m ≤ℤ pos f.max_delay) (sym same_fu)
                (subst (λ k. total_at k m ≤ℤ pos fu'.max_delay) at at_u) in
            let most' : total_at u m +ℤ d ≤ℤ pos fu'.max_delay =
              subst (λ f. total_at u m +ℤ d ≤ℤ pos f.max_delay) same_fu
                (subst (λ k. total_at k m +ℤ d ≤ℤ pos fu.max_delay) (sym at)
                  (more_within fu n required m at_fu)) in
            (rw (more, sym counted) most', rw (more_total, more, counted) refl)
      ]

  check_edges-AllWithin :
      (u0 : ℕ) (x0 : AdgNode.Node) (node_id : ℕ) (fu : FuNode) (n : DfgNode) (max_lat : ℤ)
      (edges : Map ℕ ℕ) (t t' : Tally)
      → AdgStore.node u0 adg ≡ some x0
      → as_fu x0 ≡ some fu
      → AllWithin adg t.mapping
      → check_edges dfg node_id fu n max_lat edges t ≡ some t'
      → AllWithin adg t'.mapping
  unfolding check_edges check_edge
  check_edges-AllWithin u0 x0 node_id fu n max_lat [] t t' is_x0 is_fu within h =
      let same : t ≡ t' = ground arith in subst (λ (t : Tally). AllWithin adg t.mapping) same within
  check_edges-AllWithin u0 x0 node_id fu n max_lat ((port, id) ∷ edges) t t' is_x0 is_fu within h =
      let (t1, h1, h2) = >>=-eq-some (check_edge dfg node_id fu n max_lat port id t) _ h in
      let (e, stored, h3) = >>=-eq-some (DfgStore.edge id dfg) _ h1 in
      let required = required_delay max_lat id e t.mapping in
      let m1 = set_delay id required t.mapping in
      let assigned = assign_delay node_id fu n port required m1 in
      let within1 = AllWithin-same adg t.mapping m1 refl within in
      let within2 = assign-AllWithin u0 x0 node_id fu n port required m1 is_x0 is_fu within1 in
      let within3 =
        AllWithin-same adg assigned.1 t1.mapping
          (compare_delay-same id required assigned.0 (record t { mapping = assigned.1 }) t1 h3)
          within2 in
      check_edges-AllWithin u0 x0 node_id fu n max_lat edges t1 t' is_x0 is_fu within3 h2

  touch-AllWithin :
      (k : ℕ) (m : Mapping) → AllWithin adg m → AllWithin adg (update_fu_delay k (λ attr. attr) m)
  touch-AllWithin k m within u x fu is_x is_fu =
      let same = touch-attr u k m in
      let total : total_at u (update_fu_delay k (λ attr. attr) m) ≡ total_at u m =
        ap (λ a. a.total_delay_used) same in
      let sum : sum_at u (update_fu_delay k (λ attr. attr) m) ≡ sum_at u m =
        ap (λ a. sum_delays a.delay_used) same in
      rw (total, sum) (within u x fu is_x is_fu)

  check_nodes-AllWithin :
      (ids : List ℕ) (t t' : Tally)
      → AllWithin adg t.mapping
      → check_nodes dfg adg ids t ≡ some t'
      → AllWithin adg t'.mapping
  unfolding check_nodes
  check_nodes-AllWithin [] t t' within h =
      let same : t ≡ t' = ground arith in subst (λ (t : Tally). AllWithin adg t.mapping) same within
  check_nodes-AllWithin (id ∷ ids) t t' within h =
      let (n, is_node, h1) = >>=-eq-some (DfgStore.node id dfg) _ h in
      let (fu, is_unit, h2) = >>=-eq-some (unit_of_node adg id t.mapping) _ h1 in
      let (u0, on_unit, h5) = >>=-eq-some ((node_attr id t.mapping).adg_node) _ is_unit in
      let (x0, is_x0, is_fu) = >>=-eq-some (AdgStore.node u0 adg) _ h5 in
      let t1 : Tally = record t { mapping = update_fu_delay fu.id (λ attr. attr) t.mapping } in
      let (t2, h3, h4) =
        >>=-eq-some (check_edges dfg id fu n (node_attr id t.mapping).max_lat n.input_edges t1) _
          h2 in
      check_nodes-AllWithin ids t2 t'
        (check_edges-AllWithin u0 x0 id fu n (node_attr id t.mapping).max_lat n.input_edges t1 t2
          is_x0 is_fu (touch-AllWithin fu.id t.mapping within) h3)
        h4

  -- On an architecture whose units stand under their identifiers, suppose that for each unit the delays
  -- assigned to its ports (`delayUsed`) are together at most its maximal delay, and `totalDelayUsed`
  -- is their sum. If the pass returns, then both hold of each unit again.
  pub cal_edge_lat_vio-AllWithin :
      (m m' : Mapping) → AllWithin adg m → cal_edge_lat_vio dfg adg m ≡ some m' → AllWithin adg m'
  unfolding cal_edge_lat_vio
  cal_edge_lat_vio-AllWithin m m' within h =
      let start : Tally = record {
        mapping = record m { vio_dfg_edges = [] };
        sum_vio = pos 0;
        max_vio = pos 0;
      } in
      let (t, h1, h2) = >>=-eq-some (check_nodes dfg adg dfg.topo_nodes start) _ h in
      let within1 =
        check_nodes-AllWithin dfg.topo_nodes start t
          (AllWithin-same adg m start.mapping refl within) h1 in
      AllWithin-same adg t.mapping m'
        (sym (ap (λ (m : Mapping). m.fu_delay_attrs) (some-injective _ _ h2))) within1
