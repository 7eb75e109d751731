-- ===== src/Mapper/Timing/Frame.antt =====
-- mapper/mapping.cpp, `calEdgeLatVio`: what the writes to the delays leave as it is.
use fdra.Prelude.{
  ℕ, true, none, some, ◌≡◌, refl, sym, or_else, ap, ◌∙◌, ◌==◌, if◌then◌else◌, nat_key, arith,
  Bool-cases, Option-cases, inl, inr,
}
use mathlib.Core.Path.{subst}
use fdra.Prelude.Int.{ℤ, pos, ◌-ℤ◌, max_ℤ, min_ℤ}
use fdra.Prelude.Map
use fdra.Prelude.Map.{Map}
use fdra.Dfg.Node.{DfgNode}
use fdra.Adg.Node.{FuNode}
use fdra.Mapper.Mapping.{Mapping, DfgNodeAttr, DfgEdgeAttr, new_dfg_node, new_dfg_edge}
use fdra.Mapper.Timing.{node_attr, edge_attr, update_dfg_node, update_dfg_edge}
use fdra.Mapper.Timing.Delay.{new_fu_delay, get_avail_delay}
use fdra.Mapper.Timing.Violation.{update_fu_delay, use_delay, assign_delay}

-- The delays that a unit has assigned to its ports.
abbrev pub delays_at : ℕ → Mapping → Map ℕ ℤ
delays_at u m = (Map.get_or u new_fu_delay m.fu_delay_attrs).delay_used

-- The latencies and the places are not changed, and a delay that is assigned stays.
pub record IsFrame (m m' : Mapping) : Type 0 where
  pub lat : (i : ℕ) → (node_attr i m').lat ≡ (node_attr i m).lat
  pub max_lat : (i : ℕ) → (node_attr i m').max_lat ≡ (node_attr i m).max_lat
  pub adg_node : (i : ℕ) → (node_attr i m').adg_node ≡ (node_attr i m).adg_node
  pub edge_lat : (i : ℕ) → (edge_attr i m').lat ≡ (edge_attr i m).lat
  pub booked :
      (u port : ℕ) (d : ℤ)
      → Map.lookup port (delays_at u m) ≡ some d
      → Map.lookup port (delays_at u m') ≡ some d

-- Where only the delays of the units differ.
pub IsFrame-delays :
    (m m' : Mapping)
    → m'.dfg_node_attrs ≡ m.dfg_node_attrs
    → m'.dfg_edge_attrs ≡ m.dfg_edge_attrs
    → ((u port : ℕ) (d : ℤ)
        → Map.lookup port (delays_at u m) ≡ some d
        → Map.lookup port (delays_at u m') ≡ some d)
    → IsFrame m m'
IsFrame-delays m m' nodes edges booked = record {
  lat = λ i. ap (λ a. (Map.get_or i new_dfg_node a).lat) nodes;
  max_lat = λ i. ap (λ a. (Map.get_or i new_dfg_node a).max_lat) nodes;
  adg_node = λ i. ap (λ a. (Map.get_or i new_dfg_node a).adg_node) nodes;
  edge_lat = λ i. ap (λ a. (Map.get_or i new_dfg_edge a).lat) edges;
  booked = booked;
}

pub IsFrame-refl : (m : Mapping) → IsFrame m m
IsFrame-refl m = IsFrame-delays m m refl refl λ u port d h. h

pub IsFrame-trans : (m m' m'' : Mapping) → IsFrame m m' → IsFrame m' m'' → IsFrame m m''
IsFrame-trans m m' m'' f g = record {
  lat = λ i. g.lat i ∙ f.lat i;
  max_lat = λ i. g.max_lat i ∙ f.max_lat i;
  adg_node = λ i. g.adg_node i ∙ f.adg_node i;
  edge_lat = λ i. g.edge_lat i ∙ f.edge_lat i;
  booked = λ u port d h. g.booked u port d (f.booked u port d h);
}

-- An entry that is made reads like none.
pub touch-attr :
    (u k : ℕ) (m : Mapping)
    → Map.get_or u new_fu_delay (update_fu_delay k (λ attr. attr) m).fu_delay_attrs
      ≡ Map.get_or u new_fu_delay m.fu_delay_attrs
touch-attr u k m =
    let attr = Map.get_or k new_fu_delay m.fu_delay_attrs in
    let stored = Map.lookup-insert u k attr m.fu_delay_attrs in
    elim (Bool-cases (k == u)) [
      | inl own ↦
          let same : k ≡ u = ground arith in
          let now : Map.lookup u (Map.insert k attr m.fu_delay_attrs) ≡ some attr =
            stored ∙ rw own refl in
          ap (or_else new_fu_delay) now ∙ ap (λ j. Map.get_or j new_fu_delay m.fu_delay_attrs) same
      | inr other ↦
          let now : Map.lookup u (Map.insert k attr m.fu_delay_attrs)
              ≡ Map.lookup u m.fu_delay_attrs =
            stored ∙ rw other refl in
          ap (or_else new_fu_delay) now
    ]

pub touch-IsFrame : (k : ℕ) (m : Mapping) → IsFrame m (update_fu_delay k (λ attr. attr) m)
touch-IsFrame k m =
    IsFrame-delays m (update_fu_delay k (λ attr. attr) m) refl refl
      λ u port d h. ap (λ a. Map.lookup port a.delay_used) (touch-attr u k m) ∙ h

use_delay-delays_at :
    (u fu_id port : ℕ) (delay : ℤ) (m : Mapping)
    → delays_at u (update_fu_delay fu_id (use_delay port delay) m)
      ≡ (if fu_id == u then Map.insert port delay (delays_at fu_id m) else delays_at u m)
use_delay-delays_at u fu_id port delay m =
    let attr = use_delay port delay (Map.get_or fu_id new_fu_delay m.fu_delay_attrs) in
    let stored = Map.lookup-insert u fu_id attr m.fu_delay_attrs in
    elim (Bool-cases (fu_id == u)) [
      | inl own ↦
          let now : Map.lookup u (Map.insert fu_id attr m.fu_delay_attrs) ≡ some attr =
            stored ∙ rw own refl in
          rw own (ap (λ o. (or_else new_fu_delay o).delay_used) now)
      | inr other ↦
          let now : Map.lookup u (Map.insert fu_id attr m.fu_delay_attrs)
              ≡ Map.lookup u m.fu_delay_attrs =
            stored ∙ rw other refl in
          rw other (ap (λ o. (or_else new_fu_delay o).delay_used) now)
    ]

insert-keeps :
    (port p : ℕ) (delay d : ℤ) (used : Map ℕ ℤ)
    → Map.lookup port used ≡ none
    → Map.lookup p used ≡ some d
    → Map.lookup p (Map.insert port delay used) ≡ some d
insert-keeps port p delay d used unused there = elim (Bool-cases (port == p)) [
  | inl own ↦
      let same : port ≡ p = ground arith in
      absurd (cc (sym there ∙ subst (λ k. Map.lookup k used ≡ none) same unused))
  | inr other ↦ Map.lookup-insert p port delay used ∙ rw other there
]

use_delay-IsFrame :
    (fu_id port : ℕ) (delay : ℤ) (m : Mapping)
    → Map.lookup port (delays_at fu_id m) ≡ none
    → IsFrame m (update_fu_delay fu_id (use_delay port delay) m)
use_delay-IsFrame fu_id port delay m unused =
    IsFrame-delays m (update_fu_delay fu_id (use_delay port delay) m) refl refl λ u p d h.
      let after = use_delay-delays_at u fu_id port delay m in
      elim (Bool-cases (fu_id == u)) [
        | inl own ↦
            let same : fu_id ≡ u = ground arith in
            let before : Map.lookup p (delays_at fu_id m) ≡ some d =
              subst (λ k. Map.lookup p (delays_at k m) ≡ some d) (sym same) h in
            let table : delays_at u (update_fu_delay fu_id (use_delay port delay) m)
                ≡ Map.insert port delay (delays_at fu_id m) =
              after ∙ rw own refl in
            ap (λ t. Map.lookup p t) table
            ∙ insert-keeps port p delay d (delays_at fu_id m) unused before
        | inr other ↦
            let table : delays_at u (update_fu_delay fu_id (use_delay port delay) m)
                ≡ delays_at u m =
              after ∙ rw other refl in
            ap (λ t. Map.lookup p t) table ∙ h
      ]

pub edge_attr-update :
    (i id : ℕ) (f : DfgEdgeAttr → DfgEdgeAttr) (m : Mapping)
    → edge_attr i (update_dfg_edge id f m) ≡ (if id == i then f (edge_attr id m) else edge_attr i m)
edge_attr-update i id f m =
    ground (arith, Map.lookup-insert i id (f (edge_attr id m)) m.dfg_edge_attrs)

node_attr-update :
    (i id : ℕ) (f : DfgNodeAttr → DfgNodeAttr) (m : Mapping)
    → node_attr i (update_dfg_node id f m) ≡ (if id == i then f (node_attr id m) else node_attr i m)
node_attr-update i id f m =
    ground (arith, Map.lookup-insert i id (f (node_attr id m)) m.dfg_node_attrs)

pub edge-IsFrame :
    (id : ℕ) (f : DfgEdgeAttr → DfgEdgeAttr) (m : Mapping)
    → ((attr : DfgEdgeAttr) → (f attr).lat ≡ attr.lat)
    → IsFrame m (update_dfg_edge id f m)
edge-IsFrame id f m same = record {
  lat = λ i. refl;
  max_lat = λ i. refl;
  adg_node = λ i. refl;
  booked = λ u port d h. h;
  edge_lat = λ i. elim (Bool-cases (id == i)) [
    | inl own ↦
        let e : id ≡ i = ground arith in
        rw (edge_attr-update i id f m, own)
          (same (edge_attr id m) ∙ ap (λ j. (edge_attr j m).lat) e)
    | inr other ↦ rw (edge_attr-update i id f m, other) refl
  ];
}

node-IsFrame :
    (id : ℕ) (k : ℤ) (m : Mapping)
    → IsFrame m (update_dfg_node id (λ attr. record attr { min_lat = k }) m)
node-IsFrame id k m =
    let f : DfgNodeAttr → DfgNodeAttr = λ attr. record attr { min_lat = k } in
    record {
      lat = λ i. ground (arith, node_attr-update i id f m);
      max_lat = λ i. ground (arith, node_attr-update i id f m);
      adg_node = λ i. ground (arith, node_attr-update i id f m);
      edge_lat = λ i. refl;
      booked = λ u port d h. h;
    }

==_refl : (k : ℕ) → (k == k) ≡ true
==_refl k = ground arith

use_delay-booked :
    (fu_id port : ℕ) (delay : ℤ) (m : Mapping)
    → Map.lookup port (delays_at fu_id (update_fu_delay fu_id (use_delay port delay) m))
      ≡ some delay
use_delay-booked fu_id port delay m =
    let table : delays_at fu_id (update_fu_delay fu_id (use_delay port delay) m)
        ≡ Map.insert port delay (delays_at fu_id m) =
      use_delay-delays_at fu_id fu_id port delay m ∙ rw (==_refl fu_id) refl in
    ap (λ t. Map.lookup port t) table
    ∙ Map.lookup-insert port port delay (delays_at fu_id m)
    ∙ rw (==_refl port) refl

-- Assigning a delay writes to the delays of the unit and to one bound only. Afterwards the port has
-- the delay.
pub assign-Frame :
    (node_id : ℕ) (fu : FuNode) (n : DfgNode) (port : ℕ) (required : ℤ) (m : Mapping)
    → let (assigned, m') = assign_delay node_id fu n port required m in
      IsFrame m m'
      × ((i : ℕ) → edge_attr i m' ≡ edge_attr i m)
      × (m'.vio_dfg_edges ≡ m.vio_dfg_edges)
      × (Map.lookup port (delays_at fu.id m') ≡ some assigned)
unfolding assign_delay
assign-Frame node_id fu n port required m =
    elim (Option-cases (Map.lookup port (delays_at fu.id m))) [
      | inl unused ↦
          let delay = min_ℤ (get_avail_delay fu n m) required in
          let m1 = update_fu_delay fu.id (use_delay port delay) m in
          let k = max_ℤ ((node_attr node_id m1).max_lat -ℤ get_avail_delay fu n m1) (pos 0) in
          let frame =
            IsFrame-trans m m1 (update_dfg_node node_id (λ attr. record attr { min_lat = k }) m1)
              (use_delay-IsFrame fu.id port delay m unused) (node-IsFrame node_id k m1) in
          rw (unused, assign_delay) (frame, (λ i. refl), refl, use_delay-booked fu.id port delay m)
      | inr (delay, used) ↦ rw (used, assign_delay) (IsFrame-refl m, (λ i. refl), refl, used)
    ]
