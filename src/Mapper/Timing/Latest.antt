-- ===== src/Mapper/Timing/Latest.antt =====
-- mapper/mapping.cpp, `latencyBound`: what the latest input of a node is, and the loop over its input edges.
use fdra.Prelude.{
  ℕ, Bool, true, not, some, List, [], ◌∷◌, ◌≡◌, refl, ◌∙◌, ◌⊎◌, nat_key, arith, Bool-cases, inl,
  inr,
}
use mathlib.Core.Path.{subst}
use fdra.Prelude.Int.{ℤ, pos, ◌+ℤ◌, ◌≤ℤ◌, max_ℤ, ltb_ℤ}
use fdra.Prelude.Map.{Map}
use fdra.Prelude.Set
use fdra.Graph.Edge.{GraphEdge}
use fdra.Dfg.Node.{DfgNode}
use fdra.Dfg.Store as DfgStore
use fdra.Dfg.Store.{Dfg}
use fdra.Mapper.Mapping.{Mapping}
use fdra.Mapper.Timing.{node_attr, edge_attr}
use fdra.Mapper.Timing.Bound.{arrival, max_in}

max_ℤ-above : (a b : ℤ) → (a ≤ℤ max_ℤ a b) × (b ≤ℤ max_ℤ a b)
max_ℤ-above a b = ground arith

max_ℤ-one : (a b : ℤ) → (max_ℤ a b ≡ a) ⊎ (max_ℤ a b ≡ b)
max_ℤ-one a b = elim (Bool-cases (ltb_ℤ a b)) [
  | inl less ↦ inr (rw less refl)
  | inr not_less ↦ inl (rw not_less refl)
]

module _ (dfg : Dfg) where
  -- The graph has the edges, and each comes from a node that passes the test.
  abbrev pub AllFrom : (ℕ → Bool) → Map ℕ ℕ → Type 0
  AllFrom p [] = Unit {0}
  AllFrom p ((port, id) ∷ edges) =
      ((e : GraphEdge) × (DfgStore.edge id dfg ≡ some e) × (p e.src_id ≡ true)) × AllFrom p edges

  -- The nodes exist, take time, and each stands behind the nodes that its edges come from.
  abbrev pub IsSequence : List ℕ → Type 0
  IsSequence [] = Unit {0}
  IsSequence (id ∷ ids) =
      ((n : DfgNode) × (DfgStore.node id dfg ≡ some n)
        × (pos 0 ≤ℤ n.op_latency)
        × AllFrom (λ src. not (Set.count src (id ∷ ids))) n.input_edges)
      × IsSequence ids

  -- On the latencies of the nodes and of the edges.
  module _ (node_lat edge_lat : ℕ → ℤ) where
    -- No value arrives later, and one arrives then, unless the node need not wait at all.
    abbrev NoneLaterThan : ℤ → Map ℕ ℕ → Type 0
    NoneLaterThan k [] = Unit {0}
    NoneLaterThan k ((port, id) ∷ edges) =
        ((e : GraphEdge) → DfgStore.edge id dfg ≡ some e → node_lat e.src_id +ℤ edge_lat id ≤ℤ k)
        × NoneLaterThan k edges

    abbrev OneArrivesAt : ℤ → Map ℕ ℕ → Type 0
    OneArrivesAt k [] = ⊥
    OneArrivesAt k ((port, id) ∷ edges) =
        ((e : GraphEdge) × (DfgStore.edge id dfg ≡ some e) × (k ≡ node_lat e.src_id +ℤ edge_lat id))
        ⊎ OneArrivesAt k edges

    -- The latency of a node is its own after that of its last input.
    abbrev IsLatestAt : ℕ → Type 0
    IsLatestAt id =
        (n : DfgNode) × (k : ℤ) × (DfgStore.node id dfg ≡ some n)
        × (node_lat id ≡ k +ℤ n.op_latency)
        × (pos 0 ≤ℤ k)
        × NoneLaterThan k n.input_edges
        × ((k ≡ pos 0) ⊎ OneArrivesAt k n.input_edges)

    abbrev AllLatestAt : List ℕ → Type 0
    AllLatestAt [] = Unit {0}
    AllLatestAt (id ∷ ids) = IsLatestAt id × AllLatestAt ids

    abbrev AllWithinOf : ℤ → List ℕ → Type 0
    AllWithinOf k [] = Unit {0}
    AllWithinOf k (id ∷ ids) = (node_lat id ≤ℤ k) × AllWithinOf k ids

  module _ (m : Mapping) where
    abbrev lats : ℕ → ℤ
    lats i = (node_attr i m).lat

    abbrev routes : ℕ → ℤ
    routes i = (edge_attr i m).lat

    abbrev pub NoneLater : ℤ → Map ℕ ℕ → Type 0
    NoneLater = NoneLaterThan lats routes

    abbrev pub OneArrives : ℤ → Map ℕ ℕ → Type 0
    OneArrives = OneArrivesAt lats routes

    abbrev pub IsLatest : ℕ → Type 0
    IsLatest = IsLatestAt lats routes

    abbrev pub AllLatest : List ℕ → Type 0
    AllLatest = AllLatestAt lats routes

    abbrev pub AllWithin : ℤ → List ℕ → Type 0
    AllWithin = AllWithinOf lats routes

    pub max_in-found :
        (p : ℕ → Bool) (edges : Map ℕ ℕ) (acc : ℤ)
        → AllFrom p edges
        → (k : ℤ) × (max_in dfg m edges acc ≡ some k)
          × (acc ≤ℤ k)
          × NoneLater k edges
          × ((k ≡ acc) ⊎ OneArrives k edges)
    unfolding max_in
    max_in-found p [] acc all = (acc, refl, omega arith, tt, inl refl)
    max_in-found p ((port, id) ∷ edges) acc ((e, stored, from), all) =
        let a = arrival m id e in
        let (k, found, ge, none_later, last) = max_in-found p edges (max_ℤ acc a) all in
        let above : (acc ≤ℤ max_ℤ acc a) × (a ≤ℤ max_ℤ acc a) = max_ℤ-above acc a in
        let in_time : a ≤ℤ k = omega (arith, above.1, ge) in
        (
          k,
          rw stored found,
          omega (arith, above.0, ge),
          (
            λ e' stored'.
                let same : e ≡ e' = ground arith in subst (λ x. arrival m id x ≤ℤ k) same in_time,
            none_later,
          ),
          elim last [
            | inl is_max ↦ elim (max_ℤ-one acc a) [
              | inl is_acc ↦ inl (is_max ∙ is_acc)
              | inr is_a ↦ inr (inl (e, stored, is_max ∙ is_a))
            ]
            | inr later ↦ inr (inr later)
          ],
        )

  -- The latencies of the sources decide.
  pub same-NoneLater :
      (m m' : Mapping) (p : ℕ → Bool) (k : ℤ) (edges : Map ℕ ℕ)
      → m'.dfg_edge_attrs ≡ m.dfg_edge_attrs
      → ((src : ℕ) → p src ≡ true → (node_attr src m').lat ≡ (node_attr src m).lat)
      → AllFrom p edges
      → NoneLater m k edges
      → NoneLater m' k edges
  same-NoneLater m m' p k [] links same all h = tt
  same-NoneLater m m' p k ((port, id) ∷ edges) links same ((e, stored, from), all) h = (
    λ e' stored'.
        let is_e : e ≡ e' = ground arith in
        let is_src : p e'.src_id ≡ true = subst (λ x. p x.src_id ≡ true) is_e from in
        rw (links, same e'.src_id is_src) (h.0 e' stored'),
    same-NoneLater m m' p k edges links same all h.1,
  )

  pub same-OneArrives :
      (m m' : Mapping) (p : ℕ → Bool) (k : ℤ) (edges : Map ℕ ℕ)
      → m'.dfg_edge_attrs ≡ m.dfg_edge_attrs
      → ((src : ℕ) → p src ≡ true → (node_attr src m').lat ≡ (node_attr src m).lat)
      → AllFrom p edges
      → OneArrives m k edges
      → OneArrives m' k edges
  same-OneArrives m m' p k [] links same all h = h
  same-OneArrives m m' p k ((port, id) ∷ edges) links same ((e, stored, from), all)
        (inl (e', stored', last)) =
      let is_e : e ≡ e' = ground arith in
      let is_src : p e'.src_id ≡ true = subst (λ x. p x.src_id ≡ true) is_e from in
      inl (e', stored', rw (links, same e'.src_id is_src) last)
  same-OneArrives m m' p k ((port, id) ∷ edges) links same ((e, stored, from), all) (inr later) =
      inr (same-OneArrives m m' p k edges links same all later)
