-- ===== src/Mapper/Mapping/MapNode/Whole.antt =====
-- mapper/mapping.cpp, `mapDfgNode`: a node is placed with all its routes, or nothing is changed.
use fdra.Prelude.{
  ℕ, Bool, true, false, none, some, List, [], ◌≡◌, refl, ◌∙◌, nat_key, arith, Bool-cases, inl, inr,
}
use fdra.Prelude.Set
use fdra.Prelude.Outcome.{Outcome, done, fault, out_of_fuel, ◌>>=◌}
use fdra.Dfg.Node.{DfgNode}
use fdra.Dfg.Store.{Dfg}
use fdra.Adg.Store.{Adg}
use fdra.Mapper.Mapping.{Mapping, mapped_adg_node, mapped_dfg_node, map_dfg_node_no_route}
use fdra.Mapper.Mapping.Placed.{IsPlacement, map_dfg_node_no_route-IsPlacement}
use fdra.Mapper.Mapping.Unmap.{input_edge_ids, output_edge_ids, IsPlacement-same}
use fdra.Mapper.Mapping.Walk.{links_of}
use fdra.Mapper.Mapping.Walk.Lead.{AllLead}
use fdra.Mapper.Mapping.Walk.Untouched.{IsUntouched, IsUntouched-refl, IsUntouched-trans}
use fdra.Mapper.Mapping.MapNode.{
  Progress, route_edges, route_outputs, unroute_each, conclude, map_dfg_node,
}
use fdra.Mapper.Mapping.MapNode.Undo.{
  unroute_each-IsUntouched, unroute_each-AllLead, unroute_each-links, placed-links, placed-mapped,
  placed-AllLead,
}
use fdra.Mapper.Mapping.MapNode.Edges.{
  IsEnd, AllKeyed, AllReady, AllReached, IsTaken, Runs, route_edges-Runs, AllReached-kept,
  AllReady-empty, mapped-same,
}

-- The nodes of the data-flow graph are stored under their identifiers, the unit is free, and `places`
-- agrees with the placement, on units where paths can only end, and with the unit for the node.
module _ (dfg : Dfg) (adg : Adg) (places : ℕ → ℕ) (n : DfgNode) (target : ℕ) (m : Mapping)
    (keyed : AllKeyed dfg)
    (known : (d u : ℕ) → mapped_adg_node d m ≡ some u → (places d ≡ u) × IsEnd adg u)
    (target_end : IsEnd adg target)
    (ins : AllReady dfg adg places target m keyed known target_end true
      (input_edge_ids n.input_edges))
    (outs : AllReady dfg adg places target m keyed known target_end false
      (output_edge_ids n.output_edges))
    (apart : (id : ℕ)
      → Set.count id (output_edge_ids n.output_edges) ≡ true
      → Set.count id (input_edge_ids n.input_edges) ≡ false)
    (lead : AllLead adg places m) (placement : IsPlacement m)
    (unplaced : mapped_adg_node n.id m ≡ none) (free : mapped_dfg_node target m ≡ none) where
  abbrev in_ids : List ℕ
  in_ids = input_edge_ids n.input_edges

  abbrev out_ids : List ℕ
  out_ids = output_edge_ids n.output_edges

  abbrev Reached : Bool → List ℕ → Mapping → Type 0
  Reached = AllReached dfg adg places target m keyed known target_end

  abbrev Taken : List ℕ → Mapping → Type 0
  Taken = IsTaken dfg adg places target m keyed known target_end

  abbrev pub Maps : Outcome (Bool × Mapping) → Type 0
  Maps (done (true, m')) =
      (mapped_adg_node n.id m' ≡ some target)
      × IsPlacement m'
      × AllLead adg places m'
      × Reached true in_ids m'
      × Reached false out_ids m'
  Maps (done (false, m')) =
      IsUntouched m m' × AllLead adg places m' × ((id : ℕ) → links_of id m' ≡ links_of id m)
  Maps fault = Unit {0}
  Maps out_of_fuel = ⊥

  conclude-Maps :
      (succeed : Bool) (m1 : Mapping) (ids : List ℕ)
      → Taken ids m1
      → (succeed ≡ true → Reached true in_ids m1 × Reached false out_ids m1)
      → Maps (
          done (conclude n target (record { succeed = succeed; mapping = m1; routed_edges = ids })))
  unfolding conclude
  conclude-Maps true m1 ids taken reached =
      let (in_all, out_all) = reached refl in
      let m' = map_dfg_node_no_route n.id target m1 in
      let at_start =
        IsPlacement-same m m1 taken.same.nodes taken.same.counted taken.same.units placement in
      let unplaced' : mapped_adg_node n.id m1 ≡ none =
        mapped-same dfg adg places target m keyed known target_end n.id m1 taken.same ∙ unplaced in
      let free' : mapped_dfg_node target m1 ≡ none = taken.same.units target ∙ free in
      let same : (id : ℕ) → links_of id m' ≡ links_of id m1 =
        λ id. placed-links n.id target id m1 in
      (
        placed-mapped n.id target m1,
        map_dfg_node_no_route-IsPlacement n.id target m1 at_start unplaced' free',
        placed-AllLead adg places n.id target m1 taken.lead,
        AllReached-kept dfg adg places target m keyed known target_end true in_ids m1 m'
            (λ id there. same id) in_all,
        AllReached-kept dfg adg places target m keyed known target_end false out_ids m1 m'
            (λ id there. same id) out_all,
      )
  conclude-Maps false m1 ids taken reached = (
    IsUntouched-trans m m1 (unroute_each ids m1) taken.same (unroute_each-IsUntouched ids m1),
    unroute_each-AllLead adg places ids m1 taken.lead,
    unroute_each-links ids m1 m taken.others taken.fresh,
  )

  apart' : (id : ℕ) → Set.count id in_ids ≡ true → Set.count id out_ids ≡ false
  apart' id there = ground (arith, apart id)

  loop-Maps :
      (p : Progress)
      → Reached true in_ids p.mapping
      → (r : Outcome Progress)
      → Runs dfg adg places target m keyed known target_end false out_ids p.mapping r
      → Maps (r >>= λ q. done (conclude n target q))
  loop-Maps p in_all (done q) (taken, kept, all) =
      conclude-Maps q.succeed q.mapping q.routed_edges taken (λ ok. (
        AllReached-kept dfg adg places target m keyed known target_end true in_ids p.mapping
            q.mapping (λ id there. kept id (apart' id there)) in_all,
        all ok,
      ))
  loop-Maps p in_all fault runs = tt
  loop-Maps p in_all out_of_fuel runs = runs

  outputs-Maps :
      (p : Progress)
      → Runs dfg adg places target m keyed known target_end true in_ids m (done p)
      → Maps (route_outputs dfg adg n target p >>= λ q. done (conclude n target q))
  unfolding route_outputs
  outputs-Maps p (taken, kept, all) = elim (Bool-cases p.succeed) [
    | inl ok ↦
        let loop = route_edges dfg adg false target out_ids p.mapping p.routed_edges in
        let runs =
          route_edges-Runs dfg adg places target m keyed known target_end false out_ids p.mapping
            p.routed_edges outs
            (λ id there.
              kept id (apart id there)
              ∙ AllReady-empty dfg adg places target m keyed known target_end false out_ids outs id
                  there)
            taken in
        rw ok (loop-Maps p (all ok) loop runs)
    | inr missing ↦
        rw missing (conclude-Maps false p.mapping p.routed_edges taken (λ ok. absurd (cc ok)))
  ]

  inputs-Maps :
      (r : Outcome Progress)
      → Runs dfg adg places target m keyed known target_end true in_ids m r
      → Maps (r >>= λ p. route_outputs dfg adg n target p >>= λ q. done (conclude n target q))
  inputs-Maps (done p) runs = outputs-Maps p runs
  inputs-Maps fault runs = tt
  inputs-Maps out_of_fuel runs = runs

  start-Taken : Taken [] m
  start-Taken = record {
    lead = lead;
    same = IsUntouched-refl m;
    others = λ id away. refl;
    fresh = λ id there. absurd (cc there);
  }

  -- Mapping a node whose edges are not routed to a free unit always comes to an answer (or a fault). If
  -- the answer is yes, then the node is on the unit, the tables are a placement, and each edge of the
  -- node whose other end is placed has a path of wires between the two units. If it is no, then no edge
  -- has other links than before and no node is elsewhere: the routes made on the way are taken back.
  -- Either way the links of every edge that passes somewhere lead there.
  pub map_dfg_node_atomic : Maps (map_dfg_node dfg adg n target m)
  unfolding map_dfg_node
  map_dfg_node_atomic = inputs-Maps (route_edges dfg adg true target in_ids m []) (
      route_edges-Runs dfg adg places target m keyed known target_end true in_ids m [] ins
        (AllReady-empty dfg adg places target m keyed known target_end true in_ids ins) start-Taken)
