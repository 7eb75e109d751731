-- ===== src/Mapper/Mapping/MapNode/Edges.antt =====
-- mapper/mapping.cpp, `mapDfgNode`: the loops over the edges of a node route those whose other end is
-- placed, and touch nothing else.
use fdra.Prelude.{
  ℕ, Bool, true, false, ◌||◌, Option, none, some, List, [], ◌∷◌, ◌++◌, ◌≡◌, ◌≢◌, refl, sym, ap, ◌∙◌,
  ◌==◌, ==_iff, nat_key, arith, Bool-cases, Option-cases, inl, inr,
}
use mathlib.Core.Path.{subst}
use fdra.Prelude.Set
use fdra.Prelude.Set.{Set}
use fdra.Prelude.Outcome.{Outcome, done, fault, out_of_fuel, ◌>>=◌}
use fdra.Graph.Edge.{GraphEdge}
use fdra.Dfg.Node.{DfgNode}
use fdra.Dfg.Store as DfgStore
use fdra.Dfg.Store.{Dfg}
use fdra.Adg.Node as AdgNode
use fdra.Adg.Store as AdgStore
use fdra.Adg.Store.{Adg}
use fdra.Mapper.Mapping.{Mapping, mapped_adg_node}
use fdra.Mapper.Mapping.Walk.{links_of, route_dfg_edge}
use fdra.Mapper.Mapping.Walk.Trail.{IsRoute}
use fdra.Mapper.Mapping.Walk.Judged.{is_router}
use fdra.Mapper.Mapping.Walk.Lead.{AllLead, Begins}
use fdra.Mapper.Mapping.Walk.Untouched.{IsUntouched, IsUntouched-trans}
use fdra.Mapper.Mapping.Walk.Whole.{IsWired, Delivers, route_dfg_edge-IsRoute}
use fdra.Mapper.Mapping.MapNode.{
  far_end, route_between, Attempt, untried, failed, routed, attempt_of, attempt, Progress,
  route_edges,
}

-- A path can end at the node, and not pass through it.
abbrev pub IsEnd : Adg → ℕ → Type 0
IsEnd adg u = (x : AdgNode.Node) → AdgStore.node u adg ≡ some x → is_router x ≡ false

abbrev pub AllKeyed : Dfg → Type 0
AllKeyed dfg = (i : ℕ) (n : DfgNode) → DfgStore.node i dfg ≡ some n → n.id ≡ i

count-snoc : (a b : ℕ) (xs : List ℕ) → Set.count a (xs ++ b ∷ []) ≡ (Set.count a xs || b == a)
count-snoc a b [] = ground arith
count-snoc a b (x ∷ xs) = ground (arith, count-snoc a b xs)

-- The unit where the path of an edge ends, when the other end is on the unit `u`.
abbrev pub end_of : Bool → ℕ → ℕ → ℕ
end_of true target u = target
end_of false target u = u

module _ (dfg : Dfg) (adg : Adg) (places : ℕ → ℕ) (target : ℕ) (m0 : Mapping) (keyed : AllKeyed dfg)
    (known : (d u : ℕ) → mapped_adg_node d m0 ≡ some u → (places d ≡ u) × IsEnd adg u)
    (target_end : IsEnd adg target) where
  -- An edge before it is routed: the graph has it, and no other edge of the list is it. The near end of
  -- an output edge is to be placed on the target.
  abbrev pub IsReady : Bool → ℕ → Type 0
  IsReady is_input id =
      (e : GraphEdge) × (DfgStore.edge id dfg ≡ some e)
      × (e.id ≡ id)
      × (is_input ≡ false → places e.src_id ≡ target)
      × (links_of id m0 ≡ [])

  abbrev pub AllReady : Bool → List ℕ → Type 0
  AllReady is_input [] = Unit {0}
  AllReady is_input (id ∷ ids) =
      IsReady is_input id × (Set.count id ids ≡ false) × AllReady is_input ids

  pub AllReady-empty :
      (is_input : Bool) (ids : List ℕ)
      → AllReady is_input ids
      → (id : ℕ) → Set.count id ids ≡ true
      → links_of id m0 ≡ []
  AllReady-empty is_input [] ready id there = absurd (cc there)
  AllReady-empty is_input (x ∷ ids) ((e, stored, is_id, near, empty), once, ready) id there =
      elim (Bool-cases (x == id)) [
        | inl own ↦ let is_x : x ≡ id = ground arith in rw is_x at empty
        | inr other ↦ AllReady-empty is_input ids ready id (ground arith)
      ]

  -- What has been routed so far, and that all else is as at the start.
  pub record IsTaken (ids : List ℕ) (m : Mapping) : Type 0 where
    pub lead : AllLead adg places m
    pub same : IsUntouched m0 m
    pub others : (id : ℕ) → Set.count id ids ≡ false → links_of id m ≡ links_of id m0
    pub fresh : (id : ℕ) → Set.count id ids ≡ true → links_of id m0 ≡ []

  -- If the other end of the edge is placed, then the edge has a path to or from there.
  abbrev pub IsReached : Bool → ℕ → Mapping → Type 0
  IsReached is_input id m =
      (e : GraphEdge) × (DfgStore.edge id dfg ≡ some e)
      × ((u : ℕ)
          → mapped_adg_node (far_end is_input e) m0 ≡ some u
          → (range : Set ℕ) × IsRoute adg (end_of is_input target u) range (links_of id m)
            × Begins (places e.src_id) e.src_port_idx (links_of id m))

  abbrev pub AllReached : Bool → List ℕ → Mapping → Type 0
  AllReached is_input [] m = Unit {0}
  AllReached is_input (id ∷ ids) m = IsReached is_input id m × AllReached is_input ids m

  abbrev Tries : Bool → GraphEdge → Mapping → Outcome Attempt → Type 0
  Tries is_input e m (done untried) = mapped_adg_node (far_end is_input e) m0 ≡ none
  Tries is_input e m (done failed) = Unit {0}
  Tries is_input e m (done (routed m')) =
      (u : ℕ) × (range : Set ℕ) × (mapped_adg_node (far_end is_input e) m0 ≡ some u)
      × IsWired adg places e (end_of is_input target u) range m m'
  Tries is_input e m fault = Unit {0}
  Tries is_input e m out_of_fuel = ⊥

  pub mapped-same :
      (d : ℕ) (m : Mapping) → IsUntouched m0 m → mapped_adg_node d m ≡ mapped_adg_node d m0
  unfolding mapped_adg_node
  mapped-same d m same = rw same.nodes refl

  module _ (e : GraphEdge) (m : Mapping) (lead : AllLead adg places m)
      (empty : links_of e.id m ≡ []) where
    delivered-Tries :
        (is_input : Bool) (u dst : ℕ) (r : Outcome (Option Mapping))
        → mapped_adg_node (far_end is_input e) m0 ≡ some u
        → (end : IsEnd adg dst) → dst ≡ end_of is_input target u
        → Delivers dfg adg places e dst m end lead empty r
        → Tries is_input e m (r >>= λ a. done (attempt_of a))
    delivered-Tries is_input u dst (done (some m')) there end e_dst
          (n, fu, range, found, ports, wired) =
        (u, range, there, subst (λ d. IsWired adg places e d range m m') e_dst wired)
    delivered-Tries is_input u dst (done none) there end e_dst d = tt
    delivered-Tries is_input u dst fault there end e_dst d = tt
    delivered-Tries is_input u dst out_of_fuel there end e_dst d = d

    between-Tries :
        (is_input : Bool) (u : ℕ)
        → (is_input ≡ false → places e.src_id ≡ target)
        → mapped_adg_node (far_end is_input e) m0 ≡ some u
        → Tries is_input e m
            (route_between dfg adg is_input e u target m >>= λ a. done (attempt_of a))
    between-Tries true u near there =
        let at_u = (known e.src_id u there).0 in
        subst
          (λ s. Tries true e m (route_dfg_edge dfg adg e s target m >>= λ a. done (attempt_of a)))
          at_u
          (delivered-Tries true u target (route_dfg_edge dfg adg e (places e.src_id) target m) there
            target_end refl
            (route_dfg_edge-IsRoute dfg adg places e target m target_end lead empty))
    between-Tries false u near there =
        let end = (known e.dst_id u there).1 in
        subst (λ s. Tries false e m (route_dfg_edge dfg adg e s u m >>= λ a. done (attempt_of a)))
          (near refl)
          (delivered-Tries false u u (route_dfg_edge dfg adg e (places e.src_id) u m) there end refl
            (route_dfg_edge-IsRoute dfg adg places e u m end lead empty))

    attempt-Tries :
        (is_input : Bool)
        → (is_input ≡ false → places e.src_id ≡ target)
        → IsUntouched m0 m
        → Tries is_input e m (attempt dfg adg is_input target e m)
    unfolding attempt
    attempt-Tries is_input near same =
        elim (Option-cases (DfgStore.node (far_end is_input e) dfg)) [
          | inl absent ↦ rw (absent, Tries) tt
          | inr (n, there) ↦
              let far : mapped_adg_node n.id m ≡ mapped_adg_node (far_end is_input e) m0 =
                mapped-same n.id m same
                ∙ ap (λ i. mapped_adg_node i m0) (keyed (far_end is_input e) n there) in
              elim (Option-cases (mapped_adg_node n.id m)) [
                | inl absent ↦ rw (there, absent, Tries) (sym far ∙ absent)
                | inr (u, placed) ↦
                    rw (there, placed, Tries) (between-Tries is_input u near (sym far ∙ placed))
              ]
        ]

  -- One more edge has been routed.
  IsTaken-snoc :
      (ids : List ℕ) (e : GraphEdge) (dst : ℕ) (range : Set ℕ) (m m' : Mapping)
      → IsTaken ids m
      → links_of e.id m0 ≡ []
      → IsWired adg places e dst range m m'
      → IsTaken (ids ++ e.id ∷ []) m'
  IsTaken-snoc ids e dst range m m' taken empty (route, begins, lead, kept, same) = record {
    lead = lead;
    same = IsUntouched-trans m0 m m' taken.same same;
    others = λ id away.
        let split = count-snoc id e.id ids in
        let differs : id ≢ e.id = λ x. ground (arith, ==_iff e.id id) in
        kept id differs ∙ taken.others id (ground (arith, split));
    fresh = λ id there.
        let split = count-snoc id e.id ids in
        elim (Bool-cases (e.id == id)) [
          | inl own ↦ let is_e : e.id ≡ id = ground arith in rw is_e at empty
          | inr other ↦ taken.fresh id (ground (arith, split))
        ];
  }

  -- What a loop gives: the list of routed edges has grown by edges of the loop only, the links of all
  -- other edges are those of before, and if it succeeded, each edge of the loop has been seen to.
  abbrev pub Runs : Bool → List ℕ → Mapping → Outcome Progress → Type 0
  Runs is_input ids m (done p) =
      IsTaken p.routed_edges p.mapping
      × ((id : ℕ) → Set.count id ids ≡ false → links_of id p.mapping ≡ links_of id m)
      × (p.succeed ≡ true → AllReached is_input ids p.mapping)
  Runs is_input ids m fault = Unit {0}
  Runs is_input ids m out_of_fuel = ⊥

  Runs-cons :
      (is_input : Bool) (id : ℕ) (ids : List ℕ) (m m' : Mapping) (r : Outcome Progress)
      → Set.count id ids ≡ false
      → ((other : ℕ) → other ≢ id → links_of other m' ≡ links_of other m)
      → IsReached is_input id m'
      → Runs is_input ids m' r
      → Runs is_input (id ∷ ids) m r
  Runs-cons is_input id ids m m' (done p) once kept (e, stored, reached) (taken, rest, all) = (
    taken,
    λ other away. rest other (ground arith) ∙ kept other (λ x. ground (arith, ==_iff id other)),
    λ ok. ((e, stored, λ u placed. rw (rest id once) (reached u placed)), all ok),
  )
  Runs-cons is_input id ids m m' fault once kept reached runs = tt
  Runs-cons is_input id ids m m' out_of_fuel once kept reached runs = runs

  abbrev after_attempt : Bool → List ℕ → GraphEdge → Mapping → List ℕ → Attempt → Outcome Progress
  after_attempt is_input ids e m t a = elim a [
    | failed ↦ done (record { succeed = false; mapping = m; routed_edges = t })
    | untried ↦ route_edges dfg adg is_input target ids m t
    | routed m' ↦ route_edges dfg adg is_input target ids m' (t ++ e.id ∷ [])
  ]

  module _ (is_input : Bool) (id : ℕ) (ids : List ℕ) (e : GraphEdge) (m : Mapping) (t : List ℕ)
      (stored : DfgStore.edge id dfg ≡ some e) (is_id : e.id ≡ id) (empty : links_of id m0 ≡ [])
      (once : Set.count id ids ≡ false)
      (new : (i : ℕ) → Set.count i (id ∷ ids) ≡ true → links_of i m ≡ []) (taken : IsTaken t m)
      (later : (m' : Mapping) (t' : List ℕ)
        → ((i : ℕ) → Set.count i ids ≡ true → links_of i m' ≡ [])
        → IsTaken t' m'
        → Runs is_input ids m' (route_edges dfg adg is_input target ids m' t')) where
    IsReached-attempt :
        (u : ℕ) (range : Set ℕ) (m' : Mapping)
        → mapped_adg_node (far_end is_input e) m0 ≡ some u
        → IsWired adg places e (end_of is_input target u) range m m'
        → IsReached is_input id m'
    IsReached-attempt u range m' placed (route, begins, lead, kept, same_place) = (
      e,
      stored,
      λ v placed'.
          let same : u ≡ v = ground arith in (range, rw (is_id, same) at route, rw is_id at begins),
    )

    next-Runs :
        (r : Outcome Attempt)
        → Tries is_input e m r
        → Runs is_input (id ∷ ids) m (r >>= after_attempt is_input ids e m t)
    next-Runs (done untried) tries =
        Runs-cons is_input id ids m m _ once (λ other differs. refl)
          (e, stored, λ u placed. absurd (ground arith))
          (later m t (λ i c. new i (ground arith)) taken)
    next-Runs (done failed) tries = (taken, λ other away. refl, λ ok. absurd (cc ok))
    next-Runs (done (routed m')) (u, range, placed, wired) =
        let own : links_of e.id m0 ≡ [] = rw is_id empty in
        Runs-cons is_input id ids m m' _ once
          (λ other differs. wired.3 other (λ x. differs (x ∙ is_id)))
          (IsReached-attempt u range m' placed wired)
          (later m' (t ++ e.id ∷ [])
            (λ i c.
              let differs : i ≢ id = λ x. ground (arith, ap (λ j. Set.count j ids) x) in
              wired.3 i (λ x. differs (x ∙ is_id)) ∙ new i (ground arith))
            (IsTaken-snoc t e (end_of is_input target u) range m m' taken own wired))
    next-Runs fault tries = tt
    next-Runs out_of_fuel tries = tries

  pub route_edges-Runs :
      (is_input : Bool) (ids : List ℕ) (m : Mapping) (taken_ids : List ℕ)
      → AllReady is_input ids
      → ((id : ℕ) → Set.count id ids ≡ true → links_of id m ≡ [])
      → IsTaken taken_ids m
      → Runs is_input ids m (route_edges dfg adg is_input target ids m taken_ids)
  unfolding route_edges
  route_edges-Runs is_input [] m taken_ids ready new taken = (taken, λ id away. refl, λ ok. tt)
  route_edges-Runs is_input (id ∷ ids) m taken_ids ((e, stored, is_id, near, empty), once, ready)
        new taken =
      let empty_m : links_of e.id m ≡ [] = ap (λ i. links_of i m) is_id ∙ new id (ground arith) in
      rw (stored, Runs)
        (next-Runs is_input id ids e m taken_ids stored is_id empty once new taken
          (λ m' t new' taken'. route_edges-Runs is_input ids m' t ready new' taken')
          (attempt dfg adg is_input target e m)
          (attempt-Tries e m taken.lead empty_m is_input near taken.same))

  -- What has been reached depends on the links of the edges only.
  pub AllReached-kept :
      (is_input : Bool) (ids : List ℕ) (m m' : Mapping)
      → ((id : ℕ) → Set.count id ids ≡ true → links_of id m' ≡ links_of id m)
      → AllReached is_input ids m
      → AllReached is_input ids m'
  AllReached-kept is_input [] m m' same all = tt
  AllReached-kept is_input (id ∷ ids) m m' same ((e, stored, reached), all) = (
    (e, stored, λ u placed. rw (same id (ground arith)) (reached u placed)),
    AllReached-kept is_input ids m m' (λ i there. same i (ground arith)) all,
  )
