-- ===== src/Mapper/Mapping/Walk/Whole.antt =====
-- mapper/mapping.cpp, `routeDfgEdge`: a routed edge has a path of wires from its source to its
-- destination.
use fdra.Prelude.{
  ℕ, suc, true, false, not, ◌&&◌, Option, none, some, List, [], ◌∷◌, ◌++◌, ◌≡◌, ◌≢◌, refl, ap, ◌∙◌,
  ◌==◌, nat_key, pair_key, arith, Bool-cases, Option-cases, inl, inr, length,
}
use fdra.Prelude.Map
use fdra.Prelude.Map.{Map}
use fdra.Prelude.Set.{Set}
use fdra.Prelude.Outcome.{Outcome, done, fault, out_of_fuel, ◌>>=◌}
use fdra.Graph.Edge.{GraphEdge}
use fdra.Dfg.Node as DfgNode
use fdra.Dfg.Store as DfgStore
use fdra.Dfg.Store.{Dfg}
use fdra.Adg.Node as AdgNode
use fdra.Adg.Node.{as_fu}
use fdra.Adg.Store as AdgStore
use fdra.Adg.Store.{Adg}
use fdra.Mapper.Port.{Port, port_eq_iff}
use fdra.Mapper.Mapping.{Mapping, EdgeLinkAttr, mapped_dfg_node}
use fdra.Mapper.Mapping.Operands.{avail_dst_ports}
use fdra.Mapper.Mapping.Search.{
  Search, Found, Quest, judge, reached, reuse, check_used, search, enough, start_search,
}
use fdra.Mapper.Mapping.Search.Fuel.{search_terminates}
use fdra.Mapper.Mapping.Walk.{
  reuse_links, walk_enough, touch_edge, links_of, record_path, route_dfg_edge_from_dst,
  route_dfg_edge, place_source, is_empty,
}
use fdra.Mapper.Mapping.Walk.Links.{links_of-touch_edge}
use fdra.Mapper.Mapping.Walk.Trail.{Joined, IsRoute, next_of-final, walk-IsRoute, walk-from_source}
use fdra.Mapper.Mapping.Walk.Judged.{is_router, check_used-not_reached}
use fdra.Mapper.Mapping.Walk.Traced.{IsFound, length-insert, start-IsFound}
use fdra.Mapper.Mapping.Walk.Lead.{
  is_at, up_to, LeadsTo, Begins, AllLead, links_of-reuse_links, IsRoute-up_to, check_used-Shares,
}
use fdra.Mapper.Mapping.Walk.Kept.{
  reuse_links-IsRecording, walk-IsRecording, IsRecording-AllLead, start-IsRecording,
  touch_edge-IsRecording,
}
use fdra.Mapper.Mapping.Walk.Untouched.{
  IsUntouched, IsUntouched-trans, reuse_links-IsUntouched, walk-IsUntouched,
}
use Prim.Native.String.{String}

judge-at_source :
    (e : GraphEdge) (src : ℕ) (op : String) (key : ℕ × ℕ) (n : AdgNode.Node) (m : Mapping)
    → judge e (some src) op key n false m ≡ reached
    → (key.0 ≡ src) × (key.1 ≡ e.src_port_idx)
unfolding judge
judge-at_source e src op key n m h = ground (arith, check_used-not_reached e key m)

judge-shares :
    (e : GraphEdge) (src : ℕ) (op : String) (key : ℕ × ℕ) (n : AdgNode.Node) (m : Mapping)
    (x : GraphEdge)
    → judge e (some src) op key n false m ≡ reuse x
    → check_used e key m ≡ reuse x
unfolding judge
judge-shares e src op key n m x h = ground arith

Begins-up_to :
    (unit port : ℕ) (key : ℕ × Port) (links ys : List EdgeLinkAttr)
    → Begins unit port links
    → Begins unit port (up_to key links ++ ys)
Begins-up_to unit port key [] ys begins = absurd begins
Begins-up_to unit port key (l ∷ links) ys begins = elim (Bool-cases (is_at key l)) [
  | inl ends ↦ rw ends begins
  | inr goes ↦ rw goes begins
]

-- An edge that is not routed shares no path with itself.
not_itself :
    (adg : Adg) (e x : GraphEdge) (key : ℕ × Port) (m : Mapping)
    → LeadsTo adg key (links_of x.id m)
    → links_of e.id m ≡ []
    → x.id ≢ e.id
not_itself adg e x key m leads empty same = rw (same, empty) at leads

module _ (adg : Adg) (places : ℕ → ℕ) (e : GraphEdge) (dst : ℕ) (range : Set ℕ) where
  -- The edge has a path of wires from its output port at the unit of its source to an offered input
  -- port of the destination, and still every passing edge has links that lead to where it passes. The
  -- links of the other edges and the placement are those of before.
  abbrev pub IsWired : Mapping → Mapping → Type 0
  IsWired m m' =
      IsRoute adg dst range (links_of e.id m')
      × Begins (places e.src_id) e.src_port_idx (links_of e.id m')
      × AllLead adg places m'
      × ((other : ℕ) → other ≢ e.id → links_of other m' ≡ links_of other m)
      × IsUntouched m m'

  module _ (m : Mapping) (lead : AllLead adg places m) (empty : links_of e.id m ≡ [])
      (op : String) where
    abbrev quest : Quest
    quest = record {
      edge = e;
      src = some (places e.src_id);
      op = op;
      dst = dst;
      dst_port_range = range;
    }

    record_path-reached :
        (final : ℕ × ℕ) (s : Search)
        → IsFound adg m quest s (record { final_src_node = final; same_src_edge = none })
        → (m' : Mapping) × (record_path e dst
              (s, record { final_src_node = final; same_src_edge = none })
              m
            ≡ done m')
          × IsWired m m'
    unfolding record_path
    record_path-reached final s (v, info, n, stored, verdict, fresh, seen, feeds, (steps, le, t)) =
        let grown = Map.insert final info v in
        let long : length grown ≡ suc (length v) = length-insert final info v fresh in
        let (m', ls, ran, recorded, route) =
          walk-from_source adg dst range e final v fresh info (suc (length grown)) steps m
            (omega (arith, long)) feeds t in
        let link : EdgeLinkAttr = record {
          src_port = none;
          dst_port = some final.1;
          adg_node = final.0;
        } in
        let links : links_of e.id m' ≡ link ∷ ls = rw empty at recorded in
        let (at_src, at_port) = judge-at_source e (places e.src_id) op final n m verdict in
        let begins : Begins (places e.src_id) e.src_port_idx (links_of e.id m') =
          rw links (refl, ap some at_port, at_src) in
        let whole_route : IsRoute adg dst range (links_of e.id m') = rw links route in
        let kept =
          walk-IsRecording adg places (λ id. links_of id m) e (walk_enough grown) dst final grown
            none (final.0, some final.1) m m' (start-IsRecording adg places e m lead empty) ran in
        (
          m',
          rw seen ran,
          (
            whole_route,
            begins,
            IsRecording-AllLead adg places (λ id. links_of id m) e dst range m' kept whole_route
                begins,
            kept.0,
            walk-IsUntouched (walk_enough grown) e dst final grown none (final.0, some final.1) m m'
                ran,
          ),
        )

    record_path-reuse :
        (final : ℕ × ℕ) (x : GraphEdge) (s : Search)
        → IsFound adg m quest s (record { final_src_node = final; same_src_edge = some x })
        → (m' : Mapping) × (record_path e dst
              (s, record { final_src_node = final; same_src_edge = some x })
              m
            ≡ done m')
          × IsWired m m'
    unfolding record_path mapped_dfg_node
    record_path-reuse final x s (v, info, n, stored, verdict, fresh, seen, feeds, (steps, le, t)) =
        let links = links_of x.id m in
        let (leads, begins_x) =
          check_used-Shares adg places (λ id. links_of id m) e final m x lead
            (judge-shares e (places e.src_id) op final n m x verdict) in
        let other : (x.id == e.id && not (is_empty links)) ≡ false =
          ground (arith, not_itself adg e x (final.0, some final.1) m leads empty) in
        let touched = touch_edge x.id m in
        let m1 = reuse_links e final links touched in
        let same_place : IsUntouched m touched = record {
          nodes = refl;
          counted = refl;
          units = λ a. ground arith;
        } in
        let shared_untouched =
          IsUntouched-trans m touched m1 same_place
            (reuse_links-IsUntouched e final links touched) in
        let next : EdgeLinkAttr = record {
          src_port = some info.dst_in_port_idx;
          dst_port = info.dst_out_port_idx;
          adg_node = info.dst_node_id;
        } in
        let (node, there, wired, offered) = feeds in
        let grown = Map.insert final info v in
        let long : length grown ≡ suc (length v) = length-insert final info v fresh in
        let (m', ls, ran, recorded, route) =
          walk-IsRoute adg dst range e final v fresh info (walk_enough grown) steps
            (some info.dst_in_port_idx) info.dst_node_id info.dst_out_port_idx m1
            (omega (arith, long)) offered t in
        let shared = up_to (final.0, some final.1) links in
        let before : links_of e.id m1 ≡ shared =
          links_of-reuse_links e final links (touch_edge x.id m)
          ∙ ap (λ xs. xs ++ shared) (links_of-touch_edge e.id x.id m ∙ empty) in
        let after : links_of e.id m' ≡ shared ++ next ∷ ls =
          recorded ∙ ap (λ xs. xs ++ next ∷ ls) before in
        let joins : (l : EdgeLinkAttr)
            → is_at (final.0, some final.1) l ≡ true
            → Joined adg l next =
          λ l at_final.
            let here : l.adg_node ≡ final.0 = ground arith in
            (
              final.1,
              info.dst_in_port_idx,
              node,
              ground (arith, port_eq_iff l.dst_port (some final.1)),
              refl,
              there,
              rw here wired,
            ) in
        let begins : Begins (places e.src_id) e.src_port_idx (links_of e.id m') = rw after (
          Begins-up_to (places e.src_id) e.src_port_idx (final.0, some final.1) links (next ∷ ls)
            begins_x) in
        let whole_route : IsRoute adg dst range (links_of e.id m') =
          rw after
            (IsRoute-up_to adg dst range (final.0, some final.1) links next ls leads joins route) in
        let kept =
          walk-IsRecording adg places (λ id. links_of id m) e (walk_enough grown) dst final grown
            (some info.dst_in_port_idx) (info.dst_node_id, info.dst_out_port_idx) m1 m'
            (reuse_links-IsRecording adg places (λ id. links_of id m) e final links
              (touch_edge x.id m)
              (touch_edge-IsRecording adg places (λ id. links_of id m) e x.id m
                (start-IsRecording adg places e m lead empty)))
            ran in
        (
          m',
          rw (other, seen, next_of-final adg dst range e final v fresh info) ran,
          (
            whole_route,
            begins,
            IsRecording-AllLead adg places (λ id. links_of id m) e dst range m' kept whole_route
                begins,
            kept.0,
            IsUntouched-trans m m1 m' shared_untouched (
                walk-IsUntouched (walk_enough grown) e dst final grown (some info.dst_in_port_idx)
                  (info.dst_node_id, info.dst_out_port_idx) m1 m' ran),
          ),
        )

module _ (dfg : Dfg) (adg : Adg) (places : ℕ → ℕ) (e : GraphEdge) (dst : ℕ) (m : Mapping)
    (end : (n : AdgNode.Node) → AdgStore.node dst adg ≡ some n → is_router n ≡ false)
    (lead : AllLead adg places m) (empty : links_of e.id m ≡ []) where
  -- What routing gives: no path, or one to an input port that was offered.
  abbrev pub Routes : Set ℕ → Outcome (Option Mapping) → Type 0
  Routes range (done (some m')) = IsWired adg places e dst range m m'
  Routes range (done none) = Unit {0}
  Routes range fault = Unit {0}
  Routes range out_of_fuel = ⊥

  found-Routes :
      (range : Set ℕ) (op : String) (s : Search) (final : ℕ × ℕ) (same : Option GraphEdge)
      → IsFound adg m
          (quest adg places e dst range m lead empty op)
          s
          (record { final_src_node = final; same_src_edge = same })
      → (m' : Mapping) × (record_path e dst
            (s, record { final_src_node = final; same_src_edge = same })
            m
          ≡ done m')
        × IsWired adg places e dst range m m'
  found-Routes range op s final none found =
      record_path-reached adg places e dst range m lead empty op final s found
  found-Routes range op s final (some x) found =
      record_path-reuse adg places e dst range m lead empty op final x s found

  abbrev finish : Outcome (Option (Search × Found)) → Outcome (Option Mapping)
  finish r = do
    answer ← r
    (elim answer [
      | none ↦ done none
      | some (s, f) ↦ do
        m' ← record_path e dst (s, f) m
        done (some (place_source e (some (places e.src_id)) f.final_src_node.0 m'))
    ])

  answer-Routes :
      (range : Set ℕ) (op : String) (r : Outcome (Option (Search × Found)))
      → search (enough adg) adg m (quest adg places e dst range m lead empty op) (start_search dst)
        ≡ r
      → Routes range (finish r)
  answer-Routes range op (done none) h = tt
  answer-Routes range op (done (some (s, f))) h =
      let q = quest adg places e dst range m lead empty op in
      let found = start-IsFound adg m q end (enough adg) s f h in
      let (m', ran, wired) = found-Routes range op s f.final_src_node f.same_src_edge found in
      rw (ran, Routes) wired
  answer-Routes range op fault h = tt
  answer-Routes range op out_of_fuel h =
      search_terminates adg m (quest adg places e dst range m lead empty op) h

  from_dst-Routes :
      (range : Set ℕ)
      → Routes range (route_dfg_edge_from_dst dfg adg e (some (places e.src_id)) dst range m)
  unfolding route_dfg_edge_from_dst
  from_dst-Routes range = elim (Option-cases (DfgStore.node e.src_id dfg)) [
    | inl absent ↦ rw (absent, Routes) tt
    | inr (n, there) ↦
        let q = quest adg places e dst range m lead empty n.operation in
        rw (there, Routes)
          (answer-Routes range n.operation (search (enough adg) adg m q (start_search dst)) refl)
  ]

  abbrev pub Delivers : Outcome (Option Mapping) → Type 0
  Delivers (done (some m')) =
      (n : DfgNode.DfgNode) × (fu : AdgNode.FuNode) × (range : Set ℕ) × (DfgStore.node e.dst_id dfg
        ≡ some n)
      × (avail_dst_ports m n fu e ≡ some range)
      × IsWired adg places e dst range m m'
  Delivers (done none) = Unit {0}
  Delivers fault = Unit {0}
  Delivers out_of_fuel = ⊥

  Delivers-ports :
      (n : DfgNode.DfgNode) (fu : AdgNode.FuNode) (range : Set ℕ) (r : Outcome (Option Mapping))
      → DfgStore.node e.dst_id dfg ≡ some n
      → avail_dst_ports m n fu e ≡ some range
      → Routes range r
      → Delivers r
  Delivers-ports n fu range (done (some m')) h k wired = (n, fu, range, h, k, wired)
  Delivers-ports n fu range (done none) h k wired = tt
  Delivers-ports n fu range fault h k wired = tt
  Delivers-ports n fu range out_of_fuel h k wired = wired

  -- Routing an edge that is not routed yet, to a unit that only ends paths, always comes to an answer
  -- (or a fault). If the answer is a route, then the links of the edge are a path of wires of the
  -- architecture graph: it begins at the edge's output port of the unit where its source is, and ends
  -- at the destination, at one of the input ports that were available for the edge. Where any edge
  -- passes, its links lead from its source, and that holds again. The links of the other edges and the
  -- placement of the nodes stay as they were.
  pub route_dfg_edge-IsRoute : Delivers (route_dfg_edge dfg adg e (places e.src_id) dst m)
  unfolding route_dfg_edge
  route_dfg_edge-IsRoute = elim (Option-cases (DfgStore.node e.dst_id dfg)) [
    | inl absent ↦ rw (absent, Delivers) tt
    | inr (n, there) ↦ elim (Option-cases (AdgStore.node dst adg)) [
      | inl absent ↦ rw (there, absent, Delivers) tt
      | inr (unit, stored) ↦ elim (Option-cases (as_fu unit)) [
        | inl absent ↦ rw (there, stored, absent, Delivers) tt
        | inr (fu, is_fu) ↦ elim (Option-cases (avail_dst_ports m n fu e)) [
          | inl absent ↦ rw (there, stored, is_fu, absent, Delivers) tt
          | inr (range, ports) ↦ elim (Bool-cases (is_empty range)) [
            | inl closed ↦ rw (there, stored, is_fu, ports, closed, Delivers) tt
            | inr open_ports ↦
                rw (there, stored, is_fu, ports, open_ports)
                  (Delivers-ports n fu range _ there ports (from_dst-Routes range))
          ]
        ]
      ]
    ]
  ]
