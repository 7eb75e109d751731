-- ===== src/Mapper/Mapping/Walk/Traced.antt =====
-- mapper/mapping.cpp, `routeDfgEdgeFromDst`: every key that the search has cached leads back to the
-- destination, and the key where it ends is new.
use fdra.Prelude.{
  ℕ, zero, suc, ◌≤◌, Bool, true, false, Option, none, some, List, [], ◌∷◌, ◌++◌, ◌≡◌, ◌≢◌, refl,
  nat_key, pair_key, pair_eq, pair_eq_iff, arith, Bool-cases, Option-cases, inl, inr, length,
}
use mathlib.Core.Path.{subst}
use fdra.Prelude.Map
use fdra.Prelude.Map.{Map}
use fdra.Prelude.Set
use fdra.Prelude.Set.{Set}
use fdra.Prelude.Outcome.{Outcome, done, fault, out_of_fuel, ◌>>=◌}
use fdra.Graph.Edge.{GraphEdge}
use fdra.Graph.Node as GraphNode
use fdra.Adg.Node as AdgNode
use fdra.Adg.Node.{base}
use fdra.Adg.Store as AdgStore
use fdra.Adg.Store.{Adg}
use fdra.Mapper.Port.{Port, port_key}
use fdra.Mapper.Mapping.{Mapping}
use fdra.Mapper.Mapping.Search.{
  VisitNodeInfo, Search, Verdict, skip, cache, reached, reuse, Found, judge, enter, Quest,
  scan_inputs, in_port_idxs, search, start_search,
}
use fdra.Mapper.Mapping.Search.Fuel.{Verdict-cases, more}
use fdra.Mapper.Mapping.Walk.Judged.{is_router, judge-cached, judge-reuse}
use fdra.Mapper.Mapping.Walk.Trail.{Feeds, Trail, Trail-insert}

pub length-insert :
    (key : ℕ × ℕ) (info : VisitNodeInfo) (v : Map (ℕ × ℕ) VisitNodeInfo)
    → Map.count key v ≡ false
    → length (Map.insert key info v) ≡ suc (length v)
length-insert key info [] fresh = refl
length-insert key info ((k, w) ∷ v) fresh =
    ground (arith, length-insert key info v, pair_eq_iff k key)

abbrev pub verdict_of : Option GraphEdge → Verdict
verdict_of none = reached
verdict_of (some x) = reuse x

module _ (adg : Adg) (m : Mapping) (q : Quest) where
  abbrev pub Traced : Map (ℕ × ℕ) VisitNodeInfo → ℕ × Port → Type 0
  Traced v route = (n : ℕ) × (n ≤ length v) × Trail adg q.dst q.dst_port_range v n route

  abbrev AllTraced : Map (ℕ × ℕ) VisitNodeInfo → List (ℕ × Port) → Type 0
  AllTraced v [] = Unit {0}
  AllTraced v (route ∷ que) = Traced v route × AllTraced v que

  abbrev AllJudged : Map (ℕ × ℕ) VisitNodeInfo → Type 0
  AllJudged v =
      (key : ℕ × ℕ) (n : AdgNode.Node)
      → Map.count key v ≡ true
      → AdgStore.node key.0 adg ≡ some n
      → judge q.edge q.src q.op key n true m ≡ skip

  abbrev Keeps : Search → Type 0
  Keeps s = AllTraced s.visit_nodes s.node_que × AllJudged s.visit_nodes

  -- The search ended at a node where the goal, or an edge to share a path with, was recognised; the key
  -- was cached last, and leads to the destination over keys that were cached before.
  abbrev pub IsFound : Search → Found → Type 0
  IsFound t f =
      (v : Map (ℕ × ℕ) VisitNodeInfo) × (info : VisitNodeInfo) × (n : AdgNode.Node) × (AdgStore.node
          f.final_src_node.0 adg
        ≡ some n)
      × (judge q.edge q.src q.op f.final_src_node n false m ≡ verdict_of f.same_src_edge)
      × (Map.count f.final_src_node v ≡ false)
      × (t.visit_nodes ≡ Map.insert f.final_src_node info v)
      × Feeds adg q.dst q.dst_port_range f.final_src_node info
      × Traced v (info.dst_node_id, info.dst_out_port_idx)

  abbrev Leaves : Outcome (Search × Option Found) → Type 0
  Leaves (done (t, none)) = Keeps t
  Leaves (done (t, some f)) = IsFound t f
  Leaves fault = Unit {0}
  Leaves out_of_fuel = Unit {0}

  Traced-insert :
      (v : Map (ℕ × ℕ) VisitNodeInfo) (key : ℕ × ℕ) (info : VisitNodeInfo) (route : ℕ × Port)
      → Map.count key v ≡ false
      → Traced v route
      → Traced (Map.insert key info v) route
  Traced-insert v key info route fresh (n, le, t) = (
    n,
    omega (arith, length-insert key info v fresh),
    Trail-insert adg q.dst q.dst_port_range v key info n route fresh t,
  )

  AllTraced-snoc :
      (v : Map (ℕ × ℕ) VisitNodeInfo) (key : ℕ × ℕ) (info : VisitNodeInfo) (que : List (ℕ × Port))
      (route : ℕ × Port)
      → Map.count key v ≡ false
      → AllTraced v que
      → Traced (Map.insert key info v) route
      → AllTraced (Map.insert key info v) (que ++ route ∷ [])
  AllTraced-snoc v key info [] route fresh all new = (new, tt)
  AllTraced-snoc v key info (x ∷ que) route fresh all new =
      (Traced-insert v key info x fresh all.0, AllTraced-snoc v key info que route fresh all.1 new)

  -- The goal is met at a new key: a cached key would not be taken for it.
  reached-fresh :
      (key : ℕ × ℕ) (next : AdgNode.Node) (s : Search) (visited : Bool)
      → AllJudged s.visit_nodes
      → Map.count key s.visit_nodes ≡ visited
      → AdgStore.node key.0 adg ≡ some next
      → judge q.edge q.src q.op key next visited m ≡ reached
      → visited ≡ false
  reached-fresh key next s true judged c there h =
      let skipped = judged key next c there in absurd (ground arith)
  reached-fresh key next s false judged c there h = refl

  AllJudged-self :
      (key k : ℕ × ℕ) (next n : AdgNode.Node)
      → key ≡ k
      → AdgStore.node key.0 adg ≡ some next
      → AdgStore.node k.0 adg ≡ some n
      → judge q.edge q.src q.op key next true m ≡ skip
      → judge q.edge q.src q.op k n true m ≡ skip
  AllJudged-self key k next n e there found skipped =
      let same : next ≡ n = ground arith in rw (same, e) at skipped

  module _ (end : (n : AdgNode.Node) → AdgStore.node q.dst adg ≡ some n → is_router n ≡ false)
      (here : ℕ) (out_port : Port) (node : AdgNode.Node)
      (stored : AdgStore.node here adg ≡ some node) where
    abbrev Offered : List ℕ → Type 0
    Offered ports =
        out_port ≡ none → (p : ℕ) → Set.count p ports ≡ true → Set.count p q.dst_port_range ≡ true

    abbrev info_at : ℕ → VisitNodeInfo
    info_at in_port = record {
      dst_node_id = here;
      dst_in_port_idx = in_port;
      dst_out_port_idx = out_port;
    }

    enter-Keeps :
        (in_port : ℕ) (next : AdgNode.Node) (s : Search)
        → let key = GraphNode.input in_port (base node).graph_node in
          AdgStore.node key.0 adg ≡ some next
          → (out_port ≡ none → Set.count in_port q.dst_port_range ≡ true)
          → judge q.edge q.src q.op key next (Map.count key s.visit_nodes) m ≡ cache
          → Traced s.visit_nodes (here, out_port)
          → Keeps s
          → Keeps (enter here out_port in_port key s)
            × Traced (enter here out_port in_port key s).visit_nodes (here, out_port)
    enter-Keeps in_port next s there offered h (n, le, t) (all, judged) =
        let key = GraphNode.input in_port (base node).graph_node in
        let (fresh, router, skipped) =
          judge-cached q.edge q.op key next m q.src (Map.count key s.visit_nodes) h in
        let info = info_at in_port in
        let v = Map.insert key info s.visit_nodes in
        let away : key.0 ≢ q.dst =
          λ e. ground (arith, end next (subst (λ i. AdgStore.node i adg ≡ some next) e there)) in
        let new : Traced v (key.0, some key.1) = (
          suc n,
          omega (arith, length-insert key info s.visit_nodes fresh),
          (
            key.1,
            info,
            refl,
            away,
            ground (arith, Map.lookup-insert key key info s.visit_nodes, pair_eq_iff key key),
            (node, stored, refl, offered),
            Trail-insert adg q.dst q.dst_port_range s.visit_nodes key info n (here, out_port) fresh
                t,
          ),
        ) in
        (
          (
            AllTraced-snoc s.visit_nodes key info s.node_que (key.0, some key.1) fresh all new,
            λ k n' counted found. elim (Bool-cases (pair_eq key k)) [
              | inl same ↦
                  AllJudged-self key k next n' ((pair_eq_iff key k).0 same) there found skipped
              | inr other ↦
                  judged k n' (ground (arith, Map.lookup-insert k key info s.visit_nodes)) found
            ],
          ),
          Traced-insert s.visit_nodes key info (here, out_port) fresh (n, le, t),
        )

    scan_inputs-Leaves :
        (ports : List ℕ) (s : Search)
        → Offered ports
        → Traced s.visit_nodes (here, out_port)
        → Keeps s
        → Leaves (scan_inputs adg m q here out_port node ports s)
    unfolding scan_inputs
    scan_inputs-Leaves [] s offered t keeps = keeps
    scan_inputs-Leaves (in_port ∷ ports) s offered t keeps =
        let key = GraphNode.input in_port (base node).graph_node in
        let visited = Map.count key s.visit_nodes in
        let first : out_port ≡ none → Set.count in_port q.dst_port_range ≡ true =
          λ e. offered e in_port (ground arith) in
        let later : Offered ports = λ e p c. offered e p (ground arith) in
        elim (Option-cases (AdgStore.node key.0 adg)) [
          | inl absent ↦ rw (absent, Leaves) tt
          | inr (next, there) ↦
              let v = judge q.edge q.src q.op key next visited m in
              elim (Verdict-cases v) [
                | inl e ↦ rw (there, e, Leaves) (scan_inputs-Leaves ports s later t keeps)
                | inr (inl e) ↦
                    let (keeps', t') = enter-Keeps in_port next s there first e t keeps in
                    rw (there, e, Leaves)
                      (scan_inputs-Leaves ports (enter here out_port in_port key s) later t' keeps')
                | inr (inr (inl e)) ↦
                    let fresh = reached-fresh key next s visited keeps.1 refl there e in
                    rw (there, e, Leaves)
                      (
                        s.visit_nodes,
                        info_at in_port,
                        next,
                        there,
                        rw fresh at e,
                        fresh,
                        refl,
                        (node, stored, refl, first),
                        t,
                      )
                | inr (inr (inr (x, e))) ↦
                    let fresh = judge-reuse q.edge q.op key next m q.src visited x e in
                    rw (there, e, Leaves)
                      (
                        s.visit_nodes,
                        info_at in_port,
                        next,
                        there,
                        rw fresh at e,
                        fresh,
                        refl,
                        (node, stored, refl, first),
                        t,
                      )
              ]
        ]

  module _ (end : (n : AdgNode.Node) → AdgStore.node q.dst adg ≡ some n → is_router n ≡ false) where
    more-IsFound :
        (fuel : ℕ) (r : Outcome (Search × Option Found)) (u : Search) (f : Found)
        → ((t : Search) → Keeps t → search fuel adg m q t ≡ done (some (u, f)) → IsFound u f)
        → Leaves r
        → (r >>= more adg m q fuel) ≡ done (some (u, f))
        → IsFound u f
    more-IsFound fuel (done (t, none)) u f finds keeps h = finds t keeps h
    more-IsFound fuel (done (t, some g)) u f finds found h =
        let same : (t, g) ≡ (u, f) = ground arith in
        subst {A = Search × Found} (λ p. IsFound p.0 p.1) same found
    more-IsFound fuel fault u f finds leaves h = absurd (cc h)
    more-IsFound fuel out_of_fuel u f finds leaves h = absurd (cc h)

    in_port_idxs-Offered :
        (id : ℕ) (port : Port) (n : AdgNode.Node) (ports : List ℕ)
        → in_port_idxs m q id port n ≡ some ports
        → port ≡ none
        → (p : ℕ) → Set.count p ports ≡ true
        → Set.count p q.dst_port_range ≡ true
    unfolding in_port_idxs
    in_port_idxs-Offered id none n ports h e p c = ground arith
    in_port_idxs-Offered id (some port) n ports h e p c = absurd (cc e)

    pub search-IsFound :
        (fuel : ℕ) (v : Map (ℕ × ℕ) VisitNodeInfo) (que : List (ℕ × Port)) (u : Search) (f : Found)
        → Keeps (record { visit_nodes = v; node_que = que })
        → search fuel adg m q (record { visit_nodes = v; node_que = que }) ≡ done (some (u, f))
        → IsFound u f
    unfolding search
    search-IsFound zero v que u f keeps h = absurd (cc h)
    search-IsFound (suc fuel) v [] u f keeps h = absurd (ground arith)
    search-IsFound (suc fuel) v ((id, port) ∷ que) u f ((traced, all), judged) h =
        let s : Search = record { visit_nodes = v; node_que = que } in
        elim (Option-cases (AdgStore.node id adg)) [
          | inl absent ↦ absurd (ground arith)
          | inr (n, stored) ↦ elim (Option-cases (in_port_idxs m q id port n)) [
            | inl absent ↦ absurd (ground arith)
            | inr (ports, there) ↦
                more-IsFound fuel (scan_inputs adg m q id port n ports s) u f
                  (λ t keeps e. search-IsFound fuel t.visit_nodes t.node_que u f keeps e)
                  (scan_inputs-Leaves end id port n stored ports s
                    (in_port_idxs-Offered id port n ports there) traced (all, judged))
                  (rw (stored, there) at h)
          ]
        ]

    -- The search from a destination that only ends paths finds nothing but such ends.
    pub start-IsFound :
        (fuel : ℕ) (u : Search) (f : Found)
        → search fuel adg m q (start_search q.dst) ≡ done (some (u, f))
        → IsFound u f
    start-IsFound fuel u f h =
        search-IsFound fuel [] ((q.dst, none) ∷ []) u f
          (((0, omega arith, (refl, refl)), tt), λ key n c. absurd (cc c)) h
