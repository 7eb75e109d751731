-- ===== src/Mapper/Mapping/Search/Fuel.antt =====
-- The search for a route ends: each round takes a key off the queue, and a key enters it only once.
use fdra.Prelude.{
  ℕ, zero, suc, ◌+◌, ◌≤◌, ◌<◌, Bool, true, false, ◌||◌, Option, none, some, List, [], ◌∷◌, ◌++◌,
  ◌≡◌, ◌≢◌, refl, sym, ◌==◌, if◌then◌else◌, length, arith, Bool-cases, Option-cases, inl, inr, ◌⊎◌,
  nat_key, pair_key, pair_eq, pair_eq_iff,
}
use mathlib.Core.Path.{subst}
use fdra.Prelude.Map
use fdra.Prelude.Map.{Map}
use fdra.Prelude.Set
use fdra.Prelude.Outcome.{Outcome, done, fault, out_of_fuel, ◌>>=◌}
use fdra.Graph.Edge.{GraphEdge}
use fdra.Graph.Node as GraphNode
use fdra.Adg.Node as AdgNode
use fdra.Adg.Node.{base}
use fdra.Adg.Store as AdgStore
use fdra.Adg.Store.{Adg}
use fdra.Mapper.Port.{Port}
use fdra.Mapper.Mapping.{Mapping}
use fdra.Mapper.Mapping.Search.{
  VisitNodeInfo, Search, Verdict, skip, cache, reached, reuse, Found, judge, enter, Quest,
  scan_inputs, in_port_idxs, search, input_keys, node_keys, all_keys, enough, start_search,
}
use Prim.Native.String.{String}

-- The keys that are not cached yet.
abbrev unvisited : List (ℕ × ℕ) → Map (ℕ × ℕ) VisitNodeInfo → ℕ
unvisited [] v = 0
unvisited (k ∷ ks) v = if Map.count k v then unvisited ks v else suc (unvisited ks v)

unvisited-le : (ks : List (ℕ × ℕ)) (v : Map (ℕ × ℕ) VisitNodeInfo) → unvisited ks v ≤ length ks
unvisited-le [] v = omega arith
unvisited-le (k ∷ ks) v = ground (arith, unvisited-le ks v)

count-insert :
    (j k : ℕ × ℕ) (i : VisitNodeInfo) (v : Map (ℕ × ℕ) VisitNodeInfo)
    → Map.count j (Map.insert k i v) ≡ (pair_eq k j || Map.count j v)
count-insert j k i v = ground (arith, Map.lookup-insert j k i v)

unvisited_mono :
    (ks : List (ℕ × ℕ)) (k : ℕ × ℕ) (i : VisitNodeInfo) (v : Map (ℕ × ℕ) VisitNodeInfo)
    → unvisited ks (Map.insert k i v) ≤ unvisited ks v
unvisited_mono [] k i v = omega arith
unvisited_mono (j ∷ ks) k i v = ground (arith, unvisited_mono ks k i v, count-insert j k i v)

unvisited-insert :
    (ks : List (ℕ × ℕ)) (k : ℕ × ℕ) (i : VisitNodeInfo) (v : Map (ℕ × ℕ) VisitNodeInfo)
    → Set.count k ks ≡ true
    → Map.count k v ≡ false
    → unvisited ks (Map.insert k i v) < unvisited ks v
unvisited-insert [] k i v there fresh = absurd (cc there)
unvisited-insert (j ∷ ks) k i v there fresh = elim (Bool-cases (pair_eq j k)) [
  | inl same ↦
      let e : j ≡ k = ground (arith, pair_eq_iff j k) in
      let now : Map.count j (Map.insert k i v) ≡ true =
        ground (arith, count-insert j k i v, pair_eq_iff k j) in
      let before : Map.count j v ≡ false = rw e fresh in
      rw (now, before) (omega (arith, unvisited_mono ks k i v))
  | inr other ↦
      let later : Set.count k ks ≡ true = ground arith in
      let kept : Map.count j (Map.insert k i v) ≡ Map.count j v =
        ground (arith, count-insert j k i v, pair_eq_iff k j, pair_eq_iff j k) in
      let rest = unvisited-insert ks k i v later fresh in rw kept (ground (arith, rest))
]

count-append :
    (k : ℕ × ℕ) (xs ys : List (ℕ × ℕ)) → Set.count k (xs ++ ys) ≡ (Set.count k xs || Set.count k ys)
count-append k [] ys = refl
count-append k (x ∷ xs) ys = ground (arith, count-append k xs ys)

input_keys-lookup :
    (port : ℕ) (ins : Map ℕ (ℕ × ℕ)) (k : ℕ × ℕ)
    → Map.lookup port ins ≡ some k
    → Set.count k (input_keys ins) ≡ true
input_keys-lookup port [] k h = absurd (cc h)
input_keys-lookup port ((p, j) ∷ ins) k h =
    ground (arith, input_keys-lookup port ins k, pair_eq_iff j k)

node_keys-lookup :
    (id : ℕ) (ns : Map ℕ AdgNode.Node) (n : AdgNode.Node) (k : ℕ × ℕ)
    → Map.lookup id ns ≡ some n
    → Set.count k (input_keys (base n).inputs) ≡ true
    → Set.count k (node_keys ns) ≡ true
node_keys-lookup id [] n k h c = absurd (cc h)
node_keys-lookup id ((i, x) ∷ ns) n k h c = elim (Bool-cases (i == id)) [
  | inl same ↦
      let e : x ≡ n = ground arith in
      let here : Set.count k (input_keys (base x).inputs) ≡ true = rw e c in
      ground (arith, count-append k (input_keys (base x).inputs) (node_keys ns))
  | inr other ↦
      let found : Map.lookup id ns ≡ some n = ground arith in
      let rest = node_keys-lookup id ns n k found c in
      ground (arith, count-append k (input_keys (base x).inputs) (node_keys ns))
]

-- Where an input of a stored node comes from is a key.
input-IsKey :
    (adg : Adg) (id port : ℕ) (n : AdgNode.Node)
    → AdgStore.node id adg ≡ some n
    → Set.count (GraphNode.input port (base n).graph_node) (all_keys adg) ≡ true
unfolding GraphNode.input AdgStore.node
input-IsKey adg id port n h = elim (Option-cases (Map.lookup port (base n).inputs)) [
  | inl none_there ↦ rw none_there refl
  | inr (k, there) ↦
      let inside = input_keys-lookup port (base n).inputs k there in
      let all = node_keys-lookup id adg.nodes n k h inside in
      let is_k : GraphNode.input port (base n).graph_node ≡ k = rw there refl in
      let at_k : Set.count k (all_keys adg) ≡ true = ground arith in
      subst (λ j. Set.count j (all_keys adg) ≡ true) (sym is_k) at_k
]

pub Verdict-cases :
    (v : Verdict) → (v ≡ skip) ⊎ ((v ≡ cache) ⊎ ((v ≡ reached) ⊎ ((x : GraphEdge) × (v ≡ reuse x))))
Verdict-cases skip = inl refl
Verdict-cases cache = inr (inl refl)
Verdict-cases reached = inr (inr (inl refl))
Verdict-cases (reuse x) = inr (inr (inr (x, refl)))

-- Only a key that is not cached yet is cached.
judge-cache :
    (e : GraphEdge) (src : Option ℕ) (op : String) (key : ℕ × ℕ) (n : AdgNode.Node) (visited : Bool)
    (m : Mapping)
    → judge e src op key n visited m ≡ cache
    → visited ≡ false
unfolding judge
judge-cache e (some src) op (id, port) n true m h = ground arith
judge-cache e none op (id, port) n true m h = ground arith
judge-cache e src op key n false m h = refl

-- The rounds that the search can still make.
abbrev potential : Adg → Search → ℕ
potential adg s = length s.node_que + unvisited (all_keys adg) s.visit_nodes

-- The loop over the inputs leaves no more rounds than there were, unless it ends the search.
abbrev Shrinks : Adg → Search → Outcome (Search × Option Found) → Type 0
Shrinks adg s (done (t, none)) = potential adg t ≤ potential adg s
Shrinks adg s (done (t, some f)) = Unit {0}
Shrinks adg s fault = Unit {0}
Shrinks adg s out_of_fuel = ⊥

Shrinks-trans :
    (adg : Adg) (s t : Search) (r : Outcome (Search × Option Found))
    → potential adg t ≤ potential adg s
    → Shrinks adg t r
    → Shrinks adg s r
Shrinks-trans adg s t (done (u, none)) h k = omega arith
Shrinks-trans adg s t (done (u, some f)) h k = tt
Shrinks-trans adg s t fault h k = tt
Shrinks-trans adg s t out_of_fuel h k = k

length-snoc {ℓ} : {A : Type ℓ} (xs : List A) (x : A) → length (xs ++ x ∷ []) ≡ suc (length xs)
length-snoc [] x = refl
length-snoc (y ∷ xs) x = omega (arith, length-snoc xs x)

module _ (adg : Adg) (m : Mapping) (q : Quest) (here : ℕ) (out_port : Port) (n : AdgNode.Node)
    (stored : AdgStore.node here adg ≡ some n) where
  scan_inputs-Shrinks :
      (ports : List ℕ) (s : Search) → Shrinks adg s (scan_inputs adg m q here out_port n ports s)
  unfolding scan_inputs
  scan_inputs-Shrinks [] s = omega arith
  scan_inputs-Shrinks (in_port ∷ ports) s =
      let key = GraphNode.input in_port (base n).graph_node in
      let s' = enter here out_port in_port key s in
      elim (Option-cases (AdgStore.node key.0 adg)) [
        | inl absent ↦ rw (absent, Shrinks) tt
        | inr (next, there) ↦
            let v = judge q.edge q.src q.op key next (Map.count key s.visit_nodes) m in
            elim (Verdict-cases v) [
              | inl e ↦ rw (there, e, Shrinks) (scan_inputs-Shrinks ports s)
              | inr (inl e) ↦
                  let fresh = judge-cache q.edge q.src q.op key next _ m e in
                  let info : VisitNodeInfo = record {
                    dst_node_id = here;
                    dst_in_port_idx = in_port;
                    dst_out_port_idx = out_port;
                  } in
                  let fewer =
                    unvisited-insert (all_keys adg) key info s.visit_nodes
                      (input-IsKey adg here in_port n stored) fresh in
                  let longer = length-snoc s.node_que (key.0, some key.1) in
                  let less : potential adg s' ≤ potential adg s = omega (arith, fewer, longer) in
                  rw (there, e, Shrinks)
                    (Shrinks-trans adg s s' _ less (scan_inputs-Shrinks ports s'))
              | inr (inr (inl e)) ↦ rw (there, e, Shrinks) tt
              | inr (inr (inr (x, e))) ↦ rw (there, e, Shrinks) tt
            ]
      ]

module _ (adg : Adg) (m : Mapping) (q : Quest) where
  abbrev pub more : ℕ → Search × Option Found → Outcome (Option (Search × Found))
  more fuel (t, found) = elim found [ some f ↦ done (some (t, f)) | none ↦ search fuel adg m q t ]

  more-Ends :
      (fuel : ℕ) (s : Search) (r : Outcome (Search × Option Found))
      → ((t : Search) → potential adg t < fuel → search fuel adg m q t ≢ out_of_fuel)
      → potential adg s < fuel
      → Shrinks adg s r
      → (r >>= more fuel) ≢ out_of_fuel
  more-Ends fuel s (done (t, none)) ends h k e = ends t (omega arith) e
  more-Ends fuel s (done (t, some f)) ends h k e = absurd (ground arith)
  more-Ends fuel s fault ends h k e = absurd (ground arith)
  more-Ends fuel s out_of_fuel ends h k e = k

  search-Ends :
      (fuel : ℕ) (v : Map (ℕ × ℕ) VisitNodeInfo) (que : List (ℕ × Port))
      → potential adg (record { visit_nodes = v; node_que = que }) < fuel
      → search fuel adg m q (record { visit_nodes = v; node_que = que }) ≢ out_of_fuel
  unfolding search
  search-Ends zero v que h = absurd (omega arith)
  search-Ends (suc fuel) v [] h = λ e. ground arith
  search-Ends (suc fuel) v ((id, out_port) ∷ que) h =
      let s : Search = record { visit_nodes = v; node_que = que } in
      elim (Option-cases (AdgStore.node id adg)) [
        | inl absent ↦ rw absent λ e. ground arith
        | inr (n, stored) ↦ elim (Option-cases (in_port_idxs m q id out_port n)) [
          | inl absent ↦ rw (stored, absent) λ e. ground arith
          | inr (ports, there) ↦
              rw (stored, there)
                (more-Ends fuel s (scan_inputs adg m q id out_port n ports s)
                  (λ t below. search-Ends fuel t.visit_nodes t.node_que below) (omega arith)
                  (scan_inputs-Shrinks adg m q id out_port n stored ports s))
        ]
      ]

  -- The fuel is enough: the search from a destination ends on every architecture graph and mapping,
  -- with a route, without one, or by the use of a missing node.
  pub search_terminates : search (enough adg) adg m q (start_search q.dst) ≢ out_of_fuel
  search_terminates =
      search-Ends (enough adg) [] ((q.dst, none) ∷ [])
        (omega (arith, unvisited-le (all_keys adg) []))
