-- ===== src/Mapper/PassNodes/Whole.antt =====
-- mapper/mapping.cpp, `insertPassDfgNodes`: the whole function.
use fdra.Prelude.{
  ℕ, suc, ◌≤◌, Bool, true, false, some, List, [], ◌∷◌, ◌≡◌, ◌≢◌, refl, sym, ap, ◌∙◌, ◌==◌, ==_iff,
  inl, inr, arith, is_some, Bool-cases, take, length, ltb, nat_key,
}
use fdra.Prelude.Int.{ltb_ℤ}
use fdra.Prelude.Map
use fdra.Prelude.Map.{Map}
use fdra.Prelude.Set
use fdra.Prelude.Sorted.{IsFrom, IsSorted}
use fdra.Graph.Edge.{GraphEdge}
use fdra.Operations
use fdra.Operations.{OpTable}
use fdra.Dfg.Store.{Dfg, node, edge, assign}
use fdra.Dfg.Copy.{AllIo, IsCopy, assign-IsCopy, IsCopy-Consistent}
use fdra.Dfg.Topo.Lists.{IsDistinct}
use fdra.Dfg.Consistent.{IsConsistent}
use fdra.Adg.Store.{Adg}
use fdra.Mapper.Mapping.{Mapping}
use fdra.Mapper.Timing.{edge_attr}
use fdra.Mapper.IoScheduler.Task.{insert_by, sort_by}
use fdra.Mapper.PassNodes.{
  Insertion, last_key, num_avail, sorted_vio, insert_into, insert_pass_dfg_nodes,
}
use fdra.Dfg.Content.{content_at, SameOwn, SameOwn-trans}
use fdra.Mapper.PassNodes.Made.{passing_node}
use fdra.Mapper.PassNodes.Split.{IsReady}
use fdra.Mapper.PassNodes.Loop.{IsBridged, IsPassed, insert_passes-IsPassed}

-- The sort permutes the edges.
count-insert_by :
    (k : ℕ) (lt : ℕ → ℕ → Bool) (x : ℕ) (xs : List ℕ)
    → Set.count k (insert_by lt x xs) ≡ Set.count k (x ∷ xs)
count-insert_by k lt x [] = refl
count-insert_by k lt x (y ∷ ys) = elim (Bool-cases (lt y x)) [
  | inl before ↦ rw before (ground (arith, count-insert_by k lt x ys))
  | inr after ↦ rw after refl
]

count-sort_by :
    (k : ℕ) (lt : ℕ → ℕ → Bool) (xs : List ℕ) → Set.count k (sort_by lt xs) ≡ Set.count k xs
count-sort_by k lt [] = refl
count-sort_by k lt (x ∷ xs) =
    count-insert_by k lt x (sort_by lt xs) ∙ ground (arith, count-sort_by k lt xs)

insert_by-IsDistinct :
    (lt : ℕ → ℕ → Bool) (x : ℕ) (xs : List ℕ)
    → Set.count x xs ≡ false
    → IsDistinct xs
    → IsDistinct (insert_by lt x xs)
insert_by-IsDistinct lt x [] new distinct = (refl, tt)
insert_by-IsDistinct lt x (y ∷ ys) new (once, distinct) = elim (Bool-cases (lt y x)) [
  | inl before ↦ rw before (
    ground (arith, count-insert_by y lt x ys, new, once, ==_iff x y, ==_iff y x),
    insert_by-IsDistinct lt x ys (ground (arith, new)) distinct,
  )
  | inr after ↦ rw after (new, (once, distinct))
]

sort_by-IsDistinct : (lt : ℕ → ℕ → Bool) (xs : List ℕ) → IsDistinct xs → IsDistinct (sort_by lt xs)
sort_by-IsDistinct lt [] distinct = tt
sort_by-IsDistinct lt (x ∷ xs) (once, distinct) =
    insert_by-IsDistinct lt x (sort_by lt xs) (count-sort_by x lt xs ∙ once)
      (sort_by-IsDistinct lt xs distinct)

sorted-Distinct :
    (avail : ℕ) (m : Mapping)
    → IsDistinct m.vio_dfg_edges
    → IsDistinct (sorted_vio avail m).vio_dfg_edges
sorted-Distinct avail m distinct = elim (Bool-cases (ltb avail (length m.vio_dfg_edges))) [
  | inl few ↦ rw few (
      sort_by-IsDistinct (λ a b. ltb_ℤ (edge_attr b m).vio (edge_attr a m).vio) m.vio_dfg_edges
        distinct)
  | inr enough ↦ rw enough distinct
]

count-sorted :
    (k avail : ℕ) (m : Mapping)
    → Set.count k (sorted_vio avail m).vio_dfg_edges ≡ Set.count k m.vio_dfg_edges
count-sorted k avail m = elim (Bool-cases (ltb avail (length m.vio_dfg_edges))) [
  | inl few ↦
      rw few
        (count-sort_by k (λ a b. ltb_ℤ (edge_attr b m).vio (edge_attr a m).vio) m.vio_dfg_edges)
  | inr enough ↦ rw enough refl
]

-- The last key is the greatest.
last_key-total :
    {V : Type 0} (m : Map ℕ V) (k : ℕ)
    → IsFrom k m
    → m ≢ []
    → (l : ℕ) × (last_key m ≡ some l)
      × (k ≤ l)
      × ((i : ℕ) → is_some (Map.lookup i m) ≡ true → i ≤ l)
last_key-total [] k rising some_entry = absurd (some_entry refl)
last_key-total ((j, v) ∷ []) k (at, rising) some_entry = (j, refl, at, λ i there. ground arith)
last_key-total ((j, v) ∷ (j', v') ∷ m) k (at, rising) some_entry =
    let (l, last, above, all) = last_key-total ((j', v') ∷ m) (suc j) rising (λ e. cc e) in
    (
      l,
      rw last refl,
      omega (arith, at, above),
      λ i there. elim (Bool-cases (j == i)) [
        | inl own ↦ ground (arith, above)
        | inr other ↦ all i (rw other at there)
      ],
    )

some_key : {V : Type 0} (m : Map ℕ V) → m ≢ [] → (i : ℕ) × (is_some (Map.lookup i m) ≡ true)
some_key [] some_entry = absurd (some_entry refl)
some_key ((k, v) ∷ m) some_entry = (k, ground arith)

non_empty :
    {V W : Type 0} (m : Map ℕ V) (m' : Map ℕ W)
    → ((i : ℕ) → is_some (Map.lookup i m') ≡ is_some (Map.lookup i m))
    → m ≢ []
    → m' ≢ []
non_empty m m' same some_entry empty =
    let (i, there) = some_key m some_entry in
    let gone : is_some (Map.lookup i m') ≡ false = rw empty refl in
    ground (arith, same i, there, gone)

-- The new graph: consistent, with the nodes of the old one as they were but for their port tables and
-- no other nodes than those that pass values on, with all edges that are not chosen, and with such a
-- node on each chosen edge.
pub record IsExtended (table : OpTable) (chosen : List ℕ) (dfg g : Dfg) : Type 0 where
  pub consistent : IsConsistent g
  pub nodes_stay :
      (i : ℕ) → is_some (node i dfg) ≡ true → content_at (node i g) ≡ content_at (node i dfg)
  pub nodes_new :
      (i : ℕ)
      → is_some (node i g) ≡ true
      → is_some (node i dfg) ≡ false
      → content_at (node i g) ≡ some (passing_node table i)
  pub rest : SameOwn dfg g
  pub others_stay :
      (i : ℕ) (e : GraphEdge) → Set.count i chosen ≡ false → edge i dfg ≡ some e → edge i g ≡ some e
  pub bridged :
      (i : ℕ) (e : GraphEdge)
      → Set.count i chosen ≡ true
      → edge i dfg ≡ some e
      → IsBridged table i e g

module _ (table : OpTable) (adg : Adg) (dfg new_dfg : Dfg) (m : Mapping)
    (capable : Operations.op_capable table "PASS" ≡ true) (consistent : IsConsistent dfg)
    (own_zero : dfg.id ≡ 0) (nodes_rise : IsSorted dfg.nodes) (edges_rise : IsSorted dfg.edges)
    (ios : AllIo dfg dfg.nodes) (some_node : dfg.nodes ≢ []) (some_edge : dfg.edges ≢ [])
    (no_nodes : new_dfg.nodes ≡ []) (no_edges : new_dfg.edges ≡ [])
    (distinct : IsDistinct m.vio_dfg_edges)
    (stored : (i : ℕ) → Set.count i m.vio_dfg_edges ≡ true → is_some (edge i dfg) ≡ true) where
  abbrev chosen : ℕ → List ℕ
  chosen avail = take avail (sorted_vio avail m).vio_dfg_edges

  copied :
      (copy : Dfg) × (k : ℕ) × (l : ℕ) × (assign new_dfg dfg ≡ some copy)
      × IsCopy dfg copy
      × (last_key copy.nodes ≡ some k)
      × (last_key copy.edges ≡ some l)
      × IsReady (record { dfg = copy; max_node_id = k; max_edge_id = l })
  unfolding node edge
  copied =
      let (copy, run, is_copy) =
        assign-IsCopy new_dfg dfg no_nodes no_edges nodes_rise edges_rise ios in
      let same_edges : (i : ℕ)
          → is_some (Map.lookup i copy.edges) ≡ is_some (Map.lookup i dfg.edges) =
        λ i. ap (λ x. is_some x) (is_copy.ends 0 0 i 0 0).4 in
      let (k, last_node, above, nodes_below) = last_key-total copy.nodes 0 is_copy.nodes_sorted (
        non_empty dfg.nodes copy.nodes (λ i. ap (λ x. is_some x) (is_copy.same_node i))
          some_node) in
      let (l, last_edge, above', edges_below) =
        last_key-total copy.edges 0 is_copy.edges_sorted
          (non_empty dfg.edges copy.edges same_edges some_edge) in
      (
        copy,
        k,
        l,
        run,
        is_copy,
        last_node,
        last_edge,
        record {
          consistent = IsCopy-Consistent dfg copy is_copy consistent;
          nodes_below = nodes_below;
          edges_below = edges_below;
          own_below = omega (arith, is_copy.own_id, own_zero);
        },
      )

  IsPassed-Extended :
      (copy : Dfg) (k l : ℕ) (ids : List ℕ) (s' : Insertion)
      → IsCopy dfg copy
      → IsReady (record { dfg = copy; max_node_id = k; max_edge_id = l })
      → IsReady s'
      → IsPassed table ids (record { dfg = copy; max_node_id = k; max_edge_id = l }) s'
      → IsExtended table ids dfg s'.dfg
  IsPassed-Extended copy k l ids s' is_copy ready ready' passed =
      let in_copy : (i : ℕ) → edge i copy ≡ edge i dfg = λ i. (is_copy.ends 0 0 i 0 0).4 in
      record {
        consistent = ready'.consistent;
        nodes_stay = λ i there.
            let here = ap (λ x. is_some x) (is_copy.same_node i) ∙ there in
            passed.nodes_stay i (ready.nodes_below i here) ∙ ap content_at (is_copy.same_node i);
        nodes_new = λ i there new. elim (passed.nodes_new i there) [
          | inr made ↦ made
          | inl low ↦
              let gone = ap (λ x. is_some x) (is_copy.same_node i) ∙ new in
              let same = passed.nodes_stay i low in absurd (ground (arith, gone, same, there))
        ];
        rest = SameOwn-trans dfg copy s'.dfg is_copy.rest passed.rest;
        others_stay = λ i e out was.
            let here = in_copy i ∙ was in
            passed.others_stay i (ready.edges_below i (ground (arith, here))) out ∙ here;
        bridged = λ i e there was. passed.bridged i e there (in_copy i ∙ was);
      }

  insert_into-IsExtended :
      (avail : ℕ)
      → (g : Dfg) × (insert_into table avail dfg new_dfg m ≡ some (true, g, sorted_vio avail m))
        × IsExtended table (chosen avail) dfg g
  unfolding insert_into
  insert_into-IsExtended avail =
      let (copy, k, l, run, is_copy, last_node, last_edge, ready) = copied in
      let start : Insertion = record { dfg = copy; max_node_id = k; max_edge_id = l } in
      let there : (i : ℕ)
          → Set.count i (sorted_vio avail m).vio_dfg_edges ≡ true
          → is_some (edge i copy) ≡ true =
        λ i h.
          ap (λ x. is_some x) (is_copy.ends 0 0 i 0 0).4
          ∙ stored i (sym (count-sorted i avail m) ∙ h) in
      let (s', passes, ready', passed) =
        insert_passes-IsPassed table avail (sorted_vio avail m).vio_dfg_edges start capable ready
          (sorted-Distinct avail m distinct) there in
      (
        s'.dfg,
        rw (run, last_node, last_edge, passes) refl,
        IsPassed-Extended copy k l (chosen avail) s' is_copy ready ready' passed,
      )

  -- Take a consistent graph that has nodes and edges, whose identifier is 0 and whose listed input and
  -- output nodes are exactly the nodes with that part, a table that has the operation "PASS", an empty
  -- graph as the target, and some units left. Then the function answers true. The target is consistent.
  -- It has all nodes of the graph, as they were but for their port tables, the same input and output
  -- nodes, and otherwise only new nodes with the operation "PASS" and the properties that the table
  -- gives it. It has all edges of the graph but the chosen ones, which are the first of the sorted
  -- list, as many as units are left; each of these is gone, and between its two ends stands a new
  -- node, with an edge from the one end to it and an edge from it to the other end.
  pub insert_pass_dfg_nodes-IsExtended :
      num_avail adg dfg ≢ 0
      → (g : Dfg) × (insert_pass_dfg_nodes table adg dfg new_dfg m
          ≡ some (true, g, sorted_vio (num_avail adg dfg) m))
        × IsExtended table (chosen (num_avail adg dfg)) dfg g
  unfolding insert_pass_dfg_nodes
  insert_pass_dfg_nodes-IsExtended units_left =
      let avail = num_avail adg dfg in
      let (g, run, extended) = insert_into-IsExtended avail in
      let not_zero : (avail == 0) ≡ false = ground (arith, units_left, ==_iff avail 0) in
      (g, rw not_zero run, extended)
