-- ===== src/Mapper/PassNodes/Loop.antt =====
-- mapper/mapping.cpp, `insertPassDfgNodes`: the loop over the edges that lack delay.
use fdra.Prelude.{
  ℕ, zero, suc, ◌+◌, ◌≤◌, true, false, none, some, List, [], ◌∷◌, ◌≡◌, refl, sym, ◌∙◌, ◌==◌, ◌⊎◌,
  inl, inr, arith, is_some, is_some_value, Bool-cases, take, length, nat_key,
}
use mathlib.Core.Path.{subst}
use fdra.Prelude.Set
use fdra.Graph.Edge.{GraphEdge}
use fdra.Operations
use fdra.Operations.{OpTable}
use fdra.Dfg.Store.{Dfg, node, edge}
use fdra.Dfg.Topo.Lists.{IsDistinct}
use fdra.Dfg.Consistent.{Runs}
use fdra.Mapper.PassNodes.{Insertion, edge_in, edge_out, insert_passes}
use fdra.Dfg.Content.{content_at, SameOwn, SameOwn-trans, SameOwn-refl}
use fdra.Mapper.PassNodes.Made.{passing_node, IsMade, insert_pass-IsMade}
use fdra.Mapper.PassNodes.Split.{IsReady, IsSplit, insert_pass-IsReady}

-- The edge is gone, and a node that only passes its value on stands between its two ends.
pub record IsBridged (table : OpTable) (id : ℕ) (e : GraphEdge) (g : Dfg) : Type 0 where
  pub between : ℕ
  pub first : ℕ
  pub second : ℕ
  pub made : content_at (node between g) ≡ some (passing_node table between)
  pub enters : Runs g e.src_id e.src_port_idx first between 0
  pub leaves : Runs g between 0 second e.dst_id e.dst_port_idx
  pub gone : edge id g ≡ none

pub record IsPassed (table : OpTable) (chosen : List ℕ) (s s' : Insertion) : Type 0 where
  pub added : s'.max_node_id ≡ s.max_node_id + length chosen
  pub nodes_stay :
      (i : ℕ) → i ≤ s.max_node_id → content_at (node i s'.dfg) ≡ content_at (node i s.dfg)
  pub nodes_new :
      (i : ℕ)
      → is_some (node i s'.dfg) ≡ true
      → (i ≤ s.max_node_id) ⊎ (content_at (node i s'.dfg) ≡ some (passing_node table i))
  pub rest : SameOwn s.dfg s'.dfg
  pub others_stay :
      (i : ℕ) → i ≤ s.max_edge_id → Set.count i chosen ≡ false → edge i s'.dfg ≡ edge i s.dfg
  pub bridged :
      (i : ℕ) (e : GraphEdge)
      → Set.count i chosen ≡ true
      → edge i s.dfg ≡ some e
      → IsBridged table i e s'.dfg
  pub edges_grow : s.max_edge_id ≤ s'.max_edge_id

count-take : (i k : ℕ) (ids : List ℕ) → Set.count i (take k ids) ≡ true → Set.count i ids ≡ true
count-take i zero ids there = absurd (ground arith)
count-take i (suc k) [] there = absurd (ground arith)
count-take i (suc k) (id ∷ ids) there = elim (Bool-cases (id == i)) [
  | inl own ↦ ground arith
  | inr other ↦ ground (arith, count-take i k ids (ground arith))
]

module _ (table : OpTable) (id : ℕ) (e : GraphEdge) (s s1 s' : Insertion) (chosen : List ℕ)
    (ready : IsReady s) (stored : edge id s.dfg ≡ some e)
    (all_stored : (i : ℕ) → Set.count i chosen ≡ true → is_some (edge i s.dfg) ≡ true)
    (once : Set.count id chosen ≡ false) (split : IsSplit id e s s1) (pass : IsMade table s s1)
    (rest : IsPassed table chosen s1 s') where
  below : (i : ℕ) → Set.count i chosen ≡ true → i ≤ s.max_edge_id
  below i there = ready.edges_below i (all_stored i there)

  above_out : (i : ℕ) → suc s.max_edge_id ≤ i → Set.count i chosen ≡ false
  above_out i above = elim (Bool-cases (Set.count i chosen)) [
    | inl there ↦ absurd (omega (arith, below i there, above))
    | inr out ↦ out
  ]

  id_below : id ≤ s.max_edge_id
  id_below = ready.edges_below id (ground (arith, stored))

  -- The two new edges are those that are stored at the end.
  own-IsBridged : IsBridged table id e s'.dfg
  own-IsBridged =
      let a = suc s.max_edge_id in
      let b = suc (suc s.max_edge_id) in
      let in_time = split.edge_id in
      let stays_a = rest.others_stay a (omega (arith, in_time)) (above_out a (omega arith)) in
      let stays_b = rest.others_stay b (omega (arith, in_time)) (above_out b (omega arith)) in
      let stays = rest.others_stay id (omega (arith, in_time, id_below)) once in
      record {
        between = suc s.max_node_id;
        first = a;
        second = b;
        made = rest.nodes_stay (suc s.max_node_id) (omega (arith, split.node_id)) ∙ pass.made;
        enters = record {
          e = edge_in e s;
          stored = stays_a ∙ ground (arith, split.edges a);
          src = refl;
          src_port = refl;
          dst = refl;
          dst_port = refl;
        };
        leaves = record {
          e = edge_out e s;
          stored = stays_b ∙ ground (arith, split.edges b);
          src = refl;
          src_port = refl;
          dst = refl;
          dst_port = refl;
        };
        gone = stays ∙ ground (arith, split.edges id, id_below);
      }

  IsPassed-cons : IsPassed table (id ∷ chosen) s s'
  IsPassed-cons = record {
    added = omega (arith, rest.added, split.node_id);
    nodes_stay = λ i low.
        rest.nodes_stay i (omega (arith, low, split.node_id))
        ∙ pass.kept i (λ same. absurd (omega (arith, low, same)));
    nodes_new = λ i there. elim (rest.nodes_new i there) [
      | inr new ↦ inr new
      | inl low ↦ elim (Bool-cases (suc s.max_node_id == i)) [
        | inl own ↦
            let at : suc s.max_node_id ≡ i = ground arith in
            inr (
              subst (λ k. content_at (node k s'.dfg) ≡ some (passing_node table k)) at
                (rest.nodes_stay (suc s.max_node_id) (omega (arith, split.node_id)) ∙ pass.made))
        | inr other ↦ inl (ground (arith, other, low, split.node_id))
      ]
    ];
    rest = SameOwn-trans s.dfg s1.dfg s'.dfg pass.rest rest.rest;
    others_stay = λ i low out.
        rest.others_stay i (omega (arith, low, split.edge_id)) (ground (arith, out))
        ∙ ground (arith, split.edges i, low, out);
    bridged = λ i e' there was. elim (Bool-cases (id == i)) [
      | inl own ↦
          let at : id ≡ i = ground arith in
          let was_id : edge id s.dfg ≡ some e' = subst (λ k. edge k s.dfg ≡ some e') (sym at) was in
          let same : e ≡ e' = ground (arith, stored, was_id) in
          subst (λ k. IsBridged table k e' s'.dfg) at
            (subst (λ x. IsBridged table id x s'.dfg) same own-IsBridged)
      | inr other ↦
          let later : Set.count i chosen ≡ true = ground (arith, there, other) in
          rest.bridged i e' later (ground (arith, split.edges i, below i later, was))
    ];
    edges_grow = omega (arith, rest.edges_grow, split.edge_id);
  }

IsPassed-nil :
    (table : OpTable) (s : Insertion)
    → ((i : ℕ) → is_some (node i s.dfg) ≡ true → i ≤ s.max_node_id)
    → IsPassed table [] s s
IsPassed-nil table s below = record {
  added = omega arith;
  nodes_stay = λ i low. refl;
  nodes_new = λ i there. inl (below i there);
  rest = SameOwn-refl s.dfg;
  others_stay = λ i low out. refl;
  bridged = λ i e there was. absurd (ground arith);
  edges_grow = omega arith;
}

-- The loop succeeds.
pub insert_passes-IsPassed :
    (table : OpTable) (left : ℕ) (ids : List ℕ) (s : Insertion)
    → Operations.op_capable table "PASS" ≡ true
    → IsReady s
    → IsDistinct ids
    → ((i : ℕ) → Set.count i ids ≡ true → is_some (edge i s.dfg) ≡ true)
    → (s' : Insertion) × (insert_passes table left ids s ≡ some s')
      × IsReady s'
      × IsPassed table (take left ids) s s'
unfolding insert_passes
insert_passes-IsPassed table zero [] s capable ready distinct stored =
    (s, refl, ready, IsPassed-nil table s ready.nodes_below)
insert_passes-IsPassed table (suc left) [] s capable ready distinct stored =
    (s, refl, ready, IsPassed-nil table s ready.nodes_below)
insert_passes-IsPassed table zero (id ∷ ids) s capable ready distinct stored =
    (s, refl, ready, IsPassed-nil table s ready.nodes_below)
insert_passes-IsPassed table (suc left) (id ∷ ids) s capable ready (once, distinct) stored =
    let (e, is_e) = is_some_value (edge id s.dfg) (stored id (ground arith)) in
    let (s1, run1, ready1, split) = insert_pass-IsReady table id e s capable ready is_e in
    let stored1 : (i : ℕ) → Set.count i ids ≡ true → is_some (edge i s1.dfg) ≡ true = λ i there.
      let was = stored i (ground arith) in
      let low = ready.edges_below i was in ground (arith, split.edges i, was, low, once) in
    let (s', run, ready', rest) =
      insert_passes-IsPassed table left ids s1 capable ready1 distinct stored1 in
    let once' : Set.count id (take left ids) ≡ false =
      elim (Bool-cases (Set.count id (take left ids))) [
        | inl there ↦ absurd (ground (arith, count-take id left ids there))
        | inr out ↦ out
      ] in
    (
      s',
      rw run1 run,
      ready',
      IsPassed-cons table id e s s1 s' (take left ids) ready is_e
          (λ i there. stored i (ground (arith, count-take i left ids there))) once' split
          (insert_pass-IsMade table id s s1 run1) rest,
    )
