-- ===== src/Dfg/Topo/Fuel.antt =====
-- The depth-first search ends.
use fdra.Prelude.{
  ℕ, zero, suc, true, false, some, List, [], ◌∷◌, ◌==◌, if◌then◌else◌, length, nat_key, ◌≡◌, ◌≢◌,
  ◌<◌, ◌≤◌, arith, Bool-cases, Option-cases, inl, inr,
}
use fdra.Prelude.Map
use fdra.Prelude.Map.{Map}
use fdra.Dfg.Node.{DfgNode}
use fdra.Dfg.Store.{Dfg, node, get_out_nodes}
use fdra.Prelude.Outcome.{Outcome, done, fault, out_of_fuel, ◌>>=◌}
use fdra.Dfg.Topo.{Visit, is_visited, dfs_inputs, mark, dfs, dfs_all, enough, topo_sort_nodes}

-- The stored nodes that are not visited yet.
abbrev unvisited : Map ℕ DfgNode → Visit → ℕ
unvisited [] s = 0
unvisited ((id, n) ∷ ns) s = if is_visited s id then unvisited ns s else suc (unvisited ns s)

-- Nothing that is visited becomes unvisited.
abbrev Grows : Visit → Visit → Type 0
Grows s t = (v : ℕ) → is_visited s v ≡ true → is_visited t v ≡ true

unvisited_mono : (ns : Map ℕ DfgNode) (s t : Visit) → Grows s t → unvisited ns t ≤ unvisited ns s
unvisited_mono [] s t h = omega arith
unvisited_mono ((id, n) ∷ ns) s t h = ground (arith, unvisited_mono ns s t h, h id)

unvisited-le : (ns : Map ℕ DfgNode) (s : Visit) → unvisited ns s ≤ length ns
unvisited-le [] s = omega arith
unvisited-le ((id, n) ∷ ns) s = ground (arith, unvisited-le ns s)

mark-Grows : (id : ℕ) (s : Visit) → Grows s (mark id s)
mark-Grows id s v h = ground (arith, Map.lookup-insert v id true s.visited)

unvisited-mark :
    (ns : Map ℕ DfgNode) (id : ℕ) (n : DfgNode) (s : Visit)
    → Map.lookup id ns ≡ some n
    → is_visited s id ≡ false
    → unvisited ns (mark id s) < unvisited ns s
unvisited-mark [] id n s h f = cc
unvisited-mark ((j, m) ∷ ns) id n s h f = elim (Bool-cases (j == id)) [
  | inl hit ↦ ground (
    arith,
    unvisited_mono ns s (mark id s) (mark-Grows id s),
    Map.lookup-insert j id true s.visited,
  )
  | inr miss ↦ ground (arith, unvisited-mark ns id n s, Map.lookup-insert j id true s.visited)
]

unvisited-mark_own :
    (ns : Map ℕ DfgNode) (id k : ℕ) (n : DfgNode) (s : Visit)
    → Map.lookup id ns ≡ some n
    → k ≡ id
    → is_visited s k ≡ false
    → unvisited ns (mark k s) < unvisited ns s
unvisited-mark_own ns id k n s h e f = rw e (unvisited-mark ns id n s h (rw e at f))

-- The search from `s` ends, and forgets no visit.
abbrev Ends : Visit → Outcome Visit → Type 0
Ends s (done t) = Grows s t
Ends s fault = Unit
Ends s out_of_fuel = ⊥

Ends-trans : (s t : Visit) (r : Outcome Visit) → Grows s t → Ends t r → Ends s r
Ends-trans s t (done u) h e = λ v m. e v (h v m)
Ends-trans s t fault h e = tt
Ends-trans s t out_of_fuel h e = e

Ends-bind :
    (s : Visit) (r : Outcome Visit) (f : Visit → Outcome Visit)
    → Ends s r
    → ((t : Visit) → Grows s t → Ends t (f t))
    → Ends s (r >>= f)
Ends-bind s (done t) f h k = Ends-trans s t (f t) h (k t h)
Ends-bind s fault f h k = tt
Ends-bind s out_of_fuel f h k = h

Ends-done :
    (s : Visit) (r : Outcome Visit) (f : Visit → Dfg)
    → Ends s r
    → (r >>= λ t. done (f t)) ≢ out_of_fuel
Ends-done s (done t) f h e = cc
Ends-done s fault f h e = cc
Ends-done s out_of_fuel f h e = h

dfs_inputs-Ends :
    (visit : ℕ → Visit → Outcome Visit) (own : ℕ) (ins : Map ℕ (ℕ × ℕ)) (s : Visit)
    → ((id : ℕ) (t : Visit) → Grows s t → Ends t (visit id t))
    → Ends s (dfs_inputs visit own ins s)
unfolding dfs_inputs
dfs_inputs-Ends visit own [] s h = λ v m. m
dfs_inputs-Ends visit own ((port, (src, src_port)) ∷ ins) s h =
    Ends-bind s (if src == own then done s else visit src s) (dfs_inputs visit own ins) first
      λ t grown. dfs_inputs-Ends visit own ins t (λ id u more. h id u (λ v m. more v (grown v m)))
  where
    first : Ends s (if src == own then done s else visit src s)
    first = elim (Bool-cases (src == own)) [
      | inl yes' ↦ rw yes' (λ v m. m)
      | inr no' ↦ rw no' (h src s (λ v m. m))
    ]

-- Every node is stored under its own identifier, as `addNode` does.
abbrev pub IsKeyed : Dfg → Type 0
IsKeyed g = (id : ℕ) (n : DfgNode) → node id g ≡ some n → n.id ≡ id

module _ (g : Dfg) (keyed : IsKeyed g) where
  dfs-Ends : (fuel id : ℕ) (s : Visit) → unvisited g.nodes s < fuel → Ends s (dfs fuel g id s)
  unfolding dfs node
  dfs-Ends zero id s h = absurd (omega arith)
  dfs-Ends (suc fuel) id s h = elim (Option-cases (Map.lookup id g.nodes)) [
    | inl absent ↦ rw (absent, dfs) tt
    | inr (n, found) ↦
        rw (found, dfs)
          (elim (Bool-cases (is_visited s n.id)) [
            | inl old ↦ rw old (λ v m. m)
            | inr new ↦ rw new (
                Ends-trans s (mark n.id s) _ (mark-Grows n.id s) (
                  Ends-bind (mark n.id s) (dfs_inputs (dfs fuel g) g.id n.inputs (mark n.id s)) _
                    (dfs_inputs-Ends (dfs fuel g) g.id n.inputs (mark n.id s) λ i t grown.
                      dfs-Ends fuel i t (
                        omega (
                          arith,
                          unvisited_mono g.nodes (mark n.id s) t grown,
                          unvisited-mark_own g.nodes id n.id n s found (keyed id n found) new,
                        )))
                    (λ t grown v m. m)))
          ])
  ]

  dfs_all-Ends : (ids : List ℕ) (s : Visit) → Ends s (dfs_all (enough g) g ids s)
  unfolding dfs_all
  dfs_all-Ends [] s = λ v m. m
  dfs_all-Ends (id ∷ ids) s =
      Ends-bind s (dfs (enough g) g id s) (dfs_all (enough g) g ids)
        (dfs-Ends (enough g) id s (omega (arith, unvisited-le g.nodes s)))
        (λ t grown. dfs_all-Ends ids t)

  -- The fuel is enough: on every graph whose nodes stand under their own identifiers, cyclic ones
  -- too, the sort ends, with an order or by the call on a missing node.
  pub topo_sort_terminates : topo_sort_nodes g ≢ out_of_fuel
  unfolding topo_sort_nodes
  topo_sort_terminates h = elim (Option-cases (get_out_nodes g)) [
    | inl absent ↦ ground arith
    | inr (outs, found) ↦
        let s : Visit = record { visited = []; topo = [] } in
        Ends-done s (dfs_all (enough g) g outs s) _ (dfs_all-Ends outs s) (rw found at h)
  ]
