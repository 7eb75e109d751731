-- ===== src/Dfg/Topo/Search.antt =====
-- The sort of an acyclic graph is a topological order.
use fdra.Prelude.{
  ℕ, zero, suc, true, false, some, [], ◌∷◌, ◌==◌, nat_key, ◌≡◌, ◌⊎◌, inl, inr, arith, ◌<◌, ◌≤◌,
  is_some, is_some_value, Bool-cases,
}
use fdra.Prelude.Map.{Map}
use fdra.Prelude.Set
use mathlib.Core.Path.{subst}
use fdra.Dfg.Node.{DfgNode}
use fdra.Dfg.Store.{Dfg, node}
use fdra.Prelude.Outcome.{Outcome, done, fault, out_of_fuel, ◌>>=◌}
use fdra.Dfg.Topo.{Visit, is_visited, dfs_inputs, mark, push, dfs}
use fdra.Dfg.Topo.Fuel.{IsKeyed}
use fdra.Dfg.Topo.Lists.{AllIn, count-snoc}
use fdra.Dfg.Topo.Order.{
  IsOpen, Inv, Extends, Extends-refl, Extends-trans, mark-Inv, IsOpen-mark, push-Extends,
}

-- The inputs of a node come from the graph's own ports or from stored nodes of a lower rank.
abbrev pub AllBelow : Dfg → (ℕ → ℕ) → ℕ → Map ℕ (ℕ × ℕ) → Type 0
AllBelow g rank r [] = Unit {0}
AllBelow g rank r ((port, (src, src_port)) ∷ ins) =
    ((src ≡ g.id) ⊎ ((rank src < r) × (is_some (node src g) ≡ true))) × AllBelow g rank r ins

-- An acyclic graph: its edges go up in rank, and no input comes from a missing node.
abbrev pub IsAcyclic : Dfg → (ℕ → ℕ) → Type 0
IsAcyclic g rank = (id : ℕ) (n : DfgNode) → node id g ≡ some n → AllBelow g rank (rank id) n.inputs

module _ (g : Dfg) (rank : ℕ → ℕ) where
  -- The outcome of a call on `id`, unless it stops for want of fuel.
  abbrev pub Sorts : Visit → ℕ → Outcome Visit → Type 0
  Sorts s id (done t) = Extends g s t × (Set.count id t.topo ≡ true)
  Sorts s id fault = ⊥
  Sorts s id out_of_fuel = Unit {0}

  -- The outcome of the loop over the inputs.
  abbrev SortsAll : Visit → Map ℕ (ℕ × ℕ) → Outcome Visit → Type 0
  SortsAll s ins (done t) = Extends g s t × AllIn g.id t.topo ins
  SortsAll s ins fault = ⊥
  SortsAll s ins out_of_fuel = Unit {0}

  abbrev Calls : ℕ → (ℕ → Visit → Outcome Visit) → Type 0
  Calls r visit =
      (id : ℕ) (u : Visit)
      → rank id < r
      → is_some (node id g) ≡ true
      → Inv g u
      → ((v : ℕ) → IsOpen u v → r ≤ rank v)
      → Sorts u id (visit id u)

  SortsAll-skip :
      (s : Visit) (port src src_port : ℕ) (ins : Map ℕ (ℕ × ℕ)) (r : Outcome Visit)
      → src ≡ g.id
      → SortsAll s ins r
      → SortsAll s ((port, (src, src_port)) ∷ ins) r
  SortsAll-skip s port src src_port ins (done t) own h = (h.0, (inl own, h.1))
  SortsAll-skip s port src src_port ins fault own h = h
  SortsAll-skip s port src src_port ins out_of_fuel own h = tt

  SortsAll-next :
      (s u : Visit) (port src src_port : ℕ) (ins : Map ℕ (ℕ × ℕ)) (r : Outcome Visit)
      → Extends g s u
      → Set.count src u.topo ≡ true
      → SortsAll u ins r
      → SortsAll s ((port, (src, src_port)) ∷ ins) r
  SortsAll-next s u port src src_port ins (done t) x m h =
      (Extends-trans g s u t x h.0, (inr (h.0.keeps src m), h.1))
  SortsAll-next s u port src src_port ins fault x m h = h
  SortsAll-next s u port src src_port ins out_of_fuel x m h = tt

  SortsAll-bind :
      (s : Visit) (port src src_port : ℕ) (ins : Map ℕ (ℕ × ℕ)) (r : Outcome Visit)
      (f : Visit → Outcome Visit)
      → Sorts s src r
      → ((u : Visit) → Extends g s u → SortsAll u ins (f u))
      → SortsAll s ((port, (src, src_port)) ∷ ins) (r >>= f)
  SortsAll-bind s port src src_port ins (done u) f h k =
      SortsAll-next s u port src src_port ins (f u) h.0 h.1 (k u h.0)
  SortsAll-bind s port src src_port ins fault f h k = h
  SortsAll-bind s port src src_port ins out_of_fuel f h k = tt

  dfs_inputs-SortsAll :
      (visit : ℕ → Visit → Outcome Visit) (r : ℕ) (ins : Map ℕ (ℕ × ℕ)) (s : Visit)
      → Calls r visit
      → AllBelow g rank r ins
      → Inv g s
      → ((v : ℕ) → IsOpen s v → r ≤ rank v)
      → SortsAll s ins (dfs_inputs visit g.id ins s)
  unfolding dfs_inputs
  dfs_inputs-SortsAll visit r [] s calls below i open' = (Extends-refl g s i, tt)
  dfs_inputs-SortsAll visit r ((port, (src, src_port)) ∷ ins) s calls below i open' =
      elim (Bool-cases (src == g.id)) [
        | inl own ↦ rw own (
            SortsAll-skip s port src src_port ins _ (ground arith)
              (dfs_inputs-SortsAll visit r ins s calls below.1 i open'))
        | inr other ↦
            let place : (rank src < r) × (is_some (node src g) ≡ true) = elim (below.0) [
              | inl own ↦ absurd (ground arith)
              | inr p ↦ p
            ] in
            rw other (
              SortsAll-bind s port src src_port ins (visit src s) _
                (calls src s place.0 place.1 i open')
                λ u x.
                  dfs_inputs-SortsAll visit r ins u calls below.1 x.inv
                    (λ v o. open' v (x.open_from v o)))
      ]

  push-Sorts :
      (s : Visit) (id k : ℕ) (n : DfgNode) (r : Outcome Visit)
      → node id g ≡ some n
      → k ≡ id
      → Inv g s
      → is_visited s k ≡ false
      → SortsAll (mark k s) n.inputs r
      → Sorts s id (r >>= λ t. done (push k t))
  push-Sorts s id k n (done t) found e i new h =
      let x = push-Extends g k s t i new h.0 (λ m stored. subst_inputs m (rw e at stored)) in
      (x, ground (arith, count-snoc id k t.topo))
    where
      subst_inputs : (m : DfgNode) → node id g ≡ some m → AllIn g.id t.topo m.inputs
      subst_inputs m stored =
          let same : n ≡ m = cc in subst (λ x. AllIn g.id t.topo x.inputs) same h.1
  push-Sorts s id k n fault found e i new h = h
  push-Sorts s id k n out_of_fuel found e i new h = tt

  module _ (keyed : IsKeyed g) (acyclic : IsAcyclic g rank) where
    pub dfs-Sorts :
        (fuel id : ℕ) (s : Visit)
        → is_some (node id g) ≡ true
        → Inv g s
        → ((v : ℕ) → IsOpen s v → rank id < rank v)
        → Sorts s id (dfs fuel g id s)
    unfolding dfs
    dfs-Sorts zero id s stored i open' = tt
    dfs-Sorts (suc fuel) id s stored i open' =
        let (n, found) = is_some_value (node id g) stored in
        let e = keyed id n found in
        rw (found, dfs)
          (elim (Bool-cases (is_visited s n.id)) [
            | inl old ↦ rw old (
              Extends-refl g s i,
              elim (Bool-cases (Set.count id s.topo)) [
                | inl there ↦ there
                | inr missing ↦ absurd (omega (arith, open' id (rw e at old, missing)))
              ],
            )
            | inr new ↦ rw new (
                push-Sorts s id n.id n _ found e i new (
                  dfs_inputs-SortsAll (dfs fuel g) (rank id) n.inputs (mark n.id s)
                    (λ j u lower there inv above.
                      dfs-Sorts fuel j u there inv (λ v o. omega (arith, above v o)))
                    (acyclic id n found) (mark-Inv g n.id s i)
                    (λ v o. above_id v n.id e (IsOpen-mark g n.id v s o))))
          ])
      where
        above_id : (v k : ℕ) → k ≡ id → (v ≡ k) ⊎ IsOpen s v → rank id ≤ rank v
        above_id v k e (inl same) = rw (same, e) (omega arith)
        above_id v k e (inr o) = omega (arith, open' v o)
