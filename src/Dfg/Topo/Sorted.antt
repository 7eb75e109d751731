-- ===== src/Dfg/Topo/Sorted.antt =====
-- The order that `topoSortNodes` leaves behind.
use fdra.Prelude.{
  ℕ, true, some, List, [], ◌∷◌, nat_key, ◌≡◌, ◌≢◌, inl, inr, refl, arith, is_some, Option-cases,
  if◌then◌else◌,
}
use Prim.Native.String.{String}
use fdra.Prelude.Set
use fdra.Prelude.Set.{Set}
use fdra.Dfg.Store.{Dfg, node, get_out_nodes, select_io, operation_in}
use fdra.Prelude.Outcome.{Outcome, done, fault, out_of_fuel, ◌>>=◌}
use fdra.Dfg.Topo.{Visit, dfs, dfs_all, enough, topo_sort_nodes}
use fdra.Dfg.Topo.Fuel.{IsKeyed, topo_sort_terminates}
use fdra.Dfg.Topo.Lists.{IsOrdered, IsDistinct}
use fdra.Dfg.Topo.Order.{IsOpen, Inv, Extends, Extends-refl, Extends-trans}
use fdra.Dfg.Topo.Search.{IsAcyclic, Sorts, dfs-Sorts}

abbrev AllStored : Dfg → List ℕ → Type 0
AllStored g [] = Unit {0}
AllStored g (id ∷ ids) = (is_some (node id g) ≡ true) × AllStored g ids

AllStored-emplace :
    (g : Dfg) (id : ℕ) (ids : List ℕ)
    → is_some (node id g) ≡ true
    → AllStored g ids
    → AllStored g (Set.emplace id ids)
AllStored-emplace g id [] h a = (h, tt)
AllStored-emplace g id (j ∷ ids) h a = ground (arith, AllStored-emplace g id ids h a.1)

select_io-AllStored :
    (a b : String) (g : Dfg) (ids : List ℕ) (found outs : Set ℕ)
    → AllStored g found
    → select_io a b g ids found ≡ some outs
    → AllStored g outs
unfolding select_io
select_io-AllStored a b g [] found outs h e = ground arith
select_io-AllStored a b g (i ∷ ids) found outs h e = elim (Option-cases (node i g)) [
  | inl absent ↦ ground arith
  | inr (n, there) ↦
      select_io-AllStored a b g ids (if operation_in a b n then Set.emplace i found else found) outs
        (ground (arith, AllStored-emplace g i found)) (rw there at e)
]

-- All of `ids` are in `seen`.
abbrev pub AllPlaced : List ℕ → List ℕ → Type 0
AllPlaced seen [] = Unit {0}
AllPlaced seen (id ∷ ids) = (Set.count id seen ≡ true) × AllPlaced seen ids

-- No node is in the making.
abbrev IsIdle : Visit → Type 0
IsIdle s = (v : ℕ) → ¬ IsOpen s v

module _ (g : Dfg) (rank : ℕ → ℕ) (keyed : IsKeyed g) (acyclic : IsAcyclic g rank) where
  abbrev SortsOuts : Visit → List ℕ → Outcome Visit → Type 0
  SortsOuts s ids (done t) = Extends g s t × AllPlaced t.topo ids
  SortsOuts s ids fault = ⊥
  SortsOuts s ids out_of_fuel = Unit {0}

  SortsOuts-next :
      (s u : Visit) (id : ℕ) (ids : List ℕ) (r : Outcome Visit)
      → Extends g s u
      → Set.count id u.topo ≡ true
      → SortsOuts u ids r
      → SortsOuts s (id ∷ ids) r
  SortsOuts-next s u id ids (done t) x m h = (Extends-trans g s u t x h.0, (h.0.keeps id m, h.1))
  SortsOuts-next s u id ids fault x m h = h
  SortsOuts-next s u id ids out_of_fuel x m h = tt

  SortsOuts-bind :
      (s : Visit) (id : ℕ) (ids : List ℕ) (r : Outcome Visit) (f : Visit → Outcome Visit)
      → Sorts g rank s id r
      → ((u : Visit) → Extends g s u → SortsOuts u ids (f u))
      → SortsOuts s (id ∷ ids) (r >>= f)
  SortsOuts-bind s id ids (done u) f h k = SortsOuts-next s u id ids (f u) h.0 h.1 (k u h.0)
  SortsOuts-bind s id ids fault f h k = h
  SortsOuts-bind s id ids out_of_fuel f h k = tt

  dfs_all-SortsOuts :
      (fuel : ℕ) (ids : List ℕ) (s : Visit)
      → AllStored g ids
      → Inv g s
      → IsIdle s
      → SortsOuts s ids (dfs_all fuel g ids s)
  unfolding dfs_all
  dfs_all-SortsOuts fuel [] s stored i idle = (Extends-refl g s i, tt)
  dfs_all-SortsOuts fuel (id ∷ ids) s stored i idle =
      SortsOuts-bind s id ids (dfs fuel g id s) _
        (dfs-Sorts g rank keyed acyclic fuel id s stored.0 i (λ v o. absurd (idle v o)))
        λ u x. dfs_all-SortsOuts fuel ids u stored.1 x.inv (λ v o. idle v (x.open_from v o))

  -- The order of a sorted graph.
  pub record IsTopological (outs : Set ℕ) (g' : Dfg) : Type 0 where
    pub ordered : IsOrdered g [] g'.topo_nodes
    pub distinct : IsDistinct g'.topo_nodes
    pub complete : AllPlaced g'.topo_nodes outs
    pub kept : g' ≡ record g { topo_nodes = g'.topo_nodes }

  finish :
      (outs : Set ℕ) (s : Visit) (r : Outcome Visit)
      → (r >>= λ t. done (record g { topo_nodes = t.topo })) ≢ out_of_fuel
      → SortsOuts s outs r
      → (g' : Dfg) × ((r >>= λ t. done (record g { topo_nodes = t.topo })) ≡ done g')
        × IsTopological outs g'
  finish outs s (done t) ends h = (
    record g { topo_nodes = t.topo },
    refl,
    record { ordered = h.0.inv.ordered; distinct = h.0.inv.distinct; complete = h.1; kept = refl },
  )
  finish outs s fault ends h = absurd h
  finish outs s out_of_fuel ends h = absurd (ends refl)

  -- On an acyclic graph whose output nodes exist the sort returns. In the order that it leaves each
  -- node comes after the nodes that its inputs come from, no node occurs twice, and every output
  -- node occurs. Nothing else of the graph changes.
  pub topo_sort_nodes-IsTopological :
      (outs : Set ℕ)
      → get_out_nodes g ≡ some outs
      → (g' : Dfg) × (topo_sort_nodes g ≡ done g') × IsTopological outs g'
  unfolding topo_sort_nodes get_out_nodes
  topo_sort_nodes-IsTopological outs h =
      let s : Visit = record { visited = []; topo = [] } in
      let start : Inv g s = record { ordered = tt; distinct = tt; finished = λ v e. cc } in
      let stored = select_io-AllStored "OUTPUT" "STORE" g g.io_nodes [] outs tt h in
      rw h (
        finish outs s (dfs_all (enough g) g outs s) (λ e. topo_sort_terminates g keyed (rw h e))
          (dfs_all-SortsOuts (enough g) outs s stored start (λ v o. cc)))
