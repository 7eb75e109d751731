-- ===== src/Dfg/Topo.antt =====
-- dfg/dfg.cpp, `dfs` and `topoSortNodes`: the nodes that the output nodes depend on, each behind its
-- inputs. The recursion takes fuel: one more than the number of nodes, since a call that goes on
-- marks one more node as visited (`Ends`).
pub mod Fuel
pub mod Lists
pub mod Order
pub mod Search
pub mod Sorted
use fdra.Prelude.{
  ℕ, zero, suc, Bool, true, false, Option, none, some, List, [], ◌∷◌, ◌++◌, ◌==◌, if◌then◌else◌,
  length, nat_key,
}
use fdra.Prelude.Map
use fdra.Prelude.Outcome.{Outcome, done, fault, out_of_fuel, ◌>>=◌, or_fault}
use fdra.Prelude.Map.{Map}
use fdra.Dfg.Node.{DfgNode}
use fdra.Dfg.Store.{Dfg, node, get_out_nodes}

-- `visited` and `_topoNodes`.
pub record Visit : Type 0 where
  pub visited : Map ℕ Bool
  pub topo : List ℕ

abbrev pub is_visited : Visit → ℕ → Bool
is_visited s id = Map.get_or id false s.visited

-- The loop over the inputs of a node, where `visit` is the recursive call.
pub dfs_inputs : (ℕ → Visit → Outcome Visit) → ℕ → Map ℕ (ℕ × ℕ) → Visit → Outcome Visit
dfs_inputs visit own [] s = done s
dfs_inputs visit own ((port, (src, src_port)) ∷ ins) s =
    (if src == own then done s else visit src s) >>= dfs_inputs visit own ins

abbrev pub mark : ℕ → Visit → Visit
mark id s = record s { visited = Map.insert id true s.visited }

abbrev pub push : ℕ → Visit → Visit
push id s = record s { topo = s.topo ++ id ∷ [] }

-- The call on the node stored under `id`, the null pointer if there is none.
pub dfs : ℕ → Dfg → ℕ → Visit → Outcome Visit
unfolding node
dfs zero g id s = out_of_fuel
dfs (suc fuel) g id s = elim (node id g) [
  | none ↦ fault
  | some n ↦
      if is_visited s n.id
      then done s
      else (dfs_inputs (dfs fuel g) g.id n.inputs (mark n.id s) >>= λ t. done (push n.id t))
]

-- The loop over the output nodes.
pub dfs_all : ℕ → Dfg → List ℕ → Visit → Outcome Visit
dfs_all fuel g [] s = done s
dfs_all fuel g (id ∷ ids) s = dfs fuel g id s >>= dfs_all fuel g ids

abbrev pub enough : Dfg → ℕ
enough g = suc (length g.nodes)

unfoldable pub topo_sort_nodes : Dfg → Outcome Dfg
topo_sort_nodes g = do
  outs ← or_fault (get_out_nodes g)
  t ← dfs_all (enough g) g outs (record { visited = []; topo = [] })
  done (record g { topo_nodes = t.topo })
