-- ===== src/Mapper/Supply/Examples.antt =====
-- Two nodes and two units that add, on which the theorems about the supply are used.
use fdra.Prelude.{
  ℕ, ◌≤◌, ◌↔◌, arith, length, Bool, false, true, none, some, [], ◌∷◌, ◌≡◌, ◌≢◌, refl, string_key,
}
use fdra.Prelude.Int.{pos}
use fdra.Prelude.Map
use fdra.Prelude.Map.{Map}
use fdra.Mapper.Mapping.Examples.{chain}
use fdra.Mapper.Mapping.Walk.Examples.{two_dfg}
use fdra.Mapper.Supply.{
  OpLeft, init_op_left, update_op_left, cal_adg_op_cnt, count_op, count_dfg_ops, covers,
  pre_map_check,
}
use fdra.Mapper.Supply.Check.{AllNamed, IsEnough, pre_map_check-IsEnough}
use fdra.Mapper.Supply.Counts.{AllUnits, entry, nodes_with, units_with, init_op_left-IsCount}
use fdra.Mapper.Supply.Restore.{entry_after, update_op_left-restores}
use Prim.Native.String.{String}

chain-AllUnits : AllUnits chain.nodes
chain-AllUnits = ((λ h. (_, refl)), ((λ h. absurd (cc h)), ((λ h. (_, refl)), tt)))

init_op_left-IsCount_example :
    (left : OpLeft) × (init_op_left two_dfg chain ≡ some left)
    × ((op : String)
        → Map.lookup op left ≡ entry (nodes_with op two_dfg.nodes) (units_with op chain.nodes))
init_op_left-IsCount_example = init_op_left-IsCount two_dfg chain chain-AllUnits

-- Computed: both nodes and both units add.
two_nodes : nodes_with "ADD" two_dfg.nodes ≡ 2
two_nodes = refl

two_units : units_with "ADD" chain.nodes ≡ 2
two_units = refl

abbrev two_left : OpLeft
two_left = ("ADD", (pos 2, pos 2)) ∷ []

adds : Map.lookup "ADD" two_left ≢ none
adds h = cc h

update_op_left-restores_example :
    (placed : OpLeft) × (taken : OpLeft) × (update_op_left "ADD" ("ADD" ∷ []) false two_left
      ≡ some placed)
    × (update_op_left "ADD" ("ADD" ∷ []) true placed ≡ some taken)
    × ((x : String)
        → Map.lookup x placed ≡ entry_after "ADD" ("ADD" ∷ []) x (Map.lookup x two_left))
    × ((x : String) → Map.lookup x taken ≡ Map.lookup x two_left)
update_op_left-restores_example = update_op_left-restores "ADD" ("ADD" ∷ []) two_left adds

two-AllNamed : AllNamed two_dfg.nodes
two-AllNamed = (refl, (refl, tt))

no_ios : length two_dfg.io_nodes ≤ length two_dfg.nodes
no_ios = omega arith

abbrev counted : Map String ℕ
counted = ("ADD", 2) ∷ []

chain_counted : cal_adg_op_cnt chain.nodes [] ≡ some counted
unfolding cal_adg_op_cnt count_op
chain_counted = refl

pre_map_check-IsEnough_example :
    (answer : Bool) × (pre_map_check counted chain two_dfg ≡ some answer)
    × ((answer ≡ true) ↔ IsEnough chain two_dfg)
pre_map_check-IsEnough_example =
    pre_map_check-IsEnough chain two_dfg counted chain-AllUnits two-AllNamed no_ios chain_counted

-- Computed: the two nodes fit.
two_fit : pre_map_check counted chain two_dfg ≡ some true
unfolding pre_map_check count_dfg_ops covers
two_fit = refl
