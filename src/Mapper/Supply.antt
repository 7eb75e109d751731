-- ===== src/Mapper/Supply.antt =====
-- mapper/mapper.cpp: for each operation, how many nodes are left to be placed and how many units are
-- left that can run it.
pub mod Shift
pub mod Counts
pub mod Restore
pub mod Check
mod Examples
use fdra.Prelude.{
  ℕ, ◌+◌, ◌-◌, ◌^◌, Bool, true, false, Option, none, some, List, [], ◌∷◌, min, length, ltb,
  if◌then◌else◌, string_key,
}
use fdra.Prelude.Int.{ℤ, pos, negsuc, ◌+ℤ◌}
use fdra.Prelude.Options.{◌>>=◌}
use fdra.Prelude.Map
use fdra.Prelude.Map.{Map}
use fdra.Dfg.Node.{DfgNode}
use fdra.Dfg.Store.{Dfg}
use fdra.Adg.Node as AdgNode
use fdra.Adg.Node.{as_fu}
use fdra.Adg.Store.{Adg}
use fdra.Mapper.Mapping.Search.{has_type}
use Prim.Native.String.{String}
use text.Mathlib.Text.{◌==◌ as str_eq}

-- `opLeftDfgAdgNum`
abbrev pub OpLeft : Type 0
OpLeft = Map String (ℤ × ℤ)

-- One more node with the operation; the second number starts again.
abbrev pub one_more : Option (ℤ × ℤ) → ℤ × ℤ
one_more none = (pos 1, pos 0)
one_more (some nums) = (nums.0 +ℤ pos 1, pos 0)

unfoldable pub count_node : String → OpLeft → OpLeft
count_node op left = Map.insert op (one_more (Map.lookup op left)) left

unfoldable pub count_nodes : Map ℕ DfgNode → OpLeft → OpLeft
count_nodes [] left = left
count_nodes ((id, n) ∷ nodes) left = count_nodes nodes (count_node n.operation left)

-- The second number of the operation, if there is an entry.
unfoldable pub shift_op : String → ℤ → OpLeft → OpLeft
shift_op op value left = elim (Map.lookup op left) [
  | none ↦ left
  | some nums ↦ Map.insert op (nums.0, nums.1 +ℤ value) left
]

unfoldable pub shift_ops : List String → ℤ → OpLeft → OpLeft
shift_ops [] value left = left
shift_ops (op ∷ ops) value left = shift_ops ops value (shift_op op value left)

-- `none` is a node that is no unit, though it is no interconnect block either.
unfoldable pub count_units : Map ℕ AdgNode.Node → OpLeft → Option OpLeft
count_units [] left = some left
count_units ((id, n) ∷ nodes) left =
    if has_type "GIB" n then count_units nodes left else elim (as_fu n) [
      | none ↦ none
      | some fu ↦ count_units nodes (shift_ops fu.operations (pos 1) left)
    ]

unfoldable pub init_op_left : Dfg → Adg → Option OpLeft
init_op_left dfg adg = count_units adg.nodes (count_nodes dfg.nodes [])

-- A node has been placed on a unit, or taken from it. `none` is the failed assertion.
unfoldable pub update_op_left : String → List String → Bool → OpLeft → Option OpLeft
update_op_left op ops unmap left =
    let value = if unmap then pos 1 else negsuc 0 in
    elim (Map.lookup op left) [
      | none ↦ none
      | some nums ↦ some (shift_ops ops value (Map.insert op (nums.0 +ℤ value, nums.1) left))
    ]

-- `adgOpCnt`
unfoldable pub count_op : List String → Map String ℕ → Map String ℕ
count_op [] cnt = cnt
count_op (op ∷ ops) cnt = count_op ops (Map.update op 0 (λ k. k + 1) cnt)

unfoldable pub cal_adg_op_cnt : Map ℕ AdgNode.Node → Map String ℕ → Option (Map String ℕ)
cal_adg_op_cnt [] cnt = some cnt
cal_adg_op_cnt ((id, n) ∷ nodes) cnt =
    if has_type "GIB" n then cal_adg_op_cnt nodes cnt else elim (as_fu n) [
      | none ↦ none
      | some fu ↦ cal_adg_op_cnt nodes (count_op fu.operations cnt)
    ]

unfoldable pub count_candidates : String → Map ℕ AdgNode.Node → Option ℕ
count_candidates op [] = some 0
count_candidates op ((id, n) ∷ nodes) = do
  rest ← count_candidates op nodes
  (if has_type "GIB" n then some rest else elim (as_fu n) [
    | none ↦ none
    | some fu ↦ some (if AdgNode.op_capable op fu then rest + 1 else rest)
  ])

unfoldable pub cal_candidates_cnt : Adg → DfgNode → ℕ → Option ℕ
cal_candidates_cnt adg n max_candidates = do
  cnt ← count_candidates n.operation adg.nodes
  some (min cnt max_candidates)

-- `preMapCheck`: the nodes of the graph for each operation; `none` is a node without an operation.
unfoldable pub count_dfg_ops : Map ℕ DfgNode → Map String ℕ → Option (Map String ℕ)
count_dfg_ops [] cnt = some cnt
count_dfg_ops ((id, n) ∷ nodes) cnt =
    if str_eq n.operation ""
    then none
    else count_dfg_ops nodes (Map.update n.operation 0 (λ k. k + 1) cnt)

-- The loop over them. The entry of 0 that `adgOpCnt[op]` makes reads like none.
unfoldable pub covers : Map String ℕ → Map String ℕ → Bool
covers adg_op_cnt [] = true
covers adg_op_cnt ((op, k) ∷ cnt) =
    if ltb (Map.get_or op 0 adg_op_cnt) k then false else covers adg_op_cnt cnt

-- The difference of two sizes, which have no sign and 64 bits.
abbrev pub size_diff : ℕ → ℕ → ℕ
size_diff a b = if ltb a b then (2 ^ 64 + a) - b else a - b

abbrev covered : Map String ℕ → Option (Map String ℕ) → Option Bool
covered adg_op_cnt none = none
covered adg_op_cnt (some cnt) = some (covers adg_op_cnt cnt)

unfoldable pub pre_map_check : Map String ℕ → Adg → Dfg → Option Bool
pre_map_check adg_op_cnt adg dfg =
    let ios = length dfg.io_nodes in
    let others = size_diff (length dfg.nodes) ios in
    if ltb adg.num_iob_nodes ios
    then some false
    else if ltb adg.num_gpe_nodes others
    then some false
    else covered adg_op_cnt (count_dfg_ops dfg.nodes [])
