-- ===== src/Adg/Node.antt =====
-- adg/adg_node.h and adg_node.cpp: the nodes of the architecture graph. A functional unit (FU) is a
-- processing element (GPE) or an input/output block (IOB); an interconnect block (GIB) routes. The
-- class hierarchy is the chain of records and the data type `Node`; a `dynamic_cast` is a match.
use fdra.Prelude.{
  ℕ, zero, suc, ◌-◌, Bool, true, false, ◌&&◌, Option, none, some, List, [], ◌∷◌, ◌++◌, ◌==◌, ltb,
  if◌then◌else◌, length, take, replicate, set, get_elem?, nat_key, string_key,
}
use fdra.Prelude.Map
use fdra.Prelude.Map.{Map}
use fdra.Prelude.Set
use fdra.Prelude.Set.{Set}
use fdra.Prelude.Table
use fdra.Graph.Node.{GraphNode}
use Prim.Native.String.{String}

-- The bits from `low` to `high` of a configuration.
pub record CfgDataLoc : Type 0 where
  pub low : ℕ
  pub high : ℕ

pub record AdgNode : Type 0 where
  pub graph_node : GraphNode
  pub open graph_node use *
  pub cfg_blk_idx : ℕ
  pub x : ℕ
  pub y : ℕ
  pub config_infos : Map ℕ CfgDataLoc

-- `none` is the failed assertion that the sub-module has an entry.
unfoldable pub config_info : ℕ → AdgNode → Option CfgDataLoc
config_info id n = Map.lookup id n.config_infos

unfoldable pub add_config_info : ℕ → CfgDataLoc → AdgNode → AdgNode
add_config_info id loc n = record n { config_infos = Map.insert id loc n.config_infos }

-- `operand_ports` is `_operandInputs`, the input ports that lead to each operand.
pub record FuNode : Type 0 where
  pub adg_node : AdgNode
  pub open adg_node use *
  pub max_delay : ℕ
  pub num_operands : ℕ
  pub operations : Set String
  pub operand_ports : List (Set ℕ)
  pub cfg_id_map : Map String ℕ

unfoldable pub add_operation : String → FuNode → FuNode
add_operation op n = record n { operations = Set.emplace op n.operations }

unfoldable pub del_operation : String → FuNode → FuNode
del_operation op n = record n { operations = Set.erase op n.operations }

unfoldable pub op_capable : String → FuNode → Bool
op_capable op n = Set.count op n.operations

-- `std::vector::resize`: cut off at the end, or filled up with empty sets.
abbrev pub resize : ℕ → List (Set ℕ) → List (Set ℕ)
resize k sets = take k sets ++ replicate (k - length sets) []

unfoldable pub set_num_operands : ℕ → FuNode → FuNode
set_num_operands k n = record n { num_operands = k; operand_ports = resize k n.operand_ports }

-- `none` is the failed assertion that the operand is in range; so in the next functions.
unfoldable pub operand_inputs : ℕ → FuNode → Option (Set ℕ)
operand_inputs ope n = get_elem? n.operand_ports ope

abbrev pub has_input : ℕ → FuNode → Bool
has_input input n = Map.count input n.inputs

unfoldable pub add_operand_input : ℕ → ℕ → FuNode → Option FuNode
add_operand_input ope input n = elim (get_elem? n.operand_ports ope) [
  | none ↦ none
  | some ports ↦ some (
      if has_input input n
      then record n { operand_ports = set n.operand_ports ope (Set.emplace input ports) }
      else n)
]

unfoldable pub del_operand_input : ℕ → ℕ → FuNode → Option FuNode
del_operand_input ope input n = elim (get_elem? n.operand_ports ope) [
  | none ↦ none
  | some ports ↦ some (
      if has_input input n
      then record n { operand_ports = set n.operand_ports ope (Set.erase input ports) }
      else n)
]

-- The overload `addOperandInputs(int, std::set<int>)`, which replaces the set.
unfoldable pub add_operand_inputs : ℕ → Set ℕ → FuNode → Option FuNode
add_operand_inputs ope inputs n =
    if ltb ope (length n.operand_ports)
    then some (record n { operand_ports = set n.operand_ports ope inputs })
    else none

-- The loop of `getOperandIdx` over `rounds` operands from operand `i` on. Its answer -1 is `some none`;
-- `none` is a read beyond the end of `_operandInputs`, which is shorter than `_numOperands` until
-- `setNumOperands` gives it that size.
unfoldable pub find_operand : ℕ → ℕ → ℕ → List (Set ℕ) → Option (Option ℕ)
find_operand zero i input sets = some none
find_operand (suc rounds) i input sets =
    let rest = find_operand rounds (suc i) input sets in
    elim (get_elem? sets i) [
      | none ↦ none
      | some ports ↦ if Set.count input ports then some (some i) else rest
    ]

unfoldable pub get_operand_idx : ℕ → FuNode → Option (Option ℕ)
get_operand_idx input n = find_operand n.num_operands 0 input n.operand_ports

pub record GibNode : Type 0 where
  pub adg_node : AdgNode
  pub open adg_node use *
  pub track_reged : Bool
  pub out_regs : Map ℕ Bool
  pub outs_to_ins : Map ℕ (Set ℕ)
  pub ins_to_outs : Map ℕ (Set ℕ)

unfoldable pub out_reged : ℕ → GibNode → Bool
out_reged idx n = Map.get_or idx false n.out_regs

unfoldable pub set_out_reged : ℕ → Bool → GibNode → GibNode
set_out_reged idx reged n = record n { out_regs = Map.insert idx reged n.out_regs }

unfoldable pub out2ins : ℕ → GibNode → Set ℕ
out2ins out_port n = Map.get_or out_port [] n.outs_to_ins

unfoldable pub in2outs : ℕ → GibNode → Set ℕ
in2outs in_port n = Map.get_or in_port [] n.ins_to_outs

abbrev pub has_ports : ℕ → ℕ → GibNode → Bool
has_ports in_port out_port n = Map.count in_port n.inputs && Map.count out_port n.outputs

unfoldable pub add_out2ins : ℕ → ℕ → GibNode → GibNode
add_out2ins out_port in_port n =
    if has_ports in_port out_port n
    then record n { outs_to_ins = Table.emplace out_port in_port n.outs_to_ins }
    else n

unfoldable pub add_in2outs : ℕ → ℕ → GibNode → GibNode
add_in2outs in_port out_port n =
    if has_ports in_port out_port n
    then record n { ins_to_outs = Table.emplace in_port out_port n.ins_to_outs }
    else n

-- The loop of `isInOutConnected`.
unfoldable pub any_equal : ℕ → List ℕ → Bool
any_equal in_port [] = false
any_equal in_port (i ∷ ins) = if i == in_port then true else any_equal in_port ins

unfoldable pub is_in_out_connected : ℕ → ℕ → GibNode → Bool
is_in_out_connected in_port out_port n = elim (Map.lookup out_port n.outs_to_ins) [
  | none ↦ false
  | some ins ↦ any_equal in_port ins
]

pub data Node : Type 0 where
  -- `num_rf_reg` is the number of registers of the element.
  gpe : FuNode → ℕ → Node
  -- The index among the blocks.
  iob : FuNode → ℕ → Node
  gib : GibNode → Node
  plain : AdgNode → Node

abbrev pub base : Node → AdgNode
base (gpe n num_rf_reg) = n.adg_node
base (iob n index) = n.adg_node
base (gib n) = n.adg_node
base (plain n) = n

abbrev pub set_base : AdgNode → Node → Node
set_base a (gpe n num_rf_reg) = gpe (record n { adg_node = a }) num_rf_reg
set_base a (iob n index) = iob (record n { adg_node = a }) index
set_base a (gib n) = gib (record n { adg_node = a })
set_base a (plain n) = plain a

-- `dynamic_cast<FUNode*>` and `dynamic_cast<GIBNode*>`.
abbrev pub as_fu : Node → Option FuNode
as_fu (gpe n num_rf_reg) = some n
as_fu (iob n index) = some n
as_fu (gib n) = none
as_fu (plain n) = none

abbrev pub as_gib : Node → Option GibNode
as_gib (gpe n num_rf_reg) = none
as_gib (iob n index) = none
as_gib (gib n) = some n
as_gib (plain n) = none
