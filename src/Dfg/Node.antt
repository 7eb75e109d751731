-- ===== src/Dfg/Node.antt =====
-- dfg/dfg_node.h and dfg_node.cpp: a node of the data-flow graph extends a graph node. The subclass
-- of the input and output nodes is the optional part `io`: `dynamic_cast<DFGIONode*>` succeeds when
-- it is there.
use fdra.Prelude.{
  ℕ, ◌+◌, Bool, Option, none, some, List, [], ◌∷◌, ◌++◌, if◌then◌else◌, is_some, length,
}
use fdra.Prelude.Int.{ℤ}
use fdra.Graph.Node.{GraphNode}
use fdra.Operations
use fdra.Operations.{OpTable}
use Prim.Native.String.{String}

-- `pattern` holds the nested levels of the access, (stride, cycles).
pub record DfgIoNode : Type 0 where
  pub mem_ref_name : String
  pub mem_offset : ℕ
  pub reduced_mem_offset : ℕ
  pub mem_size : ℕ
  pub pattern : List (ℤ × ℕ)

-- `imm_idx` is `none` for -1, no immediate.
pub record DfgNode : Type 0 where
  pub graph_node : GraphNode
  pub open graph_node use *
  pub operation : String
  pub op_latency : ℤ
  pub commutative : Bool
  pub imm : ℕ
  pub imm_idx : Option ℕ
  pub accumulative : Bool
  pub is_acc_first : Bool
  pub init_val : ℕ
  pub cycles : ℕ
  pub interval : ℕ
  pub repeats : ℕ
  pub io : Option DfgIoNode

-- `none` is `exit(1)`: the operation is not supported.
unfoldable pub set_operation : OpTable → String → DfgNode → Option DfgNode
set_operation table op n =
    if Operations.op_capable table op
    then some (record n {
      operation = op;
      op_latency = Operations.latency table op;
      commutative = Operations.is_commutative table op;
      accumulative = Operations.is_accumulative table op;
    })
    else none

unfoldable pub has_imm : DfgNode → Bool
has_imm n = is_some n.imm_idx

-- The immediate counts as an input.
unfoldable pub num_inputs : DfgNode → ℕ
unfolding has_imm
num_inputs n = if has_imm n then length n.inputs + 1 else length n.inputs

unfoldable pub get_nested_levels : DfgIoNode → ℕ
get_nested_levels n = length n.pattern

pub add_pattern_level : ℤ → ℕ → DfgIoNode → DfgIoNode
add_pattern_level stride cycles n = record n { pattern = n.pattern ++ (stride, cycles) ∷ [] }
