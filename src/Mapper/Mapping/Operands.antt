-- ===== src/Mapper/Mapping/Operands.antt =====
-- mapper/mapping.cpp, `availDstPorts`: the input ports of a unit at which an edge can end.
pub mod Offers
use fdra.Prelude.{
  ℕ, zero, suc, ◌<◌, Bool, true, false, not, ◌&&◌, ◌||◌, Option, some, List, [], ◌∷◌, ◌≡◌, refl,
  if◌then◌else◌, ◌+◌, ◌==◌, leb, ltb, ◌↔◌, inl, inr, Bool-cases, nat_key, arith, get_or, get_elem?,
  length,
}
use mathlib.Core.Path.{subst}
use fdra.Prelude.Options.{◌>>=◌}
use fdra.Prelude.Set
use fdra.Prelude.Set.{Set}
use fdra.Graph.Edge.{GraphEdge}
use fdra.Adg.Node.{FuNode, operand_inputs}
use fdra.Dfg.Node as DfgNode
use fdra.Mapper.Mapping.{Mapping, is_adg_node_in_port_used}

-- The numbers from `i` on.
abbrev pub from : ℕ → ℕ → List ℕ
from zero i = []
from (suc k) i = i ∷ from k (suc i)

-- `opIdxs`: all operands of a commutative operation, else the one of the edge.
unfoldable pub op_idxs : DfgNode.DfgNode → GraphEdge → List ℕ
op_idxs n e = if n.commutative then from (DfgNode.num_inputs n) 0 else e.dst_port_idx ∷ []

-- `operandUsed`
unfoldable pub operand_used : ℕ → List ℕ → Mapping → Bool
operand_used id [] m = false
operand_used id (p ∷ ports) m =
    let rest = operand_used id ports m in
    if is_adg_node_in_port_used id (some p) m then true else rest

abbrev pub emplace_all : List ℕ → Set ℕ → Set ℕ
emplace_all [] set = set
emplace_all (p ∷ ports) set = emplace_all ports (Set.emplace p set)

-- The loop over the operands. `none` is an operand that the unit lacks.
unfoldable pub select_ports : Mapping → FuNode → List ℕ → Set ℕ → Option (Set ℕ)
select_ports m fu [] range = some range
select_ports m fu (ope ∷ opes) range = do
  ports ← operand_inputs ope fu
  select_ports m fu opes (if operand_used fu.id ports m then range else emplace_all ports range)

unfoldable pub avail_dst_ports : Mapping → DfgNode.DfgNode → FuNode → GraphEdge → Option (Set ℕ)
avail_dst_ports m n fu e = select_ports m fu (op_idxs n e) []
