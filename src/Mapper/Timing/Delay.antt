-- ===== src/Mapper/Timing/Delay.antt =====
-- mapper/mapping.cpp, `getAvailDelay`: the delay cycles that a unit has left for one input.
use fdra.Prelude.{ℕ, suc, ◌-◌, ◌/◌, max, none, some, [], ◌==◌, if◌then◌else◌, ltb, length, nat_key}
use fdra.Prelude.Int.{ℤ, pos, negsuc, ◌-ℤ◌}
use fdra.Prelude.Map
use fdra.Adg.Node.{FuNode}
use fdra.Dfg.Node.{DfgNode}
use fdra.Mapper.Mapping.{Mapping, FuDelayAttr}

-- Division of integers, which drops the fraction.
abbrev pub quot : ℤ → ℕ → ℤ
quot (pos n) k = pos (n / k)
quot (negsuc n) k = pos 0 -ℤ pos (suc n / k)

abbrev pub new_fu_delay : FuDelayAttr
new_fu_delay = record { total_delay_used = pos 0; delay_used = [] }

-- With more delays in use than operands the difference is negative in the source, and 0 here: the
-- maximum with 1 is the same.
unfoldable pub get_avail_delay : FuNode → DfgNode → Mapping → ℤ
get_avail_delay fu n m =
    let num_op = length n.inputs in
    if ltb fu.num_operands 2
    then pos 0
    else if num_op == 0
    then pos 0
    else elim (Map.lookup fu.id m.fu_delay_attrs) [
      | some attr ↦
          quot (pos fu.max_delay -ℤ attr.total_delay_used) (max (num_op - length attr.delay_used) 1)
      | none ↦ pos (fu.max_delay / num_op)
    ]
