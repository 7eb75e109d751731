-- ===== src/Adg/Examples.antt =====
-- An interconnect block with two inputs and two outputs, and a functional unit with two operands.
use fdra.Prelude.{ℕ, false, [], ◌∷◌, ◌≡◌, ◌||◌, ◌&&◌, List, nat_key}
use fdra.Prelude.Set
use fdra.Adg.Node.{
  AdgNode, FuNode, GibNode, in2outs, is_in_out_connected, has_ports, get_operand_idx,
}
use fdra.Adg.Connect.{connect_all, listed, connect_all-connected}
use fdra.Adg.Operand.{FindsFirst, get_operand_idx-FindsFirst}

abbrev block : AdgNode
block = record {
  graph_node = record {
    id = 4;
    name = "block";
    type = "GIB";
    bit_width = 32;
    inputs = (0, (1, 0)) ∷ (1, (2, 0)) ∷ [];
    outputs = (0, (3, 0) ∷ []) ∷ (1, (5, 0) ∷ []) ∷ [];
    input_edges = [];
    output_edges = [];
  };
  cfg_blk_idx = 0;
  x = 0;
  y = 0;
  config_infos = [];
}

abbrev gib_node : GibNode
gib_node = record {
  adg_node = block;
  track_reged = false;
  out_regs = [];
  outs_to_ins = [];
  ins_to_outs = [];
}

abbrev fu_node : FuNode
fu_node = record {
  adg_node = block;
  max_delay = 4;
  num_operands = 2;
  operations = "ADD" ∷ [];
  operand_ports = (0 ∷ []) ∷ (0 ∷ 1 ∷ []) ∷ [];
  cfg_id_map = [];
}

abbrev crossing : List (ℕ × ℕ)
crossing = (0, 1) ∷ (1, 0) ∷ (7, 0) ∷ []

connect_all-connected_example :
    (is_in_out_connected 0 1 (connect_all crossing gib_node)
      ≡ ((has_ports 0 1 gib_node && listed 0 1 crossing) || is_in_out_connected 0 1 gib_node))
    × (Set.count 1 (in2outs 0 (connect_all crossing gib_node))
        ≡ ((has_ports 0 1 gib_node && listed 0 1 crossing) || Set.count 1 (in2outs 0 gib_node)))
connect_all-connected_example = connect_all-connected 0 1 crossing gib_node

get_operand_idx-FindsFirst_example :
    FindsFirst 1 fu_node.operand_ports 0 2 (get_operand_idx 1 fu_node)
get_operand_idx-FindsFirst_example = get_operand_idx-FindsFirst 1 fu_node
