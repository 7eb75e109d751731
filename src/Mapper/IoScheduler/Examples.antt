-- ===== src/Mapper/IoScheduler/Examples.antt =====
-- A task with one load and one store, on a scratchpad of two banks of 1024 bytes that both blocks
-- reach. The task before has loaded to bank 0.
use fdra.Prelude.{
  ℕ, suc, zero, ◌+◌, ◌≤◌, ◌≡◌, ◌⊎◌, true, false, none, some, List, [], ◌∷◌, refl, arith, or_else,
  is_some, nat_key,
}
use fdra.Prelude.Int.{pos}
use fdra.Prelude.Map
use fdra.Prelude.Set
use fdra.Graph.Node.{GraphNode}
use fdra.Adg.Node.{FuNode, iob}
use fdra.Adg.Store as AdgStore
use fdra.Adg.Store.{Adg}
use fdra.Dfg.Node.{DfgNode}
use fdra.Dfg.Store as DfgStore
use fdra.Dfg.Store.{Dfg, get_out_nodes, select_io}
use fdra.Mapper.Mapping.{Mapping, mapped_adg_node}
use fdra.Mapper.IoScheduler.{SpadBankStatus, DfgIoInfo}
use fdra.Mapper.IoScheduler.Select.{
  Demand, Bank, Selection, select_bank, bank_status, find_free, check_old_free, find_old_free,
  find_old_load, first_bank, old_status, older_status,
}
use fdra.Mapper.IoScheduler.Best.{IsBest, select_bank-IsBest}
use fdra.Mapper.IoScheduler.Schedule.{
  Request, Setting, Progress, request, enable, min_bank, avail_banks, schedule_io, place_io,
  schedule_all,
}
use fdra.Mapper.IoScheduler.Disjoint.{IsScheduled}
use fdra.Mapper.IoScheduler.Task.{
  IoScheduler, new_io_scheduler, io_schedule, setting, start_progress, sorted_io_nodes, io_entries,
  ranks_before, count_names,
}
use fdra.Mapper.IoScheduler.Whole.{
  IsAdded, need, outcome, start-IsScheduled, schedule_io-IsScheduled, io_schedule-IsScheduled,
}
use fdra.Mapper.IoScheduler.Complete.{io_schedule_complete}
use fdra.Mapper.IoScheduler.Apart.{io_schedule-apart}
use fdra.Mapper.IoScheduler.Config.{IsCfgPlaced, place_cfg, place_cfg-IsCfgPlaced}
use Prim.Native.String.{String}

abbrev unit_node : ℕ → GraphNode
unit_node id = record {
  id = id;
  name = "unit";
  type = "unit";
  bit_width = 32;
  inputs = [];
  outputs = [];
  input_edges = [];
  output_edges = [];
}

abbrev block : ℕ → FuNode
block id = record {
  adg_node = record { graph_node = unit_node id; cfg_blk_idx = 0; x = 0; y = 0; config_infos = [] };
  max_delay = 4;
  num_operands = 1;
  operations = "INPUT" ∷ "OUTPUT" ∷ [];
  operand_ports = [];
  cfg_id_map = [];
}

abbrev small_adg : Adg
small_adg = record {
  graph = record {
    id = 0;
    bit_width = 32;
    input_names = [];
    output_names = [];
    inputs = [];
    outputs = [];
    input_edges = [];
    output_edges = [];
  };
  num_gpe_nodes = 0;
  num_iob_nodes = 2;
  cfg_data_width = 64;
  cfg_addr_width = 16;
  cfg_blk_offset = 0;
  cfg_spad_data_width = 64;
  cfg_spad_size = 512;
  iob_ag_nest_levels = 3;
  iob_spad_bank_size = 1024;
  iob_to_spad_banks = (0, 0 ∷ 1 ∷ []) ∷ (1, 0 ∷ 1 ∷ []) ∷ [];
  nodes = (5, iob (block 5) 0) ∷ (6, iob (block 6) 1) ∷ [];
  edges = [];
}

abbrev io_node : ℕ → String → ℕ → DfgNode
io_node id op size = record {
  graph_node = unit_node id;
  operation = op;
  op_latency = pos 1;
  commutative = false;
  imm = 0;
  imm_idx = none;
  accumulative = false;
  is_acc_first = false;
  init_val = 0;
  cycles = 1;
  interval = 1;
  repeats = 1;
  io = some (record {
    mem_ref_name = "a";
    mem_offset = 0;
    reduced_mem_offset = 0;
    mem_size = size;
    pattern = [];
  });
}

abbrev copy_dfg : Dfg
copy_dfg = record {
  graph = record small_adg.graph { id = 9 };
  nodes = (1, io_node 1 "INPUT" 1000) ∷ (2, io_node 2 "OUTPUT" 60) ∷ [];
  edges = [];
  io_nodes = 1 ∷ 2 ∷ [];
  topo_nodes = [];
}

abbrev copy_mapping : Mapping
copy_mapping = record {
  total_violation = pos 0;
  max_violation = pos 0;
  max_lat = pos 0;
  max_lat_node_id = 0;
  num_node_mapped = 2;
  dfg_node_attrs =
      (1, record { min_lat = pos 0; max_lat = pos 0; lat = pos 0; adg_node = some 5 })
      ∷ (2, record { min_lat = pos 0; max_lat = pos 0; lat = pos 0; adg_node = some 6 })
      ∷ [];
  dfg_edge_attrs = [];
  adg_node_attrs = [];
  fu_delay_attrs = [];
  vio_dfg_edges = [];
}

abbrev loaded : SpadBankStatus
loaded = record { iob = 0; used = 1; start = 0; end = 64 }

abbrev unused_bank : SpadBankStatus
unused_bank = record { iob = 0; used = 0; start = 0; end = 0 }

abbrev before : IoScheduler
before = record (new_io_scheduler small_adg) {
  old_bank_status = loaded ∷ unused_bank ∷ [];
  older_bank_status = unused_bank ∷ unused_bank ∷ [];
}

abbrev after : IoScheduler
after = or_else before (io_schedule small_adg copy_dfg copy_mapping before)

abbrev load_demand : Demand
load_demand = record { is_store = false; mem_size = 1000; sizeof_bank = 1024 }

abbrev bank_0 : Bank
bank_0 = record { index = 0; old = loaded; older = unused_bank }

select_bank-IsBest_example :
    (s : Selection) × (select_bank load_demand (bank_0 ∷ []) ≡ some s)
    × IsBest load_demand (bank_0 ∷ []) s
select_bank-IsBest_example = select_bank-IsBest load_demand bank_0 [] (omega arith)

outs_found : get_out_nodes copy_dfg ≡ some (2 ∷ [])
unfolding get_out_nodes select_io
outs_found = refl

all_fit :
    (id : ℕ) (r : Request)
    → request small_adg copy_dfg copy_mapping (2 ∷ []) id ≡ some r
    → r.mem_size ≤ 1024
unfolding request DfgStore.node AdgStore.node mapped_adg_node
all_fit zero r h = ground arith
all_fit (suc zero) r h = ground arith
all_fit (suc (suc zero)) r h = ground arith
all_fit (suc (suc (suc id))) r h = ground arith

scheduled : io_schedule small_adg copy_dfg copy_mapping before ≡ some after
unfolding io_schedule new_io_scheduler get_out_nodes select_io sorted_io_nodes io_entries
    schedule_all ranks_before request mapped_adg_node AdgStore.node DfgStore.node schedule_io enable
    min_bank avail_banks place_io select_bank find_free bank_status check_old_free find_old_free
    find_old_load first_bank old_status older_status count_names
scheduled = refl

io_schedule-IsScheduled_example :
    IsScheduled
      (need small_adg copy_dfg copy_mapping (2 ∷ []))
      (setting small_adg copy_dfg (2 ∷ []) 4 before)
      (outcome after)
io_schedule-IsScheduled_example =
    io_schedule-IsScheduled small_adg copy_dfg copy_mapping (2 ∷ []) 4 before after outs_found refl
      all_fit scheduled

abbrev first_request : Request
first_request = record {
  id = 1;
  is_store = false;
  mem_size = 1000;
  mem_name = "a";
  iob_idx = 0;
  banks = 0 ∷ 1 ∷ [];
}

abbrev first_setting : Setting
first_setting = setting small_adg copy_dfg (2 ∷ []) 4 before

abbrev both_banks : List Bank
both_banks =
    record { index = 0; old = loaded; older = unused_bank }
    ∷ record { index = 1; old = unused_bank; older = unused_bank }
    ∷ []

enabled : enable 0 0 ≡ some 1
unfolding enable
enabled = refl

lowest_found : min_bank (0 ∷ 1 ∷ []) ≡ some 0
unfolding min_bank
lowest_found = refl

both_free : avail_banks first_setting (start_progress small_adg).cur (0 ∷ 1 ∷ []) ≡ some both_banks
unfolding avail_banks new_io_scheduler
both_free = refl

schedule_io-IsScheduled_example :
    (s' : Progress) × (schedule_io first_setting first_request (start_progress small_adg) ≡ some s')
    × IsScheduled (λ id. 1000) first_setting s'
    × IsAdded first_setting first_request both_banks 1 (start_progress small_adg) s'
schedule_io-IsScheduled_example =
    schedule_io-IsScheduled (λ id. 1000) first_setting first_request refl (omega arith)
      (start_progress small_adg) 1 0 bank_0
      (record { index = 1; old = unused_bank; older = unused_bank } ∷ [])
      (start-IsScheduled (λ id. 1000) first_setting small_adg) enabled lowest_found both_free

abbrev load_info : DfgIoInfo
load_info = record { addr = 1024; iob_addr = 256; dep = 0; is_store = false }

abbrev store_info : DfgIoInfo
store_info = record { addr = 0; iob_addr = 0; dep = 0; is_store = true }

load_placed : Map.lookup 1 after.dfg_io_infos ≡ some load_info
unfolding io_schedule new_io_scheduler get_out_nodes select_io sorted_io_nodes io_entries
    schedule_all ranks_before request mapped_adg_node AdgStore.node DfgStore.node schedule_io enable
    min_bank avail_banks place_io select_bank find_free bank_status check_old_free find_old_free
    find_old_load first_bank old_status older_status count_names
load_placed = refl

store_placed : Map.lookup 2 after.dfg_io_infos ≡ some store_info
unfolding io_schedule new_io_scheduler get_out_nodes select_io sorted_io_nodes io_entries
    schedule_all ranks_before request mapped_adg_node AdgStore.node DfgStore.node schedule_io enable
    min_bank avail_banks place_io select_bank find_free bank_status check_old_free find_old_free
    find_old_load first_bank old_status older_status count_names
store_placed = refl

abbrev load_request : Request
load_request = record {
  id = 1;
  is_store = false;
  mem_size = 1000;
  mem_name = "a";
  iob_idx = 0;
  banks = 0 ∷ 1 ∷ [];
}

abbrev store_request : Request
store_request = record {
  id = 2;
  is_store = true;
  mem_size = 64;
  mem_name = "a";
  iob_idx = 1;
  banks = 0 ∷ 1 ∷ [];
}

load_requested : request small_adg copy_dfg copy_mapping (2 ∷ []) 1 ≡ some load_request
unfolding request AdgStore.node DfgStore.node mapped_adg_node
load_requested = refl

store_requested : request small_adg copy_dfg copy_mapping (2 ∷ []) 2 ≡ some store_request
unfolding request AdgStore.node DfgStore.node mapped_adg_node
store_requested = refl

io_schedule-apart_example : (1024 + 1000 ≤ 0) ⊎ (0 + 64 ≤ 1024)
io_schedule-apart_example =
    io_schedule-apart small_adg copy_dfg copy_mapping (2 ∷ []) 4 before after 1 2 load_info
      store_info load_request store_request outs_found refl all_fit scheduled load_placed
      store_placed load_requested store_requested (λ e. absurd (omega arith))

place_cfg-IsCfgPlaced_example :
    (s' : IoScheduler) × (place_cfg small_adg 12 after ≡ some s') × IsCfgPlaced 512 after s'
unfolding io_schedule new_io_scheduler get_out_nodes select_io sorted_io_nodes io_entries
    schedule_all ranks_before request mapped_adg_node AdgStore.node DfgStore.node schedule_io enable
    min_bank avail_banks place_io select_bank find_free bank_status check_old_free find_old_free
    find_old_load first_bank old_status older_status count_names
place_cfg-IsCfgPlaced_example =
    place_cfg-IsCfgPlaced small_adg 12 after
      (record { ordered = omega arith; inside = omega arith }) 8 refl refl refl (omega arith)

io_schedule_complete_example :
    is_some (Map.lookup 2 after.dfg_io_infos) ≡ Set.count 2 copy_dfg.io_nodes
io_schedule_complete_example =
    io_schedule_complete small_adg copy_dfg copy_mapping before after 2 scheduled
