-- ===== src/Mapper/IoScheduler/Task.antt =====
-- mapper/io_scheduler.cpp: the state of the scheduler, the order of the nodes, and one task after
-- the other.
use fdra.Prelude.{
  ℕ, ◌+◌, ◌-◌, ◌*◌, Bool, true, false, not, ◌&&◌, Option, some, List, [], ◌∷◌, ◌==◌, if◌then◌else◌,
  ltb, replicate, length, map, nat_key, string_key,
}
use fdra.Prelude.Options.{◌>>=◌}
use fdra.Prelude.Map
use fdra.Prelude.Map.{Map}
use fdra.Prelude.Set
use fdra.Prelude.Set.{Set}
use fdra.Adg.Store.{Adg}
use fdra.Dfg.Node.{DfgIoNode}
use fdra.Dfg.Store as DfgStore
use fdra.Dfg.Store.{Dfg, get_out_nodes}
use fdra.Mapper.Mapping.{Mapping}
use fdra.Mapper.IoScheduler.{SpadBankStatus, SpadCfgStatus, DfgIoInfo, no_bank_status}
use fdra.Mapper.IoScheduler.Schedule.{Progress, Setting, bytes, schedule_all}
use Prim.Native.String.{String}

-- The members of `IOScheduler` but for the graph, which the operations take.
pub record IoScheduler : Type 0 where
  pub task_id : ℕ
  pub cur_bank_status : List SpadBankStatus
  pub old_bank_status : List SpadBankStatus
  pub older_bank_status : List SpadBankStatus
  pub old_cfg_status : SpadCfgStatus
  pub dfg_io_infos : Map ℕ DfgIoInfo
  pub cfg_num : ℕ
  pub cfg_len : ℕ
  pub ld_cfg_dep : ℕ
  pub ex_dep : ℕ
  pub iob_ens : ℕ
  pub dep_cost : ℕ

-- The constructor. The members that it leaves uninitialised start as 0.
unfoldable pub new_io_scheduler : Adg → IoScheduler
new_io_scheduler adg =
    let free = replicate adg.num_iob_nodes no_bank_status in
    record {
      task_id = 0;
      cur_bank_status = free;
      old_bank_status = free;
      older_bank_status = free;
      old_cfg_status = record { start = 0; end = 0 };
      dfg_io_infos = [];
      cfg_num = 0;
      cfg_len = 0;
      ld_cfg_dep = 0;
      ex_dep = 0;
      iob_ens = 0;
      dep_cost = 0;
    }

-- A node with its part for input and output, which the sorts read.
abbrev pub IoEntry : Type 0
IoEntry = ℕ × DfgIoNode

unfoldable pub io_entries : Dfg → List ℕ → Option (List IoEntry)
io_entries dfg [] = some []
io_entries dfg (id ∷ ids) = do
  n ← DfgStore.node id dfg
  io ← n.io
  rest ← io_entries dfg ids
  some ((id, io) ∷ rest)

-- `memNum`: how many nodes access each array.
unfoldable pub count_names : List IoEntry → Map String ℕ → Map String ℕ
count_names [] nums = nums
count_names ((id, io) ∷ rest) nums = count_names rest (
    if Map.count io.mem_ref_name nums
    then Map.update io.mem_ref_name 0 (λ k. k + 1) nums
    else Map.insert io.mem_ref_name 1 nums)

-- The comparison of the first sort.
unfoldable pub ranks_before : Map String ℕ → IoEntry → IoEntry → Bool
ranks_before nums (id_a, a) (id_b, b) =
    let num_a = Map.get_or a.mem_ref_name 0 nums in
    let num_b = Map.get_or b.mem_ref_name 0 nums in
    if ltb b.mem_size a.mem_size
    then true
    else if a.mem_size == b.mem_size
    then (if ltb num_a num_b
        then true
        else num_a == num_b && string_key.blt a.mem_ref_name b.mem_ref_name)
    else false

-- `std::sort` and `std::stable_sort`, of which the first may also swap nodes of which neither ranks
-- before the other.
abbrev pub insert_by {ℓ} : {A : Type ℓ} → (A → A → Bool) → A → List A → List A
insert_by lt x [] = x ∷ []
insert_by lt x (y ∷ ys) = if lt y x then y ∷ insert_by lt x ys else x ∷ y ∷ ys

abbrev pub sort_by {ℓ} : {A : Type ℓ} → (A → A → Bool) → List A → List A
sort_by lt [] = []
sort_by lt (x ∷ xs) = insert_by lt x (sort_by lt xs)

-- The comparison of the second sort: inputs rank before outputs.
abbrev pub input_before : Set ℕ → IoEntry → IoEntry → Bool
input_before outs (id_a, a) (id_b, b) = not (Set.count id_a outs) && Set.count id_b outs

unfoldable pub sorted_io_nodes : Dfg → Set ℕ → Option (List ℕ)
sorted_io_nodes dfg outs = do
  entries ← io_entries dfg dfg.io_nodes
  some (
      map (λ (id, io). id)
        (sort_by (input_before outs) (sort_by (ranks_before (count_names entries [])) entries)))

abbrev pub start_progress : Adg → Progress
start_progress adg = record {
  cur = replicate adg.num_iob_nodes no_bank_status;
  infos = [];
  ex_dep = 0;
  iob_ens = 0;
  dep_cost = 0;
  mem_dep = [];
}

-- What the loop reads of the scheduler and of the graphs.
abbrev pub setting : Adg → Dfg → Set ℕ → ℕ → IoScheduler → Setting
setting adg dfg outs data_byte s = record {
  old = s.old_bank_status;
  older = s.older_bank_status;
  sizeof_bank = adg.iob_spad_bank_size;
  data_byte = data_byte;
  in_node_num = length dfg.io_nodes - length outs;
}

-- The members after the loop.
abbrev pub conclude : Setting → IoScheduler → Progress → IoScheduler
conclude g s p = record s {
  cur_bank_status = p.cur;
  dfg_io_infos = p.infos;
  ex_dep = p.ex_dep;
  iob_ens = p.iob_ens;
  dep_cost = if ltb 0 p.ex_dep then p.dep_cost + g.in_node_num * g.in_node_num else p.dep_cost;
}

unfoldable pub io_schedule : Adg → Dfg → Mapping → IoScheduler → Option IoScheduler
io_schedule adg dfg m s = do
  outs ← get_out_nodes dfg
  data_byte ← bytes adg.bit_width
  ids ← sorted_io_nodes dfg outs
  let g = setting adg dfg outs data_byte s
  p ← schedule_all adg dfg m outs g ids (start_progress adg)
  some (conclude g s p)

-- The rotation of `execute`: the task becomes the last one.
unfoldable pub rotate : IoScheduler → IoScheduler
rotate s = record s { older_bank_status = s.old_bank_status; old_bank_status = s.cur_bank_status }
