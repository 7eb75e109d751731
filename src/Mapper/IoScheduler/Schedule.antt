-- ===== src/Mapper/IoScheduler/Schedule.antt =====
-- mapper/io_scheduler.cpp, `ioSchedule`: the input and output nodes of a task get their banks one
-- after the other. `none` is a failed assertion, a null pointer, or a shift or an index out of range.
use fdra.Prelude.{
  ℕ, ◌+◌, ◌-◌, ◌*◌, ◌/◌, ◌%◌, ◌^◌, Bool, not, Option, none, some, List, [], ◌∷◌, ◌==◌, ◌&&◌, ◌||◌,
  if◌then◌else◌, ltb, get_elem?, set, nat_key, string_key, min,
}
use fdra.Prelude.Options.{◌>>=◌}
use fdra.Prelude.Map
use fdra.Prelude.Map.{Map}
use fdra.Prelude.Set
use fdra.Prelude.Set.{Set}
use fdra.Adg.Node as AdgNode
use fdra.Adg.Store as AdgStore
use fdra.Adg.Store.{Adg}
use fdra.Dfg.Store as DfgStore
use fdra.Dfg.Store.{Dfg, get_out_nodes}
use fdra.Mapper.Mapping.{Mapping, mapped_adg_node}
use fdra.Mapper.IoScheduler.{
  SpadBankStatus, DfgIoInfo, ld_dep_ex_last_task, ld_dep_st_last_sec_task, ex_dep_st_last_task,
}
use fdra.Mapper.IoScheduler.Select.{Demand, Bank, Selection, select_bank}
use Prim.Native.String.{String}

-- What the loop needs of one node: its data, and the block that it is mapped to.
pub record Request : Type 0 where
  pub id : ℕ
  pub is_store : Bool
  pub mem_size : ℕ
  pub mem_name : String
  pub iob_idx : ℕ
  pub banks : List ℕ

-- The bytes of a number, `none` for a division by zero later on.
abbrev pub bytes : ℕ → Option ℕ
bytes width = if width / 8 == 0 then none else some (width / 8)

-- Round up to a multiple of the unit.
abbrev pub align : ℕ → ℕ → ℕ
align size unit = (size + unit - 1) / unit * unit

abbrev pub iob_index : AdgNode.Node → Option ℕ
iob_index (AdgNode.gpe n num_rf_reg) = none
iob_index (AdgNode.iob n index) = some index
iob_index (AdgNode.gib n) = none
iob_index (AdgNode.plain n) = none

unfoldable pub request : Adg → Dfg → Mapping → Set ℕ → ℕ → Option Request
request adg dfg m outs id = do
  n ← DfgStore.node id dfg
  io ← n.io
  unit ← bytes adg.cfg_spad_data_width
  iob_id ← mapped_adg_node id m
  iob ← AdgStore.node iob_id adg
  iob_idx ← iob_index iob
  some (record {
    id = id;
    is_store = Set.count id outs;
    mem_size = align io.mem_size unit;
    mem_name = io.mem_ref_name;
    iob_idx = iob_idx;
    banks = Map.get_or iob_idx [] adg.iob_to_spad_banks;
  })

-- The members and locals that the loop changes. `mem_dep` is `memDep`, the dependence cost that an
-- array has caused.
pub record Progress : Type 0 where
  pub cur : List SpadBankStatus
  pub infos : Map ℕ DfgIoInfo
  pub ex_dep : ℕ
  pub iob_ens : ℕ
  pub dep_cost : ℕ
  pub mem_dep : Map String ℕ

-- The status of the banks that the task before and the one before it left, the size of a bank, the
-- bytes of a word, and `inNodeNum`.
pub record Setting : Type 0 where
  pub old : List SpadBankStatus
  pub older : List SpadBankStatus
  pub sizeof_bank : ℕ
  pub data_byte : ℕ
  pub in_node_num : ℕ

-- `availBanks`: the connected banks that no node of this task has.
unfoldable pub avail_banks : Setting → List SpadBankStatus → List ℕ → Option (List Bank)
avail_banks g cur [] = some []
avail_banks g cur (i ∷ banks) = do
  c ← get_elem? cur i
  o ← get_elem? g.old i
  p ← get_elem? g.older i
  rest ← avail_banks g cur banks
  some (if c.used == 0 then record { index = i; old = o; older = p } ∷ rest else rest)

-- `std::min_element`
unfoldable pub min_bank : List ℕ → Option ℕ
min_bank [] = none
min_bank (i ∷ []) = some i
min_bank (i ∷ j ∷ is) = do k ← min_bank (j ∷ is); some (min i k)

-- `ens |= 1 << idx`, where the shift is on a signed 32-bit number.
unfoldable pub enable : ℕ → ℕ → Option ℕ
enable idx ens =
    if ltb idx 31 then some (if ens / (2 ^ idx) % 2 == 1 then ens else ens + 2 ^ idx) else none

-- The cost of a dependence of a load. A store is charged with `ex_dep`, after the loop.
abbrev pub cost_of : ℕ → Bool → ℕ → ℕ
cost_of in_num is_store dep =
    if is_store || dep == 0
    then 0
    else if dep == ld_dep_st_last_sec_task
    then 1
    else if dep == ld_dep_ex_last_task
    then in_num
    else in_num * in_num * in_num

-- The nodes of one array are charged for the most severe dependence only when it is found.
abbrev pub charge : Bool → String → ℕ → Progress → Progress
charge none_due name cost s =
    if none_due || Map.count name s.mem_dep && not (ltb (Map.get_or name 0 s.mem_dep) cost)
    then s
    else record s { mem_dep = Map.insert name cost s.mem_dep; dep_cost = s.dep_cost + cost }

-- The writes at the end of the body.
abbrev pub record_io : Setting → Request → ℕ → Selection → Progress → Progress
record_io g r lowest sel s = record s {
  infos =
      Map.insert r.id
        (record {
          addr = sel.bank.index * g.sizeof_bank + sel.start;
          iob_addr = ((sel.bank.index - lowest) * g.sizeof_bank + sel.start) / g.data_byte;
          dep = sel.dep;
          is_store = r.is_store;
        })
        s.infos;
  cur = set s.cur sel.bank.index (record {
    iob = r.iob_idx;
    used = if r.is_store then 2 else 1;
    start = sel.start;
    end = sel.start + r.mem_size;
  });
  ex_dep = if r.is_store && not (sel.dep == 0) then ex_dep_st_last_task else s.ex_dep;
}

abbrev pub demand : Setting → Request → Demand
demand g r = record { is_store = r.is_store; mem_size = r.mem_size; sizeof_bank = g.sizeof_bank }

-- The body from the choice of the bank on.
unfoldable pub place_io : Setting → Request → ℕ → ℕ → List Bank → Progress → Option Progress
place_io g r lowest ens avail s = do
  sel ← select_bank (demand g r) avail
  some (
      record_io g r lowest sel (
        charge (r.is_store || sel.dep == 0) r.mem_name (cost_of g.in_node_num r.is_store sel.dep)
          (record s { iob_ens = ens })))

-- The body of the loop over the nodes.
unfoldable pub schedule_io : Setting → Request → Progress → Option Progress
schedule_io g r s = do
  ens ← enable r.iob_idx s.iob_ens
  lowest ← min_bank r.banks
  avail ← avail_banks g s.cur r.banks
  place_io g r lowest ens avail s

-- The loop. The nodes come in the order of the two sorts, see `Order`.
unfoldable pub schedule_all :
    Adg → Dfg → Mapping → Set ℕ → Setting → List ℕ → Progress → Option Progress
schedule_all adg dfg m outs g [] s = some s
schedule_all adg dfg m outs g (id ∷ ids) s = do
  r ← request adg dfg m outs id
  s' ← schedule_io g r s
  schedule_all adg dfg m outs g ids s'
