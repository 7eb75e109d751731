-- ===== src/Mapper/IoScheduler/Select.antt =====
-- mapper/io_scheduler.cpp, `ioSchedule`, the part of the loop over the nodes that chooses a bank:
-- first one that both tasks before leave free, else one with the least dependence.
use fdra.Prelude.{
  ℕ, ◌+◌, Bool, not, ◌&&◌, ◌||◌, Option, none, some, List, [], ◌∷◌, ◌==◌, if◌then◌else◌, leb, ltb,
}
use fdra.Mapper.IoScheduler.{
  SpadBankStatus, ld_dep_st_last_task, ld_dep_ex_last_task, ld_dep_st_last_sec_task,
  ex_dep_st_last_task,
}

-- The data of a node, `isStore` and the aligned `memSize`, and the size of a bank.
pub record Demand : Type 0 where
  pub is_store : Bool
  pub mem_size : ℕ
  pub sizeof_bank : ℕ

-- A status and a start address. The statuses of one task: 0 free, 1 used but available, 2 not
-- available.
pub record StatusAt : Type 0 where
  pub status : ℕ
  pub start : ℕ

abbrev pub at : ℕ → ℕ → StatusAt
at s a = record { status = s; start = a }

-- `oldStatus` and `oldSelStart`. The test `memSize <= sizeofBank - oldEnd` is on signed numbers.
unfoldable pub old_status : Demand → SpadBankStatus → StatusAt
old_status d old =
    if old.used == 0
    then at 0 0
    else if (old.used == 1 && not d.is_store) || (old.used == 2 && d.is_store)
    then (if leb (d.mem_size + old.end) d.sizeof_bank
        then at 1 old.end
        else if leb d.mem_size old.start
        then at 1 0
        else at 2 0)
    else if old.used == 1 && d.is_store
    then at 0 0
    else at 2 0

-- `olderStatus` and `olderSelStart`.
unfoldable pub older_status : Demand → SpadBankStatus → StatusAt
older_status d older = if older.used == 2 && not d.is_store then at 2 0 else at 0 0

-- `status` and `selStart`: 0 both available, 1 old available, 2 older available, 3 neither.
unfoldable pub bank_status : Demand → SpadBankStatus → SpadBankStatus → StatusAt
bank_status d old older =
    let o = old_status d old in
    let p = older_status d older in
    if ltb o.status 2 && p.status == 0
    then at 0 o.start
    else if ltb o.status 2 && p.status == 2
    then at 1 o.start
    else if o.status == 2 && p.status == 0
    then at 2 p.start
    else at 3 0

-- A bank with what the two tasks before left there; the vectors are read with it.
pub record Bank : Type 0 where
  pub index : ℕ
  pub old : SpadBankStatus
  pub older : SpadBankStatus

-- `selBank`, `selStart`, `ioInfo.dep`, and whether the placement adds a dependence that is charged.
pub record Selection : Type 0 where
  pub bank : Bank
  pub start : ℕ
  pub dep : ℕ

-- The loop over the available banks, which stops at the first of status 0.
unfoldable pub find_free : Demand → List Bank → Option Selection
find_free d [] = none
find_free d (b ∷ bs) =
    let rest = find_free d bs in
    let s = bank_status d b.old b.older in
    if s.status == 0 then some (record { bank = b; start = s.start; dep = 0 }) else rest

-- The loop for the first bank of status 1.
unfoldable pub find_old_free : Demand → List Bank → Option Selection
find_old_free d [] = none
find_old_free d (b ∷ bs) =
    let rest = find_old_free d bs in
    let s = bank_status d b.old b.older in
    if s.status == 1
    then some (record { bank = b; start = s.start; dep = ld_dep_st_last_sec_task })
    else rest

-- The loop for the first bank that the task before loads to.
unfoldable pub find_old_load : Demand → List Bank → Option Selection
find_old_load d [] = none
find_old_load d (b ∷ bs) =
    let rest = find_old_load d bs in
    if b.old.used == 1
    then some (record {
      bank = b;
      start = (bank_status d b.old b.older).start;
      dep = ld_dep_ex_last_task;
    })
    else rest

-- The first available bank.
unfoldable pub first_bank : Demand → ℕ → List Bank → Option Selection
first_bank d dep [] = none
first_bank d dep (b ∷ bs) =
    some (record { bank = b; start = (bank_status d b.old b.older).start; dep = dep })

-- The assertion of the second loop.
unfoldable pub check_old_free : Demand → Selection → Option Selection
check_old_free d s = if not d.is_store && s.bank.older.used == 2 then some s else none

-- The four attempts. `none` is a failed assertion: no bank is available, or the one above.
unfoldable pub select_bank : Demand → List Bank → Option Selection
select_bank d [] = none
select_bank d (b ∷ bs) =
    let avail = b ∷ bs in
    elim (find_free d avail) [
      | some s ↦ some s
      | none ↦ elim (find_old_free d avail) [
        | some s ↦ check_old_free d s
        | none ↦
            if d.is_store
            then first_bank d ex_dep_st_last_task avail
            else elim (find_old_load d avail) [
              | some s ↦ some s
              | none ↦ first_bank d ld_dep_st_last_task avail
            ]
      ]
    ]
