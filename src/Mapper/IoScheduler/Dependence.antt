-- ===== src/Mapper/IoScheduler/Dependence.antt =====
-- mapper/io_scheduler.cpp: what the dependences mean, and what the status
-- of a bank says about them.
use fdra.Prelude.{
  ℕ, ◌+◌, ◌≤◌, Bool, true, false, not, ◌&&◌, ◌||◌, ◌≡◌, ◌==◌, if◌then◌else◌, leb, arith,
}
use fdra.Mapper.IoScheduler.{SpadBankStatus, ld_dep_ex_last_task, ld_dep_st_last_sec_task}
use fdra.Mapper.IoScheduler.Select.{Demand, Bank, old_status, older_status, bank_status}

-- The data at `start` and the range of a status have no byte in common.
abbrev pub apart : Demand → ℕ → SpadBankStatus → Bool
apart d start old = leb (start + d.mem_size) old.start || leb old.end start

-- The data can be put at `start` while the task before still uses the bank: it does not, it executes
-- on other data that it has loaded there, or both tasks store, at different places.
abbrev pub clear_of_old : Demand → ℕ → SpadBankStatus → Bool
clear_of_old d start old =
    old.used == 0
    || old.used == 1 && (d.is_store || apart d start old)
    || old.used == 2 && d.is_store && apart d start old

-- Likewise for the task before that one, which can only be storing still.
abbrev pub clear_of_older : Demand → SpadBankStatus → Bool
clear_of_older d older = d.is_store || not (older.used == 2)

-- Waiting as `dep` says is enough for the data to be put at `start`.
abbrev pub covers : Demand → ℕ → ℕ → Bank → Bool
covers d dep start b =
    if dep == 0
    then clear_of_old d start b.old && clear_of_older d b.older
    else if d.is_store
    then true
    else if dep == ld_dep_st_last_sec_task
    then clear_of_old d start b.old
    else if dep == ld_dep_ex_last_task
    then b.old.used == 1
    else true

-- How much a dependence holds up the task.
abbrev pub severity : Demand → ℕ → ℕ
severity d dep =
    if dep == 0
    then 0
    else if d.is_store || dep == ld_dep_st_last_sec_task
    then 1
    else if dep == ld_dep_ex_last_task
    then 2
    else 3

pub bank_status-fits :
    (d : Demand) (b : Bank)
    → d.mem_size ≤ d.sizeof_bank
    → (bank_status d b.old b.older).start + d.mem_size ≤ d.sizeof_bank
unfolding bank_status old_status older_status
bank_status-fits d b h = ground arith

pub bank_status-free :
    (d : Demand) (b : Bank)
    → (bank_status d b.old b.older).status ≡ 0
    → covers d 0 (bank_status d b.old b.older).start b ≡ true
unfolding bank_status old_status older_status
bank_status-free d b h = ground arith

pub bank_status-old_free :
    (d : Demand) (b : Bank)
    → (bank_status d b.old b.older).status ≡ 1
    → (clear_of_old d (bank_status d b.old b.older).start b.old ≡ true)
      × (d.is_store ≡ false)
      × (b.older.used ≡ 2)
unfolding bank_status old_status older_status
bank_status-old_free d b h = (ground arith, ground arith, ground arith)

pub free-bank_status :
    (d : Demand) (b : Bank) (start : ℕ)
    → start + d.mem_size ≤ d.sizeof_bank
    → covers d 0 start b ≡ true
    → (bank_status d b.old b.older).status ≡ 0
unfolding bank_status old_status older_status
free-bank_status d b start fits h = ground arith

pub old_free-bank_status :
    (d : Demand) (b : Bank) (start : ℕ)
    → start + d.mem_size ≤ d.sizeof_bank
    → clear_of_old d start b.old ≡ true
    → (bank_status d b.old b.older).status ≤ 1
unfolding bank_status old_status older_status
old_free-bank_status d b start fits h = ground arith
