-- ===== src/Mapper/IoScheduler.antt =====
-- mapper/io_scheduler.h and io_scheduler.cpp: the placement of a task's data in the banks of the
-- scratchpad, beside the data of the two tasks before it. Sizes and addresses are in bytes.
pub mod Select
pub mod Dependence
pub mod Best
pub mod Schedule
pub mod Task
pub mod Free
pub mod Disjoint
pub mod Whole
pub mod Apart
pub mod Complete
pub mod Config
mod Examples
use fdra.Prelude.{ℕ, Bool}

-- `used` is 0 for a free bank, 1 for one that data is loaded to and 2 for one that is stored from.
pub record SpadBankStatus : Type 0 where
  pub iob : ℕ
  pub used : ℕ
  pub start : ℕ
  pub end : ℕ

pub record SpadCfgStatus : Type 0 where
  pub start : ℕ
  pub end : ℕ

pub record DfgIoInfo : Type 0 where
  pub addr : ℕ
  pub iob_addr : ℕ
  pub dep : ℕ
  pub is_store : Bool

-- The dependences of a load and of an execution, the macros of the header.
abbrev pub ld_dep_st_last_task : ℕ
ld_dep_st_last_task = 1

abbrev pub ld_dep_ex_last_task : ℕ
ld_dep_ex_last_task = 2

abbrev pub ld_dep_st_last_sec_task : ℕ
ld_dep_st_last_sec_task = 3

abbrev pub ex_dep_st_last_task : ℕ
ex_dep_st_last_task = 1

-- The status of a bank that no task has used.
abbrev pub no_bank_status : SpadBankStatus
no_bank_status = record { iob = 0; used = 0; start = 0; end = 0 }
