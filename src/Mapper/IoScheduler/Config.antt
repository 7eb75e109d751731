-- ===== src/Mapper/IoScheduler/Config.antt =====
-- mapper/io_scheduler.cpp, `genCfgData`: where the configuration of a task goes.
use fdra.Prelude.{
  ℕ, ◌+◌, ◌*◌, ◌/◌, ◌≤◌, Option, none, some, ◌≡◌, refl, ◌-◌, ◌⊎◌, inl, inr, if◌then◌else◌, leb, ltb,
  min, arith, Bool-cases, true, ◌&&◌,
}
use native.Mathlib.Nat.{div-add-mod', mod-lt}
use fdra.Prelude.Options.{◌>>=◌}
use fdra.Adg.Store.{Adg}
use fdra.Mapper.IoScheduler.{SpadCfgStatus, ld_dep_ex_last_task}
use fdra.Mapper.IoScheduler.Schedule.{bytes, align}
use fdra.Mapper.IoScheduler.Task.{IoScheduler}

abbrev pub align_width : Adg → ℕ
align_width adg = if ltb 16 adg.cfg_addr_width then 32 else 16

-- `cfgBaseAddr`: above the configuration of the task before, else at 0.
unfoldable pub cfg_base : ℕ → ℕ → SpadCfgStatus → ℕ
cfg_base size len old = if leb (len + old.end) size then old.end else 0

-- `_ld_cfg_dep`
unfoldable pub cfg_dep : ℕ → ℕ → SpadCfgStatus → ℕ
cfg_dep size len old =
    if leb (len + old.end) size then 0 else if leb len old.start then 0 else ld_dep_ex_last_task

-- The end of `genCfgData`, from `_cfg_num` on, for a given number of configuration words. The
-- assertion at its start is `none`, and so is a zero width of the scratchpad.
unfoldable pub place_cfg : Adg → ℕ → IoScheduler → Option IoScheduler
place_cfg adg cfg_num s = do
  unit ← bytes adg.cfg_spad_data_width
  let width = align_width adg
  let len = cfg_num * (width + adg.cfg_data_width) / 8
  let size = adg.cfg_spad_size
  let base = cfg_base size len s.old_cfg_status
  (if leb adg.cfg_addr_width width && leb width adg.cfg_data_width
      then some (record s {
        cfg_num = cfg_num;
        cfg_len = len;
        ld_cfg_dep = cfg_dep size len s.old_cfg_status;
        old_cfg_status = record { start = base; end = min (base + align len unit) size };
      })
      else none)

-- The range of the configuration memory that the scheduler remembers.
pub record IsCfgRange (size : ℕ) (c : SpadCfgStatus) : Type 0 where
  pub ordered : c.start ≤ c.end
  pub inside : c.end ≤ size

-- Data of `len` bytes at `base` has no byte in common with a range.
abbrev pub Misses : ℕ → ℕ → SpadCfgStatus → Type 0
Misses base len c = (base + len ≤ c.start) ⊎ (c.end ≤ base)

-- The new range holds the configuration, and either it misses the one of the task before, or there
-- is no place for it that does and the load waits until that task has executed.
pub record IsCfgPlaced (size : ℕ) (s s' : IoScheduler) : Type 0 where
  pub range : IsCfgRange size s'.old_cfg_status
  pub holds : s'.old_cfg_status.start + s'.cfg_len ≤ s'.old_cfg_status.end
  pub apart :
      ((s'.ld_cfg_dep ≡ 0) × Misses s'.old_cfg_status.start s'.cfg_len s.old_cfg_status)
      ⊎ ((s'.ld_cfg_dep ≡ ld_dep_ex_last_task)
          × ((base : ℕ) → base + s'.cfg_len ≤ size → Misses base s'.cfg_len s.old_cfg_status → ⊥))

unit_positive : (width unit : ℕ) → bytes width ≡ some unit → 1 ≤ unit
unit_positive width unit h = ground arith

le-align : (size unit : ℕ) → 1 ≤ unit → size ≤ align size unit
le-align size unit h =
    omega (arith, div-add-mod' (size + unit - 1) unit, mod-lt (size + unit - 1) h)

cfg_base-le : (size len : ℕ) (old : SpadCfgStatus) → len ≤ size → cfg_base size len old + len ≤ size
unfolding cfg_base
cfg_base-le size len old h = ground arith

cfg_dep-cases :
    (size len : ℕ) (old : SpadCfgStatus)
    → old.start ≤ old.end
    → ((cfg_dep size len old ≡ 0) × Misses (cfg_base size len old) len old)
      ⊎ ((cfg_dep size len old ≡ ld_dep_ex_last_task)
          × ((base : ℕ) → base + len ≤ size → Misses base len old → ⊥))
unfolding cfg_base cfg_dep
cfg_dep-cases size len old h = elim (Bool-cases (leb (len + old.end) size)) [
  | inl above ↦ inl (ground arith, inr (ground arith))
  | inr no_room ↦ elim (Bool-cases (leb len old.start)) [
    | inl below ↦ inl (ground arith, inl (ground arith))
    | inr none_left ↦ inr (ground arith, λ base f m. ground arith)
  ]
]

module _ (adg : Adg) (cfg_num : ℕ) (s : IoScheduler)
    (old : IsCfgRange adg.cfg_spad_size s.old_cfg_status) (unit : ℕ)
    (known : bytes adg.cfg_spad_data_width ≡ some unit)
    (address : leb adg.cfg_addr_width (align_width adg) ≡ true)
    (wide : leb (align_width adg) adg.cfg_data_width ≡ true)
    (fits : cfg_num * (align_width adg + adg.cfg_data_width) / 8 ≤ adg.cfg_spad_size) where
  abbrev len : ℕ
  len = cfg_num * (align_width adg + adg.cfg_data_width) / 8

  abbrev size : ℕ
  size = adg.cfg_spad_size

  abbrev base : ℕ
  base = cfg_base size len s.old_cfg_status

  -- For legal widths and a configuration that the memory can hold, the placement succeeds. The new
  -- range lies in the memory and holds the whole configuration; it misses the range of the task
  -- before, or no place would do so and the load depends on the execution of that task.
  pub place_cfg-IsCfgPlaced :
      (s' : IoScheduler) × (place_cfg adg cfg_num s ≡ some s') × IsCfgPlaced adg.cfg_spad_size s s'
  unfolding place_cfg
  place_cfg-IsCfgPlaced =
      let room = cfg_base-le size len s.old_cfg_status fits in
      let long = le-align len unit (unit_positive adg.cfg_spad_data_width unit known) in
      (
        record s {
          cfg_num = cfg_num;
          cfg_len = len;
          ld_cfg_dep = cfg_dep size len s.old_cfg_status;
          old_cfg_status = record { start = base; end = min (base + align len unit) size };
        },
        rw (known, address, wide, place_cfg) refl,
        record {
          range = record { ordered = omega arith; inside = omega arith };
          holds = omega arith;
          apart = cfg_dep-cases size len s.old_cfg_status old.ordered;
        },
      )
