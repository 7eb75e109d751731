-- ===== src/Mapper/IoScheduler/Apart.antt =====
-- mapper/io_scheduler.cpp, `ioSchedule`: the data of different nodes lies apart in the scratchpad.
use fdra.Prelude.{
  ℕ, suc, ◌+◌, ◌*◌, ◌≤◌, ◌≡◌, ◌≢◌, ◌⊎◌, refl, some, inl, inr, arith, Bool-cases, ltb, nat_key, true,
  false,
}
use native.Mathlib.Nat.{mul-le-mul_right}
use fdra.Prelude.Map
use fdra.Mapper.IoScheduler.{DfgIoInfo}
use fdra.Mapper.IoScheduler.Schedule.{Request, Setting, Progress, request, bytes}
use fdra.Mapper.IoScheduler.Disjoint.{IsScheduled}
use fdra.Mapper.IoScheduler.Task.{IoScheduler, io_schedule, setting}
use fdra.Mapper.IoScheduler.Whole.{need, outcome, io_schedule-IsScheduled}
use fdra.Prelude.Set.{Set}
use fdra.Adg.Store.{Adg}
use fdra.Dfg.Store.{Dfg, get_out_nodes}
use fdra.Mapper.Mapping.{Mapping}

bank_below : (k l : ℕ) → ltb k l ≡ true → suc k ≤ l
bank_below k l h = ground arith

bank_above : (k l : ℕ) → ltb k l ≡ false → k ≢ l → suc l ≤ k
bank_above k l h ne = ground (arith, ne)

apart_lem :
    (k l size x y a b : ℕ)
    → x + a ≤ size
    → y + b ≤ size
    → k ≢ l
    → (k * size + x + a ≤ l * size + y) ⊎ (l * size + y + b ≤ k * size + x)
apart_lem k l size x y a b fa fb ne = elim (Bool-cases (ltb k l)) [
  | inl below ↦ inl (omega (arith, mul-le-mul_right size (bank_below k l below)))
  | inr not_below ↦ inr (omega (arith, mul-le-mul_right size (bank_above k l not_below ne)))
]

IsScheduled-apart :
    (need : ℕ → ℕ) (g : Setting) (s : Progress) (i j ki kj : ℕ) (a b : DfgIoInfo)
    → IsScheduled need g s
    → Map.lookup i s.infos ≡ some a
    → Map.lookup j s.infos ≡ some b
    → need i ≡ ki
    → need j ≡ kj
    → i ≢ j
    → (a.addr + ki ≤ b.addr) ⊎ (b.addr + kj ≤ a.addr)
IsScheduled-apart need g s i j ki kj a b inv h k size_i size_j ne =
    let p = inv.placed i a h in
    let q = inv.placed j b k in
    rw (p.addr, q.addr)
      (apart_lem (inv.bank_of i) (inv.bank_of j) g.sizeof_bank p.st.start q.st.start ki kj
        (rw (p.end, size_i) at p.fits) (rw (q.end, size_j) at q.fits) (inv.apart i j a b h k ne))

-- If a task whose data sets are each not larger than a bank is scheduled, then the addresses that the
-- scheduler records for two of its nodes give them ranges of bytes of the scratchpad, each as long as
-- the request of the node, that have no byte in common.
pub io_schedule-apart :
    (adg : Adg) (dfg : Dfg) (m : Mapping) (outs : Set ℕ) (data_byte : ℕ) (s s' : IoScheduler)
    (i j : ℕ) (a b : DfgIoInfo) (q r : Request)
    → get_out_nodes dfg ≡ some outs
    → bytes adg.bit_width ≡ some data_byte
    → ((id : ℕ) (r : Request)
        → request adg dfg m outs id ≡ some r
        → r.mem_size ≤ adg.iob_spad_bank_size)
    → io_schedule adg dfg m s ≡ some s'
    → Map.lookup i s'.dfg_io_infos ≡ some a
    → Map.lookup j s'.dfg_io_infos ≡ some b
    → request adg dfg m outs i ≡ some q
    → request adg dfg m outs j ≡ some r
    → i ≢ j
    → (a.addr + q.mem_size ≤ b.addr) ⊎ (b.addr + r.mem_size ≤ a.addr)
io_schedule-apart adg dfg m outs data_byte s s' i j a b q r e1 e2 fits done h k hq hr ne =
    IsScheduled-apart (need adg dfg m outs) (setting adg dfg outs data_byte s) (outcome s') i j
      q.mem_size r.mem_size a b
      (io_schedule-IsScheduled adg dfg m outs data_byte s s' e1 e2 fits done) h k
      (rw (need, hq) refl) (rw (need, hr) refl) ne
