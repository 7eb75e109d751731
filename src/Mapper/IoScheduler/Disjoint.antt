-- ===== src/Mapper/IoScheduler/Disjoint.antt =====
-- mapper/io_scheduler.cpp, `ioSchedule`: no two nodes of a task share a bank, the data of each lies in
-- its bank, and its dependence is enough beside what the two tasks before keep there.
use fdra.Prelude.{
  ℕ, zero, suc, ◌+◌, ◌*◌, ◌≤◌, true, false, some, List, [], ◌∷◌, ◌≡◌, ◌≢◌, refl, sym, ap, ◌∙◌, ◌-◌,
  ◌/◌, ◌==◌, if◌then◌else◌, get_elem?, get_elem?-set_ne, set, arith, Bool-cases, inl, inr, nat_key,
}
use mathlib.Core.Path.{subst}
use fdra.Prelude.Map
use fdra.Mapper.IoScheduler.{SpadBankStatus, DfgIoInfo}
use fdra.Mapper.IoScheduler.Select.{Bank, Selection}
use fdra.Mapper.IoScheduler.Dependence.{covers}
use fdra.Mapper.IoScheduler.Best.{IsBest}
use fdra.Mapper.IoScheduler.Free.{IsFree}
use fdra.Mapper.IoScheduler.Schedule.{Request, Setting, Progress, demand, record_io}

-- Where a node has its data: bank `bank`, with the status `st` of this task and what the two tasks
-- before left there.
pub record IsPlacedAt (need : ℕ → ℕ) (g : Setting) (cur : List SpadBankStatus) (id : ℕ)
    (info : DfgIoInfo) (bank : ℕ) : Type 0 where
  pub st : SpadBankStatus
  pub old : SpadBankStatus
  pub older : SpadBankStatus
  pub here : get_elem? cur bank ≡ some st
  pub was : get_elem? g.old bank ≡ some old
  pub was_before : get_elem? g.older bank ≡ some older
  pub used : (st.used == 0) ≡ false
  pub addr : info.addr ≡ bank * g.sizeof_bank + st.start
  pub end : st.end ≡ st.start + need id
  pub fits : st.end ≤ g.sizeof_bank
  pub enough :
      covers
        (record { is_store = info.is_store; mem_size = need id; sizeof_bank = g.sizeof_bank })
        info.dep
        st.start
        (record { index = bank; old = old; older = older })
      ≡ true

pub record IsScheduled (need : ℕ → ℕ) (g : Setting) (s : Progress) : Type 0 where
  pub bank_of : ℕ → ℕ
  pub placed :
      (id : ℕ) (info : DfgIoInfo)
      → Map.lookup id s.infos ≡ some info
      → IsPlacedAt need g s.cur id info (bank_of id)
  pub apart :
      (i j : ℕ) (a b : DfgIoInfo)
      → Map.lookup i s.infos ≡ some a
      → Map.lookup j s.infos ≡ some b
      → i ≢ j
      → bank_of i ≢ bank_of j

get_elem?-set-some {ℓ} :
    {A : Type ℓ} (xs : List A) (i : ℕ) (a b : A)
    → get_elem? xs i ≡ some a
    → get_elem? (set xs i b) i ≡ some b
get_elem?-set-some [] i a b h = absurd (cc h)
get_elem?-set-some (x ∷ xs) zero a b h = refl
get_elem?-set-some (x ∷ xs) (suc i) a b h = get_elem?-set-some xs i a b h

-- One node more: it has a bank that was free, and the banks of the others stay as they are.
module _ (need : ℕ → ℕ) (g : Setting) (r : Request) (sized : r.mem_size ≡ need r.id)
    (avail : List Bank) (s : Progress) (inv : IsScheduled need g s) (sel : Selection)
    (best : IsBest (demand g r) avail sel) (free : IsFree g s.cur sel.bank) (lowest : ℕ) where
  abbrev s' : Progress
  s' = record_io g r lowest sel s

  abbrev new_bank_of : ℕ → ℕ
  new_bank_of id = if r.id == id then sel.bank.index else inv.bank_of id

  not_taken :
      (id : ℕ) (info : DfgIoInfo)
      → Map.lookup id s.infos ≡ some info
      → sel.bank.index ≢ inv.bank_of id
  not_taken id info h e =
      let p = inv.placed id info h in
      let same : get_elem? s.cur sel.bank.index ≡ some p.st = rw e p.here in
      ground (arith, same, p.used, free.here, free.unused)

  abbrev new_info : DfgIoInfo
  new_info = record {
    addr = sel.bank.index * g.sizeof_bank + sel.start;
    iob_addr = ((sel.bank.index - lowest) * g.sizeof_bank + sel.start) / g.data_byte;
    dep = sel.dep;
    is_store = r.is_store;
  }

  abbrev new_status : SpadBankStatus
  new_status = record {
    iob = r.iob_idx;
    used = if r.is_store then 2 else 1;
    start = sel.start;
    end = sel.start + r.mem_size;
  }

  abbrev cur' : List SpadBankStatus
  cur' = set s.cur sel.bank.index new_status

  self_placed : IsPlacedAt need g cur' r.id new_info sel.bank.index
  self_placed = record {
    st = new_status;
    old = sel.bank.old;
    older = sel.bank.older;
    here = get_elem?-set-some s.cur sel.bank.index free.st new_status free.here;
    was = free.was;
    was_before = free.was_before;
    used = ground arith;
    addr = refl;
    end = ap (λ k. sel.start + k) sized;
    fits = best.fits;
    enough =
        subst
          (λ k.
            covers (record { is_store = r.is_store; mem_size = k; sizeof_bank = g.sizeof_bank })
              sel.dep sel.start sel.bank
            ≡ true)
          sized best.enough;
  }

  old_placed :
      (id : ℕ) (info : DfgIoInfo)
      → Map.lookup id s.infos ≡ some info
      → IsPlacedAt need g cur' id info (inv.bank_of id)
  old_placed id info h =
      let p = inv.placed id info h in
      record {
        st = p.st;
        old = p.old;
        older = p.older;
        here = get_elem?-set_ne s.cur new_status (not_taken id info h) ∙ p.here;
        was = p.was;
        was_before = p.was_before;
        used = p.used;
        addr = p.addr;
        end = p.end;
        fits = p.fits;
        enough = p.enough;
      }

  was_there :
      (id : ℕ) (info : DfgIoInfo)
      → Map.lookup id s'.infos ≡ some info
      → (r.id == id) ≡ false
      → Map.lookup id s.infos ≡ some info
  was_there id info h other = ground (arith, Map.lookup-insert id r.id new_info s.infos)

  new_placed :
      (id : ℕ) (info : DfgIoInfo)
      → Map.lookup id s'.infos ≡ some info
      → IsPlacedAt need g cur' id info (new_bank_of id)
  new_placed id info h = elim (Bool-cases (r.id == id)) [
    | inl same ↦
        let e1 : r.id ≡ id = ground arith in
        let e2 : new_info ≡ info = ground (arith, Map.lookup-insert id r.id new_info s.infos) in
        rw same (
          subst (λ j. IsPlacedAt need g cur' j info sel.bank.index) e1
            (subst (λ x. IsPlacedAt need g cur' r.id x sel.bank.index) e2 self_placed))
    | inr other ↦ rw other (old_placed id info (was_there id info h other))
  ]

  new_apart :
      (i j : ℕ) (a b : DfgIoInfo)
      → Map.lookup i s'.infos ≡ some a
      → Map.lookup j s'.infos ≡ some b
      → i ≢ j
      → new_bank_of i ≢ new_bank_of j
  new_apart i j a b h k ne = elim (Bool-cases (r.id == i)) [
    | inl same_i ↦ elim (Bool-cases (r.id == j)) [
      | inl same_j ↦ absurd (ne (ground arith))
      | inr other_j ↦ rw (same_i, other_j) (not_taken j b (was_there j b k other_j))
    ]
    | inr other_i ↦ elim (Bool-cases (r.id == j)) [
      | inl same_j ↦ rw (other_i, same_j) λ e. not_taken i a (was_there i a h other_i) (sym e)
      | inr other_j ↦
          rw (other_i, other_j)
            (inv.apart i j a b (was_there i a h other_i) (was_there j b k other_j) ne)
    ]
  ]

  pub record_io-IsScheduled : IsScheduled need g s'
  record_io-IsScheduled = record { bank_of = new_bank_of; placed = new_placed; apart = new_apart }
