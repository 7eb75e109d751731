-- ===== src/Mapper/IoScheduler/Whole.antt =====
-- mapper/io_scheduler.cpp, `ioSchedule` as a whole: what holds of one node holds after the loop.
use fdra.Prelude.{
  ◌+◌, ◌-◌, ◌*◌, ◌/◌, ◌≢◌, ◌∙◌, ap, ℕ, ◌≤◌, Bool, Option, none, some, List, [], ◌∷◌, ◌≡◌, refl, sym,
  ◌||◌, ◌==◌, arith, nat_key, string_key,
}
use mathlib.Core.Path.{subst}
use fdra.Prelude.Options.{◌>>=◌, >>=-eq-some}
use fdra.Prelude.Set.{Set}
use fdra.Adg.Store.{Adg}
use fdra.Dfg.Store.{Dfg, get_out_nodes}
use fdra.Mapper.Mapping.{Mapping}
use fdra.Prelude.Map
use fdra.Mapper.IoScheduler.{DfgIoInfo}
use fdra.Mapper.IoScheduler.Select.{Bank, Selection, select_bank}
use fdra.Mapper.IoScheduler.Best.{Among, select_bank-IsBest}
use fdra.Mapper.IoScheduler.Schedule.{
  Request, Setting, Progress, avail_banks, min_bank, enable, demand, charge, cost_of, record_io,
  place_io, schedule_io, schedule_all, request, bytes,
}
use fdra.Mapper.IoScheduler.Free.{AllFree, avail_banks-AllFree}
use fdra.Mapper.IoScheduler.Disjoint.{IsPlacedAt, IsScheduled, record_io-IsScheduled}
use fdra.Mapper.IoScheduler.Task.{
  IoScheduler, sorted_io_nodes, start_progress, io_schedule, setting, conclude,
}
use Prim.Native.String.{String}

-- Charging a dependence leaves the banks, the nodes and the enabled blocks as they are.
pub charge-keeps :
    (no_due : Bool) (name : String) (cost : ℕ) (s : Progress)
    → ((charge no_due name cost s).cur ≡ s.cur)
      × ((charge no_due name cost s).infos ≡ s.infos)
      × ((charge no_due name cost s).iob_ens ≡ s.iob_ens)
charge-keeps no_due name cost s = (ground arith, ground arith, ground arith)

-- The progress has one entry more, for the node of the request, in one of the given banks.
pub record IsAdded (g : Setting) (r : Request) (avail : List Bank) (ens : ℕ) (s s' : Progress)
    : Type 0 where
  pub info : DfgIoInfo
  pub bank : Bank
  pub start : ℕ
  pub entry : Map.lookup r.id s'.infos ≡ some info
  pub kind : info.is_store ≡ r.is_store
  pub among : Among bank avail
  pub addr : info.addr ≡ bank.index * g.sizeof_bank + start
  pub others : (id : ℕ) → id ≢ r.id → Map.lookup id s'.infos ≡ Map.lookup id s.infos
  pub enabled : s'.iob_ens ≡ ens

record_io-IsAdded :
    (g : Setting) (r : Request) (avail : List Bank) (lowest ens : ℕ) (sel : Selection)
    (s u : Progress)
    → Among sel.bank avail
    → u.infos ≡ s.infos
    → u.iob_ens ≡ ens
    → IsAdded g r avail ens s (record_io g r lowest sel u)
record_io-IsAdded g r avail lowest ens sel s u among same enabled =
    let info : DfgIoInfo = record {
      addr = sel.bank.index * g.sizeof_bank + sel.start;
      iob_addr = ((sel.bank.index - lowest) * g.sizeof_bank + sel.start) / g.data_byte;
      dep = sel.dep;
      is_store = r.is_store;
    } in
    record {
      info = info;
      bank = sel.bank;
      start = sel.start;
      entry = ground (arith, Map.lookup-insert r.id r.id info u.infos);
      kind = refl;
      among = among;
      addr = refl;
      others = λ id ne.
          let stored : Map.lookup id (Map.insert r.id info u.infos) ≡ Map.lookup id u.infos =
            ground (arith, ne, Map.lookup-insert id r.id info u.infos) in
          stored ∙ ap (λ infos. Map.lookup id infos) same;
      enabled = enabled;
    }

IsScheduled-same :
    (need : ℕ → ℕ) (g : Setting) (s t : Progress)
    → t.cur ≡ s.cur
    → t.infos ≡ s.infos
    → IsScheduled need g s
    → IsScheduled need g t
IsScheduled-same need g s t e1 e2 inv = record {
  bank_of = inv.bank_of;
  placed = λ id info h.
      subst (λ c. IsPlacedAt need g c id info (inv.bank_of id)) (sym e1)
        (inv.placed id info (rw e2 at h));
  apart = λ i j a b h k ne. inv.apart i j a b (rw e2 at h) (rw e2 at k) ne;
}

module _ (need : ℕ → ℕ) (g : Setting) (r : Request) (sized : r.mem_size ≡ need r.id)
    (fits : need r.id ≤ g.sizeof_bank) where
  place_io-IsAdded :
      (s : Progress) (lowest ens : ℕ) (b : Bank) (bs : List Bank)
      → IsScheduled need g s
      → AllFree g s.cur (some (b ∷ bs))
      → (s' : Progress) × (place_io g r lowest ens (b ∷ bs) s ≡ some s')
        × IsScheduled need g s'
        × IsAdded g r (b ∷ bs) ens s s'
  unfolding place_io
  place_io-IsAdded s lowest ens b bs inv free =
      let (sel, found, best) = select_bank-IsBest (demand g r) b bs (rw sized fits) in
      let t = record s { iob_ens = ens } in
      let due = r.is_store || sel.dep == 0 in
      let cost = cost_of g.in_node_num r.is_store sel.dep in
      let u = charge due r.mem_name cost t in
      let (e1, e2, e3) = charge-keeps due r.mem_name cost t in
      (
        record_io g r lowest sel u,
        rw (found, place_io) refl,
        record_io-IsScheduled need g r sized (b ∷ bs) u (IsScheduled-same need g s u e1 e2 inv) sel
            best (subst (λ c. AllFree g c (some (b ∷ bs))) (sym e1) free sel.bank best.among)
            lowest,
        record_io-IsAdded g r (b ∷ bs) lowest ens sel s u best.among e2 e3,
      )

  abbrev choose_place : Progress → ℕ → ℕ → Option Progress
  choose_place s ens lowest = do
    avail ← avail_banks g s.cur r.banks
    place_io g r lowest ens avail s

  -- A node is placed whenever its block can be enabled and one of the banks that the block is
  -- connected to is free, and its data is not larger than a bank. It then has an entry, with its
  -- address in one of the free banks; the entries of all other nodes stay as they are; the block is
  -- enabled. With the new entry no two nodes share a bank, the data of each lies in its bank, and its
  -- dependence is enough.
  pub schedule_io-IsScheduled :
      (s : Progress) (ens lowest : ℕ) (b : Bank) (bs : List Bank)
      → IsScheduled need g s
      → enable r.iob_idx s.iob_ens ≡ some ens
      → min_bank r.banks ≡ some lowest
      → avail_banks g s.cur r.banks ≡ some (b ∷ bs)
      → (s' : Progress) × (schedule_io g r s ≡ some s')
        × IsScheduled need g s'
        × IsAdded g r (b ∷ bs) ens s s'
  unfolding schedule_io
  schedule_io-IsScheduled s ens lowest b bs inv e1 e2 e3 =
      let free = subst (AllFree g s.cur) e3 (avail_banks-AllFree g s.cur r.banks) in
      let (s', placed, after, added) = place_io-IsAdded s lowest ens b bs inv free in
      (s', rw (e1, e2, e3, schedule_io) placed, after, added)

  place_io-keeps :
      (s s' : Progress) (lowest ens : ℕ) (avail : List Bank)
      → IsScheduled need g s
      → AllFree g s.cur (some avail)
      → place_io g r lowest ens avail s ≡ some s'
      → IsScheduled need g s'
  unfolding place_io select_bank
  place_io-keeps s s' lowest ens [] inv free h = absurd (cc h)
  place_io-keeps s s' lowest ens (b ∷ bs) inv free h =
      let (t, placed, after, added) = place_io-IsAdded s lowest ens b bs inv free in
      let same : t ≡ s' = ground (arith, placed, h) in subst (IsScheduled need g) same after

  schedule_io-keeps :
      (s s' : Progress) → IsScheduled need g s → schedule_io g r s ≡ some s' → IsScheduled need g s'
  unfolding schedule_io
  schedule_io-keeps s s' inv h =
      let rest = λ (ens : ℕ). min_bank r.banks >>= choose_place s ens in
      let (ens, e1, h1) = >>=-eq-some (enable r.iob_idx s.iob_ens) rest h in
      let (lowest, e2, h2) = >>=-eq-some (min_bank r.banks) (choose_place s ens) h1 in
      let (avail, e3, h3) =
        >>=-eq-some (avail_banks g s.cur r.banks) (λ avail. place_io g r lowest ens avail s) h2 in
      let free = subst (AllFree g s.cur) e3 (avail_banks-AllFree g s.cur r.banks) in
      place_io-keeps s s' lowest ens avail inv free h3

pub request-id :
    (adg : Adg) (dfg : Dfg) (m : Mapping) (outs : Set ℕ) (id : ℕ) (r : Request)
    → request adg dfg m outs id ≡ some r
    → r.id ≡ id
unfolding request
request-id adg dfg m outs id r h = ground arith

module _ (adg : Adg) (dfg : Dfg) (m : Mapping) (outs : Set ℕ) where
  -- The bytes of a node in the scratchpad.
  abbrev pub need : ℕ → ℕ
  need id = elim (request adg dfg m outs id) [ none ↦ 0 | some r ↦ r.mem_size ]

  need_is : (id : ℕ) (r : Request) → request adg dfg m outs id ≡ some r → r.mem_size ≡ need r.id
  need_is id r h =
      let at_id : r.mem_size ≡ need id = rw (h, need) refl in
      subst (λ k. r.mem_size ≡ need k) (sym (request-id adg dfg m outs id r h)) at_id

  module _ (g : Setting)
      (fits : (id : ℕ) (r : Request)
        → request adg dfg m outs id ≡ some r
        → r.mem_size ≤ g.sizeof_bank) where
    schedule_all-IsScheduled :
        (ids : List ℕ) (s s' : Progress)
        → IsScheduled need g s
        → schedule_all adg dfg m outs g ids s ≡ some s'
        → IsScheduled need g s'
    unfolding schedule_all
    schedule_all-IsScheduled [] s s' inv h =
        let same : s ≡ s' = ground (arith, h) in subst (IsScheduled need g) same inv
    schedule_all-IsScheduled (id ∷ ids) s s' inv h =
        let tail = λ (t : Progress). schedule_all adg dfg m outs g ids t in
        let (r, e1, h1) =
          >>=-eq-some (request adg dfg m outs id) (λ r. schedule_io g r s >>= tail) h in
        let (t, e2, h2) = >>=-eq-some (schedule_io g r s) tail h1 in
        let size = need_is id r e1 in
        schedule_all-IsScheduled ids t s'
          (schedule_io-keeps need g r size (rw size at (fits id r e1)) s t inv e2) h2

-- The banks and the nodes of the scheduler.
abbrev pub outcome : IoScheduler → Progress
outcome s = record {
  cur = s.cur_bank_status;
  infos = s.dfg_io_infos;
  ex_dep = s.ex_dep;
  iob_ens = s.iob_ens;
  dep_cost = s.dep_cost;
  mem_dep = [];
}

pub start-IsScheduled :
    (need : ℕ → ℕ) (g : Setting) (adg : Adg) → IsScheduled need g (start_progress adg)
start-IsScheduled need g adg = record {
  bank_of = λ id. id;
  placed = λ id info h. absurd (cc h);
  apart = λ i j a b h k ne. absurd (cc h);
}

-- After a schedule of a task whose data sets are each not larger than a bank, every node has its data
-- within one bank, no two nodes share a bank, and the dependence of each node is enough beside what
-- the two tasks before keep in its bank.
pub io_schedule-IsScheduled :
    (adg : Adg) (dfg : Dfg) (m : Mapping) (outs : Set ℕ) (data_byte : ℕ) (s s' : IoScheduler)
    → get_out_nodes dfg ≡ some outs
    → bytes adg.bit_width ≡ some data_byte
    → ((id : ℕ) (r : Request)
        → request adg dfg m outs id ≡ some r
        → r.mem_size ≤ adg.iob_spad_bank_size)
    → io_schedule adg dfg m s ≡ some s'
    → IsScheduled (need adg dfg m outs) (setting adg dfg outs data_byte s) (outcome s')
unfolding io_schedule
io_schedule-IsScheduled adg dfg m outs data_byte s s' e1 e2 fits h =
    let g = setting adg dfg outs data_byte s in
    let last = λ (p : Progress). some (conclude g s p) in
    let tail = λ (ids : List ℕ). schedule_all adg dfg m outs g ids (start_progress adg) >>= last in
    let (ids, e3, h1) = >>=-eq-some (sorted_io_nodes dfg outs) tail (rw (e1, e2) at h) in
    let (p, e4, h2) =
      >>=-eq-some (schedule_all adg dfg m outs g ids (start_progress adg)) last h1 in
    let done =
      schedule_all-IsScheduled adg dfg m outs g fits ids (start_progress adg) p
        (start-IsScheduled (need adg dfg m outs) g adg) e4 in
    let same : conclude g s p ≡ s' = ground (arith, h2) in
    subst (λ t. IsScheduled (need adg dfg m outs) g (outcome t)) same
      (IsScheduled-same (need adg dfg m outs) g p (outcome (conclude g s p)) refl refl done)
