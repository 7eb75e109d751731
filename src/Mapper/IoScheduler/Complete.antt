-- ===== src/Mapper/IoScheduler/Complete.antt =====
-- mapper/io_scheduler.cpp, `ioSchedule`: the sorts lose no node, and the loop places each of them.
use fdra.Prelude.{
  ℕ, Bool, false, some, List, [], ◌∷◌, ◌≡◌, refl, ap, ◌∙◌, ◌==◌, ◌||◌, ◌+◌, ◌*◌, ◌-◌, ◌/◌, map,
  arith, Bool-cases, inl, inr, nat_key, string_key, is_some,
}
use mathlib.Core.Path.{subst}
use fdra.Prelude.Options.{◌>>=◌, >>=-eq-some}
use fdra.Prelude.Map
use fdra.Prelude.Set
use fdra.Prelude.Set.{Set}
use fdra.Adg.Store.{Adg}
use fdra.Dfg.Node.{DfgNode, DfgIoNode}
use fdra.Dfg.Store as DfgStore
use fdra.Dfg.Store.{Dfg, get_out_nodes}
use fdra.Mapper.Mapping.{Mapping}
use fdra.Mapper.IoScheduler.{DfgIoInfo}
use fdra.Mapper.IoScheduler.Select.{Bank, Selection, select_bank}
use fdra.Mapper.IoScheduler.Schedule.{
  Request, Setting, Progress, avail_banks, min_bank, enable, demand, charge, cost_of, record_io,
  place_io, schedule_io, schedule_all, request, bytes,
}
use fdra.Mapper.IoScheduler.Task.{
  IoScheduler, IoEntry, io_entries, insert_by, sort_by, ranks_before, input_before, count_names,
  sorted_io_nodes, start_progress, io_schedule, setting, conclude,
}
use fdra.Mapper.IoScheduler.Whole.{request-id, charge-keeps}

abbrev has_id : ℕ → List IoEntry → Bool
has_id k [] = false
has_id k ((id, io) ∷ es) = id == k || has_id k es

has_id-insert_by :
    (k : ℕ) (lt : IoEntry → IoEntry → Bool) (x : IoEntry) (ys : List IoEntry)
    → has_id k (insert_by lt x ys) ≡ has_id k (x ∷ ys)
has_id-insert_by k lt x [] = refl
has_id-insert_by k lt x (y ∷ ys) = elim (Bool-cases (lt y x)) [
  | inl before ↦ rw before (ground (arith, has_id-insert_by k lt x ys))
  | inr after ↦ rw after refl
]

has_id-sort_by :
    (k : ℕ) (lt : IoEntry → IoEntry → Bool) (xs : List IoEntry)
    → has_id k (sort_by lt xs) ≡ has_id k xs
has_id-sort_by k lt [] = refl
has_id-sort_by k lt (x ∷ xs) =
    has_id-insert_by k lt x (sort_by lt xs) ∙ ap (λ b. x.0 == k || b) (has_id-sort_by k lt xs)

count-map :
    (k : ℕ) (es : List IoEntry) → Set.count k (map (λ ((id, io) : IoEntry). id) es) ≡ has_id k es
count-map k [] = refl
count-map k ((id, io) ∷ es) = ground (arith, count-map k es)

io_entries-has_id :
    (dfg : Dfg) (k : ℕ) (ids : List ℕ) (es : List IoEntry)
    → io_entries dfg ids ≡ some es
    → has_id k es ≡ Set.count k ids
unfolding io_entries
io_entries-has_id dfg k [] es h = ground arith
io_entries-has_id dfg k (id ∷ ids) es h =
    let tail = λ (io : DfgIoNode). io_entries dfg ids >>= λ rest. some ((id, io) ∷ rest) in
    let (n, e1, h1) = >>=-eq-some (DfgStore.node id dfg) (λ (n : DfgNode). n.io >>= tail) h in
    let (io, e2, h2) = >>=-eq-some n.io tail h1 in
    let (rest, e3, h3) = >>=-eq-some (io_entries dfg ids) (λ rest. some ((id, io) ∷ rest)) h2 in
    let same : (id, io) ∷ rest ≡ es = ground (arith, h3) in
    subst (λ xs. has_id k xs ≡ Set.count k (id ∷ ids)) same
      (ap (λ b. id == k || b) (io_entries-has_id dfg k ids rest e3))

-- The order has the input and output nodes of the graph, and no others.
sorted_io_nodes-count :
    (dfg : Dfg) (outs : Set ℕ) (k : ℕ) (ids : List ℕ)
    → sorted_io_nodes dfg outs ≡ some ids
    → Set.count k ids ≡ Set.count k dfg.io_nodes
unfolding sorted_io_nodes
sorted_io_nodes-count dfg outs k ids h =
    let order = λ (es : List IoEntry).
      sort_by (input_before outs) (sort_by (ranks_before (count_names es [])) es) in
    let last = λ (es : List IoEntry). some (map (λ ((id, io) : IoEntry). id) (order es)) in
    let (es, e1, h1) = >>=-eq-some (io_entries dfg dfg.io_nodes) last h in
    let same : map (λ ((id, io) : IoEntry). id) (order es) ≡ ids = ground (arith, h1) in
    subst (λ xs. Set.count k xs ≡ Set.count k dfg.io_nodes) same
      (count-map k (order es)
        ∙ has_id-sort_by k (input_before outs) (sort_by (ranks_before (count_names es [])) es)
        ∙ has_id-sort_by k (ranks_before (count_names es [])) es
        ∙ io_entries-has_id dfg k dfg.io_nodes es e1)

abbrev placed : ℕ → Progress → Bool
placed k s = is_some (Map.lookup k s.infos)

place_io-placed :
    (g : Setting) (r : Request) (lowest ens : ℕ) (avail : List Bank) (s s' : Progress) (k : ℕ)
    → place_io g r lowest ens avail s ≡ some s'
    → placed k s' ≡ (r.id == k || placed k s)
unfolding place_io
place_io-placed g r lowest ens avail s s' k h =
    let t = λ (sel : Selection).
      charge (r.is_store || sel.dep == 0) r.mem_name (cost_of g.in_node_num r.is_store sel.dep)
        (record s { iob_ens = ens }) in
    let last = λ (sel : Selection). some (record_io g r lowest sel (t sel)) in
    let (sel, e1, h1) = >>=-eq-some (select_bank (demand g r) avail) last h in
    let kept : (t sel).infos ≡ s.infos =
      (charge-keeps (r.is_store || sel.dep == 0) r.mem_name
        (cost_of g.in_node_num r.is_store sel.dep) (record s { iob_ens = ens })).1 in
    let same : record_io g r lowest sel (t sel) ≡ s' = ground (arith, h1) in
    let info : DfgIoInfo = record {
      addr = sel.bank.index * g.sizeof_bank + sel.start;
      iob_addr = ((sel.bank.index - lowest) * g.sizeof_bank + sel.start) / g.data_byte;
      dep = sel.dep;
      is_store = r.is_store;
    } in
    let one : placed k (record_io g r lowest sel (t sel)) ≡ (r.id == k || placed k (t sel)) =
      ground (arith, Map.lookup-insert k r.id info (t sel).infos) in
    subst (λ u. placed k u ≡ (r.id == k || placed k s)) same
      (one ∙ ap (λ is. r.id == k || is_some (Map.lookup k is)) kept)

schedule_io-placed :
    (g : Setting) (r : Request) (s s' : Progress) (k : ℕ)
    → schedule_io g r s ≡ some s'
    → placed k s' ≡ (r.id == k || placed k s)
unfolding schedule_io
schedule_io-placed g r s s' k h =
    let last = λ (ens lowest : ℕ) (avail : List Bank). place_io g r lowest ens avail s in
    let next = λ (ens lowest : ℕ). avail_banks g s.cur r.banks >>= last ens lowest in
    let (ens, e1, h1) =
      >>=-eq-some (enable r.iob_idx s.iob_ens) (λ ens. min_bank r.banks >>= next ens) h in
    let (lowest, e2, h2) = >>=-eq-some (min_bank r.banks) (next ens) h1 in
    let (avail, e3, h3) = >>=-eq-some (avail_banks g s.cur r.banks) (last ens lowest) h2 in
    place_io-placed g r lowest ens avail s s' k h3

schedule_all-placed :
    (adg : Adg) (dfg : Dfg) (m : Mapping) (outs : Set ℕ) (g : Setting) (ids : List ℕ)
    (s s' : Progress) (k : ℕ)
    → schedule_all adg dfg m outs g ids s ≡ some s'
    → placed k s' ≡ (Set.count k ids || placed k s)
unfolding schedule_all
schedule_all-placed adg dfg m outs g [] s s' k h =
    let same : s ≡ s' = ground (arith, h) in subst (λ t. placed k t ≡ placed k s) same refl
schedule_all-placed adg dfg m outs g (id ∷ ids) s s' k h =
    let tail = λ (t : Progress). schedule_all adg dfg m outs g ids t in
    let (r, e1, h1) = >>=-eq-some (request adg dfg m outs id) (λ r. schedule_io g r s >>= tail) h in
    let (t, e2, h2) = >>=-eq-some (schedule_io g r s) tail h1 in
    let rest = schedule_all-placed adg dfg m outs g ids t s' k h2 in
    let first = schedule_io-placed g r s t k e2 in
    let at_id = request-id adg dfg m outs id r e1 in ground (arith, rest, first, at_id)

-- A schedule places every input and output node of the graph, and no other.
pub io_schedule_complete :
    (adg : Adg) (dfg : Dfg) (m : Mapping) (s s' : IoScheduler) (k : ℕ)
    → io_schedule adg dfg m s ≡ some s'
    → is_some (Map.lookup k s'.dfg_io_infos) ≡ Set.count k dfg.io_nodes
unfolding io_schedule
io_schedule_complete adg dfg m s s' k h =
    let g = λ (outs : Set ℕ) (byte : ℕ). setting adg dfg outs byte s in
    let last = λ (outs : Set ℕ) (byte : ℕ) (p : Progress). some (conclude (g outs byte) s p) in
    let run = λ (outs : Set ℕ) (byte : ℕ) (ids : List ℕ).
      schedule_all adg dfg m outs (g outs byte) ids (start_progress adg) >>= last outs byte in
    let (outs, e1, h1) =
      >>=-eq-some (get_out_nodes dfg)
        (λ outs. bytes adg.bit_width >>= λ byte. sorted_io_nodes dfg outs >>= run outs byte) h in
    let (byte, e2, h2) =
      >>=-eq-some (bytes adg.bit_width) (λ byte. sorted_io_nodes dfg outs >>= run outs byte) h1 in
    let (ids, e3, h3) = >>=-eq-some (sorted_io_nodes dfg outs) (run outs byte) h2 in
    let (p, e4, h4) =
      >>=-eq-some (schedule_all adg dfg m outs (g outs byte) ids (start_progress adg))
        (last outs byte) h3 in
    let same : conclude (g outs byte) s p ≡ s' = ground (arith, h4) in
    let all = schedule_all-placed adg dfg m outs (g outs byte) ids (start_progress adg) p k e4 in
    let none_before : (Set.count k ids || placed k (start_progress adg)) ≡ Set.count k ids =
      ground arith in
    subst (λ t. is_some (Map.lookup k t.dfg_io_infos) ≡ Set.count k dfg.io_nodes) same
      (all ∙ none_before ∙ sorted_io_nodes-count dfg outs k ids e3)
