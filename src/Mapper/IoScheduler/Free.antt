-- ===== src/Mapper/IoScheduler/Free.antt =====
-- mapper/io_scheduler.cpp, `availBanks`: what is known of the banks that are available.
use fdra.Prelude.{
  ℕ, true, Option, none, some, List, [], ◌∷◌, ◌≡◌, sym, ◌==◌, if◌then◌else◌, get_elem?, Bool-cases,
  Option-cases, inl, inr, nat_key,
}
use mathlib.Core.Path.{subst}
use fdra.Prelude.Options.{◌>>=◌}
use fdra.Mapper.IoScheduler.{SpadBankStatus}
use fdra.Mapper.IoScheduler.Select.{Bank}
use fdra.Mapper.IoScheduler.Best.{Among}
use fdra.Mapper.IoScheduler.Schedule.{Setting, avail_banks}

-- What is known of an available bank.
pub record IsFree (g : Setting) (cur : List SpadBankStatus) (b : Bank) : Type 0 where
  pub st : SpadBankStatus
  pub here : get_elem? cur b.index ≡ some st
  pub unused : (st.used == 0) ≡ true
  pub was : get_elem? g.old b.index ≡ some b.old
  pub was_before : get_elem? g.older b.index ≡ some b.older

abbrev pub AllFree : Setting → List SpadBankStatus → Option (List Bank) → Type 0
AllFree g cur none = Unit {0}
AllFree g cur (some avail) = (b : Bank) → Among b avail → IsFree g cur b

AllFree-next :
    (g : Setting) (cur : List SpadBankStatus) (k : ℕ) (c o p : SpadBankStatus)
    → get_elem? cur k ≡ some c
    → get_elem? g.old k ≡ some o
    → get_elem? g.older k ≡ some p
    → (r : Option (List Bank)) → AllFree g cur r
    → AllFree g cur (
        r >>= λ rest.
        some (if c.used == 0 then record { index = k; old = o; older = p } ∷ rest else rest))
AllFree-next g cur k c o p e1 e2 e3 none h = tt
AllFree-next g cur k c o p e1 e2 e3 (some rest) h = elim (Bool-cases (c.used == 0)) [
  | inr taken ↦ rw taken h
  | inl free ↦ rw free λ b i. elim i [
    | inl same ↦
        let here : IsFree g cur (record { index = k; old = o; older = p }) = record {
          st = c;
          here = e1;
          unused = free;
          was = e2;
          was_before = e3;
        } in
        subst (IsFree g cur) (sym same) here
    | inr later ↦ h b later
  ]
]

pub avail_banks-AllFree :
    (g : Setting) (cur : List SpadBankStatus) (banks : List ℕ)
    → AllFree g cur (avail_banks g cur banks)
unfolding avail_banks
avail_banks-AllFree g cur [] = λ b i. absurd i
avail_banks-AllFree g cur (k ∷ banks) = elim (Option-cases (get_elem? cur k)) [
  | inl e1 ↦ rw e1 tt
  | inr (c, e1) ↦ elim (Option-cases (get_elem? g.old k)) [
    | inl e2 ↦ rw (e1, e2) tt
    | inr (o, e2) ↦ elim (Option-cases (get_elem? g.older k)) [
      | inl e3 ↦ rw (e1, e2, e3) tt
      | inr (p, e3) ↦
          rw (e1, e2, e3)
            (AllFree-next g cur k c o p e1 e2 e3 (avail_banks g cur banks)
              (avail_banks-AllFree g cur banks))
    ]
  ]
]
