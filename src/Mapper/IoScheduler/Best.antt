-- ===== src/Mapper/IoScheduler/Best.antt =====
-- mapper/io_scheduler.cpp: the bank and the dependence that `ioSchedule` chooses are right and the
-- cheapest.
use fdra.Prelude.{
  ℕ, ◌+◌, ◌≤◌, Bool, true, false, Option, none, some, List, [], ◌∷◌, ◌≡◌, refl, ◌==◌, if◌then◌else◌,
  arith, Bool-cases, Option-cases, inl, inr, ◌⊎◌,
}
use mathlib.Core.Path.{subst}
use fdra.Mapper.IoScheduler.{ld_dep_ex_last_task, ld_dep_st_last_sec_task}
use fdra.Mapper.IoScheduler.Select.{
  Demand, Bank, Selection, bank_status, find_free, find_old_free, find_old_load, first_bank,
  check_old_free, select_bank,
}
use fdra.Mapper.IoScheduler.Dependence.{
  covers, severity, bank_status-fits, bank_status-free, bank_status-old_free, free-bank_status,
  old_free-bank_status,
}

abbrev pub Among : Bank → List Bank → Type 0
Among b [] = ⊥
Among b (x ∷ xs) = (b ≡ x) ⊎ Among b xs

-- What a loop over the banks answers that looks for the first one with a property.
abbrev Answer : (Bank → Bool) → ℕ → Demand → List Bank → Option Selection → Type 0
Answer test dep d avail none = (b : Bank) → Among b avail → test b ≡ false
Answer test dep d avail (some s) =
    Among s.bank avail
    × (test s.bank ≡ true)
    × (s.start ≡ (bank_status d s.bank.old s.bank.older).start)
    × (s.dep ≡ dep)

abbrev select : ℕ → Demand → Bank → Selection
select dep d b = record { bank = b; start = (bank_status d b.old b.older).start; dep = dep }

Answer-later :
    (test : Bank → Bool) (dep : ℕ) (d : Demand) (b : Bank) (bs : List Bank) (r : Option Selection)
    → Answer test dep d bs r
    → test b ≡ false
    → Answer test dep d (b ∷ bs) r
Answer-later test dep d b bs none h miss =
    λ c i. elim i [ inl same ↦ rw same miss | inr c_in ↦ h c c_in ]
Answer-later test dep d b bs (some s) h miss = (inr h.0, h.1, h.2, h.3)

Answer-step :
    (test : Bank → Bool) (dep : ℕ) (d : Demand) (b : Bank) (bs : List Bank) (r : Option Selection)
    → Answer test dep d bs r
    → Answer test dep d (b ∷ bs) (if test b then some (select dep d b) else r)
Answer-step test dep d b bs r h = elim (Bool-cases (test b)) [
  | inl hit ↦ rw hit (inl refl, hit, refl, refl)
  | inr miss ↦ rw miss (Answer-later test dep d b bs r h miss)
]

abbrev has_status : ℕ → Demand → Bank → Bool
has_status k d b = (bank_status d b.old b.older).status == k

find_free-Answer : (d : Demand) (bs : List Bank) → Answer (has_status 0 d) 0 d bs (find_free d bs)
unfolding find_free
find_free-Answer d [] = λ b h. absurd h
find_free-Answer d (b ∷ bs) = Answer-step (has_status 0 d) 0 d b bs _ (find_free-Answer d bs)

find_old_free-Answer :
    (d : Demand) (bs : List Bank)
    → Answer (has_status 1 d) ld_dep_st_last_sec_task d bs (find_old_free d bs)
unfolding find_old_free
find_old_free-Answer d [] = λ b h. absurd h
find_old_free-Answer d (b ∷ bs) =
    Answer-step (has_status 1 d) ld_dep_st_last_sec_task d b bs _ (find_old_free-Answer d bs)

abbrev was_loaded : Bank → Bool
was_loaded b = b.old.used == 1

find_old_load-Answer :
    (d : Demand) (bs : List Bank) → Answer was_loaded ld_dep_ex_last_task d bs (find_old_load d bs)
unfolding find_old_load
find_old_load-Answer d [] = λ b h. absurd h
find_old_load-Answer d (b ∷ bs) =
    Answer-step was_loaded ld_dep_ex_last_task d b bs _ (find_old_load-Answer d bs)

-- The bank is available, the data fits into it, the dependence is enough, and no other choice of a
-- bank, a place in it and a dependence that is enough holds up the task less.
pub record IsBest (d : Demand) (avail : List Bank) (s : Selection) : Type 0 where
  pub among : Among s.bank avail
  pub fits : s.start + d.mem_size ≤ d.sizeof_bank
  pub enough : covers d s.dep s.start s.bank ≡ true
  pub cheapest :
      (b : Bank) (start dep : ℕ)
      → Among b avail
      → start + d.mem_size ≤ d.sizeof_bank
      → covers d dep start b ≡ true
      → severity d s.dep ≤ severity d dep

module _ (d : Demand) (avail : List Bank) (fits : d.mem_size ≤ d.sizeof_bank) where
  IsBest-free : (s : Selection) → Answer (has_status 0 d) 0 d avail (some s) → IsBest d avail s
  IsBest-free s a = record {
    among = a.0;
    fits = ground (arith, a.2, bank_status-fits d s.bank fits);
    enough = ground (arith, a.1, a.2, a.3, bank_status-free d s.bank);
    cheapest = λ b start dep i f c. ground (arith, a.3);
  }

  module _ (never_free : Answer (has_status 0 d) 0 d avail none) where
    IsBest-old_free :
        (s : Selection)
        → Answer (has_status 1 d) ld_dep_st_last_sec_task d avail (some s)
        → IsBest d avail s
    IsBest-old_free s a = record {
      among = a.0;
      fits = ground (arith, a.2, bank_status-fits d s.bank fits);
      enough = ground (arith, a.1, a.2, a.3, bank_status-old_free d s.bank);
      cheapest = λ b start dep i f c. ground (
        arith,
        a.1,
        a.3,
        bank_status-old_free d s.bank,
        free-bank_status d b start f,
        never_free b i,
      );
    }

    module _ (never_old_free : Answer (has_status 1 d) ld_dep_st_last_sec_task d avail none) where
      IsBest-old_load :
          (s : Selection)
          → d.is_store ≡ false
          → Answer was_loaded ld_dep_ex_last_task d avail (some s)
          → IsBest d avail s
      IsBest-old_load s load a = record {
        among = a.0;
        fits = ground (arith, a.2, bank_status-fits d s.bank fits);
        enough = ground (arith, a.1, a.2, a.3);
        cheapest = λ b start dep i f c. ground (
          arith,
          a.3,
          free-bank_status d b start f,
          old_free-bank_status d b start f,
          never_free b i,
          never_old_free b i,
        );
      }

      IsBest-store : (b : Bank) → Among b avail → d.is_store ≡ true → IsBest d avail (select 1 d b)
      IsBest-store b there store = record {
        among = there;
        fits = bank_status-fits d b fits;
        enough = ground arith;
        cheapest =
            λ c start dep i f v. ground (arith, free-bank_status d c start f, never_free c i);
      }

      IsBest-load :
          (b : Bank)
          → Among b avail
          → d.is_store ≡ false
          → Answer was_loaded ld_dep_ex_last_task d avail none
          → IsBest d avail (select 1 d b)
      IsBest-load b there load never_loaded = record {
        among = there;
        fits = bank_status-fits d b fits;
        enough = ground arith;
        cheapest = λ c start dep i f v. ground (
          arith,
          free-bank_status d c start f,
          old_free-bank_status d c start f,
          never_free c i,
          never_old_free c i,
          never_loaded c i,
        );
      }

module _ (d : Demand) (b : Bank) (bs : List Bank) (fits : d.mem_size ≤ d.sizeof_bank) where
  abbrev avail : List Bank
  avail = b ∷ bs

  abbrev Result : Type 0
  Result = (s : Selection) × (select_bank d avail ≡ some s) × IsBest d avail s

  -- After the loops for status 0 and 1 have failed.
  last_resort : find_free d avail ≡ none → find_old_free d avail ≡ none → Result
  unfolding select_bank first_bank
  last_resort e0 e1 =
      let a0 = subst (Answer (has_status 0 d) 0 d avail) e0 (find_free-Answer d avail) in
      let a1 =
        subst (Answer (has_status 1 d) ld_dep_st_last_sec_task d avail) e1
          (find_old_free-Answer d avail) in
      elim (Bool-cases d.is_store) [
        | inl store ↦ (
          select 1 d b,
          rw (e0, e1, store, select_bank) refl,
          IsBest-store d avail fits a0 a1 b (inl refl) store,
        )
        | inr load ↦ elim (Option-cases (find_old_load d avail)) [
          | inr (s, e2) ↦ (
            s,
            rw (e0, e1, e2, load, select_bank) refl,
            IsBest-old_load d avail fits a0 a1 s load (
                subst (Answer was_loaded ld_dep_ex_last_task d avail) e2
                  (find_old_load-Answer d avail)),
          )
          | inl e2 ↦ (
            select 1 d b,
            rw (e0, e1, e2, load, select_bank) refl,
            IsBest-load d avail fits a0 a1 b (inl refl) load (
                subst (Answer was_loaded ld_dep_ex_last_task d avail) e2
                  (find_old_load-Answer d avail)),
          )
        ]
      ]

  -- If a bank is available and the data is not larger than a bank, the choice succeeds, the assertion
  -- within it included. Its bank is available and holds the data, waiting as its dependence says is
  -- enough for the data to be put there, and no other available bank, place in it and dependence that
  -- is enough holds up the task less.
  pub select_bank-IsBest : (s : Selection) × (select_bank d avail ≡ some s) × IsBest d avail s
  unfolding select_bank check_old_free
  select_bank-IsBest = elim (Option-cases (find_free d avail)) [
    | inr (s, e0) ↦ (
      s,
      rw (e0, select_bank) refl,
      IsBest-free d avail fits s
          (subst (Answer (has_status 0 d) 0 d avail) e0 (find_free-Answer d avail)),
    )
    | inl e0 ↦ elim (Option-cases (find_old_free d avail)) [
      | inr (s, e1) ↦
          let a0 = subst (Answer (has_status 0 d) 0 d avail) e0 (find_free-Answer d avail) in
          let a1 =
            subst (Answer (has_status 1 d) ld_dep_st_last_sec_task d avail) e1
              (find_old_free-Answer d avail) in
          let asserted : check_old_free d s ≡ some s =
            ground (arith, a1.1, bank_status-old_free d s.bank) in
          (s, rw (e0, e1, asserted, select_bank) refl, IsBest-old_free d avail fits a0 s a1)
      | inl e1 ↦ last_resort e0 e1
    ]
  ]
