-- ===== src/Mapper/Timing/Totals.antt =====
-- mapper/mapping.cpp, `calEdgeLatVio`: the list of the edges that lack delay, and the totals over it.
use fdra.Prelude.{
  ℕ, true, false, ◌||◌, List, [], ◌∷◌, ◌++◌, ◌≡◌, ◌≢◌, refl, sym, ap, ◌∙◌, ◌⊎◌, ◌==◌, ==_iff,
  nat_key, arith, Bool-cases, inl, inr,
}
use mathlib.Core.Path.{subst}
use fdra.Prelude.Int.{ℤ, pos, ◌+ℤ◌, ◌≤ℤ◌, ltb_ℤ, max_ℤ, +ℤ_comm, +ℤ_assoc}
use fdra.Prelude.Set
use fdra.Dfg.Store.{Dfg}
use fdra.Mapper.Mapping.{Mapping}
use fdra.Mapper.Timing.Violation.{Tally}
use fdra.Mapper.Timing.Vio.{vio_of, IsStep}

abbrev pub sum_vio_of : Mapping → List ℕ → ℤ
sum_vio_of m [] = pos 0
sum_vio_of m (id ∷ ids) = vio_of id m +ℤ sum_vio_of m ids

-- The totals over the edges that have been looked at.
pub record IsTally (seen : List ℕ) (m : Mapping) (sum_vio max_vio : ℤ) : Type 0 where
  pub total : sum_vio_of m m.vio_dfg_edges ≡ sum_vio
  pub listed :
      (i : ℕ)
      → Set.count i m.vio_dfg_edges ≡ true
      → (Set.count i seen ≡ true) × (ltb_ℤ (pos 0) (vio_of i m) ≡ true) × (vio_of i m ≤ℤ max_vio)
  pub unlisted :
      (i : ℕ) → Set.count i seen ≡ true → Set.count i m.vio_dfg_edges ≡ false → vio_of i m ≡ pos 0
  pub top :
      ((max_vio ≡ pos 0) × (m.vio_dfg_edges ≡ []))
      ⊎ ((i : ℕ) × (Set.count i m.vio_dfg_edges ≡ true) × (vio_of i m ≡ max_vio))

sum_vio_of-same :
    (m m' : Mapping) (ids : List ℕ)
    → ((i : ℕ) → Set.count i ids ≡ true → vio_of i m' ≡ vio_of i m)
    → sum_vio_of m' ids ≡ sum_vio_of m ids
sum_vio_of-same m m' [] same = refl
sum_vio_of-same m m' (id ∷ ids) same =
    let rest = sum_vio_of-same m m' ids (λ i there. same i (ground arith)) in
    rw (same id (ground arith), rest) refl

sum_vio_of-snoc :
    (m : Mapping) (ids : List ℕ) (id : ℕ)
    → sum_vio_of m (ids ++ id ∷ []) ≡ sum_vio_of m ids +ℤ vio_of id m
sum_vio_of-snoc m [] id = +ℤ_comm (vio_of id m) (pos 0)
sum_vio_of-snoc m (x ∷ ids) id =
    rw (sum_vio_of-snoc m ids id) (sym (+ℤ_assoc (vio_of x m) (sum_vio_of m ids) (vio_of id m)))

count-snoc : (a b : ℕ) (xs : List ℕ) → Set.count a (xs ++ b ∷ []) ≡ (Set.count a xs || b == a)
count-snoc a b [] = ground arith
count-snoc a b (x ∷ xs) = ground (arith, count-snoc a b xs)

module _ (dfg : Dfg) (max_lat : ℤ) (id : ℕ) (seen : List ℕ) (t t' : Tally)
    (new : Set.count id seen ≡ false) (step : IsStep dfg max_lat id t t')
    (tally : IsTally seen t.mapping t.sum_vio t.max_vio) where
  abbrev list : List ℕ
  list = t.mapping.vio_dfg_edges

  not_own : (i : ℕ) → Set.count i list ≡ true → i ≢ id
  not_own i there same =
      let is_seen : Set.count i seen ≡ true = (tally.listed i there).0 in
      ground (arith, rw same at is_seen)

  kept_vio : (i : ℕ) → i ≢ id → vio_of i t'.mapping ≡ vio_of i t.mapping
  kept_vio i differs = ap (λ a. a.vio) (step.others i differs)

  kept_sum : sum_vio_of t'.mapping list ≡ sum_vio_of t.mapping list
  kept_sum = sum_vio_of-same t.mapping t'.mapping list (λ i there. kept_vio i (not_own i there))

  listed-later :
      (i : ℕ)
      → Set.count i list ≡ true
      → (Set.count i (id ∷ seen) ≡ true)
        × (ltb_ℤ (pos 0) (vio_of i t'.mapping) ≡ true)
        × (vio_of i t'.mapping ≤ℤ t.max_vio)
  listed-later i there =
      let (is_seen, some_vio, most) = tally.listed i there in
      rw (kept_vio i (not_own i there)) (ground arith, some_vio, most)

  unlisted-later :
      (i : ℕ)
      → i ≢ id
      → Set.count i (id ∷ seen) ≡ true
      → Set.count i list ≡ false
      → vio_of i t'.mapping ≡ pos 0
  unlisted-later i differs is_seen out =
      kept_vio i differs ∙ tally.unlisted i (ground (arith, ==_iff id i)) out

  IsTally-same :
      vio_of id t'.mapping ≡ pos 0
      → t'.mapping.vio_dfg_edges ≡ list
      → t'.sum_vio ≡ t.sum_vio
      → t'.max_vio ≡ t.max_vio
      → IsTally (id ∷ seen) t'.mapping t'.sum_vio t'.max_vio
  IsTally-same zero_vio same_list same_sum same_max = record {
    total = rw (same_list, same_sum) (kept_sum ∙ tally.total);
    listed = λ i there. rw same_max (listed-later i (rw same_list at there));
    unlisted = λ i is_seen out. elim (Bool-cases (id == i)) [
      | inl own ↦
          let same : id ≡ i = ground arith in subst (λ j. vio_of j t'.mapping ≡ pos 0) same zero_vio
      | inr other ↦ unlisted-later i (ground (arith, ==_iff id i)) is_seen (rw same_list at out)
    ];
    top = elim tally.top [
      | inl (zero, none_listed) ↦ inl (same_max ∙ zero, same_list ∙ none_listed)
      | inr (i, there, most) ↦
          inr (i, rw same_list there, rw same_max (kept_vio i (not_own i there) ∙ most))
    ];
  }

  IsTally-more :
      ltb_ℤ (pos 0) (vio_of id t'.mapping) ≡ true
      → t'.mapping.vio_dfg_edges ≡ list ++ id ∷ []
      → t'.sum_vio ≡ t.sum_vio +ℤ vio_of id t'.mapping
      → t'.max_vio ≡ max_ℤ t.max_vio (vio_of id t'.mapping)
      → IsTally (id ∷ seen) t'.mapping t'.sum_vio t'.max_vio
  IsTally-more some_vio longer more higher = record {
    total =
        rw (longer, more)
          (sum_vio_of-snoc t'.mapping list id
            ∙ ap (λ s. s +ℤ vio_of id t'.mapping) (kept_sum ∙ tally.total));
    listed = λ i there. elim (Bool-cases (id == i)) [
      | inl own ↦
          let same : id ≡ i = ground arith in
          rw higher (
            subst
              (λ j.
                (Set.count j (id ∷ seen) ≡ true)
                × (ltb_ℤ (pos 0) (vio_of j t'.mapping) ≡ true)
                × (vio_of j t'.mapping ≤ℤ max_ℤ t.max_vio (vio_of id t'.mapping)))
              same (ground arith, some_vio, ground arith))
      | inr other ↦
          let earlier : Set.count i list ≡ true = ground (arith, longer, count-snoc i id list) in
          let (is_seen, positive, most) = listed-later i earlier in
          rw higher (is_seen, positive, ground (arith, most))
    ];
    unlisted = λ i is_seen out.
        let before : Set.count i list ≡ false = ground (arith, longer, count-snoc i id list) in
        let differs : i ≢ id =
          λ same. ground (arith, longer, count-snoc i id list, same, ==_iff id i) in
        unlisted-later i differs is_seen before;
    top = elim (Bool-cases (ltb_ℤ t.max_vio (vio_of id t'.mapping))) [
      | inl top ↦
          inr
            (id, rw (longer, count-snoc id id list) (ground arith), rw higher (ground (arith, top)))
      | inr not_top ↦ elim tally.top [
        | inl (zero, none_listed) ↦ absurd (ground (arith, zero, some_vio))
        | inr (i, there, most) ↦ inr (
          i,
          rw (longer, count-snoc i id list) (ground (arith, there)),
          kept_vio i (not_own i there) ∙ most ∙ sym (higher ∙ ground (arith, not_top)),
        )
      ]
    ];
  }

  pub IsTally-step : IsTally (id ∷ seen) t'.mapping t'.sum_vio t'.max_vio
  IsTally-step = elim step.noted [
    | inl (zero_vio, same_list, same_sum, same_max) ↦
        IsTally-same zero_vio same_list same_sum same_max
    | inr (some_vio, longer, more, higher) ↦ IsTally-more some_vio longer more higher
  ]
