-- ===== src/Mapper/Timing/Left.antt =====
-- mapper/mapping.cpp, `getAvailDelay`: what is left for one input, beside what is left for the unit.
use fdra.Prelude.{
  ℕ, ◌-◌, ◌/◌, max, [], ◌∷◌, none, some, ◌≡◌, refl, sym, ap, ◌∙◌, ◌==◌, ◌⊎◌, inl, inr, arith,
  if◌then◌else◌, Bool-cases, Option-cases, ltb, length, or_else, nat_key,
}
use native.Mathlib.Nat.{div-le_self}
use fdra.Prelude.Int.{
  ℤ, pos, negsuc, ◌+ℤ◌, ◌-ℤ◌, ◌≤ℤ◌, min_ℤ, +ℤ_parts, -ℤ_parts, +ℤ_comm, +ℤ_assoc,
}
use fdra.Prelude.Map
use fdra.Prelude.Map.{Map}
use fdra.Dfg.Node.{DfgNode}
use fdra.Adg.Node.{FuNode}
use fdra.Mapper.Mapping.{Mapping}
use fdra.Mapper.Timing.Delay.{quot, new_fu_delay, get_avail_delay}
use fdra.Mapper.Timing.Violation.{update_fu_delay, use_delay, assign_delay}

abbrev pub total_at : ℕ → Mapping → ℤ
total_at u m = (Map.get_or u new_fu_delay m.fu_delay_attrs).total_delay_used

-- The delays at the ports of a unit together.
abbrev pub sum_delays : Map ℕ ℤ → ℤ
sum_delays [] = pos 0
sum_delays ((port, delay) ∷ used) = sum_delays used +ℤ delay

abbrev pub sum_at : ℕ → Mapping → ℤ
sum_at u m = sum_delays (Map.get_or u new_fu_delay m.fu_delay_attrs).delay_used

sum_delays-insert :
    (port : ℕ) (delay : ℤ) (used : Map ℕ ℤ)
    → Map.lookup port used ≡ none
    → sum_delays (Map.insert port delay used) ≡ sum_delays used +ℤ delay
sum_delays-insert port delay [] absent = refl
sum_delays-insert port delay ((p, d) ∷ used) absent = elim (Bool-cases (p == port)) [
  | inl own ↦ absurd (cc (rw own at absent))
  | inr other ↦ elim (Bool-cases (ltb port p)) [
    | inl before ↦ rw (other, before) refl
    | inr after ↦
        let rest = sum_delays-insert port delay used (rw other at absent) in
        rw (other, after)
          (ap (λ z. z +ℤ d) rest
            ∙ +ℤ_assoc (sum_delays used) delay d
            ∙ ap (λ z. sum_delays used +ℤ z) (+ℤ_comm delay d)
            ∙ sym (+ℤ_assoc (sum_delays used) d delay))
  ]
]

quot-below : (a : ℤ) (k : ℕ) → pos 0 ≤ℤ a → quot a k ≤ℤ a
quot-below (pos n) k least = omega (arith, div-le_self n k)
quot-below (negsuc n) k least = absurd (omega (arith, least))

stays_within : (a b : ℤ) → a ≤ℤ b → a +ℤ pos 0 ≤ℤ b
stays_within a b within = omega (arith, +ℤ_parts a (pos 0), within)

left_within : (a b : ℤ) (k : ℕ) → a ≤ℤ b → a +ℤ quot (b -ℤ a) k ≤ℤ b
left_within a b k within =
    let parts = -ℤ_parts b a in
    let least : pos 0 ≤ℤ b -ℤ a = omega (arith, parts, within) in
    omega (arith, parts, +ℤ_parts a (quot (b -ℤ a) k), quot-below (b -ℤ a) k least)

new_within : (b k : ℕ) → pos 0 +ℤ pos (b / k) ≤ℤ pos b
new_within b k = omega (arith, +ℤ_parts (pos 0) (pos (b / k)), div-le_self b k)

-- What is left for one input is no more than what is left.
pub avail-left :
    (fu : FuNode) (n : DfgNode) (m : Mapping)
    → total_at fu.id m ≤ℤ pos fu.max_delay
    → total_at fu.id m +ℤ get_avail_delay fu n m ≤ℤ pos fu.max_delay
unfolding get_avail_delay
avail-left fu n m within = elim (Bool-cases (ltb fu.num_operands 2)) [
  | inl none_given ↦ rw none_given (stays_within (total_at fu.id m) (pos fu.max_delay) within)
  | inr some_given ↦ elim (Bool-cases (length n.inputs == 0)) [
    | inl no_inputs ↦
        rw (some_given, no_inputs) (stays_within (total_at fu.id m) (pos fu.max_delay) within)
    | inr inputs ↦ elim (Option-cases (Map.lookup fu.id m.fu_delay_attrs)) [
      | inl new ↦
          let is_zero : total_at fu.id m ≡ pos 0 = rw (total_at, new) refl in
          rw (some_given, inputs, new, is_zero) (new_within fu.max_delay (length n.inputs))
      | inr (attr, there) ↦
          let is_total : total_at fu.id m ≡ attr.total_delay_used = rw (total_at, there) refl in
          rw (some_given, inputs, there, is_total)
            (left_within attr.total_delay_used (pos fu.max_delay)
              (max (length n.inputs - length attr.delay_used) 1) (rw is_total at within))
    ]
  ]
]

total_at-use :
    (u fu_id port : ℕ) (delay : ℤ) (m : Mapping)
    → total_at u (update_fu_delay fu_id (use_delay port delay) m)
      ≡ (if fu_id == u then total_at u m +ℤ delay else total_at u m)
total_at-use u fu_id port delay m =
    let attr = use_delay port delay (Map.get_or fu_id new_fu_delay m.fu_delay_attrs) in
    let stored = Map.lookup-insert u fu_id attr m.fu_delay_attrs in
    elim (Bool-cases (fu_id == u)) [
      | inl own ↦
          let same : u ≡ fu_id = ground arith in
          let now : Map.lookup u (Map.insert fu_id attr m.fu_delay_attrs) ≡ some attr =
            stored ∙ rw own refl in
          rw own (
            ap (λ o. (or_else new_fu_delay o).total_delay_used) now
            ∙ ap (λ k. total_at k m +ℤ delay) (sym same))
      | inr other ↦
          let now : Map.lookup u (Map.insert fu_id attr m.fu_delay_attrs)
              ≡ Map.lookup u m.fu_delay_attrs =
            stored ∙ rw other refl in
          rw other (ap (λ o. (or_else new_fu_delay o).total_delay_used) now)
    ]

sum_at-use :
    (u fu_id port : ℕ) (delay : ℤ) (m : Mapping)
    → Map.lookup port (Map.get_or fu_id new_fu_delay m.fu_delay_attrs).delay_used ≡ none
    → sum_at u (update_fu_delay fu_id (use_delay port delay) m)
      ≡ (if fu_id == u then sum_at u m +ℤ delay else sum_at u m)
sum_at-use u fu_id port delay m unused =
    let attr = use_delay port delay (Map.get_or fu_id new_fu_delay m.fu_delay_attrs) in
    let stored = Map.lookup-insert u fu_id attr m.fu_delay_attrs in
    elim (Bool-cases (fu_id == u)) [
      | inl own ↦
          let same : u ≡ fu_id = ground arith in
          let now : Map.lookup u (Map.insert fu_id attr m.fu_delay_attrs) ≡ some attr =
            stored ∙ rw own refl in
          let more =
            sum_delays-insert port delay (Map.get_or fu_id new_fu_delay m.fu_delay_attrs).delay_used
              unused in
          rw own (
            ap (λ o. sum_delays (or_else new_fu_delay o).delay_used) now
            ∙ more
            ∙ ap (λ k. sum_at k m +ℤ delay) (sym same))
      | inr other ↦
          let now : Map.lookup u (Map.insert fu_id attr m.fu_delay_attrs)
              ≡ Map.lookup u m.fu_delay_attrs =
            stored ∙ rw other refl in
          rw other (ap (λ o. sum_delays (or_else new_fu_delay o).delay_used) now)
    ]

-- The counter and the delays at the ports stay, or they grow by the same delay, which is at most what
-- is left for one input.
pub assign-total :
    (node_id : ℕ) (fu : FuNode) (n : DfgNode) (port : ℕ) (required : ℤ) (m : Mapping) (u : ℕ)
    → let m' = (assign_delay node_id fu n port required m).1 in
      ((total_at u m' ≡ total_at u m) × (sum_at u m' ≡ sum_at u m))
      ⊎ ((u ≡ fu.id)
          × (total_at u m' ≡ total_at u m +ℤ min_ℤ (get_avail_delay fu n m) required)
          × (sum_at u m' ≡ sum_at u m +ℤ min_ℤ (get_avail_delay fu n m) required))
unfolding assign_delay
assign-total node_id fu n port required m u =
    elim (Option-cases
      (Map.lookup port (Map.get_or fu.id new_fu_delay m.fu_delay_attrs).delay_used)) [
        | inr (delay, used) ↦ inl (rw (used, assign_delay) refl, rw (used, assign_delay) refl)
        | inl unused ↦
            let delay = min_ℤ (get_avail_delay fu n m) required in
            let total = total_at-use u fu.id port delay m in
            let sum = sum_at-use u fu.id port delay m unused in
            elim (Bool-cases (fu.id == u)) [
              | inl own ↦
                  let same : u ≡ fu.id = ground arith in
                  inr (
                    same,
                    rw (unused, assign_delay) (total ∙ rw own refl),
                    rw (unused, assign_delay) (sum ∙ rw own refl),
                  )
              | inr other ↦ inl (
                rw (unused, assign_delay) (total ∙ rw other refl),
                rw (unused, assign_delay) (sum ∙ rw other refl),
              )
            ]
      ]
