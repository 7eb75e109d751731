-- ===== src/Adg/Operand.antt =====
-- adg/adg_node.cpp: which operand an input port of a functional unit leads to.
use fdra.Prelude.{
  ℕ, zero, suc, ◌+◌, ◌<◌, ◌≤◌, Bool, true, false, Option, none, some, List, [], ◌∷◌, ◌≡◌, refl, sym,
  ◌==◌, arith, nat_key, Bool-cases, Option-cases, length, get_elem?, inl, inr, get_or,
}
use mathlib.Core.Path.{subst}
use fdra.Prelude.Set
use fdra.Prelude.Set.{Set}
use fdra.Adg.Node.{FuNode, find_operand, get_operand_idx}

-- Input port `input` leads to operand `i`.
abbrev pub feeds : ℕ → ℕ → List (Set ℕ) → Bool
feeds input i sets = Set.count input (get_or sets i [])

-- What the search answers over the operands from `lo` below `hi`: a fault, which needs a table that
-- ends before `hi` and no operand before its end; no operand; or the lowest operand.
abbrev pub FindsFirst : ℕ → List (Set ℕ) → ℕ → ℕ → Option (Option ℕ) → Type 0
FindsFirst input sets lo hi none =
    (length sets < hi) × ((j : ℕ) → lo ≤ j → j < length sets → feeds input j sets ≡ false)
FindsFirst input sets lo hi (some none) = (j : ℕ) → lo ≤ j → j < hi → feeds input j sets ≡ false
FindsFirst input sets lo hi (some (some i)) =
    (lo ≤ i)
    × (i < hi)
    × (feeds input i sets ≡ true)
    × ((j : ℕ) → lo ≤ j → j < i → feeds input j sets ≡ false)

-- Operand `lo` does not have the port.
none_here :
    (input : ℕ) (sets : List (Set ℕ)) (lo bound : ℕ)
    → feeds input lo sets ≡ false
    → ((j : ℕ) → suc lo ≤ j → j < bound → feeds input j sets ≡ false)
    → (j : ℕ) → lo ≤ j
    → j < bound
    → feeds input j sets ≡ false
none_here input sets lo bound miss later j above below = elim (Bool-cases (lo == j)) [
  | inl same ↦ let e : lo ≡ j = ground arith in rw e at miss
  | inr other ↦ later j (ground arith) below
]

FindsFirst-down :
    (input : ℕ) (sets : List (Set ℕ)) (lo hi : ℕ) (r : Option (Option ℕ))
    → feeds input lo sets ≡ false
    → FindsFirst input sets (suc lo) hi r
    → FindsFirst input sets lo hi r
FindsFirst-down input sets lo hi none miss h = (h.0, none_here input sets lo (length sets) miss h.1)
FindsFirst-down input sets lo hi (some none) miss h = none_here input sets lo hi miss h
FindsFirst-down input sets lo hi (some (some i)) miss h =
    (omega arith, h.1, h.2, none_here input sets lo i miss h.3)

beyond : (xs : List (Set ℕ)) (i : ℕ) → get_elem? xs i ≡ none → length xs ≤ i
beyond [] i h = omega arith
beyond (x ∷ xs) zero h = absurd (cc h)
beyond (x ∷ xs) (suc i) h = omega (arith, beyond xs i h)

within : (xs : List (Set ℕ)) (i : ℕ) (x : Set ℕ) → get_elem? xs i ≡ some x → get_or xs i [] ≡ x
within [] i x h = absurd (cc h)
within (y ∷ xs) zero x h = ground (arith, h)
within (y ∷ xs) (suc i) x h = within xs i x h

find_operand-FindsFirst :
    (rounds lo hi input : ℕ) (sets : List (Set ℕ))
    → lo + rounds ≡ hi
    → FindsFirst input sets lo hi (find_operand rounds lo input sets)
unfolding find_operand
find_operand-FindsFirst zero lo hi input sets e = λ j above below. absurd (omega arith)
find_operand-FindsFirst (suc rounds) lo hi input sets e = elim (Option-cases (get_elem? sets lo)) [
  | inl absent ↦
      let ends = beyond sets lo absent in
      let fault : find_operand (suc rounds) lo input sets ≡ none = rw (absent, find_operand) refl in
      subst (FindsFirst input sets lo hi) (sym fault)
        (omega (arith, ends, e), λ j above below. absurd (omega (arith, ends)))
  | inr (ports, there) ↦
      let same = within sets lo ports there in
      elim (Bool-cases (Set.count input ports)) [
        | inl hit ↦
            let found : find_operand (suc rounds) lo input sets ≡ some (some lo) =
              rw (there, hit, find_operand) refl in
            subst (FindsFirst input sets lo hi) (sym found)
              (omega arith, omega arith, rw same hit, λ j above below. absurd (omega arith))
        | inr miss ↦
            let next : find_operand (suc rounds) lo input sets
                ≡ find_operand rounds (suc lo) input sets =
              rw (there, miss, find_operand) refl in
            subst (FindsFirst input sets lo hi) (sym next) (
              FindsFirst-down input sets lo hi _ (rw same miss)
                (find_operand-FindsFirst rounds (suc lo) hi input sets (omega arith)))
      ]
]

-- `getOperandIdx` answers the lowest operand that the input port leads to, and -1 exactly when the
-- port leads to none of the operands. It reads beyond the end of the table only if the table is
-- shorter than the number of operands and no operand in it has the port.
pub get_operand_idx-FindsFirst :
    (input : ℕ) (n : FuNode)
    → FindsFirst input n.operand_ports 0 n.num_operands (get_operand_idx input n)
unfolding get_operand_idx
get_operand_idx-FindsFirst input n =
    find_operand-FindsFirst n.num_operands 0 n.num_operands input n.operand_ports (omega arith)
