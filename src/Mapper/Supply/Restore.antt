-- ===== src/Mapper/Supply/Restore.antt =====
-- mapper/mapper.cpp, `updateOpLeftDfgAdgNum`: placing a node on a unit, and taking it from there.
use fdra.Prelude.{
  ℕ, zero, suc, Bool, true, false, Option, none, some, List, ◌≡◌, ◌≢◌, refl, sym, ap, ◌∙◌, inl, inr,
  arith, if◌then◌else◌, Bool-cases, Option-cases, string_key,
}
use fdra.Prelude.Int.{ℤ, pos, negsuc, ◌+ℤ◌, ◌-ℤ◌}
use fdra.Prelude.Map
use fdra.Mapper.Supply.{OpLeft, shift_ops, update_op_left}
use fdra.Mapper.Supply.Shift.{occurs, times, shifted, lookup-shift_ops, times-cancel, down_up}
use Prim.Native.String.{String}
use text.Mathlib.Text.{◌==◌ as str_eq}
use text.Mathlib.TextEquality.{eq_iff}

abbrev change : Bool → ℤ
change unmap = if unmap then pos 1 else negsuc 0

-- The entry of an operation after an update for a node of the operation `op`.
abbrev pub moved : String → List String → ℤ → String → ℤ × ℤ → ℤ × ℤ
moved op ops v x nums = (if str_eq op x then nums.0 +ℤ v else nums.0, times (occurs x ops) v nums.1)

abbrev moved_if : String → List String → ℤ → String → Option (ℤ × ℤ) → Option (ℤ × ℤ)
moved_if op ops v x none = none
moved_if op ops v x (some nums) = some (moved op ops v x nums)

moved-other :
    (op : String) (ops : List String) (v : ℤ) (x : String) (o : Option (ℤ × ℤ))
    → str_eq op x ≡ false
    → shifted (occurs x ops) v o ≡ moved_if op ops v x o
moved-other op ops v x none other = refl
moved-other op ops v x (some nums) other = rw other refl

update_op_left-moved :
    (op : String) (ops : List String) (unmap : Bool) (left : OpLeft)
    → Map.lookup op left ≢ none
    → (left' : OpLeft) × (update_op_left op ops unmap left ≡ some left')
      × ((x : String) → Map.lookup x left' ≡ moved_if op ops (change unmap) x (Map.lookup x left))
unfolding update_op_left
update_op_left-moved op ops unmap left known = elim (Option-cases (Map.lookup op left)) [
  | inl absent ↦ absurd (known absent)
  | inr (nums, there) ↦
      let v = change unmap in
      let first = Map.insert op (nums.0 +ℤ v, nums.1) left in
      (
        shift_ops ops v first,
        rw (update_op_left, there) refl,
        λ x.
            let stored = Map.lookup-insert x op (nums.0 +ℤ v, nums.1) left in
            let all = lookup-shift_ops ops x v first in
            elim (Bool-cases (str_eq op x)) [
              | inl own ↦
                  let same : x ≡ op = ground (arith, eq_iff op x) in
                  let here : Map.lookup x left ≡ some nums = rw same there in
                  let now : Map.lookup x first ≡ some (nums.0 +ℤ v, nums.1) =
                    stored ∙ rw own refl in
                  all ∙ ap (shifted (occurs x ops) v) now ∙ rw (here, own) refl
              | inr other ↦
                  let stays : Map.lookup x first ≡ Map.lookup x left = stored ∙ rw other refl in
                  all
                  ∙ ap (shifted (occurs x ops) v) stays
                  ∙ moved-other op ops v x (Map.lookup x left) other
            ],
      )
]

moved-back :
    (op : String) (ops : List String) (x : String) (o : Option (ℤ × ℤ))
    → moved_if op ops (pos 1) x (moved_if op ops (negsuc 0) x o) ≡ o
moved-back op ops x none = refl
moved-back op ops x (some nums) = elim (Bool-cases (str_eq op x)) [
  | inl own ↦ rw (own, down_up nums.0, times-cancel (occurs x ops) nums.1) refl
  | inr other ↦ rw (other, times-cancel (occurs x ops) nums.1) refl
]

-- The entry of an operation once a node of the operation `op` is on a unit that can run `ops`: one
-- node less where it is the node's own operation, and as many units less as the unit lists it.
abbrev pub entry_after : String → List String → String → Option (ℤ × ℤ) → Option (ℤ × ℤ)
entry_after op ops x none = none
entry_after op ops x (some (nodes, units)) =
    some (if str_eq op x then nodes -ℤ pos 1 else nodes, units -ℤ pos (occurs x ops))

times-down : (k : ℕ) (b : ℤ) → times k (negsuc 0) b ≡ b -ℤ pos k
unfolding ◌-ℤ◌ ◌+ℤ◌
times-down zero b = ground arith
times-down (suc k) b = times-down k (b +ℤ negsuc 0) ∙ ground arith

one_down : (b : ℤ) → b +ℤ negsuc 0 ≡ b -ℤ pos 1
unfolding ◌-ℤ◌ ◌+ℤ◌
one_down b = ground arith

moved-entry_after :
    (op : String) (ops : List String) (x : String) (o : Option (ℤ × ℤ))
    → moved_if op ops (negsuc 0) x o ≡ entry_after op ops x o
moved-entry_after op ops x none = refl
moved-entry_after op ops x (some (nodes, units)) = elim (Bool-cases (str_eq op x)) [
  | inl own ↦ rw (own, one_down nodes, times-down (occurs x ops) units) refl
  | inr other ↦ rw (other, times-down (occurs x ops) units) refl
]

-- For an operation that has an entry, placing a node on a unit succeeds: the node's operation has one
-- node less, each operation has as many units less as the unit lists it, and no entry comes or goes.
-- Taking the node from the unit again succeeds and restores every entry.
pub update_op_left-restores :
    (op : String) (ops : List String) (left : OpLeft)
    → Map.lookup op left ≢ none
    → (placed : OpLeft) × (taken : OpLeft) × (update_op_left op ops false left ≡ some placed)
      × (update_op_left op ops true placed ≡ some taken)
      × ((x : String) → Map.lookup x placed ≡ entry_after op ops x (Map.lookup x left))
      × ((x : String) → Map.lookup x taken ≡ Map.lookup x left)
update_op_left-restores op ops left known =
    let (placed, down, found) = update_op_left-moved op ops false left known in
    let still : Map.lookup op placed ≢ none = λ gone. elim (Option-cases (Map.lookup op left)) [
      | inl absent ↦ known absent
      | inr (nums, there) ↦
          let e : moved_if op ops (negsuc 0) op (Map.lookup op left) ≡ none =
            sym (found op) ∙ gone in
          cc (rw there at e)
    ] in
    let (taken, up, found') = update_op_left-moved op ops true placed still in
    (
      placed,
      taken,
      down,
      up,
      λ x. found x ∙ moved-entry_after op ops x (Map.lookup x left),
      λ x.
          found' x
          ∙ ap (moved_if op ops (pos 1) x) (found x)
          ∙ moved-back op ops x (Map.lookup x left),
    )
