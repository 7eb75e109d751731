-- ===== src/Mapper/Supply/Shift.antt =====
-- mapper/mapper.cpp, the loops over the operations of a unit: each entry moves as often as its operation
-- stands in the list.
use fdra.Prelude.{
  ℕ, zero, suc, Option, none, some, List, [], ◌∷◌, ◌≡◌, refl, sym, ap, ◌∙◌, inl, inr, arith,
  if◌then◌else◌, Bool-cases, Option-cases, string_key,
}
use fdra.Prelude.Int.{ℤ, pos, negsuc, ◌+ℤ◌, +ℤ_comm, +ℤ_assoc}
use fdra.Prelude.Map
use fdra.Mapper.Supply.{OpLeft, shift_op, shift_ops}
use Prim.Native.String.{String}
use text.Mathlib.Text.{◌==◌ as str_eq}
use text.Mathlib.TextEquality.{eq_iff}

-- How often an operation stands in a list.
abbrev pub occurs : String → List String → ℕ
occurs op [] = 0
occurs op (x ∷ xs) = if str_eq x op then suc (occurs op xs) else occurs op xs

-- A number that moves several times.
abbrev pub times : ℕ → ℤ → ℤ → ℤ
times zero v b = b
times (suc k) v b = times k v (b +ℤ v)

abbrev pub shifted : ℕ → ℤ → Option (ℤ × ℤ) → Option (ℤ × ℤ)
shifted k v none = none
shifted k v (some nums) = some (nums.0, times k v nums.1)

absent-shift_op :
    (op : String) (v : ℤ) (left : OpLeft) → Map.lookup op left ≡ none → shift_op op v left ≡ left
unfolding shift_op
absent-shift_op op v left absent = rw (shift_op, absent) refl

present-shift_op :
    (op : String) (v : ℤ) (left : OpLeft) (nums : ℤ × ℤ)
    → Map.lookup op left ≡ some nums
    → shift_op op v left ≡ Map.insert op (nums.0, nums.1 +ℤ v) left
unfolding shift_op
present-shift_op op v left nums there = rw (shift_op, there) refl

lookup-shift_op :
    (op x : String) (v : ℤ) (left : OpLeft)
    → Map.lookup x (shift_op op v left)
      ≡ (if str_eq op x then shifted 1 v (Map.lookup x left) else Map.lookup x left)
lookup-shift_op op x v left = elim (Option-cases (Map.lookup op left)) [
  | inl absent ↦
      let stays = ap (λ m. Map.lookup x m) (absent-shift_op op v left absent) in
      elim (Bool-cases (str_eq op x)) [
        | inl own ↦
            let same : x ≡ op = ground (arith, eq_iff op x) in
            let here : Map.lookup x left ≡ none = rw same absent in stays ∙ rw (own, here) refl
        | inr other ↦ stays ∙ rw other refl
      ]
  | inr (nums, there) ↦
      let stored =
        ap (λ m. Map.lookup x m) (present-shift_op op v left nums there)
        ∙ Map.lookup-insert x op (nums.0, nums.1 +ℤ v) left in
      elim (Bool-cases (str_eq op x)) [
        | inl own ↦
            let same : x ≡ op = ground (arith, eq_iff op x) in
            let here : Map.lookup x left ≡ some nums = rw same there in stored ∙ rw (own, here) refl
        | inr other ↦ stored ∙ rw other refl
      ]
]

shifted-step :
    (k : ℕ) (v : ℤ) (o : Option (ℤ × ℤ)) → shifted k v (shifted 1 v o) ≡ shifted (suc k) v o
shifted-step k v none = refl
shifted-step k v (some nums) = refl

shifted_zero : (v : ℤ) (o : Option (ℤ × ℤ)) → o ≡ shifted 0 v o
shifted_zero v none = refl
shifted_zero v (some nums) = refl

pub lookup-shift_ops :
    (ops : List String) (x : String) (v : ℤ) (left : OpLeft)
    → Map.lookup x (shift_ops ops v left) ≡ shifted (occurs x ops) v (Map.lookup x left)
unfolding shift_ops
lookup-shift_ops [] x v left = shifted_zero v (Map.lookup x left)
lookup-shift_ops (op ∷ ops) x v left =
    let rest = lookup-shift_ops ops x v (shift_op op v left) in
    let one = lookup-shift_op op x v left in
    elim (Bool-cases (str_eq op x)) [
      | inl own ↦
          let moved : Map.lookup x (shift_op op v left) ≡ shifted 1 v (Map.lookup x left) =
            one ∙ rw own refl in
          rw own (
            rest
            ∙ ap (shifted (occurs x ops) v) moved
            ∙ shifted-step (occurs x ops) v (Map.lookup x left))
      | inr other ↦
          let stays : Map.lookup x (shift_op op v left) ≡ Map.lookup x left = one ∙ rw other refl in
          rw other (rest ∙ ap (shifted (occurs x ops) v) stays)
    ]

times-add : (k : ℕ) (v b w : ℤ) → times k v (b +ℤ w) ≡ times k v b +ℤ w
times-add zero v b w = refl
times-add (suc k) v b w =
    ap (times k v) (+ℤ_assoc b w v ∙ ap (λ z. b +ℤ z) (+ℤ_comm w v) ∙ sym (+ℤ_assoc b v w))
    ∙ times-add k v (b +ℤ v) w

pub down_up : (b : ℤ) → b +ℤ negsuc 0 +ℤ pos 1 ≡ b
unfolding ◌+ℤ◌
down_up b = ground arith

-- Up as often as down.
pub times-cancel : (k : ℕ) (b : ℤ) → times k (pos 1) (times k (negsuc 0) b) ≡ b
times-cancel zero b = refl
times-cancel (suc k) b =
    times-add k (pos 1) (times k (negsuc 0) (b +ℤ negsuc 0)) (pos 1)
    ∙ ap (λ z. z +ℤ pos 1) (times-cancel k (b +ℤ negsuc 0))
    ∙ down_up b
