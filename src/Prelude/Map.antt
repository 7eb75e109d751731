-- ===== src/Prelude/Map.antt =====
-- `std::map` as a list of entries in the order of the keys, which is the order of iteration.
use mathlib.Core.Path.{◌≡◌, refl}
use mathlib.Core.Bool.{Bool}
use mathlib.Core.Option.{Option, none, some}
use mathlib.Core.List.{List, [], ◌∷◌}
use native.Mathlib.Omega.{arith}
use fdra.Prelude.Tests.{Key, if◌then◌else◌, is_some, or_else}

abbrev pub Map {ℓ} : Type 0 → Type ℓ → Type ℓ
Map K V = List (K × V)

module _ {ℓ} {K : Type 0} {V : Type ℓ} ⦃e : Key K⦄ where
  abbrev pub lookup : K → Map K V → Option V
  lookup k [] = none
  lookup k ((j, v) ∷ m) = if e.beq j k then some v else lookup k m

  -- `m[k] = v`
  abbrev pub insert : K → V → Map K V → Map K V
  insert k v [] = (k, v) ∷ []
  insert k v ((j, w) ∷ m) =
      if e.beq j k
      then (k, v) ∷ m
      else if e.blt k j
      then (k, v) ∷ (j, w) ∷ m
      else (j, w) ∷ insert k v m

  abbrev pub erase : K → Map K V → Map K V
  erase k [] = []
  erase k ((j, v) ∷ m) = if e.beq j k then erase k m else (j, v) ∷ erase k m

  -- `m.count(k)`
  abbrev pub count : K → Map K V → Bool
  count k m = is_some (lookup k m)

  -- the value that `m[k]` reads, where `d` is the value of a new entry
  abbrev pub get_or : K → V → Map K V → V
  get_or k d m = or_else d (lookup k m)

  -- `f(m[k])`, an update in place, where `d` is the value of a new entry
  abbrev pub update : K → V → (V → V) → Map K V → Map K V
  update k d f m = insert k (f (get_or k d m)) m

  pub lookup-insert :
      (j k : K) (v : V) (m : Map K V)
      → lookup j (insert k v m) ≡ (if e.beq k j then some v else lookup j m)
  lookup-insert j k v [] = refl
  lookup-insert j k v ((i, w) ∷ m) =
      ground (arith, e.beq_iff k j, e.beq_iff i k, e.beq_iff i j, lookup-insert j k v m)

  pub lookup-erase :
      (j k : K) (m : Map K V) → lookup j (erase k m) ≡ (if e.beq k j then none else lookup j m)
  lookup-erase j k [] = ground arith
  lookup-erase j k ((i, w) ∷ m) =
      ground (arith, e.beq_iff k j, e.beq_iff i k, e.beq_iff i j, lookup-erase j k m)
