-- ===== src/Prelude/Sorted.antt =====
-- Maps on numbers whose keys rise, as those of `std::map` do: updates keep them so and change a
-- count of entries by one entry.
use Prim.Native.Nat.{ℕ, suc, ◌+◌, ◌<◌, ◌≤◌}
use mathlib.Core.Path.{◌≡◌, refl}
use mathlib.Core.Bool.{Bool, true, false}
use mathlib.Core.Option.{Option, none, some}
use mathlib.Core.List.{[], ◌∷◌}
use native.Mathlib.Omega.{arith}
use fdra.Prelude.Tests.{nat_key}
use fdra.Prelude.Map
use fdra.Prelude.Map.{Map}

abbrev pub bit : Bool → ℕ
bit true = 1
bit false = 0

module _ {ℓ} {V : Type ℓ} where
  -- All keys are at least `k`, and they rise.
  abbrev pub IsFrom : ℕ → Map ℕ V → Type 0
  IsFrom k [] = Unit {0}
  IsFrom k ((j, v) ∷ m) = (k ≤ j) × IsFrom (suc j) m

  abbrev pub IsSorted : Map ℕ V → Type 0
  IsSorted m = IsFrom 0 m

  -- The number of entries that pass a test.
  abbrev pub count_if : (V → Bool) → Map ℕ V → ℕ
  count_if p [] = 0
  count_if p ((k, v) ∷ m) = bit (p v) + count_if p m

  abbrev pub bit_of : (V → Bool) → Option V → ℕ
  bit_of p none = 0
  bit_of p (some v) = bit (p v)

  IsFrom-mono : (k l : ℕ) (m : Map ℕ V) → k ≤ l → IsFrom l m → IsFrom k m
  IsFrom-mono k l [] h s = tt
  IsFrom-mono k l ((j, v) ∷ m) h s = (omega arith, s.1)

  pub lookup_below : (k l : ℕ) (m : Map ℕ V) → k < l → IsFrom l m → Map.lookup k m ≡ none
  lookup_below k l [] h s = refl
  lookup_below k l ((j, v) ∷ m) h s = ground (arith, lookup_below k (suc j) m)

  insert-IsFrom : (b k : ℕ) (v : V) (m : Map ℕ V) → b ≤ k → IsFrom b m → IsFrom b (Map.insert k v m)
  insert-IsFrom b k v [] h s = (h, tt)
  insert-IsFrom b k v ((j, w) ∷ m) h s = ground (arith, insert-IsFrom (suc j) k v m)

  erase-IsFrom : (b k : ℕ) (m : Map ℕ V) → IsFrom b m → IsFrom b (Map.erase k m)
  erase-IsFrom b k [] s = tt
  erase-IsFrom b k ((j, w) ∷ m) s =
      let rest = erase-IsFrom (suc j) k m s.1 in
      ground (arith, rest, IsFrom-mono b (suc j) (Map.erase k m))

  pub insert-IsSorted : (k : ℕ) (v : V) (m : Map ℕ V) → IsSorted m → IsSorted (Map.insert k v m)
  insert-IsSorted k v m = insert-IsFrom 0 k v m (omega arith)

  pub erase-IsSorted : (k : ℕ) (m : Map ℕ V) → IsSorted m → IsSorted (Map.erase k m)
  erase-IsSorted k m = erase-IsFrom 0 k m

  count_if-insert_from :
      (b : ℕ) (p : V → Bool) (k : ℕ) (v : V) (m : Map ℕ V)
      → IsFrom b m
      → count_if p (Map.insert k v m) + bit_of p (Map.lookup k m) ≡ count_if p m + bit (p v)
  count_if-insert_from b p k v [] s = omega arith
  count_if-insert_from b p k v ((j, w) ∷ m) s =
      ground (arith, count_if-insert_from (suc j) p k v m s.1, lookup_below k (suc j) m)

  erase_below : (b k : ℕ) (m : Map ℕ V) → k < b → IsFrom b m → Map.erase k m ≡ m
  erase_below b k [] h s = refl
  erase_below b k ((j, w) ∷ m) h s = ground (arith, erase_below (suc j) k m)

  count_if-erase_from :
      (b : ℕ) (p : V → Bool) (k : ℕ) (m : Map ℕ V)
      → IsFrom b m
      → count_if p (Map.erase k m) + bit_of p (Map.lookup k m) ≡ count_if p m
  count_if-erase_from b p k [] s = omega arith
  count_if-erase_from b p k ((j, w) ∷ m) s =
      ground (arith, count_if-erase_from (suc j) p k m s.1, erase_below (suc j) k m)

  pub count_if-insert :
      (p : V → Bool) (k : ℕ) (v : V) (m : Map ℕ V)
      → IsSorted m
      → count_if p (Map.insert k v m) + bit_of p (Map.lookup k m) ≡ count_if p m + bit (p v)
  count_if-insert = count_if-insert_from 0

  pub count_if-erase :
      (p : V → Bool) (k : ℕ) (m : Map ℕ V)
      → IsSorted m
      → count_if p (Map.erase k m) + bit_of p (Map.lookup k m) ≡ count_if p m
  count_if-erase = count_if-erase_from 0
