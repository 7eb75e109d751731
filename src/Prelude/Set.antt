-- ===== src/Prelude/Set.antt =====
-- `std::set` as a list of members in their order, which is the order of iteration.
use mathlib.Core.Path.{◌≡◌, refl}
use mathlib.Core.Bool.{Bool, false, not, ◌&&◌, ◌||◌}
use mathlib.Core.List.{List, [], ◌∷◌}
use native.Mathlib.Omega.{arith}
use fdra.Prelude.Tests.{Key, if◌then◌else◌}

abbrev pub Set : Type 0 → Type 0
Set K = List K

module _ {K : Type 0} ⦃e : Key K⦄ where
  -- `s.count(a)`
  abbrev pub count : K → Set K → Bool
  count a [] = false
  count a (b ∷ s) = e.beq b a || count a s

  abbrev pub emplace : K → Set K → Set K
  emplace a [] = a ∷ []
  emplace a (b ∷ s) = if e.beq b a then b ∷ s else if e.blt a b then a ∷ b ∷ s else b ∷ emplace a s

  abbrev pub erase : K → Set K → Set K
  erase a [] = []
  erase a (b ∷ s) = if e.beq b a then erase a s else b ∷ erase a s

  pub count-emplace : (a b : K) (s : Set K) → count a (emplace b s) ≡ (e.beq b a || count a s)
  count-emplace a b [] = refl
  count-emplace a b (c ∷ s) =
      ground (arith, e.beq_iff b a, e.beq_iff c b, e.beq_iff c a, count-emplace a b s)

  pub count-erase : (a b : K) (s : Set K) → count a (erase b s) ≡ (not (e.beq b a) && count a s)
  count-erase a b [] = ground arith
  count-erase a b (c ∷ s) =
      ground (arith, e.beq_iff b a, e.beq_iff c b, e.beq_iff c a, count-erase a b s)
