-- ===== src/Prelude/Table.antt =====
-- A table of sets, `std::map<int, std::set<A>>`, where `m[k]` of a missing key is the empty set.
use mathlib.Core.Path.{◌≡◌}
use mathlib.Core.Bool.{Bool, not, ◌&&◌, ◌||◌}
use mathlib.Core.List.{[]}
use native.Mathlib.Omega.{arith}
use fdra.Prelude.Tests.{Key}
use fdra.Prelude.Map
use fdra.Prelude.Map.{Map}
use fdra.Prelude.Set
use fdra.Prelude.Set.{Set}

module _ {K A : Type 0} ⦃e : Key K⦄ ⦃f : Key A⦄ where
  abbrev pub count : K → A → Map K (Set A) → Bool
  count k a m = Set.count a (Map.get_or k [] m)

  abbrev pub emplace : K → A → Map K (Set A) → Map K (Set A)
  emplace k a m = Map.update k [] (Set.emplace a) m

  abbrev pub erase : K → A → Map K (Set A) → Map K (Set A)
  erase k a m = Map.update k [] (Set.erase a) m

  pub count-emplace :
      (j k : K) (a b : A) (m : Map K (Set A))
      → count j a (emplace k b m) ≡ (e.beq k j && f.beq b a || count j a m)
  count-emplace j k a b m = ground (
    arith,
    Map.lookup-insert j k (Set.emplace b (Map.get_or k [] m)) m,
    Set.count-emplace a b (Map.get_or k [] m),
    e.beq_iff k j,
  )

  pub count-erase :
      (j k : K) (a b : A) (m : Map K (Set A))
      → count j a (erase k b m) ≡ (not (e.beq k j && f.beq b a) && count j a m)
  count-erase j k a b m = ground (
    arith,
    Map.lookup-insert j k (Set.erase b (Map.get_or k [] m)) m,
    Set.count-erase a b (Map.get_or k [] m),
    e.beq_iff k j,
  )
