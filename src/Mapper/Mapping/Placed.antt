-- ===== src/Mapper/Mapping/Placed.antt =====
-- mapper/mapping.cpp: the two tables of a mapping describe one partial bijection between the nodes
-- of the data-flow graph and those of the architecture graph, and the counter counts it.
use fdra.Prelude.{
  ℕ, ◌-◌, Bool, false, none, some, ◌≡◌, refl, ◌==◌, if◌then◌else◌, is_some, nat_key, arith,
  Option-cases, inl, inr,
}
use fdra.Prelude.Map
use fdra.Prelude.Map.{Map}
use fdra.Prelude.Sorted
use fdra.Mapper.Mapping.{
  Mapping, DfgNodeAttr, new_dfg_node, new_adg_node, mapped_adg_node, mapped_dfg_node,
  map_dfg_node_no_route, unmap_dfg_node_no_unroute, is_adg_node_in_port_used,
  is_adg_node_out_port_used, reset,
}
use fdra.Mapper.Port.{Port}

abbrev pub is_placed : DfgNodeAttr → Bool
is_placed attr = is_some attr.adg_node

pub record IsPlacement (m : Mapping) : Type 0 where
  pub forth : (d a : ℕ) → mapped_adg_node d m ≡ some a → mapped_dfg_node a m ≡ some d
  pub back : (d a : ℕ) → mapped_dfg_node a m ≡ some d → mapped_adg_node d m ≡ some a
  pub counted : m.num_node_mapped ≡ Sorted.count_if is_placed m.dfg_node_attrs
  pub sorted : Sorted.IsSorted m.dfg_node_attrs

-- The mapping after `reset` is a placement, the empty one.
pub reset-IsPlacement : (m : Mapping) → IsPlacement (reset m)
unfolding reset mapped_adg_node mapped_dfg_node
reset-IsPlacement m = record {
  forth = λ d a h. cc;
  back = λ d a h. cc;
  counted = refl;
  sorted = tt;
}

not_counted :
    (d : ℕ) (m : Mapping)
    → mapped_adg_node d m ≡ none
    → Sorted.bit_of is_placed (Map.lookup d m.dfg_node_attrs) ≡ 0
unfolding mapped_adg_node
not_counted d m h = ground arith

is_counted :
    (d a : ℕ) (m : Mapping)
    → mapped_adg_node d m ≡ some a
    → Sorted.bit_of is_placed (Map.lookup d m.dfg_node_attrs) ≡ 1
unfolding mapped_adg_node
is_counted d a m h = ground arith

module _ (d a : ℕ) (m : Mapping) where
  mapped_adg-map :
      (i : ℕ)
      → mapped_adg_node i (map_dfg_node_no_route d a m)
        ≡ (if d == i then some a else mapped_adg_node i m)
  unfolding mapped_adg_node map_dfg_node_no_route
  mapped_adg-map i = ground (
    arith,
    Map.lookup-insert i d
        (record (Map.get_or d new_dfg_node m.dfg_node_attrs) { adg_node = some a })
        m.dfg_node_attrs,
  )

  mapped_dfg-map :
      (i : ℕ)
      → mapped_dfg_node i (map_dfg_node_no_route d a m)
        ≡ (if a == i then some d else mapped_dfg_node i m)
  unfolding mapped_dfg_node map_dfg_node_no_route
  mapped_dfg-map i = ground (
    arith,
    Map.lookup-insert i a
        (record (Map.get_or a new_adg_node m.adg_node_attrs) { dfg_node = some d })
        m.adg_node_attrs,
  )

  -- Placing a node that is not placed on a unit that is free keeps the tables a placement: they
  -- stay inverse to each other, and the counter still counts the placed nodes.
  pub map_dfg_node_no_route-IsPlacement :
      IsPlacement m
      → mapped_adg_node d m ≡ none
      → mapped_dfg_node a m ≡ none
      → IsPlacement (map_dfg_node_no_route d a m)
  unfolding map_dfg_node_no_route
  map_dfg_node_no_route-IsPlacement p unplaced free = record {
    forth = λ i b h. ground (arith, mapped_adg-map i, mapped_dfg-map b, p.forth i b, p.forth i a);
    back = λ i b h. ground (arith, mapped_adg-map i, mapped_dfg-map b, p.back i b, p.back d b);
    counted =
        let v = record (Map.get_or d new_dfg_node m.dfg_node_attrs) { adg_node = some a } in
        omega (
          arith,
          p.counted,
          Sorted.count_if-insert is_placed d v m.dfg_node_attrs p.sorted,
          not_counted d m unplaced,
        );
    sorted = Sorted.insert-IsSorted d _ m.dfg_node_attrs p.sorted;
  }

-- Erasing the two entries, which is what unmapping a placed node does.
abbrev taken_out : ℕ → ℕ → Mapping → Mapping
taken_out d a m = record m {
  adg_node_attrs = Map.erase a m.adg_node_attrs;
  dfg_node_attrs = Map.erase d m.dfg_node_attrs;
  num_node_mapped = m.num_node_mapped - 1;
}

unmap_placed :
    (d a : ℕ) (m : Mapping)
    → mapped_adg_node d m ≡ some a
    → unmap_dfg_node_no_unroute d m ≡ taken_out d a m
unfolding unmap_dfg_node_no_unroute
unmap_placed d a m h = rw (h, unmap_dfg_node_no_unroute)

unmap_unplaced :
    (d : ℕ) (m : Mapping) → mapped_adg_node d m ≡ none → unmap_dfg_node_no_unroute d m ≡ m
unfolding unmap_dfg_node_no_unroute
unmap_unplaced d m h = rw (h, unmap_dfg_node_no_unroute)

module _ (d a : ℕ) (m : Mapping) where
  mapped_adg-out :
      (i : ℕ) → mapped_adg_node i (taken_out d a m) ≡ (if d == i then none else mapped_adg_node i m)
  unfolding mapped_adg_node
  mapped_adg-out i = ground (arith, Map.lookup-erase i d m.dfg_node_attrs)

  mapped_dfg-out :
      (i : ℕ) → mapped_dfg_node i (taken_out d a m) ≡ (if a == i then none else mapped_dfg_node i m)
  unfolding mapped_dfg_node
  mapped_dfg-out i = ground (arith, Map.lookup-erase i a m.adg_node_attrs)

  taken_out-IsPlacement :
      IsPlacement m → mapped_adg_node d m ≡ some a → IsPlacement (taken_out d a m)
  taken_out-IsPlacement p h = record {
    forth = λ i b e. ground (arith, mapped_adg-out i, mapped_dfg-out b, p.forth i b, p.forth d a h);
    back = λ i b e. ground (arith, mapped_adg-out i, mapped_dfg-out b, p.back i b, p.forth d a h);
    counted = omega (
      arith,
      p.counted,
      Sorted.count_if-erase is_placed d m.dfg_node_attrs p.sorted,
      is_counted d a m h,
    );
    sorted = Sorted.erase-IsSorted d m.dfg_node_attrs p.sorted;
  }

-- Unmapping any node, placed or not, keeps the tables a placement.
pub unmap_dfg_node_no_unroute-IsPlacement :
    (d : ℕ) (m : Mapping) → IsPlacement m → IsPlacement (unmap_dfg_node_no_unroute d m)
unmap_dfg_node_no_unroute-IsPlacement d m p = elim (Option-cases (mapped_adg_node d m)) [
  | inl absent ↦ rw (unmap_unplaced d m absent) p
  | inr (a, there) ↦ rw (unmap_placed d a m there) (taken_out-IsPlacement d a m p there)
]

-- What a placed-and-unmapped node leaves behind.
pub record IsUndone (d a : ℕ) (m m' : Mapping) : Type 0 where
  pub units : (i : ℕ) → mapped_adg_node i m' ≡ mapped_adg_node i m
  pub nodes : (i : ℕ) → mapped_dfg_node i m' ≡ mapped_dfg_node i m
  pub count : m'.num_node_mapped ≡ m.num_node_mapped
  pub in_free : (p : Port) → is_adg_node_in_port_used a p m' ≡ false
  pub out_free : (p : Port) → is_adg_node_out_port_used a p m' ≡ false

-- Placing a node that is not placed on a free unit and unmapping it restores the placement and the
-- counter, and leaves all ports of the unit unused.
pub unmap-map :
    (d a : ℕ) (m : Mapping)
    → mapped_adg_node d m ≡ none
    → mapped_dfg_node a m ≡ none
    → IsUndone d a m (unmap_dfg_node_no_unroute d (map_dfg_node_no_route d a m))
unfolding is_adg_node_in_port_used is_adg_node_out_port_used map_dfg_node_no_route
unmap-map d a m unplaced free =
    let m' = map_dfg_node_no_route d a m in
    let there : mapped_adg_node d m' ≡ some a = ground (arith, mapped_adg-map d a m d) in
    rw (unmap_placed d a m' there) (record {
      units = λ i. ground (arith, mapped_adg-out d a m' i, mapped_adg-map d a m i);
      nodes = λ i. ground (arith, mapped_dfg-out d a m' i, mapped_dfg-map d a m i);
      count = omega arith;
      in_free = λ p. ground (arith, Map.lookup-erase a a m'.adg_node_attrs);
      out_free = λ p. ground (arith, Map.lookup-erase a a m'.adg_node_attrs);
    })
