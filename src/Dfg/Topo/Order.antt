-- ===== src/Dfg/Topo/Order.antt =====
-- What a search of an acyclic graph does to its state.
use fdra.Prelude.{ℕ, true, false, [], nat_key, ◌≡◌, ◌⊎◌, arith}
use fdra.Prelude.Map
use fdra.Prelude.Map.{Map}
use fdra.Prelude.Set
use fdra.Dfg.Store.{Dfg}
use fdra.Dfg.Topo.{Visit, is_visited, mark, push}
use fdra.Dfg.Topo.Lists.{
  InputsIn, IsOrdered, IsDistinct, count-snoc, IsOrdered-snoc, IsDistinct-snoc,
}

-- A node that is visited and not yet in the order: the search is at work on it.
abbrev pub IsOpen : Visit → ℕ → Type 0
IsOpen s v = (is_visited s v ≡ true) × (Set.count v s.topo ≡ false)

pub record Inv (g : Dfg) (s : Visit) : Type 0 where
  pub ordered : IsOrdered g [] s.topo
  pub distinct : IsDistinct s.topo
  pub finished : (v : ℕ) → Set.count v s.topo ≡ true → is_visited s v ≡ true

-- The search adds to the order, and leaves the open nodes as they are.
pub record Extends (g : Dfg) (s t : Visit) : Type 0 where
  pub inv : Inv g t
  pub keeps : (v : ℕ) → Set.count v s.topo ≡ true → Set.count v t.topo ≡ true
  pub open_from : (v : ℕ) → IsOpen t v → IsOpen s v
  pub open_to : (v : ℕ) → IsOpen s v → IsOpen t v

module _ (g : Dfg) where
  pub Extends-refl : (s : Visit) → Inv g s → Extends g s s
  Extends-refl s i = record { inv = i; keeps = λ v h. h; open_from = λ v h. h; open_to = λ v h. h }

  pub Extends-trans : (s t u : Visit) → Extends g s t → Extends g t u → Extends g s u
  Extends-trans s t u a b = record {
    inv = b.inv;
    keeps = λ v h. b.keeps v (a.keeps v h);
    open_from = λ v h. a.open_from v (b.open_from v h);
    open_to = λ v h. b.open_to v (a.open_to v h);
  }

  pub mark-Inv : (id : ℕ) (s : Visit) → Inv g s → Inv g (mark id s)
  mark-Inv id s i = record {
    ordered = i.ordered;
    distinct = i.distinct;
    finished = λ v h. ground (arith, i.finished v h, Map.lookup-insert v id true s.visited);
  }

  pub IsOpen-mark : (id v : ℕ) (s : Visit) → IsOpen (mark id s) v → (v ≡ id) ⊎ IsOpen s v
  IsOpen-mark id v s o = ground (arith, Map.lookup-insert v id true s.visited)

  -- The last step of a call on an unvisited node, whose inputs the loop has put into the order.
  pub push-Extends :
      (id : ℕ) (s t : Visit)
      → Inv g s
      → is_visited s id ≡ false
      → Extends g (mark id s) t
      → InputsIn g t.topo id
      → Extends g s (push id t)
  push-Extends id s t i new x ins =
      let unfinished : Set.count id s.topo ≡ false = ground (arith, i.finished id) in
      let here : IsOpen (mark id s) id =
        (ground (arith, Map.lookup-insert id id true s.visited), unfinished) in
      let still = x.open_to id here in
      record {
        inv = record {
          ordered = IsOrdered-snoc g [] t.topo t.topo id x.inv.ordered (λ v h. ground arith) ins;
          distinct = IsDistinct-snoc t.topo id x.inv.distinct still.1;
          finished = λ v h. ground (arith, x.inv.finished v, still.0, count-snoc v id t.topo);
        };
        keeps = λ v h. ground (arith, x.keeps v h, count-snoc v id t.topo);
        open_from = λ v o.
            ground
              (arith, x.open_from v, count-snoc v id t.topo, Map.lookup-insert v id true s.visited);
        open_to = λ v o.
            ground
              (arith, x.open_to v, count-snoc v id t.topo, Map.lookup-insert v id true s.visited);
      }
