-- ===== src/Mapper/Mapping/Walk/Judged.antt =====
-- mapper/mapping.cpp, `routeDfgEdgeFromDst`: what the branches of the search say of a key.
use fdra.Prelude.{
  ℕ, Bool, true, false, not, ◌&&◌, Option, none, some, List, [], ◌∷◌, ◌≡◌, ◌≢◌, refl, nat_key,
  pair_key, arith,
}
use fdra.Prelude.Map
use fdra.Prelude.Map.{Map}
use fdra.Graph.Edge.{GraphEdge}
use fdra.Adg.Node as AdgNode
use fdra.Adg.Node.{base}
use fdra.Mapper.Port.{port_key}
use fdra.Mapper.Mapping.{Mapping, DfgEdgePassAttr, new_adg_node}
use fdra.Mapper.Mapping.Search.{
  skip, cache, reached, reuse, check_passing, check_used, has_type, judge,
}
use Prim.Native.String.{String}

-- A node that only routes: the search passes through no other.
abbrev pub is_router : AdgNode.Node → Bool
is_router n = not (has_type "GPE" n) && not (has_type "IOB" n)

check_passing-not_reached :
    (e : GraphEdge) (port : ℕ) (xs : List DfgEdgePassAttr) → check_passing e port xs ≢ reached
unfolding check_passing
check_passing-not_reached e port [] h = cc h
check_passing-not_reached e port (x ∷ xs) h = ground (arith, check_passing-not_reached e port xs)

pub check_used-not_reached :
    (e : GraphEdge) (key : ℕ × ℕ) (m : Mapping) → check_used e key m ≢ reached
check_used-not_reached e key m h = ground (
  arith,
  check_passing-not_reached e key.1 (Map.get_or key.0 new_adg_node m.adg_node_attrs).dfg_edge_pass,
)

module _ (e : GraphEdge) (op : String) (key : ℕ × ℕ) (n : AdgNode.Node) (m : Mapping) where
  -- A cached key was not cached before, is a router's, and would be skipped from now on.
  pub judge-cached :
      (src : Option ℕ) (visited : Bool)
      → judge e src op key n visited m ≡ cache
      → (visited ≡ false) × (is_router n ≡ true) × (judge e src op key n true m ≡ skip)
  unfolding judge
  judge-cached (some src) true h = absurd (ground arith)
  judge-cached none true h = absurd (ground arith)
  judge-cached (some src) false h = (refl, ground arith, ground arith)
  judge-cached none false h = (refl, ground arith, ground arith)

  pub judge-reached :
      (src : Option ℕ) (visited : Bool)
      → judge e src op key n visited m ≡ reached
      → judge e src op key n true m ≡ reached
  unfolding judge
  judge-reached (some src) visited h = ground (arith, check_used-not_reached e key m)
  judge-reached none visited h = ground (arith, check_used-not_reached e key m)

  pub judge-reuse :
      (src : Option ℕ) (visited : Bool) (x : GraphEdge)
      → judge e src op key n visited m ≡ reuse x
      → visited ≡ false
  unfolding judge
  judge-reuse (some src) true x h = absurd (ground arith)
  judge-reuse none true x h = absurd (ground arith)
  judge-reuse src false x h = refl
