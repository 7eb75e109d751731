-- ===== src/Mapper/Mapping/Pass.antt =====
-- mapper/mapping.cpp, `routeDfgEdgePass`: which edges may pass through a block beside one another, and
-- which ports they hold.
pub mod Accepted
use fdra.Mapper.Mapping.{EdgeLinkAttr, DfgEdgeAttr, new_dfg_edge}
use fdra.Prelude.{
  Option, ◌==◌, Bool-cases, ℕ, Bool, true, false, not, ◌&&◌, ◌||◌, ◌≢◌, refl, ap, ◌∙◌, none, some,
  List, [], ◌∷◌, ◌++◌, ◌≡◌, if◌then◌else◌, nat_key, arith, Option-cases, inl, inr,
}
use mathlib.Core.Path.{subst}
use fdra.Prelude.Map
use fdra.Prelude.Map.{Map}
use fdra.Graph.Edge.{GraphEdge}
use fdra.Adg.Node.{GibNode, is_in_out_connected}
use fdra.Mapper.Port.{Port, port_key, port_eq}
use fdra.Mapper.Mapping.{
  Mapping, DfgEdgePassAttr, AdgNodeAttr, new_adg_node, is_adg_node_in_port_used,
  is_adg_node_out_port_used,
}
use fdra.Mapper.Mapping.Route.{
  Choice, same_source, shares, check_edges, choose_used, choose, push_link, update_node,
  pass_through, route_dfg_edge_pass,
}
use fdra.Mapper.Mapping.Unroute.{HoldsPort, Holds, IsHeld}

-- Two passing edges that share a port come from the same source.
abbrev pub agrees : DfgEdgePassAttr → DfgEdgePassAttr → Bool
agrees x y = not (shares y.src_port y.dst_port x) || same_source x.edge y.edge

abbrev AllAgree : DfgEdgePassAttr → List DfgEdgePassAttr → Type 0
AllAgree y [] = Unit {0}
AllAgree y (x ∷ xs) = (agrees x y ≡ true) × AllAgree y xs

abbrev pub AgreesWith : DfgEdgePassAttr → List DfgEdgePassAttr → Type 0
AgreesWith x [] = Unit {0}
AgreesWith x (y ∷ ys) = (agrees x y ≡ true) × AgreesWith x ys

-- Any two of the edges that pass through a node agree.
abbrev pub Compatible : List DfgEdgePassAttr → Type 0
Compatible [] = Unit {0}
Compatible (x ∷ xs) = AgreesWith x xs × Compatible xs

AgreesWith-snoc :
    (x y : DfgEdgePassAttr) (ys : List DfgEdgePassAttr)
    → AgreesWith x ys
    → agrees x y ≡ true
    → AgreesWith x (ys ++ y ∷ [])
AgreesWith-snoc x y [] h a = (a, tt)
AgreesWith-snoc x y (z ∷ ys) h a = (h.0, AgreesWith-snoc x y ys h.1 a)

Compatible-snoc :
    (y : DfgEdgePassAttr) (xs : List DfgEdgePassAttr)
    → Compatible xs
    → AllAgree y xs
    → Compatible (xs ++ y ∷ [])
Compatible-snoc y [] h a = (tt, tt)
Compatible-snoc y (x ∷ xs) h a = (AgreesWith-snoc x y xs h.0 a.0, Compatible-snoc y xs h.1 a.1)

abbrev passing : GraphEdge → Port → Port → DfgEdgePassAttr
passing e src dst = record { src_port = src; dst_port = dst; edge = e }

check_edges-AllAgree :
    (e : GraphEdge) (src dst : Port) (xs : List DfgEdgePassAttr) (c c' : Choice)
    → check_edges e src dst xs c ≡ some c'
    → AllAgree (passing e src dst) xs
unfolding check_edges
check_edges-AllAgree e src dst [] c c' h = tt
check_edges-AllAgree e src dst (x ∷ xs) c c' h =
    let next =
      if shares src dst x
      then record { route_src = x.src_port; route_dst = x.dst_port; has_same = true }
      else c in
    (ground arith, check_edges-AllAgree e src dst xs next c' (ground arith))

pub HoldsPort-set :
    (used : Map Port Bool) (p q : Port) → HoldsPort used p → HoldsPort (Map.insert q true used) p
HoldsPort-set used none q h = tt
HoldsPort-set used (some p) q h = ground (arith, Map.lookup-insert (some p) q true used)

HoldsPort-self : (used : Map Port Bool) (p : Port) → HoldsPort (Map.insert p true used) p
HoldsPort-self used none = tt
HoldsPort-self used (some p) = ground (arith, Map.lookup-insert (some p) (some p) true used)

pub Holds-snoc :
    (ins outs : Map Port Bool) (y : DfgEdgePassAttr) (xs : List DfgEdgePassAttr)
    → Holds ins outs xs
    → Holds (Map.insert y.src_port true ins) (Map.insert y.dst_port true outs) (xs ++ y ∷ [])
Holds-snoc ins outs y [] h = (HoldsPort-self ins y.src_port, HoldsPort-self outs y.dst_port, tt)
Holds-snoc ins outs y (x ∷ xs) h = (
  HoldsPort-set ins x.src_port y.src_port h.0,
  HoldsPort-set outs x.dst_port y.dst_port h.1,
  Holds-snoc ins outs y xs h.2,
)
