-- ===== src/Mapper/Mapping/Search.antt =====
-- mapper/mapping.cpp, `routeDfgEdgeFromDst`: the breadth-first search from a destination back to a
-- source, or to a node where an edge from the same source passes already. A key of `visitNodes` is a
-- node with one of its output ports; the output port of the destination is -1, which is `none`.
pub mod Fuel
use fdra.Prelude.{
  ℕ, zero, suc, Bool, true, false, not, ◌&&◌, ◌||◌, Option, none, some, List, [], ◌∷◌, ◌++◌, ◌==◌,
  if◌then◌else◌, nat_key, pair_key, length, is_some,
}
use fdra.Prelude.Map
use fdra.Prelude.Map.{Map}
use fdra.Prelude.Set.{Set}
use fdra.Prelude.Outcome.{Outcome, done, fault, out_of_fuel, ◌>>=◌, or_fault}
use fdra.Graph.Edge.{GraphEdge}
use fdra.Graph.Node as GraphNode
use fdra.Adg.Node as AdgNode
use fdra.Adg.Node.{GibNode, out2ins, as_gib, as_fu, base}
use fdra.Adg.Store as AdgStore
use fdra.Adg.Store.{Adg}
use fdra.Mapper.Port.{Port, port_eq, port_key}
use fdra.Mapper.Mapping.{
  Mapping, DfgEdgePassAttr, is_adg_node_out_port_used, is_iob_free, new_adg_node,
}
use fdra.Mapper.Mapping.Route.{same_source, route_dfg_edge_pass}
use Prim.Native.String.{String}
use text.Mathlib.Text.{◌==◌ as str_eq}

-- `VisitNodeInfo`, the node from which the key was reached.
pub record VisitNodeInfo : Type 0 where
  pub dst_node_id : ℕ
  pub dst_in_port_idx : ℕ
  pub dst_out_port_idx : Port

-- `visitNodes` and `nodeQue`.
pub record Search : Type 0 where
  pub visit_nodes : Map (ℕ × ℕ) VisitNodeInfo
  pub node_que : List (ℕ × Port)

-- What the search does with a key: `continue`, cache it, or end there, at the source or at an edge
-- from the same source.
pub data Verdict : Type 0 where
  skip : Verdict
  cache : Verdict
  reached : Verdict
  reuse : GraphEdge → Verdict

-- `finalSrcNode` and `sameSrcEdge` of a successful search.
pub record Found : Type 0 where
  pub final_src_node : ℕ × ℕ
  pub same_src_edge : Option GraphEdge

-- The loop over the edges that pass through a node whose output port is used.
unfoldable pub check_passing : GraphEdge → ℕ → List DfgEdgePassAttr → Verdict
check_passing e port [] = cache
check_passing e port (x ∷ xs) =
    let rest = check_passing e port xs in
    if port_eq x.dst_port (some port)
    then (if same_source x.edge e then reuse x.edge else skip)
    else rest

abbrev pub check_used : GraphEdge → ℕ × ℕ → Mapping → Verdict
check_used e (id, port) m =
    if is_adg_node_out_port_used id (some port) m
    then check_passing e port (Map.get_or id new_adg_node m.adg_node_attrs).dfg_edge_pass
    else cache

abbrev pub has_type : String → AdgNode.Node → Bool
has_type t n = str_eq (base n).type t

-- `dynamic_cast<IOBNode*>(n)->opCapable(op)`
abbrev pub iob_capable : String → AdgNode.Node → Bool
iob_capable op n = elim (as_fu n) [ none ↦ false | some fu ↦ AdgNode.op_capable op fu ]

-- The branches of the loop body, for a source node or for any free input block. `op` is the operation
-- of the edge's source.
unfoldable pub judge :
    GraphEdge → Option ℕ → String → ℕ × ℕ → AdgNode.Node → Bool → Mapping → Verdict
judge e (some src) op (id, port) n visited m =
    if src == id && e.src_port_idx == port
    then reached
    else if src == id || has_type "GPE" n || has_type "IOB" n || visited
    then skip
    else check_used e (id, port) m
judge e none op (id, port) n visited m =
    if has_type "IOB" n && is_iob_free id m && iob_capable op n
    then reached
    else if has_type "IOB" n || has_type "GPE" n || visited
    then skip
    else check_used e (id, port) m

abbrev pub enter : ℕ → Port → ℕ → ℕ × ℕ → Search → Search
enter here out_port in_port key s = record {
  node_que = s.node_que ++ (key.0, some key.1) ∷ [];
  visit_nodes =
      Map.insert key
        (record { dst_node_id = here; dst_in_port_idx = in_port; dst_out_port_idx = out_port })
        s.visit_nodes;
}

-- The arguments of the search that stay the same.
pub record Quest : Type 0 where
  pub edge : GraphEdge
  pub src : Option ℕ
  pub op : String
  pub dst : ℕ
  pub dst_port_range : Set ℕ

-- The loop over the input ports of the node at the head of the queue.
unfoldable pub scan_inputs :
    Adg
    → Mapping
    → Quest
    → ℕ
    → Port
    → AdgNode.Node
    → List ℕ
    → Search
    → Outcome (Search × Option Found)
scan_inputs adg m q here out_port n [] s = done (s, none)
scan_inputs adg m q here out_port n (in_port ∷ ports) s =
    let key = GraphNode.input in_port (base n).graph_node in
    let s' = enter here out_port in_port key s in
    elim (AdgStore.node key.0 adg) [
      | none ↦ fault
      | some next ↦ elim (judge q.edge q.src q.op key next (Map.count key s.visit_nodes) m) [
        | skip ↦ scan_inputs adg m q here out_port n ports s
        | cache ↦ scan_inputs adg m q here out_port n ports s'
        | reached ↦ done (s', some (record { final_src_node = key; same_src_edge = none }))
        | reuse x ↦ done (s', some (record { final_src_node = key; same_src_edge = some x }))
      ]
    ]

-- The inputs through which the edge can enter a block to leave by an output port.
unfoldable pub open_inputs : Mapping → GraphEdge → ℕ → GibNode → ℕ → List ℕ → List ℕ
open_inputs m e id gib out_port [] = []
open_inputs m e id gib out_port (i ∷ is) =
    let rest = open_inputs m e id gib out_port is in
    elim (route_dfg_edge_pass e id gib (some i) (some out_port) true m) [
      | none ↦ rest
      | some _ ↦ i ∷ rest
    ]

-- `inPortIdxs`; `none` is the failed cast to an interconnect block.
unfoldable pub in_port_idxs : Mapping → Quest → ℕ → Port → AdgNode.Node → Option (List ℕ)
unfolding open_inputs
in_port_idxs m q id none n = some q.dst_port_range
in_port_idxs m q id (some out_port) n = elim (as_gib n) [
  | none ↦ none
  | some gib ↦ some (open_inputs m q.edge id gib out_port (out2ins out_port gib))
]

-- The outer loop. `done none` is the answer false.
unfoldable pub search : ℕ → Adg → Mapping → Quest → Search → Outcome (Option (Search × Found))
search zero adg m q s = out_of_fuel
search (suc fuel) adg m q s = elim s.node_que [
  | [] ↦ done none
  | (id, out_port) ∷ que ↦ do
    n ← or_fault (AdgStore.node id adg)
    ports ← or_fault (in_port_idxs m q id out_port n)
    (t, found) ← scan_inputs adg m q id out_port n ports (record s { node_que = que })
    (elim found [ some f ↦ done (some (t, f)) | none ↦ search fuel adg m q t ])
]

-- The keys that a search can meet: where the inputs of the nodes come from, and the pair that a port
-- without an entry reads as.
abbrev pub input_keys : Map ℕ (ℕ × ℕ) → List (ℕ × ℕ)
input_keys [] = []
input_keys ((port, key) ∷ ins) = key ∷ input_keys ins

abbrev pub node_keys : Map ℕ AdgNode.Node → List (ℕ × ℕ)
node_keys [] = []
node_keys ((id, n) ∷ ns) = input_keys (base n).inputs ++ node_keys ns

abbrev pub all_keys : Adg → List (ℕ × ℕ)
all_keys adg = (0, 0) ∷ node_keys adg.nodes

-- One more than the destination and all keys.
abbrev pub enough : Adg → ℕ
enough adg = suc (suc (length (all_keys adg)))

abbrev pub start_search : ℕ → Search
start_search dst = record { visit_nodes = []; node_que = (dst, none) ∷ [] }
