-- ===== src/Mapper/PassNodes/Examples.antt =====
-- Two nodes with an edge that lacks delay, and a unit that is left.
use fdra.Prelude.{
  ℕ, true, none, some, [], ◌∷◌, ◌≡◌, ◌≢◌, refl, or_else, take, is_some, nat_key, arith,
}
use fdra.Prelude.Int.{pos}
use fdra.Prelude.Set
use fdra.Prelude.Sorted.{IsSorted}
use fdra.Graph.Edge.{GraphEdge}
use fdra.Operations
use fdra.Operations.{OpTable}
use fdra.Dfg.Store.{Dfg, edge, add_edge, add_edge_src, add_edge_dst}
use fdra.Dfg.Ends.{has_src_edge, has_src_pair, dst_edge, dst_pair}
use fdra.Dfg.Copy.{AllIo}
use fdra.Dfg.Consistent.{IsConsistent}
use fdra.Dfg.Consistent.Keep.{add_edge-IsConsistent}
use fdra.Dfg.Topo.Lists.{IsDistinct}
use fdra.Adg.Store.{Adg}
use fdra.Mapper.Mapping.{Mapping}
use fdra.Mapper.Mapping.Examples.{chain, nothing_mapped}
use fdra.Mapper.PassNodes.{new_node, num_avail, sorted_vio, insert_pass_dfg_nodes}
use fdra.Mapper.PassNodes.Whole.{IsExtended, insert_pass_dfg_nodes-IsExtended}

abbrev bare : Dfg
bare = record {
  graph = record chain.graph { id = 0 };
  nodes = (1, new_node 1) ∷ (2, new_node 2) ∷ [];
  edges = [];
  io_nodes = [];
  topo_nodes = [];
}

abbrev blank : Dfg
blank = record bare { nodes = [] }

abbrev feed : GraphEdge
feed = record { id = 0; src_port_idx = 0; dst_port_idx = 0; src_id = 1; dst_id = 2 }

abbrev pair : Dfg
pair = or_else bare (add_edge feed bare)

pair_made : add_edge feed bare ≡ some pair
unfolding add_edge add_edge_src add_edge_dst
pair_made = refl

bare-IsConsistent : IsConsistent bare
unfolding edge has_src_edge has_src_pair dst_edge dst_pair
bare-IsConsistent = record {
  keyed = λ i e h. ground arith;
  src_edge = λ i e h. ground arith;
  src_pair = λ i e h. ground arith;
  in_edge = λ i e h. ground arith;
  in_pair = λ i e h. ground arith;
  src_edge_only = λ n p i h. absurd (ground arith);
  src_pair_only = λ n p c q h. absurd (ground arith);
  in_edge_only = λ c q i h. absurd (ground arith);
  in_pair_only = λ c q n p h. absurd (ground arith);
}

feed_fresh : edge 0 bare ≡ none
unfolding edge
feed_fresh = refl

feed_free : dst_edge bare 2 0 ≡ none
unfolding dst_edge
feed_free = refl

pair-IsConsistent : IsConsistent pair
pair-IsConsistent =
    add_edge-IsConsistent feed bare pair bare-IsConsistent feed_fresh feed_free pair_made

abbrev table : OpTable
table =
    (
      "PASS",
      record {
        opc = pos 0;
        num_operands = pos 1;
        num_res = pos 1;
        latency = pos 1;
        bit_width = pos 32;
        commutative = true;
        accumulative = true;
      },
    )
    ∷ []

abbrev roomy : Adg
roomy = record chain { num_gpe_nodes = 3 }

abbrev late : Mapping
late = record nothing_mapped { vio_dfg_edges = 0 ∷ [] }

has_pass : Operations.op_capable table "PASS" ≡ true
unfolding Operations.op_capable
has_pass = refl

own_zero : pair.id ≡ 0
unfolding add_edge add_edge_src add_edge_dst
own_zero = refl

plain : AllIo pair pair.nodes
unfolding add_edge add_edge_src add_edge_dst
plain = (refl, (refl, tt))

some_node : pair.nodes ≢ []
unfolding add_edge add_edge_src add_edge_dst
some_node h = cc h

some_edge : pair.edges ≢ []
unfolding add_edge add_edge_src add_edge_dst
some_edge h = cc h

feed_stored : (i : ℕ) → Set.count i late.vio_dfg_edges ≡ true → is_some (edge i pair) ≡ true
unfolding edge add_edge add_edge_src add_edge_dst
feed_stored i there = ground arith

units_left : num_avail roomy pair ≢ 0
unfolding add_edge add_edge_src add_edge_dst
units_left h = ground arith

nodes_rise : IsSorted pair.nodes
unfolding add_edge add_edge_src add_edge_dst
nodes_rise = (omega arith, (omega arith, tt))

edges_rise : IsSorted pair.edges
unfolding add_edge add_edge_src add_edge_dst
edges_rise = (omega arith, tt)

late-IsDistinct : IsDistinct late.vio_dfg_edges
late-IsDistinct = (refl, tt)

insert_pass_dfg_nodes-IsExtended_example :
    (g : Dfg) × (insert_pass_dfg_nodes table roomy pair blank late
      ≡ some (true, g, sorted_vio (num_avail roomy pair) late))
    × IsExtended table
        (take (num_avail roomy pair) (sorted_vio (num_avail roomy pair) late).vio_dfg_edges)
        pair
        g
insert_pass_dfg_nodes-IsExtended_example =
    insert_pass_dfg_nodes-IsExtended table roomy pair blank late has_pass pair-IsConsistent own_zero
      nodes_rise edges_rise plain some_node some_edge refl refl late-IsDistinct feed_stored
      units_left
