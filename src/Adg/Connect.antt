-- ===== src/Adg/Connect.antt =====
-- adg/adg_node.cpp and ir/adg_ir.cpp: the switch of an interconnect block. The parser enters each
-- internal connection in both directions.
use fdra.Prelude.{
  ℕ, Bool, false, List, [], ◌∷◌, ◌≡◌, refl, ◌==◌, ◌&&◌, ◌||◌, arith, nat_key, Option-cases, inl,
  inr,
}
use fdra.Prelude.Map
use fdra.Prelude.Set
use fdra.Prelude.Table
use fdra.Adg.Node.{
  GibNode, in2outs, add_out2ins, add_in2outs, has_ports, any_equal, is_in_out_connected,
}

-- One connection from an input port to an output port.
unfoldable pub connect : ℕ × ℕ → GibNode → GibNode
unfolding add_out2ins add_in2outs
connect (in_port, out_port) n = add_out2ins out_port in_port (add_in2outs in_port out_port n)

-- The connections in the order in which they are found. The walk over the inputs of the inner graph
-- that finds them is not modelled: they are the argument.
unfoldable pub connect_all : List (ℕ × ℕ) → GibNode → GibNode
connect_all [] n = n
connect_all (c ∷ cs) n = connect_all cs (connect c n)

-- The connection is among those listed, and the block has both ports.
abbrev pub listed : ℕ → ℕ → List (ℕ × ℕ) → Bool
listed i o [] = false
listed i o ((a, b) ∷ cs) = a == i && b == o || listed i o cs

any_equal-count : (i : ℕ) (ins : List ℕ) → any_equal i ins ≡ Set.count i ins
unfolding any_equal
any_equal-count i [] = refl
any_equal-count i (j ∷ ins) = ground (arith, any_equal-count i ins)

connected-count :
    (i o : ℕ) (n : GibNode) → is_in_out_connected i o n ≡ Table.count o i n.outs_to_ins
unfolding is_in_out_connected
connected-count i o n = elim (Option-cases (Map.lookup o n.outs_to_ins)) [
  | inl absent ↦ ground arith
  | inr (ins, there) ↦ ground (arith, any_equal-count i ins)
]

-- The three views of the switch after one connection.
count-connect :
    (i o a b : ℕ) (n : GibNode)
    → let n' = connect (a, b) n in
      (Table.count o i n'.outs_to_ins
        ≡ ((has_ports a b n && (b == o && a == i)) || Table.count o i n.outs_to_ins))
      × (Table.count i o n'.ins_to_outs
          ≡ ((has_ports a b n && (b == o && a == i)) || Table.count i o n.ins_to_outs))
      × (has_ports i o n' ≡ has_ports i o n)
unfolding connect
count-connect i o a b n = (
  ground (arith, Table.count-emplace o b i a n.outs_to_ins),
  ground (arith, Table.count-emplace i a o b n.ins_to_outs),
  ground arith,
)

count-connect_all :
    (i o : ℕ) (cs : List (ℕ × ℕ)) (n : GibNode)
    → let n' = connect_all cs n in
      (Table.count o i n'.outs_to_ins
        ≡ ((has_ports i o n && listed i o cs) || Table.count o i n.outs_to_ins))
      × (Table.count i o n'.ins_to_outs
          ≡ ((has_ports i o n && listed i o cs) || Table.count i o n.ins_to_outs))
unfolding connect_all
count-connect_all i o [] n = (ground arith, ground arith)
count-connect_all i o ((a, b) ∷ cs) n =
    let rest = count-connect_all i o cs (connect (a, b) n) in
    let first = count-connect i o a b n in
    (ground (arith, rest, first), ground (arith, rest, first))

-- After the parser has entered any list of connections into a block, an input and an output port
-- are connected exactly if the list joins them and the block has both, or they were connected
-- before; and the outputs of the input hold the output exactly if the list joins them and the block
-- has both, or they held it before.
pub connect_all-connected :
    (i o : ℕ) (cs : List (ℕ × ℕ)) (n : GibNode)
    → (is_in_out_connected i o (connect_all cs n)
        ≡ ((has_ports i o n && listed i o cs) || is_in_out_connected i o n))
      × (Set.count o (in2outs i (connect_all cs n))
          ≡ ((has_ports i o n && listed i o cs) || Set.count o (in2outs i n)))
unfolding in2outs
connect_all-connected i o cs n =
    let views = count-connect_all i o cs n in
    (ground (arith, views, connected-count i o n, connected-count i o (connect_all cs n)), views.1)
