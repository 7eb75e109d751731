-- ===== src/Mapper/Supply/Counts.antt =====
-- mapper/mapper.cpp, `initOpLeftDfgAdgNum`: the table beside the two graphs.
use fdra.Prelude.{
  ℕ, zero, suc, ◌+◌, false, Option, none, some, List, [], ◌∷◌, ◌≡◌, refl, sym, ap, ◌∙◌, inl, inr,
  arith, if◌then◌else◌, Bool-cases, string_key,
}
use fdra.Prelude.Int.{ℤ, pos, ◌+ℤ◌}
use fdra.Prelude.Map
use fdra.Prelude.Map.{Map}
use fdra.Dfg.Node.{DfgNode}
use fdra.Dfg.Store.{Dfg}
use fdra.Adg.Node as AdgNode
use fdra.Adg.Node.{as_fu}
use fdra.Adg.Store.{Adg}
use fdra.Mapper.Mapping.Search.{has_type}
use fdra.Mapper.Supply.{
  OpLeft, one_more, count_node, count_nodes, shift_ops, count_units, init_op_left,
}
use fdra.Mapper.Supply.Shift.{occurs, times, shifted, lookup-shift_ops}
use Prim.Native.String.{String}
use text.Mathlib.Text.{◌==◌ as str_eq}
use text.Mathlib.TextEquality.{eq_iff}

-- The nodes with an operation.
abbrev pub nodes_with : String → Map ℕ DfgNode → ℕ
nodes_with op [] = 0
nodes_with op ((id, n) ∷ nodes) =
    if str_eq n.operation op then suc (nodes_with op nodes) else nodes_with op nodes

-- The operations of a node of the architecture.
abbrev pub ops_of : AdgNode.Node → List String
ops_of n = if has_type "GIB" n then [] else elim (as_fu n) [ none ↦ [] | some fu ↦ fu.operations ]

abbrev pub units_with : String → Map ℕ AdgNode.Node → ℕ
units_with op [] = 0
units_with op ((id, n) ∷ nodes) = occurs op (ops_of n) + units_with op nodes

-- Every node is a unit or an interconnect block.
abbrev pub AllUnits : Map ℕ AdgNode.Node → Type 0
AllUnits [] = Unit {0}
AllUnits ((id, n) ∷ nodes) =
    (has_type "GIB" n ≡ false → (fu : AdgNode.FuNode) × (as_fu n ≡ some fu)) × AllUnits nodes

-- The view of the table that the code keeps.
abbrev pub entry : ℕ → ℕ → Option (ℤ × ℤ)
entry zero units = none
entry (suc nodes) units = some (pos (suc nodes), pos units)

pos_suc : (n : ℕ) → pos n +ℤ pos 1 ≡ pos (suc n)
unfolding ◌+ℤ◌
pos_suc n = ground arith

one_more-entry : (k : ℕ) → some (one_more (entry k 0)) ≡ entry (suc k) 0
one_more-entry zero = refl
one_more-entry (suc k) = rw (pos_suc (suc k)) refl

lookup-count_node :
    (op x : String) (left : OpLeft) (k : ℕ)
    → Map.lookup x left ≡ entry k 0
    → Map.lookup x (count_node op left) ≡ entry (if str_eq op x then suc k else k) 0
unfolding count_node
lookup-count_node op x left k at =
    let stored = Map.lookup-insert x op (one_more (Map.lookup op left)) left in
    elim (Bool-cases (str_eq op x)) [
      | inl own ↦
          let same : x ≡ op = ground (arith, eq_iff op x) in
          let here : Map.lookup op left ≡ entry k 0 = rw (sym same) at in
          rw own (stored ∙ rw (own, here) (one_more-entry k))
      | inr other ↦ rw other (stored ∙ rw other at)
    ]

lookup-count_nodes :
    (nodes : Map ℕ DfgNode) (x : String) (left : OpLeft) (k : ℕ)
    → Map.lookup x left ≡ entry k 0
    → Map.lookup x (count_nodes nodes left) ≡ entry (nodes_with x nodes + k) 0
unfolding count_nodes
lookup-count_nodes [] x left k at = at ∙ ap (λ j. entry j 0) (omega arith)
lookup-count_nodes ((id, n) ∷ nodes) x left k at =
    let rest =
      lookup-count_nodes nodes x (count_node n.operation left)
        (if str_eq n.operation x then suc k else k) (lookup-count_node n.operation x left k at) in
    rest ∙ ap (λ j. entry j 0) (ground arith)

times-entry : (j units : ℕ) → times j (pos 1) (pos units) ≡ pos (j + units)
times-entry zero units = ap pos (omega arith)
times-entry (suc j) units =
    ap (times j (pos 1)) (pos_suc units) ∙ times-entry j (suc units) ∙ ap pos (omega arith)

shifted-entry : (j k units : ℕ) → shifted j (pos 1) (entry k units) ≡ entry k (j + units)
shifted-entry j zero units = refl
shifted-entry j (suc k) units = ap (λ z. some (pos (suc k), z)) (times-entry j units)

lookup-count_units :
    (nodes : Map ℕ AdgNode.Node) (left : OpLeft)
    → AllUnits nodes
    → (left' : OpLeft) × (count_units nodes left ≡ some left')
      × ((x : String) (k units : ℕ)
          → Map.lookup x left ≡ entry k units
          → Map.lookup x left' ≡ entry k (units_with x nodes + units))
unfolding count_units
lookup-count_units [] left all = (left, refl, λ x k units at. at ∙ ap (entry k) (omega arith))
lookup-count_units ((id, n) ∷ nodes) left (is_unit, all) = elim (Bool-cases (has_type "GIB" n)) [
  | inl block ↦
      let (left', run, found) = lookup-count_units nodes left all in
      (
        left',
        rw block run,
        λ x k units at. found x k units at ∙ ap (entry k) (rw block (omega arith)),
      )
  | inr no_block ↦
      let (fu, is_fu) = is_unit no_block in
      let (left', run, found) =
        lookup-count_units nodes (shift_ops fu.operations (pos 1) left) all in
      (
        left',
        rw (no_block, is_fu) run,
        λ x k units at.
            found x k (occurs x fu.operations + units) (
              lookup-shift_ops fu.operations x (pos 1) left
              ∙ ap (shifted (occurs x fu.operations) (pos 1)) at
              ∙ shifted-entry (occurs x fu.operations) k units)
            ∙ ap (entry k) (rw (no_block, is_fu) (omega arith)),
      )
]

-- On an architecture whose nodes are units or interconnect blocks the table is made. An operation has
-- an entry exactly if a node of the data-flow graph has it; the entry is the number of these nodes, and
-- how often the units of the architecture list the operation.
pub init_op_left-IsCount :
    (dfg : Dfg) (adg : Adg)
    → AllUnits adg.nodes
    → (left : OpLeft) × (init_op_left dfg adg ≡ some left)
      × ((op : String)
          → Map.lookup op left ≡ entry (nodes_with op dfg.nodes) (units_with op adg.nodes))
unfolding init_op_left
init_op_left-IsCount dfg adg all =
    let (left, run, found) = lookup-count_units adg.nodes (count_nodes dfg.nodes []) all in
    (
      left,
      run,
      λ op.
          let nodes : Map.lookup op (count_nodes dfg.nodes []) ≡ entry (nodes_with op dfg.nodes) 0 =
            lookup-count_nodes dfg.nodes op [] 0 refl ∙ ap (λ j. entry j 0) (omega arith) in
          found op (nodes_with op dfg.nodes) 0 nodes
          ∙ ap (entry (nodes_with op dfg.nodes)) (omega arith),
    )
