-- ===== src/Mapper/Supply/Check.antt =====
-- mapper/mapper.cpp, `preMapCheck`: what the check before the mapping means.
use fdra.Prelude.{
  ℕ, suc, ◌+◌, ◌-◌, ◌≤◌, Bool, true, false, some, List, [], ◌∷◌, ◌≡◌, ◌↔◌, refl, ◌∙◌, inl, inr,
  arith, if◌then◌else◌, Bool-cases, length, ltb, string_key,
}
use fdra.Prelude.Map
use fdra.Prelude.Map.{Map}
use fdra.Dfg.Node.{DfgNode}
use fdra.Dfg.Store.{Dfg}
use fdra.Adg.Node as AdgNode
use fdra.Adg.Node.{as_fu}
use fdra.Adg.Store.{Adg}
use fdra.Mapper.Mapping.Search.{has_type}
use fdra.Mapper.Supply.{count_op, cal_adg_op_cnt, count_dfg_ops, covers, pre_map_check}
use fdra.Mapper.Supply.Shift.{occurs}
use fdra.Mapper.Supply.Counts.{nodes_with, units_with, AllUnits}
use mathlib.Core.Path.{subst}
use Prim.Native.String.{String}
use text.Mathlib.Text.{◌==◌ as str_eq}
use text.Mathlib.TextEquality.{eq_iff}

-- The number of an operation after one more has been counted.
get-update :
    (op x : String) (cnt : Map String ℕ)
    → Map.get_or x 0 (Map.update op 0 (λ k. k + 1) cnt)
      ≡ (if str_eq op x then suc (Map.get_or x 0 cnt) else Map.get_or x 0 cnt)
get-update op x cnt =
    let stored = Map.lookup-insert x op (Map.get_or op 0 cnt + 1) cnt in
    elim (Bool-cases (str_eq op x)) [
      | inl own ↦
          let same : x ≡ op = ground (arith, eq_iff op x) in
          rw (own, stored, own, same) (omega arith)
      | inr other ↦ rw (other, stored, other) refl
    ]

get-count_op :
    (ops : List String) (x : String) (cnt : Map String ℕ)
    → Map.get_or x 0 (count_op ops cnt) ≡ occurs x ops + Map.get_or x 0 cnt
unfolding count_op
get-count_op [] x cnt = omega arith
get-count_op (op ∷ ops) x cnt =
    ground (arith, get-count_op ops x (Map.update op 0 (λ k. k + 1) cnt), get-update op x cnt)

-- The counts of the architecture.
pub get-cal_adg_op_cnt :
    (nodes : Map ℕ AdgNode.Node) (cnt : Map String ℕ)
    → AllUnits nodes
    → (cnt' : Map String ℕ) × (cal_adg_op_cnt nodes cnt ≡ some cnt')
      × ((x : String) → Map.get_or x 0 cnt' ≡ units_with x nodes + Map.get_or x 0 cnt)
unfolding cal_adg_op_cnt
get-cal_adg_op_cnt [] cnt all = (cnt, refl, λ x. omega arith)
get-cal_adg_op_cnt ((id, n) ∷ nodes) cnt (is_unit, all) = elim (Bool-cases (has_type "GIB" n)) [
  | inl block ↦
      let (cnt', run, found) = get-cal_adg_op_cnt nodes cnt all in
      (cnt', rw block run, λ x. found x ∙ rw block (omega arith))
  | inr no_block ↦
      let (fu, is_fu) = is_unit no_block in
      let (cnt', run, found) = get-cal_adg_op_cnt nodes (count_op fu.operations cnt) all in
      (
        cnt',
        rw (no_block, is_fu) run,
        λ x. found x ∙ rw (no_block, is_fu) (omega (arith, get-count_op fu.operations x cnt)),
      )
]

-- Every node has an operation.
abbrev pub AllNamed : Map ℕ DfgNode → Type 0
AllNamed [] = Unit {0}
AllNamed ((id, n) ∷ nodes) = (str_eq n.operation "" ≡ false) × AllNamed nodes

-- No entry is above a bound.
abbrev AllWithin : (String → ℕ) → Map String ℕ → Type 0
AllWithin bound [] = Unit {0}
AllWithin bound ((op, k) ∷ cnt) = (k ≤ bound op) × AllWithin bound cnt

insert-AllWithin :
    (bound : String → ℕ) (op : String) (k : ℕ) (cnt : Map String ℕ)
    → k ≤ bound op
    → AllWithin bound cnt
    → AllWithin bound (Map.insert op k cnt)
insert-AllWithin bound op k [] within all = (within, tt)
insert-AllWithin bound op k ((x, j) ∷ cnt) within (first, all) =
    let rest = insert-AllWithin bound op k cnt within all in
    elim (Bool-cases (str_eq x op)) [
      | inl own ↦ rw own (within, all)
      | inr other ↦ elim (Bool-cases (string_key.blt op x)) [
        | inl before ↦ rw (other, before) (within, (first, all))
        | inr after ↦ rw (other, after) (first, rest)
      ]
    ]

-- The counts of the data-flow graph.
get-count_dfg_ops :
    (nodes : Map ℕ DfgNode) (cnt : Map String ℕ)
    → AllNamed nodes
    → (cnt' : Map String ℕ) × (count_dfg_ops nodes cnt ≡ some cnt')
      × ((x : String) → Map.get_or x 0 cnt' ≡ nodes_with x nodes + Map.get_or x 0 cnt)
unfolding count_dfg_ops
get-count_dfg_ops [] cnt named = (cnt, refl, λ x. omega arith)
get-count_dfg_ops ((id, n) ∷ nodes) cnt (name, named) =
    let (cnt', run, found) =
      get-count_dfg_ops nodes (Map.update n.operation 0 (λ k. k + 1) cnt) named in
    (cnt', rw name run, λ x. ground (arith, found x, get-update n.operation x cnt))

count_dfg_ops-AllWithin :
    (bound : String → ℕ) (nodes : Map ℕ DfgNode) (cnt cnt' : Map String ℕ)
    → AllNamed nodes
    → ((x : String) → nodes_with x nodes + Map.get_or x 0 cnt ≤ bound x)
    → AllWithin bound cnt
    → count_dfg_ops nodes cnt ≡ some cnt'
    → AllWithin bound cnt'
unfolding count_dfg_ops
count_dfg_ops-AllWithin bound [] cnt cnt' named room all run =
    let same : cnt ≡ cnt' = ground arith in subst (AllWithin bound) same all
count_dfg_ops-AllWithin bound ((id, n) ∷ nodes) cnt cnt' (name, named) room all run =
    let op = n.operation in
    let next = Map.update op 0 (λ k. k + 1) cnt in
    let own : Map.get_or op 0 cnt + 1 ≤ bound op = ground (arith, room op, eq_iff op op) in
    count_dfg_ops-AllWithin bound nodes next cnt' named
      (λ x. ground (arith, room x, get-update op x cnt))
      (insert-AllWithin bound op (Map.get_or op 0 cnt + 1) cnt own all) (rw name at run)

AllWithin-covers :
    (a cnt : Map String ℕ) → AllWithin (λ x. Map.get_or x 0 a) cnt → covers a cnt ≡ true
unfolding covers
AllWithin-covers a [] all = refl
AllWithin-covers a ((op, k) ∷ cnt) (first, all) =
    let enough : ltb (Map.get_or op 0 a) k ≡ false = ground (arith, first) in
    rw enough (AllWithin-covers a cnt all)

covers-within :
    (a cnt : Map String ℕ) (x : String)
    → covers a cnt ≡ true
    → Map.get_or x 0 cnt ≤ Map.get_or x 0 a
unfolding covers
covers-within a [] x holds = omega arith
covers-within a ((op, k) ∷ cnt) x holds = elim (Bool-cases (ltb (Map.get_or op 0 a) k)) [
  | inl short ↦ absurd (cc (rw short at holds))
  | inr enough ↦
      let rest = covers-within a cnt x (rw enough at holds) in
      elim (Bool-cases (str_eq op x)) [
        | inl own ↦
            let same : x ≡ op = ground (arith, eq_iff op x) in
            let first : k ≤ Map.get_or op 0 a = ground (arith, enough) in rw (own, same) first
        | inr other ↦ rw other rest
      ]
]

-- The resources are enough, operation by operation.
pub record IsEnough (adg : Adg) (dfg : Dfg) : Type 0 where
  pub blocks : length dfg.io_nodes ≤ adg.num_iob_nodes
  pub units : length dfg.nodes ≤ adg.num_gpe_nodes + length dfg.io_nodes
  pub ops : (op : String) → nodes_with op dfg.nodes ≤ units_with op adg.nodes

-- With the counts that the mapper has made of an architecture of units and interconnect blocks, on a
-- graph whose nodes have operations and of which the input and output nodes are a part: the check
-- answers, and the answer is true exactly if there are enough blocks for the input and output nodes,
-- enough units for the other nodes, and for each operation as many units as nodes.
pub pre_map_check-IsEnough :
    (adg : Adg) (dfg : Dfg) (cnt : Map String ℕ)
    → AllUnits adg.nodes
    → AllNamed dfg.nodes
    → length dfg.io_nodes ≤ length dfg.nodes
    → cal_adg_op_cnt adg.nodes [] ≡ some cnt
    → (answer : Bool) × (pre_map_check cnt adg dfg ≡ some answer)
      × ((answer ≡ true) ↔ IsEnough adg dfg)
unfolding pre_map_check
pre_map_check-IsEnough adg dfg cnt all named part made =
    let (cnt1, made1, found1) = get-cal_adg_op_cnt adg.nodes [] all in
    let same : cnt1 ≡ cnt = ground (arith, made1, made) in
    let units : (x : String) → Map.get_or x 0 cnt ≡ units_with x adg.nodes =
      subst (λ c. (x : String) → Map.get_or x 0 c ≡ units_with x adg.nodes) same
        (λ x. found1 x ∙ omega arith) in
    let (wanted, run, found) = get-count_dfg_ops dfg.nodes [] named in
    let no_wrap : ltb (length dfg.nodes) (length dfg.io_nodes) ≡ false = ground (arith, part) in
    elim (Bool-cases (ltb adg.num_iob_nodes (length dfg.io_nodes))) [
      | inl few ↦
          (false, rw few refl, ((λ h. absurd (cc h)), λ e. absurd (ground (arith, few, e.blocks))))
      | inr blocks ↦
          elim (Bool-cases (ltb adg.num_gpe_nodes (length dfg.nodes - length dfg.io_nodes))) [
            | inl few ↦ (
              false,
              rw (blocks, no_wrap, few) refl,
              ((λ h. absurd (cc h)), λ e. absurd (ground (arith, few, e.units, part))),
            )
            | inr others ↦ (
              covers cnt wanted,
              rw (blocks, no_wrap, others, run) refl,
              (
                (λ holds. record {
                  blocks = ground (arith, blocks);
                  units = ground (arith, others);
                  ops = λ op. omega (arith, covers-within cnt wanted op holds, found op, units op);
                }),
                λ e. AllWithin-covers cnt wanted (
                    count_dfg_ops-AllWithin (λ x. Map.get_or x 0 cnt) dfg.nodes [] wanted named
                      (λ x. omega (arith, e.ops x, units x)) tt run),
              ),
            )
          ]
    ]
