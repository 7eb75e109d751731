-- ===== src/Mapper/Mapping/Operands/Offers.antt =====
-- mapper/mapping.cpp, `availDstPorts`: which ports are offered.
use fdra.Prelude.{
  ℕ, zero, suc, ◌<◌, Bool, true, false, not, ◌&&◌, ◌||◌, some, List, [], ◌∷◌, ◌≡◌, refl,
  if◌then◌else◌, ◌+◌, ◌==◌, leb, ltb, ◌↔◌, inl, inr, Bool-cases, nat_key, arith, get_or, get_elem?,
  length,
}
use mathlib.Core.Path.{subst}
use fdra.Prelude.Set
use fdra.Prelude.Set.{Set}
use fdra.Graph.Edge.{GraphEdge}
use fdra.Adg.Node.{FuNode, operand_inputs}
use fdra.Dfg.Node as DfgNode
use fdra.Mapper.Mapping.{Mapping, is_adg_node_in_port_used}
use fdra.Mapper.Mapping.Operands.{
  from, op_idxs, operand_used, emplace_all, select_ports, avail_dst_ports,
}

-- A port leads to one of the operands, of which no port is used.
abbrev offers : Mapping → FuNode → ℕ → List ℕ → Bool
offers m fu p [] = false
offers m fu p (ope ∷ opes) =
    let ports = get_or fu.operand_ports ope [] in
    Set.count p ports && not (operand_used fu.id ports m) || offers m fu p opes

-- The unit has all operands.
abbrev AllBelow : FuNode → List ℕ → Type 0
AllBelow fu [] = Unit {0}
AllBelow fu (ope ∷ opes) = (ope < length fu.operand_ports) × AllBelow fu opes

count-emplace_all :
    (p : ℕ) (ports : List ℕ) (set : Set ℕ)
    → Set.count p (emplace_all ports set) ≡ (Set.count p ports || Set.count p set)
count-emplace_all p [] set = refl
count-emplace_all p (q ∷ ports) set =
    ground (arith, count-emplace_all p ports (Set.emplace q set), Set.count-emplace p q set)

get_elem?-get_or :
    (xs : List (Set ℕ)) (i : ℕ) → i < length xs → get_elem? xs i ≡ some (get_or xs i [])
get_elem?-get_or [] i h = absurd (omega arith)
get_elem?-get_or (x ∷ xs) zero h = refl
get_elem?-get_or (x ∷ xs) (suc i) h = get_elem?-get_or xs i (omega arith)

select_ports-offers :
    (m : Mapping) (fu : FuNode) (opes : List ℕ) (range : Set ℕ)
    → AllBelow fu opes
    → (ports : Set ℕ) × (select_ports m fu opes range ≡ some ports)
      × ((p : ℕ) → Set.count p ports ≡ (offers m fu p opes || Set.count p range))
unfolding select_ports operand_inputs
select_ports-offers m fu [] range below = (range, refl, λ p. refl)
select_ports-offers m fu (ope ∷ opes) range below =
    let ports = get_or fu.operand_ports ope [] in
    let found = get_elem?-get_or fu.operand_ports ope below.0 in
    let next = if operand_used fu.id ports m then range else emplace_all ports range in
    let (result, done, same) = select_ports-offers m fu opes next below.1 in
    (result, rw found done, λ p. ground (arith, same p, count-emplace_all p ports range))

-- An operand at which the edge may end: any input of a commutative operation, else the one that the
-- edge names.
abbrev pub Allowed : DfgNode.DfgNode → GraphEdge → ℕ → Type 0
Allowed n e ope = if n.commutative then ope < DfgNode.num_inputs n else ope ≡ e.dst_port_idx

-- The port leads to the operand, and no edge has come in at a port that leads there.
abbrev pub IsOpenAt : Mapping → FuNode → ℕ → ℕ → Type 0
IsOpenAt m fu p ope =
    (Set.count p (get_or fu.operand_ports ope []) ≡ true)
    × ((q : ℕ)
        → Set.count q (get_or fu.operand_ports ope []) ≡ true
        → is_adg_node_in_port_used fu.id (some q) m ≡ false)

operand_used-clear :
    (id : ℕ) (ports : List ℕ) (m : Mapping) (q : ℕ)
    → operand_used id ports m ≡ false
    → Set.count q ports ≡ true
    → is_adg_node_in_port_used id (some q) m ≡ false
unfolding operand_used
operand_used-clear id [] m q clear h = absurd (cc h)
operand_used-clear id (p ∷ ports) m q clear h =
    elim (Bool-cases (is_adg_node_in_port_used id (some p) m)) [
      | inl used ↦ absurd (cc (rw used at clear))
      | inr unused ↦ elim (Bool-cases (p == q)) [
        | inl own ↦
            let same : p ≡ q = ground arith in
            subst (λ k. is_adg_node_in_port_used id (some k) m ≡ false) same unused
        | inr other ↦ operand_used-clear id ports m q (rw unused at clear) (rw other at h)
      ]
    ]

clear-operand_used :
    (id : ℕ) (ports : List ℕ) (m : Mapping)
    → ((q : ℕ) → Set.count q ports ≡ true → is_adg_node_in_port_used id (some q) m ≡ false)
    → operand_used id ports m ≡ false
unfolding operand_used
clear-operand_used id [] m clear = refl
clear-operand_used id (p ∷ ports) m clear =
    let own : is_adg_node_in_port_used id (some p) m ≡ false = clear p (ground arith) in
    let rest = clear-operand_used id ports m λ q h. clear q (ground (arith, h)) in rw own rest

offers-IsOpenAt :
    (m : Mapping) (fu : FuNode) (p : ℕ) (opes : List ℕ)
    → offers m fu p opes ≡ true
    → (ope : ℕ) × (Set.count ope opes ≡ true) × IsOpenAt m fu p ope
offers-IsOpenAt m fu p [] h = absurd (cc h)
offers-IsOpenAt m fu p (ope ∷ opes) h =
    let ports = get_or fu.operand_ports ope [] in
    elim (Bool-cases (Set.count p ports && not (operand_used fu.id ports m))) [
      | inl here ↦ (
        ope,
        ground arith,
        (ground arith, λ q k. operand_used-clear fu.id ports m q (ground arith) k),
      )
      | inr there ↦
          let (found, among, is_open) = offers-IsOpenAt m fu p opes (rw there at h) in
          (found, ground arith, is_open)
    ]

IsOpenAt-offers :
    (m : Mapping) (fu : FuNode) (p : ℕ) (opes : List ℕ) (ope : ℕ)
    → Set.count ope opes ≡ true
    → IsOpenAt m fu p ope
    → offers m fu p opes ≡ true
IsOpenAt-offers m fu p [] ope among is_open = absurd (cc among)
IsOpenAt-offers m fu p (o ∷ opes) ope among is_open = elim (Bool-cases (o == ope)) [
  | inl own ↦
      let same : ope ≡ o = ground arith in
      let here : IsOpenAt m fu p o = subst (IsOpenAt m fu p) same is_open in
      let clear = clear-operand_used fu.id (get_or fu.operand_ports o []) m here.1 in
      rw (here.0, clear) refl
  | inr other ↦
      let later = IsOpenAt-offers m fu p opes ope (rw other at among) is_open in
      ground (arith, later)
]

count-from : (k i ope : ℕ) → Set.count ope (from k i) ≡ (leb i ope && ltb ope (i + k))
count-from zero i ope = ground arith
count-from (suc k) i ope = ground (arith, count-from k (suc i) ope)

op_idxs-Allowed :
    (n : DfgNode.DfgNode) (e : GraphEdge) (ope : ℕ)
    → (Set.count ope (op_idxs n e) ≡ true) ↔ Allowed n e ope
unfolding op_idxs
op_idxs-Allowed n e ope = elim (Bool-cases n.commutative) [
  | inl any ↦ rw any (
    (λ h. ground (arith, count-from (DfgNode.num_inputs n) 0 ope)),
    (λ h. ground (arith, count-from (DfgNode.num_inputs n) 0 ope)),
  )
  | inr own ↦ rw own ((λ h. ground arith), (λ h. ground arith))
]

AllBelow-intro :
    (fu : FuNode) (opes : List ℕ)
    → ((ope : ℕ) → Set.count ope opes ≡ true → ope < length fu.operand_ports)
    → AllBelow fu opes
AllBelow-intro fu [] below = tt
AllBelow-intro fu (ope ∷ opes) below =
    (below ope (ground arith), AllBelow-intro fu opes λ o h. below o (ground (arith, h)))

-- On a unit that has all the operands at which the edge may end, the search for ports succeeds. It
-- offers a port exactly when the port leads to an operand at which the edge may end (any input of a
-- commutative operation, else the one that the edge names) and no port of this operand is used.
pub avail_dst_ports-offers :
    (m : Mapping) (n : DfgNode.DfgNode) (fu : FuNode) (e : GraphEdge)
    → ((ope : ℕ) → Allowed n e ope → ope < length fu.operand_ports)
    → (ports : Set ℕ) × (avail_dst_ports m n fu e ≡ some ports)
      × ((p : ℕ) → (Set.count p ports ≡ true) ↔ ((ope : ℕ) × Allowed n e ope × IsOpenAt m fu p ope))
unfolding avail_dst_ports
avail_dst_ports-offers m n fu e below =
    let opes = op_idxs n e in
    let all = AllBelow-intro fu opes λ ope h. below ope ((op_idxs-Allowed n e ope).0 h) in
    let (ports, done, same) = select_ports-offers m fu opes [] all in
    (
      ports,
      done,
      λ p. (
        (λ h.
            let (ope, among, is_open) = offers-IsOpenAt m fu p opes (ground (arith, same p)) in
            (ope, (op_idxs-Allowed n e ope).0 among, is_open)),
        (λ found.
            let (ope, allowed, is_open) = found in
            let hit =
              IsOpenAt-offers m fu p opes ope ((op_idxs-Allowed n e ope).1 allowed) is_open in
            ground (arith, same p, hit)),
      ),
    )
