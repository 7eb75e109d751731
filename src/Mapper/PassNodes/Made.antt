-- ===== src/Mapper/PassNodes/Made.antt =====
-- mapper/mapping.cpp, `insertPassDfgNodes`: the new node, and what one round leaves of the other nodes.
use fdra.Prelude.{ℕ, suc, some, ◌≡◌, ◌≢◌, refl, ap, ◌∙◌, arith, nat_key}
use mathlib.Core.Path.{subst}
use fdra.Prelude.Options.{>>=-eq-some}
use fdra.Prelude.Map
use fdra.Operations
use fdra.Operations.{OpTable}
use fdra.Dfg.Node.{DfgNode, set_operation}
use fdra.Dfg.Store.{Dfg, node, edge, add_node, add_edge, del_edge}
use fdra.Dfg.Content.{
  content, content_at, SameOwn, SameOwn-trans, add_edge-SameContents, del_edge-SameContents,
}
use fdra.Mapper.PassNodes.{new_node, Insertion, edge_in, edge_out, insert_pass}

-- A node that only passes its value on, as it is before any edge leads to it.
abbrev pub passing_node : OpTable → ℕ → DfgNode
passing_node table id = record (new_node id) {
  operation = "PASS";
  op_latency = Operations.latency table "PASS";
  commutative = Operations.is_commutative table "PASS";
  accumulative = Operations.is_accumulative table "PASS";
}

-- The next identifier has such a node, and all other nodes are as they were but for their port
-- tables.
pub record IsMade (table : OpTable) (s s' : Insertion) : Type 0 where
  pub made :
      content_at (node (suc s.max_node_id) s'.dfg) ≡ some (passing_node table (suc s.max_node_id))
  pub kept :
      (i : ℕ) → i ≢ suc s.max_node_id → content_at (node i s'.dfg) ≡ content_at (node i s.dfg)
  pub rest : SameOwn s.dfg s'.dfg

is_passing_node :
    (table : OpTable) (id : ℕ) (x : DfgNode)
    → set_operation table "PASS" (new_node id) ≡ some x
    → x ≡ passing_node table id
unfolding set_operation
is_passing_node table id x h = ground (arith, h)

own_node : (x : DfgNode) (g : Dfg) → node x.id (add_node x g) ≡ some x
unfolding node add_node
own_node x g = ground (arith, Map.lookup-insert x.id x.id x g.nodes)

other_node : (x : DfgNode) (g : Dfg) (i : ℕ) → i ≢ x.id → node i (add_node x g) ≡ node i g
unfolding node add_node
other_node x g i differs = ground (arith, differs, Map.lookup-insert i x.id x g.nodes)

add_node-Own : (x : DfgNode) (g : Dfg) → SameOwn g (add_node x g)
unfolding add_node
add_node-Own x g = record { own = refl; io_nodes = refl; topo_nodes = refl }

pub insert_pass-IsMade :
    (table : OpTable) (id : ℕ) (s s' : Insertion)
    → insert_pass table id s ≡ some s'
    → IsMade table s s'
unfolding insert_pass
insert_pass-IsMade table id s s' done =
    let new_id = suc s.max_node_id in
    let (e, stored, h1) = >>=-eq-some (edge id s.dfg) _ done in
    let (g1, gone, h2) = >>=-eq-some (del_edge id s.dfg) _ h1 in
    let (x, is_x, h3) = >>=-eq-some (set_operation table "PASS" (new_node new_id)) _ h2 in
    let (g2, done2, h4) = >>=-eq-some (add_edge (edge_in e s) (add_node x g1)) _ h3 in
    let (g3, done3, h5) = >>=-eq-some (add_edge (edge_out e s) g2) _ h4 in
    let is_new : x ≡ passing_node table new_id = is_passing_node table new_id x is_x in
    let x_id : x.id ≡ new_id = ap (λ (n : DfgNode). n.id) is_new in
    let first = del_edge-SameContents id s.dfg g1 gone in
    let second = add_edge-SameContents (edge_in e s) (add_node x g1) g2 done2 in
    let third = add_edge-SameContents (edge_out e s) g2 g3 done3 in
    let at_new : node new_id (add_node x g1) ≡ some x =
      subst (λ k. node k (add_node x g1) ≡ some x) x_id (own_node x g1) in
    let same : record { dfg = g3; max_node_id = new_id; max_edge_id = suc (suc s.max_edge_id) }
        ≡ s' =
      ground (arith, h5) in
    subst (IsMade table s) same (record {
      made =
          third.nodes new_id
          ∙ second.nodes new_id
          ∙ ap content_at at_new
          ∙ ap (λ n. some (content n)) is_new;
      kept = λ i differs.
          let other : i ≢ x.id = λ e. differs (e ∙ x_id) in
          third.nodes i ∙ second.nodes i ∙ ap content_at (other_node x g1 i other) ∙ first.nodes i;
      rest = SameOwn-trans s.dfg g1 g3 first.rest (
          SameOwn-trans g1 (add_node x g1) g3 (add_node-Own x g1)
            (SameOwn-trans (add_node x g1) g2 g3 second.rest third.rest));
    })
