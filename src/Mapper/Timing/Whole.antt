-- ===== src/Mapper/Timing/Whole.antt =====
-- mapper/mapping.cpp, `calEdgeLatVio`: the loop over the nodes, and the pass as a whole.
use fdra.Prelude.{ℕ, some, List, [], ◌∷◌, ◌≡◌, refl, sym, ◌∙◌, nat_key, arith, inl}
use mathlib.Core.Path.{subst}
use fdra.Prelude.Int.{ℤ, pos}
use fdra.Prelude.Options.{>>=-eq-some}
use fdra.Dfg.Node.{DfgNode}
use fdra.Dfg.Store as DfgStore
use fdra.Dfg.Store.{Dfg}
use fdra.Adg.Store.{Adg}
use fdra.Mapper.Mapping.{Mapping}
use fdra.Mapper.Timing.{node_attr, edge_attr}
use fdra.Mapper.Timing.Violation.{
  Tally, update_fu_delay, check_edges, unit_of_node, check_nodes, cal_edge_lat_vio,
}
use fdra.Mapper.Timing.Frame.{IsFrame, IsFrame-refl, IsFrame-trans, IsFrame-delays, touch-IsFrame}
use fdra.Mapper.Timing.Totals.{IsTally}
use fdra.Mapper.Timing.Met.{
  push_edges, inputs_of, push_inputs, AllOnce, AllMet, Kept, count-push_edges, AllGiven-earlier,
  AllGiven-later, AllMet-earlier, IsRound, check_edges-IsRound,
}

-- The loop over the nodes.
record IsSweep (dfg : Dfg) (adg : Adg) (ids seen : List ℕ) (t t' : Tally) : Type 0 where
  frame : IsFrame t.mapping t'.mapping
  kept : Kept seen t.mapping t'.mapping
  met : AllMet dfg adg t.mapping ids t'.mapping
  tally : IsTally (push_inputs dfg ids seen) t'.mapping t'.sum_vio t'.max_vio

-- The delays of a unit have no part in the totals.
IsTally-touch :
    (fu_id : ℕ) (seen : List ℕ) (m : Mapping) (sum_vio max_vio : ℤ)
    → IsTally seen m sum_vio max_vio
    → IsTally seen (update_fu_delay fu_id (λ attr. attr) m) sum_vio max_vio
IsTally-touch fu_id seen m sum_vio max_vio tally = record {
  total = tally.total;
  listed = tally.listed;
  unlisted = tally.unlisted;
  top = tally.top;
}

inputs_of-node :
    (dfg : Dfg) (id : ℕ) (n : DfgNode)
    → DfgStore.node id dfg ≡ some n
    → inputs_of dfg id ≡ n.input_edges
inputs_of-node dfg id n is_node = rw (inputs_of, is_node) refl

check_nodes-IsSweep :
    (dfg : Dfg) (adg : Adg) (ids seen : List ℕ) (t t' : Tally)
    → AllOnce dfg ids seen
    → IsTally seen t.mapping t.sum_vio t.max_vio
    → check_nodes dfg adg ids t ≡ some t'
    → IsSweep dfg adg ids seen t t'
unfolding check_nodes
check_nodes-IsSweep dfg adg [] seen t t' once tally h =
    let same : t ≡ t' = ground arith in
    rw (sym same)
      (record { frame = IsFrame-refl t.mapping; kept = λ i there. refl; met = tt; tally = tally })
check_nodes-IsSweep dfg adg (id ∷ ids) seen t t' (fresh, once) tally h =
    let (n, is_node, h1) = >>=-eq-some (DfgStore.node id dfg) _ h in
    let (fu, is_unit, h2) = >>=-eq-some (unit_of_node adg id t.mapping) _ h1 in
    let touched = update_fu_delay fu.id (λ attr. attr) t.mapping in
    let t1 : Tally = record t { mapping = touched } in
    let max_lat = (node_attr id t.mapping).max_lat in
    let (t2, h3, h4) = >>=-eq-some (check_edges dfg id fu n max_lat n.input_edges t1) _ h2 in
    let is_inputs : inputs_of dfg id ≡ n.input_edges = inputs_of-node dfg id n is_node in
    let later = push_edges (inputs_of dfg id) seen in
    let r : IsRound dfg fu.id max_lat (inputs_of dfg id) seen t1 t2 =
      check_edges-IsRound dfg id fu n max_lat (inputs_of dfg id) seen t1 t2 fresh
        (IsTally-touch fu.id seen t.mapping t.sum_vio t.max_vio tally) (rw is_inputs h3) in
    let rest = check_nodes-IsSweep dfg adg ids later t2 t' once r.tally h4 in
    let frame : IsFrame t.mapping t2.mapping =
      IsFrame-trans t.mapping touched t2.mapping (touch-IsFrame fu.id t.mapping) r.frame in
    let given =
      AllGiven-later dfg fu.id max_lat t.mapping (inputs_of dfg id) seen t2.mapping t'.mapping
        rest.frame rest.kept
        (AllGiven-earlier dfg fu.id max_lat t.mapping touched (inputs_of dfg id) t2.mapping
          (touch-IsFrame fu.id t.mapping) r.given) in
    record {
      frame = IsFrame-trans t.mapping t2.mapping t'.mapping frame rest.frame;
      kept = λ i there.
          rest.kept i (count-push_edges i (inputs_of dfg id) seen there) ∙ r.kept i there;
      met = (
        record { fu = fu; placed = is_unit; given = given },
        AllMet-earlier dfg adg t.mapping t2.mapping ids t'.mapping frame rest.met,
      );
      tally = rest.tally;
    }

AllMet-same :
    (dfg : Dfg) (adg : Adg) (m : Mapping) (ids : List ℕ) (m1 m' : Mapping)
    → IsFrame m1 m'
    → ((i : ℕ) → edge_attr i m' ≡ edge_attr i m1)
    → AllMet dfg adg m ids m1
    → AllMet dfg adg m ids m'
AllMet-same dfg adg m [] m1 m' frame same all = tt
AllMet-same dfg adg m (id ∷ ids) m1 m' frame same (met, all) = (
  record {
    fu = met.fu;
    placed = met.placed;
    given =
        AllGiven-later dfg (met.fu).id (node_attr id m).max_lat m (inputs_of dfg id) [] m1 m' frame
          (λ i there. same i) met.given;
  },
  AllMet-same dfg adg m ids m1 m' frame same all,
)

-- The latencies are kept, each input edge has the delay that is left, and the totals are right.
pub record IsMet (dfg : Dfg) (adg : Adg) (m m' : Mapping) : Type 0 where
  pub frame : IsFrame m m'
  pub met : AllMet dfg adg m dfg.topo_nodes m'
  pub tally : IsTally (push_inputs dfg dfg.topo_nodes []) m' m'.total_violation m'.max_violation

-- On a graph in whose order no edge is an input twice, if the pass returns, then the latencies of nodes
-- and edges and the places of the nodes are as before, and no delay that a port had is changed. Each
-- node stands on a unit. Each input edge of a node has as its delay the latest time of the node less
-- the latencies of its source and of its route, which is not negative; the unit has a delay assigned
-- to the port of the edge, and the violation of the edge is its delay less the assigned one, which is
-- at least 0 and at most the delay. The edges that are listed are those with a violation above 0, the
-- total is the sum over the list, and the maximum bounds them and is one of them, or 0 for an empty
-- list.
pub cal_edge_lat_vio-IsMet :
    (dfg : Dfg) (adg : Adg) (m m' : Mapping)
    → AllOnce dfg dfg.topo_nodes []
    → cal_edge_lat_vio dfg adg m ≡ some m'
    → IsMet dfg adg m m'
unfolding cal_edge_lat_vio
cal_edge_lat_vio-IsMet dfg adg m m' once h =
    let start : Tally = record {
      mapping = record m { vio_dfg_edges = [] };
      sum_vio = pos 0;
      max_vio = pos 0;
    } in
    let nothing : IsTally [] start.mapping (pos 0) (pos 0) = record {
      total = refl;
      listed = λ i there. absurd (ground arith);
      unlisted = λ i is_seen out. absurd (ground arith);
      top = inl (refl, refl);
    } in
    let (t, h1, h2) = >>=-eq-some (check_nodes dfg adg dfg.topo_nodes start) _ h in
    let s = check_nodes-IsSweep dfg adg dfg.topo_nodes [] start t once nothing h1 in
    let final = record t.mapping { total_violation = t.sum_vio; max_violation = t.max_vio } in
    let last : IsFrame t.mapping final =
      IsFrame-delays t.mapping final refl refl (λ u port d h. h) in
    let same : final ≡ m' = ground arith in
    subst (λ x. IsMet dfg adg m x) same
      (record {
        frame =
            IsFrame-trans m start.mapping final
              (IsFrame-delays m start.mapping refl refl (λ u port d h. h))
              (IsFrame-trans start.mapping t.mapping final s.frame last);
        met =
            AllMet-same dfg adg m dfg.topo_nodes t.mapping final last (λ i. refl)
              (AllMet-earlier dfg adg m start.mapping dfg.topo_nodes t.mapping
                (IsFrame-delays m start.mapping refl refl (λ u port d h. h)) s.met);
        tally = record {
          total = (s.tally).total;
          listed = (s.tally).listed;
          unlisted = (s.tally).unlisted;
          top = (s.tally).top;
        };
      })
