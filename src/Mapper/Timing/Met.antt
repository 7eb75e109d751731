-- ===== src/Mapper/Timing/Met.antt =====
-- mapper/mapping.cpp, `calEdgeLatVio`: the loop over the input edges of a node.
use fdra.Prelude.{
  ℕ, true, false, none, some, List, [], ◌∷◌, ◌≡◌, refl, sym, ap, ◌∙◌, nat_key, arith,
}
use mathlib.Core.Path.{subst}
use fdra.Prelude.Int.{ℤ, pos, ◌-ℤ◌, ◌≤ℤ◌}
use fdra.Prelude.Options.{◌>>=◌, >>=-eq-some}
use fdra.Prelude.Map.{Map}
use fdra.Prelude.Set
use fdra.Graph.Edge.{GraphEdge}
use fdra.Dfg.Node.{DfgNode}
use fdra.Dfg.Store as DfgStore
use fdra.Dfg.Store.{Dfg}
use fdra.Adg.Node.{FuNode, as_fu}
use fdra.Adg.Store as AdgStore
use fdra.Adg.Store.{Adg}
use fdra.Mapper.Mapping.{Mapping}
use fdra.Mapper.Timing.{node_attr, edge_attr}
use fdra.Mapper.Timing.Violation.{Tally, required_delay, unit_of_node, check_edge, check_edges}
use fdra.Mapper.Timing.Frame.{IsFrame, IsFrame-refl, IsFrame-trans}
use fdra.Mapper.Timing.Vio.{vio_of, delay_of, IsStep, IsBooked, check_edge-IsStep}
use fdra.Mapper.Timing.Totals.{IsTally, IsTally-step}

-- The edges that have been looked at, after these.
abbrev pub push_edges : Map ℕ ℕ → List ℕ → List ℕ
push_edges [] seen = seen
push_edges ((port, id) ∷ es) seen = push_edges es (id ∷ seen)

-- None of these edges comes twice, or has been looked at.
abbrev pub AllFresh : Map ℕ ℕ → List ℕ → Type 0
AllFresh [] seen = Unit {0}
AllFresh ((port, id) ∷ es) seen = (Set.count id seen ≡ false) × AllFresh es (id ∷ seen)

abbrev pub inputs_of : Dfg → ℕ → Map ℕ ℕ
inputs_of dfg id = elim (DfgStore.node id dfg) [ none ↦ [] | some n ↦ n.input_edges ]

abbrev pub push_inputs : Dfg → List ℕ → List ℕ → List ℕ
push_inputs dfg [] seen = seen
push_inputs dfg (id ∷ ids) seen = push_inputs dfg ids (push_edges (inputs_of dfg id) seen)

-- No edge is an input of these nodes twice.
abbrev pub AllOnce : Dfg → List ℕ → List ℕ → Type 0
AllOnce dfg [] seen = Unit {0}
AllOnce dfg (id ∷ ids) seen =
    AllFresh (inputs_of dfg id) seen × AllOnce dfg ids (push_edges (inputs_of dfg id) seen)

-- The delay of an edge is what is left of the time of the node, it is not negative, and its violation is
-- what remains of it beside the delay that the unit has assigned to the port of the edge.
pub record IsGiven (dfg : Dfg) (fu_id : ℕ) (max_lat : ℤ) (m : Mapping) (port id : ℕ) (m' : Mapping)
    : Type 0 where
  pub end : GraphEdge
  pub stored : DfgStore.edge id dfg ≡ some end
  pub delay : delay_of id m' ≡ required_delay max_lat id end m
  pub in_time : pos 0 ≤ℤ delay_of id m'
  pub vio_least : pos 0 ≤ℤ vio_of id m'
  pub vio_most : vio_of id m' ≤ℤ delay_of id m'
  pub rest : IsBooked fu_id port id m'

abbrev pub AllGiven : Dfg → ℕ → ℤ → Mapping → Map ℕ ℕ → Mapping → Type 0
AllGiven dfg fu_id max_lat m [] m' = Unit {0}
AllGiven dfg fu_id max_lat m ((port, id) ∷ es) m' =
    IsGiven dfg fu_id max_lat m port id m' × AllGiven dfg fu_id max_lat m es m'

-- A node stands on a unit, and its input edges have their delays there.
pub record IsNodeMet (dfg : Dfg) (adg : Adg) (m : Mapping) (id : ℕ) (m' : Mapping) : Type 0 where
  pub fu : FuNode
  pub placed : unit_of_node adg id m ≡ some fu
  pub given : AllGiven dfg fu.id (node_attr id m).max_lat m (inputs_of dfg id) m'

abbrev pub AllMet : Dfg → Adg → Mapping → List ℕ → Mapping → Type 0
AllMet dfg adg m [] m' = Unit {0}
AllMet dfg adg m (id ∷ ids) m' = IsNodeMet dfg adg m id m' × AllMet dfg adg m ids m'

-- The edges that have been looked at keep what they have.
abbrev pub Kept : List ℕ → Mapping → Mapping → Type 0
Kept seen m m' = (i : ℕ) → Set.count i seen ≡ true → edge_attr i m' ≡ edge_attr i m

pub count-push_edges :
    (i : ℕ) (es : Map ℕ ℕ) (seen : List ℕ)
    → Set.count i seen ≡ true
    → Set.count i (push_edges es seen) ≡ true
count-push_edges i [] seen there = there
count-push_edges i ((port, id) ∷ es) seen there =
    count-push_edges i es (id ∷ seen) (ground (arith, there))

IsGiven-earlier :
    (dfg : Dfg) (fu_id : ℕ) (max_lat : ℤ) (m m1 : Mapping) (port id : ℕ) (m' : Mapping)
    → IsFrame m m1
    → IsGiven dfg fu_id max_lat m1 port id m'
    → IsGiven dfg fu_id max_lat m port id m'
IsGiven-earlier dfg fu_id max_lat m m1 port id m' frame g = record {
  end = g.end;
  stored = g.stored;
  delay = g.delay ∙ rw (frame.lat (g.end).src_id, frame.edge_lat id) refl;
  in_time = g.in_time;
  vio_least = g.vio_least;
  vio_most = g.vio_most;
  rest = g.rest;
}

IsBooked-later :
    (fu_id port id : ℕ) (m1 m' : Mapping)
    → IsFrame m1 m'
    → edge_attr id m' ≡ edge_attr id m1
    → IsBooked fu_id port id m1
    → IsBooked fu_id port id m'
IsBooked-later fu_id port id m1 m' frame same b = record {
  assigned = b.assigned;
  booked = frame.booked fu_id port b.assigned b.booked;
  missing = ap (λ a. a.vio) same ∙ b.missing ∙ ap (λ a. a.delay -ℤ b.assigned) (sym same);
}

IsGiven-later :
    (dfg : Dfg) (fu_id : ℕ) (max_lat : ℤ) (m : Mapping) (port id : ℕ) (m1 m' : Mapping)
    → IsFrame m1 m'
    → edge_attr id m' ≡ edge_attr id m1
    → IsGiven dfg fu_id max_lat m port id m1
    → IsGiven dfg fu_id max_lat m port id m'
IsGiven-later dfg fu_id max_lat m port id m1 m' frame same g = record {
  end = g.end;
  stored = g.stored;
  delay = ap (λ a. a.delay) same ∙ g.delay;
  in_time = rw (same, delay_of) g.in_time;
  vio_least = rw (same, vio_of) g.vio_least;
  vio_most = rw (same, vio_of, delay_of) g.vio_most;
  rest = IsBooked-later fu_id port id m1 m' frame same g.rest;
}

IsStep-Given :
    (dfg : Dfg) (fu_id : ℕ) (max_lat : ℤ) (port id : ℕ) (t t' : Tally)
    → IsStep dfg max_lat id t t'
    → IsBooked fu_id port id t'.mapping
    → IsGiven dfg fu_id max_lat t.mapping port id t'.mapping
IsStep-Given dfg fu_id max_lat port id t t' s b = record {
  end = s.end;
  stored = s.stored;
  delay = s.delay;
  in_time = s.in_time;
  vio_least = s.vio_least;
  vio_most = s.vio_most;
  rest = b;
}

IsStep-Kept :
    (dfg : Dfg) (max_lat : ℤ) (id : ℕ) (seen : List ℕ) (t t' : Tally)
    → Set.count id seen ≡ false
    → IsStep dfg max_lat id t t'
    → Kept seen t.mapping t'.mapping
IsStep-Kept dfg max_lat id seen t t' fresh s i there =
    s.others i (λ same. ground (arith, rw same at there))

pub AllGiven-earlier :
    (dfg : Dfg) (fu_id : ℕ) (max_lat : ℤ) (m m1 : Mapping) (es : Map ℕ ℕ) (m' : Mapping)
    → IsFrame m m1
    → AllGiven dfg fu_id max_lat m1 es m'
    → AllGiven dfg fu_id max_lat m es m'
AllGiven-earlier dfg fu_id max_lat m m1 [] m' frame all = tt
AllGiven-earlier dfg fu_id max_lat m m1 ((port, id) ∷ es) m' frame (g, all) = (
  IsGiven-earlier dfg fu_id max_lat m m1 port id m' frame g,
  AllGiven-earlier dfg fu_id max_lat m m1 es m' frame all,
)

pub AllGiven-later :
    (dfg : Dfg) (fu_id : ℕ) (max_lat : ℤ) (m : Mapping) (es : Map ℕ ℕ) (seen : List ℕ)
    (m1 m' : Mapping)
    → IsFrame m1 m'
    → Kept (push_edges es seen) m1 m'
    → AllGiven dfg fu_id max_lat m es m1
    → AllGiven dfg fu_id max_lat m es m'
AllGiven-later dfg fu_id max_lat m [] seen m1 m' frame kept all = tt
AllGiven-later dfg fu_id max_lat m ((port, id) ∷ es) seen m1 m' frame kept (g, all) =
    let same : edge_attr id m' ≡ edge_attr id m1 =
      kept id (count-push_edges id es (id ∷ seen) (ground arith)) in
    (
      IsGiven-later dfg fu_id max_lat m port id m1 m' frame same g,
      AllGiven-later dfg fu_id max_lat m es (id ∷ seen) m1 m' frame kept all,
    )

unit_of_node-earlier :
    (adg : Adg) (id : ℕ) (m m1 : Mapping) (fu : FuNode)
    → IsFrame m m1
    → unit_of_node adg id m1 ≡ some fu
    → unit_of_node adg id m ≡ some fu
unit_of_node-earlier adg id m m1 fu frame placed =
    subst (λ o. (o >>= λ u. AdgStore.node u adg >>= as_fu) ≡ some fu) (frame.adg_node id) placed

IsNodeMet-earlier :
    (dfg : Dfg) (adg : Adg) (m m1 : Mapping) (id : ℕ) (m' : Mapping)
    → IsFrame m m1
    → IsNodeMet dfg adg m1 id m'
    → IsNodeMet dfg adg m id m'
IsNodeMet-earlier dfg adg m m1 id m' frame met = record {
  fu = met.fu;
  placed = unit_of_node-earlier adg id m m1 met.fu frame met.placed;
  given = rw (sym (frame.max_lat id)) (
      AllGiven-earlier dfg (met.fu).id (node_attr id m1).max_lat m m1 (inputs_of dfg id) m' frame
        met.given);
}

pub AllMet-earlier :
    (dfg : Dfg) (adg : Adg) (m m1 : Mapping) (ids : List ℕ) (m' : Mapping)
    → IsFrame m m1
    → AllMet dfg adg m1 ids m'
    → AllMet dfg adg m ids m'
AllMet-earlier dfg adg m m1 [] m' frame all = tt
AllMet-earlier dfg adg m m1 (id ∷ ids) m' frame (met, all) =
    (IsNodeMet-earlier dfg adg m m1 id m' frame met, AllMet-earlier dfg adg m m1 ids m' frame all)

-- The loop over the input edges of a node.
pub record IsRound (dfg : Dfg) (fu_id : ℕ) (max_lat : ℤ) (es : Map ℕ ℕ) (seen : List ℕ)
    (t t' : Tally) : Type 0 where
  pub frame : IsFrame t.mapping t'.mapping
  pub kept : Kept seen t.mapping t'.mapping
  pub given : AllGiven dfg fu_id max_lat t.mapping es t'.mapping
  pub tally : IsTally (push_edges es seen) t'.mapping t'.sum_vio t'.max_vio

pub check_edges-IsRound :
    (dfg : Dfg) (node_id : ℕ) (fu : FuNode) (n : DfgNode) (max_lat : ℤ) (es : Map ℕ ℕ)
    (seen : List ℕ) (t t' : Tally)
    → AllFresh es seen
    → IsTally seen t.mapping t.sum_vio t.max_vio
    → check_edges dfg node_id fu n max_lat es t ≡ some t'
    → IsRound dfg fu.id max_lat es seen t t'
unfolding check_edges
check_edges-IsRound dfg node_id fu n max_lat [] seen t t' fresh tally h =
    let same : t ≡ t' = ground arith in
    rw (sym same)
      (record { frame = IsFrame-refl t.mapping; kept = λ i there. refl; given = tt; tally = tally })
check_edges-IsRound dfg node_id fu n max_lat ((port, id) ∷ es) seen t t' (new, fresh) tally h =
    let (t1, h1, h2) = >>=-eq-some (check_edge dfg node_id fu n max_lat port id t) _ h in
    let (s, b) = check_edge-IsStep dfg node_id fu n max_lat port id t t1 h1 in
    let r =
      check_edges-IsRound dfg node_id fu n max_lat es (id ∷ seen) t1 t' fresh
        (IsTally-step dfg max_lat id seen t t1 new s tally) h2 in
    record {
      frame = IsFrame-trans t.mapping t1.mapping t'.mapping s.frame r.frame;
      kept = λ i there.
          r.kept i (ground (arith, there)) ∙ IsStep-Kept dfg max_lat id seen t t1 new s i there;
      given = (
        IsGiven-later dfg fu.id max_lat t.mapping port id t1.mapping t'.mapping r.frame
            (r.kept id (ground arith)) (IsStep-Given dfg fu.id max_lat port id t t1 s b),
        AllGiven-earlier dfg fu.id max_lat t.mapping t1.mapping es t'.mapping s.frame r.given,
      );
      tally = r.tally;
    }
