-- ===== src/Mapper/Timing/Vio.antt =====
-- mapper/mapping.cpp, `calEdgeLatVio`: one round of the loop over the input edges of a node.
use fdra.Prelude.{
  ℕ, true, false, not, ◌&&◌, some, [], ◌∷◌, ◌++◌, ◌≡◌, ◌≢◌, refl, sym, ap, ◌∙◌, ◌⊎◌, ◌==◌, ==_iff,
  if◌then◌else◌, nat_key, arith, Bool-cases, inl, inr,
}
use mathlib.Core.Path.{subst}
use fdra.Prelude.Int.{ℤ, pos, ◌+ℤ◌, ◌-ℤ◌, ◌≤ℤ◌, ltb_ℤ, max_ℤ, -ℤ_parts}
use fdra.Prelude.Options.{>>=-eq-some}
use fdra.Prelude.Map
use fdra.Graph.Edge.{GraphEdge}
use fdra.Dfg.Node.{DfgNode}
use fdra.Dfg.Store as DfgStore
use fdra.Dfg.Store.{Dfg}
use fdra.Adg.Node.{FuNode}
use fdra.Mapper.Mapping.{Mapping}
use fdra.Mapper.Timing.{edge_attr}
use fdra.Mapper.Timing.Violation.{
  Tally, set_vio, set_delay, assign_delay, note_vio, required_delay, compare_delay, check_edge,
}
use fdra.Mapper.Timing.Frame.{
  delays_at, IsFrame, IsFrame-trans, edge_attr-update, edge-IsFrame, assign-Frame,
}

abbrev pub vio_of : ℕ → Mapping → ℤ
vio_of id m = (edge_attr id m).vio

abbrev pub delay_of : ℕ → Mapping → ℤ
delay_of id m = (edge_attr id m).delay

-- What the comparison notes: nothing missing, or the edge with what is missing.
abbrev pub IsNoted : ℕ → Tally → Tally → Type 0
IsNoted id t t' =
    ((vio_of id t'.mapping ≡ pos 0)
      × (t'.mapping.vio_dfg_edges ≡ t.mapping.vio_dfg_edges)
      × (t'.sum_vio ≡ t.sum_vio)
      × (t'.max_vio ≡ t.max_vio))
    ⊎ ((ltb_ℤ (pos 0) (vio_of id t'.mapping) ≡ true)
        × (t'.mapping.vio_dfg_edges ≡ t.mapping.vio_dfg_edges ++ id ∷ [])
        × (t'.sum_vio ≡ t.sum_vio +ℤ vio_of id t'.mapping)
        × (t'.max_vio ≡ max_ℤ t.max_vio (vio_of id t'.mapping)))

record IsCompared (id : ℕ) (required assigned : ℤ) (t t' : Tally) : Type 0 where
  frame : IsFrame t.mapping t'.mapping
  others : (i : ℕ) → i ≢ id → edge_attr i t'.mapping ≡ edge_attr i t.mapping
  delay : delay_of id t'.mapping ≡ delay_of id t.mapping
  in_time : pos 0 ≤ℤ required
  vio_least : pos 0 ≤ℤ vio_of id t'.mapping
  vio_most : vio_of id t'.mapping ≤ℤ required
  missing : vio_of id t'.mapping ≡ required -ℤ assigned
  noted : IsNoted id t t'

set_vio-attr :
    (i id : ℕ) (k : ℤ) (m : Mapping)
    → edge_attr i (set_vio id k m)
      ≡ (if id == i then record (edge_attr id m) { vio = k } else edge_attr i m)
set_vio-attr i id k m = edge_attr-update i id (λ attr. record attr { vio = k }) m

own_attr :
    (id : ℕ) (k : ℤ) (m : Mapping)
    → edge_attr id (set_vio id k m) ≡ record (edge_attr id m) { vio = k }
own_attr id k m = ground (arith, set_vio-attr id id k m)

other_attr :
    (i id : ℕ) (k : ℤ) (m : Mapping) → i ≢ id → edge_attr i (set_vio id k m) ≡ edge_attr i m
other_attr i id k m differs = ground (arith, set_vio-attr i id k m, ==_iff id i)

no_difference : (a b : ℤ) → ltb_ℤ a b ≡ false → ltb_ℤ b a ≡ false → pos 0 ≡ a -ℤ b
unfolding ◌-ℤ◌
no_difference a b not_less not_more = ground arith

module _ (id : ℕ) (required : ℤ) (t : Tally) where
  missing-IsCompared :
      (assigned : ℤ)
      → pos 0 ≤ℤ assigned
      → ltb_ℤ assigned required ≡ true
      → IsCompared id required assigned t (note_vio id (required -ℤ assigned) t)
  unfolding note_vio
  missing-IsCompared assigned least less =
      let k = required -ℤ assigned in
      let is_k : vio_of id (set_vio id k t.mapping) ≡ k =
        ap (λ a. a.vio) (own_attr id k t.mapping) in
      let parts = -ℤ_parts required assigned in
      let frame = edge-IsFrame id (λ attr. record attr { vio = k }) t.mapping (λ attr. refl) in
      record {
        frame = record {
          lat = frame.lat;
          max_lat = frame.max_lat;
          adg_node = frame.adg_node;
          edge_lat = frame.edge_lat;
          booked = frame.booked;
        };
        others = λ i differs. other_attr i id k t.mapping differs;
        delay = ap (λ a. a.delay) (own_attr id k t.mapping);
        in_time = ground (arith, less);
        vio_least = rw is_k (ground (arith, parts, less));
        vio_most = rw is_k (ground (arith, parts));
        missing = is_k;
        noted = inr (
          rw is_k (ground (arith, parts, less)),
          refl,
          ap (λ x. t.sum_vio +ℤ x) (sym is_k),
          ap (λ x. max_ℤ t.max_vio x) (sym is_k),
        );
      }

  enough-IsCompared :
      (assigned : ℤ)
      → pos 0 ≡ required -ℤ assigned
      → pos 0 ≤ℤ required
      → IsCompared id required assigned t (record t { mapping = set_vio id (pos 0) t.mapping })
  enough-IsCompared assigned none_missing least =
      let is_0 : vio_of id (set_vio id (pos 0) t.mapping) ≡ pos 0 =
        ap (λ a. a.vio) (own_attr id (pos 0) t.mapping) in
      let frame = edge-IsFrame id (λ attr. record attr { vio = pos 0 }) t.mapping (λ attr. refl) in
      record {
        frame = frame;
        others = λ i differs. other_attr i id (pos 0) t.mapping differs;
        delay = ap (λ a. a.delay) (own_attr id (pos 0) t.mapping);
        in_time = least;
        vio_least = rw is_0 (omega arith);
        vio_most = rw is_0 least;
        missing = is_0 ∙ none_missing;
        noted = inl (is_0, refl, refl, refl);
      }

  compare_delay-IsCompared :
      (assigned : ℤ) (t' : Tally)
      → compare_delay id required assigned t ≡ some t'
      → IsCompared id required assigned t t'
  unfolding compare_delay
  compare_delay-IsCompared assigned t' h =
      elim (Bool-cases (not (ltb_ℤ required assigned) && not (ltb_ℤ assigned (pos 0)))) [
        | inl holds ↦ elim (Bool-cases (ltb_ℤ assigned required)) [
          | inl missing ↦
              let same : note_vio id (required -ℤ assigned) t ≡ t' = ground arith in
              subst (IsCompared id required assigned t) same
                (missing-IsCompared assigned (ground (arith, holds)) missing)
          | inr enough ↦
              let same : record t { mapping = set_vio id (pos 0) t.mapping } ≡ t' = ground arith in
              subst (IsCompared id required assigned t) same (
                enough-IsCompared assigned
                  (no_difference required assigned (ground (arith, holds)) enough)
                  (ground (arith, holds)))
        ]
        | inr fails ↦ absurd (ground arith)
      ]

own_delay :
    (id : ℕ) (k : ℤ) (m : Mapping)
    → edge_attr id (set_delay id k m) ≡ record (edge_attr id m) { delay = k }
own_delay id k m = ground (arith, edge_attr-update id id (λ attr. record attr { delay = k }) m)

other_delay :
    (i id : ℕ) (k : ℤ) (m : Mapping) → i ≢ id → edge_attr i (set_delay id k m) ≡ edge_attr i m
other_delay i id k m differs =
    ground (arith, edge_attr-update i id (λ attr. record attr { delay = k }) m, ==_iff id i)

-- One round of the loop over the input edges: the delay of the edge is what is left of the time of the
-- node, and it is not negative.
pub record IsStep (dfg : Dfg) (max_lat : ℤ) (id : ℕ) (t t' : Tally) : Type 0 where
  pub frame : IsFrame t.mapping t'.mapping
  pub others : (i : ℕ) → i ≢ id → edge_attr i t'.mapping ≡ edge_attr i t.mapping
  pub end : GraphEdge
  pub stored : DfgStore.edge id dfg ≡ some end
  pub delay : delay_of id t'.mapping ≡ required_delay max_lat id end t.mapping
  pub in_time : pos 0 ≤ℤ delay_of id t'.mapping
  pub vio_least : pos 0 ≤ℤ vio_of id t'.mapping
  pub vio_most : vio_of id t'.mapping ≤ℤ delay_of id t'.mapping
  pub noted : IsNoted id t t'

-- The port of the edge has a delay, and what the edge lacks is the rest.
pub record IsBooked (fu_id port id : ℕ) (m : Mapping) : Type 0 where
  pub assigned : ℤ
  pub booked : Map.lookup port (delays_at fu_id m) ≡ some assigned
  pub missing : vio_of id m ≡ delay_of id m -ℤ assigned

pub check_edge-IsStep :
    (dfg : Dfg) (node_id : ℕ) (fu : FuNode) (n : DfgNode) (max_lat : ℤ) (port id : ℕ) (t t' : Tally)
    → check_edge dfg node_id fu n max_lat port id t ≡ some t'
    → IsStep dfg max_lat id t t' × IsBooked fu.id port id t'.mapping
unfolding check_edge
check_edge-IsStep dfg node_id fu n max_lat port id t t' h =
    let (e, stored, h1) = >>=-eq-some (DfgStore.edge id dfg) _ h in
    let required = required_delay max_lat id e t.mapping in
    let m1 = set_delay id required t.mapping in
    let assigned = assign_delay node_id fu n port required m1 in
    let (frame2, edges2, list2, booked2) = assign-Frame node_id fu n port required m1 in
    let t2 : Tally = record t { mapping = assigned.1 } in
    let c = compare_delay-IsCompared id required t2 assigned.0 t' h1 in
    let frame1 =
      edge-IsFrame id (λ attr. record attr { delay = required }) t.mapping (λ attr. refl) in
    let delayed : delay_of id t'.mapping ≡ required =
      c.delay ∙ ap (λ a. a.delay) (edges2 id ∙ own_delay id required t.mapping) in
    let step : IsStep dfg max_lat id t t' = record {
      frame =
          IsFrame-trans t.mapping m1 t'.mapping frame1
            (IsFrame-trans m1 assigned.1 t'.mapping frame2 c.frame);
      others =
          λ i differs. c.others i differs ∙ edges2 i ∙ other_delay i id required t.mapping differs;
      end = e;
      stored = stored;
      delay = delayed;
      in_time = rw delayed c.in_time;
      vio_least = c.vio_least;
      vio_most = rw delayed c.vio_most;
      noted = elim c.noted [
        | inl (zero_vio, list, sum, max) ↦ inl (zero_vio, list ∙ list2, sum, max)
        | inr (some_vio, list, sum, max) ↦
            inr (some_vio, list ∙ ap (λ l. l ++ id ∷ []) list2, sum, max)
      ];
    } in
    (
      step,
      record {
        assigned = assigned.0;
        booked = (c.frame).booked fu.id port assigned.0 booked2;
        missing = c.missing ∙ ap (λ k. k -ℤ assigned.0) (sym delayed);
      },
    )
