-- ===== src/Mapper/Mapping/Walk/Untouched.antt =====
-- mapper/mapping.cpp, `routeDfgEdgeFromDst`: recording a path moves no node.
use fdra.Prelude.{
  ℕ, zero, suc, Bool, true, false, not, ◌&&◌, some, List, [], ◌∷◌, ◌≡◌, refl, ◌∙◌, ◌==◌,
  if◌then◌else◌, nat_key, arith, Bool-cases, inl, inr,
}
use mathlib.Core.Path.{subst}
use fdra.Prelude.Map
use fdra.Prelude.Map.{Map}
use fdra.Prelude.Outcome.{done}
use fdra.Graph.Edge.{GraphEdge}
use fdra.Mapper.Port.{Port, port_key, port_eq}
use fdra.Mapper.Mapping.{Mapping, EdgeLinkAttr, AdgNodeAttr, new_adg_node, mapped_dfg_node}
use fdra.Mapper.Mapping.Route.{push_link, update_node, pass_through}
use fdra.Mapper.Mapping.Search.{VisitNodeInfo}
use fdra.Mapper.Mapping.Walk.{note_pass, use_in, use_out, reuse_links, next_of, walk}

-- The placement of two mappings is the same.
pub record IsUntouched (m m' : Mapping) : Type 0 where
  pub nodes : m'.dfg_node_attrs ≡ m.dfg_node_attrs
  pub counted : m'.num_node_mapped ≡ m.num_node_mapped
  pub units : (a : ℕ) → mapped_dfg_node a m' ≡ mapped_dfg_node a m

pub IsUntouched-refl : (m : Mapping) → IsUntouched m m
IsUntouched-refl m = record { nodes = refl; counted = refl; units = λ a. refl }

pub IsUntouched-trans :
    (m m' m'' : Mapping) → IsUntouched m m' → IsUntouched m' m'' → IsUntouched m m''
IsUntouched-trans m m' m'' s t = record {
  nodes = t.nodes ∙ s.nodes;
  counted = t.counted ∙ s.counted;
  units = λ a. t.units a ∙ s.units a;
}

round-IsUntouched :
    (e : GraphEdge) (link : EdgeLinkAttr) (f : AdgNodeAttr → AdgNodeAttr) (m : Mapping)
    → ((attr : AdgNodeAttr) → (f attr).dfg_node ≡ attr.dfg_node)
    → IsUntouched m (update_node link.adg_node f (push_link e.id link m))
unfolding mapped_dfg_node
round-IsUntouched e link f m same = record {
  nodes = refl;
  counted = refl;
  units = λ a.
      let old = Map.get_or link.adg_node new_adg_node m.adg_node_attrs in
      ground (arith, Map.lookup-insert a link.adg_node (f old) m.adg_node_attrs, same old);
}

pub reuse_links-IsUntouched :
    (e : GraphEdge) (final : ℕ × ℕ) (links : List EdgeLinkAttr) (m : Mapping)
    → IsUntouched m (reuse_links e final links m)
unfolding reuse_links
reuse_links-IsUntouched e final [] m = IsUntouched-refl m
reuse_links-IsUntouched e final (link ∷ links) m =
    let f = note_pass e link.src_port link.dst_port in
    let m1 = update_node link.adg_node f (push_link e.id link m) in
    let once = round-IsUntouched e link f m (λ attr. refl) in
    elim (Bool-cases (link.adg_node == final.0 && port_eq link.dst_port (some final.1))) [
      | inl ends ↦ rw ends once
      | inr goes ↦ rw goes (
          IsUntouched-trans m m1 (reuse_links e final links m1) once
            (reuse_links-IsUntouched e final links m1))
    ]

step-dfg_node :
    (b : Bool) (e : GraphEdge) (src dst : Port) (attr : AdgNodeAttr)
    → ((if b then use_out dst else pass_through e src dst) attr).dfg_node ≡ attr.dfg_node
step-dfg_node true e src dst attr = refl
step-dfg_node false e src dst attr = refl

pub walk-IsUntouched :
    (fuel : ℕ) (e : GraphEdge) (dst : ℕ) (final : ℕ × ℕ) (v : Map (ℕ × ℕ) VisitNodeInfo)
    (src_port : Port) (route : ℕ × Port) (m m' : Mapping)
    → walk fuel e dst final v src_port route m ≡ done m'
    → IsUntouched m m'
unfolding walk
walk-IsUntouched zero e dst final v src_port route m m' h = absurd (cc h)
walk-IsUntouched (suc fuel) e dst final v src_port (id, dst_port) m m' h =
    let link : EdgeLinkAttr = record { src_port = src_port; dst_port = dst_port; adg_node = id } in
    let at_src = id == final.0 && port_eq dst_port (some final.1) in
    let m1 = push_link e.id link m in
    let info = next_of (id, dst_port) v in
    let step = if at_src then use_out dst_port else pass_through e src_port dst_port in
    elim (Bool-cases (not at_src && id == dst)) [
      | inl stops ↦
          let same : update_node id (use_in src_port) m1 ≡ m' = ground arith in
          subst (IsUntouched m) same (round-IsUntouched e link (use_in src_port) m (λ attr. refl))
      | inr goes ↦
          let m2 = update_node id step m1 in
          IsUntouched-trans m m2 m'
            (round-IsUntouched e link step m (step-dfg_node at_src e src_port dst_port))
            (walk-IsUntouched fuel e dst final v (some info.dst_in_port_idx)
              (info.dst_node_id, info.dst_out_port_idx) m2 m' (ground arith))
    ]
