-- ===== src/Mapper/Mapping/Walk/Kept.antt =====
-- mapper/mapping.cpp, `routeDfgEdgeFromDst`: while a path is recorded, the entries of the other edges
-- stay as they were, and each new entry has its link.
use fdra.Prelude.{
  ℕ, zero, suc, true, not, ◌&&◌, some, List, [], ◌∷◌, ◌++◌, ◌≡◌, ◌≢◌, refl, sym, ◌∙◌, ◌⊎◌, ◌==◌,
  if◌then◌else◌, nat_key, arith, Bool-cases, Option-cases, inl, inr,
}
use mathlib.Core.Path.{subst}
use fdra.Prelude.Map
use fdra.Prelude.Map.{Map}
use fdra.Prelude.Set.{Set}
use fdra.Prelude.Outcome.{done}
use fdra.Graph.Edge.{GraphEdge}
use fdra.Adg.Store.{Adg}
use fdra.Mapper.Port.{Port, port_key, port_eq, port_eq_iff}
use fdra.Mapper.Mapping.{
  Mapping, EdgeLinkAttr, DfgEdgePassAttr, AdgNodeAttr, new_dfg_edge, new_adg_node,
}
use fdra.Mapper.Mapping.Route.{push_link, update_node, pass_through}
use fdra.Mapper.Mapping.Search.{VisitNodeInfo}
use fdra.Mapper.Mapping.Walk.{
  note_pass, use_in, use_out, reuse_links, next_of, walk, touch_edge, links_of,
}
use fdra.Mapper.Mapping.Walk.Links.{links_of-push_link, links_of-touch_edge}
use fdra.Mapper.Mapping.Walk.Trail.{IsRoute}
use fdra.Mapper.Mapping.Walk.Lead.{
  is_at, has_link, has_link-append, LeadsTo, LeadsOut, AllLeadOut, AllLead, Begins, IsRoute-LeadsTo,
}

links_of-push_other :
    (other id : ℕ) (link : EdgeLinkAttr) (m : Mapping)
    → other ≢ id
    → links_of other (push_link id link m) ≡ links_of other m
links_of-push_other other id link m differs =
    let attr = Map.get_or id new_dfg_edge m.dfg_edge_attrs in
    ground (
      arith,
      Map.lookup-insert other id (record attr { edge_links = attr.edge_links ++ link ∷ [] })
          m.dfg_edge_attrs,
    )

module _ (adg : Adg) (places : ℕ → ℕ) (old : ℕ → List EdgeLinkAttr) (e : GraphEdge) where
  -- An entry of the edge itself has its link; one of another edge is as it was.
  abbrev HasLink : List EdgeLinkAttr → ℕ → DfgEdgePassAttr → Type 0
  HasLink links a x =
      ((x.edge ≡ e) × (has_link (a, x.dst_port) links ≡ true))
      ⊎ ((x.edge.id ≢ e.id) × LeadsOut adg places old a x)

  abbrev AllLinked : List EdgeLinkAttr → ℕ → List DfgEdgePassAttr → Type 0
  AllLinked links a [] = Unit {0}
  AllLinked links a (x ∷ xs) = HasLink links a x × AllLinked links a xs

  abbrev pub IsRecording : Mapping → Type 0
  IsRecording m =
      ((other : ℕ) → other ≢ e.id → links_of other m ≡ old other)
      × ((a : ℕ) (attr : AdgNodeAttr)
          → Map.lookup a m.adg_node_attrs ≡ some attr
          → AllLinked (links_of e.id m) a attr.dfg_edge_pass)

  AllLinked-append :
      (links more : List EdgeLinkAttr) (a : ℕ) (xs : List DfgEdgePassAttr)
      → AllLinked links a xs
      → AllLinked (links ++ more) a xs
  AllLinked-append links more a [] all = tt
  AllLinked-append links more a (x ∷ xs) (inl (own, has), all) = (
    inl (own, ground (arith, has_link-append (a, x.dst_port) links more)),
    AllLinked-append links more a xs all,
  )
  AllLinked-append links more a (x ∷ xs) (inr other, all) =
      (inr other, AllLinked-append links more a xs all)

  AllLinked-snoc :
      (links : List EdgeLinkAttr) (a : ℕ) (xs : List DfgEdgePassAttr) (x : DfgEdgePassAttr)
      → AllLinked links a xs
      → HasLink links a x
      → AllLinked links a (xs ++ x ∷ [])
  AllLinked-snoc links a [] x all h = (h, tt)
  AllLinked-snoc links a (y ∷ xs) x all h = (all.0, AllLinked-snoc links a xs x all.1 h)

  -- What a round writes at a node: nothing new, or the entry of the pushed link.
  abbrev Adds : EdgeLinkAttr → (AdgNodeAttr → AdgNodeAttr) → Type 0
  Adds link f =
      (attr : AdgNodeAttr)
      → ((f attr).dfg_edge_pass ≡ attr.dfg_edge_pass)
        ⊎ ((f attr).dfg_edge_pass
            ≡ attr.dfg_edge_pass
              ++ record { src_port = link.src_port; dst_port = link.dst_port; edge = e } ∷ [])

  push-IsRecording :
      (link : EdgeLinkAttr) (m : Mapping)
      → IsRecording m
      → IsRecording (push_link e.id link m)
        × (has_link (link.adg_node, link.dst_port) (links_of e.id (push_link e.id link m)) ≡ true)
  push-IsRecording link m (others, entries) = (
    (
      λ other differs. links_of-push_other other e.id link m differs ∙ others other differs,
      λ a attr found.
          subst (λ links. AllLinked links a attr.dfg_edge_pass)
            (sym (links_of-push_link e.id link m))
            (AllLinked-append (links_of e.id m) (link ∷ []) a attr.dfg_edge_pass
              (entries a attr found)),
    ),
    rw
        (
          links_of-push_link e.id link m,
          has_link-append (link.adg_node, link.dst_port) (links_of e.id m) (link ∷ []),
        )
        (ground (arith, port_eq_iff link.dst_port link.dst_port)),
  )

  get_or-AllLinked :
      (a : ℕ) (m : Mapping)
      → IsRecording m
      → AllLinked (links_of e.id m) a (Map.get_or a new_adg_node m.adg_node_attrs).dfg_edge_pass
  get_or-AllLinked a m (others, entries) = elim (Option-cases (Map.lookup a m.adg_node_attrs)) [
    | inl absent ↦ rw absent tt
    | inr (attr, there) ↦ rw there (entries a attr there)
  ]

  written-AllLinked :
      (link : EdgeLinkAttr) (f : AdgNodeAttr → AdgNodeAttr) (attr : AdgNodeAttr)
      (links : List EdgeLinkAttr)
      → Adds link f
      → has_link (link.adg_node, link.dst_port) links ≡ true
      → AllLinked links link.adg_node attr.dfg_edge_pass
      → AllLinked links link.adg_node (f attr).dfg_edge_pass
  written-AllLinked link f attr links adds has all = elim (adds attr) [
    | inl same ↦ rw same all
    | inr more ↦ rw more (
        AllLinked-snoc links link.adg_node attr.dfg_edge_pass
          (record { src_port = link.src_port; dst_port = link.dst_port; edge = e }) all
          (inl (refl, has)))
  ]

  update-IsRecording :
      (link : EdgeLinkAttr) (f : AdgNodeAttr → AdgNodeAttr) (m : Mapping)
      → Adds link f
      → has_link (link.adg_node, link.dst_port) (links_of e.id m) ≡ true
      → IsRecording m
      → IsRecording (update_node link.adg_node f m)
  update-IsRecording link f m adds has rec = (
    rec.0,
    λ a attr found.
        let before = Map.get_or link.adg_node new_adg_node m.adg_node_attrs in
        elim (Bool-cases (link.adg_node == a)) [
          | inl same ↦
              let here : link.adg_node ≡ a = ground arith in
              let written : f before ≡ attr =
                ground (arith, Map.lookup-insert a link.adg_node (f before) m.adg_node_attrs) in
              let all =
                written-AllLinked link f before (links_of e.id m) adds has
                  (get_or-AllLinked link.adg_node m rec) in
              rw (written, here) at all
          | inr other ↦
              rec.1 a attr
                (ground (arith, Map.lookup-insert a link.adg_node (f before) m.adg_node_attrs))
        ],
  )

  -- One round: a link is pushed, and its node is written.
  round-IsRecording :
      (link : EdgeLinkAttr) (f : AdgNodeAttr → AdgNodeAttr) (m : Mapping)
      → Adds link f
      → IsRecording m
      → IsRecording (update_node link.adg_node f (push_link e.id link m))
  round-IsRecording link f m adds rec =
      let (pushed, has) = push-IsRecording link m rec in
      update-IsRecording link f (push_link e.id link m) adds has pushed

  pub reuse_links-IsRecording :
      (final : ℕ × ℕ) (links : List EdgeLinkAttr) (m : Mapping)
      → IsRecording m
      → IsRecording (reuse_links e final links m)
  unfolding reuse_links
  reuse_links-IsRecording final [] m rec = rec
  reuse_links-IsRecording final (link ∷ links) m rec =
      let f = note_pass e link.src_port link.dst_port in
      let next = round-IsRecording link f m (λ attr. inr refl) rec in
      elim (Bool-cases (is_at (final.0, some final.1) link)) [
        | inl ends ↦ rw ends next
        | inr goes ↦ rw goes (
            reuse_links-IsRecording final links
              (update_node link.adg_node f (push_link e.id link m)) next)
      ]

  pub walk-IsRecording :
      (fuel dst : ℕ) (final : ℕ × ℕ) (v : Map (ℕ × ℕ) VisitNodeInfo) (src_port : Port)
      (route : ℕ × Port) (m m' : Mapping)
      → IsRecording m
      → walk fuel e dst final v src_port route m ≡ done m'
      → IsRecording m'
  unfolding walk
  walk-IsRecording zero dst final v src_port route m m' rec h = absurd (cc h)
  walk-IsRecording (suc fuel) dst final v src_port (id, dst_port) m m' rec h =
      let link : EdgeLinkAttr = record {
        src_port = src_port;
        dst_port = dst_port;
        adg_node = id;
      } in
      let at_src = id == final.0 && port_eq dst_port (some final.1) in
      let m1 = push_link e.id link m in
      let info = next_of (id, dst_port) v in
      let step = if at_src then use_out dst_port else pass_through e src_port dst_port in
      let adds : Adds link step = λ attr. elim (Bool-cases at_src) [
        | inl source ↦ rw source (inl refl)
        | inr inner ↦ rw inner (inr refl)
      ] in
      elim (Bool-cases (not at_src && id == dst)) [
        | inl stops ↦
            let same : update_node id (use_in src_port) m1 ≡ m' = ground arith in
            subst IsRecording same
              (round-IsRecording link (use_in src_port) m (λ attr. inl refl) rec)
        | inr goes ↦
            walk-IsRecording fuel dst final v (some info.dst_in_port_idx)
              (info.dst_node_id, info.dst_out_port_idx) (update_node id step m1) m'
              (round-IsRecording link step m adds rec) (ground arith)
      ]

  -- A recording that ends with a whole path from the unit of the source: the invariant holds again.
  AllLinked-AllLeadOut :
      (links : ℕ → List EdgeLinkAttr) (dst : ℕ) (range : Set ℕ) (a : ℕ) (xs : List DfgEdgePassAttr)
      → ((other : ℕ) → other ≢ e.id → links other ≡ old other)
      → IsRoute adg dst range (links e.id)
      → Begins (places e.src_id) e.src_port_idx (links e.id)
      → AllLinked (links e.id) a xs
      → AllLeadOut adg places links a xs
  AllLinked-AllLeadOut links dst range a [] others route begins all = tt
  AllLinked-AllLeadOut links dst range a (x ∷ xs) others route begins (inl (own, has), all) =
      let leads = IsRoute-LeadsTo adg dst range (a, x.dst_port) (links e.id) route has in
      (
        subst
            (λ y.
              LeadsTo adg (a, x.dst_port) (links y.id)
              × Begins (places y.src_id) y.src_port_idx (links y.id))
            (sym own) (leads, begins),
        AllLinked-AllLeadOut links dst range a xs others route begins all,
      )
  AllLinked-AllLeadOut links dst range a (x ∷ xs) others route begins (inr (differs, out), all) = (
    rw (others x.edge.id differs) out,
    AllLinked-AllLeadOut links dst range a xs others route begins all,
  )

  pub IsRecording-AllLead :
      (dst : ℕ) (range : Set ℕ) (m : Mapping)
      → IsRecording m
      → IsRoute adg dst range (links_of e.id m)
      → Begins (places e.src_id) e.src_port_idx (links_of e.id m)
      → AllLead adg places m
  IsRecording-AllLead dst range m rec route begins a attr found =
      AllLinked-AllLeadOut (λ id. links_of id m) dst range a attr.dfg_edge_pass rec.0 route begins
        (rec.1 a attr found)

  AllLeadOut-AllLinked :
      (a : ℕ) (xs : List DfgEdgePassAttr)
      → old e.id ≡ []
      → AllLeadOut adg places old a xs
      → AllLinked [] a xs
  AllLeadOut-AllLinked a [] empty all = tt
  AllLeadOut-AllLinked a (x ∷ xs) empty ((leads, begins), all) = (
    inr (λ same. absurd (rw (same, empty) at leads), (leads, begins)),
    AllLeadOut-AllLinked a xs empty all,
  )

-- Before its path is recorded, no entry is of the edge.
pub start-IsRecording :
    (adg : Adg) (places : ℕ → ℕ) (e : GraphEdge) (m : Mapping)
    → AllLead adg places m
    → links_of e.id m ≡ []
    → IsRecording adg places (λ id. links_of id m) e m
start-IsRecording adg places e m all empty = (
  λ other differs. refl,
  λ a attr found. rw empty (
      AllLeadOut-AllLinked adg places (λ id. links_of id m) e a attr.dfg_edge_pass empty
        (all a attr found)),
)

pub touch_edge-IsRecording :
    (adg : Adg) (places : ℕ → ℕ) (old : ℕ → List EdgeLinkAttr) (e : GraphEdge) (x : ℕ) (m : Mapping)
    → IsRecording adg places old e m
    → IsRecording adg places old e (touch_edge x m)
touch_edge-IsRecording adg places old e x m rec = (
  λ other differs. links_of-touch_edge other x m ∙ rec.0 other differs,
  λ a attr found. rw (links_of-touch_edge e.id x m) (rec.1 a attr found),
)
