-- ===== src/Dfg/Consistent/Keep.antt =====
-- `addEdge` keeps a consistent graph consistent.
use fdra.Prelude.{
  ℕ, true, none, some, ◌≡◌, refl, ◌==◌, ◌&&◌, ◌⊎◌, inl, inr, arith, Bool-cases, nat_key, pair_key,
}
use fdra.Graph.Edge.{GraphEdge}
use fdra.Dfg.Store.{Dfg, edge, add_edge}
use fdra.Dfg.Ends.{has_src_edge, has_src_pair, dst_edge, dst_pair}
use fdra.Dfg.Ends.Whole.{Added, add_edge-Added}
use fdra.Dfg.Consistent.{Runs, IsConsistent}

module _ (e : GraphEdge) (g g' : Dfg) (old : IsConsistent g) (fresh : edge e.id g ≡ none)
    (free : dst_edge g e.dst_id e.dst_port_idx ≡ none) (done : add_edge e g ≡ some g') where
  abbrev at : (n p i c q : ℕ) → Added e g g' n p i c q
  at n p i c q = add_edge-Added e g g' n p i c q done

  Runs-new :
      (n p i c q : ℕ)
      → (e.src_id ≡ n)
      → (e.src_port_idx ≡ p)
      → (e.id ≡ i)
      → (e.dst_id ≡ c)
      → (e.dst_port_idx ≡ q)
      → Runs g' n p i c q
  Runs-new n p i c q hn hp hi hc hq = record {
    e = e;
    stored = ground (arith, at 0 0 i 0 0);
    src = hn;
    src_port = hp;
    dst = hc;
    dst_port = hq;
  }

  Runs-old : (n p i c q : ℕ) → Runs g n p i c q → Runs g' n p i c q
  Runs-old n p i c q r = record {
    e = r.e;
    stored = ground (arith, at 0 0 i 0 0, r.stored, fresh);
    src = r.src;
    src_port = r.src_port;
    dst = r.dst;
    dst_port = r.dst_port;
  }

  -- An edge of the new graph is the new edge or an old one.
  stored_cases :
      (i : ℕ) (f : GraphEdge) → edge i g' ≡ some f → ((i ≡ e.id) × (f ≡ e)) ⊎ (edge i g ≡ some f)
  stored_cases i f h = ground (arith, at 0 0 i 0 0)

  src_edge_new :
      (i : ℕ) (f : GraphEdge)
      → edge i g' ≡ some f
      → has_src_edge g' f.src_id f.src_port_idx i ≡ true
  src_edge_new i f h = elim (stored_cases i f h) [
    | inl (same, new) ↦ rw (new, same) (ground (arith, at e.src_id e.src_port_idx e.id 0 0))
    | inr was ↦ ground (arith, at f.src_id f.src_port_idx i 0 0, old.src_edge i f was)
  ]

  src_pair_new :
      (i : ℕ) (f : GraphEdge)
      → edge i g' ≡ some f
      → has_src_pair g' f.src_id f.src_port_idx (f.dst_id, f.dst_port_idx) ≡ true
  src_pair_new i f h = elim (stored_cases i f h) [
    | inl (same, new) ↦
        rw new (ground (arith, at e.src_id e.src_port_idx 0 e.dst_id e.dst_port_idx))
    | inr was ↦
        ground (arith, at f.src_id f.src_port_idx 0 f.dst_id f.dst_port_idx, old.src_pair i f was)
  ]

  in_edge_new :
      (i : ℕ) (f : GraphEdge) → edge i g' ≡ some f → dst_edge g' f.dst_id f.dst_port_idx ≡ some i
  in_edge_new i f h = elim (stored_cases i f h) [
    | inl (same, new) ↦ rw (new, same) (ground (arith, at e.dst_id e.dst_port_idx 0 0 0))
    | inr was ↦ ground (arith, at f.dst_id f.dst_port_idx 0 0 0, old.in_edge i f was)
  ]

  in_pair_new :
      (i : ℕ) (f : GraphEdge)
      → edge i g' ≡ some f
      → dst_pair g' f.dst_id f.dst_port_idx ≡ some (f.src_id, f.src_port_idx)
  in_pair_new i f h = elim (stored_cases i f h) [
    | inl (same, new) ↦ rw new (ground (arith, at e.dst_id e.dst_port_idx 0 0 0))
    | inr was ↦
        ground (arith, at f.dst_id f.dst_port_idx 0 0 0, old.in_edge i f was, old.in_pair i f was)
  ]

  src_edge_only_new :
      (n p i : ℕ) → has_src_edge g' n p i ≡ true → (c : ℕ) × (q : ℕ) × Runs g' n p i c q
  src_edge_only_new n p i h = elim (Bool-cases (has_src_edge g n p i)) [
    | inl was ↦ let (c, q, r) = old.src_edge_only n p i was in (c, q, Runs-old n p i c q r)
    | inr fresh ↦ (
      e.dst_id,
      e.dst_port_idx,
      Runs-new n p i e.dst_id e.dst_port_idx (ground (arith, at n p i 0 0))
          (ground (arith, at n p i 0 0)) (ground (arith, at n p i 0 0)) refl refl,
    )
  ]

  src_pair_only_new :
      (n p c q : ℕ) → has_src_pair g' n p (c, q) ≡ true → (i : ℕ) × Runs g' n p i c q
  src_pair_only_new n p c q h = elim (Bool-cases (has_src_pair g n p (c, q))) [
    | inl was ↦ let (i, r) = old.src_pair_only n p c q was in (i, Runs-old n p i c q r)
    | inr fresh ↦ (
      e.id,
      Runs-new n p e.id c q (ground (arith, at n p 0 c q)) (ground (arith, at n p 0 c q)) refl
          (ground (arith, at n p 0 c q)) (ground (arith, at n p 0 c q)),
    )
  ]

  in_edge_only_new : (c q i : ℕ) → dst_edge g' c q ≡ some i → (n : ℕ) × (p : ℕ) × Runs g' n p i c q
  in_edge_only_new c q i h = elim (Bool-cases (e.dst_id == c && e.dst_port_idx == q)) [
    | inl hit ↦ (
      e.src_id,
      e.src_port_idx,
      Runs-new e.src_id e.src_port_idx i c q refl refl (ground (arith, at c q 0 0 0)) (ground arith)
          (ground arith),
    )
    | inr miss ↦
        let (n, p, r) = old.in_edge_only c q i (ground (arith, at c q 0 0 0)) in
        (n, p, Runs-old n p i c q r)
  ]

  in_pair_only_new : (c q n p : ℕ) → dst_pair g' c q ≡ some (n, p) → (i : ℕ) × Runs g' n p i c q
  in_pair_only_new c q n p h = elim (Bool-cases (e.dst_id == c && e.dst_port_idx == q)) [
    | inl hit ↦ (
      e.id,
      Runs-new n p e.id c q (ground (arith, at c q 0 0 0)) (ground (arith, at c q 0 0 0)) refl
          (ground arith) (ground arith),
    )
    | inr miss ↦
        let (i, r) = old.in_pair_only c q n p (ground (arith, at c q 0 0 0)) in
        (i, Runs-old n p i c q r)
  ]

  -- Adding an edge of a fresh identifier, to a destination port that no edge enters yet, keeps the
  -- graph consistent: the new edge and all old ones stand in the port tables of their ends, and
  -- nothing else does.
  pub add_edge-IsConsistent : IsConsistent g'
  add_edge-IsConsistent = record {
    keyed = λ i f h. ground (arith, stored_cases i f h, old.keyed i f);
    src_edge = src_edge_new;
    src_pair = src_pair_new;
    in_edge = in_edge_new;
    in_pair = in_pair_new;
    src_edge_only = src_edge_only_new;
    src_pair_only = src_pair_only_new;
    in_edge_only = in_edge_only_new;
    in_pair_only = in_pair_only_new;
  }
