-- ===== src/Dfg/Topo/Lists.antt =====
-- Orders of nodes: each node behind its inputs, and no node twice.
use fdra.Prelude.{
  ℕ, true, false, some, List, [], ◌∷◌, ◌++◌, ◌==◌, ◌||◌, nat_key, ◌≡◌, ◌⊎◌, inl, inr, refl, arith,
}
use fdra.Prelude.Map.{Map}
use fdra.Prelude.Set
use fdra.Dfg.Node.{DfgNode}
use fdra.Dfg.Store.{Dfg, node}

-- The inputs that do not come from the graph's own ports come from nodes in `seen`.
abbrev pub AllIn : ℕ → List ℕ → Map ℕ (ℕ × ℕ) → Type 0
AllIn own seen [] = Unit {0}
AllIn own seen ((port, (src, src_port)) ∷ ins) =
    ((src ≡ own) ⊎ (Set.count src seen ≡ true)) × AllIn own seen ins

abbrev pub InputsIn : Dfg → List ℕ → ℕ → Type 0
InputsIn g seen id = (n : DfgNode) → node id g ≡ some n → AllIn g.id seen n.inputs

-- Behind the nodes in `seen`, each node of the list comes after its inputs.
abbrev pub IsOrdered : Dfg → List ℕ → List ℕ → Type 0
IsOrdered g seen [] = Unit {0}
IsOrdered g seen (id ∷ ids) = InputsIn g seen id × IsOrdered g (id ∷ seen) ids

abbrev pub IsDistinct : List ℕ → Type 0
IsDistinct [] = Unit {0}
IsDistinct (id ∷ ids) = (Set.count id ids ≡ false) × IsDistinct ids

pub count-snoc : (v x : ℕ) (xs : List ℕ) → Set.count v (xs ++ x ∷ []) ≡ (Set.count v xs || x == v)
count-snoc v x [] = ground arith
count-snoc v x (y ∷ xs) = ground (arith, count-snoc v x xs)

pub AllIn-mono :
    (own : ℕ) (s t : List ℕ) (ins : Map ℕ (ℕ × ℕ))
    → ((v : ℕ) → Set.count v s ≡ true → Set.count v t ≡ true)
    → AllIn own s ins
    → AllIn own t ins
AllIn-mono own s t [] h a = tt
AllIn-mono own s t ((port, (src, src_port)) ∷ ins) h a = (
  elim (a.0) [ inl same ↦ inl same | inr there ↦ inr (h src there) ],
  AllIn-mono own s t ins h a.1,
)

pub IsOrdered-snoc :
    (g : Dfg) (seen xs s : List ℕ) (x : ℕ)
    → IsOrdered g seen xs
    → ((v : ℕ) → Set.count v s ≡ true → (Set.count v xs || Set.count v seen) ≡ true)
    → InputsIn g s x
    → IsOrdered g seen (xs ++ x ∷ [])
IsOrdered-snoc g seen [] s x o h a = (λ n e. AllIn-mono g.id s seen n.inputs h (a n e), tt)
IsOrdered-snoc g seen (y ∷ xs) s x o h a =
    (o.0, IsOrdered-snoc g (y ∷ seen) xs s x o.1 (λ v m. ground (arith, h v m)) a)

pub IsDistinct-snoc :
    (xs : List ℕ) (x : ℕ) → IsDistinct xs → Set.count x xs ≡ false → IsDistinct (xs ++ x ∷ [])
IsDistinct-snoc [] x d h = (refl, tt)
IsDistinct-snoc (y ∷ xs) x d h =
    (ground (arith, count-snoc y x xs), IsDistinct-snoc xs x d.1 (ground arith))
