-- ===== src/Tree/WellFormed.antt =====
-- The arena invariant of crates/fdu-core/src/lib.rs: links stay in the arena, parents stand before
-- and children, like later siblings, behind a node, and names lie in the buffer of names.
use ish.Prelude.{
  ℕ, ◌<◌, ◌≤◌, ◌≡◌, Option, none, some, List, [], ◌∷◌, ◌++◌, length, get_elem?, modify, arith,
  modify_inv, snoc_inv, sym, inl, inr,
}
use mathlib.Core.Path.{subst}
use ish.Tree.{NodeId, NodeRecord, Tree}

abbrev pub Above : ℕ → ℕ → Option NodeId → Type 0
Above n i none = Unit
Above n i (some j) = (i < j) × (j < n)

-- Only the node at index 0 has no parent.
abbrev pub Parent : ℕ → Option NodeId → Type 0
Parent i none = i ≡ 0
Parent i (some p) = p < i

-- What holds of the record at index `i` in an arena of `n` nodes and `m` bytes of names.
pub record Fits (n m i : ℕ) (r : NodeRecord) : Type 0 where
  pub parent_before : Parent i r.parent
  pub first_behind : Above n i r.first_child
  pub last_behind : Above n i r.last_child
  pub next_behind : Above n i r.next_sibling
  pub name_ordered : r.name_start ≤ r.name_end
  pub name_inside : r.name_end ≤ m

abbrev pub AllFit : ℕ → ℕ → List NodeRecord → Type 0
AllFit n m nodes = (i : ℕ) (r : NodeRecord) → get_elem? nodes i ≡ some r → Fits n m i r

pub record IsWellFormed (t : Tree) : Type 0 where
  pub nonempty : 0 < length t.nodes
  pub root_first : t.root ≡ 0
  pub all_fit : AllFit (length t.nodes) (length t.names) t.nodes

Above-mono : (n n' i : ℕ) (o : Option NodeId) → n ≤ n' → Above n i o → Above n' i o
Above-mono n n' i none h a = tt
Above-mono n n' i (some j) h a = omega arith

pub Fits-mono : {n n' m m' i : ℕ} {r : NodeRecord} → n ≤ n' → m ≤ m' → Fits n m i r → Fits n' m' i r
Fits-mono {n} {n'} {i} {r} h k f = record {
  parent_before = f.parent_before;
  first_behind = Above-mono n n' i r.first_child h f.first_behind;
  last_behind = Above-mono n n' i r.last_child h f.last_behind;
  next_behind = Above-mono n n' i r.next_sibling h f.next_behind;
  name_ordered = f.name_ordered;
  name_inside = omega arith;
}

module _ {n m : ℕ} where
  pub AllFit-modify :
      (nodes : List NodeRecord) (k : ℕ) (g : NodeRecord → NodeRecord)
      → AllFit n m nodes
      → ((r : NodeRecord) → get_elem? nodes k ≡ some r → Fits n m k r → Fits n m k (g r))
      → AllFit n m (modify nodes k g)
  AllFit-modify nodes k g all step i r h = elim (modify_inv nodes k i g h) [
    | inl (_, e) ↦ all i r e
    | inr (x, p, e, q) ↦
        subst (λ z. Fits n m i z) (sym q)
          (subst (λ j. Fits n m j (g x)) p (step x (rw p e) (rw p (all i x e))))
  ]

  pub AllFit-snoc :
      (nodes : List NodeRecord) (x : NodeRecord)
      → AllFit n m nodes
      → Fits n m (length nodes) x
      → AllFit n m (nodes ++ x ∷ [])
  AllFit-snoc nodes x all fit i r h = elim (snoc_inv nodes x i h) [
    | inl e ↦ all i r e
    | inr (p, q) ↦ subst (λ z. Fits n m i z) (sym q) (subst (λ j. Fits n m j x) (sym p) fit)
  ]
