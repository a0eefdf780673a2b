-- ===== src/Tree/Rounds.antt =====
-- The fuel of the inner loops of `tombstone_subtree` of crates/fdu-core/src/lib.rs.
use ish.Prelude.{
  ℕ, zero, suc, ◌+◌, ◌≤◌, ◌<◌, ◌≡◌, refl, Bool, true, false, Option, none, some, List, length,
  arith, get_elem?, get_elem?-none_iff, Option-cases, Bool-cases, inl, inr, ◌==◌,
}
use ish.Tree.{NodeId, NodeRecord, Tree}
use ish.Tree.Tombstone.{is_tombstone, children_tombstoned, next_sibling_after_subtree}
use mathlib.Core.Path.{subst}
use ish.Tree.Lineage.{Ordered}
use ish.Tree.WellFormed.{IsWellFormed, AllFit, Above, Parent}

-- The node, if there is one, is in range, and the fuel reaches the end from it.
abbrev Reaches : ℕ → ℕ → Option NodeId → Type 0
Reaches n f none = Unit
Reaches n f (some i) = (i < n) × (n ≤ f + i)

Above-Reaches : (n f i : ℕ) (o : Option NodeId) → n ≤ suc f + i → Above n i o → Reaches n f o
Above-Reaches n f i none h a = tt
Above-Reaches n f i (some j) h a = omega arith

children_tombstoned-from :
    {m : ℕ} (f : ℕ) (nodes : List NodeRecord) (child : Option NodeId)
    → AllFit (length nodes) m nodes
    → Reaches (length nodes) f child
    → (b : Bool) × (children_tombstoned f nodes child ≡ some b)
unfolding children_tombstoned
children_tombstoned-from f nodes none fit h = (true, refl)
children_tombstoned-from zero nodes (some child) fit h = absurd (omega arith)
children_tombstoned-from (suc f) nodes (some child) fit h =
    elim (Option-cases (get_elem? nodes child)) [
      | inl absent ↦ absurd (omega (arith, (get_elem?-none_iff nodes child).0 absent))
      | inr (r, there) ↦
          let (b, e) = children_tombstoned-from f nodes r.next_sibling fit (
            Above-Reaches (length nodes) f child r.next_sibling (omega arith)
              (fit child r there).next_behind) in
          elim (Bool-cases (is_tombstone r.state)) [
            | inl h ↦ (b, rw (there, children_tombstoned, h) e)
            | inr h ↦ (false, rw (there, children_tombstoned, h) refl)
          ]
    ]

-- In a well-formed arena the loop over the children of a node ends within as many rounds as there are
-- nodes, and no node is missing.
children_tombstoned-total :
    (t : Tree) (w : IsWellFormed t) (id : NodeId) (r : NodeRecord)
    → get_elem? t.nodes id ≡ some r
    → (b : Bool) × (children_tombstoned (length t.nodes) t.nodes r.first_child ≡ some b)
children_tombstoned-total t w id r there =
    children_tombstoned-from (length t.nodes) t.nodes r.first_child w.all_fit (
      Above-Reaches (length t.nodes) (length t.nodes) id r.first_child (omega arith)
        (w.all_fit id r there).first_behind)

-- Where parents stand before their children, the climb from a node gives the same with any two numbers of
-- rounds that are greater than the node's index.
next_sibling_after_subtree-rounds :
    (f g : ℕ) (nodes : List NodeRecord) (current root : NodeId)
    → Ordered nodes
    → current < f
    → current < g
    → next_sibling_after_subtree f nodes current root
      ≡ next_sibling_after_subtree g nodes current root
unfolding next_sibling_after_subtree
next_sibling_after_subtree-rounds zero g nodes current root o h k = absurd (omega arith)
next_sibling_after_subtree-rounds (suc f) zero nodes current root o h k = absurd (omega arith)
next_sibling_after_subtree-rounds (suc f) (suc g) nodes current root o h k =
    elim (Bool-cases (current == root)) [
      | inl e ↦ rw (next_sibling_after_subtree, e) refl
      | inr e ↦ elim (Option-cases (get_elem? nodes current)) [
        | inl absent ↦ rw (next_sibling_after_subtree, e, absent) refl
        | inr (r, there) ↦ elim (Option-cases r.next_sibling) [
          | inr (s, beside) ↦ rw (next_sibling_after_subtree, e, there, beside) refl
          | inl last ↦ elim (Option-cases r.parent) [
            | inl top ↦ rw (next_sibling_after_subtree, e, there, last, top) refl
            | inr (p, above) ↦
                let below : p < current = subst (Parent current) above (o current r there) in
                rw (next_sibling_after_subtree, e, there, last, above)
                  (next_sibling_after_subtree-rounds f g nodes p root o (omega arith) (omega arith))
          ]
        ]
      ]
    ]
