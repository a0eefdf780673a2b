-- ===== src/Tree/Buried.antt =====
-- `tombstone_subtree` of crates/fdu-core/src/lib.rs leaves the arena well formed.
use ish.Prelude.{
  ℕ, zero, suc, ◌+◌, ◌≡◌, refl, ◌∙◌, Bool, true, false, Option, none, some, List, length, get_elem?,
  length-modify, Option-cases, inl, inr, ◌==◌, if◌then◌else◌,
}
use ish.Tree.{NodeId, NodeState, NodeRecord, Tree, lookup}
use ish.Tree.WellFormed.{AllFit, IsWellFormed, AllFit-modify}
use ish.Tree.Preserve.{Harmless, update_up-AllFit, length-update_up, with_nodes, same_links}
use ish.Tree.Tombstone.{
  is_tombstone, children_tombstoned, covers_up, bury, bury_node, Outcome, unfinished, refused,
  ended, bury_from, shrink, buried, tombstone_below, tombstone_subtree,
}

bury-Harmless : Harmless bury
unfolding bury
bury-Harmless = same_links λ _. NodeState.tombstone

shrink-Harmless : (a b : ℕ) → Harmless (shrink a b)
unfolding shrink
shrink-Harmless a b n m i r fit = assumption fit

-- As many nodes, which all fit.
abbrev Sound : ℕ → ℕ → List NodeRecord → List NodeRecord → Type 0
Sound n m old nodes = (length nodes ≡ length old) × AllFit n m nodes

module _ {n m : ℕ} (all : Bool) (id : NodeId) where
  Sound-if :
      (old : List NodeRecord) (b : Bool) (x y : List NodeRecord × ℕ × Option NodeId)
      → Sound n m old (x.0)
      → Sound n m old (y.0)
      → Sound n m old ((if b then x else y).0)
  Sound-if old true x y h k = h
  Sound-if old false x y h k = k

  bury_node-Sound :
      (old nodes : List NodeRecord) (count : ℕ) (node : NodeId) (r : NodeRecord)
      → Sound n m old nodes
      → Sound n m old ((bury_node all id nodes count node r).0)
  unfolding bury_node
  bury_node-Sound old nodes count node r (same, fit) =
      Sound-if old (is_tombstone r.state) _ _ (same, fit)
        (
          length-modify nodes node bury ∙ same,
          AllFit-modify nodes node bury fit λ q _ h. bury-Harmless n m node q h,
        )

  bury_from-Sound :
      (f : ℕ) (old nodes : List NodeRecord) (count : ℕ) (current : Option NodeId)
      → Sound n m old nodes
      → Sound n m old ((bury_from f all id nodes count current).0)
  unfolding bury_from
  bury_from-Sound f old nodes count none h = h
  bury_from-Sound zero old nodes count (some node) h = h
  bury_from-Sound (suc f) old nodes count (some node) h =
      elim (Option-cases (get_elem? nodes node)) [
        | inl absent ↦ rw (absent, bury_from) h
        | inr (r, there) ↦
            rw (there, bury_from)
              (bury_from-Sound f old _ _ _ (bury_node-Sound old nodes count node r h))
      ]

module _ (t : Tree) (w : IsWellFormed t) where
  buried-IsWellFormed :
      (r : NodeRecord) (parent : NodeId) (nodes : List NodeRecord) (o : Outcome ℕ)
      → Sound (length t.nodes) (length t.names) t.nodes nodes
      → IsWellFormed ((buried t r parent (nodes, o)).0)
  unfolding buried
  buried-IsWellFormed r parent nodes unfinished (same, fit) = with_nodes t w nodes same fit
  buried-IsWellFormed r parent nodes refused (same, fit) = with_nodes t w nodes same fit
  buried-IsWellFormed r parent nodes (ended count) (same, fit) =
      with_nodes t w _ (length-update_up (parent + 1) _ nodes (some parent) ∙ same) (
        update_up-AllFit (parent + 1) _ nodes (some parent)
          (shrink-Harmless r.apparent_bytes r.allocated_bytes) fit)

  kept_if :
      (b : Bool) (x y : Tree × Outcome (ℕ × ℕ × ℕ))
      → IsWellFormed (x.0)
      → IsWellFormed (y.0)
      → IsWellFormed ((if b then x else y).0)
  kept_if true x y h k = h
  kept_if false x y h k = k

  tombstone_below-IsWellFormed :
      (rounds : ℕ) (id : NodeId) (r : NodeRecord) (parent : NodeId) (all : Option Bool)
      → IsWellFormed ((tombstone_below rounds t id r parent all).0)
  unfolding tombstone_below
  tombstone_below-IsWellFormed rounds id r parent none = w
  tombstone_below-IsWellFormed rounds id r parent (some all) =
      kept_if (covers_up (parent + 1) t.nodes r.apparent_bytes r.allocated_bytes (some parent)) _ _
        (buried-IsWellFormed r parent _ _
          (bury_from-Sound all id rounds t.nodes t.nodes 0 (some id) (refl, w.all_fit)))
        w

  with_parent :
      (rounds : ℕ) (id : NodeId) (r : NodeRecord) (o : Option NodeId)
      → IsWellFormed (
          (elim o as (λ _. Tree × Outcome (ℕ × ℕ × ℕ)) [
            | none ↦ (t, refused)
            | some parent ↦
                tombstone_below rounds t id r parent
                  (children_tombstoned (length t.nodes) t.nodes r.first_child)
          ]).0)
  with_parent rounds id r none = w
  with_parent rounds id r (some parent) = tombstone_below-IsWellFormed rounds id r parent _

  pub tombstone_subtree-IsWellFormed :
      (rounds : ℕ) (id : NodeId) → IsWellFormed ((tombstone_subtree rounds t id).0)
  unfolding tombstone_subtree
  tombstone_subtree-IsWellFormed rounds id =
      kept_if (id == t.root) _ _ w (elim (Option-cases (lookup t id)) [
        | inl absent ↦ rw absent w
        | inr (r, there) ↦
            rw there (kept_if (is_tombstone r.state) _ _ w (with_parent rounds id r r.parent))
      ])
