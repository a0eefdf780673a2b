-- ===== src/Tree/Ancestors.antt =====
-- crates/fdu-core/src/lib.rs: the operations that walk from a node to the root, and the pass over all nodes.
use ish.Prelude.{
  ℕ, zero, suc, ◌+◌, Bool, true, false, Option, none, some, List, [], ◌∷◌, get_elem?, modify, leb,
  ◌==◌, if◌then◌else◌, ◌||◌, reverse,
}
use ish.Tree.{u64_size, NodeId, NodeState, NodeRecord, Tree, lookup, name}

-- The loops over a node and its ancestors. The fuel is one more than the node's index: each parent
-- stands at a smaller index.
unfoldable pub update_up :
    ℕ → (NodeRecord → NodeRecord) → List NodeRecord → Option NodeId → List NodeRecord
update_up zero change nodes current = nodes
update_up (suc f) change nodes none = nodes
update_up (suc f) change nodes (some node) = elim (get_elem? nodes node) [
  | none ↦ nodes
  | some r ↦ update_up f change (modify nodes node change) r.parent
]

-- The first loop of `add_to_ancestors`: `none` is a missing node, `some false` an overflow.
unfoldable pub fits_up : ℕ → List NodeRecord → ℕ → ℕ → Option NodeId → Option Bool
fits_up zero nodes apparent allocated current = some true
fits_up (suc f) nodes apparent allocated none = some true
fits_up (suc f) nodes apparent allocated (some node) = elim (get_elem? nodes node) [
  | none ↦ none
  | some r ↦
      let rest = fits_up f nodes apparent allocated r.parent in
      if leb u64_size (r.apparent_bytes + apparent) || leb u64_size (r.allocated_bytes + allocated)
      then some false
      else rest
]

unfoldable pub grow : ℕ → ℕ → NodeRecord → NodeRecord
grow apparent allocated r = record r {
  apparent_bytes = r.apparent_bytes + apparent;
  allocated_bytes = r.allocated_bytes + allocated;
}

unfoldable pub spoil : NodeRecord → NodeRecord
spoil r = record r { state = NodeState.incomplete }

unfoldable pub add_to_ancestors : Tree → NodeId → ℕ → ℕ → Tree × Bool
add_to_ancestors t id apparent allocated =
    elim (fits_up (id + 1) t.nodes apparent allocated (some id)) [
      | none ↦ (t, false)
      | some true ↦ (
        record t { nodes = update_up (id + 1) (grow apparent allocated) t.nodes (some id) },
        true,
      )
      | some false ↦ (record t { nodes = update_up (id + 1) spoil t.nodes (some id) }, false)
    ]

unfoldable pub give_up : NodeState → NodeState
give_up NodeState.scanning = NodeState.incomplete
give_up NodeState.complete = NodeState.incomplete
give_up state = state

unfoldable pub mark_incomplete_to_root : Tree → NodeId → Tree
mark_incomplete_to_root t id = record t {
  nodes = update_up (id + 1) (λ r. record r { state = give_up r.state }) t.nodes (some id);
}

unfoldable pub outdate : NodeState → NodeState
outdate NodeState.tombstone = NodeState.tombstone
outdate _ = NodeState.stale

unfoldable pub mark_stale_to_root : Tree → NodeId → Tree
mark_stale_to_root t id = record t {
  nodes = update_up (id + 1) (λ r. record r { state = outdate r.state }) t.nodes (some id);
}

-- One round of the loop of `materialize_path`: the root adds no name.
unfoldable pub with_name : Bool → Option (List ℕ) → Option (List (List ℕ)) → Option (List (List ℕ))
with_name at_root own none = none
with_name true own (some rest) = some rest
with_name false none (some rest) = none
with_name false (some own) (some rest) = some (own ∷ rest)

-- The loop of `materialize_path`; the names come out innermost first.
unfoldable pub path_up : ℕ → Tree → Option NodeId → Option (List (List ℕ))
unfolding with_name
path_up f t none = some []
path_up zero t (some node) = none
path_up (suc f) t (some node) = elim (lookup t node) [
  | none ↦ none
  | some r ↦ with_name (node == t.root) (name t node) (path_up f t r.parent)
]

unfoldable pub materialize_path : Tree → NodeId → Option (List (List ℕ))
unfolding path_up
materialize_path t id = elim (path_up (id + 1) t (some id)) [
  | none ↦ none
  | some names ↦ some (reverse names)
]

abbrev pub is_scanning : NodeState → Bool
is_scanning NodeState.scanning = true
is_scanning _ = false

unfoldable pub marked : Bool → NodeRecord → List NodeRecord × ℕ → List NodeRecord × ℕ
marked true r (rest, changed) = (spoil r ∷ rest, suc changed)
marked false r (rest, changed) = (r ∷ rest, changed)

unfoldable pub mark_scanning : List NodeRecord → List NodeRecord × ℕ
unfolding marked
mark_scanning [] = ([], 0)
mark_scanning (r ∷ rest) = marked (is_scanning r.state) r (mark_scanning rest)

unfoldable pub mark_scanning_incomplete : Tree → Tree × ℕ
mark_scanning_incomplete t =
    let (nodes', changed) = mark_scanning t.nodes in (record t { nodes = nodes' }, changed)
