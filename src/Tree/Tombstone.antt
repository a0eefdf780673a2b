-- ===== src/Tree/Tombstone.antt =====
-- `tombstone_subtree` of crates/fdu-core/src/lib.rs.
use ish.Prelude.{
  ℕ, zero, suc, ◌+◌, ◌-◌, Bool, true, false, Option, none, some, List, length, get_elem?, modify,
  min, ltb, ◌==◌, if◌then◌else◌, ◌||◌, ◌&&◌,
}
use ish.Tree.{u64_size, NodeId, NodeState, NodeRecord, Tree, lookup}
use ish.Tree.Ancestors.{update_up}

abbrev pub is_tombstone : NodeState → Bool
is_tombstone NodeState.tombstone = true
is_tombstone _ = false

-- The loop that collects the lineage: whether it ends, with no node missing and no total too small.
unfoldable pub covers_up : ℕ → List NodeRecord → ℕ → ℕ → Option NodeId → Bool
covers_up zero nodes apparent allocated current = true
covers_up (suc f) nodes apparent allocated none = true
covers_up (suc f) nodes apparent allocated (some node) = elim (get_elem? nodes node) [
  | none ↦ false
  | some r ↦
      let rest = covers_up f nodes apparent allocated r.parent in
      if ltb r.apparent_bytes apparent || ltb r.allocated_bytes allocated then false else rest
]

-- The loop over the children: `none` is a missing node. Siblings stand at ever greater indices, so that
-- the number of nodes is fuel enough.
unfoldable pub children_tombstoned : ℕ → List NodeRecord → Option NodeId → Option Bool
children_tombstoned f nodes none = some true
children_tombstoned zero nodes (some child) = none
children_tombstoned (suc f) nodes (some child) = elim (get_elem? nodes child) [
  | none ↦ none
  | some r ↦
      let rest = children_tombstoned f nodes r.next_sibling in
      if is_tombstone r.state then rest else some false
]

-- Parents stand at ever smaller indices, so that one more than the node's index is fuel enough.
unfoldable pub next_sibling_after_subtree : ℕ → List NodeRecord → NodeId → NodeId → Option NodeId
next_sibling_after_subtree zero nodes current root = none
next_sibling_after_subtree (suc f) nodes current root =
    if current == root then none else (elim (get_elem? nodes current) [
      | none ↦ none
      | some r ↦ elim r.next_sibling [
        | some sibling ↦ some sibling
        | none ↦ elim r.parent [
          | none ↦ none
          | some parent ↦ next_sibling_after_subtree f nodes parent root
        ]
      ]
    ])

unfoldable pub bury : NodeRecord → NodeRecord
bury r = record r { state = NodeState.tombstone }

-- Where the traversal goes from a node that it marks.
unfoldable pub next_node : Bool → NodeId → List NodeRecord → NodeId → NodeRecord → Option NodeId
next_node all_children_tombstoned id nodes node r =
    if node == id && all_children_tombstoned then none else elim r.first_child [
      | some child ↦ some child
      | none ↦ next_sibling_after_subtree (node + 1) nodes node id
    ]

-- A round of the traversal at a node: the nodes, `tombstoned` and `current` behind it.
unfoldable pub bury_node :
    Bool → NodeId → List NodeRecord → ℕ → NodeId → NodeRecord → List NodeRecord × ℕ × Option NodeId
bury_node all_children_tombstoned id nodes tombstoned node r =
    if is_tombstone r.state
    then (nodes, tombstoned, next_sibling_after_subtree (node + 1) nodes node id)
    else (
      modify nodes node bury,
      min (tombstoned + 1) (u64_size - 1),
      next_node all_children_tombstoned id nodes node r,
    )

-- A loop that is stopped after its rounds, a `None`, or a result.
pub data Outcome {ℓ} (A : Type ℓ) : Type ℓ where
  unfinished refused : Outcome A
  ended : A → Outcome A

-- The traversal, for a number of rounds.
unfoldable pub bury_from :
    ℕ → Bool → NodeId → List NodeRecord → ℕ → Option NodeId → List NodeRecord × Outcome ℕ
bury_from f all_children_tombstoned id nodes tombstoned none = (nodes, ended tombstoned)
bury_from zero all_children_tombstoned id nodes tombstoned (some node) = (nodes, unfinished)
bury_from (suc f) all_children_tombstoned id nodes tombstoned (some node) =
    elim (get_elem? nodes node) [
      | none ↦ (nodes, refused)
      | some r ↦
          let next = bury_node all_children_tombstoned id nodes tombstoned node r in
          bury_from f all_children_tombstoned id (next.0) (next.1) (next.2)
    ]

unfoldable pub shrink : ℕ → ℕ → NodeRecord → NodeRecord
shrink apparent allocated r = record r {
  apparent_bytes = r.apparent_bytes - apparent;
  allocated_bytes = r.allocated_bytes - allocated;
}

-- What is left to do once the traversal is over: the totals of the lineage.
unfoldable pub buried :
    Tree → NodeRecord → NodeId → List NodeRecord × Outcome ℕ → Tree × Outcome (ℕ × ℕ × ℕ)
buried t r parent (nodes', unfinished) = (record t { nodes = nodes' }, unfinished)
buried t r parent (nodes', refused) = (record t { nodes = nodes' }, refused)
buried t r parent (nodes', ended tombstoned) = (
  record t {
    nodes = update_up (parent + 1) (shrink r.apparent_bytes r.allocated_bytes) nodes' (some parent);
  },
  ended (r.apparent_bytes, r.allocated_bytes, tombstoned),
)

-- From the lineage on, for a node that has a parent.
unfoldable pub tombstone_below :
    ℕ → Tree → NodeId → NodeRecord → NodeId → Option Bool → Tree × Outcome (ℕ × ℕ × ℕ)
tombstone_below rounds t id r parent none = (t, refused)
tombstone_below rounds t id r parent (some all_children_tombstoned) =
    if covers_up (parent + 1) t.nodes r.apparent_bytes r.allocated_bytes (some parent)
    then buried t r parent (bury_from rounds all_children_tombstoned id t.nodes 0 (some id))
    else (t, refused)

-- The whole, with the traversal stopped after a number of rounds.
unfoldable pub tombstone_subtree : ℕ → Tree → NodeId → Tree × Outcome (ℕ × ℕ × ℕ)
tombstone_subtree rounds t id = if id == t.root then (t, refused) else (elim (lookup t id) [
  | none ↦ (t, refused)
  | some r ↦ if is_tombstone r.state then (t, ended (0, 0, 0)) else elim r.parent [
    | none ↦ (t, refused)
    | some parent ↦
        tombstone_below rounds t id r parent
          (children_tombstoned (length t.nodes) t.nodes r.first_child)
  ]
])
