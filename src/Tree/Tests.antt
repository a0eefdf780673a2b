-- ===== src/Tree/Tests.antt =====
-- A small arena of crates/fdu-core/src/lib.rs: the root "r", a directory "d" in it and a file "f" in that.
use ish.Prelude.{
  ◌+◌, ℕ, ◌+◌, ◌<◌, ◌≤◌, ◌≡◌, refl, ◌↔◌, ◌⊎◌, true, none, some, List, [], ◌∷◌, ◌++◌, length, arith,
  if◌then◌else◌,
}
use mathlib.Core.Option
use ish.Tree.{
  Tree, NodeId, NodeRecord, NodeStatus, FileIdentity, EntryType, directory, regular_file, Entry,
  new, root_record, append, name, lookup, u32_size, from_index, name_range, link,
}
use ish.Tree.Ancestors.{add_to_ancestors, materialize_path}
use ish.Tree.WellFormed.{IsWellFormed}
use ish.Tree.Append.{append-none_iff, name-append}
use ish.Tree.Lineage.{Ancestor, on_lineage}
use ish.Tree.Totals.{HasRoom, add_to_ancestors-true_iff, lookup-add_to_ancestors}
use ish.Tree.Paths.{materialize_path-total, materialize_path-append}
use ish.Tree.{NodeRecord, NodeState}
use ish.Tree.Tombstone.{tombstone_subtree, ended, unfinished}
use ish.Tree.Reachable.{entomb, Op, add, mark, count, finished, run, run-IsWellFormed}

abbrev identity : FileIdentity
identity = record { device = 1; inode = 2 }

abbrev file_name : List ℕ
file_name = b'f' ∷ []

abbrev entry_of : EntryType → Entry
entry_of kind = record {
  entry_type = kind;
  identity = identity;
  link_count = 1;
  apparent = 10;
  allocated = 20;
  status = NodeStatus.scanning;
}

abbrev bare : Tree
bare = record { nodes = root_record 1 identity 1 ∷ []; names = b'r' ∷ []; root = 0 }

bare-new : new (b'r' ∷ []) identity 1 ≡ some bare
unfolding new
bare-new = refl

abbrev built : List Op
built =
    add 0 (b'd' ∷ []) (entry_of directory)
    ∷ add 1 (b'f' ∷ []) (entry_of regular_file)
    ∷ count 2 10 20
    ∷ mark 1 NodeStatus.complete
    ∷ finished
    ∷ entomb 4 1
    ∷ []

-- A directory and a file in it, each counted in what is above it.
abbrev counted : Tree
counted =
    run
      (add 0 (b'd' ∷ []) (entry_of directory)
        ∷ count 0 10 20
        ∷ add 1 (b'f' ∷ []) (entry_of regular_file)
        ∷ count 1 10 20
        ∷ [])
      bare

run_tombstone :
    ((tombstone_subtree 4 counted 1).1 ≡ ended (20, 40, 2))
    × (Option.map
          (λ (r : NodeRecord). r.apparent_bytes)
          (lookup ((tombstone_subtree 4 counted 1).0) 0)
        ≡ some 0)
unfolding run append from_index name_range link tombstone_subtree add_to_ancestors
    ish.Tree.Ancestors.fits_up ish.Tree.fresh ish.Tree.Ancestors.update_up ish.Tree.Ancestors.grow
    ish.Tree.state_from ish.Tree.Tombstone.tombstone_below ish.Tree.Tombstone.children_tombstoned
    ish.Tree.Tombstone.covers_up ish.Tree.Tombstone.buried ish.Tree.Tombstone.bury_from
    ish.Tree.Tombstone.bury_node ish.Tree.Tombstone.bury ish.Tree.Tombstone.next_node
    ish.Tree.Tombstone.next_sibling_after_subtree ish.Tree.Tombstone.shrink
run_tombstone = (refl, refl)

run_unfinished : (tombstone_subtree 1 counted 1).1 ≡ unfinished
unfolding run append from_index name_range link tombstone_subtree add_to_ancestors
    ish.Tree.Ancestors.fits_up ish.Tree.fresh ish.Tree.Ancestors.update_up ish.Tree.Ancestors.grow
    ish.Tree.state_from ish.Tree.Tombstone.tombstone_below ish.Tree.Tombstone.children_tombstoned
    ish.Tree.Tombstone.covers_up ish.Tree.Tombstone.buried ish.Tree.Tombstone.bury_from
    ish.Tree.Tombstone.bury_node ish.Tree.Tombstone.bury ish.Tree.Tombstone.next_node
    ish.Tree.Tombstone.next_sibling_after_subtree ish.Tree.Tombstone.shrink
run_unfinished = refl

run-IsWellFormed_example : IsWellFormed (run built bare)
run-IsWellFormed_example = run-IsWellFormed (b'r' ∷ []) identity 1 built bare-new

abbrev tree : Tree
tree = run (add 0 (b'd' ∷ []) (entry_of directory) ∷ []) bare

tree-IsWellFormed : IsWellFormed tree
tree-IsWellFormed =
    run-IsWellFormed (b'r' ∷ []) identity 1 (add 0 (b'd' ∷ []) (entry_of directory) ∷ []) bare-new

abbrev larger : Tree
larger = run (add 1 (b'f' ∷ []) (entry_of regular_file) ∷ []) tree

tree-append : append tree 1 (b'f' ∷ []) (entry_of regular_file) ≡ some (larger, 2)
unfolding run append from_index name_range link
tree-append = refl

name-append_example :
    (name larger 2 ≡ some (b'f' ∷ []))
    × ((j : NodeId) → j < length tree.nodes → name larger j ≡ name tree j)
name-append_example =
    name-append tree 1 (b'f' ∷ []) (entry_of regular_file) tree-IsWellFormed tree-append

append-none_iff_example : (append tree 5 (b'f' ∷ []) (entry_of regular_file) ≡ none) ↔ (
    (u32_size ≤ length tree.nodes + 1)
    ⊎ (u32_size ≤ length tree.names + length file_name)
    ⊎ (length tree.nodes ≤ 5))
append-none_iff_example = append-none_iff tree 5 (b'f' ∷ []) (entry_of regular_file)

inside : 1 < length tree.nodes
unfolding run append from_index name_range link
inside = omega arith

materialize_path-append_example :
    materialize_path larger 2
    ≡ Option.map (λ names. names ++ (b'f' ∷ []) ∷ []) (materialize_path tree 1)
materialize_path-append_example =
    materialize_path-append tree 1 (b'f' ∷ []) (entry_of regular_file) tree-IsWellFormed tree-append

materialize_path-total_example : (names : List (List ℕ)) × (materialize_path tree 1 ≡ some names)
materialize_path-total_example = materialize_path-total tree tree-IsWellFormed 1 inside

add_to_ancestors-true_iff_example :
    ((add_to_ancestors tree 1 5 6).1 ≡ true)
    ↔ ((j : ℕ) (r : NodeRecord) → Ancestor tree.nodes j 1 → lookup tree j ≡ some r → HasRoom 5 6 r)
add_to_ancestors-true_iff_example = add_to_ancestors-true_iff tree 1 tree-IsWellFormed inside 5 6

lookup-add_to_ancestors_example : lookup (add_to_ancestors tree 1 5 6).0 0 ≡ (
    if on_lineage 2 tree.nodes (some 1) 0
    then if (add_to_ancestors tree 1 5 6).1
      then Option.map {A = NodeRecord}
          (λ r. record r {
            apparent_bytes = r.apparent_bytes + 5;
            allocated_bytes = r.allocated_bytes + 6;
          })
          (lookup tree 0)
      else Option.map {A = NodeRecord}
          (λ r. record r { state = NodeState.incomplete })
          (lookup tree 0)
    else lookup tree 0)
lookup-add_to_ancestors_example = lookup-add_to_ancestors tree 1 tree-IsWellFormed inside 5 6 0
