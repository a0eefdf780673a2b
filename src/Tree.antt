-- ===== src/Tree.antt =====
-- crates/fdu-core/src/lib.rs: the arena tree that a disk scan fills.
-- A `NodeId` wraps a non-zero u32; here it is that number less one, which is what `index` returns.
-- The source indexes the arena by `self.nodes[i]`, which panics out of bounds; `modify` then changes
-- nothing.
pub mod Ancestors
pub mod WellFormed
pub mod Append
pub mod Lineage
pub mod Totals
pub mod Paths
pub mod Preserve
pub mod Tombstone
pub mod Buried
mod Rounds
pub mod Reachable
mod Tests
use ish.Prelude.{
  ℕ, zero, suc, ◌+◌, ◌<◌, ◌≤◌, ◌-◌, Bool, true, false, Option, none, some, List, [], ◌∷◌, ◌++◌,
  length, get_elem?, take, drop, modify, ltb, leb, ◌==◌, if◌then◌else◌, ◌&&◌, ◌||◌, reverse,
}

abbrev pub u32_size : ℕ
u32_size = 4294967296

abbrev pub u64_size : ℕ
u64_size = 18446744073709551616

-- The bit pattern of i64::MIN, which stands for a missing time.
abbrev pub no_time : ℕ
no_time = 9223372036854775808

unfoldable pub from_unix_seconds : ℕ → Option ℕ
from_unix_seconds seconds = if seconds == no_time then none else some seconds

unfoldable pub unix_seconds : ℕ → Option ℕ
unix_seconds time = if time == no_time then none else some time

abbrev pub NodeId : Type 0
NodeId = ℕ

unfoldable pub from_index : ℕ → Option NodeId
from_index index = if ltb (index + 1) u32_size then some index else none

pub record FileIdentity : Type 0 where
  pub device : ℕ
  pub inode : ℕ

pub data EntryType : Type 0 where
  root directory regular_file symlink other : EntryType

pub data ExclusionReason : Type 0 where
  mount_boundary unsupported_alias : ExclusionReason

pub data NodeState : Type 0 where
  scanning complete incomplete : NodeState
  excluded : ExclusionReason → NodeState
  stale tombstone : NodeState

pub data NodeStatus : Type 0 where
  scanning complete incomplete : NodeStatus
  excluded : ExclusionReason → NodeStatus
  stale : NodeStatus

unfoldable pub state_from : NodeStatus → NodeState
state_from NodeStatus.scanning = NodeState.scanning
state_from NodeStatus.complete = NodeState.complete
state_from NodeStatus.incomplete = NodeState.incomplete
state_from (NodeStatus.excluded reason) = NodeState.excluded reason
state_from NodeStatus.stale = NodeState.stale

pub record NodeRecord : Type 0 where
  pub parent : Option NodeId
  pub first_child : Option NodeId
  pub last_child : Option NodeId
  pub next_sibling : Option NodeId
  pub name_start : ℕ
  pub name_end : ℕ
  pub entry_type : EntryType
  pub identity : FileIdentity
  pub modified_time : ℕ
  pub link_count : ℕ
  pub apparent_bytes : ℕ
  pub allocated_bytes : ℕ
  pub state : NodeState

pub record Tree : Type 0 where
  pub nodes : List NodeRecord
  pub names : List ℕ
  pub root : NodeId

abbrev pub root_record : ℕ → FileIdentity → ℕ → NodeRecord
root_record name_end identity link_count = record {
  parent = none;
  first_child = none;
  last_child = none;
  next_sibling = none;
  name_start = 0;
  name_end = name_end;
  entry_type = root;
  identity = identity;
  modified_time = no_time;
  link_count = link_count;
  apparent_bytes = 0;
  allocated_bytes = 0;
  state = NodeState.scanning;
}

unfoldable pub new : List ℕ → FileIdentity → ℕ → Option Tree
new root_name identity link_count =
    if ltb (length root_name) u32_size
    then some (record {
      nodes = root_record (length root_name) identity link_count ∷ [];
      names = root_name;
      root = 0;
    })
    else none

abbrev pub lookup : Tree → NodeId → Option NodeRecord
lookup t id = get_elem? t.nodes id

-- The bytes of `start..end`, if the range lies within.
unfoldable pub slice : List ℕ → ℕ → ℕ → Option (List ℕ)
slice bytes start end =
    if leb start end && leb end (length bytes)
    then some (take (end - start) (drop start bytes))
    else none

unfoldable pub name : Tree → NodeId → Option (List ℕ)
unfolding slice
name t id = elim (lookup t id) [ none ↦ none | some r ↦ slice t.names r.name_start r.name_end ]

-- `u32::try_from`, then `checked_add`: the range of a name that is added behind `start` bytes.
unfoldable pub name_range : ℕ → ℕ → Option (ℕ × ℕ)
name_range start len =
    if ltb start u32_size && ltb len u32_size && ltb (start + len) u32_size
    then some (start, start + len)
    else none

-- The new child goes behind the parent's last child, or becomes its first.
unfoldable pub link : List NodeRecord → NodeId → NodeId → Option NodeId → List NodeRecord
link nodes parent id (some last) =
    modify (modify nodes last (λ r. record r { next_sibling = some id })) parent
      (λ r. record r { last_child = some id })
link nodes parent id none =
    modify (modify nodes parent (λ r. record r { first_child = some id })) parent
      (λ r. record r { last_child = some id })

unfoldable pub fresh :
    NodeId → ℕ × ℕ → EntryType → FileIdentity → ℕ → ℕ → ℕ → NodeStatus → NodeRecord
fresh parent (start, end) entry_type identity link_count apparent allocated status = record {
  parent = some parent;
  first_child = none;
  last_child = none;
  next_sibling = none;
  name_start = start;
  name_end = end;
  entry_type = entry_type;
  identity = identity;
  modified_time = no_time;
  link_count = link_count;
  apparent_bytes = apparent;
  allocated_bytes = allocated;
  state = state_from status;
}

-- What `append` takes besides the parent and the name.
pub record Entry : Type 0 where
  pub entry_type : EntryType
  pub identity : FileIdentity
  pub link_count : ℕ
  pub apparent : ℕ
  pub allocated : ℕ
  pub status : NodeStatus

unfoldable pub append : Tree → NodeId → List ℕ → Entry → Option (Tree × NodeId)
append t parent name e = elim (from_index (length t.nodes)) [
  | none ↦ none
  | some id ↦ elim (name_range (length t.names) (length name)) [
    | none ↦ none
    | some range ↦ elim (lookup t parent) [
      | none ↦ none
      | some r ↦
          let node =
            fresh parent range e.entry_type e.identity e.link_count e.apparent e.allocated
              e.status in
          some (
            record {
              nodes = link (t.nodes ++ node ∷ []) parent id r.last_child;
              names = t.names ++ name;
              root = t.root;
            },
            id,
          )
    ]
  ]
]

unfoldable pub set_state : Tree → NodeId → NodeStatus → Tree × Bool
set_state t id status =
    if ltb id (length t.nodes)
    then (
      record t { nodes = modify t.nodes id (λ r. record r { state = state_from status }) },
      true,
    )
    else (t, false)

unfoldable pub set_modified_time : Tree → NodeId → ℕ → Tree × Bool
set_modified_time t id time =
    if ltb id (length t.nodes)
    then (record t { nodes = modify t.nodes id (λ r. record r { modified_time = time }) }, true)
    else (t, false)
