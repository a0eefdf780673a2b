-- ===== src/Tree/Append.antt =====
-- `Tree::append` of crates/fdu-core/src/lib.rs: the arena's invariant, and the names of its nodes.
use ish.Prelude.{
  ℕ, ◌+◌, ◌<◌, ◌≤◌, ◌-◌, ◌≡◌, refl, Option, none, some, List, [], ◌∷◌, ◌++◌, length, get_elem?,
  take, drop, arith, length-append, length-modify, lt-length_of_get_elem?, Option-cases, ap₂,
  get_elem?-none_iff, ◌↔◌, ◌⊎◌, ap, sym, drop-append, take-length, drop-append_left,
  take-append_left, length-drop, get_elem?-append_left, get_elem?-length, map-get_elem?-modify, inl,
  inr,
}
use mathlib.Core.Path.{subst, ◌∙◌}
use native.Mathlib.Nat.{add-sub_cancel_left}
use mathlib.Core.Option
use ish.Tree.{
  u32_size, NodeId, NodeRecord, Tree, Entry, append, link, fresh, from_index, name_range, lookup,
  name, slice,
}
use ish.Tree.WellFormed.{Fits, AllFit, IsWellFormed, Above, Fits-mono, AllFit-modify, AllFit-snoc}

length-link :
    (nodes : List NodeRecord) (parent id : NodeId) (last : Option NodeId)
    → length (link nodes parent id last) ≡ length nodes
unfolding link
length-link nodes parent id none = omega (arith, length-modify {0})
length-link nodes parent id (some last) = omega (arith, length-modify {0})

module _ {n m i : ℕ} {r : NodeRecord} (c : NodeId) (before : i < c) (inside : c < n)
    (f : Fits n m i r) where
  Fits-first_child : Fits n m i (record r { first_child = some c })
  Fits-first_child = assumption f

  Fits-last_child : Fits n m i (record r { last_child = some c })
  Fits-last_child = assumption f

  Fits-next_sibling : Fits n m i (record r { next_sibling = some c })
  Fits-next_sibling = assumption f

AllFit-link :
    {n m : ℕ} (nodes : List NodeRecord) (parent id : NodeId) (last : Option NodeId)
    → parent < id
    → id < n
    → ((l : NodeId) → last ≡ some l → l < id)
    → AllFit n m nodes
    → AllFit n m (link nodes parent id last)
unfolding link
AllFit-link nodes parent id (some last) h k before all =
    AllFit-modify _ parent _
      (AllFit-modify nodes last _ all λ r e. Fits-next_sibling id (before last refl) k)
      λ r e. Fits-last_child id h k
AllFit-link nodes parent id none h k before all =
    AllFit-modify _ parent _ (AllFit-modify nodes parent _ all λ r e. Fits-first_child id h k)
      λ r e. Fits-last_child id h k

-- The record that `append` adds.
abbrev pub added : Tree → NodeId → List ℕ → Entry → NodeRecord
added t parent name e =
    fresh parent (length t.names, length t.names + length name) e.entry_type e.identity e.link_count
      e.apparent e.allocated e.status

abbrev pub after : Tree → NodeId → List ℕ → Entry → NodeRecord → Tree
after t parent name e r = record {
  nodes = link (t.nodes ++ added t parent name e ∷ []) parent (length t.nodes) r.last_child;
  names = t.names ++ name;
  root = t.root;
}

-- A successful `append`, taken apart.
pub append_inv :
    (t : Tree) (parent : NodeId) (name : List ℕ) (e : Entry) {t' : Tree} {id : NodeId}
    → append t parent name e ≡ some (t', id)
    → (r : NodeRecord) × (lookup t parent ≡ some r)
      × (id ≡ length t.nodes)
      × (id + 1 < u32_size)
      × (t' ≡ after t parent name e r)
unfolding append from_index name_range
append_inv t parent name e {t'} {id} h = elim (Option-cases (lookup t parent)) [
  | inl no_parent ↦ absurd (ground arith)
  | inr (r, found) ↦ (r, found, ground arith, ground arith, ground arith)
]

length-after :
    (t : Tree) (parent : NodeId) (name : List ℕ) (e : Entry) (r : NodeRecord)
    → length (after t parent name e r).nodes ≡ length t.nodes + 1
length-after t parent name e r =
    length-link _ parent (length t.nodes) r.last_child ∙ length-append t.nodes _

module _ (t : Tree) (parent : NodeId) (name : List ℕ) (e : Entry) where
  added-Fits :
      parent < length t.nodes
      → Fits
          (length t.nodes + 1)
          (length t.names + length name)
          (length t.nodes)
          (added t parent name e)
  unfolding fresh
  added-Fits h = omega arith

  after-IsWellFormed :
      (r : NodeRecord)
      → lookup t parent ≡ some r
      → IsWellFormed t
      → IsWellFormed (after t parent name e r)
  after-IsWellFormed r found w =
      let bound = lt-length_of_get_elem? t.nodes parent found in
      record {
        nonempty = omega (arith, length-after t parent name e r);
        root_first = w.root_first;
        all_fit =
            rw (length-after t parent name e r, length-append t.names name)
              (AllFit-link (t.nodes ++ added t parent name e ∷ []) parent (length t.nodes)
                r.last_child bound (omega arith)
                (λ l q.
                  last_before l (
                    subst (Above (length t.nodes) parent) q (w.all_fit parent r found).last_behind))
                (AllFit-snoc t.nodes _
                  (λ i x q. Fits-mono (omega arith) (omega arith) (w.all_fit i x q))
                  (added-Fits bound)));
      }
    where
      last_before : (l : NodeId) → Above (length t.nodes) parent (some l) → l < length t.nodes
      last_before l h = h.1

  -- A successful `append` keeps a well-formed arena well formed.
  pub append-IsWellFormed :
      {t' : Tree} {id : NodeId}
      → IsWellFormed t
      → append t parent name e ≡ some (t', id)
      → IsWellFormed t'
  append-IsWellFormed w h =
      let (r, found, _, _, eq) = append_inv t parent name e h in
      subst IsWellFormed (sym eq) (after-IsWellFormed r found w)

-- Where a record's name lies.
abbrev range : NodeRecord → ℕ × ℕ
range r = (r.name_start, r.name_end)

slice_at : List ℕ → Option (ℕ × ℕ) → Option (List ℕ)
slice_at names none = none
slice_at names (some (start, end)) = slice names start end

name-slice_at :
    (t : Tree) (id : NodeId) → name t id ≡ slice_at t.names (Option.map range (lookup t id))
unfolding name slice_at
name-slice_at t id = elim (Option-cases (lookup t id)) [
  | inl e ↦ rw (e, name)
  | inr (r, e) ↦ rw (e, name)
]

range-link :
    (nodes : List NodeRecord) (parent id : NodeId) (last : Option NodeId) (j : ℕ)
    → Option.map range (get_elem? (link nodes parent id last) j)
      ≡ Option.map range (get_elem? nodes j)
unfolding link
range-link nodes parent id none j =
    map-get_elem?-modify range _ parent j _ (λ r. refl)
    ∙ map-get_elem?-modify range nodes parent j _ (λ r. refl)
range-link nodes parent id (some last) j =
    map-get_elem?-modify range _ parent j _ (λ r. refl)
    ∙ map-get_elem?-modify range nodes last j _ (λ r. refl)

pub slice-some :
    (xs : List ℕ) (a b : ℕ) → a ≤ b → b ≤ length xs → slice xs a b ≡ some (take (b - a) (drop a xs))
unfolding slice
slice-some xs a b h k = ground arith

slice-append_right :
    (xs ys : List ℕ) → slice (xs ++ ys) (length xs) (length xs + length ys) ≡ some ys
slice-append_right xs ys =
    slice-some (xs ++ ys) (length xs) _ (omega arith) (omega (arith, length-append xs ys))
    ∙ rw (drop-append xs ys, add-sub_cancel_left) (ap some (take-length ys))

slice-append_left :
    (xs ys : List ℕ) (a b : ℕ) → a ≤ b → b ≤ length xs → slice (xs ++ ys) a b ≡ slice xs a b
slice-append_left xs ys a b h k =
    slice-some (xs ++ ys) a b h (omega (arith, length-append xs ys))
    ∙ rw (
      drop-append_left a xs ys (omega arith),
      take-append_left (b - a) (drop a xs) ys (omega (arith, length-drop a xs)),
      slice-some xs a b h k,
    )

module _ (t : Tree) (parent : NodeId) (s : List ℕ) (e : Entry) where
  range-after :
      (r : NodeRecord) (j : ℕ)
      → Option.map range (lookup (after t parent s e r) j)
        ≡ Option.map range (get_elem? (t.nodes ++ added t parent s e ∷ []) j)
  range-after r j =
      range-link (t.nodes ++ added t parent s e ∷ []) parent (length t.nodes) r.last_child j

  pub name-after_self : (r : NodeRecord) → name (after t parent s e r) (length t.nodes) ≡ some s
  unfolding slice_at fresh
  name-after_self r =
      name-slice_at (after t parent s e r) (length t.nodes)
      ∙ rw (range-after r (length t.nodes), get_elem?-length t.nodes) (slice-append_right t.names s)

  pub name-after_old :
      (r : NodeRecord) (j : NodeId) {q : NodeRecord}
      → IsWellFormed t
      → lookup t j ≡ some q
      → name (after t parent s e r) j ≡ name t j
  unfolding slice_at
  name-after_old r j {q} w h =
      let f = w.all_fit j q h in
      rw
        (
          name-slice_at (after t parent s e r) j,
          name-slice_at t j,
          range-after r j,
          get_elem?-append_left t.nodes (added t parent s e ∷ []) j
              (lt-length_of_get_elem? t.nodes j h),
          h,
        )
        (slice-append_left t.names s q.name_start q.name_end f.name_ordered f.name_inside)

  -- After a successful `append` to a well-formed arena the new node has the name that was given, and
  -- every node that the arena had keeps its name.
  pub name-append :
      {t' : Tree} {id : NodeId}
      → IsWellFormed t
      → append t parent s e ≡ some (t', id)
      → (name t' id ≡ some s) × ((j : NodeId) → j < length t.nodes → name t' j ≡ name t j)
  name-append w h =
      let (r, found, new_id, _, eq) = append_inv t parent s e h in
      (
        cc (ap₂ name eq new_id, name-after_self r),
        λ j k. elim (Option-cases (lookup t j)) [
          | inl e' ↦ absurd (omega (arith, (get_elem?-none_iff t.nodes j).0 e'))
          | inr (q, e') ↦ ap (λ x. name x j) eq ∙ name-after_old r j w e'
        ],
      )

  -- `append` fails exactly when the new index, the buffer of names or the parent is out of range.
  pub append-none_iff : (append t parent s e ≡ none) ↔ (
      (u32_size ≤ length t.nodes + 1)
      ⊎ (u32_size ≤ length t.names + length s)
      ⊎ (length t.nodes ≤ parent))
  unfolding append from_index name_range
  append-none_iff = elim (Option-cases (lookup t parent)) [
    | inl no_parent ↦
        (λ _. inr (inr ((get_elem?-none_iff t.nodes parent).0 no_parent)), λ h. ground arith)
    | inr (r, found) ↦
        let bound = lt-length_of_get_elem? t.nodes parent found in
        (λ h. ground arith, λ h. ground arith)
  ]

-- The new node hangs under the given parent, and no other node changes its parent.
abbrev parent_of : NodeRecord → Option NodeId
parent_of r = r.parent

parent-link :
    (nodes : List NodeRecord) (parent id : NodeId) (last : Option NodeId) (j : ℕ)
    → Option.map parent_of (get_elem? (link nodes parent id last) j)
      ≡ Option.map parent_of (get_elem? nodes j)
unfolding link
parent-link nodes parent id none j =
    map-get_elem?-modify parent_of _ parent j _ (λ r. refl)
    ∙ map-get_elem?-modify parent_of nodes parent j _ (λ r. refl)
parent-link nodes parent id (some last) j =
    map-get_elem?-modify parent_of _ parent j _ (λ r. refl)
    ∙ map-get_elem?-modify parent_of nodes last j _ (λ r. refl)

module _ (t : Tree) (parent : NodeId) (s : List ℕ) (e : Entry) (r : NodeRecord) where
  pub parent-after_self :
      (x : NodeRecord) × (lookup (after t parent s e r) (length t.nodes) ≡ some x)
      × (x.parent ≡ some parent)
  unfolding fresh
  parent-after_self =
      let kept =
        parent-link (t.nodes ++ added t parent s e ∷ []) parent (length t.nodes) r.last_child
          (length t.nodes) in
      elim (Option-cases (lookup (after t parent s e r) (length t.nodes))) [
        | inl q ↦
            absurd (ground (arith, kept, get_elem?-length t.nodes {y = added t parent s e} []))
        | inr (x, q) ↦
            (x, q, ground (arith, kept, get_elem?-length t.nodes {y = added t parent s e} []))
      ]

  pub parent-after_old :
      (j : NodeId) {q : NodeRecord}
      → lookup t j ≡ some q
      → (x : NodeRecord) × (lookup (after t parent s e r) j ≡ some x) × (x.parent ≡ q.parent)
  parent-after_old j {q} h =
      let kept =
        parent-link (t.nodes ++ added t parent s e ∷ []) parent (length t.nodes) r.last_child j in
      let old =
        get_elem?-append_left t.nodes (added t parent s e ∷ []) j
          (lt-length_of_get_elem? t.nodes j h) in
      elim (Option-cases (lookup (after t parent s e r) j)) [
        | inl n ↦ absurd (ground (arith, kept, old))
        | inr (x, q) ↦ (x, q, ground (arith, kept, old))
      ]
