-- ===== src/Tree/Paths.antt =====
-- `materialize_path` of crates/fdu-core/src/lib.rs, and the path of a node that `append` adds.
use ish.Prelude.{
  ℕ, zero, suc, ◌+◌, ◌<◌, ◌≡◌, refl, Option, none, some, List, [], ◌∷◌, ◌++◌, length, arith,
  Option-cases, inl, inr, reverse, reverse-cons, ap, sym, ap₂, ◌∙◌, ◌≢◌, take, drop, ◌-◌,
  lt-length_of_get_elem?, get_elem?-none_iff, ◌==◌, if◌then◌else◌,
}
use mathlib.Core.Option
use native.Mathlib.Numerals.{add-one}
use ish.Tree.{NodeId, NodeRecord, Tree, Entry, lookup, name, append}
use ish.Tree.Ancestors.{path_up, with_name, materialize_path}
use ish.Tree.WellFormed.{IsWellFormed}
use ish.Tree.Lineage.{Below, Below-mono, Parent-Below, IsWellFormed-Ordered}
use ish.Tree.Append.{
  slice-some, after, append_inv, name-after_self, name-after_old, parent-after_self,
  parent-after_old,
}

path_up_step :
    (f : ℕ) (t : Tree) (node : NodeId) {r : NodeRecord}
    → lookup t node ≡ some r
    → path_up (suc f) t (some node)
      ≡ with_name (node == t.root) (name t node) (path_up f t r.parent)
unfolding path_up
path_up_step f t node h = rw (h, path_up)

module _ (t : Tree) (w : IsWellFormed t) where
  name-total : (j : NodeId) → j < length t.nodes → (s : List ℕ) × (name t j ≡ some s)
  unfolding name
  name-total j h = elim (Option-cases (lookup t j)) [
    | inl e ↦ absurd (omega (arith, (get_elem?-none_iff t.nodes j).0 e))
    | inr (r, e) ↦
        let f = w.all_fit j r e in
        (
          take (r.name_end - r.name_start) (drop r.name_start t.names),
          rw (e, name) (slice-some t.names r.name_start r.name_end f.name_ordered f.name_inside),
        )
  ]

  path_up-total :
      (f : ℕ) (current : Option NodeId)
      → Below f current
      → Below (length t.nodes) current
      → (names : List (List ℕ)) × (path_up f t current ≡ some names)
  unfolding path_up
  path_up-total zero none h k = ([], refl)
  path_up-total (suc f) none h k = ([], refl)
  path_up-total zero (some node) h k = elim h [ ]
  path_up-total (suc f) (some node) h k = elim (Option-cases (lookup t node)) [
    | inl e ↦ absurd (omega (arith, (get_elem?-none_iff t.nodes node).0 e))
    | inr (r, e) ↦
        let before = Parent-Below node r.parent (IsWellFormed-Ordered t w node r e) in
        let (rest, q) =
          path_up-total f r.parent (Below-mono node f r.parent (omega arith) before)
            (Below-mono node (length t.nodes) r.parent (omega arith) before) in
        let (s, p) = name-total node k in (if node == t.root then rest else s ∷ rest, ground arith)
  ]

  -- In a well-formed arena every node has a path: the walk ends, and no name is missing.
  pub materialize_path-total :
      (id : NodeId)
      → id < length t.nodes
      → (names : List (List ℕ)) × (materialize_path t id ≡ some names)
  unfolding materialize_path
  materialize_path-total id h =
      let (names, e) = path_up-total (id + 1) (some id) (omega arith) h in
      (reverse names, rw (e, materialize_path))

module _ (t : Tree) (w : IsWellFormed t) (parent : NodeId) (s : List ℕ) (e : Entry)
    (r : NodeRecord) where
  -- Old nodes keep their path, whatever fuel the two walks have left.
  path_up-after :
      (f g : ℕ) (current : Option NodeId)
      → Below f current
      → Below g current
      → Below (length t.nodes) current
      → path_up f (after t parent s e r) current ≡ path_up g t current
  unfolding path_up
  path_up-after zero zero none h h' k = refl
  path_up-after zero (suc g) none h h' k = refl
  path_up-after (suc f) zero none h h' k = refl
  path_up-after (suc f) (suc g) none h h' k = refl
  path_up-after zero g (some node) h h' k = elim h [ ]
  path_up-after (suc f) zero (some node) h h' k = elim h' [ ]
  path_up-after (suc f) (suc g) (some node) h h' k = elim (Option-cases (lookup t node)) [
    | inl n ↦ absurd (omega (arith, (get_elem?-none_iff t.nodes node).0 n))
    | inr (q, found) ↦
        let before = Parent-Below node q.parent (IsWellFormed-Ordered t w node q found) in
        let (x, found', same) = parent-after_old t parent s e r node found in
        let ih =
          path_up-after f g q.parent (Below-mono node f q.parent (omega arith) before)
            (Below-mono node g q.parent (omega arith) before)
            (Below-mono node (length t.nodes) q.parent (omega arith) before) in
        path_up_step f (after t parent s e r) node found'
        ∙ ap₂ (with_name (node == t.root)) (name-after_old t parent s e r node w found)
            (ap (path_up f (after t parent s e r)) same ∙ ih)
        ∙ sym (path_up_step g t node found)
  ]

  path_up-after_self :
      (names : List (List ℕ))
      → parent < length t.nodes
      → path_up (parent + 1) t (some parent) ≡ some names
      → path_up (suc (length t.nodes)) (after t parent s e r) (some (length t.nodes))
        ≡ some (s ∷ names)
  unfolding path_up
  path_up-after_self names below total =
      let (x, found, hangs) = parent-after_self t parent s e r in
      let old =
        path_up-after (length t.nodes) (parent + 1) (some parent) below (omega arith) below in
      let not_root : length t.nodes ≢ t.root = λ q. omega (arith, w.root_first) in
      path_up_step (length t.nodes) (after t parent s e r) (length t.nodes) found
      ∙ rw (hangs, old, total, name-after_self t parent s e r) (ground arith)

  materialize_path-after :
      parent < length t.nodes
      → materialize_path (after t parent s e r) (length t.nodes)
        ≡ Option.map (λ names. names ++ s ∷ []) (materialize_path t parent)
  unfolding materialize_path
  materialize_path-after below =
      let (names, total) = path_up-total t w (parent + 1) (some parent) (omega arith) below in
      ap (λ f. Option.map reverse (path_up f (after t parent s e r) (some (length t.nodes))))
        (add-one (length t.nodes))
      ∙ ap (Option.map reverse) (path_up-after_self names below total)
      ∙ ap some (reverse-cons s names)
      ∙ ap (λ p. Option.map (λ names. names ++ s ∷ []) (Option.map reverse p)) (sym total)

-- The path of a node that a successful `append` adds to a well-formed arena is its parent's path and then
-- its own name.
pub materialize_path-append :
    (t : Tree) (parent : NodeId) (s : List ℕ) (e : Entry) {t' : Tree} {id : NodeId}
    → IsWellFormed t
    → append t parent s e ≡ some (t', id)
    → materialize_path t' id ≡ Option.map (λ names. names ++ s ∷ []) (materialize_path t parent)
materialize_path-append t parent s e w h =
    let (r, found, new_id, _, eq) = append_inv t parent s e h in
    ap₂ materialize_path eq new_id
    ∙ materialize_path-after t w parent s e r (lt-length_of_get_elem? t.nodes parent found)
