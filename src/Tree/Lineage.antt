-- ===== src/Tree/Lineage.antt =====
-- The nodes that the loops of crates/fdu-core/src/lib.rs over a node and its ancestors reach.
use ish.Prelude.{
  ℕ, zero, suc, ◌+◌, ◌<◌, ◌≤◌, ◌≡◌, refl, Bool, true, false, ◌||◌, Option, none, some, List,
  get_elem?, modify, arith, Option-cases, ◌↔◌, get_elem?-modify_there, get_elem?-modify_absent,
  modify_inv, inl, inr, ◌==◌, if◌then◌else◌, get_elem?-modify_self, get_elem?-modify_ne, ◌∙◌, sym,
  ap,
}
use mathlib.Core.Option
use mathlib.Core.Path.{subst}
use native.Mathlib.Decide.{ℕ_discrete}
use ish.Tree.{NodeId, NodeRecord, Tree}
use ish.Tree.Ancestors.{update_up}
use ish.Tree.WellFormed.{Parent, IsWellFormed}

-- `j` is the node `current` or one of its ancestors.
unfoldable pub on_lineage : ℕ → List NodeRecord → Option NodeId → ℕ → Bool
on_lineage zero nodes current j = false
on_lineage (suc f) nodes none j = false
on_lineage (suc f) nodes (some node) j = elim (get_elem? nodes node) [
  | none ↦ false
  | some r ↦ node == j || on_lineage f nodes r.parent j
]

-- Every parent stands before its child.
abbrev pub Ordered : List NodeRecord → Type 0
Ordered nodes = (i : ℕ) (r : NodeRecord) → get_elem? nodes i ≡ some r → Parent i r.parent

pub IsWellFormed-Ordered : (t : Tree) → IsWellFormed t → Ordered t.nodes
IsWellFormed-Ordered t w i r h = (w.all_fit i r h).parent_before

-- The start of a walk lies below `k`.
abbrev pub Below : ℕ → Option NodeId → Type 0
Below k none = Unit
Below k (some i) = i < k

pub Parent-Below : (i : ℕ) (o : Option NodeId) → Parent i o → Below i o
Parent-Below i none h = tt
Parent-Below i (some p) h = h

pub Below-mono : (i k : ℕ) (o : Option NodeId) → i ≤ k → Below i o → Below k o
Below-mono i k none h b = tt
Below-mono i k (some p) h b = omega arith

on_lineage-lt :
    (f : ℕ) (nodes : List NodeRecord) (k : ℕ) (current : Option NodeId) (j : ℕ)
    → Ordered nodes
    → Below k current
    → on_lineage f nodes current j ≡ true
    → j < k
unfolding on_lineage
on_lineage-lt zero nodes k current j o b h = cc
on_lineage-lt (suc f) nodes k none j o b h = cc
on_lineage-lt (suc f) nodes k (some node) j o b h = elim (Option-cases (get_elem? nodes node)) [
  | inl e ↦ absurd (ground arith)
  | inr (r, e) ↦
      let below =
        Below-mono node k r.parent (omega arith) (Parent-Below node r.parent (o node r e)) in
      ground (arith, on_lineage-lt f nodes k r.parent j o below)
]

module _ (g : NodeRecord → NodeRecord) (keeps : (r : NodeRecord) → (g r).parent ≡ r.parent) where
  same_parent :
      (nodes : List NodeRecord) (k i : ℕ) {r : NodeRecord}
      → get_elem? nodes i ≡ some r
      → (x : NodeRecord) × (get_elem? (modify nodes k g) i ≡ some x) × (x.parent ≡ r.parent)
  same_parent nodes k i {r} h =
      let (x, e, either) = get_elem?-modify_there nodes k i g h in
      elim either [
        | inl p ↦ (x, e, ap (λ z. z.parent) p)
        | inr p ↦ (x, e, ap (λ z. z.parent) p ∙ keeps r)
      ]

  on_lineage-modify :
      (f : ℕ) (nodes : List NodeRecord) (k : ℕ) (current : Option NodeId) (j : ℕ)
      → on_lineage f (modify nodes k g) current j ≡ on_lineage f nodes current j
  unfolding on_lineage
  on_lineage-modify zero nodes k current j = refl
  on_lineage-modify (suc f) nodes k none j = refl
  on_lineage-modify (suc f) nodes k (some node) j = elim (Option-cases (get_elem? nodes node)) [
    | inl e ↦ ground (arith, get_elem?-modify_absent nodes k node g e)
    | inr (r, e) ↦
        let (x, e', p) = same_parent nodes k node e in
        rw (e, e', on_lineage, p, on_lineage-modify f nodes k r.parent j)
  ]

  Ordered-modify : (nodes : List NodeRecord) (k : ℕ) → Ordered nodes → Ordered (modify nodes k g)
  Ordered-modify nodes k o i r h = elim (modify_inv nodes k i g h) [
    | inl (_, e) ↦ o i r e
    | inr (x, _, e, q) ↦ subst (Parent i) (sym (ap (λ z. z.parent) q ∙ keeps x)) (o i x e)
  ]

  -- The walk changes the node and its ancestors, each once, and nothing else.
  pub get_elem?-update_up :
      (f : ℕ) (nodes : List NodeRecord) (current : Option NodeId) (j : ℕ)
      → Ordered nodes
      → get_elem? (update_up f g nodes current) j ≡ (
          if on_lineage f nodes current j
          then Option.map g (get_elem? nodes j)
          else get_elem? nodes j)
  unfolding update_up on_lineage
  get_elem?-update_up zero nodes current j o = refl
  get_elem?-update_up (suc f) nodes none j o = refl
  get_elem?-update_up (suc f) nodes (some node) j o = elim (Option-cases (get_elem? nodes node)) [
    | inl e ↦ ground arith
    | inr (r, e) ↦
        let ih =
          get_elem?-update_up f (modify nodes node g) r.parent j (Ordered-modify nodes node o) in
        let above =
          on_lineage-lt f nodes node r.parent j o (Parent-Below node r.parent (o node r e)) in
        elim (ℕ_discrete node j) [
          | yes p ↦ ground (
            arith,
            on_lineage-modify f nodes node r.parent j,
            get_elem?-modify_self nodes node g e,
          )
          | no np ↦ ground (
            arith,
            get_elem?-modify_ne nodes node j g np,
            on_lineage-modify f nodes node r.parent j,
          )
        ]
  ]

-- `j` is `i` or an ancestor of `i`, by the parent links of the arena.
pub data Ancestor (nodes : List NodeRecord) (j : ℕ) : ℕ → Type 0 where
  here : (r : NodeRecord) → get_elem? nodes j ≡ some r → Ancestor nodes j j
  up :
      {i p : ℕ} (r : NodeRecord)
      → get_elem? nodes i ≡ some r
      → r.parent ≡ some p
      → Ancestor nodes j p
      → Ancestor nodes j i

pub on_lineage-none : (f : ℕ) (nodes : List NodeRecord) (j : ℕ) → on_lineage f nodes none j ≡ false
unfolding on_lineage
on_lineage-none zero nodes j = refl
on_lineage-none (suc f) nodes j = refl

on_lineage→Ancestor :
    (f : ℕ) (nodes : List NodeRecord) (i j : ℕ)
    → on_lineage f nodes (some i) j ≡ true
    → Ancestor nodes j i
unfolding on_lineage
on_lineage→Ancestor zero nodes i j h = cc
on_lineage→Ancestor (suc f) nodes i j h = elim (Option-cases (get_elem? nodes i)) [
  | inl e ↦ absurd (ground arith)
  | inr (r, e) ↦ elim (ℕ_discrete i j) [
    | yes p ↦ subst (λ k. Ancestor nodes k i) p (here r e)
    | no np ↦ elim (Option-cases r.parent) [
      | inl q ↦ absurd (ground (arith, on_lineage-none f nodes j))
      | inr (k, q) ↦ up r e q (on_lineage→Ancestor f nodes k j (ground arith))
    ]
  ]
]

Ancestor→on_lineage :
    (f : ℕ) (nodes : List NodeRecord) {i j : ℕ}
    → Ordered nodes
    → i < f
    → Ancestor nodes j i
    → on_lineage f nodes (some i) j ≡ true
unfolding on_lineage
Ancestor→on_lineage zero nodes o h a = elim h [ ]
Ancestor→on_lineage (suc f) nodes o h (here r e) = ground arith
Ancestor→on_lineage (suc f) nodes {i} o h (up {p} r e q a) =
    let below : Parent i (some p) = subst (Parent i) q (o i r e) in
    ground (arith, Ancestor→on_lineage f nodes o (omega arith) a)

-- One more round than the node's index finds every ancestor, and finds nothing else.
pub on_lineage_iff :
    (nodes : List NodeRecord) (i j : ℕ)
    → Ordered nodes
    → (on_lineage (i + 1) nodes (some i) j ≡ true) ↔ Ancestor nodes j i
on_lineage_iff nodes i j o =
    (on_lineage→Ancestor (i + 1) nodes i j, Ancestor→on_lineage (i + 1) nodes o (omega arith))
