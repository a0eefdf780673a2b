-- ===== src/Tree/Totals.antt =====
-- `add_to_ancestors` of crates/fdu-core/src/lib.rs: the totals that it changes.
use ish.Prelude.{
  ℕ, zero, suc, ◌+◌, ◌<◌, ◌≡◌, refl, true, false, Option, none, some, List, length, get_elem?,
  arith, Option-cases, inl, inr, if◌then◌else◌, ◌↔◌, get_elem?-none_iff,
}
use mathlib.Core.Option
use ish.Tree.{NodeId, NodeRecord, NodeState, Tree, lookup, u64_size}
use ish.Tree.Ancestors.{fits_up, grow, spoil, add_to_ancestors}
use ish.Tree.WellFormed.{IsWellFormed}
use ish.Tree.Lineage.{
  on_lineage, on_lineage_iff, Ordered, Below, Below-mono, Parent-Below, IsWellFormed-Ordered,
  get_elem?-update_up, Ancestor,
}

-- Both totals of the record have room.
abbrev pub HasRoom : ℕ → ℕ → NodeRecord → Type 0
HasRoom a b r = (r.apparent_bytes + a < u64_size) × (r.allocated_bytes + b < u64_size)

-- The answer of the first loop: every record of the lineage has room, or one has not.
fits_up-true :
    (f : ℕ) (nodes : List NodeRecord) (a b : ℕ) (current : Option NodeId)
    → fits_up f nodes a b current ≡ some true
    → (j : ℕ) (r : NodeRecord) → on_lineage f nodes current j ≡ true
    → get_elem? nodes j ≡ some r
    → HasRoom a b r
unfolding fits_up on_lineage
fits_up-true zero nodes a b current h j r k e = cc
fits_up-true (suc f) nodes a b none h j r k e = cc
fits_up-true (suc f) nodes a b (some node) h j r k e = elim (Option-cases (get_elem? nodes node)) [
  | inl none_there ↦ absurd (ground arith)
  | inr (q, there) ↦ ground (arith, fits_up-true f nodes a b q.parent (ground arith) j r)
]

-- Conversely, and then no node is missing.
fits_up-room :
    (f : ℕ) (nodes : List NodeRecord) (a b : ℕ) (current : Option NodeId)
    → Ordered nodes
    → Below (length nodes) current
    → ((j : ℕ) (r : NodeRecord)
        → on_lineage f nodes current j ≡ true
        → get_elem? nodes j ≡ some r
        → HasRoom a b r)
    → fits_up f nodes a b current ≡ some true
unfolding fits_up on_lineage
fits_up-room zero nodes a b current o bound h = refl
fits_up-room (suc f) nodes a b none o bound h = refl
fits_up-room (suc f) nodes a b (some node) o bound h = elim (Option-cases (get_elem? nodes node)) [
  | inl none_there ↦ absurd (omega (arith, (get_elem?-none_iff nodes node).0 none_there))
  | inr (q, there) ↦
      let below =
        Below-mono node (length nodes) q.parent (omega arith)
          (Parent-Below node q.parent (o node q there)) in
      let own = h node q (ground arith) there in
      let rest = fits_up-room f nodes a b q.parent o below (λ j r on e. h j r (ground arith) e) in
      ground arith
]

-- With every index in range the first loop gives an answer.
fits_up-ne-none :
    (f : ℕ) (nodes : List NodeRecord) (a b : ℕ) (current : Option NodeId)
    → Ordered nodes
    → Below (length nodes) current
    → ¬ (fits_up f nodes a b current ≡ none)
unfolding fits_up
fits_up-ne-none zero nodes a b current o bound h = cc
fits_up-ne-none (suc f) nodes a b none o bound h = cc
fits_up-ne-none (suc f) nodes a b (some node) o bound h =
    elim (Option-cases (get_elem? nodes node)) [
      | inl none_there ↦ omega (arith, (get_elem?-none_iff nodes node).0 none_there)
      | inr (q, there) ↦
          let below =
            Below-mono node (length nodes) q.parent (omega arith)
              (Parent-Below node q.parent (o node q there)) in
          ground (arith, fits_up-ne-none f nodes a b q.parent o below)
    ]

parent-grow : (a b : ℕ) (r : NodeRecord) → (grow a b r).parent ≡ r.parent
unfolding grow
parent-grow a b r = refl

parent-spoil : (r : NodeRecord) → (spoil r).parent ≡ r.parent
unfolding spoil
parent-spoil r = refl

module _ (t : Tree) (id : NodeId) (w : IsWellFormed t) (here : id < length t.nodes) where
  module _ (a b : ℕ) where
    -- For a node of a well-formed arena: the addition succeeds exactly when both totals of the node and of
    -- each of its ancestors have room for it in 64 bits.
    pub add_to_ancestors-true_iff :
        ((add_to_ancestors t id a b).1 ≡ true)
        ↔ ((j : ℕ) (r : NodeRecord) → Ancestor t.nodes j id → lookup t j ≡ some r → HasRoom a b r)
    unfolding add_to_ancestors
    add_to_ancestors-true_iff =
        let o = IsWellFormed-Ordered t w in
        (
          λ h j r anc e.
              fits_up-true (id + 1) t.nodes a b (some id) (ground arith) j r
                ((on_lineage_iff t.nodes id j o).1 anc) e,
          λ h.
              let fit =
                fits_up-room (id + 1) t.nodes a b (some id) o here
                  (λ j r on e. h j r ((on_lineage_iff t.nodes id j o).0 on) e) in
              rw (fit, add_to_ancestors),
        )

    -- For a node of a well-formed arena: a successful addition raises the apparent total of the node and
    -- of its ancestors by the first number and the allocated total by the second, once each; a failed one
    -- changes no total, and sets the state of these nodes to incomplete. No other node, and no other field
    -- of these, changes.
    pub lookup-add_to_ancestors :
        (j : ℕ)
        → lookup (add_to_ancestors t id a b).0 j ≡ (
            if on_lineage (id + 1) t.nodes (some id) j
            then if (add_to_ancestors t id a b).1
              then Option.map {A = NodeRecord}
                  (λ r. record r {
                    apparent_bytes = r.apparent_bytes + a;
                    allocated_bytes = r.allocated_bytes + b;
                  })
                  (lookup t j)
              else Option.map {A = NodeRecord}
                  (λ r. record r { state = NodeState.incomplete })
                  (lookup t j)
            else lookup t j)
    unfolding add_to_ancestors grow spoil
    lookup-add_to_ancestors j =
        let o = IsWellFormed-Ordered t w in
        elim (Option-cases (fits_up (id + 1) t.nodes a b (some id))) [
          | inl e ↦ absurd (fits_up-ne-none (id + 1) t.nodes a b (some id) o here e)
          | inr (true, e) ↦
              rw (e, add_to_ancestors)
                (get_elem?-update_up (grow a b) (parent-grow a b) (id + 1) t.nodes (some id) j o)
          | inr (false, e) ↦
              rw (e, add_to_ancestors)
                (get_elem?-update_up spoil parent-spoil (id + 1) t.nodes (some id) j o)
        ]
