-- ===== src/Tree/Preserve.antt =====
-- Changes of records of crates/fdu-core/src/lib.rs that leave the arena well formed.
use ish.Prelude.{
  ℕ, zero, suc, ◌≡◌, refl, sym, ◌∙◌, Bool, true, false, inl, inr, Option, none, some, List, length,
  get_elem?, modify, length-modify, arith, if◌then◌else◌, Option-cases,
}
use mathlib.Core.Path.{subst}
use ish.Tree.{NodeId, NodeRecord, NodeState, Tree}
use ish.Tree.Ancestors.{update_up, grow, spoil}
use ish.Tree.WellFormed.{Fits, AllFit, IsWellFormed, AllFit-modify}

-- A change of a record that leaves its links and its name alone.
abbrev pub Harmless : (NodeRecord → NodeRecord) → Type 0
Harmless change = (n m i : ℕ) (r : NodeRecord) → Fits n m i r → Fits n m i (change r)

pub update_up-AllFit :
    (f : ℕ) (change : NodeRecord → NodeRecord) (nodes : List NodeRecord) (current : Option NodeId)
    {n m : ℕ}
    → Harmless change
    → AllFit n m nodes
    → AllFit n m (update_up f change nodes current)
unfolding update_up
update_up-AllFit zero change nodes current h a = a
update_up-AllFit (suc f) change nodes none h a = a
update_up-AllFit (suc f) change nodes (some node) {n} {m} h a =
    elim (Option-cases (get_elem? nodes node)) [
      | inl absent ↦ rw (absent, update_up) a
      | inr (r, there) ↦
          rw (there, update_up)
            (update_up-AllFit f change (modify nodes node change) r.parent h
              (AllFit-modify nodes node change a λ x _ fit. h n m node x fit))
    ]

pub length-update_up :
    (f : ℕ) (change : NodeRecord → NodeRecord) (nodes : List NodeRecord) (current : Option NodeId)
    → length (update_up f change nodes current) ≡ length nodes
unfolding update_up
length-update_up zero change nodes current = refl
length-update_up (suc f) change nodes none = refl
length-update_up (suc f) change nodes (some node) = elim (Option-cases (get_elem? nodes node)) [
  | inl absent ↦ rw (absent, update_up) refl
  | inr (r, there) ↦
      rw (there, update_up)
        (length-update_up f change (modify nodes node change) r.parent
          ∙ length-modify nodes node change)
]

abbrev pub tree_of : Tree × Bool → Tree
tree_of (t, done) = t

module _ (t : Tree) (w : IsWellFormed t) where
  pub with_nodes :
      (nodes : List NodeRecord)
      → length nodes ≡ length t.nodes
      → AllFit (length t.nodes) (length t.names) nodes
      → IsWellFormed (record t { nodes = nodes })
  with_nodes nodes same all = record {
    nonempty = omega (arith, w.nonempty);
    root_first = w.root_first;
    all_fit = subst (λ n. AllFit n (length t.names) nodes) (sym same) all;
  }

  pub up-IsWellFormed :
      (f : ℕ) (change : NodeRecord → NodeRecord) (current : Option NodeId)
      → Harmless change
      → IsWellFormed (record t { nodes = update_up f change t.nodes current })
  up-IsWellFormed f change current h =
      with_nodes _ (length-update_up f change t.nodes current)
        (update_up-AllFit f change t.nodes current h w.all_fit)

  pub one-IsWellFormed :
      (b : Bool) (id : NodeId) (change : NodeRecord → NodeRecord)
      → Harmless change
      → IsWellFormed (
          tree_of (if b then (record t { nodes = modify t.nodes id change }, true) else (t, false)))
  one-IsWellFormed true id change h =
      with_nodes _ (length-modify t.nodes id change)
        (AllFit-modify t.nodes id change w.all_fit λ r _ fit. h _ _ id r fit)
  one-IsWellFormed false id change h = w

pub same_links :
    (change : NodeState → NodeState) → Harmless (λ r. record r { state = change r.state })
same_links change n m i r fit = assumption fit

pub grow-Harmless : (a b : ℕ) → Harmless (grow a b)
unfolding grow
grow-Harmless a b n m i r fit = assumption fit

pub time-Harmless : (time : ℕ) → Harmless (λ r. record r { modified_time = time })
time-Harmless time n m i r fit = assumption fit

pub spoil-Harmless : Harmless spoil
unfolding spoil
spoil-Harmless n m i r fit = assumption fit
