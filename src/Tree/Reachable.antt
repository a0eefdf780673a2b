-- ===== src/Tree/Reachable.antt =====
-- Runs of the operations of crates/fdu-core/src/lib.rs, and the arena's invariant.
use ish.Prelude.{
  ℕ, zero, suc, ◌+◌, ◌≡◌, refl, sym, ◌∙◌, ap, Bool, true, false, ◌⊎◌, inl, inr, Option, none, some,
  List, [], ◌∷◌, length, get_elem?, arith, ltb, if◌then◌else◌,
}
use mathlib.Core.Path.{subst}
use ish.Tree.{
  NodeId, NodeRecord, NodeStatus, FileIdentity, Tree, Entry, new, append, set_state,
  set_modified_time, root_record, state_from, u32_size,
}
use ish.Tree.Ancestors.{
  add_to_ancestors, mark_incomplete_to_root, mark_stale_to_root, marked, is_scanning, mark_scanning,
  mark_scanning_incomplete, update_up, fits_up, grow, spoil, give_up, outdate,
}
use ish.Tree.WellFormed.{Fits, AllFit, IsWellFormed}
use ish.Tree.Append.{append-IsWellFormed}
use ish.Tree.Preserve.{
  tree_of, with_nodes, up-IsWellFormed, one-IsWellFormed, same_links, grow-Harmless, time-Harmless,
  spoil-Harmless,
}
use ish.Tree.Tombstone.{tombstone_subtree}
use ish.Tree.Buried.{tombstone_subtree-IsWellFormed}

length-marked :
    (b : Bool) (r : NodeRecord) (rest : List NodeRecord × ℕ)
    → length ((marked b r rest).0) ≡ suc (length (rest.0))
unfolding marked
length-marked true r rest = refl
length-marked false r rest = refl

length-mark_scanning : (nodes : List NodeRecord) → length ((mark_scanning nodes).0) ≡ length nodes
unfolding mark_scanning
length-mark_scanning [] = refl
length-mark_scanning (r ∷ rest) =
    length-marked (is_scanning r.state) r (mark_scanning rest) ∙ ap suc (length-mark_scanning rest)

-- A record behind the loop of `mark_scanning_incomplete` is the old one, or that one spoiled.
abbrev OldOrSpoiled : List NodeRecord → ℕ → NodeRecord → Type 0
OldOrSpoiled nodes i r = (x : NodeRecord) × (get_elem? nodes i ≡ some x) × ((r ≡ x) ⊎ (r ≡ spoil x))

marked-zero :
    (b : Bool) (x r : NodeRecord) (rest : List NodeRecord × ℕ)
    → get_elem? ((marked b x rest).0) 0 ≡ some r
    → (r ≡ x) ⊎ (r ≡ spoil x)
unfolding marked
marked-zero true x r rest h = inr cc
marked-zero false x r rest h = inl cc

marked-suc :
    (b : Bool) (x : NodeRecord) (rest : List NodeRecord × ℕ) (i : ℕ)
    → get_elem? ((marked b x rest).0) (suc i) ≡ get_elem? (rest.0) i
unfolding marked
marked-suc true x rest i = refl
marked-suc false x rest i = refl

mark_scanning-inv :
    (nodes : List NodeRecord) (i : ℕ) (r : NodeRecord)
    → get_elem? ((mark_scanning nodes).0) i ≡ some r
    → OldOrSpoiled nodes i r
unfolding mark_scanning
mark_scanning-inv [] i r h = cc
mark_scanning-inv (x ∷ rest) zero r h =
    (x, refl, marked-zero (is_scanning x.state) x r (mark_scanning rest) h)
mark_scanning-inv (x ∷ rest) (suc i) r h =
    mark_scanning-inv rest i r (sym (marked-suc (is_scanning x.state) x (mark_scanning rest) i) ∙ h)

mark_scanning-AllFit :
    {n m : ℕ} (nodes : List NodeRecord) → AllFit n m nodes → AllFit n m ((mark_scanning nodes).0)
mark_scanning-AllFit {n} {m} nodes all i r h =
    let (x, there, same) = mark_scanning-inv nodes i r h in
    elim same [
      | inl e ↦ subst (Fits n m i) (sym e) (all i x there)
      | inr e ↦ subst (Fits n m i) (sym e) (spoil-Harmless n m i x (all i x there))
    ]

root_record-Fits :
    (m : ℕ) (identity : FileIdentity) (links : ℕ) → Fits 1 m 0 (root_record m identity links)
root_record-Fits m identity links = record {
  parent_before = refl;
  first_behind = tt;
  last_behind = tt;
  next_behind = tt;
  name_ordered = omega arith;
  name_inside = omega arith;
}

some_injective : {A : Type 0} {x y : A} → some x ≡ some y → x ≡ y
some_injective h = cc

alone : (m : ℕ) (x : NodeRecord) → Fits 1 m 0 x → AllFit 1 m (x ∷ [])
alone m x fit zero r h = subst (Fits 1 m 0) (some_injective h) fit
alone m x fit (suc i) r h = cc

made :
    (b : Bool) (u t : Tree)
    → IsWellFormed u
    → (if b then some u else none) ≡ some t
    → IsWellFormed t
made true u t w h = subst IsWellFormed (some_injective h) w
made false u t w h = cc

-- A new arena is well formed.
pub new-IsWellFormed :
    (root_name : List ℕ) (identity : FileIdentity) (link_count : ℕ) {t : Tree}
    → new root_name identity link_count ≡ some t
    → IsWellFormed t
unfolding new
new-IsWellFormed root_name identity link_count {t} h =
    made (ltb (length root_name) u32_size) _ t
      (record {
        nonempty = omega arith;
        root_first = refl;
        all_fit =
            alone (length root_name) _ (root_record-Fits (length root_name) identity link_count);
      })
      h

-- The operations on an arena. `entomb` is `tombstone_subtree`, stopped after a number of rounds.
pub data Op : Type 0 where
  add : NodeId → List ℕ → Entry → Op
  mark : NodeId → NodeStatus → Op
  date : NodeId → ℕ → Op
  count : NodeId → ℕ → ℕ → Op
  incomplete_up : NodeId → Op
  stale_up : NodeId → Op
  finished : Op
  entomb : ℕ → NodeId → Op

abbrev unless_full : Tree → Option (Tree × NodeId) → Tree
unless_full t none = t
unless_full t (some (t', id)) = t'

unfoldable pub step : Op → Tree → Tree
step (add parent s e) t = unless_full t (append t parent s e)
step (mark id status) t = (set_state t id status).0
step (date id time) t = (set_modified_time t id time).0
step (count id a b) t = (add_to_ancestors t id a b).0
step (incomplete_up id) t = mark_incomplete_to_root t id
step (stale_up id) t = mark_stale_to_root t id
step finished t = (mark_scanning_incomplete t).0
step (entomb rounds id) t = (tombstone_subtree rounds t id).0

unfoldable pub run : List Op → Tree → Tree
unfolding step
run [] t = t
run (op ∷ ops) t = run ops (step op t)

added :
    (t : Tree) (parent : NodeId) (s : List ℕ) (e : Entry) (o : Option (Tree × NodeId))
    → IsWellFormed t
    → append t parent s e ≡ o
    → IsWellFormed (unless_full t o)
added t parent s e none w h = w
added t parent s e (some (t', id)) w h = append-IsWellFormed t parent s e w h

counted :
    (t : Tree) (id : NodeId) (a b : ℕ) (o : Option Bool)
    → IsWellFormed t
    → IsWellFormed (
        tree_of (elim o [
          | none ↦ (t, false)
          | some true ↦ (record t { nodes = update_up (id + 1) (grow a b) t.nodes (some id) }, true)
          | some false ↦ (record t { nodes = update_up (id + 1) spoil t.nodes (some id) }, false)
        ]))
counted t id a b none w = w
counted t id a b (some true) w = up-IsWellFormed t w (id + 1) _ (some id) (grow-Harmless a b)
counted t id a b (some false) w = up-IsWellFormed t w (id + 1) _ (some id) spoil-Harmless

step-IsWellFormed : (op : Op) (t : Tree) → IsWellFormed t → IsWellFormed (step op t)
unfolding step set_state set_modified_time add_to_ancestors mark_incomplete_to_root
    mark_stale_to_root mark_scanning_incomplete
step-IsWellFormed (add parent s e) t w = added t parent s e (append t parent s e) w refl
step-IsWellFormed (mark id status) t w =
    one-IsWellFormed t w (ltb id (length t.nodes)) id _ (same_links λ _. state_from status)
step-IsWellFormed (date id time) t w =
    one-IsWellFormed t w (ltb id (length t.nodes)) id _ (time-Harmless time)
step-IsWellFormed (count id a b) t w = counted t id a b (fits_up (id + 1) t.nodes a b (some id)) w
step-IsWellFormed (incomplete_up id) t w =
    up-IsWellFormed t w (id + 1) _ (some id) (same_links give_up)
step-IsWellFormed (stale_up id) t w = up-IsWellFormed t w (id + 1) _ (some id) (same_links outdate)
step-IsWellFormed finished t w =
    with_nodes t w _ (length-mark_scanning t.nodes) (mark_scanning-AllFit t.nodes w.all_fit)
step-IsWellFormed (entomb rounds id) t w = tombstone_subtree-IsWellFormed t w rounds id

run-after : (ops : List Op) (t : Tree) → IsWellFormed t → IsWellFormed (run ops t)
unfolding run
run-after [] t w = w
run-after (op ∷ ops) t w = run-after ops (step op t) (step-IsWellFormed op t w)

-- Whatever operations follow a successful `new`, with whatever arguments, the arena is well formed: links
-- stay in range and point forward, parents stand before their children, and names lie in the buffer. Of
-- `tombstone_subtree` this holds wherever its traversal stands.
pub run-IsWellFormed :
    (root_name : List ℕ) (identity : FileIdentity) (link_count : ℕ) {t : Tree} (ops : List Op)
    → new root_name identity link_count ≡ some t
    → IsWellFormed (run ops t)
run-IsWellFormed root_name identity link_count {t} ops h =
    run-after ops t (new-IsWellFormed root_name identity link_count h)
