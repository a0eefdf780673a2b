-- ===== src/Completion/Grid.antt =====
-- Where the moves of src/complete.rs lead.
use ish.Prelude.{
  ℕ, zero, suc, ◌+◌, ◌-◌, ◌*◌, ◌/◌, ◌%◌, ◌<◌, ◌≡◌, refl, ap, ◌∙◌, min, Bool, true, false, ◌||◌,
  none, get_elem?, ltb, leb, ◌==◌, if◌then◌else◌, arith, Bool-cases, if_on, if_off, inl, inr,
}
use native.Mathlib.Nat.{div-add-mod, mod-lt, suc-mul}
use ish.Completion.{
  CompletionState, selected_name, entry_count, up_from, down_from, left_from, right_from, moved,
  move_up, move_down, move_left, move_right,
}

-- The entry that the next and the previous one in the list are, round the ends.
abbrev pub next_entry : ℕ → ℕ → ℕ
next_entry n i = if ltb (i + 1) n then i + 1 else 0

abbrev pub previous_entry : ℕ → ℕ → ℕ
previous_entry n i = if i == 0 then n - 1 else i - 1

pred_times : (q rows : ℕ) → 0 < q → (q - 1) * rows + rows ≡ q * rows
pred_times zero rows h = absurd (omega arith)
pred_times (suc q) rows h =
    let pred : suc q - 1 ≡ q = omega arith in rw pred (omega (arith, suc-mul q rows))

module _ (n rows i : ℕ) (positive : 0 < rows) (inside : i < n) where
  place : i ≡ i / rows * rows + i % rows
  place = omega (arith, div-add-mod i rows)

  row_bound : i % rows < rows
  row_bound = mod-lt i positive

  down_from-next : down_from n rows i ≡ next_entry n i
  unfolding down_from
  down_from-next = ground (arith, place, row_bound)

  last_place : n - 1 ≡ (n - 1) / rows * rows + (n - 1) % rows
  last_place = omega (arith, div-add-mod (n - 1) rows)

  up_column :
      0 < i / rows
      → i % rows ≡ 0
      → min ((i / rows - 1) * rows + rows - 1) (n - 1) ≡ previous_entry n i
  up_column h e = ground (arith, place, pred_times (i / rows) rows h)

  up_wraps :
      i / rows ≡ 0
      → i % rows ≡ 0
      → min ((n - 1) / rows * rows + rows - 1) (n - 1) ≡ previous_entry n i
  up_wraps h e =
      let start : i ≡ 0 = place ∙ rw (h, e) (omega arith) in
      ground (arith, last_place, mod-lt (n - 1) positive)

  up_from-previous : up_from n rows i ≡ previous_entry n i
  unfolding up_from
  up_from-previous = elim (Bool-cases (i % rows == 0)) [
    | inr e ↦ if_off (i % rows == 0) _ _ e ∙ ground (arith, place)
    | inl e ↦ if_on (i % rows == 0) _ _ e ∙ elim (Bool-cases (ltb 0 (i / rows))) [
      | inl d ↦ if_on (ltb 0 (i / rows)) _ _ d ∙ up_column (ground arith) (ground arith)
      | inr d ↦ if_off (ltb 0 (i / rows)) _ _ d ∙ up_wraps (ground arith) (ground arith)
    ]
  ]

  left_from-inside : left_from n rows i < n
  unfolding left_from
  left_from-inside = ground arith

  right_from-inside : right_from n rows i < n
  unfolding right_from
  right_from-inside = ground arith

abbrev select : CompletionState → ℕ → CompletionState
select s i = record s { selected = i }

moved-grid :
    (go : ℕ → ℕ → ℕ → ℕ) (fixed : ℕ) (s : CompletionState)
    → 0 < s.rows
    → 0 < entry_count s
    → moved go fixed s
      ≡ select s (
          if leb (entry_count s) (s.selected)
          then fixed
          else go (entry_count s) (s.rows) (s.selected))
unfolding moved
moved-grid go fixed s h k = if_off (s.rows == 0 || entry_count s == 0) _ _ (ground arith)

moved-inside :
    (go : ℕ → ℕ → ℕ → ℕ) (fixed : ℕ) (s : CompletionState)
    → 0 < s.rows
    → s.selected < entry_count s
    → moved go fixed s ≡ select s (go (entry_count s) (s.rows) (s.selected))
moved-inside go fixed s h k =
    moved-grid go fixed s h (omega arith)
    ∙ ap (select s) (if_off (leb (entry_count s) (s.selected)) _ _ (ground arith))

move_down-next :
    (s : CompletionState)
    → 0 < s.rows
    → s.selected < entry_count s
    → move_down s ≡ select s (next_entry (entry_count s) (s.selected))
unfolding move_down
move_down-next s h k =
    moved-inside down_from 0 s h k
    ∙ ap (select s) (down_from-next (entry_count s) (s.rows) (s.selected) h k)

move_up-previous :
    (s : CompletionState)
    → 0 < s.rows
    → s.selected < entry_count s
    → move_up s ≡ select s (previous_entry (entry_count s) (s.selected))
unfolding move_up
move_up-previous s h k =
    moved-inside up_from _ s h k
    ∙ ap (select s) (up_from-previous (entry_count s) (s.rows) (s.selected) h k)

next_inside : (n i : ℕ) → i < n → next_entry n i < n
next_inside n i h = ground arith

previous_inside : (n i : ℕ) → i < n → previous_entry n i < n
previous_inside n i h = ground arith

-- In a grid with rows and from an entry of it, `move_down` goes to the next entry of the list and `move_up`
-- to the previous one, from the last to the first and back; each undoes the other.
pub move_up-move_down :
    (s : CompletionState)
    → 0 < s.rows
    → s.selected < entry_count s
    → ((move_down s).selected ≡ next_entry (entry_count s) (s.selected))
      × ((move_up s).selected ≡ previous_entry (entry_count s) (s.selected))
      × (move_up (move_down s) ≡ s)
      × (move_down (move_up s) ≡ s)
move_up-move_down s h k =
    let n = entry_count s in
    let i = s.selected in
    (
      ap (λ t. t.selected) (move_down-next s h k),
      ap (λ t. t.selected) (move_up-previous s h k),
      ap move_up (move_down-next s h k)
          ∙ move_up-previous (select s (next_entry n i)) h (next_inside n i k)
          ∙ ap (select s) (ground arith),
      ap move_down (move_up-previous s h k)
          ∙ move_down-next (select s (previous_entry n i)) h (previous_inside n i k)
          ∙ ap (select s) (ground arith),
    )

-- The name of an entry is selected.
abbrev pub Shows : CompletionState → Type 0
Shows s =
    (i : ℕ) × (i < entry_count s) × (s.selected ≡ i) × (selected_name s ≡ get_elem? (s.entries) i)

Shows-select : (s : CompletionState) (i : ℕ) → i < entry_count s → Shows (select s i)
unfolding selected_name
Shows-select s i h =
    (i, h, refl, if_on (ltb i (entry_count s)) (get_elem? (s.entries) i) none (ground arith))

choice_inside :
    (n : ℕ) (b : Bool) (x y : ℕ) → x < n → (b ≡ false → y < n) → (if b then x else y) < n
choice_inside n true x y h k = h
choice_inside n false x y h k = k refl

Shows-moved :
    (go : ℕ → ℕ → ℕ → ℕ) (fixed : ℕ) (s : CompletionState)
    → 0 < s.rows
    → 0 < entry_count s
    → fixed < entry_count s
    → (s.selected < entry_count s → go (entry_count s) (s.rows) (s.selected) < entry_count s)
    → Shows (moved go fixed s)
Shows-moved go fixed s h k f g = rw (moved-grid go fixed s h k) (
    Shows-select s _ (
      choice_inside (entry_count s) (leb (entry_count s) (s.selected)) fixed _ f
        λ e. g (ground arith)))

-- In a grid with rows and entries, every move, wherever the selection stood, leaves the selection on an
-- entry, whose name is the selected one.
pub moves-Shows :
    (s : CompletionState)
    → 0 < s.rows
    → 0 < entry_count s
    → Shows (move_up s) × Shows (move_down s) × Shows (move_left s) × Shows (move_right s)
unfolding move_up move_down move_left move_right
moves-Shows s h k =
    let n = entry_count s in
    (
      Shows-moved up_from (n - 1) s h k (omega arith) λ inside.
          rw (up_from-previous n (s.rows) (s.selected) h inside) (previous_inside n _ inside),
      Shows-moved down_from 0 s h k k
          λ inside. rw (down_from-next n (s.rows) (s.selected) h inside) (next_inside n _ inside),
      Shows-moved left_from (n - 1) s h k (omega arith)
          λ inside. left_from-inside n (s.rows) (s.selected) h inside,
      Shows-moved right_from 0 s h k k λ inside. right_from-inside n (s.rows) (s.selected) h inside,
    )
