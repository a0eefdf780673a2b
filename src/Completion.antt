-- ===== src/Completion.antt =====
-- The selection in the grid of completions of src/complete.rs, which fills its columns from top to bottom.
pub mod Grid
mod Tests
use ish.Prelude.{
  ℕ, zero, suc, ◌+◌, ◌-◌, ◌*◌, ◌/◌, ◌%◌, min, Bool, ◌||◌, Option, none, some, List, [], ◌∷◌, length,
  get_elem?, ltb, leb, ◌==◌, if◌then◌else◌,
}
use ish.Utf8.{Str}

-- `entries` are the names of the entries; the fields that place the grid on the screen are left out.
pub record CompletionState : Type 0 where
  pub entries : List Str
  pub selected : ℕ
  pub rows : ℕ

unfoldable pub selected_name : CompletionState → Option Str
selected_name s =
    if ltb (s.selected) (length (s.entries)) then get_elem? (s.entries) (s.selected) else none

abbrev pub entry_count : CompletionState → ℕ
entry_count s = length (s.entries)

-- The selection that `move_up` leaves, in a grid of `n` entries.
unfoldable pub up_from : ℕ → ℕ → ℕ → ℕ
up_from n rows selected =
    let row = selected % rows in
    let col = selected / rows in
    let last_col = (n - 1) / rows in
    if row == 0
    then if ltb 0 col
      then min ((col - 1) * rows + rows - 1) (n - 1)
      else min (last_col * rows + rows - 1) (n - 1)
    else selected - 1

unfoldable pub down_from : ℕ → ℕ → ℕ → ℕ
down_from n rows selected =
    let row = selected % rows in
    let col = selected / rows in
    let idx = (col + 1) * rows in
    if leb rows (row + 1) || leb n (selected + 1)
    then if ltb idx n then idx else 0
    else selected + 1

unfoldable pub left_from : ℕ → ℕ → ℕ → ℕ
left_from n rows selected =
    let row = selected % rows in
    let col = selected / rows in
    let last_col = (n - 1) / rows in
    if col == 0 then min (last_col * rows + row) (n - 1) else selected - rows

unfoldable pub right_from : ℕ → ℕ → ℕ → ℕ
right_from n rows selected =
    let row = selected % rows in
    let col = selected / rows in
    let next = (col + 1) * rows + row in if ltb next n then next else min row (n - 1)

-- The guards that the four methods share: nothing moves in an empty grid, and a selection out of range
-- goes to a fixed entry.
unfoldable pub moved : (ℕ → ℕ → ℕ → ℕ) → ℕ → CompletionState → CompletionState
moved go fixed s = if s.rows == 0 || entry_count s == 0 then s else record s {
  selected =
      if leb (entry_count s) (s.selected) then fixed else go (entry_count s) (s.rows) (s.selected);
}

unfoldable pub move_up : CompletionState → CompletionState
unfolding moved up_from
move_up s = moved up_from (entry_count s - 1) s

unfoldable pub move_down : CompletionState → CompletionState
unfolding moved down_from
move_down s = moved down_from 0 s

unfoldable pub move_left : CompletionState → CompletionState
unfolding moved left_from
move_left s = moved left_from (entry_count s - 1) s

unfoldable pub move_right : CompletionState → CompletionState
unfolding moved right_from
move_right s = moved right_from 0 s
