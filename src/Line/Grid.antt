-- ===== src/Line/Grid.antt =====
-- The rows, columns and lines of src/line.rs: where the cursor stands on the terminal, and its vertical
-- motions.
use ish.Prelude.{
  ℕ, ◌+◌, ◌-◌, ◌*◌, ◌/◌, ◌%◌, min, Bool, true, false, not, Option, none, some, [], ◌∷◌, ltb, leb,
  ◌==◌, if◌then◌else◌, ◌>>=◌,
}
use ish.Utf8.{Str, len_utf8, len, split_at, cut, find, rfind, contains}
use ish.Line.Width.{char_width, str_width}
use ish.Line.{LineBuffer, display_cursor_pos, display_len}

-- Rows and columns of the terminal.
unfoldable pub grid_cursor_position : LineBuffer → ℕ → ℕ → Option (ℕ × ℕ)
grid_cursor_position lb prompt_display_len term_cols = do
  let cols = if term_cols == 0 then 1 else term_cols
  pos ← display_cursor_pos lb
  some ((prompt_display_len + pos) / cols, (prompt_display_len + pos) % cols)

-- The loop of `byte_offset_for_display_pos`, `byte` and `display` being its two sums.
unfoldable pub offset_for_display : ℕ → Str → ℕ → ℕ → ℕ
offset_for_display target [] byte display = byte
offset_for_display target (c ∷ s) byte display =
    let onward = offset_for_display target s (byte + len_utf8 c) (display + char_width c) in
    if ltb target (display + char_width c)
    then byte
    else if target == display + char_width c
    then byte + len_utf8 c
    else onward

unfoldable pub byte_offset_for_display_pos : LineBuffer → ℕ → ℕ
byte_offset_for_display_pos lb target =
    if target == 0 then 0 else offset_for_display target lb.buf 0 0

pub data Direction : Type 0 where
  up down : Direction

-- The row to go to: not above the first row of the input, not below its last.
unfoldable pub target_row : Direction → ℕ → ℕ → ℕ → Option ℕ
target_row up row first_input_row last_row =
    if ltb first_input_row row then some (row - 1) else none
target_row down row first_input_row last_row = if ltb row last_row then some (row + 1) else none

-- The end of `move_grid`: the cursor goes to a row, if there is one, and to a column within it.
unfoldable pub go_to_row : LineBuffer → ℕ → ℕ → ℕ → Option ℕ → LineBuffer × Bool
go_to_row lb prompt_display_len cols target_col none = (lb, false)
go_to_row lb prompt_display_len cols target_col (some row) =
    let total = row * cols + min target_col (cols - 1) in
    (record lb { cursor = byte_offset_for_display_pos lb (total - prompt_display_len) }, true)

abbrev pub is_empty : Str → Bool
is_empty [] = true
is_empty (_ ∷ _) = false

unfoldable pub has_newlines : LineBuffer → Bool
has_newlines lb = contains 10 lb.buf

-- `none` stands for the failed assertion that the buffer has no newline. The widths are summed without
-- the wrap-around of a usize.
unfoldable pub move_grid : LineBuffer → Direction → ℕ → ℕ → ℕ → Option (LineBuffer × Bool)
move_grid lb direction prompt_display_len term_cols target_col =
    if has_newlines lb then none else if is_empty lb.buf then some (lb, false) else do
      let cols = if term_cols == 0 then 1 else term_cols
      (row, col) ← grid_cursor_position lb prompt_display_len term_cols
      let last_row = (prompt_display_len + display_len lb) / cols
      let target = target_row direction row (prompt_display_len / cols) last_row
      some (go_to_row lb prompt_display_len cols target_col target)

unfoldable pub on_first_line : LineBuffer → Option Bool
on_first_line lb = do (before, after) ← split_at lb.buf lb.cursor; some (not (contains 10 before))

unfoldable pub on_last_line : LineBuffer → Option Bool
on_last_line lb = do (before, after) ← split_at lb.buf lb.cursor; some (not (contains 10 after))

-- The loop of `offset_at_column`.
unfoldable pub column_offset : ℕ → Str → ℕ → ℕ → ℕ
column_offset col [] byte width = byte
column_offset col (c ∷ s) byte width =
    let onward = column_offset col s (byte + len_utf8 c) (width + char_width c) in
    if leb col width then byte else onward

unfoldable pub offset_at_column : Str → ℕ → ℕ
offset_at_column line col = column_offset col line 0 0

-- Where the last line of a text starts, by its last newline.
abbrev pub line_start : Option ℕ → ℕ
line_start none = 0
line_start (some i) = i + 1

unfoldable pub move_line_up : LineBuffer → Option (LineBuffer × Bool)
move_line_up lb = do
  (before, after) ← split_at lb.buf lb.cursor
  elim (rfind 10 before) [
    | none ↦ some (lb, false)
    | some i ↦ do
      (above, current, rest) ← cut lb.buf (i + 1) lb.cursor
      let col = str_width current
      (text, newline) ← split_at lb.buf i
      let start = line_start (rfind 10 text)
      (earlier, line, later) ← cut lb.buf start i
      some (record lb { cursor = start + offset_at_column line col }, true)
  ]

-- Where a line that starts at `start` ends, by the first newline behind `start`.
abbrev pub line_end : ℕ → Option ℕ → ℕ → ℕ
line_end start none end = end
line_end start (some i) end = start + i

unfoldable pub move_line_down : LineBuffer → Option (LineBuffer × Bool)
move_line_down lb = do
  (before, after) ← split_at lb.buf lb.cursor
  let start = line_start (rfind 10 before)
  (above, current, rest) ← cut lb.buf start lb.cursor
  let col = str_width current
  elim (find 10 after) [
    | none ↦ some (lb, false)
    | some i ↦ do
      let next_start = lb.cursor + i + 1
      (upto, tail) ← split_at lb.buf next_start
      let next_end = line_end next_start (find 10 tail) (len lb.buf)
      (earlier, line, later) ← cut lb.buf next_start next_end
      some (record lb { cursor = next_start + offset_at_column line col }, true)
  ]
