-- ===== src/Line/Vertical.antt =====
-- The vertical motions of src/line.rs, between lines and between rows of the terminal.
use ish.Prelude.{
  ℕ, ◌+◌, ◌/◌, ◌%◌, ◌≡◌, refl, true, false, Option, none, some, [], ◌∷◌, ◌++◌, arith, ◌==◌,
  if◌then◌else◌, ◌>>=◌, append_assoc, append-nil, ◌∙◌, sym, ap, ap₂, Bool-cases, Option-cases, inl,
  inr,
}
use ish.Utf8.{is_ascii, Str, len, split_at, cut, find, rfind}
use ish.Utf8.Boundary.{len-append, len-cons, split_at-append, cut-append}
use ish.Line.{display_cursor_pos, LineBuffer}
use ish.Line.Grid.{
  Direction, is_empty, go_to_row, grid_cursor_position, move_line_up, move_line_down, line_start,
  line_end, offset_at_column, has_newlines, move_grid,
}
use ish.Line.Width.{str_width}
use ish.Line.Valid.{Boundary, IsValid, column_offset-Boundary, byte_offset-Boundary}
use ish.Line.Landing.{
  Lands, newline, len-newline, newline-len, rfind-Found, find-Found, line_start-Boundary,
}

-- A column of a line that stands behind `p` is on a boundary of the whole text.
column-Boundary :
    (p line r : Str) (col : ℕ) → Boundary (p ++ (line ++ r)) (len p + offset_at_column line col)
unfolding offset_at_column
column-Boundary p line r col =
    let (i, e, b) = column_offset-Boundary col line 0 0 in
    record {
      before = p ++ b.before;
      after = b.after ++ r;
      parts =
          ap (λ x. p ++ (x ++ r)) b.parts
          ∙ ap (p ++◌) (append_assoc b.before b.after r)
          ∙ sym (append_assoc p b.before (b.after ++ r));
      offset = omega (arith, e, b.offset, len-append p b.before);
    }

Boundary-eq : {s u : Str} {i : ℕ} → s ≡ u → Boundary u i → Boundary s i
Boundary-eq e b = record {
  before = b.before;
  after = b.after;
  parts = e ∙ b.parts;
  offset = b.offset;
}

pub cut-at :
    (s p m r : Str) (a b : ℕ)
    → s ≡ p ++ (m ++ r)
    → a ≡ len p
    → b ≡ len p + len m
    → cut s a b ≡ some (p, m, r)
cut-at s p m r a b e ea eb =
    ap₂ (λ x y. cut x y b) e ea ∙ ap (cut (p ++ (m ++ r)) (len p)) eb ∙ cut-append p m r

pub up_steps :
    (lb : LineBuffer) (before after above current rest text beyond earlier line later : Str) (i : ℕ)
    → split_at lb.buf lb.cursor ≡ some (before, after)
    → rfind newline before ≡ some i
    → cut lb.buf (i + 1) lb.cursor ≡ some (above, current, rest)
    → split_at lb.buf i ≡ some (text, beyond)
    → cut lb.buf (line_start (rfind newline text)) i ≡ some (earlier, line, later)
    → move_line_up lb
      ≡ some (
        record lb {
          cursor = line_start (rfind newline text) + offset_at_column line (str_width current);
        },
        true,
      )
unfolding move_line_up
up_steps lb before after above current rest text beyond earlier line later i h1 h2 h3 h4 h5 =
    rw (h1, ◌>>=◌, h2, h3, ◌>>=◌, h4, ◌>>=◌, h5, ◌>>=◌)

-- With the cursor on a boundary `move_line_up` answers; it changes at most the cursor, and leaves that on
-- a boundary.
pub move_line_up-Lands : (lb : LineBuffer) → IsValid lb → Lands lb (move_line_up lb)
unfolding move_line_up
move_line_up-Lands lb v =
    let parted = ap₂ split_at v.parts v.offset ∙ split_at-append v.before v.after in
    elim (Option-cases (rfind newline v.before)) [
      | inl e ↦ record {
        cursor = lb.cursor;
        moved = false;
        is_answer = rw (parted, ◌>>=◌, e);
        on_boundary = v;
      }
      | inr (i, e) ↦
          let f = rfind-Found v.before i e in
          let b = line_start-Boundary f.before in
          let whole =
            v.parts
            ∙ ap (λ x. x ++ v.after) f.parts
            ∙ append_assoc f.before (newline ∷ f.after) v.after in
          let lined =
            whole
            ∙ ap (λ x. x ++ (newline ∷ (f.after ++ v.after))) b.parts
            ∙ append_assoc b.before b.after (newline ∷ (f.after ++ v.after)) in
          record {
            cursor =
                line_start (rfind newline f.before) + offset_at_column b.after (str_width f.after);
            moved = true;
            is_answer =
                up_steps lb v.before v.after (f.before ++ newline ∷ []) f.after v.after f.before
                  (newline ∷ (f.after ++ v.after)) b.before b.after (newline ∷ (f.after ++ v.after))
                  i parted e
                  (cut-at lb.buf (f.before ++ newline ∷ []) f.after v.after (i + 1) lb.cursor
                    (whole ∙ sym (append_assoc f.before (newline ∷ []) (f.after ++ v.after)))
                    (omega (arith, f.offset, len-append f.before (newline ∷ []), len-newline))
                    (omega (
                      arith,
                      v.offset,
                      ap len f.parts,
                      len-append f.before (newline ∷ f.after),
                      len-append f.before (newline ∷ []),
                      len-newline,
                      len-cons newline f.after,
                      newline-len,
                    )))
                  (ap₂ split_at whole f.offset
                    ∙ split_at-append f.before (newline ∷ (f.after ++ v.after)))
                  (cut-at lb.buf b.before b.after (newline ∷ (f.after ++ v.after))
                    (line_start (rfind newline f.before)) i lined b.offset
                    (omega (arith, f.offset, ap len b.parts, len-append b.before b.after)));
            on_boundary = Boundary-eq lined (
                rw (b.offset) (
                  column-Boundary b.before b.after (newline ∷ (f.after ++ v.after))
                    (str_width f.after)));
          }
    ]

pub down_steps :
    (lb : LineBuffer) (before after above current rest upto tail earlier line later : Str) (i : ℕ)
    → split_at lb.buf lb.cursor ≡ some (before, after)
    → cut lb.buf (line_start (rfind newline before)) lb.cursor ≡ some (above, current, rest)
    → find newline after ≡ some i
    → split_at lb.buf (lb.cursor + i + 1) ≡ some (upto, tail)
    → cut lb.buf (lb.cursor + i + 1) (line_end (lb.cursor + i + 1) (find newline tail) (len lb.buf))
      ≡ some (earlier, line, later)
    → move_line_down lb
      ≡ some (
        record lb { cursor = lb.cursor + i + 1 + offset_at_column line (str_width current) },
        true,
      )
unfolding move_line_down
down_steps lb before after above current rest upto tail earlier line later i h1 h2 h3 h4 h5 =
    rw (h1, ◌>>=◌, h2, ◌>>=◌, h3, h4, ◌>>=◌, h5, ◌>>=◌)

-- The end of a line that starts behind `p`.
line_end-parts :
    (p s : Str)
    → (line rest : Str) × (s ≡ line ++ rest)
      × (line_end (len p) (find newline s) (len (p ++ s)) ≡ len p + len line)
line_end-parts p s = elim (Option-cases (find newline s)) [
  | inl e ↦ (s, [], sym (append-nil s), rw e (len-append p s))
  | inr (j, e) ↦
      let f = find-Found s j e in
      (f.before, newline ∷ f.after, f.parts, rw e (ap (len p +◌) f.offset))
]

-- With the cursor on a boundary `move_line_down` answers; it changes at most the cursor, and leaves that
-- on a boundary.
pub move_line_down-Lands : (lb : LineBuffer) → IsValid lb → Lands lb (move_line_down lb)
unfolding move_line_down
move_line_down-Lands lb v =
    let parted = ap₂ split_at v.parts v.offset ∙ split_at-append v.before v.after in
    let b = line_start-Boundary v.before in
    let own =
      cut-at lb.buf b.before b.after v.after (line_start (rfind newline v.before)) lb.cursor
        (v.parts ∙ ap (λ x. x ++ v.after) b.parts ∙ append_assoc b.before b.after v.after) b.offset
        (omega (arith, v.offset, ap len b.parts, len-append b.before b.after)) in
    elim (Option-cases (find newline v.after)) [
      | inl e ↦ record {
        cursor = lb.cursor;
        moved = false;
        is_answer = rw (parted, ◌>>=◌, own, ◌>>=◌, e);
        on_boundary = v;
      }
      | inr (i, e) ↦
          let f = find-Found v.after i e in
          let p = v.before ++ (f.before ++ newline ∷ []) in
          let whole : lb.buf ≡ p ++ f.after =
            v.parts
            ∙ ap (v.before ++◌) (f.parts ∙ sym (append_assoc f.before (newline ∷ []) f.after))
            ∙ sym (append_assoc v.before (f.before ++ newline ∷ []) f.after) in
          let start : lb.cursor + i + 1 ≡ len p = omega (
            arith,
            v.offset,
            f.offset,
            len-append v.before (f.before ++ newline ∷ []),
            len-append f.before (newline ∷ []),
            len-newline,
          ) in
          let (line, rest, split, ends) = line_end-parts p f.after in
          let lined = whole ∙ ap (p ++◌) split in
          record {
            cursor = lb.cursor + i + 1 + offset_at_column line (str_width b.after);
            moved = true;
            is_answer =
                down_steps lb v.before v.after b.before b.after v.after p f.after p line rest i
                  parted own e (ap₂ split_at whole start ∙ split_at-append p f.after)
                  (cut-at lb.buf p line rest (lb.cursor + i + 1) _ lined start
                    (ap₂ (λ x y. line_end x (find newline f.after) (len y)) start whole ∙ ends));
            on_boundary =
                Boundary-eq lined (rw start (column-Boundary p line rest (str_width b.after)));
          }
    ]

display-total : (lb : LineBuffer) → IsValid lb → (pos : ℕ) × (display_cursor_pos lb ≡ some pos)
unfolding display_cursor_pos
display-total lb v =
    let parted = ap₂ split_at v.parts v.offset ∙ split_at-append v.before v.after in
    elim (Bool-cases (is_ascii lb.buf)) [
      | inl h ↦ (lb.cursor, rw h)
      | inr h ↦ (str_width v.before, rw (h, parted))
    ]

grid-total :
    (lb : LineBuffer) (prompt cols : ℕ)
    → IsValid lb
    → (row col : ℕ) × (grid_cursor_position lb prompt cols ≡ some (row, col))
unfolding grid_cursor_position
grid-total lb prompt cols v =
    let (pos, e) = display-total lb v in
    let width : ℕ = if cols == 0 then 1 else cols in
    ((prompt + pos) / width, (prompt + pos) % width, rw e)

go_to_row-Lands :
    (lb : LineBuffer) (prompt cols target_col : ℕ) (row : Option ℕ)
    → IsValid lb
    → Lands lb (some (go_to_row lb prompt cols target_col row))
unfolding go_to_row
go_to_row-Lands lb prompt cols target_col none v = record {
  cursor = lb.cursor;
  moved = false;
  is_answer = refl;
  on_boundary = v;
}
go_to_row-Lands lb prompt cols target_col (some row) v = record {
  cursor = _;
  moved = true;
  is_answer = refl;
  on_boundary = byte_offset-Boundary lb _;
}

-- With the cursor on a boundary and no newline in the buffer `move_grid` answers, up and down, with any
-- prompt, width and column, the widths being summed without wrap-around; it changes at most the cursor,
-- and leaves that on a boundary.
pub move_grid-Lands :
    (lb : LineBuffer) (direction : Direction) (prompt cols target_col : ℕ)
    → IsValid lb
    → has_newlines lb ≡ false
    → Lands lb (move_grid lb direction prompt cols target_col)
unfolding move_grid
move_grid-Lands lb direction prompt cols target_col v one_line =
    let (row, col, e) = grid-total lb prompt cols v in
    elim (Bool-cases (is_empty lb.buf)) [
      | inl h ↦
          rw (one_line, h)
            (record { cursor = lb.cursor; moved = false; is_answer = refl; on_boundary = v })
      | inr h ↦ rw (one_line, h, e, ◌>>=◌) (go_to_row-Lands lb prompt _ target_col _ v)
    ]
