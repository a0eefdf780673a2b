-- ===== src/Line.antt =====
-- src/line.rs: the line editor's buffer, a text with a byte cursor and a kill ring. A method returns
-- `none` where the source would panic: an offset off a character boundary or out of bounds.
-- Sums of lengths do not wrap here; a buffer in memory is shorter than 2^63 bytes.
pub mod Landing
pub mod Grid
pub mod Width
pub mod Zipper
pub mod Cursor
pub mod Edits
pub mod Replace
pub mod Lines
pub mod Motions
pub mod Words
pub mod Session
pub mod Valid
pub mod Vertical
mod Tests
use ish.Prelude.{
  ℕ, zero, suc, ◌+◌, ◌-◌, ◌*◌, ◌/◌, ◌%◌, min, Bool, true, false, not, ◌||◌, Option, none, some,
  List, [], ◌∷◌, ◌++◌, ltb, leb, ◌==◌, if◌then◌else◌, ◌>>=◌,
}
use mathlib.Core.Option.{get_or}
use ish.Utf8.{
  Str, len_utf8, len, byte_at, is_char_boundary, split_at, cut, find, rfind, contains, is_ascii,
  last?, first?, is_whitespace,
}
use ish.Line.Width.{char_width, str_width}

pub record LineBuffer : Type 0 where
  pub buf : Str
  pub cursor : ℕ
  pub kill_ring : Str

abbrev pub new : LineBuffer
new = record { buf = []; cursor = 0; kill_ring = [] }

unfoldable pub set : LineBuffer → Str → LineBuffer
set lb s = record lb { buf = s; cursor = len s }

-- The greatest boundary at or below an offset.
unfoldable pub floor : Str → ℕ → ℕ
floor s zero = zero
floor s (suc i) = let below = floor s i in if is_char_boundary s (suc i) then suc i else below

unfoldable pub set_with_cursor : LineBuffer → Str → ℕ → LineBuffer
set_with_cursor lb s cursor = record lb { buf = s; cursor = floor s (min cursor (len s)) }

unfoldable pub display_cursor_pos : LineBuffer → Option ℕ
display_cursor_pos lb =
    if is_ascii lb.buf
    then some lb.cursor
    else do (before, after) ← split_at lb.buf lb.cursor; some (str_width before)

unfoldable pub display_len : LineBuffer → ℕ
display_len lb = if is_ascii lb.buf then len lb.buf else str_width lb.buf

-- Indexing the bytes panics out of bounds.
unfoldable pub prev_char_boundary : LineBuffer → Option ℕ
prev_char_boundary lb = if lb.cursor == 0 then some 0 else do
  b ← byte_at lb.buf (lb.cursor - 1)
  some (if ltb b 0x80 then lb.cursor - 1 else floor lb.buf (lb.cursor - 1))

-- The first boundary at or above an offset, or the end after `fuel` steps.
unfoldable pub ceil : ℕ → Str → ℕ → ℕ
ceil zero s i = i
ceil (suc fuel) s i = let above = ceil fuel s (i + 1) in if is_char_boundary s i then i else above

unfoldable pub next_char_boundary : LineBuffer → Option ℕ
next_char_boundary lb =
    let next = lb.cursor + 1 in
    if leb (len lb.buf) next then some (len lb.buf) else do
      b ← byte_at lb.buf lb.cursor
      some (if ltb b 0x80 then next else min (ceil (len lb.buf - next) lb.buf next) (len lb.buf))

unfoldable pub char_before_cursor : LineBuffer → Option (Option ℕ)
char_before_cursor lb = if lb.cursor == 0 then some none else do
  b ← byte_at lb.buf (lb.cursor - 1)
  if ltb b 0x80
      then some (some b)
      else do (before, after) ← split_at lb.buf lb.cursor; some (last? before)

unfoldable pub char_at_cursor : LineBuffer → Option (Option ℕ)
char_at_cursor lb = if leb (len lb.buf) lb.cursor then some none else do
  b ← byte_at lb.buf lb.cursor
  if ltb b 0x80
      then some (some b)
      else do (before, after) ← split_at lb.buf lb.cursor; some (first? after)

unfoldable pub insert_str : LineBuffer → Str → Option LineBuffer
insert_str lb s = do
  (before, after) ← split_at lb.buf lb.cursor
  some (record lb { buf = before ++ (s ++ after); cursor = lb.cursor + len s })

unfoldable pub insert_char : LineBuffer → ℕ → Option LineBuffer
insert_char lb c = do
  (before, after) ← split_at lb.buf lb.cursor
  some (record lb { buf = before ++ c ∷ after; cursor = lb.cursor + len_utf8 c })

unfoldable pub delete_back : LineBuffer → Option (LineBuffer × Bool)
delete_back lb = if lb.cursor == 0 then some (lb, false) else do
  prev ← prev_char_boundary lb
  (before, gone, after) ← cut lb.buf prev lb.cursor
  some (record lb { buf = before ++ after; cursor = prev }, true)

unfoldable pub delete_forward : LineBuffer → Option (LineBuffer × Bool)
delete_forward lb = if leb (len lb.buf) lb.cursor then some (lb, false) else do
  next ← next_char_boundary lb
  (before, gone, after) ← cut lb.buf lb.cursor next
  some (record lb { buf = before ++ after }, true)

unfoldable pub move_left : LineBuffer → Option (LineBuffer × Bool)
move_left lb =
    if lb.cursor == 0
    then some (lb, false)
    else do prev ← prev_char_boundary lb; some (record lb { cursor = prev }, true)

unfoldable pub move_right : LineBuffer → Option (LineBuffer × Bool)
move_right lb =
    if leb (len lb.buf) lb.cursor
    then some (lb, false)
    else do next ← next_char_boundary lb; some (record lb { cursor = next }, true)

unfoldable pub move_home : LineBuffer → LineBuffer
move_home lb = record lb { cursor = 0 }

unfoldable pub move_end : LineBuffer → LineBuffer
move_end lb = record lb { cursor = len lb.buf }

abbrev pub is_some_and : (ℕ → Bool) → Option ℕ → Bool
is_some_and p none = false
is_some_and p (some c) = p c

abbrev pub not_whitespace : ℕ → Bool
not_whitespace c = not (is_whitespace c)

-- `while self.cursor > 0 && self.char_before_cursor().is_some_and(p)`; also `none` without fuel.
unfoldable pub back_while : ℕ → (ℕ → Bool) → LineBuffer → Option LineBuffer
back_while zero p lb = none
back_while (suc fuel) p lb =
    let onward =
      prev_char_boundary lb >>= (λ prev. back_while fuel p (record lb { cursor = prev })) in
    if lb.cursor == 0
    then some lb
    else do c ← char_before_cursor lb; if is_some_and p c then onward else some lb

-- `while self.cursor < len && self.char_at_cursor().is_some_and(p)`.
unfoldable pub forward_while : ℕ → (ℕ → Bool) → LineBuffer → Option LineBuffer
forward_while zero p lb = none
forward_while (suc fuel) p lb =
    let onward =
      next_char_boundary lb >>= (λ next. forward_while fuel p (record lb { cursor = next })) in
    if leb (len lb.buf) lb.cursor
    then some lb
    else do c ← char_at_cursor lb; if is_some_and p c then onward else some lb

abbrev pub fuel_for : LineBuffer → ℕ
fuel_for lb = len lb.buf + 1

unfoldable pub move_word_left : LineBuffer → Option LineBuffer
move_word_left lb = do
  spaces ← back_while (fuel_for lb) is_whitespace lb
  back_while (fuel_for lb) not_whitespace spaces

unfoldable pub move_word_right : LineBuffer → Option LineBuffer
move_word_right lb = do
  word ← forward_while (fuel_for lb) not_whitespace lb
  forward_while (fuel_for lb) is_whitespace word

unfoldable pub kill_to_end : LineBuffer → Option LineBuffer
kill_to_end lb =
    if ltb lb.cursor (len lb.buf)
    then (do
      (before, after) ← split_at lb.buf lb.cursor
      some (record lb { buf = before; kill_ring = after }))
    else some lb

unfoldable pub kill_to_start : LineBuffer → Option LineBuffer
kill_to_start lb =
    if ltb 0 lb.cursor
    then (do
      (before, after) ← split_at lb.buf lb.cursor
      some (record { buf = after; cursor = 0; kill_ring = before }))
    else some lb

-- The end of `kill_word_back`: what stands between the cursor and `end` is killed.
unfoldable pub kill_up_to : ℕ → LineBuffer → Option LineBuffer
kill_up_to end lb =
    if ltb lb.cursor end
    then (do
      (before, killed, after) ← cut lb.buf lb.cursor end
      some (record lb { buf = before ++ after; kill_ring = killed }))
    else some lb

unfoldable pub kill_word_back : LineBuffer → Option LineBuffer
kill_word_back lb = do
  spaces ← back_while (fuel_for lb) is_whitespace lb
  word ← back_while (fuel_for lb) not_whitespace spaces
  kill_up_to lb.cursor word

-- The end of `kill_word_forward`: what stands between `start` and the cursor is killed.
unfoldable pub kill_since : ℕ → LineBuffer → Option LineBuffer
kill_since start lb =
    if ltb start lb.cursor
    then (do
      (before, killed, after) ← cut lb.buf start lb.cursor
      some (record { buf = before ++ after; cursor = start; kill_ring = killed }))
    else some lb

unfoldable pub kill_word_forward : LineBuffer → Option LineBuffer
kill_word_forward lb = do
  spaces ← forward_while (fuel_for lb) is_whitespace lb
  word ← forward_while (fuel_for lb) not_whitespace spaces
  kill_since lb.cursor word

unfoldable pub yank : LineBuffer → Option LineBuffer
yank lb = elim lb.kill_ring [
  | [] ↦ some lb
  | c ∷ text ↦
      insert_str (record lb { kill_ring = [] }) (c ∷ text)
      >>= (λ put. some (record put { kill_ring = c ∷ text }))
]
