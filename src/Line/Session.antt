-- ===== src/Line/Session.antt =====
-- Sessions with the buffer of src/line.rs, against the contract of `Line.Zipper`.
use ish.Prelude.{ℕ, ◌≡◌, refl, Bool, Option, some, List, [], ◌∷◌, ◌++◌, ◌>>=◌, ◌∙◌, ap, reverse}
use mathlib.Core.Option
use ish.Utf8.{len, Str, is_whitespace}
use ish.Line.{
  LineBuffer, new, set, set_with_cursor, not_whitespace, insert_char, insert_str, delete_back,
  delete_forward, move_left, move_right, move_home, move_end, move_word_left, move_word_right,
  kill_to_end, kill_to_start, kill_word_back, kill_word_forward, yank,
}
use ish.Line.Zipper.{
  Zipper, zip, buffer, insert, back, forward, erase_back, erase_forward, ring, word_of, text,
  fitting, to_line_up, to_line_down,
}
use ish.Line.Edits.{
  move_left-buffer, move_right-buffer, delete_back-buffer, delete_forward-buffer, insert_str-buffer,
  insert_char-buffer, kill_to_end-buffer, kill_to_start-buffer, yank-buffer, move_home-buffer,
  move_end-buffer,
}
use ish.Line.Grid.{move_line_up, move_line_down}
use ish.Line.Motions.{move_line_up-buffer, move_line_down-buffer}
use ish.Line.Replace.{set-buffer, set_with_cursor-buffer}
use ish.Line.Words.{
  move_word_left-buffer, move_word_right-buffer, kill_word_back-buffer, kill_word_forward-buffer,
}

-- The methods that change the buffer, but for the motions between rows of the terminal. `replace` is `set`,
-- and `replace_at` is `set_with_cursor`.
pub data Edit : Type 0 where
  char : ℕ → Edit
  paste : Str → Edit
  backspace delete left right home end word_left word_right : Edit
  cut_end cut_start cut_word_back cut_word_forward put_back : Edit
  line_up line_down : Edit
  replace : Str → Edit
  replace_at : Str → ℕ → Edit

abbrev buffer_of : LineBuffer × Bool → LineBuffer
buffer_of r = r.0

-- The method that an edit calls.
unfoldable pub perform : Edit → LineBuffer → Option LineBuffer
perform (char c) lb = insert_char lb c
perform (paste s) lb = insert_str lb s
perform backspace lb = Option.map buffer_of (delete_back lb)
perform delete lb = Option.map buffer_of (delete_forward lb)
perform left lb = Option.map buffer_of (move_left lb)
perform right lb = Option.map buffer_of (move_right lb)
perform home lb = some (move_home lb)
perform end lb = some (move_end lb)
perform word_left lb = move_word_left lb
perform word_right lb = move_word_right lb
perform cut_end lb = kill_to_end lb
perform cut_start lb = kill_to_start lb
perform cut_word_back lb = kill_word_back lb
perform cut_word_forward lb = kill_word_forward lb
perform put_back lb = yank lb
perform line_up lb = Option.map buffer_of (move_line_up lb)
perform line_down lb = Option.map buffer_of (move_line_down lb)
perform (replace s) lb = some (set lb s)
perform (replace_at s cursor) lb = some (set_with_cursor lb s cursor)

-- Its meaning on characters.
abbrev pub meaning : Edit → Zipper → Zipper
meaning (char c) z = insert z (c ∷ [])
meaning (paste s) z = insert z s
meaning backspace z = (erase_back z).0
meaning delete z = (erase_forward z).0
meaning left z = (back z).0
meaning right z = (forward z).0
meaning home z = zip [] (text z) z.killed
meaning end z = zip (reverse z.right ++ z.left) [] z.killed
meaning word_left z =
    let (word, rest) = word_of is_whitespace not_whitespace z.left in
    zip rest (reverse word ++ z.right) z.killed
meaning word_right z =
    let (word, rest) = word_of not_whitespace is_whitespace z.right in
    zip (reverse word ++ z.left) rest z.killed
meaning cut_end z = zip z.left [] (ring z.right z.killed)
meaning cut_start z = zip [] z.right (ring (reverse z.left) z.killed)
meaning cut_word_back z =
    let (word, rest) = word_of is_whitespace not_whitespace z.left in
    zip rest z.right (ring (reverse word) z.killed)
meaning cut_word_forward z =
    let (word, rest) = word_of is_whitespace not_whitespace z.right in
    zip z.left rest (ring word z.killed)
meaning put_back z = insert z z.killed
meaning line_up z = to_line_up z
meaning line_down z = to_line_down z
meaning (replace s) z = zip (reverse s) [] z.killed
meaning (replace_at s cursor) z =
    let (front, rest) = fitting cursor s in zip (reverse front) rest z.killed

-- On a buffer whose cursor stands at a character boundary, each method of the list does what its meaning is
-- on characters, and none panics or runs out of rounds: the replacing of the text, insertion, deletion,
-- the motions by a character, a word and a line and to the ends, the kills and the yank.
pub perform-buffer : (e : Edit) (z : Zipper) → perform e (buffer z) ≡ some (buffer (meaning e z))
unfolding perform
perform-buffer (char c) z = insert_char-buffer z.left z.right z.killed c
perform-buffer (paste s) z = insert_str-buffer z.left z.right z.killed s
perform-buffer backspace z = ap (Option.map buffer_of) (delete_back-buffer z.left z.right z.killed)
perform-buffer delete z = ap (Option.map buffer_of) (delete_forward-buffer z.left z.right z.killed)
perform-buffer left z = ap (Option.map buffer_of) (move_left-buffer z.left z.right z.killed)
perform-buffer right z = ap (Option.map buffer_of) (move_right-buffer z.left z.right z.killed)
perform-buffer home z = ap some (move_home-buffer z.left z.right z.killed)
perform-buffer end z = ap some (move_end-buffer z.left z.right z.killed)
perform-buffer word_left z = move_word_left-buffer z.left z.right z.killed
perform-buffer word_right z = move_word_right-buffer z.left z.right z.killed
perform-buffer cut_end z = kill_to_end-buffer z.left z.right z.killed
perform-buffer cut_start z = kill_to_start-buffer z.left z.right z.killed
perform-buffer cut_word_back z = kill_word_back-buffer z.left z.right z.killed
perform-buffer cut_word_forward z = kill_word_forward-buffer z.left z.right z.killed
perform-buffer put_back z = yank-buffer z.left z.right z.killed
perform-buffer line_up z = move_line_up-buffer z.left z.right z.killed
perform-buffer line_down z = move_line_down-buffer z.left z.right z.killed
perform-buffer (replace s) z = ap some (set-buffer z s)
perform-buffer (replace_at s cursor) z = ap some (set_with_cursor-buffer z s cursor)

unfoldable pub run : List Edit → LineBuffer → Option LineBuffer
run [] lb = some lb
run (e ∷ es) lb = perform e lb >>= run es

abbrev pub meanings : List Edit → Zipper → Zipper
meanings [] z = z
meanings (e ∷ es) z = meanings es (meaning e z)

run-buffer : (es : List Edit) (z : Zipper) → run es (buffer z) ≡ some (buffer (meanings es z))
unfolding run
run-buffer [] z = refl
run-buffer (e ∷ es) z =
    ap (λ (o : Option LineBuffer). o >>= run es) (perform-buffer e z) ∙ run-buffer es (meaning e z)

new-buffer : new ≡ buffer (zip [] [] [])
unfolding len
new-buffer = refl

-- Any sequence of the methods of the list, started on an empty buffer, answers without a panic, and ends in
-- the buffer of its meaning: the text, the cursor and the kill ring are those of the character-level editor.
pub run-new : (es : List Edit) → run es new ≡ some (buffer (meanings es (zip [] [] [])))
run-new es = ap (run es) new-buffer ∙ run-buffer es (zip [] [] [])
