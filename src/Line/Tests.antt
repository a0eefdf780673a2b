-- ===== src/Line/Tests.antt =====
-- Sessions, motions and boundaries of src/line.rs at concrete buffers.
use ish.Prelude.{ℕ, ◌≡◌, refl, some, List, [], ◌∷◌}
use ish.Line.{LineBuffer, new, set_with_cursor}
use ish.Line.Grid.{up}
use ish.Line.Grid.{move_line_up, move_line_down, move_grid}
use ish.Line.Zipper.{zip, buffer}
use ish.Line.Session.{
  Edit, char, paste, backspace, home, word_left, cut_word_back, put_back, replace_at, line_up,
  line_down, meaning, meanings, perform, run, perform-buffer, run-new,
}
use ish.Line.Valid.{IsValid, set_with_cursor-IsValid}
use ish.Line.Landing.{Lands}
use ish.Line.Vertical.{move_line_up-Lands, move_line_down-Lands, move_grid-Lands}

-- Two lines, with a character of two bytes in the first.
abbrev two_lines : List ℕ
two_lines = b'a' ∷ 233 ∷ b'b' ∷ 10 ∷ b'c' ∷ b'd' ∷ []

abbrev here : LineBuffer
here = set_with_cursor new two_lines 6

here-IsValid : IsValid here
here-IsValid = set_with_cursor-IsValid new two_lines 6

abbrev session : List Edit
session =
    paste two_lines
    ∷ word_left
    ∷ backspace
    ∷ cut_word_back
    ∷ home
    ∷ put_back
    ∷ char 128512
    ∷ line_down
    ∷ line_up
    ∷ replace_at two_lines 2
    ∷ backspace
    ∷ []

run-new_example : run session new ≡ some (buffer (meanings session (zip [] [] [])))
run-new_example = run-new session

perform-buffer_example :
    perform cut_word_back (buffer (zip (233 ∷ b'a' ∷ []) (b'b' ∷ []) []))
    ≡ some (buffer (meaning cut_word_back (zip (233 ∷ b'a' ∷ []) (b'b' ∷ []) [])))
perform-buffer_example = perform-buffer cut_word_back (zip (233 ∷ b'a' ∷ []) (b'b' ∷ []) [])

move_line_up-Lands_example : Lands here (move_line_up here)
move_line_up-Lands_example = move_line_up-Lands here here-IsValid

move_line_down-Lands_example : Lands here (move_line_down here)
move_line_down-Lands_example = move_line_down-Lands here here-IsValid

-- One line over two rows of three columns, behind a prompt of two; the cursor goes up from the second.
abbrev one_line : LineBuffer
one_line = set_with_cursor new (b'a' ∷ 233 ∷ b'b' ∷ []) 3

move_grid-Lands_example : Lands one_line (move_grid one_line up 2 3 2)
unfolding ish.Line.Grid.has_newlines ish.Utf8.contains set_with_cursor
move_grid-Lands_example =
    move_grid-Lands one_line up 2 3 2 (set_with_cursor-IsValid new (b'a' ∷ 233 ∷ b'b' ∷ []) 3) refl
