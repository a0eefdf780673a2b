-- ===== src/Completion/Tests.antt =====
-- Runs and examples of the model of src/complete.rs.
use ish.Prelude.{◌≡◌, refl, [], ◌∷◌, arith}
use ish.Completion.{CompletionState, move_up, move_down, move_left, move_right}
use ish.Completion.Grid.{next_entry, previous_entry, Shows, move_up-move_down, moves-Shows}

-- Five names in two rows; the last one is selected.
abbrev grid : CompletionState
grid = record {
  entries = (b'a' ∷ []) ∷ (b'b' ∷ []) ∷ (b'c' ∷ []) ∷ (b'd' ∷ []) ∷ (b'e' ∷ []) ∷ [];
  selected = 4;
  rows = 2;
}

run_left : (move_left grid).selected ≡ 2
unfolding move_left
run_left = refl

run_right : (move_right grid).selected ≡ 0
unfolding move_right
run_right = refl

move_up-move_down_example :
    ((move_down grid).selected ≡ next_entry 5 4)
    × ((move_up grid).selected ≡ previous_entry 5 4)
    × (move_up (move_down grid) ≡ grid)
    × (move_down (move_up grid) ≡ grid)
move_up-move_down_example = move_up-move_down grid (omega arith) (omega arith)

-- A selection that is out of range.
abbrev shrunk : CompletionState
shrunk = record grid { selected = 9 }

moves-Shows_example :
    Shows (move_up shrunk)
    × Shows (move_down shrunk)
    × Shows (move_left shrunk)
    × Shows (move_right shrunk)
moves-Shows_example = moves-Shows shrunk (omega arith) (omega arith)
