-- ===== src/Vars/Tests.antt =====
-- The variables of crates/epsh/src/var.rs in a function that makes one local, and with one readonly.
use ish.Prelude.{ℕ, ◌<◌, arith, ◌≡◌, refl, some, List, [], ◌∷◌}
use ish.Utf8.{Str}
use ish.Vars.{Variables, new_clean, pop_scope, push_scope, set_int, set_bytes, int_string}
use ish.Vars.Op.{Op, assign, assign_int, remove, local, mark_readonly, run}
use ish.Int64.{modulus}
use ish.Vars.Integer.{set_int-set_bytes}
use ish.Vars.Restore.{in_scope, first_local, or_else, pop_scope-run, pop_scope-scopes}
use ish.Vars.Readonly.{Locked, run-Locked}

abbrev x : Str
x = b'x' ∷ []

-- x=5, and a body that makes it local, assigns it and a global y.
abbrev before : Variables
before = run (assign x (b'5' ∷ []) ∷ []) new_clean

abbrev body : List Op
body = local x ∷ assign_int x 7 ∷ assign (b'y' ∷ []) x ∷ local x ∷ remove x ∷ []

pop_scope-run_example :
    (pop_scope (in_scope body before)).vars x
    ≡ or_else (first_local x body (push_scope before)) ((in_scope body before).vars x)
pop_scope-run_example = pop_scope-run before body x

pop_scope-scopes_example : (pop_scope (in_scope body before)).scopes ≡ before.scopes
pop_scope-scopes_example = pop_scope-scopes before body

-- The value is back.
restored : (pop_scope (in_scope body before)).vars x ≡ before.vars x
unfolding pop_scope run push_scope new_clean
restored = refl

abbrev locked : Variables
locked = run (assign x (b'5' ∷ []) ∷ mark_readonly x ∷ []) new_clean

lock_holds : Locked (some (b'5' ∷ [])) (some 5) (locked.vars x)
unfolding run new_clean
lock_holds = (refl, refl, refl)

run-Locked_example : Locked (some (b'5' ∷ [])) (some 5) ((run body locked).vars x)
run-Locked_example = run-Locked (some (b'5' ∷ [])) (some 5) body locked x lock_holds

-- The pattern of -7.
abbrev minus_seven : ℕ
minus_seven = 18446744073709551609

minus_seven-fits : minus_seven < modulus
minus_seven-fits = omega arith

set_int-set_bytes_example :
    set_int before x minus_seven ≡ set_bytes before x (int_string minus_seven)
set_int-set_bytes_example = set_int-set_bytes before x minus_seven minus_seven-fits
