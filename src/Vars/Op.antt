-- ===== src/Vars/Op.antt =====
-- The changes that the body of a function can make to the variables of crates/epsh/src/var.rs, one after
-- the other. An error leaves the variables as they are, and the body goes on.
use ish.Prelude.{ℕ, List, [], ◌∷◌}
use ish.Utf8.{Str}
use ish.Vars.{
  Variables, Result, done, readonly_variable, set_bytes, set_int, unset, export, declare, unexport,
  set_readonly, make_local,
}

pub data Op : Type 0 where
  assign : Str → Str → Op
  assign_int : Str → ℕ → Op
  remove : Str → Op
  mark_export : Str → Op
  declared : Str → Op
  mark_unexport : Str → Op
  mark_readonly : Str → Op
  local : Str → Op

abbrev pub after : Result → Variables
after (done v) = v
after (readonly_variable v) = v

unfoldable pub step : Op → Variables → Variables
unfolding set_bytes set_int unset export declare unexport set_readonly make_local
step (assign name value) v = after (set_bytes v name value)
step (assign_int name n) v = after (set_int v name n)
step (remove name) v = after (unset v name)
step (mark_export name) v = export v name
step (declared name) v = declare v name
step (mark_unexport name) v = unexport v name
step (mark_readonly name) v = set_readonly v name
step (local name) v = make_local v name

unfoldable pub run : List Op → Variables → Variables
unfolding step
run [] v = v
run (op ∷ ops) v = run ops (step op v)
