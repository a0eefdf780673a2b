-- ===== src/Vars/Restore.antt =====
-- What the scopes of crates/epsh/src/var.rs restore.
use ish.Prelude.{
  ◌≡◌, refl, ◌∙◌, ap, Bool, true, false, Option, none, some, List, [], ◌∷◌, arith, if◌then◌else◌,
}
use ish.Utf8.{Str}
use ish.Vars.{
  Var, SavedVar, Scope, Bindings, Variables, done, readonly_variable, same, put, restore,
  push_scope, pop_scope, update, is_readonly,
}
use ish.Vars.Name.{if_same}
use ish.Vars.Op.{
  Op, assign, assign_int, remove, mark_export, declared, mark_unexport, mark_readonly, local, after,
  step, run,
}

abbrev pub is_local : Str → Op → Bool
is_local name (local n) = same n name
is_local name _ = false

-- The binding of `name` when it is first made local.
abbrev pub first_local : Str → List Op → Variables → Option (Option Var)
first_local name [] v = none
first_local name (op ∷ ops) v =
    let rest = first_local name ops (step op v) in
    if is_local name op then some (v.vars name) else rest

abbrev pub or_else {ℓ} : {A : Type ℓ} → Option A → A → A
or_else none b = b
or_else (some a) b = a

abbrev first_of : {A : Type 0} → Option A → Option A → Option A
first_of none o = o
first_of (some a) o = some a

-- The oldest binding saved for `name`.
abbrev oldest : Str → List SavedVar → Option (Option Var)
oldest name [] = none
oldest name (s ∷ saved) =
    first_of (oldest name saved) (if same s.name name then some s.previous else none)

restored :
    (o : Option (Option Var)) (b : Bool) (prev old : Option Var)
    → or_else o (if b then prev else old) ≡ or_else (first_of o (if b then some prev else none)) old
restored none true prev old = refl
restored none false prev old = refl
restored (some a) b prev old = refl

restore-oldest :
    (name : Str) (saved : List SavedVar) (vars : Bindings)
    → restore saved vars name ≡ or_else (oldest name saved) (vars name)
unfolding restore
restore-oldest name [] vars = refl
restore-oldest name (s ∷ saved) vars =
    restore-oldest name saved (put s.name s.previous vars)
    ∙ restored (oldest name saved) (same s.name name) s.previous (vars name)

unless_readonly :
    (b : Bool) (v w : Variables)
    → w.scopes ≡ v.scopes
    → (after (if b then readonly_variable v else done w)).scopes ≡ v.scopes
unless_readonly true v w h = refl
unless_readonly false v w h = h

first_of_assoc :
    {A : Type 0} (a b c : Option A) → first_of (first_of a b) c ≡ first_of a (first_of b c)
first_of_assoc none b c = refl
first_of_assoc (some a) b c = refl

first_of_if :
    (b : Bool) (x : Option Var) (o : Option (Option Var))
    → first_of (if b then some x else none) o ≡ (if b then some x else o)
first_of_if true x o = refl
first_of_if false x o = refl

-- What a run makes of the newest scope, and of the others.
record Saves (name : Str) (scope : Scope) (scopes : List Scope) (seen : Option (Option Var))
    (v : Variables) : Type 0 where
  top : Scope
  scopes_kept : v.scopes ≡ top ∷ scopes
  oldest_kept : oldest name top.saved ≡ first_of (oldest name scope.saved) seen

abbrev local_at : Str → Op → Variables → Option (Option Var)
local_at name op v = if is_local name op then some (v.vars name) else none

first_of-none : {A : Type 0} (o : Option A) → o ≡ first_of o none
first_of-none none = refl
first_of-none (some a) = refl

-- A step that leaves the scopes alone saves nothing.
untouched :
    (name : Str) (v : Variables) (scope : Scope) (scopes : List Scope)
    → v.scopes ≡ scope ∷ scopes
    → (w : Variables) → w.scopes ≡ v.scopes
    → Saves name scope scopes none w
untouched name v scope scopes h w k = record {
  top = scope;
  scopes_kept = k ∙ h;
  oldest_kept = first_of-none _;
}

abbrev add_saved : Scope → SavedVar → Scope
add_saved scope s = record { saved = s ∷ scope.saved }

same_oldest :
    (name : Str) (a b : Scope) (xs ys : List Scope)
    → a ∷ xs ≡ b ∷ ys
    → oldest name a.saved ≡ oldest name b.saved
same_oldest name a b xs ys h = cc

same_rest : (a b : Scope) (xs ys : List Scope) → a ∷ xs ≡ b ∷ ys → xs ≡ ys
same_rest a b xs ys h = cc

made_local :
    (name n : Str) (v : Variables) (scope : Scope) (scopes ss : List Scope)
    → ss ≡ scope ∷ scopes
    → Saves name scope scopes (local_at name (local n) v) (elim ss [
      | [] ↦ v
      | sc ∷ scs ↦ record v {
        scopes = record { saved = record { name = n; previous = v.vars n } ∷ sc.saved } ∷ scs;
      }
    ])
made_local name n v scope scopes [] h = absurd (ground arith)
made_local name n v scope scopes (sc ∷ scs) h = record {
  top = add_saved sc (record { name = n; previous = v.vars n });
  scopes_kept =
      ap (λ more. add_saved sc (record { name = n; previous = v.vars n }) ∷ more)
        (same_rest sc scope scs scopes h);
  oldest_kept =
      ap (first_of (oldest name sc.saved)) (if_same v.vars some n name none)
      ∙ ap (λ old. first_of old (local_at name (local n) v))
          (same_oldest name sc scope scs scopes h);
}

abbrev scopes_of : Variables → List Scope
scopes_of v = v.scopes

unexported :
    (v : Variables) (name : Str) (o : Option Var)
    → scopes_of (elim o [
      | none ↦ v
      | some x ↦ update v name (some (record x { flags = record x.flags { export = false } }))
    ])
      ≡ v.scopes
unfolding update
unexported v name none = refl
unexported v name (some x) = refl

step-Saves :
    (name : Str) (op : Op) (v : Variables) (scope : Scope) (scopes : List Scope)
    → v.scopes ≡ scope ∷ scopes
    → Saves name scope scopes (local_at name op v) (step op v)
unfolding step
step-Saves name (assign n value) v sc scs h =
    untouched name v sc scs h _ (unless_readonly (is_readonly (v.vars n)) v _ refl)
step-Saves name (assign_int n i) v sc scs h =
    untouched name v sc scs h _ (unless_readonly (is_readonly (v.vars n)) v _ refl)
step-Saves name (remove n) v sc scs h =
    untouched name v sc scs h _ (unless_readonly (is_readonly (v.vars n)) v _ refl)
step-Saves name (mark_export n) v sc scs h = untouched name v sc scs h _ refl
step-Saves name (declared n) v sc scs h = untouched name v sc scs h _ refl
step-Saves name (mark_unexport n) v sc scs h =
    untouched name v sc scs h _ (unexported v n (v.vars n))
step-Saves name (mark_readonly n) v sc scs h = untouched name v sc scs h _ refl
step-Saves name (local n) v sc scs h = made_local name n v sc scs v.scopes h

run-Saves :
    (name : Str) (ops : List Op) (v : Variables) (scope : Scope) (scopes : List Scope)
    → v.scopes ≡ scope ∷ scopes
    → Saves name scope scopes (first_local name ops v) (run ops v)
unfolding run
run-Saves name [] v scope scopes h = untouched name v scope scopes h v refl
run-Saves name (op ∷ ops) v scope scopes h =
    let one = step-Saves name op v scope scopes h in
    let more = run-Saves name ops (step op v) one.top scopes one.scopes_kept in
    record {
      top = more.top;
      scopes_kept = more.scopes_kept;
      oldest_kept =
          more.oldest_kept
          ∙ ap (λ old. first_of old (first_local name ops (step op v))) one.oldest_kept
          ∙ first_of_assoc (oldest name scope.saved) (local_at name op v) _
          ∙ ap (first_of (oldest name scope.saved))
              (first_of_if (is_local name op) (v.vars name) _);
    }

abbrev pub in_scope : List Op → Variables → Variables
in_scope ops v = run ops (push_scope v)

abbrev pub pop_from : Variables → List Scope → Variables
pop_from v [] = v
pop_from v (scope ∷ scopes) = record v { scopes = scopes; vars = restore scope.saved v.vars }

pop_scope-pop_from : (v : Variables) (ss : List Scope) → v.scopes ≡ ss → pop_scope v ≡ pop_from v ss
unfolding pop_scope
pop_scope-pop_from v ss h = ap (pop_from v) h

-- When a body has run in a scope of its own and the scope is popped, a name that the body made local has
-- the binding again, with value and flags, that it had when the body first made it local; any other name
-- keeps what the body left.
pub pop_scope-run :
    (v : Variables) (ops : List Op) (name : Str)
    → (pop_scope (in_scope ops v)).vars name
      ≡ or_else (first_local name ops (push_scope v)) ((in_scope ops v).vars name)
unfolding push_scope
pop_scope-run v ops name =
    let saves = run-Saves name ops (push_scope v) (record { saved = [] }) v.scopes refl in
    let w = in_scope ops v in
    ap (λ x. x.vars name) (pop_scope-pop_from w _ saves.scopes_kept)
    ∙ restore-oldest name saves.top.saved w.vars
    ∙ ap (λ o. or_else o (w.vars name)) saves.oldest_kept

-- Popping the scope in which a body has run leaves the scopes as they were before it was pushed.
pub pop_scope-scopes :
    (v : Variables) (ops : List Op) → (pop_scope (in_scope ops v)).scopes ≡ v.scopes
unfolding push_scope
pop_scope-scopes v ops =
    let saves = run-Saves [] ops (push_scope v) (record { saved = [] }) v.scopes refl in
    ap scopes_of (pop_scope-pop_from (in_scope ops v) _ saves.scopes_kept)
