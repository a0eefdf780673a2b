-- ===== src/Vars.antt =====
-- crates/epsh/src/var.rs: the variables of the shell, with their flags and scopes. The map is a function
-- of the name, so what lists its entries (`bindings_bytes` and the environment of a command) is left out.
-- A name and a value are their bytes; a list that the source pushes to has its newest element first.
pub mod Op
pub mod Name
pub mod Restore
pub mod Readonly
pub mod Integer
mod Tests
use ish.Prelude.{
  ℕ, zero, suc, ◌+◌, ◌-◌, ◌*◌, ◌/◌, ◌%◌, Bool, true, false, ◌&&◌, Option, none, some, List, [], ◌∷◌,
  ltb, leb, ◌==◌, if◌then◌else◌, ◌>>=◌,
}
use ish.Utf8.{Str, between}
use ish.Int64.{min_value, modulus, is_negative, unsigned_abs}

-- The two bits of the source's `u8`.
pub record VarFlags : Type 0 where
  pub export : Bool
  pub readonly : Bool

abbrev pub no_flags : VarFlags
no_flags = record { export = false; readonly = false }

unfoldable pub is_digit : ℕ → Bool
is_digit c = between b'0' b'9' c

unfoldable pub unsigned : ℕ → Str → Option ℕ
unfolding is_digit
unsigned acc [] = some acc
unsigned acc (c ∷ s) =
    let next = unsigned (acc * 10 + (c - b'0')) s in if is_digit c then next else none

unfoldable pub within : ℕ → Option ℕ → Option ℕ
within bound none = none
within bound (some n) = if leb n bound then some n else none

abbrev negated : Option ℕ → Option ℕ
negated o = o >>= λ n. some ((modulus - n) % modulus)

-- The standard `parse::<i64>`: a sign or none, and digits, in range.
unfoldable pub parse_int : Str → Option ℕ
unfolding unsigned within
parse_int [] = none
parse_int (c ∷ []) = within (min_value - 1) (unsigned 0 (c ∷ []))
parse_int (c ∷ d ∷ s) =
    if c == b'-'
    then negated (within min_value (unsigned 0 (d ∷ s)))
    else if c == b'+'
    then within (min_value - 1) (unsigned 0 (d ∷ s))
    else within (min_value - 1) (unsigned 0 (c ∷ d ∷ s))

-- The decimal digits of a number, before `acc`; twenty are enough for 64 bits.
unfoldable pub digits : ℕ → ℕ → Str → Str
digits zero n acc = acc
digits (suc f) n acc =
    let more = digits f (n / 10) ((b'0' + n % 10) ∷ acc) in
    if ltb n 10 then (b'0' + n) ∷ acc else more

-- The standard `to_string` of an i64.
unfoldable pub int_string : ℕ → Str
unfolding digits is_negative unsigned_abs
int_string n = if is_negative n then b'-' ∷ digits 20 (unsigned_abs n) [] else digits 20 n []

-- A value that is no UTF-8 has a byte that is no digit, and so no integer either.
unfoldable pub int_cache : Option Str → Option ℕ
unfolding parse_int
int_cache value = value >>= parse_int

pub record Var : Type 0 where
  pub value : Option Str
  pub flags : VarFlags
  pub cached : Option ℕ

unfoldable pub Var_new : Option Str → VarFlags → Var
unfolding int_cache
Var_new value flags = record { value = value; flags = flags; cached = int_cache value }

pub record SavedVar : Type 0 where
  pub name : Str
  pub previous : Option Var

pub record Scope : Type 0 where
  pub saved : List SavedVar

abbrev pub Bindings : Type 0
Bindings = Str → Option Var

pub record Variables : Type 0 where
  pub vars : Bindings
  pub inherited_env : List (Str × Str)
  pub scopes : List Scope
  pub positional : List Str
  pub arg0 : Str

unfoldable pub same : Str → Str → Bool
same [] [] = true
same (a ∷ s) (b ∷ t) = a == b && same s t
same _ _ = false

-- `insert` and `remove` of the map.
unfoldable pub put : Str → Option Var → Bindings → Bindings
unfolding same
put name var vars other = if same name other then var else vars other

unfoldable pub update : Variables → Str → Option Var → Variables
unfolding put
update v name var = record v { vars = put name var v.vars }

unfoldable pub new_clean : Variables
unfolding put Var_new
new_clean = record {
  vars =
      put (b'I' ∷ b'F' ∷ b'S' ∷ []) (some (Var_new (some (32 ∷ 9 ∷ 10 ∷ [])) no_flags)) (λ _. none);
  inherited_env = [];
  scopes = [];
  positional = [];
  arg0 = b'e' ∷ b'p' ∷ b's' ∷ b'h' ∷ [];
}

unfoldable pub get_bytes : Variables → Str → Option Str
get_bytes v name = v.vars name >>= λ x. x.value

unfoldable pub get_int : Variables → Str → Option ℕ
get_int v name = v.vars name >>= λ x. x.cached

abbrev pub binding : Variables → Str → Option Var
binding v name = v.vars name

unfoldable pub is_readonly : Option Var → Bool
is_readonly none = false
is_readonly (some x) = x.flags.readonly

-- The binding that `or_insert_with` gives: the old one, or an unset one.
unfoldable pub entry : Option Var → Var
unfolding Var_new
entry none = Var_new none no_flags
entry (some x) = x

pub data Result : Type 0 where
  done : Variables → Result
  readonly_variable : Variables → Result

unfoldable pub set_bytes : Variables → Str → Str → Result
unfolding is_readonly entry int_cache update
set_bytes v name value =
    if is_readonly (v.vars name)
    then readonly_variable v
    else done (
        update v name (
          some
            (record (entry (v.vars name)) { cached = int_cache (some value); value = some value })))

unfoldable pub set_int : Variables → Str → ℕ → Result
unfolding is_readonly entry int_string update
set_int v name n =
    if is_readonly (v.vars name)
    then readonly_variable v
    else done (
        update v name
          (some (record (entry (v.vars name)) { cached = some n; value = some (int_string n) })))

unfoldable pub unset : Variables → Str → Result
unfolding is_readonly update
unset v name = if is_readonly (v.vars name) then readonly_variable v else done (update v name none)

abbrev flagged : Var → VarFlags → Var
flagged x flags = record x { flags = flags }

unfoldable pub export : Variables → Str → Variables
unfolding entry update
export v name =
    let x = entry (v.vars name) in
    update v name (some (flagged x (record x.flags { export = true })))

unfoldable pub declare : Variables → Str → Variables
unfolding entry update
declare v name = update v name (some (entry (v.vars name)))

unfoldable pub unexport : Variables → Str → Variables
unfolding update
unexport v name = elim (v.vars name) [
  | none ↦ v
  | some x ↦ update v name (some (flagged x (record x.flags { export = false })))
]

unfoldable pub set_readonly : Variables → Str → Variables
unfolding entry update
set_readonly v name =
    let x = entry (v.vars name) in
    update v name (some (flagged x (record x.flags { readonly = true })))

unfoldable pub push_scope : Variables → Variables
push_scope v = record v { scopes = record { saved = [] } ∷ v.scopes }

-- The saved bindings are put back from the newest to the oldest.
unfoldable pub restore : List SavedVar → Bindings → Bindings
unfolding put
restore [] vars = vars
restore (s ∷ saved) vars = restore saved (put s.name s.previous vars)

unfoldable pub pop_scope : Variables → Variables
unfolding restore
pop_scope v = elim v.scopes [
  | [] ↦ v
  | scope ∷ scopes ↦ record v { scopes = scopes; vars = restore scope.saved v.vars }
]

unfoldable pub make_local : Variables → Str → Variables
make_local v name = elim v.scopes [
  | [] ↦ v
  | scope ∷ scopes ↦ record v {
    scopes =
        record { saved = record { name = name; previous = v.vars name } ∷ scope.saved } ∷ scopes;
  }
]
