-- ===== src/Input.antt =====
-- The decoder of key input of src/input.rs. The input is the list of the bytes to come, and its end is a
-- read that gives no byte, also within the time that an escape sequence has.
pub mod Decode
pub mod Chars
pub mod Csi
pub mod Paste
pub mod Pasted
mod Tests
use ish.Prelude.{
  ℕ, zero, suc, ◌+◌, ◌-◌, ◌*◌, ◌/◌, ◌%◌, Bool, true, false, ◌&&◌, ◌||◌, Option, none, some, List,
  [], ◌∷◌, ◌++◌, length, get_or, ltb, leb, ◌==◌, if◌then◌else◌,
}
use ish.Utf8.{Str, between}

pub data Key : Type 0 where
  char : ℕ → Key
  up : Key
  down : Key
  left : Key
  right : Key
  home : Key
  end : Key
  tab : Key
  backspace : Key
  delete : Key
  enter : Key
  escape : Key

pub record Modifiers : Type 0 where
  pub ctrl : Bool
  pub alt : Bool
  pub shift : Bool

-- `Modifiers::NONE`
abbrev pub no_mods : Modifiers
no_mods = record { ctrl = false; alt = false; shift = false }

pub record KeyEvent : Type 0 where
  pub key : Key
  pub mods : Modifiers

abbrev pub with_mods : Key → Modifiers → Option KeyEvent
with_mods k m = some (record { key = k; mods = m })

abbrev pub plain_key : Key → Option KeyEvent
plain_key k = with_mods k no_mods

abbrev pub ctrl_key : Key → Option KeyEvent
ctrl_key k = with_mods k (record no_mods { ctrl = true })

abbrev pub alt_key : ℕ → Option KeyEvent
alt_key c = with_mods (char c) (record no_mods { alt = true })

-- The reader's input and the state of a paste.
pub record InputReader : Type 0 where
  pub input : List ℕ
  pub in_paste : Bool
  pub paste_buf : Str
  pub paste_limit_hit : Bool

abbrev pub Decoded : Type 0
Decoded = Option KeyEvent × InputReader

abbrev pub at : InputReader → List ℕ → InputReader
at r bs = record r { input = bs }

unfoldable pub modifier_from_param : ℕ → Modifiers
modifier_from_param param =
    let bits = param - 1 in
    record { ctrl = bits / 4 % 2 == 1; alt = bits / 2 % 2 == 1; shift = bits % 2 == 1 }

-- The variables of the loop of `decode_csi`.
pub record CsiState : Type 0 where
  pub params : List ℕ
  pub current : ℕ
  pub has_digit : Bool
  pub invalid : Bool

-- What a byte does to the loop.
pub data CsiStep : Type 0 where
  next_byte : CsiState → CsiStep
  final_byte : List ℕ → CsiStep
  reject : CsiStep

unfoldable pub csi_digit : ℕ → CsiState → CsiState
csi_digit d st =
    if leb (st.current * 10 + d) 4294967295
    then record st { current = st.current * 10 + d; has_digit = true }
    else record st { invalid = true; has_digit = true }

unfoldable pub csi_step : ℕ → CsiState → CsiStep
unfolding csi_digit
csi_step b st =
    if between b'0' b'9' b
    then next_byte (csi_digit (b - b'0') st)
    else if b == b';'
    then next_byte (record st {
      params = st.params ++ (if st.has_digit then st.current else 0) ∷ [];
      current = 0;
      has_digit = false;
    })
    else if between 0x40 0x7E b
    then (if st.invalid
        then reject
        else final_byte (if st.has_digit then st.params ++ st.current ∷ [] else st.params))
    else reject

-- The event, and what the sequence does to the paste.
unfoldable pub tilde_key : ℕ → Modifiers → InputReader → Decoded
tilde_key param mods r =
    if param == 1 || param == 7
    then (with_mods home mods, r)
    else if param == 3
    then (with_mods delete mods, r)
    else if param == 4 || param == 8
    then (with_mods end mods, r)
    else if param == 200
    then (none, record r { in_paste = true; paste_buf = []; paste_limit_hit = false })
    else if param == 201
    then (none, record r { in_paste = false })
    else (none, r)

unfoldable pub param_mods : List ℕ → Modifiers
unfolding modifier_from_param
param_mods (a ∷ b ∷ params) = modifier_from_param b
param_mods _ = no_mods

-- The keys of one letter, also those of `decode_ss3`.
unfoldable pub letter_key : ℕ → Option Key
letter_key b =
    if b == b'A'
    then some up
    else if b == b'B'
    then some down
    else if b == b'C'
    then some right
    else if b == b'D'
    then some left
    else if b == b'H'
    then some home
    else if b == b'F'
    then some end
    else none

unfoldable pub other_key : ℕ → List ℕ → InputReader → Decoded
unfolding tilde_key param_mods
other_key b params r =
    if b == b'Z'
    then (with_mods tab (record no_mods { shift = true }), r)
    else if b == b'~'
    then tilde_key (get_or params 0 0) (param_mods params) r
    else if b == b'^' && get_or params 0 0 == 3
    then (ctrl_key delete, r)
    else (none, r)

unfoldable pub csi_to_key : ℕ → List ℕ → InputReader → Decoded
unfolding letter_key other_key param_mods
csi_to_key b params r = elim (letter_key b) [
  | some k ↦ (with_mods k (param_mods params), r)
  | none ↦ other_key b params r
]

unfoldable pub csi_loop : CsiState → InputReader → List ℕ → Decoded
unfolding csi_step csi_to_key
csi_loop st r [] = (none, at r [])
csi_loop st r (b ∷ bs) = elim (csi_step b st) [
  | next_byte next ↦ csi_loop next r bs
  | final_byte params ↦ csi_to_key b params (at r bs)
  | reject ↦ (none, at r bs)
]

abbrev pub csi_start : CsiState
csi_start = record { params = []; current = 0; has_digit = false; invalid = false }

unfoldable pub decode_csi : InputReader → Decoded
unfolding csi_loop
decode_csi r = csi_loop csi_start r (r.input)

unfoldable pub decode_ss3 : InputReader → List ℕ → Decoded
unfolding letter_key
decode_ss3 r [] = (none, at r [])
decode_ss3 r (b ∷ bs) = elim (letter_key b) [
  | some k ↦ (plain_key k, at r bs)
  | none ↦ (none, at r bs)
]

-- The arms for `b`, `f` and `d` give what the range of the printable bytes gives.
unfoldable pub decode_escape : InputReader → List ℕ → Decoded
unfolding decode_csi decode_ss3
decode_escape r [] = (plain_key escape, at r [])
decode_escape r (b ∷ bs) =
    if b == b'['
    then decode_csi (at r bs)
    else if b == b'O'
    then decode_ss3 r bs
    else if leb 0x20 b && ltb b 0x7F
    then (alt_key b, at r bs)
    else (plain_key escape, at r bs)
