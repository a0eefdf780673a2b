-- ===== src/Input/Decode.antt =====
-- `decode_key` and `decode_utf8` of src/input.rs.
use ish.Prelude.{
  ℕ, zero, suc, ◌+◌, ◌-◌, ◌*◌, ◌%◌, ◌||◌, Option, none, some, List, [], ◌∷◌, ltb, ◌==◌,
  if◌then◌else◌,
}
use ish.Utf8.{between, is_continuation}
use ish.Utf8.Decode.{is_scalar}
use ish.Input.{
  char, tab, backspace, enter, KeyEvent, plain_key, ctrl_key, InputReader, Decoded, at,
  decode_escape,
}

-- The loop of `decode_utf8` over the bytes behind the first, and what it leaves.
unfoldable pub continue_char : ℕ → ℕ → List ℕ → Option ℕ × List ℕ
unfolding is_continuation
continue_char zero cp bs = (some cp, bs)
continue_char (suc n) cp [] = (none, [])
continue_char (suc n) cp (b ∷ bs) =
    let rest = continue_char n (cp * 64 + b % 64) bs in
    if is_continuation b then rest else (none, bs)

-- `char::from_u32`
unfoldable pub from_u32 : Option ℕ → Option KeyEvent
unfolding is_scalar
from_u32 none = none
from_u32 (some cp) = if is_scalar cp then plain_key (char cp) else none

unfoldable pub decode_utf8 : ℕ → InputReader → Decoded
unfolding continue_char from_u32
decode_utf8 first r =
    if between 0xC0 0xDF first
    then (let c = continue_char 1 (first % 32) (r.input) in (from_u32 (c.0), at r (c.1)))
    else if between 0xE0 0xEF first
    then (let c = continue_char 2 (first % 16) (r.input) in (from_u32 (c.0), at r (c.1)))
    else if between 0xF0 0xF7 first
    then (let c = continue_char 3 (first % 8) (r.input) in (from_u32 (c.0), at r (c.1)))
    else (none, r)

-- The byte is read; the arms are tried in order.
unfoldable pub decode_byte : ℕ → InputReader → Decoded
unfolding decode_escape decode_utf8
decode_byte b r =
    if b == 0
    then (none, r)
    else if b == 0x08
    then (ctrl_key backspace, r)
    else if b == 0x09
    then (plain_key tab, r)
    else if b == 0x0A || b == 0x0D
    then (plain_key enter, r)
    else if b == 0x1B
    then decode_escape r (r.input)
    else if b == 0x7F
    then (plain_key backspace, r)
    else if between 0x01 0x1A b
    then (ctrl_key (char (b - 1 + b'a')), r)
    else if ltb b 0x20
    then (none, r)
    else if ltb b 0x80
    then (plain_key (char b), r)
    else decode_utf8 b r

unfoldable pub decode_next : InputReader → List ℕ → Decoded
unfolding decode_byte
decode_next r [] = (none, r)
decode_next r (b ∷ bs) = decode_byte b (at r bs)

unfoldable pub decode_key : InputReader → Decoded
unfolding decode_next
decode_key r = decode_next r (r.input)
