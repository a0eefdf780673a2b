-- ===== src/Input/Chars.antt =====
-- What `decode_key` of src/input.rs makes of a typed character.
use ish.Prelude.{
  ℕ, suc, ◌+◌, ◌*◌, ◌/◌, ◌%◌, ◌≤◌, ◌<◌, ◌≡◌, ◌≢◌, refl, ap, ◌∙◌, true, ◌&&◌, Option, none, some,
  List, ◌∷◌, ◌++◌, ltb, leb, arith, Bool-cases, if_on, inl, inr,
}
use ish.Utf8.{encode, between, is_continuation}
use ish.Utf8.Decode.{is_scalar, scalar_bound}
use ish.Input.{char, KeyEvent, plain_key, InputReader, Decoded, at}
use ish.Input.Decode.{continue_char, from_u32, decode_utf8, decode_byte, decode_next, decode_key}

decode_byte-high : (b : ℕ) (r : InputReader) → 0x80 ≤ b → decode_byte b r ≡ decode_utf8 b r
unfolding decode_byte
decode_byte-high b r h = ground arith

decode_byte-printable :
    (b : ℕ) (r : InputReader) → 0x20 ≤ b → b < 0x7F → decode_byte b r ≡ (plain_key (char b), r)
unfolding decode_byte
decode_byte-printable b r h k = ground arith

continue_char-next :
    (n cp x y : ℕ) (bs : List ℕ)
    → x < 64
    → cp * 64 + x ≡ y
    → continue_char (suc n) cp ((0x80 + x) ∷ bs) ≡ continue_char n y bs
unfolding continue_char is_continuation
continue_char-next n cp x y bs h e =
    if_on (leb 0x80 (0x80 + x) && ltb (0x80 + x) 0xC0) _ _ (ground arith)
    ∙ ap (λ c. continue_char n c bs) (omega arith)

-- What the code makes of the value and the rest.
abbrev event_of : InputReader → Option ℕ × List ℕ → Decoded
event_of r o = (from_u32 (o.0), at r (o.1))

abbrev with_input : InputReader → List ℕ → Option KeyEvent → Decoded
with_input r rest k = (k, at r rest)

event_of-scalar :
    (r : InputReader) (o : Option ℕ × List ℕ) (c : ℕ) (rest : List ℕ)
    → o ≡ (some c, rest)
    → is_scalar c ≡ true
    → event_of r o ≡ (plain_key (char c), at r rest)
unfolding from_u32
event_of-scalar r o c rest e s =
    ap (event_of r) e ∙ ap (with_input r rest) (if_on (is_scalar c) (plain_key (char c)) none s)

decode_two :
    (b : ℕ) (r : InputReader)
    → 0xC0 ≤ b
    → b < 0xE0
    → decode_byte b r ≡ event_of r (continue_char 1 (b % 32) (r.input))
unfolding decode_utf8
decode_two b r h k =
    decode_byte-high b r (omega arith) ∙ if_on (between 0xC0 0xDF b) _ _ (ground arith)

decode_three :
    (b : ℕ) (r : InputReader)
    → 0xE0 ≤ b
    → b < 0xF0
    → decode_byte b r ≡ event_of r (continue_char 2 (b % 16) (r.input))
unfolding decode_utf8
decode_three b r h k = decode_byte-high b r (omega arith) ∙ ground arith

decode_four :
    (b : ℕ) (r : InputReader)
    → 0xF0 ≤ b
    → b < 0xF8
    → decode_byte b r ≡ event_of r (continue_char 3 (b % 8) (r.input))
unfolding decode_utf8
decode_four b r h k = decode_byte-high b r (omega arith) ∙ ground arith

module _ (r : InputReader) (c : ℕ) (rest : List ℕ) (s : is_scalar c ≡ true) where
  abbrev last_byte : List ℕ
  last_byte = (0x80 + c % 64) ∷ rest

  abbrev last_two : List ℕ
  last_two = (0x80 + c / 64 % 64) ∷ last_byte

  abbrev last_three : List ℕ
  last_three = (0x80 + c / 4096 % 64) ∷ last_two

  -- The values as the bytes are read.
  with_last : (cp : ℕ) → cp ≡ c / 64 → continue_char 1 cp last_byte ≡ (some c, rest)
  unfolding continue_char
  with_last cp e = continue_char-next 0 cp (c % 64) c rest (omega arith) (omega arith)

  with_two : (cp : ℕ) → cp ≡ c / 4096 → continue_char 2 cp last_two ≡ (some c, rest)
  with_two cp e =
      continue_char-next 1 cp (c / 64 % 64) (c / 64) last_byte (omega arith) (omega arith)
      ∙ with_last (c / 64) refl

  with_three : (cp : ℕ) → cp ≡ c / 262144 → continue_char 3 cp last_three ≡ (some c, rest)
  with_three cp e =
      continue_char-next 2 cp (c / 4096 % 64) (c / 4096) last_two (omega arith) (omega arith)
      ∙ with_two (c / 4096) refl

  two_read :
      0x80 ≤ c
      → c < 0x800
      → decode_byte (0xC0 + c / 64) (at r last_byte) ≡ (plain_key (char c), at r rest)
  two_read h k =
      decode_two (0xC0 + c / 64) (at r last_byte) (omega arith) (omega arith)
      ∙ event_of-scalar r _ c rest (with_last ((0xC0 + c / 64) % 32) (omega arith)) s

  three_read :
      0x800 ≤ c
      → c < 0x10000
      → decode_byte (0xE0 + c / 4096) (at r last_two) ≡ (plain_key (char c), at r rest)
  three_read h k =
      decode_three (0xE0 + c / 4096) (at r last_two) (omega arith) (omega arith)
      ∙ event_of-scalar r _ c rest (with_two ((0xE0 + c / 4096) % 16) (omega arith)) s

  four_read :
      0x10000 ≤ c
      → decode_byte (0xF0 + c / 262144) (at r last_three) ≡ (plain_key (char c), at r rest)
  four_read h =
      let bound = scalar_bound c s in
      decode_four (0xF0 + c / 262144) (at r last_three) (omega arith) (omega arith)
      ∙ event_of-scalar r _ c rest (with_three ((0xF0 + c / 262144) % 8) (omega arith)) s

-- The bytes of every character but the control characters below U+0080 are read as that character, and
-- what stands behind them is left.
pub decode_key-encode :
    (r : InputReader) (c : ℕ) (rest : List ℕ)
    → is_scalar c ≡ true
    → 0x20 ≤ c
    → c ≢ 0x7F
    → decode_key (at r (encode c ++ rest)) ≡ (plain_key (char c), at r rest)
unfolding decode_key decode_next encode
decode_key-encode r c rest s h k = elim (Bool-cases (ltb c 0x80)) [
  | inl e ↦ rw e (decode_byte-printable c (at r rest) h (ground arith))
  | inr e ↦ rw e (elim (Bool-cases (ltb c 0x800)) [
    | inl d ↦ rw d (two_read r c rest s (ground arith) (ground arith))
    | inr d ↦ rw d (elim (Bool-cases (ltb c 0x10000)) [
      | inl b ↦ rw b (three_read r c rest s (ground arith) (ground arith))
      | inr b ↦ rw b (four_read r c rest s (ground arith))
    ])
  ])
]
