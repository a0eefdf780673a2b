-- ===== src/Utf8/Decode.antt =====
-- `str::from_utf8` of the standard library: the only bytes it takes are those of the encodings of scalar
-- values, none longer than it needs to be.
use ish.Prelude.{
  ℕ, zero, suc, ◌+◌, ◌-◌, ◌*◌, ◌/◌, ◌%◌, ◌≤◌, ◌<◌, ◌≡◌, refl, ap, ◌∙◌, Bool, true, ◌&&◌, ◌||◌,
  Option, none, some, List, [], ◌∷◌, ◌++◌, length, length-append, All, ltb, leb, if◌then◌else◌,
  ◌>>=◌, arith, Bool-cases, inl, inr,
}
use ish.Utf8.{Str, encode, bytes, is_continuation}

-- `char::from_u32` takes these.
unfoldable pub is_scalar : ℕ → Bool
is_scalar c = ltb c 0xD800 || (leb 0xE000 c && ltb c 0x110000)

unfoldable pub two_bytes : ℕ → List ℕ → Option (ℕ × List ℕ)
unfolding is_continuation
two_bytes a [] = none
two_bytes a (b ∷ rest) =
    let c = (a - 0xC0) * 64 + (b - 0x80) in
    if is_continuation b && leb 0x80 c then some (c, rest) else none

unfoldable pub three_bytes : ℕ → List ℕ → Option (ℕ × List ℕ)
unfolding is_continuation is_scalar
three_bytes a (b ∷ c ∷ rest) =
    let d = (a - 0xE0) * 4096 + (b - 0x80) * 64 + (c - 0x80) in
    if is_continuation b && is_continuation c && (leb 0x800 d && is_scalar d)
    then some (d, rest)
    else none
three_bytes a _ = none

unfoldable pub four_bytes : ℕ → List ℕ → Option (ℕ × List ℕ)
unfolding is_continuation is_scalar
four_bytes a (b ∷ c ∷ d ∷ rest) =
    let e = (a - 0xF0) * 262144 + (b - 0x80) * 4096 + (c - 0x80) * 64 + (d - 0x80) in
    if is_continuation b && is_continuation c && is_continuation d && (leb 0x10000 e && is_scalar e)
    then some (e, rest)
    else none
four_bytes a _ = none

-- One character off the front.
unfoldable pub decode_char : List ℕ → Option (ℕ × List ℕ)
unfolding two_bytes three_bytes four_bytes
decode_char [] = none
decode_char (a ∷ rest) =
    if ltb a 0x80
    then some (a, rest)
    else if ltb a 0xC0
    then none
    else if ltb a 0xE0
    then two_bytes a rest
    else if ltb a 0xF0
    then three_bytes a rest
    else if ltb a 0xF8
    then four_bytes a rest
    else none

unfoldable pub decode_chars : ℕ → List ℕ → Option Str
unfolding decode_char
decode_chars f [] = some []
decode_chars zero (a ∷ rest) = none
decode_chars (suc f) (a ∷ rest) =
    decode_char (a ∷ rest) >>= λ step. decode_chars f (step.1) >>= λ s. some (step.0 ∷ s)

unfoldable pub from_utf8 : List ℕ → Option Str
unfolding decode_chars
from_utf8 bs = decode_chars (length bs) bs

two_bytes-encode :
    (c : ℕ) (rest : List ℕ)
    → 0x80 ≤ c
    → c < 0x800
    → two_bytes (0xC0 + c / 64) ((0x80 + c % 64) ∷ rest) ≡ some (c, rest)
unfolding two_bytes is_continuation
two_bytes-encode c rest h k =
    let same_char : (0xC0 + c / 64 - 0xC0) * 64 + (0x80 + c % 64 - 0x80) ≡ c = omega arith in
    rw same_char (ground arith)

three_bytes-encode :
    (c : ℕ) (rest : List ℕ)
    → 0x800 ≤ c
    → c < 0x10000
    → is_scalar c ≡ true
    → three_bytes (0xE0 + c / 4096) ((0x80 + c / 64 % 64) ∷ (0x80 + c % 64) ∷ rest) ≡ some (c, rest)
unfolding three_bytes is_continuation is_scalar
three_bytes-encode c rest h k s =
    let same_char : (0xE0 + c / 4096 - 0xE0) * 4096
          + (0x80 + c / 64 % 64 - 0x80) * 64
          + (0x80 + c % 64 - 0x80)
        ≡ c =
      omega arith in
    rw (same_char, s) (ground arith)

four_bytes-encode :
    (c : ℕ) (rest : List ℕ)
    → 0x10000 ≤ c
    → is_scalar c ≡ true
    → four_bytes
        (0xF0 + c / 262144)
        ((0x80 + c / 4096 % 64) ∷ (0x80 + c / 64 % 64) ∷ (0x80 + c % 64) ∷ rest)
      ≡ some (c, rest)
unfolding four_bytes is_continuation is_scalar
four_bytes-encode c rest h s =
    let same_char : (0xF0 + c / 262144 - 0xF0) * 262144
          + (0x80 + c / 4096 % 64 - 0x80) * 4096
          + (0x80 + c / 64 % 64 - 0x80) * 64
          + (0x80 + c % 64 - 0x80)
        ≡ c =
      omega arith in
    rw (same_char, s) (ground arith)

pub scalar_bound : (c : ℕ) → is_scalar c ≡ true → c < 0x110000
unfolding is_scalar
scalar_bound c h = ground arith

decode_one : (c : ℕ) (rest : List ℕ) → ltb c 0x80 ≡ true → decode_char (c ∷ rest) ≡ some (c, rest)
unfolding decode_char
decode_one c rest e = rw e refl

decode_two :
    (a : ℕ) (rest : List ℕ) → 0xC0 ≤ a → a < 0xE0 → decode_char (a ∷ rest) ≡ two_bytes a rest
unfolding decode_char
decode_two a rest h k = ground arith

decode_three :
    (a : ℕ) (rest : List ℕ) → 0xE0 ≤ a → a < 0xF0 → decode_char (a ∷ rest) ≡ three_bytes a rest
unfolding decode_char
decode_three a rest h k = ground arith

decode_four :
    (a : ℕ) (rest : List ℕ) → 0xF0 ≤ a → a < 0xF8 → decode_char (a ∷ rest) ≡ four_bytes a rest
unfolding decode_char
decode_four a rest h k = ground arith

pub decode_char-encode :
    (c : ℕ) (rest : List ℕ) → is_scalar c ≡ true → decode_char (encode c ++ rest) ≡ some (c, rest)
unfolding encode
decode_char-encode c rest s = elim (Bool-cases (ltb c 0x80)) [
  | inl e ↦ rw e (decode_one c rest e)
  | inr e ↦ rw e (elim (Bool-cases (ltb c 0x800)) [
    | inl d ↦ rw d (
        decode_two _ _ (omega arith) (ground arith)
        ∙ two_bytes-encode c rest (ground arith) (ground arith))
    | inr d ↦ rw d (elim (Bool-cases (ltb c 0x10000)) [
      | inl b ↦ rw b (
          decode_three _ _ (omega arith) (ground arith)
          ∙ three_bytes-encode c rest (ground arith) (ground arith) s)
      | inr b ↦ rw b (
          decode_four _ _ (omega arith) (omega (arith, scalar_bound c s))
          ∙ four_bytes-encode c rest (ground arith) s)
    ])
  ])
]

abbrev pub Scalars : Str → Type 0
Scalars s = All (λ c. is_scalar c ≡ true) s

-- An encoding has a byte.
pub length-encode : (c : ℕ) → 1 ≤ length (encode c)
unfolding encode
length-encode c = ground arith

decode_step :
    (f : ℕ) (bs : List ℕ) (c : ℕ) (rest : List ℕ)
    → decode_char bs ≡ some (c, rest)
    → decode_chars (suc f) bs ≡ (decode_chars f rest >>= λ s. some (c ∷ s))
unfolding decode_chars decode_char
decode_step f [] c rest h = cc
decode_step f (a ∷ bs) c rest h =
    ap (λ o. o >>= λ step. decode_chars f (step.1) >>= λ s. some (step.0 ∷ s)) h

decode_chars-bytes :
    (f : ℕ) (s : Str) → length (bytes s) ≤ f → Scalars s → decode_chars f (bytes s) ≡ some s
unfolding bytes decode_chars
decode_chars-bytes f [] h k = refl
decode_chars-bytes zero (c ∷ s) h k =
    absurd (omega (arith, length-encode c, length-append (encode c) (bytes s)))
decode_chars-bytes (suc f) (c ∷ s) h k =
    decode_step f (encode c ++ bytes s) c (bytes s) (decode_char-encode c (bytes s) (k.0))
    ∙ ap (λ o. o >>= λ t. some (c ∷ t))
        (decode_chars-bytes f s (omega (arith, length-encode c, length-append (encode c) (bytes s)))
          (k.1))

-- The bytes of a text of scalar values are read back.
pub from_utf8-bytes : (s : Str) → Scalars s → from_utf8 (bytes s) ≡ some s
unfolding from_utf8
from_utf8-bytes s h = decode_chars-bytes (length (bytes s)) s (omega arith) h
