-- ===== src/Utf8/Boundary.antt =====
-- Where the character boundaries of a text lie, by the bytes that the standard library looks at.
use ish.Prelude.{
  ℕ, zero, suc, ◌+◌, ◌-◌, ◌≤◌, ◌<◌, ◌≡◌, refl, true, false, Option, none, some, [], ◌∷◌, ◌++◌,
  length, get_elem?, arith, length-append, Bool-cases, ltb→lt, le→leb, append-nil,
  lt-length_of_get_elem?, ltb, get_elem?-none_iff, get_elem?-append_left, get_elem?-append_right,
  append_assoc, ◌∙◌, sym, ap, ◌⊎◌, inl, inr,
}
use mathlib.Core.Option
use ish.Utf8.{
  Str, len_utf8, encode, bytes, len, byte_at, is_continuation, is_char_boundary, split_at, cut,
}

pub len_utf8-pos : (c : ℕ) → 0 < len_utf8 c
unfolding len_utf8
len_utf8-pos c = ground arith

pub length-encode : (c : ℕ) → length (encode c) ≡ len_utf8 c
unfolding encode len_utf8
length-encode c = ground arith

pub length-bytes : (s : Str) → length (bytes s) ≡ len s
unfolding bytes len
length-bytes [] = refl
length-bytes (c ∷ s) =
    omega (arith, length-append (encode c) (bytes s), length-encode c, length-bytes s)

pub bytes-append : (s u : Str) → bytes (s ++ u) ≡ bytes s ++ bytes u
unfolding bytes
bytes-append [] u = refl
bytes-append (c ∷ s) u = rw (bytes-append s u, append_assoc)

pub len-append : (s u : Str) → len (s ++ u) ≡ len s + len u
unfolding len
len-append [] u = omega arith
len-append (c ∷ s) u = omega (arith, len-append s u)

-- The byte at offset `k` of the character that stands behind `l`.
pub byte_at-char :
    (l : Str) (c : ℕ) (r : Str) (k : ℕ)
    → k < len_utf8 c
    → byte_at (l ++ c ∷ r) (len l + k) ≡ get_elem? (encode c) k
unfolding byte_at bytes
byte_at-char l c r k h =
    rw (bytes-append l (c ∷ r), ← length-bytes l, get_elem?-append_right (bytes l))
      (get_elem?-append_left (encode c) (bytes r) k (omega (arith, length-encode c)))

-- The first byte of a character is no continuation byte, and each later one is.
pub encode-first : (c : ℕ) → Option.map is_continuation (get_elem? (encode c) 0) ≡ some false
unfolding encode is_continuation
encode-first c = ground arith

-- Only a one-byte character starts below 0x80, and then the byte is the character.
pub encode-ascii : (c : ℕ) → c < 0x80 → get_elem? (encode c) 0 ≡ some c
unfolding encode
encode-ascii c h = ground arith

pub encode-first_high :
    (c : ℕ) → ¬ (c < 0x80) → Option.map (λ b. ltb b 0x80) (get_elem? (encode c) 0) ≡ some false
unfolding encode
encode-first_high c h = ground arith

pub len_utf8-ascii : (c : ℕ) → c < 0x80 → len_utf8 c ≡ 1
unfolding len_utf8
len_utf8-ascii c h = ground arith

len_utf8-high : (c : ℕ) → 0x80 ≤ c → 2 ≤ len_utf8 c
unfolding len_utf8
len_utf8-high c h = ground arith

encode-rest :
    (c k : ℕ)
    → 0 < k
    → k < len_utf8 c
    → Option.map is_continuation (get_elem? (encode c) k) ≡ some true
unfolding encode len_utf8 is_continuation
encode-rest c zero h h' = elim h [ ]
encode-rest c (suc zero) h h' = ground arith
encode-rest c (suc (suc zero)) h h' = ground arith
encode-rest c (suc (suc (suc zero))) h h' = ground arith
encode-rest c (suc (suc (suc (suc k)))) h h' = ground arith

pub encode-rest_high :
    (c k : ℕ)
    → 0 < k
    → k < len_utf8 c
    → Option.map (λ b. ltb b 0x80) (get_elem? (encode c) k) ≡ some false
unfolding encode len_utf8
encode-rest_high c zero h h' = elim h [ ]
encode-rest_high c (suc zero) h h' = ground arith
encode-rest_high c (suc (suc zero)) h h' = ground arith
encode-rest_high c (suc (suc (suc zero))) h h' = ground arith
encode-rest_high c (suc (suc (suc (suc k)))) h h' = ground arith

pub len-cons : (c : ℕ) (s : Str) → len (c ∷ s) ≡ len_utf8 c + len s
unfolding len
len-cons c s = refl

pub byte_at-here :
    (l : Str) (c : ℕ) (r : Str) → byte_at (l ++ c ∷ r) (len l) ≡ get_elem? (encode c) 0
byte_at-here l c r =
    ap (byte_at (l ++ c ∷ r)) (omega arith) ∙ byte_at-char l c r 0 (omega (arith, len_utf8-pos c))

byte_at-end : (l : Str) → byte_at l (len l) ≡ none
unfolding byte_at
byte_at-end l = (get_elem?-none_iff (bytes l) (len l)).1 (omega (arith, length-bytes l))

pub byte_at-lt : (s : Str) (i : ℕ) {b : ℕ} → byte_at s i ≡ some b → i < len s
unfolding byte_at
byte_at-lt s i h = omega (arith, lt-length_of_get_elem? (bytes s) i h, length-bytes s)

-- Behind a prefix of the text there is a boundary.
pub is_char_boundary-prefix : (l r : Str) → is_char_boundary (l ++ r) (len l) ≡ true
unfolding is_char_boundary
is_char_boundary-prefix l [] =
    let past = ap (λ x. byte_at x (len l)) (append-nil l) ∙ byte_at-end l in
    ground (arith, past, ap len (append-nil l))
is_char_boundary-prefix l (c ∷ r) = ground (arith, byte_at-here l c r, encode-first c)

-- Inside a character there is none.
pub is_char_boundary-inside :
    (l : Str) (c : ℕ) (r : Str) (k : ℕ)
    → 0 < k
    → k < len_utf8 c
    → is_char_boundary (l ++ c ∷ r) (len l + k) ≡ false
unfolding is_char_boundary
is_char_boundary-inside l c r k h h' = ground (arith, byte_at-char l c r k h', encode-rest c k h h')

split_at-suc :
    (c : ℕ) (s : Str) (m : ℕ) {l r : Str}
    → split_at s (suc m - len_utf8 c) ≡ some (l, r)
    → len_utf8 c ≤ suc m
    → split_at (c ∷ s) (suc m) ≡ some (c ∷ l, r)
unfolding split_at
split_at-suc c s m h k = rw (h, split_at, le→leb _ _ k)

split_at-cons :
    (c : ℕ) (s : Str) (n : ℕ) {l r : Str}
    → split_at s n ≡ some (l, r)
    → split_at (c ∷ s) (len_utf8 c + n) ≡ some (c ∷ l, r)
split_at-cons c s n {l} {r} h =
    let pos = len_utf8-pos c in
    let e : len_utf8 c + n ≡ suc (len_utf8 c + n - 1) = omega arith in
    let back : n ≡ suc (len_utf8 c + n - 1) - len_utf8 c = omega arith in
    ap (split_at (c ∷ s)) e
    ∙ split_at-suc c s (len_utf8 c + n - 1) (sym (ap (split_at s) back) ∙ h) (omega arith)

-- Cutting a text behind a prefix gives the two parts.
pub split_at-append : (l r : Str) → split_at (l ++ r) (len l) ≡ some (l, r)
unfolding split_at len
split_at-append [] [] = refl
split_at-append [] (c ∷ r) = refl
split_at-append (c ∷ l) r = split_at-cons c (l ++ r) (len l) (split_at-append l r)

pub cut-append : (l m r : Str) → cut (l ++ (m ++ r)) (len l) (len l + len m) ≡ some (l, m, r)
unfolding cut
cut-append l m r =
    let back : len l + len m - len l ≡ len m = omega arith in
    ground (arith, split_at-append l (m ++ r), split_at-append m r, ap (split_at (m ++ r)) back)

-- The first and the last byte of the character behind `p`: the character itself if it is ASCII, and
-- at least 0x80 if it is not.
abbrev pub Holds : Str → ℕ → ℕ → Type 0
Holds s i c =
    (b : ℕ) × (byte_at s i ≡ some b)
    × (((c < 0x80) × (b ≡ c)) ⊎ ((0x80 ≤ c) × (ltb b 0x80 ≡ false)))

high_byte :
    (o : Option ℕ)
    → Option.map (λ b. ltb b 0x80) o ≡ some false
    → (b : ℕ) × (o ≡ some b) × (ltb b 0x80 ≡ false)
high_byte none h = cc
high_byte (some b) h = (b, refl, cc)

pub first_byte : (p : Str) (c : ℕ) (r : Str) → Holds (p ++ c ∷ r) (len p) c
first_byte p c r = elim (Bool-cases (ltb c 0x80)) [
  | inl h ↦
      let low = ltb→lt c 0x80 h in (c, byte_at-here p c r ∙ encode-ascii c low, inl (low, refl))
  | inr h ↦
      let high : 0x80 ≤ c = ground arith in
      let (b, e, q) = high_byte _ (encode-first_high c (omega arith)) in
      (b, byte_at-here p c r ∙ e, inr (high, q))
]

pub last_byte : (p : Str) (c : ℕ) (r : Str) → Holds (p ++ c ∷ r) (len p + len_utf8 c - 1) c
last_byte p c r = elim (Bool-cases (ltb c 0x80)) [
  | inl h ↦
      let low = ltb→lt c 0x80 h in
      let here : len p + len_utf8 c - 1 ≡ len p = omega (arith, len_utf8-ascii c low) in
      (c, ap (byte_at (p ++ c ∷ r)) here ∙ byte_at-here p c r ∙ encode-ascii c low, inl (low, refl))
  | inr h ↦
      let high : 0x80 ≤ c = ground arith in
      let k = len_utf8 c - 1 in
      let long = len_utf8-high c high in
      let there : len p + len_utf8 c - 1 ≡ len p + k = omega arith in
      let (b, e, q) = high_byte _ (encode-rest_high c k (omega arith) (omega arith)) in
      (b, ap (byte_at (p ++ c ∷ r)) there ∙ byte_at-char p c r k (omega arith) ∙ e, inr (high, q))
]
