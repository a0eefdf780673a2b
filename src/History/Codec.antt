-- ===== src/History/Codec.antt =====
-- The round trip of the records of src/history/store.rs.
use ish.Prelude.{
  ℕ, ◌+◌, ◌^◌, ◌≤◌, ◌<◌, ◌≡◌, ap, ap₂, ◌∙◌, true, false, not, ◌||◌, Option, none, some, List, [],
  ◌∷◌, ◌++◌, length, take, drop, length-append, ltb, leb, ◌==◌, if◌then◌else◌, ◌>>=◌, arith,
  Bool-cases, Option-cases, if_on, if_off, inl, inr, drop-append, drop-add, take-length,
  take-append_left,
}
use ish.Utf8.{Str, bytes}
use ish.Utf8.Decode.{from_utf8, Scalars, from_utf8-bytes, length-encode}
use ish.History.Bytes.{le, u32_max, from_le-le}
use ish.History.{
  Occurrence, is_positive, cwd_len_of, path_bytes, part, decode_texts, decode, payload_of, frame_of,
  no_command, encode,
}

-- The numbers are those of the fields' types, and the command is a text of scalar values.
abbrev pub IsOccurrence : Occurrence → Type 0
IsOccurrence o =
    (o.id < 256 ^ 8) × (o.timestamp < 256 ^ 8) × (o.session_id < 256 ^ 8) × Scalars (o.command)

-- What `encode` has checked of the occurrence it writes.
abbrev pub Encodes : Occurrence → List ℕ → Type 0
Encodes o frame =
    (cwd_len : ℕ) × (is_positive (o.id) ≡ true)
    × (no_command (o.command) ≡ false)
    × (cwd_len_of (o.cwd) ≡ some cwd_len)
    × (length (bytes (o.command)) ≤ u32_max)
    × (frame ≡ frame_of (payload_of cwd_len o))

pub take_all : (path rest : List ℕ) → take (length path) (path ++ rest) ≡ path
take_all path rest = take-append_left (length path) path rest (omega arith) ∙ take-length path

pub length-payload_of :
    (n : ℕ) (o : Occurrence)
    → length (payload_of n o) ≡ 32 + (length (path_bytes (o.cwd)) + length (bytes (o.command)))
unfolding payload_of le
length-payload_of n o = omega (arith, length-append (path_bytes (o.cwd)) (bytes (o.command)))

-- The five numbers are read back.
decode-payload_of :
    (n : ℕ) (o : Occurrence)
    → IsOccurrence o
    → n < 256 ^ 4
    → length (bytes (o.command)) < 256 ^ 4
    → is_positive (o.id) ≡ true
    → decode (payload_of n o)
      ≡ decode_texts
          (o.id)
          (o.timestamp)
          (o.session_id)
          n
          (length (bytes (o.command)))
          (payload_of n o)
unfolding decode payload_of le
decode-payload_of n o h hn hc pos =
    rw
      (
        from_le-le 8 (o.id) (h.0),
        from_le-le 8 (o.timestamp) (h.1),
        from_le-le 8 (o.session_id) (h.2),
        from_le-le 4 n hn,
        from_le-le 4 (length (bytes (o.command))) hc,
      )
      (if_on _ _ _ pos)

texts_behind :
    (k n : ℕ) (o : Occurrence)
    → drop (32 + k) (payload_of n o) ≡ drop k (path_bytes (o.cwd) ++ bytes (o.command))
unfolding payload_of le
texts_behind k n o = drop-add 32 k (payload_of n o)

command_there : (s : Str) → no_command s ≡ false → 1 ≤ length (bytes s)
unfolding bytes ish.Utf8.encode
command_there [] h = cc
command_there (c ∷ s) h =
    omega (arith, length-append (ish.Utf8.encode c) (bytes s), length-encode c)

-- The tests on the lengths pass, and the texts are those of the two slices.
decode_texts_lem :
    (id timestamp session_id n m size : ℕ) (payload : List ℕ)
    → (if n == u32_max then 0 else n) ≡ size
    → 1 ≤ m
    → length payload ≡ 32 + size + m
    → decode_texts id timestamp session_id n m payload ≡ (
        from_utf8 (drop (32 + size) payload) >>= λ command. some (record {
          id = id;
          command = command;
          timestamp = timestamp;
          session_id = session_id;
          cwd = if n == u32_max then none else some (part 32 size payload);
        }))
unfolding decode_texts
decode_texts_lem id timestamp session_id n m size payload e h k =
    rw e (if_off (m == 0 || not ((32 + size) + m == length payload)) _ _ (ground arith))

-- The field of the length of a path says which path it is.
pub path_length :
    (path : List ℕ) (n : ℕ)
    → cwd_len_of (some path) ≡ some n
    → (n ≡ length path) × (length path < u32_max)
unfolding cwd_len_of
path_length path n h = elim (Bool-cases (ltb (length path) u32_max)) [
  | inl e ↦ (grind arith, ground arith)
  | inr e ↦ absurd (grind arith)
]

field_of_length :
    (cwd : Option (List ℕ)) (n : ℕ)
    → cwd_len_of cwd ≡ some n
    → (if n == u32_max then 0 else n) ≡ length (path_bytes cwd)
unfolding cwd_len_of
field_of_length none n h = grind arith
field_of_length (some path) n h = let (e, less) = path_length path n h in ground arith

field_of_path :
    (cwd : Option (List ℕ)) (n : ℕ) (rest : List ℕ)
    → cwd_len_of cwd ≡ some n
    → (if n == u32_max
        then none
        else some (take (length (path_bytes cwd)) (path_bytes cwd ++ rest)))
      ≡ cwd
unfolding cwd_len_of
field_of_path none n rest h = if_on (n == u32_max) _ _ (grind arith)
field_of_path (some path) n rest h =
    let (e, less) = path_length path n h in
    if_off (n == u32_max) _ _ (ground arith) ∙ ap some (take_all path rest)

decode_texts-payload_of :
    (n : ℕ) (o : Occurrence)
    → Scalars (o.command)
    → cwd_len_of (o.cwd) ≡ some n
    → no_command (o.command) ≡ false
    → decode_texts
        (o.id)
        (o.timestamp)
        (o.session_id)
        n
        (length (bytes (o.command)))
        (payload_of n o)
      ≡ some o
unfolding payload_of le
decode_texts-payload_of n o scalars e there =
    decode_texts_lem (o.id) (o.timestamp) (o.session_id) n _ (length (path_bytes (o.cwd)))
      (payload_of n o) (field_of_length (o.cwd) n e) (command_there (o.command) there)
      (omega (arith, length-payload_of n o))
    ∙ ap₂
        (λ (text : Option Str) (cwd : Option (List ℕ)). text >>= λ command. some (record {
          id = o.id;
          command = command;
          timestamp = o.timestamp;
          session_id = o.session_id;
          cwd = cwd;
        }))
        (ap from_utf8 (
            texts_behind (length (path_bytes (o.cwd))) n o
            ∙ drop-append (path_bytes (o.cwd)) (bytes (o.command)))
          ∙ from_utf8-bytes (o.command) scalars)
        (field_of_path (o.cwd) n (bytes (o.command)) e)

pub encode-Encodes : (o : Occurrence) (frame : List ℕ) → encode o ≡ some frame → Encodes o frame
unfolding encode
encode-Encodes o frame h = elim (Bool-cases (is_positive (o.id))) [
  | inr e ↦ absurd (grind arith)
  | inl e ↦ elim (Bool-cases (no_command (o.command))) [
    | inl d ↦ absurd (grind arith)
    | inr d ↦ elim (Option-cases (cwd_len_of (o.cwd))) [
      | inl c ↦ absurd (grind arith)
      | inr (n, c) ↦ elim (Bool-cases (leb (length (bytes (o.command))) u32_max)) [
        | inl b ↦ (n, e, d, c, ground arith, grind arith)
        | inr b ↦ absurd (grind arith)
      ]
    ]
  ]
]

pub cwd_len_bound : (cwd : Option (List ℕ)) (n : ℕ) → cwd_len_of cwd ≡ some n → n ≤ u32_max
unfolding cwd_len_of
cwd_len_bound none n h = grind arith
cwd_len_bound (some path) n h = let (e, less) = path_length path n h in omega arith

-- The record of an occurrence that `encode` takes, behind its frame's 16 bytes, is decoded to it, when the
-- numbers are those of the fields' types.
pub decode-encode :
    (o : Occurrence) (frame : List ℕ)
    → IsOccurrence o
    → encode o ≡ some frame
    → decode (drop 16 frame) ≡ some o
unfolding frame_of le
decode-encode o frame h e =
    let (n, pos, there, c, short, parts) = encode-Encodes o frame e in
    ap (λ f. decode (drop 16 f)) parts
    ∙ decode-payload_of n o h (omega (arith, cwd_len_bound (o.cwd) n c)) (omega arith) pos
    ∙ decode_texts-payload_of n o (h.3) c there
