-- ===== src/Line/Valid.antt =====
-- Character boundaries, for the methods of src/line.rs that compute an offset.
use ish.Prelude.{
  ℕ, ◌+◌, ◌-◌, ◌≤◌, ◌<◌, ◌≡◌, refl, [], ◌∷◌, ◌++◌, arith, ◌==◌, ltb, leb, min, append-nil, ◌∙◌, ◌⊎◌,
  ltb→lt, sym, ap, ap₂, Bool-cases, inl, inr,
}
use ish.Utf8.{Str, len_utf8, len, is_char_boundary}
use ish.Utf8.Boundary.{len-cons, is_char_boundary-prefix}
use ish.Line.{LineBuffer, set_with_cursor, floor}
use ish.Line.Grid.{column_offset, offset_for_display, byte_offset_for_display_pos}
use native.Mathlib.Nat.{zero-add}
use ish.Line.Width.{char_width}
use ish.Line.Cursor.{floor-boundary, floor-inside}

-- `i` is the offset behind a prefix of `s`.
pub record Boundary (s : Str) (i : ℕ) : Type 0 where
  pub before : Str
  pub after : Str
  pub parts : s ≡ before ++ after
  pub offset : i ≡ len before

-- The cursor stands on a character boundary.
abbrev pub IsValid : LineBuffer → Type 0
IsValid lb = Boundary lb.buf lb.cursor

Boundary-cons : (c : ℕ) (s : Str) (i : ℕ) → Boundary s i → Boundary (c ∷ s) (len_utf8 c + i)
Boundary-cons c s i b = record {
  before = c ∷ b.before;
  after = b.after;
  parts = ap (c ∷◌) b.parts;
  offset = ap (len_utf8 c +◌) b.offset ∙ sym (len-cons c b.before);
}

len-nil : len [] ≡ 0
unfolding len
len-nil = refl

Boundary-zero : (s : Str) → Boundary s 0
unfolding len
Boundary-zero s = record { before = []; after = s; parts = refl; offset = refl }

Boundary-len : (s : Str) → Boundary s (len s)
Boundary-len s = record { before = s; after = []; parts = sym (append-nil s); offset = refl }

-- `i` points into the character behind a prefix of `s`, or at its start.
record Inside (s : Str) (i : ℕ) : Type 0 where
  before : Str
  char : ℕ
  after : Str
  step : ℕ
  parts : s ≡ before ++ char ∷ after
  offset : i ≡ len before + step
  short : step < len_utf8 char

locate : (s : Str) (i : ℕ) → i ≤ len s → Boundary s i ⊎ Inside s i
locate [] i h =
    inl (record { before = []; after = []; parts = refl; offset = omega (arith, h, len-nil) })
locate (c ∷ s) i h = elim (Bool-cases (ltb i (len_utf8 c))) [
  | inl low ↦ inr (record {
    before = [];
    char = c;
    after = s;
    step = i;
    parts = refl;
    offset = omega (arith, len-nil);
    short = ltb→lt _ _ low;
  })
  | inr high ↦
      let past : len_utf8 c ≤ i = ground arith in
      let bound : i - len_utf8 c ≤ len s = omega (arith, len-cons c s) in
      elim (locate s (i - len_utf8 c) bound) [
        | inl b ↦ inl (record {
          before = c ∷ b.before;
          after = b.after;
          parts = ap (c ∷◌) b.parts;
          offset = omega (arith, len-cons c b.before, b.offset);
        })
        | inr b ↦ inr (record {
          before = c ∷ b.before;
          char = b.char;
          after = b.after;
          step = b.step;
          parts = ap (c ∷◌) b.parts;
          offset = omega (arith, len-cons c b.before, b.offset);
          short = b.short;
        })
      ]
]

-- Rounding down ends on a boundary.
floor-Boundary : (s : Str) (i : ℕ) → i ≤ len s → Boundary s (floor s i)
floor-Boundary s i h = elim (locate s i h) [
  | inl b ↦ record {
    before = b.before;
    after = b.after;
    parts = b.parts;
    offset =
        floor-boundary s i
          (ap₂ is_char_boundary b.parts b.offset ∙ is_char_boundary-prefix b.before b.after)
        ∙ b.offset;
  }
  | inr b ↦ record {
    before = b.before;
    after = b.char ∷ b.after;
    parts = b.parts;
    offset = ap₂ floor b.parts b.offset ∙ floor-inside b.before b.char b.after b.step b.short;
  }
]

-- Whatever offset a caller gives, the cursor lands on a boundary.
pub set_with_cursor-IsValid :
    (lb : LineBuffer) (s : Str) (cursor : ℕ) → IsValid (set_with_cursor lb s cursor)
unfolding set_with_cursor
set_with_cursor-IsValid lb s cursor = floor-Boundary s (min cursor (len s)) (omega arith)

pub column_offset-Boundary :
    (col : ℕ) (s : Str) (byte width : ℕ)
    → (i : ℕ) × (column_offset col s byte width ≡ byte + i) × Boundary s i
unfolding column_offset
column_offset-Boundary col [] byte width = (0, omega arith, Boundary-zero [])
column_offset-Boundary col (c ∷ s) byte width =
    let (i, e, b) = column_offset-Boundary col s (byte + len_utf8 c) (width + char_width c) in
    elim (Bool-cases (leb col width)) [
      | inl stop ↦ (0, rw (stop, column_offset) (omega arith), Boundary-zero (c ∷ s))
      | inr onward ↦
          (len_utf8 c + i, rw (onward, column_offset, e) (omega arith), Boundary-cons c s i b)
    ]

offset_for_display-Boundary :
    (target : ℕ) (s : Str) (byte display : ℕ)
    → (i : ℕ) × (offset_for_display target s byte display ≡ byte + i) × Boundary s i
unfolding offset_for_display
offset_for_display-Boundary target [] byte display = (0, omega arith, Boundary-zero [])
offset_for_display-Boundary target (c ∷ s) byte display =
    let (i, e, b) =
      offset_for_display-Boundary target s (byte + len_utf8 c) (display + char_width c) in
    let after_c = Boundary-cons c s 0 (Boundary-zero s) in
    elim (Bool-cases (ltb target (display + char_width c))) [
      | inl stop ↦ (0, rw (stop, offset_for_display) (omega arith), Boundary-zero (c ∷ s))
      | inr later ↦ elim (Bool-cases (target == display + char_width c)) [
        | inl here ↦ (len_utf8 c + 0, rw (later, offset_for_display, here) (omega arith), after_c)
        | inr onward ↦ (
          len_utf8 c + i,
          rw (later, offset_for_display, onward, e) (omega arith),
          Boundary-cons c s i b,
        )
      ]
    ]

pub byte_offset-Boundary :
    (lb : LineBuffer) (target : ℕ) → Boundary lb.buf (byte_offset_for_display_pos lb target)
unfolding byte_offset_for_display_pos
byte_offset-Boundary lb target =
    let (i, e, b) = offset_for_display-Boundary target lb.buf 0 0 in
    elim (Bool-cases (target == 0)) [
      | inl h ↦ rw h (Boundary-zero lb.buf)
      | inr h ↦ rw (h, e, zero-add) b
    ]
