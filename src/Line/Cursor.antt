-- ===== src/Line/Cursor.antt =====
-- The helpers of src/line.rs that find the character before the cursor and the one behind it.
use ish.Prelude.{
  ℕ, zero, suc, ◌+◌, ◌-◌, ◌≤◌, ◌<◌, ◌≡◌, refl, true, false, some, [], ◌∷◌, ◌++◌, arith, ◌==◌, leb,
  append_assoc, ◌∙◌, sym, ap, ap₂,
}
use ish.Utf8.{Str, len_utf8, len, is_char_boundary, split_at, last?}
use ish.Utf8.Boundary.{
  len_utf8-pos, len_utf8-ascii, len-append, len-cons, is_char_boundary-prefix,
  is_char_boundary-inside, split_at-append, first_byte, last_byte,
}
use ish.Line.{
  LineBuffer, floor, ceil, prev_char_boundary, next_char_boundary, char_before_cursor,
  char_at_cursor,
}

-- A buffer whose cursor stands behind the prefix `p`.
abbrev pub at : Str → Str → Str → LineBuffer
at p r k = record { buf = p ++ r; cursor = len p; kill_ring = k }

pub len-snoc : (p : Str) (c : ℕ) → len (p ++ c ∷ []) ≡ len p + len_utf8 c
unfolding len
len-snoc p c = len-append p (c ∷ []) ∙ omega arith

pub floor-boundary : (s : Str) (i : ℕ) → is_char_boundary s i ≡ true → floor s i ≡ i
unfolding floor
floor-boundary s zero h = refl
floor-boundary s (suc i) h = rw h

floor_step : (s : Str) (i : ℕ) → is_char_boundary s (suc i) ≡ false → floor s (suc i) ≡ floor s i
unfolding floor
floor_step s i h = rw h

pub floor-inside :
    (p : Str) (c : ℕ) (r : Str) (k : ℕ) → k < len_utf8 c → floor (p ++ c ∷ r) (len p + k) ≡ len p
floor-inside p c r zero h =
    ap (floor (p ++ c ∷ r)) (omega arith)
    ∙ floor-boundary (p ++ c ∷ r) (len p) (is_char_boundary-prefix p (c ∷ r))
floor-inside p c r (suc k) h =
    let up : len p + suc k ≡ suc (len p + k) = omega arith in
    let inside =
      sym (ap (is_char_boundary (p ++ c ∷ r)) up)
      ∙ is_char_boundary-inside p c r (suc k) (omega arith) h in
    ap (floor (p ++ c ∷ r)) up
    ∙ floor_step (p ++ c ∷ r) (len p + k) inside
    ∙ floor-inside p c r k (omega arith)

ceil-boundary : (fuel : ℕ) (s : Str) (i : ℕ) → is_char_boundary s i ≡ true → ceil fuel s i ≡ i
unfolding ceil
ceil-boundary zero s i h = refl
ceil-boundary (suc fuel) s i h = rw h

ceil_step :
    (fuel : ℕ) (s : Str) (i : ℕ)
    → is_char_boundary s i ≡ false
    → ceil (suc fuel) s i ≡ ceil fuel s (i + 1)
unfolding ceil
ceil_step fuel s i h = rw h

behind-boundary :
    (p : Str) (c : ℕ) (r : Str) → is_char_boundary (p ++ c ∷ r) (len p + len_utf8 c) ≡ true
behind-boundary p c r =
    ap₂ is_char_boundary (sym (append_assoc p (c ∷ []) r)) (sym (len-snoc p c))
    ∙ is_char_boundary-prefix (p ++ c ∷ []) r

ceil-inside :
    (p : Str) (c : ℕ) (r : Str) (fuel k m : ℕ)
    → 0 < k
    → m + k ≡ len_utf8 c
    → m ≤ fuel
    → ceil fuel (p ++ c ∷ r) (len p + k) ≡ len p + len_utf8 c
ceil-inside p c r fuel k zero h e f =
    let end : len p + k ≡ len p + len_utf8 c = omega arith in
    ap (ceil fuel (p ++ c ∷ r)) end ∙ ceil-boundary fuel (p ++ c ∷ r) _ (behind-boundary p c r)
ceil-inside p c r zero k (suc m) h e f = elim f [ ]
ceil-inside p c r (suc fuel) k (suc m) h e f =
    let next : len p + k + 1 ≡ len p + (k + 1) = omega arith in
    ceil_step fuel (p ++ c ∷ r) (len p + k) (is_char_boundary-inside p c r k h (omega arith))
    ∙ ap (ceil fuel (p ++ c ∷ r)) next
    ∙ ceil-inside p c r fuel (k + 1) m (omega arith) (omega arith) (omega arith)

pub last?-snoc : (p : Str) (c : ℕ) → last? (p ++ c ∷ []) ≡ some c
last?-snoc [] c = refl
last?-snoc (d ∷ p) c = ground (arith, last?-snoc p c)

module _ (p : Str) (c : ℕ) (r k : Str) where
  -- The cursor behind `c`.
  abbrev pub behind : LineBuffer
  behind = record { buf = p ++ c ∷ r; cursor = len p + len_utf8 c; kill_ring = k }

  pub cursor-pos : (len p + len_utf8 c == 0) ≡ false
  cursor-pos = ground (arith, len_utf8-pos c)

  pub inside : leb (len (p ++ c ∷ r)) (len p) ≡ false
  inside = ground (arith, len_utf8-pos c, len-append p (c ∷ r), len-cons c r)

  pub prev_char_boundary-behind : prev_char_boundary behind ≡ some (len p)
  unfolding prev_char_boundary
  prev_char_boundary-behind =
      let (b, e, which) = last_byte p c r in
      let k = len_utf8 c - 1 in
      let at_k : len p + len_utf8 c - 1 ≡ len p + k = omega (arith, len_utf8-pos c) in
      let down =
        ap (floor (p ++ c ∷ r)) at_k ∙ floor-inside p c r k (omega (arith, len_utf8-pos c)) in
      ground (arith, cursor-pos, len_utf8-ascii c)

  pub char_before_cursor-behind : char_before_cursor behind ≡ some (some c)
  unfolding char_before_cursor
  char_before_cursor-behind =
      let (b, e, which) = last_byte p c r in
      let parts =
        ap₂ split_at (sym (append_assoc p (c ∷ []) r)) (sym (len-snoc p c))
        ∙ split_at-append (p ++ c ∷ []) r in
      ground (arith, cursor-pos, last?-snoc p c)

  pub next_char_boundary-at : next_char_boundary (at p (c ∷ r) k) ≡ some (len p + len_utf8 c)
  unfolding next_char_boundary
  next_char_boundary-at =
      let (b, e, which) = first_byte p c r in
      let total : len (p ++ c ∷ r) ≡ len p + len_utf8 c + len r =
        omega (arith, len-append p (c ∷ r), len-cons c r) in
      let found =
        ceil-inside p c r (len (p ++ c ∷ r) - (len p + 1)) 1 (len_utf8 c - 1) (omega arith)
          (omega (arith, len_utf8-pos c)) (omega arith) in
      ground (arith, len_utf8-pos c, len_utf8-ascii c)

  pub char_at_cursor-at : char_at_cursor (at p (c ∷ r) k) ≡ some (some c)
  unfolding char_at_cursor
  char_at_cursor-at =
      let (b, e, which) = first_byte p c r in ground (arith, inside, split_at-append p (c ∷ r))
