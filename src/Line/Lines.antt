-- ===== src/Line/Lines.antt =====
-- Lines on both sides of the cursor of src/line.rs: what `rfind` and `find` give for a newline, by the
-- characters in between.
use ish.Prelude.{
  ℕ, ◌+◌, ◌≡◌, refl, Bool, true, false, Option, none, some, [], ◌∷◌, ◌++◌, arith, ◌==◌, leb,
  append-nil, ◌∙◌, sym, ap, Bool-cases, inl, inr, reverse, reverse-cons, ==_iff, if◌then◌else◌,
}
use ish.Utf8.{Str, len_utf8, len, find, rfind}
use ish.Utf8.Boundary.{len-append}
use ish.Line.Grid.{column_offset, line_start, line_end}
use ish.Line.Width.{char_width}
use ish.Line.Zipper.{span, in_line, columns}
use ish.Line.Landing.{newline, len-newline}

pub span-parts : (q : ℕ → Bool) (s : Str) → s ≡ (span q s).0 ++ (span q s).1
unfolding span
span-parts q [] = refl
span-parts q (c ∷ s) = elim (Bool-cases (q c)) [
  | inl h ↦ rw (h, span) (ap (c ∷◌) (span-parts q s))
  | inr h ↦ rw (h, span) refl
]

-- What stands behind the span is a newline.
pub span-newline : (s : Str) (n : ℕ) (r : Str) → (span in_line s).1 ≡ n ∷ r → n ≡ newline
unfolding span
span-newline [] n r h = cc
span-newline (c ∷ s) n r h = elim (Bool-cases (c == newline)) [
  | inl e ↦
      (let same : c ≡ newline = (==_iff c newline).0 e in
        let heads : c ∷ s ≡ n ∷ r = subst_rest e in cc)
  | inr e ↦ span-newline s n r (subst_span e)
]
  where
    subst_rest : (c == newline) ≡ true → c ∷ s ≡ n ∷ r
    subst_rest e = ground arith

    subst_span : (c == newline) ≡ false → (span in_line s).1 ≡ n ∷ r
    subst_span e = ground arith

abbrev pub found : Str → Str → Option ℕ
found front [] = none
found front (_ ∷ _) = some (len front)

found-cons :
    (c : ℕ) (front rest : Str)
    → elim (found front rest) as (λ _. Option ℕ) [ none ↦ none | some i ↦ some (len_utf8 c + i) ]
      ≡ found (c ∷ front) rest
unfolding len
found-cons c front [] = refl
found-cons c front (_ ∷ _) = refl

pub find-span : (s : Str) → find newline s ≡ found (span in_line s).0 (span in_line s).1
unfolding find span len
find-span [] = refl
find-span (c ∷ s) = elim (Bool-cases (c == newline)) [
  | inl e ↦ rw (e, find, span) refl
  | inr e ↦ rw (e, find, span, find-span s) (found-cons c (span in_line s).0 (span in_line s).1)
]

rfind-snoc :
    (s : Str) (c : ℕ)
    → rfind newline (s ++ c ∷ []) ≡ (if c == newline then some (len s) else rfind newline s)
unfolding rfind len
rfind-snoc [] c = refl
rfind-snoc (x ∷ s) c = elim (Bool-cases (c == newline)) [
  | inl e ↦ rw (rfind-snoc s c, e) refl
  | inr e ↦ rw (rfind-snoc s c, e) refl
]

abbrev pub last_found : Str → Option ℕ
last_found [] = none
last_found (_ ∷ above) = some (len (reverse above))

pub rfind-span : (l : Str) → rfind newline (reverse l) ≡ last_found (span in_line l).1
unfolding span rfind
rfind-span [] = refl
rfind-span (c ∷ l) =
    ap (rfind newline) (reverse-cons c l)
    ∙ rfind-snoc (reverse l) c
    ∙ elim (Bool-cases (c == newline)) [
      | inl e ↦ rw (e, span) refl
      | inr e ↦ rw (e, span) (rfind-span l)
    ]

pub len-after : (above : Str) (n : ℕ) → n ≡ newline → len (above ++ n ∷ []) ≡ len above + 1
len-after above n e =
    ap (λ x. len (above ++ x ∷ [])) e ∙ len-append above (newline ∷ []) ∙ omega (arith, len-newline)

-- Where the line of the cursor starts.
pub line_start-span :
    (l : Str) → line_start (rfind newline (reverse l)) ≡ len (reverse (span in_line l).1)
unfolding len
line_start-span l = ap line_start (rfind-span l) ∙ by_rest (span in_line l).1 refl
  where
    by_rest :
        (rest : Str) → (span in_line l).1 ≡ rest → line_start (last_found rest) ≡ len (reverse rest)
    by_rest [] e = refl
    by_rest (n ∷ above) e =
        sym (len-after (reverse above) n (span-newline l n above e))
        ∙ ap len (sym (reverse-cons n above))

pub column_offset-columns :
    (col : ℕ) (s : Str) (byte width : ℕ)
    → column_offset col s byte width ≡ byte + len ((columns col width s).0)
unfolding column_offset columns len
column_offset-columns col [] byte width = omega arith
column_offset-columns col (c ∷ s) byte width = elim (Bool-cases (leb col width)) [
  | inl e ↦ rw (e, column_offset, columns) (omega arith)
  | inr e ↦
      rw (e, column_offset, columns)
        (column_offset-columns col s (byte + len_utf8 c) (width + char_width c) ∙ omega arith)
]

pub columns-parts :
    (col width : ℕ) (s : Str) → s ≡ (columns col width s).0 ++ (columns col width s).1
unfolding columns
columns-parts col width [] = refl
columns-parts col width (c ∷ s) = elim (Bool-cases (leb col width)) [
  | inl e ↦ rw (e, columns) refl
  | inr e ↦ rw (e, columns) (ap (c ∷◌) (columns-parts col (width + char_width c) s))
]

pub line_end-span :
    (p s : Str)
    → line_end (len p) (find newline s) (len (p ++ s)) ≡ len p + len ((span in_line s).0)
line_end-span p s =
    ap (λ o. line_end (len p) o (len (p ++ s))) (find-span s) ∙ by_rest (span in_line s).1 refl
  where
    by_rest :
        (rest : Str)
        → (span in_line s).1 ≡ rest
        → line_end (len p) (found (span in_line s).0 rest) (len (p ++ s))
          ≡ len p + len ((span in_line s).0)
    by_rest [] e =
        len-append p s
        ∙ ap (λ x. len p + len x)
            (span-parts in_line s ∙ ap ((span in_line s).0 ++◌) e ∙ append-nil _)
    by_rest (_ ∷ _) e = refl
