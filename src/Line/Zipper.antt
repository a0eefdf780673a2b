-- ===== src/Line/Zipper.antt =====
-- What a `LineBuffer` of src/line.rs stands for: the characters before the cursor, nearest first, the
-- characters behind it, and the text killed last. The operations here are the editor's contract.
use ish.Prelude.{
  ℕ, Bool, true, false, Option, some, [], ◌∷◌, ◌++◌, reverse, ◌+◌, ◌-◌, leb, not, ◌==◌,
  if◌then◌else◌,
}
use ish.Utf8.{Str, len_utf8}
use ish.Line.{LineBuffer}
use ish.Line.Width.{char_width, str_width}
use ish.Line.Cursor.{at}

pub record Zipper : Type 0 where
  pub left : Str
  pub right : Str
  pub killed : Str

-- The buffer that stands for a zipper.
abbrev pub buffer : Zipper → LineBuffer
buffer z = at (reverse z.left) z.right z.killed

abbrev pub zip : Str → Str → Str → Zipper
zip l r k = record { left = l; right = r; killed = k }

abbrev pub text : Zipper → Str
text z = reverse z.left ++ z.right

abbrev pub insert : Zipper → Str → Zipper
insert z s = record z { left = reverse s ++ z.left }

abbrev pub back : Zipper → Zipper × Bool
back z = elim z.left [
  | [] ↦ (z, false)
  | c ∷ l ↦ (record z { left = l; right = c ∷ z.right }, true)
]

abbrev pub forward : Zipper → Zipper × Bool
forward z = elim z.right [
  | [] ↦ (z, false)
  | c ∷ r ↦ (record z { left = c ∷ z.left; right = r }, true)
]

abbrev pub erase_back : Zipper → Zipper × Bool
erase_back z = elim z.left [ [] ↦ (z, false) | c ∷ l ↦ (record z { left = l }, true) ]

abbrev pub erase_forward : Zipper → Zipper × Bool
erase_forward z = elim z.right [ [] ↦ (z, false) | c ∷ r ↦ (record z { right = r }, true) ]

-- The longest prefix whose characters pass the test, and the rest.
unfoldable pub span : (ℕ → Bool) → Str → Str × Str
span p [] = ([], [])
span p (c ∷ s) = let (front, rest) = span p s in if p c then (c ∷ front, rest) else ([], c ∷ s)

-- The longest prefix of at most `room` bytes, and the rest.
unfoldable pub fitting : ℕ → Str → Str × Str
fitting room [] = ([], [])
fitting room (c ∷ s) =
    let (front, rest) = fitting (room - len_utf8 c) s in
    if leb (len_utf8 c) room then (c ∷ front, rest) else ([], c ∷ s)

-- The characters of a word and the white space before it, taken from the nearest.
abbrev pub word_of : (ℕ → Bool) → (ℕ → Bool) → Str → Str × Str
word_of first second s =
    let (a, rest) = span first s in let (b, beyond) = span second rest in (a ++ b, beyond)

abbrev pub result : Zipper × Bool → Option (LineBuffer × Bool)
result (z, moved) = some (buffer z, moved)

-- The kill ring after a kill: an empty kill leaves it alone.
abbrev pub ring : Str → Str → Str
ring [] k = k
ring (c ∷ s) k = c ∷ s

abbrev pub in_line : ℕ → Bool
in_line c = not (c == 10)

-- The front of a line before the first place whose column, counted from `width` on, is at least `col`, and
-- the rest.
unfoldable pub columns : ℕ → ℕ → Str → Str × Str
columns col width [] = ([], [])
columns col width (c ∷ s) =
    let (front, rest) = columns col (width + char_width c) s in
    if leb col width then ([], c ∷ s) else (c ∷ front, rest)

-- To the same column of the line above, from a line with `current` before the cursor, nearest first, and
-- with `above` before it; the first of `above` is the newline.
abbrev pub up_from : Zipper → Str → Str → Zipper
up_from z current [] = z
up_from z current (n ∷ above) =
    let (line, earlier) = span in_line above in
    let (front, back) = columns (str_width (reverse current)) 0 (reverse line) in
    zip (reverse front ++ earlier) (back ++ n ∷ (reverse current ++ z.right)) z.killed

abbrev pub to_line_up : Zipper → Zipper
to_line_up z = let (current, above) = span in_line z.left in up_from z current above

-- To the same column of the line below, with `behind` between the cursor and the line's end.
abbrev pub down_from : Zipper → Str → Str → Str → Zipper
down_from z current behind [] = z
down_from z current behind (n ∷ below) =
    let (line, later) = span in_line below in
    let (front, back) = columns (str_width (reverse current)) 0 line in
    zip (reverse front ++ n ∷ (reverse behind ++ z.left)) (back ++ later) z.killed

abbrev pub to_line_down : Zipper → Zipper
to_line_down z =
    let (behind, below) = span in_line z.right in down_from z (span in_line z.left).0 behind below
