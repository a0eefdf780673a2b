-- ===== src/Line/Motions.antt =====
-- `move_line_up` and `move_line_down` of src/line.rs, against the contract of `Line.Zipper`.
use ish.Prelude.{
  ℕ, ◌+◌, ◌≡◌, refl, Bool, some, [], ◌∷◌, ◌++◌, arith, ◌>>=◌, append_assoc, ◌∙◌, sym, ap, ap₂,
  reverse, reverse-cons, reverse-append,
}
use mathlib.Core.List.{reverse-reverse}
use mathlib.Core.Option
use ish.Utf8.{Str, len, find, rfind, split_at, cut}
use ish.Utf8.Boundary.{len-append, split_at-append}
use ish.Line.{LineBuffer}
use ish.Line.Grid.{offset_at_column, line_start, line_end, move_line_up, move_line_down}
use ish.Line.Width.{str_width}
use ish.Line.Zipper.{
  zip, buffer, span, in_line, columns, up_from, down_from, to_line_up, to_line_down,
}
use ish.Line.Landing.{newline}
use ish.Line.Vertical.{cut-at, up_steps, down_steps}
use ish.Line.Lines.{
  span-parts, span-newline, found, find-span, last_found, rfind-span, line_start-span, len-after,
  column_offset-columns, columns-parts, line_end-span,
}

column-len : (line : Str) (col : ℕ) → offset_at_column line col ≡ len ((columns col 0 line).0)
unfolding offset_at_column
column-len line col = column_offset-columns col line 0 0 ∙ omega arith

-- The characters before the cursor, in order, by the line they end with.
reverse-lines :
    (l current above : Str) (n : ℕ)
    → l ≡ current ++ n ∷ above
    → reverse l ≡ (reverse above ++ n ∷ []) ++ reverse current
reverse-lines l current above n e =
    ap reverse e
    ∙ reverse-append current (n ∷ above)
    ∙ ap (λ x. x ++ reverse current) (reverse-cons n above)

abbrev placed : Str → ℕ → Str → LineBuffer
placed s i k = record { buf = s; cursor = i; kill_ring = k }

-- The buffer behind a motion within a line: `earlier` and the line before the rest.
landed :
    (buf earlier line rest k : Str) (col start : ℕ)
    → buf ≡ reverse earlier ++ (line ++ rest)
    → start ≡ len (reverse earlier)
    → placed buf (start + offset_at_column line col) k
      ≡ buffer
          (zip (reverse ((columns col 0 line).0) ++ earlier) ((columns col 0 line).1 ++ rest) k)
landed buf earlier line rest k col start e s =
    let (front, back) = columns col 0 line in
    let left : reverse (reverse front ++ earlier) ≡ reverse earlier ++ front =
      reverse-append (reverse front) earlier ∙ ap (reverse earlier ++◌) (reverse-reverse front) in
    ap₂ (λ x y. placed x y k)
      (e
        ∙ ap (λ x. reverse earlier ++ (x ++ rest)) (columns-parts col 0 line)
        ∙ ap (reverse earlier ++◌) (append_assoc front back rest)
        ∙ sym (append_assoc (reverse earlier) front (back ++ rest))
        ∙ ap (λ x. x ++ (back ++ rest)) (sym left))
      (ap₂ (λ x y. x + y) s (column-len line col)
        ∙ sym (len-append (reverse earlier) front)
        ∙ ap len (sym left))

abbrev moved : LineBuffer × Bool → LineBuffer
moved r = r.0

module _ (l r k : Str) where
  abbrev before_line : Str
  before_line = (span in_line l).1

  abbrev current : Str
  current = (span in_line l).0

  parted : split_at (reverse l ++ r) (len (reverse l)) ≡ some (reverse l, r)
  parted = split_at-append (reverse l) r

  up_by :
      (rest : Str)
      → before_line ≡ rest
      → Option.map moved (move_line_up (buffer (zip l r k)))
        ≡ some (buffer (up_from (zip l r k) current rest))
  unfolding move_line_up
  up_by [] e = rw (parted, ◌>>=◌, rfind-span l ∙ ap last_found e) refl
  up_by (n ∷ above) e =
      let newline_there = span-newline l n above e in
      let (line, earlier) = span in_line above in
      let whole : l ≡ current ++ n ∷ above = span-parts in_line l ∙ ap (current ++◌) e in
      let front : reverse l ≡ (reverse above ++ n ∷ []) ++ reverse current =
        reverse-lines l current above n whole in
      let lined : reverse l ++ r ≡ (reverse above ++ n ∷ []) ++ (reverse current ++ r) =
        ap (λ x. x ++ r) front ∙ append_assoc (reverse above ++ n ∷ []) (reverse current) r in
      let upper : reverse l ++ r ≡ reverse above ++ n ∷ (reverse current ++ r) =
        lined ∙ append_assoc (reverse above) (n ∷ []) (reverse current ++ r) in
      let above_parts : reverse above ≡ reverse earlier ++ reverse line =
        ap reverse (span-parts in_line above) ∙ reverse-append line earlier in
      let target : reverse l ++ r
          ≡ reverse earlier ++ (reverse line ++ n ∷ (reverse current ++ r)) =
        upper
        ∙ ap (λ x. x ++ n ∷ (reverse current ++ r)) above_parts
        ∙ append_assoc (reverse earlier) (reverse line) (n ∷ (reverse current ++ r)) in
      let after : len (reverse above ++ n ∷ []) ≡ len (reverse above) + 1 =
        len-after (reverse above) n newline_there in
      ap (Option.map moved) (
        up_steps (buffer (zip l r k)) (reverse l) r (reverse above ++ n ∷ []) (reverse current) r
          (reverse above) (n ∷ (reverse current ++ r)) (reverse earlier) (reverse line)
          (n ∷ (reverse current ++ r)) (len (reverse above)) parted (rfind-span l ∙ ap last_found e)
          (cut-at (reverse l ++ r) (reverse above ++ n ∷ []) (reverse current) r _ _ lined
            (sym after) (ap len front ∙ len-append (reverse above ++ n ∷ []) (reverse current)))
          (ap (λ s. split_at s (len (reverse above))) upper
            ∙ split_at-append (reverse above) (n ∷ (reverse current ++ r)))
          (cut-at (reverse l ++ r) (reverse earlier) (reverse line) (n ∷ (reverse current ++ r)) _ _
            target (line_start-span above)
            (ap len above_parts ∙ len-append (reverse earlier) (reverse line))))
      ∙ ap some (
          landed (reverse l ++ r) earlier (reverse line) (n ∷ (reverse current ++ r)) k
            (str_width (reverse current)) (line_start (rfind newline (reverse above))) target
            (line_start-span above))

  pub move_line_up-buffer :
      Option.map moved (move_line_up (buffer (zip l r k))) ≡ some (buffer (to_line_up (zip l r k)))
  move_line_up-buffer = up_by before_line refl

  own_line : reverse l ≡ reverse before_line ++ reverse current
  own_line = ap reverse (span-parts in_line l) ∙ reverse-append current before_line

  own :
      let start = line_start (rfind newline (reverse l)) in
      cut (reverse l ++ r) start (len (reverse l)) ≡ some (reverse before_line, reverse current, r)
  own =
      cut-at (reverse l ++ r) (reverse before_line) (reverse current) r _ _
        (ap (λ x. x ++ r) own_line ∙ append_assoc (reverse before_line) (reverse current) r)
        (line_start-span l) (ap len own_line ∙ len-append (reverse before_line) (reverse current))

  abbrev behind : Str
  behind = (span in_line r).0

  down_by :
      (rest : Str)
      → (span in_line r).1 ≡ rest
      → Option.map moved (move_line_down (buffer (zip l r k)))
        ≡ some (buffer (down_from (zip l r k) current behind rest))
  unfolding move_line_down
  down_by [] e = rw (parted, ◌>>=◌, own, ◌>>=◌, find-span r ∙ ap (found behind) e) refl
  down_by (n ∷ below) e =
      let newline_there = span-newline r n below e in
      let (line, later) = span in_line below in
      let whole : r ≡ behind ++ n ∷ below = span-parts in_line r ∙ ap (behind ++◌) e in
      let p = reverse l ++ (behind ++ n ∷ []) in
      let start : len (reverse l) + len behind + 1 ≡ len p =
        omega
          (arith, len-append (reverse l) (behind ++ n ∷ []), len-after behind n newline_there) in
      let lower : reverse l ++ r ≡ p ++ below =
        ap (reverse l ++◌) (whole ∙ sym (append_assoc behind (n ∷ []) below))
        ∙ sym (append_assoc (reverse l) (behind ++ n ∷ []) below) in
      let lined : reverse l ++ r ≡ p ++ (line ++ later) =
        lower ∙ ap (p ++◌) (span-parts in_line below) in
      let earlier = n ∷ (reverse behind ++ l) in
      let front : reverse earlier ≡ p =
        reverse-cons n (reverse behind ++ l)
        ∙ ap (λ x. x ++ n ∷ [])
            (reverse-append (reverse behind) l ∙ ap (reverse l ++◌) (reverse-reverse behind))
        ∙ append_assoc (reverse l) behind (n ∷ []) in
      ap (Option.map moved) (
        down_steps (buffer (zip l r k)) (reverse l) r (reverse before_line) (reverse current) r p
          below p line later (len behind) parted own (find-span r ∙ ap (found behind) e)
          (ap₂ split_at lower start ∙ split_at-append p below)
          (cut-at (reverse l ++ r) p line later _ _ lined start (
            ap₂ (λ x y. line_end x (find newline below) (len y)) start lower
            ∙ line_end-span p below)))
      ∙ ap some (
          landed (reverse l ++ r) earlier line later k (str_width (reverse current))
            (len (reverse l) + len behind + 1) (lined ∙ ap (λ x. x ++ (line ++ later)) (sym front))
            (start ∙ ap len (sym front)))

  pub move_line_down-buffer :
      Option.map moved (move_line_down (buffer (zip l r k)))
      ≡ some (buffer (to_line_down (zip l r k)))
  move_line_down-buffer = down_by (span in_line r).1 refl
