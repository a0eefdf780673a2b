-- ===== src/Line/Replace.antt =====
-- The methods of src/line.rs that replace the whole text, against the contract of `Line.Zipper`.
use ish.Prelude.{
  ℕ, ◌+◌, ◌-◌, ◌≤◌, ◌<◌, ◌≡◌, refl, true, false, [], ◌∷◌, ◌++◌, arith, leb, min, reverse,
  append-nil, append_assoc, ◌∙◌, sym, ap, ap₂, Bool-cases, inl, inr,
}
use mathlib.Core.List.{reverse-reverse}
use native.Mathlib.Nat.{zero-add}
use ish.Utf8.{Str, len_utf8, len}
use ish.Utf8.Boundary.{is_char_boundary-prefix}
use ish.Line.{floor, set, set_with_cursor}
use ish.Line.Cursor.{len-snoc, floor-boundary, floor-inside}
use ish.Line.Zipper.{Zipper, zip, buffer, fitting}

pub set-buffer : (z : Zipper) (s : Str) → set (buffer z) s ≡ buffer (zip (reverse s) [] z.killed)
unfolding set
set-buffer z s =
    ap₂ (λ x y. record { buf = x; cursor = len y; kill_ring = z.killed })
      (sym (append-nil (reverse (reverse s)) ∙ reverse-reverse s)) (sym (reverse-reverse s))

fitting-parts : (room : ℕ) (s : Str) → s ≡ (fitting room s).0 ++ (fitting room s).1
unfolding fitting
fitting-parts room [] = refl
fitting-parts room (c ∷ s) = elim (Bool-cases (leb (len_utf8 c) room)) [
  | inl h ↦ rw h (ap (c ∷◌) (fitting-parts (room - len_utf8 c) s))
  | inr h ↦ rw h refl
]

floor_end : (p : Str) (room : ℕ) → floor (p ++ []) (len p + min room (len [])) ≡ len p + len []
unfolding len
floor_end p room =
    ap (floor (p ++ [])) (omega arith)
    ∙ floor-boundary (p ++ []) (len p) (is_char_boundary-prefix p [])
    ∙ omega arith

floor_onward :
    (p : Str) (c : ℕ) (s : Str) (room : ℕ) (front : Str)
    → leb (len_utf8 c) room ≡ true
    → floor ((p ++ c ∷ []) ++ s) (len (p ++ c ∷ []) + min (room - len_utf8 c) (len s))
      ≡ len (p ++ c ∷ []) + len front
    → floor (p ++ c ∷ s) (len p + min room (len (c ∷ s))) ≡ len p + len (c ∷ front)
unfolding len
floor_onward p c s room front h e =
    let fits : len_utf8 c ≤ room = ground arith in
    ap₂ floor (sym (append_assoc p (c ∷ []) s)) (omega (arith, len-snoc p c))
    ∙ e
    ∙ omega (arith, len-snoc p c)

floor_short :
    (p : Str) (c : ℕ) (s : Str) (room : ℕ)
    → leb (len_utf8 c) room ≡ false
    → floor (p ++ c ∷ s) (len p + min room (len (c ∷ s))) ≡ len p + len []
unfolding len
floor_short p c s room h =
    let short : room < len_utf8 c = ground arith in
    ap (floor (p ++ c ∷ s)) (omega arith) ∙ floor-inside p c s room short ∙ omega arith

-- Behind any prefix, rounding down ends behind the characters that fit.
floor-fitting :
    (p : Str) (room : ℕ) (s : Str)
    → floor (p ++ s) (len p + min room (len s)) ≡ len p + len ((fitting room s).0)
unfolding fitting
floor-fitting p room [] = floor_end p room
floor-fitting p room (c ∷ s) = elim (Bool-cases (leb (len_utf8 c) room)) [
  | inl h ↦
      rw (h, fitting)
        (floor_onward p c s room _ h (floor-fitting (p ++ c ∷ []) (room - len_utf8 c) s))
  | inr h ↦ rw (h, fitting) (floor_short p c s room h)
]

pub set_with_cursor-buffer :
    (z : Zipper) (s : Str) (cursor : ℕ)
    → set_with_cursor (buffer z) s cursor
      ≡ (let (front, rest) = fitting cursor s in buffer (zip (reverse front) rest z.killed))
unfolding set_with_cursor len
set_with_cursor-buffer z s cursor =
    let (front, rest) = fitting cursor s in
    ap₂ (λ x y. record { buf = x; cursor = y; kill_ring = z.killed })
      (fitting-parts cursor s ∙ ap (λ x. x ++ rest) (sym (reverse-reverse front)))
      (ap (floor s) (sym (zero-add (min cursor (len s))))
        ∙ floor-fitting [] cursor s
        ∙ zero-add (len front)
        ∙ ap len (sym (reverse-reverse front)))
