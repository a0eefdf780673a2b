-- ===== src/Line/Words.antt =====
-- The word loops of src/line.rs, against the contract of `Line.Zipper`.
use ish.Prelude.{
  ℕ, zero, suc, ◌+◌, ◌≤◌, ◌<◌, ◌≡◌, refl, Bool, Option, none, some, [], ◌∷◌, ◌++◌, arith, length,
  if◌then◌else◌, ◌>>=◌, append_assoc, append-nil, ◌∙◌, sym, ap, ap₂, reverse, reverse-cons,
  reverse-append, Bool-cases, inl, inr,
}
use ish.Utf8.{Str, len, cut, is_whitespace}
use ish.Utf8.Boundary.{len_utf8-pos, len-append, len-cons, cut-append}
use ish.Line.{
  LineBuffer, back_while, forward_while, not_whitespace, fuel_for, move_word_left, move_word_right,
  kill_word_back, kill_word_forward, kill_up_to, kill_since,
}
use ish.Line.Cursor.{
  at, behind, cursor-pos, inside, prev_char_boundary-behind, next_char_boundary-at,
  char_before_cursor-behind, char_at_cursor-at,
}
use ish.Line.Zipper.{zip, ring, buffer, span, word_of}
use ish.Line.Edits.{buffer-cons, buffer-grow, end_leb}

reverse-shift : (c : ℕ) (s r : Str) → reverse (c ∷ s) ++ r ≡ reverse s ++ c ∷ r
reverse-shift c s r = rw (reverse-cons c s, append_assoc (reverse s) (c ∷ []) r)

back_while-behind :
    (f : ℕ) (q : ℕ → Bool) (p : Str) (c : ℕ) (r k : Str)
    → back_while (suc f) q (behind p c r k)
      ≡ (if q c then back_while f q (at p (c ∷ r) k) else some (behind p c r k))
unfolding back_while
back_while-behind f q p c r k =
    rw (cursor-pos p c r k, char_before_cursor-behind p c r k, prev_char_boundary-behind p c r k)

back_while-buffer :
    (f : ℕ) (q : ℕ → Bool) (l r k : Str)
    → length l < f
    → back_while f q (buffer (zip l r k))
      ≡ some (buffer (zip (span q l).1 (reverse (span q l).0 ++ r) k))
unfolding span
back_while-buffer zero q l r k h = elim h [ ]
back_while-buffer (suc f) q [] r k h = unfold back_while len in refl
back_while-buffer (suc f) q (c ∷ l) r k h = elim (Bool-cases (q c)) [
  | inl pass ↦
      ap (back_while (suc f) q) (buffer-cons c l r k)
      ∙ back_while-behind f q (reverse l) c r k
      ∙ rw pass (
          back_while-buffer f q l (c ∷ r) k (omega arith)
          ∙ ap (λ x. some (buffer (zip (span q l).1 x k))) (sym (reverse-shift c (span q l).0 r)))
  | inr fail ↦
      ap (back_while (suc f) q) (buffer-cons c l r k)
      ∙ back_while-behind f q (reverse l) c r k
      ∙ rw fail (ap some (sym (buffer-cons c l r k)))
]

forward_while-at :
    (f : ℕ) (q : ℕ → Bool) (p : Str) (c : ℕ) (r k : Str)
    → forward_while (suc f) q (at p (c ∷ r) k)
      ≡ (if q c then forward_while f q (behind p c r k) else some (at p (c ∷ r) k))
unfolding forward_while
forward_while-at f q p c r k =
    rw (inside p c r k, char_at_cursor-at p c r k, next_char_boundary-at p c r k)

forward_while-buffer :
    (f : ℕ) (q : ℕ → Bool) (l r k : Str)
    → length r < f
    → forward_while f q (buffer (zip l r k))
      ≡ some (buffer (zip (reverse (span q r).0 ++ l) (span q r).1 k))
unfolding span
forward_while-buffer zero q l r k h = elim h [ ]
forward_while-buffer (suc f) q l [] k h = unfold forward_while in rw (end_leb (reverse l))
forward_while-buffer (suc f) q l (c ∷ r) k h = elim (Bool-cases (q c)) [
  | inl pass ↦
      forward_while-at f q (reverse l) c r k
      ∙ rw pass (
          ap (forward_while f q) (sym (buffer-cons c l r k))
          ∙ forward_while-buffer f q (c ∷ l) r k (omega arith)
          ∙ ap (λ x. some (buffer (zip x (span q r).1 k))) (sym (reverse-shift c (span q r).0 l)))
  | inr fail ↦ forward_while-at f q (reverse l) c r k ∙ rw fail
]

length-le-len : (s : Str) → length s ≤ len s
unfolding len
length-le-len [] = omega arith
length-le-len (c ∷ s) = omega (arith, length-le-len s, len_utf8-pos c)

len-reverse : (s : Str) → len (reverse s) ≡ len s
unfolding len
len-reverse [] = refl
len-reverse (c ∷ s) =
    ap len (reverse-cons c s) ∙ len-append (reverse s) (c ∷ []) ∙ omega (arith, len-reverse s)

-- The fuel covers every character on either side.
fuel-left : (l r k : Str) → length l < fuel_for (buffer (zip l r k))
fuel-left l r k = omega (arith, length-le-len l, len-reverse l, len-append (reverse l) r)

fuel-right : (l r k : Str) → length r < fuel_for (buffer (zip l r k))
fuel-right l r k = omega (arith, length-le-len r, len-append (reverse l) r)

length-span : (q : ℕ → Bool) (s : Str) → length (span q s).1 ≤ length s
unfolding span
length-span q [] = omega arith
length-span q (c ∷ s) = ground (arith, length-span q s)

span-append : (q : ℕ → Bool) (s : Str) → (span q s).0 ++ (span q s).1 ≡ s
unfolding span
span-append q [] = refl
span-append q (c ∷ s) = ground (arith, span-append q s)

-- What two loops in a row leave behind and before them.
reverse-two : (a b r : Str) → reverse b ++ (reverse a ++ r) ≡ reverse (a ++ b) ++ r
reverse-two a b r = rw (reverse-append a b, append_assoc (reverse b) (reverse a) r)

two_back :
    (first second : ℕ → Bool) (l r k : Str) (fuel : ℕ)
    → length l < fuel
    → (back_while fuel first (buffer (zip l r k)) >>= back_while fuel second)
      ≡ some (buffer (zip (word_of first second l).1 (reverse (word_of first second l).0 ++ r) k))
two_back first second l r k fuel h =
    let a = (span first l).0 in
    let rest = (span first l).1 in
    let shorter = length-span first l in
    rw
      (
        back_while-buffer fuel first l r k h,
        back_while-buffer fuel second rest (reverse a ++ r) k (omega arith),
      )
      (ap (λ x. some (buffer (zip (span second rest).1 x k)))
        (reverse-two a (span second rest).0 r))

two_forward :
    (first second : ℕ → Bool) (l r k : Str) (fuel : ℕ)
    → length r < fuel
    → (forward_while fuel first (buffer (zip l r k)) >>= forward_while fuel second)
      ≡ some (buffer (zip (reverse (word_of first second r).0 ++ l) (word_of first second r).1 k))
two_forward first second l r k fuel h =
    let a = (span first r).0 in
    let rest = (span first r).1 in
    let shorter = length-span first r in
    rw
      (
        forward_while-buffer fuel first l r k h,
        forward_while-buffer fuel second (reverse a ++ l) rest k (omega arith),
      )
      (ap (λ x. some (buffer (zip x (span second rest).1 k)))
        (reverse-two a (span second rest).0 l))

pub move_word_left-buffer :
    (l r k : Str)
    → move_word_left (buffer (zip l r k))
      ≡ some (
          buffer (
            zip
              (word_of is_whitespace not_whitespace l).1
              (reverse (word_of is_whitespace not_whitespace l).0 ++ r)
              k))
unfolding move_word_left
move_word_left-buffer l r k = two_back is_whitespace not_whitespace l r k _ (fuel-left l r k)

pub move_word_right-buffer :
    (l r k : Str)
    → move_word_right (buffer (zip l r k))
      ≡ some (
          buffer (
            zip
              (reverse (word_of not_whitespace is_whitespace r).0 ++ l)
              (word_of not_whitespace is_whitespace r).1
              k))
unfolding move_word_right
move_word_right-buffer l r k = two_forward not_whitespace is_whitespace l r k _ (fuel-right l r k)

word_of-append :
    (first second : ℕ → Bool) (s : Str)
    → (word_of first second s).0 ++ (word_of first second s).1 ≡ s
word_of-append first second s =
    append_assoc (span first s).0 _ _
    ∙ ap ((span first s).0 ++◌) (span-append second (span first s).1)
    ∙ span-append first s

bind_assoc :
    {A : Type 0} (m : Option A) (f g : A → Option A) → (m >>= (λ a. f a >>= g)) ≡ ((m >>= f) >>= g)
bind_assoc none f g = refl
bind_assoc (some a) f g = refl

len-pos : (c : ℕ) (s : Str) → 0 < len (c ∷ s)
len-pos c s = omega (arith, len-cons c s, len_utf8-pos c)

-- Killing `w`, which stands behind the cursor and before `end`.
kill_up_to-at :
    (p w r k : Str) → kill_up_to (len p + len w) (at p (w ++ r) k) ≡ some (at p r (ring w k))
unfolding kill_up_to len
kill_up_to-at p [] r k = ground arith
kill_up_to-at p (c ∷ w) r k = ground (arith, len_utf8-pos c, cut-append p (c ∷ w) r)

kill_since-at : (p w r k : Str) → kill_since (len p) (at (p ++ w) r k) ≡ some (at p r (ring w k))
unfolding kill_since
kill_since-at p [] r k = unfold kill_since in ground (arith, ap len (append-nil p), append-nil p)
kill_since-at p (c ∷ w) r k =
    let longer = len-append p (c ∷ w) in
    let pos = len-pos c w in
    let parts =
      ap₂ (λ b n. cut b (len p) n) (append_assoc p (c ∷ w) r) longer ∙ cut-append p (c ∷ w) r in
    ground arith

-- A kill takes exactly the word, in reading order, into the ring.
pub kill_word_back-buffer :
    (l r k : Str)
    → kill_word_back (buffer (zip l r k))
      ≡ some (
          buffer (
            zip
              (word_of is_whitespace not_whitespace l).1
              r
              (ring (reverse (word_of is_whitespace not_whitespace l).0) k)))
unfolding kill_word_back
kill_word_back-buffer l r k =
    let w = (word_of is_whitespace not_whitespace l).0 in
    let b = (word_of is_whitespace not_whitespace l).1 in
    let back : reverse l ≡ reverse b ++ reverse w =
      ap reverse (sym (word_of-append is_whitespace not_whitespace l)) ∙ reverse-append w b in
    let lb = buffer (zip l r k) in
    bind_assoc (back_while (fuel_for lb) is_whitespace lb) (back_while (fuel_for lb) not_whitespace)
      (kill_up_to lb.cursor)
    ∙ ap (λ (o : Option LineBuffer). o >>= kill_up_to lb.cursor)
        (two_back is_whitespace not_whitespace l r k _ (fuel-left l r k))
    ∙ ap (λ n. kill_up_to n (buffer (zip b (reverse w ++ r) k)))
        (ap len back ∙ len-append (reverse b) (reverse w))
    ∙ kill_up_to-at (reverse b) (reverse w) r k

pub kill_word_forward-buffer :
    (l r k : Str)
    → kill_word_forward (buffer (zip l r k))
      ≡ some (
          buffer (
            zip l
              (word_of is_whitespace not_whitespace r).1
              (ring (word_of is_whitespace not_whitespace r).0 k)))
unfolding kill_word_forward
kill_word_forward-buffer l r k =
    let w = (word_of is_whitespace not_whitespace r).0 in
    let rest = (word_of is_whitespace not_whitespace r).1 in
    let lb = buffer (zip l r k) in
    bind_assoc (forward_while (fuel_for lb) is_whitespace lb)
      (forward_while (fuel_for lb) not_whitespace) (kill_since lb.cursor)
    ∙ ap (λ (o : Option LineBuffer). o >>= kill_since lb.cursor)
        (two_forward is_whitespace not_whitespace l r k _ (fuel-right l r k))
    ∙ ap (kill_since lb.cursor) (sym (buffer-grow l w rest k))
    ∙ kill_since-at (reverse l) w rest k
