-- ===== src/Line/Edits.antt =====
-- The methods of src/line.rs that work on one character or on a whole side of the cursor, against the
-- contract of `Line.Zipper`.
use ish.Prelude.{
  ℕ, ◌+◌, ◌≡◌, refl, true, Option, some, [], ◌∷◌, ◌++◌, arith, leb, ◌>>=◌, append_assoc, append-nil,
  ◌∙◌, le→leb, sym, ap, ap₂, reverse, reverse-cons, reverse-append,
}
use ish.Utf8.{Str, len_utf8, len, split_at, cut}
use ish.Utf8.Boundary.{len-append, split_at-append, cut-append}
use ish.Line.{
  LineBuffer, move_left, move_right, delete_back, delete_forward, insert_char, insert_str,
  move_home, move_end, kill_to_end, kill_to_start, yank,
}
use ish.Line.Cursor.{
  at, behind, cursor-pos, inside, len-snoc, prev_char_boundary-behind, next_char_boundary-at,
}
use mathlib.Core.List.{reverse-reverse}
use native.Mathlib.Nat.{add-zero}
use ish.Line.Zipper.{zip, ring, result, buffer, insert, back, forward, erase_back, erase_forward}

pub buffer-cons : (c : ℕ) (l r k : Str) → buffer (zip (c ∷ l) r k) ≡ behind (reverse l) c r k
buffer-cons c l r k =
    rw (reverse-cons c l, append_assoc (reverse l) (c ∷ []) r, len-snoc (reverse l) c)

move_left-behind :
    (p : Str) (c : ℕ) (r k : Str) → move_left (behind p c r k) ≡ some (at p (c ∷ r) k, true)
unfolding move_left
move_left-behind p c r k = ground (arith, cursor-pos p c r k, prev_char_boundary-behind p c r k)

pub move_left-buffer : (l r k : Str) → move_left (buffer (zip l r k)) ≡ result (back (zip l r k))
unfolding move_left len
move_left-buffer [] r k = refl
move_left-buffer (c ∷ l) r k =
    ap move_left (buffer-cons c l r k) ∙ move_left-behind (reverse l) c r k

-- The cursor stands behind a character once it has moved over it.
at-behind : (c : ℕ) (l r k : Str) → behind (reverse l) c r k ≡ buffer (zip (c ∷ l) r k)
at-behind c l r k = sym (buffer-cons c l r k)

pub end_leb : (p : Str) → leb (len (p ++ [])) (len p) ≡ true
end_leb p = le→leb _ _ (omega (arith, ap len (append-nil p)))

move_right-at :
    (p : Str) (c : ℕ) (r k : Str) → move_right (at p (c ∷ r) k) ≡ some (behind p c r k, true)
unfolding move_right
move_right-at p c r k = ground (arith, inside p c r k, next_char_boundary-at p c r k)

pub move_right-buffer :
    (l r k : Str) → move_right (buffer (zip l r k)) ≡ result (forward (zip l r k))
move_right-buffer l [] k = unfold move_right in rw (end_leb (reverse l))
move_right-buffer l (c ∷ r) k =
    move_right-at (reverse l) c r k ∙ ap (λ b. some (b, true)) (at-behind c l r k)

delete_back-behind :
    (p : Str) (c : ℕ) (r k : Str) → delete_back (behind p c r k) ≡ some (at p r k, true)
unfolding delete_back len
delete_back-behind p c r k =
    let drained =
      ap (cut (p ++ c ∷ r) (len p)) (ap (len p +◌) (sym (add-zero (len_utf8 c))))
      ∙ cut-append p (c ∷ []) r in
    ground (arith, cursor-pos p c r k, prev_char_boundary-behind p c r k)

pub delete_back-buffer :
    (l r k : Str) → delete_back (buffer (zip l r k)) ≡ result (erase_back (zip l r k))
unfolding delete_back len
delete_back-buffer [] r k = refl
delete_back-buffer (c ∷ l) r k =
    ap delete_back (buffer-cons c l r k) ∙ delete_back-behind (reverse l) c r k

delete_forward-at :
    (p : Str) (c : ℕ) (r k : Str) → delete_forward (at p (c ∷ r) k) ≡ some (at p r k, true)
unfolding delete_forward len
delete_forward-at p c r k =
    let drained =
      ap (cut (p ++ c ∷ r) (len p)) (ap (len p +◌) (sym (add-zero (len_utf8 c))))
      ∙ cut-append p (c ∷ []) r in
    ground (arith, inside p c r k, next_char_boundary-at p c r k)

pub delete_forward-buffer :
    (l r k : Str) → delete_forward (buffer (zip l r k)) ≡ result (erase_forward (zip l r k))
delete_forward-buffer l [] k = unfold delete_forward in rw (end_leb (reverse l))
delete_forward-buffer l (c ∷ r) k = delete_forward-at (reverse l) c r k

-- An insertion goes between the two sides, and the cursor behind it.
insert_str-at : (p s r k : Str) → insert_str (at p r k) s ≡ some (at (p ++ s) r k)
unfolding insert_str
insert_str-at p s r k =
    rw (split_at-append p r, insert_str)
      (ap₂ (λ b n. some (record { buf = b; cursor = n; kill_ring = k })) (sym (append_assoc p s r))
        (sym (len-append p s)))

-- Text put before the cursor joins the left side.
pub buffer-grow : (l s r k : Str) → at (reverse l ++ s) r k ≡ buffer (zip (reverse s ++ l) r k)
buffer-grow l s r k =
    ap (λ p. at p r k) (sym (reverse-append (reverse s) l ∙ ap (reverse l ++◌) (reverse-reverse s)))

pub insert_str-buffer :
    (l r k s : Str) → insert_str (buffer (zip l r k)) s ≡ some (buffer (insert (zip l r k) s))
insert_str-buffer l r k s = insert_str-at (reverse l) s r k ∙ ap some (buffer-grow l s r k)

insert_char-str : (lb : LineBuffer) (c : ℕ) → insert_char lb c ≡ insert_str lb (c ∷ [])
unfolding insert_char insert_str len
insert_char-str lb c = rw add-zero

pub insert_char-buffer :
    (l r k : Str) (c : ℕ)
    → insert_char (buffer (zip l r k)) c ≡ some (buffer (insert (zip l r k) (c ∷ [])))
insert_char-buffer l r k c = insert_char-str _ c ∙ insert_str-buffer l r k (c ∷ [])

-- Killing moves a whole side of the cursor into the kill ring; with nothing there it keeps the ring.
pub kill_to_end-buffer :
    (l r k : Str) → kill_to_end (buffer (zip l r k)) ≡ some (buffer (zip l [] (ring r k)))
unfolding kill_to_end
kill_to_end-buffer l [] k = ground (arith, ap len (append-nil (reverse l)))
kill_to_end-buffer l (c ∷ r) k =
    ground
      (arith, inside (reverse l) c r k, split_at-append (reverse l) (c ∷ r), append-nil (reverse l))

ring-snoc : (s : Str) (c : ℕ) (k : Str) → ring (s ++ c ∷ []) k ≡ s ++ c ∷ []
ring-snoc [] c k = refl
ring-snoc (d ∷ s) c k = refl

kill_to_start-behind :
    (p : Str) (c : ℕ) (r k : Str) → kill_to_start (behind p c r k) ≡ some (at [] r (p ++ c ∷ []))
unfolding kill_to_start len
kill_to_start-behind p c r k =
    let parts =
      ap₂ split_at (sym (append_assoc p (c ∷ []) r)) (sym (len-snoc p c))
      ∙ split_at-append (p ++ c ∷ []) r in
    ground (arith, cursor-pos p c r k)

pub kill_to_start-buffer :
    (l r k : Str)
    → kill_to_start (buffer (zip l r k)) ≡ some (buffer (zip [] r (ring (reverse l) k)))
unfolding kill_to_start len
kill_to_start-buffer [] r k = refl
kill_to_start-buffer (c ∷ l) r k =
    ap kill_to_start (buffer-cons c l r k)
    ∙ kill_to_start-behind (reverse l) c r k
    ∙ ap (λ s. some (at [] r s))
        (sym (ap (λ s. ring s k) (reverse-cons c l) ∙ ring-snoc (reverse l) c k))

pub yank-buffer : (l r k : Str) → yank (buffer (zip l r k)) ≡ some (buffer (insert (zip l r k) k))
unfolding yank
yank-buffer l r [] = refl
yank-buffer l r (c ∷ k) =
    ap (λ (o : Option LineBuffer). o >>= (λ put. some (record put { kill_ring = c ∷ k })))
      (insert_str-buffer l r [] (c ∷ k))

pub move_home-buffer :
    (l r k : Str) → move_home (buffer (zip l r k)) ≡ buffer (zip [] (reverse l ++ r) k)
unfolding move_home len
move_home-buffer l r k = refl

move_end-at : (p r k : Str) → move_end (at p r k) ≡ at (p ++ r) [] k
unfolding move_end
move_end-at p r k =
    ap (λ b. record { buf = b; cursor = len (p ++ r); kill_ring = k }) (sym (append-nil (p ++ r)))

pub move_end-buffer :
    (l r k : Str) → move_end (buffer (zip l r k)) ≡ buffer (zip (reverse r ++ l) [] k)
move_end-buffer l r k = move_end-at (reverse l) r k ∙ buffer-grow l r [] k
