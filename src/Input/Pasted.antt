-- ===== src/Input/Pasted.antt =====
-- A text that is pasted into src/input.rs, from its first byte to the event.
use ish.Prelude.{
  ℕ, suc, ◌+◌, ◌≤◌, ◌≡◌, ◌≢◌, refl, sym, ap, ap₂, ◌∙◌, true, false, ◌&&◌, ◌||◌, none, List, [], ◌∷◌,
  ◌++◌, length, append_assoc, append-nil, All, ltb, if◌then◌else◌, arith, if_off,
}
use native.Mathlib.Nat.{zero-add, suc-add}
use ish.Utf8.{Str, len, encode, bytes}
use ish.Utf8.Boundary.{len-append}
use ish.Utf8.Decode.{is_scalar, length-encode}
use ish.Input.{char, no_mods, plain_key, InputReader, Decoded, at}
use ish.Input.Decode.{decode_key}
use ish.Input.Chars.{decode_key-encode}
use ish.Input.Paste.{
  paste_limit, paste_key, accumulate_paste_key, paste_event, Buffered, returns, no_input,
  finish_paste, handle_key, read_buffered,
}

-- A character that is no control character.
abbrev pub Printable : ℕ → Type 0
Printable c = (is_scalar c ≡ true) × (0x20 ≤ c) × (c ≢ 0x7F)

abbrev pub paste_start : List ℕ
paste_start = 0x1B ∷ b'[' ∷ b'2' ∷ b'0' ∷ b'0' ∷ b'~' ∷ []

abbrev pub paste_end : List ℕ
paste_end = 0x1B ∷ b'[' ∷ b'2' ∷ b'0' ∷ b'1' ∷ b'~' ∷ []

-- A reader in a paste, with the text so far and the bytes to come.
abbrev pasting : InputReader → Str → List ℕ → InputReader
pasting r buf bs = record r {
  input = bs;
  in_paste = true;
  paste_buf = buf;
  paste_limit_hit = false;
}

no_input-append : (bs rest : List ℕ) → 1 ≤ length bs → no_input (bs ++ rest) ≡ false
no_input-append [] rest h = absurd (omega arith)
no_input-append (b ∷ bs) rest h = refl

read_buffered-round :
    (f : ℕ) (r : InputReader) (d : Decoded)
    → no_input (r.input) ≡ false
    → (r.in_paste && r.paste_limit_hit) ≡ false
    → decode_key r ≡ d
    → read_buffered (suc f) r ≡ handle_key (read_buffered f) d
unfolding read_buffered
read_buffered-round f r d h k e =
    if_off (no_input (r.input) || r.in_paste && r.paste_limit_hit) _ _ (rw h k)
    ∙ ap (handle_key (read_buffered f)) e

accumulate-char :
    (r : InputReader) (buf : Str) (c : ℕ) (bs : List ℕ)
    → len (buf ++ c ∷ []) ≤ paste_limit
    → accumulate_paste_key (record { key = char c; mods = no_mods }) (pasting r buf bs)
      ≡ pasting r (buf ++ c ∷ []) bs
unfolding accumulate_paste_key paste_key
accumulate-char r buf c bs h = if_off (ltb paste_limit (len (buf ++ c ∷ []))) _ _ (ground arith)

-- A round of the loop that keeps a character.
handle_key-char :
    (again : InputReader → Buffered) (r : InputReader) (buf : Str) (c : ℕ) (bs : List ℕ)
    → len (buf ++ c ∷ []) ≤ paste_limit
    → handle_key again (plain_key (char c), pasting r buf bs) ≡ again (pasting r (buf ++ c ∷ []) bs)
unfolding handle_key
handle_key-char again r buf c bs h =
    ap (λ p. if p.paste_limit_hit then finish_paste p else again p) (accumulate-char r buf c bs h)

read_buffered-bytes :
    (f : ℕ) (r : InputReader) (buf text : Str) (rest : List ℕ)
    → All Printable text
    → len (buf ++ text) ≤ paste_limit
    → read_buffered (length text + f) (pasting r buf (bytes text ++ rest))
      ≡ read_buffered f (pasting r (buf ++ text) rest)
unfolding bytes
read_buffered-bytes f r buf [] rest h k =
    ap₂ (λ n b. read_buffered n (pasting r b rest)) (zero-add f) (sym (append-nil buf))
read_buffered-bytes f r buf (c ∷ text) rest h k =
    let same_text = append_assoc buf (c ∷ []) text in
    let (scalar, low, no_delete) = h.0 in
    ap₂ (λ n bs. read_buffered n (pasting r buf bs)) (suc-add (length text) f)
      (append_assoc (encode c) (bytes text) rest)
    ∙ read_buffered-round (length text + f) (pasting r buf (encode c ++ (bytes text ++ rest))) _
        (no_input-append (encode c) (bytes text ++ rest) (length-encode c)) refl
        (decode_key-encode (pasting r buf []) c (bytes text ++ rest) scalar low no_delete)
    ∙ handle_key-char (read_buffered (length text + f)) r buf c (bytes text ++ rest)
        (omega (arith, ap len same_text, len-append (buf ++ c ∷ []) text))
    ∙ read_buffered-bytes f r (buf ++ c ∷ []) text rest (h.1) (omega (arith, ap len same_text))
    ∙ ap (λ b. read_buffered f (pasting r b rest)) same_text

-- A reader out of a paste, with the text that was pasted.
abbrev pub pasted : InputReader → Str → List ℕ → InputReader
pasted r buf bs = record r {
  input = bs;
  in_paste = false;
  paste_buf = buf;
  paste_limit_hit = false;
}

decode_key-paste_start :
    (r : InputReader) (rest : List ℕ)
    → decode_key (at r (paste_start ++ rest)) ≡ (none, pasting r [] rest)
unfolding decode_key
decode_key-paste_start r rest = refl

decode_key-paste_end :
    (r : InputReader) (buf : Str) (rest : List ℕ)
    → decode_key (pasting r buf (paste_end ++ rest)) ≡ (none, pasted r buf rest)
unfolding decode_key
decode_key-paste_end r buf rest = refl

handle_key-start :
    (again : InputReader → Buffered) (r : InputReader) (bs : List ℕ)
    → handle_key again (none, pasting r [] bs) ≡ again (pasting r [] bs)
unfolding handle_key
handle_key-start again r bs = refl

handle_key-end :
    (again : InputReader → Buffered) (r : InputReader) (text : Str) (bs : List ℕ)
    → 1 ≤ length text
    → handle_key again (none, pasted r text bs) ≡ returns (paste_event text) (pasted r [] bs)
unfolding handle_key finish_paste
handle_key-end again r [] bs h = absurd (omega arith)
handle_key-end again r (c ∷ text) bs h = refl

-- A text of characters that are no control characters, not empty and of at most 8192 bytes, between the
-- marks of a paste is returned as one paste of that text by a reader that is in no paste, within one round
-- for each character and two for the marks; what stands behind is left, and the paste is over.
pub read_buffered-paste :
    (r : InputReader) (text : Str) (rest : List ℕ) (f : ℕ)
    → r.in_paste ≡ false
    → All Printable text
    → 1 ≤ length text
    → len text ≤ paste_limit
    → read_buffered
        (suc (length text + suc f))
        (at r (paste_start ++ (bytes text ++ (paste_end ++ rest))))
      ≡ returns (paste_event text) (pasted r [] rest)
read_buffered-paste r text rest f out printable there fits =
    let behind = bytes text ++ (paste_end ++ rest) in
    read_buffered-round (length text + suc f) (at r (paste_start ++ behind)) _ refl
      (ap (λ b. b && r.paste_limit_hit) out) (decode_key-paste_start r behind)
    ∙ handle_key-start (read_buffered (length text + suc f)) r behind
    ∙ read_buffered-bytes (suc f) r [] text (paste_end ++ rest) printable fits
    ∙ read_buffered-round f (pasting r text (paste_end ++ rest)) _ refl refl
        (decode_key-paste_end r text rest)
    ∙ handle_key-end (read_buffered f) r text rest there
