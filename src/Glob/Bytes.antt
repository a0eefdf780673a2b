-- ===== src/Glob/Bytes.antt =====
-- The encoding of any bytes as shell text of crates/epsh/src/encoding.rs: `bytes_to_str`, whose loop goes
-- from one byte that is no UTF-8 to the next, and `str_to_bytes`.
use ish.Prelude.{
  ℕ, zero, suc, ◌+◌, ◌-◌, ◌≤◌, ◌<◌, ◌≡◌, refl, sym, ap, ap₂, ◌∙◌, true, false, ◌&&◌, Option, none,
  some, List, [], ◌∷◌, ◌++◌, length, length-append, append_assoc, append-nil, All, leb, ◌==◌,
  if◌then◌else◌, arith, Bool-cases, if_on, if_off, inl, inr,
}
use ish.Utf8.{Str, encode, bytes}
use ish.Utf8.Decode.{decode_char, length-encode, Scalars, decode_char-encode}
use ish.Utf8.Encode.{decode_char-Back, decode_char-high}
use ish.Glob.{Text}
use ish.Glob.Encoding.{escape_mark, is_raw_byte, needs_escape, push_text}

-- The bytes up to `valid_up_to`, as text, and the others.
unfoldable pub split_valid : ℕ → List ℕ → Str × List ℕ
unfolding decode_char
split_valid zero bs = ([], bs)
split_valid (suc f) bs = elim (decode_char bs) [
  | none ↦ ([], bs)
  | some (c, rest) ↦ let next = split_valid f rest in (c ∷ (next.0), next.1)
]

-- The loop of `bytes_to_str`.
unfoldable pub to_str : ℕ → List ℕ → Text
unfolding split_valid push_text
to_str zero bs = []
to_str (suc f) bs =
    let parts = split_valid (length bs) bs in
    push_text true (parts.0)
    ++ (elim (parts.1) [ [] ↦ [] | ◌∷◌ b more ↦ (escape_mark + b) ∷ to_str f more ])

unfoldable pub bytes_to_str : List ℕ → Text
unfolding to_str
bytes_to_str bs = to_str (suc (length bs)) bs

-- The bytes of a character that no mark stands before.
unfoldable pub unmarked_bytes : ℕ → List ℕ
unfolding is_raw_byte encode
unmarked_bytes c =
    if c == escape_mark
    then encode escape_mark
    else if is_raw_byte c
    then (c - escape_mark) ∷ []
    else encode c

unfoldable pub str_to_bytes : Text → List ℕ
unfolding unmarked_bytes
str_to_bytes [] = []
str_to_bytes (c ∷ []) = unmarked_bytes c
str_to_bytes (c ∷ d ∷ s) =
    let behind = str_to_bytes s in
    let next = str_to_bytes (d ∷ s) in
    if c == escape_mark then encode d ++ behind else unmarked_bytes c ++ next

-- One character that is read back as the bytes that the unmarked character stands for.
str_to_bytes-unmarked :
    (c : ℕ) (s : Text)
    → (c == escape_mark) ≡ false
    → str_to_bytes (c ∷ s) ≡ unmarked_bytes c ++ str_to_bytes s
unfolding str_to_bytes
str_to_bytes-unmarked c [] h = sym (append-nil (unmarked_bytes c))
str_to_bytes-unmarked c (d ∷ s) h = if_off (c == escape_mark) _ _ h

plain_bytes : (c : ℕ) → needs_escape true c ≡ false → unmarked_bytes c ≡ encode c
unfolding unmarked_bytes needs_escape
plain_bytes c h =
    if_off (c == escape_mark) _ _ (ground arith) ∙ if_off (is_raw_byte c) _ _ (ground arith)

not_mark : (c : ℕ) → needs_escape true c ≡ false → (c == escape_mark) ≡ false
unfolding needs_escape
not_mark c h = ground arith

marked : (c : ℕ) (s : Text) → str_to_bytes (escape_mark ∷ c ∷ s) ≡ encode c ++ str_to_bytes s
unfolding str_to_bytes
marked c s = refl

str_to_bytes-push_text :
    (text tail : Text)
    → str_to_bytes (push_text true text ++ tail) ≡ bytes text ++ str_to_bytes tail
unfolding push_text bytes
str_to_bytes-push_text [] tail = refl
str_to_bytes-push_text (c ∷ text) tail =
    let later = str_to_bytes-push_text text tail in
    let joined = sym (append_assoc (encode c) (bytes text) (str_to_bytes tail)) in
    elim (Bool-cases (needs_escape true c)) [
      | inl e ↦ rw e (marked c _ ∙ ap (λ x. encode c ++ x) later ∙ joined)
      | inr e ↦ rw e (
          str_to_bytes-unmarked c _ (not_mark c e)
          ∙ ap₂ (λ x y. x ++ y) (plain_bytes c e) later
          ∙ joined)
    ]

raw_bytes : (b : ℕ) → 0x80 ≤ b → b < 256 → unmarked_bytes (escape_mark + b) ≡ b ∷ []
unfolding unmarked_bytes is_raw_byte
raw_bytes b h k =
    if_off (escape_mark + b == escape_mark) _ _ (ground arith)
    ∙ if_on (leb 57472 (escape_mark + b) && leb (escape_mark + b) 57599) _ _ (ground arith)
    ∙ ap (λ x. x ∷ []) (omega arith)

str_to_bytes-raw :
    (b : ℕ) (s : Text)
    → 0x80 ≤ b
    → b < 256
    → str_to_bytes ((escape_mark + b) ∷ s) ≡ b ∷ str_to_bytes s
str_to_bytes-raw b s h k =
    str_to_bytes-unmarked (escape_mark + b) s (ground arith)
    ∙ ap (λ x. x ++ str_to_bytes s) (raw_bytes b h k)

-- What is left behind the valid text: nothing, or a byte that is not ASCII and more.
abbrev High : List ℕ → Type 0
High [] = Unit
High (b ∷ more) = 0x80 ≤ b

abbrev Splits : List ℕ → Str × List ℕ → Type 0
Splits bs (text, rest) = (bytes text ++ rest ≡ bs) × High rest

High-none : (bs : List ℕ) → decode_char bs ≡ none → High bs
High-none [] h = tt
High-none (b ∷ bs) h = decode_char-high b bs h

Splits-cases :
    (f : ℕ) (bs : List ℕ) (o : Option (ℕ × List ℕ))
    → decode_char bs ≡ o
    → ((rest : List ℕ) → length rest < length bs → Splits rest (split_valid f rest))
    → Splits bs (elim o [
      | none ↦ ([], bs)
      | some (c, rest) ↦ let next = split_valid f rest in (c ∷ (next.0), next.1)
    ])
unfolding bytes
Splits-cases f bs none e later = (refl, High-none bs e)
Splits-cases f bs (some (c, rest)) e later =
    let back = decode_char-Back bs c rest e in
    let next = split_valid f rest in
    let (joined, high) =
      later rest (omega (arith, ap length back, length-append (encode c) rest, length-encode c)) in
    (
      append_assoc (encode c) (bytes (next.0)) (next.1) ∙ ap (λ x. encode c ++ x) joined ∙ back,
      high,
    )

split_valid-Splits : (f : ℕ) (bs : List ℕ) → length bs ≤ f → Splits bs (split_valid f bs)
unfolding split_valid bytes
split_valid-Splits zero [] h = (refl, tt)
split_valid-Splits zero (b ∷ bs) h = absurd (omega arith)
split_valid-Splits (suc f) bs h =
    Splits-cases f bs (decode_char bs) refl λ rest less. split_valid-Splits f rest (omega arith)

abbrev pub IsByte : ℕ → Type 0
IsByte b = b < 256

All-behind : (xs ys : List ℕ) → All IsByte (xs ++ ys) → All IsByte ys
All-behind [] ys h = h
All-behind (x ∷ xs) ys h = All-behind xs ys (h.1)

-- A round of the loop: the valid text, and the byte behind it with what follows.
to_str-round :
    (f : ℕ) (text : Str) (rest bs : List ℕ)
    → bytes text ++ rest ≡ bs
    → High rest
    → All IsByte rest
    → ((more : List ℕ)
        → length more < length bs
        → All IsByte more
        → str_to_bytes (to_str f more) ≡ more)
    → str_to_bytes (
        push_text true text
        ++ (elim rest [ [] ↦ [] | ◌∷◌ b more ↦ (escape_mark + b) ∷ to_str f more ]))
      ≡ bs
unfolding str_to_bytes
to_str-round f text [] bs joined high fine later = str_to_bytes-push_text text [] ∙ joined
to_str-round f text (b ∷ more) bs joined high fine later =
    str_to_bytes-push_text text ((escape_mark + b) ∷ to_str f more)
    ∙ ap (λ x. bytes text ++ x)
        (str_to_bytes-raw b (to_str f more) high (fine.0)
          ∙ ap (b ∷◌) (
              later more (omega (arith, ap length joined, length-append (bytes text) (b ∷ more)))
                (fine.1)))
    ∙ joined

str_to_bytes-to_str :
    (f : ℕ) (bs : List ℕ) → length bs < f → All IsByte bs → str_to_bytes (to_str f bs) ≡ bs
unfolding to_str
str_to_bytes-to_str zero bs h k = absurd (omega arith)
str_to_bytes-to_str (suc f) bs h k =
    let parts = split_valid (length bs) bs in
    let (joined, high) = split_valid-Splits (length bs) bs (omega arith) in
    to_str-round f (parts.0) (parts.1) bs joined high
      (All-behind (bytes (parts.0)) (parts.1) (rw joined k))
      λ more less fine. str_to_bytes-to_str f more (omega arith) fine

-- `str_to_bytes` reads back every string of bytes that `bytes_to_str` encodes, valid UTF-8 or not.
pub str_to_bytes-bytes_to_str : (bs : List ℕ) → All IsByte bs → str_to_bytes (bytes_to_str bs) ≡ bs
unfolding bytes_to_str
str_to_bytes-bytes_to_str bs h = str_to_bytes-to_str (suc (length bs)) bs (omega arith) h

abbrev grow_text : ℕ → Str × List ℕ → Str × List ℕ
grow_text c (text, rest) = (c ∷ text, rest)

abbrev first_round : (List ℕ → Text) → Str × List ℕ → Text
first_round later (text, rest) =
    push_text true text ++ (elim rest [ [] ↦ [] | ◌∷◌ b more ↦ (escape_mark + b) ∷ later more ])

split_valid-next :
    (f c : ℕ) (bs rest : List ℕ)
    → decode_char bs ≡ some (c, rest)
    → split_valid (suc f) bs ≡ (c ∷ ((split_valid f rest).0), (split_valid f rest).1)
unfolding split_valid
split_valid-next f c bs rest e =
    ap
      (λ (o : Option (ℕ × List ℕ)). elim o as (λ _. Str × List ℕ) [
        | none ↦ ([], bs)
        | some (d, more) ↦ (d ∷ ((split_valid f more).0), (split_valid f more).1)
      ])
      e

split_valid-bytes :
    (f : ℕ) (text : Str)
    → length (bytes text) ≤ f
    → Scalars text
    → split_valid f (bytes text) ≡ (text, [])
unfolding split_valid bytes
split_valid-bytes zero [] h k = refl
split_valid-bytes (suc f) [] h k = refl
split_valid-bytes zero (c ∷ text) h k =
    absurd (omega (arith, length-append (encode c) (bytes text), length-encode c))
split_valid-bytes (suc f) (c ∷ text) h k =
    split_valid-next f c (encode c ++ bytes text) (bytes text)
      (decode_char-encode c (bytes text) (k.0))
    ∙ ap (grow_text c) (
        split_valid-bytes f text
          (omega (arith, length-append (encode c) (bytes text), length-encode c)) (k.1))

-- On valid text the loop is one round, and the encoding is that of Glob.Encoding.
pub bytes_to_str-bytes :
    (text : Str) → Scalars text → bytes_to_str (bytes text) ≡ push_text true text
unfolding bytes_to_str to_str
bytes_to_str-bytes text h =
    ap (first_round (to_str (length (bytes text))))
      (split_valid-bytes (length (bytes text)) text (omega arith) h)
    ∙ append-nil (push_text true text)
