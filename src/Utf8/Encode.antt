-- ===== src/Utf8/Encode.antt =====
-- The other way round in the standard library's UTF-8: what `from_utf8` reads is an encoding.
use ish.Prelude.{
  ℕ, ◌+◌, ◌-◌, ◌*◌, ◌/◌, ◌%◌, ◌≤◌, ◌<◌, ◌≡◌, refl, sym, ap, ap₂, ◌∙◌, Bool, true, false, Option,
  none, some, List, [], ◌∷◌, ◌++◌, ltb, if◌then◌else◌, arith, Bool-cases, if_on, if_off, inl, inr,
}
use ish.Utf8.{encode, is_continuation}
use ish.Utf8.Decode.{decode_char, two_bytes, three_bytes, four_bytes}

some_if :
    {A : Type 0} (b : Bool) (x y : A) → (if b then some x else none) ≡ some y → (b ≡ true) × (x ≡ y)
some_if true x y h = (refl, cc)
some_if false x y h = cc

some_not : {A : Type 0} {x : A} → some x ≡ none → ⊥
some_not h = cc

abbrev pair_of : ℕ → ℕ → ℕ × ℕ
pair_of x y = (x, y)

encode_two : (c : ℕ) → 0x80 ≤ c → c < 0x800 → encode c ≡ (0xC0 + c / 64) ∷ (0x80 + c % 64) ∷ []
unfolding encode
encode_two c h k = if_off (ltb c 0x80) _ _ (ground arith) ∙ if_on (ltb c 0x800) _ _ (ground arith)

encode_three :
    (c : ℕ)
    → 0x800 ≤ c
    → c < 0x10000
    → encode c ≡ (0xE0 + c / 4096) ∷ (0x80 + c / 64 % 64) ∷ (0x80 + c % 64) ∷ []
unfolding encode
encode_three c h k =
    if_off (ltb c 0x80) _ _ (ground arith)
    ∙ if_off (ltb c 0x800) _ _ (ground arith)
    ∙ if_on (ltb c 0x10000) _ _ (ground arith)

encode_four :
    (c : ℕ)
    → 0x10000 ≤ c
    → encode c
      ≡ (0xF0 + c / 262144) ∷ (0x80 + c / 4096 % 64) ∷ (0x80 + c / 64 % 64) ∷ (0x80 + c % 64) ∷ []
unfolding encode
encode_four c h =
    if_off (ltb c 0x80) _ _ (ground arith)
    ∙ if_off (ltb c 0x800) _ _ (ground arith)
    ∙ if_off (ltb c 0x10000) _ _ (ground arith)

abbrev pub Back : List ℕ → Option (ℕ × List ℕ) → Type 0
Back bs o = (c : ℕ) (rest : List ℕ) → o ≡ some (c, rest) → encode c ++ rest ≡ bs

Back-if :
    (bs : List ℕ) (b : Bool) (x y : Option (ℕ × List ℕ))
    → (b ≡ true → Back bs x)
    → (b ≡ false → Back bs y)
    → Back bs (if b then x else y)
Back-if bs true x y h k = h refl
Back-if bs false x y h k = k refl

-- Where the value's encoding is the bytes, they are read back.
Back-some : (bs : List ℕ) (v : ℕ) (rest : List ℕ) → encode v ++ rest ≡ bs → Back bs (some (v, rest))
Back-some bs v rest h c behind e =
    ap
      (λ (o : Option (ℕ × List ℕ)). elim o as (λ _. List ℕ) [
        | none ↦ []
        | some (x, r) ↦ encode x ++ r
      ])
      (sym e)
    ∙ h

Back-none : (bs : List ℕ) → Back bs none
Back-none bs c rest e = cc

two_bytes-Back : (a : ℕ) (bs : List ℕ) → 0xC0 ≤ a → a < 0xE0 → Back (a ∷ bs) (two_bytes a bs)
unfolding two_bytes is_continuation
two_bytes-Back a [] h k = Back-none (a ∷ [])
two_bytes-Back a (b ∷ bs) h k =
    let v = (a - 0xC0) * 64 + (b - 0x80) in
    Back-if _ _ _ _
      (λ t.
        let high : 0x80 ≤ b = ground arith in
        let low : b < 0xC0 = ground arith in
        Back-some _ v bs (
          ap (λ x. x ++ bs)
            (encode_two v (ground arith) (omega arith)
              ∙ ap₂ (λ x y. x ∷ y ∷ []) (omega arith) (omega arith))))
      λ _. Back-none _

three_bytes-Back : (a : ℕ) (bs : List ℕ) → 0xE0 ≤ a → a < 0xF0 → Back (a ∷ bs) (three_bytes a bs)
unfolding three_bytes is_continuation
three_bytes-Back a [] h k = Back-none (a ∷ [])
three_bytes-Back a (b ∷ []) h k = Back-none (a ∷ b ∷ [])
three_bytes-Back a (b ∷ c ∷ bs) h k =
    let v = (a - 0xE0) * 4096 + (b - 0x80) * 64 + (c - 0x80) in
    Back-if _ _ _ _
      (λ t.
        let b_high : 0x80 ≤ b = ground arith in
        let b_low : b < 0xC0 = ground arith in
        let c_high : 0x80 ≤ c = ground arith in
        let c_low : c < 0xC0 = ground arith in
        Back-some _ v bs (
          ap (λ x. x ++ bs)
            (encode_three v (ground arith) (omega arith)
              ∙ ap₂ (λ x (y : ℕ × ℕ). x ∷ y.0 ∷ y.1 ∷ []) (omega arith)
                  (ap₂ (λ x y. pair_of x y) (omega arith) (omega arith)))))
      λ _. Back-none _

four_bytes-Back : (a : ℕ) (bs : List ℕ) → 0xF0 ≤ a → a < 0xF8 → Back (a ∷ bs) (four_bytes a bs)
unfolding four_bytes is_continuation
four_bytes-Back a [] h k = Back-none (a ∷ [])
four_bytes-Back a (b ∷ []) h k = Back-none (a ∷ b ∷ [])
four_bytes-Back a (b ∷ c ∷ []) h k = Back-none (a ∷ b ∷ c ∷ [])
four_bytes-Back a (b ∷ c ∷ d ∷ bs) h k =
    let v = (a - 0xF0) * 262144 + (b - 0x80) * 4096 + (c - 0x80) * 64 + (d - 0x80) in
    Back-if _ _ _ _
      (λ t.
        let b_high : 0x80 ≤ b = ground arith in
        let b_low : b < 0xC0 = ground arith in
        let c_high : 0x80 ≤ c = ground arith in
        let c_low : c < 0xC0 = ground arith in
        let d_high : 0x80 ≤ d = ground arith in
        let d_low : d < 0xC0 = ground arith in
        Back-some _ v bs (
          ap (λ x. x ++ bs)
            (encode_four v (ground arith)
              ∙ ap₂ (λ (x y : ℕ × ℕ). x.0 ∷ x.1 ∷ y.0 ∷ y.1 ∷ [])
                  (ap₂ (λ x y. pair_of x y) (omega arith) (omega arith))
                  (ap₂ (λ x y. pair_of x y) (omega arith) (omega arith)))))
      λ _. Back-none _

one_byte : (a : ℕ) → a < 0x80 → encode a ≡ a ∷ []
unfolding encode
one_byte a h = if_on (ltb a 0x80) _ _ (ground arith)

-- A character that is read off the front is what the front encodes.
pub decode_char-Back : (bs : List ℕ) → Back bs (decode_char bs)
unfolding decode_char
decode_char-Back [] = Back-none []
decode_char-Back (a ∷ bs) =
    Back-if _ (ltb a 0x80) _ _
      (λ t. Back-some _ a bs (ap (λ x. x ++ bs) (one_byte a (ground arith))))
      λ e.
        Back-if _ (ltb a 0xC0) _ _ (λ _. Back-none _)
          λ d.
            Back-if _ (ltb a 0xE0) _ _ (λ t. two_bytes-Back a bs (ground arith) (ground arith))
              λ c.
                Back-if _ (ltb a 0xF0) _ _
                  (λ t. three_bytes-Back a bs (ground arith) (ground arith))
                  λ b.
                    Back-if _ (ltb a 0xF8) _ _
                      (λ t. four_bytes-Back a bs (ground arith) (ground arith)) λ _. Back-none _

-- A front that is no character begins with a byte that is not ASCII.
pub decode_char-high : (a : ℕ) (bs : List ℕ) → decode_char (a ∷ bs) ≡ none → 0x80 ≤ a
unfolding decode_char
decode_char-high a bs h = elim (Bool-cases (ltb a 0x80)) [
  | inl e ↦ absurd (some_not (sym (if_on (ltb a 0x80) (some (a, bs)) _ e) ∙ h))
  | inr e ↦ ground arith
]
