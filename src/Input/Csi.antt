-- ===== src/Input/Csi.antt =====
-- What `decode_csi` of src/input.rs reads of the parameters that a terminal prints.
use ish.Prelude.{
  ℕ, ◌+◌, ◌-◌, ◌*◌, ◌≤◌, ◌<◌, ◌≡◌, refl, ap, ◌∙◌, Bool, true, false, none, List, [], ◌∷◌, ◌++◌, map,
  length, append_assoc, All, leb, ◌==◌, arith, if_on, if_off,
}
use ish.Utf8.{between}
use ish.Input.{
  InputReader, Decoded, at, CsiState, CsiStep, next_byte, final_byte, reject, csi_digit, csi_step,
  csi_to_key, csi_loop, decode_csi, decode_escape,
}
use ish.Input.Decode.{decode_byte, decode_next, decode_key}

-- The number that decimal digits stand for, behind a number read before.
abbrev pub value : ℕ → List ℕ → ℕ
value n [] = n
value n (d ∷ ds) = value (n * 10 + d) ds

abbrev pub print_digits : List ℕ → List ℕ
print_digits ds = map (λ d. b'0' + d) ds

-- Parameters with semicolons between them.
abbrev pub print_params : List ℕ → List (List ℕ) → List ℕ
print_params f [] = print_digits f
print_params f (g ∷ fs) = print_digits f ++ (b';' ∷ print_params g fs)

-- Digits of a number of 32 bits, at least one.
abbrev pub IsParam : List ℕ → Type 0
IsParam ds = All (λ d. d < 10) ds × (value 0 ds ≤ 4294967295) × (1 ≤ length ds)

abbrev reading : List ℕ → ℕ → Bool → CsiState
reading params current has_digit = record {
  params = params;
  current = current;
  has_digit = has_digit;
  invalid = false;
}

value-grows : (n : ℕ) (ds : List ℕ) → n ≤ value n ds
value-grows n [] = omega arith
value-grows n (d ∷ ds) = omega (arith, value-grows (n * 10 + d) ds)

-- What the loop does behind a step.
abbrev csi_rest : InputReader → ℕ → List ℕ → CsiStep → Decoded
csi_rest r b bs step = elim step [
  | next_byte next ↦ csi_loop next r bs
  | final_byte params ↦ csi_to_key b params (at r bs)
  | reject ↦ (none, at r bs)
]

csi_step-digit :
    (d : ℕ) (params : List ℕ) (current : ℕ) (has_digit : Bool)
    → d < 10
    → current * 10 + d ≤ 4294967295
    → csi_step (b'0' + d) (reading params current has_digit)
      ≡ next_byte (reading params (current * 10 + d) true)
unfolding csi_step csi_digit
csi_step-digit d params current has_digit h k =
    let digit : b'0' + d - b'0' ≡ d = omega arith in
    if_on (between b'0' b'9' (b'0' + d)) _ _ (ground arith)
    ∙ ap next_byte (
        ap (λ e. csi_digit e (reading params current has_digit)) digit
        ∙ if_on (leb (current * 10 + d) 4294967295) _ _ (ground arith))

csi_step-semicolon :
    (params : List ℕ) (current : ℕ)
    → csi_step b';' (reading params current true)
      ≡ next_byte (reading (params ++ current ∷ []) 0 false)
unfolding csi_step
csi_step-semicolon params current = refl

csi_step-final :
    (b : ℕ) (params : List ℕ) (current : ℕ)
    → 0x40 ≤ b
    → b ≤ 0x7E
    → csi_step b (reading params current true) ≡ final_byte (params ++ current ∷ [])
unfolding csi_step
csi_step-final b params current h k =
    if_off (between b'0' b'9' b) _ _ (ground arith)
    ∙ if_off (b == b';') _ _ (ground arith)
    ∙ if_on (between 0x40 0x7E b) _ _ (ground arith)

-- One byte of the loop.
csi_loop-step :
    (st : CsiState) (r : InputReader) (b : ℕ) (bs : List ℕ) (step : CsiStep)
    → csi_step b st ≡ step
    → csi_loop st r (b ∷ bs) ≡ csi_rest r b bs step
unfolding csi_loop
csi_loop-step st r b bs step e = ap (csi_rest r b bs) e

abbrev any_digit : Bool → List ℕ → Bool
any_digit has_digit [] = has_digit
any_digit has_digit (d ∷ ds) = true

any_digit_there : (ds : List ℕ) → any_digit true ds ≡ true
any_digit_there [] = refl
any_digit_there (d ∷ ds) = refl

csi_loop-digits :
    (r : InputReader) (params : List ℕ) (current : ℕ) (has_digit : Bool) (ds rest : List ℕ)
    → All (λ d. d < 10) ds
    → value current ds ≤ 4294967295
    → csi_loop (reading params current has_digit) r (print_digits ds ++ rest)
      ≡ csi_loop (reading params (value current ds) (any_digit has_digit ds)) r rest
csi_loop-digits r params current has_digit [] rest h k = refl
csi_loop-digits r params current has_digit (d ∷ ds) rest h k =
    let grown = value-grows (current * 10 + d) ds in
    csi_loop-step _ r (b'0' + d) (print_digits ds ++ rest) _
      (csi_step-digit d params current has_digit (h.0) (omega arith))
    ∙ csi_loop-digits r params (current * 10 + d) true ds rest (h.1) k
    ∙ ap (λ b. csi_loop (reading params (value (current * 10 + d) ds) b) r rest)
        (any_digit_there ds)

-- A parameter that is there has set the flag.
IsParam-any_digit : (ds : List ℕ) → 1 ≤ length ds → any_digit false ds ≡ true
IsParam-any_digit [] h = absurd (omega arith)
IsParam-any_digit (d ∷ ds) h = refl

csi_loop-param :
    (r : InputReader) (params ds rest : List ℕ)
    → IsParam ds
    → csi_loop (reading params 0 false) r (print_digits ds ++ rest)
      ≡ csi_loop (reading params (value 0 ds) true) r rest
csi_loop-param r params ds rest (digits, fits, there) =
    csi_loop-digits r params 0 false ds rest digits fits
    ∙ ap (λ b. csi_loop (reading params (value 0 ds) b) r rest) (IsParam-any_digit ds there)

csi_loop-print_params :
    (r : InputReader) (params f : List ℕ) (fs : List (List ℕ)) (b : ℕ) (rest : List ℕ)
    → All IsParam (f ∷ fs)
    → 0x40 ≤ b
    → b ≤ 0x7E
    → csi_loop (reading params 0 false) r (print_params f fs ++ (b ∷ rest))
      ≡ csi_to_key b (params ++ map (value 0) (f ∷ fs)) (at r rest)
csi_loop-print_params r params f [] b rest h low high =
    csi_loop-param r params f (b ∷ rest) (h.0)
    ∙ csi_loop-step _ r b rest _ (csi_step-final b params (value 0 f) low high)
csi_loop-print_params r params f (g ∷ fs) b rest h low high =
    ap (csi_loop (reading params 0 false) r)
      (append_assoc (print_digits f) (b';' ∷ print_params g fs) (b ∷ rest))
    ∙ csi_loop-param r params f (b';' ∷ (print_params g fs ++ (b ∷ rest))) (h.0)
    ∙ csi_loop-step _ r b';' (print_params g fs ++ (b ∷ rest)) _
        (csi_step-semicolon params (value 0 f))
    ∙ csi_loop-print_params r (params ++ value 0 f ∷ []) g fs b rest (h.1) low high
    ∙ ap (λ ps. csi_to_key b ps (at r rest))
        (append_assoc params (value 0 f ∷ []) (map (value 0) (g ∷ fs)))

-- Behind ESC and `[`, parameters of 32 bits printed in decimal with semicolons between them and a final
-- byte give the key that `csi_to_key` has for the final byte and those numbers, and what stands behind is
-- left.
pub decode_key-print_params :
    (r : InputReader) (f : List ℕ) (fs : List (List ℕ)) (b : ℕ) (rest : List ℕ)
    → All IsParam (f ∷ fs)
    → 0x40 ≤ b
    → b ≤ 0x7E
    → decode_key (at r (0x1B ∷ b'[' ∷ (print_params f fs ++ (b ∷ rest))))
      ≡ csi_to_key b (map (value 0) (f ∷ fs)) (at r rest)
unfolding decode_key decode_next decode_byte decode_escape decode_csi
decode_key-print_params r f fs b rest h low high =
    csi_loop-print_params (at r (print_params f fs ++ (b ∷ rest))) [] f fs b rest h low high
