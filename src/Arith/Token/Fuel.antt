-- ===== src/Arith/Token/Fuel.antt =====
-- The rounds of `tokenize` of crates/epsh/src/arith.rs, and the characters that each leaves.
use ish.Prelude.{
  ℕ, zero, suc, ◌≤◌, ◌≢◌, Bool, true, false, ◌&&◌, ◌||◌, Option, none, some, List, [], ◌∷◌, length,
  arith, ◌==◌, if◌then◌else◌, Bool-cases, inl, inr,
}
use ish.Utf8.{Str}
use ish.Arith.Token.{
  ArithToken, num, out_of_fuel, invalid_number, Tokens, ok, err, Lexed, token, blank, bad, scan,
  number, from_str_radix, follow, angle, double, lex_number, lex_name, lex, tokenize, tokenize_from,
  is_digit, is_hex, is_octal, is_name_char, push, select, arms,
}

-- A round leaves at most `n` characters, and its error is no lack of fuel.
abbrev Leaves : ℕ → Lexed → Type 0
Leaves n (token t rest) = length rest ≤ n
Leaves n (blank rest) = length rest ≤ n
Leaves n (bad e) = e ≢ out_of_fuel

either : (n : ℕ) (b : Bool) (x y : Lexed) → Leaves n x → Leaves n y → Leaves n (if b then x else y)
either n true x y h k = h
either n false x y h k = k

length-scan : (p : ℕ → Bool) (s : Str) → length ((scan p s).1) ≤ length s
unfolding scan
length-scan p [] = omega arith
length-scan p (c ∷ s) = elim (Bool-cases (p c)) [
  | inl yes_it ↦ rw (yes_it, scan) (omega (arith, length-scan p s))
  | inr no_it ↦ rw (no_it, scan) (omega arith)
]

number_by :
    (n : ℕ) (o : Option ℕ) (rest : Str)
    → length rest ≤ n
    → Leaves n (elim o [ none ↦ bad invalid_number | some v ↦ token (num v) rest ])
number_by n none rest h = λ e. cc
number_by n (some v) rest h = h

number-Leaves : (n radix : ℕ) (s : Str × Str) → length (s.1) ≤ n → Leaves n (number radix s)
unfolding number
number-Leaves n radix (digits, rest) h = number_by n (from_str_radix radix digits) rest h

follow-Leaves : (c : ℕ) (l s : ArithToken) (rest : Str) → Leaves (length rest) (follow c l s rest)
unfolding follow
follow-Leaves c l s [] = omega arith
follow-Leaves c l s (d ∷ rest) = either _ (d == c) _ _ (omega arith) (omega arith)

Leaves-more : (n : ℕ) (x : Lexed) → Leaves n x → Leaves (suc n) x
Leaves-more n (token t rest) h = omega arith
Leaves-more n (blank rest) h = omega arith
Leaves-more n (bad e) h = h

angle-Leaves :
    (c : ℕ) (p o s a : ArithToken) (rest : Str) → Leaves (length rest) (angle c p o s a rest)
unfolding angle
angle-Leaves c p o s a [] = omega arith
angle-Leaves c p o s a (d ∷ rest) =
    either _ (d == b'=') _ _ (omega arith)
      (either _ (d == c) _ _ (Leaves-more _ _ (follow-Leaves b'=' a s rest)) (omega arith))

double-Leaves :
    (c : ℕ) (d a p : ArithToken) (rest : Str) → Leaves (length rest) (double c d a p rest)
unfolding double
double-Leaves c d a p [] = omega arith
double-Leaves c d a p (x ∷ rest) =
    either _ (x == c) _ _ (omega arith) (either _ (x == b'=') _ _ (omega arith) (omega arith))

lex_number-Leaves : (c : ℕ) (rest : Str) → Leaves (length rest) (lex_number c rest)
unfolding lex_number
lex_number-Leaves c [] = number-Leaves 0 10 (c ∷ [], []) (omega arith)
lex_number-Leaves c (d ∷ rest) =
    either _ (c == b'0' && (d == b'x' || d == b'X')) _ _
      (number-Leaves _ 16 (scan is_hex rest) (omega (arith, length-scan is_hex rest)))
      (either _ (c == b'0' && is_octal d) _ _
        (number-Leaves _ 8 (scan is_octal (d ∷ rest)) (length-scan is_octal (d ∷ rest)))
        (number-Leaves _ 10 (c ∷ (scan is_digit (d ∷ rest)).0, (scan is_digit (d ∷ rest)).1)
          (length-scan is_digit (d ∷ rest))))

lex_name-Leaves : (c : ℕ) (rest : Str) → Leaves (length rest) (lex_name c rest)
unfolding lex_name
lex_name-Leaves c rest = length-scan is_name_char rest

abbrev ArmsLeave : ℕ → List (Bool × Lexed) → Type 0
ArmsLeave n [] = Unit
ArmsLeave n ((test, outcome) ∷ more) = Leaves n outcome × ArmsLeave n more

select-Leaves : (n : ℕ) (more : List (Bool × Lexed)) → ArmsLeave n more → Leaves n (select more)
unfolding select
select-Leaves n [] h = λ e. cc
select-Leaves n ((test, outcome) ∷ more) (h, k) =
    either n test outcome (select more) h (select-Leaves n more k)

infixr 5 ◌&◌
◌&◌ : {A B : Type 0} → A → B → A × B
a & b = (a, b)

arms-ArmsLeave : (c : ℕ) (rest : Str) → ArmsLeave (length rest) (arms c rest)
unfolding arms
arms-ArmsLeave c rest =
    let le : length rest ≤ length rest = omega arith in
    le
    & lex_number-Leaves c rest
    & lex_name-Leaves c rest
    & follow-Leaves _ _ _ rest
    & follow-Leaves _ _ _ rest
    & follow-Leaves _ _ _ rest
    & follow-Leaves _ _ _ rest
    & follow-Leaves _ _ _ rest
    & le
    & le
    & follow-Leaves _ _ _ rest
    & follow-Leaves _ _ _ rest
    & angle-Leaves _ _ _ _ _ rest
    & angle-Leaves _ _ _ _ _ rest
    & double-Leaves _ _ _ _ rest
    & double-Leaves _ _ _ _ rest
    & follow-Leaves _ _ _ rest
    & le
    & le
    & le
    & tt

lex-Leaves : (c : ℕ) (rest : Str) → Leaves (length rest) (lex c rest)
unfolding lex
lex-Leaves c rest = select-Leaves (length rest) (arms c rest) (arms-ArmsLeave c rest)

-- No error of the tokens is a lack of fuel.
abbrev pub Tokenized : Tokens → Type 0
Tokenized (ok ts) = Unit
Tokenized (err e) = e ≢ out_of_fuel

push-Tokenized : (t : ArithToken) (ts : Tokens) → Tokenized ts → Tokenized (push t ts)
push-Tokenized t (ok ts) h = tt
push-Tokenized t (err e) h = h

round :
    (n : ℕ) (x : Lexed) (next : Str → Tokens)
    → Leaves n x
    → ((rest : Str) → length rest ≤ n → Tokenized (next rest))
    → Tokenized
        (elim x [ bad e ↦ err e | blank rest ↦ next rest | token t rest ↦ push t (next rest) ])
round n (bad e) next h k = h
round n (blank rest) next h k = k rest h
round n (token t rest) next h k = push-Tokenized t (next rest) (k rest h)

from-Tokenized : (f : ℕ) (s : Str) → length s ≤ f → Tokenized (tokenize_from f s)
unfolding tokenize_from
from-Tokenized zero [] h = tt
from-Tokenized (suc f) [] h = tt
from-Tokenized zero (c ∷ s) h = absurd (omega arith)
from-Tokenized (suc f) (c ∷ s) h =
    round (length s) (lex c s) (tokenize_from f) (lex-Leaves c s)
      λ rest k. from-Tokenized f rest (omega arith)

pub tokenize-Tokenized : (s : Str) → Tokenized (tokenize s)
unfolding tokenize
tokenize-Tokenized s = from-Tokenized (length s) s (omega arith)
