-- ===== src/Vars/Integer.antt =====
-- The integers of crates/epsh/src/var.rs: the decimal text of an i64, and the cached number.
use ish.Prelude.{
  ℕ, zero, suc, ◌+◌, ◌-◌, ◌*◌, ◌/◌, ◌%◌, ◌<◌, ◌≤◌, ◌≡◌, refl, sym, ◌∙◌, ap, true, Option, some, [],
  ◌∷◌, arith, leb, ltb, if◌then◌else◌, ◌>>=◌, Bool-cases, inl, inr,
}
use ish.Utf8.{Str}
use ish.Int64.{min_value, modulus, is_negative, unsigned_abs}
use ish.Vars.{
  is_digit, unsigned, within, parse_int, digits, int_string, Variables, Result, done,
  readonly_variable, is_readonly, entry, update, set_int, set_bytes,
}

digit-is_digit : (d : ℕ) → d < 10 → is_digit (b'0' + d) ≡ true
unfolding is_digit
digit-is_digit d h = ground arith

-- A digit is read as its value.
unsigned-digit :
    (a d n : ℕ) (s : Str) → d < 10 → a * 10 + d ≡ n → unsigned a ((b'0' + d) ∷ s) ≡ unsigned n s
unfolding unsigned
unsigned-digit a d n s h e = rw (digit-is_digit d h) (ap (λ x. unsigned x s) (omega arith))

abbrev power_of_ten : ℕ → ℕ
power_of_ten zero = 1
power_of_ten (suc f) = 10 * power_of_ten f

unsigned-digits :
    (f n : ℕ) (s : Str) → n < power_of_ten f → unsigned 0 (digits f n s) ≡ unsigned n s
unfolding digits
unsigned-digits zero n s h = ap (λ x. unsigned x s) (omega arith)
unsigned-digits (suc f) n s h = elim (Bool-cases (ltb n 10)) [
  | inl small ↦ rw small (unsigned-digit 0 n n s (ground arith) (omega arith))
  | inr large ↦ rw large (
      unsigned-digits f (n / 10) ((b'0' + n % 10) ∷ s) (omega arith)
      ∙ unsigned-digit (n / 10) (n % 10) n s (omega arith) (omega arith))
]

-- The text begins with a digit.
Digital : Str → Type 0
Digital [] = ⊥
Digital (c ∷ s) = b'0' ≤ c

digits-Digital : (f n : ℕ) (s : Str) → Digital s → Digital (digits f n s)
unfolding digits Digital
digits-Digital zero n s h = h
digits-Digital (suc f) n s h = elim (Bool-cases (ltb n 10)) [
  | inl small ↦ rw small (omega arith)
  | inr large ↦ rw large (digits-Digital f (n / 10) ((b'0' + n % 10) ∷ s) (omega arith))
]

parse_int-plain : (t : Str) → Digital t → parse_int t ≡ within (min_value - 1) (unsigned 0 t)
unfolding parse_int Digital
parse_int-plain [] h = absurd h
parse_int-plain (c ∷ []) h = refl
parse_int-plain (c ∷ d ∷ s) h = ground arith

parse_int-minus :
    (t : Str)
    → Digital t
    → parse_int (b'-' ∷ t)
      ≡ (within min_value (unsigned 0 t) >>= λ n. some ((modulus - n) % modulus))
unfolding parse_int Digital
parse_int-minus [] h = absurd h
parse_int-minus (c ∷ s) h = refl

digits_positive-Digital : (f n : ℕ) (s : Str) → Digital (digits (suc f) n s)
unfolding digits Digital
digits_positive-Digital f n s = elim (Bool-cases (ltb n 10)) [
  | inl small ↦ rw small (omega arith)
  | inr large ↦ rw large (digits-Digital f (n / 10) ((b'0' + n % 10) ∷ s) (omega arith))
]

-- What an i64 is printed as, without the sign, is read as its absolute value.
unsigned-twenty : (n : ℕ) → n < modulus → unsigned 0 (digits 20 n []) ≡ some n
unfolding unsigned
unsigned-twenty n h = unsigned-digits 20 n [] (omega arith)

within-some : (bound n : ℕ) → n ≤ bound → within bound (some n) ≡ some n
unfolding within
within-some bound n h = ground arith

positive : (n : ℕ) → n < min_value → parse_int (digits 20 n []) ≡ some n
positive n h =
    parse_int-plain (digits 20 n []) (digits_positive-Digital 19 n [])
    ∙ ap (within (min_value - 1)) (unsigned-twenty n (omega arith))
    ∙ within-some (min_value - 1) n (omega arith)

negative :
    (n : ℕ) → min_value ≤ n → n < modulus → parse_int (b'-' ∷ digits 20 (modulus - n) []) ≡ some n
negative n h k =
    parse_int-minus (digits 20 (modulus - n) []) (digits_positive-Digital 19 (modulus - n) [])
    ∙ ap (λ o. o >>= λ x. some ((modulus - x) % modulus))
        (ap (within min_value) (unsigned-twenty (modulus - n) (omega arith))
          ∙ within-some min_value (modulus - n) (omega arith))
    ∙ ap some (omega arith)

-- The decimal text of an i64 is read back as the i64.
pub parse_int-int_string : (n : ℕ) → n < modulus → parse_int (int_string n) ≡ some n
unfolding int_string is_negative unsigned_abs
parse_int-int_string n h = elim (Bool-cases (leb min_value n)) [
  | inl below ↦ rw below (negative n (ground arith) h)
  | inr above ↦ rw above (positive n (ground arith))
]

stored : Variables → Str → Str → Option ℕ → Result
stored v name text number =
    if is_readonly (v.vars name)
    then readonly_variable v
    else done
        (update v name (some (record (entry (v.vars name)) { cached = number; value = some text })))

set_int-stored :
    (v : Variables) (name : Str) (n : ℕ) → set_int v name n ≡ stored v name (int_string n) (some n)
unfolding set_int stored
set_int-stored v name n = refl

set_bytes-stored :
    (v : Variables) (name text : Str) → set_bytes v name text ≡ stored v name text (parse_int text)
unfolding set_bytes stored
set_bytes-stored v name text = refl

-- For every i64 `set_int` does what `set_bytes` does with the decimal text, also to the number that is
-- cached, and when the variable is readonly.
pub set_int-set_bytes :
    (v : Variables) (name : Str) (n : ℕ)
    → n < modulus
    → set_int v name n ≡ set_bytes v name (int_string n)
set_int-set_bytes v name n h =
    set_int-stored v name n
    ∙ ap (stored v name (int_string n)) (sym (parse_int-int_string n h))
    ∙ sym (set_bytes-stored v name (int_string n))
