-- ===== src/Arith/Token.antt =====
-- The tokens of crates/epsh/src/arith.rs, and `tokenize`.
pub mod Fuel
use ish.Prelude.{
  ℕ, zero, suc, ◌+◌, ◌-◌, ◌*◌, Bool, true, false, ◌&&◌, ◌||◌, Option, none, some, List, [], ◌∷◌,
  ◌++◌, length, ltb, leb, ◌==◌, if◌then◌else◌,
}
use ish.Utf8.{Str, between}
use ish.Int64.{min_value}

pub data ArithToken : Type 0 where
  num : ℕ → ArithToken
  var : Str → ArithToken
  plus minus star slash percent lparen rparen : ArithToken
  eq ne lt le gt ge and or bit_and bit_or bit_xor shl shr not bit_not : ArithToken
  assign question colon : ArithToken
  add_assign sub_assign mul_assign div_assign mod_assign : ArithToken
  shl_assign shr_assign and_assign or_assign xor_assign : ArithToken

-- The messages of the source, by kind. `out_of_fuel` belongs to the model only.
pub data ArithError : Type 0 where
  invalid_number unexpected_character : ArithError
  unexpected_token unexpected_end expected : ArithError
  division_by_zero division_overflow shift_out_of_range : ArithError
  out_of_fuel : ArithError

pub data Tokens : Type 0 where
  ok : List ArithToken → Tokens
  err : ArithError → Tokens

unfoldable pub is_digit : ℕ → Bool
is_digit c = between b'0' b'9' c

unfoldable pub is_octal : ℕ → Bool
is_octal c = between b'0' b'7' c

unfoldable pub is_hex : ℕ → Bool
unfolding is_digit
is_hex c = is_digit c || between b'a' b'f' c || between b'A' b'F' c

unfoldable pub is_name_start : ℕ → Bool
is_name_start c = c == b'_' || between b'a' b'z' c || between b'A' b'Z' c

unfoldable pub is_name_char : ℕ → Bool
unfolding is_name_start is_digit
is_name_char c = is_name_start c || is_digit c

unfoldable pub digit_value : ℕ → ℕ
digit_value c = if leb c b'9' then c - b'0' else if leb c b'F' then c - b'A' + 10 else c - b'a' + 10

unfoldable pub digits_value : ℕ → ℕ → Str → ℕ
unfolding digit_value
digits_value radix acc [] = acc
digits_value radix acc (c ∷ s) = digits_value radix (acc * radix + digit_value c) s

-- `i64::from_str_radix` on digits of that radix: none, or a value past i64::MAX, is an error.
unfoldable pub from_str_radix : ℕ → Str → Option ℕ
unfolding digits_value
from_str_radix radix [] = none
from_str_radix radix (c ∷ s) =
    let n = digits_value radix 0 (c ∷ s) in if ltb n min_value then some n else none

-- The characters that the scanning loop takes, and the rest.
unfoldable pub scan : (ℕ → Bool) → Str → Str × Str
scan p [] = ([], [])
scan p (c ∷ s) = let (front, rest) = scan p s in if p c then (c ∷ front, rest) else ([], c ∷ s)

-- What one round of the loop makes of the text: a token or none, and the text left.
pub data Lexed : Type 0 where
  token : ArithToken → Str → Lexed
  blank : Str → Lexed
  bad : ArithError → Lexed

unfoldable pub number : ℕ → Str × Str → Lexed
unfolding from_str_radix
number radix (digits, rest) = elim (from_str_radix radix digits) [
  | none ↦ bad invalid_number
  | some n ↦ token (num n) rest
]

-- `rest` with the character `c` skipped, if that comes first.
unfoldable pub follow : ℕ → ArithToken → ArithToken → Str → Lexed
follow c long short [] = token short []
follow c long short (d ∷ rest) = if d == c then token long rest else token short (d ∷ rest)

-- `<` and `>`: the comparison with `=`, the shift, and the shift's assignment.
unfoldable pub angle : ℕ → ArithToken → ArithToken → ArithToken → ArithToken → Str → Lexed
unfolding follow
angle c plain or_equal shift shift_assign [] = token plain []
angle c plain or_equal shift shift_assign (d ∷ rest) =
    if d == b'='
    then token or_equal rest
    else if d == c
    then follow b'=' shift_assign shift rest
    else token plain (d ∷ rest)

-- `&` and `|`: doubled, with `=`, or alone.
unfoldable pub double : ℕ → ArithToken → ArithToken → ArithToken → Str → Lexed
double c doubled with_assign plain [] = token plain []
double c doubled with_assign plain (d ∷ rest) =
    if d == c
    then token doubled rest
    else if d == b'='
    then token with_assign rest
    else token plain (d ∷ rest)

-- A number whose first digit is `c`.
unfoldable pub lex_number : ℕ → Str → Lexed
unfolding number scan is_digit is_hex is_octal
lex_number c [] = number 10 (c ∷ [], [])
lex_number c (d ∷ rest) =
    let (digits, beyond) = scan is_digit (d ∷ rest) in
    if c == b'0' && (d == b'x' || d == b'X')
    then number 16 (scan is_hex rest)
    else if c == b'0' && is_octal d
    then number 8 (scan is_octal (d ∷ rest))
    else number 10 (c ∷ digits, beyond)

unfoldable pub lex_name : ℕ → Str → Lexed
unfolding scan is_name_char
lex_name c rest = let (name, beyond) = scan is_name_char rest in token (var (c ∷ name)) beyond

-- The first arm whose test holds; a character of no arm is an error.
unfoldable pub select : List (Bool × Lexed) → Lexed
select [] = bad unexpected_character
select ((test, outcome) ∷ arms) = if test then outcome else select arms

-- The `match` of the loop, arm by arm.
unfoldable pub arms : ℕ → Str → List (Bool × Lexed)
unfolding lex_number lex_name follow angle double is_digit is_name_start
arms c rest =
    (c == b' ' || c == 9 || c == 10, blank rest)
    ∷ (is_digit c, lex_number c rest)
    ∷ (is_name_start c, lex_name c rest)
    ∷ (c == b'+', follow b'=' add_assign plus rest)
    ∷ (c == b'-', follow b'=' sub_assign minus rest)
    ∷ (c == b'*', follow b'=' mul_assign star rest)
    ∷ (c == b'/', follow b'=' div_assign slash rest)
    ∷ (c == b'%', follow b'=' mod_assign percent rest)
    ∷ (c == b'(', token lparen rest)
    ∷ (c == b')', token rparen rest)
    ∷ (c == b'=', follow b'=' eq assign rest)
    ∷ (c == b'!', follow b'=' ne not rest)
    ∷ (c == b'<', angle b'<' lt le shl shl_assign rest)
    ∷ (c == b'>', angle b'>' gt ge shr shr_assign rest)
    ∷ (c == b'&', double b'&' and and_assign bit_and rest)
    ∷ (c == b'|', double b'|' or or_assign bit_or rest)
    ∷ (c == b'^', follow b'=' xor_assign bit_xor rest)
    ∷ (c == b'~', token bit_not rest)
    ∷ (c == b'?', token question rest)
    ∷ (c == b':', token colon rest)
    ∷ []

unfoldable pub lex : ℕ → Str → Lexed
unfolding select arms
lex c rest = select (arms c rest)

abbrev pub push : ArithToken → Tokens → Tokens
push t (ok ts) = ok (t ∷ ts)
push t (err e) = err e

-- Each round takes at least one character, so the length of the text is fuel enough.
unfoldable pub tokenize_from : ℕ → Str → Tokens
unfolding lex
tokenize_from f [] = ok []
tokenize_from zero (c ∷ s) = err out_of_fuel
tokenize_from (suc f) (c ∷ s) = elim (lex c s) [
  | bad e ↦ err e
  | blank rest ↦ tokenize_from f rest
  | token t rest ↦ push t (tokenize_from f rest)
]

unfoldable pub tokenize : Str → Tokens
unfolding tokenize_from
tokenize s = tokenize_from (length s) s
