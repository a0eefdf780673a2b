-- ===== src/Utf8.antt =====
-- The standard library's text as the source uses it: a `str` is a list of code points, and offsets
-- count the bytes of its UTF-8 form. An offset off a character boundary is a panic, `none`.
pub mod Boundary
pub mod Decode
pub mod Encode
use ish.Prelude.{
  ℕ, zero, suc, ◌+◌, ◌-◌, ◌*◌, ◌/◌, ◌%◌, ◌≤◌, ◌<◌, ◌≡◌, Bool, true, false, not, ◌&&◌, ◌||◌, Option,
  none, some, List, [], ◌∷◌, ◌++◌, length, get_elem?, ltb, leb, ◌==◌, if◌then◌else◌,
}

abbrev pub Str : Type 0
Str = List ℕ

-- `char::len_utf8`.
unfoldable pub len_utf8 : ℕ → ℕ
len_utf8 c = if ltb c 0x80 then 1 else if ltb c 0x800 then 2 else if ltb c 0x10000 then 3 else 4

-- `char::encode_utf8`.
unfoldable pub encode : ℕ → List ℕ
encode c =
    if ltb c 0x80
    then c ∷ []
    else if ltb c 0x800
    then (0xC0 + c / 64) ∷ (0x80 + c % 64) ∷ []
    else if ltb c 0x10000
    then (0xE0 + c / 4096) ∷ (0x80 + c / 64 % 64) ∷ (0x80 + c % 64) ∷ []
    else (0xF0 + c / 262144) ∷ (0x80 + c / 4096 % 64) ∷ (0x80 + c / 64 % 64) ∷ (0x80 + c % 64) ∷ []

unfoldable pub bytes : Str → List ℕ
bytes [] = []
bytes (c ∷ s) = encode c ++ bytes s

-- `str::len`.
unfoldable pub len : Str → ℕ
len [] = 0
len (c ∷ s) = len_utf8 c + len s

unfoldable pub byte_at : Str → ℕ → Option ℕ
byte_at s i = get_elem? (bytes s) i

unfoldable pub is_continuation : ℕ → Bool
is_continuation b = leb 0x80 b && ltb b 0xC0

-- `str::is_char_boundary`.
unfoldable pub is_char_boundary : Str → ℕ → Bool
is_char_boundary s i =
    if i == 0
    then true
    else elim (byte_at s i) [ none ↦ i == len s | some b ↦ not (is_continuation b) ]

-- `&s[..i]` and `&s[i..]`.
unfoldable pub split_at : Str → ℕ → Option (Str × Str)
split_at s zero = some ([], s)
split_at [] (suc i) = none
split_at (c ∷ s) (suc i) = elim (split_at s (suc i - len_utf8 c)) [
  | none ↦ none
  | some (l, r) ↦ if leb (len_utf8 c) (suc i) then some (c ∷ l, r) else none
]

-- `&s[..a]`, `&s[a..b]` and `&s[b..]`.
unfoldable pub cut : Str → ℕ → ℕ → Option (Str × Str × Str)
cut s a b = elim (split_at s a) [
  | none ↦ none
  | some (l, rest) ↦ elim (split_at rest (b - a)) [
    | none ↦ none
    | some (m, r) ↦ if leb a b then some (l, m, r) else none
  ]
]

-- The byte offset of the first `c`, as `str::find` gives it.
unfoldable pub find : ℕ → Str → Option ℕ
find c [] = none
find c (x ∷ s) =
    if x == c then some 0 else elim (find c s) [ none ↦ none | some i ↦ some (len_utf8 x + i) ]

-- The byte offset of the last `c`, as `str::rfind` gives it.
unfoldable pub rfind : ℕ → Str → Option ℕ
rfind c [] = none
rfind c (x ∷ s) = elim (rfind c s) [
  | none ↦ if x == c then some 0 else none
  | some i ↦ some (len_utf8 x + i)
]

unfoldable pub contains : ℕ → Str → Bool
contains c [] = false
contains c (x ∷ s) = x == c || contains c s

unfoldable pub is_ascii : Str → Bool
is_ascii [] = true
is_ascii (c ∷ s) = ltb c 0x80 && is_ascii s

abbrev pub last? : Str → Option ℕ
last? [] = none
last? (c ∷ s) = elim (last? s) [ none ↦ some c | some d ↦ some d ]

abbrev pub first? : Str → Option ℕ
first? [] = none
first? (c ∷ _) = some c

-- `char::is_control`.
unfoldable pub is_control : ℕ → Bool
is_control c = ltb c 0x20 || (leb 0x7F c && ltb c 0xA0)

abbrev pub between : ℕ → ℕ → ℕ → Bool
between lo hi c = leb lo c && leb c hi

-- `char::is_whitespace`.
unfoldable pub is_whitespace : ℕ → Bool
is_whitespace c =
    between 9 13 c
    || c == 0x20
    || c == 0x85
    || c == 0xA0
    || c == 0x1680
    || between 0x2000 0x200A c
    || between 0x2028 0x2029 c
    || c == 0x202F
    || c == 0x205F
    || c == 0x3000
