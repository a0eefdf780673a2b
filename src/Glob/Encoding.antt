-- ===== src/Glob/Encoding.antt =====
-- The shell's text of crates/epsh/src/encoding.rs, as far as patterns use it, and the public entries of
-- crates/epsh/src/glob.rs. A text is its code points. The encoding of bytes that are no UTF-8 is left out,
-- so `bytes_to_str` is that of valid text.
use ish.Prelude.{
  ℕ, ◌+◌, ◌-◌, ◌≡◌, refl, ap, ap₂, ◌∙◌, Bool, true, false, ◌&&◌, ◌||◌, Option, none, some, List, [],
  ◌∷◌, ◌++◌, map, leb, ◌==◌, if◌then◌else◌, arith, Bool-cases, inl, inr,
}
use ish.Glob.{Text, fnmatch, glob_escape}

-- `ESCAPE`
abbrev pub escape_mark : ℕ
escape_mark = 57344

-- `crate::lexer::CTLESC`
abbrev pub ctlesc : ℕ
ctlesc = 65534

unfoldable pub is_raw_byte : ℕ → Bool
is_raw_byte c = leb 57472 c && leb c 57599

unfoldable pub needs_escape : Bool → ℕ → Bool
unfolding is_raw_byte
needs_escape escape_glob_marker c =
    c == escape_mark || (escape_glob_marker && c == ctlesc || is_raw_byte c)

unfoldable pub push_text : Bool → Text → Text
unfolding needs_escape
push_text escape_glob_marker [] = []
push_text escape_glob_marker (c ∷ s) =
    let rest = push_text escape_glob_marker s in
    if needs_escape escape_glob_marker c then escape_mark ∷ c ∷ rest else c ∷ rest

unfoldable pub pattern_to_str : Text → Text
unfolding push_text
pattern_to_str text = push_text false text

unfoldable pub bytes_to_str : Text → Text
unfolding push_text
bytes_to_str text = push_text true text

-- The units of the text: a character, or two where the first is the escape.
unfoldable pub shell_chars : Text → List Text
shell_chars [] = []
shell_chars (c ∷ []) = (c ∷ []) ∷ []
shell_chars (c ∷ d ∷ s) =
    let behind = shell_chars s in
    let next = shell_chars (d ∷ s) in
    if c == escape_mark then (c ∷ d ∷ []) ∷ behind else (c ∷ []) ∷ next

unfoldable pub plain_codepoint : ℕ → ℕ
unfolding is_raw_byte
plain_codepoint c =
    if c == ctlesc then glob_escape else if is_raw_byte c then 1114112 + c - escape_mark else c

unfoldable pub codepoint : Text → ℕ
unfolding plain_codepoint
codepoint [] = escape_mark
codepoint (c ∷ []) = if c == escape_mark then escape_mark else plain_codepoint c
codepoint (c ∷ d ∷ _) = if c == escape_mark then d else plain_codepoint c

unfoldable pub shell_codepoints : Text → List ℕ
unfolding shell_chars codepoint
shell_codepoints text = map codepoint (shell_chars text)

unfoldable pub fnmatch_shell : Text → Text → Option Bool
unfolding shell_codepoints
fnmatch_shell pattern string = fnmatch (shell_codepoints pattern) (shell_codepoints string)

-- `fnmatch`, the public entry.
unfoldable pub fnmatch_text : Text → Text → Option Bool
unfolding fnmatch_shell pattern_to_str bytes_to_str
fnmatch_text pattern string = fnmatch_shell (pattern_to_str pattern) (bytes_to_str string)

abbrev pub is_marker : Text → Bool
is_marker (c ∷ []) = c == ctlesc || c == b'\\'
is_marker _ = false

-- The loop of `literal_component` over the units.
unfoldable pub unescaped : List Text → Text
unescaped [] = []
unescaped (u ∷ []) = u
unescaped (u ∷ v ∷ us) =
    let behind = unescaped us in
    let next = unescaped (v ∷ us) in if is_marker u then v ++ behind else u ++ next

unfoldable pub literal_component : Text → Text
unfolding unescaped shell_chars
literal_component pattern = unescaped (shell_chars pattern)

-- The character of a unit that is no escaped one.
abbrev pub active : Text → Option ℕ
active [] = none
active (c ∷ _) = if c == escape_mark then none else some c

abbrev pub is_glob : Option ℕ → Bool
is_glob none = false
is_glob (some c) = c == b'*' || (c == b'?' || c == b'[')

abbrev pub is_quoting : Option ℕ → Bool
is_quoting none = false
is_quoting (some c) = c == ctlesc || c == b'\\'

-- The loop of `has_glob_chars_shell`.
unfoldable pub any_glob : List Text → Bool
any_glob [] = false
any_glob (u ∷ []) = is_glob (active u)
any_glob (u ∷ v ∷ us) =
    let behind = any_glob us in
    let next = any_glob (v ∷ us) in
    if is_glob (active u) then true else if is_quoting (active u) then behind else next

unfoldable pub has_glob_chars_shell : Text → Bool
unfolding any_glob shell_chars
has_glob_chars_shell s = any_glob (shell_chars s)

-- What the matcher reads of a character of a pattern that is given as plain text.
abbrev pub pattern_point : Bool → ℕ → ℕ
pattern_point true c = c
pattern_point false c = if c == ctlesc then glob_escape else c

shell_chars-plain :
    (c : ℕ) (s : Text) → (c == escape_mark) ≡ false → shell_chars (c ∷ s) ≡ (c ∷ []) ∷ shell_chars s
unfolding shell_chars
shell_chars-plain c [] h = refl
shell_chars-plain c (d ∷ s) h = rw h refl

escaped_point : (b : Bool) (c : ℕ) → needs_escape b c ≡ true → c ≡ pattern_point b c
unfolding needs_escape is_raw_byte
escaped_point true c h = refl
escaped_point false c h = ground arith

plain_point : (b : Bool) (c : ℕ) → needs_escape b c ≡ false → plain_codepoint c ≡ pattern_point b c
unfolding needs_escape is_raw_byte plain_codepoint
plain_point true c h = ground arith
plain_point false c h = ground arith

no_escape_mark : (b : Bool) (c : ℕ) → needs_escape b c ≡ false → (c == escape_mark) ≡ false
unfolding needs_escape is_raw_byte
no_escape_mark b c h = ground arith

-- The units that `push_text` writes are read back as the characters, but that a CTLESC of a pattern is
-- read as the mark of an escape.
shell_codepoints-push_text :
    (b : Bool) (s : Text) → shell_codepoints (push_text b s) ≡ map (pattern_point b) s
unfolding shell_codepoints push_text
shell_codepoints-push_text b [] = refl
shell_codepoints-push_text b (c ∷ s) = elim (Bool-cases (needs_escape b c)) [
  | inl e ↦ rw e (ap₂ (λ x xs. x ∷ xs) (escaped_point b c e) (shell_codepoints-push_text b s))
  | inr e ↦ rw e (
      ap (map codepoint) (shell_chars-plain c (push_text b s) (no_escape_mark b c e))
      ∙ ap₂ (λ x xs. x ∷ xs) (rw (no_escape_mark b c e) (plain_point b c e))
          (shell_codepoints-push_text b s))
]

map-same : (s : Text) → map (pattern_point true) s ≡ s
map-same [] = refl
map-same (c ∷ s) = ap (c ∷◌) (map-same s)

-- `shell_codepoints` reads back every text that `bytes_to_str` encodes.
pub shell_codepoints-bytes_to_str : (text : Text) → shell_codepoints (bytes_to_str text) ≡ text
unfolding bytes_to_str
shell_codepoints-bytes_to_str text = shell_codepoints-push_text true text ∙ map-same text

-- The public `fnmatch` matches the text's own characters against the pattern's, in which only the
-- character CTLESC stands for another, the mark of an escape.
pub fnmatch_text-fnmatch :
    (pattern string : Text)
    → fnmatch_text pattern string ≡ fnmatch (map (pattern_point false) pattern) string
unfolding fnmatch_text fnmatch_shell pattern_to_str
fnmatch_text-fnmatch pattern string =
    ap₂ fnmatch (shell_codepoints-push_text false pattern) (shell_codepoints-bytes_to_str string)
