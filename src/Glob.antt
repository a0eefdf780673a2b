-- ===== src/Glob.antt =====
-- crates/epsh/src/glob.rs: `fnmatch_inner`, the matcher of the shell's patterns. Pattern and text are code
-- points; the two positions are the rests of the lists. `none` is a lack of fuel, of the model only.
pub mod Total
pub mod Encoding
pub mod Star
pub mod Bytes
mod Tests
use ish.Prelude.{
  ℕ, zero, suc, ◌+◌, Bool, true, false, ◌&&◌, ◌||◌, not, Option, none, some, List, [], ◌∷◌, length,
  ltb, leb, ◌==◌, if◌then◌else◌, ◌>>=◌,
}

abbrev pub Text : Type 0
Text = List ℕ

-- `crate::encoding::GLOB_ESCAPE`
abbrev pub glob_escape : ℕ
glob_escape = 1114368

unfoldable pub is_escape : ℕ → Bool
is_escape c = c == b'\\' || c == glob_escape

-- One character of a bracket, behind an escape or not, and the pattern behind it.
unfoldable pub read_bracket_char : ℕ → Text → ℕ × Text
unfolding is_escape
read_bracket_char p [] = (p, [])
read_bracket_char p (q ∷ pat) = if is_escape p then (q, pat) else (p, q ∷ pat)

-- The end of a range, if a `-` comes that is not the last before `]`: the character behind the `-`, and
-- the pattern behind that.
unfoldable pub range_end : Text → Option (ℕ × Text)
range_end (p ∷ q ∷ pat) = if p == b'-' && not (q == b']') then some (q, pat) else none
range_end _ = none

-- The loop over the members of a bracket: whether `c` is one, and the pattern left. `first` says that no
-- member has been read, so that a `]` is a member.
unfoldable pub members : ℕ → Bool → ℕ → Text → Option (Bool × Text)
unfolding read_bracket_char range_end
members f first c [] = some (false, [])
members zero first c (p ∷ pat) = none
members (suc f) first c (p ∷ pat) =
    let (c1, behind) = read_bracket_char p pat in
    if p == b']' && not first then some (false, p ∷ pat) else elim (range_end behind) [
      | none ↦ members f false c behind >>= λ rest. some (c == c1 || rest.0, rest.1)
      | some (q, pat') ↦
          let (c2, behind') = read_bracket_char q pat' in
          members f false c behind' >>= λ rest. some (leb c1 c && leb c c2 || rest.0, rest.1)
    ]

unfoldable pub skip_stars : Text → Text
skip_stars [] = []
skip_stars (p ∷ pat) = let rest = skip_stars pat in if p == b'*' then rest else p ∷ pat

-- The loop over the rests of the text, from the longest.
unfoldable pub any_suffix : (Text → Option Bool) → Text → Option Bool
any_suffix found [] = found []
any_suffix found (c ∷ s) =
    let rest = any_suffix found s in found (c ∷ s) >>= λ b. if b then some true else rest

abbrev pub behind_bracket : Text → Text
behind_bracket [] = []
behind_bracket (p ∷ pat) = pat

-- A leading `!`, and the pattern behind it.
unfoldable pub negation : Text → Bool × Text
negation [] = (false, [])
negation (p ∷ pat) = if p == b'!' then (true, pat) else (false, p ∷ pat)

unfoldable pub bracket : Text → ℕ → Option (Bool × Text)
unfolding members negation
bracket pat c =
    let (negate, rest) = negation pat in
    members (length rest) true c rest >>= λ found.
    some (if negate then not (found.0) else found.0, behind_bracket (found.1))

unfoldable pub is_empty : Text → Bool
is_empty [] = true
is_empty (_ ∷ _) = false

-- What the next character of the pattern asks for.
pub data Head : Type 0 where
  any_char star open_bracket escape : Head
  literal : ℕ → Head

unfoldable pub head_of : ℕ → Head
unfolding is_escape
head_of p =
    if p == b'?'
    then any_char
    else if p == b'*'
    then star
    else if p == b'['
    then open_bracket
    else if is_escape p
    then escape
    else literal p

-- The arms that take one character of the text, if there is one; `next` matches what is left.
unfoldable pub one_char : (Text → Text → Option Bool) → Head → Text → Text → Option Bool
unfolding bracket
one_char next head pat [] = some false
one_char next any_char pat (c ∷ s) = next pat s
one_char next star pat (c ∷ s) = some false
one_char next open_bracket pat (c ∷ s) =
    bracket pat c >>= λ found. let rest = next (found.1) s in if found.0 then rest else some false
one_char next escape [] (c ∷ s) = some false
one_char next escape (p ∷ pat) (c ∷ s) =
    let rest = next pat s in if c == p then rest else some false
one_char next (literal p) pat (c ∷ s) = let rest = next pat s in if c == p then rest else some false

unfoldable pub after_star : (Text → Text → Option Bool) → Text → Text → Option Bool
unfolding any_suffix is_empty
after_star next rest s =
    let found = any_suffix (next rest) s in if is_empty rest then some true else found

unfoldable pub dispatch : (Text → Text → Option Bool) → Head → Text → Text → Option Bool
unfolding one_char after_star skip_stars
dispatch next star pat s = after_star next (skip_stars pat) s
dispatch next head pat s = one_char next head pat s

unfoldable pub fnmatch_inner : ℕ → Text → Text → Option Bool
unfolding dispatch head_of
fnmatch_inner zero pat s = none
fnmatch_inner (suc f) [] s = some (is_empty s)
fnmatch_inner (suc f) (p ∷ pat) s = dispatch (fnmatch_inner f) (head_of p) pat s

-- Each round takes a character of the pattern.
unfoldable pub fnmatch : Text → Text → Option Bool
unfolding fnmatch_inner
fnmatch pat s = fnmatch_inner (suc (length pat)) pat s
