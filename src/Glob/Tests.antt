-- ===== src/Glob/Tests.antt =====
-- Patterns of crates/epsh/src/glob.rs on concrete texts.
use ish.Prelude.{ℕ, List, arith, ◌≡◌, ◌↔◌, refl, Bool, true, false, some, [], ◌∷◌, map}
use ish.Glob.{Text, fnmatch, skip_stars}
use ish.Glob.Bytes
use ish.Glob.Bytes.{str_to_bytes, str_to_bytes-bytes_to_str}
use ish.Glob.Total.{fnmatch-total}
use ish.Glob.Star.{Splits, quote, fnmatch-star, fnmatch-quote}
use ish.Glob.Encoding.{
  fnmatch_text, pattern_point, shell_codepoints, bytes_to_str, shell_codepoints-bytes_to_str,
  fnmatch_text-fnmatch,
}

-- `[!a-c]?`
abbrev pattern : Text
pattern = b'[' ∷ b'!' ∷ b'a' ∷ b'-' ∷ b'c' ∷ b']' ∷ b'?' ∷ []

abbrev text : Text
text = b'a' ∷ b'x' ∷ b'y' ∷ []

starless : skip_stars pattern ≡ pattern
unfolding skip_stars
starless = refl

fnmatch-star_example : (fnmatch (b'*' ∷ pattern) text ≡ some true) ↔ Splits (fnmatch pattern) text
fnmatch-star_example = fnmatch-star pattern text starless

fnmatch-quote_example : (fnmatch (quote text) text ≡ some true) ↔ (text ≡ text)
fnmatch-quote_example = fnmatch-quote text text

-- An open bracket takes the rest of the pattern.
fnmatch-total_example : (b : Bool) × (fnmatch (b'[' ∷ b'a' ∷ []) text ≡ some b)
fnmatch-total_example = fnmatch-total (b'[' ∷ b'a' ∷ []) text

shell_codepoints-bytes_to_str_example :
    shell_codepoints (bytes_to_str (57344 ∷ 57480 ∷ 65534 ∷ b'a' ∷ []))
    ≡ 57344 ∷ 57480 ∷ 65534 ∷ b'a' ∷ []
shell_codepoints-bytes_to_str_example =
    shell_codepoints-bytes_to_str (57344 ∷ 57480 ∷ 65534 ∷ b'a' ∷ [])

fnmatch_text-fnmatch_example :
    fnmatch_text pattern text ≡ fnmatch (map (pattern_point false) pattern) text
fnmatch_text-fnmatch_example = fnmatch_text-fnmatch pattern text

matches : fnmatch (b'*' ∷ pattern) text ≡ some true
unfolding fnmatch skip_stars
matches = refl

-- A byte that begins no character, `é`, and U+E000 itself.
abbrev mixed : List ℕ
mixed = 0xFF ∷ 0xC3 ∷ 0xA9 ∷ 0xEE ∷ 0x80 ∷ 0x80 ∷ []

run_bytes_to_str : Bytes.bytes_to_str mixed ≡ 0xE0FF ∷ 0xE9 ∷ 0xE000 ∷ 0xE000 ∷ []
unfolding Bytes.bytes_to_str
run_bytes_to_str = refl

str_to_bytes-bytes_to_str_example : str_to_bytes (Bytes.bytes_to_str mixed) ≡ mixed
str_to_bytes-bytes_to_str_example =
    str_to_bytes-bytes_to_str mixed
      (omega arith, (omega arith, (omega arith, (omega arith, (omega arith, (omega arith, tt))))))
