-- ===== src/Expand/Tests.antt =====
-- Runs and examples of the model of crates/epsh/src/expand.rs.
use ish.Prelude.{ℕ, ◌≡◌, refl, true, false, Option, some, List, [], ◌∷◌, length, if◌then◌else◌, ◌+◌}
use ish.Glob.{Text}
use ish.Glob.Encoding.{shell_chars}
use ish.Expand.{ExpandedWord, field_split, trim_suffix, trim_prefix, remove_glob_escapes}
use ish.Expand.FieldSplit.{field_split-fields_of}
use ish.Expand.Items.{stream, fields_of}
use ish.Expand.Trim.{
  Least, Greatest, behind_matches, front_matches, KeepsFront, KeepsBehind, trim_suffix-KeepsFront,
  trim_prefix-KeepsBehind,
}

-- `"a"$x` with `x=" b: c"`, and a quoted word behind.
abbrev words : List ExpandedWord
words =
    record { value = b'a' ∷ []; split_fields = false; word_break = false }
    ∷ record {
      value = b' ' ∷ b'b' ∷ b':' ∷ b' ' ∷ b'c' ∷ [];
      split_fields = true;
      word_break = false;
    }
    ∷ record { value = b' ' ∷ []; split_fields = false; word_break = true }
    ∷ []

abbrev ifs : Text
ifs = b' ' ∷ b':' ∷ []

run_split :
    field_split words ifs ≡ some ((b'a' ∷ []) ∷ (b'b' ∷ []) ∷ (b'c' ∷ []) ∷ (b' ' ∷ []) ∷ [])
unfolding field_split ish.Utf8.is_whitespace ish.Vars.same
run_split = refl

-- White space takes in the delimiter after it also where no field is open: `" :a"` is one field.
run_leading :
    field_split
      (record { value = b' ' ∷ b':' ∷ b'a' ∷ []; split_fields = true; word_break = false } ∷ [])
      ifs
    ≡ some ((b'a' ∷ []) ∷ [])
unfolding field_split ish.Utf8.is_whitespace ish.Vars.same
run_leading = refl

-- `a.b.c`
abbrev file_name : Text
file_name = b'a' ∷ b'.' ∷ b'b' ∷ b'.' ∷ b'c' ∷ []

-- `.*`
abbrev extension : Text
extension = b'.' ∷ b'*' ∷ []

run_suffix : trim_suffix file_name extension false ≡ some (b'a' ∷ b'.' ∷ b'b' ∷ [])
unfolding trim_suffix shell_chars ish.Glob.Encoding.fnmatch_shell ish.Glob.fnmatch
run_suffix = refl

run_suffix_greedy : trim_suffix file_name extension true ≡ some (b'a' ∷ [])
unfolding trim_suffix shell_chars ish.Glob.Encoding.fnmatch_shell ish.Glob.fnmatch
run_suffix_greedy = refl

run_escapes : remove_glob_escapes (b'a' ∷ 65534 ∷ b'*' ∷ []) ≡ b'a' ∷ b'*' ∷ []
unfolding remove_glob_escapes ish.Vars.same
run_escapes = refl

field_split-fields_of_example : field_split words ifs ≡ some (fields_of (stream ifs words))
field_split-fields_of_example = field_split-fields_of words ifs

trim_suffix_example :
    (o : Option ℕ) × (if true
        then Least
            (behind_matches extension (shell_chars file_name))
            0
            (length (shell_chars file_name))
        else Greatest
            (behind_matches extension (shell_chars file_name))
            0
            (length (shell_chars file_name)))
      o
    × (result : Text) × (trim_suffix file_name extension true ≡ some result)
    × KeepsFront file_name o result
trim_suffix_example = trim_suffix-KeepsFront file_name extension true

trim_prefix_example :
    (o : Option ℕ) × (if false
        then Greatest
            (front_matches (b'*' ∷ b'.' ∷ []) (shell_chars file_name))
            1
            (1 + length (shell_chars file_name))
        else Least
            (front_matches (b'*' ∷ b'.' ∷ []) (shell_chars file_name))
            1
            (1 + length (shell_chars file_name)))
      o
    × (result : Text) × (trim_prefix file_name (b'*' ∷ b'.' ∷ []) false ≡ some result)
    × KeepsBehind file_name o result
trim_prefix_example = trim_prefix-KeepsBehind file_name (b'*' ∷ b'.' ∷ []) false
