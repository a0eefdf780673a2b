-- ===== src/Expand.antt =====
-- crates/epsh/src/expand.rs: the splitting of expanded words into fields, and the removal of a prefix or
-- a suffix. Text is in units, as `shell_chars` gives them.
pub mod Items
pub mod Units
pub mod FieldSplit
pub mod Trim
mod Tests
use ish.Prelude.{
  ℕ, zero, suc, ◌+◌, Bool, true, false, ◌&&◌, ◌||◌, not, Option, none, some, List, [], ◌∷◌, ◌++◌,
  length, take, drop, concat, filter, reverse, ◌==◌, if◌then◌else◌, ◌>>=◌,
}
use ish.Utf8.{is_whitespace}
use ish.Vars.{same}
use ish.Glob.{Text}
use ish.Glob.Encoding.{shell_chars, fnmatch_shell, ctlesc}

pub record ExpandedWord : Type 0 where
  value : Text
  split_fields : Bool
  word_break : Bool

-- The three variables of `field_split`.
pub record Fields : Type 0 where
  fields : List Text
  current : Text
  have_field : Bool

abbrev pub building : List Text → Text → Bool → Fields
building fields current have_field = record {
  fields = fields;
  current = current;
  have_field = have_field;
}

unfoldable pub has : List Text → Text → Bool
has [] u = false
has (v ∷ vs) u = same v u || has vs u

unfoldable pub is_blank : Text → Bool
is_blank [] = true
is_blank (c ∷ s) = is_whitespace c && is_blank s

unfoldable pub ifs_ws : Text → List Text
unfolding is_blank shell_chars
ifs_ws ifs = filter is_blank (shell_chars ifs)

unfoldable pub ifs_nws : Text → List Text
unfolding is_blank shell_chars
ifs_nws ifs = filter (λ u. not (is_blank u)) (shell_chars ifs)

-- The loop that skips white space.
unfoldable pub skip : List Text → List Text → List Text
unfolding has
skip ws [] = []
skip ws (u ∷ us) = let rest = skip ws us in if has ws u then rest else u ∷ us

-- What is left after a delimiter that may stand behind white space.
unfoldable pub skip_delimiter : List Text → List Text → List Text → List Text
unfolding skip
skip_delimiter ws nws [] = []
skip_delimiter ws nws (u ∷ us) = if has nws u then skip ws us else u ∷ us

unfoldable pub push_field : Fields → Fields
push_field st = if st.have_field then building (st.fields ++ st.current ∷ []) [] false else st

unfoldable pub delimit : Fields → Fields
delimit st =
    if st.have_field
    then building (st.fields ++ st.current ∷ []) [] false
    else building (st.fields ++ [] ∷ []) (st.current) false

unfoldable pub push_str : Text → Fields → Fields
push_str u st = building (st.fields) (st.current ++ u) true

-- One round of the loop over the units of a fragment.
unfoldable pub split_unit : List Text → List Text → Text → List Text → Fields → List Text × Fields
unfolding skip_delimiter push_field delimit push_str
split_unit ws nws u us st =
    if has ws u
    then (skip_delimiter ws nws (skip ws us), push_field st)
    else if has nws u
    then (skip ws us, delimit st)
    else (us, push_str u st)

unfoldable pub split_units : ℕ → List Text → List Text → List Text → Fields → Option Fields
unfolding split_unit
split_units f ws nws [] st = some st
split_units zero ws nws (u ∷ us) st = none
split_units (suc f) ws nws (u ∷ us) st =
    let next = split_unit ws nws u us st in split_units f ws nws (next.0) (next.1)

abbrev pub no_text : Text → Bool
no_text [] = true
no_text (c ∷ s) = false

unfoldable pub start_word : ExpandedWord → Fields → Fields
unfolding push_field
start_word frag st = if frag.word_break then push_field st else st

unfoldable pub split_fragment : Text → ExpandedWord → Fields → Option Fields
unfolding split_units start_word ifs_ws ifs_nws
split_fragment ifs frag st =
    let ready = start_word frag st in
    let units = shell_chars (frag.value) in
    if not (frag.split_fields) || no_text ifs
    then some (push_str (frag.value) ready)
    else split_units (length units) (ifs_ws ifs) (ifs_nws ifs) units ready

unfoldable pub split_fragments : Text → List ExpandedWord → Fields → Option Fields
unfolding split_fragment
split_fragments ifs [] st = some st
split_fragments ifs (frag ∷ frags) st = split_fragment ifs frag st >>= split_fragments ifs frags

unfoldable pub last_field : Fields → List Text
last_field st = if st.have_field then st.fields ++ st.current ∷ [] else st.fields

unfoldable pub field_split : List ExpandedWord → Text → Option (List Text)
unfolding split_fragments last_field
field_split fragments ifs =
    split_fragments ifs fragments (building [] [] false) >>= λ st. some (last_field st)

-- The loop of `remove_glob_escapes` over the units.
unfoldable pub without_escapes : List Text → Text
unfolding same
without_escapes [] = []
without_escapes (u ∷ []) = u
without_escapes (u ∷ v ∷ us) =
    let behind = without_escapes us in
    let next = without_escapes (v ∷ us) in if same u (ctlesc ∷ []) then v ++ behind else u ++ next

unfoldable pub remove_glob_escapes : Text → Text
unfolding without_escapes shell_chars
remove_glob_escapes s = without_escapes (shell_chars s)

-- The numbers from `lo` on, `n` of them.
unfoldable pub indices : ℕ → ℕ → List ℕ
indices lo zero = []
indices lo (suc n) = lo ∷ indices (suc lo) n

-- A `for` loop that returns at the first index that passes a test.
unfoldable pub first_index : (ℕ → Option Bool) → List ℕ → Option (Option ℕ)
first_index test [] = some none
first_index test (i ∷ is) =
    let rest = first_index test is in test i >>= λ b. if b then some (some i) else rest

unfoldable pub trim_suffix : Text → Text → Bool → Option Text
unfolding indices first_index
trim_suffix value pattern greedy =
    let chars = shell_chars value in
    let up = indices 0 (length chars) in
    first_index (λ i. fnmatch_shell pattern (concat (drop i chars)))
      (if greedy then up else reverse up)
    >>= λ found. elim found [ none ↦ some value | some i ↦ some (concat (take i chars)) ]

unfoldable pub trim_prefix : Text → Text → Bool → Option Text
unfolding indices first_index
trim_prefix value pattern greedy =
    let chars = shell_chars value in
    let up = indices 1 (length chars) in
    first_index (λ i. fnmatch_shell pattern (concat (take i chars)))
      (if greedy then reverse up else up)
    >>= λ found. elim found [ none ↦ some value | some i ↦ some (concat (drop i chars)) ]
