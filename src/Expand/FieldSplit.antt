-- ===== src/Expand/FieldSplit.antt =====
-- `field_split` of crates/epsh/src/expand.rs against the fields that its fragments read as.
use ish.Prelude.{
  ◌≡◌, refl, sym, ap, ◌∙◌, Bool, true, false, ◌||◌, not, Option, some, List, [], ◌∷◌, ◌++◌, length,
  append-nil, append_assoc, arith, if◌then◌else◌, ◌>>=◌,
}
use ish.Glob.{Text}
use ish.Glob.Encoding.{shell_chars}
use ish.Expand.{
  ExpandedWord, Fields, building, no_text, ifs_ws, ifs_nws, push_field, push_str, start_word,
  split_fragment, split_fragments, last_field, field_split,
}
use ish.Expand.Items.{Item, break_items, value_items, stream, fields_of}
use ish.Expand.Units.{
  finish, Tidy, finish-push_field, push_field-Tidy, finish-push_str, split_units-finish,
}

-- An answer after which the fields in the end are those of the items put before the rest.
abbrev Reads : List Item → Fields → Option Fields → Type 0
Reads front st o =
    (out : Fields) × (o ≡ some out)
    × Tidy out
    × ((is : List Item) → finish out is ≡ finish st (front ++ is))

Reads-if :
    (b : Bool) (x y : List Item) (st : Fields) (o p : Option Fields)
    → Reads x st o
    → (b ≡ false → Reads y st p)
    → Reads (if b then x else y) st (if b then o else p)
Reads-if true x y st o p h k = h
Reads-if false x y st o p h k = k refl

Reads-bind :
    (x y : List Item) (st : Fields) (o : Option Fields) (k : Fields → Option Fields)
    → Reads x st o
    → ((next : Fields) → Tidy next → Reads y next (k next))
    → Reads (x ++ y) st (o >>= k)
Reads-bind x y st o k (mid, e, tidy, same) h =
    let (out, d, last, ends) = h mid tidy in
    (out, rw e d, last, λ is. ends is ∙ same (y ++ is) ∙ ap (finish st) (sym (append_assoc x y is)))

start_word-Reads :
    (frag : ExpandedWord) (st : Fields)
    → Tidy st
    → Reads (break_items (frag.word_break)) st (some (start_word frag st))
unfolding start_word
start_word-Reads frag st h = by_break (frag.word_break)
  where
    by_break : (b : Bool) → Reads (break_items b) st (some (if b then push_field st else st))
    by_break true = (
      push_field st,
      refl,
      push_field-Tidy (st.fields) (st.current) (st.have_field) h,
      finish-push_field (st.fields) (st.current) (st.have_field),
    )
    by_break false = (st, refl, h, λ is. refl)

split_fragment-Reads :
    (ifs : Text) (frag : ExpandedWord) (st : Fields)
    → Tidy st
    → Reads (break_items (frag.word_break) ++ value_items ifs frag) st (split_fragment ifs frag st)
unfolding split_fragment push_str
split_fragment-Reads ifs frag st h =
    Reads-bind (break_items (frag.word_break)) (value_items ifs frag) st (some (start_word frag st))
      (λ ready. _) (start_word-Reads frag st h)
      λ ready tidy.
        Reads-if (not (frag.split_fields) || no_text ifs) _ _ ready _ _
          (
            push_str (frag.value) ready,
            refl,
            (λ k. cc),
            λ is.
                finish-push_str (frag.value) (ready.fields) (ready.current) (ready.have_field) is
                  tidy,
          )
          λ e.
            let units = shell_chars (frag.value) in
            split_units-finish (ifs_ws ifs) (ifs_nws ifs) (length units) units ready (omega arith)
              tidy

split_fragments-Reads :
    (ifs : Text) (frags : List ExpandedWord) (st : Fields)
    → Tidy st
    → Reads (stream ifs frags) st (split_fragments ifs frags st)
unfolding split_fragments
split_fragments-Reads ifs [] st h = (st, refl, h, λ is. refl)
split_fragments-Reads ifs (frag ∷ frags) st h =
    Reads-bind (break_items (frag.word_break) ++ value_items ifs frag) (stream ifs frags) st
      (split_fragment ifs frag st) _ (split_fragment-Reads ifs frag st h)
      λ next tidy. split_fragments-Reads ifs frags next tidy

last_field-finish : (st : Fields) → last_field st ≡ finish st []
unfolding last_field
last_field-finish st = by_field (st.fields) (st.current) (st.have_field)
  where
    by_field :
        (fields : List Text) (c : Text) (b : Bool)
        → (if b then fields ++ c ∷ [] else fields) ≡ finish (building fields c b) []
    by_field fields c true = ap (λ x. fields ++ (x ∷ [])) (sym (append-nil c))
    by_field fields c false = sym (append-nil fields)

-- For all fragments and every IFS, `field_split` answers, and its fields are those of the items that the
-- fragments read as: white space ends a field if one is open, and takes in one delimiter after it; a
-- delimiter on its own ends a field that may be empty, and takes in the white space after it; a word break
-- ends a field if one is open; and all other text, with the whole of a fragment that is not split, stays.
-- Each fragment that is split is read from its start as text, whatever stands before it.
pub field_split-fields_of :
    (fragments : List ExpandedWord) (ifs : Text)
    → field_split fragments ifs ≡ some (fields_of (stream ifs fragments))
unfolding field_split
field_split-fields_of fragments ifs =
    let (out, done, tidy, ends) =
      split_fragments-Reads ifs fragments (building [] [] false) (λ _. refl) in
    ap (λ o. o >>= λ st. some (last_field st)) done
    ∙ ap some (last_field-finish out ∙ ends [] ∙ ap fields_of (append-nil (stream ifs fragments)))
