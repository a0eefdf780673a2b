-- ===== src/Expand/Units.antt =====
-- The loop of `field_split` of crates/epsh/src/expand.rs over the units of a fragment, against the items
-- that these read as.
use ish.Prelude.{
  ℕ, zero, suc, ◌≤◌, ◌≡◌, refl, sym, ap, ◌∙◌, Bool, true, false, some, List, [], ◌∷◌, ◌++◌, length,
  append-nil, append_assoc, arith, Bool-cases, inl, inr, Option, if_on, if_off,
}
use ish.Glob.{Text}
use ish.Expand.{
  Fields, building, has, skip, skip_delimiter, push_field, delimit, push_str, split_unit,
  split_units,
}
use ish.Expand.Items.{
  Item, keep, gap, mark, plain, in_gap, after_mark, items, text, close, group, Mode, Kind, kind_of,
  read, delimiter, other,
}

-- The open field goes before what the items stand for.
abbrev attach : Bool → Text → Option Text × List Text → Option Text × List Text
attach false c g = g
attach true c g = (some (c ++ text (g.0)), g.1)

-- The fields in the end, when the rest reads as these items.
abbrev pub finish : Fields → List Item → List Text
finish st is = st.fields ++ close (attach (st.have_field) (st.current) (group is))

-- No text is outside a field.
abbrev pub Tidy : Fields → Type 0
Tidy st = st.have_field ≡ false → st.current ≡ []

pub finish-push_field :
    (fields : List Text) (c : Text) (b : Bool) (is : List Item)
    → finish (push_field (building fields c b)) is ≡ finish (building fields c b) (gap ∷ is)
unfolding push_field
finish-push_field fields c true is =
    append_assoc fields (c ∷ []) _ ∙ ap (λ x. fields ++ (x ∷ close (group is))) (sym (append-nil c))
finish-push_field fields c false is = refl

pub push_field-Tidy :
    (fields : List Text) (c : Text) (b : Bool)
    → Tidy (building fields c b)
    → Tidy (push_field (building fields c b))
unfolding push_field
push_field-Tidy fields c true h e = refl
push_field-Tidy fields c false h e = h e

finish-delimit :
    (fields : List Text) (c : Text) (b : Bool) (is : List Item)
    → finish (delimit (building fields c b)) is ≡ finish (building fields c b) (mark ∷ is)
unfolding delimit
finish-delimit fields c true is =
    append_assoc fields (c ∷ []) _ ∙ ap (λ x. fields ++ (x ∷ close (group is))) (sym (append-nil c))
finish-delimit fields c false is = append_assoc fields ([] ∷ []) _

delimit-Tidy :
    (fields : List Text) (c : Text) (b : Bool)
    → Tidy (building fields c b)
    → Tidy (delimit (building fields c b))
unfolding delimit
delimit-Tidy fields c true h e = refl
delimit-Tidy fields c false h e = h e

pub finish-push_str :
    (u : Text) (fields : List Text) (c : Text) (b : Bool) (is : List Item)
    → Tidy (building fields c b)
    → finish (push_str u (building fields c b)) is ≡ finish (building fields c b) (keep u ∷ is)
unfolding push_str
finish-push_str u fields c true is h =
    ap (λ x. fields ++ (x ∷ (group is).1)) (append_assoc c u (text ((group is).0)))
finish-push_str u fields c false is h =
    ap (λ x. fields ++ (((x ++ u) ++ text ((group is).0)) ∷ (group is).1)) (h refl)

module _ (ws nws : List Text) where
  length-skip : (us : List Text) → length (skip ws us) ≤ length us
  unfolding skip
  length-skip [] = omega arith
  length-skip (u ∷ us) = elim (Bool-cases (has ws u)) [
    | inl e ↦ rw e (omega (arith, length-skip us))
    | inr e ↦ rw e (omega arith)
  ]

  length-skip_delimiter : (us : List Text) → length (skip_delimiter ws nws us) ≤ length us
  unfolding skip_delimiter
  length-skip_delimiter [] = omega arith
  length-skip_delimiter (u ∷ us) = elim (Bool-cases (has nws u)) [
    | inl e ↦ rw e (omega (arith, length-skip us))
    | inr e ↦ rw e (omega arith)
  ]

  items-cons :
      (mode : Mode) (u : Text) (us : List Text) (k : Kind)
      → kind_of ws nws u ≡ k
      → items ws nws mode (u ∷ us) ≡ (read mode u k).0 ++ items ws nws ((read mode u k).1) us
  items-cons mode u us k e = ap (λ x. (read mode u x).0 ++ items ws nws ((read mode u x).1) us) e

  -- Behind a unit that is no white space it matters only in a gap whether a delimiter came before.
  same_items :
      (mode : Mode) (u : Text) (us : List Text) (k : Kind)
      → kind_of ws nws u ≡ k
      → read mode u k ≡ read plain u k
      → items ws nws mode (u ∷ us) ≡ items ws nws plain (u ∷ us)
  same_items mode u us k e h =
      items-cons mode u us k e
      ∙ ap (λ x. x.0 ++ items ws nws (x.1) us) h
      ∙ sym (items-cons plain u us k e)

  delimiter_kind : (u : Text) → has ws u ≡ false → has nws u ≡ true → kind_of ws nws u ≡ delimiter
  delimiter_kind u e d = rw (e, d) refl

  other_kind : (u : Text) → has ws u ≡ false → has nws u ≡ false → kind_of ws nws u ≡ other
  other_kind u e d = rw (e, d) refl

  items-after_mark : (us : List Text) → items ws nws after_mark us ≡ items ws nws plain (skip ws us)
  unfolding skip
  items-after_mark [] = refl
  items-after_mark (u ∷ us) = elim (Bool-cases (has ws u)) [
    | inl e ↦ rw e (items-after_mark us)
    | inr e ↦
        elim (Bool-cases (has nws u)) [
          | inl d ↦ same_items after_mark u us delimiter (delimiter_kind u e d) refl
          | inr d ↦ same_items after_mark u us other (other_kind u e d) refl
        ]
        ∙ ap (items ws nws plain) (sym (if_off (has ws u) (skip ws us) (u ∷ us) e))
  ]

  items-in_gap :
      (us : List Text)
      → items ws nws in_gap us ≡ items ws nws plain (skip_delimiter ws nws (skip ws us))
  unfolding skip skip_delimiter
  items-in_gap [] = refl
  items-in_gap (u ∷ us) = elim (Bool-cases (has ws u)) [
    | inl e ↦ rw e (items-in_gap us)
    | inr e ↦
        elim (Bool-cases (has nws u)) [
          | inl d ↦
              items-cons in_gap u us delimiter (delimiter_kind u e d)
              ∙ items-after_mark us
              ∙ ap (items ws nws plain) (sym (if_on (has nws u) (skip ws us) (u ∷ us) d))
          | inr d ↦
              same_items in_gap u us other (other_kind u e d) refl
              ∙ ap (items ws nws plain) (sym (if_off (has nws u) (skip ws us) (u ∷ us) d))
        ]
        ∙ ap (λ x. items ws nws plain (skip_delimiter ws nws x))
            (sym (if_off (has ws u) (skip ws us) (u ∷ us) e))
  ]

  -- A round leaves no more units, and what they read as is what the unit left to read.
  abbrev Continues : Text → List Text → Fields → List Text × Fields → Type 0
  Continues u us st (rest, next) =
      (length rest ≤ length us)
      × Tidy next
      × ((is : List Item)
          → finish next (items ws nws plain rest ++ is)
            ≡ finish st (items ws nws plain (u ∷ us) ++ is))

  split_unit-Continues :
      (u : Text) (us : List Text) (st : Fields)
      → Tidy st
      → Continues u us st (split_unit ws nws u us st)
  unfolding split_unit
  split_unit-Continues u us st h = elim (Bool-cases (has ws u)) [
    | inl e ↦ rw e (
      omega (arith, length-skip_delimiter (skip ws us), length-skip us),
      push_field-Tidy (st.fields) (st.current) (st.have_field) h,
      λ is. rw⁻¹ (items-in_gap us) (
          finish-push_field (st.fields) (st.current) (st.have_field)
            (items ws nws in_gap us ++ is)),
    )
    | inr e ↦ elim (Bool-cases (has nws u)) [
      | inl d ↦
          rw (e, d)
            (
              length-skip us,
              delimit-Tidy (st.fields) (st.current) (st.have_field) h,
              λ is. rw⁻¹ (items-after_mark us) (
                  finish-delimit (st.fields) (st.current) (st.have_field)
                    (items ws nws after_mark us ++ is)),
            )
      | inr d ↦
          rw (e, d)
            (
              omega arith,
              (λ k. cc),
              λ is.
                  finish-push_str u (st.fields) (st.current) (st.have_field)
                    (items ws nws plain us ++ is) h,
            )
    ]
  ]

  pub split_units-finish :
      (f : ℕ) (us : List Text) (st : Fields)
      → length us ≤ f
      → Tidy st
      → (out : Fields) × (split_units f ws nws us st ≡ some out)
        × Tidy out
        × ((is : List Item) → finish out is ≡ finish st (items ws nws plain us ++ is))
  unfolding split_units
  split_units-finish f [] st h k = (st, refl, k, λ is. refl)
  split_units-finish zero (u ∷ us) st h k = absurd (omega arith)
  split_units-finish (suc f) (u ∷ us) st h k =
      let next = split_unit ws nws u us st in
      let (shorter, tidy, same) = split_unit-Continues u us st k in
      let (out, done, last, ends) = split_units-finish f (next.0) (next.1) (omega arith) tidy in
      (out, done, last, λ is. ends is ∙ same is)
