-- ===== src/Expand/Items.antt =====
-- What `field_split` of crates/epsh/src/expand.rs means: a reading of the fragments, unit by unit, into
-- items, and the fields that a list of items stands for.
use ish.Prelude.{Bool, ◌||◌, not, Option, none, some, List, [], ◌∷◌, ◌++◌, if◌then◌else◌}
use ish.Glob.{Text}
use ish.Glob.Encoding.{shell_chars}
use ish.Expand.{ExpandedWord, has, ifs_ws, ifs_nws, no_text}

-- What a unit is to a list of IFS white space and one of other IFS characters.
pub data Kind : Type 0 where
  space delimiter other : Kind

abbrev pub kind_of : List Text → List Text → Text → Kind
kind_of ws nws u = if has ws u then space else if has nws u then delimiter else other

-- Text of a field, the end of a field if one is open, and the end of a field that may be empty.
pub data Item : Type 0 where
  keep : Text → Item
  gap mark : Item

-- Where a reader is: in text, in white space behind text, or behind a delimiter.
pub data Mode : Type 0 where
  plain in_gap after_mark : Mode

-- A unit as an item or none, and the mode behind it. White space is one gap, together with the first
-- delimiter in it; a delimiter that stands behind no white space is a mark, together with the white space
-- that follows.
abbrev pub read : Mode → Text → Kind → List Item × Mode
read mode u other = (keep u ∷ [], plain)
read plain u space = (gap ∷ [], in_gap)
read plain u delimiter = (mark ∷ [], after_mark)
read in_gap u space = ([], in_gap)
read in_gap u delimiter = ([], after_mark)
read after_mark u space = ([], after_mark)
read after_mark u delimiter = (mark ∷ [], after_mark)

abbrev pub items : List Text → List Text → Mode → List Text → List Item
items ws nws mode [] = []
items ws nws mode (u ∷ us) =
    let next = read mode u (kind_of ws nws u) in next.0 ++ items ws nws (next.1) us

-- A fragment that is not split is text as a whole.
abbrev pub value_items : Text → ExpandedWord → List Item
value_items ifs frag =
    if not (frag.split_fields) || no_text ifs
    then keep (frag.value) ∷ []
    else items (ifs_ws ifs) (ifs_nws ifs) plain (shell_chars (frag.value))

-- A word break is a gap before the fragment.
abbrev pub break_items : Bool → List Item
break_items b = if b then gap ∷ [] else []

abbrev pub stream : Text → List ExpandedWord → List Item
stream ifs [] = []
stream ifs (frag ∷ frags) =
    (break_items (frag.word_break) ++ value_items ifs frag) ++ stream ifs frags

abbrev pub text : Option Text → Text
text none = []
text (some t) = t

-- The field that is open at the front, if one is, and the others.
abbrev pub close : Option Text × List Text → List Text
close (none, fields) = fields
close (some t, fields) = t ∷ fields

-- Items read from the right: text goes to the front of the first field, or opens one; a gap ends what is
-- before it; a mark ends a field that is there even if it is empty.
abbrev pub group : List Item → Option Text × List Text
group [] = (none, [])
group (keep u ∷ is) = let rest = group is in (some (u ++ text (rest.0)), rest.1)
group (gap ∷ is) = (none, close (group is))
group (mark ∷ is) = (some [], close (group is))

abbrev pub fields_of : List Item → List Text
fields_of is = close (group is)
