-- ===== src/Input/Paste.antt =====
-- The bracketed paste of src/input.rs: `accumulate_paste_key`, and what `read_event` does with the bytes
-- that are there. `waits` is where it goes on to pass over the rest of a long paste or to poll, and
-- `out_of_fuel` is of the model only.
use ish.Prelude.{
  ℕ, zero, suc, Bool, true, false, not, ◌&&◌, ◌||◌, none, some, List, [], ◌∷◌, ◌++◌, ltb,
  if◌then◌else◌,
}
use ish.Utf8.{Str, len}
use ish.Input.{Key, char, enter, tab, Modifiers, KeyEvent, InputReader, Decoded}
use ish.Input.Decode.{decode_key}

abbrev pub paste_limit : ℕ
paste_limit = 8192

-- The text with the key's character.
unfoldable pub paste_key : Key → Modifiers → Str → Str
paste_key (char c) mods buf = if mods.ctrl || mods.alt then buf else buf ++ c ∷ []
paste_key enter mods buf = buf ++ b'\n' ∷ []
paste_key tab mods buf = buf ++ b'\t' ∷ []
paste_key _ mods buf = buf

unfoldable pub accumulate_paste_key : KeyEvent → InputReader → InputReader
unfolding paste_key len
accumulate_paste_key k r =
    let buf = paste_key (k.key) (k.mods) (r.paste_buf) in
    if r.paste_limit_hit
    then r
    else if ltb paste_limit (len buf)
    then record r { paste_buf = []; paste_limit_hit = true }
    else record r { paste_buf = buf }

-- The events of the input itself.
pub data InputEvent : Type 0 where
  key_event : KeyEvent → InputEvent
  paste_event : Str → InputEvent

pub data Buffered : Type 0 where
  returns : InputEvent → InputReader → Buffered
  waits : InputReader → Buffered
  out_of_fuel : Buffered

abbrev pub no_input : List ℕ → Bool
no_input [] = true
no_input (b ∷ bs) = false

-- The paste that is over, behind the loop over the bytes.
unfoldable pub finish_paste : InputReader → Buffered
finish_paste r =
    if not (r.in_paste) && not (no_input (r.paste_buf))
    then returns (paste_event (r.paste_buf)) (record r { paste_buf = []; paste_limit_hit = false })
    else waits r

-- A round of the loop over the bytes: the decoded key is returned, or the loop goes on.
unfoldable pub handle_key : (InputReader → Buffered) → Decoded → Buffered
unfolding finish_paste accumulate_paste_key
handle_key again (some k, r) =
    let pasted = accumulate_paste_key k r in
    let next = again pasted in
    if r.in_paste
    then (if pasted.paste_limit_hit then finish_paste pasted else next)
    else returns (key_event k) r
handle_key again (none, r) = let next = again r in if r.in_paste then next else finish_paste r

unfoldable pub read_buffered : ℕ → InputReader → Buffered
unfolding handle_key decode_key
read_buffered zero r = out_of_fuel
read_buffered (suc f) r =
    let round = handle_key (read_buffered f) (decode_key r) in
    if no_input (r.input) || r.in_paste && r.paste_limit_hit then finish_paste r else round
