-- ===== src/History/Store/Total.antt =====
-- `read_snapshot` of src/history/store.rs on any bytes: the rounds of its loop and of its calls of itself.
use ish.Prelude.{
  ℕ, zero, suc, ◌-◌, ◌≤◌, ◌<◌, ◌≡◌, refl, Bool, true, false, not, ◌&&◌, Option, none, some, List,
  [], length, take, drop, length-take, length-drop, ltb, leb, leb→le, ◌==◌, if◌then◌else◌, arith,
}
use ish.Int64.{is_negative, signed_lt}
use ish.Vars.{same}
use ish.History.{part}
use ish.History.Bytes.{le, from_le}
use ish.History.Log.{
  StoreError, incomplete_header, unsupported_header, negative_generation, generation_exhausted,
  Scan, whole, torn, failed, unfinished,
}
use ish.History.Store.{
  Result, ok, err, LogFile, Cursor, magic, default_cursor, next_number, same_identity, read_header,
  settle_cursor, scan_from, publish, Read, after_scan, with_header, read_snapshot, rounds,
}
use ish.History.Log.Total.{Named, Ends, read_frames-Ends}

abbrev HeaderFine : ℕ → Result ℕ → Type 0
HeaderFine n (ok current) = 16 ≤ n
HeaderFine n (err e) = Named e

HeaderFine-if :
    (n : ℕ) (b : Bool) (e : StoreError) (y : Result ℕ)
    → Named e
    → (b ≡ false → HeaderFine n y)
    → HeaderFine n (if b then err e else y)
HeaderFine-if n true e y h k = h
HeaderFine-if n false e y h k = k refl

read_header-HeaderFine : (content : List ℕ) → HeaderFine (length content) (read_header content)
unfolding read_header
read_header-HeaderFine content =
    let n = length content in
    HeaderFine-if n (ltb n 16) incomplete_header _ tt λ enough.
      HeaderFine-if n (not (same (take 8 content) magic)) unsupported_header _ tt λ _.
        HeaderFine-if n (is_negative (from_le (part 8 8 content))) negative_generation _ tt
          λ _. ground arith

abbrev Within : ℕ → Cursor → Type 0
Within n c = (16 ≤ c.offset) × (c.offset ≤ n)

Within-if :
    (n : ℕ) (b : Bool) (x y : Cursor)
    → (b ≡ true → Within n x)
    → Within n y
    → Within n (if b then x else y)
Within-if n true x y h k = h refl
Within-if n false x y h k = k

third_of : (a b c d : Bool) → (a && b && c && d) ≡ true → c ≡ true
third_of a b c d h = ground arith

settle_cursor-Within :
    (file : LogFile) (current generation last_id : ℕ) (cursor : Cursor)
    → 16 ≤ length (file.content)
    → 16 ≤ cursor.offset
    → Within (length (file.content)) (settle_cursor file current generation last_id cursor)
unfolding settle_cursor
settle_cursor-Within file current generation last_id cursor h k =
    let n = length (file.content) in
    Within-if n _ _ _ (λ _. (omega arith, h))
      (Within-if n _ _ _
        (λ e. (
          k,
          leb→le _ _ (
              third_of (same_identity (cursor.identity) (file.identity))
                (cursor.generation == current) (leb (cursor.offset) n)
                (not (signed_lt last_id (cursor.last_id))) e),
        ))
        (omega arith, h))

-- The read ends with a result or an error of the code.
abbrev pub Answered : Read → Type 0
Answered (ok found, file) = Unit
Answered (err e, file) = Named e

with_header-Answered :
    (go : ℕ → Read) (file : LogFile) (header : Result ℕ)
    → HeaderFine (length (file.content)) header
    → ((current : ℕ) → 16 ≤ length (file.content) → Answered (go current))
    → Answered (with_header go file header)
unfolding with_header
with_header-Answered go file (ok current) h k = k current h
with_header-Answered go file (err e) h k = h

published_or_exhausted :
    (again : LogFile → Read) (file : LogFile) (next : ℕ → LogFile) (o : Option ℕ)
    → ((n : ℕ) → Answered (again (next n)))
    → Answered (elim o [ none ↦ (err generation_exhausted, file) | some n ↦ again (next n) ])
published_or_exhausted again file next none h = tt
published_or_exhausted again file next (some n) h = h n

length-publish_kept :
    (renew : ℕ × ℕ → ℕ × ℕ) (file : LogFile) (n kept : ℕ)
    → 16 ≤ kept
    → kept < length (file.content)
    → length ((publish renew file n (part 16 (kept - 16) (file.content))).content)
      < length (file.content)
unfolding publish le
length-publish_kept renew file n kept h k =
    omega (arith, length-take (kept - 16) (drop 16 (file.content)), length-drop 16 (file.content))

after_scan-Answered :
    (again : LogFile → Read) (renew : ℕ × ℕ → ℕ × ℕ) (file : LogFile) (current : ℕ) (c : Cursor)
    (s : Scan)
    → Ends (length (file.content)) s
    → ((next : LogFile) → length (next.content) < length (file.content) → Answered (again next))
    → Answered (after_scan again renew file current c s)
unfolding after_scan
after_scan-Answered again renew file current c (whole p) h k = tt
after_scan-Answered again renew file current c (failed e) h k = h
after_scan-Answered again renew file current c unfinished h k = h
after_scan-Answered again renew file current c (torn kept) (far, less) k =
    published_or_exhausted again file
      (λ n. publish renew file n (part 16 (kept - 16) (file.content))) (next_number current)
      λ n. k _ (length-publish_kept renew file n kept far less)

read_rounds :
    (f : ℕ) (renew : ℕ × ℕ → ℕ × ℕ) (file : LogFile) (cursor : Cursor) (generation last_id : ℕ)
    → length (file.content) < f
    → 16 ≤ cursor.offset
    → Answered (read_snapshot f renew file cursor generation last_id)
unfolding read_snapshot scan_from
read_rounds zero renew file cursor generation last_id h k = absurd (omega arith)
read_rounds (suc f) renew file cursor generation last_id h k =
    with_header-Answered _ file (read_header (file.content)) (read_header-HeaderFine (file.content))
      λ current there.
        let c = settle_cursor file current generation last_id cursor in
        let (far, inside) = settle_cursor-Within file current generation last_id cursor there k in
        after_scan-Answered _ renew file current c _
          (read_frames-Ends (length (file.content)) _ _ (drop (c.offset) (file.content))
            (record { offset = c.offset; last_id = c.last_id; occurrences = [] }) (omega arith) far
            (omega (arith, length-drop (c.offset) (file.content))))
          λ next less.
            read_rounds f renew next default_cursor generation last_id (omega arith) (omega arith)

-- On any bytes and from any cursor behind a header, `read_snapshot` ends with a snapshot or one of its
-- errors: the model never lacks fuel.
pub read_snapshot-Answered :
    (renew : ℕ × ℕ → ℕ × ℕ) (file : LogFile) (cursor : Cursor) (generation last_id : ℕ)
    → 16 ≤ cursor.offset
    → Answered (read_snapshot (rounds file) renew file cursor generation last_id)
read_snapshot-Answered renew file cursor generation last_id h =
    read_rounds (rounds file) renew file cursor generation last_id (omega arith) h
