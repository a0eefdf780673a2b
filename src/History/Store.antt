-- ===== src/History/Store.antt =====
-- The operations of src/history/store.rs on the log: `snapshot`, `append`, `reset`, `salvage`. The lock
-- makes each of them one step; system calls succeed, and `renew` is the identity (device and inode) of a
-- file that takes another's place.
pub mod Order
pub mod Torn
pub mod Salvage
pub mod Recovery
pub mod Kept
pub mod Append
pub mod Total
pub mod Resume
mod Tests
use ish.Prelude.{
  ℕ, zero, suc, ◌+◌, ◌-◌, ◌%◌, Bool, true, false, not, ◌&&◌, ◌||◌, Option, none, some, List, [],
  ◌∷◌, ◌++◌, length, take, drop, ltb, leb, ◌==◌, if◌then◌else◌,
}
use ish.Int64.{modulus, min_value, minus_one, is_negative, signed_lt}
use ish.Vars.{same}
use ish.History.{Occurrence, part, encode}
use ish.History.Bytes.{le, from_le}
use ish.History.Log.{
  StoreError, incomplete_header, unsupported_header, negative_generation, offset_overflow, corrupt,
  generation_exhausted, id_exhausted, invalid_occurrence, intact, clock_out_of_range, out_of_fuel,
  Progress, Scan, whole, torn, failed, unfinished, read_frames,
}

pub data Result {ℓ} (A : Type ℓ) : Type ℓ where
  ok : A → Result A
  err : StoreError → Result A

pub record LogFile : Type 0 where
  identity : ℕ × ℕ
  content : List ℕ

pub record Snapshot : Type 0 where
  generation : ℕ
  occurrences : List Occurrence

pub record Cursor : Type 0 where
  identity : Option (ℕ × ℕ)
  generation : ℕ
  offset : ℕ
  last_id : ℕ

-- `HEADER`
abbrev pub magic : List ℕ
magic = b'I' ∷ b'S' ∷ b'H' ∷ b'L' ∷ b'O' ∷ b'G' ∷ 0 ∷ 1 ∷ []

-- `Cursor::default`
abbrev pub default_cursor : Cursor
default_cursor = record { identity = none; generation = 0; offset = 16; last_id = 0 }

unfoldable pub same_identity : Option (ℕ × ℕ) → ℕ × ℕ → Bool
same_identity none i = false
same_identity (some (dev, ino)) i = dev == i.0 && ino == i.1

-- `checked_add(1)` on an i64.
unfoldable pub next_number : ℕ → Option ℕ
next_number n = if n + 1 == min_value then none else some ((n + 1) % modulus)

unfoldable pub read_header : List ℕ → Result ℕ
unfolding same from_le is_negative
read_header content =
    let current = from_le (part 8 8 content) in
    if ltb (length content) 16
    then err incomplete_header
    else if not (same (take 8 content) magic)
    then err unsupported_header
    else if is_negative current
    then err negative_generation
    else ok current

-- A cursor that does not fit the file starts anew.
unfoldable pub settle_cursor : LogFile → ℕ → ℕ → ℕ → Cursor → Cursor
unfolding same_identity signed_lt
settle_cursor file current generation last_id cursor =
    let start : Cursor = record {
      identity = some (file.identity);
      generation = current;
      offset = 16;
      last_id = 0;
    } in
    let fits =
      same_identity (cursor.identity) (file.identity)
      && cursor.generation == current
      && leb (cursor.offset) (length (file.content))
      && not (signed_lt last_id (cursor.last_id)) in
    let c = if fits then cursor else start in
    if not (current == generation) && not (c.offset == 16)
    then record c { offset = 16; last_id = 0 }
    else c

-- The loop of `read_snapshot` from a cursor on.
unfoldable pub scan_from : LogFile → ℕ → Cursor → Scan
unfolding read_frames
scan_from file cutoff c =
    let rest = drop (c.offset) (file.content) in
    read_frames (length rest) cutoff rest
      (record { offset = c.offset; last_id = c.last_id; occurrences = [] })

-- `publish`: a new file with a header and records takes the log's place.
unfoldable pub publish : (ℕ × ℕ → ℕ × ℕ) → LogFile → ℕ → List ℕ → LogFile
unfolding le
publish renew file generation records = record {
  identity = renew (file.identity);
  content = magic ++ (le 8 generation ++ records);
}

abbrev pub Read : Type 0
Read = Result (Snapshot × Cursor) × LogFile

-- The end of `read_snapshot`, where a torn log is published less its tail and read again.
unfoldable pub after_scan : (LogFile → Read) → (ℕ × ℕ → ℕ × ℕ) → LogFile → ℕ → Cursor → Scan → Read
unfolding publish next_number
after_scan again renew file current c (whole p) = (
  ok (
    record { generation = current; occurrences = p.occurrences },
    record c { offset = p.offset; last_id = p.last_id },
  ),
  file,
)
after_scan again renew file current c (failed e) = (err e, file)
after_scan again renew file current c unfinished = (err out_of_fuel, file)
after_scan again renew file current c (torn kept) = elim (next_number current) [
  | none ↦ (err generation_exhausted, file)
  | some next ↦ again (publish renew file next (part 16 (kept - 16) (file.content)))
]

unfoldable pub with_header : (ℕ → Read) → LogFile → Result ℕ → Read
with_header go file (err e) = (err e, file)
with_header go file (ok current) = go current

unfoldable pub read_snapshot : ℕ → (ℕ × ℕ → ℕ × ℕ) → LogFile → Cursor → ℕ → ℕ → Read
unfolding with_header read_header settle_cursor scan_from after_scan
read_snapshot zero renew file cursor generation last_id = (err out_of_fuel, file)
read_snapshot (suc f) renew file cursor generation last_id =
    with_header
      (λ current.
        let c = settle_cursor file current generation last_id cursor in
        after_scan (λ next. read_snapshot f renew next default_cursor generation last_id) renew file
          current c (scan_from file (if current == generation then last_id else 0) c))
      file (read_header (file.content))

-- Each torn tail makes the file shorter.
abbrev pub rounds : LogFile → ℕ
rounds file = suc (length (file.content))

-- `Store::snapshot`, with the cursor that the store keeps.
unfoldable pub snapshot :
    (ℕ × ℕ → ℕ × ℕ) → LogFile → Cursor → ℕ → ℕ → Result Snapshot × Cursor × LogFile
unfolding read_snapshot
snapshot renew file cursor generation last_id =
    let read = read_snapshot (rounds file) renew file cursor generation last_id in
    elim (read.0) [ ok s ↦ (ok (s.0), s.1, read.1) | err e ↦ (err e, cursor, read.1) ]

-- `seek` and `write_all`.
unfoldable pub write_at : ℕ → List ℕ → LogFile → LogFile
write_at offset bs file = record file {
  content = take offset (file.content) ++ (bs ++ drop (offset + length bs) (file.content));
}

abbrev pub Appended : Type 0
Appended = Result (Snapshot × ℕ) × Cursor × LogFile

-- The part of `append` with the encoded frame. `none` is any of the errors of `encode`, an invalid
-- occurrence, a directory or a command that is too long; all are `invalid_occurrence` here.
unfoldable pub write_frame :
    Cursor → Occurrence → Snapshot → Cursor → LogFile → Option (List ℕ) → Appended
unfolding write_at
write_frame cursor o s c file none = (err invalid_occurrence, cursor, file)
write_frame cursor o s c file (some frame) =
    if leb modulus (c.offset + length frame) then (err offset_overflow, cursor, file) else (
      ok (record s { occurrences = s.occurrences ++ o ∷ [] }, o.id),
      record c { offset = c.offset + length frame; last_id = o.id },
      write_at (c.offset) frame file,
    )

-- The part of `append` behind the read.
unfoldable pub append_after : Cursor → Occurrence → Read → Appended
unfolding write_frame next_number encode
append_after cursor o (err e, file) = (err e, cursor, file)
append_after cursor o (ok (s, c), file) = elim (next_number (c.last_id)) [
  | none ↦ (err id_exhausted, cursor, file)
  | some id ↦ let new = record o { id = id } in write_frame cursor new s c file (encode new)
]

-- `Store::append`.
unfoldable pub append_occurrence :
    (ℕ × ℕ → ℕ × ℕ) → LogFile → Cursor → ℕ → ℕ → Occurrence → Appended
unfolding append_after read_snapshot
append_occurrence renew file cursor generation last_id o =
    append_after cursor o (read_snapshot (rounds file) renew file cursor generation last_id)

abbrev pub empty_log :
    (ℕ × ℕ → ℕ × ℕ) → LogFile → Option LogFile → ℕ → Result ℕ × Cursor × LogFile × Option LogFile
empty_log renew file aside generation =
    (ok generation, default_cursor, publish renew file generation [], aside)

-- `Store::reset`: the log of the next generation, empty. A log that is no log is set aside, and the clock
-- gives the generation.
unfoldable pub reset :
    (ℕ × ℕ → ℕ × ℕ) → ℕ → LogFile → Cursor → Result ℕ × Cursor × LogFile × Option LogFile
unfolding read_header next_number publish
reset renew now_millis file cursor = elim (read_header (file.content)) [
  | ok current ↦ elim (next_number current) [
    | none ↦ (err generation_exhausted, cursor, file, none)
    | some generation ↦ empty_log renew file none generation
  ]
  | err e ↦
      if leb min_value now_millis
      then (err clock_out_of_range, cursor, file, some file)
      else empty_log renew file (some file) now_millis
]

abbrev pub Salvaged : Type 0
Salvaged = Result ℕ × Cursor × LogFile × List ℕ

-- The part of `salvage` behind the read: the bytes from the corrupt frame on go elsewhere.
unfoldable pub salvage_at : (ℕ × ℕ → ℕ × ℕ) → LogFile → Cursor → ℕ → Result ℕ → Salvaged
unfolding publish next_number
salvage_at renew file cursor kept (err e) = (err e, cursor, file, [])
salvage_at renew file cursor kept (ok current) = elim (next_number current) [
  | none ↦ (err generation_exhausted, cursor, file, [])
  | some generation ↦ (
    ok kept,
    default_cursor,
    publish renew file generation (part 16 (kept - 16) (file.content)),
    drop kept (file.content),
  )
]

unfoldable pub salvage_after : (ℕ × ℕ → ℕ × ℕ) → Cursor → Read → Salvaged
unfolding salvage_at read_header
salvage_after renew cursor (ok s, file) = (err intact, cursor, file, [])
salvage_after renew cursor (err (corrupt kept why), file) =
    salvage_at renew file cursor kept (read_header (file.content))
salvage_after renew cursor (err e, file) = (err e, cursor, file, [])

-- `Store::salvage`.
unfoldable pub salvage : (ℕ × ℕ → ℕ × ℕ) → LogFile → Cursor → Salvaged
unfolding salvage_after read_snapshot
salvage renew file cursor =
    salvage_after renew cursor (read_snapshot (rounds file) renew file default_cursor minus_one 0)
