-- ===== src/History/Store/Append.antt =====
-- What `Store::append` of src/history/store.rs does to a whole log.
use ish.Prelude.{
  ℕ, ◌+◌, ◌<◌, ◌≡◌, refl, sym, ap, ◌∙◌, true, Option, none, some, List, [], ◌∷◌, ◌++◌, length,
  length-append, append-nil, append_assoc, leb, arith, if_off, take-append-past,
}
use ish.Int64.{modulus, min_value, signed_lt}
use ish.History.{Occurrence, encode}
use ish.History.Bytes.{le}
use ish.History.Codec.{IsOccurrence}
use ish.History.Log.{id_exhausted}
use ish.History.Log.Written.{Written, last_id_of, newer}
use ish.History.Store.{
  ok, err, LogFile, Snapshot, Cursor, default_cursor, next_number, snapshot, write_at, Appended,
  write_frame, append_after, append_occurrence,
}
use ish.History.Store.Recovery.{log_of, cutoff_for, cursor_at, read_snapshot-whole}
use ish.History.Store.Kept.{Kept, read_snapshot-Kept}
use ish.History.Store.Torn.{snapshot-read, next_number-below}

-- One more frame behind the others.
Written-snoc :
    (offset last_id : ℕ) (os : List Occurrence) (bs : List ℕ) (o : Occurrence) (frame : List ℕ)
    → Written offset last_id os bs
    → encode o ≡ some frame
    → IsOccurrence o
    → signed_lt (last_id_of last_id os) (o.id) ≡ true
    → offset + length bs + length frame < modulus
    → Written offset last_id (os ++ o ∷ []) (bs ++ frame)
Written-snoc offset last_id [] bs o frame h e fine less fits =
    (frame, [], e, fine, less, omega arith, ap (λ x. x ++ frame) h ∙ sym (append-nil frame), refl)
Written-snoc offset last_id (q ∷ os) bs o frame (first, rest, qe, q_fine, q_less, q_fits, parts, h)
      e fine less fits =
    (
      first,
      rest ++ frame,
      qe,
      q_fine,
      q_less,
      q_fits,
      ap (λ x. x ++ frame) parts ∙ append_assoc first rest frame,
      Written-snoc (offset + length first) (q.id) os rest o frame h e fine less
          (omega (arith, ap length parts, length-append first rest)),
    )

follows : (n : ℕ) → n + 1 < min_value → signed_lt n (n + 1) ≡ true
unfolding signed_lt
follows n h = ground arith

write_at-end :
    (file : LogFile) (generation : ℕ) (bs frame : List ℕ)
    → file.content ≡ log_of generation bs
    → (write_at (16 + length bs) frame file).content ≡ log_of generation (bs ++ frame)
unfolding write_at le
write_at-end file generation bs frame e =
    take-append-past (16 + length bs) (length frame) (file.content) frame
      (omega (arith, ap length e))
    ∙ ap (λ content. content ++ frame) e

append_after-read :
    (cursor c : Cursor) (o : Occurrence) (s : Snapshot) (file : LogFile) (id : ℕ) (frame : List ℕ)
    → next_number (c.last_id) ≡ some id
    → encode (record o { id = id }) ≡ some frame
    → c.offset + length frame < modulus
    → append_after cursor o (ok (s, c), file) ≡ (
      ok (record s { occurrences = s.occurrences ++ record o { id = id } ∷ [] }, id),
      record c { offset = c.offset + length frame; last_id = id },
      write_at (c.offset) frame file,
    )
unfolding append_after write_frame
append_after-read cursor c o s file id frame h e fits =
    ap
      (λ (n : Option ℕ). elim n as (λ _. Appended) [
        | none ↦ (err id_exhausted, cursor, file)
        | some id' ↦ let new = record o { id = id' } in write_frame cursor new s c file (encode new)
      ])
      h
    ∙ ap (write_frame cursor (record o { id = id }) s c file) e
    ∙ if_off (leb modulus (c.offset + length frame)) _ _ (ground arith)

-- On a whole log `append` writes the occurrence with the id behind the last one, when the ids, the file's
-- offsets and the record's lengths allow it, whatever cursor the store has kept: one that stands behind
-- some of the log's frames, or one of no file, of another file or of another generation. It answers with
-- the occurrences above the cutoff and the new one, and the file is the log of the old occurrences and the
-- new one, which a store that opens it then reads, all above the cutoff.
pub append_occurrence-snapshot :
    (renew : ℕ × ℕ → ℕ × ℕ) (file : LogFile) (current generation last_id : ℕ) (os : List Occurrence)
    (bs frame : List ℕ) (o : Occurrence) (kept : Cursor)
    → current < min_value
    → file.content ≡ log_of current bs
    → Written 16 0 os bs
    → Kept file current os bs kept
    → last_id_of 0 os + 1 < min_value
    → IsOccurrence (record o { id = last_id_of 0 os + 1 })
    → encode (record o { id = last_id_of 0 os + 1 }) ≡ some frame
    → 16 + length bs + length frame < modulus
    → let new = record o { id = last_id_of 0 os + 1 } in
      let cutoff = cutoff_for current generation last_id in
      let next = write_at (16 + length bs) frame file in
      let cursor = cursor_at file current (16 + length bs + length frame) (new.id) in
      (append_occurrence renew file kept generation last_id o ≡ (
        ok (record { generation = current; occurrences = newer cutoff os ++ new ∷ [] }, new.id),
        cursor,
        next,
      ))
      × (next.content ≡ log_of current (bs ++ frame))
      × Written 16 0 (os ++ new ∷ []) (bs ++ frame)
      × (snapshot renew next default_cursor generation last_id ≡ (
        ok (record { generation = current; occurrences = newer cutoff (os ++ new ∷ []) }),
        cursor_at next current (16 + length (bs ++ frame)) (last_id_of 0 (os ++ new ∷ [])),
        next,
      ))
unfolding append_occurrence
append_occurrence-snapshot renew file current generation last_id os bs frame o kept h e w known
      bound fine encoded fits =
    let new = record o { id = last_id_of 0 os + 1 } in
    let next = write_at (16 + length bs) frame file in
    let content = write_at-end file current bs frame e in
    let written =
      Written-snoc 16 0 os bs new frame w encoded fine (follows (last_id_of 0 os) bound) fits in
    (
      ap (append_after kept o) (
            read_snapshot-Kept (length (file.content)) renew file current generation last_id os bs
              kept h e w known)
          ∙ append_after-read kept _ o _ file (last_id_of 0 os + 1) frame
              (next_number-below (last_id_of 0 os) bound) encoded fits,
      content,
      written,
      snapshot-read renew next next default_cursor _ generation last_id _ (
          read_snapshot-whole (length (next.content)) renew next current generation last_id
            (os ++ new ∷ []) (bs ++ frame) h content written),
    )
