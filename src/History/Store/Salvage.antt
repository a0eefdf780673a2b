-- ===== src/History/Store/Salvage.antt =====
-- What `Store::salvage` of src/history/store.rs keeps of a log with a corrupt frame.
use ish.Prelude.{
  ℕ, zero, suc, ◌+◌, ◌-◌, ◌≤◌, ◌<◌, ◌≡◌, refl, ap, ap₂, ◌∙◌, Option, none, some, List, [], ◌++◌,
  length, drop, drop-add, drop-append, arith,
}
use ish.Int64.{min_value, minus_one}
use ish.History.{Occurrence, part}
use ish.History.Bytes.{le}
use ish.History.Log.{
  Corruption, corrupt, generation_exhausted, stop, failed, read_frame, read_frames, Progress, Scan,
}
use ish.History.Log.Written.{Written, last_id_of, newer, arrive, read_frames-after_round}
use ish.History.Store.{
  ok, err, LogFile, Cursor, default_cursor, publish, read_header, scan_from, Read, after_scan,
  read_snapshot, rounds, snapshot, Salvaged, salvage, salvage_after, salvage_at,
}
use ish.History.Store.Recovery.{
  log_of, cutoff_for, cursor_at, at_start, scan_log, read_round, read_snapshot-whole,
  read_header-log_of,
}
use ish.History.Store.Torn.{publish-kept, snapshot-read, next_number-below}

no_cutoff : (current : ℕ) → cutoff_for current minus_one 0 ≡ 0
no_cutoff current = ground arith

read_frames-stop :
    (f : ℕ) (tail : List ℕ) (p : Progress) (why : Corruption)
    → 1 ≤ length tail
    → length tail ≤ f
    → read_frame 0 tail p ≡ stop (corrupt (p.offset) why)
    → read_frames f 0 tail p ≡ failed (corrupt (p.offset) why)
read_frames-stop zero tail p why h k e = absurd (omega arith)
read_frames-stop (suc f) tail p why h k e = read_frames-after_round f 0 tail p _ h e

abbrev scan_at : LogFile → ℕ → ℕ → Scan
scan_at file cutoff current = scan_from file cutoff (cursor_at file current 16 0)

-- The read of the log fails at the corrupt frame.
read_snapshot-corrupt :
    (renew : ℕ × ℕ → ℕ × ℕ) (file : LogFile) (current : ℕ) (os : List Occurrence) (bs tail : List ℕ)
    (why : Corruption)
    → current < min_value
    → file.content ≡ log_of current (bs ++ tail)
    → Written 16 0 os bs
    → 1 ≤ length tail
    → read_frame 0 tail (arrive 0 os (length bs) at_start) ≡ stop (corrupt (16 + length bs) why)
    → read_snapshot (rounds file) renew file default_cursor minus_one 0
      ≡ (err (corrupt (16 + length bs) why), file)
unfolding after_scan
read_snapshot-corrupt renew file current os bs tail why h e w there bad =
    let again : LogFile → Read =
      λ next. read_snapshot (length (file.content)) renew next default_cursor minus_one 0 in
    let (f, enough, scanned) = scan_log file 0 current os bs tail e w in
    read_round (length (file.content)) renew file current minus_one 0 (bs ++ tail) h e
    ∙ ap (after_scan again renew file current (cursor_at file current 16 0)) (
        ap (λ c. scan_at file c current) (no_cutoff current)
        ∙ scanned
        ∙ read_frames-stop f tail (arrive 0 os (length bs) at_start) why there enough bad)

behind_kept :
    (generation : ℕ) (bs tail : List ℕ)
    → drop (16 + length bs) (log_of generation (bs ++ tail)) ≡ tail
unfolding le
behind_kept generation bs tail =
    drop-add 16 (length bs) (log_of generation (bs ++ tail)) ∙ drop-append bs tail

abbrev salvaged : ℕ → LogFile → List ℕ → Salvaged
salvaged kept file aside = (ok kept, default_cursor, file, aside)

salvage_next :
    (renew : ℕ × ℕ → ℕ × ℕ) (file : LogFile) (cursor : Cursor) (kept next : ℕ) (o : Option ℕ)
    → o ≡ some next
    → (elim o as (λ _. Salvaged) [
      | none ↦ (err generation_exhausted, cursor, file, [])
      | some generation ↦
          salvaged kept
            (publish renew file generation (part 16 (kept - 16) (file.content)))
            (drop kept (file.content))
    ])
      ≡ salvaged kept
          (publish renew file next (part 16 (kept - 16) (file.content)))
          (drop kept (file.content))
salvage_next renew file cursor kept next none h = cc
salvage_next renew file cursor kept next (some generation) h =
    ap
      (λ (x : Option ℕ). elim x as (λ _. Salvaged) [
        | none ↦ (err generation_exhausted, cursor, file, [])
        | some g ↦
            salvaged kept (publish renew file g (part 16 (kept - 16) (file.content)))
              (drop kept (file.content))
      ])
      h

-- Salvage of a log whose next frame behind some whole ones is corrupt puts exactly those frames, as the
-- next generation, in the file's place, gives the bytes from the corrupt frame on to the file that is set
-- aside, and a store that then opens the log reads the occurrences of the whole frames above the cutoff,
-- when the generations are not exhausted.
pub salvage-snapshot :
    (renew : ℕ × ℕ → ℕ × ℕ) (file : LogFile) (cursor : Cursor) (current generation last_id : ℕ)
    (os : List Occurrence) (bs tail : List ℕ) (why : Corruption)
    → current + 1 < min_value
    → file.content ≡ log_of current (bs ++ tail)
    → Written 16 0 os bs
    → 1 ≤ length tail
    → read_frame 0 tail (arrive 0 os (length bs) at_start) ≡ stop (corrupt (16 + length bs) why)
    → let next = publish renew file (current + 1) bs in
      (salvage renew file cursor ≡ (ok (16 + length bs), default_cursor, next, tail))
      × (snapshot renew next default_cursor generation last_id ≡ (
        ok (record {
          generation = current + 1;
          occurrences = newer (cutoff_for (current + 1) generation last_id) os;
        }),
        cursor_at next (current + 1) (16 + length bs) (last_id_of 0 os),
        next,
      ))
unfolding salvage salvage_after salvage_at publish
salvage-snapshot renew file cursor current generation last_id os bs tail why h e w there bad =
    let next = publish renew file (current + 1) bs in
    (
      ap (salvage_after renew cursor)
            (read_snapshot-corrupt renew file current os bs tail why (omega arith) e w there bad)
          ∙ ap (salvage_at renew file cursor (16 + length bs))
              (ap read_header e ∙ read_header-log_of current (bs ++ tail) (omega arith))
          ∙ salvage_next renew file cursor (16 + length bs) (current + 1) _
              (next_number-below current h)
          ∙ ap₂ (λ (f : LogFile) (aside : List ℕ). salvaged (16 + length bs) f aside)
              (publish-kept renew file current bs tail e)
              (ap (drop (16 + length bs)) e ∙ behind_kept current bs tail),
      snapshot-read renew next next default_cursor _ generation last_id _ (
          read_snapshot-whole (length (next.content)) renew next (current + 1) generation last_id os
            bs h refl w),
    )
