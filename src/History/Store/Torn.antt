-- ===== src/History/Store/Torn.antt =====
-- Reading a log of src/history/store.rs whose last write was cut short.
use ish.Prelude.{
  ℕ, zero, suc, ◌+◌, ◌-◌, ◌≤◌, ◌<◌, ◌≡◌, refl, ap, ◌∙◌, Option, none, some, List, ◌++◌, length,
  take, replicate, length-replicate, ◌==◌, arith, if_off, inl, inr, ◌⊎◌, length-take,
}
use ish.Int64.{min_value}
use ish.History.{Occurrence, part, encode}
use ish.History.Bytes.{le}
use ish.History.Codec.{IsOccurrence, take_all}
use ish.History.Log.{Progress, generation_exhausted, cut, read_frame, torn, read_frames}
use ish.History.Log.Loop.{read_frame-zeros}
use ish.History.Log.Written.{
  Written, last_id_of, newer, arrive, read_frames-after_round, torn_frame, encode-Framed,
}
use ish.History.Store.{
  Result, ok, err, LogFile, Snapshot, Cursor, default_cursor, next_number, publish, Read,
  after_scan, read_snapshot, rounds, snapshot,
}
use ish.History.Store.Recovery.{
  log_of, cutoff_for, cursor_at, at_start, scan_log, read_round, read_snapshot-whole,
}

-- What a write that did not finish leaves: a front of a frame, not empty and not whole, or zeros.
abbrev pub TornTail : List ℕ → Type 0
TornTail tail =
    ((o : Occurrence) × (frame : List ℕ) × (n : ℕ) × IsOccurrence o
      × (encode o ≡ some frame)
      × (suc n < length frame)
      × (tail ≡ take (suc n) frame))
    ⊎ ((n : ℕ) × (tail ≡ replicate (suc n) 0))

TornTail-cut :
    (cutoff : ℕ) (tail : List ℕ) (p : Progress)
    → TornTail tail
    → (1 ≤ length tail) × (read_frame cutoff tail p ≡ cut)
TornTail-cut cutoff tail p (inl (o, frame, n, fine, e, less, parts)) = (
  omega (arith, ap length parts, length-take (suc n) frame),
  ap (λ bs. read_frame cutoff bs p) parts
      ∙ torn_frame cutoff o frame (suc n) p (encode-Framed o frame fine e) less,
)
TornTail-cut cutoff tail p (inr (n, parts)) = (
  omega (arith, ap length parts, length-replicate {A = ℕ} (suc n) 0),
  ap (λ bs. read_frame cutoff bs p) parts ∙ read_frame-zeros cutoff (suc n) p,
)

read_frames-TornTail :
    (f cutoff : ℕ) (tail : List ℕ) (p : Progress)
    → length tail ≤ f
    → TornTail tail
    → read_frames f cutoff tail p ≡ torn (p.offset)
read_frames-TornTail zero cutoff tail p h t =
    let (there, e) = TornTail-cut cutoff tail p t in absurd (omega arith)
read_frames-TornTail (suc f) cutoff tail p h t =
    let (there, e) = TornTail-cut cutoff tail p t in
    read_frames-after_round f cutoff tail p cut there e

pub next_number-below : (n : ℕ) → n + 1 < min_value → next_number n ≡ some (n + 1)
unfolding next_number
next_number-below n h = if_off (n + 1 == min_value) _ _ (ground arith) ∙ ap some (omega arith)

kept_records :
    (generation : ℕ) (bs tail : List ℕ)
    → part 16 (16 + length bs - 16) (log_of generation (bs ++ tail)) ≡ bs
unfolding le
kept_records generation bs tail = ap (λ n. take n (bs ++ tail)) (omega arith) ∙ take_all bs tail

pub publish-kept :
    (renew : ℕ × ℕ → ℕ × ℕ) (file : LogFile) (current : ℕ) (bs tail : List ℕ)
    → file.content ≡ log_of current (bs ++ tail)
    → publish renew file (current + 1) (part 16 (16 + length bs - 16) (file.content))
      ≡ publish renew file (current + 1) bs
publish-kept renew file current bs tail e =
    ap (publish renew file (current + 1))
      (ap (part 16 (16 + length bs - 16)) e ∙ kept_records current bs tail)

-- A log with a torn tail is put in its place without the tail, as the next generation, and read.
read_snapshot-torn :
    (f : ℕ) (renew : ℕ × ℕ → ℕ × ℕ) (file : LogFile) (current generation last_id : ℕ)
    (os : List Occurrence) (bs tail : List ℕ)
    → current + 1 < min_value
    → file.content ≡ log_of current (bs ++ tail)
    → Written 16 0 os bs
    → TornTail tail
    → read_snapshot (suc f) renew file default_cursor generation last_id
      ≡ read_snapshot f renew
          (publish renew file (current + 1) bs)
          default_cursor
          generation
          last_id
unfolding after_scan
read_snapshot-torn f renew file current generation last_id os bs tail h e w t =
    let cutoff = cutoff_for current generation last_id in
    let again : LogFile → Read =
      λ next. read_snapshot f renew next default_cursor generation last_id in
    let (g, enough, scanned) = scan_log file cutoff current os bs tail e w in
    read_round f renew file current generation last_id (bs ++ tail) (omega arith) e
    ∙ ap (after_scan again renew file current (cursor_at file current 16 0)) (
        scanned
        ∙ read_frames-TornTail g cutoff tail (arrive cutoff os (length bs) at_start) enough t)
    ∙ ap
        (λ (o : Option ℕ). elim o as (λ _. Read) [
          | none ↦ (err generation_exhausted, file)
          | some next ↦
              again (publish renew file next (part 16 (16 + length bs - 16) (file.content)))
        ])
        (next_number-below current h)
    ∙ ap again (publish-kept renew file current bs tail e)

pub snapshot-read :
    (renew : ℕ × ℕ → ℕ × ℕ) (file next : LogFile) (cursor c : Cursor) (generation last_id : ℕ)
    (s : Snapshot)
    → read_snapshot (rounds file) renew file cursor generation last_id ≡ (ok (s, c), next)
    → snapshot renew file cursor generation last_id ≡ (ok s, c, next)
unfolding snapshot
snapshot-read renew file next cursor c generation last_id s e =
    ap
      (λ (read : Read). elim (read.0) as (λ _. Result Snapshot × Cursor × LogFile) [
        | ok found ↦ (ok (found.0), found.1, read.1)
        | err why ↦ (err why, cursor, read.1)
      ])
      e

pub log_there :
    (file : LogFile) (generation : ℕ) (bs : List ℕ)
    → file.content ≡ log_of generation bs
    → length (file.content) ≡ suc (length (file.content) - 1)
unfolding le
log_there file generation bs e = omega (arith, ap length e)

-- A store that opens a log whose last write was cut short reads the occurrences of all whole frames above
-- the cutoff, and leaves a log of the next generation with exactly those frames in the file's place, when
-- the generations are not exhausted.
pub snapshot-TornTail :
    (renew : ℕ × ℕ → ℕ × ℕ) (file : LogFile) (current generation last_id : ℕ) (os : List Occurrence)
    (bs tail : List ℕ)
    → current + 1 < min_value
    → file.content ≡ log_of current (bs ++ tail)
    → Written 16 0 os bs
    → TornTail tail
    → let next = publish renew file (current + 1) bs in
      (next.content ≡ log_of (current + 1) bs)
      × (snapshot renew file default_cursor generation last_id ≡ (
        ok (record {
          generation = current + 1;
          occurrences = newer (cutoff_for (current + 1) generation last_id) os;
        }),
        cursor_at next (current + 1) (16 + length bs) (last_id_of 0 os),
        next,
      ))
unfolding publish
snapshot-TornTail renew file current generation last_id os bs tail h e w t =
    let next = publish renew file (current + 1) bs in
    (
      refl,
      snapshot-read renew file next default_cursor _ generation last_id _ (
          read_snapshot-torn (length (file.content)) renew file current generation last_id os bs
            tail h e w t
          ∙ ap (λ f. read_snapshot f renew next default_cursor generation last_id)
              (log_there file current (bs ++ tail) e)
          ∙ read_snapshot-whole (length (file.content) - 1) renew next (current + 1) generation
              last_id os bs h refl w),
    )
