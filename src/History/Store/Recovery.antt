-- ===== src/History/Store/Recovery.antt =====
-- Reading a log of src/history/store.rs that is whole, and one whose last write was cut short.
use ish.Prelude.{
  ℕ, suc, ◌+◌, ◌-◌, ◌≤◌, ◌<◌, ◌≡◌, refl, sym, ap, ◌∙◌, false, not, ◌&&◌, some, List, [], ◌∷◌, ◌++◌,
  length, drop, length-append, append-nil, ltb, leb, ◌==◌, if◌then◌else◌, arith, if_off,
}
use ish.Int64.{min_value, is_negative}
use ish.Vars.{same}
use ish.History.{Occurrence}
use ish.History.Bytes.{le, from_le-le}
use ish.History.Log.{Progress, whole, read_frames}
use ish.History.Log.Written.{
  Written, last_id_of, newer, arrive, read_frames-Written, encode-Framed, length-frame,
}
use ish.History.Store.{
  ok, LogFile, Cursor, magic, default_cursor, read_header, settle_cursor, scan_from, after_scan,
  with_header, read_snapshot,
}

-- The bytes of a log of a generation.
abbrev pub log_of : ℕ → List ℕ → List ℕ
log_of generation bs = magic ++ (le 8 generation ++ bs)

abbrev pub cutoff_for : ℕ → ℕ → ℕ → ℕ
cutoff_for current generation last_id = if current == generation then last_id else 0

abbrev pub cursor_at : LogFile → ℕ → ℕ → ℕ → Cursor
cursor_at file generation offset last_id = record {
  identity = some (file.identity);
  generation = generation;
  offset = offset;
  last_id = last_id;
}

pub read_header-log_of :
    (generation : ℕ) (bs : List ℕ)
    → generation < min_value
    → read_header (log_of generation bs) ≡ ok generation
unfolding read_header le same is_negative
read_header-log_of generation bs h =
    if_off (ltb (length (log_of generation bs)) 16) _ _ (ground arith)
    ∙ rw (from_le-le 8 generation (omega arith))
        (if_off (leb min_value generation) _ _ (ground arith))

pub settle_default :
    (file : LogFile) (current generation last_id : ℕ)
    → settle_cursor file current generation last_id default_cursor ≡ cursor_at file current 16 0
unfolding settle_cursor
settle_default file current generation last_id =
    if_off (not (current == generation) && false) _ _ (ground arith)

abbrev pub at_start : Progress
at_start = record { offset = 16; last_id = 0; occurrences = [] }

scan_from-log_of :
    (file : LogFile) (cutoff generation : ℕ) (bs : List ℕ)
    → file.content ≡ log_of generation bs
    → scan_from file cutoff (cursor_at file generation 16 0)
      ≡ read_frames (length bs) cutoff bs at_start
unfolding scan_from le
scan_from-log_of file cutoff generation bs e =
    ap (λ content. read_frames (length (drop 16 content)) cutoff (drop 16 content) at_start) e

pub length-Written :
    (offset last_id : ℕ) (os : List Occurrence) (bs : List ℕ)
    → Written offset last_id os bs
    → length os ≤ length bs
length-Written offset last_id [] bs h = omega arith
length-Written offset last_id (o ∷ os) bs (frame, rest, e, fine, less, fits, parts, h) = omega (
  arith,
  ap length parts,
  length-append frame rest,
  length-frame o frame (encode-Framed o frame fine e),
  length-Written (offset + length frame) (o.id) os rest h,
)

-- The frames of a log, and what stands behind them.
pub scan_log :
    (file : LogFile) (cutoff generation : ℕ) (os : List Occurrence) (bs tail : List ℕ)
    → file.content ≡ log_of generation (bs ++ tail)
    → Written 16 0 os bs
    → (f : ℕ) × (length tail ≤ f)
      × (scan_from file cutoff (cursor_at file generation 16 0)
          ≡ read_frames f cutoff tail (arrive cutoff os (length bs) at_start))
scan_log file cutoff generation os bs tail e h =
    let f = length (bs ++ tail) - length os in
    let few = length-Written 16 0 os bs h in
    let fuel : length (bs ++ tail) ≡ length os + f = omega (arith, length-append bs tail) in
    (
      f,
      omega (arith, length-append bs tail),
      scan_from-log_of file cutoff generation (bs ++ tail) e
          ∙ ap (λ n. read_frames n cutoff (bs ++ tail) at_start) fuel
          ∙ read_frames-Written cutoff os bs tail at_start f h,
    )

pub read_frames-end : (f cutoff : ℕ) (p : Progress) → read_frames f cutoff [] p ≡ whole p
unfolding read_frames
read_frames-end f cutoff p = refl

-- One round of `read_snapshot` on a log that has a header.
pub read_round :
    (f : ℕ) (renew : ℕ × ℕ → ℕ × ℕ) (file : LogFile) (current generation last_id : ℕ) (bs : List ℕ)
    → current < min_value
    → file.content ≡ log_of current bs
    → read_snapshot (suc f) renew file default_cursor generation last_id
      ≡ after_scan
          (λ next. read_snapshot f renew next default_cursor generation last_id)
          renew
          file
          current
          (cursor_at file current 16 0)
          (scan_from file (cutoff_for current generation last_id) (cursor_at file current 16 0))
unfolding read_snapshot with_header
read_round f renew file current generation last_id bs h e =
    ap (with_header _ file) (ap read_header e ∙ read_header-log_of current bs h)
    ∙ ap
        (λ c.
          after_scan (λ next. read_snapshot f renew next default_cursor generation last_id) renew
            file current c (scan_from file (cutoff_for current generation last_id) c))
        (settle_default file current generation last_id)

-- A whole log: its occurrences above the cutoff, and the cursor behind them.
pub read_snapshot-whole :
    (f : ℕ) (renew : ℕ × ℕ → ℕ × ℕ) (file : LogFile) (current generation last_id : ℕ)
    (os : List Occurrence) (bs : List ℕ)
    → current < min_value
    → file.content ≡ log_of current bs
    → Written 16 0 os bs
    → read_snapshot (suc f) renew file default_cursor generation last_id ≡ (
      ok (
        record {
          generation = current;
          occurrences = newer (cutoff_for current generation last_id) os;
        },
        cursor_at file current (16 + length bs) (last_id_of 0 os),
      ),
      file,
    )
unfolding after_scan
read_snapshot-whole f renew file current generation last_id os bs h e w =
    let cutoff = cutoff_for current generation last_id in
    let (g, _, scanned) =
      scan_log file cutoff current os bs [] (e ∙ ap (log_of current) (sym (append-nil bs))) w in
    read_round f renew file current generation last_id bs h e
    ∙ ap
        (after_scan (λ next. read_snapshot f renew next default_cursor generation last_id) renew
          file current (cursor_at file current 16 0))
        (scanned ∙ read_frames-end g cutoff (arrive cutoff os (length bs) at_start))
