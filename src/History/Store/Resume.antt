-- ===== src/History/Store/Resume.antt =====
-- A store of src/history/store.rs that reads on from the cursor it has kept.
use ish.Prelude.{
  ℕ, suc, ◌+◌, ◌-◌, ◌≤◌, ◌<◌, ◌≡◌, refl, sym, ap, ap₂, ◌∙◌, Bool, true, false, not, ◌&&◌, List, [],
  ◌∷◌, ◌++◌, length, drop, length-append, append-nil, drop-append, drop-add, le→leb, ◌==◌, ==_refl,
  if◌then◌else◌, arith, Bool-cases, if_on, if_off, inl, inr, ◌⊎◌,
}
use ish.Int64.{min_value, signed_lt}
use ish.History.{Occurrence}
use ish.History.Bytes.{le}
use ish.History.Log.{Progress, whole, read_frames}
use ish.History.Log.Written.{
  Written, last_id_of, newer, arrive, read_frames-Written, encode-Framed, length-frame,
}
use ish.History.Store.{
  ok, LogFile, Cursor, default_cursor, read_header, same_identity, settle_cursor, scan_from, Read,
  after_scan, with_header, read_snapshot, snapshot,
}
use ish.History.Store.Recovery.{
  log_of, cutoff_for, cursor_at, read_header-log_of, settle_default, read_frames-end,
  length-Written, read_snapshot-whole,
}
use ish.History.Store.Torn.{snapshot-read}
use ish.History.Store.Order.{
  last_id_of-append, Written-append, newer-old, newer-append, all_but_last,
}

-- One round of `read_snapshot` from the cursor that fits.
pub read_settled :
    (f : ℕ) (renew : ℕ × ℕ → ℕ × ℕ) (file : LogFile) (current generation last_id : ℕ) (bs : List ℕ)
    (cursor c : Cursor)
    → current < min_value
    → file.content ≡ log_of current bs
    → settle_cursor file current generation last_id cursor ≡ c
    → read_snapshot (suc f) renew file cursor generation last_id
      ≡ after_scan
          (λ next. read_snapshot f renew next default_cursor generation last_id)
          renew
          file
          current
          c
          (scan_from file (cutoff_for current generation last_id) c)
unfolding read_snapshot with_header
read_settled f renew file current generation last_id bs cursor c h e settled =
    ap (with_header _ file) (ap read_header e ∙ read_header-log_of current bs h)
    ∙ ap
        (λ x.
          after_scan (λ next. read_snapshot f renew next default_cursor generation last_id) renew
            file current x (scan_from file (cutoff_for current generation last_id) x))
        settled

-- The last step of settling, by whether the generation is the one asked for.
abbrev restart_if : Bool → Cursor → Cursor
restart_if same c =
    if not same && not (c.offset == 16) then record c { offset = 16; last_id = 0 } else c

-- A cursor of the file's generation within the file fits unless the caller has seen less.
settle_cursor-at :
    (file : LogFile) (current generation last_id offset id : ℕ)
    → offset ≤ length (file.content)
    → settle_cursor file current generation last_id (cursor_at file current offset id)
      ≡ restart_if (current == generation) (
          if not (signed_lt last_id id)
          then cursor_at file current offset id
          else cursor_at file current 16 0)
unfolding settle_cursor same_identity
settle_cursor-at file current generation last_id offset id inside =
    ap
      (λ b.
        restart_if (current == generation)
          (if b then cursor_at file current offset id else cursor_at file current 16 0))
      (all_but_last _ _ _ (not (signed_lt last_id id))
        (ap₂ (λ x y. x && y) (==_refl (file.identity.0)) (==_refl (file.identity.1)))
        (==_refl current) (le→leb offset (length (file.content)) inside))

-- Where the cursor does not fit, or is of another generation, the read starts anew.
abbrev Settles : ℕ → ℕ → LogFile → ℕ → ℕ → ℕ → Cursor → Type 0
Settles generation last_id file current offset id c =
    (c ≡ cursor_at file current 16 0)
    ⊎ (((current == generation) ≡ true)
        × (signed_lt last_id id ≡ false)
        × (c ≡ cursor_at file current offset id))

settled :
    (generation last_id : ℕ) (file : LogFile) (current offset id : ℕ) (same less : Bool)
    → (current == generation) ≡ same
    → signed_lt last_id id ≡ less
    → (offset ≡ 16 → id ≡ 0)
    → Settles generation last_id file current offset id (
        restart_if same
          (if not less then cursor_at file current offset id else cursor_at file current 16 0))
settled generation last_id file current offset id true true e d start = inl refl
settled generation last_id file current offset id false true e d start = inl refl
settled generation last_id file current offset id true false e d start = inr (e, d, refl)
settled generation last_id file current offset id false false e d start =
    inl (elim (Bool-cases (offset == 16)) [
      | inl same ↦
          let there : offset ≡ 16 = ground arith in
          if_off (not (offset == 16)) _ _ (ap not same)
          ∙ ap₂ (cursor_at file current) there (start there)
      | inr other ↦ if_on (not (offset == 16)) _ _ (ap not other)
    ])

Written-start :
    (os : List Occurrence) (bs : List ℕ)
    → Written 16 0 os bs
    → 16 + length bs ≡ 16
    → last_id_of 0 os ≡ 0
Written-start [] bs h e = refl
Written-start (o ∷ os) bs (frame, rest, coded, fine, less, fits, parts, h) e = absurd (
    omega (
      arith,
      ap length parts,
      length-append frame rest,
      length-frame o frame (encode-Framed o frame fine coded),
    ))

-- The scan from a boundary of frames.
scan_behind :
    (file : LogFile) (cutoff current : ℕ) (os qs : List Occurrence) (bs cs : List ℕ)
    → file.content ≡ log_of current (bs ++ cs)
    → Written (16 + length bs) (last_id_of 0 os) qs cs
    → scan_from file cutoff (cursor_at file current (16 + length bs) (last_id_of 0 os))
      ≡ whole (
          arrive cutoff qs
            (length cs)
            (record { offset = 16 + length bs; last_id = last_id_of 0 os; occurrences = [] }))
unfolding scan_from le
scan_behind file cutoff current os qs bs cs e w =
    let p : Progress = record {
      offset = 16 + length bs;
      last_id = last_id_of 0 os;
      occurrences = [];
    } in
    let rest : drop (16 + length bs) (file.content) ≡ cs =
      ap (drop (16 + length bs)) e
      ∙ drop-add 16 (length bs) (log_of current (bs ++ cs))
      ∙ drop-append bs cs in
    let few = length-Written (16 + length bs) (last_id_of 0 os) qs cs w in
    let fuel : length cs ≡ length qs + (length cs - length qs) = omega arith in
    ap (λ r. read_frames (length r) cutoff r p) rest
    ∙ ap₂ (λ n r. read_frames n cutoff r p) fuel (sym (append-nil cs))
    ∙ read_frames-Written cutoff qs cs [] p (length cs - length qs) w
    ∙ read_frames-end (length cs - length qs) cutoff (arrive cutoff qs (length cs) p)

-- A read that ends, with the occurrences and the end of the log.
abbrev ended : LogFile → ℕ → List Occurrence → ℕ → ℕ → Read
ended file current found offset last_id = (
  ok (record { generation = current; occurrences = found }, cursor_at file current offset last_id),
  file,
)

ended_same :
    (file : LogFile) (current : ℕ) {found gathered : List Occurrence} {m n i j : ℕ}
    → found ≡ gathered
    → m ≡ n
    → i ≡ j
    → ended file current found m i ≡ ended file current gathered n j
ended_same file current {gathered} {m} {n} {i} h k l =
    ap (λ x. ended file current x m i) h ∙ ap₂ (ended file current gathered) k l

-- From the boundary only the newer frames are read, and no older occurrence is above the cutoff.
read_behind :
    (again : LogFile → Read) (renew : ℕ × ℕ → ℕ × ℕ) (file : LogFile) (current cutoff : ℕ)
    (os qs : List Occurrence) (bs cs : List ℕ)
    → file.content ≡ log_of current (bs ++ cs)
    → Written 16 0 os bs
    → Written (16 + length bs) (last_id_of 0 os) qs cs
    → signed_lt cutoff (last_id_of 0 os) ≡ false
    → after_scan again renew file current
        (cursor_at file current (16 + length bs) (last_id_of 0 os))
        (scan_from file cutoff (cursor_at file current (16 + length bs) (last_id_of 0 os)))
      ≡ ended file current
          (newer cutoff (os ++ qs))
          (16 + length (bs ++ cs))
          (last_id_of 0 (os ++ qs))
unfolding after_scan
read_behind again renew file current cutoff os qs bs cs e w v old =
    ap
      (after_scan again renew file current
        (cursor_at file current (16 + length bs) (last_id_of 0 os)))
      (scan_behind file cutoff current os qs bs cs e v)
    ∙ ended_same file current
        (ap (λ x. x ++ newer cutoff qs) (sym (newer-old 16 0 os bs w cutoff old))
          ∙ sym (newer-append cutoff os qs))
        (omega (arith, length-append bs cs)) (sym (last_id_of-append 0 os qs))

within_log :
    (file : LogFile) (current : ℕ) (bs cs : List ℕ)
    → file.content ≡ log_of current (bs ++ cs)
    → 16 + length bs ≤ length (file.content)
unfolding le
within_log file current bs cs e = omega (arith, ap length e, length-append bs cs)

pub read_snapshot-resumes :
    (f : ℕ) (renew : ℕ × ℕ → ℕ × ℕ) (file : LogFile) (current generation last_id : ℕ)
    (os qs : List Occurrence) (bs cs : List ℕ)
    → current < min_value
    → file.content ≡ log_of current (bs ++ cs)
    → Written 16 0 os bs
    → Written (16 + length bs) (last_id_of 0 os) qs cs
    → read_snapshot
        (suc f)
        renew
        file
        (cursor_at file current (16 + length bs) (last_id_of 0 os))
        generation
        last_id
      ≡ ended file current
          (newer (cutoff_for current generation last_id) (os ++ qs))
          (16 + length (bs ++ cs))
          (last_id_of 0 (os ++ qs))
read_snapshot-resumes f renew file current generation last_id os qs bs cs h e w v =
    let id = last_id_of 0 os in
    let cursor = cursor_at file current (16 + length bs) id in
    let again : LogFile → Read =
      λ next. read_snapshot f renew next default_cursor generation last_id in
    let inside : 16 + length bs ≤ length (file.content) = within_log file current bs cs e in
    let settle = settle_cursor-at file current generation last_id (16 + length bs) id inside in
    elim (settled generation last_id file current (16 + length bs) id _ _ refl refl
      (Written-start os bs w)) [
        | inl anew ↦
            read_settled f renew file current generation last_id (bs ++ cs) cursor _ h e
              (settle ∙ anew)
            ∙ sym (
                read_settled f renew file current generation last_id (bs ++ cs) default_cursor _ h e
                  (settle_default file current generation last_id))
            ∙ read_snapshot-whole f renew file current generation last_id (os ++ qs) (bs ++ cs) h e
                (Written-append 16 0 os qs bs cs w v)
        | inr (same, seen, kept) ↦
            read_settled f renew file current generation last_id (bs ++ cs) cursor _ h e
              (settle ∙ kept)
            ∙ read_behind again renew file current (cutoff_for current generation last_id) os qs bs
                cs e w v
                (ap (λ c. signed_lt c id) (if_on (current == generation) last_id 0 same) ∙ seen)
      ]

-- A store whose cursor stands behind some frames of a whole log of this file, where it or another store
-- has appended more, answers, whatever it asks for, as one that reads the log from its start; only the
-- reading of the frames before the cursor is saved.
pub snapshot-resumes :
    (renew : ℕ × ℕ → ℕ × ℕ) (file : LogFile) (current generation last_id : ℕ)
    (os qs : List Occurrence) (bs cs : List ℕ)
    → current < min_value
    → file.content ≡ log_of current (bs ++ cs)
    → Written 16 0 os bs
    → Written (16 + length bs) (last_id_of 0 os) qs cs
    → snapshot renew file
        (cursor_at file current (16 + length bs) (last_id_of 0 os))
        generation
        last_id
      ≡ snapshot renew file default_cursor generation last_id
snapshot-resumes renew file current generation last_id os qs bs cs h e w v =
    let n = length (file.content) in
    snapshot-read renew file file (cursor_at file current (16 + length bs) (last_id_of 0 os)) _
      generation last_id _
      (read_snapshot-resumes n renew file current generation last_id os qs bs cs h e w v)
    ∙ sym (
        snapshot-read renew file file default_cursor _ generation last_id _ (
          read_snapshot-whole n renew file current generation last_id (os ++ qs) (bs ++ cs) h e
            (Written-append 16 0 os qs bs cs w v)))
