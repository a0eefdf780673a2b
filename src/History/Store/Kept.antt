-- ===== src/History/Store/Kept.antt =====
-- The cursors that a store of src/history/store.rs may have kept when it reads a whole log.
use ish.Prelude.{
  ℕ, suc, ◌+◌, ◌<◌, ◌≡◌, sym, ap, ◌∙◌, Bool, false, not, ◌&&◌, List, ◌++◌, length, ◌==◌,
  if◌then◌else◌, arith, if_off, inl, inr, ◌⊎◌,
}
use ish.Int64.{min_value, signed_lt}
use ish.History.{Occurrence}
use ish.History.Log.Written.{Written, last_id_of, newer}
use ish.History.Store.{
  ok, LogFile, Cursor, default_cursor, same_identity, settle_cursor, read_snapshot,
}
use ish.History.Store.Recovery.{log_of, cutoff_for, cursor_at, settle_default, read_snapshot-whole}
use ish.History.Store.Resume.{read_settled, read_snapshot-resumes}

-- A cursor of another file, of another generation, or of a store that has read nothing.
abbrev pub IsStale : LogFile → ℕ → Cursor → Type 0
IsStale file current cursor =
    (same_identity (cursor.identity) (file.identity) && cursor.generation == current) ≡ false

-- A cursor of this file and generation that stands behind some of the log's frames, at the id of the last
-- of them: the occurrences and their frames before it, and those behind it.
pub record OnBoundary (file : LogFile) (current : ℕ) (os : List Occurrence) (bs : List ℕ)
    (cursor : Cursor) : Type 0 where
  pub before : List Occurrence
  pub behind : List Occurrence
  pub seen : List ℕ
  pub unseen : List ℕ
  pub occurrences : os ≡ before ++ behind
  pub frames : bs ≡ seen ++ unseen
  pub seen_written : Written 16 0 before seen
  pub unseen_written : Written (16 + length seen) (last_id_of 0 before) behind unseen
  pub stands : cursor ≡ cursor_at file current (16 + length seen) (last_id_of 0 before)

abbrev pub Kept : LogFile → ℕ → List Occurrence → List ℕ → Cursor → Type 0
Kept file current os bs cursor = IsStale file current cursor ⊎ OnBoundary file current os bs cursor

first_two : (a b c d : Bool) → (a && b) ≡ false → (a && b && c && d) ≡ false
first_two a b c d h = ground arith

settle_stale :
    (file : LogFile) (current generation last_id : ℕ) (cursor : Cursor)
    → IsStale file current cursor
    → settle_cursor file current generation last_id cursor ≡ cursor_at file current 16 0
unfolding settle_cursor
settle_stale file current generation last_id cursor h =
    ap
      (λ b.
        let c = if b then cursor else cursor_at file current 16 0 in
        if not (current == generation) && not (c.offset == 16)
        then record c { offset = 16; last_id = 0 }
        else c)
      (first_two (same_identity (cursor.identity) (file.identity)) (cursor.generation == current) _
        (not (signed_lt last_id (cursor.last_id))) h)
    ∙ if_off (not (current == generation) && false) _ _ (ground arith)

-- With any such cursor a read of a whole log gives its occurrences above the cutoff.
pub read_snapshot-Kept :
    (f : ℕ) (renew : ℕ × ℕ → ℕ × ℕ) (file : LogFile) (current generation last_id : ℕ)
    (os : List Occurrence) (bs : List ℕ) (cursor : Cursor)
    → current < min_value
    → file.content ≡ log_of current bs
    → Written 16 0 os bs
    → Kept file current os bs cursor
    → read_snapshot (suc f) renew file cursor generation last_id ≡ (
      ok (
        record {
          generation = current;
          occurrences = newer (cutoff_for current generation last_id) os;
        },
        cursor_at file current (16 + length bs) (last_id_of 0 os),
      ),
      file,
    )
read_snapshot-Kept f renew file current generation last_id os bs cursor h e w (inl stale) =
    read_settled f renew file current generation last_id bs cursor _ h e
      (settle_stale file current generation last_id cursor stale)
    ∙ sym (
        read_settled f renew file current generation last_id bs default_cursor _ h e
          (settle_default file current generation last_id))
    ∙ read_snapshot-whole f renew file current generation last_id os bs h e w
read_snapshot-Kept f renew file current generation last_id os bs cursor h e w (inr k) =
    rw (k.stands, k.occurrences, k.frames)
      (read_snapshot-resumes f renew file current generation last_id k.before k.behind k.seen
        k.unseen h (e ∙ ap (log_of current) k.frames) k.seen_written k.unseen_written)
