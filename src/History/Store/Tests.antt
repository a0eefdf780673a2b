-- ===== src/History/Store/Tests.antt =====
-- Runs and examples of the model of src/history/store.rs.
use ish.Prelude.{
  ℕ, ◌+◌, ◌≡◌, refl, none, some, List, [], ◌∷◌, ◌++◌, length, take, drop, arith, inl, inr,
}
use ish.Int64.{signed_lt}
use ish.Utf8.{bytes}
use ish.Utf8.Decode.{is_scalar}
use ish.History.{Occurrence, encode, decode, frame_of, payload_of}
use ish.History.Codec.{IsOccurrence, decode-encode}
use ish.History.Log.Written.{Written, last_id_of, newer}
use ish.History.Store.{ok, LogFile, default_cursor, publish, snapshot, append_occurrence, write_at}
use ish.History.Store.Recovery.{log_of, cutoff_for, cursor_at}
use ish.History.Store.Torn.{TornTail, snapshot-TornTail}
use ish.Prelude.{set}
use ish.History.Log.{read_frame, stop, corrupt, payload_checksum}
use ish.History.Log.Written.{arrive}
use ish.History.Store.Recovery.{at_start}
use ish.History.Store.{salvage}
use ish.History.Store.Salvage.{salvage-snapshot}
use ish.History.Store.Resume.{snapshot-resumes}
use ish.History.Store.{Cursor}
use ish.History.Store.Kept.{OnBoundary}
use ish.History.Store.Append.{append_occurrence-snapshot}
use ish.History.Store.Total.{Answered, read_snapshot-Answered}
use ish.History.Store.{read_snapshot, rounds}

abbrev first : Occurrence
first = record {
  id = 1;
  command = b'l' ∷ b's' ∷ [];
  timestamp = 1700000000;
  session_id = 7;
  cwd = some (b'/' ∷ []);
}

-- Its command is `é`, and its directory is not known.
abbrev second : Occurrence
second = record { id = 2; command = 0xE9 ∷ []; timestamp = 1700000001; session_id = 7; cwd = none }

abbrev first_frame : List ℕ
first_frame = frame_of (payload_of 1 first)

abbrev second_frame : List ℕ
second_frame = frame_of (payload_of 4294967295 second)

first-encode : encode first ≡ some first_frame
unfolding encode bytes ish.Utf8.encode
first-encode = refl

second-encode : encode second ≡ some second_frame
unfolding encode bytes ish.Utf8.encode
second-encode = refl

first-IsOccurrence : IsOccurrence first
unfolding is_scalar
first-IsOccurrence = (omega arith, omega arith, omega arith, (refl, (refl, tt)))

second-IsOccurrence : IsOccurrence second
unfolding is_scalar
second-IsOccurrence = (omega arith, omega arith, omega arith, (refl, tt))

decode-encode_example : decode (drop 16 first_frame) ≡ some first
decode-encode_example = decode-encode first first_frame first-IsOccurrence first-encode

abbrev renew : ℕ × ℕ → ℕ × ℕ
renew i = (i.0, i.1 + 1)

abbrev one : List Occurrence
one = first ∷ []

one-Written : Written 16 0 one first_frame
unfolding frame_of payload_of ish.History.Bytes.le bytes ish.Utf8.encode signed_lt
one-Written = (first_frame, [], first-encode, first-IsOccurrence, refl, omega arith, refl, refl)

-- The second frame lacks its last bytes.
abbrev torn_log : LogFile
torn_log = record { identity = (1, 2); content = log_of 0 (first_frame ++ take 20 second_frame) }

torn-TornTail : TornTail (take 20 second_frame)
unfolding frame_of payload_of ish.History.Bytes.le bytes ish.Utf8.encode
torn-TornTail =
    inl (second, second_frame, 19, second-IsOccurrence, second-encode, omega arith, refl)

snapshot-TornTail_example :
    let next = publish renew torn_log 1 first_frame in
    (next.content ≡ log_of 1 first_frame)
    × (snapshot renew torn_log default_cursor 0 0 ≡ (
      ok (record { generation = 1; occurrences = newer (cutoff_for 1 0 0) one }),
      cursor_at next 1 (16 + length first_frame) (last_id_of 0 one),
      next,
    ))
snapshot-TornTail_example =
    snapshot-TornTail renew torn_log 0 0 0 one first_frame (take 20 second_frame) (omega arith) refl
      one-Written torn-TornTail

abbrev whole_log : LogFile
whole_log = record { identity = (1, 2); content = log_of 0 first_frame }

-- The cursor that a store keeps which has read the first occurrence.
abbrev kept : Cursor
kept = cursor_at whole_log 0 (16 + length first_frame) 1

kept-OnBoundary : OnBoundary whole_log 0 one first_frame kept
unfolding frame_of payload_of ish.History.Bytes.le bytes ish.Utf8.encode
kept-OnBoundary = record {
  before = one;
  behind = [];
  seen = first_frame;
  unseen = [];
  occurrences = refl;
  frames = refl;
  seen_written = one-Written;
  unseen_written = refl;
  stands = refl;
}

append_occurrence-snapshot_example :
    let next = write_at (16 + length first_frame) second_frame whole_log in
    let cursor = cursor_at whole_log 0 (16 + length first_frame + length second_frame) 2 in
    (append_occurrence renew whole_log kept 0 1 second ≡ (
      ok (record { generation = 0; occurrences = newer (cutoff_for 0 0 1) one ++ second ∷ [] }, 2),
      cursor,
      next,
    ))
    × (next.content ≡ log_of 0 (first_frame ++ second_frame))
    × Written 16 0 (one ++ second ∷ []) (first_frame ++ second_frame)
    × (snapshot renew next default_cursor 0 1 ≡ (
      ok (record { generation = 0; occurrences = newer (cutoff_for 0 0 1) (one ++ second ∷ []) }),
      cursor_at next 0 (16 + length (first_frame ++ second_frame)) 2,
      next,
    ))
unfolding frame_of payload_of ish.History.Bytes.le bytes ish.Utf8.encode
append_occurrence-snapshot_example =
    append_occurrence-snapshot renew whole_log 0 0 1 one first_frame second_frame second kept
      (omega arith) refl one-Written (inr kept-OnBoundary) (omega arith) second-IsOccurrence
      second-encode (omega arith)

read_snapshot-Answered_example :
    Answered (read_snapshot (rounds torn_log) renew torn_log default_cursor 0 0)
read_snapshot-Answered_example =
    read_snapshot-Answered renew torn_log default_cursor 0 0 (omega arith)

-- A log to which another store has appended the second occurrence.
abbrev shared_log : LogFile
shared_log = record { identity = (1, 2); content = log_of 0 (first_frame ++ second_frame) }

second-Written : Written (16 + length first_frame) 1 (second ∷ []) second_frame
unfolding frame_of payload_of ish.History.Bytes.le bytes ish.Utf8.encode signed_lt
second-Written =
    (second_frame, [], second-encode, second-IsOccurrence, refl, omega arith, refl, refl)

snapshot-resumes_example :
    snapshot renew shared_log (cursor_at shared_log 0 (16 + length first_frame) 1) 0 1
    ≡ snapshot renew shared_log default_cursor 0 1
snapshot-resumes_example =
    snapshot-resumes renew shared_log 0 0 1 one (second ∷ []) first_frame second_frame (omega arith)
      refl one-Written second-Written

-- The second frame with a byte changed, and the first again behind it.
abbrev corrupt_tail : List ℕ
corrupt_tail = set second_frame 40 99 ++ first_frame

abbrev corrupt_log : LogFile
corrupt_log = record { identity = (1, 2); content = log_of 0 (first_frame ++ corrupt_tail) }

corrupt_tail-found :
    read_frame 0 corrupt_tail (arrive 0 one (length first_frame) at_start)
    ≡ stop (corrupt (16 + length first_frame) payload_checksum)
unfolding read_frame frame_of payload_of ish.History.Bytes.le bytes ish.Utf8.encode
corrupt_tail-found = refl

salvage-snapshot_example :
    let next = publish renew corrupt_log 1 first_frame in
    (salvage renew corrupt_log default_cursor
      ≡ (ok (16 + length first_frame), default_cursor, next, corrupt_tail))
    × (snapshot renew next default_cursor 0 0 ≡ (
      ok (record { generation = 1; occurrences = newer (cutoff_for 1 0 0) one }),
      cursor_at next 1 (16 + length first_frame) (last_id_of 0 one),
      next,
    ))
unfolding frame_of payload_of ish.History.Bytes.le bytes ish.Utf8.encode
salvage-snapshot_example =
    salvage-snapshot renew corrupt_log default_cursor 0 0 0 one first_frame corrupt_tail
      payload_checksum (omega arith) refl one-Written (omega arith) corrupt_tail-found
