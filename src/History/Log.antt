-- ===== src/History/Log.antt =====
-- `read_header` and `read_snapshot` of src/history/store.rs. A file is its identity and its bytes; system
-- calls succeed. `unfinished` and `out_of_fuel` are a lack of fuel,
-- of the model only.
pub mod Total
pub mod Loop
pub mod Written
use ish.Prelude.{
  ℕ, zero, suc, ◌+◌, ◌-◌, Bool, true, false, not, ◌&&◌, ◌||◌, Option, none, some, List, [], ◌∷◌,
  ◌++◌, length, take, drop, ltb, leb, ◌==◌, if◌then◌else◌,
}
use ish.Int64.{modulus, min_value, is_negative, signed_lt}
use ish.Vars.{same}
use ish.History.{Occurrence, part, decode}
use ish.History.Bytes.{le, from_le, crc32}

-- The messages of `corrupt`.
pub data Corruption : Type 0 where
  length_checksum : Corruption
  payload_short : Corruption
  payload_checksum : Corruption
  invalid_record : Corruption
  ids_not_increasing : Corruption

pub data StoreError : Type 0 where
  incomplete_header : StoreError
  unsupported_header : StoreError
  negative_generation : StoreError
  frame_overflow : StoreError
  offset_overflow : StoreError
  corrupt : ℕ → Corruption → StoreError
  generation_exhausted : StoreError
  id_exhausted : StoreError
  invalid_occurrence : StoreError
  intact : StoreError
  clock_out_of_range : StoreError
  out_of_fuel : StoreError

pub record Progress : Type 0 where
  pub offset : ℕ
  pub last_id : ℕ
  pub occurrences : List Occurrence

-- What a round of the loop does: go on, break with `discarded_tail`, or return an error.
pub data Round : Type 0 where
  more : List ℕ → Progress → Round
  cut : Round
  stop : StoreError → Round

unfoldable pub all_zero : List ℕ → Bool
all_zero [] = true
all_zero (b ∷ bs) = b == 0 && all_zero bs

-- The round from the decoded record on.
unfoldable pub take_record : ℕ → List ℕ → ℕ → Option Occurrence → Progress → Round
unfolding signed_lt
take_record cutoff rest frame_size none p = stop (corrupt (p.offset) invalid_record)
take_record cutoff rest frame_size (some o) p =
    if not (signed_lt (p.last_id) (o.id))
    then stop (corrupt (p.offset) ids_not_increasing)
    else if leb modulus (p.offset + frame_size)
    then stop offset_overflow
    else more rest (record {
      offset = p.offset + frame_size;
      last_id = o.id;
      occurrences = if signed_lt cutoff (o.id) then p.occurrences ++ o ∷ [] else p.occurrences;
    })

-- The round from the checked length on.
unfoldable pub take_payload : ℕ → ℕ → ℕ → List ℕ → Progress → Round
unfolding take_record decode crc32
take_payload cutoff size checksum body p =
    let payload = take size body in
    if ltb size 32
    then stop (corrupt (p.offset) payload_short)
    else if leb modulus (16 + size)
    then stop frame_overflow
    else if ltb (length body) size
    then cut
    else if crc32 payload == checksum
    then take_record cutoff (drop size body) (16 + size) (decode payload) p
    else if size == length body
    then cut
    else stop (corrupt (p.offset) payload_checksum)

unfoldable pub read_frame : ℕ → List ℕ → Progress → Round
unfolding take_payload all_zero from_le crc32
read_frame cutoff rest p =
    let header = take 16 rest in
    let body = drop 16 rest in
    if ltb (length rest) 16
    then cut
    else if crc32 (take 8 header) == from_le (part 8 4 header)
    then take_payload cutoff (from_le (take 8 header)) (from_le (part 12 4 header)) body p
    else if all_zero header && all_zero body
    then cut
    else stop (corrupt (p.offset) length_checksum)

pub data Scan : Type 0 where
  whole : Progress → Scan
  torn : ℕ → Scan
  failed : StoreError → Scan
  unfinished : Scan

-- The loop over the bytes from the offset on.
unfoldable pub read_frames : ℕ → ℕ → List ℕ → Progress → Scan
unfolding read_frame
read_frames f cutoff [] p = whole p
read_frames zero cutoff (b ∷ rest) p = unfinished
read_frames (suc f) cutoff (b ∷ rest) p = elim (read_frame cutoff (b ∷ rest) p) [
  | more next q ↦ read_frames f cutoff next q
  | cut ↦ torn (p.offset)
  | stop e ↦ failed e
]
