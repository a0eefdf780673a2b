-- ===== src/History.antt =====
-- The records of the history log of src/history/store.rs: `encode` and `decode`. A path is its bytes, a
-- command its code points, an i64 its bit pattern; a usize has 64 bits, and memory suffices.
pub mod Bytes
pub mod Codec
pub mod Log
pub mod Store
use ish.Prelude.{
  ℕ, zero, suc, ◌+◌, ◌-◌, ◌<◌, Bool, true, false, not, ◌&&◌, ◌||◌, Option, none, some, List, [],
  ◌∷◌, ◌++◌, length, take, drop, ltb, leb, ◌==◌, if◌then◌else◌, ◌>>=◌,
}
use ish.Int64.{is_negative}
use ish.Utf8.{Str, bytes}
use ish.Utf8.Decode.{from_utf8}
use ish.History.Bytes.{le, from_le, u32_max, crc32}

pub record Occurrence : Type 0 where
  id : ℕ
  command : Str
  timestamp : ℕ
  session_id : ℕ
  cwd : Option (List ℕ)

unfoldable pub is_positive : ℕ → Bool
unfolding is_negative
is_positive id = not (id == 0) && not (is_negative id)

abbrev pub size_of : Option (List ℕ) → ℕ
size_of none = 0
size_of (some path) = length path

-- `cwd_len` of `encode`; a path that is too long is an error.
unfoldable pub cwd_len_of : Option (List ℕ) → Option ℕ
cwd_len_of none = some u32_max
cwd_len_of (some path) = if ltb (length path) u32_max then some (length path) else none

-- The slice `payload[from..from + size]`.
abbrev pub part : ℕ → ℕ → List ℕ → List ℕ
part from size payload = take size (drop from payload)

-- The path and the command behind the numbers.
unfoldable pub decode_texts : ℕ → ℕ → ℕ → ℕ → ℕ → List ℕ → Option Occurrence
unfolding from_utf8
decode_texts id timestamp session_id cwd_len command_len payload =
    let directory_size = if cwd_len == u32_max then 0 else cwd_len in
    let command_start = 32 + directory_size in
    if command_len == 0 || not (command_start + command_len == length payload)
    then none
    else (from_utf8 (drop command_start payload) >>= λ command. some (record {
      id = id;
      command = command;
      timestamp = timestamp;
      session_id = session_id;
      cwd = if cwd_len == u32_max then none else some (part 32 directory_size payload);
    }))

-- The caller has checked that the payload has the 32 bytes of the numbers.
unfoldable pub decode : List ℕ → Option Occurrence
unfolding decode_texts is_positive from_le
decode payload =
    let id = from_le (part 0 8 payload) in
    if is_positive id
    then decode_texts id (from_le (part 8 8 payload)) (from_le (part 16 8 payload))
        (from_le (part 24 4 payload)) (from_le (part 28 4 payload)) payload
    else none

abbrev pub path_bytes : Option (List ℕ) → List ℕ
path_bytes none = []
path_bytes (some path) = path

unfoldable pub payload_of : ℕ → Occurrence → List ℕ
unfolding le bytes
payload_of cwd_len o =
    le 8 (o.id)
    ++ (le 8 (o.timestamp)
        ++ (le 8 (o.session_id)
            ++ (le 4 cwd_len
                ++ (le 4 (length (bytes (o.command)))
                    ++ (path_bytes (o.cwd) ++ bytes (o.command))))))

unfoldable pub frame_of : List ℕ → List ℕ
unfolding le crc32
frame_of payload =
    let size = le 8 (length payload) in
    size ++ (le 4 (crc32 size) ++ (le 4 (crc32 payload) ++ payload))

abbrev pub no_command : Str → Bool
no_command [] = true
no_command (c ∷ s) = false

unfoldable pub encode : Occurrence → Option (List ℕ)
unfolding is_positive cwd_len_of payload_of frame_of
encode o =
    if not (is_positive (o.id)) || no_command (o.command)
    then none
    else (cwd_len_of (o.cwd) >>= λ cwd_len.
        if leb (length (bytes (o.command))) u32_max
        then some (frame_of (payload_of cwd_len o))
        else none)
