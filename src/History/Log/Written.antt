-- ===== src/History/Log/Written.antt =====
-- The loop of `read_snapshot` of src/history/store.rs over whole frames, in order, and a torn one.
use ish.Prelude.{
  ℕ, suc, ◌+◌, ◌-◌, ◌≤◌, ◌<◌, ◌≡◌, refl, sym, ap, ap₂, ◌∙◌, true, not, Option, none, some, List, [],
  ◌∷◌, ◌++◌, length, take, drop, filter, length-append, length-take, take-append_right, append-nil,
  append_assoc, ltb, leb, if◌then◌else◌, arith, Bool-cases, if_off, inl, inr,
}
use native.Mathlib.Nat.{zero-add, suc-add}
use ish.Int64.{modulus, signed_lt}
use ish.History.{Occurrence, path_bytes, cwd_len_of, decode, payload_of, frame_of, encode}
use ish.History.Bytes.{le, u32_max, crc32}
use ish.History.Codec.{IsOccurrence, encode-Encodes, decode-encode, length-payload_of, path_length}
use ish.History.Log.{
  Progress, Round, more, cut, stop, take_record, read_frame, Scan, torn, failed, read_frames,
}
use ish.History.Log.Loop.{
  read_frame-header, take_payload-whole, take_payload-short, read_frame-few, header_of,
}

abbrev pub advance : ℕ → Occurrence → ℕ → Progress → Progress
advance cutoff o frame_size p = record {
  offset = p.offset + frame_size;
  last_id = o.id;
  occurrences = if signed_lt cutoff (o.id) then p.occurrences ++ o ∷ [] else p.occurrences;
}

take_record-more :
    (cutoff : ℕ) (rest : List ℕ) (size : ℕ) (o : Occurrence) (p : Progress)
    → signed_lt (p.last_id) (o.id) ≡ true
    → p.offset + size < modulus
    → take_record cutoff rest size (some o) p ≡ more rest (advance cutoff o size p)
unfolding take_record
take_record-more cutoff rest size o p h k =
    if_off (not (signed_lt (p.last_id) (o.id))) _ _ (ap not h)
    ∙ if_off (leb modulus (p.offset + size)) _ _ (ground arith)

-- The frame of an occurrence, with the payload it stands for.
abbrev pub Framed : Occurrence → List ℕ → Type 0
Framed o frame =
    (payload : List ℕ) × (frame ≡ header_of payload ++ payload)
    × (decode payload ≡ some o)
    × (32 ≤ length payload)
    × (16 + length payload < modulus)

path_bound :
    (cwd : Option (List ℕ)) (n : ℕ) → cwd_len_of cwd ≡ some n → length (path_bytes cwd) ≤ u32_max
path_bound none n h = omega arith
path_bound (some path) n h = let (e, less) = path_length path n h in omega arith

pub encode-Framed :
    (o : Occurrence) (frame : List ℕ) → IsOccurrence o → encode o ≡ some frame → Framed o frame
unfolding frame_of le
encode-Framed o frame h e =
    let (n, pos, there, c, short, parts) = encode-Encodes o frame e in
    let size = length-payload_of n o in
    (
      payload_of n o,
      parts,
      ap (λ f. decode (drop 16 f)) (sym parts) ∙ decode-encode o frame h e,
      omega (arith, size),
      omega (arith, size, path_bound (o.cwd) n c),
    )

length-header_of : (payload : List ℕ) → length (header_of payload) ≡ 16
unfolding le
length-header_of payload = refl

pub length-frame : (o : Occurrence) (frame : List ℕ) → Framed o frame → 48 ≤ length frame
length-frame o frame (payload, parts, d, h, k) =
    omega
      (arith, ap length parts, length-append (header_of payload) payload, length-header_of payload)

-- One whole frame is one round.
read_frame-encode :
    (cutoff : ℕ) (o : Occurrence) (frame rest : List ℕ) (p : Progress)
    → Framed o frame
    → signed_lt (p.last_id) (o.id) ≡ true
    → p.offset + length frame < modulus
    → read_frame cutoff (frame ++ rest) p ≡ more rest (advance cutoff o (length frame) p)
read_frame-encode cutoff o frame rest p (payload, parts, d, h, k) less fits =
    let size : length frame ≡ 16 + length payload = omega (
      arith,
      ap length parts,
      length-append (header_of payload) payload,
      length-header_of payload,
    ) in
    ap (λ f. read_frame cutoff (f ++ rest) p) parts
    ∙ ap (λ f. read_frame cutoff f p) (append_assoc (header_of payload) payload rest)
    ∙ read_frame-header cutoff payload (payload ++ rest) p (omega arith)
    ∙ take_payload-whole cutoff payload rest p h k
    ∙ ap (λ r. take_record cutoff rest (16 + length payload) r p) d
    ∙ take_record-more cutoff rest (16 + length payload) o p less (omega arith)
    ∙ ap (λ n. more rest (advance cutoff o n p)) (sym size)

-- The bytes are frames of the occurrences, in order and with ids that grow, and the offset stays in range.
abbrev pub Written : ℕ → ℕ → List Occurrence → List ℕ → Type 0
Written offset last_id [] bs = bs ≡ []
Written offset last_id (o ∷ os) bs =
    (frame : List ℕ) × (rest : List ℕ) × (encode o ≡ some frame)
    × IsOccurrence o
    × (signed_lt last_id (o.id) ≡ true)
    × (offset + length frame < modulus)
    × (bs ≡ frame ++ rest)
    × Written (offset + length frame) (o.id) os rest

abbrev pub last_id_of : ℕ → List Occurrence → ℕ
last_id_of last_id [] = last_id
last_id_of last_id (o ∷ os) = last_id_of (o.id) os

abbrev pub newer : ℕ → List Occurrence → List Occurrence
newer cutoff os = filter (λ o. signed_lt cutoff (o.id)) os

-- Where the loop is behind the frames of the occurrences.
abbrev pub arrive : ℕ → List Occurrence → ℕ → Progress → Progress
arrive cutoff os size p = record {
  offset = p.offset + size;
  last_id = last_id_of (p.last_id) os;
  occurrences = p.occurrences ++ newer cutoff os;
}

-- What the loop does with the result of a round.
abbrev pub after_round : ℕ → ℕ → Progress → Round → Scan
after_round f cutoff p (more next q) = read_frames f cutoff next q
after_round f cutoff p cut = torn (p.offset)
after_round f cutoff p (stop e) = failed e

by_result :
    (f cutoff : ℕ) (p : Progress) (r : Round)
    → (elim r as (λ _. Scan) [
      | more next q ↦ read_frames f cutoff next q
      | cut ↦ torn (p.offset)
      | stop e ↦ failed e
    ])
      ≡ after_round f cutoff p r
by_result f cutoff p (more next q) = refl
by_result f cutoff p cut = refl
by_result f cutoff p (stop e) = refl

pub read_frames-after_round :
    (f cutoff : ℕ) (bs : List ℕ) (p : Progress) (r : Round)
    → 1 ≤ length bs
    → read_frame cutoff bs p ≡ r
    → read_frames (suc f) cutoff bs p ≡ after_round f cutoff p r
unfolding read_frames
read_frames-after_round f cutoff [] p r h e = absurd (omega arith)
read_frames-after_round f cutoff (b ∷ bs) p r h e =
    by_result f cutoff p (read_frame cutoff (b ∷ bs) p) ∙ ap (after_round f cutoff p) e

abbrev progress : ℕ → ℕ → List Occurrence → Progress
progress last_id offset occurrences = record {
  offset = offset;
  last_id = last_id;
  occurrences = occurrences;
}

newer_first :
    (cutoff : ℕ) (o : Occurrence) (os before : List Occurrence)
    → (if signed_lt cutoff (o.id) then before ++ o ∷ [] else before) ++ newer cutoff os
      ≡ before ++ newer cutoff (o ∷ os)
newer_first cutoff o os before = elim (Bool-cases (signed_lt cutoff (o.id))) [
  | inl e ↦ rw e (append_assoc before (o ∷ []) (newer cutoff os))
  | inr e ↦ rw e refl
]

arrive_here :
    (cutoff : ℕ) (bs : List ℕ) (p : Progress) → bs ≡ [] → arrive cutoff [] (length bs) p ≡ p
arrive_here cutoff bs p h =
    ap₂ (progress (p.last_id)) (omega (arith, ap length h)) (append-nil (p.occurrences))

arrive-advance :
    (cutoff : ℕ) (o : Occurrence) (os : List Occurrence) (m n : ℕ) (p : Progress)
    → arrive cutoff os n (advance cutoff o m p) ≡ arrive cutoff (o ∷ os) (m + n) p
arrive-advance cutoff o os m n p =
    ap₂ (progress (last_id_of (o.id) os)) (omega arith) (newer_first cutoff o os (p.occurrences))

pub read_frames-Written :
    (cutoff : ℕ) (os : List Occurrence) (bs tail : List ℕ) (p : Progress) (f : ℕ)
    → Written (p.offset) (p.last_id) os bs
    → read_frames (length os + f) cutoff (bs ++ tail) p
      ≡ read_frames f cutoff tail (arrive cutoff os (length bs) p)
read_frames-Written cutoff [] bs tail p f h =
    ap₂ (λ k b. read_frames k cutoff b p) (zero-add f) (ap (λ b. b ++ tail) h)
    ∙ ap (read_frames f cutoff tail) (sym (arrive_here cutoff bs p h))
read_frames-Written cutoff (o ∷ os) bs tail p f (frame, rest, e, fine, less, fits, parts, h) =
    let framed = encode-Framed o frame fine e in
    ap₂ (λ k b. read_frames k cutoff b p) (suc-add (length os) f)
      (ap (λ b. b ++ tail) parts ∙ append_assoc frame rest tail)
    ∙ read_frames-after_round (length os + f) cutoff (frame ++ (rest ++ tail)) p _
        (omega (arith, length-append frame (rest ++ tail), length-frame o frame framed))
        (read_frame-encode cutoff o frame (rest ++ tail) p framed less fits)
    ∙ read_frames-Written cutoff os rest tail (advance cutoff o (length frame) p) f h
    ∙ ap (read_frames f cutoff tail) (
        arrive-advance cutoff o os (length frame) (length rest) p
        ∙ ap (λ n. arrive cutoff (o ∷ os) n p)
            (omega (arith, ap length parts, length-append frame rest)))

-- A frame that lacks some of its last bytes ends the loop.
pub torn_frame :
    (cutoff : ℕ) (o : Occurrence) (frame : List ℕ) (n : ℕ) (p : Progress)
    → Framed o frame
    → n < length frame
    → read_frame cutoff (take n frame) p ≡ cut
torn_frame cutoff o frame n p (payload, parts, d, h, k) less = elim (Bool-cases (ltb n 16)) [
  | inl e ↦ read_frame-few cutoff (take n frame) p (ground (arith, length-take n frame))
  | inr e ↦
      let size = length-append (header_of payload) payload in
      let here = length-header_of payload in
      let behind : n ≡ length (header_of payload) + (n - 16) = ground arith in
      ap (λ f. read_frame cutoff f p)
        (ap₂ take behind parts ∙ take-append_right (header_of payload) payload (n - 16))
      ∙ read_frame-header cutoff payload (take (n - 16) payload) p (omega arith)
      ∙ take_payload-short cutoff (length payload) (crc32 payload) (take (n - 16) payload) p h k
          (ground (arith, length-take (n - 16) payload, ap length parts))
]
