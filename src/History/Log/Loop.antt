-- ===== src/History/Log/Loop.antt =====
-- The loop of `read_snapshot` of src/history/store.rs over frames that `encode` wrote, and over what a
-- write that was cut short leaves behind them.
use ish.Prelude.{
  ℕ, zero, suc, ◌+◌, ◌-◌, ◌^◌, ◌≤◌, ◌<◌, ◌≡◌, refl, ap, ◌∙◌, true, List, ◌++◌, length, replicate,
  length-append, length-replicate, replicate-add, drop-append, ltb, leb, ◌==◌, ==_refl, arith,
  Bool-cases, if_on, if_off, inl, inr,
}
use ish.Int64.{modulus}
use ish.History.{decode}
use ish.History.Bytes.{le, from_le, crc32, from_le-le, crc32-bound, crc32-zeros}
use ish.History.Codec.{take_all}
use ish.History.Log.{Progress, cut, all_zero, take_record, take_payload, read_frame}

abbrev pub header_of : List ℕ → List ℕ
header_of payload =
    le 8 (length payload) ++ (le 4 (crc32 (le 8 (length payload))) ++ le 4 (crc32 payload))

-- A whole header leads on to the payload, whatever stands behind it.
pub read_frame-header :
    (cutoff : ℕ) (payload body : List ℕ) (p : Progress)
    → length payload < 256 ^ 8
    → read_frame cutoff (header_of payload ++ body) p
      ≡ take_payload cutoff (length payload) (crc32 payload) body p
unfolding read_frame le
read_frame-header cutoff payload body p h =
    if_off (ltb (length (header_of payload ++ body)) 16) _ _ (ground arith)
    ∙ rw
        (
          from_le-le 8 (length payload) h,
          from_le-le 4 (crc32 (le 8 (length payload)))
              (omega (arith, crc32-bound (le 8 (length payload)))),
          from_le-le 4 (crc32 payload) (omega (arith, crc32-bound payload)),
        )
        (if_on _ _ _ (==_refl (crc32 (le 8 (length payload)))))

pub take_payload-whole :
    (cutoff : ℕ) (payload rest : List ℕ) (p : Progress)
    → 32 ≤ length payload
    → 16 + length payload < modulus
    → take_payload cutoff (length payload) (crc32 payload) (payload ++ rest) p
      ≡ take_record cutoff rest (16 + length payload) (decode payload) p
unfolding take_payload
take_payload-whole cutoff payload rest p h k =
    if_off (ltb (length payload) 32) _ _ (ground arith)
    ∙ if_off (leb modulus (16 + length payload)) _ _ (ground arith)
    ∙ if_off (ltb (length (payload ++ rest)) (length payload)) _ _
        (ground (arith, length-append payload rest))
    ∙ rw (take_all payload rest, drop-append payload rest)
        (if_on (crc32 payload == crc32 payload) _ _ (==_refl (crc32 payload)))

-- A payload that is cut short.
pub take_payload-short :
    (cutoff size checksum : ℕ) (body : List ℕ) (p : Progress)
    → 32 ≤ size
    → 16 + size < modulus
    → length body < size
    → take_payload cutoff size checksum body p ≡ cut
unfolding take_payload
take_payload-short cutoff size checksum body p h k l =
    if_off (ltb size 32) _ _ (ground arith)
    ∙ if_off (leb modulus (16 + size)) _ _ (ground arith)
    ∙ if_on (ltb (length body) size) _ _ (ground arith)

all_zero-replicate : (n : ℕ) → all_zero (replicate n 0) ≡ true
unfolding all_zero
all_zero-replicate zero = refl
all_zero-replicate (suc n) = all_zero-replicate n

pub read_frame-few :
    (cutoff : ℕ) (rest : List ℕ) (p : Progress) → length rest < 16 → read_frame cutoff rest p ≡ cut
unfolding read_frame
read_frame-few cutoff rest p h = if_on (ltb (length rest) 16) _ _ (ground arith)

read_frame-zero_header :
    (cutoff m : ℕ) (p : Progress) → read_frame cutoff (replicate 16 0 ++ replicate m 0) p ≡ cut
unfolding read_frame all_zero from_le le
read_frame-zero_header cutoff m p =
    if_off (ltb (length (replicate 16 0 ++ replicate m 0)) 16) _ _ (ground arith)
    ∙ if_off (crc32 (le 8 0) == 0) (take_payload cutoff 0 0 (replicate m 0) p) _
        (ap (λ c. c == 0) crc32-zeros)
    ∙ if_on (all_zero (replicate m 0)) _ _ (all_zero-replicate m)

-- Zeros that a file system leaves where a write did not arrive.
pub read_frame-zeros : (cutoff n : ℕ) (p : Progress) → read_frame cutoff (replicate n 0) p ≡ cut
read_frame-zeros cutoff n p = elim (Bool-cases (ltb n 16)) [
  | inl e ↦ read_frame-few cutoff _ p (ground (arith, length-replicate {A = ℕ} n 0))
  | inr e ↦
      let more_zeros : n ≡ 16 + (n - 16) = ground arith in
      ap (λ k. read_frame cutoff k p)
        (ap (λ k. replicate k 0) more_zeros ∙ replicate-add 16 (n - 16) 0)
      ∙ read_frame-zero_header cutoff (n - 16) p
]
