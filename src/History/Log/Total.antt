-- ===== src/History/Log/Total.antt =====
-- The rounds of the loop of `read_snapshot` of src/history/store.rs on any bytes.
use ish.Prelude.{
  ℕ, zero, suc, ◌+◌, ◌≤◌, ◌<◌, ◌≡◌, refl, Bool, true, false, not, ◌&&◌, Option, none, some, List,
  [], ◌∷◌, length, take, drop, length-drop, ltb, leb, ◌==◌, if◌then◌else◌, arith,
}
use ish.Int64.{modulus, signed_lt}
use ish.History.{Occurrence, part, decode}
use ish.History.Bytes.{from_le, crc32}
use ish.History.Log.{
  StoreError, out_of_fuel, Progress, Round, more, cut, stop, all_zero, take_record, take_payload,
  read_frame, Scan, whole, torn, failed, unfinished, read_frames,
}

-- An error of the code, and no lack of fuel.
abbrev pub Named : StoreError → Type 0
Named out_of_fuel = ⊥
Named _ = Unit

-- A round that goes on has less to read, and the offset moves with it.
abbrev Fine : ℕ → ℕ → Round → Type 0
Fine total size (more next q) =
    (length next < size) × (q.offset + length next ≡ total) × (16 ≤ q.offset)
Fine total size cut = Unit
Fine total size (stop e) = Named e

Fine-if :
    (total size : ℕ) (b : Bool) (x y : Round)
    → (b ≡ true → Fine total size x)
    → (b ≡ false → Fine total size y)
    → Fine total size (if b then x else y)
Fine-if total size true x y h k = h refl
Fine-if total size false x y h k = k refl

module _ (total size cutoff : ℕ) (p : Progress) (h : 16 ≤ p.offset) where
  take_record-Fine :
      (rest : List ℕ) (frame_size : ℕ) (o : Option Occurrence)
      → length rest < size
      → p.offset + frame_size + length rest ≡ total
      → Fine total size (take_record cutoff rest frame_size o p)
  unfolding take_record
  take_record-Fine rest frame_size none k e = tt
  take_record-Fine rest frame_size (some o) k e =
      Fine-if total size (not (signed_lt (p.last_id) (o.id))) _ _ (λ _. tt)
        λ _.
          Fine-if total size (leb modulus (p.offset + frame_size)) _ _ (λ _. tt)
            λ _. (k, e, omega arith)

  take_payload-Fine :
      (n checksum : ℕ) (body : List ℕ)
      → 16 + length body ≡ size
      → p.offset + size ≡ total
      → Fine total size (take_payload cutoff n checksum body p)
  unfolding take_payload
  take_payload-Fine n checksum body k e =
      Fine-if total size (ltb n 32) _ _ (λ _. tt)
        λ _.
          Fine-if total size (leb modulus (16 + n)) _ _ (λ _. tt)
            λ _.
              Fine-if total size (ltb (length body) n) _ _ (λ _. tt)
                λ enough.
                  Fine-if total size (crc32 (take n body) == checksum) _ _
                    (λ _.
                      take_record-Fine (drop n body) (16 + n) (decode (take n body))
                        (omega (arith, length-drop n body)) (ground (arith, length-drop n body)))
                    λ _. Fine-if total size (n == length body) _ _ (λ _. tt) λ _. tt

read_frame-Fine :
    (total cutoff : ℕ) (rest : List ℕ) (p : Progress)
    → 16 ≤ p.offset
    → p.offset + length rest ≡ total
    → Fine total (length rest) (read_frame cutoff rest p)
unfolding read_frame
read_frame-Fine total cutoff rest p h e =
    Fine-if total (length rest) (ltb (length rest) 16) _ _ (λ _. tt)
      λ enough.
        Fine-if total (length rest)
          (crc32 (take 8 (take 16 rest)) == from_le (part 8 4 (take 16 rest))) _ _
          (λ _.
            take_payload-Fine total (length rest) cutoff p h (from_le (take 8 (take 16 rest)))
              (from_le (part 12 4 (take 16 rest))) (drop 16 rest)
              (ground (arith, length-drop 16 rest)) e)
          λ _.
            Fine-if total (length rest) (all_zero (take 16 rest) && all_zero (drop 16 rest)) _ _
              (λ _. tt) λ _. tt

-- The loop ends, and a torn log is longer than what is kept of it.
abbrev pub Ends : ℕ → Scan → Type 0
Ends total (whole p) = Unit
Ends total (torn kept) = (16 ≤ kept) × (kept < total)
Ends total (failed e) = Named e
Ends total unfinished = ⊥

Ends-round :
    (total f cutoff : ℕ) (rest : List ℕ) (p : Progress) (r : Round)
    → Fine total (length rest) r
    → 16 ≤ p.offset
    → p.offset < total
    → ((next : List ℕ) (q : Progress)
        → length next < length rest
        → 16 ≤ q.offset
        → q.offset + length next ≡ total
        → Ends total (read_frames f cutoff next q))
    → Ends total (elim r [
      | more next q ↦ read_frames f cutoff next q
      | cut ↦ torn (p.offset)
      | stop e ↦ failed e
    ])
Ends-round total f cutoff rest p (more next q) (a, b, c) h k later = later next q a c b
Ends-round total f cutoff rest p cut a h k later = (h, k)
Ends-round total f cutoff rest p (stop e) a h k later = a

pub read_frames-Ends :
    (total f cutoff : ℕ) (rest : List ℕ) (p : Progress)
    → length rest ≤ f
    → 16 ≤ p.offset
    → p.offset + length rest ≡ total
    → Ends total (read_frames f cutoff rest p)
unfolding read_frames
read_frames-Ends total zero cutoff [] p h k e = tt
read_frames-Ends total (suc f) cutoff [] p h k e = tt
read_frames-Ends total zero cutoff (b ∷ rest) p h k e = absurd (omega arith)
read_frames-Ends total (suc f) cutoff (b ∷ rest) p h k e =
    Ends-round total f cutoff (b ∷ rest) p (read_frame cutoff (b ∷ rest) p)
      (read_frame-Fine total cutoff (b ∷ rest) p k e) k (omega arith)
      λ next q less far same_end. read_frames-Ends total f cutoff next q (omega arith) far same_end
