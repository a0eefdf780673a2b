-- ===== src/History/Bytes.antt =====
-- The little-endian numbers of src/history/store.rs, the standard library's `to_le_bytes` and
-- `from_le_bytes`, and the checksum `crc32`.
use Prim.Native.Nat.{bit_xor}
use ish.Prelude.{
  ℕ, zero, suc, ◌+◌, ◌-◌, ◌*◌, ◌/◌, ◌%◌, ◌^◌, ◌≤◌, ◌<◌, ◌≡◌, refl, ap, List, [], ◌∷◌, length, ◌==◌,
  if◌then◌else◌, arith,
}

-- The `w` bytes of a number of that width, the lowest first.
unfoldable pub le : ℕ → ℕ → List ℕ
le zero n = []
le (suc w) n = n % 256 ∷ le w (n / 256)

unfoldable pub from_le : List ℕ → ℕ
from_le [] = 0
from_le (b ∷ bs) = b + 256 * from_le bs

abbrev pub u32_max : ℕ
u32_max = 4294967295

-- One round of the inner loop of `crc_table`.
unfoldable pub crc_bit : ℕ → ℕ
crc_bit value = if value % 2 == 0 then value / 2 else bit_xor (value / 2) 0xedb88320

unfoldable pub repeat : ℕ → ℕ → ℕ
unfolding crc_bit
repeat zero value = value
repeat (suc n) value = repeat n (crc_bit value)

-- The entry of `crc_table` at an index.
unfoldable pub table_entry : ℕ → ℕ
unfolding repeat
table_entry index = repeat 8 index

unfoldable pub crc_loop : ℕ → List ℕ → ℕ
unfolding table_entry
crc_loop crc [] = crc
crc_loop crc (byte ∷ bs) =
    crc_loop (bit_xor (crc / 256) (table_entry (bit_xor (crc % 256) byte))) bs

-- `!crc` is the difference to the greatest word.
unfoldable pub crc32 : List ℕ → ℕ
unfolding crc_loop
crc32 bs = u32_max - crc_loop u32_max bs

pub length-le : (w n : ℕ) → length (le w n) ≡ w
unfolding le
length-le zero n = refl
length-le (suc w) n = ap suc (length-le w (n / 256))

power_suc : (w : ℕ) → 256 ^ suc w ≡ 256 * 256 ^ w
power_suc w = omega arith

below_power : (w n : ℕ) → n < 256 ^ suc w → n / 256 < 256 ^ w
below_power w n h = omega (arith, power_suc w)

pub from_le-le : (w n : ℕ) → n < 256 ^ w → from_le (le w n) ≡ n
unfolding le from_le
from_le-le zero n h = omega arith
from_le-le (suc w) n h =
    let rest = from_le-le w (n / 256) (below_power w n h) in omega (arith, rest)

pub crc32-bound : (bs : List ℕ) → crc32 bs ≤ u32_max
unfolding crc32
crc32-bound bs = omega arith

pub crc32-zeros : crc32 (le 8 0) ≡ 1696784233
unfolding crc32 le
crc32-zeros = refl

-- The checksum of the digits 1 to 9, the check value of this code.
run_crc32 : crc32 (b'1' ∷ b'2' ∷ b'3' ∷ b'4' ∷ b'5' ∷ b'6' ∷ b'7' ∷ b'8' ∷ b'9' ∷ []) ≡ 0xcbf43926
unfolding crc32
run_crc32 = refl
