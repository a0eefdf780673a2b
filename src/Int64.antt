-- ===== src/Int64.antt =====
-- The i64 operations that crates/epsh/src/arith.rs uses. An i64 is its bit pattern, a number below
-- 2^64; the negative ones are those from 2^63 on.
use Prim.Native.Nat.{bit_and, bit_or, bit_xor}
use ish.Prelude.{ℕ, ◌+◌, ◌-◌, ◌*◌, ◌/◌, ◌%◌, ◌^◌, Bool, ltb, leb, if◌then◌else◌}

abbrev pub modulus : ℕ
modulus = 18446744073709551616

-- The pattern of i64::MIN, 2^63.
abbrev pub min_value : ℕ
min_value = 9223372036854775808

-- The pattern of -1.
abbrev pub minus_one : ℕ
minus_one = 18446744073709551615

unfoldable pub is_negative : ℕ → Bool
is_negative a = leb min_value a

unfoldable pub wrapping_add : ℕ → ℕ → ℕ
wrapping_add a b = (a + b) % modulus

unfoldable pub wrapping_sub : ℕ → ℕ → ℕ
wrapping_sub a b = (a + modulus - b) % modulus

unfoldable pub wrapping_mul : ℕ → ℕ → ℕ
wrapping_mul a b = a * b % modulus

unfoldable pub wrapping_neg : ℕ → ℕ
wrapping_neg a = (modulus - a) % modulus

-- The absolute value, as an unsigned number.
unfoldable pub unsigned_abs : ℕ → ℕ
unfolding is_negative
unsigned_abs a = if is_negative a then modulus - a else a

-- The signed order is the order of the patterns with the top bit flipped.
unfoldable pub signed_lt : ℕ → ℕ → Bool
signed_lt a b = ltb ((a + min_value) % modulus) ((b + min_value) % modulus)

-- Division rounds towards zero; the caller excludes a zero divisor and i64::MIN by -1.
unfoldable pub div : ℕ → ℕ → ℕ
unfolding unsigned_abs wrapping_neg
div a b =
    let q = unsigned_abs a / unsigned_abs b in
    if is_negative a
    then (if is_negative b then q else wrapping_neg q)
    else (if is_negative b then wrapping_neg q else q)

-- The remainder has the sign of the dividend.
unfoldable pub rem : ℕ → ℕ → ℕ
unfolding unsigned_abs wrapping_neg
rem a b = let r = unsigned_abs a % unsigned_abs b in if is_negative a then wrapping_neg r else r

unfoldable pub and : ℕ → ℕ → ℕ
and a b = bit_and a b

unfoldable pub or : ℕ → ℕ → ℕ
or a b = bit_or a b

unfoldable pub xor : ℕ → ℕ → ℕ
xor a b = bit_xor a b

unfoldable pub complement : ℕ → ℕ
complement a = minus_one - a

unfoldable pub shl : ℕ → ℕ → ℕ
shl a k = a * 2 ^ k % modulus

-- The arithmetic shift copies the sign.
unfoldable pub shr : ℕ → ℕ → ℕ
unfolding is_negative complement
shr a k = if is_negative a then complement (complement a / 2 ^ k) else a / 2 ^ k
