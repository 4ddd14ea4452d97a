-- ===== src/Base/Words.antt =====
-- Go's `int64`: integers, and operations on them that wrap around.
pub mod Laws
use Prim.Native.Nat.{ℕ, suc, ◌+◌, ◌-◌, ◌*◌, ◌/◌, ◌%◌}
use mathlib.Core.Bool.{Bool, true, false}
use ucollection.Base.Tests.{ltb, if◌then◌else◌}
use ucollection.Base.Int.{ℤ, pos, negsuc, neg}

-- 2 ^ 63 and 2 ^ 64
abbrev pub sign_bit : ℕ
sign_bit = 9223372036854775808

abbrev pub modulus : ℕ
modulus = 18446744073709551616

-- The 64 bits of an integer, and the integer that 64 bits stand for.
abbrev pub word : ℤ → ℕ
word (pos n) = n % modulus
word (negsuc n) = modulus - suc (n % modulus)

abbrev pub signed_word : ℕ → ℤ
signed_word w = if ltb w sign_bit then pos w else negsuc (modulus - suc w)

abbrev pub add_int64 : ℤ → ℤ → ℤ
add_int64 x y = signed_word ((word x + word y) % modulus)

abbrev pub sub_int64 : ℤ → ℤ → ℤ
sub_int64 x y = signed_word ((word x + (modulus - word y)) % modulus)

abbrev pub mul_int64 : ℤ → ℤ → ℤ
mul_int64 x y = signed_word ((word x * word y) % modulus)

-- A division rounds towards 0.
abbrev pub div_int64 : ℤ → ℕ → ℤ
div_int64 (pos n) d = pos (n / d)
div_int64 (negsuc n) d = neg (suc n / d)

-- x < y
abbrev pub ltb_int64 : ℤ → ℤ → Bool
ltb_int64 (pos m) (pos n) = ltb m n
ltb_int64 (pos m) (negsuc n) = false
ltb_int64 (negsuc m) (pos n) = true
ltb_int64 (negsuc m) (negsuc n) = ltb n m
