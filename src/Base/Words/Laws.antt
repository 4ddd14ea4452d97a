-- ===== src/Base/Words/Laws.antt =====
-- Operations on `int64` that do not wrap around.
use Prim.Native.Nat.{ℕ, ◌+◌, ◌-◌, ◌*◌, ◌%◌, ◌≤◌, ◌<◌}
use mathlib.Core.Path.{◌≡◌}
use native.Mathlib.Omega.{arith}
use ucollection.Base.Int.{pos}
use ucollection.Base.Words.{modulus, sign_bit, signed_word, add_int64, sub_int64, mul_int64}

word_small : (n : ℕ) → n < sign_bit → n % modulus ≡ n
word_small n h = omega arith

signed_word_small : (n : ℕ) → n < sign_bit → signed_word n ≡ pos n
signed_word_small n h = ground arith

pub mul_int64_small :
    (m n : ℕ)
    → m < sign_bit
    → n < sign_bit
    → m * n < sign_bit
    → mul_int64 (pos m) (pos n) ≡ pos (m * n)
mul_int64_small m n hm hn h =
    rw (word_small m hm, word_small n hn, word_small (m * n) h) (signed_word_small (m * n) h)

pub add_int64_small : (m n : ℕ) → m + n < sign_bit → add_int64 (pos m) (pos n) ≡ pos (m + n)
add_int64_small m n h =
    rw (word_small m (omega arith), word_small n (omega arith), word_small (m + n) h)
      (signed_word_small (m + n) h)

pub sub_int64_small : (m n : ℕ) → m < sign_bit → n ≤ m → sub_int64 (pos m) (pos n) ≡ pos (m - n)
sub_int64_small m n h le =
    let turned : (m + (modulus - n)) % modulus ≡ m - n = omega arith in
    rw (word_small m h, word_small n (omega arith), turned)
      (signed_word_small (m - n) (omega arith))
