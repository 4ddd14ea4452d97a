-- ===== src/Trx/Parse.antt =====
-- What `trxToSun` accepts, and what it returns.
use native.Mathlib.Nat.{pow-succ'}
use ucollection.Base.{
  ℕ, zero, suc, ◌+◌, ◌-◌, ◌*◌, ◌^◌, ◌<◌, ◌≤◌, ◌≡◌, refl, ◌∙◌, true, false, ◌&&◌, all-append, Text,
  [], ◌∷◌, ◌++◌, arith, nat_eq, length, replicate, pad_end, all, is_digit, trim,
}
use ucollection.Base.Decimal.{value_from, value_from-append}
use ucollection.Base.Result.{ok}
use ucollection.Trx.{
  max_safe_integer, trx_to_sun, until_dot, after_dot, combine, whole_part, is_rejected,
}

-- The text before the first dot of the trimmed input, and the text from there to the next one.
abbrev pub int_part : Text → Text
int_part s = until_dot (trim s)

abbrev pub frac_part : Text → Text
frac_part s = until_dot (after_dot (trim s))

combine_bounds : (i f : Text) {n : ℕ} → combine i f ≡ ok n → (0 < n) × (n ≤ max_safe_integer)
unfolding combine
combine_bounds i f h = ground arith

-- An accepted amount is positive and a safe integer.
pub trx_to_sun_bounds : (s : Text) {n : ℕ} → trx_to_sun s ≡ ok n → (0 < n) × (n ≤ max_safe_integer)
unfolding trx_to_sun
trx_to_sun_bounds s {n} h = ground (arith, combine_bounds (int_part s) (frac_part s) {n = n})

pub value_from-replicate : (m k : ℕ) → value_from m (replicate k b'0') ≡ m * 10 ^ k
value_from-replicate m zero = omega arith
value_from-replicate m (suc k) =
    value_from-replicate (m * 10 + (b'0' - b'0')) k ∙ rw pow-succ' (omega arith)

-- An accepted text is digits, with at most six behind the dot, and the result is its exact value:
-- the digits before and behind the dot, read as one number, are the result at their own scale.
abbrev pub Spells : Text → Text → ℕ → Type 0
Spells i f n =
    (all is_digit i ≡ true)
    × (all is_digit f ≡ true)
    × (length f ≤ 6)
    × (value_from 0 (i ++ f) * 10 ^ (6 - length f) ≡ n)

all-replicate : (k : ℕ) → all is_digit (replicate k b'0') ≡ true
all-replicate zero = refl
all-replicate (suc k) = all-replicate k

all-whole_part : (i : Text) → all is_digit (whole_part i) ≡ all is_digit i
all-whole_part [] = refl
all-whole_part (c ∷ i) = refl

value_from-whole_part : (i : Text) → value_from 0 (whole_part i) ≡ value_from 0 i
value_from-whole_part [] = refl
value_from-whole_part (c ∷ i) = refl

-- The combined text, and what it spells.
combined_digits :
    (i f : Text)
    → all is_digit (whole_part i ++ pad_end 6 b'0' f) ≡ (all is_digit i && all is_digit f)
combined_digits i f = ground (
  arith,
  all-append is_digit (whole_part i) (pad_end 6 b'0' f),
  all-append is_digit f (replicate (6 - length f) b'0'),
  all-replicate (6 - length f),
  all-whole_part i,
)

combined_value :
    (i f : Text)
    → value_from 0 (whole_part i ++ pad_end 6 b'0' f) ≡ value_from 0 (i ++ f) * 10 ^ (6 - length f)
combined_value i f = rw (
  value_from-append 0 (whole_part i),
  value_from-append _ f,
  value_from-replicate,
  value_from-whole_part i,
  value_from-append 0 i f,
)

combine-Spells : (i f : Text) {n : ℕ} → combine i f ≡ ok n → Spells i f n
unfolding combine
combine-Spells i f h = ground (arith, combined_digits i f, combined_value i f)

-- If a text is accepted with a result, its parts around the first dot are digits, at most six
-- behind the dot, and the digits read as one number, at their own scale, are the result.
pub trx_to_sun-Spells :
    (s : Text) {n : ℕ} → trx_to_sun s ≡ ok n → Spells (int_part s) (frac_part s) n
unfolding trx_to_sun
trx_to_sun-Spells s {n} h = ground (arith, combine-Spells (int_part s) (frac_part s) {n = n})

-- Conversely, digits that spell a positive safe amount are accepted.
combine_complete :
    (i f : Text) {n : ℕ} → Spells i f n → 0 < n → n ≤ max_safe_integer → combine i f ≡ ok n
unfolding combine
combine_complete i f sp pos fits = ground (arith, combined_digits i f, combined_value i f)

-- A text that is not empty and has no minus sign in front after trimming, and whose parts around
-- the first dot spell an amount above 0 up to the largest safe integer with at most six decimals,
-- is accepted with that amount.
pub trx_to_sun_complete :
    (s : Text) {n : ℕ}
    → is_rejected (trim s) ≡ false
    → Spells (int_part s) (frac_part s) n
    → 0 < n
    → n ≤ max_safe_integer
    → trx_to_sun s ≡ ok n
unfolding trx_to_sun
trx_to_sun_complete s {n} r sp pos fits =
    ground (arith, combine_complete (int_part s) (frac_part s) sp pos fits)
