-- ===== src/Trx.antt =====
-- web/js-src/trxamount.js: TRX amounts as decimal text, and as a whole number of sun (10^-6 TRX).
-- `sun` is an int64 of the backend, read exactly; `Number(combined)` is the number that the digits
-- spell, which is exact for all that `Number.isSafeInteger` lets pass.
pub mod Format
pub mod Parse
pub mod RoundTrip
pub mod Exact
pub mod Dots
pub mod Fraction
mod Tests
use ucollection.Base.{
  ℕ, ◌^◌, ◌-◌, ◌<◌, Text, List, [], ◌∷◌, ◌++◌, Bool, true, false, not, ◌&&◌, ◌||◌, ltb, leb, ◌==◌,
  nat_eq, if◌then◌else◌, length, is_empty, all, drop_end_while, trim, is_digit, pad_start, pad_end,
  slice_before, slice_last,
}
use ucollection.Base.Decimal.{to_string, value_from}
use ucollection.Base.Result.{Result, ok, err, amount_not_positive, amount_decimals, amount_format}

abbrev pub dot : ℕ
dot = b'.'

-- `Number.MAX_SAFE_INTEGER`
abbrev pub max_safe_integer : ℕ
max_safe_integer = 2 ^ 53 - 1

-- `.replace(/^0+(?=\d)/, '')`: zeros go as long as a digit follows.
strip_leading_zeros : Text → Text
strip_leading_zeros [] = []
strip_leading_zeros (c ∷ []) = c ∷ []
strip_leading_zeros (c ∷ d ∷ s) =
    let rest = strip_leading_zeros (d ∷ s) in if (c == b'0') && is_digit d then rest else c ∷ d ∷ s

-- `.replace(/0+$/, '')`
pub strip_trailing_zeros : Text → Text
unfolding drop_end_while
strip_trailing_zeros = drop_end_while (λ c. c == b'0')

pub sun_to_trx : ℕ → Text
unfolding strip_leading_zeros strip_trailing_zeros
sun_to_trx sun =
    let padded = pad_start 7 b'0' (to_string sun) in
    let int_part = strip_leading_zeros (slice_before 6 padded) in
    let frac_part = strip_trailing_zeros (slice_last 6 padded) in
    if is_empty frac_part then int_part else int_part ++ dot ∷ frac_part

-- `s.split('.')` up to its second part; the default of the destructuring stands for a missing one.
pub until_dot : Text → Text
until_dot [] = []
until_dot (c ∷ s) = let rest = until_dot s in if c == dot then [] else c ∷ rest

pub after_dot : Text → Text
after_dot [] = []
after_dot (c ∷ s) = if c == dot then s else after_dot s

-- `intPart || '0'`
abbrev whole_part : Text → Text
whole_part int_part = if is_empty int_part then b'0' ∷ [] else int_part

-- The tests from `fracPart.length > 6` on.
combine : Text → Text → Result ℕ
combine int_part frac_part =
    if ltb 6 (length frac_part)
    then err amount_decimals
    else let combined = whole_part int_part ++ pad_end 6 b'0' frac_part in
      if not (all is_digit combined)
      then err amount_format
      else let sun = value_from 0 combined in
        if not (leb sun max_safe_integer) || (sun == 0) then err amount_not_positive else ok sun

-- The first test after `trim`: empty, or a minus sign in front.
abbrev pub is_rejected : Text → Bool
is_rejected [] = true
is_rejected (c ∷ s) = c == b'-'

pub trx_to_sun : Text → Result ℕ
unfolding until_dot after_dot
trx_to_sun s =
    let t = trim s in
    if is_rejected t
    then err amount_not_positive
    else combine (until_dot t) (until_dot (after_dot t))
