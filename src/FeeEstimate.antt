-- ===== src/FeeEstimate.antt =====
-- web/static/js/fee-estimate.js: the fee estimate of the list of orders. Amounts are natural numbers:
-- a sum of the numbers of the page is exact below 2^53 sun.
pub mod Laws
pub mod Events
pub mod Shown
mod Tests
use ucollection.Base.{
  ℕ, zero, suc, ◌+◌, ◌*◌, ◌-◌, ◌/◌, ◌%◌, Text, codes, List, [], ◌∷◌, ◌++◌, Bool, true, false, not,
  Option, none, some, ltb, ◌==◌, nat_eq, if◌then◌else◌, length, is_empty, trim,
}
use ucollection.Base.Decimal.{to_string}
use ucollection.Trx.{dot, strip_trailing_zeros}

-- `while (fracStr.length < 6) fracStr = '0' + fracStr`: six rounds are enough for any text.
unfoldable pub add_zeros : ℕ → Text → Text
add_zeros zero s = s
add_zeros (suc rounds) s = if ltb (length s) 6 then add_zeros rounds (b'0' ∷ s) else s

unfoldable pub format_sun_as_trx : ℕ → Text
format_sun_as_trx sun =
    let whole = sun / 1000000 in
    let frac = sun % 1000000 in
    if frac == 0
    then to_string whole
    else to_string whole ++ dot ∷ strip_trailing_zeros (add_zeros 6 (to_string frac))

-- `lastEstimate`
pub record Estimate : Type 0 where
  pub first_sun : ℕ
  pub repeat_sun : ℕ
  pub first_trx : Text
  pub repeat_trx : Text
  pub first_energy : Text

-- What `#fee-estimate-result` shows.
pub data Result : Type 0 where
  untouched nothing_selected estimating failed : Result
  estimate : Estimate → ℕ → Text → Result

pub record State : Type 0 where
  pub last_estimate : Option Estimate
  pub result : Result

abbrev pub sum_sun : Estimate → ℕ → ℕ
sum_sun e n = e.first_sun + e.repeat_sun * (n - 1)

abbrev pub shown : Estimate → ℕ → Result
shown e n = if n == 0 then nothing_selected else estimate e n (format_sun_as_trx (sum_sun e n))

-- `renderEstimate`, with the number of orders that are checked.
unfoldable pub render_estimate : ℕ → State → State
render_estimate n s = elim s.last_estimate [ none ↦ s | some e ↦ record s { result = shown e n } ]

-- The first part of a click on the estimate button: whether a request goes out.
unfoldable pub click_estimate : ℕ → State → Bool × State
click_estimate n s =
    if n == 0
    then (false, record s { last_estimate = none; result = nothing_selected })
    else (true, record s { result = estimating })

-- Its answer, `none` for a failed request; `n` is the number that is checked by then.
unfoldable pub answer_estimate : Option Estimate → ℕ → State → State
answer_estimate none n s = record s { last_estimate = none; result = failed }
answer_estimate (some e) n s = render_estimate n (record s { last_estimate = some e })
