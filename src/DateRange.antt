-- ===== src/DateRange.antt =====
-- web/static/js/date-range-shortcuts.js: the buttons that fill in the two dates of the order list.
-- A `Date` of the script is a local midnight, here its year, its month counted from 1 and its day;
-- `today` is what the script makes of the clock.
pub mod Calendar
pub mod Laws
pub mod Texts
mod Tests
use ucollection.Base.{
  ℕ, zero, suc, ◌+◌, ◌-◌, ◌%◌, Text, codes, ◌∷◌, ◌++◌, Bool, true, false, Option, none, some, ltb,
  ◌==◌, nat_eq, text_eq, if◌then◌else◌, pad_start,
}
use ucollection.Base.Decimal.{to_string}

pub record Date : Type 0 where
  pub year : ℕ
  pub month : ℕ
  pub day : ℕ

-- How many days February has in the year.
pub february : ℕ → ℕ
february y = if y % 400 == 0 then 29 else if y % 100 == 0 then 28 else if y % 4 == 0 then 29 else 28

pub month_length : ℕ → ℕ → ℕ
unfolding february
month_length y m =
    if m == 2
    then february y
    else if m == 4
    then 30
    else if m == 6
    then 30
    else if m == 9
    then 30
    else if m == 11
    then 30
    else 31

-- The first and the last day of the month before: `new Date(y, m - 1, 1)` and `new Date(y, m, 0)`.
pub last_month_start : Date → Date
last_month_start d =
    if d.month == 1
    then record { year = d.year - 1; month = 12; day = 1 }
    else record { year = d.year; month = d.month - 1; day = 1 }

pub last_month_end : Date → Date
last_month_end d = let s = last_month_start d in record s { day = month_length s.year s.month }

-- `d.setDate(d.getDate() - k)`: a day below 1 counts from the end of the month before, and so on.
pub set_date_back : ℕ → ℕ → Date → Date
set_date_back zero k d = d
set_date_back (suc fuel) k d =
    let earlier = set_date_back fuel (k - d.day) (last_month_end d) in
    if ltb k d.day then record d { day = d.day - k } else earlier

abbrev pub days_before : ℕ → Date → Date
days_before k d = set_date_back (suc k) k d

unfoldable pub range_for : Text → Date → Option (Date × Date)
range_for key today =
    if key == codes "today"
    then some (today, today)
    else if key == codes "yesterday"
    then some (days_before 1 today, days_before 1 today)
    else if key == codes "last7"
    then some (days_before 6 today, today)
    else if key == codes "last30"
    then some (days_before 29 today, today)
    else if key == codes "this-month"
    then some (record today { day = 1 }, today)
    else if key == codes "last-month"
    then some (last_month_start today, last_month_end today)
    else none

abbrev pub pad : ℕ → Text
pad n = pad_start 2 b'0' (to_string n)

unfoldable pub to_date_input_value : Date → Text
to_date_input_value d = to_string d.year ++ (b'-' ∷ (pad d.month ++ b'-' ∷ pad d.day))

-- The values of the two inputs, where the page has them.
pub record Inputs : Type 0 where
  pub from_input : Option Text
  pub to_input : Option Text

abbrev pub fill : Option (Date × Date) → Inputs → Inputs
fill none inputs = inputs
fill (some range) inputs = record {
  from_input = some (to_date_input_value range.0);
  to_input = some (to_date_input_value range.1);
}

-- A click on a button with the key; without both inputs no button is bound.
unfoldable pub click : Text → Date → Inputs → Inputs
click key today inputs = elim inputs.from_input [
  | none ↦ inputs
  | some from ↦ elim inputs.to_input [ none ↦ inputs | some to ↦ fill (range_for key today) inputs ]
]
