-- ===== src/DateRange/Tests.antt =====
-- The theorems on the date buttons on the first of March of a leap year.
use ucollection.Base.{◌≡◌, refl, codes, some, arith, text_beq}
use ucollection.Base.Decimal.{to_string}
use ucollection.DateRange.{
  set_date_back, month_length, february, Date, range_for, click, to_date_input_value, Inputs,
  last_month_start, last_month_end,
}
use ucollection.DateRange.Calendar.{IsDate}
use ucollection.DateRange.Laws.{Shortcuts, range_for-Shortcuts}

abbrev today : Date
today = record { year = 2024; month = 3; day = 1 }

today-IsDate : IsDate today
unfolding month_length february
today-IsDate = omega arith

range_for-Shortcuts_example : Shortcuts today
range_for-Shortcuts_example = range_for-Shortcuts today today-IsDate (omega arith)

abbrev empty_inputs : Inputs
empty_inputs = record { from_input = some (codes ""); to_input = some (codes "") }

-- The seven days before: from the 24th of February of a leap year.
last7_test : (click (codes "last7") today empty_inputs).from_input ≡ some (codes "2024-02-24")
unfolding click range_for text_beq set_date_back last_month_start last_month_end month_length
    february to_date_input_value to_string
last7_test = refl
