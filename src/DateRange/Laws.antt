-- ===== src/DateRange/Laws.antt =====
-- Which days the two inputs name, for each of the six keys, and for a key that is none of them.
use ucollection.Base.{
  ℕ, suc, ◌-◌, ◌<◌, ◌≡◌, refl, ap, ◌∙◌, inl, inr, Text, codes, some, text_eq, text_beq, arith,
}
use ucollection.DateRange.{
  Date, month_length, last_month_start, last_month_end, days_before, range_for,
}
use ucollection.DateRange.Calendar.{
  IsDate, next, after, month_length_pos, last_month_start-cases, next-last_month_end,
  last_month_end-IsDate, after-set_date_back, after_same_month,
}

-- A range of days: two dates of the calendar, the second so many days after the first.
pub record Spans (days : ℕ) (range : Date × Date) : Type 0 where
  pub from_in : IsDate range.0
  pub to_in : IsDate range.1
  pub days_on : after days range.0 ≡ range.1

abbrev pub Asks : Text → Date → ℕ → Date → Type 0
Asks key today days last =
    (range : Date × Date) × (range_for key today ≡ some range) × Spans days range × (range.1 ≡ last)

-- The days of the last month, and that this month begins on the day after them.
abbrev pub AsksLastMonth : Date → Type 0
AsksLastMonth today =
    (range : Date × Date) × (range_for (codes "last-month") today ≡ some range)
    × Spans (month_length range.0.year range.0.month - 1) range
    × (range.0.day ≡ 1)
    × (next range.1 ≡ record today { day = 1 })

back-Spans :
    (k : ℕ) (today : Date) → IsDate today → k < today.year → Spans k (days_before k today, today)
back-Spans k today v h =
    let (w, e) = after-set_date_back (suc k) k today (omega arith) v h in
    record { from_in = w; to_in = v; days_on = e }

one_day : (d : Date) → IsDate d → Spans 0 (d, d)
unfolding after
one_day d v = record { from_in = v; to_in = v; days_on = refl }

after_one : (d : Date) → next d ≡ after 1 d
unfolding after
after_one d = refl

month-Spans :
    (today : Date) → IsDate today → Spans (today.day - 1) (record today { day = 1 }, today)
month-Spans today v = record {
  from_in = record { month_in = v.month_in; day_in = omega (arith, v.day_in) };
  to_in = v;
  days_on =
      after_same_month (today.day - 1) (record today { day = 1 }) (omega (arith, v.day_in))
      ∙ ap (λ n. record today { day = n }) (omega (arith, v.day_in));
}

last_month_start-day : (today : Date) → (last_month_start today).day ≡ 1
last_month_start-day today = elim (last_month_start-cases today) [
  | inl (january, e) ↦ ap (λ (d : Date). d.day) e
  | inr (later, e) ↦ ap (λ (d : Date). d.day) e
]

last_month-Spans :
    (today : Date)
    → IsDate today
    → let s = last_month_start today in
      Spans (month_length s.year s.month - 1) (s, last_month_end today)
unfolding last_month_end
last_month-Spans today v =
    let s = last_month_start today in
    let w = last_month_end-IsDate today v in
    let one = last_month_start-day today in
    let long = month_length_pos s.year s.month in
    record {
      from_in = record { month_in = w.month_in; day_in = omega arith };
      to_in = w;
      days_on =
          after_same_month (month_length s.year s.month - 1) s (omega arith)
          ∙ ap (λ n. record s { day = n }) (omega arith);
    }

-- What the six buttons ask for.
pub record Shortcuts (today : Date) : Type 0 where
  pub only_today : Asks (codes "today") today 0 today
  pub yesterday :
      (range : Date × Date) × (range_for (codes "yesterday") today ≡ some range)
      × Spans 0 range
      × (next range.1 ≡ today)
  pub last7 : Asks (codes "last7") today 6 today
  pub last30 : Asks (codes "last30") today 29 today
  pub this_month : Asks (codes "this-month") today (today.day - 1) today
  pub last_month : AsksLastMonth today

-- For every calendar day past the year 29, the six keys ask for these ranges: today; the day whose
-- next day is today; the days from six and from 29 days before today up to today; the days from the
-- first of the month up to today; and all days of the last month, from its first up to the day
-- whose next day is the first of this month. Every range runs from a date of the calendar forward
-- to a date of the calendar.
pub range_for-Shortcuts : (today : Date) → IsDate today → 29 < today.year → Shortcuts today
unfolding range_for text_beq
range_for-Shortcuts today v h =
    let e = after-set_date_back 2 1 today (omega arith) v (omega arith) in
    let before_today : next (days_before 1 today) ≡ today = after_one (days_before 1 today) ∙ e.1 in
    record {
      only_today = (_, refl, one_day today v, refl);
      yesterday = (_, refl, one_day (days_before 1 today) e.0, before_today);
      last7 = (_, refl, back-Spans 6 today v (omega arith), refl);
      last30 = (_, refl, back-Spans 29 today v (omega arith), refl);
      this_month = (_, refl, month-Spans today v, refl);
      last_month = (
        _,
        refl,
        last_month-Spans today v,
        last_month_start-day today,
        next-last_month_end today v (omega arith),
      );
    }
