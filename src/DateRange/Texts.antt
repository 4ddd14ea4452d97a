-- ===== src/DateRange/Texts.antt =====
-- What the two inputs hold after a click, read back by the columns of the date format.
use ucollection.Base.{
  ℕ, ◌+◌, ◌/◌, ◌%◌, ◌≤◌, ◌<◌, ◌≡◌, refl, sym, ap, ◌∙◌, inl, inr, Text, none, some, [], ◌∷◌, ◌++◌,
  ltb, ltb→lt, ◌⊎◌, Option-cases, length, length-append, take, drop, Bool-cases, arith,
}
use ucollection.Base.Decimal.{
  to_string, to_string_small, to_string_step, value_from, value_from-to_string,
}
use ucollection.DateRange.{Date, range_for, Inputs, click, fill, pad, to_date_input_value}
use ucollection.DateRange.Calendar.{IsDate, month_length-le}

-- A date input reads its value as YYYY-MM-DD.
abbrev pub read_date : Text → Date
read_date t = record {
  year = value_from 0 (take 4 t);
  month = value_from 0 (take 2 (drop 5 t));
  day = value_from 0 (drop 8 t);
}

length-to_string_step : (n : ℕ) → 10 ≤ n → length (to_string n) ≡ length (to_string (n / 10)) + 1
length-to_string_step n h =
    ap length (to_string_step n h) ∙ length-append (to_string (n / 10)) ((b'0' + n % 10) ∷ [])

length-to_string_one : (n : ℕ) → n < 10 → length (to_string n) ≡ 1
length-to_string_one n h = ap length (to_string_small n h)

length-to_string_two : (n : ℕ) → 10 ≤ n → n < 100 → length (to_string n) ≡ 2
length-to_string_two n h k =
    omega (arith, length-to_string_step n h, length-to_string_one (n / 10) (omega arith))

length-to_string_four : (n : ℕ) → 1000 ≤ n → n < 10000 → length (to_string n) ≡ 4
length-to_string_four n h k = omega (
  arith,
  length-to_string_step n (omega arith),
  length-to_string_step (n / 10) (omega arith),
  length-to_string_two (n / 10 / 10) (omega arith) (omega arith),
)

-- A number below 100 is padded to two digits, and they read as the number.
pad_lem : (n : ℕ) → n < 100 → (length (pad n) ≡ 2) × (value_from 0 (pad n) ≡ n)
pad_lem n h = elim (Bool-cases (ltb n 10)) [
  | inl small ↦ rw (to_string_small n (ltb→lt n 10 small)) (refl, omega arith)
  | inr big ↦
      let two = length-to_string_two n (ground arith) h in rw two (two, value_from-to_string n)
]

two_of_length : (t : Text) → length t ≡ 2 → (a : ℕ) × (b : ℕ) × (t ≡ a ∷ b ∷ [])
two_of_length [] h = absurd (omega arith)
two_of_length (a ∷ []) h = absurd (omega arith)
two_of_length (a ∷ b ∷ []) h = (a, b, refl)
two_of_length (a ∷ b ∷ c ∷ t) h = absurd (omega arith)

four_of_length :
    (t : Text) → length t ≡ 4 → (a : ℕ) × (b : ℕ) × (c : ℕ) × (d : ℕ) × (t ≡ a ∷ b ∷ c ∷ d ∷ [])
four_of_length [] h = absurd (omega arith)
four_of_length (a ∷ []) h = absurd (omega arith)
four_of_length (a ∷ b ∷ t) h =
    let (c, d, e) = two_of_length t (omega arith) in (a, b, c, d, ap (λ l. a ∷ b ∷ l) e)

-- The columns of a date: four characters, two and two, with a dash before each two.
columns :
    (y m n : Text)
    → length y ≡ 4
    → length m ≡ 2
    → length n ≡ 2
    → let t = y ++ (b'-' ∷ (m ++ b'-' ∷ n)) in
      (take 4 t ≡ y) × (take 2 (drop 5 t) ≡ m) × (drop 8 t ≡ n) × (length t ≡ 10)
columns y m n h p q =
    let (a, b, c, d, e) = four_of_length y h in
    let (k, l, e') = two_of_length m p in
    let (i, j, e'') = two_of_length n q in rw (e, e', e'') (refl, refl, refl, refl)

-- For a calendar day of the years 1000 to 9999, the text for the date input has ten characters, and
-- its columns for year, month and day read back as the day.
pub read_date-to_date_input_value :
    (d : Date)
    → IsDate d
    → 1000 ≤ d.year
    → d.year < 10000
    → (read_date (to_date_input_value d) ≡ d) × (length (to_date_input_value d) ≡ 10)
unfolding to_date_input_value
read_date-to_date_input_value d v low high =
    let (m, month) = pad_lem d.month (omega (arith, v.month_in)) in
    let (n, day) = pad_lem d.day (omega (arith, v.day_in, month_length-le d.year d.month)) in
    let four = length-to_string_four d.year low high in
    let (c, c', c'', long) = columns (to_string d.year) (pad d.month) (pad d.day) four m n in
    (
      λ i. record {
        year = (ap (value_from 0) c ∙ value_from-to_string d.year) i;
        month = (ap (value_from 0) c' ∙ month) i;
        day = (ap (value_from 0) c'' ∙ day) i;
      },
      long,
    )

click_both :
    (key : Text) (today : Date) (inputs : Inputs) {a b : Text}
    → inputs.from_input ≡ some a
    → inputs.to_input ≡ some b
    → click key today inputs ≡ fill (range_for key today) inputs
unfolding click
click_both key today inputs {a} {b} f t =
    let same : inputs ≡ record { from_input = some a; to_input = some b } =
      λ i. record { from_input = f i; to_input = t i } in
    ap (click key today) same ∙ sym (ap (fill (range_for key today)) same)

-- A click writes the two dates of the key into the inputs, or leaves them if the key is none of the
-- six.
pub click_fills :
    (key : Text) (today : Date) (inputs : Inputs) {old_from old_to : Text}
    → inputs.from_input ≡ some old_from
    → inputs.to_input ≡ some old_to
    → ((range_for key today ≡ none) × (click key today inputs ≡ inputs))
      ⊎ ((range : Date × Date) × (range_for key today ≡ some range)
          × ((click key today inputs).from_input ≡ some (to_date_input_value range.0))
          × ((click key today inputs).to_input ≡ some (to_date_input_value range.1)))
click_fills key today inputs f t =
    let both = click_both key today inputs f t in
    elim (Option-cases (range_for key today)) [
      | inl e ↦ inl (e, both ∙ ap (λ r. fill r inputs) e)
      | inr (range, e) ↦
          let all = both ∙ ap (λ r. fill r inputs) e in
          inr (range, e, ap (λ (s : Inputs). s.from_input) all, ap (λ (s : Inputs). s.to_input) all)
    ]
