-- ===== src/DateRange/Calendar.antt =====
-- The day that follows a day, and that counting back and counting forth undo each other.
use ucollection.Base.{
  ℕ, zero, suc, ◌+◌, ◌-◌, ◌≤◌, ◌<◌, ◌≡◌, ◌≢◌, ◌⊎◌, refl, ap, ◌∙◌, inl, inr, ltb, ltb→lt, nat_beq,
  nat_beq_iff, ◌==◌, nat_eq, if◌then◌else◌, Bool-cases, arith,
}
use ucollection.DateRange.{Date, month_length, last_month_start, last_month_end, set_date_back}

pub record IsDate (d : Date) : Type 0 where
  pub month_in : (1 ≤ d.month) × (d.month ≤ 12)
  pub day_in : (1 ≤ d.day) × (d.day ≤ month_length d.year d.month)

-- The calendar day that follows, said without the code's arithmetic on days.
unfoldable pub next : Date → Date
next d =
    if ltb d.day (month_length d.year d.month)
    then record d { day = d.day + 1 }
    else if d.month == 12
    then record { year = d.year + 1; month = 1; day = 1 }
    else record { year = d.year; month = d.month + 1; day = 1 }

unfoldable pub after : ℕ → Date → Date
after zero d = d
after (suc n) d = next (after n d)

pub month_length_pos : (y m : ℕ) → 28 ≤ month_length y m
unfolding month_length
month_length_pos y m = ground arith

pub month_length-le : (y m : ℕ) → month_length y m ≤ 31
unfolding month_length
month_length-le y m = ground arith

after-suc : (n : ℕ) (d : Date) → after (suc n) d ≡ next (after n d)
unfolding after
after-suc n d = refl

after-add : (a b : ℕ) (d : Date) → after (a + b) d ≡ after a (after b d)
unfolding after
after-add zero b d = ap (λ n. after n d) (omega arith)
after-add (suc a) b d =
    let e : suc a + b ≡ suc (a + b) = omega arith in
    ap (λ n. after n d) e ∙ ap next (after-add a b d)

-- Inside one month.
pub after_same_month :
    (n : ℕ) (d : Date)
    → d.day + n ≤ month_length d.year d.month
    → after n d ≡ record d { day = d.day + n }
unfolding after next
after_same_month zero d h = ap (λ k. record d { day = k }) (omega arith)
after_same_month (suc n) d h = ap next (after_same_month n d (omega arith)) ∙ ground arith

pub last_month_start-cases :
    (d : Date)
    → ((d.month ≡ 1) × (last_month_start d ≡ record { year = d.year - 1; month = 12; day = 1 }))
      ⊎ ((d.month ≢ 1)
          × (last_month_start d ≡ record { year = d.year; month = d.month - 1; day = 1 }))
unfolding last_month_start
last_month_start-cases d = elim (Bool-cases (nat_beq d.month 1)) [
  | inl e ↦ inl ((nat_beq_iff d.month 1).0 e, simp e refl)
  | inr e ↦ inr ((λ m. absurd (ground (arith, nat_beq_iff d.month 1))), simp e refl)
]

pub next-last_month_end :
    (d : Date) → IsDate d → 0 < d.year → next (last_month_end d) ≡ record d { day = 1 }
unfolding next last_month_end
next-last_month_end d v h = elim (last_month_start-cases d) [
  | inl (january, e) ↦ rw e (ground arith)
  | inr (later, e) ↦ rw e (ground arith)
]

pub last_month_end-IsDate : (d : Date) → IsDate d → IsDate (last_month_end d)
unfolding last_month_end
last_month_end-IsDate d v = elim (last_month_start-cases d) [
  | inl (january, e) ↦ rw e (ground (arith, month_length_pos (d.year - 1) 12))
  | inr (later, e) ↦ rw e (ground (arith, month_length_pos d.year (d.month - 1)))
]

last_month_end-year : (d : Date) → d.year ≤ (last_month_end d).year + 1
unfolding last_month_end
last_month_end-year d = elim (last_month_start-cases d) [
  | inl (january, e) ↦ rw e (omega arith)
  | inr (later, e) ↦ rw e (omega arith)
]

near_step :
    (k : ℕ) (d : Date)
    → k < d.day
    → IsDate d
    → let e : Date = record d { day = d.day - k } in IsDate e × (after k e ≡ d)
near_step k d h v = (
  record { month_in = v.month_in; day_in = omega (arith, v.day_in) },
  after_same_month k (record d { day = d.day - k }) (omega (arith, v.day_in))
      ∙ ap (λ n. record d { day = n }) (omega arith),
)

far_step :
    (k : ℕ) (d e : Date)
    → d.day ≤ k
    → IsDate d
    → 0 < d.year
    → after (k - d.day) e ≡ last_month_end d
    → after k e ≡ d
far_step k d e h v y same =
    let first : Date = record d { day = 1 } in
    let days : k ≡ (d.day - 1) + suc (k - d.day) = omega (arith, v.day_in) in
    ap (λ n. after n e) days
    ∙ after-add (d.day - 1) (suc (k - d.day)) e
    ∙ ap (after (d.day - 1)) (next_first e same)
    ∙ after_same_month (d.day - 1) first (omega (arith, v.day_in))
    ∙ ap (λ n. record d { day = n }) (omega (arith, v.day_in))
  where
    next_first :
        (x : Date)
        → after (k - d.day) x ≡ last_month_end d
        → after (suc (k - d.day)) x ≡ record d { day = 1 }
    next_first x p = after-suc (k - d.day) x ∙ ap next p ∙ next-last_month_end d v y

-- Counting back and then forth gives the day back; the fuel is above the days to count.
pub after-set_date_back :
    (fuel k : ℕ) (d : Date)
    → k < fuel
    → IsDate d
    → k < d.year
    → IsDate (set_date_back fuel k d) × (after k (set_date_back fuel k d) ≡ d)
unfolding set_date_back
after-set_date_back zero k d f v h = absurd (omega arith)
after-set_date_back (suc fuel) k d f v h = elim (Bool-cases (ltb k d.day)) [
  | inl near ↦ simp near (near_step k d (ltb→lt k d.day near) v)
  | inr far ↦
      let e = last_month_end d in
      let beyond : d.day ≤ k = ground arith in
      let (w, same) =
        after-set_date_back fuel (k - d.day) e (omega (arith, v.day_in)) (last_month_end-IsDate d v)
          (omega (arith, last_month_end-year d, v.day_in)) in
      simp far (w, far_step k d _ beyond v (omega arith) same)
]
