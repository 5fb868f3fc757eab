-- ===== src/Metering/Calendar/Months.antt =====
-- What the calendar promises of a month's start.
use agntspark_gateway.Prelude.{
  ℕ, zero, suc, ◌+◌, ◌*◌, ◌-◌, ◌/◌, ◌≤◌, ◌<◌, ◌≡◌, refl, subst, true, false, ltb, ◌==◌, nat_eq,
  if◌then◌else◌, arith, Bool-cases, inl, inr,
}
use agntspark_gateway.Metering.Calendar.{
  is_leap, days_in, Month, epoch, next_month, month_of, day_length, month_start,
}

-- the days of a year before a month
abbrev pub before_month : ℕ → ℕ → ℕ
before_month year month =
    if ltb month 3
    then 31 * (month - 1)
    else (if is_leap year then 1 else 0) + (153 * (month - 3) + 2) / 5 + 59

-- The rule of the calendar for the first of a month: 365 days a year, one more in each fourth year but
-- in each hundredth, and in each four hundredth again.
abbrev pub Rule : ℕ → ℕ → ℕ → Type 0
Rule year month first =
    first + 719_162 + (year - 1) / 100
    ≡ 365 * (year - 1) + (year - 1) / 4 + (year - 1) / 400 + before_month year month

pub record IsFirst (m : Month) : Type 0 where
  pub from_one : 1 ≤ m.year
  pub in_year : (1 ≤ m.month) × (m.month ≤ 12)
  pub rule : Rule m.year m.month m.first

epoch-IsFirst : IsFirst epoch
unfolding nat_eq
epoch-IsFirst = record { from_one = omega arith; in_year = (omega arith, omega arith); rule = refl }

days_in-pos : (year month : ℕ) → 1 ≤ days_in year month
unfolding days_in is_leap
days_in-pos year month = ground arith

-- a whole year's days
abbrev year_days : ℕ → ℕ
year_days year = if is_leap year then 366 else 365

leap_rule :
    (p : ℕ)
    → suc p / 4 + suc p / 400 + p / 100 + 365 ≡ p / 4 + p / 400 + suc p / 100 + year_days (suc p)
unfolding is_leap nat_eq
leap_rule p = ground arith

month_rule :
    (year month : ℕ)
    → 1 ≤ month
    → month < 12
    → before_month year (month + 1) ≡ before_month year month + days_in year month
unfolding days_in nat_eq
month_rule year month low high = ground (arith, low, high)

december_rule : (year : ℕ) → before_month year 12 + days_in year 12 ≡ year_days year
unfolding days_in nat_eq
december_rule year = ground arith

later_in_year : (m : Month) → IsFirst m → m.month < 12 → IsFirst (next_month m)
unfolding next_month nat_eq
later_in_year m h early =
    let same : (m.month == 12) ≡ false = ground (arith, early) in
    rw same (record {
      from_one = h.from_one;
      in_year = (omega arith, omega (arith, early));
      rule = omega (arith, h.rule, month_rule m.year m.month h.in_year.0 early);
    })

new_year :
    (year first : ℕ) → 1 ≤ year → Rule year 12 first → Rule (year + 1) 1 (first + days_in year 12)
new_year zero first pos h = absurd (omega (arith, pos))
new_year (suc p) first pos h = omega (arith, h, december_rule (suc p), leap_rule p)

next_year : (m : Month) → IsFirst m → m.month ≡ 12 → IsFirst (next_month m)
unfolding next_month nat_eq
next_year m h last =
    let same : (m.month == 12) ≡ true = ground (arith, last) in
    let rule = subst (λ k. Rule m.year k m.first) last h.rule in
    rw (same, last)
      (record {
        from_one = omega arith;
        in_year = (omega arith, omega arith);
        rule = new_year m.year m.first h.from_one rule;
      })

next_month-IsFirst : (m : Month) → IsFirst m → IsFirst (next_month m)
unfolding nat_eq
next_month-IsFirst m h = elim (Bool-cases (m.month == 12)) [
  | inl last ↦ next_year m h (ground (arith, last))
  | inr other ↦ later_in_year m h (ground (arith, other, h.in_year.1))
]

next_month-first : (m : Month) → (next_month m).first ≡ m.first + days_in m.year m.month
unfolding next_month
next_month-first m = refl

-- a month that a day is in
record Holds (day : ℕ) (m : Month) : Type 0 where
  month : IsFirst m
  since : m.first ≤ day
  until : day < m.first + days_in m.year m.month

-- The month that the fuel leads to has the day in it.
month_of-Holds :
    (n : ℕ) (m : Month) (day : ℕ)
    → IsFirst m
    → m.first ≤ day
    → day < m.first + n
    → Holds day (month_of n m day)
unfolding month_of
month_of-Holds zero m day h low high = absurd (omega (arith, low, high))
month_of-Holds (suc n) m day h low high =
    elim (Bool-cases (ltb day (m.first + days_in m.year m.month))) [
      | inl inside ↦
          rw (inside, month_of) (record { month = h; since = low; until = ground (arith, inside) })
      | inr after ↦
          let past : m.first + days_in m.year m.month ≤ day = ground (arith, after) in
          let some_day = days_in-pos m.year m.month in
          rw (after, month_of)
            (month_of-Holds n (next_month m) day (next_month-IsFirst m h)
              (rw (next_month-first m) past)
              (rw (next_month-first m) (omega (arith, high, some_day))))
    ]

-- The start of the month of an instant is midnight on the first of a month of the calendar, is not
-- after the instant, and the next month's start is after it: the fuel is enough at every instant.
pub month_start-Starts :
    (now : ℕ)
    → (m : Month) × IsFirst m
      × (month_start now ≡ m.first * day_length)
      × (month_start now ≤ now)
      × (now < (m.first + days_in m.year m.month) * day_length)
unfolding month_start
month_start-Starts now =
    let day = now / day_length in
    let h = month_of-Holds (suc day) epoch day epoch-IsFirst (omega arith) (omega arith) in
    (month_of (suc day) epoch day, h.month, refl, omega (arith, h.since), omega (arith, h.until))
