-- ===== src/Metering/Calendar.antt =====
-- services/metering_service.py: `month_start`, on the proleptic Gregorian calendar of datetime.
pub mod Months
use agntspark_gateway.Prelude.{
  ℕ, zero, suc, ◌+◌, ◌*◌, ◌/◌, ◌%◌, Bool, true, false, not, ltb, ◌==◌, ◌&&◌, ◌||◌, nat_eq,
  if◌then◌else◌,
}

unfoldable pub is_leap : ℕ → Bool
is_leap year = year % 4 == 0 && (not (year % 100 == 0) || year % 400 == 0)

unfoldable pub days_in : ℕ → ℕ → ℕ
unfolding is_leap
days_in year month =
    if month == 2
    then (if is_leap year then 29 else 28)
    else if month == 4 || month == 6 || month == 9 || month == 11
    then 30
    else 31

-- a month, and its first day in days since 1970-01-01
pub record Month : Type 0 where
  pub year : ℕ
  pub month : ℕ
  pub first : ℕ

abbrev pub epoch : Month
epoch = record { year = 1970; month = 1; first = 0 }

unfoldable pub next_month : Month → Month
unfolding days_in
next_month m = record {
  year = if m.month == 12 then m.year + 1 else m.year;
  month = if m.month == 12 then 1 else m.month + 1;
  first = m.first + days_in m.year m.month;
}

-- the month of a day, on fuel, from a month that is not after it
unfoldable pub month_of : ℕ → Month → ℕ → Month
unfolding next_month days_in
month_of zero m day = m
month_of (suc n) m day = elim (ltb day (m.first + days_in m.year m.month)) [
  | true ↦ m
  | false ↦ month_of n (next_month m) day
]

-- the length of a day
abbrev pub day_length : ℕ
day_length = 86_400_000_000

-- `month_start`: a month has a day or more, so the days are fuel enough
unfoldable pub month_start : ℕ → ℕ
unfolding month_of
month_start now = let day = now / day_length in (month_of (suc day) epoch day).first * day_length
