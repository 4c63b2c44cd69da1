-- ===== src/Calendar/Year.antt =====
-- The hours of the year 2023, which starts on a Sunday: a calendar that the laws admit.
use chart_solar.Prelude.{
  ℕ, ◌+◌, ◌-◌, ◌/◌, ◌%◌, ◌≤◌, List, [], ◌∷◌, length, ltb, arith, inl, inr, Bool-cases,
  if◌then◌else◌,
}
use chart_solar.Calendar.{Datetime, IsDatetime}

-- the month of a day, from the lengths of the months before the last
abbrev month_from : ℕ → ℕ → List ℕ → ℕ
month_from month day [] = month
month_from month day (n ∷ lengths) =
    let later = month_from (month + 1) (day - n) lengths in if ltb day n then month else later

abbrev lengths_2023 : List ℕ
lengths_2023 = 31 ∷ 28 ∷ 31 ∷ 30 ∷ 31 ∷ 30 ∷ 31 ∷ 31 ∷ 30 ∷ 31 ∷ 30 ∷ []

abbrev pub year_2023 : Datetime
year_2023 = record {
  month = λ i. month_from 1 (i / 24) lengths_2023;
  weekday = λ i. (i / 24 + 6) % 7;
  hour = λ i. i % 24;
}

month_from-le : (m d : ℕ) (lengths : List ℕ) → m ≤ month_from m d lengths
month_from-le m d [] = omega arith
month_from-le m d (n ∷ lengths) = elim (Bool-cases (ltb d n)) [
  | inl here ↦ rw here (omega arith)
  | inr later ↦ rw later (omega (arith, month_from-le (m + 1) (d - n) lengths))
]

le-month_from : (m d : ℕ) (lengths : List ℕ) → month_from m d lengths ≤ m + length lengths
le-month_from m d [] = omega arith
le-month_from m d (n ∷ lengths) = elim (Bool-cases (ltb d n)) [
  | inl here ↦ rw here (omega arith)
  | inr later ↦ rw later (omega (arith, le-month_from (m + 1) (d - n) lengths))
]

pub year_2023-IsDatetime : IsDatetime year_2023
year_2023-IsDatetime = record {
  month_from = λ i. month_from-le 1 (i / 24) lengths_2023;
  month_to = λ i. le-month_from 1 (i / 24) lengths_2023;
  hour_to = λ i. omega arith;
}
