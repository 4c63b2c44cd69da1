-- ===== src/Calendar.antt =====
-- backend/domain/tmy.py: the hours of the typical year.
-- `datetime` is a parameter: what it says of the hours after 2023-01-01 00:00 UTC.
pub mod Year
use chart_solar.Prelude.{
  ℕ, zero, suc, ◌+◌, ◌≤◌, ◌<◌, ◌≡◌, refl, List, [], ◌∷◌, length, All, ltb, arith,
}
use chart_solar.Tariff.{Cell}

unfoldable pub hours_per_tmy : ℕ
hours_per_tmy = 8760

-- `.month`, `.weekday()` and `.hour` of the hour so many hours after the anchor
pub record Datetime : Type 0 where
  pub month : ℕ → ℕ
  pub weekday : ℕ → ℕ
  pub hour : ℕ → ℕ

pub record IsDatetime (dt : Datetime) : Type 0 where
  pub month_from : (i : ℕ) → 1 ≤ dt.month i
  pub month_to : (i : ℕ) → dt.month i ≤ 12
  pub hour_to : (i : ℕ) → dt.hour i < 24

abbrev pub cell_at : Datetime → ℕ → Cell
cell_at dt i = record { month = dt.month i; weekday = ltb (dt.weekday i) 5; hour = dt.hour i }

-- the cells of `n` hours from hour `i`
unfoldable pub calendar_from : Datetime → ℕ → ℕ → List Cell
calendar_from dt i zero = []
calendar_from dt i (suc n) = cell_at dt i ∷ calendar_from dt (i + 1) n

unfoldable pub tmy_hour_calendar : Datetime → List Cell
tmy_hour_calendar dt = calendar_from dt 0 hours_per_tmy

-- A month of the year and an hour of the day.
pub record IsCell (c : Cell) : Type 0 where
  pub month_from : 1 ≤ c.month
  pub month_to : c.month ≤ 12
  pub hour_to : c.hour < 24

length-calendar_from : (dt : Datetime) (i n : ℕ) → length (calendar_from dt i n) ≡ n
unfolding calendar_from
length-calendar_from dt i zero = refl
length-calendar_from dt i (suc n) = omega (arith, length-calendar_from dt (i + 1) n)

calendar_from-IsCell :
    (dt : Datetime) → IsDatetime dt → (i n : ℕ) → All IsCell (calendar_from dt i n)
unfolding calendar_from
calendar_from-IsCell dt laws i zero = tt
calendar_from-IsCell dt laws i (suc n) = (
  record { month_from = laws.month_from i; month_to = laws.month_to i; hour_to = laws.hour_to i },
  calendar_from-IsCell dt laws (i + 1) n,
)

pub length-tmy_hour_calendar : (dt : Datetime) → length (tmy_hour_calendar dt) ≡ hours_per_tmy
unfolding tmy_hour_calendar
length-tmy_hour_calendar dt = length-calendar_from dt 0 hours_per_tmy

pub tmy_hour_calendar-IsCell : (dt : Datetime) → IsDatetime dt → All IsCell (tmy_hour_calendar dt)
unfolding tmy_hour_calendar
tmy_hour_calendar-IsCell dt laws = calendar_from-IsCell dt laws 0 hours_per_tmy
