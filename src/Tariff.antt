-- ===== src/Tariff.antt =====
-- backend/domain/tariff.py and the rate cache of backend/engine/steps/tariff.py: which rate an
-- hour of the year is billed at. A rate is of any type `N`.
pub mod Cache
pub mod Schedule
pub mod Tiers
pub mod Walk
pub mod Billing
mod Tests
use chart_solar.Prelude.{
  ℕ, zero, suc, ◌+◌, String, Bool, true, false, not, ◌&&◌, Option, none, some, List, [], ◌∷◌, ◌++◌,
  any, get_elem?, Result, ok, err, ◌>>=◌, ◌==◌, if◌then◌else◌,
}

pub record TouPeriod (N : Type 0) : Type 0 where
  pub name : String
  pub rate_per_kwh : N
  pub months : List ℕ
  pub hour_mask : List Bool
  pub is_weekday : Bool

-- the key of the cache: month, weekday, hour of the day
pub record Cell : Type 0 where
  pub month : ℕ
  pub weekday : Bool
  pub hour : ℕ

-- An index out of range, a failed `assert`, and the reasons of a `ValueError`.
pub data TariffError : Type 0 where
  index_error assertion_error bad_length rate_required blocks_required periods_required :
      TariffError
  -- the hour of the year that no period covers
  no_period : ℕ → Cell → TariffError

abbrev pub same_bool : Bool → Bool → Bool
same_bool true b = b
same_bool false b = not b

abbrev pub cell_eq : Cell → Cell → Bool
cell_eq a b = a.month == b.month && (same_bool a.weekday b.weekday && a.hour == b.hour)

-- `range(from, from + n)`
abbrev pub range : ℕ → ℕ → List ℕ
range from zero = []
range from (suc n) = from ∷ range (from + 1) n

-- the dict, as its items
abbrev pub Rates : Type 0 → Type 0
Rates N = List (Cell × N)

module _ {N : Type 0} where
  unfoldable pub first_matching_tou_period :
      List (TouPeriod N) → Cell → Result TariffError (Option (TouPeriod N))
  first_matching_tou_period [] c = ok none
  first_matching_tou_period (p ∷ periods) c =
      let rest = first_matching_tou_period periods c in
      if not (any (λ m. m == c.month) p.months)
      then rest
      else if not (same_bool p.is_weekday c.weekday)
      then rest
      else elim (get_elem? p.hour_mask c.hour) [
        | none ↦ err index_error
        | some covers ↦ if covers then ok (some p) else rest
      ]

  abbrev pub rate_at : Rates N → Cell → Option N
  rate_at [] c = none
  rate_at ((d, r) ∷ rates) c = let rest = rate_at rates c in if cell_eq d c then some r else rest

  -- the assignment of one cell, where a period was found, before those of the later cells
  abbrev pub set_rate : Cell → Option (TouPeriod N) → Rates N → Rates N
  set_rate c none rates = rates
  set_rate c (some p) rates = (c, p.rate_per_kwh) ∷ rates

-- The cells in the order of the loops: by month, weekdays before weekends, by hour.
abbrev pub hours_of : ℕ → Bool → List ℕ → List Cell
hours_of month weekday [] = []
hours_of month weekday (h ∷ hours) =
    record { month = month; weekday = weekday; hour = h } ∷ hours_of month weekday hours

abbrev pub cells_of : List ℕ → List Cell
cells_of [] = []
cells_of (m ∷ months) =
    hours_of m true (range 0 24) ++ (hours_of m false (range 0 24) ++ cells_of months)

abbrev pub cells : List Cell
cells = cells_of (range 1 12)

module _ {N : Type 0} where
  unfoldable pub cache_cells : List (TouPeriod N) → List Cell → Result TariffError (Rates N)
  unfolding first_matching_tou_period
  cache_cells periods [] = ok []
  cache_cells periods (c ∷ rest) = do
    period ← first_matching_tou_period periods c
    rates ← cache_cells periods rest
    ok (set_rate c period rates)

  unfoldable pub build_tou_rate_cache : List (TouPeriod N) → Result TariffError (Rates N)
  unfolding cache_cells
  build_tou_rate_cache periods = cache_cells periods cells
