-- ===== src/Finance.antt =====
-- backend/engine/finance: loans by amortization.py, the solver by _solver.py,
-- streams of cash by cashflow.py; backend/engine/steps/finance.py composes them.
pub mod Amortization
pub mod Due
pub mod Rows
pub mod Solver
pub mod Bracket
pub mod Root
pub mod Cashflow
pub mod Returns
pub mod Run
mod Tests
use chart_solar.Prelude.{ℕ, Bool, ◌&&◌, if◌then◌else◌}
use chart_solar.Number.{Float}

-- the reasons of a `ValueError`, of which one is a row that its validation refuses, and the
-- `ZeroDivisionError` of a payment whose growth factor is one
pub data FinanceError : Type 0 where
  negative_principal no_rates term_not_positive cash_price_not_positive : FinanceError
  fee_out_of_range invalid_row no_cashflows rate_too_low no_sign_change : FinanceError
  not_bracketed too_short negative_amount unequal_series no_years no_energy : FinanceError
  zero_division : FinanceError

module _ {W : Type 0} ⦃f : Float W⦄ where
  -- `abs(x)`
  abbrev pub abs_of : W → W
  abs_of x = if f.lt x f.nought then f.neg x else x

  -- `x == 0`
  abbrev pub is_nought : W → Bool
  is_nought x = f.le x f.nought && f.le f.nought x

  -- `1e-12`, `1e-9`
  abbrev pub tiny : W
  tiny = f.decimal 1 1000000000000

  abbrev pub small : W
  small = f.decimal 1 1000000000
