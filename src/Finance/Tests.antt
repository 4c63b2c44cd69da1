-- ===== src/Finance/Tests.antt =====
-- Loans in cents.
use chart_solar.Prelude.{
  none, length, arith, ◌≤◌, List, ℕ, Option, some, ◌≡◌, refl, true, false, inl, [], ◌∷◌, ok, err,
  if◌then◌else◌,
}
use chart_solar.Number.{sum, sum_from, power, ◌≼◌, ◌⊗◌}
use chart_solar.Number.Whole.{negsuc, ℤ, pos, whole, whole-IsExact, whole-IsHalving}
use chart_solar.Finance.Amortization.{
  AmortizationSchedule, amortize_variable, repay_months, repay_month, payment_of,
}
use chart_solar.Finance.{invalid_row, zero_division, small, tiny}
use chart_solar.Finance.Due.{due_months, rows_are_valid, are_payable}
use chart_solar.Finance.Run.{LoanInputs, annual_loan_payments}
use chart_solar.Finance.Run.Debt.{annual_loan_payments_lem}
use chart_solar.Finance.Rows.{IsRepaid, payments, amortize_variable_lem}
use chart_solar.Finance.Solver.{bisect, bisect_loop}
use chart_solar.Finance.Cashflow.{
  npv, discounted, irr, crossover_year, crossover_from, discounted_payback_years, payback_years,
}
use chart_solar.Finance.Returns.{IsFirst, value_at, irr-IsRoot, crossover_year_lem}
use chart_solar.Finance.Bracket.{bisect_within}
use chart_solar.Finance.Root.{IsRoot, bisect-IsRoot}

rows_valid :
    rows_are_valid (due_months 3 1 (pos 1000) (pos 0) (pos 1 ∷ pos 1 ∷ pos 1 ∷ [])).rows ≡ true
unfolding due_months power
rows_valid = refl

payable : are_payable 3 1 (pos 1 ∷ pos 1 ∷ pos 1 ∷ []) ≡ true
unfolding are_payable power
payable = refl

-- (1 - 2) ** 2 is one
divides_by_nought : amortize_variable (pos 1000) (negsuc 1 ∷ pos 0 ∷ []) ≡ err zero_division
unfolding amortize_variable repay_months repay_month payment_of power
divides_by_nought = refl

amortize_variable_lem_example :
    (s : AmortizationSchedule ℤ) × (amortize_variable (pos 1000) (pos 1 ∷ pos 1 ∷ pos 1 ∷ []) ≡ (
      if rows_are_valid (due_months 3 1 (pos 1000) (pos 0) (pos 1 ∷ pos 1 ∷ pos 1 ∷ [])).rows
      then ok s
      else err invalid_row))
    × IsRepaid whole-IsExact 3 (pos 1000) s
amortize_variable_lem_example =
    amortize_variable_lem whole-IsExact (pos 1000) (pos 1) (pos 1 ∷ pos 1 ∷ []) refl payable

-- a square of 49, between 20 and 0
bisect_within_test :
    (pos 0 ≼ bisect (λ x. x ⊗ x) (pos 20) (pos 0) (pos 49) (pos 1) (pos 1) 10)
    × (bisect (λ x. x ⊗ x) (pos 20) (pos 0) (pos 49) (pos 1) (pos 1) 10 ≼ pos 20)
bisect_within_test =
    bisect_within whole-IsExact.order whole-IsHalving (λ x. x ⊗ x) (pos 20) (pos 0) (pos 49) (pos 1)
      (pos 1) 10

bisect-IsRoot_example :
    IsRoot
      (λ x. x ⊗ x)
      (pos 49)
      (pos 1)
      (pos 1)
      10
      (pos 0)
      (pos 20)
      (bisect (λ x. x ⊗ x) (pos 0) (pos 20) (pos 49) (pos 1) (pos 1) 10)
bisect-IsRoot_example =
    bisect-IsRoot whole-IsExact (λ x. x ⊗ x) (pos 49) (pos 0) (pos 20) (pos 1) (pos 1) 10 refl
      (inl (refl, refl))

seven : bisect (λ x. x ⊗ x) (pos 0) (pos 20) (pos 49) (pos 1) (pos 1) 10 ≡ pos 7
unfolding bisect bisect_loop
seven = refl

-- an outlay of 100, and 150 a year later
abbrev stream : List ℤ
stream = negsuc 99 ∷ pos 150 ∷ []

at_nought : npv (pos 0) stream ≡ ok (pos 50)
unfolding npv discounted power sum_from
at_nought = refl

at_ten : npv (pos 10) stream ≡ ok (negsuc 86)
unfolding npv discounted power sum_from
at_ten = refl

not_one_sign : whole.lt (pos 0) (value_at stream (pos 0) ⊗ value_at stream (pos 10)) ≡ false
unfolding discounted power sum_from
not_one_sign = refl

irr-IsRoot_example :
    (rate : ℤ) × (irr stream (pos 0) (pos 10) ≡ ok rate)
    × (pos 0 ≼ rate)
    × (rate ≼ pos 10)
    × (npv rate stream ≡ ok (value_at stream rate))
    × IsRoot (value_at stream) (pos 0) small tiny 200 (pos 0) (pos 10) rate
irr-IsRoot_example =
    irr-IsRoot whole-IsExact whole-IsHalving (negsuc 99) (pos 150 ∷ []) (pos 0) (pos 10) refl refl
      refl not_one_sign

crossover_year_lem_example :
    (y : Option ℕ) × (crossover_year (pos 30) (pos 20) (pos 1) 10 ≡ ok y)
    × IsFirst (pos 30) (pos 20) (pos 1) 1 10 y
crossover_year_lem_example = crossover_year_lem (pos 30) (pos 20) (pos 1) 9 refl refl refl

-- 20, then 40
second_year : crossover_year (pos 30) (pos 20) (pos 1) 10 ≡ ok (some 2)
unfolding crossover_year crossover_from power
second_year = refl

-- paid back after the second year's half
halfway : discounted_payback_years (pos 0) (negsuc 99 ∷ pos 60 ∷ pos 40 ∷ []) ≡ ok (some (pos 2))
unfolding discounted_payback_years payback_years power
halfway = refl

abbrev loan : LoanInputs ℤ
loan = record {
  principal = pos 1000;
  apr = none;
  monthly_rates = some (pos 1 ∷ pos 1 ∷ pos 1 ∷ []);
  term_months = 3;
  down_payment = pos 0;
}

three_months : 3 ≤ 24
three_months = omega arith

annual_loan_payments_lem_example :
    (s : AmortizationSchedule ℤ) × (debts : List ℤ) × (amortize_variable
        (pos 1000)
        (pos 1 ∷ pos 1 ∷ pos 1 ∷ [])
      ≡ ok s)
    × (annual_loan_payments loan 2 ≡ ok (payments s.rows, debts))
    × (length debts ≡ 2)
    × (sum debts ≡ s.total_paid)
annual_loan_payments_lem_example =
    annual_loan_payments_lem whole-IsExact loan (pos 1) (pos 1 ∷ pos 1 ∷ []) 2 refl refl payable
      rows_valid three_months
