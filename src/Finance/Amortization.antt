-- ===== src/Finance/Amortization.antt =====
-- backend/engine/finance/amortization.py: loans of fixed and of variable rate.
use chart_solar.Prelude.{
  ℕ, ◌+◌, ◌-◌, Bool, ◌&&◌, Option, none, some, List, [], ◌∷◌, length, Result, ok, err, ◌>>=◌, ◌==◌,
  if◌then◌else◌,
}
use chart_solar.Number.{Float, ◌⊕◌, ◌⊖◌, ◌⊗◌, ◌⊘◌, max_of, power}
use chart_solar.Number.Monthly.{repeated}
use chart_solar.Finance.{
  FinanceError, negative_principal, no_rates, term_not_positive, invalid_row, zero_division, abs_of,
  tiny, is_nought,
}

pub record AmortizationRow (W : Type 0) : Type 0 where
  pub month : ℕ
  pub payment : W
  pub interest : W
  pub principal_paid : W
  pub balance : W

pub record AmortizationSchedule (W : Type 0) : Type 0 where
  pub principal : W
  pub apr : Option W
  pub term_months : ℕ
  pub rows : List (AmortizationRow W)
  pub total_interest : W
  pub total_paid : W

-- the rows that the loop appends, and its total
pub record Repaid (W : Type 0) : Type 0 where
  pub rows : List (AmortizationRow W)
  pub total_interest : W

module _ {W : Type 0} ⦃f : Float W⦄ where
  unfoldable pub monthly_payment : W → W → ℕ → Result FinanceError W
  unfolding power
  monthly_payment principal apr term_months =
      let monthly_rate = apr ⊘ f.of_nat 12 in
      let factor = power (f.one ⊕ monthly_rate) term_months in
      if f.le principal f.nought
      then ok f.nought
      else if term_months == 0
      then err term_not_positive
      else if f.lt (abs_of monthly_rate) tiny
      then ok (principal ⊘ f.of_nat term_months)
      else if is_nought (factor ⊖ f.one)
      then err zero_division
      else ok (principal ⊗ monthly_rate ⊗ factor ⊘ (factor ⊖ f.one))

  -- the payment that closes a balance in `remaining` months
  unfoldable pub payment_of : W → W → ℕ → Result FinanceError W
  unfolding power
  payment_of balance rate remaining =
      let factor = power (f.one ⊕ rate) remaining in
      if f.lt (abs_of rate) tiny
      then ok (balance ⊘ f.of_nat remaining)
      else if is_nought (factor ⊖ f.one)
      then err zero_division
      else ok (balance ⊗ rate ⊗ factor ⊘ (factor ⊖ f.one))

  abbrev pub interest_of : W → W → W
  interest_of balance rate = max_of (balance ⊗ rate) f.nought

  -- the row of month `m` of `n` at a payment, and the balance that it leaves
  abbrev pub row_of : ℕ → ℕ → W → W → W → AmortizationRow W × W
  row_of n m balance rate payment =
      let interest = interest_of balance rate in
      let principal_paid = payment ⊖ interest in
      if m == n
      then (
        record {
          month = m;
          payment = balance ⊕ interest;
          interest = interest;
          principal_paid = balance;
          balance = max_of f.nought f.nought;
        },
        f.nought,
      )
      else (
        record {
          month = m;
          payment = payment;
          interest = interest;
          principal_paid = principal_paid;
          balance = max_of (balance ⊖ principal_paid) f.nought;
        },
        balance ⊖ principal_paid,
      )

  -- the bounds of the fields of a row
  abbrev pub row_is_valid : AmortizationRow W → Bool
  row_is_valid row =
      f.le f.nought row.payment && (f.le f.nought row.interest && f.le f.nought row.balance)

  unfoldable pub repay_month : ℕ → ℕ → W → W → Result FinanceError (AmortizationRow W × W)
  unfolding payment_of
  repay_month n m balance rate = do
    payment ← payment_of balance rate (n - m + 1)
    let (row, left) = row_of n m balance rate payment
    if row_is_valid row then ok (row, left) else err invalid_row

  unfoldable pub repay_months : ℕ → ℕ → W → W → List W → Result FinanceError (Repaid W)
  unfolding repay_month
  repay_months n m balance total_interest [] =
      ok (record { rows = []; total_interest = total_interest })
  repay_months n m balance total_interest (rate ∷ rates) = do
    (row, left) ← repay_month n m balance rate
    rest ← repay_months n (m + 1) left (total_interest ⊕ row.interest) rates
    ok (record { rows = row ∷ rest.rows; total_interest = rest.total_interest })

  unfoldable pub amortize_variable : W → List W → Result FinanceError (AmortizationSchedule W)
  unfolding repay_months
  amortize_variable principal monthly_rates =
      if f.lt principal f.nought then err negative_principal else elim monthly_rates [
        | [] ↦ err no_rates
        | rate ∷ rates ↦ do
          let n = length (rate ∷ rates)
          repaid ← repay_months n 1 principal f.nought (rate ∷ rates)
          ok (record {
            principal = principal;
            apr = none;
            term_months = n;
            rows = repaid.rows;
            total_interest = repaid.total_interest;
            total_paid = principal ⊕ repaid.total_interest;
          })
      ]

  unfoldable pub amortize : W → W → ℕ → Result FinanceError (AmortizationSchedule W)
  unfolding amortize_variable
  amortize principal apr term_months = if term_months == 0 then err term_not_positive else do
    schedule ← amortize_variable principal (repeated term_months (apr ⊘ f.of_nat 12))
    ok (record schedule { apr = some apr })
