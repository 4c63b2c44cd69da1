-- ===== src/Finance/Due.antt =====
-- backend/engine/finance/amortization.py: the rows of a loan against the rows that are due.
use chart_solar.Prelude.{
  ◌-◌, Bool, ◌&&◌, ◌||◌, not, err, if◌then◌else◌, ℕ, ◌+◌, ◌≡◌, refl, inl, inr, true, List, [], ◌∷◌,
  ok, arith, Bool-cases,
}
use chart_solar.Number.{Float, ◌⊕◌, ◌⊖◌, ◌⊗◌, ◌⊘◌, power}
use chart_solar.Finance.{invalid_row, abs_of, tiny, is_nought}
use chart_solar.Finance.Amortization.{
  AmortizationRow, Repaid, payment_of, row_of, row_is_valid, repay_month, repay_months,
}

both : (a b : Bool) → (a && b) ≡ true → (a ≡ true) × (b ≡ true)
both a b h = (ground arith, ground arith)

module _ {W : Type 0} ⦃f : Float W⦄ where
  -- The reference: the payment that is due, the row of a month at it, and the rows of all months,
  -- whether their fields are valid or not.
  unfoldable due_payment : W → W → ℕ → W
  unfolding power
  due_payment balance rate remaining =
      let factor = power (f.one ⊕ rate) remaining in
      if f.lt (abs_of rate) tiny
      then balance ⊘ f.of_nat remaining
      else balance ⊗ rate ⊗ factor ⊘ (factor ⊖ f.one)

  unfoldable pub due_month : ℕ → ℕ → W → W → AmortizationRow W × W
  unfolding due_payment
  due_month n m balance rate = row_of n m balance rate (due_payment balance rate (n - m + 1))

  unfoldable pub due_months : ℕ → ℕ → W → W → List W → Repaid W
  unfolding due_month
  due_months n m balance total [] = record { rows = []; total_interest = total }
  due_months n m balance total (rate ∷ rates) =
      let (row, left) = due_month n m balance rate in
      let rest = due_months n (m + 1) left (total ⊕ row.interest) rates in
      record { rows = row ∷ rest.rows; total_interest = rest.total_interest }

  abbrev pub rows_are_valid : List (AmortizationRow W) → Bool
  rows_are_valid [] = true
  rows_are_valid (row ∷ rows) = row_is_valid row && rows_are_valid rows

  -- A rate is tiny, or its growth factor over the months left is not one.
  unfoldable pub is_payable : ℕ → W → Bool
  unfolding power
  is_payable remaining rate =
      f.lt (abs_of rate) tiny || not (is_nought (power (f.one ⊕ rate) remaining ⊖ f.one))

  unfoldable pub are_payable : ℕ → ℕ → List W → Bool
  unfolding is_payable
  are_payable n m [] = true
  are_payable n m (rate ∷ rates) = is_payable (n - m + 1) rate && are_payable n (m + 1) rates

  payment_of_lem :
      (balance rate : W) (remaining : ℕ)
      → is_payable remaining rate ≡ true
      → payment_of balance rate remaining ≡ ok (due_payment balance rate remaining)
  unfolding payment_of due_payment is_payable
  payment_of_lem balance rate remaining h = ground arith

  -- The code's rows are those that are due, up to the first invalid one.
  pub repay_months_lem :
      (n m : ℕ) (balance total : W) (rates : List W)
      → are_payable n m rates ≡ true
      → repay_months n m balance total rates ≡ (
          if rows_are_valid (due_months n m balance total rates).rows
          then ok (due_months n m balance total rates)
          else err invalid_row)
  unfolding repay_months repay_month due_months due_month are_payable
  repay_months_lem n m balance total [] h = refl
  repay_months_lem n m balance total (rate ∷ rates) h =
      let (payable, later) = both _ _ h in
      let (row, left) = due_month n m balance rate in
      let rest = due_months n (m + 1) left (total ⊕ row.interest) rates in
      rw (payment_of_lem balance rate (n - m + 1) payable) (elim (Bool-cases (row_is_valid row)) [
        | inl valid ↦
            rw (valid, repay_months_lem n (m + 1) left (total ⊕ row.interest) rates later)
              (elim (Bool-cases (rows_are_valid rest.rows)) [
                | inl all_valid ↦ rw all_valid refl
                | inr refused ↦ rw refused refl
              ])
        | inr refused ↦ rw refused refl
      ])
