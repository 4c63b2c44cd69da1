-- ===== src/Finance/Run/Debt.antt =====
-- The debt of a loan over the years of a forecast.
use chart_solar.Prelude.{
  ℕ, zero, suc, ◌-◌, ◌*◌, ◌≤◌, ◌≡◌, refl, sym, ap, ◌∙◌, some, List, [], ◌∷◌, length, true, ok,
  arith, err, if◌then◌else◌,
}
use chart_solar.Number.{Float, IsExact, ◌⊕◌, ◌≼◌, sum, sum_from}
use chart_solar.Number.Sums.{sum-cons}
use chart_solar.Number.Laws
use chart_solar.Finance.Amortization.{AmortizationRow, AmortizationSchedule, amortize_variable}
use chart_solar.Finance.{invalid_row}
use chart_solar.Finance.Due.{due_months, rows_are_valid, are_payable}
use chart_solar.Finance.Rows.{payments, amortize_variable_lem}
use chart_solar.Finance.Run.{
  LoanInputs, take, drop, debt_service, loan_schedule, annual_loan_payments,
}

module _ {W : Type 0} ⦃f : Float W⦄ (r : IsExact W) where
  sum-take : (n : ℕ) (xs : List W) → sum xs ≡ sum (take n xs) ⊕ sum (drop n xs)
  unfolding sum_from
  sum-take zero xs = sym (Laws.nought_add r (sum xs))
  sum-take (suc n) [] = sym (r.add_nought f.nought)
  sum-take (suc n) (x ∷ xs) =
      sum-cons r x xs
      ∙ ap (λ s. x ⊕ s) (sum-take n xs)
      ∙ sym (r.add_assoc x (sum (take n xs)) (sum (drop n xs)))
      ∙ ap (λ s. s ⊕ sum (drop n xs)) (sym (sum-cons r x (take n xs)))

  length-drop : (n : ℕ) (xs : List W) → length (drop n xs) ≡ length xs - n
  length-drop zero xs = omega arith
  length-drop (suc n) [] = omega arith
  length-drop (suc n) (x ∷ xs) = omega (arith, length-drop n xs)

  nothing_left : (xs : List W) → length xs ≤ 0 → sum xs ≡ f.nought
  unfolding sum_from
  nothing_left [] h = refl
  nothing_left (x ∷ xs) h = absurd (omega (arith, h))

  -- enough years take up every payment
  sum-debt_service :
      (monthly : List W) (n : ℕ)
      → length monthly ≤ n * 12
      → sum (debt_service monthly n) ≡ sum monthly
  unfolding debt_service sum_from
  sum-debt_service monthly zero h = sym (nothing_left monthly (omega (arith, h)))
  sum-debt_service monthly (suc n) h =
      sum-cons r (sum (take 12 monthly)) (debt_service (drop 12 monthly) n)
      ∙ ap (λ s. sum (take 12 monthly) ⊕ s)
          (sum-debt_service (drop 12 monthly) n (omega (arith, h, length-drop 12 monthly)))
      ∙ sym (sum-take 12 monthly)

  length-map_payment : (rows : List (AmortizationRow W)) → length (payments rows) ≡ length rows
  length-map_payment [] = refl
  length-map_payment (y ∷ rows) = omega (arith, length-map_payment rows)

  length-debt_service : (monthly : List W) (n : ℕ) → length (debt_service monthly n) ≡ n
  unfolding debt_service
  length-debt_service monthly zero = refl
  length-debt_service monthly (suc n) = omega (arith, length-debt_service (drop 12 monthly) n)

  -- In exact arithmetic a loan of monthly rates, of which none that is not tiny has a growth factor
  -- of one over the months left, of a principal that is not below zero, whose rows due all pass the
  -- validation of their fields and whose months fit into the years of the forecast, is paid in one sum for each year, and these sums are the principal and the interest of the
  -- schedule.
  pub annual_loan_payments_lem :
      (loan : LoanInputs W) (rate : W) (rates : List W) (years : ℕ)
      → loan.monthly_rates ≡ some (rate ∷ rates)
      → f.nought ≼ loan.principal
      → are_payable (length (rate ∷ rates)) 1 (rate ∷ rates) ≡ true
      → rows_are_valid
          (due_months (length (rate ∷ rates)) 1 loan.principal f.nought (rate ∷ rates)).rows
        ≡ true
      → length (rate ∷ rates) ≤ years * 12
      → (s : AmortizationSchedule W) × (debts : List W) × (amortize_variable loan.principal
            (rate ∷ rates)
          ≡ ok s)
        × (annual_loan_payments loan years ≡ ok (payments s.rows, debts))
        × (length debts ≡ years)
        × (sum debts ≡ s.total_paid)
  unfolding annual_loan_payments loan_schedule
  annual_loan_payments_lem loan rate rates years given pos payable valid fits =
      let (s, outcome, repaid) = amortize_variable_lem r loan.principal rate rates pos payable in
      let e : amortize_variable loan.principal (rate ∷ rates) ≡ ok s =
        outcome ∙ ap (λ b. if b then ok s else err invalid_row) valid in
      let monthly = payments s.rows in
      (
        s,
        debt_service monthly years,
        e,
        rw (given, e) refl,
        length-debt_service monthly years,
        sum-debt_service monthly years
              (omega (arith, fits, length-map_payment s.rows, repaid.row_count))
            ∙ repaid.paid,
      )
