-- ===== src/Finance/Solver.antt =====
-- backend/engine/finance/_solver.py: bisection, and the effective rate of amortization.py that it
-- solves for.
use chart_solar.Prelude.{
  ℕ, zero, suc, true, false, Result, ok, err, ◌>>=◌, ◌==◌, ◌&&◌, not, if◌then◌else◌,
}
use chart_solar.Number.{Float, ◌⊕◌, ◌⊖◌, ◌⊗◌, ◌⊘◌, max_of, power}
use chart_solar.Finance.{
  FinanceError, abs_of, tiny, small, cash_price_not_positive, fee_out_of_range, term_not_positive,
}
use chart_solar.Finance.Amortization.{monthly_payment}

module _ {W : Type 0} ⦃f : Float W⦄ where
  abbrev pub midpoint : W → W → W
  midpoint low high = (low ⊕ high) ⊘ f.of_nat 2

  -- the loop, with the turns that are left
  unfoldable pub bisect_loop : (W → W) → W → W → W → ℕ → W → W → W → W
  bisect_loop fn target tol bracket_tol zero low high f_low = midpoint low high
  bisect_loop fn target tol bracket_tol (suc turns) low high f_low =
      let mid = midpoint low high in
      let f_mid = fn mid ⊖ target in
      elim (f.lt (high ⊖ low) bracket_tol) [
        | true ↦ mid
        | false ↦ elim (f.lt (abs_of f_mid) tol) [
          | true ↦ mid
          | false ↦ elim (f.lt f.nought (f_mid ⊗ f_low)) [
            | true ↦ bisect_loop fn target tol bracket_tol turns mid high f_mid
            | false ↦ bisect_loop fn target tol bracket_tol turns low mid f_low
          ]
        ]
      ]

  unfoldable pub bisect : (W → W) → W → W → W → W → W → ℕ → W
  unfolding bisect_loop
  bisect fn low high target tol bracket_tol max_iter =
      if f.lt high low
      then bisect_loop fn target tol bracket_tol max_iter high low (fn high ⊖ target)
      else bisect_loop fn target tol bracket_tol max_iter low high (fn low ⊖ target)

  -- `(1 + x) ** -n`
  abbrev pub discount : W → ℕ → W
  discount x n = f.one ⊘ power (f.one ⊕ x) n

  -- The rates are above -1, as those from a stated rate that is not below zero are.
  unfoldable pub pv_at_rate : W → ℕ → W → W
  unfolding power
  pv_at_rate payment term_months monthly_rate =
      if f.lt (abs_of monthly_rate) tiny
      then payment ⊗ f.of_nat term_months
      else payment ⊗ (f.one ⊖ discount monthly_rate term_months) ⊘ monthly_rate

  -- the check of the arguments
  abbrev pub fee_valid : W → W → ℕ → Result FinanceError Unit
  fee_valid cash_price dealer_fee_pct term_months =
      if f.le cash_price f.nought
      then err cash_price_not_positive
      else if not (f.le f.nought dealer_fee_pct && f.lt dealer_fee_pct f.one)
      then err fee_out_of_range
      else if term_months == 0
      then err term_not_positive
      else ok tt

  -- the rate, for the payment of the financed principal
  unfoldable pub rate_of_payment : W → W → ℕ → W → W
  unfolding bisect pv_at_rate
  rate_of_payment cash_price stated_apr term_months payment =
      let low = stated_apr ⊘ f.of_nat 12 in
      let high = max_of (low ⊗ f.of_nat 4) f.one in
      if f.lt (pv_at_rate payment term_months low) cash_price
      then stated_apr
      else if f.lt cash_price (pv_at_rate payment term_months high)
      then high ⊗ f.of_nat 12
      else bisect (pv_at_rate payment term_months) low high cash_price
          (small ⊗ max_of cash_price f.one) tiny 200
        ⊗ f.of_nat 12

  unfoldable pub dealer_fee_effective_apr : W → W → W → ℕ → Result FinanceError W
  unfolding rate_of_payment monthly_payment
  dealer_fee_effective_apr cash_price stated_apr dealer_fee_pct term_months = do
    _ ← fee_valid cash_price dealer_fee_pct term_months
    payment ← monthly_payment (cash_price ⊗ (f.one ⊕ dealer_fee_pct)) stated_apr term_months
    ok (rate_of_payment cash_price stated_apr term_months payment)
