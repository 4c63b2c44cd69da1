-- ===== src/Finance/Cashflow.antt =====
-- backend/engine/finance/cashflow.py: what a stream of yearly amounts is worth. `pow`, the power of
-- two floats, is a parameter.
use chart_solar.Prelude.{
  ℕ, zero, suc, ◌+◌, ◌-◌, Bool, true, false, not, ◌&&◌, Option, none, some, List, [], ◌∷◌, any,
  length, Result, ok, err, ◌>>=◌, ◌==◌, ltb, if◌then◌else◌,
}
use chart_solar.Number.{Float, ◌⊕◌, ◌⊖◌, ◌⊗◌, ◌⊘◌, power, sum}
use chart_solar.Finance.{
  FinanceError, no_cashflows, rate_too_low, no_sign_change, not_bracketed, too_short,
  negative_amount, unequal_series, no_years, no_energy, small, tiny, is_nought,
}
use chart_solar.Finance.Solver.{bisect}

module _ {W : Type 0} ⦃f : Float W⦄ where
  abbrev pub minus_one : W
  minus_one = f.neg f.one

  -- `cf / (1.0 + rate) ** t` for each year, from year `t`
  unfoldable pub discounted : W → ℕ → List W → List W
  unfolding power
  discounted rate t [] = []
  discounted rate t (cf ∷ cashflows) =
      cf ⊘ power (f.one ⊕ rate) t ∷ discounted rate (t + 1) cashflows

  unfoldable pub npv : W → List W → Result FinanceError W
  unfolding discounted
  npv discount_rate [] = err no_cashflows
  npv discount_rate (cf ∷ cashflows) =
      if f.le discount_rate minus_one
      then err rate_too_low
      else ok (sum (discounted discount_rate 0 (cf ∷ cashflows)))

  abbrev pub changes_sign : List W → Bool
  changes_sign cashflows =
      any (λ cf. f.lt f.nought cf) cashflows && any (λ cf. f.lt cf f.nought) cashflows

  unfoldable pub irr : List W → W → W → Result FinanceError W
  unfolding npv bisect
  irr [] guess_low guess_high = err no_cashflows
  irr (cf ∷ cashflows) guess_low guess_high =
      if not (changes_sign (cf ∷ cashflows)) then err no_sign_change else do
        npv_low ← npv guess_low (cf ∷ cashflows)
        npv_high ← npv guess_high (cf ∷ cashflows)
        if f.lt f.nought (npv_low ⊗ npv_high)
            then err not_bracketed
            else ok (
                bisect (λ r. sum (discounted r 0 (cf ∷ cashflows))) guess_low guess_high f.nought
                  small tiny 200)

  -- the two sums of `mirr`, from year `t` of `n`
  unfoldable pub outflows : W → ℕ → List W → W → W
  unfolding power
  outflows rate t [] pv = pv
  outflows rate t (cf ∷ cashflows) pv =
      outflows rate (t + 1) cashflows
        (if f.lt cf f.nought then pv ⊕ cf ⊘ power (f.one ⊕ rate) t else pv)

  unfoldable pub inflows : W → ℕ → ℕ → List W → W → W
  unfolding power
  inflows rate n t [] fv = fv
  inflows rate n t (cf ∷ cashflows) fv =
      inflows rate n (t + 1) cashflows
        (if f.lt f.nought cf then fv ⊕ cf ⊗ power (f.one ⊕ rate) (n - t) else fv)

  unfoldable pub mirr : (W → W → W) → List W → W → W → Result FinanceError W
  unfolding outflows inflows
  mirr pow cashflows finance_rate reinvest_rate =
      let n = length cashflows - 1 in
      let pv_outflows = outflows finance_rate 0 cashflows f.nought in
      let fv_inflows = inflows reinvest_rate n 0 cashflows f.nought in
      if ltb (length cashflows) 2
      then err too_short
      else if f.le finance_rate minus_one
      then err rate_too_low
      else if f.le reinvest_rate minus_one
      then err rate_too_low
      else if is_nought pv_outflows
      then err no_sign_change
      else if is_nought fv_inflows
      then err no_sign_change
      else ok (pow (fv_inflows ⊘ f.neg pv_outflows) (f.one ⊘ f.of_nat n) ⊖ f.one)

  -- the loop of the payback, with the cumulative sum so far
  unfoldable pub payback_years : W → ℕ → W → List W → Option W
  unfolding power
  payback_years rate t cumulative [] = none
  payback_years rate t cumulative (cf ∷ cashflows) =
      let year_increment = cf ⊘ power (f.one ⊕ rate) t in
      elim (f.lt (cumulative ⊕ year_increment) f.nought) [
        | true ↦ payback_years rate (t + 1) (cumulative ⊕ year_increment) cashflows
        | false ↦
            if t == 0
            then some f.nought
            else some (f.of_nat (t - 1) ⊕ f.neg cumulative ⊘ year_increment)
      ]

  unfoldable pub discounted_payback_years : W → List W → Result FinanceError (Option W)
  unfolding payback_years
  discounted_payback_years discount_rate [] = err no_cashflows
  discounted_payback_years discount_rate (cf ∷ cashflows) =
      if f.le discount_rate minus_one
      then err rate_too_low
      else ok (payback_years discount_rate 0 f.nought (cf ∷ cashflows))

  unfoldable pub lcoe : W → List W → List W → W → Result FinanceError W
  unfolding discounted
  lcoe capex opex_per_year energy_kwh_per_year discount_rate =
      let pv_costs = capex ⊕ sum (discounted discount_rate 1 opex_per_year) in
      let pv_energy = sum (discounted discount_rate 1 energy_kwh_per_year) in
      if f.lt capex f.nought
      then err negative_amount
      else if f.le discount_rate minus_one
      then err rate_too_low
      else if not (length opex_per_year == length energy_kwh_per_year)
      then err unequal_series
      else if length opex_per_year == 0
      then err no_years
      else if f.le pv_energy f.nought
      then err no_energy
      else ok (pv_costs ⊘ pv_energy)

  -- the rate of a year
  abbrev pub projected_rate : W → W → ℕ → W
  projected_rate starting_rate rate_escalation year =
      starting_rate ⊗ power (f.one ⊕ rate_escalation) (year - 1)

  -- the loop over `n` years, from `year`
  unfoldable pub crossover_from : W → W → W → ℕ → ℕ → Option ℕ
  unfolding power
  crossover_from lcoe_per_kwh starting_rate escalation year zero = none
  crossover_from lcoe_per_kwh starting_rate escalation year (suc n) =
      let later = crossover_from lcoe_per_kwh starting_rate escalation (year + 1) n in
      if f.le lcoe_per_kwh (projected_rate starting_rate escalation year) then some year else later

  unfoldable pub crossover_year : W → W → W → ℕ → Result FinanceError (Option ℕ)
  unfolding crossover_from
  crossover_year lcoe_per_kwh starting_utility_rate_per_kwh rate_escalation horizon_years =
      if f.lt lcoe_per_kwh f.nought
      then err negative_amount
      else if f.lt starting_utility_rate_per_kwh f.nought
      then err negative_amount
      else if f.le rate_escalation minus_one
      then err rate_too_low
      else if horizon_years == 0
      then err no_years
      else ok (
          crossover_from lcoe_per_kwh starting_utility_rate_per_kwh rate_escalation 1 horizon_years)
