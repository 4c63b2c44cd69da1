-- ===== src/Finance/Run.antt =====
-- backend/engine/steps/finance.py: the years of a system, their bills, credits and debt, and what
-- the stream is worth.
pub mod Debt
use chart_solar.Prelude.{
  ℕ, zero, suc, ◌+◌, Bool, true, false, not, Option, none, some, List, [], ◌∷◌, map, length, Result,
  ok, err, ◌>>=◌, ◌==◌, ltb, or_else, if◌then◌else◌,
}
use chart_solar.Number.{Float, ◌⊕◌, ◌⊖◌, ◌⊗◌, ◌⊘◌, max_of, sum}
use chart_solar.Number.Monthly.{repeated}
use chart_solar.Calendar.{Datetime, hours_per_tmy}
use chart_solar.Tariff.{TariffError}
use chart_solar.Tariff.Schedule.{TariffSchedule}
use chart_solar.Tariff.Billing.{AnnualBill, compute_annual_bill}
use chart_solar.Export.{ExportError}
use chart_solar.Export.Nem.{
  ExportCreditConfig, nem_config, nbt_config, seg_flat_config, seg_tou_config, apply_export_credit,
}
use chart_solar.Export.Settlement.{compute_nbt_net_bill}
use chart_solar.Degradation.{DegradationCurve}
use chart_solar.Finance.{FinanceError}
use chart_solar.Finance.Amortization.{AmortizationSchedule, amortize, amortize_variable}
use chart_solar.Finance.Cashflow.{npv, irr, mirr, discounted_payback_years, lcoe, crossover_year}

pub data RunError : Type 0 where
  cost_required wrong_length short_curve unequal_hours rate_required : RunError
  of_tariff : TariffError → RunError
  of_export : ExportError → RunError
  of_finance : FinanceError → RunError

pub record LoanInputs (W : Type 0) : Type 0 where
  pub principal : W
  pub apr : Option W
  pub monthly_rates : Option (List W)
  pub term_months : ℕ
  pub down_payment : W

pub record FinancialInputs (W : Type 0) : Type 0 where
  pub discount_rate : W
  pub hold_years : ℕ
  pub system_cost : Option W
  pub annual_opex : W
  pub rate_escalation : W
  pub loan : Option (LoanInputs W)

pub record FinanceResult (W : Type 0) : Type 0 where
  pub per_year_cashflow : List W
  pub bill_avoidance_per_year : List W
  pub export_credit_per_year : List W
  pub energy_kwh_per_year : List W
  pub value : W
  pub rate_of_return : Option W
  pub modified_rate : Option W
  pub payback : Option W
  pub cost_per_kwh : W
  pub crossover : Option ℕ
  pub monthly_loan_payments : List W

-- what the loop appends for a year
pub record Year (W : Type 0) : Type 0 where
  pub avoidance : W
  pub credit : W
  pub energy : W

abbrev pub raised : {E A : Type 0} → (E → RunError) → Result E A → Result RunError A
raised g (ok a) = ok a
raised g (err e) = err (g e)

-- `None` for a `ValueError`
abbrev pub safe : {E A : Type 0} → Result E A → Option A
safe (ok a) = some a
safe (err e) = none

module _ {ℓ} {A : Type ℓ} where
  abbrev pub take : ℕ → List A → List A
  take zero xs = []
  take (suc n) [] = []
  take (suc n) (x ∷ xs) = x ∷ take n xs

  abbrev pub drop : ℕ → List A → List A
  drop zero xs = xs
  drop (suc n) [] = []
  drop (suc n) (x ∷ xs) = drop n xs

module _ {W : Type 0} ⦃f : Float W⦄ where
  unfoldable pub net_load_for_year : List W → List W → W → Result RunError (List W)
  net_load_for_year [] [] factor = ok []
  net_load_for_year [] (p ∷ ps) factor = err unequal_hours
  net_load_for_year (c ∷ cs) [] factor = err unequal_hours
  net_load_for_year (c ∷ cs) (p ∷ ps) factor = do
    rest ← net_load_for_year cs ps factor
    ok ((c ⊖ p ⊗ factor) ∷ rest)

  abbrev pub hourly_export : List W → List W
  hourly_export net_load = map (λ nl. max_of f.nought (f.neg nl)) net_load

  -- the credit of a year, which net billing settles against the bill
  unfoldable pub year_credit :
      Datetime → ExportCreditConfig W → List W → TariffSchedule W → AnnualBill W → Result RunError W
  unfolding apply_export_credit compute_nbt_net_bill
  year_credit dt config net_load schedule bill = do
    credit ←
        raised of_export
          (apply_export_credit dt config (hourly_export net_load) (some schedule) (some net_load))
    elim config [
      | nbt_config _ ↦ do
        netted ← raised of_export (compute_nbt_net_bill bill credit)
        ok netted.annual_credit_applied
      | nem_config ↦ ok credit.annual_credit
      | seg_flat_config _ ↦ ok credit.annual_credit
      | seg_tou_config _ ↦ ok credit.annual_credit
    ]

  unfoldable pub finance_year_terms :
      Datetime
      → W
      → List W
      → List W
      → W
      → TariffSchedule W
      → Option (ExportCreditConfig W)
      → Result RunError (W × W)
  unfolding net_load_for_year year_credit compute_annual_bill
  finance_year_terms dt baseline_total consumption hourly_ac_kw factor schedule export_config = do
    net_load ← net_load_for_year consumption hourly_ac_kw factor
    bill ← raised of_tariff (compute_annual_bill dt net_load schedule)
    elim export_config [
      | none ↦ ok (baseline_total ⊖ bill.annual_total, f.nought)
      | some config ↦ do
        credit ← year_credit dt config net_load schedule bill
        ok (baseline_total ⊖ bill.annual_total, credit)
    ]

  -- `sum(monthly[12 * year : 12 * year + 12])` for each of `n` years
  unfoldable pub debt_service : List W → ℕ → List W
  debt_service monthly zero = []
  debt_service monthly (suc n) = sum (take 12 monthly) ∷ debt_service (drop 12 monthly) n

  unfoldable pub loan_schedule : LoanInputs W → Result RunError (AmortizationSchedule W)
  unfolding amortize amortize_variable
  loan_schedule loan = elim loan.monthly_rates [
    | some rates ↦ raised of_finance (amortize_variable loan.principal rates)
    | none ↦ elim loan.apr [
      | none ↦ err rate_required
      | some apr ↦ raised of_finance (amortize loan.principal apr loan.term_months)
    ]
  ]

  unfoldable pub annual_loan_payments : LoanInputs W → ℕ → Result RunError (List W × List W)
  unfolding loan_schedule debt_service
  annual_loan_payments loan hold_years = do
    schedule ← loan_schedule loan
    let monthly = map (λ row. row.payment) schedule.rows
    ok (monthly, debt_service monthly hold_years)

  abbrev pub starting_utility_rate : W → W → Option W
  starting_utility_rate baseline_kwh baseline_energy_charge =
      if f.le baseline_kwh f.nought then none else some (baseline_energy_charge ⊘ baseline_kwh)

  -- the loop over the years, with their factors
  unfoldable pub finance_years :
      Datetime
      → W
      → List W
      → List W
      → W
      → TariffSchedule W
      → Option (ExportCreditConfig W)
      → ℕ
      → List W
      → Result RunError (List (Year W))
  unfolding finance_year_terms
  finance_years dt baseline consumption hourly annual schedule config zero factors = ok []
  finance_years dt baseline consumption hourly annual schedule config (suc n) [] = err short_curve
  finance_years dt baseline consumption hourly annual schedule config (suc n) (x ∷ factors) = do
    (avoidance, credit) ← finance_year_terms dt baseline consumption hourly x schedule config
    rest ← finance_years dt baseline consumption hourly annual schedule config n factors
    ok (record { avoidance = avoidance; credit = credit; energy = annual ⊗ x } ∷ rest)

  -- the years after the first, each less the running cost and the debt
  unfoldable pub cashflows_of : W → List (Year W) → List W → List W
  cashflows_of opex (y ∷ years) (debt ∷ debts) =
      (y.avoidance ⊕ y.credit ⊖ opex ⊖ debt) ∷ cashflows_of opex years debts
  cashflows_of opex [] debts = []
  cashflows_of opex (y ∷ years) [] = []

  abbrev pub loan_payments : Option (LoanInputs W) → ℕ → Result RunError (List W × List W)
  loan_payments none hold_years = ok ([], repeated hold_years f.nought)
  loan_payments (some loan) hold_years = annual_loan_payments loan hold_years

  abbrev pub year_zero : Option (LoanInputs W) → W → W
  year_zero none system_cost = f.neg system_cost
  year_zero (some loan) system_cost = f.neg loan.down_payment

  abbrev pub crossover_of : Option W → W → W → ℕ → Result FinanceError (Option ℕ)
  crossover_of none cost escalation hold_years = ok none
  crossover_of (some rate) cost escalation hold_years =
      crossover_year cost rate escalation hold_years

  unfoldable pub run_finance :
      Datetime
      → (W → W → W)
      → FinancialInputs W
      → List W
      → List W
      → W
      → DegradationCurve W
      → TariffSchedule W
      → Option (ExportCreditConfig W)
      → Result RunError (FinanceResult W)
  unfolding finance_years cashflows_of compute_annual_bill annual_loan_payments npv irr mirr
      discounted_payback_years lcoe crossover_year
  run_finance dt pow q consumption hourly_ac_kw annual_ac_kwh degradation schedule export_credit =
      elim q.system_cost [
        | none ↦ err cost_required
        | some system_cost ↦
            if not (length consumption == hours_per_tmy)
            then err wrong_length
            else if ltb (length degradation.factors) q.hold_years
            then err short_curve
            else do
              baseline ← raised of_tariff (compute_annual_bill dt consumption schedule)
              years ←
                  finance_years dt baseline.annual_total consumption hourly_ac_kw annual_ac_kwh
                    schedule export_credit q.hold_years degradation.factors
              (monthly, debts) ← loan_payments q.loan q.hold_years
              let cashflows = year_zero q.loan system_cost ∷ cashflows_of q.annual_opex years debts
              cost ← raised of_finance (
                  lcoe system_cost (repeated q.hold_years q.annual_opex) (map (λ y. y.energy) years)
                    q.discount_rate)
              crossover ← raised of_finance (
                  crossover_of
                    (starting_utility_rate baseline.annual_kwh_imported
                      baseline.annual_energy_charge)
                    cost q.rate_escalation q.hold_years)
              value ← raised of_finance (npv q.discount_rate cashflows)
              payback ← raised of_finance (discounted_payback_years q.discount_rate cashflows)
              ok (record {
                per_year_cashflow = cashflows;
                bill_avoidance_per_year = map (λ y. y.avoidance) years;
                export_credit_per_year = map (λ y. y.credit) years;
                energy_kwh_per_year = map (λ y. y.energy) years;
                value = value;
                rate_of_return = safe (irr cashflows (f.neg (f.decimal 99 100)) (f.of_nat 10));
                modified_rate = safe (mirr pow cashflows q.discount_rate q.discount_rate);
                payback = payback;
                cost_per_kwh = cost;
                crossover = crossover;
                monthly_loan_payments = monthly;
              })
      ]
