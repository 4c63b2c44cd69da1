-- ===== src/Tariff/Billing/Charges.antt =====
-- backend/engine/steps/tariff.py: what a bill of a year charges, for each structure of a tariff.
use mathlib.Core.Path.{subst}
use chart_solar.Prelude.{
  ◌<◌, get_elem?, ℕ, ◌+◌, ◌≡◌, refl, sym, ap, ◌∙◌, some, List, [], ◌∷◌, map, length, All, Result,
  ok, arith, or_else,
}
use chart_solar.Number.{Float, IsExact, ◌⊕◌, ◌⊗◌, ◌≼◌, max_of, sum}
use chart_solar.Number.Laws
use chart_solar.Number.Monthly.{sum-map-add}
use chart_solar.Calendar.{Datetime, tmy_hour_calendar}
use chart_solar.Tariff.{TariffError, Cell}
use chart_solar.Tariff.Schedule.{Structure, flat, tiered, tou, TariffSchedule}
use chart_solar.Tariff.Tiers.{sorted_from, walk_tier_charge}
use chart_solar.Tariff.Billing.{AnnualBill, Monthly, annual_bill, monthly_bills}
use chart_solar.Tariff.Billing.Months.{month_sum}
use chart_solar.Tariff.Billing.Periods.{hour_charges, summed}
use chart_solar.Tariff.Billing.Uncovered.{IsUncovered}
use chart_solar.Tariff.Billing.Totals.{IsBilled, totals-monthly_bills}

module _ {W : Type 0} ⦃f : Float W⦄ where
  -- the kWh imported in each hour
  abbrev pub imports : List W → List W
  imports loads = map (λ kwh. max_of f.nought kwh) loads

  -- the hours of a year through the calendar, at the periods of a tariff
  abbrev pub period_charges : Datetime → List W → TariffSchedule W → Result TariffError W
  period_charges dt loads t =
      summed f.nought
        (hour_charges (or_else t.tou_periods []) 0 (imports loads) (tmy_hour_calendar dt))

  -- The energy charge that a structure asks for: the flat rate times the kWh imported, the tiers
  -- walked by what each of the twelve months imports, or each hour at its period.
  abbrev pub IsCharged : Datetime → List W → TariffSchedule W → Structure → W → Type 0
  IsCharged dt loads t flat charge =
      (rate : W) × (t.flat_rate_per_kwh ≡ some rate) × (charge ≡ sum (imports loads) ⊗ rate)
  IsCharged dt loads t tiered charge =
      (kwhs : List W) × (length kwhs ≡ 12)
      × ((k : ℕ)
          → k < 12
          → get_elem? kwhs k ≡ some (month_sum k f.nought (imports loads) (tmy_hour_calendar dt)))
      × (charge
          ≡ sum (map (λ m. walk_tier_charge m (sorted_from [] (or_else t.tiered_blocks []))) kwhs))
  IsCharged dt loads t tou charge = period_charges dt loads t ≡ ok charge

  -- An hour of a tariff by time of use that imports and that no period covers.
  abbrev pub IsMissed : Datetime → List W → TariffSchedule W → ℕ → Cell → Type 0
  IsMissed dt loads t i c =
      (t.structure ≡ tou)
      × IsUncovered (or_else t.tou_periods []) (imports loads) (tmy_hour_calendar dt) i c

module _ {W : Type 0} ⦃f : Float W⦄ (r : IsExact W) where
  -- Twelve months that bill the year's import, at a total of energy and fixed charges, the fixed
  -- ones twelve times that of a month.
  pub record IsBill (dt : Datetime) (loads : List W) (t : TariffSchedule W) (b : AnnualBill W)
      : Type 0 where
    pub months : length b.monthly ≡ 12
    pub kwh : b.annual_kwh_imported ≡ sum (imports loads)
    pub fixed : b.annual_fixed_charge ≡ t.fixed_monthly_charge ⊗ f.of_nat 12
    pub total : b.annual_total ≡ b.annual_energy_charge ⊕ b.annual_fixed_charge
    pub energy : IsCharged dt loads t t.structure b.annual_energy_charge

  pub imports_nonneg : (loads : List W) → All (λ kwh. f.nought ≼ kwh) (imports loads)
  imports_nonneg [] = tt
  imports_nonneg (x ∷ loads) = (Laws.max-ge_left r.order f.nought x, imports_nonneg loads)

  pub length-imports : (loads : List W) → length (imports loads) ≡ length loads
  length-imports [] = refl
  length-imports (x ∷ loads) = omega (arith, length-imports loads)

  length-monthly_bills :
      (fixed : W) (m : ℕ) (kwhs energies : List W)
      → length kwhs ≡ length energies
      → length (monthly_bills fixed m kwhs energies) ≡ length energies
  unfolding monthly_bills
  length-monthly_bills fixed m [] [] h = refl
  length-monthly_bills fixed m [] (x ∷ xs) h = absurd (omega (arith, h))
  length-monthly_bills fixed m (k ∷ ks) [] h = absurd (omega (arith, h))
  length-monthly_bills fixed m (k ∷ ks) (x ∷ xs) h =
      omega (arith, length-monthly_bills fixed (m + 1) ks xs (omega (arith, h)))

  pub annual_bill-IsBill :
      (dt : Datetime) (loads : List W) (t : TariffSchedule W) (charge : W) (m : Monthly W)
      → IsBilled r (sum (imports loads)) charge m
      → IsCharged dt loads t t.structure charge
      → IsBill dt loads t (annual_bill t m)
  unfolding annual_bill
  annual_bill-IsBill dt loads t charge m h charged_so =
      let fixed = t.fixed_monthly_charge in
      let same = h.kwhs ∙ sym h.energies in
      record {
        months = length-monthly_bills fixed 1 m.kwh m.energy same ∙ h.energies;
        kwh = h.kwh_sum;
        fixed = refl;
        energy = subst (λ x. IsCharged dt loads t t.structure x) (sym h.energy_sum) charged_so;
        total =
            ap (λ xs. sum xs) (totals-monthly_bills r fixed 1 m.kwh m.energy same)
            ∙ sum-map-add r fixed m.energy
            ∙ ap (λ n. sum m.energy ⊕ fixed ⊗ f.of_nat n) h.energies;
      }
