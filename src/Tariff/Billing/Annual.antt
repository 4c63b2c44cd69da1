-- ===== src/Tariff/Billing/Annual.antt =====
-- The bill of a whole year.
use mathlib.Core.Path.{subst}
use chart_solar.Prelude.{
  ℕ, ◌≤◌, ◌≡◌, ◌⊎◌, inl, inr, refl, sym, ap, ◌∙◌, true, false, some, List, [], ◌∷◌, map, length,
  Result, ok, err, arith, Option-cases, or_else, ◌==◌,
}
use chart_solar.Number.{Float, IsExact, ◌⊗◌, sum}
use chart_solar.Number.Sums.{sum-map-mul}
use chart_solar.Number.Monthly.{repeated, length-repeated, sum-repeated}
use chart_solar.Calendar.{
  Datetime, IsDatetime, hours_per_tmy, tmy_hour_calendar, length-tmy_hour_calendar,
  tmy_hour_calendar-IsCell,
}
use chart_solar.Tariff.{TariffError, Cell, no_period}
use chart_solar.Tariff.Cache.{IsValid, build_tou_rate_cache_lem}
use chart_solar.Tariff.Schedule.{
  flat, tiered, tou, TariffSchedule, structure_is_consistent, flat_given, tiered_given, tou_given,
  Structure-cases, is_missing,
}
use chart_solar.Tariff.Tiers.{sort_tiered_blocks, sorted_from, walk_tier_charge}
use chart_solar.Tariff.Billing.{
  AnnualBill, Monthly, no_months, annual_bill, bill_flat, bill_tiered, bill_tou, bill_by_structure,
  compute_annual_bill,
}
use chart_solar.Tariff.Billing.Periods.{hour_charges, charged, summed, bill_tou_lem}
use chart_solar.Tariff.Billing.Uncovered.{IsUncovered, IsAnswered, summed-IsUncovered}
use chart_solar.Tariff.Billing.Months.{get_elem?-repeated, tiered_hours-month_sum}
use chart_solar.Tariff.Billing.Charges.{
  imports, period_charges, IsCharged, IsMissed, IsBill, imports_nonneg, length-imports,
  annual_bill-IsBill,
}
use chart_solar.Tariff.Billing.Totals.{
  IsBilled, no_months-IsBilled, flat_hours-IsBilled, tiered_hours_lem, tou_hours_lem,
}

module _ {W : Type 0} ⦃f : Float W⦄ (r : IsExact W) where
  empty : IsBilled r f.nought (sum no_months.energy) no_months
  empty =
      let h = no_months-IsBilled r in
      record { energies = h.energies; kwhs = h.kwhs; kwh_sum = h.kwh_sum; energy_sum = refl }

  length-map : (g : W → W) (xs : List W) → length (map g xs) ≡ length xs
  length-map g [] = refl
  length-map g (x ∷ xs) = omega (arith, length-map g xs)

  by_flat :
      (dt : Datetime) (hours : List W) (t : TariffSchedule W) (rate : W)
      → t.structure ≡ flat
      → t.flat_rate_per_kwh ≡ some rate
      → bill_by_structure dt hours t ≡ bill_flat dt hours rate
  unfolding bill_by_structure
  by_flat dt hours t rate e given = ground (arith, e, given)

  by_tiers :
      (dt : Datetime) (hours : List W) (t : TariffSchedule W)
      → t.structure ≡ tiered
      → bill_by_structure dt hours t ≡ bill_tiered dt hours t
  unfolding bill_by_structure
  by_tiers dt hours t e = ground (arith, e)

  by_periods :
      (dt : Datetime) (hours : List W) (t : TariffSchedule W)
      → t.structure ≡ tou
      → bill_by_structure dt hours t ≡ bill_tou dt hours t
  unfolding bill_by_structure
  by_periods dt hours t e = ground (arith, e)

  ==-true : (a b : ℕ) → a ≡ b → (a == b) ≡ true
  ==-true a b h = ground (arith, h)

  -- the hours of the year fit the calendar
  fits :
      (dt : Datetime) (loads : List W)
      → length loads ≡ hours_per_tmy
      → length (imports loads) ≤ length (tmy_hour_calendar dt)
  fits dt loads h = omega (arith, h, length-imports r loads, length-tmy_hour_calendar dt)

  abbrev Billed : Datetime → List W → TariffSchedule W → Result TariffError (Monthly W) → Type 0
  Billed dt loads t result =
      ((charge : W) × (m : Monthly W) × (result ≡ ok m)
        × IsBilled r (sum (imports loads)) charge m
        × IsCharged dt loads t t.structure charge)
      ⊎ ((i : ℕ) × (c : Cell) × IsMissed dt loads t i c × (result ≡ err (no_period i c)))

  module _ (dt : Datetime) (calendar : IsDatetime dt) (loads : List W)
      (year : length loads ≡ hours_per_tmy) (t : TariffSchedule W) where
    bill_flat-Billed :
        (rate : W)
        → t.structure ≡ flat
        → t.flat_rate_per_kwh ≡ some rate
        → Billed dt loads t (bill_flat dt (imports loads) rate)
    unfolding bill_flat
    bill_flat-Billed rate by_rate given =
        let (m, e, billed) =
          flat_hours-IsBilled r rate (imports loads) (tmy_hour_calendar dt) f.nought f.nought
            no_months (fits dt loads year) (tmy_hour_calendar-IsCell dt calendar)
            (no_months-IsBilled r) in
        inl (
          sum (map (λ kwh. kwh ⊗ rate) (imports loads)),
          m,
          e,
          billed,
          subst (λ s. IsCharged dt loads t s (sum (map (λ kwh. kwh ⊗ rate) (imports loads))))
              (sym by_rate) (rate, given, sum-map-mul r rate (imports loads)),
        )

    bill_tiered-Billed :
        is_missing t.tiered_blocks ≡ false
        → t.structure ≡ tiered
        → Billed dt loads t (bill_tiered dt (imports loads) t)
    unfolding bill_tiered sort_tiered_blocks
    bill_tiered-Billed present by_blocks = elim (Option-cases t.tiered_blocks) [
      | inl e ↦ absurd (ground (arith, present, e))
      | inr ([], e) ↦ absurd (ground (arith, present, e))
      | inr (b ∷ blocks, e) ↦
          let (kwhs, filled, n, s) =
            tiered_hours_lem r (imports loads) (tmy_hour_calendar dt) f.nought
              (repeated 12 f.nought) (fits dt loads year) (tmy_hour_calendar-IsCell dt calendar)
              (imports_nonneg r loads) (length-repeated 12 f.nought) (sum-repeated r 12) in
          let sorted_blocks = sorted_from [] (b ∷ blocks) in
          let energies = map (λ m. walk_tier_charge m sorted_blocks) kwhs in
          inl (
            sum energies,
            record { energy = energies; kwh = kwhs },
            rw (e, filled) refl,
            record {
              energies = length-map (λ m. walk_tier_charge m sorted_blocks) kwhs ∙ n;
              kwhs = n;
              kwh_sum = s;
              energy_sum = refl;
            },
            subst (λ x. IsCharged dt loads t x (sum energies)) (sym by_blocks)
                (
                  kwhs,
                  n,
                  λ k lt.
                      tiered_hours-month_sum r (imports loads) (tmy_hour_calendar dt)
                        (repeated 12 f.nought) kwhs k f.nought (imports_nonneg r loads) filled
                        (get_elem?-repeated 12 k f.nought lt),
                  ap (λ o. sum (map (λ m. walk_tier_charge m (sorted_from [] (or_else o []))) kwhs))
                      (sym e),
                ),
          )
    ]

    missed_hour :
        (i : ℕ) (c : Cell)
        → IsValid (or_else t.tou_periods [])
        → bill_tou dt (imports loads) t ≡ err (no_period i c)
        → charged (bill_tou dt (imports loads) t) ≡ period_charges dt loads t
        → IsUncovered (or_else t.tou_periods []) (imports loads) (tmy_hour_calendar dt) i c
    missed_hour i c valid out by_hour =
        let periods = or_else t.tou_periods [] in
        let answered : IsAnswered periods = λ d cell.
          let (rates, _, answers) = build_tou_rate_cache_lem periods valid in
          let (found, matched, _) = answers d cell.month_from cell.month_to cell.hour_to in
          (found, matched) in
        let (d, at, here) =
          summed-IsUncovered periods f.nought 0 i c (imports loads) (tmy_hour_calendar dt) answered
            (tmy_hour_calendar-IsCell dt calendar) (sym by_hour ∙ ap charged out) in
        subst (λ j. IsUncovered periods (imports loads) (tmy_hour_calendar dt) j c)
          (sym (omega (arith, at))) here

    bill_tou-Billed :
        is_missing t.tou_periods ≡ false
        → t.structure ≡ tou
        → IsValid (or_else t.tou_periods [])
        → Billed dt loads t (bill_tou dt (imports loads) t)
    unfolding bill_tou
    bill_tou-Billed present by_time valid = elim (Option-cases t.tou_periods) [
      | inl e ↦ absurd (ground (arith, present, e))
      | inr ([], e) ↦ absurd (ground (arith, present, e))
      | inr (p ∷ periods, e) ↦
          let covered = subst (λ o. IsValid (or_else o [])) e valid in
          let (rates, built, answers) = build_tou_rate_cache_lem (p ∷ periods) covered in
          let by_hour : charged (bill_tou dt (imports loads) t) ≡ period_charges dt loads t =
            bill_tou_lem r dt (imports loads) t p periods calendar e covered
            ∙ ap
                (λ o.
                  summed f.nought
                    (hour_charges (or_else o []) 0 (imports loads) (tmy_hour_calendar dt)))
                (sym e) in
          elim (tou_hours_lem r rates 0 (imports loads) (tmy_hour_calendar dt) f.nought no_months
            (fits dt loads year) (tmy_hour_calendar-IsCell dt calendar) (imports_nonneg r loads)
            empty) [
              | inl (m, filled, billed) ↦
                  let out : bill_tou dt (imports loads) t ≡ ok m = rw (e, built) filled in
                  inl (
                    sum m.energy,
                    m,
                    out,
                    billed,
                    subst (λ s. IsCharged dt loads t s (sum m.energy)) (sym by_time)
                        (sym by_hour ∙ ap charged out),
                  )
              | inr (i, c, missed) ↦
                  let out : bill_tou dt (imports loads) t ≡ err (no_period i c) =
                    rw (e, built) missed in
                  inr (i, c, (by_time, missed_hour i c valid out by_hour), out)
            ]
    ]

    bill_by_structure-Billed :
        structure_is_consistent t ≡ true
        → IsValid (or_else t.tou_periods [])
        → Billed dt loads t (bill_by_structure dt (imports loads) t)
    bill_by_structure-Billed consistent valid = elim (Structure-cases t.structure) [
      | inl e ↦
          let (rate, given) = flat_given t consistent e in
          subst (λ x. Billed dt loads t x) (sym (by_flat dt (imports loads) t rate e given))
            (bill_flat-Billed rate e given)
      | inr (inl e) ↦
          subst (λ x. Billed dt loads t x) (sym (by_tiers dt (imports loads) t e))
            (bill_tiered-Billed (tiered_given t consistent e) e)
      | inr (inr e) ↦
          subst (λ x. Billed dt loads t x) (sym (by_periods dt (imports loads) t e))
            (bill_tou-Billed (tou_given t consistent e) e valid)
    ]

  module _ (dt : Datetime) (calendar : IsDatetime dt) (loads : List W)
      (year : length loads ≡ hours_per_tmy) (t : TariffSchedule W) where
    -- In exact arithmetic and over a calendar of months and hours, a tariff that passes its
    -- validation, whose periods have 24 flags each, bills any year of 8760 loads: in twelve
    -- months, for all the kWh imported, at twelve fixed charges and the energy charge of its
    -- structure: the flat rate times the kWh, the tiers walked by what each month imports, or the sum
    -- of each importing hour at the first period that covers it. It fails only for a tariff by time
    -- of use, with an hour of the year that imports and that none of its periods covers.
    pub compute_annual_bill_lem :
        structure_is_consistent t ≡ true
        → IsValid (or_else t.tou_periods [])
        → ((b : AnnualBill W) × (compute_annual_bill dt loads t ≡ ok b) × IsBill r dt loads t b)
          ⊎ ((i : ℕ) × (c : Cell) × IsMissed dt loads t i c
              × (compute_annual_bill dt loads t ≡ err (no_period i c)))
    unfolding compute_annual_bill annual_bill
    compute_annual_bill_lem consistent valid =
        let same = ==-true (length loads) hours_per_tmy year in
        elim (bill_by_structure-Billed dt calendar loads year t consistent valid) [
          | inl (charge, m, e, billed, charged_so) ↦ inl (
            annual_bill t m,
            rw (compute_annual_bill, same, e) refl,
            annual_bill-IsBill r dt loads t charge m billed charged_so,
          )
          | inr (i, c, missed, e) ↦ inr (i, c, missed, rw (compute_annual_bill, same, e) refl)
        ]
