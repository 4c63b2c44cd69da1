-- ===== src/Tariff/Billing/Periods.antt =====
-- The time-of-use bill through the rate cache, against the periods read hour by hour.
use chart_solar.Prelude.{
  ℕ, ◌+◌, ◌≤◌, ◌<◌, length, ◌≡◌, refl, sym, ap, ◌∙◌, inl, inr, Option, none, some, List, [], ◌∷◌,
  All, Result, ok, err, ◌>>=◌, arith, Bool-cases, Option-cases, if◌then◌else◌,
}
use chart_solar.Number.{Float, IsExact, ◌⊕◌, ◌⊗◌, sum, sum_from}
use chart_solar.Calendar.{IsCell, Datetime, IsDatetime, tmy_hour_calendar, tmy_hour_calendar-IsCell}
use chart_solar.Tariff.{
  TariffError, Cell, TouPeriod, index_error, no_period, Rates, rate_at, first_matching_tou_period,
}
use chart_solar.Tariff.Cache.{IsValid, rate_of, build_tou_rate_cache_lem}
use chart_solar.Tariff.Billing.{Monthly, put, month_idx, tou_hours, bill_tou, no_months}
use chart_solar.Tariff.Schedule.{TariffSchedule}
use chart_solar.Number.Monthly.{sum-add_at, length-add_at, length-repeated, sum-repeated}

module _ {W : Type 0} ⦃f : Float W⦄ where
  -- The reference: each importing hour at the rate of the first period that covers it.
  unfoldable pub hour_charges :
      List (TouPeriod W) → ℕ → List W → List Cell → Result TariffError (List W)
  hour_charges periods i [] cells = ok []
  hour_charges periods i (kwh ∷ hours) [] =
      let rest = hour_charges periods (i + 1) hours [] in
      if f.le kwh f.nought then rest else err index_error
  hour_charges periods i (kwh ∷ hours) (c ∷ cells) =
      let rest = hour_charges periods (i + 1) hours cells in
      if f.le kwh f.nought then rest else do
        found ← first_matching_tou_period periods c
        elim found [
          | none ↦ err (no_period i c)
          | some p ↦ do charges ← rest; ok (kwh ⊗ p.rate_per_kwh ∷ charges)
        ]

  -- the sum of what a billing loop charged, and of a list of charges
  abbrev pub charged : Result TariffError (Monthly W) → Result TariffError W
  charged r = do m ← r; ok (sum m.energy)

  abbrev pub summed : W → Result TariffError (List W) → Result TariffError W
  summed from r = do charges ← r; ok (sum_from from charges)

  pub summed-cons :
      (from x : W) (rest : Result TariffError (List W))
      → summed from (rest >>= λ charges. ok (x ∷ charges)) ≡ summed (from ⊕ x) rest
  unfolding sum_from
  summed-cons from x (ok charges) = refl
  summed-cons from x (err e) = refl

module _ {W : Type 0} ⦃f : Float W⦄ (r : IsExact W) (periods : List (TouPeriod W)) where
  -- every lookup in the cache is that in the periods
  abbrev Answers : Rates W → Type 0
  Answers rates =
      (c : Cell)
      → 1 ≤ c.month
      → c.month ≤ 12
      → c.hour < 24
      → (found : Option (TouPeriod W)) × (first_matching_tou_period periods c ≡ ok found)
        × (rate_at rates c ≡ rate_of periods found)

  tou_hours_lem :
      (rates : Rates W) (i : ℕ) (hours : List W) (cells : List Cell) (m : Monthly W)
      → Answers rates
      → All IsCell cells
      → length m.energy ≡ 12
      → charged (tou_hours rates i hours cells m)
        ≡ summed (sum m.energy) (hour_charges periods i hours cells)
  unfolding tou_hours hour_charges sum_from
  tou_hours_lem rates i [] cells m answers all n = refl
  tou_hours_lem rates i (kwh ∷ hours) [] m answers all n = elim (Bool-cases (f.le kwh f.nought)) [
    | inl unused ↦
        rw (tou_hours, hour_charges, unused) (tou_hours_lem rates (i + 1) hours [] m answers tt n)
    | inr used ↦ rw (tou_hours, hour_charges, used) refl
  ]
  tou_hours_lem rates i (kwh ∷ hours) (c ∷ cells) m answers all n =
      elim (Bool-cases (f.le kwh f.nought)) [
        | inl unused ↦
            rw (tou_hours, hour_charges, unused)
              (tou_hours_lem rates (i + 1) hours cells m answers all.1 n)
        | inr used ↦
            let (found, matched, cached) =
              answers c all.0.month_from all.0.month_to all.0.hour_to in
            elim (Option-cases found) [
              | inl e ↦
                  rw
                    (
                      tou_hours,
                      hour_charges,
                      used,
                      matched ∙ ap ok e,
                      cached ∙ ap (rate_of periods) e,
                    )
                    refl
              | inr (p, e) ↦
                  let charge = kwh ⊗ p.rate_per_kwh in
                  let at = month_idx c in
                  rw
                    (
                      tou_hours,
                      hour_charges,
                      used,
                      matched ∙ ap ok e,
                      cached ∙ ap (rate_of periods) e,
                    )
                    (tou_hours_lem rates (i + 1) hours cells (put c kwh charge m) answers all.1
                        (length-add_at at charge m.energy ∙ n)
                      ∙ ap (λ s. summed s (hour_charges periods (i + 1) hours cells))
                          (sum-add_at r at charge m.energy
                            (omega (arith, all.0.month_from, all.0.month_to, n)))
                      ∙ sym (
                          summed-cons (sum m.energy) charge
                            (hour_charges periods (i + 1) hours cells)))
            ]
      ]

module _ {W : Type 0} ⦃f : Float W⦄ where
  -- In exact arithmetic and over a calendar of months and hours, a tariff by time of use with at
  -- least one period, each of 24 flags, charges a series of hours the sum, over the importing
  -- hours, of the kWh at the rate of the first period that covers the hour, and fails exactly as
  -- this sum read hour by hour does: with the first importing hour that no period covers, or one
  -- past the calendar. The rate cache changes neither.
  pub bill_tou_lem :
      (r : IsExact W) (dt : Datetime) (hours : List W) (t : TariffSchedule W) (p : TouPeriod W)
      (periods : List (TouPeriod W))
      → IsDatetime dt
      → t.tou_periods ≡ some (p ∷ periods)
      → IsValid (p ∷ periods)
      → charged (bill_tou dt hours t)
        ≡ summed f.nought (hour_charges (p ∷ periods) 0 hours (tmy_hour_calendar dt))
  unfolding bill_tou no_months
  bill_tou_lem r dt hours t p periods calendar e valid =
      let (rates, built, answers) = build_tou_rate_cache_lem (p ∷ periods) valid in
      rw (e, built)
        (tou_hours_lem r (p ∷ periods) rates 0 hours (tmy_hour_calendar dt) no_months answers
            (tmy_hour_calendar-IsCell dt calendar) (length-repeated 12 f.nought)
          ∙ ap (λ s. summed s (hour_charges (p ∷ periods) 0 hours (tmy_hour_calendar dt)))
              (sum-repeated r 12))
