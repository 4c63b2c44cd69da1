-- ===== src/Export/Credits.antt =====
-- The credit of a year under hourly rates, and its settlement against a bill.
use chart_solar.Prelude.{
  ℕ, ◌≤◌, ◌≡◌, refl, sym, ap, ◌∙◌, inl, inr, true, List, [], ◌∷◌, map, All, length, ok, arith,
  Bool-cases, if◌then◌else◌, ◌==◌,
}
use mathlib.Core.Path.{subst}
use chart_solar.Number.{Float, IsExact, ◌⊕◌, ◌⊗◌, max_of, sum, sum_from}
use chart_solar.Number.Laws
use chart_solar.Number.Monthly.{length-repeated, length-add_at, sum-add_at, sum-repeated}
use chart_solar.Calendar.{
  IsCell, Datetime, IsDatetime, hours_per_tmy, tmy_hour_calendar, length-tmy_hour_calendar,
  tmy_hour_calendar-IsCell,
}
use chart_solar.Tariff.{Cell}
use chart_solar.Tariff.Billing.{AnnualBill, month_idx}
use chart_solar.Export.{
  ExportCreditResult, Credited, nem_three_nbt, is_zero, credit_hour, nothing_credited,
  accumulate_hours, accumulate_monthly_credits, apply_nem_three_nbt, result_of,
}
use chart_solar.Export.Settlement.{Settled, compute_nbt_net_bill}
use chart_solar.Export.Rollover.{IsCharged, IsSettled, run_monthly_rollover_lem}

module _ {W : Type 0} ⦃f : Float W⦄ where
  -- The reference: each hour's export at its rate.
  unfoldable pub hour_credits : List W → List W → List W
  hour_credits (x ∷ exports) (rate ∷ rates) = max_of f.nought x ⊗ rate ∷ hour_credits exports rates
  hour_credits [] rates = []
  hour_credits (x ∷ exports) [] = []

module _ {W : Type 0} ⦃f : Float W⦄ (r : IsExact W) where
  -- twelve months that hold `credit`, for `kwh`
  record IsCredited (credit kwh : W) (m : Credited W) : Type 0 where
    months : length m.monthly ≡ 12
    credits : sum m.monthly ≡ credit
    total : m.total_kwh ≡ kwh

  is_zero_sound : (kwh : W) → is_zero kwh ≡ true → kwh ≡ f.nought
  is_zero_sound kwh h = r.order.le_antisym kwh f.nought (ground (arith, h)) (ground (arith, h))

  credit_hour-IsCredited :
      (c : Cell) (kwh rate k e : W) (m : Credited W)
      → IsCell c
      → IsCredited e k m
      → IsCredited (e ⊕ kwh ⊗ rate) (k ⊕ kwh) (if is_zero kwh then m else credit_hour c kwh rate m)
  credit_hour-IsCredited c kwh rate k e m cell h = elim (Bool-cases (is_zero kwh)) [
    | inl none_left ↦
        let z = is_zero_sound kwh none_left in
        rw none_left (record {
          months = h.months;
          credits =
              h.credits
              ∙ sym (
                  ap (λ x. e ⊕ x ⊗ rate) z
                  ∙ ap (λ x. e ⊕ x) (Laws.nought_mul r rate)
                  ∙ r.add_nought e);
          total = h.total ∙ sym (ap (λ x. k ⊕ x) z ∙ r.add_nought k);
        })
    | inr exported ↦ rw exported (record {
      months = length-add_at (month_idx c) (kwh ⊗ rate) m.monthly ∙ h.months;
      credits =
          sum-add_at r (month_idx c) (kwh ⊗ rate) m.monthly
            (omega (arith, cell.month_from, cell.month_to, h.months))
          ∙ ap (λ x. x ⊕ kwh ⊗ rate) h.credits;
      total = ap (λ x. x ⊕ kwh) h.total;
    })
  ]

  accumulate_hours-IsCredited :
      (exports rates : List W) (cells : List Cell) (k e : W) (m : Credited W)
      → length exports ≡ length rates
      → length exports ≤ length cells
      → All IsCell cells
      → IsCredited e k m
      → (m' : Credited W) × (accumulate_hours exports rates cells m ≡ ok m')
        × IsCredited
            (sum_from e (hour_credits exports rates))
            (sum_from k (map (λ x. max_of f.nought x) exports))
            m'
  unfolding accumulate_hours hour_credits sum_from
  accumulate_hours-IsCredited [] rates cells k e m n len all h = (m, refl, h)
  accumulate_hours-IsCredited (x ∷ exports) [] cells k e m n len all h = absurd (omega (arith, n))
  accumulate_hours-IsCredited (x ∷ exports) (rate ∷ rates) [] k e m n len all h =
      absurd (omega (arith, len))
  accumulate_hours-IsCredited (x ∷ exports) (rate ∷ rates) (c ∷ cells) k e m n len all h =
      let kwh = max_of f.nought x in
      accumulate_hours-IsCredited exports rates cells (k ⊕ kwh) (e ⊕ kwh ⊗ rate)
        (if is_zero kwh then m else credit_hour c kwh rate m) (omega (arith, n))
        (omega (arith, len)) all.1 (credit_hour-IsCredited c kwh rate k e m all.0 h)

  accumulated :
      (dt : Datetime) (exports rates : List W)
      → IsDatetime dt
      → length exports ≡ hours_per_tmy
      → length rates ≡ hours_per_tmy
      → (m : Credited W) × (accumulate_monthly_credits dt exports rates ≡ ok m)
        × IsCredited
            (sum (hour_credits exports rates))
            (sum (map (λ x. max_of f.nought x) exports))
            m
  unfolding accumulate_monthly_credits nothing_credited
  accumulated dt exports rates calendar n k =
      accumulate_hours-IsCredited exports rates (tmy_hour_calendar dt) f.nought f.nought
        nothing_credited (n ∙ sym k) (omega (arith, n, length-tmy_hour_calendar dt))
        (tmy_hour_calendar-IsCell dt calendar)
        (record { months = length-repeated 12 f.nought; credits = sum-repeated r 12; total = refl })

  same_length : (a b : ℕ) → a ≡ b → (a == b) ≡ true
  same_length a b h = ground (arith, h)

  -- In exact arithmetic and over a calendar of months and hours, a year of 8760 exports and 8760
  -- rates of either sign is credited under net billing for all the kWh exported, and settled
  -- against twelve bills whose energy charges are not below zero: the sum of each hour's export at
  -- the hour's rate is what is applied and what is left unused, what is applied is what the energy
  -- charges lose, and no charge and no unused credit is below zero.
  pub nbt_year :
      (dt : Datetime) (exports rates : List W) (bill : AnnualBill W)
      → IsDatetime dt
      → length exports ≡ hours_per_tmy
      → length rates ≡ hours_per_tmy
      → length bill.monthly ≡ 12
      → IsCharged bill.monthly
      → (c : ExportCreditResult W) × (s : Settled W) × (apply_nem_three_nbt dt exports rates ≡ ok c)
        × (c.annual_kwh_exported ≡ sum (map (λ x. max_of f.nought x) exports))
        × (compute_nbt_net_bill bill c ≡ ok s)
        × IsSettled r bill.monthly s.bill.monthly
            (sum (hour_credits exports rates))
            s.annual_credit_applied
            s.annual_credit_unused
  unfolding apply_nem_three_nbt compute_nbt_net_bill
  nbt_year dt exports rates bill calendar n k months charged =
      let (m, e, credited) = accumulated dt exports rates calendar n k in
      let (s, settles, settled) =
        run_monthly_rollover_lem r bill m.monthly (months ∙ sym credited.months) charged in
      (
        result_of nem_three_nbt m,
        s,
        rw
            (
              same_length (length exports) hours_per_tmy n,
              same_length (length rates) hours_per_tmy k,
              e,
            )
            refl,
        credited.total,
        settles,
        subst
            (λ x.
              IsSettled r bill.monthly s.bill.monthly x s.annual_credit_applied
                s.annual_credit_unused)
            credited.credits settled,
      )
