-- ===== src/Battery/Dispatch.antt =====
-- The dispatch of a whole year.
use mathlib.Core.Path.{subst}
use chart_solar.Prelude.{
  ℕ, ◌≡◌, refl, ◌∙◌, inl, inr, Bool, true, Option, none, some, List, [], ◌∷◌, length, ok, arith,
  Option-cases, or_else, ◌==◌,
}
use chart_solar.Number.{Float, IsExact, ◌⊗◌, ◌≼◌}
use chart_solar.Number.Laws
use chart_solar.Calendar.{Datetime, IsDatetime, hours_per_tmy}
use chart_solar.Tariff.{TouPeriod}
use chart_solar.Tariff.Cache.{IsValid}
use chart_solar.Tariff.Schedule.{TariffSchedule}
use chart_solar.Battery.{
  BatteryInputs, Hour, DispatchStrategy, self_consumption, tou_arbitrage, resolve_strategy,
  peak_mask, limits_of, series_of, dispatch_battery,
}
use chart_solar.Battery.Hours.{IsLimits, IsDispatch, dispatch_hours-IsDispatch}
use chart_solar.Battery.Mask.{build_peak_mask_ok}

module _ {W : Type 0} ⦃f : Float W⦄ where
  -- the periods of a tariff, where there are any
  abbrev pub periods_of : Option (TariffSchedule W) → List (TouPeriod W)
  periods_of none = []
  periods_of (some t) = or_else t.tou_periods []

  -- what the validation of the inputs lets pass
  pub record IsBattery (b : BatteryInputs W) : Type 0 where
    pub capacity : f.nought ≼ b.capacity_kwh
    pub usable : f.nought ≼ b.usable_pct
    pub efficiency : f.nought ≼ b.round_trip_efficiency
    pub charge : f.nought ≼ b.max_charge_kw
    pub discharge : f.nought ≼ b.max_discharge_kw
    pub reserve : b.reserve_pct ≼ f.one

module _ {W : Type 0} ⦃f : Float W⦄ (r : IsExact W) where
  limits_of-IsLimits : (b : BatteryInputs W) → IsBattery b → IsLimits r (limits_of b)
  limits_of-IsLimits b h =
      let usable = b.capacity_kwh ⊗ b.usable_pct in
      record {
        reserve =
            subst (λ x. x ≼ usable) (r.mul_comm b.reserve_pct usable)
              (subst (λ x. b.reserve_pct ⊗ usable ≼ x) (r.mul_comm f.one usable ∙ r.mul_one usable)
                (r.mul_le b.reserve_pct f.one usable
                  (Laws.mul_nonneg r b.capacity_kwh b.usable_pct h.capacity h.usable) h.reserve));
        charge_nonneg = h.charge;
        discharge_nonneg = h.discharge;
        efficiency_nonneg = h.efficiency;
      }

  -- the mask is there for all the hours where the strategy reads it
  peak_mask_ok :
      (is_close : W → W → Bool) (dt : Datetime) (s : DispatchStrategy)
      (tariff : Option (TariffSchedule W))
      → IsDatetime dt
      → IsValid (periods_of tariff)
      → (mask : List Bool) × (peak_mask is_close dt (resolve_strategy s tariff) tariff ≡ ok mask)
        × (resolve_strategy s tariff ≡ tou_arbitrage → length mask ≡ hours_per_tmy)
  unfolding peak_mask resolve_strategy
  peak_mask_ok is_close dt self_consumption tariff calendar valid =
      ([], refl, λ e. absurd (ground (arith, e)))
  peak_mask_ok is_close dt tou_arbitrage none calendar valid =
      ([], refl, λ e. absurd (ground (arith, e)))
  peak_mask_ok is_close dt tou_arbitrage (some t) calendar valid =
      elim (Option-cases t.tou_periods) [
        | inl e ↦ rw e ([], refl, λ k. absurd (ground (arith, k)))
        | inr ([], e) ↦ rw e ([], refl, λ k. absurd (ground (arith, k)))
        | inr (p ∷ periods, e) ↦
            let (mask, built, n) =
              build_peak_mask_ok is_close dt (p ∷ periods) calendar
                (subst (λ o. IsValid (or_else o [])) e valid) in
            rw e (mask, built, λ _. n)
      ]

  -- In exact arithmetic and over a calendar of months and hours, a battery whose capacity, usable
  -- part, efficiency and caps are not below zero and whose reserve is at most the whole is
  -- dispatched for every year of 8760 loads, under any tariff whose periods have 24 flags each,
  -- with the strategy that the tariff allows. In every hour the state of charge stays between the
  -- reserve and the usable capacity, charge and discharge are between zero and their caps, the
  -- battery discharges no more than the import, and import and discharge are load, charge and
  -- export.
  pub dispatch_battery_lem :
      (is_close : W → W → Bool) (dt : Datetime) (b : BatteryInputs W) (loads : List W)
      (tariff : Option (TariffSchedule W))
      → IsDatetime dt
      → IsBattery b
      → length loads ≡ hours_per_tmy
      → IsValid (periods_of tariff)
      → (hours : List (Hour W)) × (dispatch_battery is_close dt b loads tariff
          ≡ ok (series_of (resolve_strategy b.strategy tariff) hours))
        × IsDispatch r (limits_of b) loads hours
  unfolding dispatch_battery
  dispatch_battery_lem is_close dt b loads tariff calendar h year valid =
      let limits = limits_of-IsLimits b h in
      let strategy = resolve_strategy b.strategy tariff in
      let (mask, masked, n) = peak_mask_ok is_close dt b.strategy tariff calendar valid in
      let (hours, e, dispatched) =
        dispatch_hours-IsDispatch r (limits_of b) strategy mask (limits_of b).floor_kwh loads limits
          (record { from = r.order.le_refl _; to = limits.reserve })
          (λ by_time. omega (arith, n by_time, year)) in
      (hours, rw (same_length (length loads) hours_per_tmy year, masked, e) refl, dispatched)
    where
      same_length : (a b : ℕ) → a ≡ b → (a == b) ≡ true
      same_length a b h = ground (arith, h)
