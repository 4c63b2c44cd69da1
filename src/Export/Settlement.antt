-- ===== src/Export/Settlement.antt =====
-- backend/engine/integration/nbt.py and backend/engine/integration/seg.py: the credits of a year
-- netted against its bill.
use chart_solar.Prelude.{List, [], ◌∷◌, map, Result, ok, err, ◌>>=◌, if◌then◌else◌}
use chart_solar.Number.{Float, ◌⊕◌, ◌⊖◌, ◌⊗◌, ◌⊘◌, min_of, max_of, sum}
use chart_solar.Tariff.Billing.{AnnualBill, MonthlyBill}
use chart_solar.Export.{
  ExportError, ExportCreditResult, unequal_lengths, wrong_regime, nem_one_for_one, nem_three_nbt,
  seg_flat, seg_tou,
}

-- the variables of the loop over the months
pub record Rollover (W : Type 0) : Type 0 where
  pub netted : List (MonthlyBill W)
  pub rollover : W
  pub annual_credit_applied : W

-- `NbtSettlement` and `SegSettlement`, which have the same fields
pub record Settled (W : Type 0) : Type 0 where
  pub bill : AnnualBill W
  pub annual_credit_applied : W
  pub annual_credit_unused : W

module _ {W : Type 0} ⦃f : Float W⦄ where
  -- a month's bill with `applied` taken off its energy charge
  abbrev pub net_month : MonthlyBill W → W → MonthlyBill W
  net_month m applied = record m {
    energy_charge = m.energy_charge ⊖ applied;
    total = m.energy_charge ⊖ applied ⊕ m.fixed_charge;
  }

  -- what a month applies of the available credit: a deficit settles in full
  abbrev pub applied_of : MonthlyBill W → W → W
  applied_of m available =
      if f.le f.nought available then min_of available m.energy_charge else available

  abbrev pub rollover_of : MonthlyBill W → W → W
  rollover_of m available =
      if f.le f.nought available then available ⊖ applied_of m available else f.nought

  -- the loop, over the bills and the credits
  unfoldable pub rollover_months :
      W → W → List (MonthlyBill W) → List W → Result ExportError (Rollover W)
  rollover_months rollover applied [] [] =
      ok (record { netted = []; rollover = rollover; annual_credit_applied = applied })
  rollover_months rollover applied [] (credit ∷ credits) = err unequal_lengths
  rollover_months rollover applied (m ∷ months) [] = err unequal_lengths
  rollover_months rollover applied (m ∷ months) (credit ∷ credits) = do
    let available = rollover ⊕ credit
    rest ←
        rollover_months (rollover_of m available) (applied ⊕ applied_of m available) months credits
    ok (record rest { netted = net_month m (applied_of m available) ∷ rest.netted })

  abbrev pub netted_bill : AnnualBill W → List (MonthlyBill W) → AnnualBill W
  netted_bill b netted = record b {
    monthly = netted;
    annual_energy_charge = sum (map (λ m. m.energy_charge) netted);
    annual_total = sum (map (λ m. m.total) netted);
  }

  unfoldable pub run_monthly_rollover : AnnualBill W → List W → Result ExportError (Settled W)
  unfolding rollover_months
  run_monthly_rollover annual_bill monthly_credit = do
    y ← rollover_months f.nought f.nought annual_bill.monthly monthly_credit
    ok (record {
      bill = netted_bill annual_bill y.netted;
      annual_credit_applied = y.annual_credit_applied;
      annual_credit_unused = y.rollover;
    })

  unfoldable pub compute_nbt_net_bill :
      AnnualBill W → ExportCreditResult W → Result ExportError (Settled W)
  unfolding run_monthly_rollover
  compute_nbt_net_bill annual_bill export_credit = elim export_credit.regime [
    | nem_three_nbt ↦ run_monthly_rollover annual_bill export_credit.monthly_credit
    | nem_one_for_one ↦ err wrong_regime
    | seg_flat ↦ err wrong_regime
    | seg_tou ↦ err wrong_regime
  ]

  -- a month's part of a flat credit, at most its energy charge
  abbrev pub flat_share : W → W → MonthlyBill W → W
  flat_share annual_credit annual_energy m =
      min_of (annual_credit ⊗ (m.energy_charge ⊘ annual_energy)) m.energy_charge

  unfoldable pub seg_flat_settlement : AnnualBill W → ExportCreditResult W → Settled W
  seg_flat_settlement annual_bill export_credit =
      let annual_credit = export_credit.annual_credit in
      let annual_energy = annual_bill.annual_energy_charge in
      let shares = map (λ m. flat_share annual_credit annual_energy m) annual_bill.monthly in
      if f.le annual_energy f.nought
      then record {
        bill = annual_bill;
        annual_credit_applied = f.nought;
        annual_credit_unused = max_of f.nought annual_credit;
      }
      else record {
        bill =
            netted_bill annual_bill (
              map (λ m. net_month m (flat_share annual_credit annual_energy m))
                annual_bill.monthly);
        annual_credit_applied = sum shares;
        annual_credit_unused = max_of f.nought (annual_credit ⊖ sum shares);
      }

  unfoldable pub compute_seg_net_bill :
      AnnualBill W → ExportCreditResult W → Result ExportError (Settled W)
  unfolding seg_flat_settlement run_monthly_rollover
  compute_seg_net_bill annual_bill export_credit = elim export_credit.regime [
    | seg_flat ↦ ok (seg_flat_settlement annual_bill export_credit)
    | seg_tou ↦ run_monthly_rollover annual_bill export_credit.monthly_credit
    | nem_one_for_one ↦ err wrong_regime
    | nem_three_nbt ↦ err wrong_regime
  ]
