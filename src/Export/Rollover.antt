-- ===== src/Export/Rollover.antt =====
-- The settlement of a year's credits: no credit is lost, and no month goes below zero.
use chart_solar.Prelude.{
  ◌≡◌, refl, sym, ap, ◌∙◌, inl, inr, List, [], ◌∷◌, map, length, All, ok, arith, Bool-cases,
}
use chart_solar.Number.{Float, IsExact, ◌⊕◌, ◌⊖◌, ◌≼◌, min_of, sum, sum_from}
use chart_solar.Number.Laws
use chart_solar.Number.Sums.{sum-cons}
use chart_solar.Tariff.Billing.{AnnualBill, MonthlyBill}
use chart_solar.Export.{ExportCreditResult}
use chart_solar.Export.Settlement.{
  Rollover, Settled, net_month, applied_of, rollover_of, rollover_months, run_monthly_rollover,
  netted_bill, flat_share, seg_flat_settlement,
}

module _ {W : Type 0} ⦃f : Float W⦄ where
  abbrev pub energies : List (MonthlyBill W) → List W
  energies months = map (λ m. m.energy_charge) months

  -- no energy charge is below zero
  abbrev pub IsCharged : List (MonthlyBill W) → Type 0
  IsCharged months = All (λ m. f.nought ≼ m.energy_charge) months

module _ {W : Type 0} ⦃f : Float W⦄ (r : IsExact W) where
  -- a month applies at most its energy charge
  applied-le :
      (m : MonthlyBill W) (available : W)
      → f.nought ≼ m.energy_charge
      → applied_of m available ≼ m.energy_charge
  applied-le m available charged = elim (Bool-cases (f.le f.nought available)) [
    | inl some_left ↦ rw some_left (Laws.min-le_right r.order available m.energy_charge)
    | inr deficit ↦ rw deficit (
        r.order.le_trans available f.nought m.energy_charge
          (Laws.not-le r.order f.nought available deficit) charged)
  ]

  rollover_nonneg : (m : MonthlyBill W) (available : W) → f.nought ≼ rollover_of m available
  rollover_nonneg m available = elim (Bool-cases (f.le f.nought available)) [
    | inl some_left ↦ rw some_left (
        Laws.sub_nonneg r available (min_of available m.energy_charge)
          (Laws.min-le_left r.order available m.energy_charge))
    | inr deficit ↦ rw deficit (r.order.le_refl f.nought)
  ]

  -- what is available is applied or rolls over
  applied-rollover :
      (m : MonthlyBill W) (available : W)
      → applied_of m available ⊕ rollover_of m available ≡ available
  applied-rollover m available = elim (Bool-cases (f.le f.nought available)) [
    | inl some_left ↦
        rw some_left (Laws.add_sub_left r (min_of available m.energy_charge) available)
    | inr deficit ↦ rw deficit (r.add_nought available)
  ]

  -- The months are netted, the credit is kept account of, and nothing is below zero.
  pub record IsSettled (months netted : List (MonthlyBill W)) (credit applied unused : W)
      : Type 0 where
    pub same_months : map (λ m. m.month) netted ≡ map (λ m. m.month) months
    pub credit_kept : applied ⊕ unused ≡ credit
    pub energy_netted : sum (energies netted) ⊕ applied ≡ sum (energies months)
    pub charged : IsCharged netted
    pub unused_nonneg : f.nought ≼ unused

  -- an amount that is taken off and put back
  take_off : (e a x : W) → e ⊖ a ⊕ (x ⊕ a) ≡ e ⊕ x
  take_off e a x =
      ap (λ y. e ⊖ a ⊕ y) (r.add_comm x a)
      ∙ sym (r.add_assoc (e ⊖ a) a x)
      ∙ ap (λ y. y ⊕ x) (r.sub_add e a)

  -- the account of a month's credit, and of its energy
  credit_step :
      (m : MonthlyBill W) (rollover credit rest : W)
      → applied_of m (rollover ⊕ credit) ⊕ (rollover_of m (rollover ⊕ credit) ⊕ rest)
        ≡ rollover ⊕ (credit ⊕ rest)
  credit_step m rollover credit rest =
      sym (r.add_assoc (applied_of m (rollover ⊕ credit)) (rollover_of m (rollover ⊕ credit)) rest)
      ∙ ap (λ x. x ⊕ rest) (applied-rollover m (rollover ⊕ credit))
      ∙ r.add_assoc rollover credit rest

  energy_step :
      (e a netted total before after : W)
      → netted ⊕ after ≡ total ⊕ (before ⊕ a)
      → e ⊖ a ⊕ netted ⊕ after ≡ e ⊕ total ⊕ before
  energy_step e a netted total before after h =
      r.add_assoc (e ⊖ a) netted after
      ∙ ap (λ x. e ⊖ a ⊕ x) (h ∙ sym (r.add_assoc total before a))
      ∙ take_off e a (total ⊕ before)
      ∙ sym (r.add_assoc e total before)

  months_settled :
      (months : List (MonthlyBill W)) (credits : List W) (rollover applied : W)
      → length months ≡ length credits
      → f.nought ≼ rollover
      → IsCharged months
      → (y : Rollover W) × (rollover_months rollover applied months credits ≡ ok y)
        × (map (λ m. m.month) y.netted ≡ map (λ m. m.month) months)
        × (y.annual_credit_applied ⊕ y.rollover ≡ applied ⊕ (rollover ⊕ sum credits))
        × (sum (energies y.netted) ⊕ y.annual_credit_applied ≡ sum (energies months) ⊕ applied)
        × IsCharged y.netted
        × (f.nought ≼ y.rollover)
  unfolding rollover_months sum_from
  months_settled [] [] rollover applied n pos charged = (
    record { netted = []; rollover = rollover; annual_credit_applied = applied },
    refl,
    refl,
    sym (ap (λ x. applied ⊕ x) (r.add_nought rollover)),
    refl,
    tt,
    pos,
  )
  months_settled [] (credit ∷ credits) rollover applied n pos charged = absurd (omega (arith, n))
  months_settled (m ∷ months) [] rollover applied n pos charged = absurd (omega (arith, n))
  months_settled (m ∷ months) (credit ∷ credits) rollover applied n pos charged =
      let available = rollover ⊕ credit in
      let a = applied_of m available in
      let (y, e, same, kept, netted, rest, unused) =
        months_settled months credits (rollover_of m available) (applied ⊕ a) (omega (arith, n))
          (rollover_nonneg m available) charged.1 in
      (
        record y { netted = net_month m a ∷ y.netted },
        rw e refl,
        ap (λ xs. m.month ∷ xs) same,
        kept
            ∙ r.add_assoc applied a (rollover_of m available ⊕ sum credits)
            ∙ ap (λ x. applied ⊕ x)
                (credit_step m rollover credit (sum credits)
                  ∙ ap (λ x. rollover ⊕ x) (sym (sum-cons r credit credits))),
        ap (λ x. x ⊕ y.annual_credit_applied) (sum-cons r (m.energy_charge ⊖ a) (energies y.netted))
            ∙ energy_step m.energy_charge a (sum (energies y.netted)) (sum (energies months))
                applied y.annual_credit_applied netted
            ∙ ap (λ x. x ⊕ applied) (sym (sum-cons r m.energy_charge (energies months))),
        (Laws.sub_nonneg r m.energy_charge a (applied-le m available charged.0), rest),
        unused,
      )

  -- In exact arithmetic a rollover over as many credits as there are months, whose energy charges
  -- are not below zero, succeeds. The credits of the year, whatever their signs, are those applied
  -- and those unused at its end, what is applied is what the energy charges lose, the months keep
  -- their numbers, and no charge and no unused credit is below zero.
  pub run_monthly_rollover_lem :
      (bill : AnnualBill W) (credits : List W)
      → length bill.monthly ≡ length credits
      → IsCharged bill.monthly
      → (s : Settled W) × (run_monthly_rollover bill credits ≡ ok s)
        × IsSettled bill.monthly s.bill.monthly
            (sum credits)
            s.annual_credit_applied
            s.annual_credit_unused
  unfolding run_monthly_rollover
  run_monthly_rollover_lem bill credits n charged =
      let (y, e, same, kept, netted, positive, unused) =
        months_settled bill.monthly credits f.nought f.nought n (r.order.le_refl f.nought)
          charged in
      (
        record {
          bill = netted_bill bill y.netted;
          annual_credit_applied = y.annual_credit_applied;
          annual_credit_unused = y.rollover;
        },
        rw e refl,
        record {
          same_months = same;
          credit_kept = kept ∙ Laws.nought_add r _ ∙ Laws.nought_add r (sum credits);
          energy_netted = netted ∙ r.add_nought _;
          charged = positive;
          unused_nonneg = unused;
        },
      )

  flat_months_charged :
      (credit annual : W) (months : List (MonthlyBill W))
      → IsCharged (map (λ m. net_month m (flat_share credit annual m)) months)
  flat_months_charged credit annual [] = tt
  flat_months_charged credit annual (m ∷ months) = (
    Laws.sub_nonneg r m.energy_charge (flat_share credit annual m)
        (Laws.min-le_right r.order _ m.energy_charge),
    flat_months_charged credit annual months,
  )

  flat_months_netted :
      (share : MonthlyBill W → W) (months : List (MonthlyBill W))
      → sum (energies (map (λ m. net_month m (share m)) months)) ⊕ sum (map share months)
        ≡ sum (energies months)
  unfolding sum_from
  flat_months_netted share [] = r.add_nought _
  flat_months_netted share (m ∷ months) =
      let netted = energies (map (λ m. net_month m (share m)) months) in
      ap (λ x. x ⊕ sum (map share (m ∷ months))) (sum-cons r (m.energy_charge ⊖ share m) netted)
      ∙ ap (λ x. m.energy_charge ⊖ share m ⊕ sum netted ⊕ x)
          (sum-cons r (share m) (map share months) ∙ r.add_comm (share m) (sum (map share months)))
      ∙ r.add_assoc (m.energy_charge ⊖ share m) (sum netted) (sum (map share months) ⊕ share m)
      ∙ ap (λ x. m.energy_charge ⊖ share m ⊕ x)
          (sym (r.add_assoc (sum netted) (sum (map share months)) (share m))
            ∙ ap (λ x. x ⊕ share m) (flat_months_netted share months))
      ∙ take_off m.energy_charge (share m) (sum (energies months))
      ∙ sym (sum-cons r m.energy_charge (energies months))

  -- In exact arithmetic a flat credit, of either sign, is spread over months whose energy charges
  -- are not below zero: what is applied is what the energy charges lose, and no charge and no
  -- payout is below zero.
  pub seg_flat_settlement_lem :
      (bill : AnnualBill W) (credit : ExportCreditResult W)
      → IsCharged bill.monthly
      → (sum (energies (seg_flat_settlement bill credit).bill.monthly)
            ⊕ (seg_flat_settlement bill credit).annual_credit_applied
          ≡ sum (energies bill.monthly))
        × IsCharged (seg_flat_settlement bill credit).bill.monthly
        × (f.nought ≼ (seg_flat_settlement bill credit).annual_credit_unused)
  unfolding seg_flat_settlement
  seg_flat_settlement_lem bill credit charged =
      elim (Bool-cases (f.le bill.annual_energy_charge f.nought)) [
        | inl no_energy ↦
            rw no_energy (r.add_nought _, charged, Laws.max-ge_left r.order f.nought _)
        | inr energy ↦ rw energy (
          flat_months_netted (λ m. flat_share credit.annual_credit bill.annual_energy_charge m)
              bill.monthly,
          flat_months_charged credit.annual_credit bill.annual_energy_charge bill.monthly,
          Laws.max-ge_left r.order f.nought _,
        )
      ]
