-- ===== src/Export/Netting.antt =====
-- Net metering by tiers: a month's exports never cost.
use chart_solar.Prelude.{
  ℕ, zero, suc, ◌≤◌, ◌≡◌, refl, sym, ◌∙◌, inl, inr, true, some, List, [], ◌∷◌, All, length, ok,
  arith, Bool-cases, Option-cases, ◌==◌,
}
use mathlib.Core.Path.{subst}
use chart_solar.Number.{Float, IsExact, ◌⊖◌, ◌⊗◌, ◌≼◌, min_of, max_of, sum}
use chart_solar.Number.Laws
use chart_solar.Number.Monthly.{repeated, add_at, length-repeated, length-add_at}
use chart_solar.Tariff.Schedule.{TieredBlock, TariffSchedule, tiered}
use chart_solar.Tariff.Tiers.{
  before, insert_block, sorted_from, sort_tiered_blocks, band, charge_above, walk_tier_charge,
}
use chart_solar.Tariff.Walk.{walk_tier_charge_lem}
use chart_solar.Calendar.{Datetime, hours_per_tmy, tmy_hour_calendar, length-tmy_hour_calendar}
use chart_solar.Tariff.{Cell}
use chart_solar.Tariff.Billing.{month_idx}
use chart_solar.Export.{ExportCreditResult, nem_one_for_one}
use chart_solar.Export.Nem.{
  Flows, flow, flow_hours, month_credit, month_credits, kwh_credited, apply_nem_one_for_one_tiered,
}

module _ {W : Type 0} ⦃f : Float W⦄ where
  abbrev pub IsNonneg : List W → Type 0
  IsNonneg xs = All (λ x. f.nought ≼ x) xs

  -- no rate is below zero
  abbrev pub IsPriced : List (TieredBlock W) → Type 0
  IsPriced blocks = All (λ b. f.nought ≼ b.rate_per_kwh) blocks

  insert_block-IsPriced :
      (b : TieredBlock W) (done : List (TieredBlock W))
      → f.nought ≼ b.rate_per_kwh
      → IsPriced done
      → IsPriced (insert_block b done)
  unfolding insert_block
  insert_block-IsPriced b [] h k = (h, tt)
  insert_block-IsPriced b (a ∷ done) h k = elim (Bool-cases (before b a)) [
    | inl first ↦ rw (insert_block, first) (h, k)
    | inr later ↦ rw (insert_block, later) (k.0, insert_block-IsPriced b done h k.1)
  ]

  pub sorted_from-IsPriced :
      (done blocks : List (TieredBlock W))
      → IsPriced done
      → IsPriced blocks
      → IsPriced (sorted_from done blocks)
  unfolding sorted_from
  sorted_from-IsPriced done [] h k = h
  sorted_from-IsPriced done (b ∷ blocks) h k =
      sorted_from-IsPriced (insert_block b done) blocks (insert_block-IsPriced b done k.0 h) k.1

module _ {W : Type 0} ⦃f : Float W⦄ (r : IsExact W) where
  sub_mono : (a b c : W) → a ≼ b → a ⊖ c ≼ b ⊖ c
  sub_mono a b c h = Laws.le_sub_of_add r b c (a ⊖ c) (subst (λ x. x ≼ b) (sym (r.sub_add a c)) h)

  max_mono : (a b c : W) → a ≼ b → max_of c a ≼ max_of c b
  max_mono a b c h =
      Laws.max-le r.order c a (max_of c b) (Laws.max-ge_left r.order c b)
        (r.order.le_trans a b (max_of c b) h (Laws.max-ge_right r.order c b))

  min_mono : (a b c : W) → a ≼ b → min_of a c ≼ min_of b c
  min_mono a b c h =
      Laws.le-min r.order b c (min_of a c)
        (r.order.le_trans (min_of a c) a b (Laws.min-le_left r.order a c) h)
        (Laws.min-le_right r.order a c)

  band_mono : (a b low high : W) → a ≼ b → band a low high ≼ band b low high
  band_mono a b low high h =
      max_mono (min_of a high ⊖ low) (min_of b high ⊖ low) f.nought
        (sub_mono (min_of a high) (min_of b high) low (min_mono a b high h))

  charge_above_mono :
      (a b low : W) (blocks : List (TieredBlock W))
      → a ≼ b
      → IsPriced blocks
      → charge_above a low blocks ≼ charge_above b low blocks
  unfolding charge_above
  charge_above_mono a b low [] h k = r.order.le_refl f.nought
  charge_above_mono a b low (c ∷ blocks) h k = elim (Option-cases c.up_to_kwh_per_month) [
    | inl e ↦
        rw (charge_above, e)
          (r.mul_le (max_of f.nought (a ⊖ low)) (max_of f.nought (b ⊖ low)) c.rate_per_kwh k.0
            (max_mono (a ⊖ low) (b ⊖ low) f.nought (sub_mono a b low h)))
    | inr (t, e) ↦
        rw (charge_above, e)
          (Laws.add_mono r (band a low t ⊗ c.rate_per_kwh) (band b low t ⊗ c.rate_per_kwh)
            (charge_above a (max_of low t) blocks) (charge_above b (max_of low t) blocks)
            (r.mul_le (band a low t) (band b low t) c.rate_per_kwh k.0 (band_mono a b low t h))
            (charge_above_mono a b (max_of low t) blocks h k.1))
  ]

  -- more kWh never cost less
  pub walk_tier_charge_mono :
      (a b : W) (blocks : List (TieredBlock W))
      → a ≼ b
      → IsPriced blocks
      → walk_tier_charge a blocks ≼ walk_tier_charge b blocks
  walk_tier_charge_mono a b blocks h k =
      rw (walk_tier_charge_lem r a blocks, walk_tier_charge_lem r b blocks)
        (charge_above_mono a b f.nought blocks h k)

  month_credit_nonneg :
      (blocks : List (TieredBlock W)) (imports exports : W)
      → IsPriced blocks
      → f.nought ≼ imports
      → f.nought ≼ exports
      → f.nought ≼ month_credit blocks imports exports
  unfolding month_credit
  month_credit_nonneg blocks imports exports k i e =
      let netted = max_of f.nought (imports ⊖ exports) in
      Laws.sub_nonneg r (walk_tier_charge imports blocks) (walk_tier_charge netted blocks) (
        walk_tier_charge_mono netted imports blocks
          (Laws.max-le r.order f.nought (imports ⊖ exports) imports i
            (Laws.sub_le r imports exports e))
          k)

  month_credits_nonneg :
      (blocks : List (TieredBlock W)) (imports exports : List W)
      → IsPriced blocks
      → IsNonneg imports
      → IsNonneg exports
      → IsNonneg (month_credits blocks imports exports)
  unfolding month_credits
  month_credits_nonneg blocks [] exports k i e = tt
  month_credits_nonneg blocks (x ∷ imports) [] k i e = tt
  month_credits_nonneg blocks (x ∷ imports) (y ∷ exports) k i e = (
    month_credit_nonneg blocks x y k i.0 e.0,
    month_credits_nonneg blocks imports exports k i.1 e.1,
  )

  length-month_credits :
      (blocks : List (TieredBlock W)) (imports exports : List W)
      → length imports ≡ length exports
      → length (month_credits blocks imports exports) ≡ length imports
  unfolding month_credits
  length-month_credits blocks [] [] h = refl
  length-month_credits blocks [] (y ∷ exports) h = refl
  length-month_credits blocks (x ∷ imports) [] h = absurd (omega (arith, h))
  length-month_credits blocks (x ∷ imports) (y ∷ exports) h =
      omega (arith, length-month_credits blocks imports exports (omega (arith, h)))

  repeated-IsNonneg : (n : ℕ) → IsNonneg (repeated n f.nought)
  unfolding repeated
  repeated-IsNonneg zero = tt
  repeated-IsNonneg (suc n) = (r.order.le_refl f.nought, repeated-IsNonneg n)

  add_at-IsNonneg :
      (i : ℕ) (x : W) (xs : List W) → f.nought ≼ x → IsNonneg xs → IsNonneg (add_at i x xs)
  unfolding add_at
  add_at-IsNonneg i x [] h k = tt
  add_at-IsNonneg zero x (y ∷ xs) h k = (Laws.add_nonneg r y x k.0 h, k.1)
  add_at-IsNonneg (suc i) x (y ∷ xs) h k = (k.0, add_at-IsNonneg i x xs h k.1)

  -- imports and exports of twelve months, none below zero
  record IsFlows (m : Flows W) : Type 0 where
    imports : IsNonneg m.imports
    exports : IsNonneg m.exports
    import_months : length m.imports ≡ 12
    export_months : length m.exports ≡ 12

  flow-IsFlows : (c : Cell) (net : W) (m : Flows W) → IsFlows m → IsFlows (flow c net m)
  flow-IsFlows c net m h = elim (Bool-cases (f.lt f.nought net)) [
    | inl imported ↦ rw imported (record {
      imports =
          add_at-IsNonneg (month_idx c) net m.imports (Laws.lt_le r.order f.nought net imported)
            h.imports;
      exports = h.exports;
      import_months = length-add_at (month_idx c) net m.imports ∙ h.import_months;
      export_months = h.export_months;
    })
    | inr not_imported ↦ elim (Bool-cases (f.lt net f.nought)) [
      | inl exported ↦
          rw (not_imported, exported)
            (record {
              imports = h.imports;
              exports =
                  add_at-IsNonneg (month_idx c) (f.neg net) m.exports
                    (rw (r.neg_sub net)
                      (Laws.sub_nonneg r f.nought net (Laws.lt_le r.order net f.nought exported)))
                    h.exports;
              import_months = h.import_months;
              export_months = length-add_at (month_idx c) (f.neg net) m.exports ∙ h.export_months;
            })
      | inr neither ↦ rw (not_imported, neither) h
    ]
  ]

  flow_hours-IsFlows :
      (nets : List W) (cells : List Cell) (m : Flows W)
      → length nets ≤ length cells
      → IsFlows m
      → (m' : Flows W) × (flow_hours nets cells m ≡ ok m') × IsFlows m'
  unfolding flow_hours
  flow_hours-IsFlows [] cells m len h = (m, refl, h)
  flow_hours-IsFlows (net ∷ nets) [] m len h = absurd (omega (arith, len))
  flow_hours-IsFlows (net ∷ nets) (c ∷ cells) m len h =
      flow_hours-IsFlows nets cells (flow c net m) (omega (arith, len)) (flow-IsFlows c net m h)

  same_length : (a b : ℕ) → a ≡ b → (a == b) ≡ true
  same_length a b h = ground (arith, h)

  -- In exact arithmetic, under a tariff by tiers with at least one block and no rate below zero,
  -- net metering credits every year of 8760 loads, in twelve months, and no month's credit is
  -- below zero.
  pub tiered_credits_nonneg :
      (dt : Datetime) (loads : List W) (t : TariffSchedule W) (b : TieredBlock W)
      (blocks : List (TieredBlock W))
      → length loads ≡ hours_per_tmy
      → t.structure ≡ tiered
      → t.tiered_blocks ≡ some (b ∷ blocks)
      → IsPriced (b ∷ blocks)
      → (c : ExportCreditResult W) × (apply_nem_one_for_one_tiered dt loads t ≡ ok c)
        × (length c.monthly_credit ≡ 12)
        × IsNonneg c.monthly_credit
  unfolding apply_nem_one_for_one_tiered sort_tiered_blocks
  tiered_credits_nonneg dt loads t b blocks year by_tiers e priced =
      let (m, filled, flows) =
        flow_hours-IsFlows loads (tmy_hour_calendar dt)
          (record { imports = repeated 12 f.nought; exports = repeated 12 f.nought })
          (omega (arith, year, length-tmy_hour_calendar dt))
          (record {
            imports = repeated-IsNonneg 12;
            exports = repeated-IsNonneg 12;
            import_months = length-repeated 12 f.nought;
            export_months = length-repeated 12 f.nought;
          }) in
      let sorted_blocks = sorted_from [] (b ∷ blocks) in
      (
        record {
          regime = nem_one_for_one;
          monthly_credit = month_credits sorted_blocks m.imports m.exports;
          annual_credit = sum (month_credits sorted_blocks m.imports m.exports);
          annual_kwh_exported = sum (kwh_credited m.imports m.exports);
        },
        rw (same_length (length loads) hours_per_tmy year, by_tiers, e, filled) refl,
        length-month_credits sorted_blocks m.imports m.exports
              (flows.import_months ∙ sym flows.export_months)
            ∙ flows.import_months,
        month_credits_nonneg sorted_blocks m.imports m.exports
            (sorted_from-IsPriced [] (b ∷ blocks) tt priced) flows.imports flows.exports,
      )
