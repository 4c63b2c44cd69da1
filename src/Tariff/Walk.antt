-- ===== src/Tariff/Walk.antt =====
-- backend/engine/steps/tariff.py: the walk over the tiers against the charge of each band.
use mathlib.Core.Path.{subst}
use chart_solar.Prelude.{
  ◌≡◌, refl, sym, ap, ◌∙◌, false, List, [], ◌∷◌, arith, Bool-cases, Option-cases, inl, inr,
}
use chart_solar.Number.{Float, IsExact, ◌⊕◌, ◌⊖◌, ◌⊗◌, ◌≼◌, min_of, max_of}
use chart_solar.Number.Laws
use chart_solar.Tariff.Schedule.{TieredBlock}
use chart_solar.Tariff.Tiers.{walk_blocks, walk_tier_charge, band, charge_above}

module _ {W : Type 0} ⦃f : Float W⦄ (r : IsExact W) where
  band_empty : (total low high : W) → min_of total high ≼ low → band total low high ≡ f.nought
  band_empty total low high h =
      Laws.max-eq_left r.order f.nought (min_of total high ⊖ low)
        (Laws.sub_nonpos r (min_of total high) low h)

  -- nothing lies above the total
  charge_beyond :
      (total low : W) (blocks : List (TieredBlock W))
      → total ≼ low
      → charge_above total low blocks ≡ f.nought
  unfolding charge_above
  charge_beyond total low [] h = refl
  charge_beyond total low (b ∷ blocks) h = elim (Option-cases b.up_to_kwh_per_month) [
    | inl e ↦
        rw (e, Laws.max-eq_left r.order f.nought (total ⊖ low) (Laws.sub_nonpos r total low h))
          (Laws.nought_mul r b.rate_per_kwh)
    | inr (t, e) ↦
        let le = r.order.le_trans (min_of total t) total low (Laws.min-le_left r.order total t) h in
        let further =
          r.order.le_trans total low (max_of low t) h (Laws.max-ge_left r.order low t) in
        rw
          (
            e,
            band_empty total low t le,
            Laws.nought_mul r b.rate_per_kwh,
            charge_beyond total (max_of low t) blocks further,
          )
          (r.add_nought f.nought)
  ]

  -- no kWh remain
  walk_done :
      (blocks : List (TieredBlock W)) (cursor charge : W)
      → walk_blocks blocks cursor f.nought charge ≡ charge
  unfolding walk_blocks
  walk_done [] cursor charge = refl
  walk_done (b ∷ blocks) cursor charge = rw (walk_blocks, r.order.le_refl f.nought) refl

  -- the threshold lies at or before the cursor
  band_behind :
      (total cursor t rate rest : W) → t ≼ cursor → band total cursor t ⊗ rate ⊕ rest ≡ rest
  band_behind total cursor t rate rest h =
      let le = r.order.le_trans (min_of total t) t cursor (Laws.min-le_right r.order total t) h in
      rw (band_empty total cursor t le, Laws.nought_mul r rate) (Laws.nought_add r rest)

  -- the last kWh lie before the threshold
  band_last :
      (cursor remaining t : W)
      → f.nought ≼ remaining
      → cursor ⊕ remaining ≼ t
      → band (cursor ⊕ remaining) cursor t ≡ remaining
  band_last cursor remaining t pos h =
      rw
        (
          Laws.min-eq_left r.order (cursor ⊕ remaining) t h,
          r.add_comm cursor remaining,
          r.add_sub remaining cursor,
        )
        (Laws.max-eq_right r.order f.nought remaining pos)

  -- the band is full
  band_full : (total cursor t : W) → t ≼ total → cursor ≼ t → band total cursor t ≡ t ⊖ cursor
  band_full total cursor t h k =
      rw (Laws.min-eq_right r.order total t h)
        (Laws.max-eq_right r.order f.nought (t ⊖ cursor) (Laws.sub_nonneg r t cursor k))

  -- one step of the walk, in the amounts that it leaves
  step_total :
      (cursor remaining t : W)
      → cursor ⊕ (t ⊖ cursor) ⊕ (remaining ⊖ (t ⊖ cursor)) ≡ cursor ⊕ remaining
  step_total cursor remaining t =
      r.add_assoc cursor (t ⊖ cursor) (remaining ⊖ (t ⊖ cursor))
      ∙ ap (λ x. cursor ⊕ x) (Laws.add_sub_left r (t ⊖ cursor) remaining)

  next_total :
      (cursor remaining t : W) (blocks : List (TieredBlock W))
      → charge_above
          (cursor ⊕ (t ⊖ cursor) ⊕ (remaining ⊖ (t ⊖ cursor)))
          (cursor ⊕ (t ⊖ cursor))
          blocks
        ≡ charge_above (cursor ⊕ remaining) t blocks
  next_total cursor remaining t blocks =
      ap (λ x. charge_above x (cursor ⊕ (t ⊖ cursor)) blocks) (step_total cursor remaining t)
      ∙ ap (λ x. charge_above (cursor ⊕ remaining) x blocks) (Laws.add_sub_left r cursor t)

  rest_of_total : (cursor remaining : W) → cursor ⊕ remaining ⊖ cursor ≡ remaining
  rest_of_total cursor remaining = rw (r.add_comm cursor remaining) (r.add_sub remaining cursor)

  within : (cursor remaining t : W) → remaining ≼ t ⊖ cursor → cursor ⊕ remaining ≼ t
  within cursor remaining t h =
      subst (λ x. cursor ⊕ remaining ≼ x) (Laws.add_sub_left r cursor t)
        (Laws.add_le_left r remaining (t ⊖ cursor) cursor h)

  past : (cursor remaining t : W) → f.le remaining (t ⊖ cursor) ≡ false → t ≼ cursor ⊕ remaining
  past cursor remaining t h =
      subst (λ x. x ≼ cursor ⊕ remaining) (Laws.add_sub_left r cursor t)
        (Laws.add_le_left r (t ⊖ cursor) remaining cursor
          (Laws.not-le r.order remaining (t ⊖ cursor) h))

  some_left : (a d : W) → f.le a d ≡ false → f.le (a ⊖ d) f.nought ≡ false
  some_left a d h = elim (Bool-cases (f.le (a ⊖ d) f.nought)) [
    | inl le ↦ absurd (
        ground (
          arith,
          h,
          subst (λ x. a ≼ x) (Laws.nought_add r d) (Laws.le_add_of_sub r a d f.nought le),
        ))
    | inr gt ↦ gt
  ]

  walked :
      (blocks : List (TieredBlock W)) (cursor remaining charge : W)
      → f.le remaining f.nought ≡ false
      → walk_blocks blocks cursor remaining charge
        ≡ charge ⊕ charge_above (cursor ⊕ remaining) cursor blocks
  unfolding walk_blocks charge_above
  walked [] cursor remaining charge left = sym (r.add_nought charge)
  walked (b ∷ blocks) cursor remaining charge left =
      let pos = Laws.not-le r.order remaining f.nought left in
      elim (Option-cases b.up_to_kwh_per_month) [
        | inl e ↦
            rw
              (
                walk_blocks,
                charge_above,
                left,
                e,
                rest_of_total cursor remaining,
                Laws.max-eq_right r.order f.nought remaining pos,
              )
              refl
        | inr (t, e) ↦ elim (Bool-cases (f.le t cursor)) [
          | inl behind ↦
              rw
                (
                  walk_blocks,
                  charge_above,
                  left,
                  e,
                  behind,
                  Laws.max-eq_left r.order cursor t behind,
                )
                (walked blocks cursor remaining charge left
                  ∙ ap (λ x. charge ⊕ x)
                      (sym (band_behind (cursor ⊕ remaining) cursor t b.rate_per_kwh _ behind)))
          | inr ahead ↦ elim (Bool-cases (f.le remaining (t ⊖ cursor))) [
            | inl last ↦
                let reach = within cursor remaining t last in
                rw
                  (
                    walk_blocks,
                    charge_above,
                    left,
                    e,
                    ahead,
                    Laws.min-eq_left r.order remaining (t ⊖ cursor) last,
                    Laws.sub_self r remaining,
                    walk_done blocks (cursor ⊕ remaining) (charge ⊕ remaining ⊗ b.rate_per_kwh),
                    band_last cursor remaining t pos reach,
                    charge_beyond (cursor ⊕ remaining) (max_of cursor t) blocks (
                        r.order.le_trans (cursor ⊕ remaining) t (max_of cursor t) reach
                          (Laws.max-ge_right r.order cursor t)),
                  )
                  (sym (ap (λ x. charge ⊕ x) (r.add_nought (remaining ⊗ b.rate_per_kwh))))
            | inr full ↦
                let below = Laws.not-le r.order t cursor ahead in
                let d = t ⊖ cursor in
                rw
                  (
                    walk_blocks,
                    charge_above,
                    left,
                    e,
                    ahead,
                    Laws.min-eq_right r.order remaining d (Laws.not-le r.order remaining d full),
                    band_full (cursor ⊕ remaining) cursor t (past cursor remaining t full) below,
                    Laws.max-eq_right r.order cursor t below,
                    walked blocks (cursor ⊕ d) (remaining ⊖ d) (charge ⊕ d ⊗ b.rate_per_kwh)
                        (some_left remaining d full),
                  )
                  (ap (λ x. charge ⊕ d ⊗ b.rate_per_kwh ⊕ x) (next_total cursor remaining t blocks)
                    ∙ r.add_assoc charge (d ⊗ b.rate_per_kwh) _)
          ]
        ]
      ]

  -- In exact arithmetic the walk over any blocks, sorted or not, charges a month's kWh the sum,
  -- over the blocks, of what of it lies in the block's band, at the block's rate.
  pub walk_tier_charge_lem :
      (monthly_kwh : W) (blocks : List (TieredBlock W))
      → walk_tier_charge monthly_kwh blocks ≡ charge_above monthly_kwh f.nought blocks
  unfolding walk_tier_charge
  walk_tier_charge_lem kwh blocks = elim (Bool-cases (f.le kwh f.nought)) [
    | inl none_used ↦ rw (none_used, charge_beyond kwh f.nought blocks none_used) refl
    | inr used ↦ rw used (
        walked blocks f.nought kwh f.nought used
        ∙ Laws.nought_add r _
        ∙ ap (λ x. charge_above x f.nought blocks) (Laws.nought_add r kwh))
  ]
