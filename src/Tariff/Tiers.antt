-- ===== src/Tariff/Tiers.antt =====
-- backend/engine/steps/tariff.py: the walk over the blocks of a stepped rate, against the charge of
-- each block by itself.
use chart_solar.Prelude.{
  Bool, true, false, none, some, List, [], ◌∷◌, Result, ok, err, if◌then◌else◌,
}
use chart_solar.Number.{Float, ◌⊕◌, ◌⊖◌, ◌⊗◌, min_of, max_of}
use chart_solar.Tariff.{TariffError, blocks_required}
use chart_solar.Tariff.Schedule.{TieredBlock, TariffSchedule}

module _ {W : Type 0} ⦃f : Float W⦄ where
  -- the key of the sort, `none` being infinite: whether `b` goes before `a`
  abbrev pub before : TieredBlock W → TieredBlock W → Bool
  before b a = elim b.up_to_kwh_per_month [
    | none ↦ false
    | some t ↦ elim a.up_to_kwh_per_month [ none ↦ true | some u ↦ f.lt t u ]
  ]

  -- `sorted` is stable: a block goes behind those of the same key.
  unfoldable pub insert_block : TieredBlock W → List (TieredBlock W) → List (TieredBlock W)
  insert_block b [] = b ∷ []
  insert_block b (a ∷ rest) =
      let later = insert_block b rest in if before b a then b ∷ a ∷ rest else a ∷ later

  unfoldable pub sorted_from : List (TieredBlock W) → List (TieredBlock W) → List (TieredBlock W)
  unfolding insert_block
  sorted_from done [] = done
  sorted_from done (b ∷ blocks) = sorted_from (insert_block b done) blocks

  unfoldable pub sort_tiered_blocks : TariffSchedule W → Result TariffError (List (TieredBlock W))
  unfolding sorted_from
  sort_tiered_blocks t = elim t.tiered_blocks [
    | none ↦ err blocks_required
    | some [] ↦ err blocks_required
    | some (b ∷ blocks) ↦ ok (sorted_from [] (b ∷ blocks))
  ]

  -- the loop, with its three variables
  unfoldable pub walk_blocks : List (TieredBlock W) → W → W → W → W
  walk_blocks [] cursor remaining charge = charge
  walk_blocks (b ∷ blocks) cursor remaining charge = elim (f.le remaining f.nought) [
    | true ↦ charge
    | false ↦ elim b.up_to_kwh_per_month [
      | none ↦ charge ⊕ remaining ⊗ b.rate_per_kwh
      | some threshold ↦ elim (f.le threshold cursor) [
        | true ↦ walk_blocks blocks cursor remaining charge
        | false ↦
            let portion = min_of remaining (threshold ⊖ cursor) in
            walk_blocks blocks (cursor ⊕ portion) (remaining ⊖ portion)
              (charge ⊕ portion ⊗ b.rate_per_kwh)
      ]
    ]
  ]

  unfoldable pub walk_tier_charge : W → List (TieredBlock W) → W
  unfolding walk_blocks
  walk_tier_charge monthly_kwh blocks =
      if f.le monthly_kwh f.nought
      then f.nought
      else walk_blocks blocks f.nought monthly_kwh f.nought

  -- The reference: what of `total` lies between `low` and `high`, and the sum of the bands' charges.
  abbrev pub band : W → W → W → W
  band total low high = max_of f.nought (min_of total high ⊖ low)

  unfoldable pub charge_above : W → W → List (TieredBlock W) → W
  charge_above total low [] = f.nought
  charge_above total low (b ∷ blocks) = elim b.up_to_kwh_per_month [
    | none ↦ max_of f.nought (total ⊖ low) ⊗ b.rate_per_kwh
    | some threshold ↦
        band total low threshold ⊗ b.rate_per_kwh ⊕ charge_above total (max_of low threshold) blocks
  ]
