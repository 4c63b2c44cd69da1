-- ===== src/Tariff/Schedule.antt =====
-- backend/domain/tariff.py: a tariff, and what its validation lets pass.
use chart_solar.Prelude.{
  Option-cases, arith, ◌⊎◌, inl, inr, refl, String, ◌≡◌, Option, none, some, List, [], ◌∷◌, Bool,
  true, false, not,
}
use chart_solar.Tariff.{TouPeriod}

pub data Currency : Type 0 where
  usd gbp eur : Currency

pub data Structure : Type 0 where
  flat tiered tou : Structure

pub record TieredBlock (W : Type 0) : Type 0 where
  pub rate_per_kwh : W
  pub up_to_kwh_per_month : Option W

pub record TariffSchedule (W : Type 0) : Type 0 where
  pub name : String
  pub utility : String
  pub country : String
  pub currency : Currency
  pub structure : Structure
  pub fixed_monthly_charge : W
  pub flat_rate_per_kwh : Option W
  pub tiered_blocks : Option (List (TieredBlock W))
  pub tou_periods : Option (List (TouPeriod W))

-- `not xs`
abbrev pub is_missing {ℓ} : {A : Type ℓ} → Option (List A) → Bool
is_missing none = true
is_missing (some []) = true
is_missing (some (_ ∷ _)) = false

-- `_structure_consistency`
unfoldable pub structure_is_consistent : {W : Type 0} → TariffSchedule W → Bool
structure_is_consistent t = elim t.structure [
  | flat ↦ elim t.flat_rate_per_kwh [ none ↦ false | some _ ↦ true ]
  | tiered ↦ not (is_missing t.tiered_blocks)
  | tou ↦ not (is_missing t.tou_periods)
]

pub Structure-cases : (s : Structure) → (s ≡ flat) ⊎ ((s ≡ tiered) ⊎ (s ≡ tou))
Structure-cases flat = inl refl
Structure-cases tiered = inr (inl refl)
Structure-cases tou = inr (inr refl)

-- what the validation says of each structure
module _ {W : Type 0} (t : TariffSchedule W) (h : structure_is_consistent t ≡ true) where
  pub flat_given : t.structure ≡ flat → (rate : W) × (t.flat_rate_per_kwh ≡ some rate)
  unfolding structure_is_consistent
  flat_given e = elim (Option-cases t.flat_rate_per_kwh) [
    | inl none_given ↦ absurd (ground (arith, h, e, none_given))
    | inr given ↦ given
  ]

  pub tiered_given : t.structure ≡ tiered → is_missing t.tiered_blocks ≡ false
  unfolding structure_is_consistent
  tiered_given e = ground (arith, h, e)

  pub tou_given : t.structure ≡ tou → is_missing t.tou_periods ≡ false
  unfolding structure_is_consistent
  tou_given e = ground (arith, h, e)
