-- ===== src/Degradation.antt =====
-- backend/engine/steps/degradation.py: the yield of each year as a factor of the first's.
pub mod Curve
mod Tests
use chart_solar.Prelude.{
  ℕ, zero, suc, ◌+◌, Bool, true, false, not, ◌&&◌, Option, none, some, List, [], ◌∷◌, map, Result,
  ok, err, ◌==◌, if◌then◌else◌,
}
use chart_solar.Number.{Float, ◌⊖◌, ◌⊗◌, max_of, power}

pub data DegradationModel : Type 0 where
  linear geometric : DegradationModel

pub data DegradationError : Type 0 where
  no_years first_year_loss_out_of_range annual_loss_out_of_range : DegradationError
  negative_energy : DegradationError

pub record DegradationCurve (W : Type 0) : Type 0 where
  pub model : DegradationModel
  pub first_year_loss : W
  pub annual_loss : W
  pub years : ℕ
  pub factors : List W

module _ {W : Type 0} ⦃f : Float W⦄ where
  -- `not 0.0 <= x < 1.0`
  abbrev pub is_fraction : W → Bool
  is_fraction x = f.le f.nought x && f.lt x f.one

  -- the factor of year `t`, the first being 0
  unfoldable pub factor_of : DegradationModel → W → W → ℕ → W
  unfolding power
  factor_of linear year_one_factor annual_loss t =
      max_of f.nought (year_one_factor ⊖ annual_loss ⊗ f.of_nat t)
  factor_of geometric year_one_factor annual_loss t =
      max_of f.nought (year_one_factor ⊗ power (f.one ⊖ annual_loss) t)

  -- the factors of `n` years, from year `t`
  unfoldable pub factors_from : DegradationModel → W → W → ℕ → ℕ → List W
  unfolding factor_of
  factors_from model year_one_factor annual_loss t zero = []
  factors_from model year_one_factor annual_loss t (suc n) =
      factor_of model year_one_factor annual_loss t
      ∷ factors_from model year_one_factor annual_loss (t + 1) n

  unfoldable pub degradation_factors :
      ℕ → W → W → DegradationModel → Result DegradationError (DegradationCurve W)
  unfolding factors_from
  degradation_factors years first_year_loss annual_loss model =
      if years == 0
      then err no_years
      else if not (is_fraction first_year_loss)
      then err first_year_loss_out_of_range
      else if not (is_fraction annual_loss)
      then err annual_loss_out_of_range
      else ok (record {
        model = model;
        first_year_loss = first_year_loss;
        annual_loss = annual_loss;
        years = years;
        factors = factors_from model (f.one ⊖ first_year_loss) annual_loss 0 years;
      })

  unfoldable pub apply_degradation : W → DegradationCurve W → Result DegradationError (List W)
  apply_degradation year_one_kwh curve =
      if f.lt year_one_kwh f.nought
      then err negative_energy
      else ok (map (λ x. year_one_kwh ⊗ x) curve.factors)

  -- `xs[-1]`, of a list that is not empty
  abbrev pub last_of : W → List W → W
  last_of x [] = x
  last_of x (y ∷ ys) = last_of y ys

  abbrev pub warranty_endpoint : DegradationCurve W → Option W
  warranty_endpoint curve = elim curve.factors [ [] ↦ none | x ∷ xs ↦ some (last_of x xs) ]
