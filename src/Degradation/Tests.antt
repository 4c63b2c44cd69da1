-- ===== src/Degradation/Tests.antt =====
-- A curve of losses of zero, and one that reaches zero.
use chart_solar.Prelude.{◌≡◌, refl, [], ◌∷◌, All, length, ok, err}
use chart_solar.Number.{◌≼◌}
use chart_solar.Number.Whole.{ℤ, pos, whole, whole-IsExact}
use chart_solar.Degradation.{
  DegradationCurve, linear, geometric, degradation_factors, factors_from, factor_of,
  annual_loss_out_of_range,
}
use chart_solar.Degradation.Curve.{IsFalling, degradation_factors_lem}

degradation_factors_lem_test :
    (c : DegradationCurve ℤ) × (degradation_factors 3 (pos 0) (pos 0) geometric ≡ ok c)
    × (length c.factors ≡ 3)
    × All (λ x. pos 0 ≼ x) c.factors
    × IsFalling (pos 1) c.factors
degradation_factors_lem_test =
    degradation_factors_lem whole-IsExact geometric (pos 0) (pos 0) 2 refl refl

clamped : factors_from linear (pos 2) (pos 1) 0 4 ≡ pos 2 ∷ pos 1 ∷ pos 0 ∷ pos 0 ∷ []
unfolding factors_from factor_of
clamped = refl

too_lossy : degradation_factors 3 (pos 0) (pos 1) linear ≡ err annual_loss_out_of_range
unfolding degradation_factors
too_lossy = refl
