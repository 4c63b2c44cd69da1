-- ===== src/Degradation/Curve.antt =====
-- The curve lies between zero and one, and never rises.
use mathlib.Core.Path.{subst}
use chart_solar.Prelude.{
  ℕ, zero, suc, ◌+◌, ◌≡◌, refl, ◌∙◌, true, false, List, [], ◌∷◌, length, All, ok, arith, ◌==◌,
}
use chart_solar.Number.{Float, IsExact, ◌⊕◌, ◌⊖◌, ◌⊗◌, ◌≼◌, max_of, power}
use chart_solar.Number.Laws
use chart_solar.Degradation.{
  DegradationModel, linear, geometric, DegradationCurve, is_fraction, factor_of, factors_from,
  degradation_factors,
}

module _ {W : Type 0} ⦃f : Float W⦄ where
  -- no amount is above the one before it, the first not above `top`
  abbrev pub IsFalling : W → List W → Type 0
  IsFalling top [] = Unit
  IsFalling top (x ∷ xs) = (x ≼ top) × IsFalling x xs

module _ {W : Type 0} ⦃f : Float W⦄ (r : IsExact W) where
  one_more : (t : ℕ) → suc t ≡ t + 1
  one_more t = omega arith

  of_nat_suc_le : (t : ℕ) → f.of_nat t ≼ f.of_nat (t + 1)
  of_nat_suc_le t =
      subst (λ n. f.of_nat t ≼ f.of_nat n) (one_more t)
        (rw (r.of_nat_suc t) (
          subst (λ x. x ≼ f.of_nat t ⊕ f.one) (r.add_nought (f.of_nat t))
            (Laws.add_le_left r f.nought f.one (f.of_nat t) r.nought_le_one)))

  sub_anti : (a b c : W) → b ≼ c → a ⊖ c ≼ a ⊖ b
  sub_anti a b c h =
      Laws.le_sub_of_add r a b (a ⊖ c)
        (subst (λ x. a ⊖ c ⊕ b ≼ x) (r.sub_add a c) (Laws.add_le_left r b c (a ⊖ c) h))

  max_mono : (a b : W) → a ≼ b → max_of f.nought a ≼ max_of f.nought b
  max_mono a b h =
      Laws.max-le r.order f.nought a (max_of f.nought b) (Laws.max-ge_left r.order f.nought b)
        (r.order.le_trans a b (max_of f.nought b) h (Laws.max-ge_right r.order f.nought b))

  power_nonneg : (x : W) (t : ℕ) → f.nought ≼ x → f.nought ≼ power x t
  unfolding power
  power_nonneg x zero h = r.nought_le_one
  power_nonneg x (suc t) h = Laws.mul_nonneg r x (power x t) h (power_nonneg x t h)

  power_falls : (x : W) (t : ℕ) → f.nought ≼ x → x ≼ f.one → power x (t + 1) ≼ power x t
  unfolding power
  power_falls x t h k =
      subst (λ n. power x n ≼ power x t) (one_more t)
        (subst (λ y. power x (suc t) ≼ y) (r.mul_comm f.one (power x t) ∙ r.mul_one (power x t))
          (r.mul_le x f.one (power x t) (power_nonneg x t h) k))

  -- a year's factor is not above that of the year before
  factor_falls :
      (model : DegradationModel) (first loss : W) (t : ℕ)
      → f.nought ≼ first
      → f.nought ≼ loss
      → loss ≼ f.one
      → factor_of model first loss (t + 1) ≼ factor_of model first loss t
  unfolding factor_of
  factor_falls linear first loss t pos h k =
      max_mono (first ⊖ loss ⊗ f.of_nat (t + 1)) (first ⊖ loss ⊗ f.of_nat t) (
        sub_anti first (loss ⊗ f.of_nat t) (loss ⊗ f.of_nat (t + 1)) (
          rw (r.mul_comm loss (f.of_nat t), r.mul_comm loss (f.of_nat (t + 1)))
            (r.mul_le (f.of_nat t) (f.of_nat (t + 1)) loss h (of_nat_suc_le t))))
  factor_falls geometric first loss t pos h k =
      let kept = f.one ⊖ loss in
      max_mono (first ⊗ power kept (t + 1)) (first ⊗ power kept t) (
        rw (r.mul_comm first (power kept (t + 1)), r.mul_comm first (power kept t))
          (r.mul_le (power kept (t + 1)) (power kept t) first pos
            (power_falls kept t (Laws.sub_nonneg r f.one loss k) (Laws.sub_le r f.one loss h))))

  first_factor :
      (model : DegradationModel) (kept loss : W)
      → f.nought ≼ kept
      → factor_of model kept loss 0 ≼ kept
  unfolding factor_of power
  first_factor linear kept loss pos =
      rw (r.of_nat_zero, Laws.mul_nought r loss, Laws.sub_nought r kept)
        (Laws.max-le r.order f.nought kept kept pos (r.order.le_refl kept))
  first_factor geometric kept loss pos =
      rw (r.mul_one kept) (Laws.max-le r.order f.nought kept kept pos (r.order.le_refl kept))

  length-factors_from :
      (model : DegradationModel) (first loss : W) (t n : ℕ)
      → length (factors_from model first loss t n) ≡ n
  unfolding factors_from
  length-factors_from model first loss t zero = refl
  length-factors_from model first loss t (suc n) =
      omega (arith, length-factors_from model first loss (t + 1) n)

  factors_nonneg :
      (model : DegradationModel) (first loss : W) (t n : ℕ)
      → All (λ x. f.nought ≼ x) (factors_from model first loss t n)
  unfolding factors_from factor_of
  factors_nonneg model first loss t zero = tt
  factors_nonneg linear first loss t (suc n) =
      (Laws.max-ge_left r.order f.nought _, factors_nonneg linear first loss (t + 1) n)
  factors_nonneg geometric first loss t (suc n) =
      (Laws.max-ge_left r.order f.nought _, factors_nonneg geometric first loss (t + 1) n)

  factors-IsFalling :
      (model : DegradationModel) (first loss top : W) (t n : ℕ)
      → f.nought ≼ first
      → f.nought ≼ loss
      → loss ≼ f.one
      → factor_of model first loss t ≼ top
      → IsFalling top (factors_from model first loss t n)
  unfolding factors_from
  factors-IsFalling model first loss top t zero pos h k le = tt
  factors-IsFalling model first loss top t (suc n) pos h k le = (
    le,
    factors-IsFalling model first loss (factor_of model first loss t) (t + 1) n pos h k
        (factor_falls model first loss t pos h k),
  )

  -- In exact arithmetic a curve of at least one year, of losses that are fractions, of either model,
  -- is found. It has a factor for each year, none below zero, the first at most what the first
  -- year's loss leaves of one, and none above that of the year before.
  pub degradation_factors_lem :
      (model : DegradationModel) (first_year_loss annual_loss : W) (n : ℕ)
      → is_fraction first_year_loss ≡ true
      → is_fraction annual_loss ≡ true
      → (c : DegradationCurve W) × (degradation_factors (suc n) first_year_loss annual_loss model
          ≡ ok c)
        × (length c.factors ≡ suc n)
        × All (λ x. f.nought ≼ x) c.factors
        × IsFalling (f.one ⊖ first_year_loss) c.factors
  unfolding degradation_factors
  degradation_factors_lem model first annual n h k =
      let years : (suc n == 0) ≡ false = ground arith in
      let kept = f.one ⊖ first in
      let pos = Laws.sub_nonneg r f.one first (below_one first h) in
      let (from, to) = fraction annual k in
      (
        record {
          model = model;
          first_year_loss = first;
          annual_loss = annual;
          years = suc n;
          factors = factors_from model kept annual 0 (suc n);
        },
        rw (years, h, k) refl,
        length-factors_from model kept annual 0 (suc n),
        factors_nonneg model kept annual 0 (suc n),
        factors-IsFalling model kept annual kept 0 (suc n) pos from to
            (first_factor model kept annual pos),
      )
    where
      below_one : (x : W) → is_fraction x ≡ true → x ≼ f.one
      below_one x e = Laws.lt_le r.order x f.one (ground (arith, e))

      fraction : (x : W) → is_fraction x ≡ true → (f.nought ≼ x) × (x ≼ f.one)
      fraction x e = (ground (arith, e), below_one x e)
