-- ===== src/Number/Monthly.antt =====
-- Twelve amounts, one for each month, and the hours added to them.
use chart_solar.Prelude.{
  ℕ, zero, suc, ◌<◌, ◌≡◌, refl, sym, ap, ◌∙◌, List, [], ◌∷◌, length, arith, map,
}
use chart_solar.Number.{Float, IsExact, ◌⊕◌, ◌⊗◌, sum_from, sum}
use chart_solar.Number.Laws
use chart_solar.Number.Sums.{sum-cons}

module _ {ℓ} {A : Type ℓ} where
  -- `[x] * n`
  unfoldable pub repeated : ℕ → A → List A
  repeated zero x = []
  repeated (suc n) x = x ∷ repeated n x

  pub length-repeated : (n : ℕ) (x : A) → length (repeated n x) ≡ n
  unfolding repeated
  length-repeated zero x = refl
  length-repeated (suc n) x = omega (arith, length-repeated n x)

module _ {W : Type 0} ⦃f : Float W⦄ where
  -- `xs[i] += x`
  unfoldable pub add_at : ℕ → W → List W → List W
  add_at i x [] = []
  add_at zero x (y ∷ ys) = (y ⊕ x) ∷ ys
  add_at (suc i) x (y ∷ ys) = y ∷ add_at i x ys

  pub length-add_at : (i : ℕ) (x : W) (ys : List W) → length (add_at i x ys) ≡ length ys
  unfolding add_at
  length-add_at i x [] = refl
  length-add_at zero x (y ∷ ys) = refl
  length-add_at (suc i) x (y ∷ ys) = omega (arith, length-add_at i x ys)

module _ {W : Type 0} ⦃f : Float W⦄ (r : IsExact W) where
  pub sum-repeated : (n : ℕ) → sum (repeated n f.nought) ≡ f.nought
  unfolding repeated sum_from
  sum-repeated zero = refl
  sum-repeated (suc n) =
      sum-cons r f.nought (repeated n f.nought) ∙ Laws.nought_add r _ ∙ sum-repeated n

  pub sum-add_at : (i : ℕ) (x : W) (ys : List W) → i < length ys → sum (add_at i x ys) ≡ sum ys ⊕ x
  unfolding add_at
  sum-add_at i x [] h = absurd (omega (arith, h))
  sum-add_at zero x (y ∷ ys) h =
      sum-cons r (y ⊕ x) ys
      ∙ r.add_assoc y x (sum ys)
      ∙ ap (λ s. y ⊕ s) (r.add_comm x (sum ys))
      ∙ sym (r.add_assoc y (sum ys) x)
      ∙ ap (λ s. s ⊕ x) (sym (sum-cons r y ys))
  sum-add_at (suc i) x (y ∷ ys) h =
      sum-cons r y (add_at i x ys)
      ∙ ap (λ s. y ⊕ s) (sum-add_at i x ys (omega (arith, h)))
      ∙ sym (r.add_assoc y (sum ys) x)
      ∙ ap (λ s. s ⊕ x) (sym (sum-cons r y ys))

  -- the same amount added to every month
  pub sum-map-add :
      (c : W) (xs : List W) → sum (map (λ x. x ⊕ c) xs) ≡ sum xs ⊕ c ⊗ f.of_nat (length xs)
  unfolding sum_from
  sum-map-add c [] = sym (
      ap (λ x. f.nought ⊕ c ⊗ x) r.of_nat_zero
      ∙ ap (λ x. f.nought ⊕ x) (Laws.mul_nought r c)
      ∙ r.add_nought f.nought)
  sum-map-add c (x ∷ xs) =
      sum-cons r (x ⊕ c) (map (λ x. x ⊕ c) xs)
      ∙ ap (λ s. x ⊕ c ⊕ s) (sum-map-add c xs)
      ∙ interchange x c (sum xs) (c ⊗ f.of_nat (length xs))
      ∙ ap (λ s. s ⊕ (c ⊕ c ⊗ f.of_nat (length xs))) (sym (sum-cons r x xs))
      ∙ ap (λ s. sum (x ∷ xs) ⊕ s) (sym (one_more (length xs)))
    where
      interchange : (a b d e : W) → a ⊕ b ⊕ (d ⊕ e) ≡ a ⊕ d ⊕ (b ⊕ e)
      interchange a b d e =
          r.add_assoc a b (d ⊕ e)
          ∙ ap (λ s. a ⊕ s) (Laws.add_left_comm r b d e)
          ∙ sym (r.add_assoc a d (b ⊕ e))

      one_more : (n : ℕ) → c ⊗ f.of_nat (suc n) ≡ c ⊕ c ⊗ f.of_nat n
      one_more n =
          ap (λ x. c ⊗ x) (r.of_nat_suc n)
          ∙ r.mul_add c (f.of_nat n) f.one
          ∙ r.add_comm (c ⊗ f.of_nat n) (c ⊗ f.one)
          ∙ ap (λ x. x ⊕ c ⊗ f.of_nat n) (r.mul_one c)
