-- ===== src/Number/Sums.antt =====
-- Sums from the left.
use chart_solar.Prelude.{◌≡◌, sym, ap, ◌∙◌, List, [], ◌∷◌, map, All}
use chart_solar.Number.{Float, IsExact, ◌⊕◌, ◌⊗◌, ◌≼◌, sum_from, sum}
use chart_solar.Number.Laws.{nought_add, add_mul, nought_mul, add_nonneg}

module _ {W : Type 0} ⦃f : Float W⦄ (r : IsExact W) where
  pub sum_from-add : (acc : W) (xs : List W) → sum_from acc xs ≡ acc ⊕ sum xs
  unfolding sum_from
  sum_from-add acc [] = sym (r.add_nought acc)
  sum_from-add acc (x ∷ xs) =
      sum_from-add (acc ⊕ x) xs
      ∙ r.add_assoc acc x (sum xs)
      ∙ ap (λ s. acc ⊕ s) (sym (ap (λ y. sum_from y xs) (nought_add r x) ∙ sum_from-add x xs))

  pub sum-cons : (x : W) (xs : List W) → sum (x ∷ xs) ≡ x ⊕ sum xs
  unfolding sum_from
  sum-cons x xs = sum_from-add (f.nought ⊕ x) xs ∙ ap (λ y. y ⊕ sum xs) (nought_add r x)

  pub sum-map-mul : (c : W) (xs : List W) → sum (map (λ x. x ⊗ c) xs) ≡ sum xs ⊗ c
  unfolding sum_from
  sum-map-mul c [] = sym (nought_mul r c)
  sum-map-mul c (x ∷ xs) =
      sum-cons (x ⊗ c) (map (λ x. x ⊗ c) xs)
      ∙ ap (λ s. x ⊗ c ⊕ s) (sum-map-mul c xs)
      ∙ sym (add_mul r x (sum xs) c)
      ∙ ap (λ s. s ⊗ c) (sym (sum-cons x xs))

  pub sum_nonneg : (xs : List W) → All (λ x. f.nought ≼ x) xs → f.nought ≼ sum xs
  unfolding sum_from
  sum_nonneg [] h = r.order.le_refl f.nought
  sum_nonneg (x ∷ xs) h = rw (sum-cons x xs) (add_nonneg r x (sum xs) h.0 (sum_nonneg xs h.1))
