-- ===== src/Tariff/Billing/Totals.antt =====
-- What a year's bill adds up to: every kWh that is imported is billed once.
use chart_solar.Prelude.{
  ℕ, ◌+◌, ◌≤◌, ◌≡◌, ◌⊎◌, inl, inr, refl, sym, ap, ◌∙◌, true, false, List, [], ◌∷◌, map, length, All,
  ok, err, arith, Bool-cases, Option-cases,
}
use chart_solar.Number.{Float, IsExact, ◌⊕◌, ◌⊗◌, ◌≼◌, sum, sum_from}
use chart_solar.Number.Laws
use chart_solar.Number.Monthly.{add_at, length-add_at, sum-add_at, length-repeated, sum-repeated}
use chart_solar.Calendar.{IsCell}
use chart_solar.Tariff.{Cell, no_period, Rates, rate_at}
use chart_solar.Tariff.Billing.{
  Monthly, put, month_idx, no_months, flat_hours, tiered_hours, tou_hours, monthly_bills,
}

module _ {W : Type 0} ⦃f : Float W⦄ (r : IsExact W) where
  -- twelve months in which the hours so far sum to `kwh`, at a charge of `charge`
  pub record IsBilled (kwh charge : W) (m : Monthly W) : Type 0 where
    pub energies : length m.energy ≡ 12
    pub kwhs : length m.kwh ≡ 12
    pub kwh_sum : sum m.kwh ≡ kwh
    pub energy_sum : sum m.energy ≡ charge

  pub no_months-IsBilled : IsBilled f.nought f.nought no_months
  unfolding no_months
  no_months-IsBilled = record {
    energies = length-repeated 12 f.nought;
    kwhs = length-repeated 12 f.nought;
    kwh_sum = sum-repeated r 12;
    energy_sum = sum-repeated r 12;
  }

  put-IsBilled :
      (c : Cell) (kwh charge k e : W) (m : Monthly W)
      → IsCell c
      → IsBilled k e m
      → IsBilled (k ⊕ kwh) (e ⊕ charge) (put c kwh charge m)
  put-IsBilled c kwh charge k e m cell h = record {
    energies = length-add_at (month_idx c) charge m.energy ∙ h.energies;
    kwhs = length-add_at (month_idx c) kwh m.kwh ∙ h.kwhs;
    kwh_sum =
        sum-add_at r (month_idx c) kwh m.kwh (omega (arith, cell.month_from, cell.month_to, h.kwhs))
        ∙ ap (λ s. s ⊕ kwh) h.kwh_sum;
    energy_sum =
        sum-add_at r (month_idx c) charge m.energy
          (omega (arith, cell.month_from, cell.month_to, h.energies))
        ∙ ap (λ s. s ⊕ charge) h.energy_sum;
  }

  pub flat_hours-IsBilled :
      (rate : W) (hours : List W) (cells : List Cell) (k e : W) (m : Monthly W)
      → length hours ≤ length cells
      → All IsCell cells
      → IsBilled k e m
      → (m' : Monthly W) × (flat_hours rate hours cells m ≡ ok m')
        × IsBilled (sum_from k hours) (sum_from e (map (λ kwh. kwh ⊗ rate) hours)) m'
  unfolding flat_hours sum_from
  flat_hours-IsBilled rate [] cells k e m len all h = (m, refl, h)
  flat_hours-IsBilled rate (kwh ∷ hours) [] k e m len all h = absurd (omega (arith, len))
  flat_hours-IsBilled rate (kwh ∷ hours) (c ∷ cells) k e m len all h =
      flat_hours-IsBilled rate hours cells (k ⊕ kwh) (e ⊕ kwh ⊗ rate) (put c kwh (kwh ⊗ rate) m)
        (omega (arith, len)) all.1 (put-IsBilled c kwh (kwh ⊗ rate) k e m all.0 h)

  -- an hour that is not billed imports nothing
  skip : (k kwh : W) → f.nought ≼ kwh → f.le kwh f.nought ≡ true → k ≡ k ⊕ kwh
  skip k kwh pos none_used =
      sym (r.add_nought k) ∙ ap (λ x. k ⊕ x) (r.order.le_antisym f.nought kwh pos none_used)

  skip-IsBilled :
      (k kwh : W) (m : Monthly W)
      → f.nought ≼ kwh
      → f.le kwh f.nought ≡ true
      → IsBilled k (sum m.energy) m
      → IsBilled (k ⊕ kwh) (sum m.energy) m
  skip-IsBilled k kwh m pos unused h = record {
    energies = h.energies;
    kwhs = h.kwhs;
    kwh_sum = h.kwh_sum ∙ skip k kwh pos unused;
    energy_sum = refl;
  }

  pub skip_lt : (k kwh : W) → f.nought ≼ kwh → f.lt f.nought kwh ≡ false → k ≡ k ⊕ kwh
  skip_lt k kwh pos h = skip k kwh pos (Laws.not-lt r.order f.nought kwh h)

  pub tiered_hours_lem :
      (hours : List W) (cells : List Cell) (k : W) (kwhs : List W)
      → length hours ≤ length cells
      → All IsCell cells
      → All (λ kwh. f.nought ≼ kwh) hours
      → length kwhs ≡ 12
      → sum kwhs ≡ k
      → (kwhs' : List W) × (tiered_hours hours cells kwhs ≡ ok kwhs')
        × (length kwhs' ≡ 12)
        × (sum kwhs' ≡ sum_from k hours)
  unfolding tiered_hours sum_from
  tiered_hours_lem [] cells k kwhs len all pos n s = (kwhs, refl, n, s)
  tiered_hours_lem (kwh ∷ hours) [] k kwhs len all pos n s = absurd (omega (arith, len))
  tiered_hours_lem (kwh ∷ hours) (c ∷ cells) k kwhs len all pos n s =
      elim (Bool-cases (f.lt f.nought kwh)) [
        | inl used ↦ rw used (
            tiered_hours_lem hours cells (k ⊕ kwh) (add_at (month_idx c) kwh kwhs)
              (omega (arith, len)) all.1 pos.1 (length-add_at (month_idx c) kwh kwhs ∙ n)
              (sum-add_at r (month_idx c) kwh kwhs
                  (omega (arith, all.0.month_from, all.0.month_to, n))
                ∙ ap (λ x. x ⊕ kwh) s))
        | inr unused ↦ rw unused (
            tiered_hours_lem hours cells (k ⊕ kwh) kwhs (omega (arith, len)) all.1 pos.1 n
              (s ∙ skip_lt k kwh pos.0 unused))
      ]

  pub tou_hours_lem :
      (cache : Rates W) (i : ℕ) (hours : List W) (cells : List Cell) (k : W) (m : Monthly W)
      → length hours ≤ length cells
      → All IsCell cells
      → All (λ kwh. f.nought ≼ kwh) hours
      → IsBilled k (sum m.energy) m
      → ((m' : Monthly W) × (tou_hours cache i hours cells m ≡ ok m')
          × IsBilled (sum_from k hours) (sum m'.energy) m')
        ⊎ ((j : ℕ) × (c : Cell) × (tou_hours cache i hours cells m ≡ err (no_period j c)))
  unfolding tou_hours sum_from
  tou_hours_lem cache i [] cells k m len all pos h = inl (m, refl, h)
  tou_hours_lem cache i (kwh ∷ hours) [] k m len all pos h = absurd (omega (arith, len))
  tou_hours_lem cache i (kwh ∷ hours) (c ∷ cells) k m len all pos h =
      elim (Bool-cases (f.le kwh f.nought)) [
        | inl unused ↦
            rw (tou_hours, unused)
              (tou_hours_lem cache (i + 1) hours cells (k ⊕ kwh) m (omega (arith, len)) all.1 pos.1
                (skip-IsBilled k kwh m pos.0 unused h))
        | inr used ↦ elim (Option-cases (rate_at cache c)) [
          | inl e ↦ inr (i, c, rw (tou_hours, used, e) refl)
          | inr (rate, e) ↦
              let next = put c kwh (kwh ⊗ rate) m in
              let billed = put-IsBilled c kwh (kwh ⊗ rate) k (sum m.energy) m all.0 h in
              rw (tou_hours, used, e)
                (tou_hours_lem cache (i + 1) hours cells (k ⊕ kwh) next (omega (arith, len)) all.1
                  pos.1
                  (record {
                    energies = billed.energies;
                    kwhs = billed.kwhs;
                    kwh_sum = billed.kwh_sum;
                    energy_sum = refl;
                  }))
        ]
      ]

  -- the totals of the bills, month by month
  pub totals-monthly_bills :
      (fixed : W) (m : ℕ) (kwhs energies : List W)
      → length kwhs ≡ length energies
      → map (λ b. b.total) (monthly_bills fixed m kwhs energies) ≡ map (λ x. x ⊕ fixed) energies
  unfolding monthly_bills
  totals-monthly_bills fixed m [] [] h = refl
  totals-monthly_bills fixed m [] (x ∷ xs) h = absurd (omega (arith, h))
  totals-monthly_bills fixed m (k ∷ ks) [] h = absurd (omega (arith, h))
  totals-monthly_bills fixed m (k ∷ ks) (x ∷ xs) h =
      ap (λ rest. (x ⊕ fixed) ∷ rest) (totals-monthly_bills fixed (m + 1) ks xs (omega (arith, h)))
