-- ===== src/Tariff/Billing/Months.antt =====
-- backend/engine/steps/tariff.py: the kWh that a tiered bill counts for each month.
use chart_solar.Prelude.{
  Bool, true, false, ℕ, zero, suc, ◌<◌, ◌≡◌, refl, sym, ap, ◌∙◌, inl, inr, some, List, [], ◌∷◌, All,
  get_elem?, Result, ok, err, arith, Bool-cases, ◌==◌, if◌then◌else◌,
}
use chart_solar.Number.{Float, IsExact, ◌⊕◌, ◌≼◌}
use chart_solar.Number.Monthly.{repeated, add_at}
use chart_solar.Tariff.{Cell, index_error}
use chart_solar.Tariff.Billing.{month_idx, tiered_hours}
use chart_solar.Tariff.Billing.Totals.{skip_lt}

amounts_of : {A E : Type 0} → A → Result E A → A
amounts_of d (ok a) = a
amounts_of d (err e) = d

is_ok : {A E : Type 0} → Result E A → ℕ
is_ok (ok a) = 1
is_ok (err e) = 0

module _ {W : Type 0} ⦃f : Float W⦄ where
  -- `acc` and what the hours of month `k`, the first being 0, import
  unfoldable pub month_sum : ℕ → W → List W → List Cell → W
  month_sum k acc [] cells = acc
  month_sum k acc (kwh ∷ hours) [] = month_sum k acc hours []
  month_sum k acc (kwh ∷ hours) (c ∷ cells) =
      month_sum k (if month_idx c == k then acc ⊕ kwh else acc) hours cells

  get_elem?-add_at :
      (i k : ℕ) (x y : W) (ys : List W)
      → get_elem? ys k ≡ some y
      → get_elem? (add_at i x ys) k ≡ some (if i == k then y ⊕ x else y)
  unfolding add_at
  get_elem?-add_at i k x y [] h = absurd (ground (arith, h))
  get_elem?-add_at zero zero x y (z ∷ ys) h = ground (arith, h)
  get_elem?-add_at zero (suc k) x y (z ∷ ys) h =
      let other : (zero == suc k) ≡ false = ground arith in rw other h
  get_elem?-add_at (suc i) zero x y (z ∷ ys) h =
      let other : (suc i == zero) ≡ false = ground arith in rw other h
  get_elem?-add_at (suc i) (suc k) x y (z ∷ ys) h =
      let same : (suc i == suc k) ≡ (i == k) = ground arith in
      rw same (get_elem?-add_at i k x y ys h)

  pub get_elem?-repeated : (n k : ℕ) (x : W) → k < n → get_elem? (repeated n x) k ≡ some x
  unfolding repeated
  get_elem?-repeated zero k x h = absurd (omega (arith, h))
  get_elem?-repeated (suc n) zero x h = refl
  get_elem?-repeated (suc n) (suc k) x h = get_elem?-repeated n k x (omega (arith, h))

module _ {W : Type 0} ⦃f : Float W⦄ (r : IsExact W) where
  -- Each month's kWh are what its hours import.
  pub tiered_hours-month_sum :
      (hours : List W) (cells : List Cell) (kwhs kwhs' : List W) (k : ℕ) (y : W)
      → All (λ kwh. f.nought ≼ kwh) hours
      → tiered_hours hours cells kwhs ≡ ok kwhs'
      → get_elem? kwhs k ≡ some y
      → get_elem? kwhs' k ≡ some (month_sum k y hours cells)
  unfolding tiered_hours month_sum is_ok amounts_of
  tiered_hours-month_sum [] cells kwhs kwhs' k y pos e h =
      sym (ap (λ o. get_elem? (amounts_of kwhs o) k) e) ∙ h
  tiered_hours-month_sum (kwh ∷ hours) [] kwhs kwhs' k y pos e h =
      elim (Bool-cases (f.lt f.nought kwh)) [
        | inl used ↦
            let stop : tiered_hours (kwh ∷ hours) [] kwhs ≡ err index_error =
              rw (tiered_hours, used) refl in
            absurd (omega (arith, ap is_ok (sym stop ∙ e)))
        | inr unused ↦
            let skip : tiered_hours (kwh ∷ hours) [] kwhs ≡ tiered_hours hours [] kwhs =
              rw (tiered_hours, unused) refl in
            tiered_hours-month_sum hours [] kwhs kwhs' k y pos.1 (sym skip ∙ e) h
      ]
  tiered_hours-month_sum (kwh ∷ hours) (c ∷ cells) kwhs kwhs' k y pos e h =
      elim (Bool-cases (f.lt f.nought kwh)) [
        | inl used ↦
            let put : tiered_hours (kwh ∷ hours) (c ∷ cells) kwhs
                ≡ tiered_hours hours cells (add_at (month_idx c) kwh kwhs) =
              rw (tiered_hours, used) refl in
            tiered_hours-month_sum hours cells (add_at (month_idx c) kwh kwhs) kwhs' k
              (if month_idx c == k then y ⊕ kwh else y) pos.1 (sym put ∙ e)
              (get_elem?-add_at (month_idx c) k kwh y kwhs h)
        | inr unused ↦
            let skip : tiered_hours (kwh ∷ hours) (c ∷ cells) kwhs ≡ tiered_hours hours cells kwhs =
              rw (tiered_hours, unused) refl in
            tiered_hours-month_sum hours cells kwhs kwhs' k
              (if month_idx c == k then y ⊕ kwh else y) pos.1 (sym skip ∙ e)
              (h ∙ ap some (same (month_idx c == k) (skip_lt r y kwh pos.0 unused)))
      ]
    where
      same : (b : Bool) {x z : W} → x ≡ z → x ≡ (if b then z else x)
      same true p = p
      same false p = refl
