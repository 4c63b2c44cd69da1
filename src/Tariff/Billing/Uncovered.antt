-- ===== src/Tariff/Billing/Uncovered.antt =====
-- backend/engine/steps/tariff.py: the hour for which a bill by time of use fails.
use chart_solar.Prelude.{
  ℕ, suc, ◌+◌, ◌≡◌, ◌≢◌, refl, sym, ap, ◌∙◌, inl, inr, false, Option, none, some, List, [], ◌∷◌,
  All, get_elem?, Result, ok, err, arith, Bool-cases, Option-cases,
}
use chart_solar.Number.{Float, ◌⊕◌, ◌⊗◌}
use chart_solar.Calendar.{IsCell}
use chart_solar.Tariff.{
  TariffError, Cell, TouPeriod, no_period, index_error, first_matching_tou_period,
}
use chart_solar.Tariff.Billing.Periods.{hour_charges, summed, summed-cons}

-- the hour and the cell of an error
hour_of : {A : Type 0} → Result TariffError A → ℕ
hour_of (err (no_period i c)) = i
hour_of _ = 0

cell_of : {A : Type 0} → Cell → Result TariffError A → Cell
cell_of d (err (no_period i c)) = c
cell_of d _ = d

is_uncovered : {A : Type 0} → Result TariffError A → ℕ
is_uncovered (err (no_period i c)) = 1
is_uncovered _ = 0

module _ {W : Type 0} ⦃f : Float W⦄ (periods : List (TouPeriod W)) where
  -- The hour `d` imports, and no period covers its cell `c`.
  pub record IsUncovered (hours : List W) (cells : List Cell) (d : ℕ) (c : Cell) : Type 0 where
    pub kwh : W
    pub hour : get_elem? hours d ≡ some kwh
    pub importing : f.le kwh f.nought ≡ false
    pub cell : get_elem? cells d ≡ some c
    pub uncovered : first_matching_tou_period periods c ≡ ok none

  abbrev pub IsAnswered : Type 0
  IsAnswered =
      (c : Cell)
      → IsCell c
      → (found : Option (TouPeriod W)) × (first_matching_tou_period periods c ≡ ok found)

  later :
      (kwh : W) (hours : List W) (b : Cell) (cells : List Cell) (d : ℕ) (c : Cell)
      → IsUncovered hours cells d c
      → IsUncovered (kwh ∷ hours) (b ∷ cells) (suc d) c
  later kwh hours b cells d c h = record {
    kwh = h.kwh;
    hour = h.hour;
    importing = h.importing;
    cell = h.cell;
    uncovered = h.uncovered;
  }

  past_calendar :
      (from : W) (i j : ℕ) (c : Cell) (hours : List W)
      → summed from (hour_charges periods i hours []) ≢ err (no_period j c)
  unfolding hour_charges is_uncovered
  past_calendar from i j c [] = λ h. absurd (omega (arith, ap is_uncovered h))
  past_calendar from i j c (kwh ∷ hours) = λ h. elim (Bool-cases (f.le kwh f.nought)) [
    | inl unused ↦
        let skip : hour_charges periods i (kwh ∷ hours) [] ≡ hour_charges periods (i + 1) hours [] =
          rw (hour_charges, unused) refl in
        past_calendar from (i + 1) j c hours (sym (ap (summed from) skip) ∙ h)
    | inr used ↦
        let stop : hour_charges periods i (kwh ∷ hours) [] ≡ err index_error =
          rw (hour_charges, used) refl in
        absurd (omega (arith, ap is_uncovered (sym (ap (summed from) stop) ∙ h)))
  ]

  -- the sum is missing only for an importing hour that no period covers
  pub summed-IsUncovered :
      (from : W) (i j : ℕ) (c : Cell) (hours : List W) (cells : List Cell)
      → IsAnswered
      → All IsCell cells
      → summed from (hour_charges periods i hours cells) ≡ err (no_period j c)
      → (d : ℕ) × (j ≡ i + d) × IsUncovered hours cells d c
  unfolding hour_charges is_uncovered hour_of cell_of
  summed-IsUncovered from i j c [] cells answers all h = absurd (omega (arith, ap is_uncovered h))
  summed-IsUncovered from i j c (kwh ∷ hours) [] answers all h =
      absurd (past_calendar from i j c (kwh ∷ hours) h)
  summed-IsUncovered from i j c (kwh ∷ hours) (b ∷ cells) answers all h =
      elim (Bool-cases (f.le kwh f.nought)) [
        | inl unused ↦
            let skip : hour_charges periods i (kwh ∷ hours) (b ∷ cells)
                ≡ hour_charges periods (i + 1) hours cells =
              rw (hour_charges, unused) refl in
            let (d, at, here) =
              summed-IsUncovered from (i + 1) j c hours cells answers all.1
                (sym (ap (summed from) skip) ∙ h) in
            (suc d, omega (arith, at), later kwh hours b cells d c here)
        | inr used ↦
            let (found, matched) = answers b all.0 in
            elim (Option-cases found) [
              | inl e ↦
                  let stop : hour_charges periods i (kwh ∷ hours) (b ∷ cells)
                      ≡ err (no_period i b) =
                    rw (hour_charges, used, matched ∙ ap ok e) refl in
                  let same = sym (ap (summed from) stop) ∙ h in
                  let cells_same : b ≡ c = ap (cell_of b) same in
                  (
                    0,
                    omega (arith, ap hour_of same),
                    record {
                      kwh = kwh;
                      hour = refl;
                      importing = used;
                      cell = ap some cells_same;
                      uncovered =
                          ap (first_matching_tou_period periods) (sym cells_same)
                          ∙ matched
                          ∙ ap ok e;
                    },
                  )
              | inr (p, e) ↦
                  let step : summed from (hour_charges periods i (kwh ∷ hours) (b ∷ cells))
                      ≡ summed (from ⊕ kwh ⊗ p.rate_per_kwh)
                          (hour_charges periods (i + 1) hours cells) =
                    rw (hour_charges, used, matched ∙ ap ok e)
                      (summed-cons from (kwh ⊗ p.rate_per_kwh)
                        (hour_charges periods (i + 1) hours cells)) in
                  let (d, at, here) =
                    summed-IsUncovered (from ⊕ kwh ⊗ p.rate_per_kwh) (i + 1) j c hours cells answers
                      all.1 (sym step ∙ h) in
                  (suc d, omega (arith, at), later kwh hours b cells d c here)
            ]
      ]
