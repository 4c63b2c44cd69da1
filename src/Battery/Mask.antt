-- ===== src/Battery/Mask.antt =====
-- The peak mask and its cache, against the periods read hour by hour.
use chart_solar.Prelude.{
  ◌≡◌, ◌<◌, refl, sym, ap, ◌∙◌, inl, inr, Bool, false, none, some, List, [], ◌∷◌, All, length,
  Result, ok, ◌>>=◌, arith, Bool-cases, Option-cases, Result-cases,
}
use chart_solar.Number.{Float}
use chart_solar.Number.Monthly.{repeated, length-repeated}
use chart_solar.Calendar.{
  IsCell, Datetime, IsDatetime, hours_per_tmy, tmy_hour_calendar, tmy_hour_calendar-IsCell,
  length-tmy_hour_calendar,
}
use chart_solar.Tariff.{TariffError, TouPeriod, Cell, cell_eq}
use chart_solar.Tariff.Cache.{IsValid, cell_eq_sound, found_ok}
use chart_solar.Battery.{cached, on_peak_at, mask_cells, build_peak_mask, peak_rate}

module _ {W : Type 0} ⦃f : Float W⦄ (is_close : W → W → Bool) (peak : W)
    (periods : List (TouPeriod W)) where
  -- The reference: the answer of each cell, without the cache.
  unfoldable pub mask_of : List Cell → Result TariffError (List Bool)
  unfolding on_peak_at
  mask_of [] = ok []
  mask_of (c ∷ cells) = do
    b ← on_peak_at is_close peak periods c
    rest ← mask_of cells
    ok (b ∷ rest)

  -- what the cache holds is what the periods say
  abbrev IsCache : List (Cell × Bool) → Type 0
  IsCache cell_cache = All (λ e. on_peak_at is_close peak periods e.0 ≡ ok e.1) cell_cache

  cached_sound :
      (cell_cache : List (Cell × Bool)) (c : Cell) (b : Bool)
      → IsCache cell_cache
      → cached cell_cache c ≡ some b
      → on_peak_at is_close peak periods c ≡ ok b
  cached_sound [] c b h e = absurd (ground (arith, e))
  cached_sound ((d, a) ∷ rest) c b h e = elim (Bool-cases (cell_eq d c)) [
    | inl same ↦
        ap (λ x. on_peak_at is_close peak periods x) (sym (cell_eq_sound d c same))
        ∙ h.0
        ∙ ap ok (ground (arith, same, e))
    | inr other ↦ cached_sound rest c b h.1 (ground (arith, other, e))
  ]

  mask_cells_lem :
      (cell_cache : List (Cell × Bool)) (cells : List Cell)
      → IsCache cell_cache
      → mask_cells is_close peak periods cell_cache cells ≡ mask_of cells
  unfolding mask_cells mask_of
  mask_cells_lem cell_cache [] h = refl
  mask_cells_lem cell_cache (c ∷ cells) h = elim (Option-cases (cached cell_cache c)) [
    | inr (b, hit) ↦
        rw
          (
            mask_cells,
            mask_of,
            hit,
            cached_sound cell_cache c b h hit,
            mask_cells_lem cell_cache cells h,
          )
          refl
    | inl miss ↦ elim (Result-cases (on_peak_at is_close peak periods c)) [
      | inl (b, found) ↦
          rw
            (
              mask_cells,
              mask_of,
              miss,
              found,
              mask_cells_lem ((c, b) ∷ cell_cache) cells (found, h),
            )
            refl
      | inr (e, failed) ↦ rw (mask_cells, mask_of, miss, failed) refl
    ]
  ]

  on_peak_ok :
      (c : Cell)
      → IsValid periods
      → c.hour < 24
      → (b : Bool) × (on_peak_at is_close peak periods c ≡ ok b)
  unfolding on_peak_at
  on_peak_ok c valid hour =
      let (found, e) = found_ok periods c valid hour in
      (elim found [ none ↦ false | some p ↦ is_close p.rate_per_kwh peak ], rw e refl)

  mask_ok :
      (cells : List Cell)
      → IsValid periods
      → All IsCell cells
      → (mask : List Bool) × (mask_of cells ≡ ok mask) × (length mask ≡ length cells)
  unfolding mask_of
  mask_ok [] valid all = ([], refl, refl)
  mask_ok (c ∷ cells) valid all =
      let (b, found) = on_peak_ok c valid all.0.hour_to in
      let (mask, e, n) = mask_ok cells valid all.1 in
      (b ∷ mask, rw (found, e) refl, omega (arith, n))

module _ {W : Type 0} ⦃f : Float W⦄ (is_close : W → W → Bool) (dt : Datetime) where
  -- For at least one period, with a highest rate that is not close to zero, the peak mask through
  -- the cache is that of every hour read from the periods by itself, its failures included.
  pub build_peak_mask_lem :
      (p : TouPeriod W) (periods : List (TouPeriod W))
      → is_close (peak_rate p.rate_per_kwh periods) f.nought ≡ false
      → build_peak_mask is_close dt (p ∷ periods)
        ≡ mask_of is_close (peak_rate p.rate_per_kwh periods) (p ∷ periods) (tmy_hour_calendar dt)
  unfolding build_peak_mask
  build_peak_mask_lem p periods priced = rw priced (
      mask_cells_lem is_close (peak_rate p.rate_per_kwh periods) (p ∷ periods) []
        (tmy_hour_calendar dt) tt)

  pub build_peak_mask_ok :
      (periods : List (TouPeriod W))
      → IsDatetime dt
      → IsValid periods
      → (mask : List Bool) × (build_peak_mask is_close dt periods ≡ ok mask)
        × (length mask ≡ hours_per_tmy)
  unfolding build_peak_mask
  build_peak_mask_ok [] calendar valid =
      (repeated hours_per_tmy false, refl, length-repeated hours_per_tmy false)
  build_peak_mask_ok (p ∷ periods) calendar valid =
      let peak = peak_rate p.rate_per_kwh periods in
      elim (Bool-cases (is_close peak f.nought)) [
        | inl free ↦
            (repeated hours_per_tmy false, rw free refl, length-repeated hours_per_tmy false)
        | inr priced ↦
            let (mask, e, n) =
              mask_ok is_close peak (p ∷ periods) (tmy_hour_calendar dt) valid
                (tmy_hour_calendar-IsCell dt calendar) in
            (
              mask,
              rw priced
                  (mask_cells_lem is_close peak (p ∷ periods) [] (tmy_hour_calendar dt) tt ∙ e),
              n ∙ length-tmy_hour_calendar dt,
            )
      ]
