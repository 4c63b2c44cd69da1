-- ===== src/Tariff/Cache.antt =====
-- backend/engine/steps/tariff.py: the cache of the rates against the search in the periods.
use chart_solar.Prelude.{
  ℕ, zero, suc, ◌+◌, ◌≤◌, ◌<◌, ◌≡◌, refl, sym, ap, ◌∙◌, Bool, true, false, ◌&&◌, Option, none, some,
  List, [], ◌∷◌, ◌++◌, any, any-append, length, All, get_elem?, Result, ok, err, Result-cases,
  arith, ◌==◌, Bool-cases, inl, inr, if◌then◌else◌,
}
use mathlib.Core.Path.{subst}
use chart_solar.Tariff.{
  TouPeriod, TariffError, Cell, cell_eq, same_bool, range, first_matching_tou_period, Rates,
  rate_at, set_rate, hours_of, cells_of, cells, cache_cells, build_tou_rate_cache,
}

same_bool_sound : (a b : Bool) → same_bool a b ≡ true → a ≡ b
same_bool_sound true b h = sym h
same_bool_sound false b h = ground arith

pub cell_eq_sound : (a b : Cell) → cell_eq a b ≡ true → a ≡ b
cell_eq_sound a b h =
    let months : a.month ≡ b.month = ground arith in
    let days = same_bool_sound a.weekday b.weekday (ground arith) in
    let hours : a.hour ≡ b.hour = ground arith in
    λ i. record { month = months i; weekday = days i; hour = hours i }

-- the cells of the loops are those of the months 1 to 12 and the hours 0 to 23
any-range : (from n x : ℕ) → from ≤ x → x < from + n → any (λ y. y == x) (range from n) ≡ true
any-range from zero x lo hi = absurd (omega arith)
any-range from (suc n) x lo hi = ground (arith, any-range (from + 1) n x)

module _ (c : Cell) where
  any-hours_of :
      (month : ℕ) (weekday : Bool) (hours : List ℕ)
      → month ≡ c.month
      → weekday ≡ c.weekday
      → any (λ h. h == c.hour) hours ≡ true
      → any (λ d. cell_eq d c) (hours_of month weekday hours) ≡ true
  any-hours_of month weekday [] m w h = absurd (ground arith)
  any-hours_of month true (x ∷ hours) m w h = ground (arith, any-hours_of month true hours)
  any-hours_of month false (x ∷ hours) m w h = ground (arith, any-hours_of month false hours)

  -- a cell of the month at hand, and one of a later month
  in_month :
      (month : ℕ) (hours : List ℕ) (later : List Cell)
      → month ≡ c.month
      → any (λ h. h == c.hour) hours ≡ true
      → any (λ d. cell_eq d c) (hours_of month true hours ++ (hours_of month false hours ++ later))
        ≡ true
  in_month month hours later m h = elim (Bool-cases c.weekday) [
    | inl w ↦ ground (
      arith,
      any-append (λ d. cell_eq d c) (hours_of month true hours)
          (hours_of month false hours ++ later),
      any-hours_of month true hours m (sym w) h,
    )
    | inr w ↦ ground (
      arith,
      any-append (λ d. cell_eq d c) (hours_of month true hours)
          (hours_of month false hours ++ later),
      any-append (λ d. cell_eq d c) (hours_of month false hours) later,
      any-hours_of month false hours m (sym w) h,
    )
  ]

  in_later :
      (first second later : List Cell)
      → any (λ d. cell_eq d c) later ≡ true
      → any (λ d. cell_eq d c) (first ++ (second ++ later)) ≡ true
  in_later first second later h = ground (
    arith,
    any-append (λ d. cell_eq d c) first (second ++ later),
    any-append (λ d. cell_eq d c) second later,
  )

  any-cells_of :
      (months : List ℕ)
      → any (λ m. m == c.month) months ≡ true
      → c.hour < 24
      → any (λ d. cell_eq d c) (cells_of months) ≡ true
  any-cells_of [] h hour = absurd (ground arith)
  any-cells_of (m ∷ months) h hour = elim (Bool-cases (m == c.month)) [
    | inl same ↦
        in_month m (range 0 24) (cells_of months) (ground arith)
          (any-range 0 24 c.hour (omega arith) (omega (arith, hour)))
    | inr other ↦
        in_later (hours_of m true (range 0 24)) (hours_of m false (range 0 24)) (cells_of months)
          (any-cells_of months (rw other at h) hour)
  ]

All-append : {A : Type 0} (P : A → Type 0) (xs ys : List A) → All P xs → All P ys → All P (xs ++ ys)
All-append P [] ys h k = k
All-append P (x ∷ xs) ys h k = (h.0, All-append P xs ys h.1 k)

early_hours :
    (month : ℕ) (weekday : Bool) (hours : List ℕ)
    → All (λ h. h < 24) hours
    → All (λ c. c.hour < 24) (hours_of month weekday hours)
early_hours month weekday [] h = tt
early_hours month weekday (x ∷ hours) h = (h.0, early_hours month weekday hours h.1)

range_below : (from n : ℕ) → All (λ h. h < from + n) (range from n)
range_below from zero = tt
range_below from (suc n) = (
  omega arith,
  subst (λ k. All (λ h. h < k) (range (from + 1) n)) (omega arith) (range_below (from + 1) n),
)

early : (months : List ℕ) → All (λ c. c.hour < 24) (cells_of months)
early [] = tt
early (m ∷ months) =
    let hours = range_below 0 24 in
    All-append (λ c. c.hour < 24) (hours_of m true (range 0 24))
      (hours_of m false (range 0 24) ++ cells_of months) (early_hours m true (range 0 24) hours)
      (All-append (λ c. c.hour < 24) (hours_of m false (range 0 24)) (cells_of months)
        (early_hours m false (range 0 24) hours) (early months))

get_elem?-length :
    {A : Type 0} (xs : List A) (i : ℕ) → i < length xs → (x : A) × (get_elem? xs i ≡ some x)
get_elem?-length [] i h = absurd (omega (arith, h))
get_elem?-length (x ∷ xs) zero h = (x, refl)
get_elem?-length (x ∷ xs) (suc i) h = get_elem?-length xs i (omega (arith, h))

ok-injective : {A : Type 0} {a b : A} → ◌≡◌ {A = Result TariffError A} (ok a) (ok b) → a ≡ b
ok-injective {A} {a} h = ap (λ r. elim r [ ok x ↦ x | err _ ↦ a ]) h

-- Every period has the 24 flags that its validation asks for.
abbrev pub IsValid : {N : Type 0} → List (TouPeriod N) → Type 0
IsValid periods = All (λ p. length p.hour_mask ≡ 24) periods

pub found_ok :
    {N : Type 0} (periods : List (TouPeriod N)) (c : Cell)
    → IsValid periods
    → c.hour < 24
    → (found : Option (TouPeriod N)) × (first_matching_tou_period periods c ≡ ok found)
unfolding first_matching_tou_period
found_ok [] c valid hour = (none, refl)
found_ok (p ∷ periods) c valid hour =
    let (rest, later) = found_ok periods c valid.1 hour in
    let (covers, flag) = get_elem?-length p.hour_mask c.hour (omega (arith, valid.0, hour)) in
    elim (Bool-cases (any (λ m. m == c.month) p.months && same_bool p.is_weekday c.weekday)) [
      | inr skip ↦ (rest, ground arith)
      | inl day ↦ elim (Bool-cases covers) [
        | inl hit ↦ (some p, ground arith)
        | inr miss ↦ (rest, ground arith)
      ]
    ]

module _ {N : Type 0} (periods : List (TouPeriod N)) where
  -- the rate of the first period that matches
  abbrev pub rate_of : Option (TouPeriod N) → Option N
  rate_of none = none
  rate_of (some p) = some p.rate_per_kwh

  cache_inv :
      (d : Cell) (todo : List Cell) (rates : Rates N)
      → cache_cells periods (d ∷ todo) ≡ ok rates
      → (found : Option (TouPeriod N)) × (later : Rates N) × (first_matching_tou_period periods d
          ≡ ok found)
        × (cache_cells periods todo ≡ ok later)
        × (rates ≡ set_rate d found later)
  unfolding cache_cells
  cache_inv d todo rates h = elim (Result-cases (first_matching_tou_period periods d)) [
    | inr (e, fails) ↦ absurd (ground arith)
    | inl (found, matched) ↦ elim (Result-cases (cache_cells periods todo)) [
      | inr (e, fails) ↦ absurd (ground arith)
      | inl (later, rest) ↦ (found, later, matched, rest, ground arith)
    ]
  ]

  set_lem :
      (c d : Cell) (found here : Option (TouPeriod N)) (todo : List Cell) (later : Rates N)
      → rate_at later c ≡ (if any (λ d. cell_eq d c) todo then rate_of found else none)
      → (cell_eq d c ≡ true → here ≡ found)
      → rate_at (set_rate d here later) c
        ≡ (if any (λ d. cell_eq d c) (d ∷ todo) then rate_of found else none)
  set_lem c d found none todo later next same = elim (Bool-cases (cell_eq d c)) [
    | inl e ↦ ground (arith, same e)
    | inr e ↦ ground arith
  ]
  set_lem c d found (some p) todo later next same = elim (Bool-cases (cell_eq d c)) [
    | inl e ↦ ground (arith, same e)
    | inr e ↦ ground arith
  ]

  cached :
      (c : Cell) (found : Option (TouPeriod N)) (todo : List Cell) (rates : Rates N)
      → first_matching_tou_period periods c ≡ ok found
      → cache_cells periods todo ≡ ok rates
      → rate_at rates c ≡ (if any (λ d. cell_eq d c) todo then rate_of found else none)
  cached c found [] rates h e = unfold cache_cells in ground arith
  cached c found (d ∷ todo) rates h e =
      let (here, later, matched, rest, set) = cache_inv d todo rates e in
      let next = cached c found todo later h rest in
      rw set (
        set_lem c d found here todo later next λ e.
          ok-injective
            (sym matched ∙ ap (first_matching_tou_period periods) (cell_eq_sound d c e) ∙ h))

  cache_ok :
      (todo : List Cell)
      → IsValid periods
      → All (λ c. c.hour < 24) todo
      → (rates : Rates N) × (cache_cells periods todo ≡ ok rates)
  unfolding cache_cells
  cache_ok [] valid h = ([], refl)
  cache_ok (c ∷ todo) valid h =
      let (found, matched) = found_ok periods c valid h.0 in
      let (later, rest) = cache_ok todo valid h.1 in (set_rate c found later, ground arith)

  -- Of periods with 24 flags each the cache can be built, and every lookup in it, for a month of
  -- the year and an hour of the day, answers with the rate of the first period that covers the
  -- hour, and misses exactly where no period does.
  pub build_tou_rate_cache_lem :
      IsValid periods
      → (rates : Rates N) × (build_tou_rate_cache periods ≡ ok rates)
        × ((c : Cell)
            → 1 ≤ c.month
            → c.month ≤ 12
            → c.hour < 24
            → (found : Option (TouPeriod N)) × (first_matching_tou_period periods c ≡ ok found)
              × (rate_at rates c ≡ rate_of found))
  unfolding build_tou_rate_cache
  build_tou_rate_cache_lem valid =
      let (rates, built) = cache_ok cells valid (early (range 1 12)) in
      (
        rates,
        built,
        λ c from to hour.
            let (found, matched) = found_ok periods c valid hour in
            let there =
              any-cells_of c (range 1 12) (any-range 1 12 c.month from (omega (arith, to))) hour in
            (
              found,
              matched,
              cached c found cells rates matched built
                  ∙ ap (λ b. if b then rate_of found else none) there,
            ),
      )
