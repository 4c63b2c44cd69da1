-- ===== src/Finance/Returns.antt =====
-- backend/engine/finance/cashflow.py: the rate of return and the crossover year.
use mathlib.Core.Path.{subst}
use chart_solar.Prelude.{
  ℕ, zero, suc, ◌+◌, ◌≤◌, ◌<◌, ◌≡◌, inl, inr, refl, true, false, Option, none, some, List, ◌∷◌, ok,
  arith, Bool-cases, ◌==◌,
}
use chart_solar.Number.{Float, IsExact, ◌⊗◌, ◌≼◌, sum}
use chart_solar.Number.Laws
use chart_solar.Finance.{small, tiny}
use chart_solar.Finance.Solver.{bisect}
use chart_solar.Finance.Bracket.{IsHalving, bisect_within}
use chart_solar.Finance.Root.{Straddles, IsRoot, bisect-IsRoot}
use chart_solar.Finance.Cashflow.{
  discounted, npv, irr, changes_sign, minus_one, projected_rate, crossover_from, crossover_year,
}

module _ {W : Type 0} ⦃f : Float W⦄ where
  -- The first year, if any, whose rate reaches the cost.
  abbrev pub IsFirst : W → W → W → ℕ → ℕ → Option ℕ → Type 0
  IsFirst cost starting_rate escalation from n none =
      (year : ℕ)
      → from ≤ year
      → year < from + n
      → f.le cost (projected_rate starting_rate escalation year) ≡ false
  IsFirst cost starting_rate escalation from n (some y) =
      (from ≤ y)
      × (y < from + n)
      × (cost ≼ projected_rate starting_rate escalation y)
      × ((year : ℕ)
          → from ≤ year
          → year < y
          → f.le cost (projected_rate starting_rate escalation year) ≡ false)

  crossover_from-IsFirst :
      (cost starting_rate escalation : W) (from n : ℕ)
      → IsFirst cost starting_rate escalation from n
          (crossover_from cost starting_rate escalation from n)
  unfolding crossover_from
  crossover_from-IsFirst cost s e from zero = λ year le lt. absurd (omega (arith, le, lt))
  crossover_from-IsFirst cost s e from (suc n) =
      elim (Bool-cases (f.le cost (projected_rate s e from))) [
        | inl reached ↦
            rw (crossover_from, reached)
              (omega arith, omega arith, reached, λ year le lt. absurd (omega (arith, le, lt)))
        | inr below ↦
            rw (crossover_from, below)
              (later (crossover_from cost s e (from + 1) n)
                (crossover_from-IsFirst cost s e (from + 1) n) below)
      ]
    where
      at_or_after :
          (a year : ℕ)
          → f.le cost (projected_rate s e a) ≡ false
          → a ≤ year
          → (a + 1 ≤ year → f.le cost (projected_rate s e year) ≡ false)
          → f.le cost (projected_rate s e year) ≡ false
      at_or_after a year below le after = elim (Bool-cases (a == year)) [
        | inl same ↦
            subst (λ y. f.le cost (projected_rate s e y) ≡ false) (ground (arith, same)) below
        | inr other ↦ after (ground (arith, other, le))
      ]

      later :
          (o : Option ℕ)
          → IsFirst cost s e (from + 1) n o
          → f.le cost (projected_rate s e from) ≡ false
          → IsFirst cost s e from (suc n) o
      later none h below =
          λ year le lt. at_or_after from year below le (λ after. h year after (omega (arith, lt)))
      later (some y) (from_le, lt, reached, before) below = (
        omega (arith, from_le),
        omega (arith, lt),
        reached,
        λ year le year_lt. at_or_after from year below le (λ after. before year after year_lt),
      )

module _ {W : Type 0} ⦃f : Float W⦄ where
  -- For a cost and a starting rate that are not below zero, an escalation above -1 and a horizon of
  -- at least one year, the crossover year is found: it is the first year of the horizon whose
  -- projected rate reaches the cost, and there is none exactly where no year's rate does.
  pub crossover_year_lem :
      (cost starting_rate escalation : W) (n : ℕ)
      → f.lt cost f.nought ≡ false
      → f.lt starting_rate f.nought ≡ false
      → f.le escalation minus_one ≡ false
      → (o : Option ℕ) × (crossover_year cost starting_rate escalation (suc n) ≡ ok o)
        × IsFirst cost starting_rate escalation 1 (suc n) o
  unfolding crossover_year
  crossover_year_lem cost s e n cost_pos rate_pos escalates =
      let years : (suc n == 0) ≡ false = ground arith in
      (
        crossover_from cost s e 1 (suc n),
        rw (cost_pos, rate_pos, escalates, years) refl,
        crossover_from-IsFirst cost s e 1 (suc n),
      )

module _ {W : Type 0} ⦃f : Float W⦄ where
  -- the value of a stream at a rate
  abbrev pub value_at : List W → W → W
  value_at cashflows rate = sum (discounted rate 0 cashflows)

module _ {W : Type 0} ⦃f : Float W⦄ (r : IsExact W) (halving : IsHalving W) where
  npv_above :
      (low rate cf : W) (cashflows : List W)
      → f.le low minus_one ≡ false
      → low ≼ rate
      → npv rate (cf ∷ cashflows) ≡ ok (value_at (cf ∷ cashflows) rate)
  unfolding npv
  npv_above low rate cf cashflows h le = elim (Bool-cases (f.le rate minus_one)) [
    | inl below ↦ absurd (ground (arith, h, r.order.le_trans low rate minus_one le below))
    | inr above ↦ rw above refl
  ]

  -- In exact arithmetic in which a half of a sum lies between its terms, every stream of a sign
  -- change whose values at two guesses, the lower above -1, are not of one sign has a rate of
  -- return. It lies between the guesses, the net present value is defined at it, and it is a root:
  -- its value is within 1e-9 of zero, or it is the middle of a bracket that comes from the guesses
  -- by halving, has zero between the values at its ends, and is narrower than 1e-12 or the last of
  -- 200 halvings.
  pub irr-IsRoot :
      (cf : W) (cashflows : List W) (low high : W)
      → low ≼ high
      → f.le low minus_one ≡ false
      → changes_sign (cf ∷ cashflows) ≡ true
      → f.lt f.nought (value_at (cf ∷ cashflows) low ⊗ value_at (cf ∷ cashflows) high) ≡ false
      → (rate : W) × (irr (cf ∷ cashflows) low high ≡ ok rate)
        × (low ≼ rate)
        × (rate ≼ high)
        × (npv rate (cf ∷ cashflows) ≡ ok (value_at (cf ∷ cashflows) rate))
        × IsRoot (value_at (cf ∷ cashflows)) f.nought small tiny 200 low high rate
  unfolding irr
  irr-IsRoot cf cashflows low high le above signs bracketed =
      let value = value_at (cf ∷ cashflows) in
      let (from, to) = bisect_within r.order halving value low high f.nought small tiny 200 in
      let rate = bisect value low high f.nought small tiny 200 in
      let low_le : low ≼ rate = subst (λ x. x ≼ rate) (Laws.min-eq_left r.order low high le) from in
      let between : Straddles value f.nought low high =
        rw (Laws.sub_nought r (value low), Laws.sub_nought r (value high))
          (r.sign_rule (value low) (value high) bracketed) in
      (
        rate,
        rw
            (
              signs,
              npv_above low low cf cashflows above (r.order.le_refl low),
              npv_above low high cf cashflows above le,
              bracketed,
            )
            refl,
        low_le,
        subst (λ x. rate ≼ x) (Laws.max-eq_right r.order low high le) to,
        npv_above low rate cf cashflows above low_le,
        bisect-IsRoot r value f.nought low high small tiny 200 le between,
      )
