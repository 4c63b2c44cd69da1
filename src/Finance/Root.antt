-- ===== src/Finance/Root.antt =====
-- backend/engine/finance/_solver.py: the answer of a bisection is a root, or the middle of a bracket
-- about one.
use mathlib.Core.Path.{subst}
use chart_solar.Prelude.{
  ℕ, zero, suc, ◌+◌, ◌≡◌, ◌⊎◌, refl, ap, ◌∙◌, inl, inr, true, false, arith, Bool-cases,
}
use chart_solar.Number.{Float, IsExact, ◌⊖◌, ◌⊗◌, ◌≼◌}
use chart_solar.Number.Laws
use chart_solar.Finance.{abs_of}
use chart_solar.Finance.Solver.{midpoint, bisect_loop, bisect}

module _ {W : Type 0} ⦃f : Float W⦄ where
  -- `[a, b]` comes from `[low, high]` by so many halvings.
  pub data Halves (low high : W) : ℕ → W → W → Type 0 where
    whole_bracket : Halves low high 0 low high
    lower_half :
        {k : ℕ} {a b : W} → Halves low high k a b → Halves low high (k + 1) a (midpoint a b)
    upper_half :
        {k : ℕ} {a b : W} → Halves low high k a b → Halves low high (k + 1) (midpoint a b) b

  -- The target is between the values at the two ends.
  abbrev pub Straddles : (W → W) → W → W → W → Type 0
  Straddles fn target a b =
      ((fn a ⊖ target ≼ f.nought) × (f.nought ≼ fn b ⊖ target))
      ⊎ ((f.nought ≼ fn a ⊖ target) × (fn b ⊖ target ≼ f.nought))

  -- The value at `x` is within `tol` of the target, or `x` is the middle of a bracket that still
  -- straddles the target: one narrower than `bracket_tol`, or the one after all the halvings.
  abbrev pub IsRoot : (W → W) → W → W → W → ℕ → W → W → W → Type 0
  IsRoot fn target tol bracket_tol max_iter low high x =
      (f.lt (abs_of (fn x ⊖ target)) tol ≡ true)
      ⊎ ((k : ℕ) × (a : W) × (b : W) × Halves low high k a b
          × Straddles fn target a b
          × (x ≡ midpoint a b)
          × ((f.lt (b ⊖ a) bracket_tol ≡ true) ⊎ (k ≡ max_iter)))

module _ {W : Type 0} ⦃f : Float W⦄ (r : IsExact W) where
  not_positive : (x : W) → x ≼ f.nought → f.lt f.nought x ≡ false
  not_positive x h = ground (arith, r.order.lt-le f.nought x, h)

  -- factors of a positive product that have opposite signs are none
  opposite_product : (a b : W) → a ≼ f.nought → f.nought ≼ b → f.lt f.nought (a ⊗ b) ≡ false
  opposite_product a b h k =
      not_positive (a ⊗ b)
        (subst (λ x. a ⊗ b ≼ x) (Laws.nought_mul r b) (r.mul_le a f.nought b k h))

  same_sign :
      (a b : W)
      → f.lt f.nought (a ⊗ b) ≡ true
      → ((a ≼ f.nought) × (b ≼ f.nought)) ⊎ ((f.nought ≼ a) × (f.nought ≼ b))
  same_sign a b h = elim (r.order.le_total a f.nought) [
    | inl a_neg ↦ elim (r.order.le_total b f.nought) [
      | inl b_neg ↦ inl (a_neg, b_neg)
      | inr b_pos ↦ absurd (ground (arith, opposite_product a b a_neg b_pos))
    ]
    | inr a_pos ↦ elim (r.order.le_total b f.nought) [
      | inl b_neg ↦ absurd (ground (arith, opposite_product b a b_neg a_pos, r.mul_comm a b))
      | inr b_pos ↦ inr (a_pos, b_pos)
    ]
  ]

  -- no positive product has a factor zero
  nonzero : (a b : W) → f.lt f.nought (a ⊗ b) ≡ true → b ≼ f.nought → f.le f.nought b ≡ false
  nonzero a b h k = elim (Bool-cases (f.le f.nought b)) [
    | inl l ↦
        let product : a ⊗ b ≡ f.nought =
          ap (λ x. a ⊗ x) (r.order.le_antisym b f.nought k l) ∙ Laws.mul_nought r a in
        absurd (ground (arith, not_positive (a ⊗ b) (rw product (r.order.le_refl f.nought))))
    | inr e ↦ e
  ]

  module _ (fn : W → W) (target : W) where
    -- a middle on the side of the low end takes its place
    from_middle :
        (a b mid : W)
        → f.lt f.nought ((fn mid ⊖ target) ⊗ (fn a ⊖ target)) ≡ true
        → Straddles fn target a b
        → Straddles fn target mid b
    from_middle a b mid h (inl (below, above)) =
        elim (same_sign (fn mid ⊖ target) (fn a ⊖ target) h) [
          | inl (mid_neg, _) ↦ inl (mid_neg, above)
          | inr (_, a_pos) ↦
              absurd (ground (arith, nonzero (fn mid ⊖ target) (fn a ⊖ target) h below))
        ]
    from_middle a b mid h (inr (above, below)) =
        elim (same_sign (fn mid ⊖ target) (fn a ⊖ target) h) [
          | inl (_, a_neg) ↦
              absurd (ground (arith, nonzero (fn mid ⊖ target) (fn a ⊖ target) h a_neg))
          | inr (mid_pos, _) ↦ inr (mid_pos, below)
        ]

    -- otherwise it takes the place of the high end
    to_middle :
        (a mid : W)
        → f.lt f.nought ((fn mid ⊖ target) ⊗ (fn a ⊖ target)) ≡ false
        → Straddles fn target a mid
    to_middle a mid h = elim (r.sign_rule (fn mid ⊖ target) (fn a ⊖ target) h) [
      | inl (mid_neg, a_pos) ↦ inr (a_pos, mid_neg)
      | inr (mid_pos, a_neg) ↦ inl (a_neg, mid_pos)
    ]

    bisect_loop-IsRoot :
        (tol bracket_tol low high : W) (max_iter turns k : ℕ) (a b : W)
        → k + turns ≡ max_iter
        → Halves low high k a b
        → Straddles fn target a b
        → IsRoot fn target tol bracket_tol max_iter low high
            (bisect_loop fn target tol bracket_tol turns a b (fn a ⊖ target))
    unfolding bisect_loop
    bisect_loop-IsRoot tol bracket_tol low high max_iter zero k a b n halves between =
        inr (k, a, b, halves, between, refl, inr (omega (arith, n)))
    bisect_loop-IsRoot tol bracket_tol low high max_iter (suc turns) k a b n halves between =
        let mid = midpoint a b in
        elim (Bool-cases (f.lt (b ⊖ a) bracket_tol)) [
          | inl narrow ↦ rw (bisect_loop, narrow) (inr (k, a, b, halves, between, refl, inl narrow))
          | inr wide ↦ elim (Bool-cases (f.lt (abs_of (fn mid ⊖ target)) tol)) [
            | inl found ↦ rw (bisect_loop, wide, found) (inl found)
            | inr far ↦ elim (Bool-cases (f.lt f.nought ((fn mid ⊖ target) ⊗ (fn a ⊖ target)))) [
              | inl upper ↦
                  rw (bisect_loop, wide, far, upper)
                    (bisect_loop-IsRoot tol bracket_tol low high max_iter turns (k + 1) mid b
                      (omega (arith, n)) (upper_half halves) (from_middle a b mid upper between))
              | inr lower ↦
                  rw (bisect_loop, wide, far, lower)
                    (bisect_loop-IsRoot tol bracket_tol low high max_iter turns (k + 1) a mid
                      (omega (arith, n)) (lower_half halves) (to_middle a mid lower))
            ]
          ]
        ]

    -- In exact arithmetic, for a function, rising or falling, whose values at the ends of a bracket
    -- have the target between them, the answer of the bisection is a root: its value is within the
    -- tolerance of the target, or it is the middle of a bracket that comes from the first by
    -- halving, still has the target between the values at its ends, and is narrower than the
    -- tolerance or the last of all the turns.
    pub bisect-IsRoot :
        (low high tol bracket_tol : W) (max_iter : ℕ)
        → low ≼ high
        → Straddles fn target low high
        → IsRoot fn target tol bracket_tol max_iter low high
            (bisect fn low high target tol bracket_tol max_iter)
    unfolding bisect
    bisect-IsRoot low high tol bracket_tol max_iter h between = rw (ordered low high h) (
        bisect_loop-IsRoot tol bracket_tol low high max_iter max_iter 0 low high (omega arith)
          whole_bracket between)
      where
        ordered : (a b : W) → a ≼ b → f.lt b a ≡ false
        ordered a b le = ground (arith, r.order.lt-le b a, le)
