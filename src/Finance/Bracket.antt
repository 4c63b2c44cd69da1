-- ===== src/Finance/Bracket.antt =====
-- Bisection stays in its bracket.
use chart_solar.Prelude.{ℕ, zero, suc, ◌≡◌, inl, inr, true, Bool-cases}
use chart_solar.Number.{Float, IsOrdered, ◌⊖◌, ◌⊗◌, ◌≼◌, max_of, min_of}
use chart_solar.Number.Laws
use chart_solar.Finance.{abs_of}
use chart_solar.Finance.Solver.{midpoint, bisect_loop, bisect}

-- The half of a sum lies between its terms, as that of two doubles does away from overflow.
abbrev pub IsHalving : (W : Type 0) ⦃f : Float W⦄ → Type 0
IsHalving W ⦃f⦄ =
    (a b : W) → f.le a b ≡ true → (f.le a (midpoint a b) ≡ true) × (f.le (midpoint a b) b ≡ true)

module _ {W : Type 0} ⦃f : Float W⦄ (o : IsOrdered W) (halving : IsHalving W) where
  bisect_loop_within :
      (fn : W → W) (target tol bracket_tol : W) (turns : ℕ) (low high f_low : W)
      → low ≼ high
      → (low ≼ bisect_loop fn target tol bracket_tol turns low high f_low)
        × (bisect_loop fn target tol bracket_tol turns low high f_low ≼ high)
  unfolding bisect_loop
  bisect_loop_within fn target tol bracket_tol zero low high f_low h = halving low high h
  bisect_loop_within fn target tol bracket_tol (suc turns) low high f_low h =
      let mid = midpoint low high in
      let f_mid = fn mid ⊖ target in
      let (above, below) = halving low high h in
      elim (Bool-cases (f.lt (high ⊖ low) bracket_tol)) [
        | inl narrow ↦ rw (bisect_loop, narrow) (above, below)
        | inr wide ↦ elim (Bool-cases (f.lt (abs_of f_mid) tol)) [
          | inl found ↦ rw (bisect_loop, wide, found) (above, below)
          | inr far ↦ elim (Bool-cases (f.lt f.nought (f_mid ⊗ f_low))) [
            | inl upper ↦
                let (from, to) =
                  bisect_loop_within fn target tol bracket_tol turns mid high f_mid below in
                rw (bisect_loop, wide, far, upper) (o.le_trans low mid _ above from, to)
            | inr lower ↦
                let (from, to) =
                  bisect_loop_within fn target tol bracket_tol turns low mid f_low above in
                rw (bisect_loop, wide, far, lower) (from, o.le_trans _ mid high to below)
          ]
        ]
      ]

  -- Over ordered numbers of which a half of a sum lies between its terms, bisection of any
  -- function, in any number of turns, answers with a point of the bracket, whichever of its ends
  -- comes first.
  pub bisect_within :
      (fn : W → W) (low high target tol bracket_tol : W) (max_iter : ℕ)
      → (min_of low high ≼ bisect fn low high target tol bracket_tol max_iter)
        × (bisect fn low high target tol bracket_tol max_iter ≼ max_of low high)
  unfolding bisect
  bisect_within fn low high target tol bracket_tol max_iter = elim (Bool-cases (f.lt high low)) [
    | inl swapped ↦
        let le = Laws.lt_le o high low swapped in
        rw (swapped, Laws.max-eq_left o low high le)
          (bisect_loop_within fn target tol bracket_tol max_iter high low _ le)
    | inr ordered ↦
        let le = Laws.not-lt o high low ordered in
        rw (ordered, Laws.max-eq_right o low high le)
          (bisect_loop_within fn target tol bracket_tol max_iter low high _ le)
  ]
