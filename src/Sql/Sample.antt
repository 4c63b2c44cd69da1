-- ===== src/Sql/Sample.antt =====
-- A database over lists of rows, which shows that the laws can be met.
use chart_solar.Prelude.{
  ℕ, ◌≤◌, ◌≡◌, ◌⊎◌, refl, inl, inr, sym, ◌∙◌, Bool, true, false, Option, none, some, List, [], ◌∷◌,
  any, All, arith, leb, if◌then◌else◌, Bool-cases,
}
use mathlib.Core.Option.{some-injective}
use mathlib.Core.Path.{subst}
use mathlib.Core.Bool.{false≢true}
use native.Mathlib.Nat.{le_refl}
use chart_solar.Sql.{Sql, IsSql, IsRow, tables}

abbrev better : {Row : Type 0} → (Row → ℕ) → Row → Option Row → Row
better rank r none = r
better rank r (some s) = if leb (rank s) (rank r) then r else s

-- the first of the rows of the highest rank
abbrev pub best : (Row : Type 0) → (Row → Bool) → (Row → ℕ) → List Row → Option Row
best Row p rank [] = none
best Row p rank (r ∷ t) =
    let rest = best Row p rank t in if p r then some (better rank r rest) else rest

best-none :
    {Row : Type 0} (p : Row → Bool) (rank : Row → ℕ) (t : List Row)
    → best Row p rank t ≡ none
    → any p t ≡ false
best-none p rank [] h = refl
best-none p rank (r ∷ t) h = ground (arith, best-none p rank t)

-- the claim on the best row
abbrev Tops : {Row : Type 0} → (Row → Bool) → (Row → ℕ) → List Row → Row → Type 0
Tops p rank t r = IsRow r t × (p r ≡ true) × All (λ x. p x ≡ true → rank x ≤ rank r) t

All-mono :
    {Row : Type 0} (p : Row → Bool) (rank : Row → ℕ) (m n : ℕ) (t : List Row)
    → m ≤ n
    → All (λ x. p x ≡ true → rank x ≤ m) t
    → All (λ x. p x ≡ true → rank x ≤ n) t
All-mono p rank m n [] le h = tt
All-mono p rank m n (x ∷ t) le h = (λ e. omega (arith, h.0 e), All-mono p rank m n t le h.1)

All-none :
    {Row : Type 0} (p : Row → Bool) (rank : Row → ℕ) (n : ℕ) (t : List Row)
    → any p t ≡ false
    → All (λ x. p x ≡ true → rank x ≤ n) t
All-none p rank n [] h = tt
All-none p rank n (x ∷ t) h = (λ e. absurd (ground arith), All-none p rank n t (ground arith))

best-some :
    {Row : Type 0} (p : Row → Bool) (rank : Row → ℕ) (t : List Row) (r : Row)
    → best Row p rank t ≡ some r
    → Tops p rank t r
best-some p rank [] r h = absurd (ground arith)
best-some {Row} p rank (x ∷ t) r h =
    pick (best Row p rank t) (best-none p rank t) (λ s. best-some p rank t s) (Bool-cases (p x)) h
  where
    pick :
        (rest : Option Row)
        → (rest ≡ none → any p t ≡ false)
        → ((s : Row) → rest ≡ some s → Tops p rank t s)
        → (p x ≡ true) ⊎ (p x ≡ false)
        → (if p x then some (better rank x rest) else rest) ≡ some r
        → Tops p rank (x ∷ t) r
    pick none nobody tops (inl e) h =
        let same : x ≡ r = some-injective _ _ (rw e at h) in
        subst (Tops p rank (x ∷ t)) same
          (inl refl, e, (λ _. le_refl (rank x), All-none p rank (rank x) t (nobody refl)))
    pick (some s) nobody tops (inl e) h =
        let same : better rank x (some s) ≡ r = some-injective _ _ (rw e at h) in
        let (here, holds, highest) = tops s refl in
        elim (Bool-cases (leb (rank s) (rank x))) [
          | inl le ↦
              let is_x : better rank x (some s) ≡ x = rw le in
              subst (Tops p rank (x ∷ t)) (sym is_x ∙ same) (
                inl refl,
                e,
                (λ _. le_refl (rank x), All-mono p rank (rank s) (rank x) t (ground arith) highest),
              )
          | inr gt ↦
              let is_s : better rank x (some s) ≡ s = rw gt in
              subst (Tops p rank (x ∷ t)) (sym is_s ∙ same)
                (inr here, holds, (λ _. ground arith, highest))
        ]
    pick none nobody tops (inr e) h = absurd (ground arith)
    pick (some s) nobody tops (inr e) h =
        let same : s ≡ r = some-injective _ _ (rw e at h) in
        let (here, holds, highest) = tops s refl in
        subst (Tops p rank (x ∷ t)) same
          (inr here, holds, (λ yes_x. absurd (false≢true (sym e ∙ yes_x)), highest))

abbrev pub sample : Sql
sample = tables best

pub sample-IsSql : IsSql sample
sample-IsSql = record {
  get-find = λ p t. refl;
  insert-row = λ clash r t. refl;
  update-rows = λ p f t. refl;
  delete-rows = λ p t. refl;
  top_none = λ p rank t. best-none p rank t;
  top_some = λ p rank t r. best-some p rank t r;
}
