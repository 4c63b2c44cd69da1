-- ===== src/Audits/Rows.antt =====
-- Rows that point to rows, and what a DELETE with its foreign keys leaves of them.
use chart_solar.Prelude.{
  ℕ, ◌≡◌, inl, inr, refl, ltb, Bool, true, false, ◌||◌, List, [], ◌∷◌, any, filter, count, All,
  arith, ◌==◌, Bool-cases,
}
use chart_solar.Sql.{update_all, drop_all}
use chart_solar.Audits.{Audit, InstallerQuote, quote_of, owned_by}

module _ {ℓ} {Row : Type ℓ} (p r : Row → Bool) where
  -- a row that matches is among those deleted or among those left
  pub any-split : (t : List Row) → any r t ≡ (any r (filter p t) || any r (drop_all p t))
  any-split [] = refl
  any-split (x ∷ t) = ground (arith, any-split t)

module _ {ℓ} {Row : Type ℓ} (p : Row → Bool) where
  pub filter_none : (t : List Row) → any p t ≡ false → filter p t ≡ []
  filter_none [] h = refl
  filter_none (x ∷ t) h = ground (arith, filter_none t)

  pub drop_none : (t : List Row) → any p t ≡ false → drop_all p t ≡ t
  drop_none [] h = refl
  drop_none (x ∷ t) h = ground (arith, drop_none t)

  pub drop_nothing : (t : List Row) → ((x : Row) → p x ≡ false) → drop_all p t ≡ t
  drop_nothing [] h = refl
  drop_nothing (x ∷ t) h = ground (arith, h x, drop_nothing t h)

  pub update_nothing :
      (f : Row → Row) (t : List Row) → ((x : Row) → p x ≡ false) → update_all p f t ≡ t
  update_nothing f [] h = refl
  update_nothing f (x ∷ t) h = ground (arith, h x, update_nothing f t h)

  pub any-drop_self : (t : List Row) → any p (drop_all p t) ≡ false
  any-drop_self [] = refl
  any-drop_self (x ∷ t) = ground (arith, any-drop_self t)

  pub count-any-true : (t : List Row) → any p t ≡ true → ltb 0 (count p t) ≡ true
  count-any-true [] h = absurd (ground arith)
  count-any-true (x ∷ t) h = ground (arith, count-any-true t)

-- a property of the rows before holds of what an update or a DELETE leaves
pub All-update :
    {Row : Type 0} (P Q : Row → Type 0) (p : Row → Bool) (f : Row → Row) (t : List Row)
    → ((x : Row) → p x ≡ true → P x → Q (f x))
    → ((x : Row) → p x ≡ false → P x → Q x)
    → All P t
    → All Q (update_all p f t)
All-update P Q p f [] hit miss h = tt
All-update P Q p f (x ∷ t) hit miss h = (
  elim (Bool-cases (p x)) [ inl e ↦ rw e (hit x e h.0) | inr e ↦ rw e (miss x e h.0) ],
  All-update P Q p f t hit miss h.1,
)

pub All-imp :
    {Row : Type 0} (P Q : Row → Type 0) (t : List Row) → ((x : Row) → P x → Q x) → All P t → All Q t
All-imp P Q [] f h = tt
All-imp P Q (x ∷ t) f h = (f x h.0, All-imp P Q t f h.1)

pub All-drop :
    {Row : Type 0} (P Q : Row → Type 0) (p : Row → Bool) (t : List Row)
    → ((x : Row) → p x ≡ false → P x → Q x)
    → All P t
    → All Q (drop_all p t)
All-drop P Q p [] miss h = tt
All-drop P Q p (x ∷ t) miss h = elim (Bool-cases (p x)) [
  | inl e ↦ rw e (All-drop P Q p t miss h.1)
  | inr e ↦ rw e (miss x e h.0, All-drop P Q p t miss h.1)
]

-- the quotes of the one audit that the owner deletes
module _ {F : Type 0} (id user : ℕ) (q : InstallerQuote F) where
  quote_hit :
      (audits : List Audit)
      → q.audit_id == id ≡ true
      → any (owned_by id user) audits ≡ true
      → quote_of (filter (owned_by id user) audits) q ≡ true
  quote_hit [] e h = absurd (ground arith)
  quote_hit (a ∷ audits) e h = ground (arith, quote_hit audits)

  quote_miss :
      (audits : List Audit)
      → q.audit_id == id ≡ false
      → quote_of (filter (owned_by id user) audits) q ≡ false
  quote_miss [] e = refl
  quote_miss (a ∷ audits) e = ground (arith, quote_miss audits)

  pub quote_of-owned :
      (audits : List Audit)
      → any (owned_by id user) audits ≡ true
      → quote_of (filter (owned_by id user) audits) q ≡ (q.audit_id == id)
  quote_of-owned audits h = elim (Bool-cases (q.audit_id == id)) [
    | inl e ↦ rw e (quote_hit audits e h)
    | inr e ↦ rw e (quote_miss audits e)
  ]
