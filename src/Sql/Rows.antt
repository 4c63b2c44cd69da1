-- ===== src/Sql/Rows.antt =====
-- How the statements on tables act on look-ups and counts of rows.
use chart_solar.Prelude.{
  ◌≡◌, refl, Bool, true, false, none, some, List, [], ◌∷◌, ◌++◌, any, count, find, arith, inl, inr,
  Bool-cases,
}
use chart_solar.Sql.{update_all, drop_all, IsRow}

module _ {ℓ} {Row : Type ℓ} (p : Row → Bool) where
  -- The row found satisfies the WHERE clause.
  pub find_sound : (t : List Row) (r : Row) → find p t ≡ some r → p r ≡ true
  find_sound [] r h = cc
  find_sound (x ∷ t) r h = ground (arith, find_sound t r)

  pub find-any : (t : List Row) → any p t ≡ false → find p t ≡ none
  find-any [] h = refl
  find-any (x ∷ t) h = ground (arith, find-any t)

  pub find-any-true : (t : List Row) (r : Row) → find p t ≡ some r → any p t ≡ true
  find-any-true [] r h = absurd (ground arith)
  find-any-true (x ∷ t) r h = ground (arith, find-any-true t r)

  pub any-find : (t : List Row) → find p t ≡ none → any p t ≡ false
  any-find [] h = refl
  any-find (x ∷ t) h = ground (arith, any-find t)

  -- A row put behind the others is found if no other is.
  pub find-append_new :
      (t : List Row) (r : Row) → find p t ≡ none → p r ≡ true → find p (t ++ r ∷ []) ≡ some r
  find-append_new [] r h e = rw e
  find-append_new (x ∷ t) r h e = ground (arith, find-append_new t r)

  -- A row put behind the others is not found where it does not match.
  pub find-append_other : (t : List Row) (r : Row) → p r ≡ false → find p (t ++ r ∷ []) ≡ find p t
  find-append_other [] r e = rw e
  find-append_other (x ∷ t) r e = ground (arith, find-append_other t r)

  -- An update of the rows that a look-up is about, which leaves them matching.
  pub find-update_self :
      (f : Row → Row) (t : List Row) (r : Row)
      → ((r : Row) → p r ≡ true → p (f r) ≡ true)
      → find p t ≡ some r
      → find p (update_all p f t) ≡ some (f r)
  find-update_self f [] r keep h = cc
  find-update_self f (x ∷ t) r keep h = ground (arith, keep x, find-update_self f t r keep)

  pub count-none : (t : List Row) → find p t ≡ none → count p t ≡ 0
  count-none [] h = refl
  count-none (x ∷ t) h = ground (arith, count-none t)

  pub update_none : (f : Row → Row) (t : List Row) → any p t ≡ false → update_all p f t ≡ t
  update_none f [] h = refl
  update_none f (x ∷ t) h = ground (arith, update_none f t)

  pub find-drop_self : (t : List Row) → find p (drop_all p t) ≡ none
  find-drop_self [] = refl
  find-drop_self (x ∷ t) = ground (arith, find-drop_self t)

  pub count-drop_self : (t : List Row) → count p (drop_all p t) ≡ 0
  count-drop_self [] = refl
  count-drop_self (x ∷ t) = ground (arith, count-drop_self t)

-- The row that a look-up finds is one of the table.
pub find-IsRow :
    {Row : Type 0} (p : Row → Bool) (t : List Row) (r : Row) → find p t ≡ some r → IsRow r t
find-IsRow p [] r h = absurd (ground arith)
find-IsRow p (x ∷ t) r h = elim (Bool-cases (p x)) [
  | inl hit ↦ inl (ground arith)
  | inr miss ↦ inr (find-IsRow p t r (ground arith))
]
