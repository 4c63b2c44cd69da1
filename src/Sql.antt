-- ===== src/Sql.antt =====
-- What the services use of SQLAlchemy over PostgreSQL. The database is no code of the repository:
-- it is a record of operations, with its documented behaviour as a record of laws. A table is the
-- list of its rows. Its primary key makes at most one row match a look-up by key.
pub mod Rows
pub mod Sample
use chart_solar.Prelude.{
  ℕ, suc, ◌≤◌, ◌≡◌, ◌⊎◌, Bool, true, false, Option, none, some, List, [], ◌∷◌, ◌++◌, any, filter,
  count, find, All, if◌then◌else◌,
}

pub record Sql : Type 1 where
  -- `session.get(Model, key)`, and a SELECT by a unique column with `scalar_one_or_none`
  pub get : {Row : Type 0} → (Row → Bool) → List Row → Option Row
  -- INSERT of a row; `none` where a row is there that clashes under a unique index, which is a
  -- conflict to `ON CONFLICT DO NOTHING` and an `IntegrityError` without it
  pub insert : {Row : Type 0} → (Row → Row → Bool) → Row → List Row → Option (List Row)
  -- UPDATE and DELETE with a WHERE clause: the row count and the table
  pub update : {Row : Type 0} → (Row → Bool) → (Row → Row) → List Row → ℕ × List Row
  pub delete : {Row : Type 0} → (Row → Bool) → List Row → ℕ × List Row
  -- SELECT with a WHERE clause, `ORDER BY … DESC LIMIT 1`: which row comes first among equal ones
  -- is not determined
  pub top : (Row : Type 0) → (Row → Bool) → (Row → ℕ) → List Row → Option Row

abbrev pub update_all {ℓ} : {Row : Type ℓ} → (Row → Bool) → (Row → Row) → List Row → List Row
update_all p f [] = []
update_all p f (r ∷ t) = (if p r then f r else r) ∷ update_all p f t

abbrev pub drop_all {ℓ} : {Row : Type ℓ} → (Row → Bool) → List Row → List Row
drop_all p [] = []
drop_all p (r ∷ t) = let rest = drop_all p t in if p r then rest else r ∷ rest

abbrev pub insert_row {ℓ} : {Row : Type ℓ} → (Row → Row → Bool) → Row → List Row → Option (List Row)
insert_row clash r t = if any (clash r) t then none else some (t ++ r ∷ [])

-- `r` is one of the rows.
abbrev pub IsRow : {Row : Type 0} → Row → List Row → Type 0
IsRow r [] = ⊥
IsRow r (x ∷ t) = (r ≡ x) ⊎ IsRow r t

pub record IsSql (db : Sql) : Type 1 where
  pub get-find : {Row : Type 0} (p : Row → Bool) (t : List Row) → db.get p t ≡ find p t
  pub insert-row :
      {Row : Type 0} (clash : Row → Row → Bool) (r : Row) (t : List Row)
      → db.insert clash r t ≡ insert_row clash r t
  pub update-rows :
      {Row : Type 0} (p : Row → Bool) (f : Row → Row) (t : List Row)
      → db.update p f t ≡ (count p t, update_all p f t)
  pub delete-rows :
      {Row : Type 0} (p : Row → Bool) (t : List Row) → db.delete p t ≡ (count p t, drop_all p t)
  pub top_none :
      {Row : Type 0} (p : Row → Bool) (rank : Row → ℕ) (t : List Row)
      → db.top Row p rank t ≡ none
      → any p t ≡ false
  pub top_some :
      {Row : Type 0} (p : Row → Bool) (rank : Row → ℕ) (t : List Row) (r : Row)
      → db.top Row p rank t ≡ some r
      → IsRow r t × (p r ≡ true) × All (λ x. p x ≡ true → rank x ≤ rank r) t

-- The operations that the laws determine, beside a `top`.
abbrev pub Top : Type 1
Top = (Row : Type 0) → (Row → Bool) → (Row → ℕ) → List Row → Option Row

abbrev pub tables : Top → Sql
tables top = record {
  get = find;
  insert = insert_row;
  update = λ p f t. (count p t, update_all p f t);
  delete = λ p t. (count p t, drop_all p t);
  top = top;
}

-- A database that obeys the laws is one over lists of rows.
pub canonical : (db : Sql) → IsSql db → db ≡ tables db.top
canonical db laws = λ i. record {
  get = λ p t. laws.get-find p t i;
  insert = λ clash r t. laws.insert-row clash r t i;
  update = λ p f t. laws.update-rows p f t i;
  delete = λ p t. laws.delete-rows p t i;
  top = db.top;
}
