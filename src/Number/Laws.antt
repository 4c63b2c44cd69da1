-- ===== src/Number/Laws.antt =====
-- What follows from the laws of an ordered ring.
use chart_solar.Prelude.{◌≡◌, sym, ap, ◌∙◌, inl, inr, true, false, Bool-cases, arith}
use mathlib.Core.Path.{subst}
use chart_solar.Number.{Float, IsOrdered, IsExact, ◌⊕◌, ◌⊖◌, ◌⊗◌, ◌≼◌, min_of, max_of}

module _ {W : Type 0} ⦃f : Float W⦄ (o : IsOrdered W) where
  -- what a comparison says
  pub lt_le : (a b : W) → f.lt a b ≡ true → a ≼ b
  lt_le a b h = elim (o.le_total a b) [
    | inl le ↦ le
    | inr ge ↦ absurd (ground (arith, o.lt-le a b))
  ]

  pub not-lt : (a b : W) → f.lt a b ≡ false → b ≼ a
  not-lt a b h = ground (arith, o.lt-le a b)

  pub not-le : (a b : W) → f.le a b ≡ false → b ≼ a
  not-le a b h = elim (o.le_total a b) [ inl le ↦ absurd (ground arith) | inr ge ↦ ge ]

  pub min-le_left : (a b : W) → min_of a b ≼ a
  min-le_left a b = elim (Bool-cases (f.lt b a)) [
    | inl h ↦ rw h (lt_le b a h)
    | inr h ↦ rw h (o.le_refl a)
  ]

  pub min-le_right : (a b : W) → min_of a b ≼ b
  min-le_right a b = elim (Bool-cases (f.lt b a)) [
    | inl h ↦ rw h (o.le_refl b)
    | inr h ↦ rw h (not-lt b a h)
  ]

  pub le-min : (a b c : W) → c ≼ a → c ≼ b → c ≼ min_of a b
  le-min a b c ha hb = elim (Bool-cases (f.lt b a)) [ inl h ↦ rw h hb | inr h ↦ rw h ha ]

  pub max-ge_left : (a b : W) → a ≼ max_of a b
  max-ge_left a b = elim (Bool-cases (f.lt a b)) [
    | inl h ↦ rw h (lt_le a b h)
    | inr h ↦ rw h (o.le_refl a)
  ]

  pub max-ge_right : (a b : W) → b ≼ max_of a b
  max-ge_right a b = elim (Bool-cases (f.lt a b)) [
    | inl h ↦ rw h (o.le_refl b)
    | inr h ↦ rw h (not-lt a b h)
  ]

  pub max-le : (a b c : W) → a ≼ c → b ≼ c → max_of a b ≼ c
  max-le a b c ha hb = elim (Bool-cases (f.lt a b)) [ inl h ↦ rw h hb | inr h ↦ rw h ha ]

  pub max-eq_right : (a b : W) → a ≼ b → max_of a b ≡ b
  max-eq_right a b h = o.le_antisym (max_of a b) b (max-le a b b h (o.le_refl b)) (max-ge_right a b)

  pub max-eq_left : (a b : W) → b ≼ a → max_of a b ≡ a
  max-eq_left a b h = o.le_antisym (max_of a b) a (max-le a b a (o.le_refl a) h) (max-ge_left a b)

  pub min-eq_left : (a b : W) → a ≼ b → min_of a b ≡ a
  min-eq_left a b h = o.le_antisym (min_of a b) a (min-le_left a b) (le-min a b a (o.le_refl a) h)

  pub min-eq_right : (a b : W) → b ≼ a → min_of a b ≡ b
  min-eq_right a b h = o.le_antisym (min_of a b) b (min-le_right a b) (le-min a b b h (o.le_refl b))

module _ {W : Type 0} ⦃f : Float W⦄ (r : IsExact W) where
  pub nought_add : (a : W) → f.nought ⊕ a ≡ a
  nought_add a = r.add_comm f.nought a ∙ r.add_nought a

  pub add_left_comm : (a b c : W) → a ⊕ (b ⊕ c) ≡ b ⊕ (a ⊕ c)
  add_left_comm a b c =
      sym (r.add_assoc a b c) ∙ ap (λ x. x ⊕ c) (r.add_comm a b) ∙ r.add_assoc b a c

  pub add_cancel : (a b c : W) → a ⊕ c ≡ b ⊕ c → a ≡ b
  add_cancel a b c h = sym (r.add_sub a c) ∙ ap (λ x. x ⊖ c) h ∙ r.add_sub b c

  -- an unknown `x` with `x + b = a`
  pub sub_of_add : (x a b : W) → x ⊕ b ≡ a → a ⊖ b ≡ x
  sub_of_add x a b h = sym (ap (λ y. y ⊖ b) h) ∙ r.add_sub x b

  pub sub_self : (a : W) → a ⊖ a ≡ f.nought
  sub_self a = sub_of_add f.nought a a (nought_add a)

  pub sub_nought : (a : W) → a ⊖ f.nought ≡ a
  sub_nought a = sub_of_add a a f.nought (r.add_nought a)

  pub add_le_left : (a b c : W) → a ≼ b → c ⊕ a ≼ c ⊕ b
  add_le_left a b c h = rw (r.add_comm c a, r.add_comm c b) (r.add_le a b c h)

  pub add_mono : (a b c d : W) → a ≼ b → c ≼ d → a ⊕ c ≼ b ⊕ d
  add_mono a b c d h k =
      r.order.le_trans (a ⊕ c) (b ⊕ c) (b ⊕ d) (r.add_le a b c h) (add_le_left c d b k)

  pub le_of_add : (a b c : W) → a ⊕ c ≼ b ⊕ c → a ≼ b
  le_of_add a b c h = elim (r.order.le_total a b) [
    | inl le ↦ le
    | inr ge ↦
        let same = r.order.le_antisym (a ⊕ c) (b ⊕ c) h (r.add_le b a c ge) in
        subst (λ x. a ≼ x) (add_cancel a b c same) (r.order.le_refl a)
  ]

  -- `0 <= a - b` exactly where `b <= a`
  pub sub_nonneg : (a b : W) → b ≼ a → f.nought ≼ a ⊖ b
  sub_nonneg a b h = le_of_add f.nought (a ⊖ b) b (rw (nought_add b, r.sub_add a b) h)

  pub sub_le : (a b : W) → f.nought ≼ b → a ⊖ b ≼ a
  sub_le a b h =
      le_of_add (a ⊖ b) a b
        (rw (r.sub_add a b) (subst (λ x. x ≼ a ⊕ b) (r.add_nought a) (add_le_left f.nought b a h)))

  pub add_nonneg : (a b : W) → f.nought ≼ a → f.nought ≼ b → f.nought ≼ a ⊕ b
  add_nonneg a b h k =
      subst (λ x. x ≼ a ⊕ b) (r.add_nought f.nought) (add_mono f.nought a f.nought b h k)

  pub add_mul : (a b c : W) → (a ⊕ b) ⊗ c ≡ a ⊗ c ⊕ b ⊗ c
  add_mul a b c =
      r.mul_comm (a ⊕ b) c
      ∙ r.mul_add c a b
      ∙ ap (λ x. x ⊕ c ⊗ b) (r.mul_comm c a)
      ∙ ap (λ x. a ⊗ c ⊕ x) (r.mul_comm c b)

  pub mul_nought : (a : W) → a ⊗ f.nought ≡ f.nought
  mul_nought a = add_cancel (a ⊗ f.nought) f.nought (a ⊗ f.nought) (
      sym (r.mul_add a f.nought f.nought)
      ∙ ap (λ x. a ⊗ x) (r.add_nought f.nought)
      ∙ sym (nought_add (a ⊗ f.nought)))

  pub nought_mul : (a : W) → f.nought ⊗ a ≡ f.nought
  nought_mul a = r.mul_comm f.nought a ∙ mul_nought a

  pub mul_nonneg : (a b : W) → f.nought ≼ a → f.nought ≼ b → f.nought ≼ a ⊗ b
  mul_nonneg a b h k = subst (λ x. x ≼ a ⊗ b) (nought_mul b) (r.mul_le f.nought a b k h)

  -- `(a - b) * c`
  pub sub_mul : (a b c : W) → (a ⊖ b) ⊗ c ≡ a ⊗ c ⊖ b ⊗ c
  sub_mul a b c = sym (
      sub_of_add ((a ⊖ b) ⊗ c) (a ⊗ c) (b ⊗ c)
        (sym (add_mul (a ⊖ b) b c) ∙ ap (λ x. x ⊗ c) (r.sub_add a b)))

  pub sub_nonpos : (a b : W) → a ≼ b → a ⊖ b ≼ f.nought
  sub_nonpos a b h = le_of_add (a ⊖ b) f.nought b (rw (nought_add b, r.sub_add a b) h)

  -- moving a term across `<=`
  pub le_add_of_sub : (a b c : W) → a ⊖ b ≼ c → a ≼ c ⊕ b
  le_add_of_sub a b c h = subst (λ x. x ≼ c ⊕ b) (r.sub_add a b) (r.add_le (a ⊖ b) c b h)

  pub le_sub_of_add : (a b c : W) → c ⊕ b ≼ a → c ≼ a ⊖ b
  le_sub_of_add a b c h = le_of_add c (a ⊖ b) b (rw (r.sub_add a b) h)

  pub add_sub_left : (a b : W) → a ⊕ (b ⊖ a) ≡ b
  add_sub_left a b = r.add_comm a (b ⊖ a) ∙ r.sub_add b a

  pub add_swap : (a b c d : W) → a ⊕ b ⊕ (c ⊕ d) ≡ a ⊕ c ⊕ (b ⊕ d)
  add_swap a b c d =
      r.add_assoc a b (c ⊕ d)
      ∙ ap (λ s. a ⊕ s) (add_left_comm b c d)
      ∙ sym (r.add_assoc a c (b ⊕ d))
