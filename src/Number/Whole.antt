-- ===== src/Number/Whole.antt =====
-- The integers, which have every law of an ordered ring; they stand for amounts in a small unit.
use Prim.Native.Nat.{◌*◌, ◌/◌}
use chart_solar.Prelude.{
  ◌⊎◌, inl, inr, false, ℕ, zero, suc, ◌+◌, ◌-◌, ◌≡◌, refl, Bool, true, arith, leb, ltb, ap, ◌≤◌,
  le→leb, if◌then◌else◌,
}
use native.Mathlib.Nat.{mul-le-mul_right}
use chart_solar.Number.{Float, IsOrdered, IsExact, ◌⊕◌, ◌⊘◌, ◌≼◌}

pub data ℤ : Type 0 where
  pos negsuc : ℕ → ℤ

-- `z` is the difference of the two parts, of which one is zero.
abbrev pos_part : ℤ → ℕ
pos_part (pos n) = n
pos_part (negsuc n) = 0

abbrev neg_part : ℤ → ℕ
neg_part (pos n) = 0
neg_part (negsuc n) = suc n

abbrev difference : ℕ → ℕ → ℤ
difference a b = if leb b a then pos (a - b) else negsuc (b - a - 1)

abbrev negate : ℤ → ℤ
negate z = difference (neg_part z) (pos_part z)

abbrev plus : ℤ → ℤ → ℤ
plus a b = difference (pos_part a + pos_part b) (neg_part a + neg_part b)

abbrev minus : ℤ → ℤ → ℤ
minus a b = difference (pos_part a + neg_part b) (neg_part a + pos_part b)

abbrev times : ℤ → ℤ → ℤ
times a b =
    difference (pos_part a * pos_part b + neg_part a * neg_part b)
      (pos_part a * neg_part b + neg_part a * pos_part b)

-- rounded towards zero, and 0 on a division by zero
abbrev quotient : ℤ → ℤ → ℤ
quotient a b =
    difference (pos_part a / pos_part b + neg_part a / neg_part b)
      (pos_part a / neg_part b + neg_part a / pos_part b)

abbrev le_whole : ℤ → ℤ → Bool
le_whole a b = leb (pos_part a + neg_part b) (pos_part b + neg_part a)

abbrev lt_whole : ℤ → ℤ → Bool
lt_whole a b = ltb (pos_part a + neg_part b) (pos_part b + neg_part a)

instance abbrev pub whole : Float ℤ
whole = record {
  nought = pos 0;
  one = pos 1;
  add = plus;
  sub = minus;
  mul = times;
  div = quotient;
  neg = negate;
  le = le_whole;
  lt = lt_whole;
  of_nat = pos;
  decimal = λ n d. pos (n / d);
}

ext : (a b : ℤ) → pos_part a + neg_part b ≡ pos_part b + neg_part a → a ≡ b
ext a b h = ground arith

difference_parts : (a b : ℕ) → pos_part (difference a b) + b ≡ neg_part (difference a b) + a
difference_parts a b = ground arith

-- `z` has the parts of the product of `a` and `b`.
abbrev IsProduct : ℤ → ℤ → ℤ → Type 0
IsProduct z a b =
    (pos_part z ≡ pos_part a * pos_part b + neg_part a * neg_part b)
    × (neg_part z ≡ pos_part a * neg_part b + neg_part a * pos_part b)

times-IsProduct : (a b : ℤ) → IsProduct (times a b) a b
times-IsProduct (pos m) (pos n) = ground arith
times-IsProduct (pos m) (negsuc n) = ground arith
times-IsProduct (negsuc m) (pos n) = ground arith
times-IsProduct (negsuc m) (negsuc n) = ground arith

abbrev IsSum : ℤ → ℤ → ℤ → Type 0
IsSum z a b = pos_part z + neg_part a + neg_part b ≡ neg_part z + pos_part a + pos_part b

plus-IsSum : (a b : ℤ) → IsSum (plus a b) a b
plus-IsSum a b = ground arith

assoc_of :
    (a b c p q l r : ℤ)
    → IsProduct p a b
    → IsProduct q b c
    → IsProduct l p c
    → IsProduct r a q
    → l ≡ r
assoc_of a b c p q l r hp hq hl hr =
    ext l r (rw (hl.0, hr.1, hr.0, hl.1) (rw (hp.0, hp.1, hq.0, hq.1) (omega arith)))

distributes :
    (a b c s p q l r : ℤ)
    → IsSum s b c
    → IsProduct p a b
    → IsProduct q a c
    → IsProduct l a s
    → IsSum r p q
    → l ≡ r
distributes a b c s p q l r hs hp hq hl hr = ext l r (
    omega (
      arith,
      hr,
      hp.0,
      hp.1,
      hq.0,
      hq.1,
      hl.0,
      hl.1,
      ap (λ (t : ℕ). pos_part a * t) hs,
      ap (λ (t : ℕ). neg_part a * t) hs,
    ))

monotone :
    (a b c l r : ℤ)
    → IsProduct l a c
    → IsProduct r b c
    → le_whole (pos 0) c ≡ true
    → le_whole a b ≡ true
    → le_whole l r ≡ true
monotone a b (pos n) l r hl hr h k =
    let scaled : (pos_part a + neg_part b) * n ≤ (pos_part b + neg_part a) * n =
      mul-le-mul_right n (ground arith) in
    le→leb _ _ (rw (hl.0, hl.1, hr.0, hr.1) (omega (arith, scaled)))
monotone a b (negsuc n) l r hl hr h k = absurd (ground arith)

signs :
    (a b : ℤ)
    → lt_whole (pos 0) (times a b) ≡ false
    → ((le_whole a (pos 0) ≡ true) × (le_whole (pos 0) b ≡ true))
      ⊎ ((le_whole (pos 0) a ≡ true) × (le_whole b (pos 0) ≡ true))
signs (pos zero) (pos n) h = inl (refl, ground arith)
signs (pos (suc m)) (pos zero) h = inr (ground arith, refl)
signs (pos (suc m)) (pos (suc n)) h = absurd (ground arith)
signs (pos m) (negsuc n) h = inr (ground arith, ground arith)
signs (negsuc m) (pos n) h = inl (ground arith, ground arith)
signs (negsuc m) (negsuc n) h = absurd (ground arith)

pub whole-IsOrdered : IsOrdered ℤ
whole-IsOrdered = record {
  le_refl = λ a. ground arith;
  le_trans = λ a b c h k. ground arith;
  le_total = λ a b. ground arith;
  le_antisym = λ a b h k. ext a b (ground arith);
  lt-le = λ a b. ground arith;
}

pub whole-IsExact : IsExact ℤ
whole-IsExact = record {
  order = whole-IsOrdered;
  add_comm = λ a b. ground arith;
  add_assoc = λ a b c. ext _ _ (
      omega
        (arith, plus-IsSum a b, plus-IsSum b c, plus-IsSum (plus a b) c, plus-IsSum a (plus b c)));
  add_nought = λ a. ground arith;
  sub_add = λ a b. ext _ _ (
      omega (
        arith,
        difference_parts (pos_part a + neg_part b) (neg_part a + pos_part b),
        plus-IsSum (minus a b) b,
      ));
  add_sub = λ a b. ext _ _ (
      omega (
        arith,
        plus-IsSum a b,
        difference_parts (pos_part (plus a b) + neg_part b) (neg_part (plus a b) + pos_part b),
      ));
  neg_sub = λ a. ground arith;
  mul_comm = λ a b. ext _ _ (omega (arith, times-IsProduct a b, times-IsProduct b a));
  mul_assoc = λ a b c.
      assoc_of a b c (times a b) (times b c) _ _ (times-IsProduct a b) (times-IsProduct b c)
        (times-IsProduct (times a b) c) (times-IsProduct a (times b c));
  mul_one = λ a. ext _ _ (omega (arith, times-IsProduct a (pos 1)));
  mul_add = λ a b c.
      distributes a b c (plus b c) (times a b) (times a c) _ _ (plus-IsSum b c)
        (times-IsProduct a b) (times-IsProduct a c) (times-IsProduct a (plus b c))
        (plus-IsSum (times a b) (times a c));
  add_le = λ a b c h. ground (arith, plus-IsSum a c, plus-IsSum b c);
  mul_le = λ a b c h k. monotone a b c _ _ (times-IsProduct a c) (times-IsProduct b c) h k;
  sign_rule = signs;
  nought_le_one = refl;
  of_nat_zero = refl;
  of_nat_suc = λ n. ground arith;
}

-- halves of integers are rounded towards zero, and stay between the two
pub whole-IsHalving : (a b : ℤ) → a ≼ b → (a ≼ (a ⊕ b) ⊘ pos 2) × ((a ⊕ b) ⊘ pos 2 ≼ b)
whole-IsHalving a b h = (ground arith, ground arith)
