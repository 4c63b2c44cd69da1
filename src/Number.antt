-- ===== src/Number.antt =====
-- The numbers of backend/engine and backend/domain. Python's `float` is a parameter: a type `W` with
-- the operations that the code calls. Its order is that of a double away from NaN (`IsOrdered`).
-- Where a property is one of exact arithmetic, it asks for the laws of an ordered ring (`IsExact`):
-- the rounding of a double is not modelled. `Number.Whole` is a type with all these laws.
pub mod Laws
pub mod Sums
pub mod Monthly
pub mod Whole
use chart_solar.Prelude.{
  ℕ, zero, suc, ◌≡◌, ◌⊎◌, Bool, true, false, not, List, [], ◌∷◌, if◌then◌else◌,
}

pub record Float (W : Type 0) : Type 0 where
  pub nought : W
  pub one : W
  pub add : W → W → W
  pub sub : W → W → W
  pub mul : W → W → W
  pub div : W → W → W
  pub neg : W → W
  pub le : W → W → Bool
  pub lt : W → W → Bool
  -- `float(n)`, and the literal `n / d`, `d` a power of ten
  pub of_nat : ℕ → W
  pub decimal : ℕ → ℕ → W

module _ {W : Type 0} ⦃f : Float W⦄ where
  infixl 65 ◌⊕◌
  infixl 65 ◌⊖◌
  infixl 70 ◌⊗◌
  infixl 70 ◌⊘◌
  infix 50 ◌≼◌
  abbrev pub ◌⊕◌ : W → W → W
  a ⊕ b = f.add a b

  abbrev pub ◌⊖◌ : W → W → W
  a ⊖ b = f.sub a b

  abbrev pub ◌⊗◌ : W → W → W
  a ⊗ b = f.mul a b

  abbrev pub ◌⊘◌ : W → W → W
  a ⊘ b = f.div a b

  -- `a <= b`, as a proposition
  abbrev pub ◌≼◌ : W → W → Type 0
  a ≼ b = f.le a b ≡ true

  -- Python's `min` and `max` keep the first of equal arguments.
  abbrev pub min_of : W → W → W
  min_of a b = if f.lt b a then b else a

  abbrev pub max_of : W → W → W
  max_of a b = if f.lt a b then b else a

  -- `x ** n`
  unfoldable pub power : W → ℕ → W
  power x zero = f.one
  power x (suc n) = x ⊗ power x n

  -- `sum(xs)`, from the left
  unfoldable pub sum_from : W → List W → W
  sum_from acc [] = acc
  sum_from acc (x ∷ xs) = sum_from (acc ⊕ x) xs

  abbrev pub sum : List W → W
  sum xs = sum_from f.nought xs

pub record IsOrdered (W : Type 0) ⦃f : Float W⦄ : Type 0 where
  pub le_refl : (a : W) → a ≼ a
  pub le_trans : (a b c : W) → a ≼ b → b ≼ c → a ≼ c
  pub le_total : (a b : W) → (a ≼ b) ⊎ (b ≼ a)
  pub le_antisym : (a b : W) → a ≼ b → b ≼ a → a ≡ b
  pub lt-le : (a b : W) → f.lt a b ≡ not (f.le b a)

pub record IsExact (W : Type 0) ⦃f : Float W⦄ : Type 0 where
  pub order : IsOrdered W
  pub add_comm : (a b : W) → a ⊕ b ≡ b ⊕ a
  pub add_assoc : (a b c : W) → a ⊕ b ⊕ c ≡ a ⊕ (b ⊕ c)
  pub add_nought : (a : W) → a ⊕ f.nought ≡ a
  pub sub_add : (a b : W) → a ⊖ b ⊕ b ≡ a
  pub add_sub : (a b : W) → a ⊕ b ⊖ b ≡ a
  pub neg_sub : (a : W) → f.neg a ≡ f.nought ⊖ a
  pub mul_comm : (a b : W) → a ⊗ b ≡ b ⊗ a
  pub mul_assoc : (a b c : W) → a ⊗ b ⊗ c ≡ a ⊗ (b ⊗ c)
  pub mul_one : (a : W) → a ⊗ f.one ≡ a
  pub mul_add : (a b c : W) → a ⊗ (b ⊕ c) ≡ a ⊗ b ⊕ a ⊗ c
  pub add_le : (a b c : W) → a ≼ b → a ⊕ c ≼ b ⊕ c
  pub mul_le : (a b c : W) → f.nought ≼ c → a ≼ b → a ⊗ c ≼ b ⊗ c
  -- a product that is not positive is of factors that are not of one sign
  pub sign_rule :
      (a b : W)
      → f.lt f.nought (a ⊗ b) ≡ false
      → ((a ≼ f.nought) × (f.nought ≼ b)) ⊎ ((f.nought ≼ a) × (b ≼ f.nought))
  pub nought_le_one : f.nought ≼ f.one
  pub of_nat_zero : f.of_nat 0 ≡ f.nought
  pub of_nat_suc : (n : ℕ) → f.of_nat (suc n) ≡ f.of_nat n ⊕ f.one
