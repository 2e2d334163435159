-- ===== src/Float.antt =====
-- What the program does with `double`: the arithmetic, the comparisons and the helpers of <cmath> and
-- <algorithm>, over any type that offers them. `double` itself and its rounding are not modelled;
-- `IsFloat` lists the facts of IEEE 754 that the theorems rest on, and `Float.Fixed` meets them.
pub mod Fixed
pub mod Order
use sentum.Prelude.{ℕ, ◌≡◌, Bool, true, not, ◌||◌, ◌⊎◌, if◌then◌else◌}

pub record Double (W : Type 0) : Type 0 where
  -- The literal m * 10 ^ -k.
  pub lit : ℕ → ℕ → W
  pub add : W → W → W
  pub sub : W → W → W
  pub mul : W → W → W
  pub div : W → W → W
  pub neg : W → W
  pub floor : W → W
  pub round : W → W
  pub sqrt : W → W
  -- `a < b`, `a <= b` and `a == b`: false where an operand is NaN.
  pub lt : W → W → Bool
  pub le : W → W → Bool
  pub eq : W → W → Bool

infixl 65 ◌⊕◌ ◌⊖◌
infixl 70 ◌⊗◌ ◌⊘◌
module _ {W : Type 0} ⦃d : Double W⦄ where
  abbrev pub ◌⊕◌ : W → W → W
  ◌⊕◌ = d.add

  abbrev pub ◌⊖◌ : W → W → W
  ◌⊖◌ = d.sub

  abbrev pub ◌⊗◌ : W → W → W
  ◌⊗◌ = d.mul

  abbrev pub ◌⊘◌ : W → W → W
  ◌⊘◌ = d.div

  abbrev pub lt : W → W → Bool
  lt = d.lt

  abbrev pub le : W → W → Bool
  le = d.le

  abbrev pub gt : W → W → Bool
  gt x y = d.lt y x

  abbrev pub ge : W → W → Bool
  ge x y = d.le y x

  abbrev pub nought : W
  nought = d.lit 0 0

  abbrev pub one : W
  one = d.lit 1 0

  -- `static_cast<double>(n)`.
  abbrev pub from_size : ℕ → W
  from_size n = d.lit n 0

  -- `std::max`, `std::min`, `std::clamp` and `std::abs`, by their definitions.
  abbrev pub fmax : W → W → W
  fmax x y = if d.lt x y then y else x

  abbrev pub fmin : W → W → W
  fmin x y = if d.lt y x then y else x

  abbrev pub clamp : W → W → W → W
  clamp x lo hi = if d.lt x lo then lo else if d.lt hi x then hi else x

  abbrev pub fabs : W → W
  fabs x = if d.lt x nought then d.neg x else x

  -- Dividing one by zero gives the infinity.
  abbrev pub infinity : W
  infinity = d.div one nought

  -- A value that is not NaN equals itself.
  abbrev pub is_number : W → Bool
  is_number x = d.le x x

  -- `std::isfinite`: what is neither NaN nor infinite differs from itself by a number.
  abbrev pub is_finite : W → Bool
  is_finite x = d.le (d.sub x x) (d.sub x x)

-- Facts of IEEE 754 comparisons and of correctly rounded arithmetic, infinities and NaN included.
pub record IsFloat (W : Type 0) ⦃d : Double W⦄ : Type 0 where
  pub lit_number : (m k : ℕ) → is_number (d.lit m k) ≡ true
  pub number_of_le : (x y : W) → d.le x y ≡ true → (is_number x ≡ true) × (is_number y ≡ true)
  pub number_of_lt : (x y : W) → d.lt x y ≡ true → (is_number x ≡ true) × (is_number y ≡ true)
  pub le_trans : (x y z : W) → d.le x y ≡ true → d.le y z ≡ true → d.le x z ≡ true
  -- Between numbers `<` is the negation of `>=`.
  pub lt-eq-not-le : (x y : W) → is_number x ≡ true → is_number y ≡ true → d.lt x y ≡ not (d.le y x)
  pub le_total :
      (x y : W) → is_number x ≡ true → is_number y ≡ true → (d.le x y ≡ true) ⊎ (d.le y x ≡ true)
  -- Rounding is monotone, so signs are as in exact arithmetic wherever the result is a number.
  pub mul_nonneg :
      (x y : W)
      → d.le nought x ≡ true
      → d.le nought y ≡ true
      → is_number (d.mul x y) ≡ true
      → d.le nought (d.mul x y) ≡ true
  pub add_nonneg :
      (x y : W) → d.le nought x ≡ true → d.le nought y ≡ true → d.le nought (d.add x y) ≡ true
  -- Adding nothing negative does not lower a value, unless the infinities make it NaN.
  pub le-add_nonneg :
      (x y : W) → d.le nought y ≡ true → is_number (d.add x y) ≡ true → d.le x (d.add x y) ≡ true
  -- Multiplying something not negative by at least 1, or by at most 1.
  pub le-mul_of_one_le :
      (x y : W)
      → d.le nought x ≡ true
      → d.le one y ≡ true
      → is_number (d.mul x y) ≡ true
      → d.le x (d.mul x y) ≡ true
  pub mul-le_of_le_one :
      (x y : W)
      → d.le nought x ≡ true
      → d.le y one ≡ true
      → is_number (d.mul x y) ≡ true
      → d.le (d.mul x y) x ≡ true
  pub sub-le_nonneg :
      (x y : W) → d.le nought y ≡ true → is_number (d.sub x y) ≡ true → d.le (d.sub x y) x ≡ true
  pub sub_mono :
      (x y z : W)
      → d.le x y ≡ true
      → is_number (d.sub x z) ≡ true
      → is_number (d.sub y z) ≡ true
      → d.le (d.sub x z) (d.sub y z) ≡ true
  pub sub_nonneg :
      (x y : W) → d.le y x ≡ true → is_number (d.sub x y) ≡ true → d.le nought (d.sub x y) ≡ true
  pub lit_nonneg : (m k : ℕ) → d.le nought (d.lit m k) ≡ true
  -- NaN in gives NaN out.
  pub number_of_add :
      (x y : W) → is_number (d.add x y) ≡ true → (is_number x ≡ true) × (is_number y ≡ true)
  pub number_of_sub :
      (x y : W) → is_number (d.sub x y) ≡ true → (is_number x ≡ true) × (is_number y ≡ true)
  pub number_of_mul :
      (x y : W) → is_number (d.mul x y) ≡ true → (is_number x ≡ true) × (is_number y ≡ true)
