-- ===== src/Float/Order.antt =====
-- Consequences of `IsFloat` for the helpers of <algorithm>.
use sentum.Prelude.{◌≡◌, true, false, arith}
use sentum.Float.{Double, IsFloat, lt, le, is_number, fmax, fmin, clamp}

module _ {W : Type 0} ⦃d : Double W⦄ (laws : IsFloat W) where
  pub le_of_not_lt :
      (x y : W) → is_number x ≡ true → is_number y ≡ true → lt x y ≡ false → le y x ≡ true
  le_of_not_lt x y hx hy h = ground (arith, laws.lt-eq-not-le x y hx hy)

  pub le_of_lt : (x y : W) → lt x y ≡ true → le x y ≡ true
  le_of_lt x y h =
      let (hx, hy) = laws.number_of_lt x y h in
      ground (arith, laws.lt-eq-not-le x y hx hy, laws.le_total x y hx hy)

  pub fmax_bounds :
      (x y : W)
      → is_number x ≡ true
      → is_number y ≡ true
      → (le x (fmax x y) ≡ true) × (le y (fmax x y) ≡ true)
  fmax_bounds x y hx hy = ground (arith, le_of_lt x y, le_of_not_lt x y hx hy)

  pub fmin_bounds :
      (x y : W)
      → is_number x ≡ true
      → is_number y ≡ true
      → (le (fmin x y) x ≡ true) × (le (fmin x y) y ≡ true)
  fmin_bounds x y hx hy = ground (arith, le_of_lt y x, le_of_not_lt y x hy hx)

  -- `std::clamp` lands in the range, if the range is one and the value is a number.
  pub clamp_bounds :
      (x lo hi : W)
      → is_number x ≡ true
      → le lo hi ≡ true
      → (le lo (clamp x lo hi) ≡ true) × (le (clamp x lo hi) hi ≡ true)
  clamp_bounds x lo hi hx h =
      let (hlo, hhi) = laws.number_of_le lo hi h in
      ground (arith, le_of_not_lt x lo hx hlo, le_of_not_lt hi x hhi hx)
