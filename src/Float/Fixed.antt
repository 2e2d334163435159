-- ===== src/Float/Fixed.antt =====
-- A concrete arithmetic that runs: numbers with twelve decimals, truncated towards zero. It has no NaN
-- and no infinity, and meets `IsFloat`.
use sentum.Prelude.{
  ℕ, zero, suc, ◌+◌, ◌-◌, ◌*◌, ◌/◌, ◌^◌, ◌≤◌, ◌≡◌, refl, Bool, true, false, not, if◌then◌else◌, ltb,
  leb, ◌==◌, arith,
}
use native.Mathlib.Nat.{mul-le-mul_left}
use sentum.Prelude.Int.{ℤ, pos, negsuc, pos_part, neg_part, ◌+ℤ◌, ◌-ℤ◌}
use sentum.Float.{Double, IsFloat}

abbrev pub Fixed : Type 0
Fixed = ℤ

abbrev scale : ℕ
scale = 10 ^ 12

-- The integer with the given sign and size.
abbrev signed : Bool → ℕ → ℤ
signed false n = pos n
signed true zero = pos 0
signed true (suc n) = negsuc n

abbrev is_neg : ℤ → Bool
is_neg (pos n) = false
is_neg (negsuc n) = true

abbrev size : ℤ → ℕ
size (pos n) = n
size (negsuc n) = suc n

abbrev differ : Bool → Bool → Bool
differ true b = not b
differ false b = b

-- The integer part of the square root, digit by digit.
abbrev isqrt_from : ℕ → ℕ → ℕ → ℕ
isqrt_from zero n r = r
isqrt_from (suc k) n r = isqrt_from k n (if leb ((r + 2 ^ k) * (r + 2 ^ k)) n then r + 2 ^ k else r)

abbrev pub whole : ℕ → Fixed
whole n = pos (n * scale)

instance abbrev pub fixed_double : Double Fixed
fixed_double = record {
  lit = λ m k. pos (m * scale / 10 ^ k);
  add = λ a b. a +ℤ b;
  sub = λ a b. a -ℤ b;
  mul = λ a b. signed (differ (is_neg a) (is_neg b)) (size a * size b / scale);
  div = λ a b. signed (differ (is_neg a) (is_neg b)) (size a * scale / size b);
  neg = λ a. signed (not (is_neg a)) (size a);
  floor = λ a.
      if is_neg a
      then signed true ((size a + scale - 1) / scale * scale)
      else pos (size a / scale * scale);
  round = λ a. signed (is_neg a) ((size a + scale / 2) / scale * scale);
  sqrt = λ a. pos (isqrt_from 64 (size a * scale) 0);
  lt = λ a b. ltb (pos_part a + neg_part b) (pos_part b + neg_part a);
  le = λ a b. leb (pos_part a + neg_part b) (pos_part b + neg_part a);
  eq = λ a b. pos_part a + neg_part b == pos_part b + neg_part a;
}

mul_nonneg :
    (x y : ℤ)
    → leb (neg_part x) (pos_part x) ≡ true
    → leb (neg_part y) (pos_part y) ≡ true
    → let z = fixed_double.mul x y in leb (neg_part z) (pos_part z) ≡ true
mul_nonneg (pos n) (pos m) hx hy = ground arith
mul_nonneg (negsuc n) y hx hy = absurd (ground arith)
mul_nonneg (pos n) (negsuc m) hx hy = absurd (ground arith)

scale_up : (n m : ℕ) → scale ≤ m → n ≤ n * m / scale
scale_up n m h = omega (arith, mul-le-mul_left n h)

scale_down : (n m : ℕ) → m ≤ scale → n * m / scale ≤ n
scale_down n m h = omega (arith, mul-le-mul_left n h)

mul_grows :
    (x y : ℤ)
    → fixed_double.le (pos 0) x ≡ true
    → fixed_double.le (whole 1) y ≡ true
    → fixed_double.le x (fixed_double.mul x y) ≡ true
mul_grows (pos n) (pos m) hx hy = ground (arith, scale_up n m)
mul_grows (negsuc n) y hx hy = absurd (ground arith)
mul_grows (pos n) (negsuc m) hx hy = absurd (ground arith)

below : (n k : ℕ) → leb (pos_part (signed true k) + 0) (n + neg_part (signed true k)) ≡ true
below n zero = ground arith
below n (suc k) = ground arith

mul_shrinks :
    (x y : ℤ)
    → fixed_double.le (pos 0) x ≡ true
    → fixed_double.le y (whole 1) ≡ true
    → fixed_double.le (fixed_double.mul x y) x ≡ true
mul_shrinks (pos n) (pos m) hx hy = ground (arith, scale_down n m)
mul_shrinks (negsuc n) y hx hy = absurd (ground arith)
mul_shrinks (pos n) (negsuc m) hx hy = below n (n * suc m / scale)

pub Fixed-IsFloat : IsFloat Fixed
unfolding ◌+ℤ◌ ◌-ℤ◌
Fixed-IsFloat = record {
  lit_number = λ m k. ground arith;
  number_of_le = λ x y h. ground arith;
  number_of_lt = λ x y h. ground arith;
  le_trans = λ x y z h k. ground arith;
  lt-eq-not-le = λ x y hx hy. ground arith;
  le_total = λ x y hx hy. ground arith;
  mul_nonneg = λ x y hx hy h. ground (arith, mul_nonneg x y);
  add_nonneg = λ x y hx hy. ground arith;
  le-add_nonneg = λ x y hx hy. ground arith;
  le-mul_of_one_le = λ x y hx hy h. mul_grows x y hx hy;
  mul-le_of_le_one = λ x y hx hy h. mul_shrinks x y hx hy;
  sub-le_nonneg = λ x y hy h. ground arith;
  sub_mono = λ x y z h hx hy. ground arith;
  sub_nonneg = λ x y h k. ground arith;
  lit_nonneg = λ m k. ground arith;
  number_of_add = λ x y h. ground arith;
  number_of_sub = λ x y h. ground arith;
  number_of_mul = λ x y h. ground arith;
}

runs : fixed_double.div (whole 1) (whole 8) ≡ fixed_double.lit 125 3
runs = refl
