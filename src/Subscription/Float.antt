-- ===== src/Subscription/Float.antt =====
-- What email/delivery_subscription.go does with a `float64`, and the laws of it that the proofs use.
use blocky_cloud.Prelude.{
  ℕ, suc, ◌+◌, ◌-◌, ◌*◌, ◌/◌, ◌≤◌, ◌<◌, Bool, true, false, ltb, leb, ◌==◌, ◌≡◌, refl, arith,
  if◌then◌else◌,
}

-- `lt` and `le` are `<` and `<=`. `scale n d` multiplies by the constant n/d, `per_second` divides a
-- count by the seconds of a duration in nanoseconds, and `ceil_min x n` is
-- `int(math.Ceil(math.Min(x, n)))`.
pub record Float (F : Type 0) : Type 0 where
  pub of_nat : ℕ → F
  pub lt : F → F → Bool
  pub le : F → F → Bool
  pub plus : F → F → F
  pub scale : ℕ → ℕ → F → F
  pub per_second : ℕ → ℕ → F
  pub ceil_min : F → ℕ → ℕ

-- A float is positive if `0 < x`; a NaN is not. It is a number if `0 <= x` or `x < 0` is true of it.
abbrev pub IsPositive : {F : Type 0} → Float F → F → Type 0
IsPositive fl x = fl.lt (fl.of_nat 0) x ≡ true

abbrev pub IsNonnegative : {F : Type 0} → Float F → F → Type 0
IsNonnegative fl x = fl.le (fl.of_nat 0) x ≡ true

-- Laws of IEEE floats with rounding to the nearest. A positive float times a constant above 1/2 stays
-- positive, since the least positive float is what it rounds to.
pub record IsIeee {F : Type 0} (fl : Float F) : Type 0 where
  pub one_positive : IsPositive fl (fl.of_nat 1)
  pub positive-nonnegative : (x : F) → IsPositive fl x → IsNonnegative fl x
  pub scale-positive :
      (n d : ℕ) (x : F) → d < n + n → IsPositive fl x → IsPositive fl (fl.scale n d x)
  pub scale-nonnegative : (n d : ℕ) (x : F) → IsNonnegative fl x → IsNonnegative fl (fl.scale n d x)
  pub plus-nonnegative :
      (x y : F) → IsNonnegative fl x → IsNonnegative fl y → IsNonnegative fl (fl.plus x y)
  pub per_second-nonnegative : (n t : ℕ) → 0 < t → IsNonnegative fl (fl.per_second n t)
  pub not_below_positive :
      (x y : F) → IsNonnegative fl y → IsPositive fl x → fl.lt y x ≡ false → IsPositive fl y
  pub ceil_min-bounds :
      (x : F) (n : ℕ) → 0 < n → IsPositive fl x → (0 < fl.ceil_min x n) × (fl.ceil_min x n ≤ n)

-- The laws can be met: whole numbers, where a product is rounded up.
abbrev pub whole : Float ℕ
whole = record {
  of_nat = λ n. n;
  lt = ltb;
  le = leb;
  plus = λ a b. a + b;
  scale = λ n d x. if x == 0 then 0 else suc ((x * n - 1) / d);
  per_second = λ n t. n;
  ceil_min = λ x n. if ltb x n then x else n;
}

pub whole-IsIeee : IsIeee whole
whole-IsIeee = record {
  one_positive = refl;
  positive-nonnegative = λ x p. ground arith;
  scale-positive = λ n d x h p. ground arith;
  scale-nonnegative = λ n d x p. ground arith;
  plus-nonnegative = λ x y p q. ground arith;
  per_second-nonnegative = λ n t h. ground arith;
  not_below_positive = λ x y p q r. ground arith;
  ceil_min-bounds = λ x n h p. ground arith;
}
