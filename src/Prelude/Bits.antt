-- ===== src/Prelude/Bits.antt =====
-- Laws of exclusive or and of or at variables, from the digits that the native operations stand for.
use Prim.Native.Nat.{
  ℕ, zero, suc, ◌+◌, ◌*◌, ◌/◌, ◌%◌, ◌^◌, ◌≤◌, ◌<◌, max, bit_xor, bit_or, digits, differ,
  bit_xor-bitwise, bit_or-bitwise,
}
use mathlib.Core.Path.{◌≡◌, refl, ap}
use native.Mathlib.Nat.{pow-suc}
use native.Mathlib.Omega.{arith}

-- The count of digits to go does not matter once it reaches the first number.
pub digits_enough :
    (z : ℕ → ℕ) (f : ℕ → ℕ → ℕ) (n m a b : ℕ) → a ≤ n → a ≤ m → digits z f n a b ≡ digits z f m a b
digits_enough z f zero zero a b p q = refl
digits_enough z f zero (suc m) zero b p q = refl
digits_enough z f zero (suc m) (suc a) b p q = absurd (omega arith)
digits_enough z f (suc n) zero zero b p q = refl
digits_enough z f (suc n) zero (suc a) b p q = absurd (omega arith)
digits_enough z f (suc n) (suc m) zero b p q = refl
digits_enough z f (suc n) (suc m) (suc a) b p q =
    omega (arith, digits_enough z f n m (suc a / 2) (b / 2) (omega arith) (omega arith))

differ_zero : (y : ℕ) → differ 0 y ≡ y
differ_zero y = refl

pub bit_xor_step : (a b : ℕ) → bit_xor a b ≡ bit_xor (a / 2) (b / 2) * 2 + differ (a % 2) (b % 2)
bit_xor_step zero b =
    omega (arith, bit_xor-bitwise 0 b, bit_xor-bitwise 0 (b / 2), differ_zero (b % 2))
bit_xor_step (suc a) b = omega (
  arith,
  bit_xor-bitwise (suc a) b,
  bit_xor-bitwise (suc a / 2) (b / 2),
  digits_enough (λ y. y) differ a (suc a / 2) (suc a / 2) (b / 2) (omega arith) (omega arith),
)

bit_or_step : (a b : ℕ) → bit_or a b ≡ bit_or (a / 2) (b / 2) * 2 + max (a % 2) (b % 2)
bit_or_step zero b = omega (arith, bit_or-bitwise 0 b, bit_or-bitwise 0 (b / 2))
bit_or_step (suc a) b = omega (
  arith,
  bit_or-bitwise (suc a) b,
  bit_or-bitwise (suc a / 2) (b / 2),
  digits_enough (λ y. y) max a (suc a / 2) (suc a / 2) (b / 2) (omega arith) (omega arith),
)

differ_self : (x : ℕ) → differ x x ≡ 0
differ_self zero = refl
differ_self (suc x) = differ_self x

-- Two binary digits.
record DigitLaws (x y : ℕ) : Type 0 where
  small : differ x y < 2
  again : differ (differ x y) y ≡ x
  same : differ x y ≡ 0 → x ≡ y

digit_laws : (x y : ℕ) → x < 2 → y < 2 → DigitLaws x y
digit_laws zero zero p q = omega arith
digit_laws zero (suc zero) p q = omega arith
digit_laws zero (suc (suc y)) p q = absurd (omega arith)
digit_laws (suc zero) zero p q = omega arith
digit_laws (suc zero) (suc zero) p q = omega arith
digit_laws (suc zero) (suc (suc y)) p q = absurd (omega arith)
digit_laws (suc (suc x)) y p q = absurd (omega arith)

low_digits : (a b : ℕ) → DigitLaws (a % 2) (b % 2)
low_digits a b = digit_laws (a % 2) (b % 2) (omega arith) (omega arith)

-- Halving and the lowest digit go through exclusive or.
pub bit_xor_digits :
    (a b : ℕ)
    → (bit_xor a b / 2 ≡ bit_xor (a / 2) (b / 2)) × (bit_xor a b % 2 ≡ differ (a % 2) (b % 2))
bit_xor_digits a b =
    let small = (low_digits a b).small in
    (omega (arith, bit_xor_step a b), omega (arith, bit_xor_step a b))

bit_xor_twice_below : (k a b : ℕ) → a < k → b < k → bit_xor (bit_xor a b) b ≡ a
bit_xor_twice_below zero a b p q = absurd (omega arith)
bit_xor_twice_below (suc zero) a b p q =
    let ea : a ≡ 0 = omega arith in let eb : b ≡ 0 = omega arith in rw (ea, eb) refl
bit_xor_twice_below (suc (suc k)) a b p q =
    let c = bit_xor a b in
    let inner = bit_xor_digits a b in
    let outer = bit_xor_digits c b in
    let high = bit_xor_twice_below (suc k) (a / 2) (b / 2) (omega arith) (omega arith) in
    omega (
      arith,
      inner,
      outer,
      high,
      ap (λ (t : ℕ). bit_xor t (b / 2)) inner.0,
      ap (λ (t : ℕ). differ t (b % 2)) inner.1,
      (low_digits a b).again,
    )

-- The same mask twice gives the number back.
pub bit_xor_twice : (a b : ℕ) → bit_xor (bit_xor a b) b ≡ a
bit_xor_twice a b = bit_xor_twice_below (suc (a + b)) a b (omega arith) (omega arith)

bit_xor-eq-zero_below : (k a b : ℕ) → a < k → b < k → bit_xor a b ≡ 0 → a ≡ b
bit_xor-eq-zero_below zero a b p q e = absurd (omega arith)
bit_xor-eq-zero_below (suc zero) a b p q e = omega arith
bit_xor-eq-zero_below (suc (suc k)) a b p q e =
    let d = bit_xor_digits a b in
    let high =
      bit_xor-eq-zero_below (suc k) (a / 2) (b / 2) (omega arith) (omega arith) (omega arith) in
    let low = (low_digits a b).same (omega arith) in omega arith

-- Numbers whose exclusive or is zero are equal.
pub bit_xor-eq-zero : (a b : ℕ) → bit_xor a b ≡ 0 → a ≡ b
bit_xor-eq-zero a b = bit_xor-eq-zero_below (suc (a + b)) a b (omega arith) (omega arith)

bit_xor_self_below : (k a : ℕ) → a < k → bit_xor a a ≡ 0
bit_xor_self_below zero a p = absurd (omega arith)
bit_xor_self_below (suc zero) a p = let e : a ≡ 0 = omega arith in rw e refl
bit_xor_self_below (suc (suc k)) a p =
    omega (
      arith,
      bit_xor_step a a,
      bit_xor_self_below (suc k) (a / 2) (omega arith),
      differ_self (a % 2),
    )

pub bit_xor_self : (a : ℕ) → bit_xor a a ≡ 0
bit_xor_self a = bit_xor_self_below (suc a) a (omega arith)

bit_or-eq-zero_below : (k a b : ℕ) → a < k → b < k → bit_or a b ≡ 0 → (a ≡ 0) × (b ≡ 0)
bit_or-eq-zero_below zero a b p q e = absurd (omega arith)
bit_or-eq-zero_below (suc zero) a b p q e = omega arith
bit_or-eq-zero_below (suc (suc k)) a b p q e =
    let step = bit_or_step a b in
    let high =
      bit_or-eq-zero_below (suc k) (a / 2) (b / 2) (omega arith) (omega arith) (omega arith) in
    omega arith

-- An or is zero only where both sides are.
pub bit_or-eq-zero : (a b : ℕ) → bit_or a b ≡ 0 → (a ≡ 0) × (b ≡ 0)
bit_or-eq-zero a b e = bit_or-eq-zero_below (suc (a + b)) a b (omega arith) (omega arith) e

pub bit_xor-lt : (k a b : ℕ) → a < 2 ^ k → b < 2 ^ k → bit_xor a b < 2 ^ k
bit_xor-lt zero a b p q =
    let ea : a ≡ 0 = omega arith in let eb : b ≡ 0 = omega arith in rw (ea, eb) (omega arith)
bit_xor-lt (suc k) a b p q = omega (
  arith,
  pow-suc 2 k,
  bit_xor_step a b,
  (low_digits a b).small,
  bit_xor-lt k (a / 2) (b / 2) (omega (arith, pow-suc 2 k)) (omega (arith, pow-suc 2 k)),
)
