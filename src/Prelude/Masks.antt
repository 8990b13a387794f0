-- ===== src/Prelude/Masks.antt =====
-- The bits of a byte under a mask, from the steps of the native operations.
use Prim.Native.Nat.{
  ℕ, zero, suc, ◌+◌, ◌*◌, ◌/◌, ◌%◌, ◌≤◌, ◌<◌, min, bit_and, bit_xor, differ, bit_and-bitwise,
}
use mathlib.Core.Path.{◌≡◌, refl, ap, sym, ◌∙◌}
use native.Mathlib.Omega.{arith}
use quietquic.Prelude.Bits.{digits_enough, bit_xor_digits, bit_xor_step, bit_xor_twice}

bit_and_step : (a b : ℕ) → bit_and a b ≡ bit_and (a / 2) (b / 2) * 2 + min (a % 2) (b % 2)
bit_and_step zero b = omega (arith, bit_and-bitwise 0 b, bit_and-bitwise 0 (b / 2))
bit_and_step (suc a) b = omega (
  arith,
  bit_and-bitwise (suc a) b,
  bit_and-bitwise (suc a / 2) (b / 2),
  digits_enough (λ y. 0) min a (suc a / 2) (suc a / 2) (b / 2) (omega arith) (omega arith),
)

bit_and-le_below : (k a b : ℕ) → a < k → bit_and a b ≤ b
bit_and-le_below zero a b p = absurd (omega arith)
bit_and-le_below (suc zero) a b p =
    let e : a ≡ 0 = omega arith in rw e (omega (arith, bit_and-bitwise 0 b))
bit_and-le_below (suc (suc k)) a b p =
    omega (arith, bit_and_step a b, bit_and-le_below (suc k) (a / 2) (b / 2) (omega arith))

pub bit_and-le : (a b : ℕ) → bit_and a b ≤ b
bit_and-le a b = bit_and-le_below (suc a) a b (omega arith)

differ_zero_right : (x : ℕ) → differ x 0 ≡ x
differ_zero_right zero = refl
differ_zero_right (suc x) = refl

bit_xor_zero_below : (k a : ℕ) → a < k → bit_xor a 0 ≡ a
bit_xor_zero_below zero a p = absurd (omega arith)
bit_xor_zero_below (suc zero) a p = let e : a ≡ 0 = omega arith in rw e refl
bit_xor_zero_below (suc (suc k)) a p = omega (
  arith,
  bit_xor_step a 0,
  bit_xor_zero_below (suc k) (a / 2) (omega arith),
  differ_zero_right (a % 2),
)

bit_xor_zero : (a : ℕ) → bit_xor a 0 ≡ a
bit_xor_zero a = bit_xor_zero_below (suc a) a (omega arith)

halves : ℕ → ℕ → ℕ
halves zero x = x
halves (suc n) x = halves n (x / 2)

halves-bit_xor : (n a t : ℕ) → halves n (bit_xor a t) ≡ bit_xor (halves n a) (halves n t)
unfolding halves
halves-bit_xor zero a t = refl
halves-bit_xor (suc n) a t = ap (halves n) (bit_xor_digits a t).0 ∙ halves-bit_xor n (a / 2) (t / 2)

-- A mask of the seven lower bits leaves the highest one.
bit_xor_low : (a t : ℕ) → t < 128 → halves 7 (bit_xor a t) ≡ halves 7 a
unfolding halves
bit_xor_low a t p =
    let gone : halves 7 t ≡ 0 = omega arith in
    halves-bit_xor 7 a t ∙ rw gone (bit_xor_zero (halves 7 a))

doubled : (x m : ℕ) → bit_and x (m * 2) ≡ bit_and (x / 2) m * 2
doubled x m =
    let half : m * 2 / 2 ≡ m = omega arith in
    let even : m * 2 % 2 ≡ 0 = omega arith in bit_and_step x (m * 2) ∙ rw (half, even) (omega arith)

-- The highest bit of a byte.
high_bit : (x : ℕ) → bit_and x 128 ≡ bit_and (halves 7 x) 1 * 128
unfolding halves
high_bit x = omega (
  arith,
  doubled x 64,
  doubled (x / 2) 32,
  doubled (x / 2 / 2) 16,
  doubled (x / 2 / 2 / 2) 8,
  doubled (x / 2 / 2 / 2 / 2) 4,
  doubled (x / 2 / 2 / 2 / 2 / 2) 2,
  doubled (x / 2 / 2 / 2 / 2 / 2 / 2) 1,
)

pub bit_and-bit_xor_high : (a t : ℕ) → t < 128 → bit_and (bit_xor a t) 128 ≡ bit_and a 128
bit_and-bit_xor_high a t p =
    high_bit (bit_xor a t) ∙ ap (λ x. bit_and x 1 * 128) (bit_xor_low a t p) ∙ sym (high_bit a)

differ_comm : (x y : ℕ) → differ x y ≡ differ y x
differ_comm zero zero = refl
differ_comm zero (suc y) = refl
differ_comm (suc x) zero = refl
differ_comm (suc x) (suc y) = differ_comm x y

bit_xor_comm_below : (k a b : ℕ) → a < k → b < k → bit_xor a b ≡ bit_xor b a
bit_xor_comm_below zero a b p q = absurd (omega arith)
bit_xor_comm_below (suc zero) a b p q =
    let ea : a ≡ 0 = omega arith in let eb : b ≡ 0 = omega arith in rw (ea, eb) refl
bit_xor_comm_below (suc (suc k)) a b p q = omega (
  arith,
  bit_xor_step a b,
  bit_xor_step b a,
  bit_xor_comm_below (suc k) (a / 2) (b / 2) (omega arith) (omega arith),
  differ_comm (a % 2) (b % 2),
)

-- A byte that is masked tells the mask.
pub bit_xor_cancel : (a b c : ℕ) → bit_xor a b ≡ bit_xor a c → b ≡ c
bit_xor_cancel a b c e =
    sym (bit_xor_twice b a) ∙ ap (λ x. bit_xor x a) (comm b a ∙ e ∙ comm a c) ∙ bit_xor_twice c a
  where
    comm : (x y : ℕ) → bit_xor x y ≡ bit_xor y x
    comm x y = bit_xor_comm_below (suc (x + y)) x y (omega arith) (omega arith)
