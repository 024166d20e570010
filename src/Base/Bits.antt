-- ===== src/Base/Bits.antt =====
-- The bitwise or of a multiple of a power of two and a smaller number is their sum.
use Prim.Native.Nat.{
  ℕ, zero, suc, ◌+◌, ◌*◌, ◌/◌, ◌%◌, ◌^◌, ◌≤◌, ◌<◌, max, bit_or, digits, bitwise, bit_or-bitwise,
}
use mathlib.Core.Path.{◌≡◌, refl, ap}
use native.Mathlib.Omega.{arith}
use native.Mathlib.Nat.{pow-suc, le_refl}

-- More fuel than digits changes nothing.
digits_enough :
    (n k a b : ℕ) → a ≤ n → a ≤ k → digits (λ y. y) max n a b ≡ digits (λ y. y) max k a b
digits_enough zero zero a b p q = refl
digits_enough zero (suc k) zero b p q = refl
digits_enough (suc n) zero zero b p q = refl
digits_enough (suc n) (suc k) zero b p q = refl
digits_enough zero (suc k) (suc a) b p q = absurd (omega arith)
digits_enough (suc n) zero (suc a) b p q = absurd (omega arith)
digits_enough (suc n) (suc k) (suc a) b p q =
    rw (digits_enough n k (suc a / 2) (b / 2) (omega arith) (omega arith))

or_suc :
    (a b : ℕ)
    → bitwise (λ y. y) max (suc a) b
      ≡ bitwise (λ y. y) max (suc a / 2) (b / 2) * 2 + max (suc a % 2) (b % 2)
or_suc a b =
    omega (arith, digits_enough a (suc a / 2) (suc a / 2) (b / 2) (omega arith) (le_refl _))

-- The lowest digit of an or, and the others.
pub bit_or_digit : (a b : ℕ) → bit_or a b ≡ bit_or (a / 2) (b / 2) * 2 + max (a % 2) (b % 2)
bit_or_digit zero b = simp bit_or-bitwise (omega arith)
bit_or_digit (suc a) b = simp bit_or-bitwise (or_suc a b)

bit_or_zero : (n a : ℕ) → a ≤ n → bit_or a 0 ≡ a
bit_or_zero n zero h = simp bit_or-bitwise (omega arith)
bit_or_zero zero (suc a) h = absurd (omega arith)
bit_or_zero (suc n) (suc a) h =
    omega (arith, bit_or_digit (suc a) 0, bit_or_zero n (suc a / 2) (omega arith))

pub bit_or_sum : (k a f : ℕ) → f < 2 ^ k → bit_or (a * 2 ^ k) f ≡ a * 2 ^ k + f
bit_or_sum zero a f h =
    let none_left : f ≡ 0 = omega (arith, h) in
    rw (none_left) (omega (arith, bit_or_zero (a * 1) (a * 1) (le_refl _)))
bit_or_sum (suc k) a f h =
    let half : a * 2 ^ suc k ≡ a * 2 ^ k * 2 = rw (pow-suc 2 k) (omega arith) in
    let quotient : a * 2 ^ k * 2 / 2 ≡ a * 2 ^ k = omega arith in
    let lower = bit_or_sum k a (f / 2) (omega (arith, pow-suc 2 k)) in
    rw half
      (omega (arith, bit_or_digit (a * 2 ^ k * 2) f, ap (λ z. bit_or z (f / 2)) quotient, lower))

pub bit_or_one : (a : ℕ) → bit_or a 1 ≡ a / 2 * 2 + 1
bit_or_one a = omega (arith, bit_or_digit a 1, bit_or_zero (a / 2) (a / 2) (le_refl _))
