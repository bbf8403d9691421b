-- ===== src/Prelude/Bits.antt =====
-- Masks of one byte, and `or` of numbers that share no binary digit, as arithmetic.
use Prim.Native.Nat.{
  ℕ, zero, suc, ◌+◌, ◌*◌, ◌/◌, ◌%◌, ◌^◌, ◌≤◌, ◌<◌, max, bit_and, bit_or, digits, bit_or-bitwise,
}
use mathlib.Core.Path.{◌≡◌, refl, ◌∙◌, ap}
use mathlib.Core.Bool.{Bool, true, ◌&&◌}
use native.Mathlib.Omega.{arith}
use crashkit.Prelude.Tests.{◌==◌, ==_iff}

-- A test of every number below a bound.
every_below : (ℕ → Bool) → ℕ → Bool
every_below test zero = true
every_below test (suc n) = every_below test n && test n

every_below→eq :
    (f g : ℕ → ℕ) (n : ℕ) → every_below (λ i. f i == g i) n ≡ true → (i : ℕ) → i < n → f i ≡ g i
unfolding every_below
every_below→eq f g zero h i l = absurd (omega arith)
every_below→eq f g (suc n) h i l =
    ground (arith, every_below→eq f g n (ground arith) i, ==_iff (f n) (g n))

pub low_seven : (b : ℕ) → b < 256 → bit_and b 0x7f ≡ b % 128
unfolding every_below
low_seven = every_below→eq (λ b. bit_and b 0x7f) (λ b. b % 128) 256 refl

pub top_bit : (b : ℕ) → b < 256 → bit_and b 0x80 ≡ b / 128 * 128
unfolding every_below
top_bit = every_below→eq (λ b. bit_and b 0x80) (λ b. b / 128 * 128) 256 refl

pub with_top_bit : (b : ℕ) → b < 128 → bit_or b 0x80 ≡ b + 128
unfolding every_below
with_top_bit = every_below→eq (λ b. bit_or b 0x80) (λ b. b + 128) 128 refl

or_digits : (n k r v : ℕ) → r ≤ n → r < 2 ^ k → digits (λ b. b) max n r (v * 2 ^ k) ≡ r + v * 2 ^ k
or_digits zero k zero v h l = omega arith
or_digits zero k (suc r) v h l = absurd (omega arith)
or_digits (suc n) k zero v h l = omega arith
or_digits (suc n) zero (suc r) v h l = absurd (omega (arith, l))
or_digits (suc n) (suc k) (suc r) v h l =
    let e : 2 ^ suc k ≡ 2 * 2 ^ k = omega arith in
    let w : v * 2 ^ suc k ≡ 2 * (v * 2 ^ k) = omega (arith, ap (λ (t : ℕ). v * t) e) in
    let half : v * 2 ^ suc k / 2 ≡ v * 2 ^ k = omega (arith, w) in
    let even : v * 2 ^ suc k % 2 ≡ 0 = omega (arith, w) in
    rw (half, even, or_digits n k (suc r / 2) v (omega arith) (omega (arith, l, e)))
      (omega (arith, w))

-- `or` of a number of `k` binary digits and of one whose last `k` are zero.
pub or_shifted : (k r v : ℕ) → r < 2 ^ k → bit_or r (v * 2 ^ k) ≡ r + v * 2 ^ k
or_shifted k r v h = bit_or-bitwise r (v * 2 ^ k) ∙ or_digits r k r v (omega arith) h
