-- ===== src/Prelude/Bits.antt =====
-- Binary digits: the words of the program are numbers, its masks are read digit by digit.
pub mod Words
pub mod Masks
use Prim.Native.Nat.{
  ℕ, zero, suc, ◌+◌, ◌*◌, ◌/◌, ◌%◌, ◌^◌, ◌≤◌, ◌<◌, min, max, bit_and, bit_or, digits,
  bit_and-bitwise, bit_or-bitwise,
}
use mathlib.Core.Path.{◌≡◌, refl, ap, ◌∙◌}
use mathlib.Core.Bool.{Bool, false, ◌&&◌, ◌||◌}
use native.Mathlib.Nat.{le_refl, pow-suc}
use native.Mathlib.Omega.{arith}
use bolts_rebuilt.Prelude.Tests.{◌==◌}

-- The digit of `a` at position `i`.
unfoldable pub bit : ℕ → ℕ → Bool
bit a zero = a % 2 == 1
bit a (suc i) = bit (a / 2) i

pub bit-zero : (i : ℕ) → bit 0 i ≡ false
unfolding bit
bit-zero zero = refl
bit-zero (suc i) = bit-zero i

-- A number made of its lowest digit and the rest.
bit-cons : (x d i : ℕ) → d < 2 → bit (x * 2 + d) (suc i) ≡ bit x i
unfolding bit
bit-cons x d i h = ap (λ y. bit y i) (omega arith)

and_digits-bit : (n a b i : ℕ) → a ≤ n → bit (digits (λ _. 0) min n a b) i ≡ (bit a i && bit b i)
unfolding bit
and_digits-bit zero zero b i h = rw bit-zero
and_digits-bit zero (suc a) b i h = absurd (omega arith)
and_digits-bit (suc n) zero b i h = rw bit-zero
and_digits-bit (suc n) (suc a) b zero h = ground arith
and_digits-bit (suc n) (suc a) b (suc i) h =
    bit-cons (digits (λ _. 0) min n (suc a / 2) (b / 2)) (min (suc a % 2) (b % 2)) i (omega arith)
    ∙ and_digits-bit n (suc a / 2) (b / 2) i (omega arith)

or_digits-bit : (n a b i : ℕ) → a ≤ n → bit (digits (λ y. y) max n a b) i ≡ (bit a i || bit b i)
unfolding bit
or_digits-bit zero zero b i h = rw bit-zero
or_digits-bit zero (suc a) b i h = absurd (omega arith)
or_digits-bit (suc n) zero b i h = rw bit-zero
or_digits-bit (suc n) (suc a) b zero h = ground arith
or_digits-bit (suc n) (suc a) b (suc i) h =
    bit-cons (digits (λ y. y) max n (suc a / 2) (b / 2)) (max (suc a % 2) (b % 2)) i (omega arith)
    ∙ or_digits-bit n (suc a / 2) (b / 2) i (omega arith)

pub bit-bit_and : (a b i : ℕ) → bit (bit_and a b) i ≡ (bit a i && bit b i)
bit-bit_and a b i = rw bit_and-bitwise (and_digits-bit a a b i (le_refl a))

pub bit-bit_or : (a b i : ℕ) → bit (bit_or a b) i ≡ (bit a i || bit b i)
bit-bit_or a b i = rw bit_or-bitwise (or_digits-bit a a b i (le_refl a))

-- Numbers of `w` digits are equal if their digits are.
pub eq_of_bits : (w a b : ℕ) → a < 2 ^ w → b < 2 ^ w → ((i : ℕ) → i < w → bit a i ≡ bit b i) → a ≡ b
unfolding bit
eq_of_bits zero a b p q h = omega arith
eq_of_bits (suc w) a b p q h = ground (
  arith,
  pow-suc 2 w,
  h 0 (omega arith),
  eq_of_bits w (a / 2) (b / 2) (omega (arith, pow-suc 2 w)) (omega (arith, pow-suc 2 w))
      (λ i k. h (suc i) (omega arith)),
)

and_digits-le : (n a b : ℕ) → a ≤ n → digits (λ _. 0) min n a b ≤ a
and_digits-le zero a b h = omega arith
and_digits-le (suc n) zero b h = omega arith
and_digits-le (suc n) (suc a) b h = omega (arith, and_digits-le n (suc a / 2) (b / 2) (omega arith))

pub bit_and-le : (a b : ℕ) → bit_and a b ≤ a
bit_and-le a b = rw bit_and-bitwise (and_digits-le a a b (le_refl a))

or_digits-lt : (w n a b : ℕ) → a ≤ n → a < 2 ^ w → b < 2 ^ w → digits (λ y. y) max n a b < 2 ^ w
or_digits-lt w zero a b h p q = q
or_digits-lt w (suc n) zero b h p q = q
or_digits-lt zero (suc n) (suc a) b h p q = absurd (omega arith)
or_digits-lt (suc w) (suc n) (suc a) b h p q = omega (
  arith,
  pow-suc 2 w,
  or_digits-lt w n (suc a / 2) (b / 2) (omega arith) (omega (arith, pow-suc 2 w))
      (omega (arith, pow-suc 2 w)),
)

pub bit_or-lt : (w a b : ℕ) → a < 2 ^ w → b < 2 ^ w → bit_or a b < 2 ^ w
bit_or-lt w a b p q = rw bit_or-bitwise (or_digits-lt w a a b (le_refl a) p q)
