-- ===== src/Prelude/Bits/Masks.antt =====
-- Masks as arithmetic, and tests that a word has every digit of a mask.
use Prim.Native.Nat.{ℕ, zero, suc, ◌+◌, ◌-◌, ◌*◌, ◌/◌, ◌%◌, ◌^◌, ◌≤◌, ◌<◌, bit_and, bit_or}
use mathlib.Core.Path.{◌≡◌, sym, ap, ◌∙◌}
use mathlib.Core.Bool.{true}
use native.Mathlib.Nat.{
  one-le-pow, pow-suc, mod-lt, pow-le-pow_right, div-mul-le_self, div-eq_of_lt-le,
  mul-add-mod_self_right, mod-eq_of_lt,
}
use native.Mathlib.Omega.{arith}
use bolts_rebuilt.Prelude.Bits.{bit, bit-bit_and, bit-bit_or, bit_and-le, eq_of_bits}
use bolts_rebuilt.Prelude.Bits.Words.{
  ones, complement, bit-mod, bit-shift_left, bit-shr, bit-ones, bit-complement,
}

lt_of_le_two_pow : (a w v : ℕ) → a < 2 ^ w → w ≤ v → a < 2 ^ v
lt_of_le_two_pow a w v h k = omega (arith, pow-le-pow_right {n = 2} (omega arith) k)

ones-lt : (w : ℕ) → ones w < 2 ^ w
ones-lt w = omega (arith, one-le-pow w 2 (omega arith))

lt-two-pow : (n : ℕ) → n < 2 ^ n
lt-two-pow zero = omega arith
lt-two-pow (suc n) = omega (arith, lt-two-pow n, pow-suc 2 n)

-- Numbers with the same digits are equal.
pub eq_of_all_bits : (a b : ℕ) → ((i : ℕ) → bit a i ≡ bit b i) → a ≡ b
eq_of_all_bits a b h =
    eq_of_bits (a + b) a b (lt_of_le_two_pow a a (a + b) (lt-two-pow a) (omega arith))
      (lt_of_le_two_pow b b (a + b) (lt-two-pow b) (omega arith)) (λ i _. h i)

-- The digits below position `k`, and those from there on.
bit_of_mod : (k a i : ℕ) → i < k → bit a i ≡ bit (a % 2 ^ k) i
bit_of_mod k a i h = ground (arith, bit-mod k a i)

bit_of_div : (k a i : ℕ) → k ≤ i → bit a i ≡ bit (a / 2 ^ k) (i - k)
bit_of_div k a i h = sym (bit-shr k a (i - k) ∙ ap (bit a) {y = i} (omega arith))

-- Masking by `k` ones is the remainder by `2 ^ k`.
pub bit_and-ones : (k a : ℕ) → bit_and (ones k) a ≡ a % 2 ^ k
bit_and-ones k a =
    eq_of_bits k (bit_and (ones k) a) (a % 2 ^ k) (omega (arith, bit_and-le (ones k) a, ones-lt k))
      (mod-lt a (one-le-pow k 2 (omega arith)))
      (λ i h. rw (bit-bit_and (ones k) a i, bit-ones k i, bit-mod k a i))

pub bit_and_comm : (a b : ℕ) → bit_and a b ≡ bit_and b a
bit_and_comm a b =
    eq_of_all_bits (bit_and a b) (bit_and b a)
      (λ i. ground (arith, bit-bit_and a b i, bit-bit_and b a i))

pub bit_and-ones_right : (k a : ℕ) → bit_and a (ones k) ≡ a % 2 ^ k
bit_and-ones_right k a = bit_and_comm a (ones k) ∙ bit_and-ones k a

-- Clearing the `k` low digits rounds down to a multiple of `2 ^ k`.
pub bit_and-complement :
    (w k a : ℕ) → a < 2 ^ w → k ≤ w → bit_and a (complement w (ones k)) ≡ a / 2 ^ k * 2 ^ k
bit_and-complement w k a h l =
    eq_of_bits w (bit_and a (complement w (ones k))) (a / 2 ^ k * 2 ^ k)
      (omega (arith, bit_and-le a (complement w (ones k))))
      (omega (arith, div-mul-le_self a (2 ^ k)))
      λ i below. ground (
        arith,
        bit-bit_and a (complement w (ones k)) i,
        bit-complement w (ones k) i (lt_of_le_two_pow (ones k) k w (ones-lt k) l),
        bit-ones k i,
        bit-shift_left k (a / 2 ^ k) i,
        bit_of_div k a i,
      )

-- Setting the `k` low digits rounds up to the last number of the block.
pub bit_or-ones : (k a : ℕ) → bit_or a (ones k) ≡ a / 2 ^ k * 2 ^ k + ones k
bit_or-ones k a = eq_of_all_bits (bit_or a (ones k)) up λ i. ground (
  arith,
  bit-bit_or a (ones k) i,
  bit-ones k i,
  bit_of_div k a i,
  bit_of_div k up i,
  ap (λ y. bit y (i - k)) high,
  bit_of_mod k up i,
  ap (λ y. bit y i) low,
)
  where
    up : ℕ
    up = a / 2 ^ k * 2 ^ k + ones k

    high : up / 2 ^ k ≡ a / 2 ^ k
    high = div-eq_of_lt-le (2 ^ k) (omega arith) (grind (arith, one-le-pow k 2))

    low : up % 2 ^ k ≡ ones k
    low = mul-add-mod_self_right (a / 2 ^ k) (2 ^ k) (ones k) ∙ mod-eq_of_lt (ones-lt k)

-- `(x & m) == m` says that `x` has every digit of `m`.
pub bit_of_covers : (x m i : ℕ) → bit_and x m ≡ m → bit m i ≡ true → bit x i ≡ true
bit_of_covers x m i e h = ground (arith, bit-bit_and x m i, ap (λ y. bit y i) e)

pub covers_of_bits :
    (w x m : ℕ) → m < 2 ^ w → ((i : ℕ) → i < w → bit m i ≡ true → bit x i ≡ true) → bit_and x m ≡ m
covers_of_bits w x m h all =
    eq_of_bits w (bit_and x m) m (rw (bit_and_comm x m) (omega (arith, bit_and-le m x))) h
      (λ i below. ground (arith, bit-bit_and x m i, all i below))
