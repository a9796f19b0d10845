-- ===== src/Prelude/Bits/Words.antt =====
-- Shifts, complements and masks of ones on words of `w` digits, and their digits.
use Prim.Native.Nat.{ℕ, zero, suc, ◌+◌, ◌-◌, ◌*◌, ◌/◌, ◌%◌, ◌^◌, ◌<◌}
use mathlib.Core.Path.{◌≡◌, ap, ◌∙◌}
use mathlib.Core.Bool.{not, ◌&&◌}
use native.Mathlib.Nat.{
  pow-suc, pow-succ', one-le-pow, div-div-eq-div-mul, mod-eq_of_lt, add-mul-mod_self_left, mod-lt,
  mod-one, mul-one, sub-zero, suc-sub-suc, div-one, add-zero, div-add-mod,
}
use native.Mathlib.Omega.{arith}
use bolts_rebuilt.Prelude.Tests.{ltb, leb}
use bolts_rebuilt.Prelude.Bits.{bit, bit-zero}

-- `x << k` on a word of `w` digits.
abbrev pub shl : ℕ → ℕ → ℕ → ℕ
shl w x k = x * 2 ^ k % 2 ^ w

-- `x >> k`.
abbrev pub shr : ℕ → ℕ → ℕ
shr x k = x / 2 ^ k

-- The word of `w` ones, such as UINT64_MAX.
abbrev pub ones : ℕ → ℕ
ones w = 2 ^ w - 1

-- `~x` on a word of `w` digits.
abbrev pub complement : ℕ → ℕ → ℕ
complement w x = ones w - x

ltb-suc : (a b : ℕ) → ltb (suc a) (suc b) ≡ ltb a b
ltb-suc a b = ground arith

leb-suc : (a b : ℕ) → leb (suc a) (suc b) ≡ leb a b
leb-suc a b = ground arith

mul-pow-suc : (a k : ℕ) → a * 2 ^ suc k ≡ 2 * (a * 2 ^ k)
mul-pow-suc a k = omega (arith, ap (λ (t : ℕ). a * t) (pow-suc 2 k))

shr-suc : (a k : ℕ) → shr a (suc k) ≡ shr (a / 2) k
shr-suc a k = rw (pow-succ' 2 k, div-div-eq-div-mul a 2 (2 ^ k))

mod_two_pow : (w a : ℕ) → (a % 2 ^ suc w / 2 ≡ a / 2 % 2 ^ w) × (a % 2 ^ suc w % 2 ≡ a % 2)
mod_two_pow w a = omega (arith, split, below)
  where
    m : ℕ
    m = 2 ^ w

    below : a / 2 % 2 ^ w < 2 ^ w
    below = mod-lt (a / 2) (one-le-pow w 2 (omega arith))

    split : a % 2 ^ suc w ≡ a / 2 % 2 ^ w * 2 + a % 2
    split =
        ap (λ y. y % 2 ^ suc w)
          (omega
            (arith, div-add-mod (a / 2) (2 ^ w), ap (λ (t : ℕ). t * (a / 2 / 2 ^ w)) (pow-suc 2 w)))
        ∙ add-mul-mod_self_left (a / 2 % 2 ^ w * 2 + a % 2) (2 ^ suc w) (a / 2 / 2 ^ w)
        ∙ mod-eq_of_lt (omega (arith, below, pow-suc 2 w))

pub bit-mod : (w a i : ℕ) → bit (a % 2 ^ w) i ≡ (ltb i w && bit a i)
unfolding bit
bit-mod zero a i = rw (mod-one a, bit-zero) (ground arith)
bit-mod (suc w) a zero = ground (arith, mod_two_pow w a)
bit-mod (suc w) a (suc i) = rw ((mod_two_pow w a).0) (rw ltb-suc (bit-mod w (a / 2) i))

pub bit-shift_left : (k a i : ℕ) → bit (a * 2 ^ k) i ≡ (leb k i && bit a (i - k))
unfolding bit
bit-shift_left zero a i = rw (mul-one, sub-zero i) (ground arith)
bit-shift_left (suc k) a zero = ground (arith, mul-pow-suc a k)
bit-shift_left (suc k) a (suc i) =
    ap (λ y. bit y i) {y = a * 2 ^ k} (omega (arith, mul-pow-suc a k))
    ∙ rw (leb-suc, suc-sub-suc) (bit-shift_left k a i)

pub bit-shr : (k a i : ℕ) → bit (shr a k) i ≡ bit a (i + k)
unfolding bit
bit-shr zero a i = rw (div-one, add-zero)
bit-shr (suc k) a i =
    ap (λ y. bit y i) (shr-suc a k)
    ∙ bit-shr k (a / 2) i
    ∙ ap (bit a) {x = suc (i + k)} {y = i + suc k} (omega arith)

pub bit-ones : (w i : ℕ) → bit (ones w) i ≡ ltb i w
unfolding bit
bit-ones zero i = rw bit-zero (ground arith)
bit-ones (suc w) zero = ground (arith, pow-suc 2 w, one-le-pow w 2)
bit-ones (suc w) (suc i) =
    ap (λ y. bit y i) {y = ones w} (omega (arith, pow-suc 2 w, one-le-pow w 2 (omega arith)))
    ∙ rw ltb-suc (bit-ones w i)

pub bit-complement : (w a i : ℕ) → a < 2 ^ w → bit (complement w a) i ≡ (ltb i w && not (bit a i))
unfolding bit
bit-complement zero a i h = ap (λ y. bit y i) {y = 0} (omega arith) ∙ rw bit-zero (ground arith)
bit-complement (suc w) a zero h = ground (arith, pow-suc 2 w)
bit-complement (suc w) a (suc i) h =
    ap (λ y. bit y i) {y = complement w (a / 2)}
      (omega (arith, pow-suc 2 w, one-le-pow w 2 (omega arith)))
    ∙ rw ltb-suc (bit-complement w (a / 2) i (omega (arith, pow-suc 2 w)))
