-- ===== src/Pages/Count.antt =====
-- How many positions below a bound pass a test: what std::popcount counts.
use bolts_rebuilt.Prelude.{ℕ, zero, suc, ◌+◌, ◌≤◌, ◌<◌, ◌≡◌, refl, Bool, arith, if◌then◌else◌}
use bolts_rebuilt.Prelude.Bits.{bit}

unfoldable pub count_below : ℕ → (ℕ → Bool) → ℕ
count_below zero p = 0
count_below (suc n) p = count_below n p + (if p n then 1 else 0)

-- std::popcount of a word of `w` digits.
unfoldable pub popcount : ℕ → ℕ → ℕ
popcount w x = count_below w (bit x)

pub count_below_ext :
    (n : ℕ) (p q : ℕ → Bool) → ((i : ℕ) → i < n → p i ≡ q i) → count_below n p ≡ count_below n q
unfolding count_below
count_below_ext zero p q h = refl
count_below_ext (suc n) p q h =
    ground (arith, h n (omega arith), count_below_ext n p q (λ i k. h i (omega arith)))

pub count_below-le : (n : ℕ) (p : ℕ → Bool) → count_below n p ≤ n
unfolding count_below
count_below-le zero p = omega arith
count_below-le (suc n) p = ground (arith, count_below-le n p)
