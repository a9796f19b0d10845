-- ===== src/Pages.antt =====
-- Pages of shared memory as digits of 64-bit words: the masks that
-- src/gpu/native/native_shared_residency_mirror.h, native_invalidation_range.h and
-- src/runtime/watch_fastpath.h build for the pages `first` to `last` of one word.
pub mod Invalidation
pub mod Count
use native.Mathlib.Nat.{pow-suc}
use bolts_rebuilt.Prelude.{
  ℕ, ◌+◌, ◌-◌, ◌*◌, ◌/◌, ◌%◌, ◌^◌, ◌≤◌, ◌<◌, ◌≡◌, ◌↔◌, bit_and, true, arith, ltb, leb, ◌==◌,
  if◌then◌else◌, Bool, ◌&&◌,
}
use bolts_rebuilt.Prelude.Bits.{bit, bit-bit_and, bit_and-le}
use bolts_rebuilt.Prelude.Bits.Words.{shl, shr, ones, bit-ones, bit-shift_left, bit-shr, bit-mod}
use bolts_rebuilt.Prelude.Bits.Masks.{bit_and-ones_right}

-- PageMask: all ones, less the pages before `first` in its word and those behind `last` in its word.
unfoldable pub page_mask : ℕ → ℕ → ℕ → ℕ
page_mask word first last =
    let from_first =
      if word == first / 64
      then bit_and (ones 64) (shl 64 (ones 64) (bit_and first 63))
      else ones 64 in
    if word == last / 64
    then bit_and from_first (shr (ones 64) (63 - bit_and last 63))
    else from_first

low_digits : (x : ℕ) → bit_and x 63 ≡ x % 64
low_digits x = bit_and-ones_right 6 x

first_ones : (k i : ℕ) → i < 64 → bit (shl 64 (ones 64) k) i ≡ leb k i
first_ones k i h =
    ground
      (arith, bit-mod 64 (ones 64 * 2 ^ k) i, bit-shift_left k (ones 64) i, bit-ones 64 (i - k))

last_ones : (k i : ℕ) → k < 64 → i < 64 → bit (shr (ones 64) (63 - k)) i ≡ leb i k
last_ones k i p h = ground (arith, bit-shr (63 - k) (ones 64) i, bit-ones 64 (i + (63 - k)))

-- The page `64 * word + i`, of a word between those of `first` and `last`.
pub bit-page_mask :
    (word first last i : ℕ)
    → i < 64
    → first / 64 ≤ word
    → word ≤ last / 64
    → bit (page_mask word first last) i ≡ (leb first (64 * word + i) && leb (64 * word + i) last)
unfolding page_mask
bit-page_mask word first last i h p q =
    rw (low_digits first, low_digits last)
      (ground (
        arith,
        bit-bit_and (ones 64) low i,
        bit-bit_and (bit_and (ones 64) low) high i,
        bit-bit_and (ones 64) high i,
        bit-ones 64 i,
        first_ones (first % 64) i h,
        last_ones (last % 64) i (omega arith) h,
      ))
  where
    low : ℕ
    low = shl 64 (ones 64) (first % 64)

    high : ℕ
    high = shr (ones 64) (63 - last % 64)

pub page_mask-lt : (word first last : ℕ) → page_mask word first last < 2 ^ 64
unfolding page_mask
page_mask-lt word first last = ground (
  arith,
  bit_and-le (ones 64) (shl 64 (ones 64) (bit_and first 63)),
  bit_and-le (ones 64) (shr (ones 64) (63 - bit_and last 63)),
  bit_and-le (bit_and (ones 64) (shl 64 (ones 64) (bit_and first 63)))
      (shr (ones 64) (63 - bit_and last 63)),
)
