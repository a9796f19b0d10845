-- ===== src/Pages/Invalidation.antt =====
-- src/gpu/native/native_invalidation_range.h: the cap on how far a CPU write invalidates the pages
-- round it, and the diagnostics that count the pages it spares. Pages are uint32_t indices.
use native.Mathlib.Nat.{
  one-le-pow, pow-le-pow_right, lt-div-mul-add, le-div_iff_mul-le, div-lt_iff_lt-mul,
}
use bolts_rebuilt.Prelude.{
  ◌&&◌, not, false, ℕ, ◌+◌, ◌-◌, ◌*◌, ◌/◌, ◌%◌, ◌^◌, ◌≤◌, ◌<◌, min, max, bit_and, bit_or, ◌≡◌, Bool,
  true, ◌||◌, arith, ltb, leb, if◌then◌else◌,
}
use bolts_rebuilt.Prelude.Bits.{bit, bit-bit_and, bit-zero, bit_and-le}
use bolts_rebuilt.Prelude.Bits.Words.{shl, shr, ones, complement, bit-complement}
use bolts_rebuilt.Prelude.Bits.Masks.{bit_and-complement, bit_or-ones}
use bolts_rebuilt.Pages.{page_mask, bit-page_mask, page_mask-lt}
use bolts_rebuilt.Pages.Count.{count_below, popcount, count_below_ext}

-- NativeInvalidationRange, both ends inclusive.
pub record InvalidationRange : Type 0 where
  pub first : ℕ
  pub last : ℕ

abbrev pub block_log2 : ℕ → ℕ
block_log2 host_page_size_log2 = if ltb host_page_size_log2 16 then 16 - host_page_size_log2 else 0

-- (uint32_t(1) << block_log2) - 1
pub block_mask : ℕ → ℕ
block_mask host_page_size_log2 = (shl 32 1 (block_log2 host_page_size_log2) + 2 ^ 32 - 1) % 2 ^ 32

pub cap_invalidation_range :
    InvalidationRange → InvalidationRange → ℕ → Bool → Bool → InvalidationRange
cap_invalidation_range requested original host_page_size_log2 exact enabled =
    if not enabled
      || exact
      || leb 32 host_page_size_log2
      || ltb requested.last requested.first
      || ltb requested.first original.first
      || ltb original.last requested.last
    then original
    else (record {
      first =
          max original.first
            (bit_and requested.first (complement 32 (block_mask host_page_size_log2)));
      last = min original.last (bit_or requested.last (block_mask host_page_size_log2));
    })

pub page_count : InvalidationRange → ℕ
page_count range = if leb range.first range.last then range.last - range.first + 1 else 0

pub invalidation_page_mask : InvalidationRange → ℕ → ℕ
invalidation_page_mask range block =
    if ltb range.last range.first || ltb block (shr range.first 6) || ltb (shr range.last 6) block
    then 0
    else page_mask block range.first range.last

pub retained_cpu_pages : InvalidationRange → InvalidationRange → ℕ → ℕ → ℕ → ℕ
retained_cpu_pages original selected block valid gpu_written = popcount 64 (
    bit_and
      (bit_and (bit_and valid (complement 64 gpu_written)) (invalidation_page_mask original block))
      (complement 64 (invalidation_page_mask selected block)))

abbrev pub in_range : InvalidationRange → ℕ → Bool
in_range range page = leb range.first page && leb page range.last

pub bit-invalidation_page_mask :
    (range : InvalidationRange) (block i : ℕ)
    → i < 64
    → bit (invalidation_page_mask range block) i ≡ in_range range (64 * block + i)
unfolding invalidation_page_mask
bit-invalidation_page_mask range block i h =
    ground (arith, bit-page_mask block range.first range.last i h, bit-zero i)

invalidation_page_mask-lt :
    (range : InvalidationRange) (block : ℕ) → invalidation_page_mask range block < 2 ^ 64
unfolding invalidation_page_mask
invalidation_page_mask-lt range block = ground (arith, page_mask-lt block range.first range.last)

-- With a 64-bit mask of pages written by the GPU, the diagnostic counts exactly the valid pages
-- of the block, not written by the GPU, that the original range would have invalidated and the
-- selected one does not.
pub retained_cpu_pages_lem :
    (original selected : InvalidationRange) (block valid gpu_written : ℕ)
    → gpu_written < 2 ^ 64
    → retained_cpu_pages original selected block valid gpu_written
      ≡ count_below 64 (λ i.
        bit valid i
        && not (bit gpu_written i)
        && in_range original (64 * block + i)
        && not (in_range selected (64 * block + i)))
unfolding retained_cpu_pages popcount
retained_cpu_pages_lem original selected block valid gpu_written h = count_below_ext 64 _ _ λ i k.
    ground (
      arith,
      bit-bit_and live (complement 64 chosen) i,
      bit-bit_and (bit_and valid (complement 64 gpu_written)) before i,
      bit-bit_and valid (complement 64 gpu_written) i,
      bit-complement 64 gpu_written i h,
      bit-complement 64 chosen i (invalidation_page_mask-lt selected block),
      bit-invalidation_page_mask original block i k,
      bit-invalidation_page_mask selected block i k,
    )
  where
    before : ℕ
    before = invalidation_page_mask original block

    chosen : ℕ
    chosen = invalidation_page_mask selected block

    live : ℕ
    live = bit_and (bit_and valid (complement 64 gpu_written)) before

block_log2_lem : (k : ℕ) → block_log2 k ≡ 16 - k
block_log2_lem k = ground arith

block_mask_lem : (k : ℕ) → block_mask k ≡ ones (16 - k)
unfolding block_mask
block_mask_lem k = rw (block_log2_lem k) (
    omega
      (arith, one-le-pow (16 - k) 2 (omega arith), pow-le-pow_right {n = 2} (omega arith) at_most))
  where
    at_most : 16 - k ≤ 16
    at_most = omega arith

le-bit_or : (k a : ℕ) → a ≤ bit_or a (block_mask k)
le-bit_or k a =
    rw (block_mask_lem k, bit_or-ones (16 - k) a)
      (omega
        (arith, lt-div-mul-add {a = a} {b = 2 ^ (16 - k)} (one-le-pow (16 - k) 2 (omega arith))))

-- The first page of the block of `a` is at or before `page` when the blocks are so ordered.
from_block :
    (k a page : ℕ)
    → a < 2 ^ 32
    → leb (bit_and a (complement 32 (block_mask k))) page
      ≡ leb (a / 2 ^ (16 - k)) (page / 2 ^ (16 - k))
from_block k a page h =
    rw (block_mask_lem k, bit_and-complement 32 (16 - k) a h (omega arith))
      (ground (
        arith,
        (le-div_iff_mul-le {k = 2 ^ (16 - k)} {x = a / 2 ^ (16 - k)} {y = page}
            (one-le-pow (16 - k) 2 (omega arith))).0,
        (le-div_iff_mul-le {k = 2 ^ (16 - k)} {x = a / 2 ^ (16 - k)} {y = page}
            (one-le-pow (16 - k) 2 (omega arith))).1,
      ))

upto_block :
    (k a page : ℕ)
    → leb page (bit_or a (block_mask k)) ≡ leb (page / 2 ^ (16 - k)) (a / 2 ^ (16 - k))
upto_block k a page =
    rw (block_mask_lem k, bit_or-ones (16 - k) a)
      (ground (
        arith,
        one-le-pow (16 - k) 2,
        (div-lt_iff_lt-mul {k = 2 ^ (16 - k)} {x = page} {y = a / 2 ^ (16 - k) + 1}
            (one-le-pow (16 - k) 2 (omega arith))).0,
        (div-lt_iff_lt-mul {k = 2 ^ (16 - k)} {x = page} {y = a / 2 ^ (16 - k) + 1}
            (one-le-pow (16 - k) 2 (omega arith))).1,
      ))

-- With the cap in force, a host page of less than 2^32 bytes, and a requested range in order
-- inside an original one of 32-bit pages, the result holds exactly the pages of the original
-- range whose 64 KiB block lies between the blocks of the first and the last page requested.
pub cap_invalidation_range_iff :
    (requested original : InvalidationRange) (host_page_size_log2 page : ℕ)
    → host_page_size_log2 < 32
    → requested.first ≤ requested.last
    → original.first ≤ requested.first
    → requested.last ≤ original.last
    → original.last < 2 ^ 32
    → let block = 2 ^ (16 - host_page_size_log2) in
      (in_range (cap_invalidation_range requested original host_page_size_log2 false true) page ≡ (
        in_range original page
        && leb (requested.first / block) (page / block)
        && leb (page / block) (requested.last / block)))
unfolding cap_invalidation_range
cap_invalidation_range_iff requested original k page small some_page left right fits =
    ground
      (arith, from_block k requested.first page (omega arith), upto_block k requested.last page)

-- Whatever the inputs, no page is in the capped range that the original range spares, and every page
-- that was requested and is in the original range is in the capped one.
pub cap_invalidation_range_bounds :
    (requested original : InvalidationRange) (host_page_size_log2 page : ℕ) (exact enabled : Bool)
    → let capped = cap_invalidation_range requested original host_page_size_log2 exact enabled in
      ((in_range capped page && not (in_range original page)) ≡ false)
      × ((in_range requested page && in_range original page && not (in_range capped page)) ≡ false)
unfolding cap_invalidation_range
cap_invalidation_range_bounds requested original k page exact enabled =
    ground
      (arith, bit_and-le requested.first (complement 32 (block_mask k)), le-bit_or k requested.last)
