-- ===== src/Watch/Watched.antt =====
-- What an answer of true proves about every system page of the run.
use bolts_rebuilt.Prelude.{
  ℕ, zero, suc, ◌+◌, ◌-◌, ◌*◌, ◌/◌, ◌%◌, ◌^◌, ◌≤◌, ◌<◌, ◌≡◌, inl, inr, ap, ◌∙◌, Bool, true, not,
  ◌&&◌, ◌||◌, Bool-cases, List, ltb, leb, ◌==◌, if◌then◌else◌, length, get_or, bit_and, arith,
}
use native.Mathlib.Nat.{div-lt_iff_lt-mul, mul-le-mul_right, one-le-pow}
use bolts_rebuilt.Prelude.Bits.{bit, bit-bit_and}
use bolts_rebuilt.Prelude.Bits.Words.{shl, shr, ones, bit-mod, bit-shift_left, bit-shr, bit-ones}
use bolts_rebuilt.Prelude.Bits.Masks.{bit_of_covers}
use bolts_rebuilt.Watch.{
  guest_page, block_mask, blocks_watched, all_watched, pages_immutable, all_guest_pages_immutable,
}

bit-low : (k i : ℕ) → bit (shl 64 (ones 64) k) i ≡ (ltb i 64 && leb k i)
bit-low k i =
    ground
      (arith, bit-mod 64 (ones 64 * 2 ^ k) i, bit-shift_left k (ones 64) i, bit-ones 64 (i - k))

bit-high : (k i : ℕ) → k < 64 → bit (shr (ones 64) (63 - k)) i ≡ leb i k
bit-high k i h = ground (arith, bit-shr (63 - k) (ones 64) i, bit-ones 64 (i + (63 - k)))

abbrev low_mask : ℕ → ℕ → ℕ
low_mask block first = if block == first / 64 then shl 64 (ones 64) (first % 64) else ones 64

bit-block_mask :
    (block first last i : ℕ)
    → i < 64
    → bit (block_mask block first last) i ≡ (
        (not (block == first / 64) || leb (first % 64) i)
        && (not (block == last / 64) || leb i (last % 64)))
unfolding block_mask
bit-block_mask block first last i h =
    let within : last % 64 < 64 = omega arith in
    ground (
      arith,
      bit-bit_and (low_mask block first) (shr (ones 64) (63 - last % 64)) i,
      bit-low (first % 64) i,
      bit-high (last % 64) i within,
      bit-ones 64 i,
    )

blocks_watched-covers :
    (flag_blocks : List ℕ) (first last left block b : ℕ)
    → blocks_watched flag_blocks first last left block ≡ true
    → block ≤ b
    → b ≤ block + left
    → bit_and (get_or flag_blocks b 0) (block_mask b first last) ≡ block_mask b first last
unfolding blocks_watched
blocks_watched-covers flag_blocks first last zero block b h low high =
    let e : b ≡ block = omega arith in rw e (ground arith)
blocks_watched-covers flag_blocks first last (suc left) block b h low high =
    elim (Bool-cases (b == block)) [
      | inl e ↦ let e' : b ≡ block = ground arith in rw e' (ground arith)
      | inr n ↦
          blocks_watched-covers flag_blocks first last left (block + 1) b (ground arith)
            (ground arith) (ground arith)
    ]

div-le-div : (a b k : ℕ) → a ≤ b → 1 ≤ k → a / k ≤ b / k
div-le-div a b k h some =
    let above : b < (b / k + 1) * k =
      (div-lt_iff_lt-mul {k = k} {x = b} {y = b / k + 1} some).0 (omega arith) in
    omega (arith, (div-lt_iff_lt-mul {k = k} {x = a} {y = b / k + 1} some).1 (omega arith))

guest_page-le :
    (p q size shift offset : ℕ)
    → p ≤ q
    → guest_page p size shift offset ≤ guest_page q size shift offset
guest_page-le p q size shift offset h =
    let scaled = mul-le-mul_right size h in
    div-le-div (if ltb offset (p * size) then p * size - offset else 0)
      (if ltb offset (q * size) then q * size - offset else 0) (2 ^ shift) (ground arith)
      (one-le-pow shift 2 (omega arith))

all_watched-checks :
    (first last size count shift offset table : ℕ) (flag_blocks : List ℕ)
    → all_watched first last size count shift offset table flag_blocks ≡ true
    → (first ≤ last)
      × (last < count)
      × (last * size < 2 ^ 32)
      × (guest_page last size shift offset < table)
      × (last / 64 < length flag_blocks)
      × (blocks_watched flag_blocks first last (last / 64 - first / 64) (first / 64) ≡ true)
unfolding all_watched
all_watched-checks first last size count shift offset table flag_blocks h = ground arith

-- When the check answers true, every page from the first to the last is inside the system's pages, at
-- an offset below 2 ^ 32, with a guest page inside the table and a flag block inside the blocks, and
-- its notification digit is set: the loop that it stands for would change nothing.
pub all_watched_lem :
    (first last size count shift offset table page : ℕ) (flag_blocks : List ℕ)
    → all_watched first last size count shift offset table flag_blocks ≡ true
    → first ≤ page
    → page ≤ last
    → (page < count)
      × (page * size < 2 ^ 32)
      × (guest_page page size shift offset < table)
      × (page / 64 < length flag_blocks)
      × (bit (get_or flag_blocks (page / 64) 0) (page % 64) ≡ true)
all_watched_lem first last size count shift offset table page flag_blocks h low high =
    let (ordered, counted, narrow, tabled, blocked, watched) =
      all_watched-checks first last size count shift offset table flag_blocks h in
    let covers =
      blocks_watched-covers flag_blocks first last (last / 64 - first / 64) (first / 64) (page / 64)
        watched (omega arith) (omega arith) in
    let scaled = mul-le-mul_right size high in
    let guest = guest_page-le page last size shift offset high in
    (
      omega arith,
      omega arith,
      omega arith,
      omega arith,
      bit_of_covers (get_or flag_blocks (page / 64) 0) (block_mask (page / 64) first last)
          (page % 64) covers
          (bit-block_mask (page / 64) first last (page % 64) (omega arith) ∙ ground arith),
    )

pages_immutable-all :
    (is_immutable : ℕ → Bool) (left guest page : ℕ)
    → pages_immutable is_immutable left guest ≡ true
    → guest ≤ page
    → page ≤ guest + left
    → is_immutable page ≡ true
unfolding pages_immutable
pages_immutable-all is_immutable zero guest page h low high =
    ap is_immutable {x = page} {y = guest} (omega arith) ∙ h
pages_immutable-all is_immutable (suc left) guest page h low high =
    elim (Bool-cases (page == guest)) [
      | inl e ↦ ap is_immutable {x = page} {y = guest} (ground arith) ∙ ground arith
      | inr n ↦
          pages_immutable-all is_immutable left (guest + 1) page (ground arith) (ground arith)
            (ground arith)
    ]

all_guest_pages_immutable-checks :
    (first last size count shift offset table : ℕ) (flag_blocks : List ℕ) (is_immutable : ℕ → Bool)
    → all_guest_pages_immutable first last size count shift offset table flag_blocks is_immutable
      ≡ true
    → (first ≤ last)
      × (last < count)
      × (last * size < 2 ^ 32)
      × (guest_page last size shift offset < table)
      × (pages_immutable is_immutable
            (guest_page last size shift offset - guest_page first size shift offset)
            (guest_page first size shift offset)
          ≡ true)
unfolding all_guest_pages_immutable
all_guest_pages_immutable-checks first last size count shift offset table flag_blocks is_immutable
      h =
    ground arith

-- When the check answers true, every page from the first to the last has a guest page inside the
-- table, at an offset below 2 ^ 32, and that guest page is immutable.
pub all_guest_pages_immutable_lem :
    (first last size count shift offset table page : ℕ) (flag_blocks : List ℕ)
    (is_immutable : ℕ → Bool)
    → all_guest_pages_immutable first last size count shift offset table flag_blocks is_immutable
      ≡ true
    → first ≤ page
    → page ≤ last
    → (page * size < 2 ^ 32)
      × (guest_page page size shift offset < table)
      × (is_immutable (guest_page page size shift offset) ≡ true)
all_guest_pages_immutable_lem first last size count shift offset table page flag_blocks is_immutable
      h low high =
    let (ordered, counted, narrow, tabled, immutable) =
      all_guest_pages_immutable-checks first last size count shift offset table flag_blocks
        is_immutable h in
    let scaled = mul-le-mul_right size high in
    let above = guest_page-le page last size shift offset high in
    let below = guest_page-le first page size shift offset low in
    (
      omega arith,
      omega arith,
      pages_immutable-all is_immutable
          (guest_page last size shift offset - guest_page first size shift offset)
          (guest_page first size shift offset) (guest_page page size shift offset) immutable below
          (omega arith),
    )
