-- ===== src/Watch.antt =====
-- nb/runtime: the two proofs of watch_fastpath.h that a watch call on a run of system pages has no
-- effect. The flag blocks are the words notify_on_invalidation, one digit for each system page.
pub mod Watched
use bolts_rebuilt.Prelude.{
  ℕ, zero, suc, ◌+◌, ◌-◌, ◌*◌, ◌/◌, ◌%◌, ◌^◌, Bool, true, false, not, ◌&&◌, ◌||◌, List, ltb, leb,
  ◌==◌, if◌then◌else◌, length, get_or, bit_and,
}
use bolts_rebuilt.Prelude.Bits.Words.{shl, shr, ones}

-- The last guest page of a run, when its offset does not wrap in 32 bits.
abbrev pub guest_page : (page system_page_size guest_page_shift host_address_offset : ℕ) → ℕ
guest_page page system_page_size guest_page_shift host_address_offset =
    let offset = page * system_page_size in
    shr (if ltb host_address_offset offset then offset - host_address_offset else 0)
      guest_page_shift

-- The word's pages from `first` on in the first block, up to `last` in the last one.
unfoldable pub block_mask : (block first last : ℕ) → ℕ
block_mask block first last =
    let low = if block == first / 64 then shl 64 (ones 64) (first % 64) else ones 64 in
    if block == last / 64 then bit_and low (shr (ones 64) (63 - last % 64)) else low

-- The loop over the blocks that remain up to the last one.
unfoldable pub blocks_watched : List ℕ → (first last : ℕ) → (left block : ℕ) → Bool
blocks_watched flag_blocks first last zero block =
    let mask = block_mask block first last in bit_and (get_or flag_blocks block 0) mask == mask
blocks_watched flag_blocks first last (suc left) block =
    let mask = block_mask block first last in
    let rest = blocks_watched flag_blocks first last left (block + 1) in
    if not (bit_and (get_or flag_blocks block 0) mask == mask) then false else rest

unfoldable pub all_watched :
    (first last system_page_size system_page_count guest_page_shift host_address_offset
      guest_page_table_size : ℕ)
    → List ℕ
    → Bool
all_watched first last system_page_size system_page_count guest_page_shift host_address_offset
      guest_page_table_size flag_blocks =
    if ltb last first
      || system_page_size == 0
      || leb system_page_count last
      || leb 32 guest_page_shift
    then false
    else if ltb (2 ^ 32 - 1) (last * system_page_size)
    then false
    else if leb guest_page_table_size
        (guest_page last system_page_size guest_page_shift host_address_offset)
    then false
    else if leb (length flag_blocks) (last / 64)
    then false
    else blocks_watched flag_blocks first last (last / 64 - first / 64) (first / 64)

-- The loop over the guest pages that remain up to the last one.
unfoldable pub pages_immutable : (ℕ → Bool) → (left guest : ℕ) → Bool
pages_immutable is_immutable zero guest = is_immutable guest
pages_immutable is_immutable (suc left) guest =
    let rest = pages_immutable is_immutable left (guest + 1) in
    if not (is_immutable guest) then false else rest

unfoldable pub all_guest_pages_immutable :
    (first last system_page_size system_page_count guest_page_shift host_address_offset
      guest_page_table_size : ℕ)
    → List ℕ
    → (ℕ → Bool)
    → Bool
all_guest_pages_immutable first last system_page_size system_page_count guest_page_shift
      host_address_offset guest_page_table_size flag_blocks is_immutable =
    let first_guest = guest_page first system_page_size guest_page_shift host_address_offset in
    let last_guest = guest_page last system_page_size guest_page_shift host_address_offset in
    if ltb last first
      || system_page_size == 0
      || leb system_page_count last
      || leb 32 guest_page_shift
      || leb (2 ^ guest_page_shift) system_page_size
    then false
    else if ltb (2 ^ 32 - 1) (last * system_page_size)
    then false
    else if leb guest_page_table_size last_guest || leb (length flag_blocks) (last / 64)
    then false
    else pages_immutable is_immutable (last_guest - first_guest) first_guest
