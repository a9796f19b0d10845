-- ===== src/AssetCache.antt =====
-- NativeAssetCache of src/gpu/native/native_asset_cache.cpp: immutable guest buffers in a pack that is
-- verified byte for byte, and found again in guest memory. Here are its numbers and small helpers.
pub mod Pack
pub mod Resolve
use bolts_rebuilt.Prelude.{
  ℕ, zero, suc, ◌+◌, ◌-◌, ◌*◌, ◌/◌, ◌%◌, ◌^◌, Bool, ◌&&◌, List, [], ◌∷◌, length, take, drop, get_or,
  leb, min, bit_xor,
}

abbrev pub physical_bytes : ℕ
physical_bytes = 2 ^ 29

abbrev pub page_shift : ℕ
page_shift = 12

abbrev pub page_count : ℕ
page_count = 2 ^ 17

abbrev pub max_entries : ℕ
max_entries = 100000

abbrev pub legacy_max_mappings : ℕ
legacy_max_mappings = 8192

abbrev pub header_size : ℕ
header_size = 80

abbrev pub record_size : ℕ
record_size = 64

-- U32 and U64 of the little-endian host.
abbrev pub u32 : List ℕ → ℕ
u32 p = get_or p 0 0 + get_or p 1 0 * 2 ^ 8 + get_or p 2 0 * 2 ^ 16 + get_or p 3 0 * 2 ^ 24

abbrev pub u64 : List ℕ → ℕ
u64 p = u32 p + u32 (drop 4 p) * 2 ^ 32

abbrev pub contains : (outer offset length : ℕ) → Bool
contains outer offset length = leb offset outer && leb length (outer - offset)

fold_bytes : ℕ → List ℕ → ℕ
fold_bytes h [] = h
fold_bytes h (b ∷ bytes) = fold_bytes (bit_xor h b * 1099511628211 % 2 ^ 64) bytes

-- Fingerprint: of the first and the last 32 bytes.
unfoldable pub fingerprint : List ℕ → ℕ
unfolding fold_bytes
fingerprint bytes =
    let n = min 32 (length bytes) in
    fold_bytes (fold_bytes 14695981039346656037 (take n bytes)) (drop (length bytes - n) bytes)

pub record Entry : Type 0 where
  pub offset : ℕ
  pub length : ℕ
  pub fingerprint : ℕ

-- The bytes of a range.
abbrev pub slice : List ℕ → (offset length : ℕ) → List ℕ
slice bytes offset n = take n (drop offset bytes)
