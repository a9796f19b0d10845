-- ===== src/AssetCache/Pack.antt =====
-- The pack format that Initialize of src/gpu/native/native_asset_cache.cpp accepts. A file is its list
-- of bytes, the reads of which succeed; the hash SHA-256 is a parameter. Each exception is an error.
pub mod Layout
pub mod Claims
use bolts_rebuilt.Prelude.{
  ℕ, zero, suc, ◌+◌, ◌-◌, ◌*◌, ◌/◌, ◌%◌, ◌^◌, Bool, true, false, not, ◌&&◌, ◌||◌, List, [], ◌∷◌,
  ◌++◌, length, take, drop, replicate, same_words, leb, ltb, ◌==◌, if◌then◌else◌,
}
use bolts_rebuilt.AssetCache.{
  Entry, u32, u64, contains, fingerprint, slice, max_entries, header_size, record_size,
  physical_bytes,
}

-- The messages of the exceptions.
pub data PackError : Type 0 where
  size_outside : PackError
  unsupported_format : PackError
  invalid_bounds : PackError
  table_checksum : PackError
  invalid_record : PackError
  nonzero_padding : PackError
  bytes_checksum : PackError
  unclaimed_bytes : PackError

pub data Result (A : Type 0) : Type 0 where
  accepted : A → Result A
  thrown : PackError → Result A

infixl 5 ◌>>=◌
abbrev pub ◌>>=◌ : {A B : Type 0} → Result A → (A → Result B) → Result B
accepted a >>= f = f a
thrown e >>= f = thrown e

abbrev pub require : Bool → PackError → Result (Unit {0})
require true e = accepted tt
require false e = thrown e

abbrev pub align4 : ℕ → ℕ
align4 n = (n + 3) / 4 * 4

-- What Initialize keeps of a pack. The maps `candidates` and `lengths` are read off the entries: the
-- candidates of a length and a fingerprint are the entries with them, in order.
pub record Pack : Type 0 where
  pub bytes : List ℕ
  pub entries : List Entry

-- Bounds, order and flags of a row: its offset, length and kinds, and the reserved word.
unfoldable pub row_is_valid : (bytes row : List ℕ) → (end : ℕ) → Bool
row_is_valid bytes row end =
    not (u32 (drop 8 row) == 0)
    && not (u32 (drop 12 row) == 0)
    && leb (u32 (drop 12 row)) 3
    && u64 (drop 56 row) == 0
    && u64 row == align4 end
    && contains (length bytes) (u64 row) (u32 (drop 8 row))

unfoldable pub padding_is_zero : (bytes row : List ℕ) → (end : ℕ) → Bool
padding_is_zero bytes row end =
    same_words (slice bytes end (u64 row - end)) (replicate (u64 row - end) 0)

abbrev pub count_of : List ℕ → ℕ
count_of file = u32 (drop 16 file)

abbrev pub data_offset_of : List ℕ → ℕ
data_offset_of file = u64 (drop 32 file)

abbrev pub data_size_of : List ℕ → ℕ
data_size_of file = u64 (drop 40 file)

unfoldable pub size_is_bounded : List ℕ → Bool
size_is_bounded file =
    leb header_size (length file)
    && leb (length file) (physical_bytes + max_entries * record_size + 256)

-- NBGEOM1, the version and the sizes of header and record.
unfoldable pub format_is_known : List ℕ → Bool
format_is_known file =
    same_words (take 8 file) (78 ∷ 66 ∷ 71 ∷ 69 ∷ 79 ∷ 77 ∷ 49 ∷ 0 ∷ [])
    && u32 (drop 8 file) == 1
    && u32 (drop 12 file) == header_size
    && u32 (drop 20 file) == record_size

unfoldable pub bounds_are_valid : List ℕ → Bool
bounds_are_valid file =
    let table_offset = u64 (drop 24 file) in
    let table_size = count_of file * record_size in
    not (count_of file == 0)
    && leb (count_of file) max_entries
    && table_offset == header_size
    && contains (length file) table_offset table_size
    && data_offset_of file % 256 == 0
    && data_offset_of file == (table_offset + table_size + 255) / 256 * 256
    && not (data_size_of file == 0)
    && leb (data_size_of file) physical_bytes
    && contains (length file) (data_offset_of file) (data_size_of file)
    && data_offset_of file + data_size_of file == length file

module _ (sha256 : List ℕ → List ℕ) where
  unfoldable pub sums_match : (bytes row : List ℕ) → Bool
  sums_match bytes row =
      let raw = slice bytes (u64 row) (u32 (drop 8 row)) in
      same_words (sha256 raw) (slice row 24 32) && fingerprint raw == u64 (drop 16 row)

  -- One row of the table, where the asset before it ends at `end`.
  unfoldable pub read_row : (bytes : List ℕ) → (row : List ℕ) → (end : ℕ) → Result Entry
  read_row bytes row end = do
    _ ← require (row_is_valid bytes row end) invalid_record
    _ ← require (padding_is_zero bytes row end) nonzero_padding
    _ ← require (sums_match bytes row) bytes_checksum
    accepted
        (record { offset = u64 row; length = u32 (drop 8 row); fingerprint = u64 (drop 16 row) })

  -- The loop over the rows that remain, with the end of the last asset and the entries so far.
  unfoldable pub read_rows :
      (count : ℕ) → (bytes table : List ℕ) → (end : ℕ) → List Entry → Result (ℕ × List Entry)
  read_rows zero bytes table end entries = accepted (end, entries)
  read_rows (suc count) bytes table end entries =
      read_row bytes (take record_size table) end >>= λ e.
      read_rows count bytes (drop record_size table) (e.offset + e.length) (entries ++ e ∷ [])

  -- The parse of the whole file.
  unfoldable pub parse : List ℕ → Result Pack
  parse file = do
    let bytes = slice file (data_offset_of file) (data_size_of file)
    let table = slice file (u64 (drop 24 file)) (count_of file * record_size)
    _ ← require (size_is_bounded file) size_outside
    _ ← require (format_is_known file) unsupported_format
    _ ← require (bounds_are_valid file) invalid_bounds
    _ ← require (same_words (sha256 table) (slice file 48 32)) table_checksum
    (end, entries) ← read_rows (count_of file) bytes table 0 []
    _ ← require (end == data_size_of file) unclaimed_bytes
    accepted (record { bytes = bytes; entries = entries })
