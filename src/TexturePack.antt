-- ===== src/TexturePack.antt =====
-- The pack of src/gpu/native/offline_texture_cache.cpp: exact upload bytes for block-compressed
-- textures, found by the request's layout and the guest bytes. A file is its list of bytes; the hash
-- XXH3_64bits is a parameter.
pub mod Records
pub mod Accept
pub mod Upload
use bolts_rebuilt.Prelude.{
  ℕ, zero, suc, ◌+◌, ◌-◌, ◌*◌, ◌/◌, ◌%◌, ◌^◌, Bool, true, false, not, ◌&&◌, ◌||◌, Option, none,
  some, List, [], ◌∷◌, ◌++◌, length, take, drop, get_or, same_words, leb, ltb, ◌==◌, if◌then◌else◌,
  bit_xor,
}

abbrev pub max_pack_bytes : ℕ
max_pack_bytes = 128 * 1024 * 1024

abbrev pub max_upload_bytes : ℕ
max_upload_bytes = 2 * 1024 * 1024

pub record Key : Type 0 where
  pub width : ℕ
  pub height : ℕ
  pub format : ℕ
  pub endian : ℕ
  pub tiled : ℕ
  pub pitch : ℕ
  pub guest_bytes : ℕ

-- The array of the source.
abbrev pub words : Key → List ℕ
words k = k.width ∷ k.height ∷ k.format ∷ k.endian ∷ k.tiled ∷ k.pitch ∷ k.guest_bytes ∷ []

pub record Entry : Type 0 where
  pub guest : List ℕ
  pub blocks : List ℕ
  pub guest_hash : ℕ

-- The map from a key to its bucket, as the list of all entries with their keys: a bucket is the
-- entries of one key in order.
abbrev pub Entries : Type 0
Entries = List (Key × Entry)

unfoldable pub bucket_of : Key → Entries → List Entry
bucket_of key [] = []
bucket_of key ((k, e) ∷ entries) =
    if same_words (words k) (words key) then e ∷ bucket_of key entries else bucket_of key entries

-- Read32: little-endian; the shifted bytes do not overlap.
abbrev pub read32 : List ℕ → ℕ
read32 p = get_or p 0 0 + get_or p 1 0 * 2 ^ 8 + get_or p 2 0 * 2 ^ 16 + get_or p 3 0 * 2 ^ 24

crc_bits : ℕ → ℕ → ℕ
crc_bits zero value = value
crc_bits (suc bits) value =
    crc_bits bits (bit_xor (value / 2) (if value % 2 == 1 then 0xEDB88320 else 0))

crc_bytes : List ℕ → ℕ → ℕ
unfolding crc_bits
crc_bytes [] value = value
crc_bytes (b ∷ bytes) value = crc_bytes bytes (crc_bits 8 (bit_xor value b))

unfoldable pub crc32 : List ℕ → ℕ
unfolding crc_bytes
crc32 bytes = bit_xor (crc_bytes bytes 0xFFFFFFFF) 0xFFFFFFFF

abbrev pub block_size : ℕ → ℕ
block_size format = if format == 18 then 8 else 16

-- The rows of blocks in upload memory are placed at multiples of 256 bytes.
abbrev pub aligned256 : ℕ → ℕ
aligned256 n = (n + 255) / 256 * 256

-- ValidKey.
unfoldable pub valid_key : Key → (block_bytes : ℕ) → Bool
valid_key k block_bytes =
    let row = k.width / 4 * block_size k.format in
    if k.width == 0
      || k.height == 0
      || ltb 8192 k.width
      || ltb 8192 k.height
      || not (k.width % 4 == 0)
      || not (k.height % 4 == 0)
      || (not (k.format == 18) && not (k.format == 19) && not (k.format == 20))
      || ltb 3 k.endian
      || ltb 1 k.tiled
      || k.pitch == 0
      || not (k.pitch % 32 == 0)
      || ltb 16352 k.pitch
      || k.guest_bytes == 0
      || ltb max_upload_bytes k.guest_bytes
    then false
    else k.width / 4 * (k.height / 4) * block_size k.format == block_bytes
      && leb (aligned256 row * (k.height / 4)) max_upload_bytes

-- The key at the start of the bytes.
abbrev pub read_key : List ℕ → Key
read_key p = record {
  width = read32 p;
  height = read32 (drop 4 p);
  format = read32 (drop 8 p);
  endian = read32 (drop 12 p);
  tiled = read32 (drop 16 p);
  pitch = read32 (drop 20 p);
  guest_bytes = read32 (drop 24 p);
}

-- Whether one guest texture would get two uploads.
unfoldable pub conflicts : List Entry → Entry → Bool
conflicts [] entry = false
conflicts (existing ∷ bucket) entry =
    (same_words existing.guest entry.guest && not (same_words existing.blocks entry.blocks))
    || conflicts bucket entry

-- The end of Load: all bytes belong to a record.
abbrev pub finished : Option (Entries × List ℕ) → Option Entries
finished none = none
finished (some (entries, [])) = some entries
finished (some (entries, _ ∷ _)) = none

module _ (hash : List ℕ → ℕ) where
  -- The body of the loop of Load: the record at the offset, and the bytes behind it.
  unfoldable pub read_record : List ℕ → Option (Key × Entry × List ℕ)
  read_record p =
      let key = read_key p in
      let block_bytes = read32 (drop 28 p) in
      let body = drop 32 p in
      let guest = take key.guest_bytes body in
      if ltb (length p) 32
      then none
      else if not (valid_key key block_bytes) || ltb (length body) (key.guest_bytes + block_bytes)
      then none
      else some (
        key,
        record {
          guest = guest;
          blocks = take block_bytes (drop key.guest_bytes body);
          guest_hash = hash guest;
        },
        drop block_bytes (drop key.guest_bytes body),
      )

  -- The loop of Load, with the records that remain and the map so far.
  unfoldable pub load_records : ℕ → List ℕ → Entries → Option (Entries × List ℕ)
  load_records zero p entries = some (entries, p)
  load_records (suc count) p entries = elim (read_record p) [
    | none ↦ none
    | some (key, entry, rest) ↦ elim (conflicts (bucket_of key entries) entry) [
      | true ↦ none
      | false ↦ load_records count rest (entries ++ (key, entry) ∷ [])
    ]
  ]

  -- Load, of the bytes of the file.
  unfoldable pub load : List ℕ → Option Entries
  load bytes =
      let count = read32 (drop 8 bytes) in
      if ltb (length bytes) 16
        || ltb max_pack_bytes (length bytes)
        || not (same_words (take 8 bytes) (78 ∷ 66 ∷ 84 ∷ 69 ∷ 88 ∷ 48 ∷ 48 ∷ 49 ∷ []))
        || count == 0
        || ltb 4096 count
        || not (crc32 (drop 16 bytes) == read32 (drop 12 bytes))
      then none
      else finished (load_records count (drop 16 bytes) [])
