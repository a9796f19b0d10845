-- ===== src/Tests/Packs.antt =====
-- A concrete texture pack of one entry, and the upload made of it.
use bolts_rebuilt.Prelude.{
  ℕ, ◌+◌, ◌*◌, ◌/◌, ◌≡◌, ◌≤◌, refl, true, Option, some, List, [], ◌∷◌, arith, length, if◌then◌else◌,
  get_or, get_elem?, ltb, same_words,
}
use mathlib.Core.Path.{subst}
use bolts_rebuilt.TexturePack.{
  Key, Entry, Entries, load, load_records, read_record, valid_key, conflicts, bucket_of, crc32,
  max_upload_bytes,
}
use bolts_rebuilt.TexturePack.Records.{print_pack, AreRecords, AreBytes, load-print_pack}
use bolts_rebuilt.TexturePack.Upload.{
  Cache, Request, Upload, Slice, prepare, prepare_in, configure, upload_match, find_match, fill,
  row_bytes_of,
}
use bolts_rebuilt.TexturePack.Accept.{print_pack-load}
use bolts_rebuilt.TexturePack.Upload.Prepared.{prepare_lem}

-- A stand-in for the hash.
abbrev sum_of : List ℕ → ℕ
sum_of [] = 0
sum_of (b ∷ bytes) = b + sum_of bytes

abbrev small_key : Key
small_key = record {
  width = 4;
  height = 4;
  format = 18;
  endian = 0;
  tiled = 0;
  pitch = 32;
  guest_bytes = 2;
}

abbrev one_entry : Entry
one_entry = record {
  guest = 5 ∷ 6 ∷ [];
  blocks = 1 ∷ 2 ∷ 3 ∷ 4 ∷ 5 ∷ 6 ∷ 7 ∷ 8 ∷ [];
  guest_hash = 11;
}

abbrev one_pack : Entries
one_pack = (small_key, one_entry) ∷ []

-- The check value of the checksum, over "123456789".
crc32-check : crc32 (49 ∷ 50 ∷ 51 ∷ 52 ∷ 53 ∷ 54 ∷ 55 ∷ 56 ∷ 57 ∷ []) ≡ 0xCBF43926
unfolding crc32
crc32-check = refl

load-one_pack : load sum_of (print_pack one_pack) ≡ some one_pack
unfolding load load_records read_record valid_key conflicts bucket_of crc32 same_words
load-one_pack = refl

abbrev pack_bytes : List ℕ
pack_bytes = print_pack one_pack

pack_bytes-AreBytes : AreBytes pack_bytes
unfolding crc32
pack_bytes-AreBytes = omega arith

load-print_pack_example :
    (print_pack one_pack ≡ pack_bytes)
    × (1 ≤ length one_pack)
    × (length one_pack ≤ 4096)
    × AreRecords sum_of one_pack
load-print_pack_example =
    load-print_pack sum_of pack_bytes one_pack pack_bytes-AreBytes load-one_pack

-- The configured path and its file.
abbrev one_file : List ℕ → Option (List ℕ)
one_file path = some pack_bytes

abbrev guest_memory : ℕ → ℕ → Option (List ℕ)
guest_memory address size = some (5 ∷ 6 ∷ [])

abbrev pool_slice : ℕ → Option Slice
pool_slice size = some (record { buffer = 3; offset = 512; mapping = λ _. 99 })

abbrev empty_cache : Cache
empty_cache = record {
  entries = [];
  snapshot = [];
  stats = record {
    candidates = 0;
    matches = 0;
    cpu_authority_refusals = 0;
    byte_misses = 0;
    prepared_uploads = 0;
    upload_bytes = 0;
  };
  path = [];
}

abbrev small_request : Request
small_request = record { key = small_key; guest_address = 0x1000 }

abbrev small_upload : Upload
small_upload = fill small_key one_entry (record { buffer = 3; offset = 512; mapping = λ _. 99 })

prepared :
    (prepare sum_of guest_memory pool_slice one_file true (1 ∷ []) true empty_cache small_request).0
    ≡ some small_upload
unfolding prepare prepare_in configure upload_match find_match load load_records read_record
    valid_key conflicts bucket_of crc32 same_words
prepared = refl

one_file-AreBytes : (path bytes : List ℕ) → one_file path ≡ some bytes → AreBytes bytes
one_file-AreBytes path bytes h =
    let same : pack_bytes ≡ bytes = cc in subst AreBytes same pack_bytes-AreBytes

prepare_lem_example :
    let bucket = bucket_of small_key (configure sum_of one_file empty_cache (1 ∷ [])).entries in
    (snapshot : List ℕ) × (i : ℕ) × (e : Entry) × (guest_memory 0x1000 2 ≡ some snapshot)
    × (get_elem? bucket i ≡ some e)
    × (e.guest ≡ snapshot)
    × (small_upload.mapping (0 * small_upload.row_pitch + 5) ≡ (
        if ltb 5 (row_bytes_of small_key)
        then get_or e.blocks (0 * row_bytes_of small_key + 5) 0
        else 0))
    × (0 * row_bytes_of small_key + row_bytes_of small_key ≤ length e.blocks)
    × (small_upload.row_pitch * (4 / 4) ≤ max_upload_bytes)
prepare_lem_example =
    prepare_lem sum_of guest_memory pool_slice one_file true true (1 ∷ []) empty_cache small_request
      small_upload 0 5 one_file-AreBytes tt (omega arith) (omega arith) prepared

one_pack-AreRecords : AreRecords sum_of one_pack
unfolding valid_key
one_pack-AreRecords = (record { valid = refl; whole = refl; hashed = refl }, tt)

print_pack-load_example : load sum_of (print_pack one_pack) ≡ some one_pack
unfolding conflicts bucket_of
print_pack-load_example =
    print_pack-load sum_of one_pack one_pack-AreRecords (refl, tt) (omega arith) (omega arith)
      (omega arith) (omega arith)
