-- ===== src/TexturePack/Upload.antt =====
-- Configure and PrepareOfflineTextureUpload of src/gpu/native/offline_texture_cache.cpp. The file
-- system, the guest memory behind CopyCpuAuthoritativeRange and the SDK's upload pool are parameters.
pub mod Rows
pub mod Prepared
use bolts_rebuilt.Prelude.{
  ℕ, zero, suc, ◌+◌, ◌-◌, ◌*◌, ◌/◌, ◌%◌, ◌^◌, Bool, true, false, not, ◌&&◌, ◌||◌, Option, none,
  some, List, [], ◌∷◌, length, get_or, same_words, leb, ltb, ◌==◌, if◌then◌else◌,
}
use bolts_rebuilt.TexturePack.{
  Key, Entry, Entries, load, bucket_of, block_size, aligned256, max_upload_bytes,
}

pub record Stats : Type 0 where
  pub candidates : ℕ
  pub matches : ℕ
  pub cpu_authority_refusals : ℕ
  pub byte_misses : ℕ
  pub prepared_uploads : ℕ
  pub upload_bytes : ℕ

pub record Cache : Type 0 where
  pub entries : Entries
  pub snapshot : List ℕ
  pub stats : Stats
  pub path : List ℕ

-- A request is its key with the address of the guest bytes.
pub record Request : Type 0 where
  pub key : Key
  pub guest_address : ℕ

pub record Upload : Type 0 where
  pub buffer : ℕ
  pub offset : ℕ
  pub format : ℕ
  pub width : ℕ
  pub height : ℕ
  pub row_pitch : ℕ
  pub mapping : ℕ → ℕ

-- What the pool gives: a buffer, the offset in it, and the bytes behind the mapping.
pub record Slice : Type 0 where
  pub buffer : ℕ
  pub offset : ℕ
  pub mapping : ℕ → ℕ

abbrev pub row_bytes_of : Key → ℕ
row_bytes_of k = k.width / 4 * block_size k.format % 2 ^ 32

abbrev pub row_pitch_of : Key → ℕ
row_pitch_of k = (row_bytes_of k + 255) % 2 ^ 32 / 256 * 256

-- std::memcpy of one row of blocks.
abbrev copy_row : (row row_bytes row_pitch : ℕ) → List ℕ → (ℕ → ℕ) → ℕ → ℕ
copy_row row row_bytes row_pitch blocks mapping a =
    if leb (row * row_pitch) a && ltb a (row * row_pitch + row_bytes)
    then get_or blocks (row * row_bytes + (a - row * row_pitch)) 0
    else mapping a

-- The loop over the first `rows` rows.
unfoldable pub copy_rows : (rows row_bytes row_pitch : ℕ) → List ℕ → (ℕ → ℕ) → ℕ → ℕ
copy_rows zero row_bytes row_pitch blocks mapping = mapping
copy_rows (suc row) row_bytes row_pitch blocks mapping =
    copy_row row row_bytes row_pitch blocks (copy_rows row row_bytes row_pitch blocks mapping)

-- The match in a bucket: equal hashes and equal guest bytes.
unfoldable pub find_match : (hash : ℕ) → List ℕ → List Entry → Option Entry
find_match hash snapshot [] = none
find_match hash snapshot (entry ∷ bucket) =
    if entry.guest_hash == hash && same_words entry.guest snapshot
    then some entry
    else find_match hash snapshot bucket

-- The upload of the matched entry into the slice of the pool.
unfoldable pub fill : Key → Entry → Slice → Upload
unfolding copy_rows
fill k entry slice = record {
  buffer = slice.buffer;
  offset = slice.offset;
  format = if k.format == 18 then 71 else if k.format == 19 then 74 else 77;
  width = k.width;
  height = k.height;
  row_pitch = row_pitch_of k;
  mapping =
      copy_rows (k.height / 4) (row_bytes_of k) (row_pitch_of k) entry.blocks
        (λ a. if ltb a (row_pitch_of k * (k.height / 4)) then 0 else slice.mapping a);
}

abbrev on_match : Cache → Cache
on_match c = record c { stats = record c.stats { matches = c.stats.matches + 1 } }

abbrev uploaded : Cache → Entry → Cache
uploaded c entry = record c {
  stats = record c.stats {
    prepared_uploads = c.stats.prepared_uploads + 1;
    upload_bytes = c.stats.upload_bytes + length entry.blocks;
  };
}

-- After the match: the slice of the pool, of `upload_bytes` bytes.
unfoldable pub upload_match :
    (request_slice : ℕ → Option Slice) → Cache → Key → Option Entry → Option Upload × Cache
unfolding fill
upload_match request_slice c k none =
    (none, record c { stats = record c.stats { byte_misses = c.stats.byte_misses + 1 } })
upload_match request_slice c k (some entry) =
    let upload_bytes = row_pitch_of k * (k.height / 4) in
    if ltb max_upload_bytes upload_bytes
    then (none, on_match c)
    else elim (request_slice upload_bytes) [
      | none ↦ (none, on_match c)
      | some slice ↦ (some (fill k entry slice), uploaded (on_match c) entry)
    ]

abbrev counted : Cache → Cache
counted c = record c { stats = record c.stats { candidates = c.stats.candidates + 1 } }

abbrev refused : Cache → Cache
refused c = record c {
  stats = record c.stats { cpu_authority_refusals = c.stats.cpu_authority_refusals + 1 };
}

-- The entries of a file; one that cannot be read, or an exception, leaves the cache empty.
abbrev pub entries_of : (List ℕ → ℕ) → Option (List ℕ) → Entries
entries_of hash none = []
entries_of hash (some bytes) = elim (load hash bytes) [ none ↦ [] | some entries ↦ entries ]

module _ (hash : List ℕ → ℕ) (file : List ℕ → Option (List ℕ)) where
  -- Configure.
  unfoldable pub configure : Cache → (requested_path : List ℕ) → Cache
  configure c requested_path = if same_words c.path requested_path then c else record c {
    path = requested_path;
    snapshot = [];
    entries = if same_words requested_path [] then [] else entries_of hash (file requested_path);
  }

module _ (hash : List ℕ → ℕ) (copy_range : ℕ → ℕ → Option (List ℕ))
    (request_slice : ℕ → Option Slice) where
  -- The request whose layout has a bucket; `grows` says that the snapshot could be resized.
  unfoldable pub prepare_in : (grows : Bool) → Cache → Request → List Entry → Option Upload × Cache
  prepare_in grows c request [] = (none, c)
  prepare_in grows c request (entry ∷ bucket) =
      if not grows
      then (none, counted c)
      else elim (copy_range request.guest_address request.key.guest_bytes) [
        | none ↦ (none, refused (counted c))
        | some snapshot ↦
            upload_match request_slice (record (counted c) { snapshot = snapshot }) request.key
              (find_match (hash snapshot) snapshot (entry ∷ bucket))
      ]

  -- PrepareOfflineTextureUpload, with the two configuration variables.
  unfoldable pub prepare :
      (file : List ℕ → Option (List ℕ))
      → (enabled : Bool) → (pack : List ℕ) → (grows : Bool) → Cache
      → Request
      → Option Upload × Cache
  prepare file enabled pack grows c request =
      let ready = configure hash file c pack in
      if not enabled
      then (none, c)
      else prepare_in grows ready request (bucket_of request.key ready.entries)
