-- ===== src/AssetCache/Resolve.antt =====
-- NativeAssetCache::Impl of src/gpu/native/native_asset_cache.cpp: the versions of the guest pages, and
-- Resolve, which finds a guest range among the assets. The invalidations that arrive while Resolve
-- copies and compares are the list `during`; the bytes that it copies are an argument, none where
-- CopyCpuAuthoritativeRange refuses.
pub mod Calls
pub mod Versions
pub mod Stored
pub mod Fresh
pub mod Matched
pub mod Served
pub mod Reached
use bolts_rebuilt.Prelude.{
  ℕ, zero, suc, ◌+◌, ◌-◌, ◌*◌, ◌/◌, ◌%◌, ◌^◌, min, max, Bool, true, false, not, ◌&&◌, ◌||◌, Option,
  none, some, List, [], ◌∷◌, length, same_words, leb, ltb, ◌==◌, if◌then◌else◌,
}
use bolts_rebuilt.Prelude.Bits.Words.{shr}
use bolts_rebuilt.AssetTable.{Table, new_table}
use bolts_rebuilt.AssetCache.{
  Entry, fingerprint, slice, physical_bytes, page_shift, legacy_max_mappings,
}
use bolts_rebuilt.AssetCache.Pack.{Pack}

pub record Binding : Type 0 where
  pub guest_base : ℕ
  pub byte_length : ℕ
  pub asset_offset : ℕ
  pub enabled : Bool

abbrev pub no_binding : Binding
no_binding = record { guest_base = 0; byte_length = 0; asset_offset = 0; enabled = false }

pub record Mapping : Type 0 where
  pub version : ℕ
  pub binding : Binding

pub record Stats : Type 0 where
  pub resolves : ℕ
  pub hits : ℕ
  pub cached_hits : ℕ
  pub misses : ℕ
  pub snapshots : ℕ
  pub snapshot_bytes : ℕ
  pub authority_refusals : ℕ
  pub invalidation_races : ℕ
  pub frame_resets : ℕ
  pub mode_switches : ℕ
  pub legacy_capacity_resets : ℕ
  pub mapping_collision_steps : ℕ
  pub mapping_probe_refusals : ℕ
  pub mapping_high_water : ℕ
  pub mapping_max_probe : ℕ
  pub mapping_generation_wraps : ℕ
  pub snapshot_growths : ℕ
  pub snapshot_growth_bytes : ℕ

-- Impl. The snapshot is its extent: each Resolve that reads it has overwritten it.
pub record Cache : Type 0 where
  pub gpu : Bool
  pub pack : Pack
  pub page_versions : ℕ → ℕ
  pub sequence : ℕ
  pub mappings : Table Mapping
  pub legacy_mappings : List (ℕ × Mapping)
  pub snapshot_extent : ℕ
  pub frame : ℕ
  pub legacy_mode : Bool
  pub counters : Stats

-- The parameters of MappingTable.
abbrev pub capacity : ℕ
capacity = 65536

abbrev pub probe_limit : ℕ
probe_limit = 64

abbrev pub generation_bits : ℕ
generation_bits = 32

-- The state that Initialize leaves for an accepted pack.
unfoldable pub new_cache : Pack → Cache
new_cache pack = record {
  gpu = true;
  pack = pack;
  page_versions = λ _. 0;
  sequence = 0;
  mappings = new_table (record { version = 0; binding = no_binding });
  legacy_mappings = [];
  snapshot_extent = 0;
  frame = 2 ^ 64 - 1;
  legacy_mode = false;
  counters = record {
    resolves = 0;
    hits = 0;
    cached_hits = 0;
    misses = 0;
    snapshots = 0;
    snapshot_bytes = 0;
    authority_refusals = 0;
    invalidation_races = 0;
    frame_resets = 0;
    mode_switches = 0;
    legacy_capacity_resets = 0;
    mapping_collision_steps = 0;
    mapping_probe_refusals = 0;
    mapping_high_water = 0;
    mapping_max_probe = 0;
    mapping_generation_wraps = 0;
    snapshot_growths = 0;
    snapshot_growth_bytes = 0;
  };
}

-- Invalidated.
unfoldable pub invalidated : Cache → (first last : ℕ) → Cache
invalidated c first last =
    let end = min last (physical_bytes - 1) in
    let version = (c.sequence + 1) % 2 ^ 64 in
    if leb physical_bytes first || ltb last first then c else record c {
      sequence = version;
      page_versions = λ page.
          if leb (shr first page_shift) page && leb page (shr end page_shift)
          then version
          else c.page_versions page;
    }

-- The loop of Version over the pages that remain.
unfoldable pub max_version : (ℕ → ℕ) → (count page version : ℕ) → ℕ
max_version versions zero page version = version
max_version versions (suc count) page version =
    max_version versions count (page + 1) (max version (versions page))

-- Version.
unfoldable pub version_of : Cache → (base length : ℕ) → ℕ
unfolding max_version
version_of c base length =
    let first = shr base page_shift in
    let last = shr (base + length - 1) page_shift in
    max_version c.page_versions (last + 1 - first) first 0

unfoldable pub has_length : List Entry → ℕ → Bool
has_length [] length = false
has_length (e ∷ entries) length = e.length == length || has_length entries length

-- The first candidate with the bytes of the snapshot.
unfoldable pub match_candidate : (bytes : List ℕ) → List Entry → (snapshot : List ℕ) → Option Entry
match_candidate bytes [] snapshot = none
match_candidate bytes (e ∷ entries) snapshot =
    if e.length == length snapshot
      && e.fingerprint == fingerprint snapshot
      && same_words snapshot (slice bytes e.offset (length snapshot))
    then some e
    else match_candidate bytes entries snapshot

unfoldable pub legacy_find : ℕ → List (ℕ × Mapping) → Option Mapping
legacy_find key [] = none
legacy_find key ((k, m) ∷ mappings) = if k == key then some m else legacy_find key mappings

unfoldable pub legacy_store : ℕ → Mapping → List (ℕ × Mapping) → List (ℕ × Mapping)
legacy_store key m [] = (key, m) ∷ []
legacy_store key m ((k, old) ∷ mappings) =
    if k == key then (key, m) ∷ mappings else (k, old) ∷ legacy_store key m mappings
