-- ===== src/AssetCache/Resolve/Calls.antt =====
-- NativeAssetCache::Resolve of src/gpu/native/native_asset_cache.cpp, in the order of its
-- steps. Where it returns early, the invalidations of `during` come behind the return.
use bolts_rebuilt.Prelude.{
  ℕ, ◌+◌, ◌-◌, ◌*◌, ◌%◌, ◌^◌, max, Bool, true, false, not, ◌&&◌, ◌||◌, Option, none, some, List, [],
  ◌∷◌, length, leb, ltb, ◌==◌, if◌then◌else◌,
}
use bolts_rebuilt.AssetTable.{Lookup, find, store, clear}
use bolts_rebuilt.AssetCache.{Entry, physical_bytes, legacy_max_mappings}
use bolts_rebuilt.AssetCache.Resolve.{
  Binding, no_binding, Mapping, Cache, capacity, probe_limit, generation_bits, invalidated,
  version_of, has_length, match_candidate, legacy_find, legacy_store,
}

-- The invalidations that arrive, in order.
unfoldable pub invalidate_all : Cache → List (ℕ × ℕ) → Cache
invalidate_all c [] = c
invalidate_all c ((first, last) ∷ ranges) = invalidate_all (invalidated c first last) ranges

-- A new frame or a new mode empties both backends.
unfoldable pub reset_mappings : Cache → (frame : ℕ) → (legacy : Bool) → Cache
reset_mappings c frame legacy =
    let (wrapped, emptied) = clear capacity generation_bits c.mappings in
    let same_mode = (c.legacy_mode && legacy) || (not c.legacy_mode && not legacy) in
    if c.frame == frame && same_mode then c else record c {
      mappings = emptied;
      legacy_mappings = [];
      frame = frame;
      legacy_mode = legacy;
      counters = record c.counters {
        mapping_generation_wraps = c.counters.mapping_generation_wraps + (if wrapped then 1 else 0);
        frame_resets = c.counters.frame_resets + (if c.frame == frame then 0 else 1);
        mode_switches = c.counters.mode_switches + (if same_mode then 0 else 1);
      };
    }

abbrev pub missed : Cache → Cache
missed c = record c { counters = record c.counters { misses = c.counters.misses + 1 } }

-- The counters of an answer from a mapping, by whether it is enabled.
abbrev pub count_cached : (enabled : Bool) → Cache → Cache
count_cached false c = missed c
count_cached true c = record c {
  counters = record c.counters {
    hits = c.counters.hits + 1;
    cached_hits = c.counters.cached_hits + 1;
  };
}

-- The counters of a compared answer.
abbrev pub count_result : (enabled : Bool) → Cache → Cache
count_result false c = missed c
count_result true c = record c { counters = record c.counters { hits = c.counters.hits + 1 } }

abbrev pub key_of : (base size : ℕ) → ℕ
key_of base size = base * 2 ^ 32 + size

-- The result is stored under its version, in the backend of the mode.
unfoldable pub store_result : Cache → (legacy : Bool) → (key : ℕ) → Lookup Mapping → Mapping → Cache
store_result c true key lookup m =
    let full = leb legacy_max_mappings (length c.legacy_mappings) in
    record c {
      legacy_mappings = legacy_store key m (if full then [] else c.legacy_mappings);
      counters = record c.counters {
        legacy_capacity_resets = c.counters.legacy_capacity_resets + (if full then 1 else 0);
      };
    }
store_result c false key lookup m =
    let (kept, mappings) = store capacity c.mappings lookup m in
    record c {
      mappings = mappings;
      counters = record c.counters {
        mapping_probe_refusals = c.counters.mapping_probe_refusals + (if kept then 0 else 1);
        mapping_high_water = max c.counters.mapping_high_water mappings.size;
      };
    }

abbrev pub binding_of : (base size : ℕ) → Option Entry → Binding
binding_of base size none = no_binding
binding_of base size (some e) = record {
  guest_base = base;
  byte_length = size;
  asset_offset = e.offset;
  enabled = true;
}

-- From the snapshot to the result; an invalidation during the comparison discards it.
unfoldable pub finish :
    Cache
    → (base size : ℕ) → (legacy : Bool) → Lookup Mapping
    → (before : ℕ) → (snapshot : List ℕ) → (during : List (ℕ × ℕ)) → Binding × Cache
finish c base size legacy lookup before snapshot during =
    let result = binding_of base size (match_candidate c.pack.bytes c.pack.entries snapshot) in
    let c1 = invalidate_all c during in
    let stored =
      store_result c1 legacy (key_of base size) lookup
        (record { version = before; binding = result }) in
    if not (before == version_of c1 base size)
    then (
      no_binding,
      record c1 {
        counters = record c1.counters { invalidation_races = c1.counters.invalidation_races + 1 };
      },
    )
    else (result, count_result result.enabled stored)

-- The counters of a snapshot that has to grow.
abbrev pub count_growth : (larger : Bool) → Cache → (size : ℕ) → Cache
count_growth false c size = c
count_growth true c size = record c {
  counters = record c.counters {
    snapshot_growths = c.counters.snapshot_growths + 1;
    snapshot_growth_bytes = c.counters.snapshot_growth_bytes + (size - c.snapshot_extent);
  };
}

abbrev pub with_extent : Cache → (extent : ℕ) → Cache
with_extent c extent = record c {
  snapshot_extent = extent;
  counters = record c.counters { snapshots = c.counters.snapshots + 1 };
}

-- The copy of the guest bytes, which may be refused, and the rest.
unfoldable pub copy_range :
    Cache
    → (base size : ℕ) → (legacy : Bool) → Lookup Mapping
    → (before : ℕ) → (copied : Option (List ℕ)) → (during : List (ℕ × ℕ)) → Binding × Cache
copy_range c base size legacy lookup before none during = (
  no_binding,
  invalidate_all
      (record c {
        counters = record c.counters { authority_refusals = c.counters.authority_refusals + 1 };
      })
      during,
)
copy_range c base size legacy lookup before (some snapshot) during =
    finish
      (record c {
        counters = record c.counters { snapshot_bytes = c.counters.snapshot_bytes + size };
      })
      base size legacy lookup before snapshot during

-- The snapshot is taken; `grows` says that its memory could be had.
unfoldable pub take_snapshot :
    Cache
    → (base size : ℕ) → (legacy grows : Bool) → Lookup Mapping
    → (before : ℕ) → (copied : Option (List ℕ)) → (during : List (ℕ × ℕ)) → Binding × Cache
take_snapshot c base size legacy grows lookup before copied during =
    let larger = ltb c.snapshot_extent size in
    let counted = count_growth larger c size in
    let extent = if legacy || larger then size else c.snapshot_extent in
    if larger && not grows
    then (no_binding, invalidate_all (missed counted) during)
    else copy_range (with_extent counted extent) base size legacy lookup before copied during

-- A mapping of the same version answers at once.
unfoldable pub from_prior :
    Cache
    → (base size : ℕ) → (legacy grows : Bool) → Lookup Mapping
    → (before : ℕ) → Option Mapping
    → Option (List ℕ)
    → (during : List (ℕ × ℕ)) → Binding × Cache
from_prior c base size legacy grows lookup before none copied during =
    take_snapshot c base size legacy grows lookup before copied during
from_prior c base size legacy grows lookup before (some prior) copied during =
    if prior.version == before
    then (prior.binding, invalidate_all (count_cached prior.binding.enabled c) during)
    else take_snapshot c base size legacy grows lookup before copied during

abbrev pub probed : Cache → Lookup Mapping → Cache
probed c lookup = record c {
  counters = record c.counters {
    mapping_collision_steps = c.counters.mapping_collision_steps + (lookup.probes - 1);
    mapping_max_probe = max c.counters.mapping_max_probe lookup.probes;
  };
}

-- The range is one that an asset can serve.
unfoldable pub is_servable : Cache → (base size : ℕ) → Bool
is_servable c base size =
    c.gpu
    && not (size == 0)
    && base % 4 == 0
    && ltb base physical_bytes
    && leb size (physical_bytes - base)
    && has_length c.pack.entries size

-- Resolve, of a range in a frame.
unfoldable pub resolve :
    Cache
    → (base size frame : ℕ) → (legacy grows : Bool) → (copied : Option (List ℕ))
    → (during : List (ℕ × ℕ)) → Binding × Cache
resolve c base size frame legacy grows copied during =
    let counted = record c {
      counters = record c.counters { resolves = c.counters.resolves + 1 };
    } in
    let ready = reset_mappings counted frame legacy in
    let key = key_of base size in
    let lookup = find capacity probe_limit ready.mappings key in
    let before = version_of ready base size in
    if not (is_servable c base size)
    then (no_binding, invalidate_all (missed counted) during)
    else if legacy
    then from_prior ready base size legacy grows lookup before
        (legacy_find key ready.legacy_mappings) copied during
    else from_prior (probed ready lookup) base size legacy grows lookup before lookup.value copied
        during
