-- ===== src/AssetTable.antt =====
-- NativeAssetMappingTable of native_asset_mapping_table.h: open addressing with linear probing in a
-- power of two of cells, each tagged by the generation that wrote it. The
-- template's parameters are arguments: the type of a value, the capacity, the probe limit and the
-- bits of the generation.
pub mod Probe
pub mod Contents
use bolts_rebuilt.Prelude.{
  ℕ, zero, suc, ◌+◌, ◌-◌, ◌*◌, ◌%◌, ◌^◌, Bool, true, false, not, ◌&&◌, ◌||◌, Option, none, some,
  update, leb, ltb, ◌==◌, if◌then◌else◌, bit_xor, bit_and,
}
use bolts_rebuilt.Prelude.Bits.Words.{shr}

pub record Cell (V : Type 0) : Type 0 where
  pub key : ℕ
  pub value : V
  pub generation : ℕ

pub record Table (V : Type 0) : Type 0 where
  pub cells : ℕ → Cell V
  pub generation : ℕ
  pub size : ℕ

pub record Lookup (V : Type 0) : Type 0 where
  pub value : Option V
  pub key : ℕ
  pub slot : ℕ
  pub probes : ℕ
  pub generation : ℕ

-- `empty` is the value of a cell that was never written.
pub new_table : {V : Type 0} → V → Table V
new_table empty = record {
  cells = λ _. record { key = 0; value = empty; generation = 0 };
  generation = 1;
  size = 0;
}

-- The avalanche of a 64-bit key; the product wraps.
pub bucket : ℕ → ℕ → ℕ
bucket capacity key =
    let k1 = bit_xor key (shr key 30) in
    let k2 = (k1 * 0xbf58476d1ce4e5b9) % 2 ^ 64 in
    let k3 = bit_xor k2 (shr k2 27) in
    let k4 = (k3 * 0x94d049bb133111eb) % 2 ^ 64 in
    let k5 = bit_xor k4 (shr k4 31) in bit_and k5 (capacity - 1)

-- The loop of Find, with the steps that remain and the lookup so far.
pub probe : {V : Type 0} → (capacity : ℕ) → Table V → ℕ → ℕ → Lookup V → Lookup V
probe capacity table zero slot result = result
probe capacity table (suc steps) slot result =
    let cell = table.cells slot in
    let counted = record result { probes = result.probes + 1 } in
    let rest = probe capacity table steps (bit_and (slot + 1) (capacity - 1)) counted in
    if not (cell.generation == table.generation)
    then record counted { slot = slot }
    else if cell.key == result.key
    then record counted { slot = slot; value = some cell.value }
    else rest

unfoldable pub find : {V : Type 0} → (capacity probe_limit : ℕ) → Table V → ℕ → Lookup V
find capacity probe_limit table key =
    probe capacity table probe_limit (bucket capacity key) (record {
      value = none;
      key = key;
      slot = capacity;
      probes = 0;
      generation = table.generation;
    })

unfoldable pub store : {V : Type 0} → (capacity : ℕ) → Table V → Lookup V → V → Bool × Table V
store capacity table lookup value =
    let cell = table.cells lookup.slot in
    if leb capacity lookup.slot || not (lookup.generation == table.generation)
    then (false, table)
    else if cell.generation == table.generation && not (cell.key == lookup.key)
    then (false, table)
    else (
      true,
      record table {
        size = if not (cell.generation == table.generation) then table.size + 1 else table.size;
        cells =
            update table.cells lookup.slot
              (record { key = lookup.key; value = value; generation = table.generation });
      },
    )

-- The answer is whether the generation wrapped and the tags were swept.
pub clear : {V : Type 0} → (capacity generation_bits : ℕ) → Table V → Bool × Table V
clear capacity generation_bits table =
    let next = (table.generation + 1) % 2 ^ generation_bits in
    if not (next == 0) then (false, record table { size = 0; generation = next }) else (
      true,
      record table {
        size = 0;
        generation = 1;
        cells = λ i.
            if ltb i capacity then record (table.cells i) { generation = 0 } else table.cells i;
      },
    )
