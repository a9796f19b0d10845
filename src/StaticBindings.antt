-- ===== src/StaticBindings.antt =====
-- NativeStaticBindings of src/gpu/vendored/include/rex/graphics/d3d12/native_static_bindings.h: the
-- root bindings that the command list holds already. The four are the texture table, the sampler
-- table, the guest and the asset memory; a signature, a table and an address are numbers.
pub mod Root
use bolts_rebuilt.Prelude.{ℕ, ◌+◌, Bool, true, false, not, ◌&&◌, ◌||◌, ◌==◌, if◌then◌else◌}

pub record Stats : Type 0 where
  pub hits : ℕ
  pub rebinds : ℕ
  pub pixel_hits : ℕ
  pub pixel_rebinds : ℕ

-- The four values, or a flag for each.
pub record Four {ℓ} (A : Type ℓ) : Type ℓ where
  pub texture_table : A
  pub sampler_table : A
  pub guest_memory : A
  pub asset_memory : A

pub record Bindings : Type 0 where
  pub signature : ℕ
  pub values : Four ℕ
  pub valid : Four Bool
  pub pixel_address : ℕ
  pub pixel_valid : Bool
  pub stats : Stats

abbrev no_flags : Four Bool
no_flags = record {
  texture_table = false;
  sampler_table = false;
  guest_memory = false;
  asset_memory = false;
}

-- The cache as it is constructed.
abbrev pub new_bindings : Bindings
new_bindings = record {
  signature = 0;
  values = record { texture_table = 0; sampler_table = 0; guest_memory = 0; asset_memory = 0 };
  valid = no_flags;
  pixel_address = 0;
  pixel_valid = false;
  stats = record { hits = 0; rebinds = 0; pixel_hits = 0; pixel_rebinds = 0 };
}

unfoldable pub invalidate_all : Bindings → Bindings
invalidate_all b = record b { valid = no_flags; pixel_valid = false }

unfoldable pub invalidate_descriptor_tables : Bindings → Bindings
invalidate_descriptor_tables b = record b {
  valid = record b.valid { texture_table = false; sampler_table = false };
}

abbrev pub with_signature : Bindings → ℕ → Bindings
with_signature b signature =
    if not (b.signature == signature)
    then record b { valid = no_flags; pixel_valid = false; signature = signature }
    else b

-- Whether a requested value is held already.
abbrev pub held : (enabled valid : Bool) → (value requested : ℕ) → Bool
held enabled valid value requested = enabled && valid && value == requested

abbrev count_if : Bool → ℕ
count_if b = if b then 1 else 0

-- Update: the bindings that the caller is to record, and the cache.
unfoldable pub update_bindings :
    Bindings → (signature : ℕ) → Four ℕ → (sampler_used enabled : Bool) → Four Bool × Bindings
update_bindings b signature values sampler_used enabled =
    let c = with_signature b signature in
    let texture = held enabled c.valid.texture_table c.values.texture_table values.texture_table in
    let sampler = held enabled c.valid.sampler_table c.values.sampler_table values.sampler_table in
    let guest = held enabled c.valid.guest_memory c.values.guest_memory values.guest_memory in
    let asset = held enabled c.valid.asset_memory c.values.asset_memory values.asset_memory in
    (
      record {
        texture_table = not texture;
        sampler_table = sampler_used && not sampler;
        guest_memory = not guest;
        asset_memory = not asset;
      },
      record c {
        values = record values {
          sampler_table = if sampler_used then values.sampler_table else c.values.sampler_table;
        };
        valid = record {
          texture_table = enabled;
          sampler_table = enabled && (sampler_used || c.valid.sampler_table);
          guest_memory = enabled;
          asset_memory = enabled;
        };
        stats = record c.stats {
          hits =
              c.stats.hits
              + count_if texture
              + count_if (sampler_used && sampler)
              + count_if guest
              + count_if asset;
          rebinds =
              c.stats.rebinds
              + count_if (not texture)
              + count_if (sampler_used && not sampler)
              + count_if (not guest)
              + count_if (not asset);
        };
      },
    )

unfoldable pub needs_pixel_write :
    Bindings → (signature address : ℕ) → (enabled : Bool) → Bool × Bindings
needs_pixel_write b signature address enabled =
    let c = with_signature b signature in
    let d = record c { pixel_valid = enabled && c.pixel_valid } in
    if d.pixel_valid && d.pixel_address == address
    then (false, record d { stats = record d.stats { pixel_hits = d.stats.pixel_hits + 1 } })
    else (true, d)

unfoldable pub did_write_pixel : Bindings → (address : ℕ) → (enabled : Bool) → Bindings
did_write_pixel b address enabled = record b {
  pixel_address = address;
  pixel_valid = enabled;
  stats = record b.stats { pixel_rebinds = b.stats.pixel_rebinds + 1 };
}
