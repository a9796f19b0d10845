-- ===== src/Bindings.antt =====
-- NativeTextureBindingCache of native_texture_binding_cache.h: the plans of at most 64 shaders, by a
-- hash of the shader's address, and the sampler consensus of each fetch constant. A binding record of
-- the SDK is its fetch constant and its identity; resolving a sampler is the SDK's, a parameter.
pub mod Grouping
pub mod Samplers
use bolts_rebuilt.Prelude.{
  ℕ, zero, suc, ◌+◌, ◌-◌, ◌*◌, ◌%◌, ◌^◌, Bool, true, false, not, ◌&&◌, ◌||◌, Option, none, some,
  List, [], ◌∷◌, ltb, leb, ◌==◌, if◌then◌else◌, length, update, set, take, drop, replicate, bit_and,
  bit_xor, same_words,
}
use bolts_rebuilt.Prelude.Bits.Words.{shr}

pub record Binding : Type 0 where
  pub fetch_constant : ℕ
  pub identity : ℕ

pub record Range : Type 0 where
  pub start : ℕ
  pub count : ℕ

pub record Consensus : Type 0 where
  pub value : ℕ
  pub have_sampler : Bool
  pub conflict : Bool

abbrev pub no_consensus : Consensus
no_consensus = record { value = 0; have_sampler = false; conflict = false }

pub record SamplerMemo : Type 0 where
  pub fetch_words : List ℕ
  pub anisotropic_override : ℕ
  pub consensus : Consensus
  pub valid : Bool

pub record Plan : Type 0 where
  pub shader : ℕ
  pub textures : ℕ → Binding
  pub samplers : ℕ → Binding
  pub texture_ranges : ℕ → Range
  pub sampler_ranges : ℕ → Range
  pub sampler_memos : ℕ → SamplerMemo

pub record Stats : Type 0 where
  pub plan_hits : ℕ
  pub plan_misses : ℕ
  pub plan_bypasses : ℕ
  pub resets : ℕ
  pub sampler_hits : ℕ
  pub sampler_misses : ℕ
  pub sampler_resolutions : ℕ

pub record Cache : Type 0 where
  pub entries : ℕ → Plan
  pub epoch : ℕ
  pub have_epoch : Bool
  pub stats : Stats

abbrev pub plan_count : ℕ
plan_count = 64

abbrev pub fetch_constants : ℕ
fetch_constants = 32

abbrev pub max_textures : ℕ
max_textures = 255

abbrev pub max_samplers : ℕ
max_samplers = 127

pub slot : ℕ → ℕ
slot shader =
    let m1 = shr shader 4 in
    let m2 = bit_xor m1 (shr m1 17) in
    let m3 = (m2 * 0x9E3779B185EBCA87) % 2 ^ 64 in bit_and (shr m3 32) (plan_count - 1)

-- The bindings that a span of a plan reads, in order.
pub read_range : (ℕ → Binding) → (start count : ℕ) → List Binding
read_range target start zero = []
read_range target start (suc count) = target start ∷ read_range target (start + 1) count

pub textures_of : Plan → ℕ → List Binding
textures_of plan fetch_constant =
    if leb fetch_constants fetch_constant
    then []
    else read_range plan.textures (plan.texture_ranges fetch_constant).start
        (plan.texture_ranges fetch_constant).count

pub samplers_of : Plan → ℕ → List Binding
samplers_of plan fetch_constant =
    if leb fetch_constants fetch_constant
    then []
    else read_range plan.samplers (plan.sampler_ranges fetch_constant).start
        (plan.sampler_ranges fetch_constant).count

-- Group: the counts, the starts in the order of the fetch constants, and the stable placement. The
-- counts are uint16_t, and at most 255 bindings are grouped.
pub count_of : ℕ → List Binding → ℕ
count_of fetch_constant [] = 0
count_of fetch_constant (binding ∷ source) =
    (if binding.fetch_constant == fetch_constant then 1 else 0) + count_of fetch_constant source

pub start_of : (ℕ → ℕ) → ℕ → ℕ
start_of counts zero = 0
start_of counts (suc fetch_constant) = start_of counts fetch_constant + counts fetch_constant

pub place : (starts written : ℕ → ℕ) → List Binding → (ℕ → Binding) → ℕ → Binding
place starts written [] target = target
place starts written (binding ∷ source) target =
    let fetch_constant = binding.fetch_constant in
    place starts (update written fetch_constant (written fetch_constant + 1)) source
      (update target (starts fetch_constant + written fetch_constant) binding)

pub group : List Binding → (ℕ → Binding) → (ℕ → Binding) × (ℕ → Range)
group source target =
    let counts = λ (f : ℕ). count_of f source in
    (
      place (start_of counts) (λ _. 0) source target,
      (λ f. record { start = start_of counts f; count = counts f }),
    )

pub unknown_fetch : List Binding → Bool
unknown_fetch [] = false
unknown_fetch (binding ∷ bindings) =
    leb fetch_constants binding.fetch_constant || unknown_fetch bindings

abbrev with_epoch : Cache → ℕ → Cache
with_epoch cache lifetime_epoch =
    if not cache.have_epoch || not (cache.epoch == lifetime_epoch)
    then record {
      entries = λ i. record (cache.entries i) { shader = 0 };
      epoch = lifetime_epoch;
      have_epoch = true;
      stats = record cache.stats { resets = cache.stats.resets + 1 };
    }
    else cache

abbrev new_plan : ℕ → List Binding → List Binding → Plan → Plan
new_plan shader textures samplers old = record {
  shader = shader;
  textures = (group textures old.textures).0;
  texture_ranges = (group textures old.textures).1;
  samplers = (group samplers old.samplers).0;
  sampler_ranges = (group samplers old.samplers).1;
  sampler_memos = λ i. record (old.sampler_memos i) { valid = false };
}

-- Prepare: the index of the plan, if there is one, and the cache.
pub prepare :
    Cache → (shader lifetime_epoch : ℕ) → (textures samplers : List Binding) → Option ℕ × Cache
prepare cache shader lifetime_epoch textures samplers =
    let c = with_epoch cache lifetime_epoch in
    let bypassed = record c {
      stats = record c.stats { plan_bypasses = c.stats.plan_bypasses + 1 };
    } in
    let entry = c.entries (slot shader) in
    if shader == 0 || ltb max_textures (length textures) || ltb max_samplers (length samplers)
    then (none, bypassed)
    else if entry.shader == shader
    then (
      some (slot shader),
      record c { stats = record c.stats { plan_hits = c.stats.plan_hits + 1 } },
    )
    else if unknown_fetch textures || unknown_fetch samplers
    then (none, bypassed)
    else (
      some (slot shader),
      record c {
        entries = update c.entries (slot shader) (new_plan shader textures samplers entry);
        stats = record c.stats { plan_misses = c.stats.plan_misses + 1 };
      },
    )

-- The consensus over the bindings, with the number of bindings that were resolved.
pub resolve_all : (ℕ → ℕ) → List Binding → Consensus → ℕ → Consensus × ℕ
resolve_all resolve [] consensus resolved = (consensus, resolved)
resolve_all resolve (binding ∷ bindings) consensus resolved =
    let value = resolve binding.identity in
    let rest =
      resolve_all resolve bindings (record consensus { value = value; have_sampler = true })
        (resolved + 1) in
    if consensus.have_sampler && not (value == consensus.value)
    then (record consensus { conflict = true }, resolved + 1)
    else rest

pub resolve_sampler :
    (ℕ → ℕ)
    → Plan
    → Stats
    → (fetch_constant : ℕ) → (fetch_words : List ℕ) → (anisotropic_override : ℕ)
    → Consensus × Plan × Stats
resolve_sampler resolve plan stats fetch_constant fetch_words anisotropic_override =
    let memo = plan.sampler_memos fetch_constant in
    let (consensus, resolved) =
      resolve_all resolve (samplers_of plan fetch_constant) no_consensus 0 in
    if leb fetch_constants fetch_constant
    then (no_consensus, plan, stats)
    else if memo.valid
        && same_words memo.fetch_words fetch_words
        && memo.anisotropic_override == anisotropic_override
    then (memo.consensus, plan, record stats { sampler_hits = stats.sampler_hits + 1 })
    else (
      consensus,
      record plan {
        sampler_memos = update plan.sampler_memos fetch_constant (record {
          fetch_words = fetch_words;
          anisotropic_override = anisotropic_override;
          consensus = consensus;
          valid = true;
        });
      },
      record stats {
        sampler_misses = stats.sampler_misses + 1;
        sampler_resolutions = stats.sampler_resolutions + resolved;
      },
    )
