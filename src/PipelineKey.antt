-- ===== src/PipelineKey.antt =====
-- The lookup key of the native geometry pass: PipelineKeyFor of src/gpu/native/native_geometry_pass.cpp
-- and NormalizeNativePipelineKey of native_pipeline_key.h. The twenty words are the fields of a record.
pub mod Blend
pub mod Descriptor
pub mod Masks
pub mod Normal
pub mod Equal
use bolts_rebuilt.Prelude.{
  ℕ, ◌+◌, ◌-◌, ◌*◌, ◌%◌, ◌^◌, Bool, true, false, not, ◌&&◌, ◌||◌, ◌==◌, leb, if◌then◌else◌, bit_and,
  bit_or, bit_xor,
}

-- A value for each of the four render targets.
pub record Four {ℓ} (A : Type ℓ) : Type ℓ where
  pub t0 : A
  pub t1 : A
  pub t2 : A
  pub t3 : A

-- NativeDrawContext, as far as the key reads it; a format of 0 is DXGI_FORMAT_UNKNOWN.
pub record Context : Type 0 where
  pub rtv_formats : Four ℕ
  pub dsv_format : ℕ
  pub sample_count : ℕ
  pub sample_mask : ℕ

-- GuestState: the register words; the slope of the depth bias is its bits.
pub record GuestState : Type 0 where
  pub blendcontrol : Four ℕ
  pub depthcontrol : ℕ
  pub su_mode_cntl : ℕ
  pub color_mask : ℕ
  pub stencil_ref_mask : ℕ
  pub depth_bias : ℕ
  pub depth_bias_slope : ℕ
  pub depth_clip : Bool
  pub alpha_to_mask : Bool

-- Words 0-3, 4, 5, 6-9, 10, 11, 12, 13, 14, 15, 16, 17, 18 and 19.
pub record Key : Type 0 where
  pub rtv : Four ℕ
  pub dsv : ℕ
  pub samples : ℕ
  pub blend : Four ℕ
  pub depth : ℕ
  pub setup : ℕ
  pub color_mask : ℕ
  pub stencil : ℕ
  pub depth_bias : ℕ
  pub slope : ℕ
  pub flags : ℕ
  pub sample_mask : ℕ
  pub no_alpha_test : ℕ
  pub reserved : ℕ

abbrev pub flag : Bool → ℕ → ℕ
flag b bit = if b then bit else 0

-- PipelineKeyFor.
unfoldable pub key_for : Context → GuestState → (root_cbv no_alpha_test : Bool) → Key
key_for context state root_cbv no_alpha_test = record {
  rtv = context.rtv_formats;
  dsv = context.dsv_format;
  samples = context.sample_count;
  blend = state.blendcontrol;
  depth = state.depthcontrol;
  setup = state.su_mode_cntl;
  color_mask = state.color_mask;
  stencil = state.stencil_ref_mask;
  depth_bias = state.depth_bias;
  slope = state.depth_bias_slope;
  flags = flag state.depth_clip 1 + flag state.alpha_to_mask 2 + flag root_cbv 4;
  sample_mask = context.sample_mask;
  no_alpha_test = flag no_alpha_test 1;
  reserved = 0;
}

-- The blend word of a target, and the mask of its color bits; an unknown target has neither.
abbrev pub blend_word : (format word : ℕ) → ℕ
blend_word format word = if format == 0 then 0 else bit_and word 0x1FFF1FFF

abbrev pub target_mask : (format bits : ℕ) → ℕ
target_mask format bits = if format == 0 then 0 else bits

-- The masks of the four targets do not overlap, so | is +.
abbrev pub targets_mask : Four ℕ → ℕ
targets_mask rtv =
    target_mask rtv.t0 0xF
    + target_mask rtv.t1 0xF0
    + target_mask rtv.t2 0xF00
    + target_mask rtv.t3 0xF000

-- The depth word: padding goes, then what the stencil test or its back face would read, then the depth
-- test of an unknown depth target.
unfoldable pub normal_depth : (dsv depth : ℕ) → ℕ
normal_depth dsv depth =
    let unpadded = bit_and depth 0xFFFFFFF7 in
    let tested =
      if bit_and depth 0x1 == 0
      then bit_and unpadded 0x76
      else if bit_and depth 0x80 == 0
      then bit_and unpadded 0x000FFFFF
      else unpadded in
    if dsv == 0 then bit_and tested 0xFFFFFFFD else tested

unfoldable pub normal_stencil : (depth stencil : ℕ) → ℕ
normal_stencil depth stencil = if bit_and depth 0x1 == 0 then 0 else bit_and stencil 0x00FFFF00

-- The words that NormalizeNativePipelineKey leaves.
unfoldable pub normal_key : Key → Key
unfolding normal_depth normal_stencil
normal_key k = record k {
  blend = record {
    t0 = blend_word k.rtv.t0 k.blend.t0;
    t1 = blend_word k.rtv.t1 k.blend.t1;
    t2 = blend_word k.rtv.t2 k.blend.t2;
    t3 = blend_word k.rtv.t3 k.blend.t3;
  };
  color_mask = bit_and k.color_mask (targets_mask k.rtv);
  depth = normal_depth k.dsv k.depth;
  stencil = normal_stencil k.depth k.stencil;
  setup = bit_and k.setup 0x7;
  flags = if leb k.samples 1 then bit_and k.flags 0xFFFFFFFD else k.flags;
}

-- NormalizeNativePipelineKey: whether a bit of a replaced word changed, and the words.
unfoldable pub normalize : Key → Bool × Key
unfolding normal_key
normalize k =
    let n = normal_key k in
    let blends =
      bit_or (bit_or (bit_xor k.blend.t0 n.blend.t0) (bit_xor k.blend.t1 n.blend.t1))
        (bit_or (bit_xor k.blend.t2 n.blend.t2) (bit_xor k.blend.t3 n.blend.t3)) in
    let others = bit_or (bit_or (bit_xor k.color_mask n.color_mask) (bit_xor k.depth n.depth)) (
      bit_or (bit_xor k.stencil n.stencil)
        (bit_or (bit_xor k.setup n.setup) (bit_xor k.flags n.flags))) in
    (not (bit_or blends others == 0), n)
