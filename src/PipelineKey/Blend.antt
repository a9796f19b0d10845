-- ===== src/PipelineKey/Blend.antt =====
-- The blend state of a render target in CreatePipeline of src/gpu/native/native_geometry_pass.cpp.
use bolts_rebuilt.Prelude.{ℕ, Bool, true, false, not, ◌&&◌, if◌then◌else◌, bit_and}
use bolts_rebuilt.Prelude.Bits.Words.{shr}

-- xenos::BlendFactor; `unknown` is the default of the switch.
pub data BlendFactor : Type 0 where
  zero : BlendFactor
  one : BlendFactor
  src_color : BlendFactor
  one_minus_src_color : BlendFactor
  src_alpha : BlendFactor
  one_minus_src_alpha : BlendFactor
  dst_color : BlendFactor
  one_minus_dst_color : BlendFactor
  dst_alpha : BlendFactor
  one_minus_dst_alpha : BlendFactor
  constant_color : BlendFactor
  one_minus_constant_color : BlendFactor
  constant_alpha : BlendFactor
  one_minus_constant_alpha : BlendFactor
  src_alpha_saturate : BlendFactor
  unknown : BlendFactor

-- xenos::BlendOp.
pub data BlendOp : Type 0 where
  add : BlendOp
  subtract : BlendOp
  min : BlendOp
  max : BlendOp
  rev_subtract : BlendOp
  unknown : BlendOp

-- D3D12_BLEND.
pub data Blend : Type 0 where
  zero : Blend
  one : Blend
  src_color : Blend
  inv_src_color : Blend
  src_alpha : Blend
  inv_src_alpha : Blend
  dest_alpha : Blend
  inv_dest_alpha : Blend
  dest_color : Blend
  inv_dest_color : Blend
  src_alpha_sat : Blend
  blend_factor : Blend
  inv_blend_factor : Blend

abbrev choose : Bool → Blend → Blend → Blend
choose alpha a b = if alpha then a else b

-- MapBlendFactor.
unfoldable pub map_blend_factor : BlendFactor → (alpha : Bool) → Blend
map_blend_factor BlendFactor.zero alpha = Blend.zero
map_blend_factor BlendFactor.one alpha = Blend.one
map_blend_factor BlendFactor.src_color alpha = choose alpha Blend.src_alpha Blend.src_color
map_blend_factor BlendFactor.one_minus_src_color alpha =
    choose alpha Blend.inv_src_alpha Blend.inv_src_color
map_blend_factor BlendFactor.src_alpha alpha = Blend.src_alpha
map_blend_factor BlendFactor.one_minus_src_alpha alpha = Blend.inv_src_alpha
map_blend_factor BlendFactor.dst_color alpha = choose alpha Blend.dest_alpha Blend.dest_color
map_blend_factor BlendFactor.one_minus_dst_color alpha =
    choose alpha Blend.inv_dest_alpha Blend.inv_dest_color
map_blend_factor BlendFactor.dst_alpha alpha = Blend.dest_alpha
map_blend_factor BlendFactor.one_minus_dst_alpha alpha = Blend.inv_dest_alpha
map_blend_factor BlendFactor.constant_color alpha = Blend.blend_factor
map_blend_factor BlendFactor.one_minus_constant_color alpha = Blend.inv_blend_factor
map_blend_factor BlendFactor.constant_alpha alpha = Blend.blend_factor
map_blend_factor BlendFactor.one_minus_constant_alpha alpha = Blend.inv_blend_factor
map_blend_factor BlendFactor.src_alpha_saturate alpha = Blend.src_alpha_sat
map_blend_factor BlendFactor.unknown alpha = Blend.one

-- MapBlendOp; the answer is the operation, add for the default.
unfoldable pub map_blend_op : BlendOp → BlendOp
map_blend_op BlendOp.unknown = BlendOp.add
map_blend_op op = op

pub record BlendControl : Type 0 where
  pub color_srcblend : BlendFactor
  pub color_destblend : BlendFactor
  pub color_comb_fcn : BlendOp
  pub alpha_srcblend : BlendFactor
  pub alpha_destblend : BlendFactor
  pub alpha_comb_fcn : BlendOp

-- D3D12_RENDER_TARGET_BLEND_DESC.
pub record Target : Type 0 where
  pub blend_enable : Bool
  pub src_blend : Blend
  pub dest_blend : Blend
  pub blend_op : BlendOp
  pub src_blend_alpha : Blend
  pub dest_blend_alpha : Blend
  pub blend_op_alpha : BlendOp
  pub write_mask : ℕ

abbrev pub unbound_target : Target
unbound_target = record {
  blend_enable = false;
  src_blend = Blend.one;
  dest_blend = Blend.zero;
  blend_op = BlendOp.add;
  src_blend_alpha = Blend.one;
  dest_blend_alpha = Blend.zero;
  blend_op_alpha = BlendOp.add;
  write_mask = 0;
}

-- "one + zero, add" is no blending.
unfoldable pub is_plain : BlendFactor → BlendFactor → BlendOp → Bool
is_plain BlendFactor.one BlendFactor.zero BlendOp.add = true
is_plain _ _ _ = false

abbrev pub bound_target : BlendControl → (write_mask : ℕ) → Target
bound_target b write_mask = record {
  blend_enable = not (
      is_plain b.color_srcblend b.color_destblend b.color_comb_fcn
      && is_plain b.alpha_srcblend b.alpha_destblend b.alpha_comb_fcn);
  src_blend = map_blend_factor b.color_srcblend false;
  dest_blend = map_blend_factor b.color_destblend false;
  blend_op = map_blend_op b.color_comb_fcn;
  src_blend_alpha = map_blend_factor b.alpha_srcblend true;
  dest_blend_alpha = map_blend_factor b.alpha_destblend true;
  blend_op_alpha = map_blend_op b.alpha_comb_fcn;
  write_mask = write_mask;
}

-- Four bits of the color mask, at a target's place.
abbrev pub write_bits : (color_mask shift : ℕ) → ℕ
write_bits color_mask shift = bit_and (shr color_mask shift) 0xF
