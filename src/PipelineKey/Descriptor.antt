-- ===== src/PipelineKey/Descriptor.antt =====
-- The pipeline descriptor that CreatePipeline of src/gpu/native/native_geometry_pass.cpp hands to
-- Direct3D. How the SDK reads the fields of a register word is a parameter, with the bits that each
-- field lies in.
use bolts_rebuilt.Prelude.{
  ℕ, ◌+◌, ◌≡◌, ltb, Bool, not, ◌&&◌, Option, none, some, ◌==◌, if◌then◌else◌, bit_and,
}
use bolts_rebuilt.PipelineKey.{Four, Context, GuestState}
use bolts_rebuilt.PipelineKey.Masks.{ReadsBits}
use bolts_rebuilt.PipelineKey.Blend.{BlendControl, Target, unbound_target, bound_target, write_bits}

-- The operations of one face of the stencil test.
pub record StencilFace : Type 0 where
  pub fail : ℕ
  pub depth_fail : ℕ
  pub pass : ℕ
  pub func : ℕ

-- The fields that the SDK reads in a register word, and the bits of each.
pub record Registers : Type 0 where
  pub blend : ℕ → BlendControl
  pub stencil_enable : ℕ → Bool
  pub z_enable : ℕ → Bool
  pub z_write_enable : ℕ → Bool
  pub zfunc : ℕ → ℕ
  pub backface_enable : ℕ → Bool
  pub front_face : ℕ → StencilFace
  pub back_face : ℕ → StencilFace
  pub stencilmask : ℕ → ℕ
  pub stencilwritemask : ℕ → ℕ
  pub cull_front : ℕ → Bool
  pub cull_back : ℕ → Bool
  pub face : ℕ → ℕ

pub record IsLaidOut (r : Registers) : Type 0 where
  pub blend : ReadsBits r.blend 0x1FFF1FFF
  pub stencil_enable : (x : ℕ) → r.stencil_enable x ≡ not (bit_and x 0x1 == 0)
  pub z_enable : ReadsBits r.z_enable 0x2
  pub z_write_enable : ReadsBits r.z_write_enable 0x4
  pub zfunc : ReadsBits r.zfunc 0x70
  pub backface_enable : (x : ℕ) → r.backface_enable x ≡ not (bit_and x 0x80 == 0)
  pub front_face : ReadsBits r.front_face 0xFFF00
  pub back_face : ReadsBits r.back_face 0xFFF00000
  pub stencilmask : ReadsBits r.stencilmask 0xFF00
  pub stencilwritemask : ReadsBits r.stencilwritemask 0xFF0000
  pub cull_front : ReadsBits r.cull_front 0x1
  pub cull_back : ReadsBits r.cull_back 0x2
  pub face : ReadsBits r.face 0x4

pub data CullMode : Type 0 where
  front : CullMode
  back : CullMode
  nothing : CullMode

-- The stencil part of the descriptor, where the test is enabled.
pub record Stencil : Type 0 where
  pub read_mask : ℕ
  pub write_mask : ℕ
  pub front : StencilFace
  pub back : StencilFace

-- D3D12_GRAPHICS_PIPELINE_STATE_DESC, of what varies.
pub record Descriptor : Type 0 where
  pub root_cbv : Bool
  pub no_alpha_test : Bool
  pub alpha_to_coverage : Bool
  pub targets : Four Target
  pub sample_mask : ℕ
  pub cull_mode : CullMode
  pub front_counter_clockwise : Bool
  pub depth_bias : ℕ
  pub depth_bias_slope : ℕ
  pub depth_clip : Bool
  pub depth_enable : Bool
  pub depth_write : Bool
  pub depth_func : ℕ
  pub stencil_enable : Bool
  pub stencil : Option Stencil
  pub num_render_targets : ℕ
  pub rtv_formats : Four ℕ
  pub dsv_format : ℕ
  pub sample_count : ℕ

abbrev pub target_count : Four ℕ → ℕ
target_count f =
    if not (f.t3 == 0)
    then 4
    else if not (f.t2 == 0)
    then 3
    else if not (f.t1 == 0)
    then 2
    else if not (f.t0 == 0)
    then 1
    else 0

-- An operation is its Xenos number plus that of D3D12's first one, which is 1.
abbrev pub of_xenos : StencilFace → StencilFace
of_xenos f = record {
  fail = f.fail + 1;
  depth_fail = f.depth_fail + 1;
  pass = f.pass + 1;
  func = f.func + 1;
}

module _ (r : Registers) where
  unfoldable pub target : (format word color_mask shift : ℕ) → Target
  target format word color_mask shift =
      if format == 0
      then unbound_target
      else bound_target (r.blend word) (write_bits color_mask shift)

  unfoldable pub stencil_of : (depth ref_mask : ℕ) → Option Stencil
  stencil_of depth ref_mask =
      if r.stencil_enable depth
      then some (record {
        read_mask = r.stencilmask ref_mask;
        write_mask = r.stencilwritemask ref_mask;
        front = of_xenos (r.front_face depth);
        back =
            if r.backface_enable depth
            then of_xenos (r.back_face depth)
            else of_xenos (r.front_face depth);
      })
      else none

  abbrev pub cull_of : (setup : ℕ) → CullMode
  cull_of setup =
      if r.cull_front setup
      then CullMode.front
      else if r.cull_back setup
      then CullMode.back
      else CullMode.nothing

  -- The descriptor of CreatePipeline; none where both faces are culled and nothing is drawn.
  unfoldable pub descriptor :
      Context → GuestState → (root_cbv no_alpha_test : Bool) → Option Descriptor
  descriptor context state root_cbv no_alpha_test =
      let f = context.rtv_formats in
      let b = state.blendcontrol in
      let has_depth = not (context.dsv_format == 0) in
      if r.cull_front state.su_mode_cntl && r.cull_back state.su_mode_cntl
      then none
      else some (record {
        root_cbv = root_cbv;
        no_alpha_test = no_alpha_test;
        alpha_to_coverage = state.alpha_to_mask && ltb 1 context.sample_count;
        targets = record {
          t0 = target f.t0 b.t0 state.color_mask 0;
          t1 = target f.t1 b.t1 state.color_mask 4;
          t2 = target f.t2 b.t2 state.color_mask 8;
          t3 = target f.t3 b.t3 state.color_mask 12;
        };
        sample_mask = context.sample_mask;
        cull_mode = cull_of state.su_mode_cntl;
        front_counter_clockwise = r.face state.su_mode_cntl == 0;
        depth_bias = state.depth_bias;
        depth_bias_slope = state.depth_bias_slope;
        depth_clip = state.depth_clip;
        depth_enable = r.z_enable state.depthcontrol && has_depth;
        depth_write = r.z_write_enable state.depthcontrol;
        depth_func = r.zfunc state.depthcontrol + 1;
        stencil_enable = r.stencil_enable state.depthcontrol && has_depth;
        stencil = stencil_of state.depthcontrol state.stencil_ref_mask;
        num_render_targets = target_count f;
        rtv_formats = f;
        dsv_format = context.dsv_format;
        sample_count = context.sample_count;
      })
