-- ===== src/Records.antt =====
-- NbCpRecorder of src/gpu/nb_cp_records.cpp: the records of the draws and copies of a frame, buffered
-- and written at its end. The register file and the shaders are what the SDK decodes of them, a float
-- is its bits, and the lines of the file are the records that are written.
pub mod Frame
pub mod Numbered
use bolts_rebuilt.Prelude.{
  ℕ, ◌+◌, ◌*◌, ◌%◌, ◌^◌, Bool, true, false, not, ◌&&◌, ◌||◌, Option, none, some, List, [], ◌∷◌,
  ◌++◌, length, map, leb, ltb, ◌==◌, if◌then◌else◌, bit_or,
}

abbrev pub frame_buffer_max : ℕ
frame_buffer_max = 65536

pub record VertexFetch : Type 0 where
  pub address : ℕ
  pub size : ℕ

-- xenos::DataDimension, as the switch reads it: the others are 2D and cube.
pub data Dimension : Type 0 where
  one_dimension : Dimension
  three_dimensions : Dimension
  other : Dimension

pub record TextureFetch : Type 0 where
  pub base_address : ℕ
  pub mip_address : ℕ
  pub format : ℕ
  pub dimension : Dimension
  pub dimension_code : ℕ
  pub size_1d_width : ℕ
  pub size_2d_width : ℕ
  pub size_2d_height : ℕ
  pub size_3d_width : ℕ
  pub size_3d_height : ℕ

-- The registers that a record keeps.
pub record Registers : Type 0 where
  pub surface_pitch : ℕ
  pub msaa_samples : ℕ
  pub color_base : ℕ → ℕ
  pub color_base_bit_11 : ℕ → ℕ
  pub color_format : ℕ → ℕ
  pub depth_base : ℕ
  pub depth_base_bit_11 : ℕ
  pub depth_format : ℕ
  pub edram_mode : ℕ
  pub depthcontrol : ℕ
  pub blendcontrol0 : ℕ
  pub colorcontrol : ℕ
  pub pa_su_sc_mode_cntl : ℕ
  pub pa_cl_vte_cntl : ℕ
  pub viewport : ℕ → ℕ
  pub scissor_tl : ℕ
  pub scissor_br : ℕ
  pub vertex_fetch : ℕ → VertexFetch
  pub texture_fetch : ℕ → TextureFetch

pub record VertexBinding : Type 0 where
  pub fetch_constant : ℕ
  pub stride_words : ℕ

pub record Shader : Type 0 where
  pub ucode_data_hash : ℕ
  pub vertex_bindings : List VertexBinding
  pub texture_bindings : List ℕ

pub record VFetch : Type 0 where
  pub fetch_constant : ℕ
  pub base : ℕ
  pub size_bytes : ℕ
  pub stride_words : ℕ

pub record TFetch : Type 0 where
  pub fetch_constant : ℕ
  pub base : ℕ
  pub width : ℕ
  pub height : ℕ
  pub format : ℕ
  pub dimension : ℕ
  pub mip_address : ℕ

-- The registers as they are recorded.
pub record RenderState : Type 0 where
  pub rb_surface_pitch : ℕ
  pub rb_surface_msaa : ℕ
  pub rb_color_base : List ℕ
  pub rb_color_format : List ℕ
  pub rb_depth_base : ℕ
  pub rb_depth_format : ℕ
  pub rb_edram_mode : ℕ
  pub rb_depthcontrol : ℕ
  pub rb_blendcontrol0 : ℕ
  pub rb_colorcontrol : ℕ
  pub pa_su_sc_mode_cntl : ℕ
  pub pa_cl_vte_cntl : ℕ
  pub viewport : List ℕ
  pub scissor_tl : ℕ
  pub scissor_br : ℕ

pub data Kind : Type 0 where
  draw : Kind
  copy : Kind
  frame_stats : Kind

pub record DrawInfo : Type 0 where
  pub prim_type : ℕ
  pub index_count : ℕ
  pub ib_guest_base : ℕ
  pub ib_count : ℕ
  pub ib_format : ℕ
  pub major_mode_explicit : Bool

pub record State : Type 0 where
  pub ts_ns : ℕ
  pub vs_ucode_hash : ℕ
  pub ps_ucode_hash : ℕ
  pub registers : Option RenderState
  pub vfetch : List VFetch
  pub tfetch : List TFetch

-- NbCpRecord.
pub record Record : Type 0 where
  pub kind : Kind
  pub frame : ℕ
  pub sequence : ℕ
  pub copies_before : ℕ
  pub info : Option DrawInfo
  pub state : State

-- NbCpRecorder; `written` is what its file holds, if it is open.
pub record Recorder : Type 0 where
  pub buffer : List Record
  pub sequence : ℕ
  pub copies : ℕ
  pub dropped : ℕ
  pub file_open : Bool
  pub open_attempted : Bool
  pub written : List Record

-- WantsFrame, with the three configuration variables.
unfoldable pub wants_frame : (enable : Bool) → (period frames frame : ℕ) → Bool
wants_frame enable period frames frame = enable && (period == 0 || ltb (frame % period) frames)

abbrev pub ucode_hash : Option Shader → ℕ
ucode_hash none = 0
ucode_hash (some shader) = shader.ucode_data_hash

abbrev pub width_of : Dimension → TextureFetch → ℕ
width_of one_dimension fetch = fetch.size_1d_width + 1
width_of three_dimensions fetch = fetch.size_3d_width + 1
width_of other fetch = fetch.size_2d_width + 1

abbrev pub height_of : Dimension → TextureFetch → ℕ
height_of one_dimension fetch = 1
height_of three_dimensions fetch = fetch.size_3d_height + 1
height_of other fetch = fetch.size_2d_height + 1

abbrev pub vfetch_of : Registers → VertexBinding → VFetch
vfetch_of regs b =
    let fetch = regs.vertex_fetch b.fetch_constant in
    record {
      fetch_constant = b.fetch_constant;
      base = fetch.address * 4 % 2 ^ 32;
      size_bytes = fetch.size * 4 % 2 ^ 32;
      stride_words = b.stride_words;
    }

abbrev pub tfetch_of : Registers → ℕ → TFetch
tfetch_of regs fetch_constant =
    let fetch = regs.texture_fetch fetch_constant in
    record {
      fetch_constant = fetch_constant;
      base = fetch.base_address * 2 ^ 12 % 2 ^ 32;
      width = width_of fetch.dimension fetch;
      height = height_of fetch.dimension fetch;
      format = fetch.format;
      dimension = fetch.dimension_code;
      mip_address = fetch.mip_address * 2 ^ 12 % 2 ^ 32;
    }

-- A loop over bindings that stops when eight are recorded.
unfoldable pub first_eight : {A B : Type 0} → (A → B) → List A → List B → List B
first_eight f [] out = out
first_eight f (b ∷ bindings) out = elim (leb 8 (length out)) [
  | true ↦ out
  | false ↦ first_eight f bindings (out ++ f b ∷ [])
]

abbrev four : {A : Type 0} → (ℕ → A) → List A
four f = f 0 ∷ f 1 ∷ f 2 ∷ f 3 ∷ []

unfoldable pub render_state : Registers → RenderState
render_state regs = record {
  rb_surface_pitch = regs.surface_pitch;
  rb_surface_msaa = regs.msaa_samples;
  rb_color_base = four (λ i. bit_or (regs.color_base i) (regs.color_base_bit_11 i * 2 ^ 11));
  rb_color_format = four regs.color_format;
  rb_depth_base = bit_or regs.depth_base (regs.depth_base_bit_11 * 2 ^ 11);
  rb_depth_format = regs.depth_format;
  rb_edram_mode = regs.edram_mode;
  rb_depthcontrol = regs.depthcontrol;
  rb_blendcontrol0 = regs.blendcontrol0;
  rb_colorcontrol = regs.colorcontrol;
  pa_su_sc_mode_cntl = regs.pa_su_sc_mode_cntl;
  pa_cl_vte_cntl = regs.pa_cl_vte_cntl;
  viewport = four regs.viewport;
  scissor_tl = regs.scissor_tl;
  scissor_br = regs.scissor_br;
}
