-- ===== src/Tests/Draws.antt =====
-- Two draws that one pipeline serves, and a frame of records.
use bolts_rebuilt.Prelude.{
  ℕ, ◌+◌, ◌-◌, ◌≡◌, refl, ap, ◌∙◌, Bool, true, false, not, ◌&&◌, ◌||◌, none, List, [], ◌∷◌, ◌++◌,
  length, ◌==◌, if◌then◌else◌, bit_and, arith,
}
use bolts_rebuilt.PipelineKey.{Context, GuestState, key_for, normalize}
use bolts_rebuilt.PipelineKey.Masks.{bit_and_assoc, ReadsBits}
use bolts_rebuilt.PipelineKey.Blend.{BlendFactor, BlendOp, BlendControl}
use bolts_rebuilt.PipelineKey.Descriptor.{StencilFace, Registers, IsLaidOut, descriptor}
use bolts_rebuilt.PipelineKey.Equal.{normalize-descriptor}
use bolts_rebuilt.Records.{State, Recorder}
use bolts_rebuilt.Records.Frame.{end_frame}
use bolts_rebuilt.Records.Numbered.{Call, draws, copies, calls, frame_records, end_frame-calls}

-- A field, read under its mask.
abbrev masked : {A : Type 0} → (ℕ → A) → ℕ → ℕ → A
masked f m x = f (bit_and x m)

masked-ReadsBits : {A : Type 0} (f : ℕ → A) (m : ℕ) → bit_and m m ≡ m → ReadsBits (masked f m) m
masked-ReadsBits f m same x = ap f (bit_and_assoc x m m ∙ ap (bit_and x) same)

abbrev blend_control : ℕ → BlendControl
blend_control word = record {
  color_srcblend = if word == 0x00010001 then BlendFactor.one else BlendFactor.src_alpha;
  color_destblend = BlendFactor.zero;
  color_comb_fcn = BlendOp.add;
  alpha_srcblend = BlendFactor.one;
  alpha_destblend = BlendFactor.zero;
  alpha_comb_fcn = BlendOp.add;
}

abbrev face_of : ℕ → StencilFace
face_of word = record { fail = word; depth_fail = 0; pass = 0; func = 7 }

abbrev is_on : ℕ → Bool
is_on x = not (x == 0)

abbrev registers : Registers
registers = record {
  blend = masked blend_control 0x1FFF1FFF;
  stencil_enable = masked is_on 0x1;
  z_enable = masked is_on 0x2;
  z_write_enable = masked is_on 0x4;
  zfunc = masked (λ x. x) 0x70;
  backface_enable = masked is_on 0x80;
  front_face = masked face_of 0xFFF00;
  back_face = masked face_of 0xFFF00000;
  stencilmask = masked (λ x. x) 0xFF00;
  stencilwritemask = masked (λ x. x) 0xFF0000;
  cull_front = masked is_on 0x1;
  cull_back = masked is_on 0x2;
  face = masked (λ x. x) 0x4;
}

registers-IsLaidOut : IsLaidOut registers
registers-IsLaidOut = record {
  blend = masked-ReadsBits blend_control 0x1FFF1FFF refl;
  stencil_enable = λ x. refl;
  z_enable = masked-ReadsBits is_on 0x2 refl;
  z_write_enable = masked-ReadsBits is_on 0x4 refl;
  zfunc = masked-ReadsBits (λ x. x) 0x70 refl;
  backface_enable = λ x. refl;
  front_face = masked-ReadsBits face_of 0xFFF00 refl;
  back_face = masked-ReadsBits face_of 0xFFF00000 refl;
  stencilmask = masked-ReadsBits (λ x. x) 0xFF00 refl;
  stencilwritemask = masked-ReadsBits (λ x. x) 0xFF0000 refl;
  cull_front = masked-ReadsBits is_on 0x1 refl;
  cull_back = masked-ReadsBits is_on 0x2 refl;
  face = masked-ReadsBits (λ x. x) 0x4 refl;
}

abbrev one_target : Context
one_target = record {
  rtv_formats = record { t0 = 28; t1 = 0; t2 = 0; t3 = 0 };
  dsv_format = 45;
  sample_count = 1;
  sample_mask = 0xFFFFFFFF;
}

abbrev first_state : GuestState
first_state = record {
  blendcontrol = record { t0 = 0x00010001; t1 = 0; t2 = 0; t3 = 0 };
  depthcontrol = 0x76;
  su_mode_cntl = 0x2;
  color_mask = 0xF;
  stencil_ref_mask = 0;
  depth_bias = 0;
  depth_bias_slope = 0;
  depth_clip = true;
  alpha_to_mask = false;
}

-- It differs where nothing reads: unbound targets, the stencil test that is off and one sample.
abbrev second_state : GuestState
second_state = record first_state {
  blendcontrol = record { t0 = 0x00010001; t1 = 5; t2 = 0; t3 = 9 };
  depthcontrol = 0xABC0007E;
  su_mode_cntl = 0x12;
  color_mask = 0xFFFF;
  stencil_ref_mask = 0x123456;
  alpha_to_mask = true;
}

normalize-descriptor_example :
    descriptor registers one_target first_state true false
    ≡ descriptor registers one_target second_state true false
unfolding normalize key_for
normalize-descriptor_example =
    normalize-descriptor registers one_target one_target first_state second_state true true false
      false registers-IsLaidOut refl

abbrev some_state : State
some_state = record {
  ts_ns = 5;
  vs_ucode_hash = 1;
  ps_ucode_hash = 2;
  registers = none;
  vfetch = [];
  tfetch = [];
}

abbrev a_draw : Call
a_draw =
    draws
      (record {
        prim_type = 4;
        index_count = 6;
        ib_guest_base = 0x1000;
        ib_count = 6;
        ib_format = 0;
        major_mode_explicit = false;
      })
      some_state

abbrev fresh_recorder : Recorder
fresh_recorder = record {
  buffer = [];
  sequence = 0;
  copies = 0;
  dropped = 0;
  file_open = false;
  open_attempted = false;
  written = [];
}

abbrev three_calls : List Call
three_calls = a_draw ∷ copies some_state ∷ a_draw ∷ []

end_frame-calls_example :
    let q = end_frame (calls fresh_recorder 9 three_calls) 9 77 true in
    (q.written ≡ (
      if false || (not false && true)
      then fresh_recorder.written ++ frame_records 65536 9 77 three_calls
      else fresh_recorder.written))
    × (q.dropped ≡ 0 + (length three_calls - 65536))
    × (q.buffer ≡ [])
    × (q.sequence ≡ 0)
    × (q.copies ≡ 0)
end_frame-calls_example =
    end_frame-calls fresh_recorder 9 77 65536 true three_calls refl (omega arith) refl refl refl
