-- ===== src/PipelineKey/Equal.antt =====
-- The pipelines that the key tells apart: equal keys, raw or normalized, stand for one descriptor.
use bolts_rebuilt.Prelude.{
  ℕ, ◌+◌, ◌≡◌, refl, sym, ap, ◌∙◌, ltb, leb, Bool, true, false, not, ◌&&◌, Option, none, some, ◌==◌,
  if◌then◌else◌, bit_and, arith, Bool-cases, inl, inr,
}
use bolts_rebuilt.PipelineKey.{
  Context, GuestState, Key, key_for, flag, targets_mask, normal_depth, normal_stencil, normal_key,
  normalize,
}
use bolts_rebuilt.PipelineKey.Masks.{reads_kept}
use bolts_rebuilt.PipelineKey.Descriptor.{
  Registers, IsLaidOut, Descriptor, descriptor, target, stencil_of, cull_of, target_count,
}
use bolts_rebuilt.PipelineKey.Normal.{
  is_set, is_set-ReadsBits, targets_mask-bits, target-normal, depth-kept, stencil-kept,
}

module _ (r : Registers) where
  -- The descriptor, read off the words of a key.
  unfoldable of_key : Key → Option Descriptor
  of_key k =
      let has_depth = not (k.dsv == 0) in
      if r.cull_front k.setup && r.cull_back k.setup
      then none
      else some (record {
        root_cbv = is_set 0x4 k.flags;
        no_alpha_test = k.no_alpha_test == 1;
        alpha_to_coverage = is_set 0x2 k.flags && ltb 1 k.samples;
        targets = record {
          t0 = target r k.rtv.t0 k.blend.t0 k.color_mask 0;
          t1 = target r k.rtv.t1 k.blend.t1 k.color_mask 4;
          t2 = target r k.rtv.t2 k.blend.t2 k.color_mask 8;
          t3 = target r k.rtv.t3 k.blend.t3 k.color_mask 12;
        };
        sample_mask = k.sample_mask;
        cull_mode = cull_of r k.setup;
        front_counter_clockwise = r.face k.setup == 0;
        depth_bias = k.depth_bias;
        depth_bias_slope = k.slope;
        depth_clip = is_set 0x1 k.flags;
        depth_enable = r.z_enable k.depth && has_depth;
        depth_write = r.z_write_enable k.depth;
        depth_func = r.zfunc k.depth + 1;
        stencil_enable = r.stencil_enable k.depth && has_depth;
        stencil = stencil_of r k.depth k.stencil;
        num_render_targets = target_count k.rtv;
        rtv_formats = k.rtv;
        dsv_format = k.dsv;
        sample_count = k.samples;
      })

  -- The bits of word 16 are the three flags.
  flag_bits :
      (clip mask root : Bool)
      → (is_set 0x1 (flag clip 1 + flag mask 2 + flag root 4) ≡ clip)
        × (is_set 0x2 (flag clip 1 + flag mask 2 + flag root 4) ≡ mask)
        × (is_set 0x4 (flag clip 1 + flag mask 2 + flag root 4) ≡ root)
  flag_bits false false false = (refl, refl, refl)
  flag_bits false false true = (refl, refl, refl)
  flag_bits false true false = (refl, refl, refl)
  flag_bits false true true = (refl, refl, refl)
  flag_bits true false false = (refl, refl, refl)
  flag_bits true false true = (refl, refl, refl)
  flag_bits true true false = (refl, refl, refl)
  flag_bits true true true = (refl, refl, refl)

  no_alpha_bit : (b : Bool) → (flag b 1 == 1) ≡ b
  no_alpha_bit true = refl
  no_alpha_bit false = refl

  of_key-key_for :
      (context : Context) (state : GuestState) (root_cbv no_alpha_test : Bool)
      → of_key (key_for context state root_cbv no_alpha_test)
        ≡ descriptor r context state root_cbv no_alpha_test
  unfolding of_key key_for descriptor
  of_key-key_for context state root_cbv no_alpha_test =
      let (clip, mask, root) = flag_bits state.depth_clip state.alpha_to_mask root_cbv in
      rw (clip, mask, root, no_alpha_bit no_alpha_test) refl

  module _ (l : IsLaidOut r) where
    stencil_enable-normal : (dsv d : ℕ) → r.stencil_enable (normal_depth dsv d) ≡ r.stencil_enable d
    stencil_enable-normal dsv d =
        l.stencil_enable (normal_depth dsv d) ∙ (stencil-kept dsv d ∙ sym (l.stencil_enable d))

    backface_enable-normal :
        (dsv d : ℕ)
        → (bit_and d 0x1 == 0) ≡ false
        → r.backface_enable (normal_depth dsv d) ≡ r.backface_enable d
    backface_enable-normal dsv d on =
        let kept =
          depth-kept (is_set 0x80) 0x80 dsv d (is_set-ReadsBits 0x80 refl) refl (λ off. cc)
            (λ b. refl) (λ z. refl) in
        l.backface_enable (normal_depth dsv d) ∙ (kept ∙ sym (l.backface_enable d))

    -- The stencil part, where the test is on.
    stencil_of-on :
        (dsv d s : ℕ)
        → (bit_and d 0x1 == 0) ≡ false
        → stencil_of r (normal_depth dsv d) (bit_and s 0x00FFFF00) ≡ stencil_of r d s
    unfolding stencil_of
    stencil_of-on dsv d s on =
        let n = normal_depth dsv d in
        let front : r.front_face n ≡ r.front_face d =
          depth-kept r.front_face 0xFFF00 dsv d l.front_face refl (λ off. cc) (λ b. refl)
            (λ z. refl) in
        let read = reads_kept r.stencilmask 0xFF00 0x00FFFF00 s l.stencilmask refl in
        let write = reads_kept r.stencilwritemask 0xFF0000 0x00FFFF00 s l.stencilwritemask refl in
        let enable = stencil_enable-normal dsv d in
        let same_faces = backface_enable-normal dsv d on in
        elim (Bool-cases (bit_and d 0x80 == 0)) [
          | inl one_face ↦
              let off : r.backface_enable d ≡ false = l.backface_enable d ∙ ap not one_face in
              rw (enable, same_faces, off, front, read, write) refl
          | inr two_faces ↦
              let back : r.back_face n ≡ r.back_face d =
                depth-kept r.back_face 0xFFF00000 dsv d l.back_face refl (λ off. cc) (λ b. cc)
                  (λ z. refl) in
              rw (enable, same_faces, front, back, read, write) refl
        ]

    stencil_of-normal :
        (dsv d s : ℕ) → stencil_of r (normal_depth dsv d) (normal_stencil d s) ≡ stencil_of r d s
    unfolding normal_stencil stencil_of
    stencil_of-normal dsv d s = elim (Bool-cases (bit_and d 0x1 == 0)) [
      | inl off ↦
          let is_off : r.stencil_enable d ≡ false = l.stencil_enable d ∙ ap not off in
          rw (stencil_enable-normal dsv d, is_off) refl
      | inr on ↦ rw on (stencil_of-on dsv d s on)
    ]

    -- The depth test, where there is a depth target.
    depth_enable-normal :
        (dsv d : ℕ)
        → (r.z_enable (normal_depth dsv d) && not (dsv == 0)) ≡ (r.z_enable d && not (dsv == 0))
    depth_enable-normal dsv d = elim (Bool-cases (dsv == 0)) [
      | inl z ↦ rw z (ground arith)
      | inr bound ↦
          ap (λ b. b && not (dsv == 0))
            (depth-kept r.z_enable 0x2 dsv d l.z_enable refl (λ off. refl) (λ b. refl) (λ z. cc))
    ]

    -- Coverage is off where there is one sample.
    coverage-normal :
        (flags samples : ℕ)
        → (is_set 0x2 (if leb samples 1 then bit_and flags 0xFFFFFFFD else flags) && ltb 1 samples)
          ≡ (is_set 0x2 flags && ltb 1 samples)
    coverage-normal flags samples = elim (Bool-cases (leb samples 1)) [
      | inl one ↦ ground arith
      | inr more ↦ rw more refl
    ]

    flag-normal :
        (mask flags samples : ℕ)
        → bit_and mask mask ≡ mask
        → bit_and 0xFFFFFFFD mask ≡ mask
        → is_set mask (if leb samples 1 then bit_and flags 0xFFFFFFFD else flags)
          ≡ is_set mask flags
    flag-normal mask flags samples same keeps = elim (Bool-cases (leb samples 1)) [
      | inl few ↦
          rw few (reads_kept (is_set mask) mask 0xFFFFFFFD flags (is_set-ReadsBits mask same) keeps)
      | inr more ↦ rw more refl
    ]

    of_key-normal : (k : Key) → of_key (normal_key k) ≡ of_key k
    unfolding of_key normal_key
    of_key-normal k =
        let (b0, b1, b2, b3) = targets_mask-bits k.rtv in
        let mask = targets_mask k.rtv in
        let t0 = target-normal r l k.rtv.t0 k.blend.t0 k.color_mask mask 0 b0 in
        let t1 = target-normal r l k.rtv.t1 k.blend.t1 k.color_mask mask 4 b1 in
        let t2 = target-normal r l k.rtv.t2 k.blend.t2 k.color_mask mask 8 b2 in
        let t3 = target-normal r l k.rtv.t3 k.blend.t3 k.color_mask mask 12 b3 in
        let front = reads_kept r.cull_front 0x1 0x7 k.setup l.cull_front refl in
        let back = reads_kept r.cull_back 0x2 0x7 k.setup l.cull_back refl in
        let face = reads_kept r.face 0x4 0x7 k.setup l.face refl in
        let write =
          depth-kept r.z_write_enable 0x4 k.dsv k.depth l.z_write_enable refl (λ off. refl)
            (λ b. refl) (λ z. refl) in
        let func =
          depth-kept r.zfunc 0x70 k.dsv k.depth l.zfunc refl (λ off. refl) (λ b. refl)
            (λ z. refl) in
        let stencil = stencil_enable-normal k.dsv k.depth in
        let stencils = stencil_of-normal k.dsv k.depth k.stencil in
        let enable = depth_enable-normal k.dsv k.depth in
        let coverage = coverage-normal k.flags k.samples in
        let clip = flag-normal 0x1 k.flags k.samples refl refl in
        let root = flag-normal 0x4 k.flags k.samples refl refl in
        rw
          (
            front, back, face, write, func, stencil, stencils, enable, coverage, clip, root, t0, t1,
            t2, t3,
          )
          refl

-- The normalized key of a draw determines the pipeline: two draws with equal normalized keys have one
-- descriptor, or are both without one, where the fields of a register lie in the bits that its
-- layout gives.
pub normalize-descriptor :
    (r : Registers) (first second : Context) (s t : GuestState)
    (root_cbv root_cbv' no_alpha_test no_alpha_test' : Bool)
    → IsLaidOut r
    → (normalize (key_for first s root_cbv no_alpha_test)).1
      ≡ (normalize (key_for second t root_cbv' no_alpha_test')).1
    → descriptor r first s root_cbv no_alpha_test ≡ descriptor r second t root_cbv' no_alpha_test'
unfolding normalize
normalize-descriptor r first second s t root_cbv root_cbv' no_alpha_test no_alpha_test' l same =
    let built = λ (c : Context) (g : GuestState) (b n : Bool).
      of_key-normal r l (key_for c g b n) ∙ of_key-key_for r c g b n in
    sym (built first s root_cbv no_alpha_test)
    ∙ (ap (of_key r) same ∙ built second t root_cbv' no_alpha_test')
