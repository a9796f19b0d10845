-- ===== src/PipelineKey/Normal.antt =====
-- Normalizing a key against the descriptor: draws whose normalized keys agree are built alike.
use bolts_rebuilt.Prelude.{
  ℕ, ◌≡◌, refl, ap, ◌∙◌, Bool, true, false, not, ◌==◌, if◌then◌else◌, bit_and, arith, Bool-cases,
  inl, inr, ◌⊎◌,
}
use bolts_rebuilt.Prelude.Bits.Words.{shr}
use bolts_rebuilt.Prelude.Bits.Masks.{bit_and-ones_right}
use bolts_rebuilt.PipelineKey.{Four, blend_word, targets_mask, normal_depth}
use bolts_rebuilt.PipelineKey.Masks.{bit_and_assoc, shr-bit_and, ReadsBits, reads_kept}
use bolts_rebuilt.PipelineKey.Blend.{write_bits}
use bolts_rebuilt.PipelineKey.Descriptor.{Registers, IsLaidOut, target}

abbrev pub is_set : (mask x : ℕ) → Bool
is_set mask x = not (bit_and x mask == 0)

pub is_set-ReadsBits : (mask : ℕ) → bit_and mask mask ≡ mask → ReadsBits (is_set mask) mask
is_set-ReadsBits mask same x =
    ap (λ (k : ℕ). not (k == 0)) (bit_and_assoc x mask mask ∙ ap (bit_and x) same)

-- The four bits of each bound target are in the mask of the targets.
pub targets_mask-bits :
    (f : Four ℕ)
    → ((f.t0 ≡ 0) ⊎ (bit_and (shr (targets_mask f) 0) 15 ≡ 15))
      × ((f.t1 ≡ 0) ⊎ (bit_and (shr (targets_mask f) 4) 15 ≡ 15))
      × ((f.t2 ≡ 0) ⊎ (bit_and (shr (targets_mask f) 8) 15 ≡ 15))
      × ((f.t3 ≡ 0) ⊎ (bit_and (shr (targets_mask f) 12) 15 ≡ 15))
targets_mask-bits f = (
  ground (arith, bit_and-ones_right 4 (shr (targets_mask f) 0)),
  ground (arith, bit_and-ones_right 4 (shr (targets_mask f) 4)),
  ground (arith, bit_and-ones_right 4 (shr (targets_mask f) 8)),
  ground (arith, bit_and-ones_right 4 (shr (targets_mask f) 12)),
)

write_bits-masked :
    (color_mask mask shift : ℕ)
    → bit_and (shr mask shift) 15 ≡ 15
    → write_bits (bit_and color_mask mask) shift ≡ write_bits color_mask shift
write_bits-masked color_mask mask shift h =
    ap (λ (x : ℕ). bit_and x 15) (shr-bit_and shift color_mask mask)
    ∙ (bit_and_assoc (shr color_mask shift) (shr mask shift) 15
        ∙ ap (bit_and (shr color_mask shift)) h)

module _ (r : Registers) (l : IsLaidOut r) where
  pub target-normal :
      (format word color_mask mask shift : ℕ)
      → (format ≡ 0) ⊎ (bit_and (shr mask shift) 15 ≡ 15)
      → target r format (blend_word format word) (bit_and color_mask mask) shift
        ≡ target r format word color_mask shift
  unfolding target
  target-normal format word color_mask mask shift bits = elim (Bool-cases (format == 0)) [
    | inl unknown ↦ rw unknown refl
    | inr bound ↦ elim bits [
      | inl zeros ↦ absurd (ground arith)
      | inr kept ↦
          let b = l.blend word in
          let w = write_bits-masked color_mask mask shift kept in rw (bound, b, w) refl
    ]
  ]

-- A field of the depth word is kept where each mask that applies keeps its bits.
pub depth-kept {ℓ} :
    {A : Type ℓ} (f : ℕ → A) (m dsv d : ℕ)
    → ReadsBits f m
    → bit_and 0xFFFFFFF7 m ≡ m
    → ((bit_and d 0x1 == 0) ≡ true → bit_and 0x76 m ≡ m)
    → ((bit_and d 0x80 == 0) ≡ true → bit_and 0x000FFFFF m ≡ m)
    → ((dsv == 0) ≡ true → bit_and 0xFFFFFFFD m ≡ m)
    → f (normal_depth dsv d) ≡ f d
unfolding normal_depth
depth-kept f m dsv d reads padding tested front bound =
    let unpadded = bit_and d 0xFFFFFFF7 in
    let first = reads_kept f m 0xFFFFFFF7 d reads padding in
    let last = λ (x : ℕ) (e : f x ≡ f d).
      let masked = λ (z : (dsv == 0) ≡ true). reads_kept f m 0xFFFFFFFD x reads (bound z) in
      let result : f (if dsv == 0 then bit_and x 0xFFFFFFFD else x) ≡ f d =
        elim (Bool-cases (dsv == 0)) [ inl z ↦ rw z (masked z ∙ e) | inr z ↦ rw z e ] in
      result in
    elim (Bool-cases (bit_and d 0x1 == 0)) [
      | inl off ↦
          rw off
            (last (bit_and unpadded 0x76) (reads_kept f m 0x76 unpadded reads (tested off) ∙ first))
      | inr on ↦ elim (Bool-cases (bit_and d 0x80 == 0)) [
        | inl one_face ↦
            rw (on, one_face)
              (last (bit_and unpadded 0x000FFFFF)
                (reads_kept f m 0x000FFFFF unpadded reads (front one_face) ∙ first))
        | inr two_faces ↦ rw (on, two_faces) (last unpadded first)
      ]
    ]

bit_and-zero : (x : ℕ) → bit_and x 0 ≡ 0
bit_and-zero x = bit_and-ones_right 0 x ∙ omega arith

-- Where the stencil test is off, it stays off.
stencil_off : (dsv d : ℕ) → (bit_and d 0x1 == 0) ≡ true → is_set 0x1 (normal_depth dsv d) ≡ false
unfolding normal_depth
stencil_off dsv d off =
    let x = bit_and d 0xFFFFFFF7 in
    let clear : bit_and (bit_and x 0x76) 0x1 ≡ 0 = bit_and_assoc x 0x76 0x1 ∙ bit_and-zero x in
    elim (Bool-cases (dsv == 0)) [
      | inl z ↦
          rw (off, z)
            (ap (λ (k : ℕ). not (k == 0)) (bit_and_assoc (bit_and x 0x76) 0xFFFFFFFD 0x1 ∙ clear))
      | inr z ↦ rw (off, z) (ap (λ (k : ℕ). not (k == 0)) clear)
    ]

pub stencil-kept : (dsv d : ℕ) → is_set 0x1 (normal_depth dsv d) ≡ is_set 0x1 d
stencil-kept dsv d = elim (Bool-cases (bit_and d 0x1 == 0)) [
  | inl off ↦ stencil_off dsv d off ∙ rw off refl
  | inr on ↦
      depth-kept (is_set 0x1) 0x1 dsv d (is_set-ReadsBits 0x1 refl) refl (λ off. cc) (λ b. refl)
        (λ b. refl)
]
