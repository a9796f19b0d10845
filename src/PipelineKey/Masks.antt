-- ===== src/PipelineKey/Masks.antt =====
-- Masked words: masks in a row, and the fields that a mask keeps.
use bolts_rebuilt.Prelude.{ℕ, ◌+◌, ◌≡◌, refl, sym, ap, ◌∙◌, Bool, true, false, ◌&&◌, bit_and}
use bolts_rebuilt.Prelude.Bits.{bit, bit-bit_and}
use bolts_rebuilt.Prelude.Bits.Words.{shr, bit-shr}
use bolts_rebuilt.Prelude.Bits.Masks.{eq_of_all_bits}

&&_assoc : (a b c : Bool) → ((a && b) && c) ≡ (a && (b && c))
&&_assoc true b c = refl
&&_assoc false b c = refl

pub bit_and_assoc : (a b c : ℕ) → bit_and (bit_and a b) c ≡ bit_and a (bit_and b c)
bit_and_assoc a b c = eq_of_all_bits (bit_and (bit_and a b) c) (bit_and a (bit_and b c)) (λ i.
    rw
      (
        bit-bit_and (bit_and a b) c i,
        bit-bit_and a b i,
        bit-bit_and a (bit_and b c) i,
        bit-bit_and b c i,
      )
      (&&_assoc (bit a i) (bit b i) (bit c i)))

pub shr-bit_and : (k a b : ℕ) → shr (bit_and a b) k ≡ bit_and (shr a k) (shr b k)
shr-bit_and k a b = eq_of_all_bits (shr (bit_and a b) k) (bit_and (shr a k) (shr b k)) (λ i.
    rw
      (
        bit-shr k (bit_and a b) i,
        bit-bit_and a b (i + k),
        bit-bit_and (shr a k) (shr b k) i,
        bit-shr k a i,
        bit-shr k b i,
      )
      refl)

-- A function reads only the bits of a mask.
abbrev pub ReadsBits {ℓ} : {A : Type ℓ} → (ℕ → A) → ℕ → Type ℓ
ReadsBits f m = (x : ℕ) → f (bit_and x m) ≡ f x

-- Such a function does not see a mask that keeps these bits.
pub reads_kept {ℓ} :
    {A : Type ℓ} (f : ℕ → A) (m kept x : ℕ)
    → ReadsBits f m
    → bit_and kept m ≡ m
    → f (bit_and x kept) ≡ f x
reads_kept f m kept x reads keeps =
    sym (reads (bit_and x kept)) ∙ (ap f (bit_and_assoc x kept m ∙ ap (bit_and x) keeps) ∙ reads x)
