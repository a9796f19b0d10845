-- ===== src/Constants/Packet.antt =====
-- The bytes of a packet that Build accepts.
use bolts_rebuilt.Prelude.{
  ℕ, ◌+◌, ◌*◌, ◌≤◌, ◌≡◌, refl, ◌∙◌, ap, true, false, List, [], ◌∷◌, ◌++◌, length, arith, Option,
  none, some, take, drop, length-append, length-take, length-drop, length-replicate, Option-cases,
  inl, inr,
}
use bolts_rebuilt.Constants.{
  bytes_or, Run, Inputs, build, constant_registers, total_of, copy_runs, float_bytes, runs_fit,
  capacity, header_bytes, bool_bytes, slot_bytes, is_null,
}

-- Each accepted run lies in the 256 registers, so that the bytes it copies are all there.
length-copy_runs :
    (source : List ℕ) (registers : ℕ) (runs : List Run) (total result : ℕ)
    → 256 * 16 ≤ length source
    → total_of registers runs total ≡ some result
    → length (copy_runs source runs) + total * 16 ≡ result * 16
unfolding copy_runs total_of
length-copy_runs source registers [] total result long h = ground arith
length-copy_runs source registers (run ∷ runs) total result long h =
    let rest = length-copy_runs source registers runs (total + run.count) result long in
    rw
      (
        length-append (take (run.count * 16) (drop (run.first * 16) source))
            (copy_runs source runs),
        length-take (run.count * 16) (drop (run.first * 16) source),
        length-drop (run.first * 16) source,
      )
      (ground (arith, rest))

-- The arrays that the inputs point to are as long as Build reads.
abbrev pub HasBytes : Inputs → Type 0
HasBytes inputs =
    ((bytes : List ℕ) → inputs.bools ≡ some bytes → bool_bytes ≤ length bytes)
    × ((bytes : List ℕ) → inputs.swizzles ≡ some bytes → slot_bytes ≤ length bytes)
    × ((bytes : List ℕ) → inputs.samplers ≡ some bytes → slot_bytes ≤ length bytes)
    × ((bytes : List ℕ) → inputs.source ≡ some bytes → 256 * 16 ≤ length bytes)

-- The first half of Build: what an accepted packet has passed.
build-checks :
    (inputs : Inputs) (packet : List ℕ)
    → build inputs ≡ some packet
    → (constant_registers inputs.packed inputs.explicit_empty ≤ 256)
      × (runs_fit (constant_registers inputs.packed inputs.explicit_empty) inputs.source inputs.runs
          ≡ true)
      × (is_null inputs.swizzles ≡ false)
      × (is_null inputs.samplers ≡ false)
unfolding build
build-checks inputs packet h = ground arith

length-float_bytes :
    (registers : ℕ) (source : Option (List ℕ)) (runs : List Run)
    → registers ≤ 256
    → runs_fit registers source runs ≡ true
    → ((bytes : List ℕ) → source ≡ some bytes → 256 * 16 ≤ length bytes)
    → length (float_bytes registers source runs) ≡ registers * 16
unfolding float_bytes runs_fit
length-float_bytes registers none runs small fit long = length-replicate {A = ℕ} (registers * 16) 0
length-float_bytes registers (some source) [] small fit long =
    let enough = long source refl in rw (length-take (registers * 16) source) (omega arith)
length-float_bytes registers (some source) (run ∷ runs) small fit long =
    elim (Option-cases (total_of registers (run ∷ runs) 0)) [
      | inl refused ↦ ground arith
      | inr (total, accepted) ↦
          let copied =
            length-copy_runs source registers (run ∷ runs) 0 total (long source refl) accepted in
          ground arith
    ]

length-bytes_or :
    (bytes : Option (List ℕ)) (n : ℕ)
    → ((b : List ℕ) → bytes ≡ some b → n ≤ length b)
    → length (bytes_or bytes n) ≡ n
length-bytes_or none n has = length-replicate {A = ℕ} n 0
length-bytes_or (some bytes) n has =
    let enough = has bytes refl in rw (length-take n bytes) (omega arith)

length-packet :
    (a b c d : List ℕ) → length (a ++ b ++ c ++ d) ≡ length a + length b + length c + length d
length-packet a b c d =
    omega (arith, length-append (a ++ b ++ c) d, length-append (a ++ b) c, length-append a b)

build-packet :
    (inputs : Inputs) (packet : List ℕ)
    → build inputs ≡ some packet
    → packet
      ≡ bytes_or inputs.bools bool_bytes
        ++ bytes_or inputs.swizzles slot_bytes
        ++ bytes_or inputs.samplers slot_bytes
        ++ float_bytes
            (constant_registers inputs.packed inputs.explicit_empty)
            inputs.source
            inputs.runs
unfolding build
build-packet inputs packet h = ground arith

-- A packet that Build accepts, from inputs that point to as many bytes as Build reads, is the header
-- and 16 bytes for each register of its layout, at most the capacity.
pub length-build :
    (inputs : Inputs) (packet : List ℕ)
    → HasBytes inputs
    → build inputs ≡ some packet
    → (length packet ≡ header_bytes + constant_registers inputs.packed inputs.explicit_empty * 16)
      × (length packet ≤ capacity)
length-build inputs packet (bools, swizzles, samplers, source) h =
    let registers = constant_registers inputs.packed inputs.explicit_empty in
    let (small, fit, some_swizzles, some_samplers) = build-checks inputs packet h in
    let floats = length-float_bytes registers inputs.source inputs.runs small fit source in
    let whole =
      ap length (build-packet inputs packet h)
      ∙ length-packet (bytes_or inputs.bools bool_bytes) (bytes_or inputs.swizzles slot_bytes)
          (bytes_or inputs.samplers slot_bytes) (float_bytes registers inputs.source inputs.runs) in
    let b = length-bytes_or inputs.bools bool_bytes bools in
    let s = length-bytes_or inputs.swizzles slot_bytes swizzles in
    let t = length-bytes_or inputs.samplers slot_bytes samplers in (omega arith, omega arith)
