-- ===== src/Tests/Constants.antt =====
-- Concrete constant packets.
use bolts_rebuilt.Prelude.{
  ap, ℕ, ◌+◌, ◌*◌, ◌≡◌, ◌≤◌, ◌⊎◌, ◌&&◌, ◌||◌, not, refl, true, false, none, some, List, [], ◌∷◌,
  ◌++◌, arith, ◌==◌, if◌then◌else◌, length, replicate, same_words,
}
use bolts_rebuilt.Constants.{
  Inputs, Reuse, build, find, candidate_bytes, publish_candidate, constant_registers, header_bytes,
  capacity, runs_fit, float_bytes,
}
use bolts_rebuilt.Constants.Packet.{HasBytes, length-build}
use bolts_rebuilt.Constants.Published.{publish_candidate-find}

abbrev no_floats : Inputs
no_floats = record {
  bools = none;
  swizzles = some (replicate 80 1);
  samplers = some (replicate 80 2);
  source = none;
  runs = [];
  packed = 1;
  explicit_empty = false;
}

abbrev ready : Reuse
ready = record {
  active = 1 ∷ [];
  candidate = 2 ∷ 3 ∷ [];
  frame = 4;
  address = 4096;
  valid = true;
  candidate_valid = true;
}

abbrev packet : List ℕ
packet = replicate 32 0 ++ replicate 80 1 ++ replicate 80 2 ++ replicate 16 0

no_floats-HasBytes : HasBytes no_floats
no_floats-HasBytes = (
  (λ bytes h. cc),
  (λ bytes h. bytes_of (replicate 80 1) bytes h (omega arith)),
  (λ bytes h. bytes_of (replicate 80 2) bytes h (omega arith)),
  (λ bytes h. cc),
)
  where
    bytes_of :
        (given bytes : List ℕ) → some given ≡ some bytes → 80 ≤ length given → 80 ≤ length bytes
    bytes_of given bytes h enough =
        let same : given ≡ bytes = cc in let lengths = ap length same in omega arith

length-build_example :
    (length packet ≡ header_bytes + constant_registers 1 false * 16) × (length packet ≤ capacity)
unfolding build constant_registers runs_fit float_bytes
length-build_example = length-build no_floats packet no_floats-HasBytes refl

abbrev two_bytes : List ℕ
two_bytes = 2 ∷ 3 ∷ []

publish_candidate-find_example :
    (publish_candidate ready 5 8192 ≡ (false, ready))
      × ((8192 == 0 || not ready.candidate_valid) ≡ true)
    ⊎ ((8192 == 0 || not ready.candidate_valid) ≡ false)
      × ((publish_candidate ready 5 8192).0 ≡ true)
      × (find (publish_candidate ready 5 8192).1 5 two_bytes ≡ (
          if 5 == 5
            && length two_bytes == length (candidate_bytes ready)
            && same_words (candidate_bytes ready) two_bytes
          then 8192
          else 0))
      × (candidate_bytes (publish_candidate ready 5 8192).1 ≡ [])
publish_candidate-find_example = publish_candidate-find ready 5 8192 5 two_bytes
