-- ===== src/Constants/Published.antt =====
-- The identity of the published packet, under publications, candidates and lookups.
use bolts_rebuilt.Prelude.{
  ℕ, ◌≡◌, ◌⊎◌, true, false, not, ◌&&◌, ◌||◌, List, [], ◌==◌, if◌then◌else◌, length, same_words,
  arith,
}
use bolts_rebuilt.Constants.{
  Reuse, Inputs, find, build_candidate, candidate_bytes, publish_candidate,
}

-- Building a candidate, accepted or refused, does not change what any lookup answers.
pub build_candidate-find :
    (reuse : Reuse) (inputs : Inputs) (frame : ℕ) (bytes : List ℕ)
    → find (build_candidate reuse inputs).1 frame bytes ≡ find reuse frame bytes
unfolding find build_candidate
build_candidate-find reuse inputs frame bytes = ground arith

-- With a zero address or no valid candidate, publishing is refused and changes nothing, the candidate
-- included. Otherwise it is accepted: in the published frame the bytes of the candidate are found at
-- the published address, nothing else is found, and no candidate is left.
pub publish_candidate-find :
    (reuse : Reuse) (frame address frame' : ℕ) (bytes : List ℕ)
    → (publish_candidate reuse frame address ≡ (false, reuse))
        × ((address == 0 || not reuse.candidate_valid) ≡ true)
      ⊎ ((address == 0 || not reuse.candidate_valid) ≡ false)
        × ((publish_candidate reuse frame address).0 ≡ true)
        × (find (publish_candidate reuse frame address).1 frame' bytes ≡ (
            if frame' == frame
              && length bytes == length (candidate_bytes reuse)
              && same_words (candidate_bytes reuse) bytes
            then address
            else 0))
        × (candidate_bytes (publish_candidate reuse frame address).1 ≡ [])
unfolding find publish_candidate candidate_bytes
publish_candidate-find reuse frame address frame' bytes = ground arith
