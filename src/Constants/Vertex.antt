-- ===== src/Constants/Vertex.antt =====
-- native_vertex_constant_reuse.h: two packets of the fixed capacity, the active and the candidate one.
use bolts_rebuilt.Prelude.{
  ◌⊎◌, ℕ, ◌+◌, ◌*◌, ◌≡◌, Bool, true, false, not, ◌&&◌, ◌||◌, List, ltb, leb, ◌==◌, if◌then◌else◌,
  take, same_words, arith,
}

abbrev pub vertex_capacity : ℕ
vertex_capacity = 688 + 256 * 16

pub record VertexReuse : Type 0 where
  pub active : List ℕ
  pub candidate : List ℕ
  pub frame : ℕ
  pub address : ℕ
  pub size : ℕ
  pub valid : Bool

-- The caller writes the whole candidate before a lookup.
pub write_candidate : VertexReuse → List ℕ → VertexReuse
write_candidate reuse bytes = record reuse { candidate = bytes }

pub find : VertexReuse → ℕ → ℕ → ℕ
find reuse frame size =
    if reuse.valid
      && not (size == 0)
      && leb size vertex_capacity
      && frame == reuse.frame
      && size == reuse.size
      && same_words (take size reuse.active) (take size reuse.candidate)
    then reuse.address
    else 0

pub publish : VertexReuse → ℕ → ℕ → ℕ → Bool × VertexReuse
publish reuse frame size address =
    if address == 0 || size == 0 || ltb vertex_capacity size then (false, reuse) else (
      true,
      record {
        active = reuse.candidate;
        candidate = reuse.active;
        frame = frame;
        address = address;
        size = size;
        valid = true;
      },
    )

pub reset : VertexReuse → VertexReuse
reset reuse = record reuse { valid = false }

-- After an accepted publication of a packet, a lookup of a newly written candidate answers the
-- published address exactly when frame and size are the published ones and the bytes up to the size
-- are those of the published packet, and 0 otherwise; a refused publication changes nothing.
pub publish-find :
    (reuse : VertexReuse) (frame size address frame' size' : ℕ) (bytes : List ℕ)
    → ((publish reuse frame size address).0 ≡ true)
        × ((find (write_candidate (publish reuse frame size address).1 bytes) frame' size') ≡ (
            if frame' == frame
              && size' == size
              && same_words (take size' reuse.candidate) (take size' bytes)
            then address
            else 0))
      ⊎ ((publish reuse frame size address) ≡ (false, reuse))
unfolding publish find write_candidate
publish-find reuse frame size address frame' size' bytes = ground arith
