-- ===== src/Prelude/Strides.antt =====
-- Rows of memory at multiples of a pitch.
use bolts_rebuilt.Prelude.{ℕ, ◌+◌, ◌*◌, ◌≤◌, ◌<◌, ◌≡◌, ◌&&◌, leb, ltb, ◌==◌, arith, ap}

-- Whole pitches lie between two rows.
pub rows_apart : (n r pitch : ℕ) → n < r → n * pitch + pitch ≤ r * pitch
rows_apart n r pitch h = grind arith

pub copy_row-here :
    (n r c row_bytes row_pitch : ℕ)
    → c < row_pitch
    → row_bytes ≤ row_pitch
    → (leb (n * row_pitch) (r * row_pitch + c)
        && ltb (r * row_pitch + c) (n * row_pitch + row_bytes))
      ≡ (n == r && ltb c row_bytes)
copy_row-here n r c row_bytes row_pitch h w = ground (
  arith,
  rows_apart n r row_pitch,
  rows_apart r n row_pitch,
  ap (λ (k : ℕ). k * row_pitch) {x = n} {y = r},
)
