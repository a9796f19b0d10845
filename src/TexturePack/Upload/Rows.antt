-- ===== src/TexturePack/Upload/Rows.antt =====
-- The rows of a texture in upload memory: each at a multiple of the pitch, with zeros behind it.
use bolts_rebuilt.Prelude.{
  ℕ, zero, suc, ◌+◌, ◌*◌, ◌/◌, ◌≤◌, ◌<◌, ◌≡◌, true, ◌&&◌, List, get_or, ltb, if◌then◌else◌, arith,
}
use bolts_rebuilt.Prelude.Strides.{copy_row-here}
use bolts_rebuilt.TexturePack.{Key, block_size, aligned256, max_upload_bytes, valid_key}
use bolts_rebuilt.TexturePack.Upload.{copy_rows, row_bytes_of, row_pitch_of}

pub copy_rows-at :
    (rows r c row_bytes row_pitch : ℕ) (blocks : List ℕ) (mapping : ℕ → ℕ)
    → c < row_pitch
    → row_bytes ≤ row_pitch
    → copy_rows rows row_bytes row_pitch blocks mapping (r * row_pitch + c) ≡ (
        if ltb r rows && ltb c row_bytes
        then get_or blocks (r * row_bytes + c) 0
        else mapping (r * row_pitch + c))
unfolding copy_rows
copy_rows-at zero r c row_bytes row_pitch blocks mapping h w = ground arith
copy_rows-at (suc n) r c row_bytes row_pitch blocks mapping h w = ground (
  arith,
  copy_row-here n r c row_bytes row_pitch h w,
  copy_rows-at n r c row_bytes row_pitch blocks mapping h w,
)

-- The sizes of a valid key do not wrap, and its upload fits a page of the pool.
pub record Fits (k : Key) (block_bytes : ℕ) : Type 0 where
  pub row_bytes : row_bytes_of k ≡ k.width / 4 * block_size k.format
  pub padded : row_bytes_of k ≤ row_pitch_of k
  pub upload : row_pitch_of k * (k.height / 4) ≤ max_upload_bytes
  pub blocks : k.height / 4 * row_bytes_of k ≡ block_bytes

module _ (k : Key) (block_bytes : ℕ) (valid : valid_key k block_bytes ≡ true) where
  small_row : k.width / 4 * block_size k.format ≤ 32768
  unfolding valid_key
  small_row = ground arith

  total_blocks : k.width / 4 * (k.height / 4) * block_size k.format ≡ block_bytes
  unfolding valid_key
  total_blocks = ground arith

  fitting_pitch : aligned256 (k.width / 4 * block_size k.format) * (k.height / 4) ≤ max_upload_bytes
  unfolding valid_key
  fitting_pitch = ground arith

  pub valid_key-Fits : Fits k block_bytes
  valid_key-Fits =
      let e : row_bytes_of k ≡ k.width / 4 * block_size k.format = omega (arith, small_row) in
      let p : row_pitch_of k ≡ aligned256 (k.width / 4 * block_size k.format) =
        omega (arith, small_row) in
      record {
        row_bytes = e;
        padded = omega (arith, small_row);
        upload = rw p fitting_pitch;
        blocks = rw e (grind (arith, total_blocks));
      }
