-- ===== src/AssetCache/Pack/Layout.antt =====
-- The layout of an accepted asset pack: entries in order, apart, in bounds, with all bytes claimed.
use bolts_rebuilt.Prelude.{
  ℕ, zero, suc, ◌+◌, ◌-◌, ◌≤◌, ◌≡◌, refl, ap, ◌∙◌, Bool, true, false, not, ◌&&◌, List, [], ◌∷◌,
  ◌++◌, length, take, drop, replicate, same_words_iff, leb, ◌==◌, arith,
}
use mathlib.Core.List.{append_assoc, append-nil}
use mathlib.Core.Path.{subst}
use bolts_rebuilt.AssetCache.{Entry, u32, u64, contains, fingerprint, slice, record_size}
use bolts_rebuilt.AssetCache.Pack.{
  PackError, Result, accepted, thrown, ◌>>=◌, require, align4, read_row, read_rows, row_is_valid,
  padding_is_zero, sums_match, invalid_record, nonzero_padding, bytes_checksum,
}

-- Where an entry stands behind the end of the one before it.
pub record IsPlaced (bytes : List ℕ) (end : ℕ) (e : Entry) : Type 0 where
  pub some_byte : 1 ≤ e.length
  pub aligned : e.offset ≡ align4 end
  pub within : e.offset + e.length ≤ length bytes
  pub marked : fingerprint (slice bytes e.offset e.length) ≡ e.fingerprint
  pub padding : slice bytes end (e.offset - end) ≡ replicate (e.offset - end) 0

-- The entries stand one behind the other, and the last one ends at `last`.
abbrev pub AreLaid : List ℕ → ℕ → List Entry → ℕ → Type 0
AreLaid bytes end [] last = end ≡ last
AreLaid bytes end (e ∷ entries) last =
    IsPlaced bytes end e × AreLaid bytes (e.offset + e.length) entries last

require-eq : (b : Bool) (e : PackError) → require b e ≡ accepted tt → b ≡ true
require-eq true e h = refl
require-eq false e h = cc

pub >>=-eq :
    {A B : Type 0} (m : Result A) (f : A → Result B) {b : B}
    → (m >>= f) ≡ accepted b
    → (a : A) × (m ≡ accepted a) × (f a ≡ accepted b)
>>=-eq (accepted a) f h = (a, refl, h)
>>=-eq (thrown e) f h = cc

pub >>=-require :
    {B : Type 0} (t : Bool) (e : PackError) (f : Unit {0} → Result B) {b : B}
    → (require t e >>= f) ≡ accepted b
    → (t ≡ true) × (f tt ≡ accepted b)
>>=-require true e f h = (refl, h)
>>=-require false e f h = cc

row_facts :
    (offset size kinds reserved end total : ℕ)
    → (not (size == 0)
        && not (kinds == 0)
        && leb kinds 3
        && reserved == 0
        && offset == align4 end
        && contains total offset size)
      ≡ true
    → (1 ≤ size) × (offset ≡ align4 end) × (offset + size ≤ total)
row_facts offset size kinds reserved end total h = ground arith

row_bounds :
    (bytes row : List ℕ) (end : ℕ)
    → row_is_valid bytes row end ≡ true
    → (1 ≤ u32 (drop 8 row)) × (u64 row ≡ align4 end) × (u64 row + u32 (drop 8 row) ≤ length bytes)
unfolding row_is_valid
row_bounds bytes row end h =
    row_facts (u64 row) (u32 (drop 8 row)) (u32 (drop 12 row)) (u64 (drop 56 row)) end
      (length bytes) h

module _ (sha256 : List ℕ → List ℕ) where
  sums_match-eq :
      (bytes row : List ℕ)
      → sums_match sha256 bytes row ≡ true
      → fingerprint (slice bytes (u64 row) (u32 (drop 8 row))) ≡ u64 (drop 16 row)
  unfolding sums_match
  sums_match-eq bytes row h = ground arith

  padding_is_zero-eq :
      (bytes row : List ℕ) (end : ℕ)
      → padding_is_zero bytes row end ≡ true
      → slice bytes end (u64 row - end) ≡ replicate (u64 row - end) 0
  unfolding padding_is_zero
  padding_is_zero-eq bytes row end h = (same_words_iff _ _).0 h

  read_row-IsPlaced :
      (bytes row : List ℕ) (end : ℕ) (e : Entry)
      → read_row sha256 bytes row end ≡ accepted e
      → IsPlaced bytes end e
  unfolding read_row
  read_row-IsPlaced bytes row end e h =
      let (valid, h1) = >>=-require (row_is_valid bytes row end) invalid_record _ h in
      let (zeros, h2) = >>=-require (padding_is_zero bytes row end) nonzero_padding _ h1 in
      let (sums, h3) = >>=-require (sums_match sha256 bytes row) bytes_checksum _ h2 in
      let (some_byte, aligned, within) = row_bounds bytes row end valid in
      let read : Entry = record {
        offset = u64 row;
        length = u32 (drop 8 row);
        fingerprint = u64 (drop 16 row);
      } in
      let placed : IsPlaced bytes end read = record {
        some_byte = some_byte;
        aligned = aligned;
        within = within;
        marked = sums_match-eq bytes row sums;
        padding = padding_is_zero-eq bytes row end zeros;
      } in
      let same : read ≡ e = ground arith in subst (IsPlaced bytes end) same placed

  -- The entries that the loop adds.
  abbrev pub Laid : ℕ → List ℕ → ℕ → List Entry → ℕ × List Entry → Type 0
  Laid count bytes end before (last, entries) =
      (new : List Entry) × (entries ≡ before ++ new)
      × (length new ≡ count)
      × AreLaid bytes end new last

  pub read_rows-Laid :
      (count : ℕ) (bytes table : List ℕ) (end : ℕ) (before : List Entry) (r : ℕ × List Entry)
      → read_rows sha256 count bytes table end before ≡ accepted r
      → Laid count bytes end before r
  unfolding read_rows
  read_rows-Laid zero bytes table end before (last, entries) h =
      ([], cc (append-nil before), refl, cc)
  read_rows-Laid (suc count) bytes table end before (last, entries) h =
      let (e, read, h') = >>=-eq (read_row sha256 bytes (take record_size table) end) _ h in
      let (new, joined, counted, laid) =
        read_rows-Laid count bytes (drop record_size table) (e.offset + e.length) (before ++ e ∷ [])
          (last, entries) h' in
      (
        e ∷ new,
        joined ∙ append_assoc before (e ∷ []) new,
        ap suc counted,
        (read_row-IsPlaced bytes (take record_size table) end e read, laid),
      )
