-- ===== src/TexturePack/Accept.antt =====
-- The loader accepts every printed texture pack: the other half of the round trip.
use Prim.Native.Nat.{digits, differ, bit_xor-bitwise}
use bolts_rebuilt.Prelude.{
  ℕ, zero, suc, ◌+◌, ◌*◌, ◌/◌, ◌%◌, ◌^◌, ◌<◌, ◌≤◌, ◌≡◌, refl, ap, ◌∙◌, true, false, some, List, [],
  ◌∷◌, ◌++◌, length, take, drop, same_words, ◌==◌, if◌then◌else◌, arith, All, length-append,
  bit_xor,
}
use native.Mathlib.Nat.{le_refl, pow-suc, mul-le-mul_left, mul_comm}
use mathlib.Core.List.{append_assoc, append-nil}
use bolts_rebuilt.TexturePack.{
  Key, Entry, Entries, read32, read_key, valid_key, read_record, load_records, load, conflicts,
  bucket_of, crc32, crc_bits, crc_bytes, max_pack_bytes, finished,
}
use bolts_rebuilt.TexturePack.Upload.{row_bytes_of, row_pitch_of}
use bolts_rebuilt.TexturePack.Upload.Rows.{valid_key-Fits}
use bolts_rebuilt.TexturePack.Records.{packed, print_key, print, print_pack, IsRecord, AreRecords}

differ-lt : (x y : ℕ) → x < 2 → y < 2 → differ x y < 2
differ-lt zero y hx hy = hy
differ-lt (suc zero) zero hx hy = hx
differ-lt (suc zero) (suc y) hx hy = omega arith
differ-lt (suc (suc x)) y hx hy = absurd (omega arith)

xor_digits-lt : (w n a b : ℕ) → a ≤ n → a < 2 ^ w → b < 2 ^ w → digits (λ y. y) differ n a b < 2 ^ w
xor_digits-lt w zero a b h p q = q
xor_digits-lt w (suc n) zero b h p q = q
xor_digits-lt zero (suc n) (suc a) b h p q = absurd (omega arith)
xor_digits-lt (suc w) (suc n) (suc a) b h p q =
    let half =
      xor_digits-lt w n (suc a / 2) (b / 2) (omega arith) (omega (arith, pow-suc 2 w))
        (omega (arith, pow-suc 2 w)) in
    ground (arith, pow-suc 2 w, differ-lt (suc a % 2) (b % 2))

bit_xor-lt : (w a b : ℕ) → a < 2 ^ w → b < 2 ^ w → bit_xor a b < 2 ^ w
bit_xor-lt w a b p q = rw (bit_xor-bitwise a b) (xor_digits-lt w a a b (le_refl a) p q)

crc_bits-lt : (n value : ℕ) → value < 2 ^ 32 → crc_bits n value < 2 ^ 32
unfolding crc_bits
crc_bits-lt zero value h = h
crc_bits-lt (suc n) value h = crc_bits-lt n _ (
    bit_xor-lt 32 (value / 2) (if value % 2 == 1 then 0xEDB88320 else 0) (omega arith)
      (ground arith))

crc_bytes-lt :
    (bytes : List ℕ) (value : ℕ)
    → All (λ b. b < 256) bytes
    → value < 2 ^ 32
    → crc_bytes bytes value < 2 ^ 32
unfolding crc_bytes
crc_bytes-lt [] value bytes h = h
crc_bytes-lt (b ∷ bytes) value (hb, hs) h =
    crc_bytes-lt bytes _ hs (crc_bits-lt 8 _ (bit_xor-lt 32 value b h (omega arith)))

crc32-lt : (bytes : List ℕ) → All (λ b. b < 256) bytes → crc32 bytes < 2 ^ 32
unfolding crc32
crc32-lt bytes h =
    bit_xor-lt 32 (crc_bytes bytes 0xFFFFFFFF) 0xFFFFFFFF (crc_bytes-lt bytes _ h (omega arith))
      (omega arith)

take_length-append : (xs ys : List ℕ) → take (length xs) (xs ++ ys) ≡ xs
take_length-append [] ys = refl
take_length-append (x ∷ xs) ys = ap (λ (l : List ℕ). x ∷ l) (take_length-append xs ys)

drop_length-append : (xs ys : List ℕ) → drop (length xs) (xs ++ ys) ≡ ys
drop_length-append [] ys = refl
drop_length-append (x ∷ xs) ys = drop_length-append xs ys

word_value :
    (n : ℕ)
    → n < 2 ^ 32
    → n % 256 + n / 2 ^ 8 % 256 * 2 ^ 8 + n / 2 ^ 16 % 256 * 2 ^ 16 + n / 2 ^ 24 % 256 * 2 ^ 24 ≡ n
word_value n h = omega arith

module _ (k : Key) (block_bytes : ℕ) (valid : valid_key k block_bytes ≡ true) where
  small_words :
      (k.width < 2 ^ 32)
      × (k.height < 2 ^ 32)
      × (k.format < 2 ^ 32)
      × (k.endian < 2 ^ 32)
      × (k.tiled < 2 ^ 32)
      × (k.pitch < 2 ^ 32)
      × (k.guest_bytes < 2 ^ 32)
  unfolding valid_key
  small_words = ground arith

  small_blocks : block_bytes < 2 ^ 32
  small_blocks =
      let fits = valid_key-Fits k block_bytes valid in
      let rows : k.height / 4 * row_bytes_of k ≤ k.height / 4 * row_pitch_of k =
        mul-le-mul_left (k.height / 4) fits.padded in
      omega (arith, fits.blocks, fits.upload, mul_comm (k.height / 4) (row_pitch_of k))

  read_key-print_key : (rest : List ℕ) → read_key (print_key k block_bytes rest) ≡ k
  read_key-print_key rest =
      let small = small_words in
      ground (
        arith,
        word_value k.width,
        word_value k.height,
        word_value k.format,
        word_value k.endian,
        word_value k.tiled,
        word_value k.pitch,
        word_value k.guest_bytes,
      )

module _ (hash : List ℕ → ℕ) where
  read_record-from :
      (p : List ℕ) (k : Key) (b : ℕ)
      → 32 ≤ length p
      → read_key p ≡ k
      → read32 (drop 28 p) ≡ b
      → valid_key k b ≡ true
      → k.guest_bytes + b ≤ length (drop 32 p)
      → read_record hash p
        ≡ some (
          k,
          record {
            guest = take k.guest_bytes (drop 32 p);
            blocks = take b (drop k.guest_bytes (drop 32 p));
            guest_hash = hash (take k.guest_bytes (drop 32 p));
          },
          drop b (drop k.guest_bytes (drop 32 p)),
        )
  unfolding read_record
  read_record-from p k b long key block valid fits = ground arith

  read_record-print :
      (k : Key) (e : Entry) (rest : List ℕ)
      → IsRecord hash k e
      → read_record hash (print_key k (length e.blocks) (e.guest ++ (e.blocks ++ rest)))
        ≡ some (k, e, rest)
  read_record-print k e rest r =
      let tail = e.guest ++ (e.blocks ++ rest) in
      let key = read_key-print_key k (length e.blocks) r.valid tail in
      let b = word_value (length e.blocks) (small_blocks k (length e.blocks) r.valid) in
      let guest : take k.guest_bytes tail ≡ e.guest =
        rw (← r.whole) (take_length-append e.guest (e.blocks ++ rest)) in
      let after : drop k.guest_bytes tail ≡ e.blocks ++ rest =
        rw (← r.whole) (drop_length-append e.guest (e.blocks ++ rest)) in
      let fits : k.guest_bytes + length e.blocks ≤ length tail =
        omega
          (arith, length-append e.guest (e.blocks ++ rest), length-append e.blocks rest, r.whole) in
      let step =
        read_record-from (print_key k (length e.blocks) tail) k (length e.blocks) (omega arith) key
          b r.valid fits in
      step
      ∙ ground (
        arith,
        guest,
        after,
        take_length-append e.blocks rest,
        drop_length-append e.blocks rest,
        r.hashed,
      )

  -- No entry has the layout and the guest bytes of an earlier one, but other blocks.
  abbrev pub AreFresh : (before entries : Entries) → Type 0
  AreFresh before [] = Unit {0}
  AreFresh before ((k, e) ∷ entries) =
      (conflicts (bucket_of k before) e ≡ false) × AreFresh (before ++ (k, e) ∷ []) entries

  load_records-step :
      (n : ℕ) (p : List ℕ) (before : Entries) (k : Key) (e : Entry) (rest : List ℕ)
      → read_record hash p ≡ some (k, e, rest)
      → conflicts (bucket_of k before) e ≡ false
      → load_records hash (suc n) p before ≡ load_records hash n rest (before ++ (k, e) ∷ [])
  unfolding load_records
  load_records-step n p before k e rest r f = ground arith

  load_records-print :
      (before entries : Entries) (rest : List ℕ)
      → AreRecords hash entries
      → AreFresh before entries
      → load_records hash (length entries) (print entries rest) before
        ≡ some (before ++ entries, rest)
  unfolding load_records
  load_records-print before [] rest r f = rw (append-nil before)
  load_records-print before ((k, e) ∷ entries) rest (r, rs) (f, fs) =
      load_records-step (length entries) _ before k e (print entries rest)
        (read_record-print k e (print entries rest) r) f
      ∙ (load_records-print (before ++ (k, e) ∷ []) entries rest rs fs
          ∙ ap (λ (es : Entries). some (es, rest)) (append_assoc before ((k, e) ∷ []) entries))

  load-from :
      (count crc : ℕ) (body : List ℕ)
      → 1 ≤ count
      → count ≤ 4096
      → length body + 16 ≤ max_pack_bytes
      → crc ≡ crc32 body
      → crc < 2 ^ 32
      → load hash (packed count crc body) ≡ finished (load_records hash count body [])
  unfolding load same_words
  load-from count crc body some_entry few small same word =
      ground (arith, word_value count, word_value crc)

  -- The loader accepts the printed form of 1 to 4096 entries of at most 128 MiB, and gives these
  -- entries back, if each is a valid record of bytes with its hash, and none has the layout and the
  -- guest bytes of an earlier one but other blocks.
  pub print_pack-load :
      (entries : Entries)
      → AreRecords hash entries
      → AreFresh [] entries
      → All (λ b. b < 256) (print entries [])
      → 1 ≤ length entries
      → length entries ≤ 4096
      → length (print entries []) + 16 ≤ max_pack_bytes
      → load hash (print_pack entries) ≡ some entries
  print_pack-load entries r f bytes some_entry few small =
      load-from (length entries) (crc32 (print entries [])) (print entries []) some_entry few small
        refl (crc32-lt (print entries []) bytes)
      ∙ ap finished (load_records-print [] entries [] r f)
