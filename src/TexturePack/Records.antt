-- ===== src/TexturePack/Records.antt =====
-- The records of a texture pack: what the loader accepts is the printed form of its entries.
use bolts_rebuilt.Prelude.{
  ℕ, zero, suc, ◌+◌, ◌/◌, ◌%◌, ◌^◌, ◌<◌, ◌≤◌, ◌≡◌, refl, sym, ap, ◌∙◌, true, Option, none, some,
  List, [], ◌∷◌, ◌++◌, length, take, drop, same_words, same_words_iff, arith, All, take-append-drop,
  length-take, length-drop, Bool-cases, inl, inr, Option-cases,
}
use mathlib.Core.Path.{subst}
use mathlib.Core.List.{append_assoc, append-nil}
use bolts_rebuilt.TexturePack.{
  Key, Entry, Entries, read32, read_key, valid_key, read_record, load_records, load, conflicts,
  bucket_of, crc32, finished,
}

-- A 32-bit word as its four bytes, the low one first.
abbrev pub le32 : ℕ → List ℕ
le32 n = (n % 256) ∷ (n / 2 ^ 8 % 256) ∷ (n / 2 ^ 16 % 256) ∷ (n / 2 ^ 24 % 256) ∷ []

abbrev pub print_key : Key → (block_bytes : ℕ) → List ℕ → List ℕ
print_key k block_bytes rest =
    le32 k.width
    ++ (le32 k.height
        ++ (le32 k.format
            ++ (le32 k.endian
                ++ (le32 k.tiled
                    ++ (le32 k.pitch ++ (le32 k.guest_bytes ++ (le32 block_bytes ++ rest)))))))

-- The records of the entries, and the bytes behind them.
abbrev pub print : Entries → List ℕ → List ℕ
print [] rest = rest
print ((k, e) ∷ entries) rest =
    print_key k (length e.blocks) (e.guest ++ (e.blocks ++ print entries rest))

-- NBTEX001
abbrev magic_bytes : List ℕ
magic_bytes = 78 ∷ 66 ∷ 84 ∷ 69 ∷ 88 ∷ 48 ∷ 48 ∷ 49 ∷ []

abbrev pub packed : (count crc : ℕ) → List ℕ → List ℕ
packed count crc body = magic_bytes ++ (le32 count ++ (le32 crc ++ body))

-- The file of the entries.
abbrev pub print_pack : Entries → List ℕ
print_pack entries = packed (length entries) (crc32 (print entries [])) (print entries [])

abbrev pub AreBytes : List ℕ → Type 0
AreBytes = All (λ b. b < 256)

le32-read32 :
    (a b c d : ℕ) (rest : List ℕ)
    → AreBytes (a ∷ b ∷ c ∷ d ∷ [])
    → le32 (read32 (a ∷ b ∷ c ∷ d ∷ rest)) ≡ a ∷ b ∷ c ∷ d ∷ []
le32-read32 a b c d rest h = ground arith

-- Four bytes at the head of the input are the printed form of the word read from them.
print-read32 : (p : List ℕ) → AreBytes p → 4 ≤ length p → le32 (read32 p) ++ drop 4 p ≡ p
print-read32 [] h l = absurd (omega arith)
print-read32 (a ∷ []) h l = absurd (omega arith)
print-read32 (a ∷ b ∷ []) h l = absurd (omega arith)
print-read32 (a ∷ b ∷ c ∷ []) h l = absurd (omega arith)
print-read32 (a ∷ b ∷ c ∷ d ∷ rest) h l =
    ap (λ (w : List ℕ). w ++ rest)
      (le32-read32 a b c d rest (h.0, (h.1.0, (h.1.1.0, (h.1.1.1.0, tt)))))

AreBytes-drop : (n : ℕ) (p : List ℕ) → AreBytes p → AreBytes (drop n p)
AreBytes-drop zero p h = h
AreBytes-drop (suc n) [] h = h
AreBytes-drop (suc n) (b ∷ p) h = AreBytes-drop n p h.1

drop-drop : (n m : ℕ) (p : List ℕ) → drop n (drop m p) ≡ drop (m + n) p
drop-drop n zero p = let e : n ≡ 0 + n = omega arith in ap (λ (k : ℕ). drop k p) e
drop-drop zero (suc m) [] =
    let e : suc m ≡ suc m + 0 = omega arith in ap (λ (k : ℕ). drop {A = ℕ} k []) e
drop-drop (suc n) (suc m) [] =
    let e : suc (m + suc n) ≡ suc m + suc n = omega arith in ap (λ (k : ℕ). drop {A = ℕ} k []) e
drop-drop n (suc m) (b ∷ p) =
    let e : suc (m + n) ≡ suc m + n = omega arith in
    drop-drop n m p ∙ ap (λ (k : ℕ). drop k (b ∷ p)) e

-- The next word of the input, at a multiple of four bytes.
print-read32_at :
    (n : ℕ) (p : List ℕ)
    → AreBytes p
    → n + 4 ≤ length p
    → le32 (read32 (drop n p)) ++ drop (n + 4) p ≡ drop n p
print-read32_at n p h l =
    ap (λ (q : List ℕ). le32 (read32 (drop n p)) ++ q) (sym (drop-drop 4 n p))
    ∙ print-read32 (drop n p) (AreBytes-drop n p h) (omega (arith, length-drop n p))

print_key-read_key :
    (p : List ℕ)
    → AreBytes p
    → 32 ≤ length p
    → print_key (read_key p) (read32 (drop 28 p)) (drop 32 p) ≡ p
print_key-read_key p h l =
    rw
      (
        print-read32_at 28 p h (omega arith),
        print-read32_at 24 p h (omega arith),
        print-read32_at 20 p h (omega arith),
        print-read32_at 16 p h (omega arith),
        print-read32_at 12 p h (omega arith),
        print-read32_at 8 p h (omega arith),
        print-read32_at 4 p h (omega arith),
      )
      (print-read32_at 0 p h (omega arith))

-- A record that the loader takes from the pack.
pub record IsRecord (hash : List ℕ → ℕ) (k : Key) (e : Entry) : Type 0 where
  pub valid : valid_key k (length e.blocks) ≡ true
  pub whole : length e.guest ≡ k.guest_bytes
  pub hashed : e.guest_hash ≡ hash e.guest

read32-print : (n : ℕ) (rest : List ℕ) → n < 2 ^ 32 → read32 (le32 n ++ rest) ≡ n
read32-print n rest h = omega arith

module _ (hash : List ℕ → ℕ) where
  read_record-parts :
      (p : List ℕ) (k : Key) (e : Entry) (rest : List ℕ)
      → read_record hash p ≡ some (k, e, rest)
      → (32 ≤ length p)
        × (valid_key k (read32 (drop 28 p)) ≡ true)
        × (k.guest_bytes + read32 (drop 28 p) ≤ length (drop 32 p))
        × (k ≡ read_key p)
        × (e.guest ≡ take k.guest_bytes (drop 32 p))
        × (e.blocks ≡ take (read32 (drop 28 p)) (drop k.guest_bytes (drop 32 p)))
        × (e.guest_hash ≡ hash e.guest)
        × (rest ≡ drop (read32 (drop 28 p)) (drop k.guest_bytes (drop 32 p)))
  unfolding read_record
  read_record-parts p k e rest h = ground arith

  print-read_record :
      (p : List ℕ) (k : Key) (e : Entry) (rest : List ℕ)
      → AreBytes p
      → read_record hash p ≡ some (k, e, rest)
      → (print ((k, e) ∷ []) rest ≡ p) × IsRecord hash k e × AreBytes rest
  print-read_record p k e rest bytes h =
      let (long, valid, fits, key, guest, blocks, hashed, left) = read_record-parts p k e rest h in
      let b = read32 (drop 28 p) in
      let body = drop 32 p in
      let after = drop k.guest_bytes body in
      let same : length e.blocks ≡ b =
        ap (λ (l : List ℕ). length l) blocks
        ∙ omega (arith, length-take b after, length-drop k.guest_bytes body) in
      let whole : length e.guest ≡ k.guest_bytes =
        ap (λ (l : List ℕ). length l) guest ∙ omega (arith, length-take k.guest_bytes body) in
      let tail : e.guest ++ (e.blocks ++ rest) ≡ body =
        rw (guest, blocks, left, take-append-drop b after) (take-append-drop k.guest_bytes body) in
      (
        ap (λ (q : List ℕ). print_key k (length e.blocks) q) tail
            ∙ (ap (λ (n : ℕ). print_key k n body) same
                ∙ (ap (λ (key : Key). print_key key b body) key ∙ print_key-read_key p bytes long)),
        record { valid = rw same valid; whole = whole; hashed = hashed },
        rw left
            (AreBytes-drop b after (AreBytes-drop k.guest_bytes body (AreBytes-drop 32 p bytes))),
      )

  abbrev pub AreRecords : Entries → Type 0
  AreRecords = All (λ r. IsRecord hash (r.0) (r.1))

  -- The entries that the loop adds.
  abbrev Loaded : ℕ → List ℕ → Entries → Entries → List ℕ → Type 0
  Loaded count p before entries rest =
      (new : Entries) × (entries ≡ before ++ new)
      × (length new ≡ count)
      × (print new rest ≡ p)
      × AreRecords new

  load_records-Loaded :
      (count : ℕ) (p : List ℕ) (before entries : Entries) (rest : List ℕ)
      → AreBytes p
      → load_records hash count p before ≡ some (entries, rest)
      → Loaded count p before entries rest
  unfolding load_records
  load_records-Loaded zero p before entries rest bytes h =
      ([], cc (append-nil before), refl, ground arith, tt)
  load_records-Loaded (suc count) p before entries rest bytes h =
      elim (Option-cases (read_record hash p)) [
        | inl refused ↦ absurd (ground arith)
        | inr ((k, e, rest'), r) ↦ elim (Bool-cases (conflicts (bucket_of k before) e)) [
          | inl clash ↦ absurd (ground arith)
          | inr fresh ↦
              let (printed, is_record, bytes') = print-read_record p k e rest' bytes r in
              let next : load_records hash count rest' (before ++ (k, e) ∷ [])
                  ≡ some (entries, rest) =
                ground arith in
              let (new, joined, counted, prints, records) =
                load_records-Loaded count rest' (before ++ (k, e) ∷ []) entries rest bytes' next in
              let whole : print ((k, e) ∷ new) rest ≡ p =
                ap (λ (q : List ℕ). print_key k (length e.blocks) (e.guest ++ (e.blocks ++ q)))
                  prints
                ∙ printed in
              (
                (k, e) ∷ new,
                joined ∙ append_assoc before ((k, e) ∷ []) new,
                ap suc counted,
                whole,
                (is_record, records),
              )
        ]
      ]

  load-parts :
      (bytes : List ℕ) (entries : Entries)
      → load hash bytes ≡ some entries
      → (16 ≤ length bytes)
        × (same_words (take 8 bytes) (78 ∷ 66 ∷ 84 ∷ 69 ∷ 88 ∷ 48 ∷ 48 ∷ 49 ∷ []) ≡ true)
        × (1 ≤ read32 (drop 8 bytes))
        × (read32 (drop 8 bytes) ≤ 4096)
        × (crc32 (drop 16 bytes) ≡ read32 (drop 12 bytes))
        × (finished (load_records hash (read32 (drop 8 bytes)) (drop 16 bytes) []) ≡ some entries)
  unfolding load
  load-parts bytes entries h = ground arith

  finished-eq :
      (o : Option (Entries × List ℕ)) (entries : Entries)
      → finished o ≡ some entries
      → o ≡ some (entries, [])
  finished-eq none entries h = cc
  finished-eq (some (e, [])) entries h = cc
  finished-eq (some (e, _ ∷ _)) entries h = cc

  -- A file that the loader accepts is, byte for byte, the printed form of its entries: header, count,
  -- checksum and records, nothing behind them. There are 1 to 4096 entries, each with a valid key, as
  -- many guest bytes as its key says, and their hash.
  pub load-print_pack :
      (bytes : List ℕ) (entries : Entries)
      → AreBytes bytes
      → load hash bytes ≡ some entries
      → (print_pack entries ≡ bytes)
        × (1 ≤ length entries)
        × (length entries ≤ 4096)
        × AreRecords entries
  load-print_pack bytes entries are_bytes h =
      let (long, magic, some_entry, few, crc, all) = load-parts bytes entries h in
      let (new, joined, counted, prints, records) =
        load_records-Loaded (read32 (drop 8 bytes)) (drop 16 bytes) [] entries []
          (AreBytes-drop 16 bytes are_bytes) (finished-eq _ entries all) in
      let count : length entries ≡ read32 (drop 8 bytes) =
        ap (λ (es : Entries). length es) joined ∙ counted in
      let body : print entries [] ≡ drop 16 bytes =
        ap (λ (es : Entries). print es []) joined ∙ prints in
      let magic' = (same_words_iff _ _).0 magic in
      let four = print-read32_at 8 bytes are_bytes (omega arith) in
      let next = print-read32_at 12 bytes are_bytes (omega arith) in
      let n = read32 (drop 8 bytes) in
      let rest = drop 16 bytes in
      let whole : print_pack entries ≡ bytes =
        ap (λ (m : ℕ). packed m (crc32 (print entries [])) (print entries [])) count
        ∙ (ap (λ (b : List ℕ). packed n (crc32 b) b) body
            ∙ (ap (λ (c : ℕ). packed n c rest) crc
                ∙ (ap (λ (q : List ℕ). magic_bytes ++ (le32 n ++ q)) next
                    ∙ (ap (λ (q : List ℕ). magic_bytes ++ q) four
                        ∙ (ap (λ (m : List ℕ). m ++ drop 8 bytes) (sym magic')
                            ∙ take-append-drop 8 bytes))))) in
      (whole, rw count some_entry, rw count few, subst AreRecords (sym joined) records)
