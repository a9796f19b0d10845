-- ===== src/AssetCache/Pack/Claims.antt =====
-- What an accepted asset pack promises to the lookups: its entries are apart and in bounds, and no
-- byte but zeros is outside them.
use bolts_rebuilt.Prelude.{
  ℕ, zero, suc, ◌+◌, ◌-◌, ◌*◌, ◌/◌, ◌%◌, ◌<◌, ◌≤◌, ◌≡◌, ◌≢◌, refl, sym, ap, ◌∙◌, true, not, ◌&&◌,
  List, [], ◌∷◌, length, take, drop, get_or, get_elem?, same_words, leb, ltb, ◌==◌, arith, some,
  length-take, length-drop, get_or-replicate, Bool-cases, inl, inr, ◌⊎◌, ltb→lt, ==_iff,
}
use mathlib.Core.Path.{subst}
use bolts_rebuilt.AssetCache.{
  Entry, u64, contains, fingerprint, slice, max_entries, header_size, record_size, physical_bytes,
}
use bolts_rebuilt.AssetCache.Pack.{
  accepted, Pack, read_rows, parse, bounds_are_valid, count_of, data_offset_of, data_size_of,
  size_is_bounded, format_is_known, size_outside, unsupported_format, invalid_bounds,
  table_checksum, unclaimed_bytes,
}
use bolts_rebuilt.AssetCache.Pack.Layout.{IsPlaced, AreLaid, >>=-eq, >>=-require, read_rows-Laid}

get_or-drop : (a i : ℕ) (xs : List ℕ) → get_or (drop a xs) i 0 ≡ get_or xs (a + i) 0
get_or-drop zero i xs = let e : i ≡ 0 + i = omega arith in ap (λ (k : ℕ). get_or xs k 0) e
get_or-drop (suc a) i [] =
    let e : suc (a + i) ≡ suc a + i = omega arith in ap (λ (k : ℕ). get_or {A = ℕ} [] k 0) e
get_or-drop (suc a) i (x ∷ xs) =
    let e : suc (a + i) ≡ suc a + i = omega arith in
    get_or-drop a i xs ∙ ap (λ (k : ℕ). get_or (x ∷ xs) k 0) e

get_or-take : (n i : ℕ) (xs : List ℕ) → i < n → get_or (take n xs) i 0 ≡ get_or xs i 0
get_or-take zero i xs h = absurd (omega arith)
get_or-take (suc n) i [] h = refl
get_or-take (suc n) zero (x ∷ xs) h = refl
get_or-take (suc n) (suc i) (x ∷ xs) h = get_or-take n i xs (omega arith)

get_or-slice : (xs : List ℕ) (a n i : ℕ) → i < n → get_or (slice xs a n) i 0 ≡ get_or xs (a + i) 0
get_or-slice xs a n i h = get_or-take n i (drop a xs) h ∙ get_or-drop a i xs

-- A byte of the padding is zero.
padding_zero :
    (bytes : List ℕ) (end : ℕ) (e : Entry) (n : ℕ)
    → IsPlaced bytes end e
    → end ≤ n
    → n < e.offset
    → get_or bytes n 0 ≡ 0
padding_zero bytes end e n p low high =
    let at : end + (n - end) ≡ n = omega arith in
    ap (λ (k : ℕ). get_or bytes k 0) (sym at)
    ∙ (sym (get_or-slice bytes end (e.offset - end) (n - end) (omega arith))
        ∙ (ap (λ (l : List ℕ). get_or l (n - end) 0) p.padding
            ∙ get_or-replicate (e.offset - end) (n - end) 0))

-- Each byte that is not zero belongs to an entry.
claimed :
    (bytes : List ℕ) (end : ℕ) (entries : List Entry) (last n : ℕ)
    → AreLaid bytes end entries last
    → end ≤ n
    → n < last
    → get_or bytes n 0 ≢ 0
    → (i : ℕ) × (e : Entry) × (get_elem? entries i ≡ some e)
      × (e.offset ≤ n)
      × (n < e.offset + e.length)
claimed bytes end [] last n laid low high nonzero = absurd (omega arith)
claimed bytes end (e ∷ entries) last n (p, laid) low high nonzero =
    elim (Bool-cases (ltb n e.offset)) [
      | inl before ↦ absurd (nonzero (padding_zero bytes end e n p low (ground arith)))
      | inr behind ↦ elim (Bool-cases (ltb n (e.offset + e.length))) [
        | inl inside ↦ (0, e, refl, ground arith, ground arith)
        | inr after ↦
            let (i, f, at, from, to) =
              claimed bytes (e.offset + e.length) entries last n laid (ground arith) high nonzero in
            (suc i, f, at, from, to)
      ]
    ]

-- An entry that a lookup may read.
pub record IsEntry (bytes : List ℕ) (e : Entry) : Type 0 where
  pub some_byte : 1 ≤ e.length
  pub aligned : e.offset % 4 ≡ 0
  pub within : e.offset + e.length ≤ length bytes
  pub marked : fingerprint (slice bytes e.offset e.length) ≡ e.fingerprint

-- An entry stands behind the end that its list starts from.
behind_end :
    (bytes : List ℕ) (end : ℕ) (entries : List Entry) (last i : ℕ) (e : Entry)
    → AreLaid bytes end entries last
    → get_elem? entries i ≡ some e
    → (end ≤ e.offset) × IsEntry bytes e
behind_end bytes end [] last i e laid h = cc
behind_end bytes end (x ∷ entries) last zero e (p, laid) h =
    let same : x ≡ e = ground arith in
    subst (λ (e : Entry). (end ≤ e.offset) × IsEntry bytes e) same
      (
        omega (arith, p.aligned),
        record {
          some_byte = p.some_byte;
          aligned = omega (arith, p.aligned);
          within = p.within;
          marked = p.marked;
        },
      )
behind_end bytes end (x ∷ entries) last (suc i) e (p, laid) h =
    let (from, entry) = behind_end bytes (x.offset + x.length) entries last i e laid h in
    (omega (arith, p.aligned), entry)

apart :
    (bytes : List ℕ) (end : ℕ) (entries : List Entry) (last i j : ℕ) (a b : Entry)
    → AreLaid bytes end entries last
    → get_elem? entries i ≡ some a
    → get_elem? entries j ≡ some b
    → i < j
    → a.offset + a.length ≤ b.offset
apart bytes end [] last i j a b laid p q h = cc
apart bytes end (x ∷ entries) last i zero a b laid p q h = absurd (omega arith)
apart bytes end (x ∷ entries) last zero (suc j) a b (pl, laid) p q h =
    let same : x ≡ a = ground arith in
    subst (λ (a : Entry). a.offset + a.length ≤ b.offset) same
      (behind_end bytes (x.offset + x.length) entries last j b laid q).0
apart bytes end (x ∷ entries) last (suc i) (suc j) a b (pl, laid) p q h =
    apart bytes (x.offset + x.length) entries last i j a b laid p q (omega arith)

-- What the checks of the header give.
bounds_facts :
    (count table_offset offset size total : ℕ)
    → (not (count == 0)
        && leb count max_entries
        && table_offset == header_size
        && contains total table_offset (count * record_size)
        && offset % 256 == 0
        && offset == (table_offset + count * record_size + 255) / 256 * 256
        && not (size == 0)
        && leb size physical_bytes
        && contains total offset size
        && offset + size == total)
      ≡ true
    → (1 ≤ count) × (count ≤ max_entries) × (size ≤ physical_bytes) × (offset + size ≡ total)
bounds_facts count table_offset offset size total h = ground arith

bounded_file :
    (file : List ℕ)
    → bounds_are_valid file ≡ true
    → (1 ≤ count_of file)
      × (count_of file ≤ max_entries)
      × (data_size_of file ≤ physical_bytes)
      × (data_offset_of file + data_size_of file ≡ length file)
unfolding bounds_are_valid
bounded_file file h =
    bounds_facts (count_of file) (u64 (drop 24 file)) (data_offset_of file) (data_size_of file)
      (length file) h

accepted_injective : {A : Type 0} {a b : A} → accepted a ≡ accepted b → a ≡ b
accepted_injective h = cc

-- The layout of a pack, and its bounds.
abbrev pub IsLaid : Pack → Type 0
IsLaid pack =
    AreLaid pack.bytes 0 pack.entries (length pack.bytes)
    × (1 ≤ length pack.entries)
    × (length pack.entries ≤ max_entries)
    × (length pack.bytes ≤ physical_bytes)

module _ (sha256 : List ℕ → List ℕ) where
  rows-IsLaid :
      (file table : List ℕ) (end : ℕ) (entries : List Entry)
      → bounds_are_valid file ≡ true
      → read_rows sha256
          (count_of file)
          (slice file (data_offset_of file) (data_size_of file))
          table
          0
          []
        ≡ accepted (end, entries)
      → (end == data_size_of file) ≡ true
      → IsLaid (record {
        bytes = slice file (data_offset_of file) (data_size_of file);
        entries = entries;
      })
  rows-IsLaid file table end entries bounded rows claims =
      let bytes = slice file (data_offset_of file) (data_size_of file) in
      let (some_row, few, small, whole) = bounded_file file bounded in
      let (new, joined, counted, laid) =
        read_rows-Laid sha256 (count_of file) bytes table 0 [] (end, entries) rows in
      let size : length bytes ≡ data_size_of file = omega (
        arith,
        length-take (data_size_of file) (drop (data_offset_of file) file),
        length-drop (data_offset_of file) file,
      ) in
      let last : end ≡ length bytes = ground arith in
      let laid' : AreLaid bytes 0 entries end =
        subst (λ (es : List Entry). AreLaid bytes 0 es end) (sym joined) laid in
      let count : length entries ≡ count_of file =
        ap (λ (es : List Entry). length es) joined ∙ counted in
      (
        subst (AreLaid bytes 0 entries) last laid',
        rw count some_row,
        rw count few,
        omega (arith, size),
      )

  -- The parts of a pack that was accepted.
  pub parse-IsLaid : (file : List ℕ) (pack : Pack) → parse sha256 file ≡ accepted pack → IsLaid pack
  unfolding parse
  parse-IsLaid file pack h =
      let bytes = slice file (data_offset_of file) (data_size_of file) in
      let table = slice file (u64 (drop 24 file)) (count_of file * record_size) in
      let (sized, h1) = >>=-require (size_is_bounded file) size_outside _ h in
      let (known, h2) = >>=-require (format_is_known file) unsupported_format _ h1 in
      let (bounded, h3) = >>=-require (bounds_are_valid file) invalid_bounds _ h2 in
      let (summed, h4) =
        >>=-require (same_words (sha256 table) (slice file 48 32)) table_checksum _ h3 in
      let ((end, entries), rows, h5) =
        >>=-eq (read_rows sha256 (count_of file) bytes table 0 []) _ h4 in
      let (claims, h6) = >>=-require (end == data_size_of file) unclaimed_bytes _ h5 in
      subst IsLaid (accepted_injective h6) (rows-IsLaid file table end entries bounded rows claims)

  -- In an accepted pack each entry is not empty, lies within the data at a multiple of 4 and has its
  -- fingerprint; an entry ends before every later one starts; and each byte of the data is zero or
  -- belongs to an entry.
  pub parse_lem :
      (file : List ℕ) (pack : Pack) (i j n : ℕ) (a b : Entry)
      → parse sha256 file ≡ accepted pack
      → get_elem? pack.entries i ≡ some a
      → get_elem? pack.entries j ≡ some b
      → n < length pack.bytes
      → IsEntry pack.bytes a
        × ((a.offset + a.length ≤ b.offset) ⊎ (j ≤ i))
        × ((get_or pack.bytes n 0 ≡ 0)
            ⊎ ((k : ℕ) × (e : Entry) × (get_elem? pack.entries k ≡ some e)
                × (e.offset ≤ n)
                × (n < e.offset + e.length)))
  parse_lem file pack i j n a b h p q inside =
      let laid = (parse-IsLaid file pack h).0 in
      let total = length pack.bytes in
      (
        (behind_end pack.bytes 0 pack.entries total i a laid p).1,
        (elim (Bool-cases (ltb i j)) [
          | inl before ↦
              inl (apart pack.bytes 0 pack.entries total i j a b laid p q (ltb→lt i j before))
          | inr behind ↦ inr (ground arith)
        ]),
        (elim (Bool-cases (get_or pack.bytes n 0 == 0)) [
          | inl zeros ↦ inl ((==_iff _ _).0 zeros)
          | inr other ↦ inr (
              claimed pack.bytes 0 pack.entries total n laid (omega arith) inside
                (λ e. ground arith))
        ]),
      )
