-- ===== src/TexturePack/Upload/Prepared.antt =====
-- What a prepared upload holds: the blocks of an entry whose guest bytes are those in memory now.
use bolts_rebuilt.Prelude.{
  ℕ, suc, ◌+◌, ◌*◌, ◌/◌, ◌≤◌, ◌<◌, ◌≡◌, Bool, true, false, refl, List, [], ◌∷◌, length, get_or, ltb,
  if◌then◌else◌, arith, Bool-cases, inl, inr, ap, Option, none, some, Option-cases, All, get_elem?,
  same_words, same_words_iff, sym, ◌∙◌,
}
use mathlib.Core.Path.{subst}
use bolts_rebuilt.TexturePack.{
  Key, Entry, Entries, load, bucket_of, words, valid_key, max_upload_bytes,
}
use bolts_rebuilt.TexturePack.Records.{AreBytes, AreRecords, load-print_pack}
use bolts_rebuilt.TexturePack.Upload.{
  fill, Slice, Upload, Cache, Request, row_bytes_of, row_pitch_of, configure, prepare, entries_of,
  prepare_in, upload_match, find_match,
}
use bolts_rebuilt.Prelude.Strides.{rows_apart}
use bolts_rebuilt.TexturePack.Upload.Rows.{copy_rows-at, valid_key-Fits}

words_injective : (k k' : Key) → words k ≡ words k' → k ≡ k'
words_injective k k' h = ground arith

-- The first entry of these guest bytes.
abbrev first_with : List ℕ → List Entry → Option Entry
first_with snapshot [] = none
first_with snapshot (entry ∷ bucket) =
    if same_words entry.guest snapshot then some entry else first_with snapshot bucket

module _ (hash : List ℕ → ℕ) where
  abbrev InBucket : Key → Entry → Type 0
  InBucket k e = (valid_key k (length e.blocks) ≡ true) × (e.guest_hash ≡ hash e.guest)

  bucket_of-All :
      (key : Key) (entries : Entries)
      → AreRecords hash entries
      → All (InBucket key) (bucket_of key entries)
  unfolding bucket_of
  bucket_of-All key [] h = tt
  bucket_of-All key ((k, e) ∷ entries) (r, h) =
      elim (Bool-cases (same_words (words k) (words key))) [
        | inl same ↦
            let e' = words_injective k key ((same_words_iff _ _).0 same) in
            rw same (
              (subst (λ (k : Key). valid_key k (length e.blocks) ≡ true) e' r.valid, r.hashed),
              bucket_of-All key entries h,
            )
        | inr other ↦ rw other (bucket_of-All key entries h)
      ]

  -- The hash only skips entries with other guest bytes.
  find_match-first :
      (k : Key) (snapshot : List ℕ) (bucket : List Entry)
      → All (InBucket k) bucket
      → find_match (hash snapshot) snapshot bucket ≡ first_with snapshot bucket
  unfolding find_match
  find_match-first k snapshot [] h = refl
  find_match-first k snapshot (e ∷ bucket) ((v, hashed), h) =
      elim (Bool-cases (same_words e.guest snapshot)) [
        | inl same ↦
            let g = (same_words_iff e.guest snapshot).0 same in
            let eq : e.guest_hash ≡ hash snapshot = hashed ∙ ap hash g in ground arith
        | inr other ↦ ground (arith, find_match-first k snapshot bucket h)
      ]

  first_with-In :
      (k : Key) (snapshot : List ℕ) (bucket : List Entry) (e : Entry)
      → All (InBucket k) bucket
      → first_with snapshot bucket ≡ some e
      → (i : ℕ) × (get_elem? bucket i ≡ some e) × (e.guest ≡ snapshot) × InBucket k e
  first_with-In k snapshot [] e h f = cc
  first_with-In k snapshot (entry ∷ bucket) e (r, h) f =
      elim (Bool-cases (same_words entry.guest snapshot)) [
        | inl same ↦
            let g = (same_words_iff entry.guest snapshot).0 same in
            let is_entry : entry ≡ e = ground arith in
            (
              0,
              ap some is_entry,
              subst (λ (e : Entry). e.guest ≡ snapshot) is_entry g,
              subst (InBucket k) is_entry r,
            )
        | inr other ↦
            let (i, at, g, b) = first_with-In k snapshot bucket e h (ground arith) in
            (suc i, at, g, b)
      ]

  fill-at :
      (k : Key) (e : Entry) (slice : Slice) (row col : ℕ)
      → InBucket k e
      → row < k.height / 4
      → col < row_pitch_of k
      → ((fill k e slice).mapping (row * row_pitch_of k + col) ≡ (
          if ltb col (row_bytes_of k) then get_or e.blocks (row * row_bytes_of k + col) 0 else 0))
        × (row * row_bytes_of k + row_bytes_of k ≤ length e.blocks)
  unfolding fill
  fill-at k e slice row col inside r c =
      let fits = valid_key-Fits k (length e.blocks) inside.0 in
      let within = rows_apart row (k.height / 4) (row_pitch_of k) r in
      (
        ground (
          arith,
          within,
          copy_rows-at (k.height / 4) row col (row_bytes_of k) (row_pitch_of k) e.blocks
              (λ a. if ltb a (row_pitch_of k * (k.height / 4)) then 0 else slice.mapping a) c
              fits.padded,
        ),
        omega (arith, rows_apart row (k.height / 4) (row_bytes_of k) r, fits.blocks),
      )

  entries_of-AreRecords :
      (bytes : List ℕ) → AreBytes bytes → AreRecords hash (entries_of hash (some bytes))
  entries_of-AreRecords bytes h = elim (Option-cases (load hash bytes)) [
    | inl refused ↦ rw (refused, entries_of) tt
    | inr (entries, e) ↦ rw (e, entries_of) ((load-print_pack hash bytes entries h e).3)
  ]

  configure-AreRecords :
      (file : List ℕ → Option (List ℕ)) (c : Cache) (pack : List ℕ)
      → ((path bytes : List ℕ) → file path ≡ some bytes → AreBytes bytes)
      → AreRecords hash c.entries
      → AreRecords hash (configure hash file c pack).entries
  unfolding configure
  configure-AreRecords file c pack are_bytes h = elim (Bool-cases (same_words c.path pack)) [
    | inl same ↦ rw same h
    | inr other ↦ rw other (elim (Bool-cases (same_words pack [])) [
      | inl empty ↦ rw empty tt
      | inr some_path ↦ rw some_path (elim (Option-cases (file pack)) [
        | inl unread ↦ rw unread tt
        | inr (bytes, e) ↦ rw e (entries_of-AreRecords bytes (are_bytes pack bytes e))
      ])
    ])
  ]

  module _ (copy_range : ℕ → ℕ → Option (List ℕ)) (request_slice : ℕ → Option Slice) where
    -- What a prepared upload came from.
    abbrev pub CameFrom : Request → List Entry → Upload → List ℕ → Entry → Slice → Type 0
    CameFrom request bucket upload snapshot e slice =
        (copy_range request.guest_address request.key.guest_bytes ≡ some snapshot)
        × (first_with snapshot bucket ≡ some e)
        × (upload ≡ fill request.key e slice)

    upload_match-some :
        (c : Cache) (k : Key) (match : Option Entry) (upload : Upload)
        → (upload_match request_slice c k match).0 ≡ some upload
        → (e : Entry) × (slice : Slice) × (match ≡ some e) × (upload ≡ fill k e slice)
    unfolding upload_match
    upload_match-some c k none upload h = cc
    upload_match-some c k (some e) upload h =
        elim (Option-cases (request_slice (row_pitch_of k * (k.height / 4)))) [
          | inl refused ↦ absurd (ground arith)
          | inr (slice, got) ↦ (e, slice, refl, ground arith)
        ]

    prepare_in-some :
        (grows : Bool) (c : Cache) (request : Request) (bucket : List Entry) (upload : Upload)
        → All (InBucket request.key) bucket
        → (prepare_in hash copy_range request_slice grows c request bucket).0 ≡ some upload
        → (snapshot : List ℕ) × (e : Entry) × (slice : Slice) × CameFrom request bucket upload
            snapshot e slice
    unfolding prepare_in
    prepare_in-some false c request [] upload h got = cc
    prepare_in-some true c request [] upload h got = cc
    prepare_in-some false c request (entry ∷ bucket) upload h got = cc
    prepare_in-some true c request (entry ∷ bucket) upload h got =
        elim (Option-cases (copy_range request.guest_address request.key.guest_bytes)) [
          | inl refused ↦ absurd (ground arith)
          | inr (snapshot, copied) ↦
              let matched = rw copied at got in
              let (e, slice, found, filled) = upload_match-some _ request.key _ upload matched in
              (
                snapshot,
                e,
                slice,
                (
                  copied,
                  sym (find_match-first request.key snapshot (entry ∷ bucket) h) ∙ found,
                  filled,
                ),
              )
        ]

    -- Whatever file is configured, an upload that is prepared holds, at each row and column of the
    -- upload, the byte of the blocks of an entry under the requested layout, and zeros behind each
    -- row; the guest bytes of the entry are those in memory now, each row lies within its blocks, and
    -- the upload is at most 2 MiB. The cache held loaded records before, and files are bytes.
    pub prepare_lem :
        (file : List ℕ → Option (List ℕ)) (enabled grows : Bool) (pack : List ℕ) (c : Cache)
        (request : Request) (upload : Upload) (row col : ℕ)
        → ((path bytes : List ℕ) → file path ≡ some bytes → AreBytes bytes)
        → AreRecords hash c.entries
        → row < request.key.height / 4
        → col < row_pitch_of request.key
        → (prepare hash copy_range request_slice file enabled pack grows c request).0 ≡ some upload
        → let bucket = bucket_of request.key (configure hash file c pack).entries in
          (snapshot : List ℕ) × (i : ℕ) × (e : Entry) × (copy_range request.guest_address
              request.key.guest_bytes
            ≡ some snapshot)
          × (get_elem? bucket i ≡ some e)
          × (e.guest ≡ snapshot)
          × (upload.mapping (row * upload.row_pitch + col) ≡ (
              if ltb col (row_bytes_of request.key)
              then get_or e.blocks (row * row_bytes_of request.key + col) 0
              else 0))
          × (row * row_bytes_of request.key + row_bytes_of request.key ≤ length e.blocks)
          × (upload.row_pitch * (request.key.height / 4) ≤ max_upload_bytes)
    unfolding prepare fill
    prepare_lem file false grows pack c request upload row col are_bytes h r w got = cc
    prepare_lem file true grows pack c request upload row col are_bytes h r w got =
        let bucket = bucket_of request.key (configure hash file c pack).entries in
        let all = bucket_of-All request.key _ (configure-AreRecords file c pack are_bytes h) in
        let (snapshot, e, slice, (copied, first, filled)) =
          prepare_in-some grows (configure hash file c pack) request bucket upload all got in
        let (i, at, guest, inside) = first_with-In request.key snapshot bucket e all first in
        let (value, within) = fill-at request.key e slice row col inside r w in
        let fits = valid_key-Fits request.key (length e.blocks) inside.0 in
        (snapshot, i, e, copied, at, guest, rw filled value, within, rw filled fits.upload)
