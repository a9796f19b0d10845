-- ===== src/Tests/Assets.antt =====
-- A concrete asset pack of two entries, and a guest range found among them.
use bolts_rebuilt.Prelude.{
  ℕ, zero, suc, ◌+◌, ◌/◌, ◌%◌, ◌≡◌, ◌≤◌, ◌<◌, ◌⊎◌, inr, refl, true, some, List, [], ◌∷◌, ◌++◌,
  arith, length, replicate, get_elem?, get_or, same_words,
}
use bolts_rebuilt.AssetCache.{Entry, fingerprint}
use bolts_rebuilt.AssetCache.Pack.{
  Pack, parse, read_rows, read_row, row_is_valid, padding_is_zero, sums_match, size_is_bounded,
  format_is_known, bounds_are_valid, accepted,
}
use bolts_rebuilt.AssetCache.Pack.Claims.{IsEntry, parse_lem}
use bolts_rebuilt.AssetCache.Resolve.{
  Binding, Cache, new_cache, has_length, match_candidate, version_of, legacy_find,
}
use bolts_rebuilt.AssetCache.Resolve.Calls.{
  resolve, reset_mappings, is_servable, from_prior, take_snapshot, copy_range, finish,
  invalidate_all,
}
use bolts_rebuilt.AssetCache.Resolve.Fresh.{read_guest, Serves}
use bolts_rebuilt.AssetCache.Resolve.Reached.{Reach, resolve-Serves}

-- The low bytes of a number.
abbrev le : ℕ → ℕ → List ℕ
le zero n = []
le (suc k) n = (n % 256) ∷ le k (n / 256)

-- A stand-in for the hash.
abbrev zero_sums : List ℕ → List ℕ
zero_sums _ = replicate 32 0

abbrev row_of : (offset : ℕ) → List ℕ → List ℕ
row_of offset bytes =
    le 8 offset
    ++ (le 4 (length bytes) ++ (le 4 1 ++ (le 8 (fingerprint bytes) ++ (replicate 32 0 ++ le 8 0))))

abbrev first_asset : List ℕ
first_asset = 1 ∷ 2 ∷ 3 ∷ []

abbrev second_asset : List ℕ
second_asset = 4 ∷ 5 ∷ 6 ∷ 7 ∷ []

abbrev asset_file : List ℕ
asset_file =
    78
    ∷ 66
    ∷ 71
    ∷ 69
    ∷ 79
    ∷ 77
    ∷ 49
    ∷ 0
    ∷ (le 4 1
        ++ (le 4 80
            ++ (le 4 2
                ++ (le 4 64
                    ++ (le 8 80
                        ++ (le 8 256
                            ++ (le 8 8
                                ++ (replicate 32 0
                                    ++ (row_of 0 first_asset
                                        ++ (row_of 4 second_asset
                                            ++ (replicate 48 0
                                                ++ (first_asset ++ (0 ∷ second_asset)))))))))))))

abbrev first_entry : Entry
first_entry = record { offset = 0; length = 3; fingerprint = fingerprint first_asset }

abbrev second_entry : Entry
second_entry = record { offset = 4; length = 4; fingerprint = fingerprint second_asset }

abbrev two_assets : Pack
two_assets = record {
  bytes = 1 ∷ 2 ∷ 3 ∷ 0 ∷ 4 ∷ 5 ∷ 6 ∷ 7 ∷ [];
  entries = first_entry ∷ second_entry ∷ [];
}

asset_file-parse : parse zero_sums asset_file ≡ accepted two_assets
unfolding parse read_rows read_row row_is_valid padding_is_zero sums_match size_is_bounded
    format_is_known bounds_are_valid fingerprint same_words
asset_file-parse = refl

parse_lem_example :
    IsEntry two_assets.bytes first_entry
    × ((0 + 3 ≤ 4) ⊎ (1 ≤ 0))
    × ((get_or two_assets.bytes 5 0 ≡ 0)
        ⊎ ((k : ℕ) × (e : Entry) × (get_elem? two_assets.entries k ≡ some e)
            × (e.offset ≤ 5)
            × (5 < e.offset + e.length)))
parse_lem_example =
    parse_lem zero_sums asset_file two_assets 0 1 5 first_entry second_entry asset_file-parse refl
      refl (omega arith)

-- The guest holds the second asset at 0x1000.
abbrev guest_memory : ℕ → ℕ
guest_memory a = get_or second_asset (a % 4) 0

abbrev ready_cache : Cache
ready_cache = new_cache two_assets

abbrev found_binding : Binding
found_binding = record { guest_base = 0x1000; byte_length = 4; asset_offset = 4; enabled = true }

resolve-Serves_example :
    let b =
      (resolve ready_cache 0x1000 4 1 true true
        (some (read_guest guest_memory 0x1000 4))
        ([] ++ [])).0 in
    Serves ready_cache guest_memory 0x1000 4 b ⊎ Serves ready_cache guest_memory 0x1000 4 b
unfolding new_cache
resolve-Serves_example =
    resolve-Serves two_assets ready_cache guest_memory [] guest_memory [] guest_memory 0x1000 4 1
      true true (some (read_guest guest_memory 0x1000 4)) (Reach.initialized guest_memory)
      (λ a. refl) (λ a. refl) (omega arith) (inr refl)

resolve-found :
    (resolve ready_cache 0x1000 4 1 true true
      (some (read_guest guest_memory 0x1000 4))
      ([] ++ [])).0
    ≡ found_binding
unfolding resolve reset_mappings is_servable from_prior take_snapshot copy_range finish
    invalidate_all new_cache has_length match_candidate version_of legacy_find fingerprint
    same_words
resolve-found = refl
