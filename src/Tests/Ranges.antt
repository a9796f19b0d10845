-- ===== src/Tests/Ranges.antt =====
-- Concrete requests of ranges.
use bolts_rebuilt.Prelude.{ℕ, ◌+◌, ◌≡◌, ◌⊎◌, ◌||◌, true, false, some, List, [], ◌∷◌, arith, All}
use bolts_rebuilt.Ranges.{Range, build, select_single_range, append_upload_page_range}
use bolts_rebuilt.Ranges.Merge.{
  covered, in_range, IsWithin, Separated, build_lem, build_outcome, select_single_range-build,
}
use bolts_rebuilt.Ranges.Upload.{total_pages, append_upload_page_range_lem}

abbrev two_ranges : List Range
two_ranges = record { start = 8; count = 4 } ∷ record { start = 0; count = 9 } ∷ []

build_lem_example :
    let (batch, success) = build (some two_ranges) 100 true in
    ((success ≡ true)
      × All (IsWithin 100) two_ranges
      × Separated batch.ranges
      × ((byte : ℕ) → covered batch.ranges byte ≡ covered two_ranges byte))
    ⊎ ((success ≡ false) × ¬ (All (IsWithin 100) two_ranges) × (batch.ranges ≡ []))
build_lem_example = build_lem two_ranges 100 true (omega arith)

select_single_range-build_example :
    select_single_range (some (record { start = 8; count = 4 } ∷ [])) 100 true
    ≡ build_outcome
        (record { start = 8; count = 4 })
        (build (some (record { start = 8; count = 4 } ∷ [])) 100 false)
select_single_range-build_example =
    select_single_range-build (record { start = 8; count = 4 }) 100 false

abbrev queued : List Range
queued = record { start = 8; count = 4 } ∷ []

append_upload_page_range_lem_example :
    let (after, duplicates) = append_upload_page_range queued 10 7 true in
    ((page : ℕ)
      → covered after page
        ≡ (in_range (record { start = 10; count = 7 }) page || covered queued page))
    × (total_pages after + duplicates ≡ total_pages queued + 7)
append_upload_page_range_lem_example =
    append_upload_page_range_lem queued 10 7 true (omega arith, omega arith, tt) (omega arith)
