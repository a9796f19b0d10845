-- ===== src/Tests/Uploads.antt =====
-- An upload of two pages against a shadow that knows neither.
use bolts_rebuilt.Prelude.{
  ℕ, ◌+◌, ◌*◌, ◌/◌, ◌≡◌, true, not, ◌&&◌, ltb, if◌then◌else◌, length, get_or, replicate,
  length-replicate, List, arith,
}
use bolts_rebuilt.Prelude.Bits.{bit}
use bolts_rebuilt.Pages.Count.{count_below}
use bolts_rebuilt.Shadow.{Shadow, fresh}
use bolts_rebuilt.Shadow.Compare.{page_is_known, classify_upload_pages, classify_upload_pages_lem}

abbrev small_pages : Shadow
small_pages = record fresh { page_bytes = 4096 }

abbrev two_pages_of_fives : List ℕ
two_pages_of_fives = replicate 8192 5

classify_upload_pages_lem_example :
    let (r, after) = classify_upload_pages small_pages 0x1000 two_pages_of_fives true (λ a. 0) in
    let pages = length two_pages_of_fives / 4096 in
    let changed =
      count_below pages (λ q. not (page_is_known small_pages 0x1000 two_pages_of_fives q)) in
    (bit r.changed_mask 1
      ≡ (ltb 1 pages && not (page_is_known small_pages 0x1000 two_pages_of_fives 1)))
    × (r.matched_pages + changed ≡ pages)
    × (r.snapshot_bytes ≡ (if true then changed * 4096 else 0))
    × (after (1 * 4096 + 7) ≡ (
        if true && ltb 1 pages && not (page_is_known small_pages 0x1000 two_pages_of_fives 1)
        then get_or two_pages_of_fives (1 * 4096 + 7) 0
        else 0))
classify_upload_pages_lem_example =
    classify_upload_pages_lem small_pages 0x1000 two_pages_of_fives true (λ a. 0) 1 1 7
      (omega arith) (omega (arith, length-replicate {A = ℕ} 8192 5)) (omega arith)
