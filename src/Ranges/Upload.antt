-- ===== src/Ranges/Upload.antt =====
-- AppendUploadPageRange loses no page and counts each duplicate that it leaves out.
use bolts_rebuilt.Prelude.{ℕ, ◌+◌, ◌-◌, ◌^◌, ◌≤◌, ◌<◌, ◌≡◌, Bool, true, ◌||◌, List, [], ◌∷◌, arith}
use bolts_rebuilt.Ranges.{Range, end_of, append_upload_page_range}
use bolts_rebuilt.Ranges.Merge.{covered, in_range}

pub total_pages : List Range → ℕ
total_pages [] = 0
total_pages (r ∷ ranges) = r.count + total_pages ranges

-- Newest first, each range ends before the one queued after it.
abbrev pub EndsBefore : ℕ → List Range → Type 0
EndsBefore bound [] = Unit
EndsBefore bound (r ∷ ranges) = (end_of r ≤ bound) × (0 < r.count) × EndsBefore r.start ranges

-- The start of the newest range.
abbrev pub newest_start : List Range → ℕ
newest_start [] = 0
newest_start (r ∷ ranges) = r.start

-- When the queue is of disjoint ranges in descending order below 2^32 - 1 and the new range ends
-- below 2^32, in either mode the queue then holds the pages that it held and those of the new
-- range, and the pages of the queue grow by the new range's less the duplicates counted.
pub append_upload_page_range_lem :
    (output : List Range) (start count : ℕ) (optimize : Bool)
    → EndsBefore (2 ^ 32 - 1) output
    → start + count < 2 ^ 32
    → let (queued, duplicates) = append_upload_page_range output start count optimize in
      ((page : ℕ)
        → covered queued page
          ≡ (in_range (record { start = start; count = count }) page || covered output page))
      × (total_pages queued + duplicates ≡ total_pages output + count)
unfolding append_upload_page_range total_pages
append_upload_page_range_lem [] start count optimize h k = ((λ page. ground arith), ground arith)
append_upload_page_range_lem (last ∷ before) start count optimize h k =
    ((λ page. ground arith), ground arith)

-- With overlaps folded in, a queue of disjoint page ranges below 2^32 - 1 stays one, when the new
-- range starts at or after the newest one and ends below 2^32.
pub append_upload_page_range-EndsBefore :
    (output : List Range) (start count : ℕ)
    → EndsBefore (2 ^ 32 - 1) output
    → newest_start output ≤ start
    → start + count < 2 ^ 32
    → EndsBefore (2 ^ 32 - 1) (append_upload_page_range output start count true).0
unfolding append_upload_page_range
append_upload_page_range-EndsBefore [] start count h s k = ground arith
append_upload_page_range-EndsBefore (last ∷ before) start count h s k = ground arith
