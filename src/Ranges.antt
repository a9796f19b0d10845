-- ===== src/Ranges.antt =====
-- src/gpu/native/native_range_batch.h: byte ranges validated, sorted and merged before an upload,
-- and the page ranges that are queued for it. A Range is a start and a length, both uint32_t.
pub mod Merge
pub mod Upload
use bolts_rebuilt.Prelude.{
  ℕ, zero, suc, ◌+◌, ◌-◌, ◌%◌, ◌^◌, ◌≤◌, ◌<◌, min, max, Bool, true, false, not, ◌&&◌, ◌||◌, Option,
  none, some, List, [], ◌∷◌, ltb, leb, ◌==◌, if◌then◌else◌, length,
}

-- NativeRangeBatch::Range.
pub record Range : Type 0 where
  pub start : ℕ
  pub count : ℕ

abbrev pub end_of : Range → ℕ
end_of r = r.start + r.count

-- NativeSingleRangeSelection.
pub data SingleRange : Type 0 where
  not_selected empty invalid : SingleRange
  ready : Range → SingleRange

-- `input` is the caller's pointer with its count of ranges, `none` a null pointer.
pub select_single_range : Option (List Range) → ℕ → Bool → SingleRange
select_single_range none byte_limit enabled = not_selected
select_single_range (some []) byte_limit enabled = not_selected
select_single_range (some (r ∷ [])) byte_limit enabled =
    if not enabled
    then not_selected
    else if r.count == 0
    then empty
    else if ltb byte_limit (end_of r)
    then invalid
    else ready r
select_single_range (some (r ∷ s ∷ rest)) byte_limit enabled = not_selected

-- NativeRangeBatch: the ranges it holds, and whether they stand in the fixed array.
pub record Batch : Type 0 where
  pub ranges : List Range
  pub on_stack : Bool

abbrev pub stack_capacity : ℕ
stack_capacity = 32

-- The first loop of Build: empty ranges are dropped, and `none` is a range beyond the limit.
pub gather : ℕ → List Range → Option (List Range)
gather byte_limit [] = some []
gather byte_limit (r ∷ input) =
    let kept = gather byte_limit input in
    if r.count == 0
    then kept
    else if ltb byte_limit r.start || ltb (byte_limit - r.start) r.count
    then none
    else elim kept [ none ↦ none | some ranges ↦ some (r ∷ ranges) ]

-- std::sort by the start. It may leave equal starts in another order than this stable sort does.
pub insert_by_start : Range → List Range → List Range
insert_by_start r [] = r ∷ []
insert_by_start r (s ∷ ranges) =
    if leb r.start s.start then r ∷ s ∷ ranges else s ∷ insert_by_start r ranges

pub sort_by_start : List Range → List Range
sort_by_start [] = []
sort_by_start (r ∷ ranges) = insert_by_start r (sort_by_start ranges)

-- The previous range, extended to the end of the next one.
pub absorb : Range → Range → Range
absorb previous next = record previous {
  count = (max (end_of previous) (end_of next) - previous.start) % 2 ^ 32;
}

-- The second loop of Build, in place in the source: `previous` is the last range of the output.
pub merge_from : Range → List Range → List Range
merge_from previous [] = previous ∷ []
merge_from previous (next ∷ ranges) = elim (leb next.start (end_of previous)) [
  | true ↦ merge_from (absorb previous next) ranges
  | false ↦ previous ∷ merge_from next ranges
]

pub merge_sorted : List Range → List Range
merge_sorted [] = []
merge_sorted (r ∷ ranges) = merge_from r ranges

-- Build, with what it returns. A null or empty input leaves the batch empty.
unfoldable pub build : Option (List Range) → ℕ → Bool → Batch × Bool
build none byte_limit optimize = (record { ranges = []; on_stack = optimize }, true)
build (some input) byte_limit optimize =
    let on_stack = optimize && leb (length input) stack_capacity in
    elim (gather byte_limit input) [
      | none ↦ (record { ranges = []; on_stack = on_stack }, false)
      | some kept ↦
          (record { ranges = merge_sorted (sort_by_start kept); on_stack = on_stack }, true)
    ]

-- AppendUploadPageRange. The head of the list is the vector's back; the number is that of the
-- duplicate pages left out.
pub append_upload_page_range : List Range → ℕ → ℕ → Bool → List Range × ℕ
append_upload_page_range [] start count optimize =
    if count == 0 then ([], 0) else (record { start = start; count = count } ∷ [], 0)
append_upload_page_range (last ∷ before) start count optimize =
    let last_end = end_of last in
    let end = start + count in
    if count == 0
    then (last ∷ before, 0)
    else if start == last_end || (optimize && leb last.start start && ltb start last_end)
    then (
      record last { count = (max last_end end - last.start) % 2 ^ 32 } ∷ before,
      if ltb start last_end then (min last_end end - start) % 2 ^ 32 else 0,
    )
    else (record { start = start; count = count } ∷ last ∷ before, 0)
