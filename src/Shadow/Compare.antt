-- ===== src/Shadow/Compare.antt =====
-- ClassifyUploadPages of src/gpu/native/native_upload_shadow_compare.h: the pages of an upload that
-- differ from the shadow, with the clocks left out.
use bolts_rebuilt.Prelude.{
  ℕ, zero, suc, ◌+◌, ◌-◌, ◌*◌, ◌/◌, ◌%◌, ◌^◌, ◌≤◌, ◌<◌, ◌≡◌, refl, ◌∙◌, Bool, true, false, not,
  ◌&&◌, ◌||◌, List, ltb, leb, ◌==◌, if◌then◌else◌, length, take, drop, get_or, bit_or, arith,
  Bool-cases, inl, inr, ==_iff,
}
use native.Mathlib.Nat.{div-lt_iff_lt-mul}
use bolts_rebuilt.Prelude.Bits.{bit, bit-zero, bit-bit_or}
use bolts_rebuilt.Prelude.Bits.Words.{shl, bit-mod, bit-shift_left}
use bolts_rebuilt.Prelude.Strides.{copy_row-here}
use bolts_rebuilt.Pages.Count.{count_below}
use bolts_rebuilt.Shadow.{Shadow, matches}

-- UploadClassification.
pub record Classification : Type 0 where
  pub changed_mask : ℕ
  pub matched_pages : ℕ
  pub snapshot_bytes : ℕ

-- The page of the upload at an index matches the shadow.
unfoldable pub page_is_known : Shadow → (address : ℕ) → (source : List ℕ) → (page : ℕ) → Bool
page_is_known s address source page =
    let offset = page * s.page_bytes in
    matches s ((address + offset) % 2 ^ 32) (take s.page_bytes (drop offset source))

-- std::memcpy of a page to its own offset in the scratch.
abbrev pub copy_page : (page_bytes page : ℕ) → (source : List ℕ) → (scratch : ℕ → ℕ) → ℕ → ℕ
copy_page page_bytes page source scratch a =
    if leb (page * page_bytes) a && ltb a (page * page_bytes + page_bytes)
    then get_or source a 0
    else scratch a

-- The body of the loop.
unfoldable pub classify_page :
    Shadow
    → (source : List ℕ) → (direct : Bool) → (page : ℕ) → (match : Bool) → Classification × (ℕ → ℕ)
    → Classification × (ℕ → ℕ)
classify_page s source direct page true (r, scratch) =
    (record r { matched_pages = r.matched_pages + 1 }, scratch)
classify_page s source false page false (r, scratch) =
    (record r { changed_mask = bit_or r.changed_mask (shl 32 1 page) }, scratch)
classify_page s source true page false (r, scratch) = (
  record r {
    changed_mask = bit_or r.changed_mask (shl 32 1 page);
    snapshot_bytes = r.snapshot_bytes + s.page_bytes;
  },
  copy_page s.page_bytes page source scratch,
)

-- The loop over the first pages.
unfoldable pub classify_pages :
    Shadow
    → (address : ℕ) → (source : List ℕ) → (direct : Bool) → (scratch : ℕ → ℕ) → (pages : ℕ)
    → Classification × (ℕ → ℕ)
classify_pages s address source direct scratch zero =
    (record { changed_mask = 0; matched_pages = 0; snapshot_bytes = 0 }, scratch)
classify_pages s address source direct scratch (suc page) =
    classify_page s source direct page (page_is_known s address source page)
      (classify_pages s address source direct scratch page)

-- ClassifyUploadPages.
unfoldable pub classify_upload_pages :
    Shadow
    → (address : ℕ) → (source : List ℕ) → (direct : Bool) → (scratch : ℕ → ℕ)
    → Classification × (ℕ → ℕ)
unfolding classify_pages
classify_upload_pages s address source direct scratch =
    classify_pages s address source direct scratch (length source / s.page_bytes)

bit-one : (j : ℕ) → bit 1 j ≡ (j == 0)
unfolding bit
bit-one zero = refl
bit-one (suc j) = bit-zero j ∙ ground arith

-- 1u << page.
bit-shl_one : (page i : ℕ) → page < 32 → bit (shl 32 1 page) i ≡ (i == page)
bit-shl_one page i small =
    bit-mod 32 (1 * 2 ^ page) i ∙ (rw (bit-shift_left page 1 i, bit-one (i - page)) (ground arith))

mask-step :
    (s : Shadow) (source : List ℕ) (direct match : Bool) (page i : ℕ) (r : Classification × (ℕ → ℕ))
    → page < 32
    → bit (classify_page s source direct page match r).0.changed_mask i
      ≡ (bit r.0.changed_mask i || (i == page && not match))
unfolding classify_page
mask-step s source direct true page i (r, scratch) small = ground arith
mask-step s source true false page i (r, scratch) small =
    ground (arith, bit-bit_or r.changed_mask (shl 32 1 page) i, bit-shl_one page i)
mask-step s source false false page i (r, scratch) small =
    ground (arith, bit-bit_or r.changed_mask (shl 32 1 page) i, bit-shl_one page i)

-- The mask has the pages seen so far that are not known.
mask-changed :
    (s : Shadow) (address : ℕ) (source : List ℕ) (direct : Bool) (scratch : ℕ → ℕ) (pages i : ℕ)
    → pages ≤ 32
    → bit (classify_pages s address source direct scratch pages).0.changed_mask i
      ≡ (ltb i pages && not (page_is_known s address source i))
unfolding classify_pages
mask-changed s address source direct scratch zero i small = bit-zero i ∙ ground arith
mask-changed s address source direct scratch (suc page) i small =
    let step =
      mask-step s source direct (page_is_known s address source page) page i
        (classify_pages s address source direct scratch page) (omega arith) in
    let before = mask-changed s address source direct scratch page i (omega arith) in
    step
    ∙ rw before (elim (Bool-cases (i == page)) [
      | inl same ↦ let is_page : i ≡ page = (==_iff i page).0 same in rw (is_page) (ground arith)
      | inr other ↦ ground (arith, ==_iff i page)
    ])

abbrev is_changed : Shadow → (address : ℕ) → (source : List ℕ) → ℕ → Bool
is_changed s address source page = not (page_is_known s address source page)

abbrev Counted : Shadow → (direct : Bool) → (pages changed : ℕ) → Classification × (ℕ → ℕ) → Type 0
Counted s direct pages changed (r, scratch) =
    (r.matched_pages + changed ≡ pages)
    × (r.snapshot_bytes ≡ (if direct then changed * s.page_bytes else 0))

classify_page-Counted :
    (s : Shadow) (source : List ℕ) (direct match : Bool) (page changed : ℕ)
    (r : Classification × (ℕ → ℕ))
    → Counted s direct page changed r
    → Counted s direct
        (suc page)
        (changed + (if not match then 1 else 0))
        (classify_page s source direct page match r)
unfolding classify_page
classify_page-Counted s source true true page changed (r, scratch) (h, b) =
    (omega arith, ground arith)
classify_page-Counted s source false true page changed (r, scratch) (h, b) =
    (omega arith, ground arith)
classify_page-Counted s source false false page changed (r, scratch) (h, b) = (omega arith, b)
classify_page-Counted s source true false page changed (r, scratch) (h, b) =
    (omega arith, grind arith)

classify_pages-Counted :
    (s : Shadow) (address : ℕ) (source : List ℕ) (direct : Bool) (scratch : ℕ → ℕ) (pages : ℕ)
    → Counted s direct pages
        (count_below pages (is_changed s address source))
        (classify_pages s address source direct scratch pages)
unfolding classify_pages count_below
classify_pages-Counted s address source direct scratch zero = (refl, ground arith)
classify_pages-Counted s address source direct scratch (suc page) =
    classify_page-Counted s source direct (page_is_known s address source page) page
      (count_below page (is_changed s address source))
      (classify_pages s address source direct scratch page)
      (classify_pages-Counted s address source direct scratch page)

scratch-step :
    (s : Shadow) (source : List ℕ) (direct match : Bool) (page p k : ℕ)
    (r : Classification × (ℕ → ℕ))
    → k < s.page_bytes
    → (classify_page s source direct page match r).1 (p * s.page_bytes + k) ≡ (
        if direct && page == p && not match
        then get_or source (p * s.page_bytes + k) 0
        else r.1 (p * s.page_bytes + k))
unfolding classify_page
scratch-step s source true true page p k (r, scratch) inside = ground arith
scratch-step s source false true page p k (r, scratch) inside = ground arith
scratch-step s source false false page p k (r, scratch) inside = ground arith
scratch-step s source true false page p k (r, scratch) inside =
    let here = copy_row-here page p k s.page_bytes s.page_bytes inside (omega arith) in
    ground (arith, here)

scratch-captured :
    (s : Shadow) (address : ℕ) (source : List ℕ) (direct : Bool) (scratch : ℕ → ℕ) (pages p k : ℕ)
    → k < s.page_bytes
    → (classify_pages s address source direct scratch pages).1 (p * s.page_bytes + k) ≡ (
        if direct && ltb p pages && not (page_is_known s address source p)
        then get_or source (p * s.page_bytes + k) 0
        else scratch (p * s.page_bytes + k))
unfolding classify_pages
scratch-captured s address source direct scratch zero p k inside = ground arith
scratch-captured s address source direct scratch (suc page) p k inside =
    let step =
      scratch-step s source direct (page_is_known s address source page) page p k
        (classify_pages s address source direct scratch page) inside in
    let before = scratch-captured s address source direct scratch page p k inside in
    step
    ∙ rw before (elim (Bool-cases (page == p)) [
      | inl same ↦ let is_page : page ≡ p = (==_iff page p).0 same in rw is_page (ground arith)
      | inr other ↦ ground (arith, ==_iff page p)
    ])

-- For pages of at least 4 KiB and an upload of at most 64 KiB: the mask has exactly the pages of the
-- upload that the shadow does not match, every page is counted as matched or is one of these, and the
-- scratch holds, at its own offset, each page of the mask in direct mode and is else what it was; the
-- snapshot bytes are those of the pages copied.
pub classify_upload_pages_lem :
    (s : Shadow) (address : ℕ) (source : List ℕ) (direct : Bool) (scratch : ℕ → ℕ) (i p k : ℕ)
    → 4096 ≤ s.page_bytes
    → length source ≤ 65536
    → k < s.page_bytes
    → let (r, after) = classify_upload_pages s address source direct scratch in
      let pages = length source / s.page_bytes in
      let changed = count_below pages (λ q. not (page_is_known s address source q)) in
      (bit r.changed_mask i ≡ (ltb i pages && not (page_is_known s address source i)))
      × (r.matched_pages + changed ≡ pages)
      × (r.snapshot_bytes ≡ (if direct then changed * s.page_bytes else 0))
      × (after (p * s.page_bytes + k) ≡ (
          if direct && ltb p pages && not (page_is_known s address source p)
          then get_or source (p * s.page_bytes + k) 0
          else scratch (p * s.page_bytes + k)))
unfolding classify_upload_pages
classify_upload_pages_lem s address source direct scratch i p k large small inside =
    let pages = length source / s.page_bytes in
    let few : pages ≤ 32 = omega (
      arith,
      (div-lt_iff_lt-mul {k = s.page_bytes} {x = length source} {y = 33} (omega arith)).1
          (omega arith),
    ) in
    let (matched, copied) = classify_pages-Counted s address source direct scratch pages in
    (
      mask-changed s address source direct scratch pages i few,
      matched,
      copied,
      scratch-captured s address source direct scratch pages p k inside,
    )
