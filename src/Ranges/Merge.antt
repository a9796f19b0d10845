-- ===== src/Ranges/Merge.antt =====
-- Build keeps the bytes that were asked for, and leaves them in separate ranges.
use bolts_rebuilt.Prelude.{
  ℕ, ◌+◌, ◌^◌, ◌≤◌, ◌<◌, max, ◌≡◌, refl, ◌∙◌, ◌⊎◌, Bool, true, false, ◌&&◌, ◌||◌, Option, none,
  some, List, [], ◌∷◌, All, arith, ltb, leb, inl, inr,
}
use native.Mathlib.Decide.{dec_lt}
use bolts_rebuilt.Ranges.{
  Range, end_of, Batch, SingleRange, empty, invalid, ready, select_single_range, gather,
  insert_by_start, sort_by_start, merge_from, absorb, merge_sorted, build,
}

-- The byte lies in one of the ranges.
abbrev pub in_range : Range → ℕ → Bool
in_range r byte = leb r.start byte && ltb byte (end_of r)

abbrev pub covered : List Range → ℕ → Bool
covered [] byte = false
covered (r ∷ ranges) byte = in_range r byte || covered ranges byte

-- A range that is empty, or ends within the limit.
abbrev pub IsWithin : ℕ → Range → Type 0
IsWithin byte_limit r = (r.count ≡ 0) ⊎ (end_of r ≤ byte_limit)

-- What `gather` keeps: ranges with a byte, each inside the limit.
abbrev IsKept : ℕ → Range → Type 0
IsKept byte_limit r = (0 < r.count) × (end_of r ≤ byte_limit)

-- Each range begins after the byte behind the one before it: sorted, disjoint, not adjacent.
abbrev pub SeparatedFrom : ℕ → List Range → Type 0
SeparatedFrom from [] = Unit
SeparatedFrom from (r ∷ ranges) =
    (from ≤ r.start) × (0 < r.count) × SeparatedFrom (end_of r + 1) ranges

abbrev pub Separated : List Range → Type 0
Separated = SeparatedFrom 0

abbrev Sorted : ℕ → List Range → Type 0
Sorted from [] = Unit
Sorted from (r ∷ ranges) = (from ≤ r.start) × Sorted r.start ranges

-- Either a range with a byte ends beyond the limit, or the ranges with a byte are kept.
abbrev Gathered : ℕ → List Range → Option (List Range) → Type 0
Gathered byte_limit input result =
    ((result ≡ none) × ¬ (All (IsWithin byte_limit) input))
    ⊎ ((kept : List Range) × (result ≡ some kept)
        × All (IsKept byte_limit) kept
        × All (IsWithin byte_limit) input
        × ((byte : ℕ) → covered kept byte ≡ covered input byte))

range_cases :
    (byte_limit : ℕ) (r : Range)
    → (r.count ≡ 0) ⊎ (IsKept byte_limit r ⊎ ((0 < r.count) × (byte_limit < end_of r)))
range_cases byte_limit r = elim (dec_lt 0 r.count) [
  | no e ↦ inl (omega arith)
  | yes p ↦ elim (dec_lt byte_limit (end_of r)) [
    | yes q ↦ inr (inr (p, q))
    | no q ↦ inr (inl (p, omega arith))
  ]
]

gather-Gathered :
    (byte_limit : ℕ) (input : List Range) → Gathered byte_limit input (gather byte_limit input)
unfolding gather
gather-Gathered byte_limit [] = inr ([], refl, tt, tt, λ byte. refl)
gather-Gathered byte_limit (r ∷ input) = elim (gather-Gathered byte_limit input) [
  | inl (e, bad) ↦ inl (ground arith, λ w. bad w.1)
  | inr (kept, e, ks, ws, cov) ↦ elim (range_cases byte_limit r) [
    | inl z ↦ inr (kept, ground arith, ks, (inl z, ws), λ byte. ground (arith, cov byte))
    | inr (inl q) ↦
        inr (r ∷ kept, ground arith, (q, ks), (inr q.1, ws), λ byte. ground (arith, cov byte))
    | inr (inr (p, q)) ↦
        inl (ground arith, λ w. elim (w.0) [ inl z ↦ omega arith | inr z ↦ omega arith ])
  ]
]

insert-All :
    (byte_limit : ℕ) (r : Range) (ranges : List Range)
    → IsKept byte_limit r
    → All (IsKept byte_limit) ranges
    → All (IsKept byte_limit) (insert_by_start r ranges)
unfolding insert_by_start
insert-All byte_limit r [] h k = (h, tt)
insert-All byte_limit r (s ∷ ranges) h k = ground (arith, insert-All byte_limit r ranges h k.1)

insert-Sorted :
    (from : ℕ) (r : Range) (ranges : List Range)
    → from ≤ r.start
    → Sorted from ranges
    → Sorted from (insert_by_start r ranges)
unfolding insert_by_start
insert-Sorted from r [] h k = (h, tt)
insert-Sorted from r (s ∷ ranges) h k = ground (arith, insert-Sorted s.start r ranges)

covered-insert :
    (r : Range) (ranges : List Range) (byte : ℕ)
    → covered (insert_by_start r ranges) byte ≡ (in_range r byte || covered ranges byte)
unfolding insert_by_start
covered-insert r [] byte = refl
covered-insert r (s ∷ ranges) byte = ground (arith, covered-insert r ranges byte)

sort-All :
    (byte_limit : ℕ) (ranges : List Range)
    → All (IsKept byte_limit) ranges
    → All (IsKept byte_limit) (sort_by_start ranges)
unfolding sort_by_start
sort-All byte_limit [] k = tt
sort-All byte_limit (r ∷ ranges) k =
    insert-All byte_limit r (sort_by_start ranges) k.0 (sort-All byte_limit ranges k.1)

sort-Sorted : (ranges : List Range) → Sorted 0 (sort_by_start ranges)
unfolding sort_by_start
sort-Sorted [] = tt
sort-Sorted (r ∷ ranges) =
    insert-Sorted 0 r (sort_by_start ranges) (omega arith) (sort-Sorted ranges)

covered-sort :
    (ranges : List Range) (byte : ℕ) → covered (sort_by_start ranges) byte ≡ covered ranges byte
unfolding sort_by_start
covered-sort [] byte = refl
covered-sort (r ∷ ranges) byte =
    ground (arith, covered-insert r (sort_by_start ranges) byte, covered-sort ranges byte)

absorb_lem :
    (byte_limit : ℕ) (previous next : Range)
    → byte_limit < 2 ^ 32
    → IsKept byte_limit previous
    → IsKept byte_limit next
    → ((absorb previous next).start ≡ previous.start)
      × (end_of (absorb previous next) ≡ max (end_of previous) (end_of next))
unfolding absorb
absorb_lem byte_limit previous next small h k = omega arith

absorb-IsKept :
    (byte_limit : ℕ) (previous next : Range)
    → byte_limit < 2 ^ 32
    → IsKept byte_limit previous
    → IsKept byte_limit next
    → IsKept byte_limit (absorb previous next)
unfolding absorb
absorb-IsKept byte_limit previous next small h k = omega arith

Sorted-mono : (a b : ℕ) (ranges : List Range) → a ≤ b → Sorted b ranges → Sorted a ranges
Sorted-mono a b [] h s = tt
Sorted-mono a b (r ∷ ranges) h s = (omega arith, s.1)

covered-merge_from :
    (byte_limit : ℕ) (previous : Range) (ranges : List Range) (byte : ℕ)
    → byte_limit < 2 ^ 32
    → IsKept byte_limit previous
    → All (IsKept byte_limit) ranges
    → Sorted previous.start ranges
    → covered (merge_from previous ranges) byte ≡ (in_range previous byte || covered ranges byte)
unfolding merge_from
covered-merge_from byte_limit previous [] byte small h k s = refl
covered-merge_from byte_limit previous (next ∷ ranges) byte small h k s = ground (
  arith,
  covered-merge_from byte_limit (absorb previous next) ranges byte small
      (absorb-IsKept byte_limit previous next small h k.0),
  covered-merge_from byte_limit next ranges byte small k.0 k.1 s.1,
  absorb_lem byte_limit previous next small h k.0,
  Sorted-mono previous.start next.start ranges s.0 s.1,
)

merge_from-Separated :
    (byte_limit from : ℕ) (previous : Range) (ranges : List Range)
    → byte_limit < 2 ^ 32
    → from ≤ previous.start
    → IsKept byte_limit previous
    → All (IsKept byte_limit) ranges
    → Sorted previous.start ranges
    → SeparatedFrom from (merge_from previous ranges)
unfolding merge_from
merge_from-Separated byte_limit from previous [] small p h k s = (p, h.0, tt)
merge_from-Separated byte_limit from previous (next ∷ ranges) small p h k s = ground (
  arith,
  merge_from-Separated byte_limit from (absorb previous next) ranges small,
  absorb-IsKept byte_limit previous next small h k.0,
  merge_from-Separated byte_limit (end_of previous + 1) next ranges small,
  absorb_lem byte_limit previous next small h k.0,
  Sorted-mono previous.start next.start ranges s.0 s.1,
)

merge_sorted-Separated :
    (byte_limit : ℕ) (ranges : List Range)
    → byte_limit < 2 ^ 32
    → All (IsKept byte_limit) ranges
    → Sorted 0 ranges
    → Separated (merge_sorted ranges)
unfolding merge_sorted
merge_sorted-Separated byte_limit [] small k s = tt
merge_sorted-Separated byte_limit (r ∷ ranges) small k s =
    merge_from-Separated byte_limit 0 r ranges small s.0 k.0 k.1 s.1

covered-merge_sorted :
    (byte_limit : ℕ) (ranges : List Range) (byte : ℕ)
    → byte_limit < 2 ^ 32
    → All (IsKept byte_limit) ranges
    → Sorted 0 ranges
    → covered (merge_sorted ranges) byte ≡ covered ranges byte
unfolding merge_sorted
covered-merge_sorted byte_limit [] byte small k s = refl
covered-merge_sorted byte_limit (r ∷ ranges) byte small k s =
    covered-merge_from byte_limit r ranges byte small k.0 k.1 s.1

-- With a limit of 32 bits, a request succeeds exactly if every range with a byte ends within the
-- limit. The batch then covers the bytes of the request and no other, by ranges that are sorted,
-- hold a byte and neither overlap nor touch; a request that fails leaves it empty.
pub build_lem :
    (input : List Range) (byte_limit : ℕ) (optimize : Bool)
    → byte_limit < 2 ^ 32
    → let (batch, success) = build (some input) byte_limit optimize in
      ((success ≡ true)
        × All (IsWithin byte_limit) input
        × Separated batch.ranges
        × ((byte : ℕ) → covered batch.ranges byte ≡ covered input byte))
      ⊎ ((success ≡ false) × ¬ (All (IsWithin byte_limit) input) × (batch.ranges ≡ []))
unfolding build
build_lem input byte_limit optimize small = elim (gather-Gathered byte_limit input) [
  | inl (e, bad) ↦ rw (e, build) (inr (refl, bad, refl))
  | inr (kept, e, ks, ws, cov) ↦
      let sorted = sort-All byte_limit kept ks in
      rw (e, build)
        (inl (
          refl,
          ws,
          merge_sorted-Separated byte_limit (sort_by_start kept) small sorted (sort-Sorted kept),
          λ byte.
              covered-merge_sorted byte_limit (sort_by_start kept) byte small sorted
                (sort-Sorted kept)
              ∙ covered-sort kept byte
              ∙ cov byte,
        ))
]

-- What the batch makes of a request with one range, as the fast path names it.
abbrev pub build_outcome : Range → Batch × Bool → SingleRange
build_outcome r (batch, false) = invalid
build_outcome r (batch, true) = elim (batch.ranges) [ [] ↦ empty | only ∷ rest ↦ ready only ]

-- On a request of one range the enabled fast path finds what Build does: the same range ready,
-- nothing to do, or the request refused.
pub select_single_range-build :
    (r : Range) (byte_limit : ℕ) (optimize : Bool)
    → select_single_range (some (r ∷ [])) byte_limit true
      ≡ build_outcome r (build (some (r ∷ [])) byte_limit optimize)
unfolding select_single_range build gather sort_by_start insert_by_start merge_sorted merge_from
select_single_range-build r byte_limit optimize = ground arith
