-- ===== src/Tests/Memory.antt =====
-- Concrete mirrors, shadows and page masks.
use bolts_rebuilt.Prelude.{
  ℕ, ◌/◌, ◌-◌, ◌^◌, ◌≡◌, ◌≢◌, ◌⊎◌, ◌↔◌, ◌&&◌, refl, true, false, none, some, List, [], ◌∷◌, arith,
  All, leb, min, if◌then◌else◌,
}
use bolts_rebuilt.Residency.{
  fresh, contains, promote_valid_word, words_cover, ranges_fit, ranges_covered,
}
use bolts_rebuilt.Pages.{page_mask}
use bolts_rebuilt.Pages.Invalidation.{
  InvalidationRange, cap_invalidation_range, in_range, cap_invalidation_range_iff,
}
use bolts_rebuilt.Residency.System.{System, Reach, Step, Live, contains-Live}
use bolts_rebuilt.Residency.Scan.{contains_iff, Fits, Held}
use bolts_rebuilt.Residency.Words.{fresh-IsValid, promote-IsValid}
use bolts_rebuilt.Residency.Concurrent.{Clears, interleaved_cover, interleaved_cover_atomic}
use bolts_rebuilt.Shadow.{
  Shadow, absent, empty_slot, physical_bytes, publish, get_page, publish_page, assign_slot, store,
  has_slot, matches, advance_epoch, invalidate,
}
use bolts_rebuilt.Shadow.Contents.{IsValid, known}
use bolts_rebuilt.Shadow.Publish.{publish_lem, matches-publish}
use bolts_rebuilt.Shadow.Tokens.{Call, step, run, stale_token, known-invalidate}

-- Shared memory with the first page of each word valid.
abbrev first_pages : ℕ → ℕ
first_pages word = 1

abbrev started : System
started = record { mirror = fresh; valid = first_pages; clearing = none }

abbrev promoted : System
promoted = record started { mirror = (promote_valid_word fresh 0 1 1).0 }

promoted-Reach : Reach promoted
promoted-Reach = Reach.next (Reach.start first_pages (λ w. omega arith)) (Step.promote 0 1 refl)

contains-Live_example : All (Live promoted) ((0, 4096) ∷ [])
unfolding contains promote_valid_word fresh ranges_fit ranges_covered words_cover page_mask
contains-Live_example = contains-Live {s = promoted} ((0, 4096) ∷ []) promoted-Reach refl

abbrev request : List (ℕ × ℕ)
request = (0, 4096) ∷ []

contains_iff_example :
    (contains fresh request ≡ true)
    ↔ ((request ≢ []) × (fresh.disabled ≡ false) × All Fits request × All (Held fresh) request)
contains_iff_example = contains_iff fresh request

interleaved_cover_atomic_example : words_cover promoted.mirror 0 0 1 0 ≡ true
unfolding interleaved_cover promote_valid_word fresh page_mask
interleaved_cover_atomic_example =
    interleaved_cover_atomic promoted.mirror (λ w. promoted.mirror) 0 0 1 0
      (promote-IsValid fresh 0 1 1 (omega arith) fresh-IsValid) (omega arith) (omega arith)
      (omega arith) (λ w. Clears.same) refl

abbrev some_pages : InvalidationRange
some_pages = record { first = 20; last = 21 }

abbrev more_pages : InvalidationRange
more_pages = record { first = 3; last = 90 }

cap_invalidation_range_iff_example :
    in_range (cap_invalidation_range some_pages more_pages 12 false true) 16 ≡ (
      in_range more_pages 16
      && leb (20 / 2 ^ (16 - 12)) (16 / 2 ^ (16 - 12))
      && leb (16 / 2 ^ (16 - 12)) (21 / 2 ^ (16 - 12)))
cap_invalidation_range_iff_example =
    cap_invalidation_range_iff some_pages more_pages 12 16 (omega arith) (omega arith) (omega arith)
      (omega arith) (omega arith)

-- A shadow of two slots for pages of four bytes.
abbrev two_slots : Shadow
two_slots = record {
  page_bytes = 4;
  next_slot = 0;
  epoch = 7;
  evictions = 0;
  page_to_slot = λ page. absent;
  slot_count = 2;
  slots = λ slot. empty_slot;
  bytes = λ slot. [];
}

two_slots-IsValid : IsValid two_slots
two_slots-IsValid = record {
  owned = λ page h. absurd (h refl);
  in_range = λ page h. absurd (h refl);
  real = λ page h. absurd (h refl);
  room = omega arith;
  turn = λ h. omega arith;
  clock = omega arith;
}

abbrev four_bytes : List ℕ
four_bytes = 1 ∷ 2 ∷ 3 ∷ 4 ∷ []

abbrev published : Shadow
published = (publish two_slots 8 four_bytes 7).0

publish_lem_example :
    IsValid published
    × (known published (8 / 4) ≡ some four_bytes)
    × ((5 ≡ 8 / 4)
        ⊎ (known published 5 ≡ known two_slots 5)
        ⊎ (known published 5 ≡ none) × (two_slots.page_to_slot 5 ≡ two_slots.next_slot))
unfolding publish get_page publish_page assign_slot store has_slot
publish_lem_example = publish_lem two_slots published 8 7 5 four_bytes two_slots-IsValid refl

matches-publish_example : (matches published 8 (1 ∷ []) ≡ true) ↔ ((1 ∷ []) ≡ four_bytes)
unfolding publish get_page publish_page assign_slot store has_slot
matches-publish_example =
    matches-publish two_slots published 8 7 four_bytes (1 ∷ []) two_slots-IsValid refl

stale_token_example :
    publish (run (step two_slots (Call.invalidates 0 3)) []) 8 four_bytes 7
    ≡ (run (step two_slots (Call.invalidates 0 3)) [], false)
unfolding run
stale_token_example =
    stale_token two_slots (Call.invalidates 0 3) [] 8 four_bytes refl (omega arith)

known-invalidate_example :
    IsValid (invalidate two_slots 0 3)
    × (known (invalidate two_slots 0 3) 0 ≡ (
        if leb (0 / 4) 0 && leb 0 (min 3 (physical_bytes - 1) / 4)
        then none
        else known two_slots 0))
unfolding advance_epoch
known-invalidate_example =
    known-invalidate two_slots 0 3 0 two_slots-IsValid (λ h. omega arith) (omega arith)
      (omega arith)
