-- ===== src/Shadow/Tokens.antt =====
-- Invalidate forgets the pages that it touches, and no token taken before it is good afterwards.
use bolts_rebuilt.Prelude.{
  ℕ, zero, suc, ◌+◌, ◌-◌, ◌/◌, ◌≤◌, ◌<◌, min, ◌≡◌, refl, ◌≢◌, ◌⊎◌, Bool, true, false, ◌&&◌, none,
  List, [], ◌∷◌, arith, ltb, leb, ◌==◌, if◌then◌else◌,
}
use native.Mathlib.Nat.{div-mul-le_self, le-div_iff_mul-le}
use bolts_rebuilt.Shadow.{
  Shadow, physical_bytes, max_epoch, advance_epoch, initialize, reset, invalidate_page,
  invalidate_pages, invalidate, get_page, store, assign_slot, publish_page, publish,
}
use bolts_rebuilt.Shadow.Contents.{known, IsValid}

known-invalidate_page :
    (s : Shadow) (page other : ℕ)
    → IsValid s
    → known (invalidate_page page s) other ≡ (if page == other then none else known s other)
unfolding invalidate_page known
known-invalidate_page s page other v = ground (arith, v.owned page, v.owned other)

invalidate_page-IsValid : (s : Shadow) (page : ℕ) → IsValid s → IsValid (invalidate_page page s)
unfolding invalidate_page
invalidate_page-IsValid s page v = record {
  owned = λ p h. ground (arith, v.owned p, v.owned page);
  in_range = λ p h. ground (arith, v.in_range p);
  real = λ p h. ground (arith, v.real p);
  room = ground (arith, v.room);
  turn = λ on. ground (arith, v.turn);
  clock = ground (arith, v.clock);
}

known-invalidate_pages :
    (rounds page other : ℕ) (s : Shadow)
    → IsValid s
    → known (invalidate_pages rounds page s) other
      ≡ (if leb page other && ltb other (page + rounds) then none else known s other)
unfolding invalidate_pages
known-invalidate_pages zero page other s v = ground arith
known-invalidate_pages (suc rounds) page other s v = ground (
  arith,
  known-invalidate_pages rounds (page + 1) other (invalidate_page page s)
      (invalidate_page-IsValid s page v),
  known-invalidate_page s page other v,
)

invalidate_pages-IsValid :
    (rounds page : ℕ) (s : Shadow) → IsValid s → IsValid (invalidate_pages rounds page s)
unfolding invalidate_pages
invalidate_pages-IsValid zero page s v = v
invalidate_pages-IsValid (suc rounds) page s v =
    invalidate_pages-IsValid rounds (page + 1) (invalidate_page page s)
      (invalidate_page-IsValid s page v)

advance_epoch-IsValid : (s : Shadow) → IsValid s → IsValid (advance_epoch s)
unfolding advance_epoch
advance_epoch-IsValid s v = record {
  owned = λ p h. ground (arith, v.owned p);
  in_range = λ p h. ground (arith, v.in_range p);
  real = λ p h. ground (arith, v.real p);
  room = ground (arith, v.room);
  turn = λ on. ground (arith, v.turn);
  clock = ground (arith, v.clock);
}

known-advance_epoch : (s : Shadow) (page : ℕ) → known (advance_epoch s) page ≡ known s page
unfolding advance_epoch known
known-advance_epoch s page = ground arith

advance_page_bytes :
    (s : Shadow) → (advance_epoch s).page_bytes ≢ 0 → (advance_epoch s).page_bytes ≡ s.page_bytes
unfolding advance_epoch
advance_page_bytes s h = ground arith

div_mono : (a b k : ℕ) → a ≤ b → 0 < k → a / k ≤ b / k
div_mono a b k h p = (le-div_iff_mul-le p).1 (omega (arith, div-mul-le_self a k))

-- In a valid shadow that the new epoch leaves switched on, invalidating the bytes from `first` to
-- `last`, in order and with `first` in the physical memory, keeps it valid and forgets exactly
-- the pages with one of these bytes.
pub known-invalidate :
    (s : Shadow) (first last page : ℕ)
    → IsValid s
    → (advance_epoch s).page_bytes ≢ 0
    → first ≤ last
    → first < physical_bytes
    → IsValid (invalidate s first last)
      × (known (invalidate s first last) page ≡ (
          if leb (first / s.page_bytes) page
            && leb page (min last (physical_bytes - 1) / s.page_bytes)
          then none
          else known s page))
unfolding invalidate
known-invalidate s first last page v on h k =
    let t = advance_epoch s in
    let valid = advance_epoch-IsValid s v in
    let a = first / t.page_bytes in
    let b = min last (physical_bytes - 1) / t.page_bytes in
    let ordered =
      div_mono first (min last (physical_bytes - 1)) t.page_bytes (omega arith) (omega arith) in
    (
      ground (arith, invalidate_pages-IsValid (b + 1 - a) a t valid),
      ground (
        arith,
        advance_page_bytes s on,
        known-invalidate_pages (b + 1 - a) a page t valid,
        known-advance_epoch s page,
        ordered,
      ),
    )

-- The calls that change a shadow.
pub data Call : Type 0 where
  publishes : ℕ → List ℕ → ℕ → Call
  invalidates : ℕ → ℕ → Call
  resets : Call
  initializes : ℕ → ℕ → Bool → Call

unfoldable pub step : Shadow → Call → Shadow
step s (publishes address bytes captured) = (publish s address bytes captured).0
step s (invalidates first last) = invalidate s first last
step s resets = reset s
step s (initializes page_bytes capacity allocated) = (initialize s page_bytes capacity allocated).0

unfoldable pub run : Shadow → List Call → Shadow
run s [] = s
run s (c ∷ calls) = run (step s c) calls

-- Every call but a publication.
abbrev pub clears : Call → Bool
clears (publishes address bytes captured) = false
clears _ = true

-- No publication with the token `e` can be accepted any more.
abbrev Past : ℕ → Shadow → Type 0
Past e t = ((e < t.epoch) × (t.epoch ≤ max_epoch)) ⊎ ((t.epoch ≡ max_epoch) × (t.page_bytes ≡ 0))

abbrev SameClock : Shadow → Shadow → Type 0
SameClock t s = (t.epoch ≡ s.epoch) × (t.page_bytes ≡ s.page_bytes)

invalidate_pages-SameClock :
    (rounds page : ℕ) (s : Shadow) → SameClock (invalidate_pages rounds page s) s
unfolding invalidate_pages invalidate_page
invalidate_pages-SameClock zero page s = (refl, refl)
invalidate_pages-SameClock (suc rounds) page s =
    ground (arith, invalidate_pages-SameClock rounds (page + 1) (invalidate_page page s))

publish-SameClock :
    (s : Shadow) (address captured : ℕ) (bytes : List ℕ)
    → SameClock (publish s address bytes captured).0 s
unfolding publish publish_page store assign_slot
publish-SameClock s address captured bytes = ground arith

invalidate-clock :
    (s : Shadow) (first last : ℕ) → SameClock (invalidate s first last) (advance_epoch s)
unfolding invalidate
invalidate-clock s first last = ground (
  arith,
  invalidate_pages-SameClock
      (min last (physical_bytes - 1) / (advance_epoch s).page_bytes
        + 1
        - first / (advance_epoch s).page_bytes)
      (first / (advance_epoch s).page_bytes) (advance_epoch s),
)

clears-Past :
    (s : Shadow) (c : Call) (e : ℕ)
    → clears c ≡ true
    → e ≤ s.epoch
    → s.epoch ≤ max_epoch
    → Past e (step s c)
unfolding step advance_epoch reset initialize
clears-Past s (publishes address bytes captured) e h p q = cc
clears-Past s (invalidates first last) e h p q = ground (arith, invalidate-clock s first last)
clears-Past s resets e h p q = ground arith
clears-Past s (initializes page_bytes capacity allocated) e h p q = ground arith

step-Past : (s : Shadow) (c : Call) (e : ℕ) → Past e s → Past e (step s c)
unfolding step advance_epoch reset initialize
step-Past s (publishes address bytes captured) e h =
    ground (arith, publish-SameClock s address captured bytes)
step-Past s (invalidates first last) e h = ground (arith, invalidate-clock s first last)
step-Past s resets e h = ground arith
step-Past s (initializes page_bytes capacity allocated) e h = ground arith

run-Past : (s : Shadow) (calls : List Call) (e : ℕ) → Past e s → Past e (run s calls)
unfolding run
run-Past s [] e h = h
run-Past s (c ∷ calls) e h = run-Past (step s c) calls e (step-Past s c e h)

publish-Past :
    (s : Shadow) (address : ℕ) (bytes : List ℕ) (e : ℕ)
    → Past e s
    → publish s address bytes e ≡ (s, false)
unfolding publish get_page
publish-Past s address bytes e h = ground arith

-- A token taken, at an epoch of 64 bits, before an Invalidate, a Reset or an Initialize is
-- refused for ever after, whatever calls come later and even where the epoch runs out.
pub stale_token :
    (s : Shadow) (c : Call) (calls : List Call) (address : ℕ) (bytes : List ℕ)
    → clears c ≡ true
    → s.epoch ≤ max_epoch
    → let t = run (step s c) calls in publish t address bytes s.epoch ≡ (t, false)
stale_token s c calls address bytes h k =
    publish-Past (run (step s c) calls) address bytes s.epoch
      (run-Past (step s c) calls s.epoch (clears-Past s c s.epoch h (omega arith) k))
