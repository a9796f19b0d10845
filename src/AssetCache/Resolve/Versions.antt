-- ===== src/AssetCache/Resolve/Versions.antt =====
-- The versions of a range: an invalidation that meets it makes its version the newest, any other one
-- leaves it and the guest bytes of the range alone.
use bolts_rebuilt.Prelude.{
  ℕ, zero, suc, ◌+◌, ◌-◌, ◌%◌, ◌^◌, ◌<◌, ◌≤◌, ◌≡◌, ◌⊎◌, inl, inr, refl, ◌∙◌, min, max, ◌&&◌, ◌||◌,
  List, [], ◌∷◌, length, leb, ltb, if◌then◌else◌, arith, Bool-cases,
}
use bolts_rebuilt.Prelude.Bits.Words.{shr}
use bolts_rebuilt.AssetCache.{physical_bytes, page_shift}
use bolts_rebuilt.AssetCache.Resolve.{Cache, invalidated, max_version, version_of}
use bolts_rebuilt.AssetCache.Resolve.Calls.{invalidate_all}

-- The versions with those of the pages lo .. hi set.
abbrev raised : (ℕ → ℕ) → (lo hi version page : ℕ) → ℕ
raised versions lo hi version page = if leb lo page && leb page hi then version else versions page

max_version-le :
    (versions : ℕ → ℕ) (bound count page v : ℕ)
    → ((p : ℕ) → versions p ≤ bound)
    → v ≤ bound
    → max_version versions count page v ≤ bound
unfolding max_version
max_version-le versions bound zero page v h hv = hv
max_version-le versions bound (suc count) page v h hv =
    max_version-le versions bound count (page + 1) (max v (versions page)) h (omega (arith, h page))

max_version-apart :
    (versions : ℕ → ℕ) (lo hi w count page v : ℕ)
    → (page + count ≤ lo) ⊎ (hi < page)
    → max_version (raised versions lo hi w) count page v ≡ max_version versions count page v
unfolding max_version
max_version-apart versions lo hi w zero page v h = refl
max_version-apart versions lo hi w (suc count) page v h =
    let same : raised versions lo hi w page ≡ versions page = ground arith in
    let next : (page + 1 + count ≤ lo) ⊎ (hi < page + 1) = ground arith in
    rw same (max_version-apart versions lo hi w count (page + 1) (max v (versions page)) next)

raised-le :
    (versions : ℕ → ℕ) (lo hi w : ℕ)
    → ((p : ℕ) → versions p ≤ w)
    → (p : ℕ) → raised versions lo hi w p ≤ w
raised-le versions lo hi w h p = ground (arith, h p)

max_version-ge : (versions : ℕ → ℕ) (count page v : ℕ) → v ≤ max_version versions count page v
unfolding max_version
max_version-ge versions zero page v = omega arith
max_version-ge versions (suc count) page v =
    omega (arith, max_version-ge versions count (page + 1) (max v (versions page)))

max_version-met :
    (versions : ℕ → ℕ) (lo hi w count page v : ℕ)
    → ((p : ℕ) → versions p ≤ w)
    → v ≤ w
    → lo ≤ hi
    → lo < page + count
    → page ≤ hi
    → 1 ≤ count
    → max_version (raised versions lo hi w) count page v ≡ w
unfolding max_version
max_version-met versions lo hi w zero page v h hv order from to some_page = absurd (omega arith)
max_version-met versions lo hi w (suc count) page v h hv order from to some_page =
    elim (Bool-cases (leb lo page)) [
      | inl here ↦
          let new : raised versions lo hi w page ≡ w = ground arith in
          rw new (
            omega (
              arith,
              max_version-ge (raised versions lo hi w) count (page + 1) (max v w),
              max_version-le (raised versions lo hi w) w count (page + 1) (max v w)
                  (raised-le versions lo hi w h) (omega arith),
            ))
      | inr later ↦
          max_version-met versions lo hi w count (page + 1) (max v (raised versions lo hi w page)) h
            (omega (arith, hv, raised-le versions lo hi w h page)) order (ground arith)
            (ground arith) (ground arith)
    ]

-- No page is newer than the sequence.
abbrev pub AreOld : Cache → Type 0
AreOld c = (p : ℕ) → c.page_versions p ≤ c.sequence

abbrev pub InGuest : (base size : ℕ) → Type 0
InGuest base size = (1 ≤ size) × (base + size ≤ physical_bytes)

-- No byte of the range lies in first .. last.
abbrev pub AreApart : (base size first last : ℕ) → Type 0
AreApart base size first last = (a : ℕ) → base ≤ a → a < base + size → (a < first) ⊎ (last < a)

-- What an invalidation does to the version of a range.
abbrev Outcome : (c d : Cache) → (base size first last : ℕ) → Type 0
Outcome c d base size first last =
    (version_of d base size ≡ c.sequence + 1)
    ⊎ (version_of d base size ≡ version_of c base size) × AreApart base size first last

invalidated-Outcome :
    (c : Cache) (first last base size : ℕ)
    → AreOld c
    → c.sequence + 1 < 2 ^ 64
    → InGuest base size
    → Outcome c (invalidated c first last) base size first last
unfolding invalidated version_of
invalidated-Outcome c first last base size old below (some_byte, within) =
    elim (Bool-cases (leb physical_bytes first || ltb last first)) [
      | inl nothing ↦ rw nothing (inr (refl, λ a from to. ground arith))
      | inr meets ↦
          let lo = shr first page_shift in
          let end = min last (physical_bytes - 1) in
          let hi = shr end page_shift in
          let page = shr base page_shift in
          let count = shr (base + size - 1) page_shift + 1 - page in
          let w : (c.sequence + 1) % 2 ^ 64 ≡ c.sequence + 1 = omega arith in
          let order : lo ≤ hi = ground arith in
          rw (meets, w)
            (elim (Bool-cases (leb (page + count) lo || ltb hi page)) [
              | inl apart ↦ inr (
                max_version-apart c.page_versions lo hi (c.sequence + 1) count page 0
                    (ground arith),
                λ a from to. ground arith,
              )
              | inr met ↦ inl (
                  max_version-met c.page_versions lo hi (c.sequence + 1) count page 0
                    (λ p. omega (arith, old p)) (omega arith) order (ground arith) (ground arith)
                    (omega arith))
            ])
    ]

invalidated-AreOld :
    (c : Cache) (first last : ℕ)
    → AreOld c
    → c.sequence + 1 < 2 ^ 64
    → AreOld (invalidated c first last)
      × (c.sequence ≤ (invalidated c first last).sequence)
      × ((invalidated c first last).sequence ≤ c.sequence + 1)
unfolding invalidated
invalidated-AreOld c first last old below =
    ((λ p. ground (arith, old p)), ground arith, ground arith)

pub invalidate_all-AreOld :
    (c : Cache) (ds : List (ℕ × ℕ))
    → AreOld c
    → c.sequence + length ds < 2 ^ 64
    → AreOld (invalidate_all c ds)
      × (c.sequence ≤ (invalidate_all c ds).sequence)
      × ((invalidate_all c ds).sequence ≤ c.sequence + length ds)
unfolding invalidate_all
invalidate_all-AreOld c [] old below = (old, omega arith, omega arith)
invalidate_all-AreOld c ((first, last) ∷ ds) old below =
    let (old', up, near) = invalidated-AreOld c first last old (omega arith) in
    let (last_old, grows, bound) =
      invalidate_all-AreOld (invalidated c first last) ds old' (omega arith) in
    (last_old, omega arith, omega arith)

pub version_of-le : (c : Cache) (base size : ℕ) → AreOld c → version_of c base size ≤ c.sequence
unfolding version_of
version_of-le c base size old =
    max_version-le c.page_versions c.sequence
      (shr (base + size - 1) page_shift + 1 - shr base page_shift) (shr base page_shift) 0 old
      (omega arith)

-- All ranges leave the guest range alone.
abbrev pub AreAllApart : (base size : ℕ) → List (ℕ × ℕ) → Type 0
AreAllApart base size [] = Unit {0}
AreAllApart base size ((first, last) ∷ ds) =
    AreApart base size first last × AreAllApart base size ds

-- A version that was there before the invalidations, and is the version of the range behind them, was
-- its version before, and none of them met the range.
pub invalidate_all-same :
    (c : Cache) (ds : List (ℕ × ℕ)) (base size v : ℕ)
    → AreOld c
    → c.sequence + length ds < 2 ^ 64
    → InGuest base size
    → v ≤ c.sequence
    → v ≡ version_of (invalidate_all c ds) base size
    → (v ≡ version_of c base size) × AreAllApart base size ds
unfolding invalidate_all
invalidate_all-same c [] base size v old below inside h e = (e, tt)
invalidate_all-same c ((first, last) ∷ ds) base size v old below inside h e =
    let (old', up, near) = invalidated-AreOld c first last old (omega arith) in
    let (same, apart) =
      invalidate_all-same (invalidated c first last) ds base size v old' (omega arith) inside
        (omega arith) e in
    elim (invalidated-Outcome c first last base size old (omega arith) inside) [
      | inl newest ↦ absurd (omega arith)
      | inr (kept, here) ↦ (same ∙ kept, (here, apart))
    ]
