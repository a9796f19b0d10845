-- ===== src/AssetCache/Resolve/Matched.antt =====
-- The parts of Resolve against guest memory: a comparison serves its range, the counters do not
-- matter, and the reset at a new frame leaves nothing stale.
use bolts_rebuilt.Prelude.{
  ℕ, zero, suc, ◌+◌, ◌≡◌, inl, inr, refl, sym, ap, ◌∙◌, Bool, true, false, some, List, [], ◌∷◌,
  ◌++◌, length, arith, Option-cases, same_words_iff,
}
use mathlib.Core.Path.{subst}
use bolts_rebuilt.AssetCache.{Entry, slice}
use bolts_rebuilt.AssetCache.Resolve.{Cache, match_candidate}
use bolts_rebuilt.AssetCache.Resolve.Calls.{
  key_of, is_servable, reset_mappings, binding_of, count_result, count_cached, count_growth,
}
use bolts_rebuilt.AssetCache.Resolve.Versions.{InGuest, AreAllApart}
use bolts_rebuilt.AssetCache.Resolve.Stored.{Alike, reset_mappings-cases}
use bolts_rebuilt.AssetCache.Resolve.Fresh.{
  read_guest, Wrote, Serves, IsCoherent, Quiet, IsCoherent-Alike,
}

length-read_guest : (m : ℕ → ℕ) (base size : ℕ) → length (read_guest m base size) ≡ size
length-read_guest m base zero = refl
length-read_guest m base (suc size) = ap suc (length-read_guest m (base + 1) size)

match_candidate-eq :
    (bytes : List ℕ) (entries : List Entry) (snapshot : List ℕ) (e : Entry)
    → match_candidate bytes entries snapshot ≡ some e
    → snapshot ≡ slice bytes e.offset (length snapshot)
unfolding match_candidate
match_candidate-eq bytes [] snapshot e h = cc
match_candidate-eq bytes (x ∷ entries) snapshot e h = ground (
  arith,
  match_candidate-eq bytes entries snapshot e,
  same_words_iff snapshot (slice bytes x.offset (length snapshot)),
)

-- The result of a comparison serves the range from which the snapshot was taken.
pub matched-Serves :
    (c : Cache) (m : ℕ → ℕ) (base size : ℕ)
    → Serves c m base size (
        binding_of base size (match_candidate c.pack.bytes c.pack.entries (read_guest m base size)))
matched-Serves c m base size =
    let snapshot = read_guest m base size in
    elim (Option-cases (match_candidate c.pack.bytes c.pack.entries snapshot)) [
      | inl nothing ↦ rw (nothing, binding_of) (inl refl)
      | inr (e, found) ↦
          rw (found, binding_of)
            (inr (
              refl,
              refl,
              match_candidate-eq c.pack.bytes c.pack.entries snapshot e found
                  ∙ ap (slice c.pack.bytes e.offset) (length-read_guest m base size),
            ))
    ]

Wrote-from :
    (m m' : ℕ → ℕ) (ds : List (ℕ × ℕ)) (m'' : ℕ → ℕ)
    → ((a : ℕ) → m a ≡ m' a)
    → Wrote m' ds m''
    → Wrote m ds m''
Wrote-from m m' [] m'' e w = λ a. e a ∙ w a
Wrote-from m m' ((first, last) ∷ ds) m'' e (mid, here, w) = (mid, (λ a out. e a ∙ here a out), w)

pub Wrote-append :
    (m : ℕ → ℕ) (ds : List (ℕ × ℕ)) (m' : ℕ → ℕ) (ds' : List (ℕ × ℕ)) (m'' : ℕ → ℕ)
    → Wrote m ds m'
    → Wrote m' ds' m''
    → Wrote m (ds ++ ds') m''
Wrote-append m [] m' ds' m'' w w' = Wrote-from m m' ds' m'' w w'
Wrote-append m ((first, last) ∷ ds) m' ds' m'' (mid, here, w) w' =
    (mid, here, Wrote-append mid ds m' ds' m'' w w')

pub AreAllApart-tail :
    (base size : ℕ) (ds ds' : List (ℕ × ℕ))
    → AreAllApart base size (ds ++ ds')
    → AreAllApart base size ds'
AreAllApart-tail base size [] ds' h = h
AreAllApart-tail base size (d ∷ ds) ds' (here, h) = AreAllApart-tail base size ds ds' h

pub key_of_injective :
    (base size base' size' : ℕ)
    → InGuest base size
    → InGuest base' size'
    → key_of base size ≡ key_of base' size'
    → (base ≡ base') × (size ≡ size')
key_of_injective base size base' size' inside inside' h = omega arith

pub count_result-Quiet : (enabled : Bool) (c : Cache) → Quiet c (count_result enabled c)
count_result-Quiet false c = (refl, refl, (refl, refl, refl))
count_result-Quiet true c = (refl, refl, (refl, refl, refl))

pub count_cached-Quiet : (enabled : Bool) (c : Cache) → Quiet c (count_cached enabled c)
count_cached-Quiet false c = (refl, refl, (refl, refl, refl))
count_cached-Quiet true c = (refl, refl, (refl, refl, refl))

pub count_growth-Quiet :
    (larger : Bool) (c : Cache) (size : ℕ) → Quiet c (count_growth larger c size)
count_growth-Quiet false c size = (refl, refl, (refl, refl, refl))
count_growth-Quiet true c size = (refl, refl, (refl, refl, refl))

pub reset_mappings-IsCoherent :
    (c : Cache) (m0 : ℕ → ℕ) (frame : ℕ) (legacy : Bool)
    → IsCoherent c m0
    → IsCoherent (reset_mappings c frame legacy) m0 × Alike c (reset_mappings c frame legacy)
reset_mappings-IsCoherent c m0 frame legacy v = elim (reset_mappings-cases c frame legacy v.table) [
  | inl same ↦ subst (λ d. IsCoherent d m0 × Alike c d) (sym same) (v, (refl, refl, refl))
  | inr (nothing, table, alike) ↦ (
    IsCoherent-Alike c (reset_mappings c frame legacy) m0 v alike table
        (λ mode base size m inside at. cc (nothing mode (key_of base size))),
    alike,
  )
]

pub is_servable-InGuest :
    (c : Cache) (base size : ℕ) → is_servable c base size ≡ true → InGuest base size
unfolding is_servable
is_servable-InGuest c base size h = ground arith
