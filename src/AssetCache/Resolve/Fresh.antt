-- ===== src/AssetCache/Resolve/Fresh.antt =====
-- The bindings of Resolve against guest memory: other threads write between its steps, and each write
-- is announced by an invalidation of its bytes.
use bolts_rebuilt.Prelude.{
  ℕ, zero, suc, ◌+◌, ◌^◌, ◌<◌, ◌≤◌, ◌≡◌, ◌⊎◌, inl, inr, refl, sym, ap, ◌∙◌, Bool, true, false, some,
  List, [], ◌∷◌, length, arith,
}
use bolts_rebuilt.AssetCache.Pack.{Pack}
use bolts_rebuilt.AssetCache.{slice}
use bolts_rebuilt.AssetCache.Resolve.{Binding, Mapping, Cache, version_of, invalidated}
use bolts_rebuilt.AssetCache.Resolve.Calls.{invalidate_all, key_of}
use bolts_rebuilt.AssetCache.Resolve.Versions.{
  AreOld, InGuest, AreAllApart, invalidate_all-same, invalidate_all-AreOld,
}
use bolts_rebuilt.AssetCache.Resolve.Stored.{prior, HasTable, Alike}

-- The bytes of a guest range.
abbrev pub read_guest : (ℕ → ℕ) → (base size : ℕ) → List ℕ
read_guest memory base zero = []
read_guest memory base (suc size) = memory base ∷ read_guest memory (base + 1) size

-- Writes that are announced by the invalidations: each changes no byte outside its range.
abbrev pub Wrote : (ℕ → ℕ) → List (ℕ × ℕ) → (ℕ → ℕ) → Type 0
Wrote m [] m' = (a : ℕ) → m a ≡ m' a
Wrote m ((first, last) ∷ ds) m' =
    (mid : ℕ → ℕ) × ((a : ℕ) → (a < first) ⊎ (last < a) → m a ≡ mid a) × Wrote mid ds m'

pub read_guest-eq :
    (m m' : ℕ → ℕ) (base size : ℕ)
    → ((a : ℕ) → base ≤ a → a < base + size → m a ≡ m' a)
    → read_guest m base size ≡ read_guest m' base size
read_guest-eq m m' base zero h = refl
read_guest-eq m m' base (suc size) h =
    let rest = read_guest-eq m m' (base + 1) size (λ a from to. h a (omega arith) (omega arith)) in
    rw (h base (omega arith) (omega arith), rest)

pub Wrote-apart :
    (m : ℕ → ℕ) (ds : List (ℕ × ℕ)) (m' : ℕ → ℕ) (base size : ℕ)
    → Wrote m ds m'
    → AreAllApart base size ds
    → (a : ℕ) → base ≤ a
    → a < base + size
    → m a ≡ m' a
Wrote-apart m [] m' base size w apart a from to = w a
Wrote-apart m ((first, last) ∷ ds) m' base size (mid, here, w) (p, apart) a from to =
    here a (p a from to) ∙ Wrote-apart mid ds m' base size w apart a from to

-- The binding of a range names asset bytes that are the guest's, if it is enabled.
abbrev pub Serves : Cache → (ℕ → ℕ) → (base size : ℕ) → Binding → Type 0
Serves c memory base size b =
    (b.enabled ≡ false)
    ⊎ (b.guest_base ≡ base)
      × (b.byte_length ≡ size)
      × (read_guest memory base size ≡ slice c.pack.bytes b.asset_offset size)

-- A mapping that would still be used serves its range.
abbrev pub IsFresh : Cache → (ℕ → ℕ) → (base size : ℕ) → Mapping → Type 0
IsFresh c memory base size m =
    (m.version ≤ c.sequence)
    × (m.version ≡ version_of c base size → Serves c memory base size m.binding)

-- The invariant of cache and memory.
pub record IsCoherent (c : Cache) (memory : ℕ → ℕ) : Type 0 where
  pub old : AreOld c
  pub table : HasTable c
  pub fresh :
      (legacy : Bool) (base size : ℕ) (m : Mapping)
      → InGuest base size
      → prior c legacy (key_of base size) ≡ some m
      → IsFresh c memory base size m

pub Serves-at :
    (c d : Cache) (m m' : ℕ → ℕ) (base size : ℕ) (b : Binding)
    → d.pack ≡ c.pack
    → read_guest m base size ≡ read_guest m' base size
    → Serves c m base size b
    → Serves d m' base size b
Serves-at c d m m' base size b pack guest (inl off) = inl off
Serves-at c d m m' base size b pack guest (inr (at_base, of_size, same)) = inr (
  at_base,
  of_size,
  sym guest ∙ (same ∙ ap (λ p. slice (Pack.bytes p) b.asset_offset size) (sym pack)),
)

-- Two caches that differ in counters and extents only.
abbrev pub Quiet : Cache → Cache → Type 0
Quiet c d = (d.mappings ≡ c.mappings) × (d.legacy_mappings ≡ c.legacy_mappings) × Alike c d

pub prior-Quiet :
    (c d : Cache) (mode : Bool) (key : ℕ)
    → d.mappings ≡ c.mappings
    → d.legacy_mappings ≡ c.legacy_mappings
    → prior d mode key ≡ prior c mode key
unfolding prior
prior-Quiet c d true key t l = rw l refl
prior-Quiet c d false key t l = rw t refl

pub version_of-Alike :
    (c d : Cache) (base size : ℕ)
    → d.page_versions ≡ c.page_versions
    → version_of d base size ≡ version_of c base size
unfolding version_of
version_of-Alike c d base size v = rw v refl

-- A cache that changed alike, with mappings that were there or serve their range.
pub IsCoherent-Alike :
    (c d : Cache) (memory : ℕ → ℕ)
    → IsCoherent c memory
    → Alike c d
    → HasTable d
    → ((mode : Bool) (base size : ℕ) (m : Mapping)
        → InGuest base size
        → prior d mode (key_of base size) ≡ some m
        → IsFresh c memory base size m)
    → IsCoherent d memory
IsCoherent-Alike c d memory v (pack, versions, sequence) table found = record {
  old = λ p. rw (versions, sequence) (v.old p);
  table = table;
  fresh = λ mode base size m inside at.
      let (before, serves) = found mode base size m inside at in
      (
        rw sequence before,
        (λ same.
            Serves-at c d memory memory base size m.binding pack refl
              (serves (same ∙ version_of-Alike c d base size versions))),
      );
}

pub IsCoherent-Quiet :
    (c d : Cache) (memory : ℕ → ℕ) → IsCoherent c memory → Quiet c d → IsCoherent d memory
IsCoherent-Quiet c d memory v (t, l, alike) =
    IsCoherent-Alike c d memory v alike (rw t v.table) (λ mode base size m inside at.
      v.fresh mode base size m inside (sym (prior-Quiet c d mode (key_of base size) t l) ∙ at))

invalidated-fields :
    (c : Cache) (first last : ℕ)
    → ((invalidated c first last).mappings ≡ c.mappings)
      × ((invalidated c first last).legacy_mappings ≡ c.legacy_mappings)
      × ((invalidated c first last).pack ≡ c.pack)
unfolding invalidated
invalidated-fields c first last = ground arith

pub invalidate_all-fields :
    (c : Cache) (ds : List (ℕ × ℕ))
    → ((invalidate_all c ds).mappings ≡ c.mappings)
      × ((invalidate_all c ds).legacy_mappings ≡ c.legacy_mappings)
      × ((invalidate_all c ds).pack ≡ c.pack)
unfolding invalidate_all
invalidate_all-fields c [] = (refl, refl, refl)
invalidate_all-fields c ((first, last) ∷ ds) =
    let (t, l, p) = invalidate_all-fields (invalidated c first last) ds in
    let (t', l', p') = invalidated-fields c first last in (t ∙ t', l ∙ l', p ∙ p')

-- Announced writes keep cache and memory coherent.
pub invalidate_all-IsCoherent :
    (c : Cache) (m : ℕ → ℕ) (ds : List (ℕ × ℕ)) (m' : ℕ → ℕ)
    → IsCoherent c m
    → Wrote m ds m'
    → c.sequence + length ds < 2 ^ 64
    → IsCoherent (invalidate_all c ds) m'
invalidate_all-IsCoherent c m ds m' v w below =
    let (old, up, near) = invalidate_all-AreOld c ds v.old below in
    let (t, l, p) = invalidate_all-fields c ds in
    record {
      old = old;
      table = rw t v.table;
      fresh = λ mode base size x inside at.
          let (before, serves) =
            v.fresh mode base size x inside
              (sym (prior-Quiet c (invalidate_all c ds) mode (key_of base size) t l) ∙ at) in
          (
            omega arith,
            (λ same.
                let (kept, apart) =
                  invalidate_all-same c ds base size x.version v.old below inside before same in
                Serves-at c (invalidate_all c ds) m m' base size x.binding p
                  (read_guest-eq m m' base size (Wrote-apart m ds m' base size w apart))
                  (serves kept)),
          );
    }
