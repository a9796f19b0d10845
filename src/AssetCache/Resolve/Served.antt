-- ===== src/AssetCache/Resolve/Served.antt =====
-- Resolve against guest memory: what it answers is true of the memory at a moment of the call, and
-- cache and memory stay coherent.
use bolts_rebuilt.Prelude.{
  ℕ, ◌+◌, ◌^◌, ◌<◌, ◌≤◌, ◌≡◌, ◌⊎◌, inl, inr, refl, sym, ap, ◌∙◌, Bool, true, false, not, ◌&&◌,
  Option, none, some, List, ◌++◌, length, ltb, ◌==◌, if◌then◌else◌, arith, Bool-cases, ==_iff,
}
use mathlib.Core.Path.{subst}
use bolts_rebuilt.AssetTable.{find, Lookup}
use bolts_rebuilt.AssetCache.Resolve.{
  Binding, Mapping, Cache, capacity, probe_limit, version_of, match_candidate, legacy_find,
}
use bolts_rebuilt.AssetCache.Resolve.Calls.{
  invalidate_all, resolve, key_of, finish, take_snapshot, from_prior, store_result, is_servable,
  reset_mappings, binding_of, copy_range, probed,
}
use bolts_rebuilt.AssetCache.Resolve.Versions.{
  InGuest, invalidate_all-same, invalidate_all-AreOld, version_of-le,
}
use bolts_rebuilt.AssetCache.Resolve.Stored.{
  prior, store_result-Found, store_result-Alike, store_result-HasTable,
}
use bolts_rebuilt.AssetCache.Resolve.Fresh.{
  read_guest, Wrote, Serves, IsFresh, IsCoherent, Serves-at, Quiet, version_of-Alike,
  IsCoherent-Alike, IsCoherent-Quiet, invalidate_all-IsCoherent, invalidate_all-fields,
  read_guest-eq, Wrote-apart,
}
use bolts_rebuilt.AssetCache.Resolve.Matched.{
  matched-Serves, Wrote-append, AreAllApart-tail, key_of_injective, count_result-Quiet,
  count_cached-Quiet, count_growth-Quiet, reset_mappings-IsCoherent, is_servable-InGuest,
}

-- The writes of the other threads while Resolve runs: some before it copies, some behind.
module _ (m0 : ℕ → ℕ) (ds1 : List (ℕ × ℕ)) (m1 : ℕ → ℕ) (ds2 : List (ℕ × ℕ)) (m2 : ℕ → ℕ)
    (before_copy : Wrote m0 ds1 m1) (after_copy : Wrote m1 ds2 m2) where
  -- The binding serves the range at the start of the call, or at its end.
  abbrev pub Answers : Cache → (base size : ℕ) → Binding × Cache → Type 0
  Answers c base size (b, d) = IsCoherent d m2 × (Serves c m0 base size b ⊎ Serves c m2 base size b)

  during-IsCoherent :
      (c : Cache)
      → IsCoherent c m0
      → c.sequence + length (ds1 ++ ds2) < 2 ^ 64
      → IsCoherent (invalidate_all c (ds1 ++ ds2)) m2
  during-IsCoherent c v below =
      invalidate_all-IsCoherent c m0 (ds1 ++ ds2) m2 v
        (Wrote-append m0 ds1 m1 ds2 m2 before_copy after_copy) below

  -- The store of a result that serves its range.
  stored-IsCoherent :
      (d : Cache) (base size before : ℕ) (legacy : Bool) (b : Binding) (lookup : Lookup Mapping)
      → lookup ≡ find capacity probe_limit d.mappings (key_of base size)
      → IsCoherent d m2
      → InGuest base size
      → before ≤ d.sequence
      → Serves d m2 base size b
      → IsCoherent
          (store_result d legacy
            (key_of base size)
            lookup
            (record { version = before; binding = b }))
          m2
  stored-IsCoherent d base size before legacy b lookup is_lookup v inside known serves =
      let key = key_of base size in
      let m : Mapping = record { version = before; binding = b } in
      let Stores : Lookup Mapping → Type 0 = λ l. IsCoherent (store_result d legacy key l m) m2 in
      let lookup = find capacity probe_limit d.mappings key in
      subst Stores (sym is_lookup) (
        IsCoherent-Alike d (store_result d legacy key lookup m) m2 v
          (store_result-Alike d legacy key lookup m) (store_result-HasTable d legacy key m v.table)
          (λ mode base' size' x inside' at.
            elim (store_result-Found d legacy mode (key_of base' size') key m x v.table at) [
              | inl (same, is_m) ↦
                  let (at_base, of_size) =
                    key_of_injective base' size' base size inside' inside same in
                  subst (IsFresh d m2 base' size') (sym is_m)
                    (known, λ e. rw (at_base, of_size) serves)
              | inr earlier ↦ v.fresh mode base' size' x inside' earlier
            ]))

  finish-Answers :
      (c : Cache) (base size : ℕ) (legacy : Bool) (lookup : Lookup Mapping) (before : ℕ)
      → lookup ≡ find capacity probe_limit c.mappings (key_of base size)
      → before ≡ version_of c base size
      → IsCoherent c m0
      → c.sequence + length (ds1 ++ ds2) < 2 ^ 64
      → InGuest base size
      → Answers c base size
          (finish c base size legacy lookup before (read_guest m1 base size) (ds1 ++ ds2))
  unfolding finish
  finish-Answers c base size legacy lookup before is_lookup is_before v below inside =
      let key = key_of base size in
      let d = invalidate_all c (ds1 ++ ds2) in
      let b =
        binding_of base size
          (match_candidate c.pack.bytes c.pack.entries (read_guest m1 base size)) in
      let coherent = during-IsCoherent c v below in
      let (t, l, p) = invalidate_all-fields c (ds1 ++ ds2) in
      let (old, up, near) = invalidate_all-AreOld c (ds1 ++ ds2) v.old below in
      elim (Bool-cases (before == version_of d base size)) [
        | inr raced ↦
            rw raced
              (IsCoherent-Quiet d _ m2 coherent (refl, refl, (refl, refl, refl)), inr (inl refl))
        | inl still ↦
            let known : before ≤ c.sequence = rw is_before (version_of-le c base size v.old) in
            let (kept, apart) =
              invalidate_all-same c (ds1 ++ ds2) base size before v.old below inside known
                ((==_iff _ _).0 still) in
            let unchanged : read_guest m1 base size ≡ read_guest m2 base size =
              read_guest-eq m1 m2 base size (
                Wrote-apart m1 ds2 m2 base size after_copy
                  (AreAllApart-tail base size ds1 ds2 apart)) in
            let now : Serves d m2 base size b =
              Serves-at c d m1 m2 base size b p unchanged (matched-Serves c m1 base size) in
            let stored =
              stored-IsCoherent d base size before legacy b lookup
                (is_lookup ∙ ap (λ t. find capacity probe_limit t key) (sym t)) coherent inside
                (omega arith) now in
            let served = Serves-at d c m2 m2 base size b (sym p) refl now in
            rw still (IsCoherent-Quiet _ _ m2 stored (count_result-Quiet b.enabled _), inr served)
      ]

  -- A call that ends early leaves its counters, and the writes behind it.
  Quiet-IsCoherent :
      (c d : Cache)
      → IsCoherent c m0
      → c.sequence + length (ds1 ++ ds2) < 2 ^ 64
      → Quiet c d
      → IsCoherent (invalidate_all d (ds1 ++ ds2)) m2
  Quiet-IsCoherent c d v below q =
      during-IsCoherent d (IsCoherent-Quiet c d m0 v q) (rw (q.2.2) below)

  -- What CopyCpuAuthoritativeRange gives: nothing, or the bytes of memory at that moment.
  abbrev pub Copied : (base size : ℕ) → Option (List ℕ) → Type 0
  Copied base size copied = (copied ≡ none) ⊎ (copied ≡ some (read_guest m1 base size))

  -- The answers speak of the pack alone.
  Answers-pack :
      (c d : Cache) (base size : ℕ) (r : Binding × Cache)
      → d.pack ≡ c.pack
      → Answers d base size r
      → Answers c base size r
  Answers-pack c d base size (b, e) p (v, inl early) =
      (v, inl (Serves-at d c m0 m0 base size b (sym p) refl early))
  Answers-pack c d base size (b, e) p (v, inr late) =
      (v, inr (Serves-at d c m2 m2 base size b (sym p) refl late))

  copy_range-Answers :
      (c d : Cache) (base size : ℕ) (legacy : Bool) (copied : Option (List ℕ))
      → IsCoherent c m0
      → c.sequence + length (ds1 ++ ds2) < 2 ^ 64
      → InGuest base size
      → Copied base size copied
      → Quiet c d
      → Answers c base size (
          copy_range d base size legacy
            (find capacity probe_limit c.mappings (key_of base size))
            (version_of c base size)
            copied
            (ds1 ++ ds2))
  unfolding copy_range
  copy_range-Answers c d base size legacy none v below inside got q =
      (Quiet-IsCoherent c _ v below q, inl (inl refl))
  copy_range-Answers c d base size legacy (some snapshot) v below inside (inl got) q = cc
  copy_range-Answers c d base size legacy (some snapshot) v below inside (inr got) q =
      let counted : Cache = record d {
        counters = record d.counters { snapshot_bytes = d.counters.snapshot_bytes + size };
      } in
      let same : snapshot ≡ read_guest m1 base size = cc in
      let key = key_of base size in
      let is_lookup : find capacity probe_limit c.mappings key
          ≡ find capacity probe_limit d.mappings key =
        ap (λ t. find capacity probe_limit t key) (sym q.0) in
      let is_before = sym (version_of-Alike c counted base size q.2.1) in
      rw same (
        Answers-pack c counted base size _ (q.2.0) (
          finish-Answers counted base size legacy (find capacity probe_limit c.mappings key)
            (version_of c base size) is_lookup is_before (IsCoherent-Quiet c counted m0 v q)
            (rw (q.2.2) below) inside))

  take_snapshot-Answers :
      (c : Cache) (base size : ℕ) (legacy grows : Bool) (copied : Option (List ℕ))
      → IsCoherent c m0
      → c.sequence + length (ds1 ++ ds2) < 2 ^ 64
      → InGuest base size
      → Copied base size copied
      → Answers c base size (
          take_snapshot c base size legacy grows
            (find capacity probe_limit c.mappings (key_of base size))
            (version_of c base size)
            copied
            (ds1 ++ ds2))
  unfolding take_snapshot
  take_snapshot-Answers c base size legacy grows copied v below inside got =
      let larger = ltb c.snapshot_extent size in
      let q = count_growth-Quiet larger c size in
      elim (Bool-cases (larger && not grows)) [
        | inl no_memory ↦ rw no_memory (Quiet-IsCoherent c _ v below q, inl (inl refl))
        | inr enough ↦
            rw enough (copy_range-Answers c _ base size legacy copied v below inside got q)
      ]

  from_prior-Answers :
      (c : Cache) (base size : ℕ) (legacy grows : Bool) (p : Option Mapping)
      (copied : Option (List ℕ))
      → prior c legacy (key_of base size) ≡ p
      → IsCoherent c m0
      → c.sequence + length (ds1 ++ ds2) < 2 ^ 64
      → InGuest base size
      → Copied base size copied
      → Answers c base size (
          from_prior c base size legacy grows
            (find capacity probe_limit c.mappings (key_of base size))
            (version_of c base size)
            p
            copied
            (ds1 ++ ds2))
  unfolding from_prior
  from_prior-Answers c base size legacy grows none copied at v below inside got =
      take_snapshot-Answers c base size legacy grows copied v below inside got
  from_prior-Answers c base size legacy grows (some m) copied at v below inside got =
      elim (Bool-cases (m.version == version_of c base size)) [
        | inl current ↦
            let served = (v.fresh legacy base size m inside at).1 ((==_iff _ _).0 current) in
            rw current
              (Quiet-IsCoherent c _ v below (count_cached-Quiet m.binding.enabled c), inl served)
        | inr stale ↦
            rw stale (take_snapshot-Answers c base size legacy grows copied v below inside got)
      ]

  mode-Answers :
      (c : Cache) (base size : ℕ) (legacy grows : Bool) (copied : Option (List ℕ))
      → IsCoherent c m0
      → c.sequence + length (ds1 ++ ds2) < 2 ^ 64
      → InGuest base size
      → Copied base size copied
      → let key = key_of base size in
        let lookup = find capacity probe_limit c.mappings key in
        let before = version_of c base size in
        Answers c base size (
          if legacy
          then from_prior c base size legacy grows lookup before
              (legacy_find key c.legacy_mappings)
              copied
              (ds1 ++ ds2)
          else from_prior
              (probed c lookup)
              base
              size
              legacy
              grows
              lookup
              before
              lookup.value
              copied
              (ds1 ++ ds2))
  unfolding prior
  mode-Answers c base size true grows copied v below inside got =
      from_prior-Answers c base size true grows _ copied refl v below inside got
  mode-Answers c base size false grows copied v below inside got =
      let lookup = find capacity probe_limit c.mappings (key_of base size) in
      let q : Quiet c (probed c lookup) = (refl, refl, (refl, refl, refl)) in
      let same = version_of-Alike c (probed c lookup) base size refl in
      Answers-pack c (probed c lookup) base size _ refl (
        rw (← same) (
          from_prior-Answers (probed c lookup) base size false grows lookup.value copied refl
            (IsCoherent-Quiet c (probed c lookup) m0 v q) below inside got))

  -- Whatever the mode, a resolution of a range whose copied bytes are the guest's leaves the cache
  -- coherent and answers nothing or the bytes of the range.
  pub resolve-Answers :
      (c : Cache) (base size frame : ℕ) (legacy grows : Bool) (copied : Option (List ℕ))
      → IsCoherent c m0
      → c.sequence + length (ds1 ++ ds2) < 2 ^ 64
      → Copied base size copied
      → Answers c base size (resolve c base size frame legacy grows copied (ds1 ++ ds2))
  unfolding resolve
  resolve-Answers c base size frame legacy grows copied v below got =
      let counted : Cache = record c {
        counters = record c.counters { resolves = c.counters.resolves + 1 };
      } in
      let v' : IsCoherent counted m0 =
        IsCoherent-Quiet c counted m0 v (refl, refl, (refl, refl, refl)) in
      let ready = reset_mappings counted frame legacy in
      let key = key_of base size in
      let (w, alike) = reset_mappings-IsCoherent counted m0 frame legacy v' in
      let below' : ready.sequence + length (ds1 ++ ds2) < 2 ^ 64 = rw (alike.2) below in
      elim (Bool-cases (is_servable c base size)) [
        | inr no_range ↦
            rw no_range
              (Quiet-IsCoherent c _ v below (refl, refl, (refl, refl, refl)), inl (inl refl))
        | inl range ↦
            let inside = is_servable-InGuest c base size range in
            rw range (
              Answers-pack c ready base size _ (alike.0)
                (mode-Answers ready base size legacy grows copied w below' inside got))
      ]
