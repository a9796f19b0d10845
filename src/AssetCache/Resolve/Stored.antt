-- ===== src/AssetCache/Resolve/Stored.antt =====
-- The two backends of the mappings as one map, and what storing and resetting do to it.
use bolts_rebuilt.Prelude.{
  ℕ, ◌≡◌, ◌⊎◌, inl, inr, refl, Bool, true, false, not, ◌&&◌, ◌||◌, Option, none, some, List, [],
  ◌∷◌, length, leb, ◌==◌, if◌then◌else◌, arith, Bool-cases,
}
use bolts_rebuilt.AssetTable.{Lookup, find}
use bolts_rebuilt.AssetTable.Contents.{IsValid, store-find, clear-find}
use bolts_rebuilt.AssetCache.{legacy_max_mappings}
use bolts_rebuilt.AssetCache.Resolve.{
  Mapping, Cache, capacity, probe_limit, generation_bits, legacy_find, legacy_store,
}
use bolts_rebuilt.AssetCache.Resolve.Calls.{store_result, reset_mappings}

-- The mapping of a key in the backend of a mode.
unfoldable pub prior : Cache → (legacy : Bool) → (key : ℕ) → Option Mapping
prior c true key = legacy_find key c.legacy_mappings
prior c false key = (find capacity probe_limit c.mappings key).value

abbrev pub HasTable : Cache → Type 0
HasTable c = IsValid capacity probe_limit generation_bits c.mappings

-- What Resolve does not change when it stores or resets.
abbrev pub Alike : Cache → Cache → Type 0
Alike c d = (d.pack ≡ c.pack) × (d.page_versions ≡ c.page_versions) × (d.sequence ≡ c.sequence)

legacy_find-store :
    (k key : ℕ) (m : Mapping) (ms : List (ℕ × Mapping))
    → legacy_find k (legacy_store key m ms) ≡ (if key == k then some m else legacy_find k ms)
unfolding legacy_find legacy_store
legacy_find-store k key m [] = refl
legacy_find-store k key m ((j, old) ∷ ms) = ground (arith, legacy_find-store k key m ms)

-- A mapping that is found after a store is the stored one or was found before.
abbrev Found : Cache → Cache → (legacy : Bool) → (k key : ℕ) → (m x : Mapping) → Type 0
Found c d legacy k key m x = ((k ≡ key) × (x ≡ m)) ⊎ (prior c legacy k ≡ some x)

legacy-Found :
    (c : Cache) (legacy : Bool) (k key : ℕ) (lookup : Lookup Mapping) (m x : Mapping)
    → prior (store_result c true key lookup m) legacy k ≡ some x
    → Found c (store_result c true key lookup m) legacy k key m x
unfolding store_result prior legacy_find
legacy-Found c true k key lookup m x h =
    elim (Bool-cases (leb legacy_max_mappings (length c.legacy_mappings))) [
      | inl full ↦ ground (arith, legacy_find-store k key m [])
      | inr room ↦ ground (arith, legacy_find-store k key m c.legacy_mappings)
    ]
legacy-Found c false k key lookup m x h = inr h

table-Found :
    (c : Cache) (legacy : Bool) (k key : ℕ) (m x : Mapping)
    → HasTable c
    → prior (store_result c false key (find capacity probe_limit c.mappings key) m) legacy k
      ≡ some x
    → Found c
        (store_result c false key (find capacity probe_limit c.mappings key) m)
        legacy
        k
        key
        m
        x
unfolding store_result prior
table-Found c true k key m x v h = inr h
table-Found c false k key m x v h =
    elim ((store-find capacity probe_limit generation_bits c.mappings key m k (omega arith) v).0) [
      | inl (refused, nowhere) ↦ ground (arith, refused)
      | inr (kept, found) ↦ ground (arith, found)
    ]

-- Storing the result of a lookup.
pub store_result-Found :
    (c : Cache) (mode legacy : Bool) (k key : ℕ) (m x : Mapping)
    → HasTable c
    → prior (store_result c mode key (find capacity probe_limit c.mappings key) m) legacy k ≡ some x
    → ((k ≡ key) × (x ≡ m)) ⊎ (prior c legacy k ≡ some x)
store_result-Found c true legacy k key m x v h =
    legacy-Found c legacy k key (find capacity probe_limit c.mappings key) m x h
store_result-Found c false legacy k key m x v h = table-Found c legacy k key m x v h

pub store_result-Alike :
    (c : Cache) (mode : Bool) (key : ℕ) (lookup : Lookup Mapping) (m : Mapping)
    → Alike c (store_result c mode key lookup m)
unfolding store_result
store_result-Alike c true key lookup m = (refl, refl, refl)
store_result-Alike c false key lookup m = (refl, refl, refl)

pub store_result-HasTable :
    (c : Cache) (mode : Bool) (key : ℕ) (m : Mapping)
    → HasTable c
    → HasTable (store_result c mode key (find capacity probe_limit c.mappings key) m)
unfolding store_result
store_result-HasTable c true key m v = v
store_result-HasTable c false key m v =
    (store-find capacity probe_limit generation_bits c.mappings key m key (omega arith) v).1

pub prior-empty :
    (c : Cache)
    → c.legacy_mappings ≡ []
    → ((key : ℕ) → (find capacity probe_limit c.mappings key).value ≡ none)
    → (mode : Bool) (key : ℕ) → prior c mode key ≡ none
unfolding prior legacy_find
prior-empty c none_left nothing true key = rw none_left refl
prior-empty c none_left nothing false key = nothing key

-- A reset forgets all mappings, or does nothing.
pub reset_mappings-cases :
    (c : Cache) (frame : ℕ) (legacy : Bool)
    → HasTable c
    → (reset_mappings c frame legacy ≡ c)
      ⊎ ((mode : Bool) (key : ℕ) → prior (reset_mappings c frame legacy) mode key ≡ none)
        × HasTable (reset_mappings c frame legacy)
        × Alike c (reset_mappings c frame legacy)
unfolding reset_mappings
reset_mappings-cases c frame legacy v =
    let same_mode = (c.legacy_mode && legacy) || (not c.legacy_mode && not legacy) in
    let cleared = λ (key : ℕ).
      clear-find capacity probe_limit generation_bits c.mappings key (omega arith) (omega arith)
        v in
    elim (Bool-cases (c.frame == frame && same_mode)) [
      | inl same ↦ inl (rw same)
      | inr new ↦
          rw new
            (inr (prior-empty _ refl (λ key. (cleared key).0), (cleared 0).1, (refl, refl, refl)))
    ]
