-- ===== src/AssetTable/Probe.antt =====
-- The path that Find probes for a key, and one cell written on it.
use bolts_rebuilt.Prelude.{
  if◌then◌else◌, not, ◌+◌, ℕ, zero, suc, ◌-◌, ◌<◌, ◌≡◌, ◌≢◌, ◌⊎◌, inl, inr, refl, Bool, true, false,
  ◌&&◌, ◌||◌, Bool-cases, none, some, update, ◌==◌, bit_and, arith,
}
use bolts_rebuilt.Prelude.Bits.{bit_and-le}
use bolts_rebuilt.Prelude.Bits.Masks.{bit_and_comm}
use bolts_rebuilt.AssetTable.{Table, Lookup, probe}

abbrev pub is_live : {V : Type 0} → Table V → ℕ → Bool
is_live table slot = (table.cells slot).generation == table.generation

abbrev pub holds : {V : Type 0} → Table V → ℕ → ℕ → Bool
holds table key slot = is_live table slot && (table.cells slot).key == key

abbrev pub written : {V : Type 0} → Table V → ℕ → ℕ → V → Table V
written table slot key value = record table {
  size = if not (is_live table slot) then table.size + 1 else table.size;
  cells =
      update table.cells slot (record { key = key; value = value; generation = table.generation });
}

module _ (capacity : ℕ) where
  abbrev next : ℕ → ℕ
  next slot = bit_and (slot + 1) (capacity - 1)

  pub masked_lt : (x : ℕ) → 0 < capacity → bit_and x (capacity - 1) < capacity
  masked_lt x some_cell =
      rw (bit_and_comm x (capacity - 1)) (omega (arith, bit_and-le (capacity - 1) x))

module _ {V : Type 0} (capacity : ℕ) where
  -- No cell of the path holds the key.
  pub IsAbsent : Table V → ℕ → ℕ → ℕ → Type 0
  IsAbsent table key zero slot = Unit
  IsAbsent table key (suc steps) slot =
      (holds table key slot ≡ false) × IsAbsent table key steps (next capacity slot)

  -- The key is in no cell of the path that comes after a stale one, or after one that holds it.
  pub IsPlaced : Table V → ℕ → ℕ → ℕ → Type 0
  IsPlaced table key zero slot = Unit
  IsPlaced table key (suc steps) slot =
      (is_live table slot ≡ false) × IsAbsent table key steps (next capacity slot)
      ⊎ (holds table key slot ≡ true)
      ⊎ (is_live table slot ≡ true) × IsPlaced table key steps (next capacity slot)

  pub IsAbsent-IsPlaced :
      (table : Table V) (key steps slot : ℕ)
      → IsAbsent table key steps slot
      → IsPlaced table key steps slot
  unfolding IsAbsent IsPlaced
  IsAbsent-IsPlaced table key zero slot absent = tt
  IsAbsent-IsPlaced table key (suc steps) slot (here, later) =
      elim (Bool-cases (is_live table slot)) [
        | inl live ↦ inr (inr (live, IsAbsent-IsPlaced table key steps (next capacity slot) later))
        | inr stale ↦ inl (stale, later)
      ]

  pub IsAbsent-written :
      (table : Table V) (key steps slot at other : ℕ) (value : V)
      → other ≢ key
      → IsAbsent table key steps slot
      → IsAbsent (written table at other value) key steps slot
  unfolding IsAbsent
  IsAbsent-written table key zero slot at other value h absent = tt
  IsAbsent-written table key (suc steps) slot at other value h (here, later) =
      (ground arith, IsAbsent-written table key steps (next capacity slot) at other value h later)

  pub IsPlaced-written :
      (table : Table V) (key steps slot at other : ℕ) (value : V)
      → other ≢ key
      → holds table key at ≡ false
      → IsPlaced table key steps slot
      → IsPlaced (written table at other value) key steps slot
  unfolding IsPlaced
  IsPlaced-written table key zero slot at other value h free placed = tt
  IsPlaced-written table key (suc steps) slot at other value h free (inl (stale, later)) =
      let later' = IsAbsent-written table key steps (next capacity slot) at other value h later in
      elim (Bool-cases (at == slot)) [
        | inl same ↦ inr (
            inr (
              ground arith,
              IsAbsent-IsPlaced (written table at other value) key steps (next capacity slot)
                  later',
            ))
        | inr differ ↦ inl (ground arith, later')
      ]
  IsPlaced-written table key (suc steps) slot at other value h free (inr (inl held)) =
      inr (inl (ground arith))
  IsPlaced-written table key (suc steps) slot at other value h free (inr (inr (live, later))) =
      inr (
        inr (
          ground arith,
          IsPlaced-written table key steps (next capacity slot) at other value h free later,
        ))

  pub IsAbsent-probe :
      (table : Table V) (steps slot : ℕ) (result : Lookup V)
      → IsAbsent table result.key steps slot
      → (probe capacity table steps slot result).value ≡ result.value
  unfolding IsAbsent probe
  IsAbsent-probe table zero slot result absent = refl
  IsAbsent-probe table (suc steps) slot result (here, later) =
      let rest =
        IsAbsent-probe table steps (next capacity slot)
          (record result { probes = result.probes + 1 }) later in
      ground (arith, rest)

  -- Writing another key where the key is not held changes nothing for the key.
  pub probe-written_ne :
      (table : Table V) (steps slot : ℕ) (result : Lookup V) (at other : ℕ) (value : V)
      → other ≢ result.key
      → holds table result.key at ≡ false
      → IsPlaced table result.key steps slot
      → (probe capacity (written table at other value) steps slot result).value
        ≡ (probe capacity table steps slot result).value
  unfolding IsPlaced probe
  probe-written_ne table zero slot result at other value h free placed = refl
  probe-written_ne table (suc steps) slot result at other value h free (inl (stale, later)) =
      let rest =
        IsAbsent-probe (written table at other value) steps (next capacity slot)
          (record result { probes = result.probes + 1 })
          (IsAbsent-written table result.key steps (next capacity slot) at other value h later) in
      ground (arith, rest)
  probe-written_ne table (suc steps) slot result at other value h free (inr (inl held)) =
      ground arith
  probe-written_ne table (suc steps) slot result at other value h free (inr (inr (live, later))) =
      let rest =
        probe-written_ne table steps (next capacity slot)
          (record result { probes = result.probes + 1 }) at other value h free later in
      ground (arith, rest)

  -- Where a probe stopped: at no cell, when it ran out of steps, else at a stale cell or at one that
  -- holds the key.
  pub probe-stopped :
      (table : Table V) (steps slot : ℕ) (result : Lookup V)
      → result.slot ≡ capacity
      → result.value ≡ none
      → ((probe capacity table steps slot result).slot ≡ capacity)
          × ((probe capacity table steps slot result).value ≡ none)
        ⊎ (is_live table (probe capacity table steps slot result).slot ≡ false)
          × ((probe capacity table steps slot result).value ≡ none)
        ⊎ (holds table result.key (probe capacity table steps slot result).slot ≡ true)
          × ((probe capacity table steps slot result).value
              ≡ some (table.cells (probe capacity table steps slot result).slot).value)
  unfolding probe
  probe-stopped table zero slot result none_yet no_value = inl (none_yet, no_value)
  probe-stopped table (suc steps) slot result none_yet no_value =
      let rest =
        probe-stopped table steps (next capacity slot)
          (record result { probes = result.probes + 1 }) none_yet no_value in
      ground (arith, rest)

  -- The cell where the probe stopped, written for its key, is where the next one stops.
  pub probe-written_self :
      (table : Table V) (steps slot : ℕ) (result : Lookup V) (value : V)
      → result.slot ≡ capacity
      → (probe capacity table steps slot result).slot ≢ capacity
      → (probe capacity
          (written table (probe capacity table steps slot result).slot result.key value)
          steps
          slot
          result).value
        ≡ some value
  unfolding probe
  probe-written_self table zero slot result value none_yet stopped = absurd (stopped none_yet)
  probe-written_self table (suc steps) slot result value none_yet stopped =
      let rest =
        probe-written_self table steps (next capacity slot)
          (record result { probes = result.probes + 1 }) value none_yet in
      ground (arith, rest)

  pub IsPlaced-written_self :
      (table : Table V) (steps slot : ℕ) (result : Lookup V) (at : ℕ) (value : V)
      → at ≡ (probe capacity table steps slot result).slot
      → IsPlaced table result.key steps slot
      → IsPlaced (written table at result.key value) result.key steps slot
  unfolding probe IsPlaced
  IsPlaced-written_self table zero slot result at value stop placed = tt
  IsPlaced-written_self table (suc steps) slot result at value stop (inl (stale, later)) =
      inr (inl (ground arith))
  IsPlaced-written_self table (suc steps) slot result at value stop (inr (inl held)) =
      inr (inl (ground arith))
  IsPlaced-written_self table (suc steps) slot result at value stop (inr (inr (live, later))) =
      elim (Bool-cases (holds table result.key slot || at == slot)) [
        | inl here ↦ inr (inl (ground arith))
        | inr other ↦ inr (
            inr (
              ground arith,
              IsPlaced-written_self table steps (next capacity slot)
                  (record result { probes = result.probes + 1 }) at value (ground arith) later,
            ))
      ]

  -- In a table whose cells on the path are all stale, no key is present.
  pub IsAbsent-stale :
      (table : Table V) (key steps slot : ℕ)
      → ((i : ℕ) → i < capacity → is_live table i ≡ false)
      → 0 < capacity
      → slot < capacity
      → IsAbsent table key steps slot
  unfolding IsAbsent
  IsAbsent-stale table key zero slot stale some_cell inside = tt
  IsAbsent-stale table key (suc steps) slot stale some_cell inside =
      let here = stale slot inside in
      (
        ground arith,
        IsAbsent-stale table key steps (next capacity slot) stale some_cell
            (masked_lt capacity (slot + 1) some_cell),
      )
