-- ===== src/AssetTable/Contents.antt =====
-- The table as a map from keys to values: Find, Store of the lookup that Find gave, and Clear.
use bolts_rebuilt.Prelude.{
  ℕ, zero, suc, ◌+◌, ◌-◌, ◌%◌, ◌^◌, ◌<◌, ◌≤◌, ◌≡◌, ◌≢◌, ◌⊎◌, inl, inr, refl, sym, ltb→lt, lt→ltb,
  ap, ◌∙◌, true, false, Bool-cases, Option, none, some, ltb, ◌==◌, if◌then◌else◌, bit_and, arith,
  ltb→lt, lt→ltb,
}
use mathlib.Core.Path.{subst}
use native.Mathlib.Nat.{pow-le-pow_right, mod-eq_of_lt, mod_self}
use bolts_rebuilt.AssetTable.{Table, Lookup, probe, find, store, clear, bucket, new_table}
use bolts_rebuilt.AssetTable.Probe.{
  is_live, holds, written, IsPlaced, IsAbsent-IsPlaced, IsPlaced-written, IsPlaced-written_self,
  IsAbsent-stale, IsAbsent-probe, masked_lt, probe-stopped, probe-written_ne, probe-written_self,
}

bucket-lt : (capacity key : ℕ) → 0 < capacity → bucket capacity key < capacity
unfolding bucket
bucket-lt capacity key some_cell = masked_lt capacity _ some_cell

eq_of : (a b : ℕ) → (a == b) ≡ true → a ≡ b
eq_of a b h = ground arith

ne_of : (a b : ℕ) → (a == b) ≡ false → b ≢ a
ne_of a b h = ground arith

two_le_pow : (generation_bits : ℕ) → 2 ≤ generation_bits → 1 < 2 ^ generation_bits
two_le_pow generation_bits bits =
    omega (arith, pow-le-pow_right {n = 2} (omega arith) {i = 2} {j = generation_bits} bits)

next-cases : (g m : ℕ) → g < m → ((g + 1) % m ≡ 0) ⊎ ((g + 1) % m ≡ g + 1) × (g + 1 < m)
next-cases g m h = elim (Bool-cases (ltb (g + 1) m)) [
  | inl below ↦ inr (mod-eq_of_lt (ltb→lt (g + 1) m below), ltb→lt (g + 1) m below)
  | inr above ↦ inl (ap (λ x. x % m) {x = g + 1} {y = m} (ground arith) ∙ mod_self m)
]

module _ {V : Type 0} (capacity probe_limit generation_bits : ℕ) where
  -- What a lookup of the key answers.
  abbrev pub value_of : Table V → ℕ → Option V
  value_of table key = (find capacity probe_limit table key).value

  -- The tags are of no later generation, and every key is placed on its path.
  abbrev pub IsValid : Table V → Type 0
  IsValid table =
      ((i : ℕ) → i < capacity → (table.cells i).generation ≤ table.generation)
      × (1 ≤ table.generation)
      × (table.generation < 2 ^ generation_bits)
      × ((key : ℕ) → IsPlaced capacity table key probe_limit (bucket capacity key))

  -- The table that Store makes of the lookup that Find gave.
  abbrev pub put : Table V → ℕ → V → Table V
  put table key value = (store capacity table (find capacity probe_limit table key) value).1

  abbrev start : Table V → ℕ → Lookup V
  start table key = record {
    value = none;
    key = key;
    slot = capacity;
    probes = 0;
    generation = table.generation;
  }

  probe-key :
      (table : Table V) (steps slot : ℕ) (result : Lookup V)
      → ((probe capacity table steps slot result).key ≡ result.key)
        × ((probe capacity table steps slot result).generation ≡ result.generation)
  unfolding probe
  probe-key table zero slot result = (refl, refl)
  probe-key table (suc steps) slot result =
      let rest =
        probe-key table steps (bit_and (slot + 1) (capacity - 1))
          (record result { probes = result.probes + 1 }) in
      ground (arith, rest)

  -- A probe that stopped, stopped inside the table.
  probe-inside :
      (table : Table V) (steps slot : ℕ) (result : Lookup V)
      → 0 < capacity
      → slot < capacity
      → result.slot ≡ capacity
      → (probe capacity table steps slot result).slot ≤ capacity
  unfolding probe
  probe-inside table zero slot result some_cell inside none_yet = omega arith
  probe-inside table (suc steps) slot result some_cell inside none_yet =
      let rest =
        probe-inside table steps (bit_and (slot + 1) (capacity - 1))
          (record result { probes = result.probes + 1 }) some_cell
          (masked_lt capacity (slot + 1) some_cell) none_yet in
      ground (arith, rest)

  store-cases :
      (table : Table V) (l : Lookup V) (value : V)
      → l.generation ≡ table.generation
      → (l.slot < capacity) × ((is_live table l.slot ≡ false) ⊎ (holds table l.key l.slot ≡ true))
      → store capacity table l value ≡ (true, written table l.slot l.key value)
  unfolding store
  store-cases table l value fresh (inside, inl stale) = ground arith
  store-cases table l value fresh (inside, inr held) = ground arith

  store-refused :
      (table : Table V) (l : Lookup V) (value : V)
      → l.slot ≡ capacity
      → store capacity table l value ≡ (false, table)
  unfolding store
  store-refused table l value nowhere = ground arith

  -- Where Find stopped.
  abbrev place : Table V → ℕ → ℕ
  place table key = (find capacity probe_limit table key).slot

  -- Store of a fresh lookup writes the cell where Find stopped, or refuses when it stopped nowhere.
  put-cases :
      (table : Table V) (key : ℕ) (value : V)
      → 0 < capacity
      → (place table key ≡ capacity)
          × (store capacity table (find capacity probe_limit table key) value ≡ (false, table))
        ⊎ (place table key ≢ capacity)
          × (store capacity table (find capacity probe_limit table key) value
              ≡ (true, written table (place table key) key value))
          × ((is_live table (place table key) ≡ false) ⊎ (holds table key (place table key) ≡ true))
  unfolding find
  put-cases table key value some_cell =
      let l = probe capacity table probe_limit (bucket capacity key) (start table key) in
      let (same_key, fresh) = probe-key table probe_limit (bucket capacity key) (start table key) in
      let inside =
        probe-inside table probe_limit (bucket capacity key) (start table key) some_cell
          (bucket-lt capacity key some_cell) refl in
      let stores =
        λ (h : (is_live table l.slot ≡ false) ⊎ (holds table l.key l.slot ≡ true))
            (n : l.slot ≢ capacity).
          store-cases table l value fresh (omega arith, h)
          ∙ ap (λ k. (true, written table l.slot k value)) same_key in
      elim (Bool-cases (l.slot == capacity)) [
        | inl nowhere ↦
            let at_end : l.slot ≡ capacity = ground arith in
            inl (at_end, store-refused table l value at_end)
        | inr somewhere ↦
            let inside' : l.slot ≢ capacity = ground arith in
            elim (probe-stopped capacity table probe_limit (bucket capacity key) (start table key)
              refl refl) [
                | inl (at_end, no_value) ↦ absurd (inside' at_end)
                | inr (inl (stale, no_value)) ↦ inr (inside', stores (inl stale) inside', inl stale)
                | inr (inr (held, found)) ↦
                    inr (inside', stores (inr (ground arith)) inside', inr held)
              ]
      ]

  not_held :
      (table : Table V) (key other slot : ℕ)
      → key ≢ other
      → (is_live table slot ≡ false) ⊎ (holds table key slot ≡ true)
      → holds table other slot ≡ false
  not_held table key other slot h at_place = ground arith

  value_of-written :
      (table : Table V) (key : ℕ) (value : V) (other : ℕ)
      → place table key ≢ capacity
      → (is_live table (place table key) ≡ false) ⊎ (holds table key (place table key) ≡ true)
      → IsPlaced capacity table other probe_limit (bucket capacity other)
      → value_of (written table (place table key) key value) other
        ≡ (if other == key then some value else value_of table other)
  unfolding find
  value_of-written table key value other somewhere at_place placed =
      elim (Bool-cases (other == key)) [
        | inl same ↦ rw same (
            subst (λ x. value_of (written table (place table key) key value) x ≡ some value)
              (sym (eq_of other key same))
              (probe-written_self capacity table probe_limit (bucket capacity key) (start table key)
                value refl somewhere))
        | inr differ ↦ rw differ (
            probe-written_ne capacity table probe_limit (bucket capacity other) (start table other)
              (place table key) key value (ne_of other key differ)
              (not_held table key other (place table key) (ne_of other key differ) at_place) placed)
      ]

  put-IsValid :
      (table : Table V) (key : ℕ) (value : V)
      → 0 < capacity
      → IsValid table
      → IsValid (put table key value)
  unfolding find
  put-IsValid table key value some_cell (old, first, last, placed) =
      elim (put-cases table key value some_cell) [
        | inl (nowhere, stores) ↦
            subst IsValid (sym (ap (λ r. r.1) stores)) (old, first, last, placed)
        | inr (somewhere, stores, at_place) ↦ subst IsValid (sym (ap (λ r. r.1) stores)) (
          (λ i h. let before = old i h in ground arith),
          first,
          last,
          (λ k. elim (Bool-cases (k == key)) [
            | inl same ↦
                subst
                  (λ x.
                    IsPlaced capacity (written table (place table key) key value) x probe_limit
                      (bucket capacity x))
                  (sym (eq_of k key same))
                  (IsPlaced-written_self capacity table probe_limit (bucket capacity key)
                    (start table key) (place table key) value refl (placed key))
            | inr other ↦
                IsPlaced-written capacity table k probe_limit (bucket capacity k) (place table key)
                  key value (ne_of k key other)
                  (not_held table key k (place table key) (ne_of k key other) at_place) (placed k)
          ]),
        )
      ]

  -- A value that was stored through the lookup of its key is found again and every other key answers
  -- as before; where Find ran out of steps, Store refuses and the table stays. The conditions are a
  -- valid table of at least one cell; the table is valid again afterwards.
  pub store-find :
      (table : Table V) (key : ℕ) (value : V) (other : ℕ)
      → 0 < capacity
      → IsValid table
      → ((store capacity table (find capacity probe_limit table key) value ≡ (false, table))
            × ((find capacity probe_limit table key).slot ≡ capacity)
          ⊎ ((store capacity table (find capacity probe_limit table key) value).0 ≡ true)
            × (value_of (put table key value) other
                ≡ (if other == key then some value else value_of table other)))
        × IsValid (put table key value)
  unfolding find
  store-find table key value other some_cell valid = (
    (elim (put-cases table key value some_cell) [
      | inl (nowhere, stores) ↦ inl (stores, nowhere)
      | inr (somewhere, stores, at_place) ↦ inr (
        ap (λ r. r.0) stores,
        ap (λ r. value_of r.1 other) stores
            ∙ value_of-written table key value other somewhere at_place (valid.3 other),
      )
    ]),
    put-IsValid table key value some_cell valid,
  )

  clear-stale :
      (table : Table V)
      → 0 < capacity
      → 2 ≤ generation_bits
      → IsValid table
      → (i : ℕ) → i < capacity
      → is_live (clear capacity generation_bits table).1 i ≡ false
  unfolding clear
  clear-stale table some_cell bits (old, first, last, placed) i inside =
      let before = old i inside in
      let next = next-cases table.generation (2 ^ generation_bits) last in
      ground (arith, lt→ltb i capacity inside)

  -- After Clear no key is found, and the table is valid; the conditions are a valid table of at least
  -- one cell and generations of more than one bit. This covers the generation that wraps.
  pub clear-find :
      (table : Table V) (key : ℕ)
      → 0 < capacity
      → 2 ≤ generation_bits
      → IsValid table
      → (value_of (clear capacity generation_bits table).1 key ≡ none)
        × IsValid (clear capacity generation_bits table).1
  unfolding find clear
  clear-find table key some_cell bits valid =
      let stale = clear-stale table some_cell bits valid in
      (
        IsAbsent-probe capacity (clear capacity generation_bits table).1 probe_limit
            (bucket capacity key) (start (clear capacity generation_bits table).1 key)
            (IsAbsent-stale capacity (clear capacity generation_bits table).1 key probe_limit
              (bucket capacity key) stale some_cell (bucket-lt capacity key some_cell)),
        (
          (λ i inside.
              let fresh = stale i inside in
              let before = valid.0 i inside in
              ground (arith, next-cases table.generation (2 ^ generation_bits) valid.2)),
          ground (arith, next-cases table.generation (2 ^ generation_bits) valid.2),
          (let wide = two_le_pow generation_bits bits in
              ground (arith, next-cases table.generation (2 ^ generation_bits) valid.2)),
          (λ k.
              IsAbsent-IsPlaced capacity (clear capacity generation_bits table).1 k probe_limit
                (bucket capacity k)
                (IsAbsent-stale capacity (clear capacity generation_bits table).1 k probe_limit
                  (bucket capacity k) stale some_cell (bucket-lt capacity k some_cell))),
        ),
      )

  -- The new table is valid and finds no key.
  pub new_table-find :
      (empty : V) (key : ℕ)
      → 0 < capacity
      → 2 ≤ generation_bits
      → (value_of (new_table empty) key ≡ none) × IsValid (new_table empty)
  unfolding find new_table
  new_table-find empty key some_cell bits =
      let absent = λ (k : ℕ).
        IsAbsent-stale capacity (new_table empty) k probe_limit (bucket capacity k) (λ i h. refl)
          some_cell (bucket-lt capacity k some_cell) in
      (
        IsAbsent-probe capacity (new_table empty) probe_limit (bucket capacity key)
            (start (new_table empty) key) (absent key),
        (
          (λ i h. omega arith),
          omega arith,
          two_le_pow generation_bits bits,
          (λ k.
              IsAbsent-IsPlaced capacity (new_table empty) k probe_limit (bucket capacity k)
                (absent k)),
        ),
      )
