-- ===== src/Affinity/Placement.antt =====
-- SelectNativeCpuPlacement of native_cpu_affinity_policy.h.
use bolts_rebuilt.Prelude.{
  ◌&&◌, sym, ap, ◌*◌, ℕ, zero, suc, ◌+◌, ◌-◌, ◌%◌, ◌^◌, ◌<◌, ◌≡◌, ◌≢◌, ◌⊎◌, inl, inr, ◌∙◌, Bool,
  true, false, not, ◌||◌, Bool-cases, ltb, ◌==◌, if◌then◌else◌, bit_and, arith, lt→ltb,
}
use bolts_rebuilt.Prelude.Bits.Words.{bit-shift_left, bit-complement}
use bolts_rebuilt.Prelude.Bits.{bit-zero, bit-bit_and, eq_of_bits}
use bolts_rebuilt.Prelude.Bits.{bit}
use bolts_rebuilt.Prelude.Bits.Words.{complement}
use bolts_rebuilt.Affinity.{Selection, SelectionResult, has_bit}

pub record Placement : Type 0 where
  pub valid : Bool
  pub set_ideal : Bool
  pub mask : ℕ
  pub ideal_cpu : ℕ

abbrev pub no_placement : Placement
no_placement = record { valid = false; set_ideal = false; mask = 0; ideal_cpu = 0 }

abbrev is_ready : SelectionResult → Bool
is_ready SelectionResult.ready = true
is_ready _ = false

-- The search from `cpu` upwards over the processors that remain, and downwards below `cpu`.
pub lowest_cpu : ℕ → ℕ → ℕ → ℕ
lowest_cpu mask zero cpu = 0
lowest_cpu mask (suc left) cpu =
    let rest = lowest_cpu mask left (cpu + 1) in if has_bit mask cpu then cpu else rest

pub highest_cpu : ℕ → ℕ → ℕ
highest_cpu mask zero = 0
highest_cpu mask (suc cpu) =
    let rest = highest_cpu mask cpu in if has_bit mask cpu then cpu else rest

unfoldable pub select_placement : Selection → ℕ → Placement
select_placement selection mode =
    let selected = if bit mode 2 then selection.scheduling_mask else selection.performance_mask in
    let low = mode % 4 in
    let ideal = if low == 3 then lowest_cpu selected 64 0 else highest_cpu selected 64 in
    if ltb 7 mode
      || not (is_ready selection.result)
      || selection.performance_mask == 0
      || not (bit_and selection.performance_mask (complement 64 selection.allowed_mask) == 0)
    then no_placement
    else if selected == 0 || not (bit_and selected (complement 64 selection.performance_mask) == 0)
    then no_placement
    else if low == 0
    then record no_placement { valid = true; mask = selected }
    else record {
      valid = true;
      set_ideal = true;
      ideal_cpu = ideal;
      mask = if ltb 1 low then 2 ^ ideal else selected;
    }

-- No digit is set outside another mask, when the digits outside it are none.
subset_of_outside :
    (a b i : ℕ)
    → b < 2 ^ 64
    → (bit_and a (complement 64 b) == 0) ≡ true
    → i < 64
    → bit a i ≡ true
    → bit b i ≡ true
subset_of_outside a b i h outside inside set = ground (
  arith,
  bit-bit_and a (complement 64 b) i,
  bit-complement 64 b i h,
  ap (λ x. bit x i) {x = bit_and a (complement 64 b)} {y = 0} (ground arith),
  bit-zero i,
  lt→ltb i 64 inside,
)

highest_cpu-cases :
    (mask n : ℕ)
    → (bit mask (highest_cpu mask n) ≡ true) × (highest_cpu mask n < n)
      ⊎ ((i : ℕ) → i < n → bit mask i ≡ false)
unfolding highest_cpu
highest_cpu-cases mask zero = inr (λ i h. elim h [ ])
highest_cpu-cases mask (suc n) = elim (Bool-cases (bit mask n)) [
  | inl here ↦ inl (ground arith)
  | inr clear ↦ elim (highest_cpu-cases mask n) [
    | inl (set, below) ↦ inl (ground arith)
    | inr none_below ↦ inr (λ i h. ground (arith, none_below i, ap (bit mask) {x = i} {y = n}))
  ]
]

lowest_cpu-cases :
    (mask left cpu : ℕ)
    → (bit mask (lowest_cpu mask left cpu) ≡ true) × (lowest_cpu mask left cpu < cpu + left)
      ⊎ ((i : ℕ) → i < left → bit mask (cpu + i) ≡ false)
unfolding lowest_cpu
lowest_cpu-cases mask zero cpu = inr (λ i h. elim h [ ])
lowest_cpu-cases mask (suc left) cpu = elim (Bool-cases (bit mask cpu)) [
  | inl here ↦ inl (ground arith)
  | inr clear ↦ elim (lowest_cpu-cases mask left (cpu + 1)) [
    | inl (set, below) ↦ inl (ground arith)
    | inr none_above ↦ inr (λ i h. ground (
      arith,
      none_above (i - 1),
      ap (bit mask) {x = cpu + i} {y = cpu},
      ap (bit mask) {x = cpu + i} {y = cpu + 1 + (i - 1)},
    ))
  ]
]

-- A mask with a processor, of 64 digits, has the processor that the search finds.
ideal_cpu-set :
    (mask : ℕ)
    → mask < 2 ^ 64
    → mask ≢ 0
    → ((bit mask (highest_cpu mask 64) ≡ true) × (highest_cpu mask 64 < 64))
      × ((bit mask (lowest_cpu mask 64 0) ≡ true) × (lowest_cpu mask 64 0 < 64))
ideal_cpu-set mask h some_cpu =
    let empty = λ (clear : (i : ℕ) → i < 64 → bit mask i ≡ false).
      eq_of_bits 64 mask 0 h (omega arith) (λ i below. clear i below ∙ sym (bit-zero i)) in
    (
      elim (highest_cpu-cases mask 64) [
        | inl found ↦ found
        | inr clear ↦ absurd (some_cpu (empty clear))
      ],
      elim (lowest_cpu-cases mask 64 0) [
        | inl found ↦ found
        | inr clear ↦ absurd (
            some_cpu
              (empty (λ i below. ap (bit mask) {x = i} {y = 0 + i} (omega arith) ∙ clear i below)))
      ],
    )

bit-one : (j : ℕ) → bit 1 j ≡ (j == 0)
unfolding bit
bit-one zero = ground arith
bit-one (suc j) = bit-zero j ∙ ground arith

bit-two_pow : (k i : ℕ) → bit (2 ^ k) i ≡ true → i ≡ k
bit-two_pow k i set = ground (
  arith,
  ap (λ x. bit x i) {x = 2 ^ k} {y = 1 * 2 ^ k} (omega arith),
  bit-shift_left k 1 i,
  bit-one (i - k),
)

bit-two_pow_self : (k : ℕ) → bit (2 ^ k) k ≡ true
bit-two_pow_self k = ground (
  arith,
  ap (λ x. bit x k) {x = 2 ^ k} {y = 1 * 2 ^ k} (omega arith),
  bit-shift_left k 1 k,
  bit-one (k - k),
)

abbrev selected_of : Selection → ℕ → ℕ
selected_of selection mode =
    if bit mode 2 then selection.scheduling_mask else selection.performance_mask

-- The checks a valid placement has passed, and the two forms of its mask.
select_placement-cases :
    (selection : Selection) (mode : ℕ)
    → (select_placement selection mode).valid ≡ true
    → ((bit_and selection.performance_mask (complement 64 selection.allowed_mask) == 0) ≡ true)
      × ((selected_of selection mode == 0) ≡ false)
      × ((bit_and (selected_of selection mode) (complement 64 selection.performance_mask) == 0)
          ≡ true)
      × (((select_placement selection mode).set_ideal ≡ false)
          ⊎ ((select_placement selection mode).ideal_cpu
              ≡ highest_cpu (selected_of selection mode) 64)
          ⊎ ((select_placement selection mode).ideal_cpu
              ≡ lowest_cpu (selected_of selection mode) 64 0))
      × (((select_placement selection mode).mask ≡ selected_of selection mode)
          ⊎ ((select_placement selection mode).set_ideal ≡ true)
            × ((select_placement selection mode).mask
                ≡ 2 ^ (select_placement selection mode).ideal_cpu))
unfolding select_placement
select_placement-cases selection mode valid = ground arith

-- A valid placement of a thread, from a selection with 64-bit masks, has only processors of the
-- selection's allowed mask, and at least one of the 64; the ideal processor, when it is set, is one
-- of the mask.
pub select_placement_lem :
    (selection : Selection) (mode cpu : ℕ)
    → selection.performance_mask < 2 ^ 64
    → selection.scheduling_mask < 2 ^ 64
    → selection.allowed_mask < 2 ^ 64
    → cpu < 64
    → (select_placement selection mode).valid ≡ true
    → ((bit (select_placement selection mode).mask cpu && not (bit selection.allowed_mask cpu))
        ≡ false)
      × ((select_placement selection mode).mask ≢ 0)
      × (((select_placement selection mode).set_ideal
            && not (
                bit
                  (select_placement selection mode).mask
                  (select_placement selection mode).ideal_cpu))
          ≡ false)
select_placement_lem selection mode cpu hp hs ha inside valid =
    let (allowed, some_cpu, chosen, ideal, form) = select_placement-cases selection mode valid in
    let selected = selected_of selection mode in
    let narrow : selected < 2 ^ 64 = ground arith in
    let (highest, lowest) = ideal_cpu-set selected narrow (ground arith) in
    let place = select_placement selection mode in
    let set_of : place.set_ideal ≡ true
        → (bit selected place.ideal_cpu ≡ true) × (place.ideal_cpu < 64) =
      λ h. elim ideal [ inl unset ↦ cc | inr (inl e) ↦ rw e highest | inr (inr e) ↦ rw e lowest ] in
    let selected_allowed : (i : ℕ)
        → i < 64
        → bit selected i ≡ true
        → bit selection.allowed_mask i ≡ true =
      λ i below set.
        subset_of_outside selection.performance_mask selection.allowed_mask i ha allowed below
          (subset_of_outside selected selection.performance_mask i hp chosen below set) in
    elim form [
      | inl whole ↦ (
        rw whole (ground (arith, selected_allowed cpu inside)),
        rw whole (ground arith),
        rw whole (ground (arith, set_of)),
      )
      | inr (set_ideal, single) ↦
          let (found, below) = set_of set_ideal in
          let only = bit-two_pow place.ideal_cpu cpu in
          let self = bit-two_pow_self place.ideal_cpu in
          (
            rw single (
                ground (
                  arith,
                  only,
                  selected_allowed place.ideal_cpu below,
                  ap (bit selection.allowed_mask) {x = cpu} {y = place.ideal_cpu},
                )),
            rw single (λ none_set.
                ground (arith, bit-zero place.ideal_cpu, ap (λ x. bit x place.ideal_cpu) none_set)),
            rw single (ground arith),
          )
    ]
