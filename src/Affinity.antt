-- ===== src/Affinity.antt =====
-- native_cpu_affinity_policy.h: the choice of the performance cores, the transition between two
-- requests and the placement of a thread. Masks are 64-bit; the topology is a list of entries.
pub mod Placement
use bolts_rebuilt.Prelude.{
  ℕ, zero, suc, ◌+◌, ◌-◌, ◌%◌, ◌^◌, Bool, true, false, not, ◌&&◌, ◌||◌, Option, none, some, List,
  [], ◌∷◌, update, ltb, leb, ◌==◌, if◌then◌else◌, bit_and, bit_or, min, max,
}
use bolts_rebuilt.Prelude.Bits.{bit}
use bolts_rebuilt.Prelude.Bits.Words.{complement}

pub record TopologyEntry : Type 0 where
  pub group : ℕ
  pub logical : ℕ
  pub efficiency_class : ℕ
  pub reserved_for_other : Bool
  pub scheduling_class : ℕ

pub data SelectionResult : Type 0 where
  ready : SelectionResult
  unsupported_group : SelectionResult
  invalid_topology : SelectionResult
  homogeneous_topology : SelectionResult
  empty_allowed_mask : SelectionResult
  no_allowed_performance_core : SelectionResult

pub record Selection : Type 0 where
  pub result : SelectionResult
  pub allowed_mask : ℕ
  pub performance_mask : ℕ
  pub efficiency_class : ℕ
  pub scheduling_mask : ℕ
  pub scheduling_class : ℕ

abbrev pub no_selection : Selection
no_selection = record {
  result = SelectionResult.invalid_topology;
  allowed_mask = 0;
  performance_mask = 0;
  efficiency_class = 0;
  scheduling_mask = 0;
  scheduling_class = 0;
}

-- uint64_t(1) << cpu, and a test of that bit.
abbrev pub has_bit : ℕ → ℕ → Bool
has_bit mask cpu = bit mask cpu

-- The first loop: the classes noted for each processor (`none` for -1), the highest and the lowest
-- one, with the same -1 and 256 for none. An answer of `none` is the return of an invalid topology.
pub record Classes : Type 0 where
  pub efficiency : ℕ → Option ℕ
  pub scheduling : ℕ → ℕ
  pub highest : Option ℕ
  pub lowest : ℕ

abbrev pub no_classes : Classes
no_classes = record { efficiency = λ _. none; scheduling = λ _. 0; highest = none; lowest = 256 }

-- Whether a class noted earlier for the processor differs from the entry's.
abbrev conflicts : Classes → TopologyEntry → Bool
conflicts seen entry = elim (seen.efficiency entry.logical) [
  | none ↦ false
  | some previous ↦
      not (previous == entry.efficiency_class)
      || not (seen.scheduling entry.logical == entry.scheduling_class)
]

abbrev note : Classes → TopologyEntry → Classes
note seen entry = record {
  efficiency = update seen.efficiency entry.logical (some entry.efficiency_class);
  scheduling = update seen.scheduling entry.logical entry.scheduling_class;
  highest = elim seen.highest [
    | none ↦ some entry.efficiency_class
    | some highest ↦ some (max highest entry.efficiency_class)
  ];
  lowest = min seen.lowest entry.efficiency_class;
}

pub collect_classes : ℕ → ℕ → Classes → List TopologyEntry → Option Classes
collect_classes group system_mask seen [] = some seen
collect_classes group system_mask seen (entry ∷ entries) =
    let skipped = collect_classes group system_mask seen entries in
    let noted = collect_classes group system_mask (note seen entry) entries in
    if not (entry.group == group)
    then skipped
    else if leb 64 entry.logical
    then none
    else if not (has_bit system_mask entry.logical)
    then skipped
    else if conflicts seen entry
    then none
    else noted

-- The second loop: the processors of the highest class.
pub performance_of : ℕ → ℕ → List TopologyEntry → ℕ → ℕ
performance_of group highest [] mask = mask
performance_of group highest (entry ∷ entries) mask = performance_of group highest entries (
    if entry.group == group
      && ltb entry.logical 64
      && not entry.reserved_for_other
      && entry.efficiency_class == highest
    then bit_or mask (2 ^ entry.logical)
    else mask)

-- The third loop: those of the best scheduling class among them.
pub scheduling_of : ℕ → List TopologyEntry → Selection → Selection
scheduling_of group [] out = out
scheduling_of group (entry ∷ entries) out =
    let rest = scheduling_of group entries out in
    let better = ltb out.scheduling_class entry.scheduling_class in
    let best = if better then entry.scheduling_class else out.scheduling_class in
    let mask = if better then 0 else out.scheduling_mask in
    if not (entry.group == group)
      || leb 64 entry.logical
      || entry.reserved_for_other
      || not (has_bit out.performance_mask entry.logical)
    then rest
    else scheduling_of group entries (record out {
      scheduling_class = best;
      scheduling_mask =
          if entry.scheduling_class == best then bit_or mask (2 ^ entry.logical) else mask;
    })

pub select_performance_affinity :
    List TopologyEntry → (group original process system : ℕ) → Selection
select_performance_affinity entries group original_mask process_mask system_mask =
    let allowed = bit_and (bit_and original_mask process_mask) system_mask in
    let out = record no_selection { allowed_mask = allowed } in
    let classes = collect_classes group system_mask no_classes entries in
    if not (group == 0)
    then record no_selection { result = SelectionResult.unsupported_group }
    else if allowed == 0
    then record out { result = SelectionResult.empty_allowed_mask }
    else elim classes [
      | none ↦ out
      | some seen ↦ elim seen.highest [
        | none ↦ out
        | some highest ↦
            if highest == seen.lowest
            then record out { result = SelectionResult.homogeneous_topology }
            else let chosen = scheduling_of group entries (record out {
              efficiency_class = highest;
              performance_mask = bit_and (performance_of group highest entries 0) allowed;
            }) in
              record chosen {
                result =
                    if chosen.performance_mask == 0
                    then SelectionResult.no_allowed_performance_core
                    else SelectionResult.ready;
              }
      ]
    ]

pub data Transition : Type 0 where
  none_needed : Transition
  enable : Transition
  restore : Transition

pub get_transition : (previous_request request : Bool) (previous_mode mode : ℕ) → Transition
get_transition previous_request request previous_mode mode =
    if not request
    then (if previous_request then Transition.restore else Transition.none_needed)
    else if not previous_request || not (previous_mode == mode)
    then Transition.enable
    else Transition.none_needed
