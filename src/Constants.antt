-- ===== src/Constants.antt =====
-- native_constant_reuse.h: the packet of pixel constants and its reuse within a frame. A packet is
-- its valid bytes; an address is a number, 0 for none. The source of floats is the bytes it holds, a
-- null pointer is `none`.
pub mod Packet
pub mod Published
pub mod Vertex
pub mod Layout
use bolts_rebuilt.Prelude.{
  ℕ, zero, suc, ◌+◌, ◌-◌, ◌*◌, Bool, true, false, not, ◌&&◌, ◌||◌, Option, none, some, List, [],
  ◌∷◌, ◌++◌, ltb, leb, ◌==◌, if◌then◌else◌, length, take, drop, replicate, same_words,
}

abbrev pub bool_bytes : ℕ
bool_bytes = 32

abbrev pub slot_bytes : ℕ
slot_bytes = 80

abbrev pub header_bytes : ℕ
header_bytes = bool_bytes + 2 * slot_bytes

abbrev pub capacity : ℕ
capacity = header_bytes + 256 * 16

-- NativeConstantRegisters of native_constant_layout.h.
unfoldable pub constant_registers : ℕ → Bool → ℕ
constant_registers packed explicit_empty =
    if not (packed == 0) then packed else if explicit_empty then 0 else 256

pub record Run : Type 0 where
  pub first : ℕ
  pub count : ℕ

-- What a caller passes to Build.
pub record Inputs : Type 0 where
  pub bools : Option (List ℕ)
  pub swizzles : Option (List ℕ)
  pub samplers : Option (List ℕ)
  pub source : Option (List ℕ)
  pub runs : List Run
  pub packed : ℕ
  pub explicit_empty : Bool

-- The check of the runs: the total of their counts, or `none` for a refusal.
pub total_of : (registers : ℕ) → List Run → ℕ → Option ℕ
total_of registers [] total = some total
total_of registers (run ∷ runs) total =
    let rest = total_of registers runs (total + run.count) in
    if ltb 256 run.first
      || ltb (256 - run.first) run.count
      || ltb registers total
      || ltb (registers - total) run.count
    then none
    else rest

-- The float bytes that the runs select, in their order.
pub copy_runs : List ℕ → List Run → List ℕ
copy_runs source [] = []
copy_runs source (run ∷ runs) =
    take (run.count * 16) (drop (run.first * 16) source) ++ copy_runs source runs

unfoldable pub float_bytes : (registers : ℕ) → Option (List ℕ) → List Run → List ℕ
float_bytes registers none runs = replicate (registers * 16) 0
float_bytes registers (some source) [] = take (registers * 16) source
float_bytes registers (some source) (run ∷ runs) =
    if registers == 0 then [] else copy_runs source (run ∷ runs)

-- Whether the runs pass the check, which is made only of a source with runs.
unfoldable pub runs_fit : (registers : ℕ) → Option (List ℕ) → List Run → Bool
runs_fit registers none runs = true
runs_fit registers (some source) [] = true
runs_fit registers (some source) (run ∷ runs) = elim (total_of registers (run ∷ runs) 0) [
  | none ↦ false
  | some total ↦ total == registers
]

abbrev pub is_null : Option (List ℕ) → Bool
is_null none = true
is_null (some bytes) = false

abbrev has_runs : List Run → Bool
has_runs [] = false
has_runs (run ∷ runs) = true

abbrev pub bytes_or : Option (List ℕ) → ℕ → List ℕ
bytes_or none n = replicate n 0
bytes_or (some bytes) n = take n bytes

-- Build: the packet, or `none` for a refusal, which leaves a packet of no valid bytes.
unfoldable pub build : Inputs → Option (List ℕ)
build inputs =
    let registers = constant_registers inputs.packed inputs.explicit_empty in
    if inputs.explicit_empty && (not (inputs.packed == 0) || has_runs inputs.runs)
    then none
    else if ltb 256 registers || is_null inputs.swizzles || is_null inputs.samplers
    then none
    else if not (runs_fit registers inputs.source inputs.runs)
    then none
    else some (
        bytes_or inputs.bools bool_bytes
        ++ bytes_or inputs.swizzles slot_bytes
        ++ bytes_or inputs.samplers slot_bytes
        ++ float_bytes registers inputs.source inputs.runs)

-- NativePixelConstantReuse: the two packets, the active one first.
pub record Reuse : Type 0 where
  pub active : List ℕ
  pub candidate : List ℕ
  pub frame : ℕ
  pub address : ℕ
  pub valid : Bool
  pub candidate_valid : Bool

pub new_reuse : Reuse
new_reuse = record {
  active = [];
  candidate = [];
  frame = 0;
  address = 0;
  valid = false;
  candidate_valid = false;
}

pub find : Reuse → ℕ → List ℕ → ℕ
find reuse frame bytes =
    if reuse.valid
      && frame == reuse.frame
      && length bytes == length reuse.active
      && same_words reuse.active bytes
    then reuse.address
    else 0

pub publish : Reuse → ℕ → List ℕ → ℕ → Bool × Reuse
publish reuse frame bytes address =
    if address == 0 || length bytes == 0 || ltb capacity (length bytes) then (false, reuse) else (
      true,
      record reuse {
        active = bytes;
        frame = frame;
        address = address;
        valid = true;
        candidate_valid = false;
      },
    )

pub build_candidate : Reuse → Inputs → Bool × Reuse
build_candidate reuse inputs = elim (build inputs) [
  | none ↦ (false, record reuse { candidate = []; candidate_valid = false })
  | some bytes ↦ (true, record reuse { candidate = bytes; candidate_valid = true })
]

pub candidate_bytes : Reuse → List ℕ
candidate_bytes reuse = if reuse.candidate_valid then reuse.candidate else []

pub publish_candidate : Reuse → ℕ → ℕ → Bool × Reuse
publish_candidate reuse frame address =
    if address == 0 || not reuse.candidate_valid then (false, reuse) else (
      true,
      record {
        active = reuse.candidate;
        candidate = reuse.active;
        frame = frame;
        address = address;
        valid = true;
        candidate_valid = false;
      },
    )

pub reset : Reuse → Reuse
reset reuse = record reuse { valid = false; candidate_valid = false }
