-- ===== src/Wait/Targets.antt =====
-- NativeWaitTargetTable of native_wait_poll.h: eight targets and the count of samples that found no
-- place. The counters are uint64_t and cannot wrap in the life of a process.
pub mod Accounts
use bolts_rebuilt.Prelude.{
  ℕ, zero, suc, ◌+◌, Bool, true, false, not, ◌&&◌, Option, none, some, List, [], ◌∷◌, ltb, leb,
  ◌==◌, if◌then◌else◌, replicate,
}

-- What a target is told apart by.
pub record Target : Type 0 where
  pub is_memory : Bool
  pub address : ℕ
  pub function : ℕ
  pub mask : ℕ

pub record WaitTarget : Type 0 where
  pub used : Bool
  pub target : Target
  pub packets : ℕ
  pub blocked_ns : ℕ
  pub max_ns : ℕ
  pub vblank_advanced : ℕ
  pub timed_advances : ℕ
  pub advance_to_match_ns : ℕ
  pub matched_within_100us : ℕ
  pub last_ref : ℕ
  pub last_first_value : ℕ
  pub last_match_value : ℕ

pub record WaitSample : Type 0 where
  pub target : Target
  pub ref : ℕ
  pub first_value : ℕ
  pub match_value : ℕ
  pub blocked_ns : ℕ
  pub vblank_advanced : Bool
  pub advance_timed : Bool
  pub advance_to_match_ns : ℕ

pub record WaitTable : Type 0 where
  pub entries : List WaitTarget
  pub untracked : ℕ

abbrev pub capacity : ℕ
capacity = 8

abbrev pub unused : WaitTarget
unused = record {
  used = false;
  target = record { is_memory = false; address = 0; function = 0; mask = 0 };
  packets = 0;
  blocked_ns = 0;
  max_ns = 0;
  vblank_advanced = 0;
  timed_advances = 0;
  advance_to_match_ns = 0;
  matched_within_100us = 0;
  last_ref = 0;
  last_first_value = 0;
  last_match_value = 0;
}

unfoldable pub empty_table : WaitTable
empty_table = record { entries = replicate capacity unused; untracked = 0 }

abbrev bool_eq : Bool → Bool → Bool
bool_eq true b = b
bool_eq false b = not b

pub same_target : Target → Target → Bool
same_target a b =
    bool_eq a.is_memory b.is_memory
    && a.address == b.address
    && a.function == b.function
    && a.mask == b.mask

abbrev increment_if : Bool → ℕ → ℕ
increment_if b n = if b then n + 1 else n

-- The second half of Record, at the place that was found.
unfoldable pub record_in : WaitSample → WaitTarget → WaitTarget
record_in s slot = record {
  used = true;
  target = if slot.used then slot.target else s.target;
  packets = slot.packets + 1;
  blocked_ns = slot.blocked_ns + s.blocked_ns;
  max_ns = if ltb slot.max_ns s.blocked_ns then s.blocked_ns else slot.max_ns;
  vblank_advanced = increment_if s.vblank_advanced slot.vblank_advanced;
  timed_advances = increment_if s.advance_timed slot.timed_advances;
  advance_to_match_ns =
      if s.advance_timed
      then slot.advance_to_match_ns + s.advance_to_match_ns
      else slot.advance_to_match_ns;
  matched_within_100us =
      increment_if (s.advance_timed && leb s.advance_to_match_ns 100000) slot.matched_within_100us;
  last_ref = s.ref;
  last_first_value = s.first_value;
  last_match_value = s.match_value;
}

-- The first half: the place of the entry with the sample's target, else of the first free entry.
-- `index` counts the entries passed, `free` is the first free one among them.
pub find_place : Target → List WaitTarget → ℕ → Option ℕ → Option ℕ
find_place target [] index free = free
find_place target (entry ∷ entries) index free =
    let free' =
      if not entry.used then elim free [ none ↦ some index | some k ↦ some k ] else free in
    let rest = find_place target entries (index + 1) free' in
    if entry.used && same_target entry.target target then some index else rest

pub modify : (WaitTarget → WaitTarget) → ℕ → List WaitTarget → List WaitTarget
modify f i [] = []
modify f zero (entry ∷ entries) = f entry ∷ entries
modify f (suc i) (entry ∷ entries) = entry ∷ modify f i entries

pub record_sample : WaitTable → WaitSample → WaitTable
record_sample table s = elim (find_place s.target table.entries 0 none) [
  | none ↦ record table { untracked = table.untracked + 1 }
  | some place ↦ record table { entries = modify (record_in s) place table.entries }
]
