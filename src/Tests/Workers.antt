-- ===== src/Tests/Workers.antt =====
-- Concrete jobs of the replay worker, placements and runs of system pages.
use bolts_rebuilt.Prelude.{
  ℕ, ◌+◌, ◌*◌, ◌/◌, ◌%◌, ◌^◌, ◌≡◌, ◌≢◌, ◌≤◌, ◌<◌, ◌&&◌, not, refl, true, false, List, [], ◌∷◌,
  arith, length, get_or,
}
use bolts_rebuilt.Prelude.Bits.{bit}
use bolts_rebuilt.Replay.{Stream, new_worker, start}
use bolts_rebuilt.Replay.Step.Accounts.{
  System, Step, Reach, signals, is_open, is_chunk_open, one_if, Reach-signals,
}
use bolts_rebuilt.Affinity.{Selection, SelectionResult}
use bolts_rebuilt.Affinity.Placement.{select_placement, select_placement_lem}
use bolts_rebuilt.Watch.{all_watched, guest_page, blocks_watched, block_mask}
use bolts_rebuilt.Watch.Watched.{all_watched_lem}

abbrev one_command : Stream
one_command = record { resolved = true; commands = 7 ∷ [] }

abbrev created : System
created = record { worker = new_worker; calls = [] }

abbrev submitted : System
submitted = record created { worker = (start new_worker one_command 1 2 3 9 false).1 }

submitted-Reach : Reach submitted
submitted-Reach =
    Reach.step created submitted Reach.created (Step.starts created one_command 1 2 3 9 false)

Reach-signals_example :
    (submitted.worker.stats.submitted
      ≡ submitted.worker.stats.completed + one_if (is_open submitted.worker))
    × (submitted.worker.stats.chunks_submitted
        ≡ submitted.worker.stats.chunks_completed + one_if (is_chunk_open submitted.worker))
    × (signals submitted.calls ≤ submitted.worker.stats.submitted)
    × (submitted.worker.stats.completed ≤ signals submitted.calls + submitted.worker.stats.failures)
Reach-signals_example = Reach-signals submitted submitted-Reach

abbrev four_cores : Selection
four_cores = record {
  result = SelectionResult.ready;
  allowed_mask = 0x3F;
  performance_mask = 0xF;
  efficiency_class = 1;
  scheduling_mask = 0x3;
  scheduling_class = 2;
}

select_placement_lem_example :
    ((bit (select_placement four_cores 6).mask 1 && not (bit four_cores.allowed_mask 1)) ≡ false)
    × ((select_placement four_cores 6).mask ≢ 0)
    × (((select_placement four_cores 6).set_ideal
          && not
              (bit (select_placement four_cores 6).mask (select_placement four_cores 6).ideal_cpu))
        ≡ false)
unfolding select_placement bit
select_placement_lem_example =
    select_placement_lem four_cores 6 1 (omega arith) (omega arith) (omega arith) (omega arith) refl

abbrev all_flags : List ℕ
all_flags = 0xFFFFFFFFFFFFFFFF ∷ 0xFFFFFFFFFFFFFFFF ∷ []

all_watched_lem_example :
    (66 < 128)
    × (66 * 4096 < 2 ^ 32)
    × (guest_page 66 4096 12 0 < 200)
    × (66 / 64 < length all_flags)
    × (bit (get_or all_flags (66 / 64) 0) (66 % 64) ≡ true)
unfolding all_watched blocks_watched block_mask
all_watched_lem_example =
    all_watched_lem 60 70 4096 128 12 0 200 66 all_flags refl (omega arith) (omega arith)
