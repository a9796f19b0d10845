-- ===== src/Tests/Waits.antt =====
-- A timer that always lasts, and concrete samples.
use bolts_rebuilt.Prelude.{ℕ, ◌+◌, ◌*◌, ◌≡◌, ◌⊎◌, refl, true, false, arith, All, if◌then◌else◌}
use bolts_rebuilt.Wait.Precise.{
  Backend, ticks_of, wait_at_least_ns, ReadLate, IsPrompt, wait_at_least_ns-ReadLate,
  wait_at_least_ns_succeeds, attempts,
}
use bolts_rebuilt.Wait.Targets.{WaitSample, record_in, record_sample, empty_table, same_target}
use bolts_rebuilt.Wait.Targets.Accounts.{sum_of, IsUsed, IsOther, record_sample-sum_of}

-- A clock that moves by the waits alone.
abbrev exact : Backend
exact = record {
  Timer = ℕ;
  now_ns = λ t. (t, t);
  ensure_timer = λ t. (t, true);
  wait_relative = λ t ticks. (t + ticks * 100, true);
}

wait_at_least_ns-ReadLate_example : ReadLate exact (50 + 250) (wait_at_least_ns exact 50 250).0
unfolding wait_at_least_ns attempts ticks_of
wait_at_least_ns-ReadLate_example = wait_at_least_ns-ReadLate exact 50 250 (omega arith) refl

exact-IsPrompt : IsPrompt exact
exact-IsPrompt = record {
  makes = λ t. refl;
  reads = λ t. omega arith;
  keeps = λ t. omega arith;
  signals = λ t ticks. refl;
  lasts = λ t ticks. omega arith;
}

wait_at_least_ns_succeeds_example : (wait_at_least_ns exact 50 250).1 ≡ true
wait_at_least_ns_succeeds_example =
    wait_at_least_ns_succeeds exact 50 250 exact-IsPrompt (omega arith)

abbrev sample : WaitSample
sample = record {
  target = record { is_memory = true; address = 64; function = 3; mask = 255 };
  ref = 1;
  first_value = 0;
  match_value = 1;
  blocked_ns = 900;
  vblank_advanced = false;
  advance_timed = false;
  advance_to_match_ns = 0;
}

record_sample-sum_of_example :
    (sum_of (λ e. e.blocked_ns) sample.target (record_sample empty_table sample).entries
        ≡ sum_of (λ e. e.blocked_ns) sample.target empty_table.entries
          + (if same_target sample.target sample.target then 900 else 0))
      × ((record_sample empty_table sample).untracked ≡ empty_table.untracked)
    ⊎ ((record_sample empty_table sample).entries ≡ empty_table.entries)
      × ((record_sample empty_table sample).untracked ≡ empty_table.untracked + 1)
      × All IsUsed empty_table.entries
      × All (IsOther sample.target) empty_table.entries
unfolding record_in empty_table
record_sample-sum_of_example =
    record_sample-sum_of (λ e. e.blocked_ns) sample 900 sample.target empty_table (λ e. refl)
      (
        (λ h. refl),
        (
          (λ h. refl),
          (
            (λ h. refl),
            ((λ h. refl), ((λ h. refl), ((λ h. refl), ((λ h. refl), ((λ h. refl), tt))))),
          ),
        ),
      )
