-- ===== src/Replay/Step.antt =====
-- The worker's thread: Run and ExecuteJob of native_replay_worker.cpp, and the destructor.
pub mod Accounts
use bolts_rebuilt.Prelude.{
  ℕ, ◌+◌, Bool, true, false, not, ◌&&◌, ◌||◌, List, [], ◌∷◌, ◌++◌, Option, none, some, leb, ◌==◌,
  if◌then◌else◌,
}
use bolts_rebuilt.Replay.{
  State, Operation, Stream, JobResult, Job, Worker, failed, is_first, is_final, is_queued,
  is_running, wait,
}

-- What the D3D12 interfaces answer in one run of ExecuteJob; `thrown` is the exception that the
-- replay throws, if it does.
pub data Exception : Type 0 where
  bad_alloc : Exception
  other : Exception

pub record Answers : Type 0 where
  pub allocator_reset : ℕ
  pub list_reset : ℕ
  pub thrown : Option Exception
  pub close : ℕ
  pub signal : ℕ

pub data Call : Type 0 where
  reset_allocator : ℕ → Call
  reset_list : ℕ → Call
  replay_commands : List ℕ → Call
  close_list : Call
  execute_lists : ℕ → Call
  signal_fence : ℕ → ℕ → Call

-- E_OUTOFMEMORY and E_UNEXPECTED.
abbrev pub code_of : Exception → ℕ
code_of Exception.bad_alloc = 0x8007000E
code_of Exception.other = 0x8000FFFF

-- The calls up to the replay, and the report with the error that ended them.
pub open_list : Worker → Answers → List Call × JobResult × Option ℕ
open_list w d =
    let report = w.job.report in
    if not (is_first w.job.operation)
    then ([], report, none)
    else let report' = record report { allocator_reset = d.allocator_reset } in
      if failed d.allocator_reset
      then (Call.reset_allocator w.job.allocator ∷ [], report', some d.allocator_reset)
      else let calls =
          Call.reset_allocator w.job.allocator ∷ Call.reset_list w.job.allocator ∷ [] in
        let report'' = record report' { list_reset = d.list_reset } in
        if failed d.list_reset
        then (calls, report'', some d.list_reset)
        else (calls, report'', none)

-- The calls from the replay on.
pub replay_list : Worker → Answers → JobResult → List Call × JobResult × ℕ
replay_list w d report = elim d.thrown [
  | some e ↦ (Call.replay_commands w.stream.commands ∷ [], report, code_of e)
  | none ↦
      let report' = record report { replay = 0 } in
      if not (is_final w.job.operation)
      then (Call.replay_commands w.stream.commands ∷ [], report', 0)
      else let report'' = record report' { close = d.close } in
        if failed d.close
        then (Call.replay_commands w.stream.commands ∷ Call.close_list ∷ [], report'', d.close)
        else (
          Call.replay_commands w.stream.commands
              ∷ Call.close_list
              ∷ Call.execute_lists w.job.queue
              ∷ Call.signal_fence w.job.fence report.fence_value
              ∷ [],
          record report'' { queue_execute_attempted = true; signal = d.signal },
          d.signal,
        )
]

-- ExecuteJob: the calls made, the report and the result.
pub execute_job : Worker → Answers → List Call × JobResult × ℕ
execute_job w d =
    let (calls, report, stopped) = open_list w d in
    let (more, report', result) = replay_list w d report in
    elim stopped [ some error ↦ (calls, report, error) | none ↦ (calls ++ more, report', result) ]

-- Run, up to the unlock: it takes the queued job. `none` while there is none or after the stop.
pub take_job : Worker → Option Worker
take_job w =
    if w.stop || not (is_queued w.state) then none else some (record w { state = State.running })

-- Run, from the unlock: the running job is executed and published.
pub complete_job : Worker → Answers → Option (List Call × Worker)
complete_job w d =
    if not (is_running w.state)
    then none
    else let (calls, report, result) = execute_job w d in
      some (
        calls,
        record w {
          job = record w.job { report = record report { result = result } };
          state = State.complete;
          result = if failed result then result else w.result;
        },
      )

-- ~NativeReplayWorker: Wait, the stop and the join.
pub destroy : Worker → Option Worker
destroy w = elim (wait w) [
  | none ↦ none
  | some (result, r) ↦ some (record r { stop = true; joinable = false })
]
