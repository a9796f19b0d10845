-- ===== src/Replay.antt =====
-- The CPU slot of native_replay_worker.cpp: one job, its state, the session of chunks, the latched
-- result and the counts. A handle is a number, 0 for null; an HRESULT is its 32-bit pattern. What
-- the D3D12 interfaces answer is the parameter `Answers`, and the calls made on them are listed.
-- The recorded stream (src/gpu/native/native_command_stream) is its commands and whether its
-- pipeline handles are resolved.
pub mod Step
use bolts_rebuilt.Prelude.{
  ℕ, ◌+◌, Bool, true, false, not, ◌&&◌, ◌||◌, List, [], ◌∷◌, ◌++◌, Option, none, some, leb, ◌==◌,
  if◌then◌else◌,
}

abbrev pub failed : ℕ → Bool
failed result = leb 0x80000000 result

abbrev pub pending : ℕ
pending = 0x8000000A

pub data State : Type 0 where
  idle : State
  queued : State
  running : State
  complete : State

pub data Operation : Type 0 where
  whole : Operation
  begin : Operation
  append : Operation
  finish : Operation

pub record Stream : Type 0 where
  pub resolved : Bool
  pub commands : List ℕ

pub record JobResult : Type 0 where
  pub fence_value : ℕ
  pub allocator_reset : ℕ
  pub list_reset : ℕ
  pub replay : ℕ
  pub close : ℕ
  pub signal : ℕ
  pub result : ℕ
  pub queue_execute_attempted : Bool

pub record Job : Type 0 where
  pub allocator : ℕ
  pub queue : ℕ
  pub fence : ℕ
  pub report : JobResult
  pub operation : Operation

pub record Stats : Type 0 where
  pub submitted : ℕ
  pub completed : ℕ
  pub failures : ℕ
  pub chunk_sessions : ℕ
  pub chunks_submitted : ℕ
  pub chunks_completed : ℕ
  pub chunk_sessions_completed : ℕ
  pub chunks_failed : ℕ
  pub last : JobResult

pub record Worker : Type 0 where
  pub stream : Stream
  pub job : Job
  pub state : State
  pub stop : Bool
  pub joinable : Bool
  pub session_active : Bool
  pub result : ℕ
  pub stats : Stats

-- A freshly constructed report, for the fence value of a job.
abbrev pub new_report : ℕ → JobResult
new_report value = record {
  fence_value = value;
  allocator_reset = pending;
  list_reset = pending;
  replay = pending;
  close = pending;
  signal = pending;
  result = 0;
  queue_execute_attempted = false;
}

abbrev pub is_idle : State → Bool
is_idle State.idle = true
is_idle _ = false

abbrev pub is_queued : State → Bool
is_queued State.queued = true
is_queued _ = false

abbrev pub is_running : State → Bool
is_running State.running = true
is_running _ = false

abbrev pub is_complete : State → Bool
is_complete State.complete = true
is_complete _ = false

abbrev pub is_whole : Operation → Bool
is_whole Operation.whole = true
is_whole _ = false

abbrev pub is_finish : Operation → Bool
is_finish Operation.finish = true
is_finish _ = false

abbrev pub is_final : Operation → Bool
is_final operation = is_whole operation || is_finish operation

-- Whether the job is the first of its command list.
abbrev pub is_first : Operation → Bool
is_first Operation.whole = true
is_first Operation.begin = true
is_first _ = false

abbrev increment_if : Bool → ℕ → ℕ
increment_if b n = if b then n + 1 else n

abbrev pub no_stats : Stats
no_stats = record {
  submitted = 0;
  completed = 0;
  failures = 0;
  chunk_sessions = 0;
  chunks_submitted = 0;
  chunks_completed = 0;
  chunk_sessions_completed = 0;
  chunks_failed = 0;
  last = new_report 0;
}

-- The worker that TryCreate returns, with its thread launched.
abbrev pub new_worker : Worker
new_worker = record {
  stream = record { resolved = true; commands = [] };
  job = record {
    allocator = 0;
    queue = 0;
    fence = 0;
    report = new_report 0;
    operation = Operation.whole;
  };
  state = State.idle;
  stop = false;
  joinable = true;
  session_active = false;
  result = 0;
  stats = no_stats;
}

-- Start: the answer, the worker, and the stream the caller is left with.
pub start : Worker → Stream → ℕ → ℕ → ℕ → ℕ → Bool → Bool × Worker × Stream
start w source allocator queue fence value chunks =
    if allocator == 0
      || queue == 0
      || fence == 0
      || value == 0
      || value == 0xFFFFFFFFFFFFFFFF
      || not source.resolved
    then (false, w, source)
    else if w.stop || not w.joinable || not (is_idle w.state) || w.session_active || failed w.result
    then (false, w, source)
    else (
      true,
      record w {
        job = record {
          allocator = allocator;
          queue = queue;
          fence = fence;
          report = new_report value;
          operation = if chunks then Operation.begin else Operation.whole;
        };
        stream = source;
        session_active = chunks;
        state = State.queued;
        stats = record w.stats {
          chunk_sessions = increment_if chunks w.stats.chunk_sessions;
          chunks_submitted = increment_if chunks w.stats.chunks_submitted;
          submitted = increment_if (not chunks) w.stats.submitted;
        };
      },
      w.stream,
    )

pub reap_completed : Worker → Worker
reap_completed w =
    if not (is_complete w.state)
    then w
    else let final = is_final w.job.operation in
      let chunk = not (is_whole w.job.operation) in
      let bad = failed w.job.report.result in
      record w {
        job = if final then record w.job { allocator = 0; queue = 0; fence = 0 } else w.job;
        session_active = w.session_active && not final;
        state = State.idle;
        stats = record w.stats {
          last = if final then w.job.report else w.stats.last;
          chunks_completed = increment_if chunk w.stats.chunks_completed;
          chunks_failed = increment_if (chunk && bad) w.stats.chunks_failed;
          completed = increment_if final w.stats.completed;
          failures = increment_if (final && bad) w.stats.failures;
          chunk_sessions_completed =
              increment_if (is_finish w.job.operation && not bad) w.stats.chunk_sessions_completed;
        };
      }

pub ready_for_chunk : Worker → Bool × Worker
ready_for_chunk w =
    let r = reap_completed w in
    (not r.stop && r.joinable && is_idle r.state && not (failed r.result), r)

pub try_append_chunk : Worker → Stream → Bool × Worker × Stream
try_append_chunk w source =
    if not source.resolved
    then (false, w, source)
    else let r = reap_completed w in
      if r.stop
        || not r.joinable
        || not (is_idle r.state)
        || not r.session_active
        || failed r.result
      then (false, r, source)
      else (
        true,
        record r {
          job = record r.job { operation = Operation.append };
          stream = source;
          state = State.queued;
          stats = record r.stats { chunks_submitted = r.stats.chunks_submitted + 1 };
        },
        r.stream,
      )

pub finish_chunks : Worker → Stream → Bool × Worker × Stream
finish_chunks w source =
    if not source.resolved
    then (false, w, source)
    else if w.stop
        || not w.joinable
        || not (is_idle w.state)
        || not w.session_active
        || failed w.result
    then (false, w, source)
    else (
      true,
      record w {
        job = record w.job { operation = Operation.finish };
        stream = source;
        state = State.queued;
        stats = record w.stats {
          chunks_submitted = w.stats.chunks_submitted + 1;
          submitted = w.stats.submitted + 1;
        };
      },
      w.stream,
    )

-- Wait, when its condition holds: `none` while the job is queued or running.
pub wait : Worker → Option (ℕ × Worker)
wait w =
    if is_idle w.state || is_complete w.state
    then some (let r = reap_completed w in (r.result, r))
    else none
