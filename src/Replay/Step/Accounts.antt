-- ===== src/Replay/Step/Accounts.antt =====
-- The jobs that the worker was given, completed and signalled, over any interleaving of the command
-- thread's calls and the worker's thread.
use bolts_rebuilt.Prelude.{
  true, false, sym, ℕ, ◌+◌, ◌≤◌, ◌≡◌, refl, sym, Bool, true, not, ◌&&◌, ◌||◌, List, [], ◌∷◌, ◌++◌,
  Option-cases, inl, inr, none, some, if◌then◌else◌, arith,
}
use mathlib.Core.Path.{subst}
use bolts_rebuilt.Replay.{
  State, new_worker, Stream, JobResult, Worker, failed, is_final, is_idle, is_queued, is_whole,
  is_running, is_complete, wait, start, try_append_chunk, finish_chunks, ready_for_chunk,
  reap_completed,
}
use bolts_rebuilt.Replay.Step.{
  Answers, Call, open_list, replay_list, execute_job, take_job, complete_job, destroy,
}

pub record System : Type 0 where
  pub worker : Worker
  pub calls : List Call

pub signals : List Call → ℕ
signals [] = 0
signals (Call.signal_fence fence value ∷ calls) = signals calls + 1
signals (_ ∷ calls) = signals calls

signals-append : (xs ys : List Call) → signals (xs ++ ys) ≡ signals xs + signals ys
unfolding signals
signals-append [] ys = omega arith
signals-append (Call.reset_allocator a ∷ xs) ys = signals-append xs ys
signals-append (Call.reset_list a ∷ xs) ys = signals-append xs ys
signals-append (Call.replay_commands a ∷ xs) ys = signals-append xs ys
signals-append (Call.close_list ∷ xs) ys = signals-append xs ys
signals-append (Call.execute_lists a ∷ xs) ys = signals-append xs ys
signals-append (Call.signal_fence a b ∷ xs) ys = omega (arith, signals-append xs ys)

abbrev pub one_if : Bool → ℕ
one_if b = if b then 1 else 0

open_list-signals : (w : Worker) (d : Answers) → signals (open_list w d).0 ≡ 0
unfolding open_list signals
open_list-signals w d = ground arith

open_list-failed :
    (w : Worker) (d : Answers) (error : ℕ) → (open_list w d).2 ≡ some error → failed error ≡ true
unfolding open_list
open_list-failed w d error stopped = ground arith

-- What the calls and the result of a job are to have: at most one signal, none unless the job is
-- final, and one when a final job succeeds.
abbrev Signalled : Bool → List Call → ℕ → Type 0
Signalled final calls result =
    (signals calls ≤ one_if final) × (one_if (final && not (failed result)) ≤ signals calls)

replay_list-signals :
    (w : Worker) (d : Answers) (report : JobResult)
    → Signalled (is_final w.job.operation) (replay_list w d report).0 (replay_list w d report).2
unfolding replay_list signals
replay_list-signals w d report = ground arith

execute_job-stopped :
    (w : Worker) (d : Answers) (error : ℕ)
    → (open_list w d).2 ≡ some error
    → execute_job w d ≡ ((open_list w d).0, (open_list w d).1, error)
unfolding execute_job
execute_job-stopped w d error h = rw (execute_job, h) refl

execute_job-opened :
    (w : Worker) (d : Answers)
    → (open_list w d).2 ≡ none
    → execute_job w d ≡ (
      (open_list w d).0 ++ (replay_list w d (open_list w d).1).0,
      (replay_list w d (open_list w d).1).1,
      (replay_list w d (open_list w d).1).2,
    )
unfolding execute_job
execute_job-opened w d h = rw (execute_job, h) refl

execute_job-signals :
    (w : Worker) (d : Answers)
    → Signalled (is_final w.job.operation) (execute_job w d).0 (execute_job w d).2
execute_job-signals w d = elim (Option-cases (open_list w d).2) [
  | inl h ↦ rw (execute_job-opened w d h) (
      rw
        (
          signals-append (open_list w d).0 (replay_list w d (open_list w d).1).0,
          open_list-signals w d,
        )
        (let (most, least) = replay_list-signals w d (open_list w d).1 in
          (omega arith, omega arith)))
  | inr (error, h) ↦ rw (execute_job-stopped w d error h) (
      let none_yet = open_list-signals w d in
      let bad = open_list-failed w d error h in ground arith)
]

pub data Step : System → System → Type 0 where
  starts :
      (s : System) (source : Stream) (allocator queue fence value : ℕ) (chunks : Bool)
      → Step s (record s { worker = (start s.worker source allocator queue fence value chunks).1 })
  polls : (s : System) → Step s (record s { worker = (ready_for_chunk s.worker).1 })
  appends :
      (s : System) (source : Stream)
      → Step s (record s { worker = (try_append_chunk s.worker source).1 })
  finishes :
      (s : System) (source : Stream)
      → Step s (record s { worker = (finish_chunks s.worker source).1 })
  waits :
      (s : System) (result : ℕ) (w : Worker)
      → wait s.worker ≡ some (result, w)
      → Step s (record s { worker = w })
  takes : (s : System) (w : Worker) → take_job s.worker ≡ some w → Step s (record s { worker = w })
  completes :
      (s : System) (d : Answers) (calls : List Call) (w : Worker)
      → complete_job s.worker d ≡ some (calls, w)
      → Step s (record { worker = w; calls = s.calls ++ calls })
  destroys :
      (s : System) (w : Worker) → destroy s.worker ≡ some w → Step s (record s { worker = w })

-- The final job in the slot, and the one that has not been executed yet.
abbrev pub is_open : Worker → Bool
is_open w = not (is_idle w.state) && is_final w.job.operation

abbrev pub is_chunk_open : Worker → Bool
is_chunk_open w = not (is_idle w.state) && not (is_whole w.job.operation)

abbrev is_unsigned : Worker → Bool
is_unsigned w = (is_queued w.state || is_running w.state) && is_final w.job.operation

abbrev is_done : Worker → Bool
is_done w = is_complete w.state && is_final w.job.operation && not (failed w.job.report.result)

abbrev Balanced : Worker → ℕ → Type 0
Balanced w n =
    (w.stats.submitted ≡ w.stats.completed + one_if (is_open w))
    × (w.stats.chunks_submitted ≡ w.stats.chunks_completed + one_if (is_chunk_open w))
    × (n + one_if (is_unsigned w) ≤ w.stats.submitted)
    × (w.stats.completed + one_if (is_done w) ≤ n + w.stats.failures)

wait-reap : (w r : Worker) (result : ℕ) → wait w ≡ some (result, r) → r ≡ reap_completed w
unfolding wait
wait-reap w r result h = ground arith

take_job-running :
    (w r : Worker)
    → take_job w ≡ some r
    → (r ≡ record w { state = State.running }) × (w.state ≡ State.queued)
unfolding take_job
take_job-running w r h = ground arith

destroy-reap :
    (w r : Worker)
    → destroy w ≡ some r
    → r ≡ record (reap_completed w) { stop = true; joinable = false }
unfolding destroy wait
destroy-reap w r h = ground arith

complete_job-complete :
    (w r : Worker) (d : Answers) (calls : List Call)
    → complete_job w d ≡ some (calls, r)
    → (r ≡ record w {
      job = record w.job { report = record (execute_job w d).1 { result = (execute_job w d).2 } };
      state = State.complete;
      result = if failed (execute_job w d).2 then (execute_job w d).2 else w.result;
    })
      × (calls ≡ (execute_job w d).0)
      × (w.state ≡ State.running)
unfolding complete_job
complete_job-complete w r d calls h = ground arith

start-Balanced :
    (w : Worker) (n : ℕ) (source : Stream) (allocator queue fence value : ℕ) (chunks : Bool)
    → Balanced w n
    → Balanced (start w source allocator queue fence value chunks).1 n
unfolding start
start-Balanced w n source allocator queue fence value chunks b = ground arith

reap_completed-Balanced : (w : Worker) (n : ℕ) → Balanced w n → Balanced (reap_completed w) n
unfolding reap_completed
reap_completed-Balanced w n b = ground arith

finish_chunks-Balanced :
    (w : Worker) (n : ℕ) (source : Stream) → Balanced w n → Balanced (finish_chunks w source).1 n
unfolding finish_chunks
finish_chunks-Balanced w n source b = ground arith

try_append_chunk-Balanced :
    (w : Worker) (n : ℕ) (source : Stream) → Balanced w n → Balanced (try_append_chunk w source).1 n
unfolding try_append_chunk
try_append_chunk-Balanced w n source b = let reaped = reap_completed-Balanced w n b in ground arith

wait-Balanced :
    (w r : Worker) (n result : ℕ) → wait w ≡ some (result, r) → Balanced w n → Balanced r n
wait-Balanced w r n result h b =
    let reaped : r ≡ reap_completed w = wait-reap w r result h in
    subst (λ x. Balanced x n) (sym reaped) (reap_completed-Balanced w n b)

take_job-Balanced : (w r : Worker) (n : ℕ) → take_job w ≡ some r → Balanced w n → Balanced r n
unfolding take_job
take_job-Balanced w r n h b =
    let (same, queued) = take_job-running w r h in
    subst (λ x. Balanced x n) (sym same) (ground arith)

destroy-Balanced : (w r : Worker) (n : ℕ) → destroy w ≡ some r → Balanced w n → Balanced r n
destroy-Balanced w r n h b =
    let same = destroy-reap w r h in
    let reaped = reap_completed-Balanced w n b in subst (λ x. Balanced x n) (sym same) reaped

complete_job-Balanced :
    (w r : Worker) (n : ℕ) (d : Answers) (calls : List Call)
    → complete_job w d ≡ some (calls, r)
    → Balanced w n
    → Balanced r (n + signals calls)
complete_job-Balanced w r n d calls h b =
    let (same, listed, running) = complete_job-complete w r d calls h in
    let (most, least) = execute_job-signals w d in
    subst (λ x. Balanced x (n + signals calls)) (sym same) (rw listed (ground arith))

Step-Balanced :
    (s s' : System)
    → Step s s'
    → Balanced s.worker (signals s.calls)
    → Balanced s'.worker (signals s'.calls)
unfolding ready_for_chunk
Step-Balanced s _ (starts _ source allocator queue fence value chunks) b =
    start-Balanced s.worker (signals s.calls) source allocator queue fence value chunks b
Step-Balanced s _ (polls _) b = reap_completed-Balanced s.worker (signals s.calls) b
Step-Balanced s _ (appends _ source) b =
    try_append_chunk-Balanced s.worker (signals s.calls) source b
Step-Balanced s _ (finishes _ source) b = finish_chunks-Balanced s.worker (signals s.calls) source b
Step-Balanced s _ (waits _ result w h) b = wait-Balanced s.worker w (signals s.calls) result h b
Step-Balanced s _ (takes _ w h) b = take_job-Balanced s.worker w (signals s.calls) h b
Step-Balanced s _ (completes _ d calls w h) b =
    rw (signals-append s.calls calls)
      (complete_job-Balanced s.worker w (signals s.calls) d calls h b)
Step-Balanced s _ (destroys _ w h) b = destroy-Balanced s.worker w (signals s.calls) h b

-- The systems that the new worker reaches.
pub data Reach : System → Type 0 where
  created : Reach (record { worker = new_worker; calls = [] })
  step : (s s' : System) → Reach s → Step s s' → Reach s'

Reach-Balanced : (s : System) → Reach s → Balanced s.worker (signals s.calls)
unfolding signals
Reach-Balanced s created = ground arith
Reach-Balanced s (step p _ reach h) = Step-Balanced p s h (Reach-Balanced p reach)

-- In every system reached by calls of the command thread and turns of the worker thread in any
-- order: the submitted jobs are the completed ones and the final job in the slot, if there is
-- one; the same holds for chunks; the fence is signalled at most as often as jobs were submitted,
-- and at least as often as jobs were completed without a failure.
pub Reach-signals :
    (s : System)
    → Reach s
    → (s.worker.stats.submitted ≡ s.worker.stats.completed + one_if (is_open s.worker))
      × (s.worker.stats.chunks_submitted
          ≡ s.worker.stats.chunks_completed + one_if (is_chunk_open s.worker))
      × (signals s.calls ≤ s.worker.stats.submitted)
      × (s.worker.stats.completed ≤ signals s.calls + s.worker.stats.failures)
Reach-signals s reach =
    let (jobs, chunks, most, least) = Reach-Balanced s reach in
    (jobs, chunks, omega arith, omega arith)
