-- ===== src/Wait/Precise.antt =====
-- NativeWaitAtLeastNs of native_precise_wait_policy.h over a timer that the program is given: its
-- clock, the making of the timer, and the one-shot wait are operations on the timer's state.
use bolts_rebuilt.Prelude.{
  ℕ, zero, suc, ◌+◌, ◌-◌, ◌*◌, ◌/◌, ◌%◌, ◌^◌, ◌≤◌, ◌<◌, ◌≡◌, inl, inr, Bool, true, false, not,
  Bool-cases, arith, ltb, leb, ◌==◌, if◌then◌else◌,
}

-- The template parameter Backend.
pub record Backend : Type 1 where
  pub Timer : Type 0
  pub now_ns : Timer → Timer × ℕ
  pub ensure_timer : Timer → Timer × Bool
  pub wait_relative : Timer → ℕ → Timer × Bool

abbrev pub max_nanoseconds : ℕ
max_nanoseconds = (2 ^ 32 - 1) * 1000000

-- int64_t(remaining / 100 + (remaining % 100 != 0)), a due time in ticks of 100 ns.
unfoldable pub ticks_of : ℕ → ℕ
ticks_of remaining_ns = remaining_ns / 100 + (if remaining_ns % 100 == 0 then 0 else 1)

module _ (backend : Backend) where
  open backend use {Timer, now_ns, ensure_timer, wait_relative}

  -- The loop, with `left` waits still allowed: it is entered with 8, and its last pass only reads.
  unfoldable pub attempts : ℕ → ℕ → ℕ → ℕ → Timer → Timer × Bool
  attempts zero start previous requested_ns timer =
      let (timer', now) = now_ns timer in
      if ltb now previous then (timer', false) else (timer', leb requested_ns (now - start))
  attempts (suc left) start previous requested_ns timer =
      let (timer', now) = now_ns timer in
      let (timer'', signaled) = wait_relative timer' (ticks_of (requested_ns - (now - start))) in
      let rest = attempts left start now requested_ns timer'' in
      if ltb now previous
      then (timer', false)
      else if leb requested_ns (now - start)
      then (timer', true)
      else if not signaled
      then (timer'', false)
      else rest

  unfoldable pub wait_at_least_ns : Timer → ℕ → Timer × Bool
  wait_at_least_ns timer requested_ns =
      let (timer', start) = now_ns timer in
      let (timer'', made) = ensure_timer timer' in
      let looped = attempts 8 start start requested_ns timer'' in
      if requested_ns == 0
      then (timer, true)
      else if ltb max_nanoseconds requested_ns
      then (timer, false)
      else if not made
      then (timer'', false)
      else looped

  pub wait_at_least : Timer → ℕ → Timer × Bool
  wait_at_least timer milliseconds = wait_at_least_ns timer (milliseconds * 1000000)

  -- The last thing that the loop does before it succeeds is to read a clock that is late enough.
  abbrev pub ReadLate : ℕ → Timer → Type 0
  ReadLate time after = (before : Timer) × (time ≤ (now_ns before).1) × (after ≡ (now_ns before).0)

  attempts-ReadLate :
      (left start previous requested_ns : ℕ) (timer : Timer)
      → start ≤ previous
      → (attempts left start previous requested_ns timer).1 ≡ true
      → ReadLate (start + requested_ns) (attempts left start previous requested_ns timer).0
  unfolding attempts
  attempts-ReadLate zero start previous requested_ns timer p h = (timer, ground arith, ground arith)
  attempts-ReadLate (suc left) start previous requested_ns timer p h =
      let now = (now_ns timer).1 in
      let waited = wait_relative (now_ns timer).0 (ticks_of (requested_ns - (now - start))) in
      let next = attempts left start now requested_ns waited.0 in
      elim (Bool-cases (ltb now previous)) [
        | inl back ↦ absurd (ground arith)
        | inr on ↦ elim (Bool-cases (leb requested_ns (now - start))) [
          | inl late ↦ (timer, ground arith, ground arith)
          | inr early ↦
              let (before, q, e) =
                attempts-ReadLate left start now requested_ns waited.0 (ground arith)
                  (ground arith) in
              (before, q, ground (arith, e))
        ]
      ]

  -- A wait of more than no time that is said to have succeeded has lasted: its last act is to
  -- read a time that is the requested time, or more, after the time read first.
  pub wait_at_least_ns-ReadLate :
      (timer : Timer) (requested_ns : ℕ)
      → 0 < requested_ns
      → (wait_at_least_ns timer requested_ns).1 ≡ true
      → ReadLate ((now_ns timer).1 + requested_ns) (wait_at_least_ns timer requested_ns).0
  unfolding wait_at_least_ns
  wait_at_least_ns-ReadLate timer requested_ns p h =
      let start = (now_ns timer).1 in
      let made = ensure_timer (now_ns timer).0 in
      let (before, q, e) =
        attempts-ReadLate 8 start start requested_ns made.0 (omega arith) (ground arith) in
      (before, q, ground (arith, e))

  abbrev pub clock : Timer → ℕ
  clock timer = (now_ns timer).1

  -- A timer that can be made, a clock that does not go back, and waits that last and are signaled.
  pub record IsPrompt : Type 0 where
    pub makes : (timer : Timer) → (ensure_timer timer).1 ≡ true
    pub reads : (timer : Timer) → clock timer ≤ clock (now_ns timer).0
    pub keeps : (timer : Timer) → clock timer ≤ clock (ensure_timer timer).0
    pub signals : (timer : Timer) (ticks : ℕ) → (wait_relative timer ticks).1 ≡ true
    pub lasts :
        (timer : Timer) (ticks : ℕ)
        → clock timer + ticks * 100 ≤ clock (wait_relative timer ticks).0

  attempts_late :
      (left start previous requested_ns : ℕ) (timer : Timer)
      → previous ≤ clock timer
      → start + requested_ns ≤ clock timer
      → (attempts left start previous requested_ns timer).1 ≡ true
  unfolding attempts
  attempts_late zero start previous requested_ns timer p q = ground arith
  attempts_late (suc left) start previous requested_ns timer p q = ground arith

  ticks_enough : (remaining_ns : ℕ) → remaining_ns ≤ ticks_of remaining_ns * 100
  unfolding ticks_of
  ticks_enough remaining_ns = ground arith

  attempts_prompt :
      (left start previous requested_ns : ℕ) (timer : Timer)
      → IsPrompt
      → start ≤ previous
      → previous ≤ clock timer
      → (attempts (suc left) start previous requested_ns timer).1 ≡ true
  unfolding attempts
  attempts_prompt left start previous requested_ns timer prompt p q =
      let now = clock timer in
      let remaining = requested_ns - (now - start) in
      let read = (now_ns timer).0 in
      let waited = (wait_relative read (ticks_of remaining)).0 in
      ground (
        arith,
        prompt.signals read (ticks_of remaining),
        prompt.lasts read (ticks_of remaining),
        prompt.reads timer,
        ticks_enough remaining,
        attempts_late left start now requested_ns waited,
      )

  -- With a timer that can be made, a clock that does not go back and waits that last, every wait
  -- within the bound of the millisecond calls succeeds.
  pub wait_at_least_ns_succeeds :
      (timer : Timer) (requested_ns : ℕ)
      → IsPrompt
      → requested_ns ≤ max_nanoseconds
      → (wait_at_least_ns timer requested_ns).1 ≡ true
  unfolding wait_at_least_ns
  wait_at_least_ns_succeeds timer requested_ns prompt small =
      let start = clock timer in
      let read = (now_ns timer).0 in
      ground (
        arith,
        prompt.makes read,
        attempts_prompt 7 start start requested_ns (ensure_timer read).0 prompt (omega arith)
            (omega (arith, prompt.reads timer, prompt.keeps read)),
      )
