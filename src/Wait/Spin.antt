-- ===== src/Wait/Spin.antt =====
-- NativeWaitSpinBudget of native_wait_poll.h and NativeEarlyWaitPoll of native_precise_wait_policy.h.
use bolts_rebuilt.Prelude.{
  ℕ, ◌+◌, ◌-◌, ◌/◌, ◌%◌, ◌≤◌, ◌<◌, ◌≡◌, refl, ◌⊎◌, inl, inr, Bool-cases, Bool, true, false, not,
  ◌&&◌, ◌||◌, List, [], ◌∷◌, All, arith, ltb, leb, ◌==◌, if◌then◌else◌,
}

pub record SpinBudget : Type 0 where
  pub budget_ns : ℕ
  pub start_ns : ℕ
  pub started : Bool
  pub exhausted : Bool

pub spin_budget : ℕ → SpinBudget
spin_budget budget_ns = record {
  budget_ns = budget_ns;
  start_ns = 0;
  started = false;
  exhausted = false;
}

pub should_spin : SpinBudget → ℕ → SpinBudget × Bool
should_spin b now_ns =
    if b.budget_ns == 0 || b.exhausted
    then (b, false)
    else if not b.started
    then (record b { started = true; start_ns = now_ns }, true)
    else if ltb now_ns b.start_ns || leb b.budget_ns (now_ns - b.start_ns)
    then (record b { exhausted = true }, false)
    else (b, true)

-- The answers to a series of failed reads, at the given times.
pub spins : SpinBudget → List ℕ → List (ℕ × Bool)
spins b [] = []
spins b (now ∷ times) = let (c, spin) = should_spin b now in (now, spin) ∷ spins c times

-- The answer stays no.
abbrev pub NoSpin : ℕ × Bool → Type 0
NoSpin answer = answer.1 ≡ false

-- After the first no there is no other answer, and each yes was in the window.
abbrev pub InWindow : ℕ → ℕ → List (ℕ × Bool) → Type 0
InWindow start budget [] = Unit
InWindow start budget ((now, true) ∷ rest) =
    (start ≤ now) × (now < start + budget) × InWindow start budget rest
InWindow start budget ((now, false) ∷ rest) = All NoSpin rest

-- The budget is spent, or there was none.
abbrev IsDone : SpinBudget → Type 0
IsDone b = (b.budget_ns ≡ 0) ⊎ (b.exhausted ≡ true)

done_lem : (b : SpinBudget) (now : ℕ) → IsDone b → should_spin b now ≡ (b, false)
unfolding should_spin
done_lem b now h = ground arith

started_cases :
    (b : SpinBudget) (now : ℕ)
    → b.started ≡ true
    → ((should_spin b now ≡ (b, true)) × (b.start_ns ≤ now) × (now < b.start_ns + b.budget_ns))
      ⊎ ((c : SpinBudget) × (should_spin b now ≡ (c, false)) × IsDone c)
unfolding should_spin
started_cases b now h = elim (Bool-cases (b.budget_ns == 0 || b.exhausted)) [
  | inl e ↦ inr (b, ground arith, ground arith)
  | inr e ↦ elim (Bool-cases (ltb now b.start_ns || leb b.budget_ns (now - b.start_ns))) [
    | inl late ↦ inr (record b { exhausted = true }, ground arith, inr refl)
    | inr early ↦ inl (ground arith, ground arith, ground arith)
  ]
]

spins_done : (b : SpinBudget) (times : List ℕ) → IsDone b → All NoSpin (spins b times)
unfolding spins
spins_done b [] h = tt
spins_done b (now ∷ times) h = rw (done_lem b now h, spins) (refl, spins_done b times h)

spins_started :
    (b : SpinBudget) (times : List ℕ)
    → b.started ≡ true
    → InWindow b.start_ns b.budget_ns (spins b times)
unfolding spins
spins_started b [] h = tt
spins_started b (now ∷ times) h = elim (started_cases b now h) [
  | inl (e, low, high) ↦ rw (e, spins) (low, high, spins_started b times h)
  | inr (c, e, finished) ↦ rw (e, spins) (spins_done c times finished)
]

first_read :
    (budget_ns first : ℕ)
    → 0 < budget_ns
    → should_spin (spin_budget budget_ns) first ≡ (
      record { budget_ns = budget_ns; start_ns = first; started = true; exhausted = false },
      true,
    )
unfolding should_spin spin_budget
first_read budget_ns first h = ground arith

-- With a budget, whatever the times of the failed reads, the caller spins only while the clock is
-- within the budget from the first of them, and once it is told to sleep it never spins again.
pub spins-InWindow :
    (budget_ns first : ℕ) (times : List ℕ)
    → 0 < budget_ns
    → InWindow first budget_ns (spins (spin_budget budget_ns) (first ∷ times))
unfolding spins
spins-InWindow budget_ns first times h =
    rw (first_read budget_ns first h, spins)
      (
        omega arith,
        omega arith,
        spins_started
            (record { budget_ns = budget_ns; start_ns = first; started = true; exhausted = false })
            times refl,
      )

-- Without a budget it never spins.
pub spins_without_budget : (times : List ℕ) → All NoSpin (spins (spin_budget 0) times)
unfolding spin_budget
spins_without_budget times = spins_done (spin_budget 0) times (inl refl)

-- NativeEarlyWaitPoll, over the predicate reads of one packet.
pub record EarlyPoll : Type 0 where
  pub failed_once : Bool
  pub short_wait_pending : Bool

pub early_poll : EarlyPoll
early_poll = record { failed_once = false; short_wait_pending = false }

pub record Read : Type 0 where
  pub first_failure : Bool
  pub early_match : Bool

pub observe_predicate : EarlyPoll → Bool → EarlyPoll × Read
observe_predicate p matched = (
  record { failed_once = p.failed_once || not matched; short_wait_pending = false },
  record {
    first_failure = not matched && not p.failed_once;
    early_match = matched && p.short_wait_pending;
  },
)

pub should_wait_early : Read → ℕ → ℕ → Bool → Bool → Bool
should_wait_early read interval function vsync enabled =
    enabled && read.first_failure && vsync && (interval / 256 == 1) && not (function % 8 == 0)

pub did_short_wait : EarlyPoll → Bool → EarlyPoll
did_short_wait p succeeded = record p { short_wait_pending = succeeded }

-- The poll after a read, and after the short wait that follows a first failure.
pub after_read : EarlyPoll → Bool → Bool → EarlyPoll
after_read p matched waited =
    let (q, read) = observe_predicate p matched in
    if read.first_failure then did_short_wait q waited else q

-- A packet's reads in order: each may be followed by a short wait, whose success is given.
pub poll : EarlyPoll → List (Bool × Bool) → List Read
poll p [] = []
poll p ((matched, waited) ∷ reads) =
    (observe_predicate p matched).1 ∷ poll (after_read p matched waited) reads

pub first_failures : List Read → ℕ
first_failures [] = 0
first_failures (r ∷ reads) = (if r.first_failure then 1 else 0) + first_failures reads

pub early_matches : List Read → ℕ
early_matches [] = 0
early_matches (r ∷ reads) = (if r.early_match then 1 else 0) + early_matches reads

-- A short wait can be pending only behind a failed read.
abbrev IsOrderly : EarlyPoll → Type 0
IsOrderly p = (p.short_wait_pending && not p.failed_once) ≡ false

after_read-IsOrderly :
    (p : EarlyPoll) (matched waited : Bool) → IsOrderly (after_read p matched waited)
unfolding after_read observe_predicate did_short_wait
after_read-IsOrderly p matched waited = ground arith

poll_counts :
    (p : EarlyPoll) (reads : List (Bool × Bool))
    → IsOrderly p
    → (first_failures (poll p reads) ≤ (if p.failed_once then 0 else 1))
      × (early_matches (poll p reads)
          ≤ (if p.failed_once && not p.short_wait_pending then 0 else 1))
unfolding poll observe_predicate after_read did_short_wait first_failures early_matches
poll_counts p [] h = (omega arith, omega arith)
poll_counts p ((matched, waited) ∷ reads) h =
    ground (
      arith,
      poll_counts (after_read p matched waited) reads (after_read-IsOrderly p matched waited),
    )

-- A packet makes at most one short wait and counts at most one early match.
pub poll_once :
    (reads : List (Bool × Bool))
    → (first_failures (poll early_poll reads) ≤ 1) × (early_matches (poll early_poll reads) ≤ 1)
unfolding early_poll
poll_once reads = poll_counts early_poll reads refl
