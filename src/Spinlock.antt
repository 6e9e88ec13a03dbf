-- ===== src/Spinlock.antt =====
-- src/kernel/spinlock.c: a lock that cores take with an atomic exchange. The cores run in any
-- order, one access of the lock a step; `cores` says where each core is.
pub mod Exclusion
mod Tests
use geek_toy_os.Base.{ℕ, Bool, true, false, ◌==◌, if◌then◌else◌, update, ◌≡◌}

-- Where a core is: outside, in the loop of `acquire`, or between `acquire` and `release`.
pub data Place : Type 0 where
  outside : Place
  spinning : Place
  holding : Place

pub record State : Type 0 where
  pub lock : ℕ
  pub cores : ℕ → Place

-- `atomic_exchange(&lock->lock, 1)` and the test of the loop.
pub try_acquire : State → (core : ℕ) → State
try_acquire s core = record {
  lock = 1;
  cores = update s.cores core (if s.lock == 0 then holding else spinning);
}

-- `acquire` is called: the core comes to the loop.
pub enter : State → (core : ℕ) → State
enter s core = record s { cores = update s.cores core spinning }

pub release : State → (core : ℕ) → State
release s core = record { lock = 0; cores = update s.cores core outside }

-- A step of one core, where it is.
pub data Step : State → State → Type 0 where
  call : {s : State} (core : ℕ) → s.cores core ≡ outside → Step s (enter s core)
  exchange : {s : State} (core : ℕ) → s.cores core ≡ spinning → Step s (try_acquire s core)
  leave : {s : State} (core : ℕ) → s.cores core ≡ holding → Step s (release s core)

-- Any number of steps.
pub data Steps : State → State → Type 0 where
  stay : {s : State} → Steps s s
  step : {s t u : State} → Steps s t → Step t u → Steps s u

-- The lock is free and no core is near it.
pub start : State
start = record { lock = 0; cores = λ core. outside }
