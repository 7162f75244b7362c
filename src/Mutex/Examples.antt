-- ===== src/Mutex/Examples.antt =====
-- Instances of the mutex's theorems: the sample mutex, free and taken by another thread.
use cmsis_cpp.Ticks.{timeout_ticks}
use cmsis_cpp.Base.{ℕ, ◌<◌, List, [], ◌∷◌, ◌==◌, if◌then◌else◌}
use cmsis_cpp.Base.Int.{ℤ}
use cmsis_cpp.Rtos.{os_ok, os_error_timeout}
use cmsis_cpp.Mutex.{MutexApi}
use cmsis_cpp.Mutex.History.{
  tries, polls, gives, Op, taken, given, missed, failed, Holding, free, take, give, HasOwner,
  spec_run, history, mutex_history-refines,
}
use cmsis_cpp.Mutex.History.Exclusion.{held, history-excludes}
use cmsis_cpp.Base.{Bool, false}
use cmsis_cpp.Base.{◌≡◌, true, refl}
use cmsis_cpp.Base.Int.{pos}
use cmsis_cpp.Rtos.{ok, throw, ◌>>◌, system_error, os_category, os_error_resource}
use cmsis_cpp.Mutex.{lock, unlock, try_lock, try_lock_for_usec}
use cmsis_cpp.Mutex.Contract.{
  sample_api, sample_available, sample_depth, sample-IsMutex, sample_free, sample_taken,
}
use cmsis_cpp.Base.{arith}
use cmsis_cpp.Mutex.Recursion.{IsRecursive, lock_many, unlock_many, unlock_many-lock_many}
use cmsis_cpp.Mutex.Locking.{
  Tried, try_lock_contended, try_lock_available, try_lock_for_usec-Tried, unlock-lock,
  unlock_unheld,
}

try_lock_contended_example :
    (try_lock true sample_api 1 sample_taken).0 ≡ throw (system_error os_error_resource os_category)
try_lock_contended_example =
    try_lock_contended true sample_api 1 sample_available sample_depth sample-IsMutex sample_taken
      refl

try_lock_available_example :
    ((try_lock true sample_api 1 sample_free).0 ≡ ok true)
    × ((try_lock true sample_api 1 sample_free).1.held ≡ 1)
try_lock_available_example =
    try_lock_available true sample_api 1 sample_available sample_depth sample-IsMutex sample_free
      refl

try_lock_for_usec-Tried_example :
    Tried sample_depth sample_taken (try_lock_for_usec true sample_api 1 (pos 250) sample_taken)
try_lock_for_usec-Tried_example =
    try_lock_for_usec-Tried true sample_api 1 sample_available sample_depth sample-IsMutex 250
      sample_taken

unlock-lock_example :
    (((lock true sample_api 1 >> unlock true sample_api 1) sample_free).0 ≡ ok tt)
    × (((lock true sample_api 1 >> unlock true sample_api 1) sample_free).1.held ≡ 0)
unlock-lock_example =
    unlock-lock true sample_api 1 sample_available sample_depth sample-IsMutex sample_free refl

unlock_unheld_example :
    ((unlock true sample_api 1 sample_free).0 ≡ throw (system_error os_error_resource os_category))
    × ((unlock true sample_api 1 sample_free).1.held ≡ 0)
unlock_unheld_example =
    unlock_unheld true sample_api 1 sample_available sample_depth sample-IsMutex sample_free refl

sample-IsRecursive : IsRecursive sample_api 1 sample_available
sample-IsRecursive = record { stays_available = λ timeout s. ground arith }

unlock_many-lock_many_example :
    let s₁ = (lock_many true sample_api 1 3 sample_free).1 in
    let s₂ = (unlock_many true sample_api 1 3 s₁).1 in
    ((lock_many true sample_api 1 3 sample_free).0 ≡ ok tt)
    × (s₁.held ≡ 3)
    × ((unlock_many true sample_api 1 3 s₁).0 ≡ ok tt)
    × (s₂.held ≡ 0)
    × ((unlock true sample_api 1 s₂).0 ≡ throw (system_error os_error_resource os_category))
unlock_many-lock_many_example =
    unlock_many-lock_many true sample_api 1 sample_available sample_depth sample-IsMutex
      sample-IsRecursive 3 sample_free refl refl

-- Several threads: the running thread's id, and who holds the mutex.
record Threads : Type 0 where
  running : ℕ
  holding : Holding

abbrev owned_acquire : Bool → ℕ → ℕ → Threads → ℤ × Threads
owned_acquire recursive m_id timeout s =
    if free recursive s.running s.holding
    then (os_ok, record s { holding = take s.running s.holding })
    else (if timeout == 0 then os_error_resource else os_error_timeout, s)

abbrev owned_api : Bool → MutexApi Threads
owned_api recursive = record {
  os_kernel_get_tick_freq = λ s. 1000;
  os_mutex_new = λ attr s. (1, s);
  os_mutex_delete = λ m_id s. (os_ok, s);
  os_mutex_acquire = owned_acquire recursive;
  os_mutex_release = λ m_id s.
      if s.holding.owner == s.running
      then (os_ok, record s { holding = give s.holding })
      else (os_error_resource, s);
}

abbrev switch_to : ℕ → Threads → Threads
switch_to i s = record s { running = i }

owned-HasOwner :
    (recursive : Bool)
    → HasOwner (owned_api recursive) 1 recursive (λ s. s.running) (λ s. s.holding) switch_to
owned-HasOwner recursive = record {
  switch_running = λ i s. refl;
  switch_view = λ i s. refl;
  acquire_free = λ timeout s h. ground arith;
  acquire_busy = λ s h. ground arith;
  release_owned = λ s h. ground arith;
  release_other = λ s h. ground arith;
}

abbrev nobody : Threads
nobody = record { running = 0; holding = record { owner = 0; depth = 0 } }

-- The thread 0 locks twice, 1 tries both ways and unlocks in vain, 0 unlocks twice, and 1 locks.
abbrev sample_calls : List Op
sample_calls =
    record { thread = 0; call = tries }
    ∷ record { thread = 0; call = polls }
    ∷ record { thread = 1; call = tries }
    ∷ record { thread = 1; call = polls }
    ∷ record { thread = 1; call = gives }
    ∷ record { thread = 0; call = gives }
    ∷ record { thread = 0; call = gives }
    ∷ record { thread = 1; call = tries }
    ∷ []

mutex_history-refines_example :
    ((history (owned_api true) 1 switch_to sample_calls nobody).0
      ≡ (spec_run true sample_calls nobody.holding).0)
    × ((history (owned_api true) 1 switch_to sample_calls nobody).1.holding
        ≡ (spec_run true sample_calls nobody.holding).1)
mutex_history-refines_example =
    mutex_history-refines (owned_api true) 1 true (λ s. s.running) (λ s. s.holding) switch_to
      (owned-HasOwner true) sample_calls nobody

spec_run_recursive : spec_run true sample_calls nobody.holding ≡ (
  taken ∷ taken ∷ failed ∷ missed ∷ failed ∷ given ∷ given ∷ taken ∷ [],
  record { owner = 2; depth = 1 },
)
unfolding spec_run
spec_run_recursive = refl

-- A mutex that is not recursive is not taken twice, and so it is free after one unlock.
spec_run_plain :
    (spec_run false sample_calls nobody.holding).0
    ≡ taken ∷ missed ∷ failed ∷ missed ∷ failed ∷ given ∷ failed ∷ taken ∷ []
unfolding spec_run
spec_run_plain = refl

-- The thread 1 has a lock at the end.
one_holds : 0 < held 1 sample_calls (history (owned_api true) 1 switch_to sample_calls nobody).0 0
unfolding history held try_lock try_lock_for_usec unlock timeout_ticks
one_holds = omega arith

history-excludes_example :
    held 0 sample_calls (history (owned_api true) 1 switch_to sample_calls nobody).0 0 ≡ 0
history-excludes_example =
    history-excludes (owned_api true) 1 true (λ s. s.running) (λ s. s.holding) switch_to
      (owned-HasOwner true) sample_calls nobody 1 0 refl (λ e. omega arith) one_holds
