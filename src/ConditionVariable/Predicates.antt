-- ===== src/ConditionVariable/Predicates.antt =====
-- src/ConditionVariable.cpp, `wait_for_usec` and `wait` as the calling thread runs them, and the calls of
-- include/ConditionVariable.h that stand on them: deadlines and loops over a predicate.
pub mod World
use cmsis_cpp.Base.{
  ℕ, zero, suc, Bool, true, false, not, List, [], ◌∷◌, ◌++◌, Option, none, some, if◌then◌else◌,
}
use cmsis_cpp.Base.Int.{ℤ, pos, ◌-ℤ◌, is_negative}
use cmsis_cpp.Ticks.{usec_max}
use cmsis_cpp.Ticks.Durations.{Duration, duration_cast_usec}
use cmsis_cpp.Rtos.{Action, pure, call, gets, terminates, ◌>>=◌, ◌>>◌, with_lock, with_destroyed}
use cmsis_cpp.Semaphore
use cmsis_cpp.Semaphore.{SemaphoreApi}
use cmsis_cpp.ConditionVariable.{CvStatus, no_timeout, timeout, contains, remove}

-- What a condition variable works on: `m_mutex`, `m_wait`, and the caller's `lock`.
pub record CvContext (W : Type 0) : Type 0 where
  pub semaphores : SemaphoreApi W
  pub mutex_lock : Action W (Unit {0})
  pub mutex_unlock : Action W (Unit {0})
  pub m_wait : W → List ℕ
  pub set_m_wait : List ℕ → W → W
  pub owns_lock : W → Bool
  pub lock : Action W (Unit {0})
  pub unlock : Action W (Unit {0})

module _ {W : Type 0} (ex : Bool) (cv : CvContext W) where
  open cv use {semaphores, mutex_lock, mutex_unlock, m_wait, set_m_wait, owns_lock}

  -- `m_wait.insert(m_wait.end(), &sema)`
  pub insert : ℕ → Action W (Unit {0})
  insert sema w = pure tt (set_m_wait (m_wait w ++ sema ∷ []) w)

  -- `m_wait.erase(it)`; where the element is gone the behaviour is undefined, and the model stops.
  pub erase : ℕ → Action W (Unit {0})
  erase sema w =
      if contains sema (m_wait w)
      then pure tt (set_m_wait (remove sema (m_wait w)) w)
      else terminates w

  pub finish : ℕ → Bool → Action W CvStatus
  finish sema st =
      if not st
      then with_lock mutex_lock mutex_unlock (erase sema) >> pure timeout
      else pure no_timeout

  -- The destructor of `sema` runs on every way out, and may throw.
  pub wait_for_usec : ℤ → Action W CvStatus
  wait_for_usec usec = do
    owns ← gets owns_lock
    if not owns then terminates else do
      sema ← Semaphore.construct ex semaphores (pos 1) (pos 0)
      with_destroyed (Semaphore.destroy ex semaphores sema) (do
        with_lock mutex_lock mutex_unlock (insert sema)
        cv.unlock
        st ← Semaphore.try_acquire_for_usec ex semaphores sema usec
        cv.lock
        finish sema st)

  pub wait : Action W (Unit {0})
  wait = wait_for_usec usec_max >> pure tt

  -- wait_for(lock, rel_time)
  pub wait_for : Duration → Action W CvStatus
  unfolding duration_cast_usec
  wait_for rel_time = wait_for_usec (duration_cast_usec rel_time)

  -- The clock of the template and the duration of its time points, microseconds here.
  pub wait_until : (W → ℤ × W) → ℤ → Action W CvStatus
  wait_until now abs_time = do
    t ← call now
    let rel_time = abs_time -ℤ t
    if is_negative rel_time then pure timeout else wait_for_usec rel_time

-- `while (!pred()) wait(lock);`, where `none` says that the fuel ran out.
pub wait_loop :
    {W : Type 0} → Action W (Unit {0}) → Action W Bool → ℕ → Action W (Option (Unit {0}))
wait_loop waits pred zero = pure none
wait_loop waits pred (suc fuel) =
    let again = waits >> wait_loop waits pred fuel in
    do b ← pred; if b then pure (some tt) else again

-- `while (!pred()) { if (wait_until(lock, abs_time) == timeout) return pred(); } return true;`
pub wait_until_loop : {W : Type 0} → Action W CvStatus → Action W Bool → ℕ → Action W (Option Bool)
wait_until_loop waits pred zero = pure none
wait_until_loop waits pred (suc fuel) =
    let again = wait_until_loop waits pred fuel in
    do
      b ← pred
      if b then pure (some true) else do
        st ← waits
        elim st [ timeout ↦ pred >>= λ last. pure (some last) | no_timeout ↦ again ]

module _ {W : Type 0} (ex : Bool) (cv : CvContext W) where
  pub wait_predicate : Action W Bool → ℕ → Action W (Option (Unit {0}))
  wait_predicate pred fuel = wait_loop (wait ex cv) pred fuel

  pub wait_until_predicate : (W → ℤ × W) → ℤ → Action W Bool → ℕ → Action W (Option Bool)
  wait_until_predicate now abs_time pred fuel =
      wait_until_loop (wait_until ex cv now abs_time) pred fuel

  -- `now` is clock_t::now().
  pub wait_for_predicate : (W → ℤ × W) → ℤ → Action W Bool → ℕ → Action W (Option Bool)
  wait_for_predicate now rel_time pred fuel = do
    t ← call now
    wait_until_loop (wait_until ex cv now (t -ℤ (pos 0 -ℤ rel_time))) pred fuel
