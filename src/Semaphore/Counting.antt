-- ===== src/Semaphore/Counting.antt =====
-- include/Semaphore.h, what the templates add to `base_semaphore`: `try_acquire_for`, the class
-- `counting_semaphore<LeastMaxValue>` and `binary_semaphore`. `least_max_value` is the template's argument.
pub mod Refinement
use cmsis_cpp.Base.{ℕ, Bool}
use cmsis_cpp.Base.Int.{ℤ, pos}
use cmsis_cpp.Ticks.Durations.{Duration, duration_cast_usec}
use cmsis_cpp.Rtos.{Action}
use cmsis_cpp.Semaphore.{
  SemaphoreApi, construct, destroy, release, acquire, try_acquire, try_acquire_for_usec,
  try_acquire_until,
}

pub max : ℤ → ℤ
max least_max_value = least_max_value

-- `ex` says whether exceptions are compiled in.
module _ {W : Type 0} (ex : Bool) (api : SemaphoreApi W) where
  -- base_semaphore::try_acquire_for
  pub try_acquire_for : ℕ → Duration → Action W Bool
  unfolding duration_cast_usec
  try_acquire_for m_id rel_time = try_acquire_for_usec ex api m_id (duration_cast_usec rel_time)

  pub construct_counting : ℤ → ℤ → Action W ℕ
  unfolding max construct
  construct_counting least_max_value desired = construct ex api (max least_max_value) desired

  pub construct_binary : ℤ → Action W ℕ
  unfolding construct_counting
  construct_binary desired = construct_counting (pos 1) desired

  -- `release()`, with the default argument
  pub release_one : ℕ → Action W (Unit {0})
  unfolding release
  release_one m_id = release ex api m_id (pos 1)

  -- The methods of counting_semaphore.
  pub counting_release : ℕ → ℤ → Action W (Unit {0})
  unfolding release
  counting_release m_id update = release ex api m_id update

  pub counting_acquire : ℕ → Action W (Unit {0})
  unfolding acquire
  counting_acquire m_id = acquire ex api m_id

  pub counting_try_acquire : ℕ → Action W Bool
  unfolding try_acquire
  counting_try_acquire m_id = try_acquire ex api m_id

  pub counting_try_acquire_for : ℕ → Duration → Action W Bool
  unfolding try_acquire_for
  counting_try_acquire_for m_id rel_time = try_acquire_for m_id rel_time

  pub counting_try_acquire_until : (W → ℤ × W) → ℕ → ℤ → Action W Bool
  unfolding try_acquire_until
  counting_try_acquire_until now m_id abs_time = try_acquire_until ex api now m_id abs_time
