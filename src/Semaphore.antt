-- ===== src/Semaphore.antt =====
-- src/Semaphore.cpp and include/Semaphore.h: `base_semaphore`; `counting_semaphore` is in Semaphore/Counting.antt.
-- A semaphore object is its only field, the handle `m_id`.
pub mod Contract
pub mod Release
pub mod Acquire
pub mod Counting
mod Examples
use cmsis_cpp.Base.{ℕ, zero, suc, ◌-◌, ◌^◌, Bool, false, not, ◌&&◌, ◌==◌, if◌then◌else◌}
use cmsis_cpp.Base.Int.{ℤ, pos, negsuc, ◌==ℤ◌, ◌-ℤ◌, is_negative}
use cmsis_cpp.Ticks.{timeout_ticks}
use cmsis_cpp.Rtos.{
  Action, pure, call, gets, fail_if, in_noexcept, ◌>>=◌, ◌>>◌, expect_ok, system_error, os_category,
  os_ok, os_error, os_error_parameter, os_error_resource, os_error_timeout, os_wait_forever,
}

pub record SemaphoreApi (W : Type 0) : Type 0 where
  pub os_kernel_get_tick_freq : W → ℕ
  pub os_semaphore_new : ℕ → ℕ → W → ℕ × W
  pub os_semaphore_delete : ℕ → W → ℤ × W
  pub os_semaphore_release : ℕ → W → ℤ × W
  pub os_semaphore_acquire : ℕ → ℕ → W → ℤ × W

-- static_cast<uint32_t> of a ptrdiff_t of 32 bits
abbrev pub u32_of_ptrdiff : ℤ → ℕ
u32_of_ptrdiff (pos n) = n
u32_of_ptrdiff (negsuc n) = 2 ^ 32 - 1 - n

-- How often `while (update--)` runs its body: a negative ptrdiff_t comes to 0 by wrapping around.
abbrev pub rounds : ℤ → ℕ
rounds (pos n) = n
rounds (negsuc n) = 2 ^ 32 - 1 - n

-- `ex` says whether exceptions are compiled in.
module _ {W : Type 0} (ex : Bool) (api : SemaphoreApi W) where
  open api use {
    os_kernel_get_tick_freq, os_semaphore_new, os_semaphore_delete, os_semaphore_release,
    os_semaphore_acquire,
  }

  unfoldable pub construct : ℤ → ℤ → Action W ℕ
  construct max desired = do
    m_id ← call (os_semaphore_new (u32_of_ptrdiff max) (u32_of_ptrdiff desired))
    fail_if ex (m_id == 0) (system_error os_error os_category)
    pure m_id

  -- ~base_semaphore
  unfoldable pub destroy : ℕ → Action W (Unit {0})
  destroy m_id = do sta ← call (os_semaphore_delete m_id); expect_ok ex sta

  unfoldable pub release_loop : ℕ → ℕ → Action W (Unit {0})
  release_loop m_id zero = pure tt
  release_loop m_id (suc update) = do
    sta ← call (os_semaphore_release m_id)
    expect_ok ex sta
    release_loop m_id update

  unfoldable pub release : ℕ → ℤ → Action W (Unit {0})
  release m_id update = release_loop m_id (rounds update)

  pub acquire : ℕ → Action W (Unit {0})
  acquire m_id = do sta ← call (os_semaphore_acquire m_id os_wait_forever); expect_ok ex sta

  pub try_acquire : ℕ → Action W Bool
  try_acquire m_id = in_noexcept (do sta ← call (os_semaphore_acquire m_id 0); pure (sta ==ℤ os_ok))

  unfoldable pub try_acquire_for_usec : ℕ → ℤ → Action W Bool
  try_acquire_for_usec m_id usec = do
    fail_if ex (is_negative usec) (system_error os_error_parameter os_category)
    freq ← gets os_kernel_get_tick_freq
    let timeout = timeout_ticks usec freq
    sta ← call (os_semaphore_acquire m_id timeout)
    if timeout == 0 && sta ==ℤ os_error_resource then pure false else do
      fail_if ex (not (sta ==ℤ os_ok) && not (sta ==ℤ os_error_timeout))
          (system_error sta os_category)
      pure (sta ==ℤ os_ok)

  -- The clock of the template and the duration of its time points, microseconds here.
  pub try_acquire_until : (W → ℤ × W) → ℕ → ℤ → Action W Bool
  try_acquire_until now m_id abs_time = do
    t ← call now
    let rel_time = abs_time -ℤ t
    if is_negative rel_time then pure false else try_acquire_for_usec m_id rel_time
