-- ===== src/Mutex.antt =====
-- src/Mutex.cpp and include/Mutex.h: `base_timed_mutex` and the four classes over it.
-- A mutex object is its only field, the handle `m_id`.
pub mod Contract
pub mod Locking
pub mod Recursion
pub mod Classes
pub mod History
mod Examples
use Prim.Native.Nat.{bit_or}
use Prim.Native.String.{String}
use cmsis_cpp.Base.{ℕ, Bool, true, false, not, ◌&&◌, ◌==◌, if◌then◌else◌}
use cmsis_cpp.Base.Int.{ℤ, ◌==ℤ◌, ◌-ℤ◌, is_negative}
use cmsis_cpp.Ticks.{timeout_ticks}
use cmsis_cpp.Rtos.{
  Action, pure, call, gets, fail_if, ◌>>=◌, ◌>>◌, expect_ok, system_error, os_category, os_ok,
  os_error, os_error_parameter, os_error_resource, os_error_timeout, os_wait_forever,
  os_mutex_recursive, os_mutex_prio_inherit,
}

-- The fields of osMutexAttr_t that the constructor sets to other than NULL and 0.
pub record MutexAttr : Type 0 where
  pub name : String
  pub attr_bits : ℕ

pub record MutexApi (W : Type 0) : Type 0 where
  pub os_kernel_get_tick_freq : W → ℕ
  pub os_mutex_new : MutexAttr → W → ℕ × W
  pub os_mutex_delete : ℕ → W → ℤ × W
  pub os_mutex_acquire : ℕ → ℕ → W → ℤ × W
  pub os_mutex_release : ℕ → W → ℤ × W

-- The four public classes differ in what their constructors pass down.
pub data Kind : Type 0 where
  mutex recursive_mutex timed_mutex recursive_timed_mutex : Kind

abbrev pub kind_name : Kind → String
kind_name mutex = "mutex"
kind_name recursive_mutex = "recursive_mutex"
kind_name timed_mutex = "timed_mutex"
kind_name recursive_timed_mutex = "recursive_timed_mutex"

abbrev pub kind_recursive : Kind → Bool
kind_recursive mutex = false
kind_recursive recursive_mutex = true
kind_recursive timed_mutex = false
kind_recursive recursive_timed_mutex = true

pub mutex_attr : String → Bool → MutexAttr
mutex_attr name recursive = record {
  name = name;
  attr_bits =
      if recursive then bit_or os_mutex_prio_inherit os_mutex_recursive else os_mutex_prio_inherit;
}

-- `ex` says whether exceptions are compiled in.
module _ {W : Type 0} (ex : Bool) (api : MutexApi W) where
  open api use {
    os_kernel_get_tick_freq, os_mutex_new, os_mutex_delete, os_mutex_acquire, os_mutex_release,
  }

  pub construct : String → Bool → Action W ℕ
  construct name recursive = do
    m_id ← call (os_mutex_new (mutex_attr name recursive))
    fail_if ex (m_id == 0) (system_error os_error os_category)
    pure m_id

  pub construct_kind : Kind → Action W ℕ
  construct_kind k = construct (kind_name k) (kind_recursive k)

  -- ~base_timed_mutex
  pub destroy : ℕ → Action W (Unit {0})
  destroy m_id = do sta ← call (os_mutex_delete m_id); expect_ok ex sta

  pub lock : ℕ → Action W (Unit {0})
  lock m_id = do sta ← call (os_mutex_acquire m_id os_wait_forever); expect_ok ex sta

  pub unlock : ℕ → Action W (Unit {0})
  unlock m_id = do sta ← call (os_mutex_release m_id); expect_ok ex sta

  pub try_lock : ℕ → Action W Bool
  try_lock m_id = do
    sta ← call (os_mutex_acquire m_id 0)
    fail_if ex (not (sta ==ℤ os_ok) && not (sta ==ℤ os_error_timeout))
        (system_error sta os_category)
    pure (not (sta ==ℤ os_error_timeout))

  pub try_lock_for_usec : ℕ → ℤ → Action W Bool
  try_lock_for_usec m_id usec = do
    fail_if ex (is_negative usec) (system_error os_error_parameter os_category)
    freq ← gets os_kernel_get_tick_freq
    let timeout = timeout_ticks usec freq
    sta ← call (os_mutex_acquire m_id timeout)
    if timeout == 0 && sta ==ℤ os_error_resource then pure false else do
      fail_if ex (not (sta ==ℤ os_ok) && not (sta ==ℤ os_error_timeout))
          (system_error sta os_category)
      pure (not (sta ==ℤ os_error_timeout))

  -- The clock of the template and the duration of its time points, microseconds here.
  pub try_lock_until : (W → ℤ × W) → ℕ → ℤ → Action W Bool
  try_lock_until now m_id abs_time = do
    t ← call now
    let rel_time = abs_time -ℤ t
    if is_negative rel_time then pure false else try_lock_for_usec m_id rel_time
