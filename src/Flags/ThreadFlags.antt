-- ===== src/Flags/ThreadFlags.antt =====
-- src/ThreadFlag.cpp and include/ThreadFlag.h: the flags of a thread. A thread handle is a number, 0
-- for null.
pub mod Agreement
pub mod History
mod Examples
pub mod Overloads
use cmsis_cpp.Base.{ℕ, Bool, not, ◌&&◌, ◌==◌, if◌then◌else◌}
use cmsis_cpp.Base.Int.{ℤ, ◌-ℤ◌, is_negative, signed32}
use cmsis_cpp.Ticks.{timeout_ticks}
use cmsis_cpp.Rtos.{
  Action, pure, call, gets, fail_if, ◌>>=◌, ◌>>◌, system_error, os_category, flags_category,
  os_error_parameter, os_error_resource, os_wait_forever, os_flags_error_resource,
  os_flags_error_timeout,
}
use cmsis_cpp.Flags.WaitFlag.{wait_option, checked_flags, has_error}

pub data Status : Type 0 where
  no_timeout timeout : Status

pub record ThreadFlagsApi (W : Type 0) : Type 0 where
  pub os_kernel_get_tick_freq : W → ℕ
  pub os_thread_get_id : W → ℕ
  pub os_thread_flags_set : ℕ → ℕ → W → ℕ × W
  pub os_thread_flags_clear : ℕ → W → ℕ × W
  pub os_thread_flags_get : W → ℕ × W
  pub os_thread_flags_wait : ℕ → ℕ → ℕ → W → ℕ × W

-- `ex` says whether exceptions are compiled in.
module _ {W : Type 0} (ex : Bool) (api : ThreadFlagsApi W) where
  open api use {
    os_kernel_get_tick_freq, os_thread_get_id, os_thread_flags_set, os_thread_flags_clear,
    os_thread_flags_get, os_thread_flags_wait,
  }

  -- thread_flags::set, for the native handle of a thread
  pub set_for : ℕ → ℕ → Action W ℕ
  set_for native_handle mask = do
    v ← call (os_thread_flags_set native_handle mask)
    checked_flags ex os_category v

  -- this_thread::flags::set
  pub set : ℕ → Action W ℕ
  set mask = do
    tid ← gets os_thread_get_id
    fail_if ex (tid == 0) (system_error os_error_resource os_category)
    v ← call (os_thread_flags_set tid mask)
    checked_flags ex os_category v

  pub get : Action W ℕ
  get = do v ← call os_thread_flags_get; checked_flags ex flags_category v

  pub clear : ℕ → Action W ℕ
  clear mask = do v ← call (os_thread_flags_clear mask); checked_flags ex flags_category v

  pub wait : ℕ → ℕ → Action W ℕ
  wait mask flg = do
    v ← call (os_thread_flags_wait mask (wait_option flg) os_wait_forever)
    checked_flags ex flags_category v

  -- The result is the status and what `flagValue` holds.
  pub wait_for_usec : ℕ → ℕ → ℤ → Action W (Status × ℕ)
  wait_for_usec mask flg usec = do
    fail_if ex (is_negative usec) (system_error os_error_parameter os_category)
    freq ← gets os_kernel_get_tick_freq
    let time = timeout_ticks usec freq
    v ← call (os_thread_flags_wait mask (wait_option flg) time)
    if time == 0 && v == os_flags_error_resource then pure (timeout, v) else do
      fail_if ex (has_error v && not (v == os_flags_error_timeout))
          (system_error (signed32 v) flags_category)
      pure (if v == os_flags_error_timeout then timeout else no_timeout, v)

  -- The clock of the template and the duration of its time points, microseconds here. `flag_value` is
  -- what the caller's variable held.
  pub wait_until : (W → ℤ × W) → ℕ → ℕ → ℤ → ℕ → Action W (Status × ℕ)
  wait_until now mask flg abs_time flag_value = do
    t ← call now
    let rel_time = abs_time -ℤ t
    if is_negative rel_time then pure (timeout, flag_value) else wait_for_usec mask flg rel_time
