-- ===== src/Flags/Event.antt =====
-- src/EventFlag.cpp and include/EventFlag.h. An event object is its only field, the handle `m_id`.
pub mod Waiting
pub mod Values
pub mod Overloads
pub mod History
mod Examples
use cmsis_cpp.Base.{ℕ, Bool, not, ◌&&◌, ◌==◌, if◌then◌else◌}
use cmsis_cpp.Base.Int.{ℤ, ◌-ℤ◌, is_negative, signed32}
use cmsis_cpp.Ticks.{timeout_ticks}
use cmsis_cpp.Rtos.{
  Action, pure, call, gets, fail_if, ◌>>=◌, ◌>>◌, expect_ok, system_error, os_category,
  flags_category, os_error, os_error_parameter, os_wait_forever, os_flags_error_resource,
  os_flags_error_timeout,
}
use cmsis_cpp.Flags.WaitFlag.{wait_option, checked_flags, has_error}

pub data Status : Type 0 where
  no_timeout timeout : Status

pub record EventApi (W : Type 0) : Type 0 where
  pub os_kernel_get_tick_freq : W → ℕ
  pub os_event_flags_new : W → ℕ × W
  pub os_event_flags_delete : ℕ → W → ℤ × W
  pub os_event_flags_get : ℕ → W → ℕ × W
  pub os_event_flags_set : ℕ → ℕ → W → ℕ × W
  pub os_event_flags_clear : ℕ → ℕ → W → ℕ × W
  pub os_event_flags_wait : ℕ → ℕ → ℕ → ℕ → W → ℕ × W

-- swap(evt): this object and `evt`
pub swap : ℕ → ℕ → ℕ × ℕ
swap this evt = (evt, this)

-- event(event&& evt): the new object, and `evt` after it
pub move_construct : ℕ → ℕ × ℕ
unfolding swap
move_construct evt = swap 0 evt

-- operator=(event&& evt)
pub move_assign : ℕ → ℕ → ℕ × ℕ
unfolding swap
move_assign this evt = swap this evt

-- `ex` says whether exceptions are compiled in.
module _ {W : Type 0} (ex : Bool) (api : EventApi W) where
  open api use {
    os_kernel_get_tick_freq, os_event_flags_new, os_event_flags_delete, os_event_flags_get,
    os_event_flags_set, os_event_flags_clear, os_event_flags_wait,
  }

  pub set : ℕ → ℕ → Action W ℕ
  set m_id mask = do v ← call (os_event_flags_set m_id mask); checked_flags ex flags_category v

  pub construct : ℕ → Action W ℕ
  construct mask = do
    m_id ← call os_event_flags_new
    fail_if ex (m_id == 0) (system_error os_error os_category)
    if mask == 0 then pure m_id else set m_id mask >> pure m_id

  delete_handle : ℕ → Action W (Unit {0})
  delete_handle m_id = do sta ← call (os_event_flags_delete m_id); expect_ok ex sta

  -- ~event
  pub destroy : ℕ → Action W (Unit {0})
  unfolding delete_handle
  destroy m_id = if m_id == 0 then pure tt else delete_handle m_id

  pub get : ℕ → Action W ℕ
  get m_id = do v ← call (os_event_flags_get m_id); checked_flags ex os_category v

  pub clear : ℕ → ℕ → Action W ℕ
  clear m_id mask = do v ← call (os_event_flags_clear m_id mask); checked_flags ex flags_category v

  pub wait : ℕ → ℕ → ℕ → Action W ℕ
  wait m_id mask flg = do
    v ← call (os_event_flags_wait m_id mask (wait_option flg) os_wait_forever)
    checked_flags ex flags_category v

  -- The result is the status and what `flagValue` holds.
  pub wait_for_usec : ℕ → ℕ → ℕ → ℤ → Action W (Status × ℕ)
  wait_for_usec m_id mask flg usec = do
    fail_if ex (is_negative usec) (system_error os_error_parameter os_category)
    freq ← gets os_kernel_get_tick_freq
    let time = timeout_ticks usec freq
    v ← call (os_event_flags_wait m_id mask (wait_option flg) time)
    if time == 0 && v == os_flags_error_resource then pure (timeout, v) else do
      fail_if ex (has_error v && not (v == os_flags_error_timeout))
          (system_error (signed32 v) flags_category)
      pure (if v == os_flags_error_timeout then timeout else no_timeout, v)

  -- The clock of the template and the duration of its time points, microseconds here. `flag_value` is
  -- what the caller's variable held.
  pub wait_until : (W → ℤ × W) → ℕ → ℕ → ℕ → ℤ → ℕ → Action W (Status × ℕ)
  wait_until now m_id mask flg abs_time flag_value = do
    t ← call now
    let rel_time = abs_time -ℤ t
    if is_negative rel_time
        then pure (timeout, flag_value)
        else wait_for_usec m_id mask flg rel_time
