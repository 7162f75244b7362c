-- ===== src/Timer.antt =====
-- src/Timer.cpp and include/Timer.h: `cmsis_timer`, which owns the RTOS timer, and `timer`, which is a
-- unique pointer to one.
pub mod Running
pub mod History
mod Examples
use cmsis_cpp.Base.{ℕ, Bool, true, false, not, ◌==◌, Option, none, some, if◌then◌else◌}
use cmsis_cpp.Base.Int.{ℤ, is_negative}
use cmsis_cpp.Ticks.{timeout_ticks}
use cmsis_cpp.Rtos.{
  Action, pure, call, gets, fail, fail_if, in_noexcept, ◌>>=◌, ◌>>◌, expect_ok, system_error,
  os_category, os_error, os_error_parameter, os_error_resource, os_timer_once, os_timer_periodic,
}

pub data TimerType : Type 0 where
  once periodic : TimerType

pub record TimerApi (W : Type 0) : Type 0 where
  pub os_kernel_get_tick_freq : W → ℕ
  pub os_timer_new : ℕ → W → ℕ × W
  pub os_timer_delete : ℕ → W → ℤ × W
  pub os_timer_start : ℕ → ℕ → W → ℤ × W
  pub os_timer_stop : ℕ → W → ℤ × W
  pub os_timer_is_running : ℕ → W → ℕ

-- A constructed `cmsis_timer`: its callback is not empty.
pub record CmsisTimer (W : Type 0) : Type 0 where
  pub m_callback : Action W Bool
  pub m_id : ℕ
  pub m_usec : ℤ

-- m_pImplTimer
abbrev pub Timer : Type 0 → Type 0
Timer W = Option (CmsisTimer W)

abbrev is_once : TimerType → Bool
is_once once = true
is_once periodic = false

-- `ex` says whether exceptions are compiled in.
module _ {W : Type 0} (ex : Bool) (api : TimerApi W) where
  open api use {
    os_kernel_get_tick_freq, os_timer_new, os_timer_delete, os_timer_start, os_timer_stop,
    os_timer_is_running,
  }

  -- cmsis_timer(usec, function, bOnce); an empty std::function is `none`
  pub construct_impl : ℤ → Option (Action W Bool) → Bool → Action W (CmsisTimer W)
  construct_impl usec function b_once = elim function [
    | none ↦ fail ex (system_error os_error_parameter os_category)
    | some callback ↦ do
      fail_if ex (is_negative usec) (system_error os_error_parameter os_category)
      m_id ← call (os_timer_new (if b_once then os_timer_once else os_timer_periodic))
      fail_if ex (m_id == 0) (system_error os_error os_category)
      pure (record { m_callback = callback; m_id = m_id; m_usec = usec })
  ]

  -- ~cmsis_timer
  pub destroy_impl : CmsisTimer W → Action W (Unit {0})
  destroy_impl t = do sta ← call (os_timer_delete t.m_id); expect_ok ex sta

  pub start_impl : CmsisTimer W → Action W (Unit {0})
  start_impl t = do
    freq ← gets os_kernel_get_tick_freq
    sta ← call (os_timer_start t.m_id (timeout_ticks t.m_usec freq))
    expect_ok ex sta

  pub stop_impl : CmsisTimer W → Action W (Unit {0})
  stop_impl t = do sta ← call (os_timer_stop t.m_id); expect_ok ex sta

  pub running_impl : CmsisTimer W → Action W Bool
  running_impl t = do n ← gets (os_timer_is_running t.m_id); pure (not (n == 0))

  -- The function that the RTOS calls when the timer expires.
  pub handler : CmsisTimer W → Action W (Unit {0})
  unfolding running_impl stop_impl
  handler t = do
    r ← running_impl t
    if not r then pure tt else do again ← t.m_callback; if not again then stop_impl t else pure tt

  pub construct : ℤ → Option (Action W Bool) → TimerType → Action W (Timer W)
  unfolding construct_impl
  construct usec function type = do t ← construct_impl usec function (is_once type); pure (some t)

  -- The deleter of the unique pointer is noexcept, whatever ~cmsis_timer is.
  reset : Timer W → Action W (Unit {0})
  reset none = pure tt
  reset (some t) = in_noexcept (destroy_impl t)

  -- timer(timer&& t): the new object, and `t` after it
  pub move_construct : Timer W → Timer W × Timer W
  move_construct t = (t, none)

  -- operator=(timer&& t): `same` says whether `t` is this object; this object and `t` after it
  pub move_assign : Bool → Timer W → Timer W → Action W (Timer W × Timer W)
  unfolding reset destroy_impl
  move_assign same this t = if same then pure (this, t) else do reset this; pure (t, none)

  -- ~timer
  pub destroy : Timer W → Action W (Unit {0})
  unfolding reset destroy_impl
  destroy t = reset t

  pub swap : Timer W → Timer W → Timer W × Timer W
  swap this t = (t, this)

  -- swap(__x, __y)
  pub swap_timers : Timer W → Timer W → Timer W × Timer W
  unfolding swap
  swap_timers x y = swap x y

  -- timer()
  pub construct_empty : Timer W
  construct_empty = none

  pub start : Timer W → Action W (Unit {0})
  unfolding start_impl
  start none = fail ex (system_error os_error_resource os_category)
  start (some t) = start_impl t

  pub stop : Timer W → Action W (Unit {0})
  unfolding stop_impl
  stop none = fail ex (system_error os_error_resource os_category)
  stop (some t) = stop_impl t

  pub running : Timer W → Action W Bool
  unfolding running_impl
  running none = pure false
  running (some t) = running_impl t
