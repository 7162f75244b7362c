-- ===== src/Flags/Event/Overloads.antt =====
-- include/EventFlag.h: the overloads of `wait_for` and `wait_until`, the default arguments and the
-- free function `swap`. A duration is handed on as microseconds without a cast.
use cmsis_cpp.Base.{ℕ, Bool, Option}
use cmsis_cpp.Base.Int.{ℤ}
use mathlib.Core.Option
use cmsis_cpp.Ticks.Durations.{Duration, implicit_usec}
use cmsis_cpp.Rtos.{Action}
use cmsis_cpp.Flags.WaitFlag.{any}
use cmsis_cpp.Flags.Event.{
  EventApi, Status, construct, swap, clear, wait, wait_for_usec, wait_until,
}

abbrev pub all_flags : ℕ
all_flags = 0x7FFFFFFF

-- swap(__x, __y)
pub swap_events : ℕ → ℕ → ℕ × ℕ
unfolding swap
swap_events x y = swap x y

-- `ex` says whether exceptions are compiled in. A call that does not compile is `none`.
module _ {W : Type 0} (ex : Bool) (api : EventApi W) where
  pub construct_default : Action W ℕ
  unfolding construct
  construct_default = construct ex api 0

  pub clear_all : ℕ → Action W ℕ
  unfolding clear
  clear_all m_id = clear ex api m_id all_flags

  pub wait_any : ℕ → ℕ → Action W ℕ
  unfolding wait
  wait_any m_id mask = wait ex api m_id mask any

  pub wait_for : ℕ → ℕ → ℕ → Duration → Option (Action W (Status × ℕ))
  unfolding implicit_usec
  wait_for m_id mask flg rel_time =
      Option.map (wait_for_usec ex api m_id mask flg) (implicit_usec rel_time)

  pub wait_for_any : ℕ → ℕ → Duration → Option (Action W (Status × ℕ))
  unfolding wait_for
  wait_for_any m_id mask rel_time = wait_for m_id mask any rel_time

  pub wait_until_any : (W → ℤ × W) → ℕ → ℕ → ℤ → ℕ → Action W (Status × ℕ)
  unfolding wait_until
  wait_until_any now m_id mask abs_time flag_value =
      wait_until ex api now m_id mask any abs_time flag_value
