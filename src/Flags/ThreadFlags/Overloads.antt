-- ===== src/Flags/ThreadFlags/Overloads.antt =====
-- include/ThreadFlag.h: the overloads of `wait_for` and `wait_until` and the default arguments. A
-- duration is handed on as microseconds without a cast.
use cmsis_cpp.Base.{ℕ, Bool, Option}
use cmsis_cpp.Base.Int.{ℤ}
use mathlib.Core.Option
use cmsis_cpp.Ticks.Durations.{Duration, implicit_usec}
use cmsis_cpp.Rtos.{Action}
use cmsis_cpp.Flags.WaitFlag.{any}
use cmsis_cpp.Flags.ThreadFlags.{ThreadFlagsApi, Status, clear, wait, wait_for_usec, wait_until}

-- `ex` says whether exceptions are compiled in. A call that does not compile is `none`.
module _ {W : Type 0} (ex : Bool) (api : ThreadFlagsApi W) where
  pub clear_all : Action W ℕ
  unfolding clear
  clear_all = clear ex api 0x7FFFFFFF

  pub wait_any : ℕ → Action W ℕ
  unfolding wait
  wait_any mask = wait ex api mask any

  pub wait_for : ℕ → ℕ → Duration → Option (Action W (Status × ℕ))
  unfolding implicit_usec
  wait_for mask flg rel_time = Option.map (wait_for_usec ex api mask flg) (implicit_usec rel_time)

  pub wait_for_any : ℕ → Duration → Option (Action W (Status × ℕ))
  unfolding wait_for
  wait_for_any mask rel_time = wait_for mask any rel_time

  pub wait_until_any : (W → ℤ × W) → ℕ → ℤ → ℕ → Action W (Status × ℕ)
  unfolding wait_until
  wait_until_any now mask abs_time flag_value = wait_until ex api now mask any abs_time flag_value
