-- ===== src/Thread/ThisThread.antt =====
-- src/Thread.cpp and include/Thread.h, namespace this_thread: yield and the sleeping calls. (get_id is
-- `current_id` of Thread.antt.)
pub mod Sleeping
use cmsis_cpp.Base.{ℕ, zero, suc, ◌+◌, Bool, true, false, ltb, Option, none, some, if◌then◌else◌}
use cmsis_cpp.Base.Int.{ℤ, pos_part, neg_part, ◌-ℤ◌, is_positive}
use cmsis_cpp.Ticks.{timeout_ticks}
use cmsis_cpp.Ticks.Durations.{Duration, duration_cast_usec}
use cmsis_cpp.Rtos.{Action, pure, call, gets, ◌>>=◌, ◌>>◌, expect_ok}

pub record DelayApi (W : Type 0) : Type 0 where
  pub os_kernel_get_tick_freq : W → ℕ
  pub os_thread_yield : W → ℤ × W
  pub os_delay : ℕ → W → ℤ × W

abbrev pub ltb_ℤ : ℤ → ℤ → Bool
ltb_ℤ a b = ltb (pos_part a + neg_part b) (pos_part b + neg_part a)

-- `ex` says whether exceptions are compiled in.
module _ {W : Type 0} (ex : Bool) (api : DelayApi W) where
  open api use {os_kernel_get_tick_freq, os_thread_yield, os_delay}

  pub yield_thread : Action W (Unit {0})
  yield_thread = do sta ← call os_thread_yield; expect_ok ex sta

  pub sleep_for_usec : ℤ → Action W (Unit {0})
  sleep_for_usec usec =
      if is_positive usec
      then (do
        freq ← gets os_kernel_get_tick_freq
        sta ← call (os_delay (timeout_ticks usec freq))
        expect_ok ex sta)
      else pure tt

  -- sleep_for(sleep_duration)
  pub sleep_for : Duration → Action W (Unit {0})
  unfolding sleep_for_usec duration_cast_usec
  sleep_for sleep_duration = sleep_for_usec (duration_cast_usec sleep_duration)

  -- `now` is Clock::now(), in microseconds. The loop returns the last reading of the clock, and `none`
  -- where the fuel runs out.
  pub sleep_loop : (W → ℤ × W) → ℕ → ℤ → ℤ → Action W (Option ℤ)
  sleep_loop now zero t sleep_time = pure none
  sleep_loop now (suc fuel) t sleep_time =
      let again = (do
        sleep_for_usec (sleep_time -ℤ t)
        t' ← call now
        sleep_loop now fuel t' sleep_time) in
      if ltb_ℤ t sleep_time then again else pure (some t)

  -- `steady` is Clock::is_steady.
  pub sleep_until : (W → ℤ × W) → Bool → ℕ → ℤ → Action W (Option ℤ)
  unfolding sleep_loop
  sleep_until now steady fuel sleep_time = do
    t ← call now
    if steady
        then (if ltb_ℤ t sleep_time then sleep_for_usec (sleep_time -ℤ t) else pure tt)
          >> pure (some t)
        else sleep_loop now fuel t sleep_time
