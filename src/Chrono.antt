-- ===== src/Chrono.antt =====
-- src/Chrono.cpp and include/Chrono.h: the clocks. Times are counts of the clock's unit.
pub mod Clocks
mod Examples
use cmsis_cpp.Base.{ℕ, zero, suc, ◌*◌, ◌/◌, ◌%◌, ◌^◌, Option, none, some, ◌==◌, if◌then◌else◌}
use cmsis_cpp.Base.Int.{ℤ, pos, negsuc}
use mathlib.Core.Option

pub record ClockApi (W : Type 0) : Type 0 where
  pub os_kernel_get_tick_count : W → ℕ
  pub os_kernel_get_tick_freq : W → ℕ
  pub os_kernel_get_sys_timer_count : W → ℕ
  pub os_kernel_get_sys_timer_freq : W → ℕ

-- convertDuration<D>, with `den` for D::period::den and 1 for D::period::num; the count is a uint64_t,
-- and the division by a frequency of 0 is undefined: `none`.
pub convert_duration : ℕ → ℕ → ℕ → Option ℕ
convert_duration den count freq = if freq == 0 then none else some (count * den % 2 ^ 64 / freq)

abbrev pub usec_den : ℕ
usec_den = 1000000

abbrev pub nsec_den : ℕ
nsec_den = 1000000000

module _ {W : Type 0} (api : ClockApi W) where
  open api use {
    os_kernel_get_tick_count, os_kernel_get_tick_freq, os_kernel_get_sys_timer_count,
    os_kernel_get_sys_timer_freq,
  }

  -- system_clock::now, in microseconds
  pub system_now : W → Option ℕ
  unfolding convert_duration
  system_now w = convert_duration usec_den (os_kernel_get_tick_count w) (os_kernel_get_tick_freq w)

  -- high_resolution_clock::now, in nanoseconds
  pub high_resolution_now : W → Option ℕ
  unfolding convert_duration
  high_resolution_now w =
      convert_duration nsec_den (os_kernel_get_sys_timer_count w) (os_kernel_get_sys_timer_freq w)

  -- _gettimeofday with both arguments not NULL: tv_sec, tv_usec, tz_minuteswest and tz_dsttime
  pub gettimeofday : W → Option (ℕ × ℕ × ℕ × ℕ)
  unfolding convert_duration
  gettimeofday w =
      Option.map (λ now. (now / 1000000, now % 1000000, 0, 0))
        (convert_duration usec_den (os_kernel_get_tick_count w) (os_kernel_get_tick_freq w))

-- -n
abbrev neg : ℕ → ℤ
neg zero = pos 0
neg (suc n) = negsuc n

-- system_clock::to_time_t: duration_cast to seconds, which drops the fraction
pub to_time_t : ℤ → ℤ
to_time_t (pos usec) = pos (usec / usec_den)
to_time_t (negsuc n) = neg (suc n / usec_den)

-- system_clock::from_time_t
pub from_time_t : ℤ → ℤ
from_time_t (pos sec) = pos (sec * usec_den)
from_time_t (negsuc n) = neg (suc n * usec_den)
