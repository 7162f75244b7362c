-- ===== src/Ticks/Durations.antt =====
-- The durations that the templates of the headers take: a count of one of the periods of
-- <chrono>, as an int64_t, and the two ways in which it becomes std::chrono::microseconds. Where the
-- source writes duration_cast the result is rounded towards zero; where it passes the duration to a
-- parameter of type microseconds the conversion is implicit, and exists only without rounding.
pub mod Casts
use cmsis_cpp.Base.{ℕ, ◌*◌, ◌%◌, Option, none, some, ◌==◌, if◌then◌else◌}
use cmsis_cpp.Base.Int.{ℤ}
use cmsis_cpp.Ticks.{times, wrap64, quotient}

pub data Period : Type 0 where
  nanoseconds microseconds milliseconds seconds minutes hours : Period

-- Period::num and Period::den
abbrev pub period_num : Period → ℕ
period_num nanoseconds = 1
period_num microseconds = 1
period_num milliseconds = 1
period_num seconds = 1
period_num minutes = 60
period_num hours = 3600

abbrev pub period_den : Period → ℕ
period_den nanoseconds = 1000000000
period_den microseconds = 1000000
period_den milliseconds = 1000
period_den seconds = 1
period_den minutes = 1
period_den hours = 1

-- The period divided by a microsecond, as a fraction in lowest terms.
abbrev pub scale_num : Period → ℕ
scale_num nanoseconds = 1
scale_num microseconds = 1
scale_num milliseconds = 1000
scale_num seconds = 1000000
scale_num minutes = 60000000
scale_num hours = 3600000000

abbrev pub scale_den : Period → ℕ
scale_den nanoseconds = 1000
scale_den microseconds = 1
scale_den milliseconds = 1
scale_den seconds = 1
scale_den minutes = 1
scale_den hours = 1

pub record Duration : Type 0 where
  pub period : Period
  pub count : ℤ

-- std::chrono::duration_cast<std::chrono::microseconds>(d)
unfoldable pub duration_cast_usec : Duration → ℤ
unfolding times wrap64 quotient
duration_cast_usec d = quotient (wrap64 (times d.count (scale_num d.period))) (scale_den d.period)

-- `d` as an argument of type std::chrono::microseconds: `none` where that does not compile, as the period
-- is no whole number of microseconds.
unfoldable pub implicit_usec : Duration → Option ℤ
unfolding duration_cast_usec
implicit_usec d =
    if period_num d.period * 1000000 % period_den d.period == 0
    then some (duration_cast_usec d)
    else none
