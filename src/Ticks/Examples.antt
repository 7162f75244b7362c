-- ===== src/Ticks/Examples.antt =====
-- Instances of the conversion's theorems: at the tick frequency 1000, a millisecond is a tick.
use cmsis_cpp.Ticks.Durations.{nanoseconds, Duration, duration_cast_usec}
use cmsis_cpp.Ticks.Durations.Casts.{ticks_of_duration}
use cmsis_cpp.Base.{ℕ, ◌+◌, ◌*◌, ◌/◌, ◌^◌, ◌≤◌, ◌<◌, ◌≡◌, arith}
use cmsis_cpp.Base.Int.{pos}
use cmsis_cpp.Ticks.{timeout_ticks, to_u32, quotient, wrap64, times, usec_max, usec_den}
use cmsis_cpp.Ticks.Range.{
  timeout_ticks_unclamped, timeout_ticks_long, timeout_ticks-usec_max, timeout_ticks_mono,
}

timeout_ticks_unclamped_example :
    timeout_ticks (pos 4294967296000) 1000
    ≡ to_u32 (quotient (wrap64 (times (pos 4294967296000) 1000)) usec_den)
timeout_ticks_unclamped_example = timeout_ticks_unclamped (pos 4294967296000) 1000

timeout_ticks_long_example :
    (k : ℕ) × (0 < k)
    × (timeout_ticks (pos 4294967296000) 1000 + k * 2 ^ 32 ≡ 4294967296000 * 1000 / usec_den)
    × (timeout_ticks (pos 4294967296000) 1000 < 2 ^ 32)
timeout_ticks_long_example = timeout_ticks_long 4294967296000 1000 (omega arith) (omega arith)

timeout_ticks-usec_max_example : timeout_ticks usec_max 1000 ≡ 0
timeout_ticks-usec_max_example = timeout_ticks-usec_max 500 (omega arith) (omega arith)

timeout_ticks_mono_example : timeout_ticks (pos 2500) 1000 ≤ timeout_ticks (pos 9000) 1000
timeout_ticks_mono_example =
    timeout_ticks_mono 2500 9000 1000 (omega arith) (omega arith) (omega arith)

-- 2.5 milliseconds, given in nanoseconds, are two ticks.
ticks_of_duration_example :
    let d : Duration = record { period = nanoseconds; count = pos 2500000 } in
    let t = timeout_ticks (duration_cast_usec d) 1000 in
    (t * usec_den * 1000 ≤ 2500000 * 1 * 1000) × (2500000 * 1 * 1000 < (t + 2) * usec_den * 1000)
ticks_of_duration_example =
    ticks_of_duration nanoseconds 2500000 1000 (omega arith) (omega arith) (omega arith)
      (omega arith)
