-- ===== src/Chrono/Examples.antt =====
-- Instances of the clocks' theorems: a tick counter at 1000 Hz, which is the state, and a system timer at
-- 72 MHz.
use cmsis_cpp.Base.{ℕ, ◌+◌, ◌*◌, ◌≤◌, ◌<◌, ◌≡◌, refl, some, arith}
use cmsis_cpp.Base.Int.{pos, negsuc}
use cmsis_cpp.Ticks.{timeout_ticks}
use cmsis_cpp.Chrono.{
  ClockApi, system_now, high_resolution_now, gettimeofday, usec_den, nsec_den, to_time_t,
  from_time_t,
}
use cmsis_cpp.Chrono.Clocks.{
  clocks_exact, timeout_ticks-system_now, system_now_wraps, gettimeofday-system_now,
  to_time_t-from_time_t,
}

abbrev sample_api : ClockApi ℕ
sample_api = record {
  os_kernel_get_tick_count = λ n. n;
  os_kernel_get_tick_freq = λ n. 1000;
  os_kernel_get_sys_timer_count = λ n. 360;
  os_kernel_get_sys_timer_freq = λ n. 72000000;
}

clocks_exact_example :
    (usec : ℕ) × (nsec : ℕ) × (system_now sample_api 7 ≡ some usec)
    × (high_resolution_now sample_api 7 ≡ some nsec)
    × (usec * 1000 ≤ 7 * usec_den)
    × (7 * usec_den < (usec + 1) * 1000)
    × (nsec * 72000000 ≤ 360 * nsec_den)
    × (360 * nsec_den < (nsec + 1) * 72000000)
clocks_exact_example =
    clocks_exact sample_api 7 (omega arith) (omega arith) (omega arith) (omega arith)

timeout_ticks-system_now_example :
    (usec : ℕ) × (system_now sample_api 7 ≡ some usec)
    × (timeout_ticks (pos usec) 1000 ≤ 7)
    × (7 ≤ timeout_ticks (pos usec) 1000 + 1)
timeout_ticks-system_now_example =
    timeout_ticks-system_now sample_api 7 (omega arith) (omega arith) (omega arith)

system_now_wraps_example :
    (now : ℕ) × (later : ℕ) × (system_now sample_api 4294967290 ≡ some now)
    × (system_now sample_api 4 ≡ some later)
    × (later < now)
system_now_wraps_example =
    system_now_wraps sample_api 4 4294967290 10 (omega arith) (omega arith) (omega arith) refl refl
      (omega arith) (omega arith)

gettimeofday-system_now_example :
    (sec : ℕ) × (rest : ℕ) × (gettimeofday sample_api 2500 ≡ some (sec, rest, 0, 0))
    × (sec * 1000000 + rest ≡ 2500000)
    × (rest < 1000000)
unfolding system_now
gettimeofday-system_now_example = gettimeofday-system_now sample_api 2500000 2500 refl

to_time_t-from_time_t_example :
    (to_time_t (from_time_t (negsuc 4)) ≡ negsuc 4)
    × (sec : ℕ) × (from_time_t (to_time_t (pos 2500000)) ≡ pos sec)
    × (sec ≤ 2500000)
    × (2500000 < sec + usec_den)
to_time_t-from_time_t_example = to_time_t-from_time_t (negsuc 4) 2500000
