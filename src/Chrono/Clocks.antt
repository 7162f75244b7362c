-- ===== src/Chrono/Clocks.antt =====
-- The clocks against the counters that they read.
use cmsis_cpp.Base.{
  ℕ, suc, ◌+◌, ◌*◌, ◌/◌, ◌%◌, ◌^◌, ◌≤◌, ◌<◌, ◌≡◌, refl, arith, some, ap, ap, inl, inr, le-cases,
}
use cmsis_cpp.Base.Int.{ℤ, pos, negsuc}
use mathlib.Core.Option
use cmsis_cpp.Ticks.{timeout_ticks}
use cmsis_cpp.Ticks.Range.{timeout_ticks_exact}
use cmsis_cpp.Chrono.{
  ClockApi, convert_duration, system_now, high_resolution_now, gettimeofday, usec_den, nsec_den,
  to_time_t, from_time_t,
}

div_bounds : (a b : ℕ) → 0 < b → (a / b * b ≤ a) × (a < (a / b + 1) * b)
div_bounds a b h = (grind arith, grind arith)

lt_of_mul_lt : (a b c : ℕ) → a * c < b * c → suc a ≤ b
lt_of_mul_lt a b c h = elim (le-cases b a) [
  | inl l ↦ let m : b * c ≤ a * c = grind arith in absurd (omega arith)
  | inr l ↦ l
]

convert_duration_exact :
    (den count freq : ℕ)
    → count * den < 2 ^ 64
    → 0 < freq
    → convert_duration den count freq ≡ some (count * den / freq)
unfolding convert_duration
convert_duration_exact den count freq h f = ground arith

module _ {W : Type 0} (api : ClockApi W) where
  -- Where the counters are uint32_t values and the frequencies not 0, neither clock overflows: each reads
  -- the whole number of its units that have passed in so many counts.
  pub clocks_exact :
      (w : W)
      → api.os_kernel_get_tick_count w < 2 ^ 32
      → api.os_kernel_get_sys_timer_count w < 2 ^ 32
      → 0 < api.os_kernel_get_tick_freq w
      → 0 < api.os_kernel_get_sys_timer_freq w
      → (usec : ℕ) × (nsec : ℕ) × (system_now api w ≡ some usec)
        × (high_resolution_now api w ≡ some nsec)
        × (usec * api.os_kernel_get_tick_freq w ≤ api.os_kernel_get_tick_count w * usec_den)
        × (api.os_kernel_get_tick_count w * usec_den < (usec + 1) * api.os_kernel_get_tick_freq w)
        × (nsec * api.os_kernel_get_sys_timer_freq w
            ≤ api.os_kernel_get_sys_timer_count w * nsec_den)
        × (api.os_kernel_get_sys_timer_count w * nsec_den
            < (nsec + 1) * api.os_kernel_get_sys_timer_freq w)
  unfolding system_now high_resolution_now
  clocks_exact w c k f g =
      let a =
        div_bounds (api.os_kernel_get_tick_count w * usec_den) (api.os_kernel_get_tick_freq w) f in
      let b =
        div_bounds (api.os_kernel_get_sys_timer_count w * nsec_den)
          (api.os_kernel_get_sys_timer_freq w) g in
      (
        api.os_kernel_get_tick_count w * usec_den / api.os_kernel_get_tick_freq w,
        api.os_kernel_get_sys_timer_count w * nsec_den / api.os_kernel_get_sys_timer_freq w,
        convert_duration_exact usec_den _ _ (omega arith) f,
        convert_duration_exact nsec_den _ _ (omega arith) g,
        a.0,
        a.1,
        b.0,
        b.1,
      )

  -- A tick count of the RTOS, read by the system clock and turned back into a timeout at the same
  -- frequency of at most 1 MHz, comes to the same number of ticks or one less.
  pub timeout_ticks-system_now :
      (w : W)
      → api.os_kernel_get_tick_count w < 2 ^ 32
      → 0 < api.os_kernel_get_tick_freq w
      → api.os_kernel_get_tick_freq w ≤ usec_den
      → (usec : ℕ) × (system_now api w ≡ some usec)
        × (timeout_ticks (pos usec) (api.os_kernel_get_tick_freq w)
            ≤ api.os_kernel_get_tick_count w)
        × (api.os_kernel_get_tick_count w
            ≤ timeout_ticks (pos usec) (api.os_kernel_get_tick_freq w) + 1)
  unfolding system_now
  timeout_ticks-system_now w c f l =
      let usec = api.os_kernel_get_tick_count w * usec_den / api.os_kernel_get_tick_freq w in
      let d =
        div_bounds (api.os_kernel_get_tick_count w * usec_den) (api.os_kernel_get_tick_freq w) f in
      let t =
        timeout_ticks_exact usec (api.os_kernel_get_tick_freq w) (omega arith) (omega arith) in
      (
        usec,
        convert_duration_exact usec_den _ _ (omega arith) f,
        omega (arith, t, d),
        omega (arith, t, d),
      )

  -- At a frequency of at most 1 MHz the system clock, which says that it is steady, reads an earlier time
  -- after the tick counter has wrapped around: `v` is `k` ticks later than `w`.
  pub system_now_wraps :
      (v w : W) (k : ℕ)
      → api.os_kernel_get_tick_count w < 2 ^ 32
      → k < 2 ^ 32
      → 2 ^ 32 ≤ api.os_kernel_get_tick_count w + k
      → api.os_kernel_get_tick_count v ≡ (api.os_kernel_get_tick_count w + k) % 2 ^ 32
      → api.os_kernel_get_tick_freq v ≡ api.os_kernel_get_tick_freq w
      → 0 < api.os_kernel_get_tick_freq w
      → api.os_kernel_get_tick_freq w ≤ usec_den
      → (now : ℕ) × (later : ℕ) × (system_now api w ≡ some now)
        × (system_now api v ≡ some later)
        × (later < now)
  unfolding system_now
  system_now_wraps v w k c h over e same f l =
      let freq = api.os_kernel_get_tick_freq w in
      let now = api.os_kernel_get_tick_count w * usec_den / freq in
      let later = api.os_kernel_get_tick_count v * usec_den / freq in
      let a = div_bounds (api.os_kernel_get_tick_count w * usec_den) freq f in
      let b = div_bounds (api.os_kernel_get_tick_count v * usec_den) freq f in
      (
        now,
        later,
        convert_duration_exact usec_den _ _ (omega arith) f,
        rw same (convert_duration_exact usec_den _ _ (omega arith) f),
        omega (arith, lt_of_mul_lt (later + 1) (now + 1) freq (omega (arith, a, b))),
      )

  -- Where the clock reads a time, _gettimeofday splits it into seconds and less than a million
  -- microseconds, and reports no time zone.
  pub gettimeofday-system_now :
      (usec : ℕ) (w : W)
      → system_now api w ≡ some usec
      → (sec : ℕ) × (rest : ℕ) × (gettimeofday api w ≡ some (sec, rest, 0, 0))
        × (sec * 1000000 + rest ≡ usec)
        × (rest < 1000000)
  unfolding system_now gettimeofday
  gettimeofday-system_now usec w h =
      (usec / 1000000, usec % 1000000, ap (Option.map _) h, omega arith, omega arith)

neg_seconds : (n : ℕ) → to_time_t (from_time_t (negsuc n)) ≡ negsuc n
unfolding to_time_t from_time_t
neg_seconds n =
    let e : suc n * usec_den ≡ suc (n * usec_den + 999999) = omega arith in
    let q : suc (n * usec_den + 999999) / usec_den ≡ suc n = omega arith in rw e (rw q)

-- A time in whole seconds, before the epoch or after, survives the way to a time point and back; a
-- time point after the epoch loses less than a second on the way to seconds and back.
pub to_time_t-from_time_t :
    (t : ℤ) (usec : ℕ)
    → (to_time_t (from_time_t t) ≡ t)
      × (sec : ℕ) × (from_time_t (to_time_t (pos usec)) ≡ pos sec)
      × (sec ≤ usec)
      × (usec < sec + usec_den)
unfolding to_time_t from_time_t
to_time_t-from_time_t (pos n) usec =
    (ap pos (omega arith), usec / usec_den * usec_den, refl, omega arith, omega arith)
to_time_t-from_time_t (negsuc n) usec =
    (neg_seconds n, usec / usec_den * usec_den, refl, omega arith, omega arith)
