-- ===== src/Ticks/Range.antt =====
-- The tick conversion: where it is exact, and where it is not.
use cmsis_cpp.Base.{ℕ, ◌+◌, ◌*◌, ◌/◌, ◌%◌, ◌^◌, ◌≤◌, ◌<◌, ◌≡◌, ◌∙◌, arith}
use cmsis_cpp.Base.Int.{ℤ, pos, negsuc}
use cmsis_cpp.Ticks.{times, wrap64, quotient, to_u32, timeout_ticks, usec_den, usec_max}

to_u32-lt : (z : ℤ) → to_u32 z < 2 ^ 32
unfolding to_u32
to_u32-lt (pos n) = omega arith
to_u32-lt (negsuc n) = omega arith

-- The saturation after the cast never takes effect: the result is the truncated quotient.
pub timeout_ticks_unclamped :
    (usec : ℤ) (freq : ℕ)
    → timeout_ticks usec freq ≡ to_u32 (quotient (wrap64 (times usec freq)) usec_den)
unfolding timeout_ticks
timeout_ticks_unclamped usec freq =
    ground (arith, to_u32-lt (quotient (wrap64 (times usec freq)) usec_den))

pub timeout_ticks-lt : (usec : ℤ) (freq : ℕ) → timeout_ticks usec freq < 2 ^ 32
timeout_ticks-lt usec freq = rw timeout_ticks_unclamped (to_u32-lt _)

-- While the product fits an int64_t, the ticks are the rounded down quotient modulo 2^32.
pub timeout_ticks_wraps :
    (usec freq : ℕ)
    → usec * freq < 2 ^ 63
    → timeout_ticks (pos usec) freq ≡ (usec * freq / usec_den) % 2 ^ 32
unfolding timeout_ticks
timeout_ticks_wraps usec freq h = ground arith

-- While the product fits an int64_t and the quotient a uint32_t, the ticks are the longest whole
-- number of ticks within the duration.
pub timeout_ticks_exact :
    (usec freq : ℕ)
    → usec * freq < 2 ^ 63
    → usec * freq < usec_den * 2 ^ 32
    → (timeout_ticks (pos usec) freq * usec_den ≤ usec * freq)
      × (usec * freq < (timeout_ticks (pos usec) freq + 1) * usec_den)
timeout_ticks_exact usec freq h k = rw (timeout_ticks_wraps usec freq h) (omega arith)

-- While the product fits an int64_t, a duration of 2^32 ticks or more is not saturated: the timeout handed to
-- the RTOS is shorter than the one asked for by a multiple of 2^32 ticks, and that is not 0.
pub timeout_ticks_long :
    (usec freq : ℕ)
    → usec * freq < 2 ^ 63
    → usec_den * 2 ^ 32 ≤ usec * freq
    → (k : ℕ) × (0 < k)
      × (timeout_ticks (pos usec) freq + k * 2 ^ 32 ≡ usec * freq / usec_den)
      × (timeout_ticks (pos usec) freq < 2 ^ 32)
timeout_ticks_long usec freq h k = (
  usec * freq / usec_den / 2 ^ 32,
  omega arith,
  rw (timeout_ticks_wraps usec freq h) (omega arith),
  timeout_ticks-lt (pos usec) freq,
)

-- At an even tick frequency between 1 Hz and 1 MHz the longest duration, microseconds::max(),
-- becomes the timeout 0.
pub timeout_ticks-usec_max :
    (half : ℕ) → 0 < half → 2 * half < usec_den → timeout_ticks usec_max (2 * half) ≡ 0
unfolding timeout_ticks
timeout_ticks-usec_max half h k = ground arith

-- Within the exact range a longer duration never gets fewer ticks.
pub timeout_ticks_mono :
    (u v freq : ℕ)
    → u ≤ v
    → v * freq < 2 ^ 63
    → v * freq < usec_den * 2 ^ 32
    → timeout_ticks (pos u) freq ≤ timeout_ticks (pos v) freq
timeout_ticks_mono u v freq h k l =
    let le : u * freq ≤ v * freq = grind arith in
    omega (
      arith,
      timeout_ticks_exact u freq (omega arith) (omega arith),
      timeout_ticks_exact v freq k l,
    )

pub timeout_ticks_zero : (freq : ℕ) → timeout_ticks (pos 0) freq ≡ 0
timeout_ticks_zero freq = timeout_ticks_wraps 0 freq (omega arith) ∙ omega arith
