-- ===== src/Ticks/Durations/Casts.antt =====
-- How many ticks a duration comes to, through the microseconds between.
use native.Mathlib.Nat.{mul-le-mul_right}
use cmsis_cpp.Base.{
  ap, ◌∙◌, ℕ, ◌+◌, ◌*◌, ◌/◌, ◌^◌, ◌≤◌, ◌<◌, ◌≡◌, refl, ◌⊎◌, inl, inr, none, some, arith,
}
use cmsis_cpp.Base.Int.{pos}
use cmsis_cpp.Ticks.{times, wrap64, quotient, timeout_ticks, usec_den}
use cmsis_cpp.Ticks.Range.{timeout_ticks_exact}
use cmsis_cpp.Ticks.Durations.{
  Period, nanoseconds, microseconds, milliseconds, seconds, minutes, hours, scale_num, scale_den,
  duration_cast_usec, implicit_usec,
}

-- A duration that is not negative, and whose microseconds fit an int64_t, is cut to whole microseconds.
pub duration_cast_floor :
    (p : Period) (n : ℕ)
    → n * scale_num p < 2 ^ 63
    → duration_cast_usec (record { period = p; count = pos n })
      ≡ pos (n * scale_num p / scale_den p)
unfolding duration_cast_usec times wrap64 quotient
duration_cast_floor nanoseconds n h = ground arith
duration_cast_floor microseconds n h = ground arith
duration_cast_floor milliseconds n h = ground arith
duration_cast_floor seconds n h = ground arith
duration_cast_floor minutes n h = ground arith
duration_cast_floor hours n h = ground arith

-- An implicit conversion is the cast, and never rounds.
pub implicit_usec-exact :
    (p : Period) (n : ℕ)
    → n * scale_num p < 2 ^ 63
    → (implicit_usec (record { period = p; count = pos n }) ≡ none)
      ⊎ (implicit_usec (record { period = p; count = pos n }) ≡ some (pos (n * scale_num p)))
unfolding implicit_usec
implicit_usec-exact nanoseconds n h = inl refl
implicit_usec-exact microseconds n h =
    inr (ap some (duration_cast_floor microseconds n h ∙ ap pos (omega arith)))
implicit_usec-exact milliseconds n h =
    inr (ap some (duration_cast_floor milliseconds n h ∙ ap pos (omega arith)))
implicit_usec-exact seconds n h =
    inr (ap some (duration_cast_floor seconds n h ∙ ap pos (omega arith)))
implicit_usec-exact minutes n h =
    inr (ap some (duration_cast_floor minutes n h ∙ ap pos (omega arith)))
implicit_usec-exact hours n h = inr (ap some (duration_cast_floor hours n h ∙ ap pos (omega arith)))

-- Rounding first to `u` microseconds and then to `t` ticks, of a length of `a` thousandths.
twice_rounded :
    (a u freq t : ℕ)
    → freq ≤ usec_den
    → u * 1000 ≤ a
    → a < (u + 1) * 1000
    → t * usec_den ≤ u * freq
    → u * freq < (t + 1) * usec_den
    → (t * usec_den * 1000 ≤ a * freq) × (a * freq < (t + 2) * usec_den * 1000)
twice_rounded a u freq t q below above lo hi =
    let l : u * 1000 * freq ≤ a * freq = mul-le-mul_right freq below in
    let h : a * freq ≤ (u * 1000 + 999) * freq = mul-le-mul_right freq (omega arith) in
    let e : u * 1000 * freq ≡ u * freq * 1000 = grind arith in
    let f : (u * 1000 + 999) * freq ≡ u * freq * 1000 + 999 * freq = grind arith in
    (omega arith, omega arith)

abbrev usec_of : Period → ℕ → ℕ
usec_of p n = n * scale_num p / scale_den p

div_one : (k : ℕ) → k / 1 ≡ k
div_one k = omega arith

whole_once :
    (l freq t : ℕ)
    → (t * usec_den ≤ l / 1 * freq) × (l / 1 * freq < (t + 1) * usec_den)
    → (t * usec_den * 1 ≤ l * freq) × (l * freq < (t + 2) * usec_den * 1)
whole_once l freq t h =
    let k : (t * usec_den ≤ l * freq) × (l * freq < (t + 1) * usec_den) = rw (div_one l) at h in
    omega arith

-- A duration that is not negative, a count of one of the six periods, at a frequency of at most 1 MHz and
-- where neither the int64_t products nor the uint32_t ticks overflow, becomes a number of ticks that is
-- never longer than the duration, and less than two ticks shorter.
pub ticks_of_duration :
    (p : Period) (n freq : ℕ)
    → freq ≤ usec_den
    → n * scale_num p < 2 ^ 63
    → n * scale_num p / scale_den p * freq < 2 ^ 63
    → n * scale_num p / scale_den p * freq < usec_den * 2 ^ 32
    → let t = timeout_ticks (duration_cast_usec (record { period = p; count = pos n })) freq in
      (t * usec_den * scale_den p ≤ n * scale_num p * freq)
      × (n * scale_num p * freq < (t + 2) * usec_den * scale_den p)
ticks_of_duration p n freq q a b c =
    rw (duration_cast_floor p n a) (rounded p (timeout_ticks_exact (usec_of p n) freq b c))
  where
    rounded :
        (r : Period)
        → let t = timeout_ticks (pos (usec_of r n)) freq in
          (t * usec_den ≤ usec_of r n * freq) × (usec_of r n * freq < (t + 1) * usec_den)
          → (t * usec_den * scale_den r ≤ n * scale_num r * freq)
            × (n * scale_num r * freq < (t + 2) * usec_den * scale_den r)
    rounded nanoseconds e =
        twice_rounded (n * 1) (n * 1 / 1000) freq _ q (omega arith) (omega arith) e.0 e.1
    rounded microseconds e = whole_once _ freq _ e
    rounded milliseconds e = whole_once _ freq _ e
    rounded seconds e = whole_once _ freq _ e
    rounded minutes e = whole_once _ freq _ e
    rounded hours e = whole_once _ freq _ e
