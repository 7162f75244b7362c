-- ===== src/Thread/ThisThread/Sleeping.antt =====
-- Sleeping until a deadline, and sleeping for less than a tick.
use cmsis_cpp.Base.{
  ℕ, zero, suc, refl, ◌⊎◌, Option, ◌-◌, ◌<◌, ◌≤◌, ◌≡◌, inl, inr, Bool, false, some, arith,
  if◌then◌else◌, le-cases,
}
use cmsis_cpp.Base.Int.{ℤ, pos}
use cmsis_cpp.Ticks.{timeout_ticks}
use cmsis_cpp.Rtos.{
  Result, ok, throw, terminate, system_error, os_category, os_ok, os_error_parameter,
}
use cmsis_cpp.Thread.ThisThread.{DelayApi, sleep_for_usec, sleep_loop, sleep_until}

-- A clock that a delay moves on, by a microsecond or more, and that stands still while it is read. As
-- CMSIS-RTOS2 documents, a delay of 0 ticks is refused.
pub record Advances {W : Type 0} (api : DelayApi W) (now : W → ℤ × W) (clock : W → ℕ) : Type 0 where
  pub reads : (w : W) → ((now w).0 ≡ pos (clock w)) × (clock (now w).1 ≡ clock w)
  pub delays :
      (ticks : ℕ) (w : W)
      → 0 < ticks
      → ((api.os_delay ticks w).0 ≡ os_ok) × (clock w < clock (api.os_delay ticks w).1)
  pub refuses : (w : W) → api.os_delay 0 w ≡ (os_error_parameter, w)

-- The deadline was read; or what is left of the way comes to 0 ticks, and the delay of 0 ticks is refused.
pub Ended : {W : Type 0} → Bool → DelayApi W → (W → ℕ) → ℕ → Result (Option ℤ) × W → Type 0
Ended ex api clock deadline (r, w) =
    ((t : ℕ) × (r ≡ ok (some (pos t))) × (deadline ≤ t))
    ⊎ ((r ≡ (if ex then throw (system_error os_error_parameter os_category) else terminate))
        × (clock w < deadline)
        × (timeout_ticks (pos (deadline - clock w)) (api.os_kernel_get_tick_freq w) ≡ 0))

module _ {W : Type 0} (ex : Bool) (api : DelayApi W) (now : W → ℤ × W) (clock : W → ℕ)
    (advances : Advances api now clock) where
  abbrev ticks_left : ℕ → W → ℕ
  ticks_left usec w = timeout_ticks (pos usec) (api.os_kernel_get_tick_freq w)

  sleep_for_usec-advances :
      (usec : ℕ) (w : W)
      → 0 < usec
      → 0 < ticks_left usec w
      → ((sleep_for_usec ex api (pos usec) w).0 ≡ ok tt)
        × (clock w < clock (sleep_for_usec ex api (pos usec) w).1)
  unfolding sleep_for_usec
  sleep_for_usec-advances usec w h t = ground (arith, advances.delays (ticks_left usec w) w t)

  sleep_for_usec-refused :
      (usec : ℕ) (w : W)
      → 0 < usec
      → ticks_left usec w ≡ 0
      → sleep_for_usec ex api (pos usec) w
        ≡ ((if ex then throw (system_error os_error_parameter os_category) else terminate), w)
  unfolding sleep_for_usec
  sleep_for_usec-refused usec w h z = ground (arith, advances.refuses w)

  loop_past :
      (fuel deadline : ℕ) (w : W)
      → deadline ≤ clock w
      → sleep_loop ex api now (suc fuel) (pos (clock w)) (pos deadline) w
        ≡ (ok (some (pos (clock w))), w)
  unfolding sleep_loop
  loop_past fuel deadline w past = ground arith

  loop_refused :
      (fuel deadline : ℕ) (w : W)
      → clock w < deadline
      → ticks_left (deadline - clock w) w ≡ 0
      → sleep_loop ex api now (suc fuel) (pos (clock w)) (pos deadline) w
        ≡ ((if ex then throw (system_error os_error_parameter os_category) else terminate), w)
  unfolding sleep_loop
  loop_refused fuel deadline w early z =
      ground (arith, sleep_for_usec-refused (deadline - clock w) w (omega arith) z)

  loop_again :
      (fuel deadline : ℕ) (w : W)
      → clock w < deadline
      → 0 < ticks_left (deadline - clock w) w
      → let w₁ = (sleep_for_usec ex api (pos (deadline - clock w)) w).1 in
        let w₂ = (now w₁).1 in
        (sleep_loop ex api now (suc fuel) (pos (clock w)) (pos deadline) w
          ≡ sleep_loop ex api now fuel (pos (clock w₂)) (pos deadline) w₂)
        × (clock w < clock w₂)
  unfolding sleep_loop
  loop_again fuel deadline w early t =
      let w₁ = (sleep_for_usec ex api (pos (deadline - clock w)) w).1 in
      let s = sleep_for_usec-advances (deadline - clock w) w (omega arith) t in
      let r = advances.reads w₁ in (ground arith, omega arith)

  sleep_loop-ends :
      (fuel deadline : ℕ) (w : W)
      → deadline - clock w < fuel
      → Ended ex api clock deadline (sleep_loop ex api now fuel (pos (clock w)) (pos deadline) w)
  unfolding Ended
  sleep_loop-ends zero deadline w h = absurd (omega arith)
  sleep_loop-ends (suc fuel) deadline w h = elim (le-cases deadline (clock w)) [
    | inl past ↦ rw (loop_past fuel deadline w past) (inl (clock w, refl, past))
    | inr early ↦ elim (le-cases (ticks_left (deadline - clock w) w) 0) [
      | inl z ↦
          rw (loop_refused fuel deadline w early (omega arith)) (inr (refl, early, omega arith))
      | inr t ↦
          let w₁ = (sleep_for_usec ex api (pos (deadline - clock w)) w).1 in
          let w₂ = (now w₁).1 in
          let a = loop_again fuel deadline w early t in
          rw a.0 (sleep_loop-ends fuel deadline w₂ (omega (arith, a.1)))
    ]
  ]

  -- On a clock that is not steady, `sleep_until` ends after at most as many sleeps as there are microseconds
  -- to the deadline. Either it has read the deadline or a later time; or, before the deadline, what is
  -- left comes to 0 ticks, and it throws osErrorParameter, or ends the program where exceptions are
  -- compiled out.
  pub sleep_until-ends :
      (fuel deadline : ℕ) (w : W)
      → deadline - clock w < fuel
      → Ended ex api clock deadline (sleep_until ex api now false fuel (pos deadline) w)
  unfolding sleep_until
  sleep_until-ends fuel deadline w h =
      let r = advances.reads w in
      let e : sleep_until ex api now false fuel (pos deadline) w
          ≡ sleep_loop ex api now fuel (pos (clock (now w).1)) (pos deadline) (now w).1 =
        ground arith in
      rw e (sleep_loop-ends fuel deadline (now w).1 (omega arith))

module _ {W : Type 0} (ex : Bool) (api : DelayApi W) where
  -- Where the RTOS refuses a delay of 0 ticks with osErrorParameter, sleeping for a positive duration of
  -- less than a tick does not sleep but fails with this error.
  pub sleep_for_usec_sub_tick :
      (usec : ℕ) (w : W)
      → 0 < usec
      → timeout_ticks (pos usec) (api.os_kernel_get_tick_freq w) ≡ 0
      → (api.os_delay 0 w).0 ≡ os_error_parameter
      → (sleep_for_usec ex api (pos usec) w).0
        ≡ (if ex then throw (system_error os_error_parameter os_category) else terminate)
  unfolding sleep_for_usec
  sleep_for_usec_sub_tick usec w h z r = ground arith
