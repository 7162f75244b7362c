-- ===== src/Semaphore/Acquire.antt =====
-- The acquiring calls against the counting semaphore.
use cmsis_cpp.Base.{ℕ, suc, ◌*◌, ◌<◌, ◌≡◌, ◌⊎◌, inl, inr, Bool, true, false, arith, le-cases}
use cmsis_cpp.Base.Int.{ℤ, pos, ◌-ℤ◌, ◌≤ℤ◌}
use cmsis_cpp.Ticks.{timeout_ticks, usec_max, usec_den}
use cmsis_cpp.Ticks.Range.{timeout_ticks-usec_max}
use cmsis_cpp.Rtos.{ok}
use cmsis_cpp.Semaphore.{SemaphoreApi, try_acquire, try_acquire_for_usec, try_acquire_until}
use cmsis_cpp.Semaphore.Contract.{IsCounting}

module _ {W : Type 0} (ex : Bool) (api : SemaphoreApi W) (m_id limit : ℕ) (count : W → ℕ)
    (counting : IsCounting api m_id limit count) where
  -- `try_acquire` takes a token if there is one, and otherwise returns false and leaves none.
  pub try_acquire-takes :
      (w : W)
      → ((0 < count w)
          × ((try_acquire ex api m_id w).0 ≡ ok true)
          × (suc (count (try_acquire ex api m_id w).1) ≡ count w))
        ⊎ ((count w ≡ 0)
            × ((try_acquire ex api m_id w).0 ≡ ok false)
            × (count (try_acquire ex api m_id w).1 ≡ 0))
  unfolding try_acquire
  try_acquire-takes w = elim (le-cases (count w) 0) [
    | inl h ↦ ground (arith, counting.acquire_empty w)
    | inr h ↦ ground (arith, counting.acquire_token 0 w)
  ]

  -- A timed acquire with a duration that is not negative never fails: it returns true or false.
  pub try_acquire_for_usec-total :
      (usec : ℕ) (w : W)
      → ((try_acquire_for_usec ex api m_id (pos usec) w).0 ≡ ok true)
        ⊎ ((try_acquire_for_usec ex api m_id (pos usec) w).0 ≡ ok false)
  unfolding try_acquire_for_usec
  try_acquire_for_usec-total usec w =
      let t = timeout_ticks (pos usec) (api.os_kernel_get_tick_freq w) in
      elim (le-cases (count w) 0) [
        | inl h ↦ elim (le-cases t 0) [
          | inl z ↦ ground (arith, counting.acquire_empty w)
          | inr p ↦ ground (arith, counting.acquire_wait t w)
        ]
        | inr h ↦ ground (arith, counting.acquire_token t w)
      ]

  -- A duration of less than one tick makes the timed acquire the same as `try_acquire`.
  pub try_acquire_for_usec-try_acquire :
      (usec : ℕ) (w : W)
      → timeout_ticks (pos usec) (api.os_kernel_get_tick_freq w) ≡ 0
      → try_acquire_for_usec ex api m_id (pos usec) w ≡ try_acquire ex api m_id w
  unfolding try_acquire_for_usec try_acquire
  try_acquire_for_usec-try_acquire usec w z = elim (le-cases (count w) 0) [
    | inl h ↦ ground (arith, counting.acquire_empty w)
    | inr h ↦ ground (arith, counting.acquire_token 0 w)
  ]

  -- With a token there, every timed acquire takes it, at a deadline that has not passed.
  pub try_acquire_until-takes :
      (now : W → ℤ × W) (abs_time : ℤ) (w : W)
      → (now w).0 ≤ℤ abs_time
      → 0 < count (now w).1
      → ((try_acquire_until ex api now m_id abs_time w).0 ≡ ok true)
        × (suc (count (try_acquire_until ex api now m_id abs_time w).1) ≡ count (now w).1)
  unfolding try_acquire_until try_acquire_for_usec
  try_acquire_until-takes now abs_time w due h =
      let t = timeout_ticks (abs_time -ℤ (now w).0) (api.os_kernel_get_tick_freq (now w).1) in
      ground (arith, counting.acquire_token t (now w).1)

  -- At an even tick frequency between 1 Hz and 1 MHz, where the overflow of the int64_t product, which
  -- C++ leaves undefined, wraps around: a timed acquire with microseconds::max(), the duration that
  -- condition_variable::wait passes, does not wait, and without a token it returns false at once.
  pub try_acquire_for_usec-usec_max :
      (half : ℕ) (w : W)
      → 0 < half
      → 2 * half < usec_den
      → api.os_kernel_get_tick_freq w ≡ 2 * half
      → count w ≡ 0
      → ((try_acquire_for_usec ex api m_id usec_max w).0 ≡ ok false)
        × (count (try_acquire_for_usec ex api m_id usec_max w).1 ≡ 0)
  unfolding try_acquire_for_usec
  try_acquire_for_usec-usec_max half w p q f h =
      let z = timeout_ticks-usec_max half p q in
      let t : timeout_ticks usec_max (api.os_kernel_get_tick_freq w) ≡ 0 = rw f z in
      rw t (ground (arith, counting.acquire_empty w h))
