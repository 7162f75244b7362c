-- ===== src/Mutex/Locking.antt =====
-- The locking calls against the mutex.
use cmsis_cpp.Base.{
  ℕ, suc, ◌≡◌, ◌⊎◌, inl, inr, Bool, true, false, arith, if◌then◌else◌, le-cases, Bool-cases,
}
use cmsis_cpp.Base.Int.{pos}
use cmsis_cpp.Ticks.{timeout_ticks}
use cmsis_cpp.Rtos.{
  Result, ok, throw, terminate, ◌>>◌, system_error, os_category, os_error_resource,
}
use cmsis_cpp.Mutex.{MutexApi, lock, unlock, try_lock, try_lock_for_usec}
use cmsis_cpp.Mutex.Contract.{IsMutex}

-- How a timed attempt on a mutex ends: it is taken once more, or it is not and nothing is taken.
abbrev pub Tried : {W : Type 0} → (W → ℕ) → W → Result Bool × W → Type 0
Tried depth w (r, w') =
    ((r ≡ ok true) × (depth w' ≡ suc (depth w))) ⊎ ((r ≡ ok false) × (depth w' ≡ depth w))

module _ {W : Type 0} (ex : Bool) (api : MutexApi W) (m_id : ℕ) (available : W → Bool)
    (depth : W → ℕ) (is_mutex : IsMutex api m_id available depth) where
  -- On a mutex that another thread holds, `try_lock` does not return false: it fails with
  -- osErrorResource (thrown where exceptions are compiled in).
  pub try_lock_contended :
      (w : W)
      → available w ≡ false
      → (try_lock ex api m_id w).0
        ≡ (if ex then throw (system_error os_error_resource os_category) else terminate)
  unfolding try_lock
  try_lock_contended w h = ground (arith, is_mutex.acquire_busy w h)

  -- On a mutex that is available, `try_lock` returns true and holds it once more.
  pub try_lock_available :
      (w : W)
      → available w ≡ true
      → ((try_lock ex api m_id w).0 ≡ ok true) × (depth (try_lock ex api m_id w).1 ≡ suc (depth w))
  unfolding try_lock
  try_lock_available w h = ground (arith, is_mutex.acquire_available 0 w h)

  -- With a duration that is not negative a timed attempt never fails: it returns true and holds the
  -- mutex once more, or returns false and holds it as before, contention at timeout 0 included.
  pub try_lock_for_usec-Tried :
      (usec : ℕ) (w : W) → Tried depth w (try_lock_for_usec ex api m_id (pos usec) w)
  unfolding try_lock_for_usec
  try_lock_for_usec-Tried usec w =
      let t = timeout_ticks (pos usec) (api.os_kernel_get_tick_freq w) in
      elim (Bool-cases (available w)) [
        | inl h ↦ ground (arith, is_mutex.acquire_available t w h)
        | inr h ↦ elim (le-cases t 0) [
          | inl z ↦ ground (arith, is_mutex.acquire_busy w h)
          | inr p ↦ ground (arith, is_mutex.acquire_wait t w h p)
        ]
      ]

  -- Locking an available mutex and unlocking it returns normally and leaves it held as before.
  pub unlock-lock :
      (w : W)
      → available w ≡ true
      → (((lock ex api m_id >> unlock ex api m_id) w).0 ≡ ok tt)
        × (depth ((lock ex api m_id >> unlock ex api m_id) w).1 ≡ depth w)
  unfolding lock unlock
  unlock-lock w h = ground (
    arith,
    is_mutex.acquire_available 0xFFFFFFFF w h,
    is_mutex.release_held (api.os_mutex_acquire m_id 0xFFFFFFFF w).1,
  )

  -- One `unlock` more than locks fails with osErrorResource and leaves the mutex not held.
  pub unlock_unheld :
      (w : W)
      → depth w ≡ 0
      → ((unlock ex api m_id w).0
          ≡ (if ex then throw (system_error os_error_resource os_category) else terminate))
        × (depth (unlock ex api m_id w).1 ≡ 0)
  unfolding unlock
  unlock_unheld w h = ground (arith, is_mutex.release_unheld w h)
