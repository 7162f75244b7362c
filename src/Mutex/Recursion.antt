-- ===== src/Mutex/Recursion.antt =====
-- A mutex that its owner may lock again, as osMutexRecursive documents it.
use cmsis_cpp.Base.{ℕ, zero, suc, ◌+◌, ◌≤◌, ◌≡◌, refl, Bool, true, arith, if◌then◌else◌}
use cmsis_cpp.Rtos.{
  Action, pure, ok, throw, terminate, ◌>>◌, system_error, os_category, os_error_resource,
}
use cmsis_cpp.Mutex.{MutexApi, lock, unlock}
use cmsis_cpp.Mutex.Contract.{IsMutex}

module _ {W : Type 0} (ex : Bool) (api : MutexApi W) (m_id : ℕ) where
  -- Clients that lock, and unlock, so many times.
  pub lock_many : ℕ → Action W (Unit {0})
  lock_many zero = pure tt
  lock_many (suc n) = lock ex api m_id >> lock_many n

  pub unlock_many : ℕ → Action W (Unit {0})
  unlock_many zero = pure tt
  unlock_many (suc n) = unlock ex api m_id >> unlock_many n

-- Taking the mutex leaves it to be taken again by the same thread.
pub record IsRecursive {W : Type 0} (api : MutexApi W) (m_id : ℕ) (available : W → Bool)
    : Type 0 where
  pub stays_available :
      (timeout : ℕ) (w : W)
      → available w ≡ true
      → available (api.os_mutex_acquire m_id timeout w).1 ≡ true

module _ {W : Type 0} (ex : Bool) (api : MutexApi W) (m_id : ℕ) (available : W → Bool)
    (depth : W → ℕ) (is_mutex : IsMutex api m_id available depth)
    (is_recursive : IsRecursive api m_id available) where
  lock_many-depth :
      (n : ℕ) (w : W)
      → available w ≡ true
      → ((lock_many ex api m_id n w).0 ≡ ok tt)
        × (depth (lock_many ex api m_id n w).1 ≡ n + depth w)
  unfolding lock_many lock
  lock_many-depth zero w h = (refl, omega arith)
  lock_many-depth (suc n) w h =
      let t : ℕ = 0xFFFFFFFF in
      let taken = is_mutex.acquire_available t w h in
      let rest =
        lock_many-depth n (api.os_mutex_acquire m_id t w).1 (is_recursive.stays_available t w h) in
      ground (arith, taken, rest)

  unlock_many-depth :
      (n : ℕ) (w : W)
      → n ≤ depth w
      → ((unlock_many ex api m_id n w).0 ≡ ok tt)
        × (n + depth (unlock_many ex api m_id n w).1 ≡ depth w)
  unfolding unlock_many unlock
  unlock_many-depth zero w h = (refl, omega arith)
  unlock_many-depth (suc n) w h =
      let given = is_mutex.release_held w (omega arith) in
      let rest = unlock_many-depth n (api.os_mutex_release m_id w).1 (omega arith) in
      ground (arith, given, rest)

  -- A recursive mutex that the thread does not hold can be locked any number of times in a row and
  -- unlocked as often, without a failure; one more `unlock` throws osErrorResource, or ends the program
  -- where exceptions are compiled out.
  pub unlock_many-lock_many :
      (n : ℕ) (w : W)
      → available w ≡ true
      → depth w ≡ 0
      → let w₁ = (lock_many ex api m_id n w).1 in
        let w₂ = (unlock_many ex api m_id n w₁).1 in
        ((lock_many ex api m_id n w).0 ≡ ok tt)
        × (depth w₁ ≡ n)
        × ((unlock_many ex api m_id n w₁).0 ≡ ok tt)
        × (depth w₂ ≡ 0)
        × ((unlock ex api m_id w₂).0
            ≡ (if ex then throw (system_error os_error_resource os_category) else terminate))
  unfolding unlock
  unlock_many-lock_many n w h z =
      let w₁ = (lock_many ex api m_id n w).1 in
      let w₂ = (unlock_many ex api m_id n w₁).1 in
      let locked = lock_many-depth n w h in
      let unlocked = unlock_many-depth n w₁ (omega arith) in
      let none_left : depth w₂ ≡ 0 = omega arith in
      (
        locked.0,
        omega arith,
        unlocked.0,
        none_left,
        ground (arith, is_mutex.release_unheld w₂ none_left),
      )
