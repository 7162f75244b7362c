-- ===== src/Semaphore/Release.antt =====
-- `release(update)` against the counting semaphore.
use cmsis_cpp.Base.{◌^◌, ◌-◌, ℕ, zero, suc, ◌+◌, ◌≤◌, ◌<◌, ◌≡◌, Bool, arith, if◌then◌else◌}
use cmsis_cpp.Base.Int.{pos, negsuc}
use cmsis_cpp.Rtos.{ok, throw, terminate, system_error, os_category, os_error_resource}
use cmsis_cpp.Semaphore.{SemaphoreApi, release, release_loop}
use cmsis_cpp.Semaphore.Contract.{IsCounting}

module _ {W : Type 0} (ex : Bool) (api : SemaphoreApi W) (m_id limit : ℕ) (count : W → ℕ)
    (counting : IsCounting api m_id limit count) where
  release_loop-adds :
      (n : ℕ) (w : W)
      → count w + n ≤ limit
      → ((release_loop ex api m_id n w).0 ≡ ok tt)
        × (count (release_loop ex api m_id n w).1 ≡ count w + n)
  unfolding release_loop
  release_loop-adds zero w h = ground arith
  release_loop-adds (suc n) w h = ground (
    arith,
    counting.release_status w,
    counting.release_count w,
    release_loop-adds n (api.os_semaphore_release m_id w).1,
  )

  release_loop-overflows :
      (n : ℕ) (w : W)
      → limit < count w + n
      → ((release_loop ex api m_id n w).0
          ≡ (if ex then throw (system_error os_error_resource os_category) else terminate))
        × (count (release_loop ex api m_id n w).1 ≡ limit)
  unfolding release_loop
  release_loop-overflows zero w h = absurd (omega (arith, counting.bounded w))
  release_loop-overflows (suc n) w h = ground (
    arith,
    counting.bounded w,
    counting.release_status w,
    counting.release_count w,
    release_loop-overflows n (api.os_semaphore_release m_id w).1,
  )

  -- For a non-negative update that the limit leaves room for, `release` returns normally and the
  -- semaphore has exactly that many more tokens.
  pub release_adds :
      (n : ℕ) (w : W)
      → count w + n ≤ limit
      → ((release ex api m_id (pos n) w).0 ≡ ok tt)
        × (count (release ex api m_id (pos n) w).1 ≡ count w + n)
  unfolding release
  release_adds n w h = release_loop-adds n w h

  -- A non-negative update beyond the limit fails with osErrorResource (thrown where exceptions are
  -- compiled in), and is not undone: the semaphore is left full.
  pub release_overflows :
      (n : ℕ) (w : W)
      → limit < count w + n
      → ((release ex api m_id (pos n) w).0
          ≡ (if ex then throw (system_error os_error_resource os_category) else terminate))
        × (count (release ex api m_id (pos n) w).1 ≡ limit)
  unfolding release
  release_overflows n w h = release_loop-overflows n w h

  -- A negative ptrdiff_t is not rejected: on a semaphore whose limit is below 2^31, `release` with
  -- a negative update fills the semaphore and then fails with osErrorResource.
  pub release_negative :
      (n : ℕ) (w : W)
      → limit < 2 ^ 31
      → n < 2 ^ 31
      → ((release ex api m_id (negsuc n) w).0
          ≡ (if ex then throw (system_error os_error_resource os_category) else terminate))
        × (count (release ex api m_id (negsuc n) w).1 ≡ limit)
  unfolding release
  release_negative n w l h = release_loop-overflows (2 ^ 32 - 1 - n) w (omega arith)
