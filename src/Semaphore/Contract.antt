-- ===== src/Semaphore/Contract.antt =====
-- What CMSIS-RTOS2 documents of one live semaphore: a count of tokens under a limit. `acquire` with
-- a timeout may let other threads run, so it says nothing of the count where it had to wait.
use cmsis_cpp.Base.{ℕ, zero, suc, ◌≤◌, ◌<◌, ◌≡◌, ◌⊎◌, inl, arith, ltb, ◌==◌, if◌then◌else◌, refl}
use cmsis_cpp.Base.Int.{ℤ}
use cmsis_cpp.Rtos.{os_ok, os_error_resource, os_error_timeout, os_error_parameter}
use cmsis_cpp.Semaphore.{SemaphoreApi}

pub record IsCounting {W : Type 0} (api : SemaphoreApi W) (m_id limit : ℕ) (count : W → ℕ)
    : Type 0 where
  pub bounded : (w : W) → count w ≤ limit
  pub release_status :
      (w : W)
      → (api.os_semaphore_release m_id w).0
        ≡ (if ltb (count w) limit then os_ok else os_error_resource)
  pub release_count :
      (w : W)
      → count (api.os_semaphore_release m_id w).1
        ≡ (if ltb (count w) limit then suc (count w) else count w)
  pub acquire_token :
      (timeout : ℕ) (w : W)
      → 0 < count w
      → ((api.os_semaphore_acquire m_id timeout w).0 ≡ os_ok)
        × (suc (count (api.os_semaphore_acquire m_id timeout w).1) ≡ count w)
  pub acquire_empty :
      (w : W)
      → count w ≡ 0
      → ((api.os_semaphore_acquire m_id 0 w).0 ≡ os_error_resource)
        × (count (api.os_semaphore_acquire m_id 0 w).1 ≡ 0)
  pub acquire_wait :
      (timeout : ℕ) (w : W)
      → count w ≡ 0
      → 0 < timeout
      → ((api.os_semaphore_acquire m_id timeout w).0 ≡ os_ok)
        ⊎ ((api.os_semaphore_acquire m_id timeout w).0 ≡ os_error_timeout)

-- One semaphore, with the handle 1 and the limit 3, in a system where nothing else runs.
abbrev pub sample_release : ℕ → ℕ → ℤ × ℕ
sample_release m_id n =
    if m_id == 1
    then if ltb n 3 then (os_ok, suc n) else (os_error_resource, n)
    else (os_error_parameter, n)

abbrev pub sample_acquire : ℕ → ℕ → ℕ → ℤ × ℕ
sample_acquire m_id timeout zero = (if timeout == 0 then os_error_resource else os_error_timeout, 0)
sample_acquire m_id timeout (suc n) = (os_ok, if ltb n 3 then n else 2)

abbrev pub sample_api : SemaphoreApi ℕ
sample_api = record {
  os_kernel_get_tick_freq = λ n. 1000;
  os_semaphore_new = λ max desired n. (1, n);
  os_semaphore_delete = λ m_id n. (os_ok, 0);
  os_semaphore_release = sample_release;
  os_semaphore_acquire = sample_acquire;
}

-- The tokens in a state of the sample.
abbrev pub sample_count : ℕ → ℕ
sample_count n = if ltb n 3 then n else 3

pub sample-IsCounting : IsCounting sample_api 1 3 sample_count
sample-IsCounting = record {
  bounded = λ n. ground arith;
  release_status = λ n. ground arith;
  release_count = λ n. ground arith;
  acquire_token = sample_token;
  acquire_empty = sample_empty;
  acquire_wait = sample_wait;
}
  where
    sample_token :
        (timeout n : ℕ)
        → 0 < sample_count n
        → ((sample_acquire 1 timeout n).0 ≡ os_ok)
          × (suc (sample_count (sample_acquire 1 timeout n).1) ≡ sample_count n)
    sample_token timeout zero h = absurd (omega arith)
    sample_token timeout (suc n) h = ground arith

    sample_empty :
        (n : ℕ)
        → sample_count n ≡ 0
        → ((sample_acquire 1 0 n).0 ≡ os_error_resource)
          × (sample_count (sample_acquire 1 0 n).1 ≡ 0)
    sample_empty zero h = (refl, refl)
    sample_empty (suc n) h = ground arith

    sample_wait :
        (timeout n : ℕ)
        → sample_count n ≡ 0
        → 0 < timeout
        → ((sample_acquire 1 timeout n).0 ≡ os_ok)
          ⊎ ((sample_acquire 1 timeout n).0 ≡ os_error_timeout)
    sample_wait timeout zero h p = ground arith
    sample_wait timeout (suc n) h p = inl refl
