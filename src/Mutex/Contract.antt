-- ===== src/Mutex/Contract.antt =====
-- What CMSIS-RTOS2 documents of one live mutex, as the running thread sees it: whether it could be
-- taken now, and how often this thread holds it.
use cmsis_cpp.Base.{ℕ, zero, suc, ◌<◌, ◌≡◌, ◌⊎◌, Bool, true, false, not, arith, ◌==◌, if◌then◌else◌}
use cmsis_cpp.Base.Int.{ℤ}
use cmsis_cpp.Rtos.{os_ok, os_error_resource, os_error_timeout}
use cmsis_cpp.Mutex.{MutexApi}

pub record IsMutex {W : Type 0} (api : MutexApi W) (m_id : ℕ) (available : W → Bool) (depth : W → ℕ)
    : Type 0 where
  pub acquire_available :
      (timeout : ℕ) (w : W)
      → available w ≡ true
      → ((api.os_mutex_acquire m_id timeout w).0 ≡ os_ok)
        × (depth (api.os_mutex_acquire m_id timeout w).1 ≡ suc (depth w))
  pub acquire_busy :
      (w : W)
      → available w ≡ false
      → ((api.os_mutex_acquire m_id 0 w).0 ≡ os_error_resource)
        × (depth (api.os_mutex_acquire m_id 0 w).1 ≡ depth w)
  pub acquire_wait :
      (timeout : ℕ) (w : W)
      → available w ≡ false
      → 0 < timeout
      → (((api.os_mutex_acquire m_id timeout w).0 ≡ os_ok)
          × (depth (api.os_mutex_acquire m_id timeout w).1 ≡ suc (depth w)))
        ⊎ (((api.os_mutex_acquire m_id timeout w).0 ≡ os_error_timeout)
            × (depth (api.os_mutex_acquire m_id timeout w).1 ≡ depth w))
  pub release_held :
      (w : W)
      → 0 < depth w
      → ((api.os_mutex_release m_id w).0 ≡ os_ok)
        × (suc (depth (api.os_mutex_release m_id w).1) ≡ depth w)
  pub release_unheld :
      (w : W)
      → depth w ≡ 0
      → ((api.os_mutex_release m_id w).0 ≡ os_error_resource)
        × (depth (api.os_mutex_release m_id w).1 ≡ 0)

-- A recursive mutex with the handle 1: whether another thread holds it, and this thread's depth.
pub record Sample : Type 0 where
  pub busy : Bool
  pub held : ℕ

abbrev pub sample_acquire : ℕ → ℕ → Sample → ℤ × Sample
sample_acquire m_id timeout s =
    if s.busy
    then (if timeout == 0 then os_error_resource else os_error_timeout, s)
    else (os_ok, record s { held = suc s.held })

abbrev sample_give : ℕ → ℤ × ℕ
sample_give zero = (os_error_resource, 0)
sample_give (suc n) = (os_ok, n)

abbrev pub sample_release : ℕ → Sample → ℤ × Sample
sample_release m_id s = let (sta, n) = sample_give s.held in (sta, record s { held = n })

abbrev pub sample_api : MutexApi Sample
sample_api = record {
  os_kernel_get_tick_freq = λ s. 1000;
  os_mutex_new = λ attr s. (1, s);
  os_mutex_delete = λ m_id s. (os_ok, s);
  os_mutex_acquire = sample_acquire;
  os_mutex_release = sample_release;
}

abbrev pub sample_available : Sample → Bool
sample_available s = not s.busy

abbrev pub sample_depth : Sample → ℕ
sample_depth s = s.held

pub sample-IsMutex : IsMutex sample_api 1 sample_available sample_depth
sample-IsMutex = record {
  acquire_available = λ timeout s. ground arith;
  acquire_busy = λ s. ground arith;
  acquire_wait = λ timeout s. ground arith;
  release_held = λ s. ground arith;
  release_unheld = λ s. ground arith;
}

abbrev pub sample_free : Sample
sample_free = record { busy = false; held = 0 }

abbrev pub sample_taken : Sample
sample_taken = record { busy = true; held = 0 }
