-- ===== src/MemoryPool/Contract.antt =====
-- What CMSIS-RTOS2 documents of one live memory pool: a bounded number of blocks in use. A call that
-- has to wait for a block says nothing, since other threads run meanwhile.
use cmsis_cpp.Base.{ℕ, ◌<◌, ◌≡◌, ◌≢◌, Bool, true, false, List, [], ◌∷◌, length, ◌==◌, if◌then◌else◌}
use cmsis_cpp.Rtos.{os_ok}
use cmsis_cpp.MemoryPool.{MemoryPoolApi}

abbrev pub contains : ℕ → List ℕ → Bool
contains p [] = false
contains p (q ∷ qs) = if p == q then true else contains p qs

abbrev pub remove : ℕ → List ℕ → List ℕ
remove p [] = []
remove p (q ∷ qs) = if p == q then qs else q ∷ remove p qs

pub record IsPool {W : Type 0} (api : MemoryPoolApi W) (m_id bound : ℕ) (used : W → List ℕ)
    : Type 0 where
  pub alloc_room :
      (timeout : ℕ) (w : W)
      → length (used w) < bound
      → ((api.os_memory_pool_alloc m_id timeout w).0 ≢ 0)
        × (contains (api.os_memory_pool_alloc m_id timeout w).0 (used w) ≡ false)
        × (used (api.os_memory_pool_alloc m_id timeout w).1
            ≡ (api.os_memory_pool_alloc m_id timeout w).0 ∷ used w)
  pub free_used :
      (p : ℕ) (w : W)
      → contains p (used w) ≡ true
      → ((api.os_memory_pool_free m_id p w).0 ≡ os_ok)
        × (used (api.os_memory_pool_free m_id p w).1 ≡ remove p (used w))
  pub count_used : (w : W) → api.os_memory_pool_get_count m_id w ≡ length (used w)
