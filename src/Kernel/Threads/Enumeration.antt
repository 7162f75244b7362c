-- ===== src/Kernel/Threads/Enumeration.antt =====
-- The list of threads: complete, in order, and taken under the kernel's lock.
use mathlib.Core.Option
use cmsis_cpp.Base.{ℕ, zero, suc, ◌≡◌, ◌≤◌, refl, Bool, List, [], ◌∷◌, length, some, arith, ap}
use cmsis_cpp.Rtos.{ok}
use cmsis_cpp.Kernel.{KernelApi}
use cmsis_cpp.Kernel.Locking.{IsLock, dispatch_guard-restores}
use cmsis_cpp.Kernel.Threads.{ThreadsApi, Info, info_of, fill, enumerate, enumerate_locked}

abbrev pub handles : List Info → List ℕ
handles [] = []
handles (i ∷ is) = i.handle ∷ handles is

abbrev pub take : ℕ → List ℕ → List ℕ
take zero xs = []
take (suc n) [] = []
take (suc n) (x ∷ xs) = x ∷ take n xs

module _ {W : Type 0} (ex : Bool) (kernel : KernelApi W) (api : ThreadsApi W) where
  fill-handles :
      (nb : ℕ) (tids : List ℕ) (w : W)
      → nb ≤ length tids
      → (infos : List Info) × (fill ex kernel api nb tids w ≡ some infos)
        × (handles infos ≡ take nb tids)
  unfolding fill info_of
  fill-handles zero tids w h = ([], refl, refl)
  fill-handles (suc nb) [] w h = absurd (omega arith)
  fill-handles (suc nb) (tid ∷ rest) w h =
      let (infos, e, k) = fill-handles nb rest w (omega arith) in
      (info_of ex kernel api tid w ∷ infos, ap (Option.map _) e, ap (◌∷◌ tid) k)

  -- Where the RTOS fills in no more handles than there is room for, `enumerate` reads within its array
  -- and returns one entry for each handle, in the RTOS's order, taken with the kernel locked; the
  -- lock state is afterwards what it was.
  pub enumerate-handles :
      (level : W → ℕ) (is_lock : IsLock kernel level) (w : W) (nb : ℕ) (tids : List ℕ)
      → (api.os_thread_enumerate
          (api.os_thread_get_count (kernel.os_kernel_lock w).1)
          (kernel.os_kernel_lock w).1).0
        ≡ (nb, tids)
      → nb ≤ length tids
      → (infos : List Info) × ((enumerate ex kernel api w).0 ≡ ok (some infos))
        × (handles infos ≡ take nb tids)
        × (level (kernel.os_kernel_lock w).1 ≡ 1)
        × (level (enumerate ex kernel api w).1 ≡ level w)
  unfolding enumerate enumerate_locked
  enumerate-handles level is_lock w nb tids e h =
      let w' = (kernel.os_kernel_lock w).1 in
      let w'' = (api.os_thread_enumerate (api.os_thread_get_count w') w').1 in
      let g = dispatch_guard-restores ex kernel level is_lock (enumerate_locked ex kernel api) w in
      let (infos, f, k) = fill-handles nb tids w'' h in (infos, ground arith, k, g.0, ground arith)
