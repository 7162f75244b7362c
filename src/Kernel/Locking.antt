-- ===== src/Kernel/Locking.antt =====
-- `dispatch` against the kernel's lock state, and `initialize`.
use cmsis_cpp.Base.{ℕ, ◌≡◌, ◌≢◌, Bool, arith}
use cmsis_cpp.Base.Int.{pos}
use cmsis_cpp.Rtos.{Action, ok, terminate, ◌>>◌, os_ok, os_kernel_inactive}
use cmsis_cpp.Kernel.{KernelApi, new_dispatch, lock, unlock, dispatch_guard, initialize}

-- What CMSIS-RTOS2 documents of the kernel's lock: locking returns the former lock state, restoring
-- returns the new one. Lock states are not negative; 1 is locked.
pub record IsLock {W : Type 0} (api : KernelApi W) (level : W → ℕ) : Type 0 where
  pub locks :
      (w : W) → ((api.os_kernel_lock w).0 ≡ pos (level w)) × (level (api.os_kernel_lock w).1 ≡ 1)
  pub restores :
      (n : ℕ) (w : W)
      → ((api.os_kernel_restore_lock (pos n) w).0 ≡ pos n)
        × (level (api.os_kernel_restore_lock (pos n) w).1 ≡ n)

module _ {W : Type 0} (ex : Bool) (api : KernelApi W) (level : W → ℕ)
    (is_lock : IsLock api level) where
  -- A guarded body runs with the kernel locked, and its outcome, a throw included, is the outcome of the
  -- whole; unless it ends the program, the lock state is then what it was before the guard, whatever
  -- the body did to it.
  pub dispatch_guard-restores :
      {A : Type 0} (body : Action W A) (w : W)
      → let w' = (api.os_kernel_lock w).1 in
        (level w' ≡ 1)
        × ((dispatch_guard ex api body w).0 ≡ (body w').0)
        × (((body w').0 ≢ terminate) → level (dispatch_guard ex api body w).1 ≡ level w)
  unfolding dispatch_guard
  dispatch_guard-restores body w =
      let w' = (api.os_kernel_lock w).1 in
      let l = is_lock.locks w in
      let r = is_lock.restores (level w) (body w').1 in (l.1, ground arith, ground arith)

  -- A dispatch object can be unlocked a second time: it puts the same lock state back again.
  pub unlock_twice :
      (w : W)
      → let (r, d) = (lock ex api >> unlock ex api >> unlock ex api) (new_dispatch w) in
        (r ≡ ok tt) × (level d.world ≡ level w) × (d.previous ≡ pos (level w))
  unfolding lock unlock new_dispatch
  unlock_twice w =
      let w₁ = (api.os_kernel_lock w).1 in
      let w₂ = (api.os_kernel_restore_lock (pos (level w)) w₁).1 in
      ground (arith, is_lock.locks w, is_lock.restores (level w) w₁, is_lock.restores (level w) w₂)

module _ {W : Type 0} (ex : Bool) (api : KernelApi W) where
  -- Where initializing an inactive kernel succeeds and makes it active, a second `initialize` changes
  -- nothing more.
  pub initialize_twice :
      (w : W)
      → ((v : W)
          → api.os_kernel_get_state v ≡ os_kernel_inactive
          → (api.os_kernel_initialize v).0 ≡ os_ok)
      → ((v : W) → api.os_kernel_get_state (api.os_kernel_initialize v).1 ≢ os_kernel_inactive)
      → (initialize ex api >> initialize ex api) w ≡ initialize ex api w
  unfolding initialize
  initialize_twice w h k = ground (arith, h w, k w)
