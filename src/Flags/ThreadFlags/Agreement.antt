-- ===== src/Flags/ThreadFlags/Agreement.antt =====
-- Thread flags: `wait_for_usec` against a plain `wait`, and setting one's own flags.
use cmsis_cpp.Base.{ℕ, ◌<◌, ◌^◌, ◌≡◌, ◌≢◌, ◌⊎◌, inl, inr, eq-cases, Bool, arith, if◌then◌else◌}
use cmsis_cpp.Base.Int.{pos}
use cmsis_cpp.Ticks.{timeout_ticks}
use cmsis_cpp.Rtos.{
  ok, throw, terminate, system_error, os_category, os_error_resource, os_wait_forever,
}
use cmsis_cpp.Flags.WaitFlag.{wait_option}
use cmsis_cpp.Flags.ThreadFlags.{ThreadFlagsApi, no_timeout, set, set_for, wait, wait_for_usec}

module _ {W : Type 0} (ex : Bool) (api : ThreadFlagsApi W) where
  -- Where the ticks come to osWaitForever and the RTOS answers with flags, the timed wait reports
  -- no_timeout with the same flags as `wait` returns, and both leave the same state.
  pub wait_for_usec-wait :
      (mask flg usec : ℕ) (w : W)
      → timeout_ticks (pos usec) (api.os_kernel_get_tick_freq w) ≡ os_wait_forever
      → (api.os_thread_flags_wait mask (wait_option flg) os_wait_forever w).0 < 2 ^ 31
      → let v = (api.os_thread_flags_wait mask (wait_option flg) os_wait_forever w).0 in
        ((wait_for_usec ex api mask flg (pos usec) w).0 ≡ ok (no_timeout, v))
        × ((wait ex api mask flg w).0 ≡ ok v)
        × ((wait_for_usec ex api mask flg (pos usec) w).1 ≡ (wait ex api mask flg w).1)
  unfolding wait_for_usec wait
  wait_for_usec-wait mask flg usec w e h = ground arith

  -- Setting flags of the running thread is setting them by its handle, where there is a running
  -- thread; otherwise it fails with osErrorResource and sets nothing.
  pub set-set_for :
      (mask : ℕ) (w : W)
      → ((api.os_thread_get_id w ≢ 0)
          × (set ex api mask w ≡ set_for ex api (api.os_thread_get_id w) mask w))
        ⊎ ((api.os_thread_get_id w ≡ 0)
            × (set ex api mask w ≡ (
              (if ex then throw (system_error os_error_resource os_category) else terminate),
              w,
            )))
  unfolding set set_for
  set-set_for mask w = elim (eq-cases (api.os_thread_get_id w) 0) [
    | inl z ↦ inr (z, ground arith)
    | inr n ↦ inl (n, ground arith)
  ]
