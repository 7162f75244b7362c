-- ===== src/Flags/Event/Waiting.antt =====
-- How `wait_for_usec` reads what the RTOS answers.
use cmsis_cpp.Base.{
  ℕ, ◌≤◌, ◌<◌, ◌^◌, ◌≡◌, ◌≢◌, inl, inr, Bool, arith, if◌then◌else◌, le-cases, eq-cases,
}
use cmsis_cpp.Base.Int.{pos, signed32}
use cmsis_cpp.Ticks.{timeout_ticks}
use cmsis_cpp.Rtos.{
  Result, ok, throw, terminate, system_error, flags_category, os_flags_error_timeout,
  os_flags_error_resource,
}
use cmsis_cpp.Flags.WaitFlag.{wait_option}
use cmsis_cpp.Flags.Event.{EventApi, Status, no_timeout, timeout, wait_for_usec}

-- How a timed wait ends, given the ticks and the RTOS's answer `v`.
pub data Waited (ex : Bool) (ticks v : ℕ) (r : Result (Status × ℕ)) : Type 0 where
  flags_set : v < 2 ^ 31 → r ≡ ok (no_timeout, v) → Waited ex ticks v r
  timed_out : v ≡ os_flags_error_timeout → r ≡ ok (timeout, v) → Waited ex ticks v r
  polled : ticks ≡ 0 → v ≡ os_flags_error_resource → r ≡ ok (timeout, v) → Waited ex ticks v r
  failed :
      2 ^ 31 ≤ v
      → v ≢ os_flags_error_timeout
      → ((ticks ≡ 0) → v ≢ os_flags_error_resource)
      → r ≡ (if ex then throw (system_error (signed32 v) flags_category) else terminate)
      → Waited ex ticks v r

module _ {W : Type 0} (ex : Bool) (api : EventApi W) where
  -- With a duration that is not negative, and the RTOS answering a uint32_t `v`: the wait reports
  -- no_timeout with the flags for an answer without the error bit, a timeout for osFlagsErrorTimeout,
  -- a timeout for osFlagsErrorResource if the duration was under a tick, and fails with `v` as the
  -- error code for every other answer.
  pub wait_for_usec-Waited :
      (m_id mask flg usec t v : ℕ) (w : W)
      → timeout_ticks (pos usec) (api.os_kernel_get_tick_freq w) ≡ t
      → (api.os_event_flags_wait m_id mask (wait_option flg) t w).0 ≡ v
      → v < 2 ^ 32
      → Waited ex t v (wait_for_usec ex api m_id mask flg (pos usec) w).0
  unfolding wait_for_usec
  wait_for_usec-Waited m_id mask flg usec t v w et ev h = elim (le-cases (2 ^ 31) v) [
    | inr l ↦ flags_set l (ground arith)
    | inl g ↦ elim (eq-cases v os_flags_error_timeout) [
      | inl e ↦ timed_out e (ground arith)
      | inr n ↦ elim (eq-cases v os_flags_error_resource) [
        | inr m ↦ failed g n (λ _. m) (ground arith)
        | inl e ↦ elim (eq-cases t 0) [
          | inl z ↦ polled z e (ground arith)
          | inr z ↦ failed g n (λ z'. absurd (z z')) (ground arith)
        ]
      ]
    ]
  ]
