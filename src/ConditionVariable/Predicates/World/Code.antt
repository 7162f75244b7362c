-- ===== src/ConditionVariable/Predicates/World/Code.antt =====
-- The three ways in which a call of the code of wait_for_usec ends, in the interleaving of all threads.
use cmsis_cpp.Base.{ℕ, ◌<◌, ◌≡◌, Bool, true, false, some, arith}
use cmsis_cpp.Base.Int.{pos}
use cmsis_cpp.Ticks.{timeout_ticks}
use cmsis_cpp.Rtos.{ok, terminate}
use cmsis_cpp.Semaphore
use cmsis_cpp.ConditionVariable.{
  Cv, no_timeout, timeout, contains, remove, take, expire, enter, run,
}
use cmsis_cpp.ConditionVariable.Predicates.{insert, finish, erase, wait_for_usec}
use cmsis_cpp.ConditionVariable.Predicates.World.{World, left, play, context_in, acquire_in}

module _ (ex : Bool) (i freq usec : ℕ) (w : World) (s₁ s₃ : Cv) (named : 0 < i)
    (during : run w.during (enter i w.cv) ≡ some s₁) where
  pub code_acquired :
      s₁.token i ≡ true
      → run w.before_lock (take i s₁) ≡ some s₃
      → wait_for_usec ex (context_in i freq) (pos usec) w
        ≡ (ok no_timeout, record w { cv = left i s₃ })
  unfolding wait_for_usec acquire_in play enter insert finish Semaphore.construct Semaphore.destroy
      Semaphore.try_acquire_for_usec
  code_acquired t b = let u = timeout_ticks (pos usec) freq in ground (arith, during, b)

  pub code_expired :
      s₁.token i ≡ false
      → run w.before_lock (expire i s₁) ≡ some s₃
      → contains i s₃.m_wait ≡ true
      → wait_for_usec ex (context_in i freq) (pos usec) w
        ≡ (ok timeout, record w { cv = left i (record s₃ { m_wait = remove i s₃.m_wait }) })
  unfolding wait_for_usec acquire_in play enter insert finish erase Semaphore.construct
      Semaphore.destroy Semaphore.try_acquire_for_usec
  code_expired t b c = let u = timeout_ticks (pos usec) freq in ground (arith, during, b)

  pub code_stops :
      s₁.token i ≡ false
      → run w.before_lock (expire i s₁) ≡ some s₃
      → contains i s₃.m_wait ≡ false
      → (wait_for_usec ex (context_in i freq) (pos usec) w).0 ≡ terminate
  unfolding wait_for_usec acquire_in play enter insert finish erase Semaphore.construct
      Semaphore.destroy Semaphore.try_acquire_for_usec
  code_stops t b c = let u = timeout_ticks (pos usec) freq in ground (arith, during, b)
