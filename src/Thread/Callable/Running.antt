-- ===== src/Thread/Callable/Running.antt =====
-- What a thread made by std::thread runs, and how it ends.
use cmsis_cpp.Base.{◌≡◌, ◌≢◌, refl, Bool, false, some, arith}
use cmsis_cpp.Rtos.{Action, Result, ok, throw, terminate, os_priority_normal, os_thread_joinable}
use cmsis_cpp.Thread.{ThreadAttr, Thread, ThreadApi, runnable}
use cmsis_cpp.Thread.Callable.{Callable, run, construct_std}

abbrev pub std_attr : ThreadAttr
std_attr = record {
  attr_bits = os_thread_joinable;
  name = 0;
  stack_mem = 0;
  stack_size = 0;
  priority = os_priority_normal;
}

-- How the RTOS thread ends, given how the bound call ends: it exits behind a return, and ends the
-- program otherwise.
abbrev pub Ends :
    {W : Type 0} → ThreadApi W → Result (Unit {0}) × W → Result (Unit {0}) × W → Type 0
Ends api (ok _, w) r = r ≡ (ok tt, (api.os_thread_exit w).1)
Ends api (throw e, w) r = r ≡ (terminate, w)
Ends api (terminate, w) r = r ≡ (terminate, w)

module _ {W Args : Type 0} (ex : Bool) (api : ThreadApi W) where
  -- Where the RTOS makes a thread, std::thread's constructor asks for a joinable one of normal priority
  -- with a stack of the RTOS, and returns an object for it; what that thread runs is the call of `f`
  -- with the arguments bound then: behind its return the thread exits, and an exception out of it
  -- ends the program.
  pub construct_std-runs :
      (f : Args → Action W (Unit {0})) (args : Args) (w w' : W)
      → (api.os_thread_new std_attr w).0 ≢ 0
      → (t : Thread) × (base : Callable W) × ((construct_std ex api f args w).0 ≡ ok (t, base))
        × (t ≡ some (record { m_id = (api.os_thread_new std_attr w).0; m_detached = false }))
        × Ends api (f args w') (runnable ex api (run base) w')
  unfolding construct_std runnable run
  construct_std-runs f args w w' h = (
    some (record { m_id = (api.os_thread_new std_attr w).0; m_detached = false }),
    record { m_func = f args },
    ground arith,
    refl,
    ends (f args w') refl,
  )
    where
      ends : (r : Result (Unit {0}) × W) → f args w' ≡ r → Ends api r (runnable ex api (f args) w')
      ends (ok u, v) e = ground (arith, e)
      ends (throw x, v) e = ground (arith, e)
      ends (terminate, v) e = ground (arith, e)
