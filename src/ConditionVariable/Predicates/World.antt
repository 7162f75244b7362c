-- ===== src/ConditionVariable/Predicates/World.antt =====
-- The code of one waiting thread, run in the interleaving of all: a state that the steps of
-- ConditionVariable.antt move on, with what the other threads do while this one is blocked.
pub mod Code
pub mod Refinement
pub mod Notified
pub mod Negative
use cmsis_cpp.Base.{
  ℕ, ◌≡◌, refl, Bool, true, false, List, [], ◌∷◌, ◌++◌, Option, none, some, if◌then◌else◌, ◌==◌,
}
use cmsis_cpp.Base.Int.{ℤ}
use cmsis_cpp.Rtos.{Action, pure, ok, os_ok, os_error_resource, os_error_timeout}
use cmsis_cpp.Semaphore.{SemaphoreApi}
use cmsis_cpp.ConditionVariable.{Cv, Event, outside, blocked, update, take, expire, run}
use cmsis_cpp.ConditionVariable.Predicates.{CvContext}

-- `during` happens between `lock.unlock()` and the end of the semaphore's wait, `before_lock` until
-- `lock.lock()` has the mutex.
pub record World : Type 0 where
  pub cv : Cv
  pub during : List Event
  pub before_lock : List Event

-- A run that cannot happen leaves the state alone.
pub play : List Event → Cv → Cv
play es s = elim (run es s) [ none ↦ s | some s' ↦ s' ]

-- The semaphore of the thread `i`, a local variable of its call, is destroyed.
abbrev pub left : ℕ → Cv → Cv
left i s = record s { phase = update s.phase i outside }

module _ (i freq : ℕ) where
  -- The semaphore of the thread `i` has the handle `i`. A wait ends with a token as soon as there is one
  -- when the others have run, and otherwise by its timeout.
  unfoldable pub acquire_in : ℕ → ℕ → World → ℤ × World
  unfolding play
  acquire_in m_id timeout w =
      let s = play w.during w.cv in
      if s.token i then (os_ok, record w { cv = take i s }) else (
        if timeout == 0 then os_error_resource else os_error_timeout,
        record w { cv = expire i s },
      )

  abbrev pub semaphores_in : SemaphoreApi World
  semaphores_in = record {
    os_kernel_get_tick_freq = λ w. freq;
    os_semaphore_new =
        λ max desired w. (i, record w { cv = record w.cv { token = update w.cv.token i false } });
    os_semaphore_delete = λ m_id w. (os_ok, record w { cv = left i w.cv });
    os_semaphore_release = λ m_id w. (os_ok, w);
    os_semaphore_acquire = acquire_in;
  }

  abbrev pub context_in : CvContext World
  context_in = record {
    semaphores = semaphores_in;
    mutex_lock = pure tt;
    mutex_unlock = pure tt;
    m_wait = λ w. w.cv.m_wait;
    set_m_wait = λ xs w. record w { cv = record w.cv { m_wait = xs } };
    owns_lock = λ w. true;
    lock = λ w. (ok tt, record w { cv = play w.before_lock w.cv });
    unlock = λ w. (ok tt, record w { cv = record w.cv { phase = update w.cv.phase i blocked } });
  }
