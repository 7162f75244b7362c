-- ===== src/ConditionVariable/Notifiers/Examples.antt =====
-- A notifier on a condition variable for which the threads 1 and 2 wait, while the thread 3 comes to wait
-- before the notifier has the mutex.
use cmsis_cpp.Base.{
  ℕ, ◌≡◌, refl, Bool, true, false, not, ◌&&◌, Option, List, [], ◌∷◌, ◌++◌, none, some, arith,
  if◌then◌else◌,
}
use cmsis_cpp.Base.Int.{ℤ}
use cmsis_cpp.Rtos.{pure, ok, os_ok, os_error_resource, os_error_timeout}
use cmsis_cpp.Semaphore.{SemaphoreApi}
use cmsis_cpp.ConditionVariable
use cmsis_cpp.ConditionVariable.{
  Cv, Fault, enter, blocked, Event, enters, notifies_one, notifies_all, start, update, contains,
  is_waiting, take, expire, step, run,
}
use cmsis_cpp.ConditionVariable.Predicates.{CvContext}
use cmsis_cpp.ConditionVariable.Notifiers.{notify_one, notify_all}
use cmsis_cpp.ConditionVariable.Notifiers.Tokens.{IsShared}
use cmsis_cpp.ConditionVariable.Notifiers.Refinement.{notifiers-refine}

abbrev release_in : ℕ → Cv → ℤ × Cv
release_in i s =
    if is_waiting (s.phase i) && not (s.token i)
    then (os_ok, record s { token = update s.token i true })
    else (os_error_resource, s)

abbrev sample_semaphores : SemaphoreApi Cv
sample_semaphores = record {
  os_kernel_get_tick_freq = λ s. 1000;
  os_semaphore_new = λ max desired s. (1, s);
  os_semaphore_delete = λ m_id s. (os_ok, s);
  os_semaphore_release = release_in;
  os_semaphore_acquire = λ m_id timeout s. (os_error_timeout, s);
}

-- The thread 3 comes unless it is there, or something went wrong.
abbrev comes : Option Fault → Bool → Bool
comes (some f) waiting = false
comes none waiting = not waiting

abbrev comes_to : Cv → Bool
comes_to s = comes s.fault (is_waiting (s.phase 3))

abbrev enters_three : Cv → List Event
enters_three s = if comes_to s then enters 3 ∷ [] else []

arrive : Cv → Cv
arrive s = if comes_to s then enter 3 s else s

arrive-runs :
    (f : Option Fault) (b : Bool) (s : Cv)
    → s.fault ≡ f
    → is_waiting (s.phase 3) ≡ b
    → run (enters_three s) s ≡ some (arrive s)
unfolding run step arrive
arrive-runs (some f) b s e w = ground arith
arrive-runs none true s e w = ground arith
arrive-runs none false s e w = ground arith

abbrev sample_context : CvContext Cv
sample_context = record {
  semaphores = sample_semaphores;
  mutex_lock = λ s. (ok tt, arrive s);
  mutex_unlock = pure tt;
  m_wait = λ s. s.m_wait;
  set_m_wait = λ xs s. record s { m_wait = xs };
  owns_lock = λ s. true;
  lock = pure tt;
  unlock = pure tt;
}

sample-IsShared : IsShared sample_context (λ s. s) enters_three
sample-IsShared = record {
  m_wait_view = λ s. refl;
  set_m_wait_view = λ xs s. refl;
  locked = λ s. (refl, arrive-runs s.fault (is_waiting (s.phase 3)) s refl refl);
  unlocked = λ s. (refl, refl);
  release_empty = λ i s h t. ground arith;
}

abbrev two_waiting : Cv
two_waiting = record {
  m_wait = 1 ∷ 2 ∷ [];
  phase = update (update (λ i. ConditionVariable.outside) 1 blocked) 2 blocked;
  token = update (update (λ i. false) 1 false) 2 false;
  fault = none;
}

reached : run (enters 1 ∷ enters 2 ∷ []) start ≡ some two_waiting
unfolding run step start enter
reached = refl

arrive-unbroken : (arrive two_waiting).fault ≡ none
unfolding arrive enter
arrive-unbroken = refl

notifiers-refine_example :
    ((notify_one true sample_context two_waiting).0 ≡ ok tt)
    × (run (enters_three two_waiting ++ notifies_one ∷ []) two_waiting
        ≡ some (notify_one true sample_context two_waiting).1)
    × ((notify_all true sample_context two_waiting).0 ≡ ok tt)
    × (run (enters_three two_waiting ++ notifies_all ∷ []) two_waiting
        ≡ some (notify_all true sample_context two_waiting).1)
notifiers-refine_example =
    notifiers-refine true sample_context (λ s. s) enters_three sample-IsShared
      (enters 1 ∷ enters 2 ∷ []) two_waiting reached arrive-unbroken
