-- ===== src/ConditionVariable/Examples.antt =====
-- Runs of two threads that wait, as tests and as witnesses.
use cmsis_cpp.Base.Int.{pos}
use cmsis_cpp.ConditionVariable.{expire, notify_first}
use cmsis_cpp.ConditionVariable.Predicates.{wait_for_usec}
use cmsis_cpp.ConditionVariable.Predicates.World.{World, context_in}
use cmsis_cpp.ConditionVariable.Predicates.World.Refinement.{
  whole_call, Agrees, wait_for_usec-refines,
}
use cmsis_cpp.ConditionVariable.Predicates.World.Notified.{
  wait_for_usec_alone, wait_for_usec_notified,
}
use cmsis_cpp.Base.{ℕ, ◌≡◌, refl, ◌⊎◌, true, false, List, [], ◌∷◌, none, some, arith, ◌<◌}
use cmsis_cpp.Rtos.{ok}
use cmsis_cpp.ConditionVariable.{
  Cv, no_timeout, timeout, returned, blocked, invalid_iterator, start, update, contains, remove,
  is_waiting, notify_one, notify_all, enter, Event, enters, takes, expires, finishes, notifies_one,
  notifies_all, step, run, take, finish_acquired, release, release_all,
}
use cmsis_cpp.ConditionVariable.Notifying.{Sound, run-Sound, run_releases_live}
use cmsis_cpp.Base.{length}
use cmsis_cpp.ConditionVariable.Repeating.{notify_times, notify_times-notify_all}
use cmsis_cpp.ConditionVariable.Races.{timeout_removes, timeout_races}
use cmsis_cpp.ConditionVariable.Arrivals.{steps_since, notify_one-longest}

abbrev two_entered : List Event
two_entered = enters 1 ∷ enters 2 ∷ []

abbrev two_waiting : Cv
two_waiting = enter 2 (enter 1 start)

reached : run two_entered start ≡ some two_waiting
unfolding run step start enter
reached = refl

unbroken : two_waiting.fault ≡ none
unfolding enter start
unbroken = refl

listed : two_waiting.m_wait ≡ 1 ∷ 2 ∷ []
unfolding enter start
listed = refl

first_blocked : two_waiting.phase 1 ≡ blocked
unfolding enter start
first_blocked = refl

first_token : two_waiting.token 1 ≡ false
unfolding enter start
first_token = refl

-- Both wake after notify_all and return.
both_return :
    (s : Cv) × (run
        (enters 1 ∷ enters 2 ∷ notifies_all ∷ takes 2 ∷ takes 1 ∷ finishes 1 ∷ finishes 2 ∷ [])
        start
      ≡ some s)
    × (s.phase 1 ≡ returned no_timeout)
    × (s.m_wait ≡ [])
unfolding run step start enter take finish_acquired notify_all release_all release
both_return = (_, refl, refl, refl)

run-Sound_example : Sound two_waiting
run-Sound_example = run-Sound two_entered two_waiting reached

run_releases_live_example : (two_waiting.fault ≡ none) ⊎ (two_waiting.fault ≡ some invalid_iterator)
run_releases_live_example = run_releases_live two_entered two_waiting reached

-- After that run the thread 1 called wait a step ago, 2 just now, and 3 never.
sample_since :
    (steps_since 1 two_entered 0 ≡ 1)
    × (steps_since 2 two_entered 0 ≡ 0)
    × (steps_since 3 two_entered 0 ≡ 2)
unfolding steps_since
sample_since = (refl, refl, refl)

notify_one-longest_example :
    ((j : ℕ)
      → contains j (2 ∷ []) ≡ true
      → steps_since j two_entered 0 < steps_since 1 two_entered 0)
    × (notify_one two_waiting
        ≡ record two_waiting { m_wait = 2 ∷ []; token = update two_waiting.token 1 true })
    × (is_waiting (two_waiting.phase 1) ≡ true)
    × (two_waiting.token 1 ≡ false)
    × (contains 1 (2 ∷ []) ≡ false)
notify_one-longest_example =
    notify_one-longest two_entered two_waiting 1 (2 ∷ []) reached unbroken listed

notify_times-notify_all_example :
    notify_times (length two_waiting.m_wait) two_waiting ≡ notify_all two_waiting
notify_times-notify_all_example = notify_times-notify_all two_entered two_waiting reached unbroken

timeout_removes_example :
    (s : Cv) × (run (expires 1 ∷ finishes 1 ∷ []) two_waiting ≡ some s)
    × (s.fault ≡ none)
    × (s.phase 1 ≡ returned timeout)
    × (s.m_wait ≡ remove 1 two_waiting.m_wait)
timeout_removes_example =
    timeout_removes two_entered two_waiting 1 reached unbroken first_blocked first_token

timeout_races_example :
    (s : Cv) × (run (expires 1 ∷ notifies_one ∷ finishes 1 ∷ []) two_waiting ≡ some s)
    × (s.fault ≡ some invalid_iterator)
timeout_races_example =
    timeout_races two_entered two_waiting 1 (2 ∷ []) reached unbroken listed first_blocked

-- The thread 1 waits while 2 begins to wait; between the timeout of 1 and the return of its lock,
-- somebody notifies.
abbrev late_notification : World
late_notification = record { cv = start; during = enters 2 ∷ []; before_lock = notifies_one ∷ [] }

wait_for_usec-refines_example :
    (s' : Cv) × (run (whole_call 1 late_notification two_waiting) start ≡ some s')
    × Agrees 1 (wait_for_usec true (context_in 1 1000) (pos 5000) late_notification) s'
unfolding run step start enter expire notify_one notify_first release
wait_for_usec-refines_example =
    wait_for_usec-refines true 1 1000 5000 late_notification two_waiting
      (notify_one (expire 1 two_waiting)) (omega arith) refl refl refl refl refl refl refl refl

wait_for_usec_alone_example :
    let w : World = record { cv = two_waiting; during = []; before_lock = [] } in
    ((wait_for_usec true (context_in 3 1000) (pos 5000) w).0 ≡ ok timeout)
    × ((wait_for_usec true (context_in 3 1000) (pos 5000) w).1.cv.m_wait ≡ two_waiting.m_wait)
unfolding enter start
wait_for_usec_alone_example =
    wait_for_usec_alone true 3 1000 5000 two_entered two_waiting (omega arith) reached unbroken refl

wait_for_usec_notified_example :
    let w : World = record { cv = two_waiting; during = notifies_all ∷ []; before_lock = [] } in
    ((wait_for_usec true (context_in 3 1000) (pos 5000) w).0 ≡ ok no_timeout)
    × ((wait_for_usec true (context_in 3 1000) (pos 5000) w).1.cv.m_wait ≡ [])
unfolding enter start
wait_for_usec_notified_example =
    wait_for_usec_notified true 3 1000 5000 two_entered two_waiting (omega arith) reached unbroken
      refl
