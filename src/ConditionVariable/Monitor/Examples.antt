-- ===== src/ConditionVariable/Monitor/Examples.antt =====
-- A run of the monitor: the thread 0 waits for the flag, 1 sets it and calls notify_all.
use cmsis_cpp.Base.{ℕ, ◌≤◌, ◌*◌, ◌≡◌, ◌⊎◌, refl, true, false, List, some, arith}
use cmsis_cpp.ConditionVariable
use cmsis_cpp.ConditionVariable.{Event, contains, run, start}
use cmsis_cpp.ConditionVariable.Monitor.{
  Pc, Monitor, new, Step, locks, unlocks, writes, signals_all, waits, tests, enlists, releases,
  wakes, Reach, begins, goes_on,
}
use cmsis_cpp.ConditionVariable.Monitor.Wakeups.{no_lost_wakeup, Reach-runs}
use cmsis_cpp.ConditionVariable.Monitor.Settled.{quiet, Quiets, stays, moves, Settled}
use cmsis_cpp.ConditionVariable.Monitor.Leaving.{everyone_leaves}

-- The thread 0 is blocked, 1 has the lock.
abbrev blocked_path : (s : Monitor) × Reach s
unfolding new ConditionVariable.enter ConditionVariable.start
blocked_path =
    let r₁ = goes_on begins refl (locks 0 refl refl) in
    let r₂ = goes_on r₁ refl (waits 0 refl) in
    let r₃ = goes_on r₂ refl (tests 0 refl) in
    let r₄ = goes_on r₃ refl (enlists 0 refl) in
    let r₅ = goes_on r₄ refl (releases 0 refl) in (_, goes_on r₅ refl (locks 1 refl refl))

-- 1 has set the flag, unlocked, and called notify_all.
abbrev told_path : (s : Monitor) × Reach s
unfolding blocked_path new ConditionVariable.enter ConditionVariable.start
    ConditionVariable.notify_all ConditionVariable.release_all ConditionVariable.release
told_path =
    let r₁ = goes_on blocked_path.1 refl (writes 1 true refl) in
    let r₂ = goes_on r₁ refl (unlocks 1 refl) in (_, goes_on r₂ refl signals_all)

told : Monitor
unfolding told_path
told = told_path.0

told-Reach : Reach told
unfolding told told_path
told-Reach = told_path.1

no_lost_wakeup_example :
    (told.cv.token 0 ≡ true)
    ⊎ ((contains 0 told.cv.m_wait ≡ true) × ((told.flag ≡ false) ⊎ (told.due ≡ true)))
unfolding told told_path blocked_path new ConditionVariable.enter ConditionVariable.start
    ConditionVariable.notify_all ConditionVariable.release_all ConditionVariable.release
no_lost_wakeup_example = no_lost_wakeup told 0 told-Reach refl refl

Reach-runs_example : (es : List Event) × (run es start ≡ some told.cv)
Reach-runs_example = Reach-runs told told-Reach

told-Settled : Settled 2 told
unfolding told told_path blocked_path new ConditionVariable.enter ConditionVariable.start
    ConditionVariable.notify_all ConditionVariable.release_all ConditionVariable.release
told-Settled = record {
  reached = told-Reach;
  unbroken = refl;
  raised = refl;
  told = refl;
  few = λ i h. ground arith;
  patient = λ i e. ground arith;
}

woken_path : (s : Monitor) × Quiets told 1 s
unfolding told told_path blocked_path new ConditionVariable.enter ConditionVariable.start
    ConditionVariable.notify_all ConditionVariable.release_all ConditionVariable.release
woken_path = (_, moves stays (wakes 0 refl refl) refl)

everyone_leaves_example :
    (1 ≤ 7 * 2)
    × (((i : ℕ) → woken_path.0.pc i ≡ Pc.outside)
        ⊎ ((u : Monitor) × (st : Step woken_path.0 u) × (quiet st ≡ true)))
everyone_leaves_example = everyone_leaves 2 1 told woken_path.0 told-Settled woken_path.1
