-- ===== src/ConditionVariable/Monitor/Wakeups.antt =====
-- The states that the threads reach: the lock, the flag and the tokens of those that wait.
use cmsis_cpp.Base.{
  ◌⊎◌, ℕ, ◌≡◌, refl, ap, sym, ◌∙◌, inl, inr, true, false, List, [], ◌∷◌, ◌++◌, none, some, arith,
  Bool-cases,
}
use cmsis_cpp.ConditionVariable
use cmsis_cpp.ConditionVariable.{
  Cv, Event, enters, takes, expires, finishes, notifies_one, notifies_all, acquired, expired,
  contains, start, run, step, is_waiting,
}
use cmsis_cpp.ConditionVariable.Notifying.{step_unbroken}
use cmsis_cpp.ConditionVariable.Races.{run_one, expires_enabled, finishes_enabled}
use cmsis_cpp.ConditionVariable.Predicates.World.Refinement.{
  run-append, enters_enabled, finish_acquired_enabled,
}
use cmsis_cpp.ConditionVariable.Notifying.{unbroken-Inv}
use cmsis_cpp.ConditionVariable.Monitor.{
  Pc, rank, Monitor, new, Step, locks, unlocks, writes, signals_one, signals_all, waits, tests,
  enlists, releases, wakes, times_out, relocks, returns, gives_up, Reach, begins, goes_on,
}
use cmsis_cpp.ConditionVariable.Monitor.Ordered.{holds, placed_by_waiting, Ordered}
use cmsis_cpp.ConditionVariable.Monitor.Invariant.{Reach-Ordered}

-- Two threads that both have the callers' lock are the same.
pub lock_exclusive :
    (s : Monitor) (i j : ℕ)
    → Reach s
    → holds (rank (s.pc i)) ≡ true
    → holds (rank (s.pc j)) ≡ true
    → i ≡ j
lock_exclusive s i j r p q = let v = Reach-Ordered r in omega (arith, v.owns i p, v.owns j q)

-- In every state without a fault that any number of threads reach, a thread that is blocked in a wait has
-- its token; or else it stands in the list, where the next notify_all finds it, and the flag is
-- false, or nobody has called notify_all since it became true.
pub no_lost_wakeup :
    (s : Monitor) (i : ℕ)
    → Reach s
    → s.cv.fault ≡ none
    → s.pc i ≡ Pc.waiting
    → (s.cv.token i ≡ true)
      ⊎ ((contains i s.cv.m_wait ≡ true) × ((s.flag ≡ false) ⊎ (s.due ≡ true)))
no_lost_wakeup s i r u p =
    let v = Reach-Ordered r in
    let b = placed_by_waiting (s.cv.phase i) (rw (sym (ap rank p)) (v.placed i u)) in
    let inv = unbroken-Inv s.cv v.sound u in
    elim (Bool-cases (s.cv.token i)) [
      | inl t ↦ inl t
      | inr t ↦ let w = v.woken i (ap rank p) t in inr (ground (arith, inv.fit i, b), ground arith)
    ]

takes_enabled :
    (i : ℕ) (c : Cv)
    → c.fault ≡ none
    → c.phase i ≡ ConditionVariable.blocked
    → c.token i ≡ true
    → step (takes i) c ≡ some (ConditionVariable.take i c)
takes_enabled i c f b t = step_unbroken (takes i) c f ∙ rw (b, t) refl

-- Each step of the monitor is at most one step of the condition variable.
Projects : Cv → Cv → Type 0
Projects c d = (es : List Event) × (run es c ≡ some d)

module _ (s : Monitor) (v : Ordered s) (u : s.cv.fault ≡ none) where
  same : Projects s.cv s.cv
  unfolding Projects run
  same = ([], refl)

  one : (e : Event) (d : Cv) → step e s.cv ≡ some d → Projects s.cv d
  unfolding Projects
  one e d h = (e ∷ [], run_one e s.cv d h)

  is_blocked_at : (i : ℕ) → s.pc i ≡ Pc.waiting → s.cv.phase i ≡ ConditionVariable.blocked
  is_blocked_at i p = placed_by_waiting (s.cv.phase i) (rw (sym (ap rank p)) (v.placed i u))

  Step-Projects : {t : Monitor} → Step s t → Projects s.cv t.cv
  Step-Projects (locks i p f) = same
  Step-Projects (unlocks i p) = same
  Step-Projects (writes i b p) = same
  Step-Projects signals_one = one notifies_one _ (step_unbroken notifies_one s.cv u)
  Step-Projects signals_all = one notifies_all _ (step_unbroken notifies_all s.cv u)
  Step-Projects (waits i p) = same
  Step-Projects (tests i p) = same
  Step-Projects (enlists i p) =
      one (enters i) _ (enters_enabled i s.cv u (ground (arith, v.placed i)))
  Step-Projects (releases i p) = same
  Step-Projects (wakes i p t) = one (takes i) _ (takes_enabled i s.cv u (is_blocked_at i p) t)
  Step-Projects (times_out i p t) =
      one (expires i) _ (expires_enabled i s.cv u (is_blocked_at i p) t)
  Step-Projects (relocks i p f) = same
  Step-Projects (returns i p a) = one (finishes i) _ (finish_acquired_enabled i s.cv u a)
  Step-Projects (gives_up i p x) = one (finishes i) _ (finishes_enabled i s.cv u x)

-- What any number of threads with a lock and a flag do is a run of the condition variable's steps: the
-- condition variable of each state they reach is one that a run from a new one reaches.
pub Reach-runs : (s : Monitor) → Reach s → (es : List Event) × (run es start ≡ some s.cv)
unfolding new run Projects
Reach-runs s begins = ([], refl)
Reach-runs s (goes_on {s = r} h u st) =
    let (es, e) = Reach-runs r h in
    let (fs, f) = Step-Projects r (Reach-Ordered h) u st in
    (es ++ fs, run-append es fs start r.cv e ∙ f)
