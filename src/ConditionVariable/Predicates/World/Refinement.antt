-- ===== src/ConditionVariable/Predicates/World/Refinement.antt =====
-- The code of wait_for_usec refines the steps of ConditionVariable.antt.
use cmsis_cpp.Base.{
  ℕ, ◌<◌, ◌≡◌, refl, ◌∙◌, ◌⊎◌, inl, inr, Bool, true, false, List, [], ◌∷◌, ◌++◌, Option, none, some,
  arith, if◌then◌else◌, Bool-cases,
}
use cmsis_cpp.Base.Int.{pos}
use cmsis_cpp.Rtos.{Result, ok, terminate}
use cmsis_cpp.ConditionVariable.{
  Cv, CvStatus, no_timeout, timeout, Phase, blocked, acquired, expired, returned, invalid_iterator,
  is_waiting, contains, take, expire, enter, finish_acquired, finish_expired, Event, enters, takes,
  expires, finishes, run, step,
}
use cmsis_cpp.ConditionVariable.Notifying.{step_unbroken}
use cmsis_cpp.ConditionVariable.Races.{
  run_cons, run_one, expires_enabled, finishes_enabled, finish_expired_listed,
  finish_expired_unlisted,
}
use cmsis_cpp.ConditionVariable.Predicates.{wait_for_usec}
use cmsis_cpp.ConditionVariable.Predicates.World.{World, context_in}
use cmsis_cpp.ConditionVariable.Predicates.World.Code.{code_acquired, code_expired, code_stops}

pub run-append : (xs ys : List Event) (s t : Cv) → run xs s ≡ some t → run (xs ++ ys) s ≡ run ys t
unfolding run
run-append [] ys s t h = ground (arith, h)
run-append (x ∷ xs) ys s t h = through (step x s) (λ s' k. run-append xs ys s' t k) h
  where
    through :
        (o : Option Cv)
        → ((s' : Cv) → run xs s' ≡ some t → run (xs ++ ys) s' ≡ run ys t)
        → elim o as (λ _. Option Cv) [ none ↦ none | some s' ↦ run xs s' ] ≡ some t
        → elim o as (λ _. Option Cv) [ none ↦ none | some s' ↦ run (xs ++ ys) s' ] ≡ run ys t
    through none f k = absurd (cc)
    through (some s') f k = f s' k

-- The step by which the wait on the semaphore ends, and the state it leads to.
abbrev pub decision : ℕ → Cv → Event
decision i s = if s.token i then takes i else expires i

abbrev pub decided : ℕ → Cv → Cv
decided i s = if s.token i then take i s else expire i s

abbrev pub decided_phase : ℕ → Cv → Phase
decided_phase i s = if s.token i then acquired else expired

-- The steps of a whole call of the thread `i`, with those of the others in between.
abbrev pub whole_call : ℕ → World → Cv → List Event
whole_call i w s = enters i ∷ (w.during ++ (decision i s ∷ (w.before_lock ++ (finishes i ∷ []))))

-- The result of the code, with the state it leaves, agrees with a state of the steps.
abbrev pub Agrees : ℕ → Result CvStatus × World → Cv → Type 0
Agrees i r s =
    ((st : CvStatus) × (r.0 ≡ ok st)
      × (s.phase i ≡ returned st)
      × (s.fault ≡ none)
      × (r.1.cv.m_wait ≡ s.m_wait)
      × (r.1.cv.token ≡ s.token))
    ⊎ ((r.0 ≡ terminate) × (s.fault ≡ some invalid_iterator))

pub enters_enabled :
    (i : ℕ) (s : Cv)
    → s.fault ≡ none
    → is_waiting (s.phase i) ≡ false
    → step (enters i) s ≡ some (enter i s)
enters_enabled i s f h = step_unbroken (enters i) s f ∙ rw h refl

decision_enabled :
    (i : ℕ) (s : Cv)
    → s.fault ≡ none
    → s.phase i ≡ blocked
    → step (decision i s) s ≡ some (decided i s)
decision_enabled i s f b = elim (Bool-cases (s.token i)) [
  | inl t ↦ rw t (step_unbroken (takes i) s f ∙ rw (b, t) refl)
  | inr t ↦ rw t (expires_enabled i s f b t)
]

run-whole_call :
    (i : ℕ) (w : World) (s₁ s₃ s' : Cv)
    → w.cv.fault ≡ none
    → is_waiting (w.cv.phase i) ≡ false
    → run w.during (enter i w.cv) ≡ some s₁
    → s₁.fault ≡ none
    → s₁.phase i ≡ blocked
    → run w.before_lock (decided i s₁) ≡ some s₃
    → step (finishes i) s₃ ≡ some s'
    → run (whole_call i w s₁) w.cv ≡ some s'
run-whole_call i w s₁ s₃ s' f h during f₁ b before last =
    run_cons (enters i) _ w.cv (enter i w.cv) (enters_enabled i w.cv f h)
    ∙ run-append w.during _ (enter i w.cv) s₁ during
    ∙ run_cons (decision i s₁) _ s₁ (decided i s₁) (decision_enabled i s₁ f₁ b)
    ∙ run-append w.before_lock _ (decided i s₁) s₃ before
    ∙ run_one (finishes i) s₃ s' last

pub finish_acquired_enabled :
    (i : ℕ) (s : Cv)
    → s.fault ≡ none
    → s.phase i ≡ acquired
    → step (finishes i) s ≡ some (finish_acquired i s)
finish_acquired_enabled i s f a = step_unbroken (finishes i) s f ∙ rw a refl

module _ (ex : Bool) (i freq usec : ℕ) (w : World) (s₁ s₃ : Cv) (named : 0 < i)
    (during : run w.during (enter i w.cv) ≡ some s₁) (unbroken : s₃.fault ≡ none) where
  finish_acquired-Agrees :
      s₁.token i ≡ true
      → run w.before_lock (take i s₁) ≡ some s₃
      → Agrees i (wait_for_usec ex (context_in i freq) (pos usec) w) (finish_acquired i s₃)
  unfolding finish_acquired
  finish_acquired-Agrees t b =
      rw (code_acquired ex i freq usec w s₁ s₃ named during t b)
        (inl (no_timeout, refl, ground arith, unbroken, refl, refl))

  finish_expired-Agrees :
      s₁.token i ≡ false
      → run w.before_lock (expire i s₁) ≡ some s₃
      → Agrees i (wait_for_usec ex (context_in i freq) (pos usec) w) (finish_expired i s₃)
  finish_expired-Agrees t b = elim (Bool-cases (contains i s₃.m_wait)) [
    | inl c ↦
        rw (code_expired ex i freq usec w s₁ s₃ named during t b c, finish_expired_listed i s₃ c)
          (inl (timeout, refl, ground arith, unbroken, refl, refl))
    | inr c ↦
        rw (finish_expired_unlisted i s₃ c)
          (inr (code_stops ex i freq usec w s₁ s₃ named during t b c, refl))
  ]

-- The code of wait_for_usec refines the steps. A thread with a handle other than 0, which is not waiting,
-- calls it without a fault so far and with a duration that is not negative; the others take any steps
-- while it is blocked, and any while it waits for its lock, that can happen, cause no fault and do not
-- move this thread. Then the whole is a run of the steps, and the code returns what that run says, with
-- the same waiting list and the same tokens, or it stops as the run has erased an invalid iterator.
pub wait_for_usec-refines :
    (ex : Bool) (i freq usec : ℕ) (w : World) (s₁ s₃ : Cv)
    → 0 < i
    → w.cv.fault ≡ none
    → is_waiting (w.cv.phase i) ≡ false
    → run w.during (enter i w.cv) ≡ some s₁
    → s₁.fault ≡ none
    → s₁.phase i ≡ blocked
    → run w.before_lock (decided i s₁) ≡ some s₃
    → s₃.fault ≡ none
    → s₃.phase i ≡ decided_phase i s₁
    → (s' : Cv) × (run (whole_call i w s₁) w.cv ≡ some s')
      × Agrees i (wait_for_usec ex (context_in i freq) (pos usec) w) s'
wait_for_usec-refines ex i freq usec w s₁ s₃ named f h during f₁ b before f₃ p =
    elim (Bool-cases (s₁.token i)) [
      | inl t ↦ (
        finish_acquired i s₃,
        run-whole_call i w s₁ s₃ _ f h during f₁ b before
            (finish_acquired_enabled i s₃ f₃ (p ∙ rw t refl)),
        finish_acquired-Agrees ex i freq usec w s₁ s₃ named during f₃ t (rw t at before),
      )
      | inr t ↦ (
        finish_expired i s₃,
        run-whole_call i w s₁ s₃ _ f h during f₁ b before
            (finishes_enabled i s₃ f₃ (p ∙ rw t refl)),
        finish_expired-Agrees ex i freq usec w s₁ s₃ named during f₃ t (rw t at before),
      )
    ]
