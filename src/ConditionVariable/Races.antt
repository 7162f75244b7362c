-- ===== src/ConditionVariable/Races.antt =====
-- What a timeout does, alone and when a notifier comes between it and the thread's return; and runs
-- in which nobody times out.
use mathlib.Core.Path.{subst}
use cmsis_cpp.Base.{ℕ, ◌≡◌, refl, ap, ◌∙◌, inl, inr, true, false, List, [], ◌∷◌, none, some, arith}
use cmsis_cpp.ConditionVariable.{
  Cv, timeout, blocked, expired, returned, invalid_iterator, start, update, contains, remove,
  expire, finish_expired, Event, expires, finishes, notifies_one, step, run,
}
use cmsis_cpp.ConditionVariable.Invariant.{Distinct, expire-Inv, notify_one-front, listed}
use cmsis_cpp.ConditionVariable.Notifying.{run-Sound, step_unbroken}

pub expires_enabled :
    (i : ℕ) (s : Cv)
    → s.fault ≡ none
    → s.phase i ≡ blocked
    → s.token i ≡ false
    → step (expires i) s ≡ some (expire i s)
expires_enabled i s f b t = step_unbroken (expires i) s f ∙ rw (b, t) refl

pub finishes_enabled :
    (i : ℕ) (s : Cv)
    → s.fault ≡ none
    → s.phase i ≡ expired
    → step (finishes i) s ≡ some (finish_expired i s)
finishes_enabled i s f b = step_unbroken (finishes i) s f ∙ rw b refl

phase-expire : (i : ℕ) (s : Cv) → (expire i s).phase i ≡ expired
unfolding expire
phase-expire i s = ground arith

pub run_cons :
    (e : Event) (es : List Event) (s s' : Cv) → step e s ≡ some s' → run (e ∷ es) s ≡ run es s'
unfolding run
run_cons e es s s' h = rw (h, run) refl

pub run_one : (e : Event) (s s' : Cv) → step e s ≡ some s' → run (e ∷ []) s ≡ some s'
unfolding run
run_one e s s' h = rw (h, run) refl

pub finish_expired_listed :
    (i : ℕ) (s : Cv)
    → contains i s.m_wait ≡ true
    → finish_expired i s
      ≡ record s { m_wait = remove i s.m_wait; phase = update s.phase i (returned timeout) }
unfolding finish_expired
finish_expired_listed i s c = rw c refl

pub finish_expired_unlisted :
    (i : ℕ) (s : Cv)
    → contains i s.m_wait ≡ false
    → finish_expired i s ≡ record s { fault = some invalid_iterator }
unfolding finish_expired
finish_expired_unlisted i s c = rw c refl

-- When nothing comes between the timeout of a blocked thread that has no token and its return, the
-- wait returns `timeout` and takes its own entry, and no other, off the list.
pub timeout_removes :
    (es : List Event) (s : Cv) (i : ℕ)
    → run es start ≡ some s
    → s.fault ≡ none
    → s.phase i ≡ blocked
    → s.token i ≡ false
    → (s' : Cv) × (run (expires i ∷ finishes i ∷ []) s ≡ some s')
      × (s'.fault ≡ none)
      × (s'.phase i ≡ returned timeout)
      × (s'.m_wait ≡ remove i s.m_wait)
unfolding expire
timeout_removes es s i h f b t = elim (run-Sound es s h) [
  | inl v ↦
      let x = expire i s in
      let c : contains i s.m_wait ≡ true = ground (arith, v.fit i) in
      let last = finishes_enabled i x f (phase-expire i s) in
      (
        record x { m_wait = remove i s.m_wait; phase = update x.phase i (returned timeout) },
        run_cons (expires i) (finishes i ∷ []) s x (expires_enabled i s f b t)
            ∙ run_one (finishes i) x (finish_expired i x) last
            ∙ ap some (finish_expired_listed i x c),
        f,
        ground arith,
        refl,
      )
  | inr g ↦ absurd (cc)
]

-- When notify_one comes between the timeout of the thread in front of the list and its return, the
-- entry is popped, and the thread erases an iterator that is no longer valid.
pub timeout_races :
    (es : List Event) (s : Cv) (i : ℕ) (is : List ℕ)
    → run es start ≡ some s
    → s.fault ≡ none
    → s.m_wait ≡ i ∷ is
    → s.phase i ≡ blocked
    → (s' : Cv) × (run (expires i ∷ notifies_one ∷ finishes i ∷ []) s ≡ some s')
      × (s'.fault ≡ some invalid_iterator)
unfolding expire
timeout_races es s i is h f e b = elim (run-Sound es s h) [
  | inl v ↦
      let listed_i : contains i s.m_wait ≡ true = rw e (ground arith) in
      let t = (listed i s listed_i v).1 in
      let d : Distinct (i ∷ is) = subst Distinct e v.distinct in
      let x = expire i s in
      let y : Cv = record x { m_wait = is; token = update s.token i true } in
      let popped = notify_one-front i is x e (expire-Inv i s (rw b refl) t v) in
      let second : step notifies_one x ≡ some y = step_unbroken notifies_one x f ∙ ap some popped in
      (
        record y { fault = some invalid_iterator },
        run_cons (expires i) (notifies_one ∷ finishes i ∷ []) s x (expires_enabled i s f b t)
            ∙ run_cons notifies_one (finishes i ∷ []) x y second
            ∙ run_one (finishes i) y (finish_expired i y)
                (finishes_enabled i y f (phase-expire i s))
            ∙ ap some (finish_expired_unlisted i y d.0),
        refl,
      )
  | inr g ↦ absurd (cc)
]
