-- ===== src/ConditionVariable/Notifying.antt =====
-- Every run of the waiting list, and what notifying does in the states that runs reach.
use mathlib.Core.Path.{subst}
use cmsis_cpp.Base.{
  ℕ, ◌≡◌, refl, ◌⊎◌, inl, inr, true, false, List, [], ◌∷◌, Option, none, some, arith, Bool-cases,
}
use cmsis_cpp.ConditionVariable.{
  Cv, Phase, outside, blocked, acquired, expired, returned, invalid_iterator, start, contains,
  is_waiting, notify_all, finish_expired, is_blocked, Event, enters, takes, expires, finishes,
  notifies_one, notifies_all, finish_by, enabled, step, run,
}
use cmsis_cpp.ConditionVariable.Invariant.{
  Inv, start-Inv, enter-Inv, take-Inv, expire-Inv, finish_acquired-Inv, finish_expired-Inv,
  notify_one-Inv, notify_all-Inv, release_all-tokens, listed,
}

-- A state that the invariant describes, or one that an invalid iterator has broken.
abbrev pub Sound : Cv → Type 0
Sound s = Inv s ⊎ (s.fault ≡ some invalid_iterator)

abbrev pub SoundOrNone : Option Cv → Type 0
SoundOrNone none = Unit {0}
SoundOrNone (some s) = Sound s

pub unbroken-Inv : (c : Cv) → Sound c → c.fault ≡ none → Inv c
unbroken-Inv c (inl v) f = v
unbroken-Inv c (inr g) f = absurd (cc)

pub finish_by-Sound :
    (p : Phase) (i : ℕ) (s : Cv) → s.phase i ≡ p → Inv s → SoundOrNone (finish_by p i s)
unfolding finish_expired
finish_by-Sound outside i s e v = tt
finish_by-Sound blocked i s e v = tt
finish_by-Sound acquired i s e v = inl (finish_acquired-Inv i s e v)
finish_by-Sound expired i s e v = elim (Bool-cases (contains i s.m_wait)) [
  | inl c ↦ inl (finish_expired-Inv i s e c v)
  | inr c ↦ inr (expired_fault c)
]
  where
    expired_fault : contains i s.m_wait ≡ false → (finish_expired i s).fault ≡ some invalid_iterator
    expired_fault c = rw c refl
finish_by-Sound (returned st) i s e v = tt

enabled-Sound : (e : Event) (s : Cv) → Inv s → SoundOrNone (enabled e s)
enabled-Sound (enters i) s v = elim (Bool-cases (is_waiting (s.phase i))) [
  | inl w ↦ rw w tt
  | inr w ↦ rw w (inl (enter-Inv i s w v))
]
enabled-Sound (takes i) s v = elim (Bool-cases (is_blocked (s.phase i))) [
  | inl b ↦ elim (Bool-cases (s.token i)) [
    | inl t ↦ rw (b, t) (inl (take-Inv i s b t v))
    | inr t ↦ rw (b, t) tt
  ]
  | inr b ↦ rw b tt
]
enabled-Sound (expires i) s v = elim (Bool-cases (is_blocked (s.phase i))) [
  | inl b ↦ elim (Bool-cases (s.token i)) [
    | inl t ↦ rw (b, t) tt
    | inr t ↦ rw (b, t) (inl (expire-Inv i s b t v))
  ]
  | inr b ↦ rw b tt
]
enabled-Sound (finishes i) s v = finish_by-Sound (s.phase i) i s refl v
enabled-Sound notifies_one s v = inl (notify_one-Inv s v)
enabled-Sound notifies_all s v = inl (notify_all-Inv s v)

pub step_unbroken : (e : Event) (s : Cv) → s.fault ≡ none → step e s ≡ enabled e s
unfolding step
step_unbroken e s f = rw f refl

pub step_broken : (e : Event) (s : Cv) → s.fault ≡ some invalid_iterator → step e s ≡ none
unfolding step
step_broken e s f = rw f refl

pub step-Sound : (e : Event) (s : Cv) → Sound s → SoundOrNone (step e s)
step-Sound e s (inl v) = rw (step_unbroken e s v.unbroken) (enabled-Sound e s v)
step-Sound e s (inr f) = rw (step_broken e s f) tt

chain-Sound :
    (o : Option Cv) (k : Cv → Option Cv)
    → SoundOrNone o
    → ((s : Cv) → Sound s → SoundOrNone (k s))
    → SoundOrNone (elim o [ none ↦ none | some s ↦ k s ])
chain-Sound none k h g = tt
chain-Sound (some s) k h g = g s h

run-SoundOrNone : (es : List Event) (s : Cv) → Sound s → SoundOrNone (run es s)
unfolding run
run-SoundOrNone [] s v = v
run-SoundOrNone (e ∷ es) s v =
    chain-Sound (step e s) (run es) (step-Sound e s v) (run-SoundOrNone es)

-- However waiting threads, timeouts and notifiers interleave, starting from a new condition variable:
-- the state reached satisfies the invariant of the waiting list, or an erased iterator has broken it.
pub run-Sound : (es : List Event) (s : Cv) → run es start ≡ some s → Sound s
run-Sound es s h = subst SoundOrNone h (run-SoundOrNone es start (inl start-Inv))

-- In no interleaving from a new condition variable does a notifier release a semaphore that is full or
-- destroyed: a run without the fault of the iterator has none of the two others.
pub run_releases_live :
    (es : List Event) (s : Cv)
    → run es start ≡ some s
    → (s.fault ≡ none) ⊎ (s.fault ≡ some invalid_iterator)
run_releases_live es s h = elim (run-Sound es s h) [ inl v ↦ inl v.unbroken | inr f ↦ inr f ]

-- In a state that a run reaches without a fault, notify_all leaves no thread waiting in the list and
-- no blocked thread without a token: no wakeup is lost. Nobody else gets a token.
pub notify_all-wakes :
    (es : List Event) (s : Cv)
    → run es start ≡ some s
    → s.fault ≡ none
    → ((notify_all s).m_wait ≡ [])
      × ((notify_all s).fault ≡ none)
      × ((i : ℕ) → s.phase i ≡ blocked → (notify_all s).token i ≡ true)
      × ((i : ℕ) → contains i s.m_wait ≡ false → (notify_all s).token i ≡ s.token i)
unfolding notify_all
notify_all-wakes es s h f = elim (run-Sound es s h) [
  | inl v ↦
      let r = release_all-tokens s.m_wait s v.unbroken v.distinct (λ i c. listed i s c v) in
      (
        refl,
        r.0,
        λ i b. rw (r.2 i) (ground (arith, v.fit i)),
        λ i c. rw (r.2 i) (ground (arith, c)),
      )
  | inr g ↦ absurd (cc)
]
