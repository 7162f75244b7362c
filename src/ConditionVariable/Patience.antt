-- ===== src/ConditionVariable/Patience.antt =====
-- Runs in which nobody times out.
use mathlib.Core.Path.{subst}
use cmsis_cpp.Base.{
  ℕ, ◌≡◌, refl, ap, ◌∙◌, ◌⊎◌, inl, inr, Bool, true, false, List, [], ◌∷◌, Option, none, some, arith,
  Bool-cases,
}
use cmsis_cpp.ConditionVariable.{
  Cv, Phase, outside, blocked, acquired, expired, returned, start, contains, is_waiting, notify_one,
  notify_all, enter, take, finish_acquired, is_blocked, Event, enters, takes, expires, finishes,
  notifies_one, notifies_all, finish_by, enabled, step, run,
}
use cmsis_cpp.ConditionVariable.Invariant.{
  Inv, start-Inv, enter-Inv, take-Inv, finish_acquired-Inv, notify_one-Inv, notify_all-Inv,
  notify_one-front, notify_one-empty, List-cases, release_all-tokens, listed,
}
use cmsis_cpp.ConditionVariable.Notifying.{step_unbroken}

-- Does some wait of the run time out?
abbrev pub has_timeout : List Event → Bool
has_timeout [] = false
has_timeout (expires i ∷ es) = true
has_timeout (enters i ∷ es) = has_timeout es
has_timeout (takes i ∷ es) = has_timeout es
has_timeout (finishes i ∷ es) = has_timeout es
has_timeout (notifies_one ∷ es) = has_timeout es
has_timeout (notifies_all ∷ es) = has_timeout es

abbrev is_expired : Phase → Bool
is_expired expired = true
is_expired outside = false
is_expired blocked = false
is_expired acquired = false
is_expired (returned st) = false

abbrev Patient : Cv → Type 0
Patient s = Inv s × ((i : ℕ) → is_expired (s.phase i) ≡ false)

abbrev PatientOrNone : Option Cv → Type 0
PatientOrNone none = Unit {0}
PatientOrNone (some s) = Patient s

finish_by-Patient :
    (p : Phase) (i : ℕ) (s : Cv) → s.phase i ≡ p → Patient s → PatientOrNone (finish_by p i s)
unfolding finish_acquired
finish_by-Patient outside i s e v = tt
finish_by-Patient blocked i s e v = tt
finish_by-Patient acquired i s e v = (finish_acquired-Inv i s e v.0, λ j. ground (arith, v.1 j))
finish_by-Patient expired i s e v = absurd (ground (arith, v.1 i))
finish_by-Patient (returned st) i s e v = tt

enters-Patient : (i : ℕ) (s : Cv) → Patient s → PatientOrNone (enabled (enters i) s)
unfolding enter
enters-Patient i s v = elim (Bool-cases (is_waiting (s.phase i))) [
  | inl w ↦ rw w tt
  | inr w ↦ rw w (enter-Inv i s w v.0, λ j. ground (arith, v.1 j))
]

takes-Patient : (i : ℕ) (s : Cv) → Patient s → PatientOrNone (enabled (takes i) s)
unfolding take
takes-Patient i s v = elim (Bool-cases (is_blocked (s.phase i))) [
  | inl b ↦ elim (Bool-cases (s.token i)) [
    | inl t ↦ rw (b, t) (take-Inv i s b t v.0, λ j. ground (arith, v.1 j))
    | inr t ↦ rw (b, t) tt
  ]
  | inr b ↦ rw b tt
]

pub notify_one-phase : (s : Cv) (i : ℕ) → Inv s → (notify_one s).phase i ≡ s.phase i
notify_one-phase s i v = elim (List-cases s.m_wait) [
  | inl e ↦ ap (λ (c : Cv). c.phase i) (notify_one-empty s e)
  | inr (j, is, e) ↦ ap (λ (c : Cv). c.phase i) (notify_one-front j is s e v)
]

pub notify_all-phase : (s : Cv) (i : ℕ) → Inv s → (notify_all s).phase i ≡ s.phase i
unfolding notify_all
notify_all-phase s i v =
    (release_all-tokens s.m_wait s v.unbroken v.distinct (λ j c. listed j s c v)).1 i

step-Patient :
    (e : Event) (es : List Event) (s : Cv)
    → has_timeout (e ∷ es) ≡ false
    → Patient s
    → PatientOrNone (enabled e s)
step-Patient (enters i) es s n v = enters-Patient i s v
step-Patient (takes i) es s n v = takes-Patient i s v
step-Patient (expires i) es s n v = absurd (cc)
step-Patient (finishes i) es s n v = finish_by-Patient (s.phase i) i s refl v
step-Patient notifies_one es s n v =
    (notify_one-Inv s v.0, λ i. ap is_expired (notify_one-phase s i v.0) ∙ v.1 i)
step-Patient notifies_all es s n v =
    (notify_all-Inv s v.0, λ i. ap is_expired (notify_all-phase s i v.0) ∙ v.1 i)

chain-Patient :
    (o : Option Cv) (k : Cv → Option Cv)
    → PatientOrNone o
    → ((s : Cv) → Patient s → PatientOrNone (k s))
    → PatientOrNone (elim o [ none ↦ none | some s ↦ k s ])
chain-Patient none k h g = tt
chain-Patient (some s) k h g = g s h

tail_timeout : (e : Event) (es : List Event) → has_timeout (e ∷ es) ≡ false → has_timeout es ≡ false
tail_timeout (enters i) es n = n
tail_timeout (takes i) es n = n
tail_timeout (expires i) es n = absurd (cc)
tail_timeout (finishes i) es n = n
tail_timeout notifies_one es n = n
tail_timeout notifies_all es n = n

run-Patient :
    (es : List Event) (s : Cv) → has_timeout es ≡ false → Patient s → PatientOrNone (run es s)
unfolding run
run-Patient [] s n v = v
run-Patient (e ∷ es) s n v =
    chain-Patient (step e s) (run es)
      (rw (step_unbroken e s v.0.unbroken) (step-Patient e es s n v))
      (λ s' v'. run-Patient es s' (tail_timeout e es n) v')

-- In a run from a new condition variable in which nobody times out nothing goes wrong, and every
-- thread that is blocked either stands in the list, where the next notify_all finds it, or has its
-- token.
pub run_patient :
    (es : List Event) (s : Cv)
    → has_timeout es ≡ false
    → run es start ≡ some s
    → (s.fault ≡ none)
      × ((i : ℕ) → s.phase i ≡ blocked → (contains i s.m_wait ≡ true) ⊎ (s.token i ≡ true))
unfolding start
run_patient es s n h =
    let v : Patient s = subst PatientOrNone h (run-Patient es start n (start-Inv, λ i. refl)) in
    (
      v.0.unbroken,
      λ i b. elim (Bool-cases (s.token i)) [
        | inl t ↦ inr t
        | inr t ↦ inl (ground (arith, v.0.fit i))
      ],
    )
