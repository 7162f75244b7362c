-- ===== src/ConditionVariable/Arrivals.antt =====
-- The waiting list of src/ConditionVariable.cpp is in the order in which the threads called wait.
use mathlib.Core.Path.{subst}
use cmsis_cpp.Base.{
  ℕ, suc, ◌<◌, ◌≡◌, refl, inl, inr, true, false, not, ◌&&◌, ◌==◌, List, [], ◌∷◌, ◌++◌, Option, none,
  some, arith, Bool-cases, if◌then◌else◌,
}
use cmsis_cpp.ConditionVariable.{
  Cv, Phase, outside, blocked, acquired, expired, returned, start, update, contains, remove,
  is_waiting, notify_first, notify_one, notify_all, enter, take, expire, finish_acquired,
  finish_expired, is_blocked, Event, enters, takes, expires, finishes, notifies_one, notifies_all,
  finish_by, enabled, step, run,
}
use cmsis_cpp.ConditionVariable.Invariant.{Inv, Distinct, start-Inv, notify_one-front, listed}
use cmsis_cpp.ConditionVariable.Notifying.{
  Sound, SoundOrNone, unbroken-Inv, run-Sound, step-Sound, step_unbroken, step_broken,
}

-- How long ago a thread has called wait, counted in steps, after one more step.
abbrev pub aged : ℕ → Event → ℕ → ℕ
aged i (enters j) n = if i == j then 0 else suc n
aged i _ n = suc n

-- The number of steps since the last call of wait by a thread, over a run.
unfoldable pub steps_since : ℕ → List Event → ℕ → ℕ
steps_since i [] n = n
steps_since i (e ∷ es) n = steps_since i es (aged i e n)

abbrev Below : (ℕ → ℕ) → ℕ → List ℕ → Type 0
Below a n [] = Unit {0}
Below a n (j ∷ js) = (a j < n) × Below a n js

abbrev Falling : (ℕ → ℕ) → List ℕ → Type 0
Falling a [] = Unit {0}
Falling a (j ∷ js) = Below a (a j) js × Falling a js

abbrev FallingOrNone : (ℕ → ℕ) → Option Cv → Type 0
FallingOrNone a none = Unit {0}
FallingOrNone a (some s) = Falling a s.m_wait

Below-contains : (a : ℕ → ℕ) (n j : ℕ) (js : List ℕ) → Below a n js → contains j js ≡ true → a j < n
Below-contains a n j [] b c = absurd (cc)
Below-contains a n j (k ∷ js) b c = ground (arith, Below-contains a n j js b.1)

Below-suc : (a : ℕ → ℕ) (n : ℕ) (js : List ℕ) → Below a n js → Below (λ j. suc (a j)) (suc n) js
Below-suc a n [] b = tt
Below-suc a n (j ∷ js) b = (omega (arith, b.0), Below-suc a n js b.1)

Falling-suc : (a : ℕ → ℕ) (js : List ℕ) → Falling a js → Falling (λ j. suc (a j)) js
Falling-suc a [] f = tt
Falling-suc a (j ∷ js) f = (Below-suc a (a j) js f.0, Falling-suc a js f.1)

Below-remove : (a : ℕ → ℕ) (n i : ℕ) (js : List ℕ) → Below a n js → Below a n (remove i js)
Below-remove a n i [] b = tt
Below-remove a n i (j ∷ js) b = elim (Bool-cases (i == j)) [
  | inl h ↦ rw h b.1
  | inr h ↦ rw h (b.0, Below-remove a n i js b.1)
]

Falling-remove : (a : ℕ → ℕ) (i : ℕ) (js : List ℕ) → Falling a js → Falling a (remove i js)
Falling-remove a i [] f = tt
Falling-remove a i (j ∷ js) f = elim (Bool-cases (i == j)) [
  | inl h ↦ rw h f.1
  | inr h ↦ rw h (Below-remove a (a j) i js f.0, Falling-remove a i js f.1)
]

Below-enters :
    (a : ℕ → ℕ) (n i : ℕ) (js : List ℕ)
    → Below a n js
    → contains i js ≡ false
    → Below (λ j. aged j (enters i) (a j)) (suc n) (js ++ i ∷ [])
Below-enters a n i [] b c = (ground arith, tt)
Below-enters a n i (j ∷ js) b c =
    let rest : contains i js ≡ false → Below (λ k. aged k (enters i) (a k)) (suc n) (js ++ i ∷ []) =
      Below-enters a n i js b.1 in
    (ground (arith, b.0), rest (ground (arith, c)))

Falling-enters :
    (a : ℕ → ℕ) (i : ℕ) (js : List ℕ)
    → Falling a js
    → contains i js ≡ false
    → Falling (λ j. aged j (enters i) (a j)) (js ++ i ∷ [])
Falling-enters a i [] f c = (tt, tt)
Falling-enters a i (j ∷ js) f c = elim (Bool-cases (i == j)) [
  | inl h ↦ absurd (ground (arith, h, c))
  | inr h ↦
      let d : contains i js ≡ false = ground (arith, h, c) in
      let e : (j == i) ≡ false = ground (arith, h) in
      (rw e (Below-enters a (a j) i js f.0 d), Falling-enters a i js f.1 d)
]

unlisted : (i : ℕ) (s : Cv) → Inv s → is_waiting (s.phase i) ≡ false → contains i s.m_wait ≡ false
unlisted i s v w = elim (Bool-cases (contains i s.m_wait)) [
  | inl c ↦ absurd (ground (arith, listed i s c v))
  | inr c ↦ c
]

finish_by-Falling :
    (p : Phase) (i : ℕ) (a : ℕ → ℕ) (s : Cv)
    → Falling a s.m_wait
    → FallingOrNone (λ j. suc (a j)) (finish_by p i s)
unfolding finish_acquired finish_expired
finish_by-Falling outside i a s f = tt
finish_by-Falling blocked i a s f = tt
finish_by-Falling acquired i a s f = Falling-suc a s.m_wait f
finish_by-Falling expired i a s f = elim (Bool-cases (contains i s.m_wait)) [
  | inl c ↦ rw c (Falling-suc a (remove i s.m_wait) (Falling-remove a i s.m_wait f))
  | inr c ↦ rw c (Falling-suc a s.m_wait f)
]
finish_by-Falling (returned st) i a s f = tt

notify_first-Falling :
    (a : ℕ → ℕ) (xs : List ℕ) (s : Cv)
    → s.m_wait ≡ xs
    → Falling a xs
    → Falling (λ j. suc (a j)) (notify_first xs s).m_wait
unfolding notify_first
notify_first-Falling a [] s e f = rw e tt
notify_first-Falling a (i ∷ rest) s e f = Falling-suc a rest f.1

enabled-Falling :
    (e : Event) (a : ℕ → ℕ) (s : Cv)
    → Inv s
    → Falling a s.m_wait
    → FallingOrNone (λ j. aged j e (a j)) (enabled e s)
unfolding enter take expire notify_one notify_all
enabled-Falling (enters i) a s v f = elim (Bool-cases (is_waiting (s.phase i))) [
  | inl w ↦ rw w tt
  | inr w ↦ rw w (Falling-enters a i s.m_wait f (unlisted i s v w))
]
enabled-Falling (takes i) a s v f = elim (Bool-cases (is_blocked (s.phase i) && s.token i)) [
  | inl b ↦ rw b (Falling-suc a s.m_wait f)
  | inr b ↦ rw b tt
]
enabled-Falling (expires i) a s v f =
    elim (Bool-cases (is_blocked (s.phase i) && not (s.token i))) [
      | inl b ↦ rw b (Falling-suc a s.m_wait f)
      | inr b ↦ rw b tt
    ]
enabled-Falling (finishes i) a s v f = finish_by-Falling (s.phase i) i a s f
enabled-Falling notifies_one a s v f = notify_first-Falling a s.m_wait s refl f
enabled-Falling notifies_all a s v f = tt

step-Falling :
    (e : Event) (a : ℕ → ℕ) (s : Cv)
    → Sound s
    → Falling a s.m_wait
    → FallingOrNone (λ j. aged j e (a j)) (step e s)
step-Falling e a s (inl v) f = rw (step_unbroken e s v.unbroken) (enabled-Falling e a s v f)
step-Falling e a s (inr g) f = rw (step_broken e s g) tt

chain-Falling :
    (a b : ℕ → ℕ) (o : Option Cv) (k : Cv → Option Cv)
    → SoundOrNone o
    → FallingOrNone a o
    → ((s : Cv) → Sound s → Falling a s.m_wait → FallingOrNone b (k s))
    → FallingOrNone b (elim o [ none ↦ none | some s ↦ k s ])
chain-Falling a b none k h f g = tt
chain-Falling a b (some s) k h f g = g s h f

run-Falling :
    (es : List Event) (a : ℕ → ℕ) (s : Cv)
    → Sound s
    → Falling a s.m_wait
    → FallingOrNone (λ j. steps_since j es (a j)) (run es s)
unfolding run steps_since
run-Falling [] a s v f = f
run-Falling (e ∷ es) a s v f =
    let b : ℕ → ℕ = λ j. aged j e (a j) in
    chain-Falling b (λ j. steps_since j es (b j)) (step e s) (run es) (step-Sound e s v)
      (step-Falling e a s v f) (run-Falling es b)

start-Falling : (es : List Event) → FallingOrNone (λ j. steps_since j es 0) (run es start)
unfolding start
start-Falling es = run-Falling es (λ j. 0) start (inl start-Inv) tt

-- In a state that a run reaches from a new condition variable without a fault, notify_one wakes, of the
-- threads that stand in the list, the one whose last call of wait is the longest ago, counted in steps
-- of the run, and no other: it alone gets a token and leaves the list, and it is still inside the call.
pub notify_one-longest :
    (es : List Event) (s : Cv) (i : ℕ) (is : List ℕ)
    → run es start ≡ some s
    → s.fault ≡ none
    → s.m_wait ≡ i ∷ is
    → ((j : ℕ) → contains j is ≡ true → steps_since j es 0 < steps_since i es 0)
      × (notify_one s ≡ record s { m_wait = is; token = update s.token i true })
      × (is_waiting (s.phase i) ≡ true)
      × (s.token i ≡ false)
      × (contains i is ≡ false)
notify_one-longest es s i is h f e =
    let v = unbroken-Inv s (run-Sound es s h) f in
    let l = listed i s (rw e (ground arith)) v in
    let d : Distinct (i ∷ is) = subst Distinct e v.distinct in
    let a : ℕ → ℕ = λ j. steps_since j es 0 in
    let r : FallingOrNone a (some s) = subst (FallingOrNone a) h (start-Falling es) in
    let g : Falling a (i ∷ is) = subst (Falling a) e r in
    (λ j. Below-contains a (a i) j is g.0, notify_one-front i is s e v, l.0, l.1, d.0)
