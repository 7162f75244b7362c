-- ===== src/ConditionVariable/Monitor/Settled.antt =====
-- The states after the last notify_all, in which the flag stays true, and the steps that the threads take
-- in them by themselves.
use cmsis_cpp.Base.{
  ℕ, suc, ◌+◌, ◌≤◌, ◌<◌, ◌≡◌, ◌≢◌, ap, ◌∙◌, inl, inr, Bool, true, false, none, arith, if◌then◌else◌,
  le-cases,
}
use cmsis_cpp.Base.Sums.{sum_below, sum_below-change}
use cmsis_cpp.Mutex.History.{Holding, take, give}
use cmsis_cpp.ConditionVariable
use cmsis_cpp.ConditionVariable.{
  Cv, Phase, outside, blocked, acquired, expired, returned, update, finish_acquired,
}
use cmsis_cpp.ConditionVariable.Monitor.{
  Pc, rank, Monitor, Step, locks, unlocks, writes, signals_one, signals_all, waits, tests, enlists,
  releases, wakes, times_out, relocks, returns, gives_up, Reach, goes_on,
}
use cmsis_cpp.ConditionVariable.Monitor.Ordered.{Ordered}
use cmsis_cpp.ConditionVariable.Monitor.Invariant.{Reach-Ordered}
use cmsis_cpp.ConditionVariable.Monitor.Wakeups.{no_lost_wakeup}

-- A step that a thread takes on its way out: of a wait, or of the client's code by its unlock. Nobody newly
-- locks, writes, waits or notifies.
abbrev pub quiet : {s t : Monitor} → Step s t → Bool
quiet (locks i p f) = false
quiet (unlocks i p) = true
quiet (writes i b p) = false
quiet signals_one = false
quiet signals_all = false
quiet (waits i p) = false
quiet (tests i p) = true
quiet (enlists i p) = true
quiet (releases i p) = true
quiet (wakes i p t) = true
quiet (times_out i p t) = true
quiet (relocks i p f) = true
quiet (returns i p a) = true
quiet (gives_up i p x) = true

-- So many such steps.
pub data Quiets (s : Monitor) : ℕ → Monitor → Type 0 where
  stays : Quiets s 0 s
  moves :
      {k : ℕ} {t u : Monitor}
      → Quiets s k t
      → (st : Step t u) → quiet st ≡ true
      → Quiets s (suc k) u

-- The flag is true, and everybody was told; `n` threads take part, and none of them timed out and has
-- not returned yet.
pub record Settled (n : ℕ) (s : Monitor) : Type 0 where
  pub reached : Reach s
  pub unbroken : s.cv.fault ≡ none
  pub raised : s.flag ≡ true
  pub told : s.due ≡ false
  pub few : (i : ℕ) → n ≤ i → s.pc i ≡ Pc.outside
  pub patient : (i : ℕ) → s.cv.phase i ≢ expired

abbrev pub distance : ℕ → Monitor → ℕ
distance n s = sum_below (λ i. rank (s.pc i)) n

module _ (n : ℕ) (s : Monitor) (h : Settled n s) where
  abbrev v : Ordered s
  v = Reach-Ordered h.reached

  pub token_of : (i : ℕ) → s.pc i ≡ Pc.waiting → s.cv.token i ≡ true
  token_of i p = elim (no_lost_wakeup s i h.reached h.unbroken p) [
    | inl t ↦ t
    | inr (_, w) ↦ absurd (ground (arith, h.raised, h.told))
  ]

  -- A quiet step moves one thread, which takes part, nearer to the outside, and settles as before.
  record Moved (t : Monitor) : Type 0 where
    mover : ℕ
    nearer : rank (t.pc mover) < rank (s.pc mover)
    others : (j : ℕ) → j ≢ mover → t.pc j ≡ s.pc j
    unbroken' : t.cv.fault ≡ none
    raised' : t.flag ≡ true
    told' : t.due ≡ false
    patient' : (j : ℕ) → t.cv.phase j ≢ expired

  -- A step that leaves the condition variable alone.
  shifted :
      (i : ℕ) (p : Pc) (l : Holding)
      → rank p < rank (s.pc i)
      → Moved (record s { pc = update s.pc i p; lock = l })
  shifted i p l less = record {
    mover = i;
    nearer = ground arith;
    others = λ j d. ground arith;
    unbroken' = h.unbroken;
    raised' = h.raised;
    told' = h.told;
    patient' = h.patient;
  }

  wakes-Moved :
      (i : ℕ)
      → s.pc i ≡ Pc.waiting
      → Moved (record s { cv = ConditionVariable.take i s.cv; pc = update s.pc i Pc.relocking })
  unfolding ConditionVariable.take
  wakes-Moved i p = record {
    mover = i;
    nearer = ground arith;
    others = λ j d. ground arith;
    unbroken' = h.unbroken;
    raised' = h.raised;
    told' = h.told;
    patient' = λ j e. ground (arith, h.patient j);
  }

  returns-Moved :
      (i : ℕ)
      → s.pc i ≡ Pc.returning
      → Moved (record s { cv = finish_acquired i s.cv; pc = update s.pc i Pc.testing })
  unfolding finish_acquired
  returns-Moved i p = record {
    mover = i;
    nearer = ground arith;
    others = λ j d. ground arith;
    unbroken' = h.unbroken;
    raised' = h.raised;
    told' = h.told;
    patient' = λ j e. ground (arith, h.patient j);
  }

  Step-Moved : {t : Monitor} (st : Step s t) → quiet st ≡ true → Moved t
  Step-Moved (locks i p f) q = absurd (cc)
  Step-Moved (unlocks i p) q = shifted i Pc.outside (give s.lock) (ground arith)
  Step-Moved (writes i b p) q = absurd (cc)
  Step-Moved signals_one q = absurd (cc)
  Step-Moved signals_all q = absurd (cc)
  Step-Moved (waits i p) q = absurd (cc)
  Step-Moved (tests i p) q =
      shifted i (if s.flag then Pc.inside else Pc.enlisting) s.lock (ground (arith, h.raised))
  Step-Moved (enlists i p) q = absurd (let e = v.tested i (ground arith) in let r = h.raised in cc)
  Step-Moved (releases i p) q = shifted i Pc.waiting (give s.lock) (ground arith)
  Step-Moved (wakes i p t) q = wakes-Moved i p
  Step-Moved (times_out i p t) q = absurd (let e = token_of i p in cc)
  Step-Moved (relocks i p f) q = shifted i Pc.returning (take (suc i) s.lock) (ground arith)
  Step-Moved (returns i p a) q = returns-Moved i p
  Step-Moved (gives_up i p x) q = absurd (h.patient i x)

  mover_below : {t : Monitor} (m : Moved t) → m.mover < n
  mover_below m = elim (le-cases n m.mover) [
    | inl g ↦ absurd (let e = ap rank (h.few m.mover g) in omega (arith, m.nearer))
    | inr l ↦ l
  ]

  pub Step-Settled : {t : Monitor} (st : Step s t) → quiet st ≡ true → Settled n t
  Step-Settled st q =
      let m = Step-Moved st q in
      record {
        reached = goes_on h.reached h.unbroken st;
        unbroken = m.unbroken';
        raised = m.raised';
        told = m.told';
        few = λ i g. m.others i (λ e. omega (arith, mover_below m)) ∙ h.few i g;
        patient = m.patient';
      }

  pub Step-nearer : {t : Monitor} (st : Step s t) → quiet st ≡ true → distance n t < distance n s
  Step-nearer {t = t} st q =
      let m = Step-Moved st q in
      omega (
        arith,
        m.nearer,
        sum_below-change (λ i. rank (s.pc i)) (λ i. rank (t.pc i)) n m.mover (mover_below m)
            (λ j d. ap rank (m.others j d)),
      )

pub Quiets-Settled :
    {n : ℕ} {s : Monitor} {k : ℕ} {t : Monitor}
    → Settled n s
    → Quiets s k t
    → Settled n t × (k + distance n t ≤ distance n s)
Quiets-Settled {n = n} {s = s} h stays = (h, omega arith)
Quiets-Settled {n = n} {s = s} h (moves {t = t} {u = u} r st q) =
    let (g, b) = Quiets-Settled h r in
    (Step-Settled n t g st q, omega (arith, Step-nearer n t g st q))
