-- ===== src/ConditionVariable/Monitor/Invariant.antt =====
-- The steps of the condition variable against the invariant of the monitor, and all of them together.
use cmsis_cpp.Base.{ℕ, ◌≡◌, sym, ap, ◌∙◌, inl, inr, true, false, none, arith}
use cmsis_cpp.ConditionVariable
use cmsis_cpp.ConditionVariable.{
  Cv, Phase, outside, blocked, acquired, expired, returned, update, contains, is_waiting,
  invalid_iterator, enter, expire, finish_acquired, finish_expired, notify_one, notify_all,
}
use cmsis_cpp.ConditionVariable.Invariant.{
  Inv, enter-Inv, take-Inv, expire-Inv, finish_acquired-Inv, notify_one-Inv, notify_all-Inv,
  notify_one-empty, notify_one-front, List-cases,
}
use cmsis_cpp.ConditionVariable.Notifying.{finish_by-Sound}
use cmsis_cpp.ConditionVariable.Patience.{notify_one-phase, notify_all-phase}
use cmsis_cpp.ConditionVariable.Notifying.{unbroken-Inv}
use cmsis_cpp.ConditionVariable.Monitor.{
  Pc, Monitor, Step, locks, unlocks, writes, signals_one, signals_all, waits, tests, enlists,
  releases, wakes, times_out, relocks, returns, gives_up, Reach, begins, goes_on,
}
use cmsis_cpp.ConditionVariable.Monitor.Ordered.{Ordered, new-Ordered, placed_by_waiting}
use cmsis_cpp.ConditionVariable.Monitor.Locking.{
  locks-Ordered, unlocks-Ordered, writes-Ordered, waits-Ordered, tests-Ordered, releases-Ordered,
  relocks-Ordered,
}

notify_one-token : (c : Cv) (i : ℕ) → Inv c → (notify_one c).token i ≡ false → c.token i ≡ false
notify_one-token c i v t = elim (List-cases c.m_wait) [
  | inl e ↦ sym (ap (λ (d : Cv). d.token i) (notify_one-empty c e)) ∙ t
  | inr (j, is, e) ↦
      let front = ap (λ (d : Cv). d.token i) (notify_one-front j is c e v) in ground (arith, front)
]

notify_all-token : (c : Cv) (i : ℕ) → Inv c → c.phase i ≡ blocked → (notify_all c).token i ≡ true
unfolding notify_all
notify_all-token c i v b =
    let w = notify_all-Inv c v in let same = notify_all-phase c i v in ground (arith, w.fit i)

module _ (s : Monitor) (v : Ordered s) (unbroken : s.cv.fault ≡ none) where
  abbrev inv : Inv s.cv
  inv = unbroken-Inv s.cv v.sound unbroken

  enlists-Ordered :
      (i : ℕ)
      → s.pc i ≡ Pc.enlisting
      → Ordered (record s { cv = enter i s.cv; pc = update s.pc i Pc.enlisted })
  unfolding enter
  enlists-Ordered i p = record {
    sound = inl (enter-Inv i s.cv (ground (arith, v.placed i)) inv);
    owns = λ j h. ground (arith, v.owns j);
    owned = λ j h. ground (arith, v.owned j);
    level = v.level;
    placed = λ j u. ground (arith, v.placed j);
    tested = λ j h. ground (arith, v.tested j, v.tested i);
    woken = λ j h t. ground (arith, v.woken j);
  }

  wakes-Ordered :
      (i : ℕ)
      → s.pc i ≡ Pc.waiting
      → s.cv.token i ≡ true
      → Ordered (record s { cv = ConditionVariable.take i s.cv; pc = update s.pc i Pc.relocking })
  unfolding ConditionVariable.take
  wakes-Ordered i p t = record {
    sound = inl (take-Inv i s.cv (ground (arith, v.placed i)) t inv);
    owns = λ j h. ground (arith, v.owns j);
    owned = λ j h. ground (arith, v.owned j);
    level = v.level;
    placed = λ j u. ground (arith, v.placed j);
    tested = λ j h. ground (arith, v.tested j);
    woken = λ j h t. ground (arith, v.woken j);
  }

  times_out-Ordered :
      (i : ℕ)
      → s.pc i ≡ Pc.waiting
      → s.cv.token i ≡ false
      → Ordered (record s { cv = expire i s.cv; pc = update s.pc i Pc.relocking })
  unfolding expire
  times_out-Ordered i p t = record {
    sound = inl (expire-Inv i s.cv (ground (arith, v.placed i)) t inv);
    owns = λ j h. ground (arith, v.owns j);
    owned = λ j h. ground (arith, v.owned j);
    level = v.level;
    placed = λ j u. ground (arith, v.placed j);
    tested = λ j h. ground (arith, v.tested j);
    woken = λ j h t. ground (arith, v.woken j);
  }

  returns-Ordered :
      (i : ℕ)
      → s.pc i ≡ Pc.returning
      → s.cv.phase i ≡ acquired
      → Ordered (record s { cv = finish_acquired i s.cv; pc = update s.pc i Pc.testing })
  unfolding finish_acquired
  returns-Ordered i p a = record {
    sound = inl (finish_acquired-Inv i s.cv a inv);
    owns = λ j h. ground (arith, v.owns j);
    owned = λ j h. ground (arith, v.owned j);
    level = v.level;
    placed = λ j u. ground (arith, v.placed j);
    tested = λ j h. ground (arith, v.tested j);
    woken = λ j h t. ground (arith, v.woken j);
  }

  signals_one-Ordered : Ordered (record s { cv = notify_one s.cv })
  signals_one-Ordered = record {
    sound = inl (notify_one-Inv s.cv inv);
    owns = v.owns;
    owned = v.owned;
    level = v.level;
    placed = λ j u. rw (notify_one-phase s.cv j inv) (v.placed j unbroken);
    tested = v.tested;
    woken = λ j h t. v.woken j h (notify_one-token s.cv j inv t);
  }

  signals_all-Ordered : Ordered (record s { cv = notify_all s.cv; due = false })
  signals_all-Ordered = record {
    sound = inl (notify_all-Inv s.cv inv);
    owns = v.owns;
    owned = v.owned;
    level = v.level;
    placed = λ j u. rw (notify_all-phase s.cv j inv) (v.placed j unbroken);
    tested = v.tested;
    woken = λ j h t.
        let b = placed_by_waiting (s.cv.phase j) (rw (sym h) (v.placed j unbroken)) in
        let full = notify_all-token s.cv j inv b in absurd (cc);
  }

  gives_up-Ordered :
      (i : ℕ)
      → s.pc i ≡ Pc.returning
      → s.cv.phase i ≡ expired
      → Ordered (record s { cv = finish_expired i s.cv; pc = update s.pc i Pc.testing })
  unfolding finish_expired
  gives_up-Ordered i p x = record {
    sound = finish_by-Sound expired i s.cv x inv;
    owns = λ j h. ground (arith, v.owns j);
    owned = λ j h. ground (arith, v.owned j);
    level = v.level;
    placed = λ j u. ground (arith, v.placed j);
    tested = λ j h. ground (arith, v.tested j);
    woken = λ j h t. ground (arith, v.woken j);
  }

  pub Step-Ordered : {t : Monitor} → Step s t → Ordered t
  Step-Ordered (locks i p f) = locks-Ordered s v i p f
  Step-Ordered (unlocks i p) = unlocks-Ordered s v i p
  Step-Ordered (writes i b p) = writes-Ordered s v i b p
  Step-Ordered signals_one = signals_one-Ordered
  Step-Ordered signals_all = signals_all-Ordered
  Step-Ordered (waits i p) = waits-Ordered s v i p
  Step-Ordered (tests i p) = tests-Ordered s v i p
  Step-Ordered (enlists i p) = enlists-Ordered i p
  Step-Ordered (releases i p) = releases-Ordered s v i p
  Step-Ordered (wakes i p t) = wakes-Ordered i p t
  Step-Ordered (times_out i p t) = times_out-Ordered i p t
  Step-Ordered (relocks i p f) = relocks-Ordered s v i p f
  Step-Ordered (returns i p a) = returns-Ordered i p a
  Step-Ordered (gives_up i p x) = gives_up-Ordered i p x

pub Reach-Ordered : {s : Monitor} → Reach s → Ordered s
Reach-Ordered begins = new-Ordered
Reach-Ordered (goes_on {s = s} r u st) = Step-Ordered s (Reach-Ordered r) u st
