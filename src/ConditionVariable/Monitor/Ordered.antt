-- ===== src/ConditionVariable/Monitor/Ordered.antt =====
-- The invariant of the monitor: who has the lock, how each thread stands in the condition variable, and
-- what those that wait know of the flag.
use cmsis_cpp.Base.{
  ℕ, suc, ◌≤◌, ◌≡◌, refl, inl, Bool, true, false, not, ◌&&◌, ◌||◌, ◌==◌, leb, none, arith,
  if◌then◌else◌,
}
use cmsis_cpp.ConditionVariable
use cmsis_cpp.ConditionVariable.{
  Cv, Phase, outside, blocked, acquired, expired, returned, update, contains, is_waiting,
  invalid_iterator, enter, expire, finish_acquired, finish_expired, notify_one, notify_all,
}
use cmsis_cpp.ConditionVariable.Invariant.{start-Inv}
use cmsis_cpp.ConditionVariable.Notifying.{Sound}
use cmsis_cpp.ConditionVariable.Monitor.{rank, Monitor, new}

abbrev pub holds : ℕ → Bool
holds r = (leb 1 r && leb r 3) || leb 6 r

-- How a thread at a place stands in the condition variable.
abbrev pub placed_by : ℕ → Phase → Bool
placed_by r outside = leb r 2 || r == 7
placed_by r blocked = r == 5 || r == 6
placed_by r acquired = r == 3 || r == 4
placed_by r expired = r == 3 || r == 4
placed_by r (returned st) = leb r 2 || r == 7

pub record Ordered (s : Monitor) : Type 0 where
  pub sound : Sound s.cv
  pub owns : (i : ℕ) → holds (rank (s.pc i)) ≡ true → s.lock.owner ≡ suc i
  pub owned : (i : ℕ) → s.lock.owner ≡ suc i → holds (rank (s.pc i)) ≡ true
  pub level : s.lock.depth ≡ (if s.lock.owner == 0 then 0 else 1)
  pub placed : (i : ℕ) → s.cv.fault ≡ none → placed_by (rank (s.pc i)) (s.cv.phase i) ≡ true
  pub tested : (i : ℕ) → 6 ≤ rank (s.pc i) → s.flag ≡ false
  pub woken : (i : ℕ) → rank (s.pc i) ≡ 5 → s.cv.token i ≡ false → (not s.flag || s.due) ≡ true

pub new-Ordered : Ordered new
unfolding new ConditionVariable.start
new-Ordered = record {
  sound = inl start-Inv;
  owns = λ i h. ground arith;
  owned = λ i h. ground arith;
  level = refl;
  placed = λ i u. refl;
  tested = λ i h. refl;
  woken = λ i h t. refl;
}

pub placed_by_waiting : (p : Phase) → placed_by 5 p ≡ true → p ≡ blocked
placed_by_waiting outside h = absurd (cc)
placed_by_waiting blocked h = refl
placed_by_waiting acquired h = absurd (cc)
placed_by_waiting expired h = absurd (cc)
placed_by_waiting (returned st) h = absurd (cc)
