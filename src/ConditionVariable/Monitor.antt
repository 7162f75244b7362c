-- ===== src/ConditionVariable/Monitor.antt =====
-- A condition variable with the mutex and the predicate of its callers: any number of threads that
-- lock, write the flag behind the predicate, and wait for it by `wait(lock, pred)` of
-- include/ConditionVariable.h, which calls `wait_for_usec` of src/ConditionVariable.cpp. A step is a
-- shared access; what runs under `m_mutex` is one. The thread of number `i` has the id `suc i`.
pub mod Ordered
pub mod Locking
pub mod Invariant
pub mod Wakeups
pub mod Settled
pub mod Leaving
mod Examples
use cmsis_cpp.Base.{ℕ, suc, ◌≡◌, Bool, true, false, not, ◌&&◌, ◌||◌, List, [], none, if◌then◌else◌}
use cmsis_cpp.Mutex.History.{Holding, free, take, give}
use cmsis_cpp.ConditionVariable
use cmsis_cpp.ConditionVariable.{
  Cv, acquired, expired, update, enter, expire, finish_acquired, finish_expired, notify_one,
  notify_all,
}

-- Where a thread stands: without the lock; with it, in the client's code; before `pred()`; before the end
-- of wait_for_usec; before its `lock.lock()`; in `sema.try_acquire_for(usec)`; before its
-- `lock.unlock()`; and before the insertion into the list.
pub data Pc : Type 0 where
  outside inside testing returning relocking waiting enlisted enlisting : Pc

-- The places in this order; from `waiting` on the way goes down.
abbrev pub rank : Pc → ℕ
rank outside = 0
rank inside = 1
rank testing = 2
rank returning = 3
rank relocking = 4
rank waiting = 5
rank enlisted = 6
rank enlisting = 7

-- `lock` is the callers' mutex. `due` is no part of the program: it says that the flag has become
-- true, and that nobody has called notify_all since.
pub record Monitor : Type 0 where
  pub cv : Cv
  pub lock : Holding
  pub pc : ℕ → Pc
  pub flag : Bool
  pub due : Bool

pub new : Monitor
unfolding ConditionVariable.start
new = record {
  cv = ConditionVariable.start;
  lock = record { owner = 0; depth = 0 };
  pc = λ i. outside;
  flag = false;
  due = false;
}

-- Anybody may notify, with the lock or without it.
pub data Step (s : Monitor) : Monitor → Type 0 where
  locks :
      (i : ℕ)
      → s.pc i ≡ outside
      → free false (suc i) s.lock ≡ true
      → Step s (record s { pc = update s.pc i inside; lock = take (suc i) s.lock })
  unlocks :
      (i : ℕ)
      → s.pc i ≡ inside
      → Step s (record s { pc = update s.pc i outside; lock = give s.lock })
  writes :
      (i : ℕ) (b : Bool)
      → s.pc i ≡ inside
      → Step s (record s { flag = b; due = s.due || (b && not s.flag) })
  signals_one : Step s (record s { cv = notify_one s.cv })
  signals_all : Step s (record s { cv = notify_all s.cv; due = false })
  waits : (i : ℕ) → s.pc i ≡ inside → Step s (record s { pc = update s.pc i testing })
  tests :
      (i : ℕ)
      → s.pc i ≡ testing
      → Step s (record s { pc = update s.pc i (if s.flag then inside else enlisting) })
  enlists :
      (i : ℕ)
      → s.pc i ≡ enlisting
      → Step s (record s { cv = enter i s.cv; pc = update s.pc i enlisted })
  releases :
      (i : ℕ)
      → s.pc i ≡ enlisted
      → Step s (record s { pc = update s.pc i waiting; lock = give s.lock })
  wakes :
      (i : ℕ)
      → s.pc i ≡ waiting
      → s.cv.token i ≡ true
      → Step s (record s { cv = ConditionVariable.take i s.cv; pc = update s.pc i relocking })
  times_out :
      (i : ℕ)
      → s.pc i ≡ waiting
      → s.cv.token i ≡ false
      → Step s (record s { cv = expire i s.cv; pc = update s.pc i relocking })
  relocks :
      (i : ℕ)
      → s.pc i ≡ relocking
      → free false (suc i) s.lock ≡ true
      → Step s (record s { pc = update s.pc i returning; lock = take (suc i) s.lock })
  returns :
      (i : ℕ)
      → s.pc i ≡ returning
      → s.cv.phase i ≡ acquired
      → Step s (record s { cv = finish_acquired i s.cv; pc = update s.pc i testing })
  gives_up :
      (i : ℕ)
      → s.pc i ≡ returning
      → s.cv.phase i ≡ expired
      → Step s (record s { cv = finish_expired i s.cv; pc = update s.pc i testing })

-- The states that threads reach together; nothing happens after a fault.
pub data Reach : Monitor → Type 0 where
  begins : Reach new
  goes_on : {s t : Monitor} → Reach s → s.cv.fault ≡ none → Step s t → Reach t
