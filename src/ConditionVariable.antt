-- ===== src/ConditionVariable.antt =====
-- src/ConditionVariable.cpp and include/ConditionVariable.h, as the interleaving of any number of waiting
-- threads and of notifiers: `wait_for_usec` runs in three parts, cut where it blocks, and what runs
-- under `m_mutex` is one step. A waiting thread is a number, which also stands for the address of
-- its semaphore, a local variable of `wait_for_usec`. The loops over a predicate are in
-- ConditionVariable/Predicates.antt.
pub mod Invariant
pub mod Notifying
pub mod Arrivals
pub mod Races
pub mod Repeating
pub mod Patience
pub mod Predicates
pub mod Notifiers
pub mod Monitor
mod Examples
use cmsis_cpp.Base.{
  ℕ, Bool, true, false, not, ◌&&◌, ◌==◌, List, [], ◌∷◌, ◌++◌, Option, none, some, if◌then◌else◌,
}

pub data CvStatus : Type 0 where
  no_timeout timeout : CvStatus

-- Where a thread stands: before the call, in `sema.try_acquire_for(usec)`, behind it with `st` true or
-- false and waiting for `lock`, or behind the call.
pub data Phase : Type 0 where
  outside blocked acquired expired : Phase
  returned : CvStatus → Phase

-- What goes wrong: a notifier releases a binary semaphore that has its token, and std::terminate is
-- called since it is noexcept; it releases one that is destroyed; or an iterator is erased whose
-- element is gone from the list.
pub data Fault : Type 0 where
  full_semaphore dangling_semaphore invalid_iterator : Fault

pub record Cv : Type 0 where
  pub m_wait : List ℕ
  pub phase : ℕ → Phase
  pub token : ℕ → Bool
  pub fault : Option Fault

pub start : Cv
start = record { m_wait = []; phase = λ i. outside; token = λ i. false; fault = none }

abbrev pub update {ℓ} : {A : Type ℓ} → (ℕ → A) → ℕ → A → ℕ → A
update f i a j = if i == j then a else f j

abbrev pub contains : ℕ → List ℕ → Bool
contains i [] = false
contains i (j ∷ js) = if i == j then true else contains i js

abbrev pub remove : ℕ → List ℕ → List ℕ
remove i [] = []
remove i (j ∷ js) = if i == j then js else j ∷ remove i js

-- Is the thread inside wait_for_usec, with its semaphore in existence?
abbrev pub is_waiting : Phase → Bool
is_waiting outside = false
is_waiting blocked = true
is_waiting acquired = true
is_waiting expired = true
is_waiting (returned st) = false

-- `psema->release()`
pub release : ℕ → Cv → Cv
release i s =
    if not (is_waiting (s.phase i))
    then record s { fault = some dangling_semaphore }
    else if s.token i
    then record s { fault = some full_semaphore }
    else record s { token = update s.token i true }

notify_first : List ℕ → Cv → Cv
notify_first [] s = s
notify_first (i ∷ rest) s = record (release i s) { m_wait = rest }

pub notify_one : Cv → Cv
unfolding notify_first
notify_one s = notify_first s.m_wait s

-- The loop of notify_all, which a fault ends.
pub release_all : List ℕ → Cv → Cv
release_all [] s = s
release_all (i ∷ is) s =
    let rest = release_all is (release i s) in
    elim (release i s).fault [ none ↦ rest | some f ↦ release i s ]

pub notify_all : Cv → Cv
notify_all s = record (release_all s.m_wait s) { m_wait = [] }

-- wait_for_usec up to the call that blocks: `sema(0)`, the insertion at the end, `lock.unlock()`.
pub enter : ℕ → Cv → Cv
enter i s = record s {
  m_wait = s.m_wait ++ i ∷ [];
  phase = update s.phase i blocked;
  token = update s.token i false;
}

-- `st = sema.try_acquire_for(usec)`, with a token and without one.
pub take : ℕ → Cv → Cv
take i s = record s { phase = update s.phase i acquired; token = update s.token i false }

pub expire : ℕ → Cv → Cv
expire i s = record s { phase = update s.phase i expired }

-- wait_for_usec from `lock.lock()` on: after a timeout the iterator of the insertion is erased.
pub finish_acquired : ℕ → Cv → Cv
finish_acquired i s = record s { phase = update s.phase i (returned no_timeout) }

pub finish_expired : ℕ → Cv → Cv
finish_expired i s =
    if contains i s.m_wait
    then record s { m_wait = remove i s.m_wait; phase = update s.phase i (returned timeout) }
    else record s { fault = some invalid_iterator }

pub data Event : Type 0 where
  enters takes expires finishes : ℕ → Event
  notifies_one notifies_all : Event

abbrev pub is_blocked : Phase → Bool
is_blocked blocked = true
is_blocked _ = false

abbrev pub finish_by : Phase → ℕ → Cv → Option Cv
finish_by acquired i s = some (finish_acquired i s)
finish_by expired i s = some (finish_expired i s)
finish_by _ i s = none

abbrev pub enabled : Event → Cv → Option Cv
enabled (enters i) s = if is_waiting (s.phase i) then none else some (enter i s)
enabled (takes i) s = if is_blocked (s.phase i) && s.token i then some (take i s) else none
enabled (expires i) s =
    if is_blocked (s.phase i) && not (s.token i) then some (expire i s) else none
enabled (finishes i) s = finish_by (s.phase i) i s
enabled notifies_one s = some (notify_one s)
enabled notifies_all s = some (notify_all s)

-- One step, if it can happen: a thread waits once at a time, the semaphore decides by its token, and
-- nothing happens after a fault.
pub step : Event → Cv → Option Cv
step e s = elim s.fault [ some f ↦ none | none ↦ enabled e s ]

pub run : List Event → Cv → Option Cv
run [] s = some s
run (e ∷ es) s = elim (step e s) [ none ↦ none | some s' ↦ run es s' ]
