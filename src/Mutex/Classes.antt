-- ===== src/Mutex/Classes.antt =====
-- include/Mutex.h: `try_lock_for` of `base_timed_mutex`, which hands its duration on as microseconds
-- without a cast, and the methods of the four public classes. Only the timed ones have the timed calls.
use cmsis_cpp.Base.{ℕ, Bool, true, false, Option, none, some}
use cmsis_cpp.Base.Int.{ℤ}
use mathlib.Core.Option
use cmsis_cpp.Ticks.Durations.{Duration, implicit_usec}
use cmsis_cpp.Rtos.{Action}
use cmsis_cpp.Mutex.{
  MutexApi, Kind, mutex, recursive_mutex, timed_mutex, recursive_timed_mutex, lock, unlock,
  try_lock, try_lock_for_usec, try_lock_until,
}

abbrev pub is_timed : Kind → Bool
is_timed mutex = false
is_timed recursive_mutex = false
is_timed timed_mutex = true
is_timed recursive_timed_mutex = true

-- `ex` says whether exceptions are compiled in. A call that does not compile is `none`.
module _ {W : Type 0} (ex : Bool) (api : MutexApi W) where
  pub try_lock_for : ℕ → Duration → Option (Action W Bool)
  unfolding implicit_usec
  try_lock_for m_id rel_time = Option.map (try_lock_for_usec ex api m_id) (implicit_usec rel_time)

  pub kind_lock : Kind → ℕ → Action W (Unit {0})
  unfolding lock
  kind_lock kind m_id = lock ex api m_id

  pub kind_unlock : Kind → ℕ → Action W (Unit {0})
  unfolding unlock
  kind_unlock kind m_id = unlock ex api m_id

  pub kind_try_lock : Kind → ℕ → Action W Bool
  unfolding try_lock
  kind_try_lock kind m_id = try_lock ex api m_id

  pub kind_try_lock_for : Kind → ℕ → Duration → Option (Action W Bool)
  unfolding try_lock_for
  kind_try_lock_for kind m_id rel_time = elim (is_timed kind) [
    | true ↦ try_lock_for m_id rel_time
    | false ↦ none
  ]

  -- The clock of the template and the duration of its time points, microseconds here.
  pub kind_try_lock_until : Kind → (W → ℤ × W) → ℕ → ℤ → Option (Action W Bool)
  unfolding try_lock_until
  kind_try_lock_until kind now m_id abs_time = elim (is_timed kind) [
    | true ↦ some (try_lock_until ex api now m_id abs_time)
    | false ↦ none
  ]
