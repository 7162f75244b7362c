-- ===== src/ConditionVariable/Notifiers.antt =====
-- src/ConditionVariable.cpp, `notify_one` and `notify_all` as the calling thread runs them: on `m_mutex` and
-- the semaphores of the waiting threads, whose handles stand in `m_wait`.
pub mod Tokens
pub mod Refinement
mod Examples
use cmsis_cpp.Base.{Bool, ℕ, List, [], ◌∷◌}
use cmsis_cpp.Base.Int.{pos}
use cmsis_cpp.Rtos.{Action, pure, gets, in_noexcept, with_lock, ◌>>=◌, ◌>>◌}
use cmsis_cpp.Semaphore
use cmsis_cpp.ConditionVariable.Predicates.{CvContext}

module _ {W : Type 0} (ex : Bool) (cv : CvContext W) where
  open cv use {semaphores, mutex_lock, mutex_unlock, m_wait, set_m_wait}

  pub replace_m_wait : List ℕ → Action W (Unit {0})
  replace_m_wait xs w = pure tt (set_m_wait xs w)

  -- `if (!m_wait.empty()) { m_wait.front()->release(); m_wait.pop_front(); }`
  pub release_front : List ℕ → Action W (Unit {0})
  unfolding replace_m_wait
  release_front [] = pure tt
  release_front (psema ∷ rest) = do
    Semaphore.release ex semaphores psema (pos 1)
    replace_m_wait rest

  pub notify_one : Action W (Unit {0})
  unfolding release_front
  notify_one =
      in_noexcept
        (with_lock mutex_lock mutex_unlock (do waiting ← gets m_wait; release_front waiting))

  -- `for (auto psema : m_wait) psema->release();`
  pub release_each : List ℕ → Action W (Unit {0})
  release_each [] = pure tt
  release_each (psema ∷ rest) = do Semaphore.release ex semaphores psema (pos 1); release_each rest

  pub notify_all : Action W (Unit {0})
  unfolding release_each replace_m_wait
  notify_all = in_noexcept (
      with_lock mutex_lock mutex_unlock
        (do waiting ← gets m_wait; release_each waiting; replace_m_wait []))
