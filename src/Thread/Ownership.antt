-- ===== src/Thread/Ownership.antt =====
-- One thread object over a history of calls: it gives its RTOS thread up at most once.
use cmsis_cpp.Base.{
  ℕ, suc, ◌+◌, ◌≡◌, refl, Bool, false, List, [], ◌∷◌, some, none, arith, if◌then◌else◌,
}
use cmsis_cpp.Base.Int.{◌==ℤ◌}
use cmsis_cpp.Rtos.{Result, Action, ok, throw, terminate, os_ok, ◌>>◌, pure}
use cmsis_cpp.Thread.{Thread, ThreadApi, joinable, join, detach, suspend, resume}

-- Calls on a thread object that leave it where it is.
pub data Op : Type 0 where
  joins detaches suspends resumes : Op

-- A call that fails leaves the object as it was.
abbrev pub after : Thread → Result Thread → Thread
after t (ok t') = t'
after t (throw e) = t
after t terminate = t

module _ {W : Type 0} (ex : Bool) (api : ThreadApi W) where
  pub perform : Op → Thread → Action W Thread
  perform joins t = join ex api t
  perform detaches t = detach ex api t
  perform suspends t = suspend ex api t >> pure t
  perform resumes t = resume ex api t >> pure t

  -- The object and the state at the end; std::terminate ends the history early.
  pub history : List Op → Thread → W → Thread × W
  history [] t w = (t, w)
  history (op ∷ ops) t w =
      let (r, w') = perform op t w in
      let rest = history ops (after t r) w' in
      elim r [ ok t' ↦ rest | throw e ↦ rest | terminate ↦ (t, w') ]

-- `claims` counts the joins and detachments of the thread `m_id` that succeeded.
pub record Counts {W : Type 0} (api : ThreadApi W) (m_id : ℕ) (claims : W → ℕ) : Type 0 where
  pub join_claims :
      (w : W)
      → claims (api.os_thread_join m_id w).1
        ≡ (if (api.os_thread_join m_id w).0 ==ℤ os_ok then suc (claims w) else claims w)
  pub detach_claims :
      (w : W)
      → claims (api.os_thread_detach m_id w).1
        ≡ (if (api.os_thread_detach m_id w).0 ==ℤ os_ok then suc (claims w) else claims w)
  pub suspend_claims : (w : W) → claims (api.os_thread_suspend m_id w).1 ≡ claims w
  pub resume_claims : (w : W) → claims (api.os_thread_resume m_id w).1 ≡ claims w

-- The thread that the object stands for, and how often the object may still give it up.
abbrev pub Holds : ℕ → ℕ → Thread → Type 0
Holds m_id n none = ⊥
Holds m_id n (some t) = (t.m_id ≡ m_id) × (n + (if t.m_detached then 0 else 1) ≡ 1)

Holds-claims : (m_id n : ℕ) (t : Thread) → Holds m_id n t → n ≡ (if joinable t then 0 else 1)
unfolding joinable
Holds-claims m_id n none h = absurd h
Holds-claims m_id n (some t) h = ground arith

module _ {W : Type 0} (ex : Bool) (api : ThreadApi W) (m_id : ℕ) (claims : W → ℕ)
    (counts : Counts api m_id claims) where
  perform-Holds :
      (op : Op) (t : Thread) (w : W)
      → Holds m_id (claims w) t
      → Holds m_id (claims (perform ex api op t w).1) (after t (perform ex api op t w).0)
  unfolding perform join detach suspend resume
  perform-Holds op none w h = absurd h
  perform-Holds joins (some t) w h = ground (arith, counts.join_claims w)
  perform-Holds detaches (some t) w h = ground (arith, counts.detach_claims w)
  perform-Holds suspends (some t) w h = ground (arith, counts.suspend_claims w)
  perform-Holds resumes (some t) w h = ground (arith, counts.resume_claims w)

  history-Holds :
      (ops : List Op) (t : Thread) (w : W)
      → Holds m_id (claims w) t
      → Holds m_id (claims (history ex api ops t w).1) (history ex api ops t w).0
  unfolding history
  history-Holds [] t w h = h
  history-Holds (op ∷ ops) t w h =
      let k = perform-Holds op t w h in
      let w' = (perform ex api op t w).1 in
      ground (arith, k, history-Holds ops (after t (perform ex api op t w).0) w')

  -- Whatever the history of joins, detachments, suspensions and resumptions of a newly constructed thread
  -- object, with failed calls in it or not, its RTOS thread was joined or detached once if the
  -- object is no longer joinable, and never if it still is.
  pub history-joinable :
      (ops : List Op) (w : W)
      → claims w ≡ 0
      → let (t, w') = history ex api ops (some (record { m_id = m_id; m_detached = false })) w in
        claims w' ≡ (if joinable t then 0 else 1)
  history-joinable ops w h =
      let start : Thread = some (record { m_id = m_id; m_detached = false }) in
      Holds-claims m_id _ (history ex api ops start w).0
        (history-Holds ops start w (refl, omega arith))
