-- ===== src/Mutex/History.antt =====
-- Any number of threads on one mutex, against an owner with a count. The thread of number `i` has the id
-- `suc i`; 0 is nobody's.
pub mod Exclusion
use cmsis_cpp.Base.{
  ℕ, zero, suc, ◌-◌, ◌≡◌, ◌≢◌, refl, ◌⊎◌, inl, inr, Bool, true, false, ◌&&◌, ◌||◌, ◌==◌, List, [],
  ◌∷◌, arith, if◌then◌else◌, Bool-cases, eq-cases,
}
use cmsis_cpp.Base.Int.{ℤ, pos}
use cmsis_cpp.Ticks.{timeout_ticks}
use cmsis_cpp.Ticks.Range.{timeout_ticks_zero}
use cmsis_cpp.Rtos.{Result, ok, throw, terminate, os_ok, os_error_resource}
use cmsis_cpp.Mutex.{MutexApi, unlock, try_lock, try_lock_for_usec}

-- `tries` is try_lock(), `polls` try_lock_for() with a duration of 0, `gives` unlock().
pub data Call : Type 0 where
  tries polls gives : Call

pub record Op : Type 0 where
  pub thread : ℕ
  pub call : Call

pub data Answer : Type 0 where
  taken given missed failed : Answer

-- Who holds the mutex, 0 for nobody, and how often.
pub record Holding : Type 0 where
  pub owner : ℕ
  pub depth : ℕ

abbrev pub free : Bool → ℕ → Holding → Bool
free recursive i s = s.owner == 0 || (recursive && s.owner == i)

abbrev pub take : ℕ → Holding → Holding
take i s = record { owner = i; depth = suc s.depth }

abbrev pub give : Holding → Holding
give s =
    if s.depth == 1
    then record { owner = 0; depth = 0 }
    else record { owner = s.owner; depth = s.depth - 1 }

-- The abstract mutex, called by the thread of the id `i`.
abbrev pub spec_step : Bool → ℕ → Call → Holding → Answer × Holding
spec_step recursive i tries s = if free recursive i s then (taken, take i s) else (failed, s)
spec_step recursive i polls s = if free recursive i s then (taken, take i s) else (missed, s)
spec_step recursive i gives s = if s.owner == i then (given, give s) else (failed, s)

unfoldable pub spec_run : Bool → List Op → Holding → List Answer × Holding
spec_run recursive [] s = ([], s)
spec_run recursive (op ∷ ops) s =
    let (a, s') = spec_step recursive (suc op.thread) op.call s in
    let (as', s'') = spec_run recursive ops s' in (a ∷ as', s'')

-- What CMSIS-RTOS2 documents of one live mutex with or without osMutexRecursive, as `view` shows it;
-- `running` is the id of the running thread, and `switch` what the scheduler does.
pub record HasOwner {W : Type 0} (api : MutexApi W) (m_id : ℕ) (recursive : Bool) (running : W → ℕ)
    (view : W → Holding) (switch : ℕ → W → W) : Type 0 where
  pub switch_running : (i : ℕ) (w : W) → running (switch i w) ≡ i
  pub switch_view : (i : ℕ) (w : W) → view (switch i w) ≡ view w
  pub acquire_free :
      (timeout : ℕ) (w : W)
      → free recursive (running w) (view w) ≡ true
      → ((api.os_mutex_acquire m_id timeout w).0 ≡ os_ok)
        × (view (api.os_mutex_acquire m_id timeout w).1 ≡ take (running w) (view w))
  pub acquire_busy :
      (w : W)
      → free recursive (running w) (view w) ≡ false
      → ((api.os_mutex_acquire m_id 0 w).0 ≡ os_error_resource)
        × (view (api.os_mutex_acquire m_id 0 w).1 ≡ view w)
  pub release_owned :
      (w : W)
      → (view w).owner ≡ running w
      → ((api.os_mutex_release m_id w).0 ≡ os_ok)
        × (view (api.os_mutex_release m_id w).1 ≡ give (view w))
  pub release_other :
      (w : W)
      → (view w).owner ≢ running w
      → ((api.os_mutex_release m_id w).0 ≡ os_error_resource)
        × (view (api.os_mutex_release m_id w).1 ≡ view w)

-- What the caller sees of a call's result. A failure is one whether it throws or ends the program.
abbrev try_answer : Result Bool → Answer
try_answer (ok b) = if b then taken else missed
try_answer (throw e) = failed
try_answer terminate = failed

abbrev give_answer : Result (Unit {0}) → Answer
give_answer (ok _) = given
give_answer (throw e) = failed
give_answer terminate = failed

module _ {W : Type 0} (api : MutexApi W) (m_id : ℕ) (switch : ℕ → W → W) where
  -- The running thread's calls with exceptions compiled in, after which the client goes on.
  abbrev pub perform : Call → W → Answer × W
  perform tries w = let (r, w') = try_lock true api m_id w in (try_answer r, w')
  perform polls w = let (r, w') = try_lock_for_usec true api m_id (pos 0) w in (try_answer r, w')
  perform gives w = let (r, w') = unlock true api m_id w in (give_answer r, w')

  unfoldable pub history : List Op → W → List Answer × W
  history [] w = ([], w)
  history (op ∷ ops) w =
      let (a, w') = perform op.call (switch (suc op.thread) w) in
      let (as', w'') = history ops w' in (a ∷ as', w'')

module _ {W : Type 0} (api : MutexApi W) (m_id : ℕ) (recursive : Bool) (running : W → ℕ)
    (view : W → Holding) (switch : ℕ → W → W)
    (has_owner : HasOwner api m_id recursive running view switch) where
  perform-refines :
      (call : Call) (w : W)
      → ((perform api m_id switch call w).0 ≡ (spec_step recursive (running w) call (view w)).0)
        × (view (perform api m_id switch call w).1
            ≡ (spec_step recursive (running w) call (view w)).1)
  unfolding try_lock try_lock_for_usec unlock
  perform-refines tries w = elim (Bool-cases (free recursive (running w) (view w))) [
    | inl h ↦ ground (arith, has_owner.acquire_free 0 w h, h)
    | inr h ↦ ground (arith, has_owner.acquire_busy w h, h)
  ]
  perform-refines polls w =
      let zero_ticks = timeout_ticks_zero (api.os_kernel_get_tick_freq w) in
      elim (Bool-cases (free recursive (running w) (view w))) [
        | inl h ↦ ground (arith, zero_ticks, has_owner.acquire_free 0 w h, h)
        | inr h ↦ ground (arith, zero_ticks, has_owner.acquire_busy w h, h)
      ]
  perform-refines gives w = elim (eq-cases (view w).owner (running w)) [
    | inl h ↦ ground (arith, has_owner.release_owned w h)
    | inr h ↦ ground (arith, has_owner.release_other w h)
  ]

  -- Over any history of attempts and unlocks by any threads, a mutex answers every call as an owner with
  -- a count does, and ends with the same owner and count: an attempt on a mutex that another thread
  -- holds, or that a non-recursive mutex's owner makes, returns false from try_lock_for and throws
  -- from try_lock; only the owner can unlock, and the mutex is free again with the last unlock.
  pub mutex_history-refines :
      (ops : List Op) (w : W)
      → ((history api m_id switch ops w).0 ≡ (spec_run recursive ops (view w)).0)
        × (view (history api m_id switch ops w).1 ≡ (spec_run recursive ops (view w)).1)
  unfolding history spec_run
  mutex_history-refines [] w = (refl, refl)
  mutex_history-refines (op ∷ ops) w =
      let i = suc op.thread in
      let s = perform-refines op.call (switch i w) in
      let rest = mutex_history-refines ops (perform api m_id switch op.call (switch i w)).1 in
      ground (arith, has_owner.switch_running i w, has_owner.switch_view i w, s, rest)
