-- ===== src/ConditionVariable/Notifiers/Tokens.antt =====
-- The semaphores that a notifier releases, one after the other, while it has `m_mutex`.
use cmsis_cpp.Base.{ℕ, ◌≡◌, refl, ap, ◌∙◌, Bool, true, false, List, [], ◌∷◌, none, some, arith}
use cmsis_cpp.Base.Int.{pos}
use cmsis_cpp.Rtos.{ok, os_ok}
use cmsis_cpp.Semaphore
use cmsis_cpp.ConditionVariable.{Cv, Event, update, contains, is_waiting, release_all, run}
use cmsis_cpp.ConditionVariable.Invariant.{Distinct, release_all_step}
use cmsis_cpp.ConditionVariable.Predicates.{CvContext}
use cmsis_cpp.ConditionVariable.Notifiers.{release_each}

-- What the calls of a notifier do to the condition variable that `view` shows: `others` happens until the
-- notifier has `m_mutex`, and the release of a binary semaphore that exists and has no token gives it one,
-- as CMSIS-RTOS2 documents of a count below its limit.
pub record IsShared {W : Type 0} (cv : CvContext W) (view : W → Cv) (others : W → List Event)
    : Type 0 where
  pub m_wait_view : (w : W) → cv.m_wait w ≡ (view w).m_wait
  pub set_m_wait_view :
      (xs : List ℕ) (w : W) → view (cv.set_m_wait xs w) ≡ record (view w) { m_wait = xs }
  pub locked :
      (w : W)
      → ((cv.mutex_lock w).0 ≡ ok tt) × (run (others w) (view w) ≡ some (view (cv.mutex_lock w).1))
  pub unlocked : (w : W) → ((cv.mutex_unlock w).0 ≡ ok tt) × (view (cv.mutex_unlock w).1 ≡ view w)
  pub release_empty :
      (i : ℕ) (w : W)
      → is_waiting ((view w).phase i) ≡ true
      → (view w).token i ≡ false
      → ((cv.semaphores.os_semaphore_release i w).0 ≡ os_ok)
        × (view (cv.semaphores.os_semaphore_release i w).1
            ≡ record (view w) { token = update (view w).token i true })

module _ {W : Type 0} (ex : Bool) (cv : CvContext W) (view : W → Cv) (others : W → List Event)
    (shared : IsShared cv view others) where
  pub released :
      (i : ℕ) (w : W)
      → is_waiting ((view w).phase i) ≡ true
      → (view w).token i ≡ false
      → Semaphore.release ex cv.semaphores i (pos 1) w
        ≡ (ok tt, (cv.semaphores.os_semaphore_release i w).1)
  unfolding Semaphore.release Semaphore.release_loop
  released i w h t = ground (arith, shared.release_empty i w h t)

  release_each_step :
      (i : ℕ) (is : List ℕ) (w : W)
      → is_waiting ((view w).phase i) ≡ true
      → (view w).token i ≡ false
      → release_each ex cv (i ∷ is) w
        ≡ release_each ex cv is (cv.semaphores.os_semaphore_release i w).1
  unfolding release_each
  release_each_step i is w h t = ground (arith, released i w h t)

  pub release_each-tokens :
      (is : List ℕ) (w : W)
      → (view w).fault ≡ none
      → Distinct is
      → ((i : ℕ)
          → contains i is ≡ true
          → (is_waiting ((view w).phase i) ≡ true) × ((view w).token i ≡ false))
      → ((release_each ex cv is w).0 ≡ ok tt)
        × (view (release_each ex cv is w).1 ≡ release_all is (view w))
  unfolding release_each release_all
  release_each-tokens [] w f d h = (refl, refl)
  release_each-tokens (i ∷ is) w f d h =
      let head = h i (ground arith) in
      let w' = (cv.semaphores.os_semaphore_release i w).1 in
      let e = (shared.release_empty i w head.0 head.1).1 in
      let rest =
        release_each-tokens is w' (ap (λ (c : Cv). c.fault) e ∙ f) d.1
          (λ j c. rw e (ground (arith, d.0, h j))) in
      rw (release_each_step i is w head.0 head.1, release_all_step i is (view w) f head.0 head.1)
        (rest.0, rest.1 ∙ ap (release_all is) e)
