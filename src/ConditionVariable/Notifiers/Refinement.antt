-- ===== src/ConditionVariable/Notifiers/Refinement.antt =====
-- The code of notify_one and notify_all refines the steps of ConditionVariable.antt.
use cmsis_cpp.Base.{
  ℕ, ◌≡◌, refl, ap, sym, ◌∙◌, Bool, true, false, List, [], ◌∷◌, ◌++◌, none, some, arith,
}
use cmsis_cpp.Rtos.{ok}
use cmsis_cpp.ConditionVariable
use cmsis_cpp.ConditionVariable.{
  Cv, Event, notifies_one, notifies_all, start, update, contains, is_waiting, release_all, run,
}
use cmsis_cpp.ConditionVariable.Invariant.{Inv, listed, notify_one-empty, notify_one-front}
use cmsis_cpp.ConditionVariable.Notifying.{run-Sound, unbroken-Inv, step_unbroken}
use cmsis_cpp.ConditionVariable.Races.{run_one}
use cmsis_cpp.ConditionVariable.Predicates.{CvContext}
use cmsis_cpp.ConditionVariable.Predicates.World.Refinement.{run-append}
use cmsis_cpp.ConditionVariable.Notifiers.{
  release_front, release_each, replace_m_wait, notify_one, notify_all,
}
use cmsis_cpp.ConditionVariable.Notifiers.Tokens.{IsShared, released, release_each-tokens}

module _ {W : Type 0} (ex : Bool) (cv : CvContext W) (view : W → Cv) (others : W → List Event)
    (shared : IsShared cv view others) where
  release_front_step :
      (i : ℕ) (is : List ℕ) (w : W)
      → is_waiting ((view w).phase i) ≡ true
      → (view w).token i ≡ false
      → release_front ex cv (i ∷ is) w
        ≡ (ok tt, cv.set_m_wait is (cv.semaphores.os_semaphore_release i w).1)
  unfolding release_front replace_m_wait
  release_front_step i is w h t = ground (arith, released ex cv view others shared i w h t)

  front-view :
      (xs : List ℕ) (w : W)
      → (view w).m_wait ≡ xs
      → Inv (view w)
      → ((release_front ex cv xs w).0 ≡ ok tt)
        × (view (release_front ex cv xs w).1 ≡ ConditionVariable.notify_one (view w))
  unfolding release_front
  front-view [] w e v = (refl, sym (notify_one-empty (view w) e))
  front-view (i ∷ is) w e v =
      let l = listed i (view w) (rw e (ground arith)) v in
      let w' = (cv.semaphores.os_semaphore_release i w).1 in
      rw (release_front_step i is w l.0 l.1, notify_one-front i is (view w) e v)
        (
          refl,
          shared.set_m_wait_view is w'
              ∙ ap (λ (c : Cv). record c { m_wait = is }) (shared.release_empty i w l.0 l.1).1,
        )

  all-view :
      (w : W)
      → Inv (view w)
      → let w' = (release_each ex cv (view w).m_wait w).1 in
        ((release_each ex cv (view w).m_wait w).0 ≡ ok tt)
        × (view (cv.set_m_wait [] w') ≡ ConditionVariable.notify_all (view w))
  unfolding ConditionVariable.notify_all
  all-view w v =
      let r =
        release_each-tokens ex cv view others shared (view w).m_wait w v.unbroken v.distinct
          (λ i c. listed i (view w) c v) in
      let w' = (release_each ex cv (view w).m_wait w).1 in
      (r.0, shared.set_m_wait_view [] w' ∙ ap (λ (c : Cv). record c { m_wait = [] }) r.1)

  module _ (w : W) (v : Inv (view (cv.mutex_lock w).1)) where
    abbrev w₁ : W
    w₁ = (cv.mutex_lock w).1

    code_one :
        ((notify_one ex cv w).0 ≡ ok tt)
        × (view (notify_one ex cv w).1 ≡ ConditionVariable.notify_one (view w₁))
    unfolding notify_one
    code_one =
        let r = front-view (cv.m_wait w₁) w₁ (sym (shared.m_wait_view w₁)) v in
        let w₂ = (release_front ex cv (cv.m_wait w₁) w₁).1 in
        ground (arith, shared.locked w, shared.unlocked w₂)

    code_all :
        ((notify_all ex cv w).0 ≡ ok tt)
        × (view (notify_all ex cv w).1 ≡ ConditionVariable.notify_all (view w₁))
    unfolding notify_all replace_m_wait
    code_all =
        let r = all-view w₁ v in
        let w₂ = (release_each ex cv (view w₁).m_wait w₁).1 in
        ground
          (arith, shared.locked w, shared.m_wait_view w₁, shared.unlocked (cv.set_m_wait [] w₂))

  -- From a state that a run of the steps reaches, where none of the others' steps until the notifier has
  -- `m_mutex` leads to a fault: notify_one and notify_all return, so that none of the semaphores they
  -- release throws into the noexcept function, and the whole call, the steps of the others included,
  -- is a run of the steps that ends with the one of that name.
  pub notifiers-refine :
      (es : List Event) (w : W)
      → run es start ≡ some (view w)
      → (view (cv.mutex_lock w).1).fault ≡ none
      → ((notify_one ex cv w).0 ≡ ok tt)
        × (run (others w ++ notifies_one ∷ []) (view w) ≡ some (view (notify_one ex cv w).1))
        × ((notify_all ex cv w).0 ≡ ok tt)
        × (run (others w ++ notifies_all ∷ []) (view w) ≡ some (view (notify_all ex cv w).1))
  notifiers-refine es w h f =
      let w₁ = (cv.mutex_lock w).1 in
      let o = (shared.locked w).1 in
      let reached = run-append es (others w) start (view w) h ∙ o in
      let v = unbroken-Inv (view w₁) (run-Sound (es ++ others w) (view w₁) reached) f in
      let one = code_one w v in
      let all = code_all w v in
      (
        one.0,
        run-append (others w) (notifies_one ∷ []) (view w) (view w₁) o
            ∙ run_one notifies_one (view w₁) _ (step_unbroken notifies_one (view w₁) f)
            ∙ ap some (sym one.1),
        all.0,
        run-append (others w) (notifies_all ∷ []) (view w) (view w₁) o
            ∙ run_one notifies_all (view w₁) _ (step_unbroken notifies_all (view w₁) f)
            ∙ ap some (sym all.1),
      )
