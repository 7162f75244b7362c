-- ===== src/ConditionVariable/Predicates/World/Notified.antt =====
-- Two whole calls of the code: one that a notify_all ends, and one that nobody notifies.
use cmsis_cpp.Base.{
  ℕ, ◌<◌, ◌≡◌, refl, ◌∙◌, inl, inr, Bool, true, false, List, [], ◌∷◌, ◌++◌, none, some, arith,
}
use cmsis_cpp.Base.Int.{pos}
use cmsis_cpp.Rtos.{ok}
use cmsis_cpp.ConditionVariable.{
  Cv, no_timeout, timeout, start, is_waiting, contains, remove, take, expire, enter, notify_all,
  Event, enters, notifies_all, run,
}
use cmsis_cpp.ConditionVariable.Notifying.{run-Sound, step_unbroken, notify_all-wakes}
use cmsis_cpp.ConditionVariable.Races.{run_one}
use cmsis_cpp.ConditionVariable.Predicates.{wait_for_usec}
use cmsis_cpp.ConditionVariable.Predicates.World.{World, context_in}
use cmsis_cpp.ConditionVariable.Predicates.World.Code.{code_acquired, code_expired}
use cmsis_cpp.ConditionVariable.Predicates.World.Refinement.{run-append, enters_enabled}

contains-append_self : (i : ℕ) (xs : List ℕ) → contains i (xs ++ i ∷ []) ≡ true
contains-append_self i [] = ground arith
contains-append_self i (x ∷ xs) = ground (arith, contains-append_self i xs)

remove-append_self : (i : ℕ) (xs : List ℕ) → contains i xs ≡ false → remove i (xs ++ i ∷ []) ≡ xs
remove-append_self i [] h = ground arith
remove-append_self i (x ∷ xs) h = ground (arith, remove-append_self i xs)

module _ (ex : Bool) (i freq usec : ℕ) (es : List Event) (s : Cv) where
  -- A thread with a handle other than 0, which is not waiting, and calls wait_for_usec in a state that a
  -- run without a fault reaches, while nobody waits or notifies before its timeout is over and it has
  -- its lock again, gets `timeout`, and the waiting list is afterwards what it was.
  pub wait_for_usec_alone :
      0 < i
      → run es start ≡ some s
      → s.fault ≡ none
      → is_waiting (s.phase i) ≡ false
      → let w : World = record { cv = s; during = []; before_lock = [] } in
        ((wait_for_usec ex (context_in i freq) (pos usec) w).0 ≡ ok timeout)
        × ((wait_for_usec ex (context_in i freq) (pos usec) w).1.cv.m_wait ≡ s.m_wait)
  unfolding run enter expire
  wait_for_usec_alone named h f p = elim (run-Sound es s h) [
    | inl v ↦
        let w : World = record { cv = s; during = []; before_lock = [] } in
        let s₁ = enter i s in
        let fresh : contains i s.m_wait ≡ false = ground (arith, v.fit i) in
        let code =
          code_expired ex i freq usec w s₁ (expire i s₁) named refl (ground arith) refl
            (contains-append_self i s.m_wait) in
        rw code (refl, remove-append_self i s.m_wait fresh)
    | inr g ↦ absurd (cc)
  ]

  -- A thread with a handle other than 0, which is not waiting, calls wait_for_usec with a duration that is
  -- not negative in a state without a fault that a run reaches, and another calls notify_all, and
  -- nothing else happens, while it is blocked: then it returns `no_timeout`, and the waiting list is
  -- empty, whoever stood in it before.
  pub wait_for_usec_notified :
      0 < i
      → run es start ≡ some s
      → s.fault ≡ none
      → is_waiting (s.phase i) ≡ false
      → let w : World = record { cv = s; during = notifies_all ∷ []; before_lock = [] } in
        ((wait_for_usec ex (context_in i freq) (pos usec) w).0 ≡ ok no_timeout)
        × ((wait_for_usec ex (context_in i freq) (pos usec) w).1.cv.m_wait ≡ [])
  unfolding run enter take
  wait_for_usec_notified named h f p =
      let w : World = record { cv = s; during = notifies_all ∷ []; before_lock = [] } in
      let s₁ = enter i s in
      let reached : run (es ++ enters i ∷ []) start ≡ some s₁ =
        run-append es (enters i ∷ []) start s h
        ∙ run_one (enters i) s s₁ (enters_enabled i s f p) in
      let woken = notify_all-wakes (es ++ enters i ∷ []) s₁ reached f in
      let s₂ = notify_all s₁ in
      let during : run (notifies_all ∷ []) s₁ ≡ some s₂ =
        run_one notifies_all s₁ s₂ (step_unbroken notifies_all s₁ f) in
      let code =
        code_acquired ex i freq usec w s₂ (take i s₂) named during (woken.2 i (ground arith))
          refl in
      rw code (refl, woken.0)
