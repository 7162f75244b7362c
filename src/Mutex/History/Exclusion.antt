-- ===== src/Mutex/History/Exclusion.antt =====
-- Mutual exclusion: what the threads' own accounts of their calls say of each other.
use cmsis_cpp.Base.{
  ℕ, suc, ◌-◌, ◌<◌, ◌≡◌, ◌≢◌, refl, sym, ◌∙◌, ap, Bool, ◌==◌, List, [], ◌∷◌, arith, if◌then◌else◌,
}
use cmsis_cpp.Mutex.{MutexApi}
use cmsis_cpp.Mutex.History.{
  Call, tries, polls, gives, Op, Answer, taken, given, missed, failed, Holding, spec_step, spec_run,
  HasOwner, history, mutex_history-refines,
}

-- One thread's count of its locks, less its unlocks.
abbrev count_answer : Answer → ℕ → ℕ
count_answer taken n = suc n
count_answer given n = n - 1
count_answer missed n = n
count_answer failed n = n

-- The count of the thread of number `i` after the calls `ops` with these answers, from `n` on.
unfoldable pub held : ℕ → List Op → List Answer → ℕ → ℕ
held i [] as' n = n
held i (op ∷ ops) [] n = n
held i (op ∷ ops) (a ∷ as') n = held i ops as' (if op.thread == i then count_answer a n else n)

-- What the abstract mutex says of that count.
abbrev share : ℕ → Holding → ℕ
share i s = if s.owner == suc i then s.depth else 0

abbrev Idle : Holding → Type 0
Idle s = s.owner ≡ 0 → s.depth ≡ 0

spec_step-share :
    (recursive : Bool) (i k : ℕ) (call : Call) (s : Holding)
    → Idle s
    → let (a, s') = spec_step recursive (suc k) call s in
      (share i s' ≡ (if k == i then count_answer a (share i s) else share i s)) × Idle s'
spec_step-share recursive i k tries s h = ground arith
spec_step-share recursive i k polls s h = ground arith
spec_step-share recursive i k gives s h = ground arith

spec_run-share :
    (recursive : Bool) (i : ℕ) (ops : List Op) (s : Holding)
    → Idle s
    → held i ops (spec_run recursive ops s).0 (share i s) ≡ share i (spec_run recursive ops s).1
unfolding held spec_run
spec_run-share recursive i [] s h = refl
spec_run-share recursive i (op ∷ ops) s h =
    let step = spec_step-share recursive i op.thread op.call s h in
    let (a, s') = spec_step recursive (suc op.thread) op.call s in
    ap (held i ops (spec_run recursive ops s').0) (sym step.0)
    ∙ spec_run-share recursive i ops s' step.1

module _ {W : Type 0} (api : MutexApi W) (m_id : ℕ) (recursive : Bool) (running : W → ℕ)
    (view : W → Holding) (switch : ℕ → W → W)
    (has_owner : HasOwner api m_id recursive running view switch) where
  -- After any history of attempts and unlocks by any threads on a mutex that was free at first: while one
  -- thread has locked it more often than unlocked it, going by what its own calls have returned, every
  -- other thread has unlocked it as often as locked it.
  pub history-excludes :
      (ops : List Op) (w : W) (i j : ℕ)
      → view w ≡ record { owner = 0; depth = 0 }
      → i ≢ j
      → 0 < held i ops (history api m_id switch ops w).0 0
      → held j ops (history api m_id switch ops w).0 0 ≡ 0
  history-excludes ops w i j h n p =
      let e : (history api m_id switch ops w).0 ≡ (spec_run recursive ops idle).0 =
        (mutex_history-refines api m_id recursive running view switch has_owner ops w).0
        ∙ ap (λ s. (spec_run recursive ops s).0) h in
      rw e (counted j ∙ excluded (spec_run recursive ops idle).1 (rw (e, counted i) at p))
    where
      idle : Holding
      idle = record { owner = 0; depth = 0 }

      no_share : (k : ℕ) → share k idle ≡ 0
      no_share k = ground arith

      counted :
          (k : ℕ)
          → held k ops (spec_run recursive ops idle).0 0 ≡ share k (spec_run recursive ops idle).1
      counted k =
          ap (held k ops (spec_run recursive ops idle).0) (sym (no_share k))
          ∙ spec_run-share recursive k ops idle (λ z. refl)

      excluded : (s : Holding) → 0 < share i s → share j s ≡ 0
      excluded s p = ground arith
