-- ===== src/Kernel/Idle.antt =====
-- src/rtx_os.cpp and the idle handler of src/OS.cpp: the global `idleHandler`, and the thread that the
-- RTX kernel runs when no other is ready. (osRtxErrorNotify is in Errors/Context.antt.)
use cmsis_cpp.Base.{ℕ, zero, suc, ◌+◌, ◌≡◌, refl, arith, Option, none, some}
use cmsis_cpp.Rtos.{Action, ok, pure, ◌>>◌}

-- idleHandler; an empty std::function is `none`
abbrev pub IdleHandler : Type 0 → Type 0
IdleHandler W = Option (Action W (Unit {0}))

-- kernel::set_idle_handler: the global afterwards
pub set_idle_handler : {W : Type 0} → IdleHandler W → IdleHandler W → IdleHandler W
set_idle_handler old handler = handler

-- One round of the endless loop of osRtxIdleThread.
pub idle_round : {W : Type 0} → IdleHandler W → Action W (Unit {0})
idle_round none = pure tt
idle_round (some handler) = handler

-- So many rounds of it.
pub idle_thread : {W : Type 0} → ℕ → IdleHandler W → Action W (Unit {0})
unfolding idle_round
idle_thread zero handler = pure tt
idle_thread (suc rounds) handler = idle_round handler >> idle_thread rounds handler

-- The handler that was set last, if it returns, is called once in each round of the idle thread: a counter
-- that it raises by one grows by the number of rounds.
pub idle_thread_calls :
    {W : Type 0} (old : IdleHandler W) (handler : Action W (Unit {0})) (calls : W → ℕ)
    (counted : (w : W) → ((handler w).0 ≡ ok tt) × (calls (handler w).1 ≡ suc (calls w)))
    (rounds : ℕ) (w : W)
    → ((idle_thread rounds (set_idle_handler old (some handler)) w).0 ≡ ok tt)
      × (calls (idle_thread rounds (set_idle_handler old (some handler)) w).1 ≡ calls w + rounds)
unfolding idle_thread set_idle_handler
idle_thread_calls old handler calls counted zero w = (refl, omega arith)
idle_thread_calls old handler calls counted (suc rounds) w =
    ground (arith, counted w, idle_thread_calls old handler calls counted rounds (handler w).1)
