-- ===== src/Kernel.antt =====
-- src/OS.cpp and include/OS.h: the kernel's control functions and `dispatch`; src/Threads.cpp is in
-- Kernel/Threads.antt, and src/rtx_os.cpp with the idle handler in Kernel/Idle.antt.
pub mod Locking
pub mod Threads
pub mod Idle
mod Examples
use Prim.Native.String.{String}
use cmsis_cpp.Base.{ℕ, Bool, ◌==◌, if◌then◌else◌}
use cmsis_cpp.Base.Int.{ℤ, ◌==ℤ◌, is_negative}
use cmsis_cpp.Rtos.{
  Action, pure, call, gets, fail_if, with_lock, ◌>>=◌, ◌>>◌, expect_ok, system_error, os_category,
  os_error, os_kernel_inactive, os_kernel_locked,
}

pub record KernelApi (W : Type 0) : Type 0 where
  pub os_kernel_get_info : W → (ℤ × String) × W
  pub os_kernel_get_tick_freq : W → ℕ
  pub os_kernel_get_state : W → ℤ
  pub os_kernel_initialize : W → ℤ × W
  pub os_kernel_start : W → ℤ × W
  pub os_kernel_suspend : W → ℕ × W
  pub os_kernel_resume : ℕ → W → Unit {0} × W
  pub os_kernel_lock : W → ℤ × W
  pub os_kernel_restore_lock : ℤ → W → ℤ × W
  pub system_core_clock_update : W → Unit {0} × W
  pub system_core_clock : W → ℕ

-- A `dispatch` object, beside the state: its field m_previous_lock_state.
pub record Dispatch (W : Type 0) : Type 0 where
  pub world : W
  pub previous : ℤ

-- A call that leaves the object alone.
abbrev pub within : {W A : Type 0} → Action W A → Action (Dispatch W) A
within m d = let (r, w) = m d.world in (r, record d { world = w })

-- dispatch()
pub new_dispatch : {W : Type 0} → W → Dispatch W
new_dispatch w = record { world = w; previous = os_error }

-- `ex` says whether exceptions are compiled in.
module _ {W : Type 0} (ex : Bool) (api : KernelApi W) where
  open api use {
    os_kernel_get_info, os_kernel_get_tick_freq, os_kernel_get_state, os_kernel_initialize,
    os_kernel_start, os_kernel_suspend, os_kernel_resume, os_kernel_lock, os_kernel_restore_lock,
    system_core_clock_update, system_core_clock,
  }

  -- The text is what the RTOS leaves in the static buffer.
  pub version : Action W String
  version = do (sta, infobuf) ← call os_kernel_get_info; expect_ok ex sta; pure infobuf

  pub tick_frequency : Action W ℕ
  tick_frequency = do
    tick ← gets os_kernel_get_tick_freq
    fail_if ex (tick == 0) (system_error os_error os_category)
    pure tick

  call_initialize : Action W (Unit {0})
  call_initialize = do sta ← call os_kernel_initialize; expect_ok ex sta

  pub initialize : Action W (Unit {0})
  unfolding call_initialize
  initialize = do
    state ← gets os_kernel_get_state
    if state ==ℤ os_kernel_inactive then call_initialize else pure tt

  pub start : Action W (Unit {0})
  start = do sta ← call os_kernel_start; expect_ok ex sta

  pub suspend : Action W ℕ
  suspend = call os_kernel_suspend

  pub resume : ℕ → Action W (Unit {0})
  resume sleep_ticks = call (os_kernel_resume sleep_ticks)

  -- core::clock_frequency
  pub clock_frequency : Action W ℕ
  clock_frequency = do
    call system_core_clock_update
    clock ← gets system_core_clock
    fail_if ex (clock == 0) (system_error os_error os_category)
    pure clock

  -- `m_previous_lock_state = v; if (m_previous_lock_state < 0) throw ...`
  abbrev keep : ℤ → Action (Dispatch W) (Unit {0})
  keep v = do
    call (λ d. (tt, record d { previous = v }))
    fail_if ex (is_negative v) (system_error v os_category)

  pub lock : Action (Dispatch W) (Unit {0})
  lock = do v ← within (call os_kernel_lock); keep v

  pub unlock : Action (Dispatch W) (Unit {0})
  unlock = do
    previous ← gets (λ d. d.previous)
    fail_if ex (is_negative previous) (system_error previous os_category)
    v ← within (call (os_kernel_restore_lock previous))
    keep v

  pub locked : Action W Bool
  locked = do state ← gets os_kernel_get_state; pure (state ==ℤ os_kernel_locked)

  -- `dispatch d; std::lock_guard<dispatch> lg(d); body`
  pub dispatch_guard : {A : Type 0} → Action W A → Action W A
  unfolding lock unlock new_dispatch
  dispatch_guard body w =
      let (r, d) = with_lock lock unlock (within body) (new_dispatch w) in (r, d.world)
