-- ===== src/Kernel/Threads.antt =====
-- src/Threads.cpp: the list of all threads.
pub mod Enumeration
use cmsis_cpp.Base.{ℕ, zero, suc, Bool, List, [], ◌∷◌, Option, none, some}
use cmsis_cpp.Base.Int.{ℤ}
use mathlib.Core.Option
use cmsis_cpp.Ticks.{to_u32}
use cmsis_cpp.Rtos.{Action, pure, call, gets, in_noexcept, ◌>>=◌}
use cmsis_cpp.Kernel.{KernelApi, dispatch_guard}

-- threads::info; a size_t has 32 bits
pub record Info : Type 0 where
  pub handle : ℕ
  pub name : ℕ
  pub state : ℕ
  pub priority : ℕ
  pub stack_size : ℕ
  pub stack_space : ℕ

-- `os_thread_enumerate` gets an array of so many zeros, and returns a count and what the array holds then.
pub record ThreadsApi (W : Type 0) : Type 0 where
  pub os_thread_get_count : W → ℕ
  pub os_thread_enumerate : ℕ → W → (ℕ × List ℕ) × W
  pub os_thread_get_name : ℕ → W → ℕ
  pub os_thread_get_state : ℕ → W → ℤ
  pub os_thread_get_priority : ℕ → W → ℤ
  pub os_thread_get_stack_size : ℕ → W → ℕ
  pub os_thread_get_stack_space : ℕ → W → ℕ

module _ {W : Type 0} (ex : Bool) (kernel : KernelApi W) (api : ThreadsApi W) where
  open api use {
    os_thread_get_count, os_thread_enumerate, os_thread_get_name, os_thread_get_state,
    os_thread_get_priority, os_thread_get_stack_size, os_thread_get_stack_space,
  }

  pub count : Action W ℕ
  count = gets os_thread_get_count

  pub info_of : ℕ → W → Info
  unfolding to_u32
  info_of tid w = record {
    handle = tid;
    name = os_thread_get_name tid w;
    state = to_u32 (os_thread_get_state tid w);
    priority = to_u32 (os_thread_get_priority tid w);
    stack_size = os_thread_get_stack_size tid w;
    stack_space = os_thread_get_stack_space tid w;
  }

  -- The loop over `infos`; `none` where it reads past the end of `thread_array`.
  pub fill : ℕ → List ℕ → W → Option (List Info)
  fill zero thread_array w = some []
  fill (suc nb) [] w = none
  fill (suc nb) (tid ∷ rest) w = Option.map (λ infos. info_of tid w ∷ infos) (fill nb rest w)

  pub enumerate_locked : Action W (Option (List Info))
  unfolding count
  enumerate_locked = do
    n ← count
    (nb, thread_array) ← call (os_thread_enumerate n)
    gets (fill nb thread_array)

  pub enumerate : Action W (Option (List Info))
  enumerate = in_noexcept (dispatch_guard ex kernel enumerate_locked)
