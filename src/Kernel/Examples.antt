-- ===== src/Kernel/Examples.antt =====
-- Instances of the kernel's theorems: a kernel that is set up, with the lock state as the whole state.
use cmsis_cpp.Base.{ℕ, suc, ◌≡◌, ◌≢◌, refl, true, List, [], ◌∷◌, some, arith}
use cmsis_cpp.Base.Int.{pos, pos_part}
use cmsis_cpp.Rtos.{Action, Result, ok, throw, terminate, ◌>>◌, bad_alloc, os_ok, os_error}
use cmsis_cpp.Kernel.{KernelApi, new_dispatch, lock, unlock, dispatch_guard, initialize}
use cmsis_cpp.Kernel.Locking.{IsLock, dispatch_guard-restores, unlock_twice, initialize_twice}
use cmsis_cpp.Kernel.Threads.{ThreadsApi, Info, enumerate}
use cmsis_cpp.Kernel.Threads.Enumeration.{handles, enumerate-handles}
use cmsis_cpp.Kernel.Idle.{idle_thread, set_idle_handler, idle_thread_calls}

abbrev sample_api : KernelApi ℕ
sample_api = record {
  os_kernel_get_info = λ n. ((os_ok, "RTX V5"), n);
  os_kernel_get_tick_freq = λ n. 1000;
  os_kernel_get_state = λ n. pos 2;
  os_kernel_initialize = λ n. (os_ok, n);
  os_kernel_start = λ n. (os_error, n);
  os_kernel_suspend = λ n. (0, n);
  os_kernel_resume = λ ticks n. (tt, n);
  os_kernel_lock = λ n. (pos n, 1);
  os_kernel_restore_lock = λ z n. (z, pos_part z);
  system_core_clock_update = λ n. (tt, n);
  system_core_clock = λ n. 72000000;
}

abbrev level : ℕ → ℕ
level n = n

sample-IsLock : IsLock sample_api level
sample-IsLock = record { locks = λ w. (refl, refl); restores = λ n w. (refl, refl) }

-- A body that throws, with the lock released behind the guard's back.
abbrev failing : Action ℕ (Unit {0})
failing n = (throw bad_alloc, 0)

dispatch_guard-restores_example :
    (◌≡◌ {A = ℕ} 1 1)
    × ((dispatch_guard true sample_api failing 0).0 ≡ throw bad_alloc)
    × ((◌≢◌ {A = Result (Unit {0})} (throw bad_alloc) terminate)
        → level (dispatch_guard true sample_api failing 0).1 ≡ 0)
dispatch_guard-restores_example =
    dispatch_guard-restores true sample_api level sample-IsLock failing 0

unlock_twice_example :
    let (r, d) =
      (lock true sample_api >> unlock true sample_api >> unlock true sample_api) (new_dispatch 0) in
    (r ≡ ok tt) × (level d.world ≡ 0) × (d.previous ≡ pos 0)
unlock_twice_example = unlock_twice true sample_api level sample-IsLock 0

initialize_twice_example :
    (initialize true sample_api >> initialize true sample_api) 0 ≡ initialize true sample_api 0
initialize_twice_example = initialize_twice true sample_api 0 (λ v e. refl) (λ v e. cc)

abbrev sample_threads : ThreadsApi ℕ
sample_threads = record {
  os_thread_get_count = λ n. 3;
  os_thread_enumerate = λ size n. ((2, 5 ∷ 9 ∷ 0 ∷ []), n);
  os_thread_get_name = λ tid n. 0;
  os_thread_get_state = λ tid n. pos 1;
  os_thread_get_priority = λ tid n. pos 24;
  os_thread_get_stack_size = λ tid n. 512;
  os_thread_get_stack_space = λ tid n. 100;
}

enumerate-handles_example :
    (infos : List Info) × ((enumerate true sample_api sample_threads 0).0 ≡ ok (some infos))
    × (handles infos ≡ 5 ∷ 9 ∷ [])
    × (◌≡◌ {A = ℕ} 1 1)
    × (level (enumerate true sample_api sample_threads 0).1 ≡ 0)
enumerate-handles_example =
    enumerate-handles true sample_api sample_threads level sample-IsLock 0 2 (5 ∷ 9 ∷ 0 ∷ []) refl
      (omega arith)

abbrev count_up : Action ℕ (Unit {0})
count_up n = (ok tt, suc n)

idle_thread_calls_example :
    ((idle_thread 4 (set_idle_handler (some failing) (some count_up)) 0).0 ≡ ok tt)
    × ((idle_thread 4 (set_idle_handler (some failing) (some count_up)) 0).1 ≡ 4)
idle_thread_calls_example = idle_thread_calls (some failing) count_up level (λ w. (refl, refl)) 4 0
