-- ===== src/Thread/Examples.antt =====
-- Instances of the threads' theorems: a system with one other thread, which has the handle 1.
use cmsis_cpp.Base.{
  ℕ, ◌+◌, ◌<◌, ◌≤◌, ◌≡◌, ◌≢◌, ◌↔◌, refl, Bool, true, false, some, [], ◌∷◌, arith, ◌==◌,
  if◌then◌else◌,
}
use cmsis_cpp.Base.Int.{ℤ, pos}
use cmsis_cpp.Ticks.{timeout_ticks}
use cmsis_cpp.Rtos.{
  ok, throw, terminate, ◌>>=◌, system_error, invalid_argument, os_category, os_ok,
  os_error_resource, os_error_parameter,
}
use cmsis_cpp.Thread.{
  Thread, ThreadApi, Attributes, construct, destroy, join, joinable, move_assign, id_ne, id_le,
  id_gt, id_ge,
}
use cmsis_cpp.Thread.Ownership.{Counts, history, joins, detaches, history-joinable}
use cmsis_cpp.Thread.Lifetime.{HasThreads, join_once, destroy_joinable, id_order}
use cmsis_cpp.Thread.ThisThread.{DelayApi, sleep_for_usec, sleep_until}
use cmsis_cpp.Thread.ThisThread.Sleeping.{
  Advances, Ended, sleep_until-ends, sleep_for_usec_sub_tick,
}

-- The state counts how often the thread was given up: it ends the first time.
abbrev give_up : ℕ → ℕ → ℤ × ℕ
give_up m_id n = if n == 0 then (os_ok, 1) else (os_error_resource, n)

abbrev counting_api : ThreadApi ℕ
counting_api = record {
  os_thread_new = λ attr n. (1, 0);
  os_thread_terminate = λ m_id n. (os_ok, n);
  os_thread_join = give_up;
  os_thread_detach = give_up;
  os_thread_suspend = λ m_id n. (os_ok, n);
  os_thread_resume = λ m_id n. (os_ok, n);
  os_thread_set_priority = λ m_id prio n. (os_ok, n);
  os_thread_get_priority = λ m_id n. pos 24;
  os_thread_get_name = λ m_id n. 0;
  os_thread_get_state = λ m_id n. pos 1;
  os_thread_get_stack_size = λ m_id n. 512;
  os_thread_get_stack_space = λ m_id n. 100;
  os_thread_exit = λ n. (tt, n);
  os_thread_get_id = λ n. 7;
}

counting-Counts : Counts counting_api 1 (λ n. n)
counting-Counts = record {
  join_claims = λ n. ground arith;
  detach_claims = λ n. ground arith;
  suspend_claims = λ n. refl;
  resume_claims = λ n. refl;
}

history-joinable_example :
    let (t, w') =
      history true counting_api
        (detaches ∷ joins ∷ [])
        (some (record { m_id = 1; m_detached = false }))
        0 in
    w' ≡ (if joinable t then 0 else 1)
history-joinable_example =
    history-joinable true counting_api 1 (λ n. n) counting-Counts (detaches ∷ joins ∷ []) 0 refl

-- The state is whether the thread is alive.
abbrev living_api : ThreadApi Bool
living_api = record {
  os_thread_new = λ attr b. (1, true);
  os_thread_terminate = λ m_id b. (os_ok, false);
  os_thread_join = λ m_id b. (os_ok, false);
  os_thread_detach = λ m_id b. (os_ok, b);
  os_thread_suspend = λ m_id b. (os_ok, b);
  os_thread_resume = λ m_id b. (os_ok, b);
  os_thread_set_priority = λ m_id prio b. (os_ok, b);
  os_thread_get_priority = λ m_id b. pos 24;
  os_thread_get_name = λ m_id b. 0;
  os_thread_get_state = λ m_id b. pos 1;
  os_thread_get_stack_size = λ m_id b. 512;
  os_thread_get_stack_space = λ m_id b. 100;
  os_thread_exit = λ b. (tt, b);
  os_thread_get_id = λ b. 7;
}

abbrev living : ℕ → Bool → Bool
living m_id b = b

living-HasThreads : HasThreads living_api living
living-HasThreads = record {
  new_alive = λ attr b. ((λ e. omega arith), refl);
  detach_alive = λ m_id b h. (refl, h);
  join_ends = λ m_id b h. (refl, refl);
  terminate_ends = λ m_id b. refl;
}

abbrev no_attributes : Attributes
no_attributes = record { stack_mem = 0; stack_size = 0; priority = 0; name = 0 }

join_once_example :
    let (r, w') = (do t ← construct true living_api no_attributes; join true living_api t) false in
    (t : Thread) × (r ≡ ok t)
    × (w' ≡ false)
    × ((destroy true living_api t w').0 ≡ ok tt)
    × (join true living_api t w' ≡ (throw invalid_argument, w'))
join_once_example =
    join_once true living_api living living-HasThreads no_attributes false (λ b e. omega arith)
      (λ b e. omega arith)

destroy_joinable_example :
    (((do t ← construct true living_api no_attributes; destroy true living_api t) false).0
      ≡ terminate)
    × (((do
      t ← construct true living_api no_attributes
      move_assign true living_api t (some (record { m_id = 2; m_detached = false })))
          false).0
        ≡ terminate)
destroy_joinable_example =
    destroy_joinable true living_api living living-HasThreads no_attributes
      (some (record { m_id = 2; m_detached = false })) false

id_order_example :
    ((id_ne 3 5 ≡ true) ↔ ◌≢◌ {A = ℕ} 3 5)
    × ((id_le 3 5 ≡ true) ↔ (3 ≤ 5))
    × ((id_gt 3 5 ≡ true) ↔ (5 < 3))
    × ((id_ge 3 5 ≡ true) ↔ (5 ≤ 3))
id_order_example = id_order 3 5

-- A clock that each delay moves on by a millisecond.
abbrev clock_api : DelayApi ℕ
clock_api = record {
  os_kernel_get_tick_freq = λ n. 1000;
  os_thread_yield = λ n. (os_ok, n);
  os_delay = λ ticks n. if ticks == 0 then (os_error_parameter, n) else (os_ok, n + 1000);
}

abbrev read_clock : ℕ → ℤ × ℕ
read_clock n = (pos n, n)

clock-Advances : Advances clock_api read_clock (λ n. n)
clock-Advances = record {
  reads = λ n. (refl, refl);
  delays = λ ticks n p. ground arith;
  refuses = λ n. refl;
}

sleep_until-ends_example :
    Ended true clock_api
      (λ n. n)
      5000
      (sleep_until true clock_api read_clock false 3001 (pos 5000) 2000)
sleep_until-ends_example =
    sleep_until-ends true clock_api read_clock (λ n. n) clock-Advances 3001 5000 2000 (omega arith)

-- As the documentation has it, a delay of 0 ticks is refused.
abbrev strict_api : DelayApi ℕ
strict_api = record {
  os_kernel_get_tick_freq = λ n. 1000;
  os_thread_yield = λ n. (os_ok, n);
  os_delay = λ ticks n. if ticks == 0 then (os_error_parameter, n) else (os_ok, n);
}

sleep_for_usec_sub_tick_example :
    (sleep_for_usec true strict_api (pos 100) 0).0
    ≡ throw (system_error os_error_parameter os_category)
unfolding timeout_ticks
sleep_for_usec_sub_tick_example =
    sleep_for_usec_sub_tick true strict_api 100 0 (omega arith) refl refl
