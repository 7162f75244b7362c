-- ===== src/Flags/Examples.antt =====
-- Instances of the flags' theorems: one set of flags, which is the whole state.
use Prim.Native.Nat.{bit_and, bit_or, bit_xor}
use cmsis_cpp.Base.{ℕ, ◌/◌, ◌%◌, ◌<◌, ◌≡◌, ◌≢◌, ◌⊎◌, refl, arith, true}
use cmsis_cpp.Base.Int.{pos}
use cmsis_cpp.Ticks.{timeout_ticks}
use cmsis_cpp.Rtos.{
  ok, throw, ◌>>=◌, system_error, os_ok, os_category, flags_category, os_error_resource,
}
use cmsis_cpp.Flags.WaitFlag.{wait_option, flag_or, flag_or_assign}
use cmsis_cpp.Flags.WaitFlag.Options.{wait_option_bits, flag_or_assign_keeps}
use cmsis_cpp.Flags.Event
use cmsis_cpp.Flags.Event.{EventApi}
use cmsis_cpp.Flags.Event.Waiting.{Waited, wait_for_usec-Waited}
use cmsis_cpp.Flags.Event.Values.{
  Checked, HasEvents, event-Checked, get-construct, destroy-move_construct,
}
use cmsis_cpp.Flags.ThreadFlags
use cmsis_cpp.Flags.ThreadFlags.{ThreadFlagsApi}
use cmsis_cpp.Flags.ThreadFlags.Agreement.{set-set_for}

abbrev sample_api : EventApi ℕ
sample_api = record {
  os_kernel_get_tick_freq = λ f. 1000;
  os_event_flags_new = λ f. (1, 0);
  os_event_flags_delete = λ m_id f. (os_ok, 0);
  os_event_flags_get = λ m_id f. (f, f);
  os_event_flags_set = λ m_id mask f. (bit_or f mask, bit_or f mask);
  os_event_flags_clear = λ m_id mask f. (f, bit_and f (bit_xor mask 0x7FFFFFFF));
  os_event_flags_wait = λ m_id mask option time f. (0xFFFFFFFE, f);
}

abbrev thread_api : ThreadFlagsApi ℕ
thread_api = record {
  os_kernel_get_tick_freq = λ f. 1000000;
  os_thread_get_id = λ f. 7;
  os_thread_flags_set = λ tid mask f. (bit_or f mask, bit_or f mask);
  os_thread_flags_clear = λ mask f. (f, bit_and f (bit_xor mask 0x7FFFFFFF));
  os_thread_flags_get = λ f. (f, f);
  os_thread_flags_wait = λ mask option time f. (f, 0);
}

wait_option_bits_example : (wait_option 3 < 4) × (wait_option 3 % 2 ≡ 1) × (wait_option 3 / 2 ≡ 1)
wait_option_bits_example = wait_option_bits 3 (omega arith)

flag_or_assign_keeps_example :
    (flag_or_assign 1 2 ≡ (1, flag_or 1 2)) × ((flag_or_assign 1 2).0 ≡ (flag_or_assign 1 2).1 → ⊥)
unfolding flag_or
flag_or_assign_keeps_example = flag_or_assign_keeps 1 2 (λ e. omega arith)

wait_for_usec-Waited_example :
    Waited true 5 0xFFFFFFFE (Event.wait_for_usec true sample_api 1 3 0 (pos 5000) 8).0
unfolding timeout_ticks
wait_for_usec-Waited_example =
    wait_for_usec-Waited true sample_api 1 3 0 5000 5 0xFFFFFFFE 8 refl refl (omega arith)

event-Checked_example :
    Checked true os_category 8 (Event.get true sample_api 1 8).0
    × Checked true flags_category (bit_or 8 1) (Event.set true sample_api 1 1 8).0
    × Checked true flags_category 8 (Event.clear true sample_api 1 1 8).0
    × Checked true flags_category 0xFFFFFFFE (Event.wait true sample_api 1 1 0 8).0
event-Checked_example =
    event-Checked true sample_api 1 1 0 8 (omega arith) (omega arith) (omega arith) (omega arith)

sample-HasEvents : HasEvents sample_api (λ m_id f. f)
sample-HasEvents = record {
  new_empty = λ f. ((λ e. omega arith), refl);
  set_union = λ m_id mask f n h. (refl, refl);
  get_flags = λ m_id f n. refl;
}

get-construct_example :
    ((do m_id ← Event.construct true sample_api 6; Event.get true sample_api m_id) 9).0 ≡ ok 6
get-construct_example =
    get-construct true sample_api (λ m_id f. f) sample-HasEvents 6 9 (omega arith)

destroy-move_construct_example :
    ((Event.move_construct 1).0 ≡ 1)
    × (Event.destroy true sample_api (Event.move_construct 1).1 9 ≡ (ok tt, 9))
destroy-move_construct_example = destroy-move_construct true sample_api 1 9

set-set_for_example :
    ((◌≢◌ {A = ℕ} 7 0)
      × (ThreadFlags.set true thread_api 3 5 ≡ ThreadFlags.set_for true thread_api 7 3 5))
    ⊎ ((◌≡◌ {A = ℕ} 7 0)
        × (ThreadFlags.set true thread_api 3 5
            ≡ (throw (system_error os_error_resource os_category), 5)))
set-set_for_example = set-set_for true thread_api 3 5
