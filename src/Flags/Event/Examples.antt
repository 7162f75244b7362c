-- ===== src/Flags/Event/Examples.antt =====
-- An instance of the event's history: one event object, whose flags are the low 31 bits of the state.
use Prim.Native.Nat.{bit_or}
use cmsis_cpp.Base.{ℕ, ◌/◌, ◌%◌, ◌^◌, ◌≡◌, refl, ◌==◌, List, [], ◌∷◌, arith, if◌then◌else◌}
use cmsis_cpp.Base.Bits.{bit_or-lt}
use cmsis_cpp.Rtos.{os_ok, os_flags_error_resource, os_flags_error_timeout}
use cmsis_cpp.Flags.Event.{EventApi}
use cmsis_cpp.Flags.FlagSet.{without-lt, left-lt}
use cmsis_cpp.Flags.FlagSet.{Op, sets, clears, gets, polls, flags_were, missed, without, met, left}
use cmsis_cpp.Flags.Event.History.{FitsAll, HasFlags, spec_run, history, event_history-refines}

abbrev sample_flags : ℕ → ℕ
sample_flags w = w % 2 ^ 31

abbrev sample_wait : ℕ → ℕ → ℕ → ℕ → ℕ → ℕ × ℕ
sample_wait m_id mask option time w =
    if met (option % 2 == 1) mask (sample_flags w)
    then (sample_flags w, left (option / 2 == 1) mask (sample_flags w))
    else (if time == 0 then os_flags_error_resource else os_flags_error_timeout, w)

abbrev sample_api : EventApi ℕ
sample_api = record {
  os_kernel_get_tick_freq = λ w. 1000;
  os_event_flags_new = λ w. (1, 0);
  os_event_flags_delete = λ m_id w. (os_ok, 0);
  os_event_flags_get = λ m_id w. (sample_flags w, w);
  os_event_flags_set = λ m_id mask w. (bit_or (sample_flags w) mask, bit_or (sample_flags w) mask);
  os_event_flags_clear = λ m_id mask w. (sample_flags w, without (sample_flags w) mask);
  os_event_flags_wait = sample_wait;
}

sample-HasFlags : HasFlags sample_api 1 sample_flags
sample-HasFlags = record {
  flags_fit = λ w. omega arith;
  get_flags = λ w. (refl, refl);
  set_union = λ mask w h. (refl, omega (arith, bit_or-lt 31 (sample_flags w) mask (omega arith) h));
  clear_rest = λ mask w h. (refl, omega (arith, without-lt (sample_flags w) mask (omega arith)));
  wait_met = λ mask option time w p h m.
      let small = left-lt (option / 2 == 1) mask (sample_flags w) (omega arith) in
      ground (arith, m, small);
  wait_unmet = λ mask option w p h m. ground (arith, m);
}

-- Set 5, wait for 1 and 2, for 1 or 2 without taking them, for 1 or 2, and read.
abbrev sample_calls : List Op
sample_calls = sets 5 ∷ polls 3 1 ∷ polls 3 2 ∷ polls 3 0 ∷ gets ∷ clears 4 ∷ gets ∷ []

sample_calls-FitsAll : FitsAll sample_calls
unfolding FitsAll
sample_calls-FitsAll = omega arith

event_history-refines_example :
    ((history sample_api 1 sample_calls 0).0 ≡ (spec_run sample_calls 0).0)
    × (sample_flags (history sample_api 1 sample_calls 0).1 ≡ (spec_run sample_calls 0).1)
event_history-refines_example =
    event_history-refines sample_api 1 sample_flags sample-HasFlags sample_calls 0
      sample_calls-FitsAll

spec_run_calls : spec_run sample_calls 0 ≡ (
  flags_were 5
      ∷ missed
      ∷ flags_were 5
      ∷ flags_were 5
      ∷ flags_were 4
      ∷ flags_were 4
      ∷ flags_were 0
      ∷ [],
  0,
)
unfolding spec_run
spec_run_calls = refl
