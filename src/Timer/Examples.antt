-- ===== src/Timer/Examples.antt =====
-- Instances of the timer's theorems: the whole state is whether the one timer runs.
use cmsis_cpp.Base.{List, [], ◌∷◌, ◌+◌}
use cmsis_cpp.Timer.History.{
  Op, starts, stops, expires, done, refused, quiet, Machine, HasExpiry, spec_run, history,
  timer_history-refines,
}
use cmsis_cpp.Base.{ℕ, ◌≡◌, refl, Bool, true, false, some, arith, ◌==◌, if◌then◌else◌}
use cmsis_cpp.Base.Int.{ℤ, pos}
use cmsis_cpp.Ticks.{timeout_ticks}
use cmsis_cpp.Rtos.{
  Action, ok, throw, pure, ◌>>◌, system_error, os_category, os_ok, os_error_parameter,
  os_error_resource,
}
use cmsis_cpp.Timer.{TimerApi, CmsisTimer, handler, start, stop, running}
use cmsis_cpp.Timer.Running.{IsTimer, handler_inactive, handler_active, stop-start, start_sub_tick}

abbrev sample_start : ℕ → ℕ → Bool → ℤ × Bool
sample_start m_id ticks b = if ticks == 0 then (os_error_parameter, b) else (os_ok, true)

abbrev sample_api : TimerApi Bool
sample_api = record {
  os_kernel_get_tick_freq = λ b. 1000;
  os_timer_new = λ type b. (1, false);
  os_timer_delete = λ m_id b. (os_ok, false);
  os_timer_start = sample_start;
  os_timer_stop = λ m_id b. (if b then os_ok else os_error_resource, false);
  os_timer_is_running = λ m_id b. if b then 1 else 0;
}

abbrev sample_timer : ℤ → Action Bool Bool → CmsisTimer Bool
sample_timer usec callback = record { m_callback = callback; m_id = 1; m_usec = usec }

-- Callbacks that return false, one after stopping the timer.
abbrev give_up : Action Bool Bool
give_up = pure false

abbrev stop_and_give_up : Action Bool Bool
stop_and_give_up b = (ok false, false)

stop_twice : (b : Bool) → b ≡ false → sample_api.os_timer_stop 1 b ≡ (os_error_resource, b)
stop_twice b h = ground arith

sample-IsTimer : IsTimer sample_api 1 (λ b. b)
sample-IsTimer = record {
  reads = λ b. refl;
  start_runs = λ ticks b h. ground arith;
  start_zero = λ b. refl;
  stop_active = λ b h. ground arith;
  stop_inactive = stop_twice;
}

handler_inactive_example :
    handler true sample_api (sample_timer (pos 9) give_up) false ≡ (ok tt, false)
handler_inactive_example =
    handler_inactive true sample_api (sample_timer (pos 9) give_up) (λ b. b) sample-IsTimer false
      refl

handler_active_example :
    ((handler true sample_api (sample_timer (pos 9) give_up) true).0 ≡ ok tt)
    × ((handler true sample_api (sample_timer (pos 9) give_up) true).1 ≡ false)
handler_active_example =
    handler_active true sample_api (sample_timer (pos 9) give_up) (λ b. b) sample-IsTimer false true
      true refl refl refl

stop-start_example :
    (((start true sample_api (some (sample_timer (pos 5000) give_up))
          >> running true sample_api (some (sample_timer (pos 5000) give_up)))
        false).0
      ≡ ok true)
    × (((start true sample_api (some (sample_timer (pos 5000) give_up))
            >> stop true sample_api (some (sample_timer (pos 5000) give_up))
            >> running true sample_api (some (sample_timer (pos 5000) give_up)))
          false).0
        ≡ ok false)
unfolding timeout_ticks
stop-start_example =
    stop-start true sample_api (sample_timer (pos 5000) give_up) (λ b. b) sample-IsTimer false
      (omega arith)

start_sub_tick_example :
    start true sample_api (some (sample_timer (pos 999) give_up)) false
    ≡ (throw (system_error os_error_parameter os_category), false)
unfolding timeout_ticks
start_sub_tick_example =
    start_sub_tick true sample_api (sample_timer (pos 999) give_up) (λ b. b) sample-IsTimer false
      refl

-- A periodic timer whose callback returns true once and then false, and counts its calls.
record Sample : Type 0 where
  runs : Bool
  calls : ℕ

abbrev sample_script : ℕ → Bool
sample_script n = n == 0

abbrev periodic_api : TimerApi Sample
periodic_api = record {
  os_kernel_get_tick_freq = λ s. 1000;
  os_timer_new = λ type s. (1, s);
  os_timer_delete = λ m_id s. (os_ok, record s { runs = false });
  os_timer_start = λ m_id ticks s.
      if ticks == 0 then (os_error_parameter, s) else (os_ok, record s { runs = true });
  os_timer_stop =
      λ m_id s. if s.runs then (os_ok, record s { runs = false }) else (os_error_resource, s);
  os_timer_is_running = λ m_id s. if s.runs then 1 else 0;
}

abbrev count_call : Action Sample Bool
count_call s = (ok (sample_script s.calls), record s { calls = s.calls + 1 })

abbrev sample_periodic : CmsisTimer Sample
sample_periodic = record { m_callback = count_call; m_id = 1; m_usec = pos 5000 }

periodic-IsTimer : IsTimer periodic_api 1 (λ s. s.runs)
periodic-IsTimer = record {
  reads = λ s. refl;
  start_runs = λ ticks s h. ground arith;
  start_zero = λ s. refl;
  stop_active = λ s h. ground arith;
  stop_inactive = λ s h. ground arith;
}

periodic-HasExpiry :
    HasExpiry periodic_api sample_periodic (λ s. s.runs) sample_script (λ s. s.calls) (λ s. s)
unfolding timeout_ticks
periodic-HasExpiry = record {
  expire_runs = λ s h. h;
  expire_called = λ s. refl;
  start_called = λ ticks s. ground arith;
  stop_called = λ s. ground arith;
  callback_answers = λ s. refl;
  callback_called = λ s. omega arith;
  callback_active = λ s. refl;
  tick_or_more = λ s. omega arith;
}

abbrev sample_calls : List Op
sample_calls = starts ∷ expires ∷ expires ∷ expires ∷ stops ∷ []

abbrev not_called : Sample
not_called = record { runs = false; calls = 0 }

abbrev sample_view : Sample → Machine
sample_view s = record { runs = s.runs; called = s.calls }

-- It expires three times; the second call stops it, and so the third expiry has no effect.
timer_history-refines_example :
    let (as', s) =
      history periodic_api sample_periodic (λ s. s.runs) (λ s. s) sample_calls not_called in
    let (bs, m) = spec_run sample_script sample_calls (sample_view not_called) in
    (as' ≡ bs) × (sample_view s ≡ m)
timer_history-refines_example =
    timer_history-refines periodic_api sample_periodic (λ s. s.runs) sample_script (λ s. s.calls)
      (λ s. s) periodic-IsTimer periodic-HasExpiry sample_calls not_called

spec_run_calls :
    spec_run sample_script sample_calls (sample_view not_called)
    ≡ (done ∷ done ∷ done ∷ quiet ∷ refused ∷ [], record { runs = false; called = 2 })
unfolding spec_run
spec_run_calls = refl
