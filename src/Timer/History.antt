-- ===== src/Timer/History.antt =====
-- A periodic timer over a history of starts, stops and expiries, against a small state machine.
use cmsis_cpp.Base.{
  ℕ, suc, ◌<◌, ◌≡◌, refl, Bool, true, false, List, [], ◌∷◌, some, arith, if◌then◌else◌, inl, inr,
  Bool-cases,
}
use cmsis_cpp.Ticks.{timeout_ticks}
use cmsis_cpp.Rtos.{Result, ok, throw, terminate}
use cmsis_cpp.Timer.{TimerApi, CmsisTimer, handler, start, stop}
use cmsis_cpp.Timer.Running.{IsTimer}

pub data Op : Type 0 where
  starts stops expires : Op

pub data Answer : Type 0 where
  done refused quiet : Answer

-- Is the timer running, and how often was its callback called?
pub record Machine : Type 0 where
  pub runs : Bool
  pub called : ℕ

-- `script n` is what the n-th call of the callback returns. A periodic timer that runs calls it when it
-- expires, and goes on as it says.
abbrev pub spec_expire : (ℕ → Bool) → Machine → Answer × Machine
spec_expire script s =
    if s.runs then (done, record { runs = script s.called; called = suc s.called }) else (quiet, s)

abbrev pub spec_step : (ℕ → Bool) → Op → Machine → Answer × Machine
spec_step script starts s = (done, record s { runs = true })
spec_step script stops s = if s.runs then (done, record s { runs = false }) else (refused, s)
spec_step script expires s = spec_expire script s

unfoldable pub spec_run : (ℕ → Bool) → List Op → Machine → List Answer × Machine
spec_run script [] s = ([], s)
spec_run script (op ∷ ops) s =
    let (a, s') = spec_step script op s in let (as', s'') = spec_run script ops s' in (a ∷ as', s'')

abbrev answer : Result (Unit {0}) → Answer
answer (ok _) = done
answer (throw e) = refused
answer terminate = refused

-- `expire` is what the RTOS does when the time of a periodic timer is over, before it calls the handler: the
-- timer runs on.
pub record HasExpiry {W : Type 0} (api : TimerApi W) (t : CmsisTimer W) (active : W → Bool)
    (script : ℕ → Bool) (called : W → ℕ) (expire : W → W) : Type 0 where
  pub expire_runs : (w : W) → active w ≡ true → active (expire w) ≡ true
  pub expire_called : (w : W) → called (expire w) ≡ called w
  pub start_called : (ticks : ℕ) (w : W) → called (api.os_timer_start t.m_id ticks w).1 ≡ called w
  pub stop_called : (w : W) → called (api.os_timer_stop t.m_id w).1 ≡ called w
  pub callback_answers : (w : W) → (t.m_callback w).0 ≡ ok (script (called w))
  pub callback_called : (w : W) → called (t.m_callback w).1 ≡ suc (called w)
  pub callback_active : (w : W) → active (t.m_callback w).1 ≡ active w
  pub tick_or_more : (w : W) → 0 < timeout_ticks t.m_usec (api.os_kernel_get_tick_freq w)

module _ {W : Type 0} (api : TimerApi W) (t : CmsisTimer W) (active : W → Bool)
    (expire : W → W) where
  -- The calls with exceptions compiled in, after which the client goes on. The RTOS calls the handler
  -- of a timer that expires, and a timer that does not run does not expire.
  abbrev pub expire_step : Bool → W → Answer × W
  expire_step true w = let (r, w') = handler true api t (expire w) in (answer r, w')
  expire_step false w = (quiet, w)

  abbrev pub perform : Op → W → Answer × W
  perform starts w = let (r, w') = start true api (some t) w in (answer r, w')
  perform stops w = let (r, w') = stop true api (some t) w in (answer r, w')
  perform expires w = expire_step (active w) w

  pub history : List Op → W → List Answer × W
  history [] w = ([], w)
  history (op ∷ ops) w =
      let (a, w') = perform op w in let (as', w'') = history ops w' in (a ∷ as', w'')

module _ {W : Type 0} (api : TimerApi W) (t : CmsisTimer W) (active : W → Bool) (script : ℕ → Bool)
    (called : W → ℕ) (expire : W → W) (is_timer : IsTimer api t.m_id active)
    (has_expiry : HasExpiry api t active script called expire) where
  abbrev view : W → Machine
  view w = record { runs = active w; called = called w }

  handler-refines :
      (w : W)
      → active w ≡ true
      → ((expire_step api t active expire true w).0 ≡ (spec_expire script (view w)).0)
        × (view (expire_step api t active expire true w).1 ≡ (spec_expire script (view w)).1)
  unfolding handler
  handler-refines w h =
      let e = expire w in
      let w₁ = (t.m_callback e).1 in
      ground (
        arith,
        is_timer.reads e,
        has_expiry.expire_runs w h,
        has_expiry.expire_called w,
        has_expiry.callback_answers e,
        has_expiry.callback_called e,
        has_expiry.callback_active e,
        is_timer.stop_active w₁,
        has_expiry.stop_called w₁,
      )

  perform-refines :
      (op : Op) (w : W)
      → ((perform api t active expire op w).0 ≡ (spec_step script op (view w)).0)
        × (view (perform api t active expire op w).1 ≡ (spec_step script op (view w)).1)
  unfolding start stop
  perform-refines starts w =
      let ticks = timeout_ticks t.m_usec (api.os_kernel_get_tick_freq w) in
      ground (
        arith,
        is_timer.start_runs ticks w (has_expiry.tick_or_more w),
        has_expiry.start_called ticks w,
      )
  perform-refines stops w = elim (Bool-cases (active w)) [
    | inl h ↦ ground (arith, is_timer.stop_active w h, has_expiry.stop_called w)
    | inr h ↦ ground (arith, is_timer.stop_inactive w h)
  ]
  perform-refines expires w = elim (Bool-cases (active w)) [
    | inl h ↦ ground (arith, handler-refines w h)
    | inr h ↦ ground arith
  ]

  -- Over any history of starts, stops and expiries of a periodic timer with a period of a tick or more,
  -- whose callback does not stop it, the calls answer as the machine does, and at the end the timer runs,
  -- and its callback was called, as the machine says: once at each expiry while it runs, after which its
  -- answer stops it or lets it run.
  pub timer_history-refines :
      (ops : List Op) (w : W)
      → ((history api t active expire ops w).0 ≡ (spec_run script ops (view w)).0)
        × (view (history api t active expire ops w).1 ≡ (spec_run script ops (view w)).1)
  unfolding history spec_run
  timer_history-refines [] w = (refl, refl)
  timer_history-refines (op ∷ ops) w =
      let s = perform-refines op w in
      let rest = timer_history-refines ops (perform api t active expire op w).1 in
      ground (arith, s, rest)
