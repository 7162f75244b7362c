-- ===== src/Timer/Running.antt =====
-- Starting, stopping, and what happens when a timer expires.
use cmsis_cpp.Base.{ℕ, ◌<◌, ◌≡◌, Bool, true, false, some, arith, if◌then◌else◌}
use cmsis_cpp.Ticks.{timeout_ticks}
use cmsis_cpp.Rtos.{
  ok, throw, terminate, ◌>>◌, system_error, os_category, os_ok, os_error_parameter,
  os_error_resource,
}
use cmsis_cpp.Timer.{TimerApi, CmsisTimer, handler, start, stop, running}

-- What CMSIS-RTOS2 documents of one live timer.
pub record IsTimer {W : Type 0} (api : TimerApi W) (m_id : ℕ) (active : W → Bool) : Type 0 where
  pub reads : (w : W) → api.os_timer_is_running m_id w ≡ (if active w then 1 else 0)
  pub start_runs :
      (ticks : ℕ) (w : W)
      → 0 < ticks
      → ((api.os_timer_start m_id ticks w).0 ≡ os_ok)
        × (active (api.os_timer_start m_id ticks w).1 ≡ true)
  pub start_zero : (w : W) → api.os_timer_start m_id 0 w ≡ (os_error_parameter, w)
  pub stop_active :
      (w : W)
      → active w ≡ true
      → ((api.os_timer_stop m_id w).0 ≡ os_ok) × (active (api.os_timer_stop m_id w).1 ≡ false)
  pub stop_inactive : (w : W) → active w ≡ false → api.os_timer_stop m_id w ≡ (os_error_resource, w)

module _ {W : Type 0} (ex : Bool) (api : TimerApi W) (t : CmsisTimer W) (active : W → Bool)
    (is_timer : IsTimer api t.m_id active) where
  -- A timer that the RTOS does not report as running when it expires never has its callback called:
  -- its handler returns and changes nothing.
  pub handler_inactive : (w : W) → active w ≡ false → handler ex api t w ≡ (ok tt, w)
  unfolding handler
  handler_inactive w h = ground (arith, is_timer.reads w)

  -- A running timer whose callback returns false, and has not stopped it, is stopped; one whose callback
  -- returns true is left as the callback leaves it.
  pub handler_active :
      (again : Bool) (w w' : W)
      → active w ≡ true
      → t.m_callback w ≡ (ok again, w')
      → active w' ≡ true
      → ((handler ex api t w).0 ≡ ok tt) × (active (handler ex api t w).1 ≡ again)
  unfolding handler
  handler_active again w w' h c h' = ground (arith, is_timer.reads w, is_timer.stop_active w' h')

  -- Where the callback stops the timer itself and then returns false, the handler fails with
  -- osErrorResource, into the RTOS that called it.
  pub handler_stopped_within :
      (w w' : W)
      → active w ≡ true
      → t.m_callback w ≡ (ok false, w')
      → active w' ≡ false
      → handler ex api t w
        ≡ ((if ex then throw (system_error os_error_resource os_category) else terminate), w')
  unfolding handler
  handler_stopped_within w w' h c h' =
      ground (arith, is_timer.reads w, is_timer.stop_inactive w' h')

  -- A timer with a period of a tick or more runs after `start`, and does not after `start` and `stop`;
  -- none of the calls fails.
  pub stop-start :
      (w : W)
      → 0 < timeout_ticks t.m_usec (api.os_kernel_get_tick_freq w)
      → (((start ex api (some t) >> running ex api (some t)) w).0 ≡ ok true)
        × (((start ex api (some t) >> stop ex api (some t) >> running ex api (some t)) w).0
            ≡ ok false)
  unfolding start stop running
  stop-start w h =
      let w₁ =
        (api.os_timer_start t.m_id (timeout_ticks t.m_usec (api.os_kernel_get_tick_freq w)) w).1 in
      let w₂ = (api.os_timer_stop t.m_id w₁).1 in
      ground (
        arith,
        is_timer.start_runs (timeout_ticks t.m_usec (api.os_kernel_get_tick_freq w)) w h,
        is_timer.reads w₁,
        is_timer.stop_active w₁,
        is_timer.reads w₂,
      )

  -- On a timer with a period of less than a tick `start` fails with osErrorParameter and changes nothing,
  -- where the RTOS refuses a start with 0 ticks so.
  pub start_sub_tick :
      (w : W)
      → timeout_ticks t.m_usec (api.os_kernel_get_tick_freq w) ≡ 0
      → start ex api (some t) w
        ≡ ((if ex then throw (system_error os_error_parameter os_category) else terminate), w)
  unfolding start
  start_sub_tick w h = ground (arith, is_timer.start_zero w)
