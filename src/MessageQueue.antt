-- ===== src/MessageQueue.antt =====
-- src/MessageQueue.cpp and include/MessageQueue.h: `message_queue_impl`, which moves messages of any
-- type in and out of a buffer; the three classes over it are in the modules Values, Pointers and Owned.
-- A queue object is its only field, the handle `m_id`.
pub mod Contract
pub mod Owned
pub mod Transfer
pub mod Order
pub mod Priority
pub mod Refinement
pub mod Values
pub mod Pointers
mod Examples
use cmsis_cpp.Base.{ℕ, Bool, true, false, not, ◌&&◌, ◌==◌, if◌then◌else◌}
use cmsis_cpp.Base.Int.{ℤ, ◌==ℤ◌, is_negative}
use cmsis_cpp.Ticks.{timeout_ticks}
use cmsis_cpp.Rtos.{
  Action, pure, call, gets, fail_if, ◌>>=◌, ◌>>◌, expect_ok, system_error, os_category, os_ok,
  os_error, os_error_parameter, os_error_resource, os_error_timeout, os_wait_forever,
}

pub data MqStatus : Type 0 where
  no_timeout timeout full empty : MqStatus

-- `os_message_queue_get` takes what the buffer holds, and returns the status with what it holds then.
pub record MessageQueueApi (W Msg : Type 0) : Type 0 where
  pub os_kernel_get_tick_freq : W → ℕ
  pub os_message_queue_new : ℕ → ℕ → W → ℕ × W
  pub os_message_queue_delete : ℕ → W → ℤ × W
  pub os_message_queue_put : ℕ → Msg → ℕ → ℕ → W → ℤ × W
  pub os_message_queue_get : ℕ → Msg → ℕ → W → (ℤ × Msg) × W
  pub os_message_queue_get_count : ℕ → W → ℕ
  pub os_message_queue_get_capacity : ℕ → W → ℕ
  pub os_message_queue_reset : ℕ → W → ℤ × W

-- message_queue_impl(message_queue_impl&& t): the new object, and `t` after it
pub move_construct : ℕ → ℕ × ℕ
move_construct t = (t, 0)

-- swap(t): this object and `t`
pub swap : ℕ → ℕ → ℕ × ℕ
swap this t = (t, this)

-- operator=(message_queue_impl&& t): `same` says whether `t` is this object
pub move_assign : Bool → ℕ → ℕ → ℕ × ℕ
unfolding swap
move_assign same this t = if not same then swap this t else (this, t)

-- `ex` says whether exceptions are compiled in.
module _ {W Msg : Type 0} (ex : Bool) (api : MessageQueueApi W Msg) where
  open api use {
    os_kernel_get_tick_freq, os_message_queue_new, os_message_queue_delete, os_message_queue_put,
    os_message_queue_get, os_message_queue_get_count, os_message_queue_get_capacity,
    os_message_queue_reset,
  }

  pub construct : ℕ → ℕ → Action W ℕ
  construct max_len ele_len = do
    m_id ← call (os_message_queue_new max_len ele_len)
    fail_if ex (m_id == 0) (system_error os_error os_category)
    pure m_id

  -- ~message_queue_impl
  pub destroy : ℕ → Action W (Unit {0})
  destroy m_id = do sta ← call (os_message_queue_delete m_id); expect_ok ex sta

  pub put : ℕ → Msg → ℕ → Action W (Unit {0})
  put m_id msg priority = do
    sta ← call (os_message_queue_put m_id msg priority os_wait_forever)
    expect_ok ex sta

  -- put(data, priority, usec)
  pub put_for : ℕ → Msg → ℕ → ℤ → Action W MqStatus
  put_for m_id msg priority usec = do
    fail_if ex (is_negative usec) (system_error os_error_parameter os_category)
    freq ← gets os_kernel_get_tick_freq
    let time = timeout_ticks usec freq
    sta ← call (os_message_queue_put m_id msg priority time)
    if time == 0 && sta ==ℤ os_error_resource then pure full else do
      fail_if ex (not (sta ==ℤ os_ok) && not (sta ==ℤ os_error_timeout))
          (system_error sta os_category)
      pure (if sta ==ℤ os_ok then no_timeout else timeout)

  -- The buffer comes back as the call leaves it.
  pub get : ℕ → Msg → Action W Msg
  get m_id buffer = do
    (sta, msg) ← call (os_message_queue_get m_id buffer os_wait_forever)
    expect_ok ex sta
    pure msg

  -- get(data, usec)
  pub get_for : ℕ → Msg → ℤ → Action W (MqStatus × Msg)
  get_for m_id buffer usec = do
    fail_if ex (is_negative usec) (system_error os_error_parameter os_category)
    freq ← gets os_kernel_get_tick_freq
    let time = timeout_ticks usec freq
    (sta, msg) ← call (os_message_queue_get m_id buffer time)
    if time == 0 && sta ==ℤ os_error_resource then pure (empty, msg) else do
      fail_if ex (not (sta ==ℤ os_ok) && not (sta ==ℤ os_error_timeout))
          (system_error sta os_category)
      pure (if sta ==ℤ os_ok then no_timeout else timeout, msg)

  pub size : ℕ → Action W ℕ
  size m_id = gets (os_message_queue_get_count m_id)

  pub capacity : ℕ → Action W ℕ
  capacity m_id = gets (os_message_queue_get_capacity m_id)

  -- message_queue<T>::empty
  pub is_empty : ℕ → Action W Bool
  is_empty m_id = do n ← size m_id; pure (n == 0)

  pub clear : ℕ → Action W (Unit {0})
  clear m_id = do sta ← call (os_message_queue_reset m_id); expect_ok ex sta
