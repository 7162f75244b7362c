-- ===== src/MessageQueue/Pointers/Outcomes.antt =====
-- What the caller's variable holds after a timed `get` that received nothing.
use cmsis_cpp.Base.{ℕ, ◌≡◌, refl, Bool, some, List, [], arith}
use cmsis_cpp.Base.Int.{pos}
use cmsis_cpp.Ticks.{timeout_ticks}
use cmsis_cpp.Ticks.Durations.{Duration, implicit_usec}
use cmsis_cpp.Rtos.{Action, ok}
use cmsis_cpp.MessageQueue.{MessageQueueApi, MqStatus, empty, get_for}
use cmsis_cpp.MessageQueue.Contract.{IsQueue}
use cmsis_cpp.MessageQueue.Values.{get_value_for}
use cmsis_cpp.MessageQueue.Pointers.{receive_pointer, get_pointer_for}

-- A call that receives nothing leaves its buffer alone.
pub record KeepsBuffer {W Msg : Type 0} (api : MessageQueueApi W Msg) (m_id : ℕ)
    (items : W → List (ℕ × Msg)) : Type 0 where
  pub buffer_kept :
      (b : Msg) (timeout : ℕ) (w : W)
      → items w ≡ []
      → (api.os_message_queue_get m_id b timeout w).0.1 ≡ b

module _ {W : Type 0} (ex : Bool) (api : MessageQueueApi W ℕ) (m_id bound : ℕ)
    (items : W → List (ℕ × ℕ)) (queue : IsQueue api m_id bound items)
    (keeps : KeepsBuffer api m_id items) where
  -- On an empty queue a `get` with a duration under a tick returns `empty` without an exception. The
  -- queue of plain data then leaves the caller's variable as it was; the queue of pointers has set it
  -- to null, whatever it held.
  pub get_pointer_for-empty :
      (variable usec : ℕ) (d : Duration) (w : W)
      → implicit_usec d ≡ some (pos usec)
      → timeout_ticks (pos usec) (api.os_kernel_get_tick_freq w) ≡ 0
      → items w ≡ []
      → (by_value : Action W (MqStatus × ℕ)) × (by_pointer : Action W (MqStatus × ℕ))
        × (get_value_for ex api m_id variable d ≡ some by_value)
        × (get_pointer_for ex api m_id variable d ≡ some by_pointer)
        × ((by_value w).0 ≡ ok (empty, variable))
        × ((by_pointer w).0 ≡ ok (empty, 0))
  unfolding get_for get_value_for get_pointer_for receive_pointer
  get_pointer_for-empty variable usec d w c z h = (
    get_for ex api m_id variable (pos usec),
    receive_pointer ex api m_id (pos usec),
    rw c refl,
    rw c refl,
    ground (arith, queue.get_none variable w h, keeps.buffer_kept variable 0 w h),
    ground (arith, queue.get_none 0 w h, keeps.buffer_kept 0 0 w h),
  )
