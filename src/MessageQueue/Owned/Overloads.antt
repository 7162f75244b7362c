-- ===== src/MessageQueue/Owned/Overloads.antt =====
-- include/MessageQueue.h, what `message_queue<std::unique_ptr<T>>` has beside the calls of Owned.antt:
-- construction and moves, and the overloads that take a duration, which is handed on as
-- microseconds without a cast. A call that does not compile is `none`.
use cmsis_cpp.Base.{ℕ, Bool, Option}
use mathlib.Core.Option
use cmsis_cpp.Ticks.Durations.{Duration, implicit_usec}
use cmsis_cpp.Rtos.{Action}
use cmsis_cpp.MessageQueue.{
  MessageQueueApi, MqStatus, construct, move_construct, move_assign, swap, size, capacity,
}
use cmsis_cpp.MessageQueue.Owned.{Owner, put_owned_for, get_owned_for}

-- message_queue(message_queue&& t): the new object, and `t` after it
pub move_owned : ℕ → ℕ × ℕ
unfolding move_construct
move_owned t = move_construct t

-- swap(t): this object and `t`
pub swap_owned : ℕ → ℕ → ℕ × ℕ
unfolding swap
swap_owned this t = swap this t

-- operator=(message_queue&& t): this object and `t`; `same` says whether they are one.
pub assign_owned : Bool → ℕ → ℕ → ℕ × ℕ
unfolding move_assign
assign_owned same this t = move_assign same this t

-- `ex` says whether exceptions are compiled in, `size_of` is sizeof(pointer).
module _ {W : Type 0} (ex : Bool) (api : MessageQueueApi W ℕ) (size_of : ℕ) where
  pub construct_owned : ℕ → Action W ℕ
  unfolding construct
  construct_owned max_len = construct ex api max_len size_of

module _ {W : Type 0} (ex : Bool) (api : MessageQueueApi W ℕ) where
  pub owned_size : ℕ → Action W ℕ
  unfolding size
  owned_size m_id = size ex api m_id

  pub owned_capacity : ℕ → Action W ℕ
  unfolding capacity
  owned_capacity m_id = capacity ex api m_id

  module _ (delete_object : ℕ → W → W) where
    -- put(data, priority, wait_time)
    pub put_owned_within : ℕ → ℕ → Duration → Option (Action (Owner W) MqStatus)
    unfolding put_owned_for implicit_usec
    put_owned_within m_id priority wait_time =
        Option.map (put_owned_for ex api delete_object m_id priority) (implicit_usec wait_time)

    -- put(data, wait_time)
    pub put_owned_by : ℕ → Duration → Option (Action (Owner W) MqStatus)
    unfolding put_owned_within
    put_owned_by m_id wait_time = put_owned_within m_id 0 wait_time

    -- get(data, wait_time)
    pub get_owned_within : ℕ → Duration → Option (Action (Owner W) MqStatus)
    unfolding get_owned_for implicit_usec
    get_owned_within m_id wait_time =
        Option.map (get_owned_for ex api delete_object m_id) (implicit_usec wait_time)
