-- ===== src/MessageQueue/Values.antt =====
-- include/MessageQueue.h: `message_queue<T>` for plain data. A value is copied in and out of the
-- caller's variable; what an uninitialised variable holds is a parameter. A duration is handed on as
-- microseconds without a cast; a call that does not compile is `none`.
use cmsis_cpp.Base.{ℕ, Bool, Option}
use mathlib.Core.Option
use cmsis_cpp.Ticks.Durations.{Duration, implicit_usec}
use cmsis_cpp.Rtos.{Action}
use cmsis_cpp.MessageQueue.{
  MessageQueueApi, MqStatus, construct, move_construct, move_assign, swap, put, put_for, get,
  get_for, size, capacity, clear,
}

-- swap(__x, __y), with the method it calls
pub swap_queues : ℕ → ℕ → ℕ × ℕ
unfolding swap
swap_queues x y = swap x y

-- message_queue(message_queue&& t): the new object, and `t` after it
pub move_values : ℕ → ℕ × ℕ
unfolding move_construct
move_values t = move_construct t

-- operator=(message_queue&& t): this object and `t`; `same` says whether they are one.
pub assign_values : Bool → ℕ → ℕ → ℕ × ℕ
unfolding move_assign
assign_values same this t = move_assign same this t

-- `ex` says whether exceptions are compiled in, `size_of` is sizeof(T).
module _ {W Msg : Type 0} (ex : Bool) (api : MessageQueueApi W Msg) (size_of : ℕ) where
  pub construct_values : ℕ → Action W ℕ
  unfolding construct
  construct_values max_len = construct ex api max_len size_of

module _ {W Msg : Type 0} (ex : Bool) (api : MessageQueueApi W Msg) where
  -- put(data), with the default priority
  pub put_value : ℕ → Msg → Action W (Unit {0})
  unfolding put
  put_value m_id value = put ex api m_id value 0

  pub put_value_for : ℕ → Msg → ℕ → Duration → Option (Action W MqStatus)
  unfolding implicit_usec
  put_value_for m_id value priority wait_time =
      Option.map (put_for ex api m_id value priority) (implicit_usec wait_time)

  -- put(data, wait_time)
  pub put_value_by : ℕ → Msg → Duration → Option (Action W MqStatus)
  unfolding put_value_for
  put_value_by m_id value wait_time = put_value_for m_id value 0 wait_time

  -- get(), where `uninitialised` is what the local variable holds at first
  pub get_value : Msg → ℕ → Action W Msg
  unfolding get
  get_value uninitialised m_id = get ex api m_id uninitialised

  -- get(data): the result is what `data` holds then.
  pub get_value_into : ℕ → Msg → Action W Msg
  unfolding get
  get_value_into m_id value = get ex api m_id value

  unfoldable pub get_value_for : ℕ → Msg → Duration → Option (Action W (MqStatus × Msg))
  unfolding implicit_usec
  get_value_for m_id value wait_time =
      Option.map (get_for ex api m_id value) (implicit_usec wait_time)

  pub values_size : ℕ → Action W ℕ
  unfolding size
  values_size m_id = size ex api m_id

  pub values_capacity : ℕ → Action W ℕ
  unfolding capacity
  values_capacity m_id = capacity ex api m_id

  pub clear_values : ℕ → Action W (Unit {0})
  unfolding clear
  clear_values m_id = clear ex api m_id
