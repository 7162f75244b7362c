-- ===== src/MessageQueue/Pointers.antt =====
-- include/MessageQueue.h: `message_queue<T*>`. A pointer is its address, 0 for null. Unlike the class for
-- plain data, `get` receives into a local null pointer and always assigns it to the caller's variable.
-- get(pointer& data) without a duration is left out: it does not compile.
pub mod Outcomes
use cmsis_cpp.Base.{ℕ, Bool, Option}
use cmsis_cpp.Base.Int.{ℤ}
use mathlib.Core.Option
use cmsis_cpp.Ticks.Durations.{Duration, implicit_usec}
use cmsis_cpp.Rtos.{Action, pure, ◌>>=◌}
use cmsis_cpp.MessageQueue.{
  MessageQueueApi, MqStatus, move_construct, move_assign, swap, size, capacity, is_empty, clear,
  construct, put, put_for, get, get_for,
}

-- message_queue(message_queue&& t): the new object, and `t` after it
pub move_pointers : ℕ → ℕ × ℕ
unfolding move_construct
move_pointers t = move_construct t

-- swap(t): this object and `t`
pub swap_pointers : ℕ → ℕ → ℕ × ℕ
unfolding swap
swap_pointers this t = swap this t

-- operator=(message_queue&& t): this object and `t`; `same` says whether they are one.
pub assign_pointers : Bool → ℕ → ℕ → ℕ × ℕ
unfolding move_assign
assign_pointers same this t = move_assign same this t

-- `ex` says whether exceptions are compiled in, `size_of` is sizeof(pointer).
module _ {W : Type 0} (ex : Bool) (api : MessageQueueApi W ℕ) (size_of : ℕ) where
  pub construct_pointers : ℕ → Action W ℕ
  unfolding construct
  construct_pointers max_len = construct ex api max_len size_of

module _ {W : Type 0} (ex : Bool) (api : MessageQueueApi W ℕ) where
  -- put(ptr), with the default priority
  pub put_pointer : ℕ → ℕ → Action W (Unit {0})
  unfolding put
  put_pointer m_id ptr = put ex api m_id ptr 0

  pub put_pointer_for : ℕ → ℕ → ℕ → Duration → Option (Action W MqStatus)
  unfolding implicit_usec
  put_pointer_for m_id ptr priority wait_time =
      Option.map (put_for ex api m_id ptr priority) (implicit_usec wait_time)

  pub put_pointer_by : ℕ → ℕ → Duration → Option (Action W MqStatus)
  unfolding put_pointer_for
  put_pointer_by m_id ptr wait_time = put_pointer_for m_id ptr 0 wait_time

  pub get_pointer : ℕ → Action W ℕ
  unfolding get
  get_pointer m_id = get ex api m_id 0

  -- get(data, wait_time): the status, and what `data` holds then. What it held before is not read.
  pub receive_pointer : ℕ → ℤ → Action W (MqStatus × ℕ)
  unfolding get_for
  receive_pointer m_id usec = do (ret, ptr) ← get_for ex api m_id 0 usec; pure (ret, ptr)

  pub get_pointer_for : ℕ → ℕ → Duration → Option (Action W (MqStatus × ℕ))
  unfolding implicit_usec receive_pointer
  get_pointer_for m_id variable wait_time =
      Option.map (receive_pointer m_id) (implicit_usec wait_time)

  pub pointers_size : ℕ → Action W ℕ
  unfolding size
  pointers_size m_id = size ex api m_id

  pub pointers_capacity : ℕ → Action W ℕ
  unfolding capacity
  pointers_capacity m_id = capacity ex api m_id

  pub pointers_empty : ℕ → Action W Bool
  unfolding is_empty
  pointers_empty m_id = is_empty ex api m_id

  pub clear_pointers : ℕ → Action W (Unit {0})
  unfolding clear
  clear_pointers m_id = clear ex api m_id
