-- ===== src/Thread.antt =====
-- src/Thread.cpp and include/Thread.h: `thread_impl` and `thread`. What runs in the calling thread is in
-- Thread/ThisThread.antt, the routine made of a callable in Thread/Callable.antt.
pub mod ThisThread
pub mod Ownership
pub mod Owners
pub mod Lifetime
pub mod Callable
pub mod Handles
mod Examples
use cmsis_cpp.Base.{
  ℕ, ◌-◌, ◌%◌, ◌^◌, Bool, true, false, not, ltb, ◌&&◌, ◌==◌, Option, none, some, if◌then◌else◌,
}
use cmsis_cpp.Base.Int.{ℤ, pos, negsuc, ◌==ℤ◌}
use cmsis_cpp.Ticks.{to_u32}
use cmsis_cpp.Rtos.{
  Action, pure, call, gets, fail, fail_if, terminates, in_noexcept, ◌>>=◌, ◌>>◌, expect_ok,
  system_error, invalid_argument, resource_deadlock_would_occur, os_category, os_error,
  os_error_resource, os_priority_none, os_priority_normal, os_priority_error, os_thread_error,
  os_thread_blocked, os_thread_joinable,
}

-- thread::attributes; pointers are addresses, 0 for null
pub record Attributes : Type 0 where
  pub stack_mem : ℕ
  pub stack_size : ℕ
  pub priority : ℕ
  pub name : ℕ

-- The fields of osThreadAttr_t that the constructor sets to other than NULL and 0.
pub record ThreadAttr : Type 0 where
  pub attr_bits : ℕ
  pub name : ℕ
  pub stack_mem : ℕ
  pub stack_size : ℕ
  pub priority : ℤ

pub record ThreadApi (W : Type 0) : Type 0 where
  pub os_thread_new : ThreadAttr → W → ℕ × W
  pub os_thread_terminate : ℕ → W → ℤ × W
  pub os_thread_join : ℕ → W → ℤ × W
  pub os_thread_detach : ℕ → W → ℤ × W
  pub os_thread_suspend : ℕ → W → ℤ × W
  pub os_thread_resume : ℕ → W → ℤ × W
  pub os_thread_set_priority : ℕ → ℤ → W → ℤ × W
  pub os_thread_get_priority : ℕ → W → ℤ
  pub os_thread_get_name : ℕ → W → ℕ
  pub os_thread_get_state : ℕ → W → ℤ
  pub os_thread_get_stack_size : ℕ → W → ℕ
  pub os_thread_get_stack_space : ℕ → W → ℕ
  pub os_thread_exit : W → Unit {0} × W
  pub os_thread_get_id : W → ℕ

pub record ThreadImpl : Type 0 where
  pub m_id : ℕ
  pub m_detached : Bool

-- m_pThread
abbrev pub Thread : Type 0
Thread = Option ThreadImpl

-- static_cast<osPriority_t> of a size_t of 32 bits, to an enumeration whose values are those of an int32_t
abbrev pub to_priority : ℕ → ℤ
to_priority n = let k = n % 2 ^ 32 in if ltb k (2 ^ 31) then pos k else negsuc (2 ^ 32 - 1 - k)

pub thread_attr : Attributes → ThreadAttr
thread_attr attr = record {
  attr_bits = os_thread_joinable;
  name = attr.name;
  stack_mem = attr.stack_mem;
  stack_size = attr.stack_size;
  priority =
      if to_priority attr.priority ==ℤ os_priority_none
      then os_priority_normal
      else to_priority attr.priority;
}

-- thread()
pub empty_thread : Thread
empty_thread = none

-- thread::joinable
pub joinable : Thread → Bool
joinable none = false
joinable (some t) = not t.m_detached

-- thread::get_id; 0 is the id of no thread
pub get_id : Thread → ℕ
get_id none = 0
get_id (some t) = t.m_id

-- thread::swap
pub swap : Thread → Thread → Thread × Thread
swap this t = (t, this)

-- thread(thread&& t): the new object, and `t` after it
pub move_construct : Thread → Thread × Thread
move_construct t = (t, none)

pub hardware_concurrency : ℕ
hardware_concurrency = 255

-- The comparisons of thread::id
abbrev pub id_eq : ℕ → ℕ → Bool
id_eq x y = x == y

abbrev pub id_lt : ℕ → ℕ → Bool
id_lt x y = ltb x y

pub id_ne : ℕ → ℕ → Bool
id_ne x y = not (id_eq x y)

pub id_le : ℕ → ℕ → Bool
id_le x y = not (id_lt y x)

pub id_gt : ℕ → ℕ → Bool
id_gt x y = id_lt y x

pub id_ge : ℕ → ℕ → Bool
id_ge x y = not (id_lt x y)

-- `ex` says whether exceptions are compiled in.
module _ {W : Type 0} (ex : Bool) (api : ThreadApi W) where
  open api use {
    os_thread_new, os_thread_terminate, os_thread_join, os_thread_detach, os_thread_suspend,
    os_thread_resume, os_thread_set_priority, os_thread_get_priority, os_thread_get_name,
    os_thread_get_state, os_thread_get_stack_size, os_thread_get_stack_space, os_thread_exit,
    os_thread_get_id,
  }

  -- thread_impl(attr, targetfunc)
  pub construct : Attributes → Action W Thread
  unfolding thread_attr
  construct attr = do
    m_id ← call (os_thread_new (thread_attr attr))
    fail_if ex (m_id == 0) (system_error os_error os_category)
    pure (some (record { m_id = m_id; m_detached = false }))

  -- runnableMethodStatic, for the function of the thread. (The forced unwinding of a cancelled thread is
  -- not an exception of the model.)
  pub runnable : Action W (Unit {0}) → Action W (Unit {0})
  runnable function = in_noexcept function >> call os_thread_exit

  -- ~thread_impl does not look at the status.
  destroy_impl : ThreadImpl → Action W (Unit {0})
  destroy_impl t = do sta ← call (os_thread_terminate t.m_id); pure tt

  reset : Thread → Action W (Unit {0})
  unfolding destroy_impl
  reset none = pure tt
  reset (some t) = destroy_impl t

  -- ~thread
  pub destroy : Thread → Action W (Unit {0})
  unfolding joinable reset
  destroy t = if joinable t then terminates else reset t

  -- operator=(thread&& t): this object and `t` after it
  pub move_assign : Thread → Thread → Action W (Thread × Thread)
  unfolding joinable swap
  move_assign this t = if joinable this then terminates else pure (swap this t)

  -- this_thread::get_id
  pub current_id : Action W ℕ
  current_id = do
    tid ← gets os_thread_get_id
    fail_if ex (ex && tid == 0) (system_error os_error_resource os_category)
    pure tid

  -- thread_impl::join and thread_impl::detach, after which the object counts as detached
  join_impl : ThreadImpl → Action W Thread
  join_impl t = do
    sta ← call (os_thread_join t.m_id)
    expect_ok ex sta
    pure (some (record t { m_detached = true }))

  detach_impl : ThreadImpl → Action W Thread
  detach_impl t = do
    sta ← call (os_thread_detach t.m_id)
    expect_ok ex sta
    pure (some (record t { m_detached = true }))

  -- The result is the object afterwards; where it throws, the object is as it was.
  pub join : Thread → Action W Thread
  unfolding join_impl current_id
  join none = fail ex invalid_argument
  join (some t) = if t.m_detached then fail ex invalid_argument else do
    self ← current_id
    fail_if ex (id_eq t.m_id self) resource_deadlock_would_occur
    join_impl t

  pub detach : Thread → Action W Thread
  unfolding detach_impl
  detach none = fail ex invalid_argument
  detach (some t) = if t.m_detached then fail ex invalid_argument else detach_impl t

  pub suspend : Thread → Action W (Unit {0})
  unfolding get_id
  suspend t = do sta ← call (os_thread_suspend (get_id t)); expect_ok ex sta

  pub resume : Thread → Action W (Unit {0})
  unfolding get_id
  resume t = do sta ← call (os_thread_resume (get_id t)); expect_ok ex sta

  pub set_priority : Thread → ℕ → Action W (Unit {0})
  unfolding get_id
  set_priority t prio = do
    sta ← call (os_thread_set_priority (get_id t) (to_priority prio))
    expect_ok ex sta

  -- An osPriority_t as a size_t
  pub get_priority : Thread → Action W ℕ
  unfolding get_id to_u32
  get_priority t = do
    prio ← gets (os_thread_get_priority (get_id t))
    fail_if ex (prio ==ℤ os_priority_error) (system_error os_error os_category)
    pure (to_u32 prio)

  pub name : Thread → Action W ℕ
  unfolding get_id
  name t = gets (os_thread_get_name (get_id t))

  pub is_blocked : Thread → Action W Bool
  unfolding get_id
  is_blocked t = do
    state ← gets (os_thread_get_state (get_id t))
    fail_if ex (state ==ℤ os_thread_error) (system_error os_error os_category)
    pure (state ==ℤ os_thread_blocked)

  pub stack_size : Thread → Action W ℕ
  unfolding get_id
  stack_size t = gets (os_thread_get_stack_size (get_id t))

  pub stack_space : Thread → Action W ℕ
  unfolding get_id
  stack_space t = gets (os_thread_get_stack_space (get_id t))
