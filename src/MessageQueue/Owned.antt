-- ===== src/MessageQueue/Owned.antt =====
-- include/MessageQueue.h, `message_queue<std::unique_ptr<T>>`: the queue holds addresses, 0 for null.
-- The state carries the caller's `unique_ptr` variable beside the state of the RTOS.
pub mod Clearing
pub mod Overloads
pub mod Conservation
mod Examples
use cmsis_cpp.Base.{ℕ, zero, suc, Bool, true, false, ◌==◌, if◌then◌else◌}
use cmsis_cpp.Base.Int.{ℤ}
use cmsis_cpp.Rtos.{Action, pure, call, ◌>>=◌, ◌>>◌}
use cmsis_cpp.MessageQueue.{MessageQueueApi, MqStatus, put, put_for, get, get_for, is_empty, clear}

pub record Owner (W : Type 0) : Type 0 where
  pub world : W
  pub owned : ℕ

-- A call that leaves the caller's variable alone.
abbrev pub within : {W A : Type 0} → Action W A → Action (Owner W) A
within m o = let (r, w) = m o.world in (r, record o { world = w })

-- `data.release()`
abbrev pub release_pointer : {W : Type 0} → Action (Owner W) ℕ
release_pointer = call λ o. (o.owned, record o { owned = 0 })

-- `delete_object` is ~T and the deallocation of one object: `delete` of a null pointer does nothing.
abbrev pub delete_pointer : {W : Type 0} → (ℕ → W → W) → ℕ → W → W
delete_pointer delete_object p w = if p == 0 then w else delete_object p w

-- `data.reset(ptr)`
abbrev pub reset_pointer : {W : Type 0} → (ℕ → W → W) → ℕ → Action (Owner W) (Unit {0})
reset_pointer delete_object p =
    call λ o. (tt, record { world = delete_pointer delete_object o.owned o.world; owned = p })

module _ {W : Type 0} (ex : Bool) (api : MessageQueueApi W ℕ) (delete_object : ℕ → W → W) where
  pub put_owned : ℕ → ℕ → Action (Owner W) (Unit {0})
  put_owned m_id priority = do ptr ← release_pointer; within (put ex api m_id ptr priority)

  pub put_owned_for : ℕ → ℕ → ℤ → Action (Owner W) MqStatus
  put_owned_for m_id priority wait_time = do
    ptr ← release_pointer
    within (put_for ex api m_id ptr priority wait_time)

  -- `get();`: the temporary unique_ptr is destroyed at once.
  pub get_discarded : ℕ → Action W (Unit {0})
  get_discarded m_id = do
    ptr ← get ex api m_id 0
    call λ w. (tt, delete_pointer delete_object ptr w)

  -- `data = get();`, where the assignment resets the variable. (The overload get(data) does not compile.)
  pub get_owned : ℕ → Action (Owner W) (Unit {0})
  get_owned m_id = do ptr ← within (get ex api m_id 0); reset_pointer delete_object ptr

  pub get_owned_for : ℕ → ℤ → Action (Owner W) MqStatus
  get_owned_for m_id wait_time = do
    (ret, ptr) ← within (get_for ex api m_id 0 wait_time)
    reset_pointer delete_object ptr
    pure ret

  -- `while (!empty()) get();` The result is false where the fuel runs out.
  pub drain : ℕ → ℕ → Action W Bool
  drain zero m_id = pure false
  drain (suc fuel) m_id =
      let rest = get_discarded m_id >> drain fuel m_id in
      do e ← is_empty ex api m_id; if e then pure true else rest

  pub clear_owned : ℕ → ℕ → Action W Bool
  clear_owned fuel m_id = do
    done ← drain fuel m_id
    if done then clear ex api m_id >> pure true else pure false
