-- ===== src/Thread/Lifetime.antt =====
-- From the constructor of a thread object to its destructor.
use cmsis_cpp.Base.{ℕ, ◌^◌, ◌≤◌, ◌<◌, ◌≡◌, ◌≢◌, ◌↔◌, Bool, true, false, some, arith, if◌then◌else◌}
use cmsis_cpp.Base.Int.{pos}
use cmsis_cpp.Rtos.{
  Action, ok, throw, terminate, os_ok, os_priority_none, invalid_argument, pure, ◌>>=◌,
}
use cmsis_cpp.Thread.{
  ThreadAttr, Thread, ThreadApi, Attributes, thread_attr, construct, destroy, join, joinable, id_le,
  id_ne, id_gt, id_ge, move_assign,
}

-- What CMSIS-RTOS2 documents of threads: a new one is alive under a handle that is not null, detaching
-- it leaves it alive, joining it waits for its end, and terminating it ends it.
pub record HasThreads {W : Type 0} (api : ThreadApi W) (alive : ℕ → W → Bool) : Type 0 where
  pub new_alive :
      (attr : ThreadAttr) (w : W)
      → ((api.os_thread_new attr w).0 ≢ 0)
        × (alive (api.os_thread_new attr w).0 (api.os_thread_new attr w).1 ≡ true)
  pub detach_alive :
      (m_id : ℕ) (w : W)
      → alive m_id w ≡ true
      → ((api.os_thread_detach m_id w).0 ≡ os_ok)
        × (alive m_id (api.os_thread_detach m_id w).1 ≡ true)
  pub join_ends :
      (m_id : ℕ) (w : W)
      → alive m_id w ≡ true
      → ((api.os_thread_join m_id w).0 ≡ os_ok) × (alive m_id (api.os_thread_join m_id w).1 ≡ false)
  pub terminate_ends : (m_id : ℕ) (w : W) → alive m_id (api.os_thread_terminate m_id w).1 ≡ false

-- One thread object after the other: the first is joined before the second is constructed.
abbrev pub join_and_construct :
    {W : Type 0} → Bool → ThreadApi W → Attributes → Attributes → Action W (Thread × Thread)
join_and_construct ex api attr attr' = do
  t ← construct ex api attr
  t' ← join ex api t
  u ← construct ex api attr'
  pure (t', u)

module _ {W : Type 0} (ex : Bool) (api : ThreadApi W) (alive : ℕ → W → Bool)
    (threads : HasThreads api alive) where
  -- A thread that is constructed and, from another thread, joined has ended, and its object can be destroyed;
  -- a second join is refused with invalid_argument.
  pub join_once :
      (attr : Attributes) (w : W)
      → ((v : W) → api.os_thread_get_id v ≢ 0)
      → ((v : W) → api.os_thread_get_id v ≢ (api.os_thread_new (thread_attr attr) w).0)
      → let m_id = (api.os_thread_new (thread_attr attr) w).0 in
        let (r, w') = (do t ← construct ex api attr; join ex api t) w in
        (t : Thread) × (r ≡ ok t)
        × (alive m_id w' ≡ false)
        × ((destroy ex api t w').0 ≡ ok tt)
        × (join ex api t w' ≡ ((if ex then throw invalid_argument else terminate), w'))
  unfolding construct join destroy joinable
  join_once attr w named other =
      let m_id = (api.os_thread_new (thread_attr attr) w).0 in
      let w₁ = (api.os_thread_new (thread_attr attr) w).1 in
      let a = threads.new_alive (thread_attr attr) w in
      let b = threads.join_ends m_id w₁ a.1 in
      let c = named w₁ in
      let d = other w₁ in
      (
        some (record { m_id = m_id; m_detached = true }),
        ground arith,
        ground arith,
        ground arith,
        ground arith,
      )

  -- Destroying a thread object that was neither joined nor detached, or moving into it, ends the program.
  pub destroy_joinable :
      (attr : Attributes) (other : Thread) (w : W)
      → ((do t ← construct ex api attr; destroy ex api t) w).0 ≡ terminate
        × (((do t ← construct ex api attr; move_assign ex api t other) w).0 ≡ terminate)
  unfolding construct destroy move_assign joinable
  destroy_joinable attr other w =
      let a = threads.new_alive (thread_attr attr) w in (ground arith, ground arith)

-- The priority handed to the RTOS is never osPriorityNone, and is the one asked for if that is not 0 and
-- below 2^31.
pub thread_attr_priority :
    (a : Attributes)
    → ((thread_attr a).priority ≢ os_priority_none)
      × ((a.priority ≢ 0) → a.priority < 2 ^ 31 → (thread_attr a).priority ≡ pos a.priority)
unfolding thread_attr
thread_attr_priority a = ground arith

-- The comparisons of thread ids are those of the handles as numbers.
pub id_order :
    (x y : ℕ)
    → ((id_ne x y ≡ true) ↔ (x ≢ y))
      × ((id_le x y ≡ true) ↔ (x ≤ y))
      × ((id_gt x y ≡ true) ↔ (y < x))
      × ((id_ge x y ≡ true) ↔ (y ≤ x))
unfolding id_ne id_le id_gt id_ge
id_order x y = ground arith
