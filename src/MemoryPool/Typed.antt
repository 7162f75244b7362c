-- ===== src/MemoryPool/Typed.antt =====
-- include/Memory.h: `memory_pool<T>`, which passes on the calls of `base_memory_pool` for blocks of the
-- size of T. What it does with objects is in MemoryPool.antt.
use cmsis_cpp.Base.{ℕ, Bool}
use cmsis_cpp.Rtos.{Action}
use cmsis_cpp.MemoryPool.{
  MemoryPoolApi, construct, move_construct, move_assign, allocate, deallocate, max_size, size,
}

-- memory_pool(memory_pool&& other): the new object, and `other` after it
pub move_pool : ℕ → ℕ × ℕ
unfolding move_construct
move_pool other = move_construct other

-- `ex` says whether exceptions are compiled in, `size_of` is sizeof(T).
module _ {W : Type 0} (ex : Bool) (api : MemoryPoolApi W) (size_of : ℕ) where
  pub construct_pool : ℕ → Action W ℕ
  unfolding construct
  construct_pool count = construct ex api count size_of

module _ {W : Type 0} (ex : Bool) (api : MemoryPoolApi W) where
  -- operator=(memory_pool&& other): this object and `other`; `same` says whether they are one.
  pub assign_pool : Bool → ℕ → ℕ → Action W (ℕ × ℕ)
  unfolding move_assign
  assign_pool same m_id other = move_assign ex api same m_id other

  pub allocate_typed : ℕ → ℕ → Action W ℕ
  unfolding allocate
  allocate_typed m_id n = allocate ex api m_id n

  -- allocate(), with the default argument
  pub allocate_one : ℕ → Action W ℕ
  unfolding allocate_typed
  allocate_one m_id = allocate_typed m_id 1

  -- deallocate(p, n), whatever `n` is
  pub deallocate_typed : ℕ → ℕ → ℕ → Action W (Unit {0})
  unfolding deallocate
  deallocate_typed m_id p n = deallocate ex api m_id p

  pub pool_max_size : ℕ → Action W ℕ
  unfolding max_size
  pool_max_size m_id = max_size ex api m_id

  pub pool_size : ℕ → Action W ℕ
  unfolding size
  pool_size m_id = size ex api m_id
