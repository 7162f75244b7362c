-- ===== src/MemoryPool.antt =====
-- src/Memory.cpp and include/Memory.h: `base_memory_pool`, `memory_pool<T>` and its deleter.
-- A pool object is its only field, the handle `m_id`; a block is its address, 0 for null.
pub mod Contract
pub mod Blocks
pub mod Removal
pub mod History
pub mod Typed
pub mod Objects
pub mod Pointers
mod Examples
use cmsis_cpp.Base.{ℕ, Bool, not, ◌==◌, if◌then◌else◌}
use cmsis_cpp.Base.Int.{ℤ}
use cmsis_cpp.Rtos.{
  Action, ok, throw, terminate, pure, call, gets, fail, fail_if, in_noexcept, ◌>>=◌, ◌>>◌,
  expect_ok, system_error, bad_alloc, os_category, os_error, os_wait_forever,
}

pub record MemoryPoolApi (W : Type 0) : Type 0 where
  pub os_memory_pool_new : ℕ → ℕ → W → ℕ × W
  pub os_memory_pool_delete : ℕ → W → ℤ × W
  pub os_memory_pool_alloc : ℕ → ℕ → W → ℕ × W
  pub os_memory_pool_free : ℕ → ℕ → W → ℤ × W
  pub os_memory_pool_get_capacity : ℕ → W → ℕ
  pub os_memory_pool_get_count : ℕ → W → ℕ

-- base_memory_pool(base_memory_pool&& other): the new object, and `other` after it
pub move_construct : ℕ → ℕ × ℕ
move_construct other = (other, 0)

-- operator==(const memory_pool<T1>&, const memory_pool<T2>&), and operator!=
pub is_equal : ℕ → ℕ → Bool
is_equal lhs rhs = lhs == rhs

pub is_unequal : ℕ → ℕ → Bool
is_unequal lhs rhs = not (lhs == rhs)

-- `ex` says whether exceptions are compiled in.
module _ {W : Type 0} (ex : Bool) (api : MemoryPoolApi W) where
  open api use {
    os_memory_pool_new, os_memory_pool_delete, os_memory_pool_alloc, os_memory_pool_free,
    os_memory_pool_get_capacity, os_memory_pool_get_count,
  }

  -- `n` is sizeof(T)
  pub construct : ℕ → ℕ → Action W ℕ
  construct count n = do
    m_id ← call (os_memory_pool_new count n)
    fail_if ex (m_id == 0) (system_error os_error os_category)
    pure m_id

  delete_handle : ℕ → Action W (Unit {0})
  delete_handle m_id = do sta ← call (os_memory_pool_delete m_id); expect_ok ex sta

  -- ~base_memory_pool
  pub destroy : ℕ → Action W (Unit {0})
  unfolding delete_handle
  destroy m_id = if m_id == 0 then pure tt else delete_handle m_id

  -- operator=(base_memory_pool&& other): `same` says whether `other` is this object; the result is
  -- this object and `other` after it. Where it throws, both are as they were.
  pub move_assign : Bool → ℕ → ℕ → Action W (ℕ × ℕ)
  unfolding destroy
  move_assign same m_id other =
      if same then pure (m_id, other) else do destroy m_id; pure (other, 0)

  pub allocate : ℕ → ℕ → Action W ℕ
  allocate m_id n = if not (n == 1) then (if ex then fail ex bad_alloc else pure 0) else do
    p ← call (os_memory_pool_alloc m_id os_wait_forever)
    if ex then fail_if ex (p == 0) bad_alloc >> pure p else pure p

  pub deallocate : ℕ → ℕ → Action W (Unit {0})
  deallocate m_id p = do sta ← call (os_memory_pool_free m_id p); expect_ok ex sta

  pub max_size : ℕ → Action W ℕ
  max_size m_id = gets (os_memory_pool_get_capacity m_id)

  pub size : ℕ → Action W ℕ
  size m_id = gets (os_memory_pool_get_count m_id)

  -- `construct_object` runs T's constructor at an address, `destroy_object` its destructor.
  module _ (construct_object : ℕ → Action W (Unit {0})) (destroy_object : ℕ → W → W) where
    -- memory_pool_delete<T>::operator()
    pub delete_object : ℕ → ℕ → Action W (Unit {0})
    delete_object m_id p =
        if p == 0 then pure tt else call (λ w. (tt, destroy_object p w)) >> deallocate m_id p

    -- make_unique and make_shared: the smart pointer holds the block before T's constructor runs, so
    -- its deleter runs where that constructor throws. (A destructor's exception ends the program.)
    pub make_pointer : ℕ → Action W ℕ
    make_pointer m_id = do
      p ← allocate m_id 1
      λ w.
          let (r, w') = construct_object p w in
          let (u, w'') = in_noexcept (delete_object m_id p) w' in
          elim r [
            | ok _ ↦ (ok p, w')
            | throw e ↦ (elim u [ ok _ ↦ throw e | throw f ↦ throw f | terminate ↦ terminate ], w'')
            | terminate ↦ (terminate, w')
          ]
