-- ===== src/MemoryPool/Objects.antt =====
-- Smart pointers to objects in a pool, and the assignment of pools.
use cmsis_cpp.Base.{ℕ, ◌<◌, ◌≡◌, Bool, List, [], ◌∷◌, ◌++◌, length, arith}
use cmsis_cpp.Rtos.{Action, Error, ok, throw, pure, ◌>>=◌, ◌>>◌}
use cmsis_cpp.MemoryPool.{MemoryPoolApi, allocate, deallocate, make_pointer, delete_object}
use cmsis_cpp.MemoryPool.Contract.{IsPool}

-- What T's constructor and destructor do to the pool, nothing, and to a log of destroyed addresses.
pub record IsObject {W : Type 0} (construct_object : ℕ → Action W (Unit {0}))
    (destroy_object : ℕ → W → W) (used destroyed : W → List ℕ) : Type 0 where
  pub construct_used : (p : ℕ) (w : W) → used (construct_object p w).1 ≡ used w
  pub construct_destroyed : (p : ℕ) (w : W) → destroyed (construct_object p w).1 ≡ destroyed w
  pub destroy_used : (p : ℕ) (w : W) → used (destroy_object p w) ≡ used w
  pub destroy_logged : (p : ℕ) (w : W) → destroyed (destroy_object p w) ≡ destroyed w ++ p ∷ []

module _ {W : Type 0} (ex : Bool) (api : MemoryPoolApi W)
    (construct_object : ℕ → Action W (Unit {0})) (destroy_object : ℕ → W → W) (m_id bound : ℕ)
    (used destroyed : W → List ℕ) (pool : IsPool api m_id bound used)
    (object : IsObject construct_object destroy_object used destroyed)
    (apart : (timeout : ℕ) (w : W)
      → destroyed (api.os_memory_pool_alloc m_id timeout w).1 ≡ destroyed w)
    (free_apart : (p : ℕ) (w : W)
      → destroyed (api.os_memory_pool_free m_id p w).1 ≡ destroyed w) where
  -- With a block to spare and a constructor that returns, making a pointer and dropping it destroys
  -- the object once and leaves in use what was in use before.
  pub delete_object-make_pointer :
      (w : W)
      → length (used w) < bound
      → ((p : ℕ) (v : W) → (construct_object p v).0 ≡ ok tt)
      → let (r, w') =
          (do
            p ← make_pointer ex api construct_object destroy_object m_id
            delete_object ex api construct_object destroy_object m_id p
            pure p)
            w in
        (p : ℕ) × (r ≡ ok p) × (destroyed w' ≡ destroyed w ++ p ∷ []) × (used w' ≡ used w)
  unfolding make_pointer delete_object allocate deallocate
  delete_object-make_pointer w h returns =
      let p = (api.os_memory_pool_alloc m_id 0xFFFFFFFF w).0 in
      let w' = (api.os_memory_pool_alloc m_id 0xFFFFFFFF w).1 in
      let w'' = (construct_object p w').1 in
      let a = pool.alloc_room 0xFFFFFFFF w h in
      let f = pool.free_used p (destroy_object p w'') in
      let b = apart 0xFFFFFFFF w in
      let c = free_apart p (destroy_object p w'') in
      let k = returns p w' in
      let o₁ = object.construct_used p w' in
      let o₂ = object.construct_destroyed p w' in
      let o₃ = object.destroy_used p w'' in
      let o₄ = object.destroy_logged p w'' in (p, ground arith, ground arith, ground arith)

  -- Where T's constructor throws, making a pointer throws the same and gives the block back, but not
  -- before it has run the destructor at the address where no object was ever constructed.
  pub make_pointer_throws :
      (w : W) (e : Error)
      → length (used w) < bound
      → ((p : ℕ) (v : W) → (construct_object p v).0 ≡ throw e)
      → let (r, w') = make_pointer ex api construct_object destroy_object m_id w in
        (r ≡ throw e)
        × (used w' ≡ used w)
        × (destroyed w' ≡ destroyed w ++ (api.os_memory_pool_alloc m_id 0xFFFFFFFF w).0 ∷ [])
  unfolding make_pointer delete_object allocate deallocate
  make_pointer_throws w e h throws =
      let p = (api.os_memory_pool_alloc m_id 0xFFFFFFFF w).0 in
      let w' = (api.os_memory_pool_alloc m_id 0xFFFFFFFF w).1 in
      let w'' = (construct_object p w').1 in
      let a = pool.alloc_room 0xFFFFFFFF w h in
      let f = pool.free_used p (destroy_object p w'') in
      let b = apart 0xFFFFFFFF w in
      let c = free_apart p (destroy_object p w'') in
      let k = throws p w' in
      let o₁ = object.construct_used p w' in
      let o₂ = object.construct_destroyed p w' in
      let o₃ = object.destroy_used p w'' in
      let o₄ = object.destroy_logged p w'' in (ground arith, ground arith, ground arith)
