-- ===== src/MemoryPool/Blocks.antt =====
-- Blocks taken from a pool and given back.
use cmsis_cpp.Base.{
  ℕ, zero, suc, refl, ap, sym, ◌∙◌, ◌+◌, ◌≤◌, ◌<◌, ◌≡◌, ◌≢◌, Bool, false, List, [], ◌∷◌, length,
  arith,
}
use mathlib.Core.Path.{subst}
use cmsis_cpp.Rtos.{Action, Result, ok, pure, ◌>>=◌, ◌>>◌}
use cmsis_cpp.MemoryPool.{MemoryPoolApi, allocate, deallocate}
use cmsis_cpp.MemoryPool.Contract.{IsPool, contains}

-- No block is handed out twice.
abbrev pub Distinct : List ℕ → Type 0
Distinct [] = Unit {0}
Distinct (p ∷ ps) = (contains p ps ≡ false) × Distinct ps

-- The list `ps`, last first, on top of another.
abbrev pub reverse_onto : List ℕ → List ℕ → List ℕ
reverse_onto [] qs = qs
reverse_onto (p ∷ ps) qs = reverse_onto ps (p ∷ qs)

module _ {W : Type 0} (ex : Bool) (api : MemoryPoolApi W) (m_id : ℕ) where
  -- A client that allocates so many single blocks.
  pub allocate_many : ℕ → Action W (List ℕ)
  allocate_many zero = pure []
  allocate_many (suc n) = do p ← allocate ex api m_id 1; ps ← allocate_many n; pure (p ∷ ps)

module _ {W : Type 0} (ex : Bool) (api : MemoryPoolApi W) (m_id bound : ℕ) (used : W → List ℕ)
    (pool : IsPool api m_id bound used) where
  -- With a block to spare, `allocate(1)` returns a block that is not null and was not in use, and
  -- giving it back returns normally and leaves in use what was in use before.
  pub deallocate-allocate :
      (w : W)
      → length (used w) < bound
      → let (r, w') = (do p ← allocate ex api m_id 1; deallocate ex api m_id p; pure p) w in
        (p : ℕ) × (r ≡ ok p) × (p ≢ 0) × (contains p (used w) ≡ false) × (used w' ≡ used w)
  unfolding allocate deallocate
  deallocate-allocate w h =
      let p = (api.os_memory_pool_alloc m_id 0xFFFFFFFF w).0 in
      let w' = (api.os_memory_pool_alloc m_id 0xFFFFFFFF w).1 in
      let a = pool.alloc_room 0xFFFFFFFF w h in
      let f = pool.free_used p w' in (p, ground (arith, a, f), a.0, a.1, ground (arith, a, f))

  allocate-takes :
      (w : W)
      → length (used w) < bound
      → (p : ℕ) × ((allocate ex api m_id 1 w).0 ≡ ok p)
        × (p ≢ 0)
        × (contains p (used w) ≡ false)
        × (used (allocate ex api m_id 1 w).1 ≡ p ∷ used w)
  unfolding allocate
  allocate-takes w h =
      let p = (api.os_memory_pool_alloc m_id 0xFFFFFFFF w).0 in
      let a = pool.alloc_room 0xFFFFFFFF w h in (p, ground (arith, a), a.0, a.1, ground (arith, a))

  allocate_many_step :
      (n p : ℕ) (ps : List ℕ) (w : W)
      → (allocate ex api m_id 1 w).0 ≡ ok p
      → (allocate_many ex api m_id n (allocate ex api m_id 1 w).1).0 ≡ ok ps
      → allocate_many ex api m_id (suc n) w
        ≡ (ok (p ∷ ps), (allocate_many ex api m_id n (allocate ex api m_id 1 w).1).1)
  unfolding allocate_many
  allocate_many_step n p ps w e e' = ground arith

  -- From a pool whose blocks in use are distinct, `n` single blocks are allocated as long as the pool
  -- has room for them: the blocks in use are then those `n` and those before, and still distinct.
  pub allocate_many-Distinct :
      (n : ℕ) (w : W)
      → Distinct (used w)
      → length (used w) + n ≤ bound
      → let (r, w') = allocate_many ex api m_id n w in
        (ps : List ℕ) × (r ≡ ok ps)
        × (length ps ≡ n)
        × (used w' ≡ reverse_onto ps (used w))
        × Distinct (used w')
  unfolding allocate_many
  allocate_many-Distinct zero w d h = ([], refl, refl, refl, d)
  allocate_many-Distinct (suc n) w d h =
      let (p, e, _, fresh, u) = allocate-takes w (omega arith) in
      let w' = (allocate ex api m_id 1 w).1 in
      let (ps, e', l, u', d') =
        allocate_many-Distinct n w' (rw u (fresh, d)) (rw u (omega arith)) in
      let step = allocate_many_step n p ps w e e' in
      (
        p ∷ ps,
        ap (λ (s : Result (List ℕ) × W). s.0) step,
        ap suc l,
        ap (λ (s : Result (List ℕ) × W). used s.1) step ∙ u' ∙ ap (reverse_onto ps) u,
        subst (λ (s : Result (List ℕ) × W). Distinct (used s.1)) (sym step) d',
      )
