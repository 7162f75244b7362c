-- ===== src/MemoryPool/Pointers/Balance.antt =====
-- What each call does to the blocks in use, and to the runs of T's constructor and destructor.
use cmsis_cpp.Base.{
  ℕ, ◌≤◌, ◌<◌, ◌≡◌, ◌≢◌, refl, inl, inr, Bool, true, List, [], ◌∷◌, ◌++◌, arith, ◌∙◌, length,
  Bool-cases, le-cases, ap,
}
use cmsis_cpp.Base.Counts.{count-append}
use cmsis_cpp.Rtos.{Action, Result, Error, ok, throw, terminate}
use cmsis_cpp.MemoryPool.{
  MemoryPoolApi, allocate, deallocate, size, max_size, make_pointer, delete_object,
}
use cmsis_cpp.MemoryPool.Contract.{IsPool, contains, remove}
use cmsis_cpp.MemoryPool.Removal.{contains-remove, count-remove, count_contains, contains_count}
use cmsis_cpp.MemoryPool.Pointers.{
  Holder, Op, makes, drops, IsTracked, hold, make_if_room, perform, history, Balanced,
}

hold_block : (p : ℕ) (ps : List ℕ) → p ≢ 0 → hold (ok p) ps ≡ p ∷ ps
hold_block p ps n = ground arith

module _ {W : Type 0} (ex : Bool) (api : MemoryPoolApi W)
    (construct_object : ℕ → Action W (Unit {0})) (destroy_object : ℕ → W → W) (m_id bound : ℕ)
    (used begun destroyed : W → List ℕ) (pool : IsPool api m_id bound used)
    (capacity : (w : W) → api.os_memory_pool_get_capacity m_id w ≡ bound)
    (tracked : IsTracked api construct_object destroy_object m_id used begun destroyed) where
  makes_in_vain :
      (o : Holder W)
      → bound ≤ length (used o.world)
      → perform ex api construct_object destroy_object m_id makes o ≡ o
  unfolding make_if_room size max_size
  makes_in_vain o h = ground (arith, pool.count_used o.world, capacity o.world)

  makes_with_room :
      (o : Holder W)
      → length (used o.world) < bound
      → make_if_room ex api construct_object destroy_object m_id o.world
        ≡ make_pointer ex api construct_object destroy_object m_id o.world
  unfolding make_if_room size max_size
  makes_with_room o h = ground (arith, pool.count_used o.world, capacity o.world)

  module _ (o : Holder W) (h : length (used o.world) < bound) where
    abbrev p : ℕ
    p = (api.os_memory_pool_alloc m_id 0xFFFFFFFF o.world).0

    abbrev w : W
    w = (api.os_memory_pool_alloc m_id 0xFFFFFFFF o.world).1

    abbrev v : W
    v = (construct_object p w).1

    begun-construct : begun v ≡ begun o.world ++ p ∷ []
    begun-construct =
        tracked.construct_begun p w
        ∙ ap (λ xs. xs ++ p ∷ []) (tracked.alloc_begun 0xFFFFFFFF o.world)

    destroyed-construct : destroyed v ≡ destroyed o.world
    destroyed-construct =
        tracked.construct_destroyed p w ∙ tracked.alloc_destroyed 0xFFFFFFFF o.world

    used-construct : used v ≡ p ∷ used o.world
    used-construct = tracked.construct_used p w ∙ (pool.alloc_room 0xFFFFFFFF o.world h).2

    made :
        (construct_object p w).0 ≡ ok tt
        → make_pointer ex api construct_object destroy_object m_id o.world ≡ (ok p, v)
    unfolding make_pointer allocate
    made e = ground (arith, pool.alloc_room 0xFFFFFFFF o.world h)

    -- The world after the deleter has run on a block without an object.
    abbrev z : W
    z = (api.os_memory_pool_free m_id p (destroy_object p v)).1

    thrown :
        (x : Error)
        → (construct_object p w).0 ≡ throw x
        → make_pointer ex api construct_object destroy_object m_id o.world ≡ (throw x, z)
    unfolding make_pointer allocate delete_object deallocate
    thrown x e = ground (
      arith,
      pool.alloc_room 0xFFFFFFFF o.world h,
      used-construct,
      tracked.destroy_used p v,
      pool.free_used p (destroy_object p v),
    )

    made-Balanced :
        Balanced used begun destroyed o
        → Balanced used begun destroyed (record { world = v; held = p ∷ o.held })
    made-Balanced b = record {
      in_use = λ q. ground (arith, used-construct, b.in_use q);
      ended = λ q. ground (
        arith,
        begun-construct,
        destroyed-construct,
        b.ended q,
        count-append q (begun o.world) (p ∷ []),
      );
      no_null = ground (arith, pool.alloc_room 0xFFFFFFFF o.world h, b.no_null);
    }

    thrown-Balanced :
        Balanced used begun destroyed o
        → Balanced used begun destroyed (record { world = z; held = o.held })
    thrown-Balanced b = record {
      in_use = λ q. ground (
        arith,
        used-construct,
        tracked.destroy_used p v,
        pool.free_used p (destroy_object p v),
        b.in_use q,
      );
      ended = λ q. ground (
        arith,
        begun-construct,
        destroyed-construct,
        tracked.destroy_begun p v,
        tracked.destroy_destroyed p v,
        tracked.free_begun p (destroy_object p v),
        tracked.free_destroyed p (destroy_object p v),
        b.ended q,
        count-append q (begun o.world) (p ∷ []),
        count-append q (destroyed o.world) (p ∷ []),
      );
      no_null = b.no_null;
    }

    makes-Balanced :
        (r : Result (Unit {0}))
        → (construct_object p w).0 ≡ r
        → Balanced used begun destroyed o
        → Balanced used begun destroyed
            (perform ex api construct_object destroy_object m_id makes o)
    makes-Balanced (ok _) e b =
        rw
          (
            makes_with_room o h,
            made e,
            hold_block p o.held (pool.alloc_room 0xFFFFFFFF o.world h).0,
          )
          (made-Balanced b)
    makes-Balanced (throw x) e b = rw (makes_with_room o h, thrown x e) (thrown-Balanced b)
    makes-Balanced terminate e b = absurd (tracked.construct_ends p w e)

  used_contains :
      (p : ℕ) (o : Holder W)
      → contains p o.held ≡ true
      → Balanced used begun destroyed o
      → contains p (used o.world) ≡ true
  used_contains p o h b =
      count_contains p (used o.world) (omega (arith, b.in_use p, contains_count p o.held h))

  held-nonnull :
      (p : ℕ) (o : Holder W) → contains p o.held ≡ true → Balanced used begun destroyed o → p ≢ 0
  held-nonnull p o h b z = absurd (let n = b.no_null in let g = ap (λ q. contains q o.held) z in cc)

  drops-Balanced :
      (p : ℕ) (o : Holder W)
      → contains p o.held ≡ true
      → Balanced used begun destroyed o
      → Balanced used begun destroyed (record {
        world = (delete_object ex api construct_object destroy_object m_id p o.world).1;
        held = remove p o.held;
      })
  unfolding delete_object deallocate
  drops-Balanced p o h b =
      let there = used_contains p o h b in
      let there' : contains p (used (destroy_object p o.world)) ≡ true =
        rw (tracked.destroy_used p o.world) there in
      record {
        in_use = λ q. ground (
          arith,
          held-nonnull p o h b,
          tracked.destroy_used p o.world,
          pool.free_used p (destroy_object p o.world) there',
          count-remove q p (used o.world) there,
          count-remove q p o.held h,
          b.in_use q,
        );
        ended = λ q. ground (
          arith,
          held-nonnull p o h b,
          tracked.destroy_begun p o.world,
          tracked.destroy_destroyed p o.world,
          tracked.free_begun p (destroy_object p o.world),
          tracked.free_destroyed p (destroy_object p o.world),
          pool.free_used p (destroy_object p o.world) there',
          count-remove q p o.held h,
          count-append q (destroyed o.world) (p ∷ []),
          b.ended q,
        );
        no_null = contains-remove 0 p o.held b.no_null;
      }

  perform-Balanced :
      (op : Op) (o : Holder W)
      → Balanced used begun destroyed o
      → Balanced used begun destroyed (perform ex api construct_object destroy_object m_id op o)
  perform-Balanced makes o b = elim (le-cases bound (length (used o.world))) [
    | inl full ↦ rw (makes_in_vain o full) b
    | inr room ↦ makes-Balanced o room _ refl b
  ]
  perform-Balanced (drops p) o b = elim (Bool-cases (contains p o.held)) [
    | inl h ↦ rw h (drops-Balanced p o h b)
    | inr h ↦ rw h b
  ]

  -- Over any history of making smart pointers, whether T's constructor returns or throws, and of ends of
  -- them, from a state in which it holds: the blocks in use are those that live smart pointers hold, and
  -- none is null; and at each address a constructor has run, whether it threw or not, as often as a
  -- destructor, and once more for each smart pointer that holds the address.
  pub pointer_history-Balanced :
      (ops : List Op) (o : Holder W)
      → Balanced used begun destroyed o
      → Balanced used begun destroyed (history ex api construct_object destroy_object m_id ops o)
  unfolding history
  pointer_history-Balanced [] o b = b
  pointer_history-Balanced (op ∷ ops) o b =
      pointer_history-Balanced ops (perform ex api construct_object destroy_object m_id op o)
        (perform-Balanced op o b)
