-- ===== src/MemoryPool/Pointers/Examples.antt =====
-- An instance of a history of smart pointers: a pool with the handle 1 and the two blocks 8 and 16, and
-- objects whose constructor throws at 16, in a system where nothing else runs.
use cmsis_cpp.Base.{
  ℕ, ◌<◌, ◌≡◌, refl, true, false, List, [], ◌∷◌, ◌++◌, arith, length, ltb, ◌==◌, if◌then◌else◌,
}
use cmsis_cpp.Base.Int.{ℤ}
use cmsis_cpp.Rtos.{Action, ok, throw, bad_alloc, os_ok, os_error_parameter}
use cmsis_cpp.MemoryPool.{MemoryPoolApi}
use cmsis_cpp.MemoryPool.Contract.{IsPool, contains, remove}
use cmsis_cpp.MemoryPool.Pointers.{Holder, Op, makes, drops, IsTracked, Balanced, history}
use cmsis_cpp.MemoryPool.Pointers.Balance.{pointer_history-Balanced}

record Sample : Type 0 where
  used : List ℕ
  begun : List ℕ
  destroyed : List ℕ

abbrev free_block : List ℕ → ℕ
free_block ps = if contains 8 ps then 16 else 8

abbrev sample_alloc : ℕ → ℕ → Sample → ℕ × Sample
sample_alloc m_id time s =
    if ltb (length s.used) 2
    then (free_block s.used, record s { used = free_block s.used ∷ s.used })
    else (0, s)

abbrev sample_free : ℕ → ℕ → Sample → ℤ × Sample
sample_free m_id p s =
    if contains p s.used
    then (os_ok, record s { used = remove p s.used })
    else (os_error_parameter, s)

abbrev sample_api : MemoryPoolApi Sample
sample_api = record {
  os_memory_pool_new = λ count n s. (1, s);
  os_memory_pool_delete = λ m_id s. (os_ok, s);
  os_memory_pool_alloc = sample_alloc;
  os_memory_pool_free = sample_free;
  os_memory_pool_get_capacity = λ m_id s. 2;
  os_memory_pool_get_count = λ m_id s. length s.used;
}

abbrev sample_used : Sample → List ℕ
sample_used s = s.used

abbrev sample_begun : Sample → List ℕ
sample_begun s = s.begun

abbrev sample_destroyed : Sample → List ℕ
sample_destroyed s = s.destroyed

abbrev sample_construct : ℕ → Action Sample (Unit {0})
sample_construct p s =
    (if p == 16 then throw bad_alloc else ok tt, record s { begun = s.begun ++ p ∷ [] })

abbrev sample_destroy : ℕ → Sample → Sample
sample_destroy p s = record s { destroyed = s.destroyed ++ p ∷ [] }

free_block-fresh : (ps : List ℕ) → length ps < 2 → contains (free_block ps) ps ≡ false
free_block-fresh [] h = refl
free_block-fresh (p ∷ []) h = ground arith
free_block-fresh (p ∷ q ∷ ps) h = absurd (omega arith)

sample-IsPool : IsPool sample_api 1 2 sample_used
sample-IsPool = record {
  alloc_room = λ time s h. ground (arith, free_block-fresh s.used h);
  free_used = λ p s h. ground arith;
  count_used = λ s. refl;
}

sample-IsTracked :
    IsTracked sample_api sample_construct sample_destroy 1 sample_used sample_begun sample_destroyed
sample-IsTracked = record {
  construct_ends = λ p s e. ground arith;
  construct_used = λ p s. refl;
  construct_begun = λ p s. refl;
  construct_destroyed = λ p s. refl;
  destroy_used = λ p s. refl;
  destroy_begun = λ p s. refl;
  destroy_destroyed = λ p s. refl;
  alloc_begun = λ time s. ground arith;
  alloc_destroyed = λ time s. ground arith;
  free_begun = λ p s. ground arith;
  free_destroyed = λ p s. ground arith;
}

abbrev untouched : Holder Sample
untouched = record { world = record { used = []; begun = []; destroyed = [] }; held = [] }

untouched-Balanced : Balanced sample_used sample_begun sample_destroyed untouched
untouched-Balanced = record { in_use = λ p. refl; ended = λ p. refl; no_null = refl }

-- An object at 8, one at 16 whose constructor throws, the end of the first, and one at 8 again.
abbrev sample_calls : List Op
sample_calls = makes ∷ makes ∷ drops 8 ∷ makes ∷ drops 24 ∷ []

pointer_history-Balanced_example :
    Balanced sample_used sample_begun sample_destroyed
      (history true sample_api sample_construct sample_destroy 1 sample_calls untouched)
pointer_history-Balanced_example =
    pointer_history-Balanced true sample_api sample_construct sample_destroy 1 2 sample_used
      sample_begun sample_destroyed sample-IsPool (λ s. refl) sample-IsTracked sample_calls
      untouched untouched-Balanced
