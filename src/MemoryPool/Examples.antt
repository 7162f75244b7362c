-- ===== src/MemoryPool/Examples.antt =====
-- Instances of the memory pool's theorems: a pool with the handle 1 and the two blocks 8 and 16, in a
-- system where nothing else runs.
use cmsis_cpp.MemoryPool.{size, max_size}
use cmsis_cpp.MemoryPool.History.{
  Op, AllOwed, asks, gives, block, used_up, freed, refused, Run, allocate_if_room, history,
  pool_history-runs,
}
use cmsis_cpp.Base.{
  ℕ, ◌<◌, ◌≡◌, ◌≢◌, refl, true, false, List, [], ◌∷◌, ◌++◌, arith, length, ltb, if◌then◌else◌,
}
use cmsis_cpp.Base.Int.{ℤ}
use cmsis_cpp.Rtos.{Action, ok, throw, pure, ◌>>=◌, ◌>>◌, bad_alloc, os_ok, os_error_parameter}
use cmsis_cpp.MemoryPool.{MemoryPoolApi, allocate, deallocate}
use cmsis_cpp.MemoryPool.Contract.{IsPool, contains, remove}
use cmsis_cpp.MemoryPool.Blocks.{
  Distinct, reverse_onto, allocate_many, deallocate-allocate, allocate_many-Distinct,
}
use cmsis_cpp.MemoryPool.Objects.{IsObject}

record Sample : Type 0 where
  used : List ℕ
  destroyed : List ℕ

abbrev free_block : List ℕ → ℕ
free_block ps = if contains 8 ps then 16 else 8

abbrev sample_alloc : ℕ → ℕ → Sample → ℕ × Sample
sample_alloc m_id time s =
    if ltb (length s.used) 2
    then (free_block s.used, record s { used = free_block s.used ∷ s.used })
    else (0, s)

abbrev sample_free : ℕ → ℕ → Sample → ℤ × Sample
sample_free m_id p s =
    if contains p s.used
    then (os_ok, record s { used = remove p s.used })
    else (os_error_parameter, s)

abbrev sample_api : MemoryPoolApi Sample
sample_api = record {
  os_memory_pool_new = λ count n s. (1, s);
  os_memory_pool_delete = λ m_id s. (os_ok, s);
  os_memory_pool_alloc = sample_alloc;
  os_memory_pool_free = sample_free;
  os_memory_pool_get_capacity = λ m_id s. 2;
  os_memory_pool_get_count = λ m_id s. length s.used;
}

abbrev sample_used : Sample → List ℕ
sample_used s = s.used

abbrev sample_destroyed : Sample → List ℕ
sample_destroyed s = s.destroyed

abbrev make_sample : ℕ → Action Sample (Unit {0})
make_sample p = pure tt

abbrev throw_sample : ℕ → Action Sample (Unit {0})
throw_sample p s = (throw bad_alloc, s)

abbrev destroy_sample : ℕ → Sample → Sample
destroy_sample p s = record s { destroyed = s.destroyed ++ p ∷ [] }

free_block-fresh : (ps : List ℕ) → length ps < 2 → contains (free_block ps) ps ≡ false
free_block-fresh [] h = refl
free_block-fresh (p ∷ []) h = ground arith
free_block-fresh (p ∷ q ∷ ps) h = absurd (omega arith)

sample-IsPool : IsPool sample_api 1 2 sample_used
sample-IsPool = record {
  alloc_room = λ time s h. ground (arith, free_block-fresh s.used h);
  free_used = λ p s h. ground arith;
  count_used = λ s. refl;
}

make_sample-IsObject : IsObject make_sample destroy_sample sample_used sample_destroyed
make_sample-IsObject = record {
  construct_used = λ p s. refl;
  construct_destroyed = λ p s. refl;
  destroy_used = λ p s. refl;
  destroy_logged = λ p s. refl;
}

throw_sample-IsObject : IsObject throw_sample destroy_sample sample_used sample_destroyed
throw_sample-IsObject = record {
  construct_used = λ p s. refl;
  construct_destroyed = λ p s. refl;
  destroy_used = λ p s. refl;
  destroy_logged = λ p s. refl;
}

sample_alloc-destroyed :
    (time : ℕ) (s : Sample) → sample_destroyed (sample_alloc 1 time s).1 ≡ sample_destroyed s
sample_alloc-destroyed time s = ground arith

sample_free-destroyed :
    (p : ℕ) (s : Sample) → sample_destroyed (sample_free 1 p s).1 ≡ sample_destroyed s
sample_free-destroyed p s = ground arith

abbrev one_used : Sample
one_used = record { used = 8 ∷ []; destroyed = [] }

deallocate-allocate_example :
    let (r, w') =
      (do p ← allocate true sample_api 1 1; deallocate true sample_api 1 p; pure p) one_used in
    (p : ℕ) × (r ≡ ok p) × (p ≢ 0) × (contains p (8 ∷ []) ≡ false) × (w'.used ≡ 8 ∷ [])
deallocate-allocate_example =
    deallocate-allocate true sample_api 1 2 sample_used sample-IsPool one_used (omega arith)

allocate_many-Distinct_example :
    let (r, w') = allocate_many true sample_api 1 1 one_used in
    (ps : List ℕ) × (r ≡ ok ps)
    × (length ps ≡ 1)
    × (w'.used ≡ reverse_onto ps (8 ∷ []))
    × Distinct w'.used
allocate_many-Distinct_example =
    allocate_many-Distinct true sample_api 1 2 sample_used sample-IsPool 1 one_used (refl, tt)
      (omega arith)

-- Two blocks, a third in vain, the first given back, and a request for two at once.
abbrev sample_calls : List Op
sample_calls = asks 1 ∷ asks 1 ∷ asks 1 ∷ gives 8 ∷ asks 2 ∷ []

abbrev untouched : Sample
untouched = record { used = []; destroyed = [] }

sample_calls-AllOwed : AllOwed sample_api 1 sample_used sample_calls untouched
unfolding allocate_if_room size max_size allocate deallocate
sample_calls-AllOwed = (tt, (tt, (tt, (refl, (tt, tt)))))

pool_history-runs_example :
    Run 2 sample_calls
      (history sample_api 1 sample_calls untouched).0
      []
      (sample_used (history sample_api 1 sample_calls untouched).1)
pool_history-runs_example =
    pool_history-runs sample_api 1 2 sample_used sample-IsPool (λ s. refl) sample_calls untouched
      sample_calls-AllOwed

history_calls :
    (history sample_api 1 sample_calls untouched).0
    ≡ block 8 ∷ block 16 ∷ used_up ∷ freed ∷ refused ∷ []
unfolding history allocate_if_room size max_size allocate deallocate
history_calls = refl
