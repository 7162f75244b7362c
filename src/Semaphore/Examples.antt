-- ===== src/Semaphore/Examples.antt =====
-- Instances of the semaphore's theorems: the sample semaphore with the limit 3.
use cmsis_cpp.Base.{[], ◌∷◌}
use cmsis_cpp.Semaphore.Counting.Refinement.{
  releases, tries, released, refused, acquired, history, spec_run, history-refines,
}
use cmsis_cpp.Base.{◌<◌, ℕ, suc, ◌≡◌, ◌⊎◌, true, false, arith, refl}
use cmsis_cpp.Base.Int.{ℤ, pos, negsuc}
use cmsis_cpp.Rtos.{ok, throw, system_error, os_category, os_error_resource}
use cmsis_cpp.Semaphore.{release, try_acquire, try_acquire_for_usec, try_acquire_until}
use cmsis_cpp.Semaphore.Contract.{sample_api, sample_count, sample-IsCounting}
use cmsis_cpp.Semaphore.Release.{release_adds, release_overflows, release_negative}
use cmsis_cpp.Semaphore.Acquire.{
  try_acquire-takes, try_acquire_for_usec-total, try_acquire_for_usec-try_acquire,
  try_acquire_until-takes, try_acquire_for_usec-usec_max,
}
use cmsis_cpp.Ticks.{timeout_ticks, usec_max}

release_adds_example :
    ((release true sample_api 1 (pos 2) 1).0 ≡ ok tt)
    × (sample_count (release true sample_api 1 (pos 2) 1).1 ≡ 3)
release_adds_example =
    release_adds true sample_api 1 3 sample_count sample-IsCounting 2 1 (omega arith)

release_overflows_example :
    ((release true sample_api 1 (pos 5) 1).0 ≡ throw (system_error os_error_resource os_category))
    × (sample_count (release true sample_api 1 (pos 5) 1).1 ≡ 3)
release_overflows_example =
    release_overflows true sample_api 1 3 sample_count sample-IsCounting 5 1 (omega arith)

release_negative_example :
    ((release true sample_api 1 (negsuc 0) 1).0
      ≡ throw (system_error os_error_resource os_category))
    × (sample_count (release true sample_api 1 (negsuc 0) 1).1 ≡ 3)
release_negative_example =
    release_negative true sample_api 1 3 sample_count sample-IsCounting 0 1 (omega arith)
      (omega arith)

try_acquire-takes_example :
    ((0 < 2)
      × ((try_acquire true sample_api 1 2).0 ≡ ok true)
      × (suc (sample_count (try_acquire true sample_api 1 2).1) ≡ 2))
    ⊎ ((◌≡◌ {A = ℕ} 2 0)
        × ((try_acquire true sample_api 1 2).0 ≡ ok false)
        × (sample_count (try_acquire true sample_api 1 2).1 ≡ 0))
try_acquire-takes_example = try_acquire-takes true sample_api 1 3 sample_count sample-IsCounting 2

try_acquire_for_usec-total_example :
    ((try_acquire_for_usec true sample_api 1 (pos 5000) 0).0 ≡ ok true)
    ⊎ ((try_acquire_for_usec true sample_api 1 (pos 5000) 0).0 ≡ ok false)
try_acquire_for_usec-total_example =
    try_acquire_for_usec-total true sample_api 1 3 sample_count sample-IsCounting 5000 0

try_acquire_for_usec-try_acquire_example :
    try_acquire_for_usec true sample_api 1 (pos 999) 2 ≡ try_acquire true sample_api 1 2
unfolding timeout_ticks
try_acquire_for_usec-try_acquire_example =
    try_acquire_for_usec-try_acquire true sample_api 1 3 sample_count sample-IsCounting 999 2 refl

-- A clock that stands at 10 microseconds.
abbrev sample_now : ℕ → ℤ × ℕ
sample_now n = (pos 10, n)

try_acquire_until-takes_example :
    ((try_acquire_until true sample_api sample_now 1 (pos 15) 2).0 ≡ ok true)
    × (suc (sample_count (try_acquire_until true sample_api sample_now 1 (pos 15) 2).1) ≡ 2)
try_acquire_until-takes_example =
    try_acquire_until-takes true sample_api 1 3 sample_count sample-IsCounting sample_now (pos 15) 2
      (omega arith) (omega arith)

try_acquire_for_usec-usec_max_example :
    ((try_acquire_for_usec true sample_api 1 usec_max 0).0 ≡ ok false)
    × (sample_count (try_acquire_for_usec true sample_api 1 usec_max 0).1 ≡ 0)
try_acquire_for_usec-usec_max_example =
    try_acquire_for_usec-usec_max true sample_api 1 3 sample_count sample-IsCounting 500 0
      (omega arith) (omega arith) refl refl

-- Three attempts, the last of them in vain, and two releases, the second of them refused.
history-refines_example :
    ((history sample_api 1 (tries ∷ tries ∷ tries ∷ releases 2 ∷ releases 2 ∷ []) 2).0
      ≡ (spec_run 3 (tries ∷ tries ∷ tries ∷ releases 2 ∷ releases 2 ∷ []) 2).0)
    × (sample_count
          (history sample_api 1 (tries ∷ tries ∷ tries ∷ releases 2 ∷ releases 2 ∷ []) 2).1
        ≡ (spec_run 3 (tries ∷ tries ∷ tries ∷ releases 2 ∷ releases 2 ∷ []) 2).1)
history-refines_example =
    history-refines sample_api 1 3 sample_count sample-IsCounting
      (tries ∷ tries ∷ tries ∷ releases 2 ∷ releases 2 ∷ []) 2

-- What the counter answers to them.
spec_run_five :
    spec_run 3 (tries ∷ tries ∷ tries ∷ releases 2 ∷ releases 2 ∷ []) 2
    ≡ (acquired true ∷ acquired true ∷ acquired false ∷ released ∷ refused ∷ [], 3)
unfolding spec_run
spec_run_five = refl
