-- ===== src/MemoryPool/History.antt =====
-- A pool over a history of calls, against the set of its blocks in use.
use cmsis_cpp.Base.{
  ℕ, ◌≤◌, ◌<◌, ◌≡◌, ◌≢◌, inl, inr, true, false, List, [], ◌∷◌, arith, length, ltb, if◌then◌else◌,
  le-cases, eq-cases, ap,
}
use cmsis_cpp.Rtos.{Action, Result, ok, throw, terminate, pure, ◌>>=◌}
use cmsis_cpp.MemoryPool.{MemoryPoolApi, allocate, deallocate, size, max_size}
use cmsis_cpp.MemoryPool.Contract.{IsPool, contains, remove}
use cmsis_cpp.MemoryPool.Removal.{contains-remove, length-remove}
use cmsis_cpp.MemoryPool.Blocks.{Distinct}

-- `asks n` is allocate(n) where size() is less than max_size(), `gives p` is deallocate(p).
pub data Op : Type 0 where
  asks gives : ℕ → Op

pub data Answer : Type 0 where
  block : ℕ → Answer
  used_up freed refused : Answer

-- A run of the abstract pool, which chooses a block not in use: the calls and their answers, and the
-- blocks in use before and after.
pub data Run (bound : ℕ) : List Op → List Answer → List ℕ → List ℕ → Type 0 where
  stops : {xs : List ℕ} → Run bound [] [] xs xs
  takes :
      {ops : List Op} {n : ℕ} {a : Answer} {as' : List Answer} {xs xs' ys : List ℕ} (p : ℕ)
      → length xs < bound
      → n ≡ 1
      → p ≢ 0
      → contains p xs ≡ false
      → a ≡ block p
      → xs' ≡ p ∷ xs
      → Run bound ops as' xs' ys
      → Run bound (asks n ∷ ops) (a ∷ as') xs ys
  lacks :
      {ops : List Op} {n : ℕ} {a : Answer} {as' : List Answer} {xs xs' ys : List ℕ}
      → bound ≤ length xs
      → a ≡ used_up
      → xs' ≡ xs
      → Run bound ops as' xs' ys
      → Run bound (asks n ∷ ops) (a ∷ as') xs ys
  rejects :
      {ops : List Op} {n : ℕ} {a : Answer} {as' : List Answer} {xs xs' ys : List ℕ}
      → length xs < bound
      → n ≢ 1
      → a ≡ refused
      → xs' ≡ xs
      → Run bound ops as' xs' ys
      → Run bound (asks n ∷ ops) (a ∷ as') xs ys
  frees :
      {ops : List Op} {p : ℕ} {a : Answer} {as' : List Answer} {xs xs' ys : List ℕ}
      → contains p xs ≡ true
      → a ≡ freed
      → xs' ≡ remove p xs
      → Run bound ops as' xs' ys
      → Run bound (gives p ∷ ops) (a ∷ as') xs ys

-- What the caller sees of a call's result. A failure is one whether it throws or ends the program.
abbrev ask_answer : Result ℕ → Answer
ask_answer (ok p) = if ltb 0 p then block p else used_up
ask_answer (throw e) = refused
ask_answer terminate = refused

abbrev give_answer : Result (Unit {0}) → Answer
give_answer (ok _) = freed
give_answer (throw e) = refused
give_answer terminate = refused

module _ {W : Type 0} (api : MemoryPoolApi W) (m_id : ℕ) where
  -- A client that asks for a block only where the pool has one, and takes null otherwise.
  unfoldable pub allocate_if_room : ℕ → Action W ℕ
  allocate_if_room n = do
    count ← size true api m_id
    capacity ← max_size true api m_id
    if ltb count capacity then allocate true api m_id n else pure 0

  -- The calls with exceptions compiled in, after which the client goes on.
  abbrev pub perform : Op → W → Answer × W
  perform (asks n) w = let (r, w') = allocate_if_room n w in (ask_answer r, w')
  perform (gives p) w = let (r, w') = deallocate true api m_id p w in (give_answer r, w')

  unfoldable pub history : List Op → W → List Answer × W
  history [] w = ([], w)
  history (op ∷ ops) w =
      let (a, w') = perform op w in let (as', w'') = history ops w' in (a ∷ as', w'')

  -- What the client owes the pool: it gives back only blocks in use. CMSIS-RTOS2 does not say what becomes
  -- of another.
  abbrev pub IsOwed : (W → List ℕ) → Op → W → Type 0
  IsOwed used (asks n) w = Unit {0}
  IsOwed used (gives p) w = contains p (used w) ≡ true

  abbrev pub AllOwed : (W → List ℕ) → List Op → W → Type 0
  AllOwed used [] w = Unit {0}
  AllOwed used (op ∷ ops) w = IsOwed used op w × AllOwed used ops (perform op w).1

-- No block is in use twice, none is null, and there are no more than the pool has.
abbrev pub Live : ℕ → List ℕ → Type 0
Live bound xs = Distinct xs × (contains 0 xs ≡ false) × (length xs ≤ bound)

remove-Distinct : (p : ℕ) (xs : List ℕ) → Distinct xs → Distinct (remove p xs)
remove-Distinct p [] d = d
remove-Distinct p (x ∷ xs) d = ground (arith, remove-Distinct p xs d.1, contains-remove x p xs d.0)

pub Run-Live :
    {bound : ℕ} {ops : List Op} {as' : List Answer} {xs ys : List ℕ}
    → Run bound ops as' xs ys
    → Live bound xs
    → Live bound ys
Run-Live stops l = l
Run-Live (takes {xs = xs} p room one n fresh a u rest) l =
    Run-Live rest (rw u ((fresh, l.0), ground arith, omega arith))
Run-Live (lacks room a u rest) l = Run-Live rest (rw u l)
Run-Live (rejects room n a u rest) l = Run-Live rest (rw u l)
Run-Live (frees {p = p} {xs = xs} h a u rest) l =
    Run-Live rest (
      rw u
        (remove-Distinct p xs l.0, contains-remove 0 p xs l.1, omega (arith, length-remove p xs)))

module _ {W : Type 0} (api : MemoryPoolApi W) (m_id bound : ℕ) (used : W → List ℕ)
    (pool : IsPool api m_id bound used)
    (capacity : (w : W) → api.os_memory_pool_get_capacity m_id w ≡ bound) where
  ask_one :
      (n : ℕ) (w : W)
      → length (used w) < bound
      → n ≡ 1
      → let p = (api.os_memory_pool_alloc m_id 0xFFFFFFFF w).0 in
        ((perform api m_id (asks n) w).0 ≡ block p)
        × (used (perform api m_id (asks n) w).1 ≡ p ∷ used w)
  unfolding allocate_if_room size max_size allocate
  ask_one n w h one = ground (arith, pool.count_used w, capacity w, pool.alloc_room 0xFFFFFFFF w h)

  ask_in_vain :
      (n : ℕ) (w : W) → bound ≤ length (used w) → perform api m_id (asks n) w ≡ (used_up, w)
  unfolding allocate_if_room size max_size
  ask_in_vain n w h = ground (arith, pool.count_used w, capacity w)

  ask_other :
      (n : ℕ) (w : W) → length (used w) < bound → n ≢ 1 → perform api m_id (asks n) w ≡ (refused, w)
  unfolding allocate_if_room size max_size allocate
  ask_other n w h d = ground (arith, pool.count_used w, capacity w)

  give_used :
      (p : ℕ) (w : W)
      → contains p (used w) ≡ true
      → ((perform api m_id (gives p) w).0 ≡ freed)
        × (used (perform api m_id (gives p) w).1 ≡ remove p (used w))
  unfolding deallocate
  give_used p w h = ground (arith, pool.free_used p w h)

  perform-runs :
      (op : Op) (ops : List Op) (as' : List Answer) (ys : List ℕ) (w : W)
      → IsOwed api m_id used op w
      → Run bound ops as' (used (perform api m_id op w).1) ys
      → Run bound (op ∷ ops) ((perform api m_id op w).0 ∷ as') (used w) ys
  perform-runs (asks n) ops as' ys w owed rest = elim (le-cases bound (length (used w))) [
    | inl full ↦
        let e = ask_in_vain n w full in lacks full (ap (λ s. s.0) e) (ap (λ s. used s.1) e) rest
    | inr room ↦ elim (eq-cases n 1) [
      | inl one ↦
          let a = pool.alloc_room 0xFFFFFFFF w room in
          let e = ask_one n w room one in takes _ room one a.0 a.1 e.0 e.1 rest
      | inr other ↦
          let e = ask_other n w room other in
          rejects room other (ap (λ s. s.0) e) (ap (λ s. used s.1) e) rest
    ]
  ]
  perform-runs (gives p) ops as' ys w owed rest =
      let e = give_used p w owed in frees owed e.0 e.1 rest

  -- Over any history of calls by a client that asks for blocks only while the pool has one, and gives back
  -- only blocks in use, a pool answers as some run of the abstract pool does, from the blocks in use
  -- before to those in use after: a block it hands out is not null and not in use, a block given back
  -- is no longer in use, and a request for other than a single block is refused with no effect.
  pub pool_history-runs :
      (ops : List Op) (w : W)
      → AllOwed api m_id used ops w
      → Run bound ops (history api m_id ops w).0 (used w) (used (history api m_id ops w).1)
  unfolding history
  pool_history-runs [] w owed = stops
  pool_history-runs (op ∷ ops) w owed =
      let w' = (perform api m_id op w).1 in
      perform-runs op ops (history api m_id ops w').0 (used (history api m_id ops w').1) w owed.0
        (pool_history-runs ops w' owed.1)

  -- Over any such history, from a pool with distinct blocks in use, none of them null and no more than the
  -- pool has, the same holds of the blocks in use at its end.
  pub pool_history-Live :
      (ops : List Op) (w : W)
      → AllOwed api m_id used ops w
      → Live bound (used w)
      → Live bound (used (history api m_id ops w).1)
  pool_history-Live ops w owed l = Run-Live (pool_history-runs ops w owed) l
