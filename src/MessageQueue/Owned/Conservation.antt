-- ===== src/MessageQueue/Owned/Conservation.antt =====
-- Ownership over a history of a client's calls of `message_queue<std::unique_ptr<T>>`, include/MessageQueue.h.
use cmsis_cpp.Base.{
  ℕ, suc, ◌+◌, ◌++◌, ◌≤◌, ◌≡◌, ◌≢◌, refl, inl, inr, true, List, [], ◌∷◌, arith, length, ltb, ◌==◌,
  if◌then◌else◌, le-cases,
}
use cmsis_cpp.Base.Counts.{count, count-append}
use cmsis_cpp.Base.Int.{pos}
use cmsis_cpp.Ticks.Range.{timeout_ticks_zero}
use cmsis_cpp.Rtos.{ok, throw, terminate, Result, Action, pure, ◌>>=◌}
use cmsis_cpp.MessageQueue.{
  MqStatus, no_timeout, timeout, full, empty, put_for, MessageQueueApi, size, capacity, is_empty,
  put, get, get_for,
}
use cmsis_cpp.MessageQueue.Contract.{IsQueue, enqueue}
use cmsis_cpp.MessageQueue.Pointers.Outcomes.{KeepsBuffer}
use cmsis_cpp.MessageQueue.Owned.{
  Owner, within, reset_pointer, put_owned, put_owned_for, get_owned, get_owned_for, clear_owned,
}
use cmsis_cpp.MessageQueue.Owned.Clearing.{objects, IsHeap, clear_owned-deletes}

-- `makes p` is `data.reset(new T)`, where `p` is the address of the new object, and `makes 0` a plain
-- `data.reset()`. `puts` and `gets` wait, and are called where the queue has room, or a message; `polls`
-- is get with a duration of 0, and `offers` put with one, whether there is room or not.
pub data Op : Type 0 where
  makes puts offers : ℕ → Op
  gets polls clears : Op

-- How often an object was made.
pub made : ℕ → List Op → ℕ
made p [] = 0
made p (makes q ∷ ops) = if p == q then suc (made p ops) else made p ops
made p (puts priority ∷ ops) = made p ops
made p (offers priority ∷ ops) = made p ops
made p (gets ∷ ops) = made p ops
made p (polls ∷ ops) = made p ops
made p (clears ∷ ops) = made p ops

made-cons : (p : ℕ) (op : Op) (ops : List Op) → made p (op ∷ ops) ≡ made p (op ∷ []) + made p ops
unfolding made
made-cons p (makes q) ops = ground arith
made-cons p (puts priority) ops = omega arith
made-cons p (offers priority) ops = omega arith
made-cons p gets ops = omega arith
made-cons p polls ops = omega arith
made-cons p clears ops = omega arith

count-enqueue :
    (p pr m : ℕ) (xs : List (ℕ × ℕ))
    → p ≢ 0
    → count p (objects (enqueue pr m xs)) ≡ count p (m ∷ []) + count p (objects xs)
count-enqueue p pr m [] n = ground arith
count-enqueue p pr m ((q, k) ∷ xs) n = ground (arith, count-enqueue p pr m xs n)

-- The calls leave the log of deleted objects alone, and the queue has room for `bound`.
pub record IsBounded {W : Type 0} (api : MessageQueueApi W ℕ) (m_id bound : ℕ)
    (items : W → List (ℕ × ℕ)) (deleted : W → List ℕ) : Type 0 where
  pub put_deleted :
      (m p ticks : ℕ) (w : W) → deleted (api.os_message_queue_put m_id m p ticks w).1 ≡ deleted w
  pub capacity_bound : (w : W) → api.os_message_queue_get_capacity m_id w ≡ bound
  pub within_bound : (w : W) → length (items w) ≤ bound

module _ {W : Type 0} (api : MessageQueueApi W ℕ) (delete_object : ℕ → W → W) (m_id bound : ℕ) where
  pub put_if_room : ℕ → Action (Owner W) (Unit {0})
  put_if_room priority = do
    n ← within (size true api m_id)
    c ← within (capacity true api m_id)
    if ltb n c then put_owned true api delete_object m_id priority else pure tt

  pub get_if_any : Action (Owner W) (Unit {0})
  get_if_any = do
    e ← within (is_empty true api m_id)
    if e then pure tt else get_owned true api delete_object m_id

  -- The client's calls, after which it goes on whatever they return.
  abbrev pub perform : Op → Owner W → Owner W
  perform (makes p) o = (reset_pointer delete_object p o).1
  perform (puts priority) o = (put_if_room priority o).1
  perform (offers priority) o = (put_owned_for true api delete_object m_id priority (pos 0) o).1
  perform gets o = (get_if_any o).1
  perform polls o = (get_owned_for true api delete_object m_id (pos 0) o).1
  perform clears o = (within (clear_owned true api delete_object (suc bound) m_id) o).1

  -- Where a put with a duration does not return no_timeout, the object that it was given.
  abbrev unsent : Result MqStatus → ℕ → List ℕ
  unsent (ok no_timeout) p = []
  unsent (ok timeout) p = p ∷ []
  unsent (ok full) p = p ∷ []
  unsent (ok empty) p = p ∷ []
  unsent (throw e) p = p ∷ []
  unsent terminate p = p ∷ []

  abbrev pub lost_by : Op → Owner W → List ℕ
  lost_by (makes p) o = []
  lost_by (puts priority) o = []
  lost_by (offers priority) o =
      unsent (put_owned_for true api delete_object m_id priority (pos 0) o).0 o.owned
  lost_by gets o = []
  lost_by polls o = []
  lost_by clears o = []

  -- The objects that puts with a duration of 0 did not store, over a history.
  pub lost : List Op → Owner W → List ℕ
  lost [] o = []
  lost (op ∷ ops) o = lost_by op o ++ lost ops (perform op o)

  unfoldable pub history : List Op → Owner W → Owner W
  history [] o = o
  history (op ∷ ops) o = history ops (perform op o)

-- How often an object is somewhere.
abbrev pub places : {W : Type 0} → (W → List (ℕ × ℕ)) → (W → List ℕ) → ℕ → Owner W → ℕ
places items deleted p o =
    count p (o.owned ∷ []) + count p (objects (items o.world)) + count p (deleted o.world)

module _ {W : Type 0} (api : MessageQueueApi W ℕ) (delete_object : ℕ → W → W) (m_id bound : ℕ)
    (items : W → List (ℕ × ℕ)) (deleted : W → List ℕ) (queue : IsQueue api m_id bound items)
    (heap : IsHeap api delete_object m_id items deleted)
    (bounded : IsBounded api m_id bound items deleted) (keeps : KeepsBuffer api m_id items) where
  makes-places :
      (p q : ℕ) (o : Owner W)
      → p ≢ 0
      → places items deleted p (perform api delete_object m_id bound (makes q) o)
        ≡ count p (q ∷ []) + places items deleted p o
  makes-places p q o n = ground (
    arith,
    heap.delete_logged o.owned o.world,
    heap.delete_items o.owned o.world,
    count-append p (deleted o.world) (o.owned ∷ []),
  )

  puts-places :
      (p priority : ℕ) (o : Owner W)
      → p ≢ 0
      → places items deleted p (perform api delete_object m_id bound (puts priority) o)
        ≡ places items deleted p o
  unfolding put_if_room size capacity put_owned put
  puts-places p priority o n =
      let room = bounded.capacity_bound o.world in
      let number = queue.count_length o.world in
      elim (le-cases bound (length (items o.world))) [
        | inl h ↦ ground arith
        | inr h ↦ ground (
          arith,
          queue.put_room o.owned priority 0xFFFFFFFF o.world h,
          bounded.put_deleted o.owned priority 0xFFFFFFFF o.world,
          count-enqueue p priority o.owned (items o.world) n,
        )
      ]

  received :
      (p ticks pr m : ℕ) (rest : List (ℕ × ℕ)) (o : Owner W)
      → p ≢ 0
      → items o.world ≡ (pr, m) ∷ rest
      → let w = (api.os_message_queue_get m_id 0 ticks o.world).1 in
        places items deleted p (reset_pointer delete_object m (record o { world = w })).1
        ≡ places items deleted p o
  received p ticks pr m rest o n h =
      let w = (api.os_message_queue_get m_id 0 ticks o.world).1 in
      ground (
        arith,
        queue.get_first 0 ticks o.world pr m rest h,
        heap.get_deleted 0 ticks o.world,
        heap.delete_logged o.owned w,
        heap.delete_items o.owned w,
        count-append p (deleted w) (o.owned ∷ []),
      )

  gets-places :
      (p : ℕ) (xs : List (ℕ × ℕ)) (o : Owner W)
      → p ≢ 0
      → items o.world ≡ xs
      → places items deleted p (perform api delete_object m_id bound gets o)
        ≡ places items deleted p o
  unfolding get_if_any is_empty size get_owned get
  gets-places p [] o n h = ground (arith, queue.count_length o.world)
  gets-places p ((pr, m) ∷ rest) o n h = ground (
    arith,
    queue.count_length o.world,
    queue.get_first 0 0xFFFFFFFF o.world pr m rest h,
    received p 0xFFFFFFFF pr m rest o n h,
  )

  polls-places :
      (p : ℕ) (xs : List (ℕ × ℕ)) (o : Owner W)
      → p ≢ 0
      → items o.world ≡ xs
      → places items deleted p (perform api delete_object m_id bound polls o)
        ≡ places items deleted p o
  unfolding get_owned_for get_for
  polls-places p [] o n h =
      let w = (api.os_message_queue_get m_id 0 0 o.world).1 in
      ground (
        arith,
        timeout_ticks_zero (api.os_kernel_get_tick_freq o.world),
        queue.get_none 0 o.world h,
        keeps.buffer_kept 0 0 o.world h,
        heap.get_deleted 0 0 o.world,
        heap.delete_logged o.owned w,
        heap.delete_items o.owned w,
        count-append p (deleted w) (o.owned ∷ []),
      )
  polls-places p ((pr, m) ∷ rest) o n h = ground (
    arith,
    timeout_ticks_zero (api.os_kernel_get_tick_freq o.world),
    queue.get_first 0 0 o.world pr m rest h,
    received p 0 pr m rest o n h,
  )

  clears-places :
      (p : ℕ) (o : Owner W)
      → places items deleted p (perform api delete_object m_id bound clears o)
        ≡ places items deleted p o
  clears-places p o =
      let b = bounded.within_bound o.world in
      ground (
        arith,
        clear_owned-deletes true api delete_object m_id bound items deleted queue heap (suc bound)
            o.world (omega arith),
        count-append p (deleted o.world) (objects (items o.world)),
      )

  offers-places :
      (p priority : ℕ) (o : Owner W)
      → p ≢ 0
      → places items deleted p (perform api delete_object m_id bound (offers priority) o)
          + count p (lost_by api delete_object m_id bound (offers priority) o)
        ≡ places items deleted p o
  unfolding put_owned_for put_for
  offers-places p priority o n =
      let z = timeout_ticks_zero (api.os_kernel_get_tick_freq o.world) in
      let d = bounded.put_deleted o.owned priority 0 o.world in
      elim (le-cases bound (length (items o.world))) [
        | inl h ↦ ground (arith, z, d, queue.put_full o.owned priority o.world h)
        | inr h ↦ ground (
          arith,
          z,
          d,
          queue.put_room o.owned priority 0 o.world h,
          count-enqueue p priority o.owned (items o.world) n,
        )
      ]

  perform-places :
      (p : ℕ) (op : Op) (o : Owner W)
      → p ≢ 0
      → places items deleted p (perform api delete_object m_id bound op o)
          + count p (lost_by api delete_object m_id bound op o)
        ≡ made p (op ∷ []) + places items deleted p o
  unfolding made
  perform-places p (makes q) o n = omega (arith, makes-places p q o n)
  perform-places p (puts priority) o n = omega (arith, puts-places p priority o n)
  perform-places p (offers priority) o n = omega (arith, offers-places p priority o n)
  perform-places p gets o n = omega (arith, gets-places p (items o.world) o n refl)
  perform-places p polls o n = omega (arith, polls-places p (items o.world) o n refl)
  perform-places p clears o n = omega (arith, clears-places p o)

  -- Over any history of making objects, puts where the queue has room, puts with a duration of 0 whether it
  -- has or not, gets where it has a message, gets with a duration of 0, and clears: an object is in the
  -- client's variable, in the queue, deleted, or given to a put with a duration that did not store it, as
  -- often, all together, as it was in the first three before and was made since. So none leaks but in such
  -- a put, and one that was nowhere before and is made once is deleted once at most.
  pub history-conserves :
      (p : ℕ) (ops : List Op) (o : Owner W)
      → p ≢ 0
      → places items deleted p (history api delete_object m_id bound ops o)
          + count p (lost api delete_object m_id bound ops o)
        ≡ made p ops + places items deleted p o
  unfolding history made lost
  history-conserves p [] o n = omega arith
  history-conserves p (op ∷ ops) o n = omega (
    arith,
    history-conserves p ops (perform api delete_object m_id bound op o) n,
    perform-places p op o n,
    made-cons p op ops,
    count-append p (lost_by api delete_object m_id bound op o)
        (lost api delete_object m_id bound ops (perform api delete_object m_id bound op o)),
  )
