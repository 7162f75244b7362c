-- ===== src/MessageQueue/Owned/Clearing.antt =====
-- The queue of owning pointers: what becomes of the objects.
use cmsis_cpp.Base.{
  ℕ, zero, suc, ◌≤◌, ◌<◌, ◌≡◌, refl, Bool, true, List, [], ◌∷◌, ◌++◌, arith, length, ◌==◌,
  if◌then◌else◌,
}
use mathlib.Core.List.{append_assoc, append-nil}
use cmsis_cpp.Base.Int.{pos}
use cmsis_cpp.Ticks.{timeout_ticks}
use cmsis_cpp.Rtos.{ok}
use cmsis_cpp.MessageQueue.{MessageQueueApi, full, get, is_empty, size, put_for, clear}
use cmsis_cpp.MessageQueue.Contract.{IsQueue}
use cmsis_cpp.MessageQueue.Owned.{Owner, put_owned_for, drain, clear_owned, get_discarded}

-- The objects that the queue owns, first to last.
abbrev pub objects : List (ℕ × ℕ) → List ℕ
objects [] = []
objects ((p, ptr) ∷ xs) = if ptr == 0 then objects xs else ptr ∷ objects xs

-- The heap beside the queue: `deleted` lists the objects deleted so far, and neither side touches
-- the other.
pub record IsHeap {W : Type 0} (api : MessageQueueApi W ℕ) (delete_object : ℕ → W → W) (m_id : ℕ)
    (items : W → List (ℕ × ℕ)) (deleted : W → List ℕ) : Type 0 where
  pub delete_logged : (p : ℕ) (w : W) → deleted (delete_object p w) ≡ deleted w ++ p ∷ []
  pub delete_items : (p : ℕ) (w : W) → items (delete_object p w) ≡ items w
  pub get_deleted :
      (b timeout : ℕ) (w : W) → deleted (api.os_message_queue_get m_id b timeout w).1 ≡ deleted w
  pub reset_deleted : (w : W) → deleted (api.os_message_queue_reset m_id w).1 ≡ deleted w

module _ {W : Type 0} (ex : Bool) (api : MessageQueueApi W ℕ) (delete_object : ℕ → W → W)
    (m_id bound : ℕ) (items : W → List (ℕ × ℕ)) (deleted : W → List ℕ)
    (queue : IsQueue api m_id bound items)
    (heap : IsHeap api delete_object m_id items deleted) where
  get_discarded-deletes :
      (w : W) (p ptr : ℕ) (rest : List (ℕ × ℕ))
      → items w ≡ (p, ptr) ∷ rest
      → ((get_discarded ex api delete_object m_id w).0 ≡ ok tt)
        × (items (get_discarded ex api delete_object m_id w).1 ≡ rest)
        × (deleted (get_discarded ex api delete_object m_id w).1
            ≡ (if ptr == 0 then deleted w else deleted w ++ ptr ∷ []))
  unfolding get_discarded get
  get_discarded-deletes w p ptr rest h =
      let w' = (api.os_message_queue_get m_id 0 0xFFFFFFFF w).1 in
      ground (
        arith,
        queue.get_first 0 0xFFFFFFFF w p ptr rest h,
        heap.get_deleted 0 0xFFFFFFFF w,
        heap.delete_logged ptr w',
        heap.delete_items ptr w',
      )

  drain-deletes :
      (fuel : ℕ) (w : W) (xs : List (ℕ × ℕ))
      → items w ≡ xs
      → length xs < fuel
      → ((drain ex api delete_object fuel m_id w).0 ≡ ok true)
        × (items (drain ex api delete_object fuel m_id w).1 ≡ [])
        × (deleted (drain ex api delete_object fuel m_id w).1 ≡ deleted w ++ objects xs)
  unfolding drain is_empty size
  drain-deletes zero w xs h l = absurd (omega arith)
  drain-deletes (suc fuel) w [] h l = ground (arith, queue.count_length w, append-nil (deleted w))
  drain-deletes (suc fuel) w ((p, ptr) ∷ xs) h l =
      let w' = (get_discarded ex api delete_object m_id w).1 in
      ground (
        arith,
        queue.count_length w,
        get_discarded-deletes w p ptr xs h,
        append_assoc (deleted w) (ptr ∷ []) (objects xs),
        drain-deletes fuel w' xs,
      )

  -- On a queue with no other client, `clear` ends once it may make as many rounds as there are
  -- messages and one more: it empties the queue and deletes each object in it once, in order.
  pub clear_owned-deletes :
      (fuel : ℕ) (w : W)
      → length (items w) < fuel
      → ((clear_owned ex api delete_object fuel m_id w).0 ≡ ok true)
        × (items (clear_owned ex api delete_object fuel m_id w).1 ≡ [])
        × (deleted (clear_owned ex api delete_object fuel m_id w).1
            ≡ deleted w ++ objects (items w))
  unfolding clear_owned clear
  clear_owned-deletes fuel w l =
      let w' = (drain ex api delete_object fuel m_id w).1 in
      ground (
        arith,
        drain-deletes fuel w (items w) refl l,
        queue.reset_empties w',
        heap.reset_deleted w',
      )

  -- A timed `put` of an owned object into a full queue, with a duration under a tick, returns `full`
  -- without storing it, and the caller has lost it: its pointer is null, nothing was deleted.
  pub put_owned_for_loses :
      (o : Owner W) (priority usec : ℕ)
      → bound ≤ length (items o.world)
      → timeout_ticks (pos usec) (api.os_kernel_get_tick_freq o.world) ≡ 0
      → deleted (api.os_message_queue_put m_id o.owned priority 0 o.world).1 ≡ deleted o.world
      → ((put_owned_for ex api delete_object m_id priority (pos usec) o).0 ≡ ok full)
        × (items (put_owned_for ex api delete_object m_id priority (pos usec) o).1.world
            ≡ items o.world)
        × ((put_owned_for ex api delete_object m_id priority (pos usec) o).1.owned ≡ 0)
        × (deleted (put_owned_for ex api delete_object m_id priority (pos usec) o).1.world
            ≡ deleted o.world)
  unfolding put_owned_for put_for
  put_owned_for_loses o priority usec h z d =
      ground (arith, queue.put_full o.owned priority o.world h)
