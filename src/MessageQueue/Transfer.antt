-- ===== src/MessageQueue/Transfer.antt =====
-- The timed calls of a message queue against the bounded list, and a moved-from queue.
use cmsis_cpp.Base.{
  ℕ, ◌≤◌, ◌<◌, ◌≡◌, ◌⊎◌, inl, inr, Bool, List, ◌∷◌, arith, length, if◌then◌else◌, le-cases,
}
use cmsis_cpp.Base.Int.{pos}
use cmsis_cpp.Ticks.{timeout_ticks}
use cmsis_cpp.Rtos.{ok, throw, terminate, system_error, os_category, os_error_parameter}
use cmsis_cpp.MessageQueue.{
  MessageQueueApi, no_timeout, timeout, full, put_for, get_for, destroy, move_construct,
}
use cmsis_cpp.MessageQueue.Contract.{IsQueue, enqueue}

module _ {W Msg : Type 0} (ex : Bool) (api : MessageQueueApi W Msg) (m_id bound : ℕ)
    (items : W → List (ℕ × Msg)) (queue : IsQueue api m_id bound items) where
  -- A timed `put` with a duration that is not negative never fails. With room it returns no_timeout
  -- and the message stands behind those of its priority and above; on a full queue it returns
  -- `full` and changes nothing where the duration is under a tick, and otherwise waits and returns
  -- no_timeout or timeout.
  pub put_for-outcome :
      (m : Msg) (p usec : ℕ) (w : W)
      → ((length (items w) < bound)
          × ((put_for ex api m_id m p (pos usec) w).0 ≡ ok no_timeout)
          × (items (put_for ex api m_id m p (pos usec) w).1 ≡ enqueue p m (items w)))
        ⊎ (((bound ≤ length (items w))
              × (timeout_ticks (pos usec) (api.os_kernel_get_tick_freq w) ≡ 0)
              × ((put_for ex api m_id m p (pos usec) w).0 ≡ ok full)
              × (items (put_for ex api m_id m p (pos usec) w).1 ≡ items w))
            ⊎ ((bound ≤ length (items w))
                × (0 < timeout_ticks (pos usec) (api.os_kernel_get_tick_freq w))
                × (((put_for ex api m_id m p (pos usec) w).0 ≡ ok no_timeout)
                    ⊎ ((put_for ex api m_id m p (pos usec) w).0 ≡ ok timeout))))
  unfolding put_for
  put_for-outcome m p usec w =
      let t = timeout_ticks (pos usec) (api.os_kernel_get_tick_freq w) in
      elim (le-cases bound (length (items w))) [
        | inl h ↦ elim (le-cases t 0) [
          | inl z ↦ ground (arith, queue.put_full m p w h)
          | inr l ↦ ground (arith, queue.put_wait m p t w h l)
        ]
        | inr h ↦ ground (arith, queue.put_room m p t w h)
      ]

  -- A timed `get` with a duration that is not negative takes the first message of a queue that has
  -- one, and returns no_timeout with it, whatever the duration.
  pub get_for-first :
      (b m : Msg) (p usec : ℕ) (rest : List (ℕ × Msg)) (w : W)
      → items w ≡ (p, m) ∷ rest
      → ((get_for ex api m_id b (pos usec) w).0 ≡ ok (no_timeout, m))
        × (items (get_for ex api m_id b (pos usec) w).1 ≡ rest)
  unfolding get_for
  get_for-first b m p usec rest w h =
      let t = timeout_ticks (pos usec) (api.os_kernel_get_tick_freq w) in
      ground (arith, queue.get_first b t w p m rest h)

  -- What a moved-from queue holds is the null handle. Where the RTOS refuses to delete that one with
  -- osErrorParameter, destroying a queue after a move from it fails with this error.
  pub destroy_moved_from :
      (w : W)
      → (api.os_message_queue_delete 0 w).0 ≡ os_error_parameter
      → (destroy ex api (move_construct m_id).1 w).0
        ≡ (if ex then throw (system_error os_error_parameter os_category) else terminate)
  unfolding destroy move_construct
  destroy_moved_from w h = ground arith
