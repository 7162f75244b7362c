-- ===== src/MessageQueue/Contract.antt =====
-- What CMSIS-RTOS2 documents of one live message queue: a bounded list, ordered by priority and, among
-- equal priorities, by arrival. A call that has to wait says nothing of the list, since other threads
-- run meanwhile.
use cmsis_cpp.Base.{ℕ, ◌≤◌, ◌<◌, ◌≡◌, ◌⊎◌, List, [], ◌∷◌, length, leb, if◌then◌else◌}
use cmsis_cpp.Rtos.{os_ok, os_error_resource, os_error_timeout}
use cmsis_cpp.MessageQueue.{MessageQueueApi}

module _ {Msg : Type 0} where
  -- The place of a new message: behind all that have its priority or a higher one.
  abbrev pub enqueue : ℕ → Msg → List (ℕ × Msg) → List (ℕ × Msg)
  enqueue p m [] = (p, m) ∷ []
  enqueue p m ((q, n) ∷ xs) = if leb p q then (q, n) ∷ enqueue p m xs else (p, m) ∷ (q, n) ∷ xs

pub record IsQueue {W Msg : Type 0} (api : MessageQueueApi W Msg) (m_id bound : ℕ)
    (items : W → List (ℕ × Msg)) : Type 0 where
  pub put_room :
      (m : Msg) (p timeout : ℕ) (w : W)
      → length (items w) < bound
      → ((api.os_message_queue_put m_id m p timeout w).0 ≡ os_ok)
        × (items (api.os_message_queue_put m_id m p timeout w).1 ≡ enqueue p m (items w))
  pub put_full :
      (m : Msg) (p : ℕ) (w : W)
      → bound ≤ length (items w)
      → ((api.os_message_queue_put m_id m p 0 w).0 ≡ os_error_resource)
        × (items (api.os_message_queue_put m_id m p 0 w).1 ≡ items w)
  pub put_wait :
      (m : Msg) (p timeout : ℕ) (w : W)
      → bound ≤ length (items w)
      → 0 < timeout
      → ((api.os_message_queue_put m_id m p timeout w).0 ≡ os_ok)
        ⊎ ((api.os_message_queue_put m_id m p timeout w).0 ≡ os_error_timeout)
  pub get_first :
      (b : Msg) (timeout : ℕ) (w : W) (p : ℕ) (m : Msg) (rest : List (ℕ × Msg))
      → items w ≡ (p, m) ∷ rest
      → ((api.os_message_queue_get m_id b timeout w).0 ≡ (os_ok, m))
        × (items (api.os_message_queue_get m_id b timeout w).1 ≡ rest)
  pub get_none :
      (b : Msg) (w : W)
      → items w ≡ []
      → ((api.os_message_queue_get m_id b 0 w).0.0 ≡ os_error_resource)
        × (items (api.os_message_queue_get m_id b 0 w).1 ≡ [])
  pub get_wait :
      (b : Msg) (timeout : ℕ) (w : W)
      → items w ≡ []
      → 0 < timeout
      → ((api.os_message_queue_get m_id b timeout w).0.0 ≡ os_ok)
        ⊎ ((api.os_message_queue_get m_id b timeout w).0.0 ≡ os_error_timeout)
  pub count_length : (w : W) → api.os_message_queue_get_count m_id w ≡ length (items w)
  pub reset_empties :
      (w : W)
      → ((api.os_message_queue_reset m_id w).0 ≡ os_ok)
        × (items (api.os_message_queue_reset m_id w).1 ≡ [])
