-- ===== src/MessageQueue/Order.antt =====
-- First in, first out: what is put into an empty queue comes out in the same order.
use cmsis_cpp.Base.{
  ℕ, zero, suc, ◌+◌, ◌≤◌, ◌≡◌, refl, sym, Bool, List, [], ◌∷◌, ◌++◌, arith, length, length-append,
}
use mathlib.Core.List.{append_assoc, append-nil}
use cmsis_cpp.Rtos.{Action, ok, pure, ◌>>=◌, ◌>>◌}
use cmsis_cpp.MessageQueue.{MessageQueueApi, put, get}
use cmsis_cpp.MessageQueue.Contract.{IsQueue, enqueue}

module _ {W Msg : Type 0} (ex : Bool) (api : MessageQueueApi W Msg) (m_id : ℕ) where
  -- A client that puts the messages of a list, all with the priority 0 that `put` has by default.
  pub put_all : List Msg → Action W (Unit {0})
  put_all [] = pure tt
  put_all (m ∷ ms) = put ex api m_id m 0 >> put_all ms

  -- A client that gets so many messages, into a buffer that holds `b`.
  unfoldable pub get_all : Msg → ℕ → Action W (List Msg)
  get_all b zero = pure []
  get_all b (suc n) = do m ← get ex api m_id b; ms ← get_all b n; pure (m ∷ ms)

abbrev pub at_default : {Msg : Type 0} → List Msg → List (ℕ × Msg)
at_default [] = []
at_default (m ∷ ms) = (0, m) ∷ at_default ms

enqueue_last : {Msg : Type 0} (m : Msg) (xs : List (ℕ × Msg)) → enqueue 0 m xs ≡ xs ++ (0, m) ∷ []
enqueue_last m [] = refl
enqueue_last m ((p, n) ∷ xs) = ground (arith, enqueue_last m xs)

module _ {W Msg : Type 0} (ex : Bool) (api : MessageQueueApi W Msg) (m_id bound : ℕ)
    (items : W → List (ℕ × Msg)) (queue : IsQueue api m_id bound items) where
  put_all-items :
      (ms : List Msg) (w : W)
      → length (items w) + length ms ≤ bound
      → ((put_all ex api m_id ms w).0 ≡ ok tt)
        × (items (put_all ex api m_id ms w).1 ≡ items w ++ at_default ms)
  unfolding put_all put
  put_all-items [] w h = (refl, sym (append-nil (items w)))
  put_all-items (m ∷ ms) w h = ground (
    arith,
    queue.put_room m 0 0xFFFFFFFF w,
    enqueue_last m (items w),
    length-append (items w) ((0, m) ∷ []),
    append_assoc (items w) ((0, m) ∷ []) (at_default ms),
    put_all-items ms (api.os_message_queue_put m_id m 0 0xFFFFFFFF w).1,
  )

  get_all-items :
      (b : Msg) (ms : List Msg) (w : W)
      → items w ≡ at_default ms
      → ((get_all ex api m_id b (length ms) w).0 ≡ ok ms)
        × (items (get_all ex api m_id b (length ms) w).1 ≡ [])
  unfolding get_all get
  get_all-items b [] w h = ground arith
  get_all-items b (m ∷ ms) w h = ground (
    arith,
    queue.get_first b 0xFFFFFFFF w 0 m (at_default ms),
    get_all-items b ms (api.os_message_queue_get m_id b 0xFFFFFFFF w).1,
  )

  -- Messages put with the default priority into an empty queue that has room for them come out in
  -- the same order and leave it empty; neither side fails.
  pub get_all-put_all :
      (b : Msg) (ms : List Msg) (w : W)
      → items w ≡ []
      → length ms ≤ bound
      → (((put_all ex api m_id ms >> get_all ex api m_id b (length ms)) w).0 ≡ ok ms)
        × (items ((put_all ex api m_id ms >> get_all ex api m_id b (length ms)) w).1 ≡ [])
  get_all-put_all b ms w h l =
      ground (arith, put_all-items ms w, get_all-items b ms (put_all ex api m_id ms w).1)
