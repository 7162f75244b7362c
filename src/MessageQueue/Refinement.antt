-- ===== src/MessageQueue/Refinement.antt =====
-- The message queue refines a bounded queue by priority: any history of calls that do not wait answers
-- as the list does, and leaves the same messages.
use cmsis_cpp.Base.{
  ℕ, ◌≡◌, refl, inl, inr, Bool, true, List, [], ◌∷◌, arith, ltb, if◌then◌else◌, le-cases, ◌==◌,
  length,
}
use cmsis_cpp.Base.Int.{pos}
use cmsis_cpp.Ticks.Range.{timeout_ticks_zero}
use cmsis_cpp.Rtos.{Result, ok, throw, terminate}
use cmsis_cpp.MessageQueue.{
  MessageQueueApi, MqStatus, no_timeout, timeout, full, empty, put_for, get_for, size, is_empty,
  clear,
}
use cmsis_cpp.MessageQueue.Contract.{IsQueue, enqueue}

pub data Op (Msg : Type 0) : Type 0 where
  puts : ℕ → Msg → Op Msg
  gets : Op Msg
  asks_size asks_empty clears : Op Msg

pub data Answer (Msg : Type 0) : Type 0 where
  stored : Answer Msg
  got : Msg → Answer Msg
  missed : MqStatus → Answer Msg
  sized : ℕ → Answer Msg
  emptied : Bool → Answer Msg
  cleared failed : Answer Msg

module _ {Msg : Type 0} where
  abbrev spec_get : List (ℕ × Msg) → Answer Msg × List (ℕ × Msg)
  spec_get [] = (missed empty, [])
  spec_get ((p, m) ∷ xs) = (got m, xs)

  -- The abstract queue: a list of at most `bound` messages, by priority and arrival.
  abbrev pub spec_step : ℕ → Op Msg → List (ℕ × Msg) → Answer Msg × List (ℕ × Msg)
  spec_step bound (puts p m) xs =
      if ltb (length xs) bound then (stored, enqueue p m xs) else (missed full, xs)
  spec_step bound gets xs = spec_get xs
  spec_step bound asks_size xs = (sized (length xs), xs)
  spec_step bound asks_empty xs = (emptied (length xs == 0), xs)
  spec_step bound clears xs = (cleared, [])

  unfoldable pub spec_run : ℕ → List (Op Msg) → List (ℕ × Msg) → List (Answer Msg) × List (ℕ × Msg)
  spec_run bound [] xs = ([], xs)
  spec_run bound (op ∷ ops) xs =
      let (a, xs') = spec_step bound op xs in
      let (as', xs'') = spec_run bound ops xs' in (a ∷ as', xs'')

  -- What the caller sees of a call's result.
  abbrev put_answer : Result MqStatus → Answer Msg
  put_answer (ok no_timeout) = stored
  put_answer (ok timeout) = missed timeout
  put_answer (ok full) = missed full
  put_answer (ok empty) = missed empty
  put_answer (throw e) = failed
  put_answer terminate = failed

  abbrev get_answer : Result (MqStatus × Msg) → Answer Msg
  get_answer (ok (no_timeout, m)) = got m
  get_answer (ok (timeout, m)) = missed timeout
  get_answer (ok (full, m)) = missed full
  get_answer (ok (empty, m)) = missed empty
  get_answer (throw e) = failed
  get_answer terminate = failed

  abbrev answer_by : {A : Type 0} → (A → Answer Msg) → Result A → Answer Msg
  answer_by f (ok a) = f a
  answer_by f (throw e) = failed
  answer_by f terminate = failed

module _ {W Msg : Type 0} (api : MessageQueueApi W Msg) (m_id : ℕ) (buffer : Msg) where
  -- The calls with exceptions compiled in and a duration of 0, after which the client goes on.
  abbrev pub perform : Op Msg → W → Answer Msg × W
  perform (puts p m) w = let (r, w') = put_for true api m_id m p (pos 0) w in (put_answer r, w')
  perform gets w = let (r, w') = get_for true api m_id buffer (pos 0) w in (get_answer r, w')
  perform asks_size w = let (r, w') = size true api m_id w in (answer_by sized r, w')
  perform asks_empty w = let (r, w') = is_empty true api m_id w in (answer_by emptied r, w')
  perform clears w = let (r, w') = clear true api m_id w in (answer_by (λ _. cleared) r, w')

  pub history : List (Op Msg) → W → List (Answer Msg) × W
  history [] w = ([], w)
  history (op ∷ ops) w =
      let (a, w') = perform op w in let (as', w'') = history ops w' in (a ∷ as', w'')

module _ {W Msg : Type 0} (api : MessageQueueApi W Msg) (m_id bound : ℕ)
    (items : W → List (ℕ × Msg)) (queue : IsQueue api m_id bound items) (buffer : Msg) where
  get-refines :
      (xs : List (ℕ × Msg)) (w : W)
      → items w ≡ xs
      → ((perform api m_id buffer gets w).0 ≡ (spec_get xs).0)
        × (items (perform api m_id buffer gets w).1 ≡ (spec_get xs).1)
  unfolding get_for
  get-refines [] w h =
      ground (arith, timeout_ticks_zero (api.os_kernel_get_tick_freq w), queue.get_none buffer w h)
  get-refines ((p, m) ∷ xs) w h = ground (
    arith,
    timeout_ticks_zero (api.os_kernel_get_tick_freq w),
    queue.get_first buffer 0 w p m xs h,
  )

  perform-refines :
      (op : Op Msg) (w : W)
      → ((perform api m_id buffer op w).0 ≡ (spec_step bound op (items w)).0)
        × (items (perform api m_id buffer op w).1 ≡ (spec_step bound op (items w)).1)
  unfolding put_for size is_empty clear
  perform-refines (puts p m) w = elim (le-cases bound (length (items w))) [
    | inl h ↦
        ground (arith, timeout_ticks_zero (api.os_kernel_get_tick_freq w), queue.put_full m p w h)
    | inr h ↦
        ground (arith, timeout_ticks_zero (api.os_kernel_get_tick_freq w), queue.put_room m p 0 w h)
  ]
  perform-refines gets w = get-refines (items w) w refl
  perform-refines asks_size w = ground (arith, queue.count_length w)
  perform-refines asks_empty w = ground (arith, queue.count_length w)
  perform-refines clears w = ground (arith, queue.reset_empties w)

  -- Over any history of puts and gets with a duration of 0, and of size, empty and clear, a queue
  -- answers every call as a list of at most `bound` messages, ordered by priority and arrival, does,
  -- and ends with the same messages.
  pub queue_history-refines :
      (ops : List (Op Msg)) (w : W)
      → ((history api m_id buffer ops w).0 ≡ (spec_run bound ops (items w)).0)
        × (items (history api m_id buffer ops w).1 ≡ (spec_run bound ops (items w)).1)
  unfolding history spec_run
  queue_history-refines [] w = (refl, refl)
  queue_history-refines (op ∷ ops) w =
      let s = perform-refines op w in
      let rest = queue_history-refines ops (perform api m_id buffer op w).1 in
      ground (arith, s, rest)
