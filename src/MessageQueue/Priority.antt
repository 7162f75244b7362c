-- ===== src/MessageQueue/Priority.antt =====
-- Messages of any priorities: they come out by falling priority, and by arrival within a priority.
use cmsis_cpp.Base.{
  ℕ, suc, ◌+◌, ◌≤◌, ◌<◌, ◌≡◌, refl, sym, ◌∙◌, ap, Bool, List, [], ◌∷◌, ◌++◌, arith, length, ◌==◌,
  if◌then◌else◌, inl, inr, le-cases,
}
use mathlib.Core.List.{append_assoc, append-nil}
use cmsis_cpp.Rtos.{Action, Result, throw, terminate, ok, pure, ◌>>◌}
use cmsis_cpp.MessageQueue.{MessageQueueApi, put, get}
use cmsis_cpp.MessageQueue.Contract.{IsQueue, enqueue}
use cmsis_cpp.MessageQueue.Order.{get_all}

module _ {Msg : Type 0} where
  abbrev pub messages : List (ℕ × Msg) → List Msg
  messages [] = []
  messages ((p, m) ∷ xs) = m ∷ messages xs

  -- The messages of one priority, in their order.
  abbrev pub of_priority : ℕ → List (ℕ × Msg) → List Msg
  of_priority p [] = []
  of_priority p ((q, m) ∷ xs) = if p == q then m ∷ of_priority p xs else of_priority p xs

  -- No priority of the list is above `p`.
  abbrev pub AtMost : ℕ → List (ℕ × Msg) → Type 0
  AtMost p [] = Unit {0}
  AtMost p ((q, m) ∷ xs) = (q ≤ p) × AtMost p xs

  abbrev pub Falling : List (ℕ × Msg) → Type 0
  Falling [] = Unit {0}
  Falling ((p, m) ∷ xs) = AtMost p xs × Falling xs

  abbrev enqueue_all : List (ℕ × Msg) → List (ℕ × Msg) → List (ℕ × Msg)
  enqueue_all xs [] = xs
  enqueue_all xs ((p, m) ∷ ms) = enqueue_all (enqueue p m xs) ms

  AtMost-weaken : (p q : ℕ) (xs : List (ℕ × Msg)) → p ≤ q → AtMost p xs → AtMost q xs
  AtMost-weaken p q [] h a = tt
  AtMost-weaken p q ((r, m) ∷ xs) h a = (omega (arith, a.0), AtMost-weaken p q xs h a.1)

  AtMost-enqueue :
      (p q : ℕ) (m : Msg) (xs : List (ℕ × Msg)) → q ≤ p → AtMost p xs → AtMost p (enqueue q m xs)
  AtMost-enqueue p q m [] h a = (h, tt)
  AtMost-enqueue p q m ((r, n) ∷ xs) h a = ground (arith, AtMost-enqueue p q m xs h a.1)

  Falling-enqueue : (p : ℕ) (m : Msg) (xs : List (ℕ × Msg)) → Falling xs → Falling (enqueue p m xs)
  Falling-enqueue p m [] f = (tt, tt)
  Falling-enqueue p m ((q, n) ∷ xs) f = elim (le-cases p q) [
    | inl h ↦ ground (arith, AtMost-enqueue q p m xs h f.0, Falling-enqueue p m xs f.1)
    | inr h ↦ ground (arith, AtMost-weaken q p xs (omega arith) f.0)
  ]

  of_priority_above : (p q : ℕ) (xs : List (ℕ × Msg)) → q < p → AtMost q xs → of_priority p xs ≡ []
  of_priority_above p q [] h a = refl
  of_priority_above p q ((r, m) ∷ xs) h a = ground (arith, a.0, of_priority_above p q xs h a.1)

  of_priority-enqueue :
      (p q : ℕ) (m : Msg) (xs : List (ℕ × Msg))
      → Falling xs
      → of_priority p (enqueue q m xs) ≡ of_priority p xs ++ (if p == q then m ∷ [] else [])
  of_priority-enqueue p q m [] f = ground arith
  of_priority-enqueue p q m ((r, n) ∷ xs) f = elim (le-cases q r) [
    | inl h ↦ ground (arith, of_priority-enqueue p q m xs f.1)
    | inr h ↦ elim (le-cases q p) [
      | inl k ↦ ground (arith, of_priority_above p r xs (omega arith) f.0)
      | inr k ↦ ground (arith, append-nil (of_priority p xs))
    ]
  ]

  Falling-enqueue_all : (xs ms : List (ℕ × Msg)) → Falling xs → Falling (enqueue_all xs ms)
  Falling-enqueue_all xs [] f = f
  Falling-enqueue_all xs ((p, m) ∷ ms) f =
      Falling-enqueue_all (enqueue p m xs) ms (Falling-enqueue p m xs f)

  of_priority-enqueue_all :
      (p : ℕ) (xs ms : List (ℕ × Msg))
      → Falling xs
      → of_priority p (enqueue_all xs ms) ≡ of_priority p xs ++ of_priority p ms
  of_priority-enqueue_all p xs [] f = sym (append-nil (of_priority p xs))
  of_priority-enqueue_all p xs ((q, m) ∷ ms) f = ground (
    arith,
    of_priority-enqueue p q m xs f,
    append-nil (of_priority p xs),
    append_assoc (of_priority p xs) (m ∷ []) (of_priority p ms),
    of_priority-enqueue_all p (enqueue q m xs) ms (Falling-enqueue q m xs f),
  )

  length-enqueue :
      (p : ℕ) (m : Msg) (xs : List (ℕ × Msg)) → length (enqueue p m xs) ≡ suc (length xs)
  length-enqueue p m [] = refl
  length-enqueue p m ((q, n) ∷ xs) = ground (arith, length-enqueue p m xs)

  length-enqueue_all : (xs ms : List (ℕ × Msg)) → length (enqueue_all xs ms) ≡ length xs + length ms
  length-enqueue_all xs [] = omega arith
  length-enqueue_all xs ((p, m) ∷ ms) =
      omega (arith, length-enqueue p m xs, length-enqueue_all (enqueue p m xs) ms)

-- After an action that returns, the next one runs on the state it left.
then_ok :
    {W A B : Type 0} (m : Action W A) (k : Action W B) (w : W) {a : A}
    → (m w).0 ≡ ok a
    → (m >> k) w ≡ k (m w).1
then_ok {W} {A} {B} m k w e =
    ap
      (λ (r : Result A). elim r as (λ _. Result B × W) [
        | ok a ↦ k (m w).1
        | throw f ↦ (throw f, (m w).1)
        | terminate ↦ (terminate, (m w).1)
      ])
      e

module _ {W Msg : Type 0} (ex : Bool) (api : MessageQueueApi W Msg) (m_id : ℕ) where
  -- A client that puts the messages of a list, each with its priority.
  pub put_prioritized : List (ℕ × Msg) → Action W (Unit {0})
  put_prioritized [] = pure tt
  put_prioritized ((p, m) ∷ ms) = put ex api m_id m p >> put_prioritized ms

module _ {W Msg : Type 0} (ex : Bool) (api : MessageQueueApi W Msg) (m_id bound : ℕ)
    (items : W → List (ℕ × Msg)) (queue : IsQueue api m_id bound items) where
  put_prioritized-items :
      (ms : List (ℕ × Msg)) (w : W)
      → length (items w) + length ms ≤ bound
      → ((put_prioritized ex api m_id ms w).0 ≡ ok tt)
        × (items (put_prioritized ex api m_id ms w).1 ≡ enqueue_all (items w) ms)
  unfolding put_prioritized put
  put_prioritized-items [] w h = (refl, refl)
  put_prioritized-items ((p, m) ∷ ms) w h = ground (
    arith,
    queue.put_room m p 0xFFFFFFFF w,
    length-enqueue p m (items w),
    put_prioritized-items ms (api.os_message_queue_put m_id m p 0xFFFFFFFF w).1,
  )

  get_all-messages :
      (b : Msg) (xs : List (ℕ × Msg)) (w : W)
      → items w ≡ xs
      → ((get_all ex api m_id b (length xs) w).0 ≡ ok (messages xs))
        × (items (get_all ex api m_id b (length xs) w).1 ≡ [])
  unfolding get_all get
  get_all-messages b [] w h = ground arith
  get_all-messages b ((p, m) ∷ xs) w h = ground (
    arith,
    queue.get_first b 0xFFFFFFFF w p m xs,
    get_all-messages b xs (api.os_message_queue_get m_id b 0xFFFFFFFF w).1,
  )

  -- Messages put with any priorities into an empty queue that has room for them all come out, without
  -- a failure and leaving it empty, in an order `xs` of falling priorities, in which the messages of
  -- each priority are those that were put with it, in the order of arrival.
  pub get_all-put_prioritized :
      (b : Msg) (ms : List (ℕ × Msg)) (w : W)
      → items w ≡ []
      → length ms ≤ bound
      → let (r, w') = (put_prioritized ex api m_id ms >> get_all ex api m_id b (length ms)) w in
        (xs : List (ℕ × Msg)) × (r ≡ ok (messages xs))
        × (items w' ≡ [])
        × Falling xs
        × ((p : ℕ) → of_priority p xs ≡ of_priority p ms)
  get_all-put_prioritized b ms w h l =
      let xs = enqueue_all [] ms in
      let put_in = put_prioritized-items ms w (rw h (omega arith)) in
      let w₁ = (put_prioritized ex api m_id ms w).1 in
      let taken = get_all-messages b xs w₁ (put_in.1 ∙ ap (λ s. enqueue_all s ms) h) in
      let full : length xs ≡ length ms = length-enqueue_all [] ms ∙ omega arith in
      let both = put_prioritized ex api m_id ms >> get_all ex api m_id b (length ms) in
      let opens : both w ≡ get_all ex api m_id b (length xs) w₁ =
        then_ok (put_prioritized ex api m_id ms) (get_all ex api m_id b (length ms)) w put_in.0
        ∙ ap (λ n. get_all ex api m_id b n w₁) (sym full) in
      (
        xs,
        ap (λ (s : Result (List Msg) × W). s.0) opens ∙ taken.0,
        ap (λ (s : Result (List Msg) × W). items s.1) opens ∙ taken.1,
        Falling-enqueue_all [] ms tt,
        λ p. of_priority-enqueue_all p [] ms tt,
      )
