-- ===== src/MessageQueue/Owned/Examples.antt =====
-- An instance of a history of owned messages: a queue of addresses with the handle 1 and room for two,
-- whose states hold two messages at most, in a system where nothing else runs.
use cmsis_cpp.Base.{
  ℕ, ◌+◌, ◌≤◌, ◌<◌, ◌≡◌, ◌⊎◌, refl, ap, ◌∙◌, List, [], ◌∷◌, ◌++◌, arith, length, ltb, ◌==◌,
  if◌then◌else◌,
}
use cmsis_cpp.Base.Counts.{count}
use cmsis_cpp.Base.Int.{ℤ}
use cmsis_cpp.Rtos.{os_ok, os_error_resource, os_error_timeout}
use cmsis_cpp.MessageQueue.{MessageQueueApi}
use cmsis_cpp.MessageQueue.Contract.{IsQueue, enqueue}
use cmsis_cpp.MessageQueue.Pointers.Outcomes.{KeepsBuffer}
use cmsis_cpp.MessageQueue.Owned.{Owner}
use cmsis_cpp.MessageQueue.Owned.Clearing.{IsHeap}
use cmsis_cpp.MessageQueue.Owned.Conservation.{
  Op, makes, puts, offers, gets, polls, clears, IsBounded, made, lost, places, history,
  history-conserves,
}

record Sample : Type 0 where
  cells : List (ℕ × ℕ)
  log : List ℕ

abbrev first_two : {A : Type 0} → List A → List A
first_two [] = []
first_two (x ∷ []) = x ∷ []
first_two (x ∷ y ∷ rest) = x ∷ y ∷ []

abbrev queued : Sample → List (ℕ × ℕ)
queued s = first_two s.cells

abbrev deleted : Sample → List ℕ
deleted s = s.log

abbrev take_first : ℕ → ℕ → List (ℕ × ℕ) → List ℕ → (ℤ × ℕ) × Sample
take_first b time [] d =
    ((if time == 0 then os_error_resource else os_error_timeout, b), record { cells = []; log = d })
take_first b time ((p, m) ∷ rest) d = ((os_ok, m), record { cells = rest; log = d })

abbrev sample_put : ℕ → ℕ → ℕ → ℕ → Sample → ℤ × Sample
sample_put m_id m p time s =
    if ltb (length (queued s)) 2
    then (os_ok, record { cells = enqueue p m (queued s); log = s.log })
    else (if time == 0 then os_error_resource else os_error_timeout, s)

abbrev sample_api : MessageQueueApi Sample ℕ
sample_api = record {
  os_kernel_get_tick_freq = λ s. 1000;
  os_message_queue_new = λ max_len ele_len s. (1, s);
  os_message_queue_delete = λ m_id s. (os_ok, s);
  os_message_queue_put = sample_put;
  os_message_queue_get = λ m_id b time s. take_first b time (queued s) s.log;
  os_message_queue_get_count = λ m_id s. length (queued s);
  os_message_queue_get_capacity = λ m_id s. 2;
  os_message_queue_reset = λ m_id s. (os_ok, record s { cells = [] });
}

abbrev sample_delete : ℕ → Sample → Sample
sample_delete p s = record s { log = s.log ++ p ∷ [] }

length-first_two : (xs : List (ℕ × ℕ)) → length (first_two xs) ≤ 2
length-first_two [] = omega arith
length-first_two (x ∷ []) = omega arith
length-first_two (x ∷ y ∷ rest) = omega arith

first_two-enqueue :
    (p m : ℕ) (xs : List (ℕ × ℕ))
    → length (first_two xs) < 2
    → first_two (enqueue p m (first_two xs)) ≡ enqueue p m (first_two xs)
first_two-enqueue p m [] h = refl
first_two-enqueue p m ((q, k) ∷ []) h = ground arith
first_two-enqueue p m (x ∷ y ∷ rest) h = ground arith

take_first-log : (b time : ℕ) (xs : List (ℕ × ℕ)) (d : List ℕ) → (take_first b time xs d).1.log ≡ d
take_first-log b time [] d = refl
take_first-log b time (x ∷ xs) d = refl

first_two-rest :
    (x : ℕ × ℕ) (xs rest : List (ℕ × ℕ)) → first_two xs ≡ x ∷ rest → first_two rest ≡ rest
first_two-rest x [] rest h = cc
first_two-rest x (y ∷ []) [] h = refl
first_two-rest x (y ∷ []) (z ∷ rest) h = ground arith
first_two-rest x (y ∷ z ∷ ys) [] h = refl
first_two-rest x (y ∷ z ∷ ys) (u ∷ []) h = refl
first_two-rest x (y ∷ z ∷ ys) (u ∷ v ∷ rest) h = ground arith

take_first-waits :
    (b time : ℕ) (xs : List (ℕ × ℕ)) (d : List ℕ)
    → xs ≡ []
    → 0 < time
    → ((take_first b time xs d).0.0 ≡ os_ok) ⊎ ((take_first b time xs d).0.0 ≡ os_error_timeout)
take_first-waits b time [] d h p = ground arith
take_first-waits b time (x ∷ xs) d h p = ground arith

sample-IsQueue : IsQueue sample_api 1 2 queued
sample-IsQueue = record {
  put_room = λ m p time s h. ground (arith, first_two-enqueue p m s.cells);
  put_full = λ m p s. ground arith;
  put_wait = λ m p time s. ground arith;
  get_first = λ b time s p m rest h. (
    ap (λ xs. (take_first b time xs s.log).0) h,
    ap (λ xs. first_two (take_first b time xs s.log).1.cells) h
        ∙ first_two-rest (p, m) s.cells rest h,
  );
  get_none = λ b s h. (
    ap (λ xs. (take_first b 0 xs s.log).0.0) h,
    ap (λ xs. first_two (take_first b 0 xs s.log).1.cells) h,
  );
  get_wait = λ b time s h p. take_first-waits b time (queued s) s.log h p;
  count_length = λ s. refl;
  reset_empties = λ s. (refl, refl);
}

sample-IsHeap : IsHeap sample_api sample_delete 1 queued deleted
sample-IsHeap = record {
  delete_logged = λ p s. refl;
  delete_items = λ p s. refl;
  get_deleted = λ b time s. take_first-log b time (queued s) s.log;
  reset_deleted = λ s. refl;
}

sample-IsBounded : IsBounded sample_api 1 2 queued deleted
sample-IsBounded = record {
  put_deleted = λ m p time s. ground arith;
  capacity_bound = λ s. refl;
  within_bound = λ s. length-first_two s.cells;
}

take_first-keeps :
    (b time : ℕ) (xs : List (ℕ × ℕ)) (d : List ℕ) → xs ≡ [] → (take_first b time xs d).0.1 ≡ b
take_first-keeps b time xs d h = ap (λ ys. (take_first b time ys d).0.1) h

sample-KeepsBuffer : KeepsBuffer sample_api 1 queued
sample-KeepsBuffer = record { buffer_kept = λ b time s. take_first-keeps b time (queued s) s.log }

abbrev owner_of_none : Owner Sample
owner_of_none = record { world = record { cells = []; log = [] }; owned = 0 }

-- Two objects are put and received; the next two fill the queue, so that the fifth, at 56, is not put
-- and deleted for the sixth, at 60, which a put with a duration loses. Clearing deletes the two messages.
abbrev sample_calls : List Op
sample_calls =
    makes 40
    ∷ puts 1
    ∷ makes 44
    ∷ puts 2
    ∷ polls
    ∷ gets
    ∷ makes 48
    ∷ puts 0
    ∷ offers 0
    ∷ makes 56
    ∷ puts 0
    ∷ makes 60
    ∷ offers 0
    ∷ makes 64
    ∷ clears
    ∷ []

history-conserves_example :
    places queued deleted 60 (history sample_api sample_delete 1 2 sample_calls owner_of_none)
      + count 60 (lost sample_api sample_delete 1 2 sample_calls owner_of_none)
    ≡ made 60 sample_calls + places queued deleted 60 owner_of_none
history-conserves_example =
    history-conserves sample_api sample_delete 1 2 queued deleted sample-IsQueue sample-IsHeap
      sample-IsBounded sample-KeepsBuffer 60 sample_calls owner_of_none (omega arith)
