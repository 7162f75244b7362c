-- ===== src/MessageQueue/Examples.antt =====
-- Instances of the message queue's theorems: a queue of addresses with the handle 1 and room for two,
-- in a system where nothing else runs.
use cmsis_cpp.Base.{some}
use cmsis_cpp.Ticks.Durations.{Duration, milliseconds, implicit_usec}
use cmsis_cpp.Rtos.{Action}
use cmsis_cpp.MessageQueue.{MqStatus, empty}
use cmsis_cpp.MessageQueue.Values.{get_value_for}
use cmsis_cpp.MessageQueue.Refinement.{
  Op, puts, gets, asks_size, asks_empty, clears, stored, missed, sized, got, emptied, cleared,
}
use cmsis_cpp.MessageQueue.Pointers.{get_pointer_for}
use cmsis_cpp.MessageQueue.Pointers.Outcomes.{KeepsBuffer, get_pointer_for-empty}
use cmsis_cpp.MessageQueue.Refinement.{history, spec_run, queue_history-refines}
use cmsis_cpp.Base.{
  ℕ, ◌≤◌, ◌<◌, ◌≡◌, ◌⊎◌, refl, ap, true, List, [], ◌∷◌, ◌++◌, arith, length, ltb, ◌==◌,
  if◌then◌else◌,
}
use cmsis_cpp.Base.Int.{ℤ, pos}
use cmsis_cpp.Ticks.{timeout_ticks}
use cmsis_cpp.Rtos.{
  ok, throw, ◌>>◌, system_error, os_category, os_ok, os_error_parameter, os_error_resource,
  os_error_timeout,
}
use cmsis_cpp.MessageQueue.{
  MessageQueueApi, no_timeout, timeout, full, put_for, get_for, destroy, move_construct,
}
use cmsis_cpp.MessageQueue.Contract.{IsQueue, enqueue}
use cmsis_cpp.MessageQueue.Owned.{Owner, put_owned_for, clear_owned}
use cmsis_cpp.MessageQueue.Owned.Clearing.{IsHeap, clear_owned-deletes, put_owned_for_loses}
use cmsis_cpp.MessageQueue.Priority.{
  put_prioritized, messages, Falling, of_priority, get_all-put_prioritized,
}
use cmsis_cpp.MessageQueue.Order.{put_all, get_all, get_all-put_all}
use cmsis_cpp.MessageQueue.Transfer.{put_for-outcome, get_for-first, destroy_moved_from}

record Sample : Type 0 where
  items : List (ℕ × ℕ)
  deleted : List ℕ

abbrev sample_put : ℕ → ℕ → ℕ → ℕ → Sample → ℤ × Sample
sample_put m_id m p time s =
    if ltb (length s.items) 2
    then (os_ok, record s { items = enqueue p m s.items })
    else (if time == 0 then os_error_resource else os_error_timeout, s)

abbrev take_first : ℕ → ℕ → List (ℕ × ℕ) → List ℕ → (ℤ × ℕ) × Sample
take_first b time [] d = (
  (if time == 0 then os_error_resource else os_error_timeout, b),
  record { items = []; deleted = d },
)
take_first b time ((p, m) ∷ rest) d = ((os_ok, m), record { items = rest; deleted = d })

abbrev sample_get : ℕ → ℕ → ℕ → Sample → (ℤ × ℕ) × Sample
sample_get m_id b time s = take_first b time s.items s.deleted

abbrev sample_api : MessageQueueApi Sample ℕ
sample_api = record {
  os_kernel_get_tick_freq = λ s. 1000;
  os_message_queue_new = λ max_len ele_len s. (1, s);
  os_message_queue_delete = λ m_id s. (if m_id == 1 then os_ok else os_error_parameter, s);
  os_message_queue_put = sample_put;
  os_message_queue_get = sample_get;
  os_message_queue_get_count = λ m_id s. length s.items;
  os_message_queue_get_capacity = λ m_id s. 2;
  os_message_queue_reset = λ m_id s. (os_ok, record s { items = [] });
}

abbrev sample_items : Sample → List (ℕ × ℕ)
sample_items s = s.items

abbrev sample_deleted : Sample → List ℕ
sample_deleted s = s.deleted

abbrev sample_delete : ℕ → Sample → Sample
sample_delete p s = record s { deleted = s.deleted ++ p ∷ [] }

take_first-deleted :
    (b time : ℕ) (xs : List (ℕ × ℕ)) (d : List ℕ) → (take_first b time xs d).1.deleted ≡ d
take_first-deleted b time [] d = refl
take_first-deleted b time (x ∷ xs) d = refl

sample-IsQueue : IsQueue sample_api 1 2 sample_items
sample-IsQueue = record {
  put_room = λ m p time s. ground arith;
  put_full = λ m p s. ground arith;
  put_wait = λ m p time s. ground arith;
  get_first = λ b time s p m rest h. (
    ap (λ xs. (take_first b time xs s.deleted).0) h,
    ap (λ xs. (take_first b time xs s.deleted).1.items) h,
  );
  get_none = λ b s h. (
    ap (λ xs. (take_first b 0 xs s.deleted).0.0) h,
    ap (λ xs. (take_first b 0 xs s.deleted).1.items) h,
  );
  get_wait = λ b time s h p. ground arith;
  count_length = λ s. refl;
  reset_empties = λ s. (refl, refl);
}

sample-IsHeap : IsHeap sample_api sample_delete 1 sample_items sample_deleted
sample-IsHeap = record {
  delete_logged = λ p s. refl;
  delete_items = λ p s. refl;
  get_deleted = λ b time s. take_first-deleted b time s.items s.deleted;
  reset_deleted = λ s. refl;
}

abbrev none_queued : Sample
none_queued = record { items = []; deleted = [] }

abbrev two_queued : Sample
two_queued = record { items = (0, 40) ∷ (0, 44) ∷ []; deleted = [] }

put_for-outcome_example :
    ((length (sample_items none_queued) < 2)
      × ((put_for true sample_api 1 8 0 (pos 0) none_queued).0 ≡ ok no_timeout)
      × (sample_items (put_for true sample_api 1 8 0 (pos 0) none_queued).1 ≡ (0, 8) ∷ []))
    ⊎ (((2 ≤ length (sample_items none_queued))
          × (timeout_ticks (pos 0) 1000 ≡ 0)
          × ((put_for true sample_api 1 8 0 (pos 0) none_queued).0 ≡ ok full)
          × (sample_items (put_for true sample_api 1 8 0 (pos 0) none_queued).1 ≡ []))
        ⊎ ((2 ≤ length (sample_items none_queued))
            × (0 < timeout_ticks (pos 0) 1000)
            × (((put_for true sample_api 1 8 0 (pos 0) none_queued).0 ≡ ok no_timeout)
                ⊎ ((put_for true sample_api 1 8 0 (pos 0) none_queued).0 ≡ ok timeout))))
put_for-outcome_example =
    put_for-outcome true sample_api 1 2 sample_items sample-IsQueue 8 0 0 none_queued

get_for-first_example :
    ((get_for true sample_api 1 0 (pos 0) two_queued).0 ≡ ok (no_timeout, 40))
    × (sample_items (get_for true sample_api 1 0 (pos 0) two_queued).1 ≡ (0, 44) ∷ [])
get_for-first_example =
    get_for-first true sample_api 1 2 sample_items sample-IsQueue 0 40 0 0 ((0, 44) ∷ []) two_queued
      refl

destroy_moved_from_example :
    (destroy true sample_api (move_construct 1).1 none_queued).0
    ≡ throw (system_error os_error_parameter os_category)
destroy_moved_from_example =
    destroy_moved_from true sample_api 1 2 sample_items sample-IsQueue none_queued refl

get_all-put_all_example :
    (((put_all true sample_api 1 (8 ∷ 9 ∷ []) >> get_all true sample_api 1 0 2) none_queued).0
      ≡ ok (8 ∷ 9 ∷ []))
    × (sample_items
          ((put_all true sample_api 1 (8 ∷ 9 ∷ []) >> get_all true sample_api 1 0 2) none_queued).1
        ≡ [])
get_all-put_all_example =
    get_all-put_all true sample_api 1 2 sample_items sample-IsQueue 0 (8 ∷ 9 ∷ []) none_queued refl
      (omega arith)

clear_owned-deletes_example :
    ((clear_owned true sample_api sample_delete 3 1 two_queued).0 ≡ ok true)
    × ((clear_owned true sample_api sample_delete 3 1 two_queued).1.items ≡ [])
    × ((clear_owned true sample_api sample_delete 3 1 two_queued).1.deleted ≡ 40 ∷ 44 ∷ [])
clear_owned-deletes_example =
    clear_owned-deletes true sample_api sample_delete 1 2 sample_items sample_deleted sample-IsQueue
      sample-IsHeap 3 two_queued (omega arith)

abbrev owner_of_full : Owner Sample
owner_of_full = record { world = two_queued; owned = 48 }

put_owned_for_loses_example :
    ((put_owned_for true sample_api sample_delete 1 0 (pos 0) owner_of_full).0 ≡ ok full)
    × ((put_owned_for true sample_api sample_delete 1 0 (pos 0) owner_of_full).1.world.items
        ≡ (0, 40) ∷ (0, 44) ∷ [])
    × ((put_owned_for true sample_api sample_delete 1 0 (pos 0) owner_of_full).1.owned ≡ 0)
    × ((put_owned_for true sample_api sample_delete 1 0 (pos 0) owner_of_full).1.world.deleted ≡ [])
unfolding timeout_ticks
put_owned_for_loses_example =
    put_owned_for_loses true sample_api sample_delete 1 2 sample_items sample_deleted sample-IsQueue
      sample-IsHeap owner_of_full 0 0 (omega arith) refl refl

-- The message of priority 4 comes out before that of priority 1.
get_all-put_prioritized_example :
    let (r, s) =
      (put_prioritized true sample_api 1 ((1, 7) ∷ (4, 8) ∷ []) >> get_all true sample_api 1 0 2)
        none_queued in
    (xs : List (ℕ × ℕ)) × (r ≡ ok (messages xs))
    × (sample_items s ≡ [])
    × Falling xs
    × ((p : ℕ) → of_priority p xs ≡ of_priority p ((1, 7) ∷ (4, 8) ∷ []))
get_all-put_prioritized_example =
    get_all-put_prioritized true sample_api 1 2 sample_items sample-IsQueue 0 ((1, 7) ∷ (4, 8) ∷ [])
      none_queued refl (omega arith)

take_first-keeps :
    (b time : ℕ) (xs : List (ℕ × ℕ)) (d : List ℕ) → xs ≡ [] → (take_first b time xs d).0.1 ≡ b
take_first-keeps b time xs d h = ap (λ ys. (take_first b time ys d).0.1) h

sample-KeepsBuffer : KeepsBuffer sample_api 1 sample_items
sample-KeepsBuffer = record { buffer_kept = λ b time s. take_first-keeps b time s.items s.deleted }

-- A variable that holds the address 60, and a duration of no milliseconds.
get_pointer_for-empty_example :
    let d : Duration = record { period = milliseconds; count = pos 0 } in
    (by_value : Action Sample (MqStatus × ℕ)) × (by_pointer : Action Sample (MqStatus × ℕ))
    × (get_value_for true sample_api 1 60 d ≡ some by_value)
    × (get_pointer_for true sample_api 1 60 d ≡ some by_pointer)
    × ((by_value none_queued).0 ≡ ok (empty, 60))
    × ((by_pointer none_queued).0 ≡ ok (empty, 0))
unfolding implicit_usec timeout_ticks
get_pointer_for-empty_example =
    get_pointer_for-empty true sample_api 1 2 sample_items sample-IsQueue sample-KeepsBuffer 60 0
      (record { period = milliseconds; count = pos 0 }) none_queued refl refl refl

-- Three messages for a queue of two, of which one waits for a room in vain, and what comes out.
abbrev sample_calls : List (Op ℕ)
sample_calls =
    puts 1 8 ∷ puts 2 9 ∷ puts 3 10 ∷ asks_size ∷ gets ∷ gets ∷ gets ∷ asks_empty ∷ clears ∷ []

queue_history-refines_example :
    ((history sample_api 1 60 sample_calls none_queued).0 ≡ (spec_run 2 sample_calls []).0)
    × (sample_items (history sample_api 1 60 sample_calls none_queued).1
        ≡ (spec_run 2 sample_calls []).1)
queue_history-refines_example =
    queue_history-refines sample_api 1 2 sample_items sample-IsQueue 60 sample_calls none_queued

spec_run_calls : spec_run 2 sample_calls [] ≡ (
  stored
      ∷ stored
      ∷ missed full
      ∷ sized 2
      ∷ got 9
      ∷ got 8
      ∷ missed empty
      ∷ emptied true
      ∷ cleared
      ∷ [],
  [],
)
unfolding spec_run
spec_run_calls = refl
