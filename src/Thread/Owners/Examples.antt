-- ===== src/Thread/Owners/Examples.antt =====
-- An instance of many thread objects: a system whose threads get the handles 1 to 3, each again once it is free.
use cmsis_cpp.Base.{
  ℕ, refl, Bool, true, false, not, ◌&&◌, ◌||◌, ◌==◌, List, [], ◌∷◌, none, arith, if◌then◌else◌,
}
use cmsis_cpp.Base.Int.{ℤ, pos}
use cmsis_cpp.Rtos.{os_ok, os_error_resource}
use cmsis_cpp.Thread.{
  construct, move_assign, swap, join, detach, destroy, current_id, thread_attr, ThreadApi,
  Attributes, joinable, get_id,
}
use cmsis_cpp.Thread.Owners.{
  Objects, Op, starts, moves, swaps, joins, detaches, drops, HasHandles, AllFresh, history,
}
use cmsis_cpp.Thread.Owners.Single.{Single}
use cmsis_cpp.Thread.Owners.Calls.{owners-Single}

-- The threads that nobody has joined, detached or terminated.
record Sample : Type 0 where
  open_threads : ℕ → Bool

-- A handle that is free is given again.
abbrev free_handle : (ℕ → Bool) → ℕ
free_handle f = if not (f 1) then 1 else if not (f 2) then 2 else 0

abbrev close : ℕ → Sample → Sample
close p s = record s { open_threads = λ q. s.open_threads q && not (q == p) }

abbrev claim : ℕ → Sample → ℤ × Sample
claim p s = (if s.open_threads p then os_ok else os_error_resource, close p s)

abbrev sample_api : ThreadApi Sample
sample_api = record {
  os_thread_new = λ attr s. (
    free_handle s.open_threads,
    record {
      open_threads = λ q. (not (q == 0) && q == free_handle s.open_threads) || s.open_threads q;
    },
  );
  os_thread_terminate = λ p s. (os_ok, close p s);
  os_thread_join = claim;
  os_thread_detach = claim;
  os_thread_suspend = λ p s. (os_ok, s);
  os_thread_resume = λ p s. (os_ok, s);
  os_thread_set_priority = λ p prio s. (os_ok, s);
  os_thread_get_priority = λ p s. pos 24;
  os_thread_get_name = λ p s. 0;
  os_thread_get_state = λ p s. pos 1;
  os_thread_get_stack_size = λ p s. 512;
  os_thread_get_stack_space = λ p s. 100;
  os_thread_exit = λ s. (tt, s);
  os_thread_get_id = λ s. 100;
}

abbrev sample_unclaimed : ℕ → Sample → Bool
sample_unclaimed p s = s.open_threads p

sample-HasHandles : HasHandles sample_api sample_unclaimed
sample-HasHandles = record {
  new_unclaimed = λ attr p s. ground arith;
  new_apart = λ attr s h. ground arith;
  join_unclaimed = λ p q s. ground arith;
  detach_unclaimed = λ p q s. ground arith;
  terminate_unclaimed = λ p q s. refl;
}

abbrev no_threads : Objects Sample
no_threads = record { world = record { open_threads = λ p. false }; slots = λ i. none }

no_threads-Single : Single sample_unclaimed no_threads
unfolding joinable get_id
no_threads-Single = record {
  owned = λ p u. absurd (cc);
  alone = λ i j n e. absurd (n refl);
  claimed = λ i n. absurd (n refl);
  named = λ i c. absurd (cc);
}

abbrev attributes : Attributes
attributes = record { stack_mem = 0; stack_size = 512; priority = 0; name = 0 }

-- Two threads, of which one is handed on, joined and its object destroyed, and the other detached; then
-- one that gets the handle of the first.
abbrev sample_calls : List Op
sample_calls =
    starts 0 attributes
    ∷ starts 1 attributes
    ∷ moves 2 0
    ∷ swaps 2 1
    ∷ swaps 1 2
    ∷ joins 2
    ∷ drops 2
    ∷ detaches 1
    ∷ starts 0 attributes
    ∷ []

sample_calls-AllFresh : AllFresh true sample_api sample_calls no_threads
unfolding construct joinable get_id move_assign swap join detach destroy current_id thread_attr
sample_calls-AllFresh = (
  λ j c e. ground arith,
  (λ j c e. ground arith, (tt, (tt, (tt, (tt, (tt, (tt, (λ j c e. ground arith, tt)))))))),
)

owners-Single_example : Single sample_unclaimed (history true sample_api sample_calls no_threads)
owners-Single_example =
    owners-Single true sample_api sample_unclaimed sample-HasHandles sample_calls no_threads
      sample_calls-AllFresh no_threads-Single
