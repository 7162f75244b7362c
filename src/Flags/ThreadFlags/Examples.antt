-- ===== src/Flags/ThreadFlags/Examples.antt =====
-- An instance of the threads' history: each thread's flags are the low 31 bits of a number.
use Prim.Native.Nat.{bit_or}
use cmsis_cpp.Base.{
  ℕ, ◌/◌, ◌%◌, ◌^◌, ◌<◌, ◌≡◌, refl, ◌==◌, List, [], ◌∷◌, arith, if◌then◌else◌, inl, inr, eq-cases,
}
use cmsis_cpp.Base.Bits.{bit_or-lt}
use cmsis_cpp.Rtos.{os_flags_error_resource, os_flags_error_timeout}
use cmsis_cpp.Flags.FlagSet.{without-lt, left-lt}
use cmsis_cpp.Flags.FlagSet.{gets, polls, flags_were, missed, without, met, left}
use cmsis_cpp.Flags.ThreadFlags.{ThreadFlagsApi}
use cmsis_cpp.Flags.ThreadFlags.History.{
  Op, own, posts, update, FitsAll, HasThreadFlags, spec_run, history, threads_history-refines,
}

record Threads : Type 0 where
  running : ℕ
  bits : ℕ → ℕ

abbrev sample_view : Threads → ℕ → ℕ
sample_view w i = w.bits i % 2 ^ 31

abbrev store : ℕ → ℕ → Threads → Threads
store i v w = record w { bits = update w.bits i v }

abbrev sample_wait : ℕ → ℕ → ℕ → Threads → ℕ × Threads
sample_wait mask option time w =
    let f = sample_view w w.running in
    if met (option % 2 == 1) mask f
    then (f, store w.running (left (option / 2 == 1) mask f) w)
    else (if time == 0 then os_flags_error_resource else os_flags_error_timeout, w)

abbrev sample_api : ThreadFlagsApi Threads
sample_api = record {
  os_kernel_get_tick_freq = λ w. 1000;
  os_thread_get_id = λ w. w.running;
  os_thread_flags_set = λ i mask w. let f = bit_or (sample_view w i) mask in (f, store i f w);
  os_thread_flags_clear =
      λ mask w. let f = sample_view w w.running in (f, store w.running (without f mask) w);
  os_thread_flags_get = λ w. (sample_view w w.running, w);
  os_thread_flags_wait = sample_wait;
}

abbrev switch_to : ℕ → Threads → Threads
switch_to i w = record w { running = i }

view-store :
    (i v : ℕ) (w : Threads) → v < 2 ^ 31 → sample_view (store i v w) ≡ update (sample_view w) i v
view-store i v w h = λ k j. pointwise j k
  where
    pointwise : (j : ℕ) → sample_view (store i v w) j ≡ update (sample_view w) i v j
    pointwise j = elim (eq-cases j i) [ inl e ↦ ground arith | inr n ↦ ground arith ]

sample-HasThreadFlags : HasThreadFlags sample_api sample_view switch_to
sample-HasThreadFlags = record {
  switch_running = λ i w. refl;
  switch_view = λ i w. refl;
  flags_fit = λ i w. omega arith;
  get_flags = λ w. (refl, refl);
  set_union = λ i mask w n h.
      (refl, view-store i _ w (bit_or-lt 31 (sample_view w i) mask (omega arith) h));
  clear_rest = λ mask w h.
      (refl, view-store w.running _ w (without-lt (sample_view w w.running) mask (omega arith)));
  wait_met = λ mask option time w p h m.
      let f = sample_view w w.running in
      let v = left (option / 2 == 1) mask f in
      let stored = view-store w.running v w (left-lt (option / 2 == 1) mask f (omega arith)) in
      rw m (refl, stored);
  wait_unmet = λ mask option w p h m. rw m (refl, refl);
}

-- The thread 0 sets two flags of 1, which takes one of them, finds the other alone, and reads it; 0 has
-- none itself.
abbrev sample_calls : List Op
sample_calls = posts 0 1 6 ∷ own 1 (polls 2 0) ∷ own 1 (polls 6 1) ∷ own 1 gets ∷ own 0 gets ∷ []

sample_calls-FitsAll : FitsAll sample_calls
unfolding FitsAll
sample_calls-FitsAll = omega arith

abbrev none_set : Threads
none_set = record { running = 1; bits = λ i. 0 }

threads_history-refines_example :
    ((history sample_api switch_to sample_calls none_set).0 ≡ (spec_run sample_calls (λ i. 0)).0)
    × (sample_view (history sample_api switch_to sample_calls none_set).1
        ≡ (spec_run sample_calls (λ i. 0)).1)
threads_history-refines_example =
    threads_history-refines sample_api sample_view switch_to sample-HasThreadFlags sample_calls
      none_set sample_calls-FitsAll

spec_run_calls :
    (spec_run sample_calls (λ i. 0)).0
    ≡ flags_were 6 ∷ flags_were 6 ∷ missed ∷ flags_were 4 ∷ flags_were 0 ∷ []
unfolding spec_run
spec_run_calls = refl
