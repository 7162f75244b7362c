-- ===== src/Flags/ThreadFlags/History.antt =====
-- The flags of any number of threads over a history of calls, none of which waits, against a set of flags
-- for each. The thread of number `i` has the id `suc i`; 0 is nobody's.
use Prim.Native.Nat.{bit_or}
use cmsis_cpp.Base.{
  ℕ, suc, ◌/◌, ◌%◌, ◌^◌, ◌<◌, ◌≡◌, ◌≢◌, refl, inl, inr, true, false, ◌==◌, List, [], ◌∷◌, arith,
  if◌then◌else◌, Bool-cases, sym, eq-cases,
}
use cmsis_cpp.Base.Int.{pos}
use cmsis_cpp.Ticks.Range.{timeout_ticks_zero}
use cmsis_cpp.Rtos.{Result, ok, throw, terminate, os_flags_error_resource}
use cmsis_cpp.Flags.FlagSet
use cmsis_cpp.Flags.FlagSet.{
  sets, clears, gets, polls, Answer, flags_were, missed, failed, without, met, left, wants_all,
  keeps, Fits, value_answer, wait_option-same,
}
use cmsis_cpp.Flags.ThreadFlags.{
  ThreadFlagsApi, Status, no_timeout, timeout, get, set, set_for, clear, wait_for_usec,
}

-- What the thread of number `thread` does: a call on its own flags, or thread_flags::set on the thread
-- of number `target`.
pub data Op : Type 0 where
  own : (thread : ℕ) → FlagSet.Op → Op
  posts : (thread target mask : ℕ) → Op

abbrev pub update : (ℕ → ℕ) → ℕ → ℕ → ℕ → ℕ
update s i v j = if j == i then v else s j

-- The abstract flags of all threads, by their ids.
abbrev pub spec_step : Op → (ℕ → ℕ) → Answer × (ℕ → ℕ)
spec_step (own thread op) s =
    let (a, f) = FlagSet.spec_step op (s (suc thread)) in (a, update s (suc thread) f)
spec_step (posts thread target mask) s =
    let f = bit_or (s (suc target)) mask in (flags_were f, update s (suc target) f)

unfoldable pub spec_run : List Op → (ℕ → ℕ) → List Answer × (ℕ → ℕ)
spec_run [] s = ([], s)
spec_run (op ∷ ops) s =
    let (a, s') = spec_step op s in let (as', s'') = spec_run ops s' in (a ∷ as', s'')

abbrev pub FitsThread : Op → Type 0
FitsThread (own thread op) = Fits op
FitsThread (posts thread target mask) = mask < 2 ^ 31

unfoldable pub FitsAll : List Op → Type 0
FitsAll [] = 0 < 1
FitsAll (op ∷ ops) = FitsThread op × FitsAll ops

-- What CMSIS-RTOS2 documents of thread flags, as long as no thread waits for them: `view` shows the flags
-- of every thread, and `switch` is what the scheduler does.
pub record HasThreadFlags {W : Type 0} (api : ThreadFlagsApi W) (view : W → ℕ → ℕ)
    (switch : ℕ → W → W) : Type 0 where
  pub switch_running : (i : ℕ) (w : W) → api.os_thread_get_id (switch i w) ≡ i
  pub switch_view : (i : ℕ) (w : W) → view (switch i w) ≡ view w
  pub flags_fit : (i : ℕ) (w : W) → view w i < 2 ^ 31
  pub get_flags :
      (w : W)
      → ((api.os_thread_flags_get w).0 ≡ view w (api.os_thread_get_id w))
        × (view (api.os_thread_flags_get w).1 ≡ view w)
  pub set_union :
      (i mask : ℕ) (w : W)
      → i ≢ 0
      → mask < 2 ^ 31
      → ((api.os_thread_flags_set i mask w).0 ≡ bit_or (view w i) mask)
        × (view (api.os_thread_flags_set i mask w).1 ≡ update (view w) i (bit_or (view w i) mask))
  pub clear_rest :
      (mask : ℕ) (w : W)
      → mask < 2 ^ 31
      → let i = api.os_thread_get_id w in
        ((api.os_thread_flags_clear mask w).0 ≡ view w i)
        × (view (api.os_thread_flags_clear mask w).1 ≡ update (view w) i (without (view w i) mask))
  pub wait_met :
      (mask option time : ℕ) (w : W)
      → 0 < mask
      → mask < 2 ^ 31
      → let i = api.os_thread_get_id w in
        met (option % 2 == 1) mask (view w i) ≡ true
        → ((api.os_thread_flags_wait mask option time w).0 ≡ view w i)
          × (view (api.os_thread_flags_wait mask option time w).1
              ≡ update (view w) i (left (option / 2 == 1) mask (view w i)))
  pub wait_unmet :
      (mask option : ℕ) (w : W)
      → 0 < mask
      → mask < 2 ^ 31
      → met (option % 2 == 1) mask (view w (api.os_thread_get_id w)) ≡ false
      → ((api.os_thread_flags_wait mask option 0 w).0 ≡ os_flags_error_resource)
        × (view (api.os_thread_flags_wait mask option 0 w).1 ≡ view w)

abbrev poll_answer : Result (Status × ℕ) → Answer
poll_answer (ok (no_timeout, v)) = flags_were v
poll_answer (ok (timeout, v)) = missed
poll_answer (throw e) = failed
poll_answer terminate = failed

module _ {W : Type 0} (api : ThreadFlagsApi W) (switch : ℕ → W → W) where
  -- The running thread's calls with exceptions compiled in, after which it goes on.
  abbrev pub perform_own : FlagSet.Op → W → Answer × W
  perform_own (sets mask) w = let (r, w') = set true api mask w in (value_answer r, w')
  perform_own (clears mask) w = let (r, w') = clear true api mask w in (value_answer r, w')
  perform_own gets w = let (r, w') = get true api w in (value_answer r, w')
  perform_own (polls mask flg) w =
      let (r, w') = wait_for_usec true api mask flg (pos 0) w in (poll_answer r, w')

  abbrev pub perform : Op → W → Answer × W
  perform (own thread op) w = perform_own op (switch (suc thread) w)
  perform (posts thread target mask) w =
      let (r, w') = set_for true api (suc target) mask (switch (suc thread) w) in
      (value_answer r, w')

  unfoldable pub history : List Op → W → List Answer × W
  history [] w = ([], w)
  history (op ∷ ops) w =
      let (a, w') = perform op w in let (as', w'') = history ops w' in (a ∷ as', w'')

update_same : (s : ℕ → ℕ) (i j : ℕ) → update s i (s i) j ≡ s j
update_same s i j = elim (eq-cases j i) [ inl e ↦ ground arith | inr n ↦ ground arith ]

keep_own : (s : ℕ → ℕ) (i : ℕ) → s ≡ update s i (s i)
keep_own s i = λ k j. sym (update_same s i j) k

module _ {W : Type 0} (api : ThreadFlagsApi W) (view : W → ℕ → ℕ) (switch : ℕ → W → W)
    (has_flags : HasThreadFlags api view switch) where
  own-refines :
      (op : FlagSet.Op) (w : W)
      → api.os_thread_get_id w ≢ 0
      → Fits op
      → let i = api.os_thread_get_id w in
        ((perform_own api switch op w).0 ≡ (FlagSet.spec_step op (view w i)).0)
        × (view (perform_own api switch op w).1
            ≡ update (view w) i (FlagSet.spec_step op (view w i)).1)
  unfolding get set clear wait_for_usec
  own-refines (sets mask) w n h =
      let i = api.os_thread_get_id w in
      ground (
        arith,
        has_flags.set_union i mask w n h,
        has_flags.flags_fit i (api.os_thread_flags_set i mask w).1,
      )
  own-refines (clears mask) w n h =
      ground (arith, has_flags.clear_rest mask w h, has_flags.flags_fit (api.os_thread_get_id w) w)
  own-refines gets w n h =
      let i = api.os_thread_get_id w in
      ground (arith, has_flags.get_flags w, has_flags.flags_fit i w, keep_own (view w) i)
  own-refines (polls mask flg) w n h =
      let i = api.os_thread_get_id w in
      let same = wait_option-same flg h.2 in
      let zero_ticks = timeout_ticks_zero (api.os_kernel_get_tick_freq w) in
      elim (Bool-cases (met (wants_all flg) mask (view w i))) [
        | inl m ↦ ground (
          arith,
          same,
          zero_ticks,
          has_flags.wait_met mask flg 0 w h.0 h.1 m,
          has_flags.flags_fit i w,
          m,
        )
        | inr m ↦ ground (
          arith,
          same,
          zero_ticks,
          has_flags.wait_unmet mask flg w h.0 h.1 m,
          keep_own (view w) i,
          m,
        )
      ]

  perform-refines :
      (op : Op) (w : W)
      → FitsThread op
      → ((perform api switch op w).0 ≡ (spec_step op (view w)).0)
        × (view (perform api switch op w).1 ≡ (spec_step op (view w)).1)
  unfolding set_for
  perform-refines (own thread op) w h =
      let i = suc thread in
      let r = has_flags.switch_running i w in
      let moved = own-refines op (switch i w) (λ e. omega (arith, e, r)) h in
      rw (r, has_flags.switch_view i w) at moved
  perform-refines (posts thread target mask) w h =
      let w' = switch (suc thread) w in
      let i = suc target in
      ground (
        arith,
        has_flags.switch_view (suc thread) w,
        has_flags.set_union i mask w' (λ e. omega (arith, e)) h,
        has_flags.flags_fit i (api.os_thread_flags_set i mask w').1,
      )

  -- Over any history of calls by any threads, each on its own flags or setting those of another, without
  -- a wait that takes time, with masks of the 31 flags and any options, every call is answered, and
  -- the flags of all threads are at the end, as with a set of flags for each thread: a call changes
  -- the flags of one thread alone.
  pub threads_history-refines :
      (ops : List Op) (w : W)
      → FitsAll ops
      → ((history api switch ops w).0 ≡ (spec_run ops (view w)).0)
        × (view (history api switch ops w).1 ≡ (spec_run ops (view w)).1)
  unfolding history spec_run FitsAll
  threads_history-refines [] w h = (refl, refl)
  threads_history-refines (op ∷ ops) w h =
      let s = perform-refines op w h.0 in
      let rest = threads_history-refines ops (perform api switch op w).1 h.1 in
      ground (arith, s, rest)
