-- ===== src/Flags/Event/History.antt =====
-- An event object for which no thread waits, over a history of calls, against a set of 31 flags.
use Prim.Native.Nat.{bit_or}
use cmsis_cpp.Base.{
  ℕ, ◌/◌, ◌%◌, ◌^◌, ◌<◌, ◌≡◌, refl, inl, inr, true, false, ◌==◌, List, [], ◌∷◌, arith, Bool-cases,
}
use cmsis_cpp.Base.Int.{pos}
use cmsis_cpp.Ticks.Range.{timeout_ticks_zero}
use cmsis_cpp.Rtos.{Result, ok, throw, terminate, os_flags_error_resource}
use cmsis_cpp.Flags.FlagSet.{
  Op, sets, clears, gets, polls, Answer, flags_were, missed, failed, without, met, left, wants_all,
  spec_step, Fits, value_answer, wait_option-same,
}
use cmsis_cpp.Flags.Event.{EventApi, Status, no_timeout, timeout, get, set, clear, wait_for_usec}

unfoldable pub spec_run : List Op → ℕ → List Answer × ℕ
spec_run [] f = ([], f)
spec_run (op ∷ ops) f =
    let (a, f') = spec_step op f in let (as', f'') = spec_run ops f' in (a ∷ as', f'')

unfoldable pub FitsAll : List Op → Type 0
FitsAll [] = 0 < 1
FitsAll (op ∷ ops) = Fits op × FitsAll ops

-- What CMSIS-RTOS2 documents of one live event flags object, as long as no thread waits for it. The
-- options osFlagsWaitAll and osFlagsNoClear are the bits 0 and 1.
pub record HasFlags {W : Type 0} (api : EventApi W) (m_id : ℕ) (flags : W → ℕ) : Type 0 where
  pub flags_fit : (w : W) → flags w < 2 ^ 31
  pub get_flags :
      (w : W)
      → ((api.os_event_flags_get m_id w).0 ≡ flags w)
        × (flags (api.os_event_flags_get m_id w).1 ≡ flags w)
  pub set_union :
      (mask : ℕ) (w : W)
      → mask < 2 ^ 31
      → ((api.os_event_flags_set m_id mask w).0 ≡ bit_or (flags w) mask)
        × (flags (api.os_event_flags_set m_id mask w).1 ≡ bit_or (flags w) mask)
  pub clear_rest :
      (mask : ℕ) (w : W)
      → mask < 2 ^ 31
      → ((api.os_event_flags_clear m_id mask w).0 ≡ flags w)
        × (flags (api.os_event_flags_clear m_id mask w).1 ≡ without (flags w) mask)
  pub wait_met :
      (mask option time : ℕ) (w : W)
      → 0 < mask
      → mask < 2 ^ 31
      → met (option % 2 == 1) mask (flags w) ≡ true
      → ((api.os_event_flags_wait m_id mask option time w).0 ≡ flags w)
        × (flags (api.os_event_flags_wait m_id mask option time w).1
            ≡ left (option / 2 == 1) mask (flags w))
  pub wait_unmet :
      (mask option : ℕ) (w : W)
      → 0 < mask
      → mask < 2 ^ 31
      → met (option % 2 == 1) mask (flags w) ≡ false
      → ((api.os_event_flags_wait m_id mask option 0 w).0 ≡ os_flags_error_resource)
        × (flags (api.os_event_flags_wait m_id mask option 0 w).1 ≡ flags w)

-- What the caller sees of a call's result. A failure is one whether it throws or ends the program.
abbrev poll_answer : Result (Status × ℕ) → Answer
poll_answer (ok (no_timeout, v)) = flags_were v
poll_answer (ok (timeout, v)) = missed
poll_answer (throw e) = failed
poll_answer terminate = failed

module _ {W : Type 0} (api : EventApi W) (m_id : ℕ) where
  -- The calls with exceptions compiled in, after which the client goes on.
  abbrev pub perform : Op → W → Answer × W
  perform (sets mask) w = let (r, w') = set true api m_id mask w in (value_answer r, w')
  perform (clears mask) w = let (r, w') = clear true api m_id mask w in (value_answer r, w')
  perform gets w = let (r, w') = get true api m_id w in (value_answer r, w')
  perform (polls mask flg) w =
      let (r, w') = wait_for_usec true api m_id mask flg (pos 0) w in (poll_answer r, w')

  pub history : List Op → W → List Answer × W
  history [] w = ([], w)
  history (op ∷ ops) w =
      let (a, w') = perform op w in let (as', w'') = history ops w' in (a ∷ as', w'')

module _ {W : Type 0} (api : EventApi W) (m_id : ℕ) (flags : W → ℕ)
    (has_flags : HasFlags api m_id flags) where
  perform-refines :
      (op : Op) (w : W)
      → Fits op
      → ((perform api m_id op w).0 ≡ (spec_step op (flags w)).0)
        × (flags (perform api m_id op w).1 ≡ (spec_step op (flags w)).1)
  unfolding get set clear wait_for_usec
  perform-refines (sets mask) w h = ground (
    arith,
    has_flags.set_union mask w h,
    has_flags.flags_fit (api.os_event_flags_set m_id mask w).1,
  )
  perform-refines (clears mask) w h =
      ground (arith, has_flags.clear_rest mask w h, has_flags.flags_fit w)
  perform-refines gets w h = ground (arith, has_flags.get_flags w, has_flags.flags_fit w)
  perform-refines (polls mask flg) w h =
      let same = wait_option-same flg h.2 in
      let zero_ticks = timeout_ticks_zero (api.os_kernel_get_tick_freq w) in
      elim (Bool-cases (met (wants_all flg) mask (flags w))) [
        | inl m ↦ ground (
          arith,
          same,
          zero_ticks,
          has_flags.wait_met mask flg 0 w h.0 h.1 m,
          has_flags.flags_fit w,
          m,
        )
        | inr m ↦ ground (arith, same, zero_ticks, has_flags.wait_unmet mask flg w h.0 h.1 m, m)
      ]

  -- Over any history of set, clear and get, and of timed waits with a duration of 0, with masks of the
  -- 31 flags and any options, an event for which no thread waits answers every call as a set of flags
  -- does, and ends with the same flags: a wait that finds all or any of its flags, as its option says,
  -- reports the flags before it and takes those of its mask unless `no_clear` is set, and any other
  -- reports a timeout.
  pub event_history-refines :
      (ops : List Op) (w : W)
      → FitsAll ops
      → ((history api m_id ops w).0 ≡ (spec_run ops (flags w)).0)
        × (flags (history api m_id ops w).1 ≡ (spec_run ops (flags w)).1)
  unfolding history spec_run FitsAll
  event_history-refines [] w h = (refl, refl)
  event_history-refines (op ∷ ops) w h =
      let s = perform-refines op w h.0 in
      let rest = event_history-refines ops (perform api m_id op w).1 h.1 in ground (arith, s, rest)
