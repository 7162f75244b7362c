-- ===== src/Flags/FlagSet.antt =====
-- A set of 31 flags, as a number, and the calls on it that event flags and thread flags have in common.
use Prim.Native.Nat.{bit_and, bit_or, bit_xor}
use cmsis_cpp.Base.{ℕ, ◌/◌, ◌%◌, ◌^◌, ◌<◌, ◌≡◌, Bool, not, ◌==◌, arith, if◌then◌else◌}
use cmsis_cpp.Base.{true, false}
use cmsis_cpp.Base.Bits.{bit_and-le}
use cmsis_cpp.Rtos.{Result, ok, throw, terminate}
use cmsis_cpp.Flags.WaitFlag.{wait_option}
use cmsis_cpp.Flags.WaitFlag.Options.{wait_option_bits}

-- `polls mask flg` is wait_for(mask, flg, ...) with a duration of 0.
pub data Op : Type 0 where
  sets clears : ℕ → Op
  gets : Op
  polls : ℕ → ℕ → Op

pub data Answer : Type 0 where
  flags_were : ℕ → Answer
  missed failed : Answer

abbrev pub without : ℕ → ℕ → ℕ
without flags mask = bit_and flags (bit_xor mask 0x7FFFFFFF)

-- Are the flags of the mask set, all or any of them?
abbrev pub met : Bool → ℕ → ℕ → Bool
met all mask flags = if all then bit_and flags mask == mask else not (bit_and flags mask == 0)

abbrev pub left : Bool → ℕ → ℕ → ℕ
left keep mask flags = if keep then flags else without flags mask

-- `flg` is a combination of `all`, which is 1, and `no_clear`, which is 2.
abbrev pub wants_all : ℕ → Bool
wants_all flg = flg % 2 == 1

abbrev pub keeps : ℕ → Bool
keeps flg = flg / 2 == 1

-- The abstract calls: the answer, and the flags afterwards.
abbrev pub spec_step : Op → ℕ → Answer × ℕ
spec_step (sets mask) f = (flags_were (bit_or f mask), bit_or f mask)
spec_step (clears mask) f = (flags_were f, without f mask)
spec_step gets f = (flags_were f, f)
spec_step (polls mask flg) f =
    if met (wants_all flg) mask f then (flags_were f, left (keeps flg) mask f) else (missed, f)

-- Masks of the 31 flags, and options of wait_flag; a poll asks for a flag at least.
abbrev pub Fits : Op → Type 0
Fits (sets mask) = mask < 2 ^ 31
Fits (clears mask) = mask < 2 ^ 31
Fits gets = 0 < 1
Fits (polls mask flg) = (0 < mask) × (mask < 2 ^ 31) × (flg < 4)

-- What the caller sees of a call's result. A failure is one whether it throws or ends the program.
abbrev pub value_answer : Result ℕ → Answer
value_answer (ok v) = flags_were v
value_answer (throw e) = failed
value_answer terminate = failed

pub wait_option-same : (flg : ℕ) → flg < 4 → wait_option flg ≡ flg
wait_option-same flg h = let b = wait_option_bits flg h in omega arith

pub without-lt : (f mask : ℕ) → f < 2 ^ 31 → without f mask < 2 ^ 31
without-lt f mask h = omega (arith, bit_and-le f (bit_xor mask 0x7FFFFFFF))

pub left-lt : (keep : Bool) (mask f : ℕ) → f < 2 ^ 31 → left keep mask f < 2 ^ 31
left-lt true mask f h = h
left-lt false mask f h = without-lt f mask h
