-- ===== src/Flags/WaitFlag.antt =====
-- include/WaitFlag.h: `wait_flag` and its operators; a flag is its uint32_t value. And what the flag
-- functions of src/EventFlag.cpp and src/ThreadFlag.cpp have in common: the wait option, and the
-- reading of a uint32_t result as an int32_t.
pub mod Options
use Prim.Native.Nat.{bit_and, bit_or}
use cmsis_cpp.Base.{ℕ, ◌-◌, ◌/◌, ◌%◌, ◌^◌, Bool, ◌==◌, if◌then◌else◌}
use cmsis_cpp.Base.Int.{ℤ, pos, negsuc, signed32, is_negative}
use cmsis_cpp.Rtos.{
  Action, Category, pure, fail_if, ◌>>=◌, ◌>>◌, system_error, os_flags_wait_all, os_flags_wait_any,
  os_flags_no_clear,
}

abbrev pub any : ℕ
any = 0

abbrev pub all : ℕ
all = 1

abbrev pub no_clear : ℕ
no_clear = 2

-- operator| and operator&
unfoldable pub flag_or : ℕ → ℕ → ℕ
flag_or left right = bit_or left right

unfoldable pub flag_and : ℕ → ℕ → ℕ
flag_and left right = bit_and left right

-- operator|= and operator&=, whose left operand is passed by value: the caller's variable after the
-- call, and the result
pub flag_or_assign : ℕ → ℕ → ℕ × ℕ
unfolding flag_or
flag_or_assign left right = let copy = flag_or left right in (left, copy)

pub flag_and_assign : ℕ → ℕ → ℕ × ℕ
unfolding flag_and
flag_and_assign left right = let copy = flag_and left right in (left, copy)

-- The `option` argument of the two functions that wait.
unfoldable pub wait_option : ℕ → ℕ
unfolding flag_and
wait_option flg =
    let option = if flag_and flg all == all then os_flags_wait_all else os_flags_wait_any in
    if flag_and flg no_clear == no_clear then bit_or option os_flags_no_clear else option

-- static_cast<uint32_t> of an int32_t
abbrev pub u32_of_int : ℤ → ℕ
u32_of_int (pos n) = n
u32_of_int (negsuc n) = 2 ^ 32 - 1 - n

-- `int32_t flags = v; if (flags < 0) throw std::system_error(flags, category, ...); return flags;`
abbrev pub checked_flags : {W : Type 0} → Bool → Category → ℕ → Action W ℕ
checked_flags ex category v = do
  let flags = signed32 v
  fail_if ex (is_negative flags) (system_error flags category)
  pure (u32_of_int flags)

-- `v & osFlagsError` is not 0: bit 31 of a uint32_t.
abbrev pub has_error : ℕ → Bool
has_error v = v / 2 ^ 31 % 2 == 1
