-- ===== src/Ticks.antt =====
-- The conversion of a std::chrono::microseconds timeout into RTOS ticks, which stands in the same
-- words in src/Semaphore.cpp, src/Mutex.cpp, src/MessageQueue.cpp, src/EventFlag.cpp,
-- src/ThreadFlag.cpp, src/Timer.cpp and src/Thread.cpp. `usec.count()` is an int64_t, and its
-- product with the tick frequency is taken to wrap around.
pub mod Range
pub mod Durations
mod Examples
use cmsis_cpp.Base.{ℕ, zero, suc, ◌+◌, ◌-◌, ◌*◌, ◌/◌, ◌%◌, ◌^◌, ltb, if◌then◌else◌}
use cmsis_cpp.Base.Int.{ℤ, pos, negsuc}
use cmsis_cpp.Rtos.{os_wait_forever}

-- -n
abbrev pub neg : ℕ → ℤ
neg zero = pos 0
neg (suc n) = negsuc n

-- int64_t arithmetic: the product with a uint32_t, its wrap-around, and C++'s division
pub times : ℤ → ℕ → ℤ
times (pos a) b = pos (a * b)
times (negsuc a) b = neg (suc a * b)

pub wrap64 : ℤ → ℤ
wrap64 (pos n) = let r = n % 2 ^ 64 in if ltb r (2 ^ 63) then pos r else negsuc (2 ^ 64 - r - 1)
wrap64 (negsuc n) = let r = n % 2 ^ 64 in if ltb r (2 ^ 63) then negsuc r else pos (2 ^ 64 - r - 1)

pub quotient : ℤ → ℕ → ℤ
quotient (pos a) d = pos (a / d)
quotient (negsuc a) d = neg (suc a / d)

-- static_cast<uint32_t>
unfoldable pub to_u32 : ℤ → ℕ
to_u32 (pos n) = n % 2 ^ 32
to_u32 (negsuc n) = 2 ^ 32 - 1 - n % 2 ^ 32

-- std::chrono::microseconds::period::den
abbrev pub usec_den : ℕ
usec_den = 1000000

-- std::chrono::microseconds::max()
abbrev pub usec_max : ℤ
usec_max = pos 0x7FFFFFFFFFFFFFFF

unfoldable pub timeout_ticks : ℤ → ℕ → ℕ
unfolding times wrap64 quotient to_u32
timeout_ticks usec freq =
    let ticks = to_u32 (quotient (wrap64 (times usec freq)) usec_den) in
    if ltb 0xFFFFFFFF ticks then os_wait_forever else ticks
