-- ===== src/Flags.antt =====
-- Flags of both kinds: src/EventFlag.cpp and src/ThreadFlag.cpp with include/EventFlag.h,
-- include/ThreadFlag.h and include/WaitFlag.h.
pub mod WaitFlag
pub mod FlagSet
pub mod Event
pub mod ThreadFlags
mod Examples
