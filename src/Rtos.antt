-- ===== src/Rtos.antt =====
-- What every wrapper class shares: how a C++ call ends, calls into the RTOS, and the
-- `#ifdef __cpp_exceptions` choice between `throw` and `std::terminate`.
-- `W` is the state of the RTOS and of everything behind it; the RTOS's functions are parameters of
-- the components (records named `...Api`), each from `W` to its C result and the next `W`.
mod Constants
mod Calls
pub use Constants.*
pub use Calls.*
