-- ===== src/Thread/Handles.antt =====
-- src/Thread.cpp: the handle of a thread, and _getpid, which newlib asks for.
use cmsis_cpp.Base.{ℕ}
use cmsis_cpp.Base.Int.{ℤ, signed32}
use cmsis_cpp.Rtos.{Action, pure, gets, ◌>>=◌}
use cmsis_cpp.Thread.{Thread, ThreadApi, get_id}

-- thread::native_handle
pub native_handle : Thread → ℕ
unfolding get_id
native_handle t = get_id t

module _ {W : Type 0} (api : ThreadApi W) where
  -- _getpid: the address of the running thread's object, read as an int
  pub get_pid : Action W ℤ
  get_pid = do tid ← gets api.os_thread_get_id; pure (signed32 tid)
