-- ===== src/Thread/Callable.antt =====
-- include/Thread.h, what the templates add to `thread`: the function of a thread as a bound call, the
-- constructors over it, std::thread, and the output and hash of an id. What a thread runs is an action.
pub mod Running
use cmsis_cpp.Base.{ℕ, Bool, ◌==◌, if◌then◌else◌}
use Prim.Native.String.{String}
use cmsis_cpp.Rtos.{Action, pure, ◌>>=◌}
use cmsis_cpp.Thread.{Attributes, Thread, ThreadApi, construct, id_eq}

-- std::bind(f, args...), with the arguments copied: the call is made where the result is run.
pub bind : {W Args : Type 0} → (Args → Action W (Unit {0})) → Args → Action W (Unit {0})
bind f args = f args

-- CallableImpl: its `run` calls `m_func`.
pub record Callable (W : Type 0) : Type 0 where
  pub m_func : Action W (Unit {0})

pub run : {W : Type 0} → Callable W → Action W (Unit {0})
run base = base.m_func

pub make_routine : {W : Type 0} → Action W (Unit {0}) → Callable W
make_routine f = record { m_func = f }

-- `attributes` value-initialised by `{}`
abbrev pub no_attributes : Attributes
no_attributes = record { stack_mem = 0; stack_size = 0; priority = 0; name = 0 }

-- operator<<, where `print` is the output of an address
pub print_id : (ℕ → String) → ℕ → String
print_id print id = if id_eq id 0 then "task::id of a non-executing thread" else print id

-- std::hash<thread::id>, where `hash` is that of an address
pub hash_id : (ℕ → ℕ) → ℕ → ℕ
hash_id hash id = hash id

-- `ex` says whether exceptions are compiled in.
module _ {W Args : Type 0} (ex : Bool) (api : ThreadApi W) where
  -- thread(attr, f, args...): the object, and the function that its RTOS thread runs.
  pub construct_call :
      Attributes → (Args → Action W (Unit {0})) → Args → Action W (Thread × Callable W)
  unfolding construct bind make_routine
  construct_call attr f args = do t ← construct ex api attr; pure (t, make_routine (bind f args))

  -- std::thread(f, args...)
  pub construct_std : (Args → Action W (Unit {0})) → Args → Action W (Thread × Callable W)
  unfolding construct_call
  construct_std f args = construct_call no_attributes f args
