-- ===== src/Rtos/Calls.antt =====
-- A call: it runs on the state `W` and returns, throws, or ends the program.
use cmsis_cpp.Base.{Bool, not, if◌then◌else◌}
use cmsis_cpp.Base.Int.{ℤ, ◌==ℤ◌}
use cmsis_cpp.Rtos.Constants.{os_ok}

pub data Category : Type 0 where
  os_category flags_category : Category

-- What is thrown. The texts that go with a code are in Errors.antt.
pub data Error : Type 0 where
  system_error : ℤ → Category → Error
  invalid_argument resource_deadlock_would_occur : Error
  bad_alloc : Error

pub data Result (A : Type 0) : Type 0 where
  ok : A → Result A
  throw : Error → Result A
  terminate : Result A

abbrev pub Action : Type 0 → Type 0 → Type 0
Action W A = W → Result A × W

module _ {W A : Type 0} where
  abbrev pub pure : A → Action W A
  pure a w = (ok a, w)

  -- A call of an RTOS function: whatever it returns, it returns.
  abbrev pub call : (W → A × W) → Action W A
  call f w = let (a, w') = f w in (ok a, w')

  -- A read of the state that changes nothing.
  abbrev pub gets : (W → A) → Action W A
  gets f w = (ok (f w), w)

  -- `#ifdef __cpp_exceptions  throw e  #else  std::terminate()  #endif`
  abbrev pub fail : Bool → Error → Action W A
  fail exceptions e w = (if exceptions then throw e else terminate, w)

  abbrev pub terminates : Action W A
  terminates w = (terminate, w)

  -- An exception that leaves a noexcept function ends the program.
  abbrev pub in_noexcept : Action W A → Action W A
  in_noexcept m w =
      let (r, w') = m w in
      elim r [ ok a ↦ (ok a, w') | throw e ↦ (terminate, w') | terminate ↦ (terminate, w') ]

infixl 5 ◌>>=◌ ◌>>◌
abbrev pub ◌>>=◌ : {W A B : Type 0} → Action W A → (A → Action W B) → Action W B
◌>>=◌ m f w =
    let (r, w') = m w in
    elim r [ ok a ↦ f a w' | throw e ↦ (throw e, w') | terminate ↦ (terminate, w') ]

abbrev pub ◌>>◌ : {W A B : Type 0} → Action W A → Action W B → Action W B
m >> k = m >>= λ _. k

-- `if (c) throw e`, or std::terminate() without exceptions
abbrev pub fail_if : {W : Type 0} → Bool → Bool → Error → Action W (Unit {0})
fail_if exceptions c e = if c then fail exceptions e else pure tt

-- `if (sta != osOK) throw std::system_error(sta, os_category(), ...)`
abbrev pub expect_ok : {W : Type 0} → Bool → ℤ → Action W (Unit {0})
expect_ok exceptions sta = fail_if exceptions (not (sta ==ℤ os_ok)) (system_error sta os_category)

-- `{ std::lock_guard<L> lg(l); body }`: unlocks on every way out; its destructor is noexcept.
abbrev pub with_lock :
    {W A : Type 0} → Action W (Unit {0}) → Action W (Unit {0}) → Action W A → Action W A
with_lock lock unlock body = do
  lock
  λ w.
      let (r, w') = body w in
      let (u, w'') = in_noexcept unlock w' in
      elim r [
        | ok a ↦ (elim u [ ok _ ↦ ok a | throw e ↦ throw e | terminate ↦ terminate ], w'')
        | throw e ↦ (elim u [ ok _ ↦ throw e | throw f ↦ throw f | terminate ↦ terminate ], w'')
        | terminate ↦ (terminate, w')
      ]

-- `{ T object; body }`, where the destructor of T is noexcept(false): what it throws leaves the block, or
-- ends the program where another exception is already leaving it.
abbrev pub with_destroyed : {W A : Type 0} → Action W (Unit {0}) → Action W A → Action W A
with_destroyed destroy body w =
    let (r, w') = body w in
    let (u, w'') = destroy w' in
    elim r [
      | ok a ↦ (elim u [ ok _ ↦ ok a | throw e ↦ throw e | terminate ↦ terminate ], w'')
      | throw e ↦ (elim u [ ok _ ↦ throw e | throw f ↦ terminate | terminate ↦ terminate ], w'')
      | terminate ↦ (terminate, w')
    ]
