-- ===== src/Errors/Context.antt =====
-- src/OSException.cpp, `str_error`, which names the failing call and the object, and src/rtx_os.cpp,
-- `osRtxErrorNotify`. A text is the list of its character codes, and an id is the address as a size_t.
pub mod Decimal
use cmsis_cpp.Base.{
  ℕ, zero, suc, ◌+◌, ◌/◌, ◌%◌, ltb, if◌then◌else◌, List, [], ◌∷◌, ◌++◌, Option, none, some, Bool,
  not,
}
use cmsis_cpp.Base.Int.{pos}
use cmsis_cpp.Rtos.{Result, ok, throw, terminate, system_error, os_category}

-- std::to_string of an unsigned number: the digits of `n`, on fuel.
pub digits : ℕ → ℕ → List ℕ
digits zero n = []
digits (suc fuel) n =
    let rest = digits fuel (n / 10) ++ (b'0' + n % 10) ∷ [] in
    if ltb n 10 then (b'0' + n) ∷ [] else rest

pub to_string : ℕ → List ℕ
unfolding digits
to_string n = digits (suc n) n

-- func + '(' + std::to_string(reinterpret_cast<size_t>(id)) + ')'
unfoldable pub str_error : List ℕ → ℕ → List ℕ
unfolding to_string
str_error func id = func ++ (b'(' ∷ (to_string id ++ (b')' ∷ [])))

-- `for (;;) {}`, so many rounds of it: `none` says that it has not returned.
pub spin : {W : Type 0} → ℕ → W → Option ℕ × W
spin zero w = (none, w)
spin (suc rounds) w = spin rounds w

-- The `throw` in the `try` of osRtxErrorNotify; the text of the exception is `str_error`'s.
abbrev raise : ℕ → Result (Unit {0})
raise code = throw (system_error (pos code) os_category)

-- osRtxErrorNotify(code, object_id): the exception is caught where it is thrown, and without exceptions
-- the cases of the switch only break; `return code` is behind both endless loops.
pub os_rtx_error_notify : {W : Type 0} → Bool → ℕ → ℕ → ℕ → W → Option ℕ × W
unfolding spin
os_rtx_error_notify ex rounds code object_id w =
    if not ex then spin rounds w else elim (raise code) [
      | ok _ ↦ (some code, w)
      | throw e ↦ spin rounds w
      | terminate ↦ (none, w)
    ]
