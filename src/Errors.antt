-- ===== src/Errors.antt =====
-- src/OSException.cpp: the texts of the two error categories, and the text that names the failing call.
-- RTX5 adds codes of its own, which rtx_os.h defines: a parameter, `none` without RTX5.
pub mod Messages
pub mod Context
mod Examples
use Prim.Native.String.{String, ◌++◌}
use cmsis_cpp.Base.{ℕ, Bool, Option, none, some, if◌then◌else◌}
use cmsis_cpp.Base.Int.{ℤ, ◌==ℤ◌, signed32}
use cmsis_cpp.Rtos.{
  Category, os_category, flags_category, os_ok, os_error, os_error_timeout, os_error_resource,
  os_error_parameter, os_error_no_memory, os_error_isr, os_status_reserved, os_flags_error_unknown,
  os_flags_error_timeout, os_flags_error_resource, os_flags_error_parameter, os_flags_error_isr,
}

pub record RtxCodes : Type 0 where
  pub stack_underflow : ℤ
  pub isr_queue_overflow : ℤ
  pub timer_queue_overflow : ℤ
  pub clib_space : ℤ
  pub clib_mutex : ℤ

abbrev pub unknown_error : String
unknown_error = "Unknown error"

abbrev pub rtx_message : RtxCodes → ℤ → String
rtx_message rtx c =
    if c ==ℤ rtx.stack_underflow
    then "Stack underflow detected for thread"
    else if c ==ℤ rtx.isr_queue_overflow
    then "ISR Queue overflow detected when inserting object"
    else if c ==ℤ rtx.timer_queue_overflow
    then "User Timer Callback Queue overflow detected for timer"
    else if c ==ℤ rtx.clib_space
    then "Standard C/C++ library libspace not available: increase OS_THREAD_LIBSPACE_NUM"
    else if c ==ℤ rtx.clib_mutex
    then "Standard C/C++ library mutex initialization failed"
    else unknown_error

-- cmsis_os_error_category::message
abbrev pub os_message : Option RtxCodes → ℤ → String
os_message rtx c =
    if c ==ℤ os_ok
    then "Operation completed successfully"
    else if c ==ℤ os_error
    then "Unspecified RTOS error: run-time error but no other error message fits"
    else if c ==ℤ os_error_timeout
    then "Operation not completed within the timeout period"
    else if c ==ℤ os_error_resource
    then "Resource not available"
    else if c ==ℤ os_error_parameter
    then "Parameter error"
    else if c ==ℤ os_error_no_memory
    then "System is out of memory: it was impossible to allocate or reserve memory for the operation"
    else if c ==ℤ os_error_isr
    then "Not allowed in ISR context: the function cannot be called from interrupt service routines"
    else if c ==ℤ os_status_reserved
    then "Prevents enum down-size compiler optimization"
    else elim rtx [ none ↦ unknown_error | some codes ↦ rtx_message codes c ]

-- cmsis_flag_error_category::message
abbrev pub flags_message : ℤ → String
flags_message c =
    if c ==ℤ signed32 os_flags_error_unknown
    then "Generic error"
    else if c ==ℤ signed32 os_flags_error_timeout
    then "A timeout was specified and the specified flags were not set, when the timeout occurred"
    else if c ==ℤ signed32 os_flags_error_resource
    then "Try to get a flag that was not set and timeout 0 was specified, or the specified object identifier is corrupt or invalid"
    else if c ==ℤ signed32 os_flags_error_parameter
    then "A given parameter is wrong"
    else if c ==ℤ signed32 os_flags_error_isr
    then "Not allowed in ISR context: the function cannot be called from interrupt service routines"
    else unknown_error

abbrev pub message : Option RtxCodes → Category → ℤ → String
message rtx os_category c = os_message rtx c
message rtx flags_category c = flags_message c
