-- ===== src/Rtos/Constants.antt =====
-- The values that CMSIS-RTOS2 documents for the names of cmsis_os2.h which the source uses.
use cmsis_cpp.Base.{ℕ}
use cmsis_cpp.Base.Int.{ℤ, pos, negsuc}

-- osStatus_t
abbrev pub os_ok : ℤ
os_ok = pos 0

abbrev pub os_error : ℤ
os_error = negsuc 0

abbrev pub os_error_timeout : ℤ
os_error_timeout = negsuc 1

abbrev pub os_error_resource : ℤ
os_error_resource = negsuc 2

abbrev pub os_error_parameter : ℤ
os_error_parameter = negsuc 3

abbrev pub os_error_no_memory : ℤ
os_error_no_memory = negsuc 4

abbrev pub os_error_isr : ℤ
os_error_isr = negsuc 5

abbrev pub os_status_reserved : ℤ
os_status_reserved = pos 0x7FFFFFFF

-- timeouts
abbrev pub os_wait_forever : ℕ
os_wait_forever = 0xFFFFFFFF

-- flag functions: options and error values, as uint32_t
abbrev pub os_flags_wait_any : ℕ
os_flags_wait_any = 0

abbrev pub os_flags_wait_all : ℕ
os_flags_wait_all = 1

abbrev pub os_flags_no_clear : ℕ
os_flags_no_clear = 2

abbrev pub os_flags_error_unknown : ℕ
os_flags_error_unknown = 0xFFFFFFFF

abbrev pub os_flags_error_timeout : ℕ
os_flags_error_timeout = 0xFFFFFFFE

abbrev pub os_flags_error_resource : ℕ
os_flags_error_resource = 0xFFFFFFFD

abbrev pub os_flags_error_parameter : ℕ
os_flags_error_parameter = 0xFFFFFFFC

abbrev pub os_flags_error_isr : ℕ
os_flags_error_isr = 0xFFFFFFFA

-- osKernelState_t
abbrev pub os_kernel_inactive : ℤ
os_kernel_inactive = pos 0

abbrev pub os_kernel_locked : ℤ
os_kernel_locked = pos 3

-- osPriority_t and osThreadState_t
abbrev pub os_priority_none : ℤ
os_priority_none = pos 0

abbrev pub os_priority_normal : ℤ
os_priority_normal = pos 24

abbrev pub os_priority_error : ℤ
os_priority_error = negsuc 0

abbrev pub os_thread_error : ℤ
os_thread_error = negsuc 0

abbrev pub os_thread_blocked : ℤ
os_thread_blocked = pos 3

-- attribute bits
abbrev pub os_thread_joinable : ℕ
os_thread_joinable = 1

abbrev pub os_mutex_recursive : ℕ
os_mutex_recursive = 1

abbrev pub os_mutex_prio_inherit : ℕ
os_mutex_prio_inherit = 2

-- osTimerType_t
abbrev pub os_timer_once : ℕ
os_timer_once = 0

abbrev pub os_timer_periodic : ℕ
os_timer_periodic = 1
