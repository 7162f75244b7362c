-- ===== src/Lib.antt =====
-- cmsis_cpp: C++ classes like those of the standard library over the CMSIS-RTOS2 C functions.
--
-- Each class owns an RTOS object by its handle and translates between the C functions and C++: status
-- codes become exceptions (or std::terminate where exceptions are compiled out), durations become
-- tick counts. The condition variable is built on the library's own semaphores and mutexes, the
-- thread enumeration on its dispatch lock.
--
-- How the code is modelled. The C functions are not in this repository: they are parameters, the
-- fields of a record (SemaphoreApi, MutexApi, ...), as functions on a state `W` that is left open.
-- What CMSIS-RTOS2 documents of them is stated where it is needed, as a contract (IsCounting, IsMutex,
-- IsQueue, IsPool, HasEvents, ...), and each contract has a sample that meets it. A call is an Action:
-- it runs on `W` and returns, throws, or ends the program (Rtos/Calls.antt). The Boolean `ex` says
-- whether exceptions are compiled in, as `__cpp_exceptions` does. Handles, addresses and thread ids
-- are natural numbers, 0 for null; durations and time points are signed counts of microseconds. A
-- duration as the templates take it is a count of one of the periods of <chrono>; where the source
-- converts it without a cast, `none` says that the call does not compile.
--
-- Files, and the code they are about:
--   Base         Boolean tests, lists and integers that all modules share
--   Rtos         constants of cmsis_os2.h; results, exceptions and guards
--   Ticks        the conversion of a duration into ticks, the same in seven files of src/; in
--                Ticks/Durations the periods and their conversion into microseconds
--   Semaphore    src/Semaphore.cpp, include/Semaphore.h: base_semaphore; in Semaphore/Counting
--                counting_semaphore and binary_semaphore, against a counter
--   Mutex        src/Mutex.cpp, include/Mutex.h: base_timed_mutex; in Mutex/Classes the methods of
--                the four mutex classes; in Mutex/History any number of threads on one mutex
--   MessageQueue src/MessageQueue.cpp, include/MessageQueue.h: message_queue_impl, in
--                MessageQueue/Refinement against a bounded list; the classes over it in
--                MessageQueue/Values, MessageQueue/Pointers, and MessageQueue/Owned for
--                std::unique_ptr
--   MemoryPool   src/Memory.cpp, include/Memory.h: base_memory_pool, make_unique, the deleter; in
--                MemoryPool/Typed memory_pool<T>, in MemoryPool/History against a set of blocks, in
--                MemoryPool/Pointers the smart pointers of a client
--   Flags        include/WaitFlag.h, src/EventFlag.cpp, src/ThreadFlag.cpp and their headers; the
--                overloads of the headers in Flags/Event/Overloads, Flags/ThreadFlags/Overloads; in
--                Flags/Event/History, Flags/ThreadFlags/History against sets of flags
--   Timer        src/Timer.cpp, include/Timer.h: cmsis_timer and timer; in Timer/History against a
--                state machine, for a periodic timer
--   Thread       src/Thread.cpp, include/Thread.h: thread_impl, thread, and namespace this_thread;
--                in Thread/Owners any number of thread objects; in Thread/Callable the routine of a
--                thread, and std::thread; in Thread/Handles _getpid
--   Kernel       src/OS.cpp, src/Threads.cpp, the idle thread of src/rtx_os.cpp, and their headers
--   Chrono       src/Chrono.cpp, include/Chrono.h
--   ConditionVariable
--                src/ConditionVariable.cpp, include/ConditionVariable.h: first as steps of any number
--                of threads on the waiting list, then, in ConditionVariable/Predicates, as the
--                code that one thread runs; ConditionVariable/Predicates/World puts that code
--                into a run of the steps, ConditionVariable/Notifiers the code of a notifier, on
--                its mutex and the semaphores; ConditionVariable/Monitor adds the lock and the
--                predicate of the callers
--   Errors       src/OSException.cpp: the texts of the error codes; in Errors/Context str_error,
--                and osRtxErrorNotify of src/rtx_os.cpp
-- The functions keep their C++ names. An overload with a timeout is `put_for`, `get_for`; what the
-- templates of the headers reduce to is `..._usec`; a pointer to an implementation is an Option.
--
-- Integers and fuel. A uint32_t, int32_t or int64_t keeps its wrap-around written out; the overflow
-- of the signed product in the tick conversion is taken to wrap around. Loops over a count or a
-- list are structural. The endless loop of osRtxErrorNotify is any number of rounds that do not
-- return, and the digits of a number have a round for each unit of it, which is more than its
-- digits. Loops that wait for something (sleep_until, the predicates of condition variables, clear
-- of a queue of owned objects) run on fuel, and `none` or false says that it ran out: enough is one
-- more than the microseconds to the deadline, since a sleep moves the clock on or throws, and than the
-- messages in the queue, since a round takes one out; of the loops over a predicate nothing is shown
-- here, but ConditionVariable/Monitor takes wait(lock, pred) round by round.
--
-- Not modelled: get(pointer&) of the queue of pointers and get(unique_ptr&) of the queue of
-- owned objects, which do not compile; clocks whose time
-- points are not counts of microseconds; the copies of a callable and its arguments; what a
-- callback or a thread's routine does, which is a parameter; the licence and the README.
-- Concurrency is modelled in the condition variable, with its callers' lock, and, for calls that do
-- not block, in the mutex and the thread flags; elsewhere other threads act within the calls of the RTOS that may block, of
-- whose effect the contracts say no more than is documented.
pub mod Base
pub mod Rtos
pub mod Ticks
pub mod Semaphore
pub mod Mutex
pub mod MessageQueue
pub mod MemoryPool
pub mod Flags
pub mod Timer
pub mod Thread
pub mod Kernel
pub mod Chrono
pub mod ConditionVariable
pub mod Errors
