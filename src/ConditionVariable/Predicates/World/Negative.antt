-- ===== src/ConditionVariable/Predicates/World/Negative.antt =====
-- wait_for with a negative duration, which no deadline guards against.
use cmsis_cpp.Semaphore
use cmsis_cpp.ConditionVariable.Predicates.World.{World}
