-- ===== src/Runner/Failures.antt =====
-- Why a phase or a loop of runner/runner.py ends early.
use agentue.Result.{Error}

-- an exception of the reducer or the event builder, of the Redis client, of a callback, or the
-- `EventLoopStalledError` of a loop that finds the flag of the watchdog set
pub data Failure : Type 0 where
  patch_failure : Error → Failure
  bridge_failure callback_failure stall_failure : Failure
