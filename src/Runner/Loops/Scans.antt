-- ===== src/Runner/Loops/Scans.antt =====
-- `_scan_forever` of runner/runner.py, and what its scans raise.
use agentue.Prelude.{◌≡◌, Bool, true}
use agentue.Runner.Failures.{Failure}
use agentue.Runner.Redis.{Redis, Ended, finished, stopped}

module _ (passes : Failure → Bool) where
  -- the loop goes on, or was ended by an exception that is no `Exception`
  abbrev pub GoesOn : Ended (Unit {0}) → Type 0
  GoesOn (finished u) = Unit
  GoesOn (stopped x) = passes x ≡ true
