-- ===== src/Runner/Loops.antt =====
-- The endless loops of runner/runner.py: `_pulse_loop`, `_heartbeat_loop` and `_scan_forever`. Each is
-- run on what its first rounds meet; where these are used up, it sleeps and goes on.
pub mod Scans
use agentue.Prelude.{
  ℕ, suc, String, Bool, true, false, Option, none, some, List, [], ◌∷◌, if◌then◌else◌,
}
use agentue.Json.{Fields}
use agentue.Model.{UiModel}
use agentue.Runner.Failures.{Failure, stall_failure}
use agentue.Runner.Errors.{Exception}
use agentue.Runner.Execute.{stalled_error}
use agentue.Runner.Options.{RunnerOptions}
use agentue.Runner.Redis.{Redis, Io, pure, raise, logged, ◌>>◌}
use agentue.Runner.EventBridge.{touch}
use agentue.Runner.Recovery.{recover_timeouts}

-- how often the watchdog was pulsed, and what the loop raised
pub record Pulsed : Type 0 where
  pub pulses : ℕ
  pub raised : Option Exception

abbrev pulsed : Pulsed → Pulsed
pulsed p = record { pulses = suc p.pulses; raised = p.raised }

-- the loop of `_pulse_loop`, on the flag of the watchdog in each round
unfoldable pub pulse_rounds : List Bool → Pulsed
pulse_rounds [] = record { pulses = 0; raised = none }
pulse_rounds (stalled ∷ rounds) =
    let rest = pulse_rounds rounds in
    if stalled
    then record {
      pulses = 0;
      raised =
          some (stalled_error "execute event loop recovered after exceeding its stall timeout");
    }
    else pulsed rest

-- `_pulse_loop`, with whether there is a watchdog
unfoldable pub pulse_loop : Bool → List Bool → Pulsed
unfolding pulse_rounds
pulse_loop true rounds = pulse_rounds rounds
pulse_loop false rounds = record {
  pulses = 0;
  raised = some (record {
    is_cancelled = false;
    class_name = "RuntimeError";
    text = "Runner watchdog is not initialized";
  });
}

module _ (redis : Redis) (o : RunnerOptions) where
  -- `_heartbeat_loop`, on the flag of the watchdog and the reading of the clock in each round
  unfoldable pub heartbeat_loop : String → List (Bool × redis.Time) → Io redis.State (Unit {0})
  unfolding touch
  heartbeat_loop task_id [] = pure tt
  heartbeat_loop task_id ((stalled, now) ∷ rounds) =
      let going = touch redis o task_id now >> heartbeat_loop task_id rounds in
      if stalled then raise stall_failure else going

  -- `_scan_forever`, on the cutoff of each round; an exception that is no `Exception`, such as a
  -- `CancelledError`, passes
  unfoldable pub scan_forever :
      (UiModel → Fields) → (Failure → Bool) → List redis.Time → Io redis.State (Unit {0})
  unfolding recover_timeouts
  scan_forever dump passes [] = pure tt
  scan_forever dump passes (cutoff ∷ cutoffs) =
      logged passes (recover_timeouts redis o dump cutoff) >> scan_forever dump passes cutoffs
