-- ===== src/Runner.antt =====
-- runner/runner.py: the part of a run that publishes events, from the start event through the patches
-- that the application's stream callback yields. Readers get what is appended to the Redis stream.
-- The callback shares the context; it is taken to write nothing in it but the emitter, which the loop
-- does not read.
pub mod Options
pub mod Failures
pub mod Redis
pub mod EventBridge
pub mod Recovery
pub mod Errors
pub mod Stream
pub mod Terminal
pub mod Live
pub mod Numbering
pub mod Execute
pub mod Lifecycle
pub mod Loops
pub mod Completion
pub mod Quiet
use agentue.Prelude.{
  ℕ, Bool, true, false, not, Option, none, some, List, [], ◌∷◌, ◌++◌, leb, if◌then◌else◌,
}
use agentue.Json.{Fields}
use agentue.Result.{Result, ok, err, Error, ◌>>=◌, ◌>>◌, raise_if, stream_op, stream_seq}
use agentue.Event.{PatchOp, PatchEvent, Pydantic, to_json, model_validate}
use agentue.Apply.{Outcome, done, raised, PatchInput, coerce_event, apply_event}
use agentue.Emitter.{PatchEmitter, Emitted, start}
use Failures.{Failure, patch_failure, bridge_failure, callback_failure}

-- an entry of a task's stream: the number and the JSON object that `publish` was given
pub record Entry : Type 0 where
  pub seq : ℕ
  pub json : Fields

-- How a call of `publish` ends: all of its commands ran, one that follows the `xadd` raised, or the
-- `xadd` itself did, and the stream is as it was.
pub data Publication : Type 0 where
  complete interrupted refused : Publication

-- the bridge to Redis: how a call ends, on a stream that holds these entries
pub record Bridge : Type 0 where
  pub ends : List Entry → Entry → Publication

-- `RunnerContext`, with the task's stream
pub record RunnerContext : Type 0 where
  pub emitter : PatchEmitter
  pub snapshot : Fields
  pub published_seq : ℕ
  pub stream : List Entry

pub record Ran : Type 0 where
  pub failure : Option Failure
  pub context : RunnerContext

abbrev pub entered : RunnerContext → Entry → RunnerContext
entered context entry = record context { stream = context.stream ++ entry ∷ [] }

abbrev pub published : RunnerContext → Entry → Publication → Ran
published context entry complete = record {
  failure = none;
  context = record (entered context entry) { published_seq = entry.seq };
}
published context entry interrupted = record {
  failure = some bridge_failure;
  context = entered context entry;
}
published context entry refused = record { failure = some bridge_failure; context = context }

-- `publish`, and the `published_seq` that the runner keeps once it returns
unfoldable pub publish : Bridge → RunnerContext → Entry → Ran
publish bridge context entry = published context entry (bridge.ends context.stream entry)

abbrev pub is_patch : PatchOp → Bool
is_patch PatchOp.set = true
is_patch PatchOp.append = true
is_patch op = false

-- the two checks on what the stream callback yields
unfoldable pub check_stream : ℕ → PatchEvent → Result (Unit {0})
check_stream published_seq e = do
  raise_if (not (is_patch e.op)) stream_op
  raise_if (leb e.seq published_seq) stream_seq

-- an event that is ready to go out, with its JSON object
pub record Outgoing : Type 0 where
  pub event : PatchEvent
  pub json : Fields

abbrev pub publish_applied : Bridge → RunnerContext → Outgoing → Outcome → Ran
publish_applied bridge context out (done s) =
    publish bridge (record context { snapshot = s })
      (record { seq = out.event.seq; json = out.json })
publish_applied bridge context out (raised x s) = record {
  failure = some (patch_failure x);
  context = record context { snapshot = s };
}

-- the reducer on the runner's own snapshot, then the bridge
abbrev pub send : Bridge → RunnerContext → Result Outgoing → Ran
send bridge context (ok out) =
    publish_applied bridge context out (apply_event context.snapshot out.event)
send bridge context (err x) = record { failure = some (patch_failure x); context = context }

-- what the stream callback did after its last patch
pub data Ending : Type 0 where
  returned raised_error : Ending

abbrev ended : RunnerContext → Ending → Ran
ended context returned = record { failure = none; context = context }
ended context raised_error = record { failure = some callback_failure; context = context }

module _ (py : Pydantic) where
  -- what an iteration of `_run_business` checks before it touches the snapshot
  unfoldable pub outgoing : ℕ → PatchInput → Result Outgoing
  unfolding check_stream
  outgoing published_seq patch = do
    e ← coerce_event py patch
    check_stream published_seq e
    ok (record { event = e; json = to_json e })

module _ (py : Pydantic) (bridge : Bridge) where
  -- an iteration of the loop
  unfoldable pub deliver : RunnerContext → PatchInput → Ran
  unfolding outgoing publish
  deliver context patch = send bridge context (outgoing py context.published_seq patch)

  abbrev pub unless : Option Failure → Ran → Ran → Ran
  unless none stopped further = further
  unless (some f) stopped further = stopped

  abbrev pub go_on : Ran → (RunnerContext → Ran) → Ran
  go_on r next = unless r.failure r (next r.context)

  -- the loop of `_run_business`, on the patches that the stream callback yields
  unfoldable pub run_business : RunnerContext → List PatchInput → Ending → Ran
  unfolding deliver
  run_business context [] ending = ended context ending
  run_business context (p ∷ ps) ending =
      go_on (deliver context p) (λ next. run_business next ps ending)

  abbrev pub publish_started : RunnerContext → Emitted → Ran
  publish_started context emitted =
      send bridge (record context { emitter = emitted.emitter })
        (do
          json ← emitted.result
          e ← model_validate py json
          ok (record { event = e; json = json }))

  -- `_publish_start`, on the dump of the model
  unfoldable pub publish_start : RunnerContext → Fields → Ran
  unfolding publish
  publish_start context model = publish_started context (start context.emitter model none)
