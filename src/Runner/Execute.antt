-- ===== src/Runner/Execute.antt =====
-- `_execute` of runner/runner.py, and the start of `run`: which error a run ends with, and how its
-- phases follow one another.
pub mod Outcomes
pub mod Beginning
pub mod Replayed
use agentue.Prelude.{
  ℕ, String, Bool, true, false, Option, none, some, List, [], ◌∷◌, ◌==◌, if◌then◌else◌,
}
use agentue.Json.{Fields}
use agentue.Result.{Result, ok, err}
use agentue.Event.{Pydantic}
use agentue.Apply.{PatchInput}
use agentue.Emitter.{PatchEmitter}
use agentue.Runner.{Bridge, RunnerContext, Ran, Ending, run_business, publish_start}
use agentue.Runner.Failures.{Failure}
use agentue.Runner.Errors.{
  CompletionSource, pre_start, execute, cancelled, shutdown, heartbeat_timeout, Exception,
  error_code, error_message,
}
use agentue.Runner.Terminal.{Report, Finalized, finalize}

-- how a task ended
pub data TaskEnd : Type 0 where
  was_cancelled : TaskEnd
  returned : TaskEnd
  raised_exception : Exception → TaskEnd

-- the tasks that are done when the wait for the first of them is over
pub record Done : Type 0 where
  pub business : Option TaskEnd
  pub pulse : Option TaskEnd
  pub heartbeat : Option TaskEnd

-- What ends the wait of `_execute`: a task that is done, with the flag of the watchdog; the
-- cancellation of the run itself; or an exception of the wait.
pub data Waited : Type 0 where
  first_done : Bool → Done → Waited
  run_cancelled : Exception → Waited
  wait_raised : Exception → Waited

abbrev pub stalled_error : String → Exception
stalled_error text = record {
  is_cancelled = false;
  class_name = "EventLoopStalledError";
  text = text;
}

-- the `CancelledError` that `exception()` raises on a cancelled task
abbrev pub cancelled_error : Exception
cancelled_error = record { is_cancelled = true; class_name = "CancelledError"; text = "" }

-- the error of a run and its source
pub record Verdict : Type 0 where
  pub error : Option Exception
  pub source : CompletionSource

abbrev pub on_cancel : Bool → Exception → Verdict
on_cancel closing x = record { error = some x; source = if closing then shutdown else cancelled }

-- `task.exception()`, with what stands in for `None`
abbrev pub exception_of : Bool → TaskEnd → Option Exception → Verdict
exception_of closing was_cancelled otherwise = on_cancel closing cancelled_error
exception_of closing returned otherwise = record { error = otherwise; source = execute }
exception_of closing (raised_exception x) otherwise = record { error = some x; source = execute }

abbrev pub pulse_error : TaskEnd → Exception
pulse_error (raised_exception x) = x
pulse_error was_cancelled = stalled_error "execute pulse stopped"
pulse_error returned = stalled_error "execute pulse stopped"

abbrev heartbeat_stopped : Exception
heartbeat_stopped = record {
  is_cancelled = false;
  class_name = "RuntimeError";
  text = "Redis heartbeat stopped";
}

abbrev not_done : Exception
not_done = record {
  is_cancelled = false;
  class_name = "InvalidStateError";
  text = "Exception is not set.";
}

-- the business task, which is the one that is done if the others are not
abbrev pub business_verdict : Bool → Option TaskEnd → Verdict
business_verdict closing none = record { error = some not_done; source = execute }
business_verdict closing (some t) = exception_of closing t none

abbrev pub heartbeat_verdict : Bool → Option TaskEnd → Option TaskEnd → Verdict
heartbeat_verdict closing (some t) business = exception_of closing t (some heartbeat_stopped)
heartbeat_verdict closing none business = business_verdict closing business

abbrev pub pulse_verdict : Bool → Option TaskEnd → Done → Verdict
pulse_verdict closing (some t) done = record {
  error = some (pulse_error t);
  source = heartbeat_timeout;
}
pulse_verdict closing none done = heartbeat_verdict closing done.heartbeat done.business

-- the `try` of `_execute`, with whether the Runner is closing
unfoldable pub verdict : Bool → Waited → Verdict
verdict closing (first_done stalled done) =
    if stalled
    then record {
      error = some (stalled_error "execute event loop stopped advancing");
      source = heartbeat_timeout;
    }
    else pulse_verdict closing done.pulse done
verdict closing (run_cancelled x) = on_cancel closing x
verdict closing (wait_raised x) = record { error = some x; source = execute }

-- `error or completion_error`, as readers are told
unfoldable pub report_of : Option Exception → Option Exception → CompletionSource → Option Report
unfolding error_code error_message
report_of (some x) completion_error source =
    some (record { code = error_code x source; message = error_message x source })
report_of none (some x) source =
    some (record { code = error_code x source; message = error_message x source })
report_of none none source = none

-- what `_execute` has of its surroundings: what the callback yields and how it ends, the emitter as
-- the callback leaves it, what ends the wait, and what the `complete` callback raises
pub record Run : Type 0 where
  pub patches : List PatchInput
  pub ending : Ending
  pub emitter : PatchEmitter
  pub closing : Bool
  pub waited : Waited
  pub completion_error : Option Exception

-- the context when the business task is over
unfoldable pub after_business : Pydantic → Bridge → RunnerContext → Run → RunnerContext
after_business py bridge context run =
    record ((run_business py bridge context run.patches run.ending).context) {
      emitter = run.emitter;
    }

-- `_execute`
unfoldable pub execute_run : Pydantic → Bridge → RunnerContext → Run → Result Finalized
unfolding after_business verdict report_of
execute_run py bridge context run =
    let v = verdict run.closing run.waited in
    finalize py bridge (after_business py bridge context run)
      (report_of v.error run.completion_error v.source)

-- how `run` goes on after `initialize`: to `_execute`; finalized before that; or left before
-- `_finalize`, by an exception that is raised to the reader
pub data Begun : Type 0 where
  executing : RunnerContext → Begun
  finalized : Result Finalized → Begun
  escaped : Exception → Begun

-- the call of `_publish_start` in `_publish_start_best_effort`, if no start event is out yet
abbrev pub retry : Pydantic → Bridge → RunnerContext → Fields → Ran
retry py bridge context model =
    if context.published_seq == 0
    then publish_start py bridge context model
    else record { failure = none; context = context }

-- what `_publish_start_best_effort` does not catch: a failure that is no `Exception`
abbrev pub uncaught : (Failure → Exception) → Option Failure → Option Exception
uncaught describe none = none
uncaught describe (some f) = if (describe f).is_cancelled then some (describe f) else none

abbrev pub given_up :
    Pydantic → Bridge → RunnerContext → Exception → Option Exception → Option Exception → Begun
given_up py bridge context x completion_error (some y) = escaped y
given_up py bridge context x completion_error none =
    finalized (finalize py bridge context (report_of (some x) completion_error pre_start))

-- `run` once `pre_start` or the start event failed: another attempt at the start event if none is
-- out, then `_finalize`
unfoldable pub give_up :
    Pydantic
    → Bridge
    → RunnerContext
    → Fields
    → (Failure → Exception)
    → Exception
    → Option Exception
    → Begun
unfolding report_of
give_up py bridge context model describe x completion_error =
    let ran = retry py bridge context model in
    given_up py bridge ran.context x completion_error (uncaught describe ran.failure)

abbrev pub started :
    Pydantic
    → Bridge
    → Fields
    → (Failure → Exception)
    → Option Exception
    → RunnerContext
    → Option Failure
    → Begun
started py bridge model describe completion_error context none = executing context
started py bridge model describe completion_error context (some f) =
    give_up py bridge context model describe (describe f) completion_error

-- `run` after `initialize`: `pre_start`, with what it raises, and the start event
unfoldable pub begin :
    Pydantic
    → Bridge
    → RunnerContext
    → Fields
    → (Failure → Exception)
    → Option Exception
    → Option Exception
    → Begun
unfolding give_up
begin py bridge context model describe (some x) completion_error =
    give_up py bridge context model describe x completion_error
begin py bridge context model describe none completion_error =
    let ran = publish_start py bridge context model in
    started py bridge model describe completion_error ran.context ran.failure
