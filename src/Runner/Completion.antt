-- ===== src/Runner/Completion.antt =====
-- `run` of runner/runner.py as a whole, with `_invoke_complete`: what the `complete` callback is told.
pub mod Once
use agentue.Prelude.{
  String, Bool, true, false, Option, none, some, List, [], ◌∷◌, ◌==◌, if◌then◌else◌,
}
use agentue.Json.{Fields}
use agentue.Result.{Result}
use agentue.Event.{Pydantic}
use agentue.Runner.{Bridge, RunnerContext, Ran, publish_start}
use agentue.Runner.Failures.{Failure}
use agentue.Runner.Errors.{CompletionSource, pre_start, Exception}
use agentue.Runner.Terminal.{Finalized, finalize}
use agentue.Runner.Execute.{
  Run, Verdict, cancelled_error, verdict, report_of, after_business, execute_run, retry, uncaught,
}

-- `RunnerCompletion`
pub record RunnerCompletion : Type 0 where
  pub task_id : String
  pub source : CompletionSource
  pub context : Option RunnerContext
  pub error : Option Exception
  pub snapshot : Option Fields

-- What `run` comes to: the calls of `complete`, the result of `_finalize` if it is called, and what
-- the live reader's generator raises.
pub record Ended : Type 0 where
  pub completions : List RunnerCompletion
  pub finalized : Option (Result Finalized)
  pub raised : Option Exception

-- What the execute task meets: whether it gets to its first step before it is cancelled; whether the
-- pulse task is there then; whether the business task is done after the wait, and if it is not, what
-- cancels the `gather` that waits for it; and the rest. The `completion_error` of `run` is not read:
-- `complete` says what the callback raises.
pub record Execution : Type 0 where
  pub begins : Bool
  pub pulse_task : Bool
  pub business_done : Bool
  pub gather_error : Option Exception
  pub run : Run

-- What a run meets: what `start`, `_get_bridge` and `initialize` raise, what `pre_start` raises, how
-- a failure of the start event reads as an exception, the execution, and what cancels `_finalize`
-- after its call of `complete`.
pub record Encounters : Type 0 where
  pub prepare_error : Option Exception
  pub pre_start_error : Option Exception
  pub describe : Failure → Exception
  pub execution : Execution
  pub finalize_error : Option Exception

-- what the guard of `_execute` raises
abbrev pub not_started : Exception
not_started = record {
  is_cancelled = false;
  class_name = "RuntimeError";
  text = "Runner must be started before execute";
}

abbrev pub left_gather : Bool → Option Exception → Option Exception
left_gather business_done gather_error = if business_done then none else gather_error

-- what leaves `_execute` before `_finalize`
abbrev pub left_execute : Execution → Option Exception
left_execute x =
    if x.begins
    then (if x.pulse_task then left_gather x.business_done x.gather_error else some not_started)
    else some cancelled_error

-- a run that is left before `_finalize`; the exception reaches the reader
abbrev pub lost : Exception → Ended
lost x = record { completions = []; finalized = none; raised = some x }

-- `_finalize` from its call of `complete` on, and what the reader's generator raises after it
abbrev pub finalizing :
    Option Exception → RunnerCompletion → Result Finalized → Option Exception → Ended
finalizing none completion result raised = record {
  completions = completion ∷ [];
  finalized = some result;
  raised = raised;
}
finalizing (some y) completion result raised = record {
  completions = completion ∷ [];
  finalized = none;
  raised = some y;
}

module _ (task_id : String) (complete : RunnerCompletion → Option Exception) where
  -- the completion that `_finalize` passes on
  abbrev pub completion_of : RunnerContext → CompletionSource → Option Exception → RunnerCompletion
  completion_of context source error = record {
    task_id = task_id;
    source = source;
    context = some context;
    error = error;
    snapshot = some context.snapshot;
  }

  -- the completion of a run that could not be prepared, which is raised to the reader
  abbrev pub unprepared : RunnerContext → Exception → Ended
  unprepared context x = record {
    completions =
        record {
          task_id = task_id;
          source = pre_start;
          context = some context;
          error = some x;
          snapshot = none;
        }
        ∷ [];
    finalized = none;
    raised = some x;
  }

  module _ (py : Pydantic) (bridge : Bridge) (met : Encounters) where
    -- a run whose `pre_start` or start event failed with the exception `x`, after the other attempt,
    -- with what that attempt raised; the reader gets the terminal events unless `x` is a cancellation
    unfoldable pub failed_start : RunnerContext → Exception → Option Exception → Ended
    unfolding report_of
    failed_start context x (some y) = lost y
    failed_start context x none =
        let completion = completion_of context pre_start (some x) in
        finalizing met.finalize_error completion
          (finalize py bridge context (report_of (some x) (complete completion) pre_start))
          (if x.is_cancelled then some x else none)

    -- `_execute`, with what `complete` is told
    unfoldable pub execute_completing : RunnerContext → Option Exception → Ended
    unfolding execute_run
    execute_completing context (some y) = lost y
    execute_completing context none =
        let run = met.execution.run in
        let v = verdict run.closing run.waited in
        let completion = completion_of (after_business py bridge context run) v.source v.error in
        finalizing met.finalize_error completion
          (execute_run py bridge context (record run { completion_error = complete completion }))
          none

    module _ (model : Fields) where
      unfoldable pub fail_start : RunnerContext → Exception → Ended
      unfolding failed_start
      fail_start context x =
          let ran = retry py bridge context model in
          failed_start ran.context x (uncaught met.describe ran.failure)

      abbrev pub go_on : RunnerContext → Option Failure → Ended
      go_on context none = execute_completing context (left_execute met.execution)
      go_on context (some f) = fail_start context (met.describe f)

      abbrev pub prepared : RunnerContext → Option Exception → Ended
      prepared context (some x) = fail_start context x
      prepared context none =
          let ran = publish_start py bridge context model in go_on ran.context ran.failure

      abbrev pub run_from : RunnerContext → Option Exception → Ended
      run_from context (some x) = unprepared context x
      run_from context none = prepared context met.pre_start_error

      -- `run`
      unfoldable pub run_task : RunnerContext → Ended
      unfolding fail_start execute_completing
      run_task context = run_from context met.prepare_error
