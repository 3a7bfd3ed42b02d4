-- ===== src/Runner/Completion/Once.antt =====
-- `run` of runner/runner.py: its calls of `complete`, and how it ends.
use agentue.Prelude.{
  String, ◌≡◌, ◌≢◌, ◌↔◌, refl, sym, ◌∙◌, Bool, true, false, Option, none, some, [], ◌∷◌,
  some-ne-none, some-injective, ◌⊎◌, inl, inr, if◌then◌else◌,
}
use agentue.Json.{Fields}
use agentue.Result.{Result, ok}
use agentue.Event.{Pydantic}
use agentue.Runner.{Bridge, RunnerContext, publish_start}
use agentue.Runner.Failures.{Failure}
use agentue.Runner.Errors.{pre_start, Exception}
use agentue.Runner.Terminal.{Finalized, finalize, finalize-closing, finalize-status}
use agentue.Runner.Execute.{
  verdict, report_of, after_business, execute_run, uncaught, cancelled_error,
}
use agentue.Runner.Execute.Outcomes.{completed-status, report_of-none}
use agentue.Runner.Completion.{
  RunnerCompletion, Ended, Encounters, not_started, left_gather, left_execute, lost, finalizing,
  completion_of, failed_start, fail_start, execute_completing, go_on, prepared, run_from, run_task,
}
use mathlib.Core.Path.{subst}

-- Why a run is left before `_finalize`, and the exception: the other attempt at the start event is
-- cancelled; or the execute task is cancelled before its first step, finds no pulse task, or is
-- cancelled again while it waits for a business task that is not done.
pub data Leaves (met : Encounters) : Exception → Type 0 where
  retrying : (f : Failure) → (met.describe f).is_cancelled ≡ true → Leaves met (met.describe f)
  before_execute : met.execution.begins ≡ false → Leaves met cancelled_error
  without_pulse : met.execution.pulse_task ≡ false → Leaves met not_started
  gathering :
      (x : Exception)
      → met.execution.business_done ≡ false
      → met.execution.gather_error ≡ some x
      → Leaves met x

-- `complete` is not called, and the exception is raised to the reader.
pub record IsLost (met : Encounters) (e : Ended) : Type 0 where
  pub uncalled : e.completions ≡ []
  pub unfinished : e.finalized ≡ none
  pub exception : Exception
  pub leaves : Leaves met exception
  pub raised : e.raised ≡ some exception

lost-IsLost : (met : Encounters) (x : Exception) → Leaves met x → IsLost met (lost x)
lost-IsLost met x l = record {
  uncalled = refl;
  unfinished = refl;
  exception = x;
  leaves = l;
  raised = refl;
}

module _ (complete : RunnerCompletion → Option Exception) (met : Encounters) where
  -- What a run comes to, beside its completion: it was not prepared, and its error is raised; or
  -- `_finalize` was cancelled, which is raised; or it was finalized, and counts as completed exactly
  -- if the completion has no error and the callback raised none.
  abbrev pub Fits : RunnerCompletion → Option (Result Finalized) → Option Exception → Type 0
  Fits c none raised =
      ((c.source ≡ pre_start)
        × (c.error ≢ none)
        × (c.error ≡ met.prepare_error)
        × (raised ≡ c.error)
        × (c.snapshot ≡ none))
      ⊎ ((met.finalize_error ≢ none) × (raised ≡ met.finalize_error))
  Fits c (some result) raised =
      (f : Finalized) × (result ≡ ok f)
      × ((f.status ≡ "completed") ↔ ((c.error ≡ none) × (complete c ≡ none)))

  pub record IsCompletedOnce (e : Ended) : Type 0 where
    pub completion : RunnerCompletion
    pub once : e.completions ≡ completion ∷ []
    pub fits : Fits completion e.finalized e.raised

  abbrev pub IsSettled : Ended → Type 0
  IsSettled e = IsCompletedOnce e ⊎ IsLost met e

  module _ (py : Pydantic) (bridge : Bridge) where
    finalizing-IsCompletedOnce :
        (context : RunnerContext) (c : RunnerCompletion) (raised finalize_error : Option Exception)
        → met.finalize_error ≡ finalize_error
        → IsCompletedOnce (
            finalizing finalize_error c
              (finalize py bridge context (report_of c.error (complete c) c.source))
              raised)
    finalizing-IsCompletedOnce context c raised (some y) e = record {
      completion = c;
      once = refl;
      fits = inr ((λ h. some-ne-none y (sym e ∙ h)), sym e);
    }
    finalizing-IsCompletedOnce context c raised none e =
        let report = report_of c.error (complete c) c.source in
        let (f, given, _) = finalize-closing py bridge context report in
        let status = finalize-status py bridge context report f given in
        let no_report = report_of-none c.error (complete c) c.source in
        let done = completed-status report in
        record {
          completion = c;
          once = refl;
          fits = (
            f,
            given,
            (λ h. no_report.0 (done.0 (sym status ∙ h)), λ h. status ∙ done.1 (no_report.1 h)),
          );
        }

    module _ (task_id : String) where
      failed_start-IsCompletedOnce :
          (context : RunnerContext) (x : Exception)
          → IsCompletedOnce (failed_start task_id complete py bridge met context x none)
      unfolding failed_start
      failed_start-IsCompletedOnce context x =
          finalizing-IsCompletedOnce context
            (completion_of task_id complete context pre_start (some x))
            (if x.is_cancelled then some x else none) met.finalize_error refl

      cancelled-IsSettled :
          (context : RunnerContext) (x : Exception) (f : Failure) (b : Bool)
          → (met.describe f).is_cancelled ≡ b
          → IsSettled (
              failed_start task_id complete py bridge met context x
                (if b then some (met.describe f) else none))
      unfolding failed_start
      cancelled-IsSettled context x f true h = inr (lost-IsLost met (met.describe f) (retrying f h))
      cancelled-IsSettled context x f false h = inl (failed_start-IsCompletedOnce context x)

      failed_start-IsSettled :
          (context : RunnerContext) (x : Exception) (failure : Option Failure)
          → IsSettled (
              failed_start task_id complete py bridge met context x (uncaught met.describe failure))
      failed_start-IsSettled context x none = inl (failed_start-IsCompletedOnce context x)
      failed_start-IsSettled context x (some f) =
          cancelled-IsSettled context x f (met.describe f).is_cancelled refl

      execute_completing-IsSettled :
          (context : RunnerContext) (left : Option Exception)
          → ((y : Exception) → left ≡ some y → Leaves met y)
          → IsSettled (execute_completing task_id complete py bridge met context left)
      unfolding execute_completing execute_run
      execute_completing-IsSettled context (some y) l = inr (lost-IsLost met y (l y refl))
      execute_completing-IsSettled context none l =
          let run = met.execution.run in
          let v = verdict run.closing run.waited in
          let over = after_business py bridge context run in
          inl (
            finalizing-IsCompletedOnce over (completion_of task_id complete over v.source v.error)
              none met.finalize_error refl)

  left_gather-Leaves :
      (business_done : Bool) (y : Exception)
      → met.execution.business_done ≡ business_done
      → left_gather business_done met.execution.gather_error ≡ some y
      → Leaves met y
  left_gather-Leaves true y e h = absurd (some-ne-none y (sym h))
  left_gather-Leaves false y e h = gathering y e h

  left_execute-Leaves :
      (begins pulse_task : Bool) (y : Exception)
      → met.execution.begins ≡ begins
      → met.execution.pulse_task ≡ pulse_task
      → (if begins
          then (if pulse_task
              then left_gather met.execution.business_done met.execution.gather_error
              else some not_started)
          else some cancelled_error)
        ≡ some y
      → Leaves met y
  left_execute-Leaves true true y b p h = left_gather-Leaves met.execution.business_done y refl h
  left_execute-Leaves true false y b p h =
      subst (Leaves met) (some-injective _ _ h) (without_pulse p)
  left_execute-Leaves false pulse_task y b p h =
      subst (Leaves met) (some-injective _ _ h) (before_execute b)

  module _ (py : Pydantic) (bridge : Bridge) (task_id : String) (model : Fields) where
    fail_start-IsSettled :
        (context : RunnerContext) (x : Exception)
        → IsSettled (fail_start task_id complete py bridge met model context x)
    unfolding fail_start
    fail_start-IsSettled context x = failed_start-IsSettled py bridge task_id _ x _

    go_on-IsSettled :
        (context : RunnerContext) (failure : Option Failure)
        → IsSettled (go_on task_id complete py bridge met model context failure)
    go_on-IsSettled context none =
        execute_completing-IsSettled py bridge task_id context (left_execute met.execution)
          (λ y h. left_execute-Leaves met.execution.begins met.execution.pulse_task y refl refl h)
    go_on-IsSettled context (some f) = fail_start-IsSettled context (met.describe f)

    prepared-IsSettled :
        (context : RunnerContext) (pre_start_error : Option Exception)
        → IsSettled (prepared task_id complete py bridge met model context pre_start_error)
    prepared-IsSettled context (some x) = fail_start-IsSettled context x
    prepared-IsSettled context none =
        go_on-IsSettled (publish_start py bridge context model).context _

    run_from-IsSettled :
        (context : RunnerContext) (prepare_error : Option Exception)
        → met.prepare_error ≡ prepare_error
        → IsSettled (run_from task_id complete py bridge met model context prepare_error)
    run_from-IsSettled context (some x) e = inl (record {
      completion = _;
      once = refl;
      fits = inl (refl, some-ne-none _, sym e, refl, refl);
    })
    run_from-IsSettled context none e = prepared-IsSettled context met.pre_start_error

-- A run calls `complete` once, unless it is left before `_finalize`: because another attempt at the
-- start event, after `pre_start` or the first attempt failed, is cancelled, or because the execute task
-- is cancelled before its first step, finds no pulse task, or is cancelled again while it waits for a
-- business task that is not done. Then it does not call it, and raises the exception to the reader. If
-- the run could not be prepared, the call has the error, which is raised to the reader, and no snapshot.
-- Otherwise either `_finalize` is cancelled after the call, which is raised, or the run is finalized with a
-- result, and counts as completed exactly if the call has no error and the callback raised none.
pub run_task-IsSettled :
    (task_id : String) (complete : RunnerCompletion → Option Exception) (py : Pydantic)
    (bridge : Bridge) (model : Fields) (met : Encounters) (context : RunnerContext)
    → IsSettled complete met (run_task task_id complete py bridge met model context)
unfolding run_task
run_task-IsSettled task_id complete py bridge model met context =
    run_from-IsSettled complete met py bridge task_id model context met.prepare_error refl
