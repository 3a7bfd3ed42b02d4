-- ===== src/Runner/Execute/Outcomes.antt =====
-- What a run comes to: when it counts as completed, and the numbers and ends of its stream.
use mathlib.Core.Path.{subst}
use agentue.Prelude.{
  some-ne-none, true≢false, ℕ, ◌≤◌, ◌≡◌, ◌↔◌, refl, sym, ap, ◌∙◌, Bool, true, false, Option, none,
  some, List, [], ◌∷◌, ◌++◌, ◌==◌, arith, All, differ, if-either, if◌then◌else◌,
}
use agentue.Json.{Fields}
use agentue.Result.{ok}
use agentue.Event.{Pydantic}
use agentue.Apply.Replay.{IsAccepted}
use agentue.Runner.{Entry, Bridge, RunnerContext, Ran, publish_start}
use agentue.Runner.Failures.{Failure}
use agentue.Runner.Errors.{CompletionSource, Exception}
use agentue.Runner.Terminal.{Report, Finalized, status_of, finalize-status}
use agentue.Runner.Stream.{Increasing, run_business-Run}
use agentue.Runner.Numbering.{Rising, IsNumbered, finalize-IsNumbered, publish_start-IsNumbered}
use agentue.Runner.Execute.{
  TaskEnd, was_cancelled, returned, raised_exception, Done, Waited, first_done, run_cancelled,
  wait_raised, verdict, pulse_verdict, heartbeat_verdict, business_verdict, report_of, Run,
  after_business, execute_run, Begun, executing, finalized, escaped, retry, uncaught, given_up,
  give_up, started, begin,
}

-- the wait ended with the business task alone, which returned, and the loop had not stalled
abbrev pub IsSuccess : Waited → Type 0
IsSuccess (first_done stalled done) =
    (stalled ≡ false)
    × (done.pulse ≡ none)
    × (done.heartbeat ≡ none)
    × (done.business ≡ some returned)
IsSuccess w = ⊥

business-success :
    (closing : Bool) (t : Option TaskEnd)
    → (business_verdict closing t).error ≡ none
    → t ≡ some returned
business-success closing none h = absurd (some-ne-none _ h)
business-success closing (some was_cancelled) h = absurd (some-ne-none _ h)
business-success closing (some returned) h = refl
business-success closing (some (raised_exception x)) h = absurd (some-ne-none _ h)

heartbeat-success :
    (closing : Bool) (heartbeat business : Option TaskEnd)
    → (heartbeat_verdict closing heartbeat business).error ≡ none
    → (heartbeat ≡ none) × (business ≡ some returned)
heartbeat-success closing (some was_cancelled) business h = absurd (some-ne-none _ h)
heartbeat-success closing (some returned) business h = absurd (some-ne-none _ h)
heartbeat-success closing (some (raised_exception x)) business h = absurd (some-ne-none _ h)
heartbeat-success closing none business h = (refl, business-success closing business h)

pulse-success :
    (closing : Bool) (pulse : Option TaskEnd) (done : Done)
    → (pulse_verdict closing pulse done).error ≡ none
    → (pulse ≡ none) × (done.heartbeat ≡ none) × (done.business ≡ some returned)
pulse-success closing (some t) done h = absurd (some-ne-none _ h)
pulse-success closing none done h =
    let (beat, work) = heartbeat-success closing done.heartbeat done.business h in
    (refl, beat, work)

wait-IsSuccess : (closing : Bool) (w : Waited) → (verdict closing w).error ≡ none → IsSuccess w
unfolding verdict
wait-IsSuccess closing (first_done true done) h = absurd (some-ne-none _ h)
wait-IsSuccess closing (first_done false done) h =
    let (p, b, t) = pulse-success closing done.pulse done h in (refl, p, b, t)
wait-IsSuccess closing (run_cancelled x) h = absurd (some-ne-none _ h)
wait-IsSuccess closing (wait_raised x) h = absurd (some-ne-none _ h)

success-verdict : (closing : Bool) (w : Waited) → IsSuccess w → (verdict closing w).error ≡ none
unfolding verdict
success-verdict closing (first_done true done) (s, p, b, t) = absurd (true≢false s)
success-verdict closing (first_done false done) (s, p, b, t) =
    ap (λ o. (pulse_verdict closing o done).error) p
    ∙ ap (λ o. (heartbeat_verdict closing o done.business).error) b
    ∙ ap (λ o. (business_verdict closing o).error) t
success-verdict closing (run_cancelled x) h = absurd h
success-verdict closing (wait_raised x) h = absurd h

pub completed-status : (report : Option Report) → (status_of report ≡ "completed") ↔ (report ≡ none)
completed-status none = (λ h. refl, λ h. refl)
completed-status (some report) = (λ h. absurd (differ "failed" "completed" refl h), λ h. cc h)

pub report_of-none :
    (x y : Option Exception) (source : CompletionSource)
    → (report_of x y source ≡ none) ↔ ((x ≡ none) × (y ≡ none))
unfolding report_of
report_of-none none none source = (λ h. (refl, refl), λ h. refl)
report_of-none none (some y) source = (λ h. cc h, λ h. cc (h.1))
report_of-none (some x) y source = (λ h. cc h, λ h. cc (h.0))

-- A run counts as completed exactly if the wait ended with its business task alone, which returned,
-- while the event loop had not stalled, and the `complete` callback raised nothing.
pub execute_run-completed :
    (py : Pydantic) (bridge : Bridge) (context : RunnerContext) (run : Run) (f : Finalized)
    → execute_run py bridge context run ≡ ok f
    → (f.status ≡ "completed") ↔ (IsSuccess run.waited × (run.completion_error ≡ none))
unfolding execute_run
execute_run-completed py bridge context run f h =
    let v = verdict run.closing run.waited in
    let report = report_of v.error run.completion_error v.source in
    let status = finalize-status py bridge (after_business py bridge context run) report f h in
    let no_report = report_of-none v.error run.completion_error v.source in
    (
      λ e.
          let (x, y) = no_report.0 ((completed-status report).0 (sym status ∙ e)) in
          (wait-IsSuccess run.closing run.waited x, y),
      λ (w, y).
          status
          ∙ (completed-status report).1 (no_report.1 (success-verdict run.closing run.waited w, y)),
    )

Increasing-Rising :
    (n bound : ℕ) (xs : List Entry)
    → n ≤ bound
    → Increasing n xs
    → All (λ (x : Entry). x.seq ≤ bound) xs
    → Rising n xs bound
Increasing-Rising n bound [] le h b = le
Increasing-Rising n bound (x ∷ xs) le (h, hs) (b, bs) =
    (h, Increasing-Rising x.seq bound xs b hs bs)

Rising-append :
    (n mid bound : ℕ) (xs ys : List Entry)
    → Rising n xs mid
    → Rising mid ys bound
    → Rising n (xs ++ ys) bound
Rising-append n mid bound [] [] le h = omega arith
Rising-append n mid bound [] (y ∷ ys) le (h, hs) = (omega arith, hs)
Rising-append n mid bound (x ∷ xs) ys (h, hs) k = (h, Rising-append x.seq mid bound xs ys hs k)

All-right : {A : Type 0} (P : A → Type 0) (xs ys : List A) → All P (xs ++ ys) → All P ys
All-right P [] ys h = h
All-right P (x ∷ xs) ys (h, hs) = All-right P xs ys hs

-- The stream of a run from its start event on: if the numbers on it rise up to `published_seq` when
-- the run is executed, and the application's emitter ends at no smaller number than those on the
-- stream, then finalizing gives its result: an end event, after an error event if the run failed,
-- and rising numbers on the whole stream, none of them above the emitter's.
pub execute_run-IsNumbered :
    (py : Pydantic) (bridge : Bridge) (context : RunnerContext) (run : Run)
    → All IsAccepted run.patches
    → Rising 0 context.stream context.published_seq
    → context.published_seq ≤ run.emitter.offset
    → All (λ (x : Entry). x.seq ≤ run.emitter.offset) (after_business py bridge context run).stream
    → (f : Finalized) × (execute_run py bridge context run ≡ ok f) × IsNumbered f.context
unfolding execute_run after_business
execute_run-IsNumbered py bridge context run accepted h le within =
    let v = verdict run.closing run.waited in
    let b = run_business-Run py bridge context run.patches run.ending accepted in
    let new =
      All-right (λ (x : Entry). x.seq ≤ run.emitter.offset) context.stream b.new
        (subst (All (λ (x : Entry). x.seq ≤ run.emitter.offset)) b.stream within) in
    let rising =
      Rising-append 0 context.published_seq run.emitter.offset context.stream b.new h
        (Increasing-Rising context.published_seq run.emitter.offset b.new le b.increasing new) in
    finalize-IsNumbered py bridge (after_business py bridge context run)
      (report_of v.error run.completion_error v.source)
      (subst (λ xs. Rising 0 xs run.emitter.offset) (sym b.stream) rising)

module _ (describe : Failure → Exception) where
  -- What a run has before it is executed: rising numbers, or, if it was finalized, its result too; or
  -- it was left by a failure that reads as a cancellation.
  abbrev pub IsBegun : Begun → Type 0
  IsBegun (executing context) = IsNumbered context
  IsBegun (finalized r) = (f : Finalized) × (r ≡ ok f) × IsNumbered f.context
  IsBegun (escaped x) = (f : Failure) × (x ≡ describe f) × (x.is_cancelled ≡ true)

  module _ (py : Pydantic) (bridge : Bridge) (model : Fields)
      (completion_error : Option Exception) where
    cancelled-IsBegun :
        (context : RunnerContext) (x : Exception) (f : Failure) (b : Bool)
        → (describe f).is_cancelled ≡ b
        → IsNumbered context
        → IsBegun
            (given_up py bridge context x completion_error (if b then some (describe f) else none))
    cancelled-IsBegun context x f true e h = (f, refl, e)
    cancelled-IsBegun context x f false e h = finalize-IsNumbered py bridge context _ h

    given_up-IsBegun :
        (context : RunnerContext) (x : Exception) (failure : Option Failure)
        → IsNumbered context
        → IsBegun (given_up py bridge context x completion_error (uncaught describe failure))
    given_up-IsBegun context x none h = finalize-IsNumbered py bridge context _ h
    given_up-IsBegun context x (some f) h =
        cancelled-IsBegun context x f (describe f).is_cancelled refl h

    give_up-IsBegun :
        (context : RunnerContext) (x : Exception)
        → IsNumbered context
        → IsBegun (give_up py bridge context model describe x completion_error)
    unfolding give_up
    give_up-IsBegun context x h =
        let ran = retry py bridge context model in
        given_up-IsBegun ran.context x ran.failure (
          if-either (λ (r : Ran). IsNumbered r.context) (context.published_seq == 0)
            (publish_start py bridge context model) (record { failure = none; context = context })
            (publish_start-IsNumbered py bridge context model h) h)

    started-IsBegun :
        (context : RunnerContext) (failure : Option Failure)
        → IsNumbered context
        → IsBegun (started py bridge model describe completion_error context failure)
    started-IsBegun context none h = h
    started-IsBegun context (some f) h = give_up-IsBegun context (describe f) h

-- However `pre_start`, the start event and the bridge turn out, from rising numbers on: the run goes on
-- to be executed, or is finalized with a result unless it is cancelled while it is finalized, and the
-- numbers on its stream rise, none of them above the emitter's; or the second attempt at the start
-- event is cancelled, which is raised.
pub begin-IsBegun :
    (py : Pydantic) (bridge : Bridge) (context : RunnerContext) (model : Fields)
    (describe : Failure → Exception) (raised completion_error : Option Exception)
    → IsNumbered context
    → IsBegun describe (begin py bridge context model describe raised completion_error)
unfolding begin
begin-IsBegun py bridge context model describe (some x) completion_error h =
    give_up-IsBegun describe py bridge model completion_error context x h
begin-IsBegun py bridge context model describe none completion_error h =
    started-IsBegun describe py bridge model completion_error
      (publish_start py bridge context model).context _
      (publish_start-IsNumbered py bridge context model h)
