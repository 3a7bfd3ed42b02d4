-- ===== src/Runner/Terminal.antt =====
-- `_finalize` and `_publish_terminal` of runner/runner.py: the events that end a delivery.
use agentue.Prelude.{
  String, ◌≡◌, refl, sym, ap, Bool, true, false, not, Option, none, some, List, [], ◌∷◌, ◌++◌, map,
  if◌then◌else◌,
}
use agentue.Json.{Value, str, Fields, get, is_some}
use agentue.Result.{Result, ok, ok-injective, err, ◌>>=◌}
use agentue.Event.{
  PatchEvent, Pydantic, model_validate, construct, validate_operation, check_operation, to_json,
}
use agentue.Emitter.{Emitted, error, end, emit}
use agentue.Runner.{Bridge, RunnerContext, publish}

-- `_TerminalEvent`
pub record TerminalEvent : Type 0 where
  pub json : Fields
  pub persisted : Bool

-- what `_error_code` and `_error_message` say of an exception
pub record Report : Type 0 where
  pub code : String
  pub message : String

pub record Attempt : Type 0 where
  pub persisted : Bool
  pub context : RunnerContext

-- the events of the `_ExecutionResult`, the status that is marked, and the context afterwards
pub record Finalized : Type 0 where
  pub events : List TerminalEvent
  pub status : String
  pub context : RunnerContext

-- `_publish_terminal`, which logs what is raised
abbrev attempted : Bridge → RunnerContext → Fields → Result PatchEvent → Attempt
attempted bridge context json (err x) = record { persisted = false; context = context }
attempted bridge context json (ok e) =
    let ran = publish bridge context (record { seq = e.seq; json = json }) in
    record { persisted = not (is_some ran.failure); context = ran.context }

unfoldable pub publish_terminal : Pydantic → Bridge → RunnerContext → Fields → Attempt
publish_terminal py bridge context json = attempted bridge context json (model_validate py json)

-- the end event, which is published only if the error event was, or if there was none
abbrev pub finish :
    Pydantic
    → Bridge
    → RunnerContext
    → Emitted
    → Bool
    → List TerminalEvent
    → String
    → Result Finalized
finish py bridge context last persisted events status = do
  json ← last.result
  let after = record context { emitter = last.emitter }
  let sent =
      if persisted
      then publish_terminal py bridge after json
      else record { persisted = false; context = after }
  ok (record {
    events = events ++ record { json = json; persisted = sent.persisted } ∷ [];
    status = status;
    context = sent.context;
  })

-- `_finalize`, after the `complete` callback, on what is then the effective error
unfoldable pub finalize : Pydantic → Bridge → RunnerContext → Option Report → Result Finalized
finalize py bridge context none = finish py bridge context (end context.emitter) true [] "completed"
finalize py bridge context (some report) = do
  let failed = error context.emitter report.code report.message none none
  json ← failed.result
  let sent = publish_terminal py bridge (record context { emitter = failed.emitter }) json
  finish py bridge sent.context (end sent.context.emitter) sent.persisted
      (record { json = json; persisted = sent.persisted } ∷ []) "failed"

abbrev pub ops : Finalized → List (Option Value)
ops f = map (λ t. get "op" t.json) f.events

-- The operations of the terminal events: an end, after an error if there was one.
abbrev pub closing : Option Report → List (Option Value)
closing none = some (str "end") ∷ []
closing (some report) = some (str "error") ∷ some (str "end") ∷ []

-- Finalizing always gives its events: the end event last, after exactly one error event if the run
-- failed and after none if it did not, however the bridge behaves.
pub finalize-closing :
    (py : Pydantic) (bridge : Bridge) (context : RunnerContext) (report : Option Report)
    → (f : Finalized) × (finalize py bridge context report ≡ ok f) × (ops f ≡ closing report)
unfolding finalize end error emit construct validate_operation check_operation to_json get
finalize-closing py bridge context none = (_, refl, refl)
finalize-closing py bridge context (some report) = (_, refl, refl)

-- the status that is marked
abbrev pub status_of : Option Report → String
status_of none = "completed"
status_of (some report) = "failed"

pub finalize-status :
    (py : Pydantic) (bridge : Bridge) (context : RunnerContext) (report : Option Report)
    (f : Finalized)
    → finalize py bridge context report ≡ ok f
    → f.status ≡ status_of report
unfolding finalize end error emit construct validate_operation check_operation to_json get
finalize-status py bridge context none f h = ap (λ (g : Finalized). g.status) (sym (ok-injective h))
finalize-status py bridge context (some report) f h =
    ap (λ (g : Finalized). g.status) (sym (ok-injective h))
