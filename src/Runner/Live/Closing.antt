-- ===== src/Runner/Live/Closing.antt =====
-- `_finalize` and `_stream_live` of runner/runner.py: what a live reader gets of the terminal events.
use agentue.Prelude.{
  String, ◌≡◌, refl, sym, false, not, Option, none, some, List, [], ◌∷◌, append-nil, if◌then◌else◌,
}
use agentue.Json.{field, empty, obj, get, is_some}
use agentue.Result.{ok}
use agentue.Model.{member}
use agentue.Event.{
  PatchOp, PatchEvent, Pydantic, to_json, construct, validate_operation, check_operation,
  extract_patch_op,
}
use agentue.Event.Wire.{model_validate-to_json}
use agentue.Emitter.{emit, error, end, advance, tagged, error_payload}
use agentue.Runner.{
  Entry, Publication, complete, interrupted, refused, Bridge, RunnerContext, published, publish,
}
use agentue.Runner.Terminal.{Attempt, Report, Finalized, publish_terminal, finalize}
use agentue.Runner.Live.{op_of_event}
use agentue.Runner.Live.Deliveries.{
  IsDelivered, end-IsDelivered, error-end-IsDelivered, unpublished-gets,
}

module _ (cursor_of : Entry → String) (ops : List String) (cursor : String)
    (no_error : member "error" ops ≡ false) (no_end : member "end" ops ≡ false) where
  module _ (py : Pydantic) (bridge : Bridge) where
    abbrev attempt : RunnerContext → Entry → Publication → Attempt
    attempt context x how =
        let ran = published context x how in
        record { persisted = not (is_some ran.failure); context = ran.context }

    publish_terminal_lem :
        (context : RunnerContext) (e : PatchEvent)
        → validate_operation e ≡ ok e
        → let x : Entry = record { seq = e.seq; json = to_json e } in
          publish_terminal py bridge context (to_json e)
          ≡ attempt context x (bridge.ends context.stream x)
    unfolding publish_terminal publish
    publish_terminal_lem context e valid = rw (model_validate-to_json py e valid) refl

    abbrev advanced : RunnerContext → RunnerContext
    advanced context = record context { emitter = advance context.emitter }

    abbrev ending : RunnerContext → PatchEvent
    ending context = tagged PatchOp.end (advance context.emitter)

    ending-op : (context : RunnerContext) → op_of_event (to_json (ending context)) ≡ some "end"
    unfolding extract_patch_op to_json get
    ending-op context = refl

    ending-valid :
        (context : RunnerContext) → validate_operation (ending context) ≡ ok (ending context)
    unfolding validate_operation check_operation
    ending-valid context = refl

    -- the end event, once the error event's publication is known
    after_error :
        (context : RunnerContext) (x : Entry) (how : Publication)
        → op_of_event x.json ≡ some "error"
        → let first = attempt context x how in
          let last : Attempt =
            if first.persisted
            then publish_terminal py bridge
                (advanced first.context)
                (to_json (ending first.context))
            else record { persisted = false; context = advanced first.context } in
          IsDelivered cursor_of ops cursor context.stream (record {
            events =
                record { json = x.json; persisted = first.persisted }
                ∷ record { json = to_json (ending first.context); persisted = last.persisted }
                ∷ [];
            status = "failed";
            context = last.context;
          })
    after_error context x complete op =
        let c = (published context x complete).context in
        let y : Entry = record { seq = (ending c).seq; json = to_json (ending c) } in
        rw (publish_terminal_lem (advanced c) (ending c) (ending-valid c)) (
          error-end-IsDelivered cursor_of ops cursor no_error no_end context (advance c.emitter) x y
            (bridge.ends c.stream y) op (ending-op c))
    after_error context x interrupted op =
        let c = (published context x interrupted).context in
        let y : Entry = record { seq = (ending c).seq; json = to_json (ending c) } in
        record {
          new = x ∷ [];
          stream = refl;
          deliveries =
              unpublished-gets cursor_of ops cursor no_error no_end x y interrupted refl op
                (ending-op c);
        }
    after_error context x refused op =
        let y : Entry = record { seq = (ending context).seq; json = to_json (ending context) } in
        record {
          new = [];
          stream = sym (append-nil context.stream);
          deliveries =
              unpublished-gets cursor_of ops cursor no_error no_end x y refused refl op
                (ending-op context);
        }

    -- Finalizing gives its result, however the bridge behaves, and a live reader that then reads what
    -- it put on the stream, and finds the run done, gets its terminal events: each of them once, in
    -- order, and nothing else. The reader has not seen an error or an end before.
    pub finalize-IsDelivered :
        (context : RunnerContext) (report : Option Report)
        → (f : Finalized) × (finalize py bridge context report ≡ ok f)
          × IsDelivered cursor_of ops cursor context.stream f
    unfolding finalize end error emit construct validate_operation check_operation get
        extract_patch_op to_json
    finalize-IsDelivered context none =
        let y : Entry = record { seq = (ending context).seq; json = to_json (ending context) } in
        (
          _,
          refl,
          rw (publish_terminal_lem (advanced context) (ending context) (ending-valid context)) (
              end-IsDelivered cursor_of ops cursor no_error no_end (advanced context) y
                (bridge.ends context.stream y) (ending-op context)),
        )
    finalize-IsDelivered context (some report) =
        let failed = record (tagged PatchOp.error (advance context.emitter)) {
          mask = some "meta.error";
          meta =
              some (field "error" (obj (error_payload report.code report.message none none)) empty);
        } in
        let x : Entry = record { seq = failed.seq; json = to_json failed } in
        (
          _,
          refl,
          rw (publish_terminal_lem (advanced context) failed refl)
              (after_error (advanced context) x (bridge.ends context.stream x) refl),
        )
