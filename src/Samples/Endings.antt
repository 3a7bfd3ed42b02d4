-- ===== src/Samples/Endings.antt =====
-- Sample endings of runs: what readers and the completion callback get.
use agentue.Prelude.{
  ◌≡◌, refl, false, none, some, [], ◌∷◌, ◌++◌, map, Option, String, List, ◌==◌, if◌then◌else◌, true,
  sym, ◌∙◌, All, append-nil, some-injective, str_eq,
}
use agentue.Json.{Fields, obj, empty, get, set}
use agentue.Result.{ok}
use agentue.Event.{to_json, extract_patch_op, validate_operation, check_operation, construct}
use agentue.Apply.{mapping, done, apply_patches, apply_event, coerce_event}
use agentue.Emitter.{start, end}
use agentue.Model.{parse_ui_model}
use agentue.Prelude.Text.{split, remove_prefix, has_dot}
use agentue.Json.Equality.{py_eq}
use agentue.Apply.{apply_append, append_blocks, read_delta}
use agentue.Apply.Blocks.{scan, scan_value, merge_field, join}
use agentue.Event.{model_validate}
use agentue.Runner.{deliver, outgoing, check_stream}
use agentue.Runner.{
  Entry, complete, RunnerContext, Bridge, interrupted, refused, publish_start, publish,
  run_business,
}
use agentue.Runner.Terminal.{Finalized, finalize, publish_terminal}
use agentue.Runner.Live.Deliveries.{IsDelivered, jsons, stored_as}
use agentue.Runner.Live.Closing.{finalize-IsDelivered}
use agentue.Runner.Execute.{executing, verdict, report_of, begin, after_business, execute_run}
use agentue.Runner.Execute.Replayed.{closed_snapshot, execute_run-replayed}
use agentue.Runner.Stream.{received}
use agentue.Runner.EventBridge.{StoredEvent}
use agentue.Runner.Live.{Poll, stream_live, visit, deliver_stored}
use agentue.Runner.Live.Stored.{last_cursor}
use agentue.Runner.Live.Continuing.{heard}
use agentue.Runner.Live.Heard.{IsReading}
use agentue.Runner.Live.Whole.{stream_live-replays}
use mathlib.Core.Path.{subst}
use agentue.Runner.Errors.{Exception}
use agentue.Runner.Completion.{RunnerCompletion, Encounters, run_task}
use agentue.Runner.Completion.Once.{IsSettled, run_task-IsSettled}
use agentue.Samples.{page, strict, accepted, opening, on_intro}
use agentue.Samples.Runs.{running, timed_out, fresh, quick}

-- a bridge that loses every answer
abbrev unsteady : Bridge
unsteady = record { ends = λ entries entry. interrupted }

finalize-IsDelivered_example :
    (f : Finalized) × (finalize strict unsteady running (some timed_out) ≡ ok f)
    × IsDelivered (λ entry. "9-0") ("start" ∷ []) "1-0" running.stream f
finalize-IsDelivered_example =
    finalize-IsDelivered (λ entry. "9-0") ("start" ∷ []) "1-0" refl refl strict unsteady running
      (some timed_out)

abbrev access_lost : Exception
access_lost = record { is_cancelled = false; class_name = "OSError"; text = "gone" }

-- a run whose start event is refused, and a callback that raises
abbrev met : Encounters
met = record {
  prepare_error = none;
  pre_start_error = none;
  describe = λ failure. access_lost;
  execution = record {
    begins = true;
    pulse_task = true;
    business_done = true;
    gather_error = none;
    run = quick;
  };
  finalize_error = none;
}

abbrev refusing : Bridge
refusing = record { ends = λ entries entry. refused }

abbrev complaining : RunnerCompletion → Option Exception
complaining completion = some access_lost

run_task-IsSettled_example :
    IsSettled complaining met (run_task "t1" complaining strict refusing met page fresh)
run_task-IsSettled_example = run_task-IsSettled "t1" complaining strict refusing page met fresh

-- a bridge that refuses the end event
abbrev cutting : Bridge
cutting = record { ends = λ entries entry. if entry.seq == 3 then refused else complete }

-- `fresh` once its start event is out
abbrev begun : RunnerContext
begun = (publish_start strict cutting fresh page).context

fresh-begun : begin strict cutting fresh page (λ f. access_lost) none none ≡ executing begun
unfolding begin publish_start publish get set construct validate_operation check_operation
    apply_event to_json extract_patch_op coerce_event start parse_ui_model model_validate
fresh-begun = refl

quick-passes : (run_business strict cutting begun quick.patches quick.ending).failure ≡ none
unfolding run_business deliver outgoing check_stream publish coerce_event apply_event apply_append
    get set split remove_prefix py_eq append_blocks read_delta scan_value scan merge_field join
    has_dot publish_start construct validate_operation check_operation to_json extract_patch_op
    start parse_ui_model model_validate
quick-passes = refl

quick_meta :
    (m : Fields) × (get "meta" (after_business strict cutting begun quick).snapshot ≡ some (obj m))
unfolding after_business run_business deliver outgoing check_stream publish coerce_event apply_event
    apply_append get set split remove_prefix py_eq append_blocks read_delta scan_value scan
    merge_field join has_dot publish_start construct validate_operation check_operation to_json
    extract_patch_op start parse_ui_model model_validate
quick_meta = (_, refl)

execute_run-replayed_example :
    let v = verdict quick.closing quick.waited in
    let over = after_business strict cutting begun quick in
    (f : Finalized) × (execute_run strict cutting begun quick ≡ ok f)
    × (apply_patches strict empty (received over.stream ++ map mapping (jsons f.events))
        ≡ done (
            closed_snapshot
              (report_of v.error quick.completion_error v.source)
              quick_meta.0
              over.snapshot))
execute_run-replayed_example =
    execute_run-replayed strict cutting fresh begun page (λ f. access_lost) none quick empty
      quick_meta.0 refl fresh-begun (accepted "lo", tt) quick-passes quick_meta.1

-- the stream of that run, as readers get it
abbrev cursor_of : Entry → String
cursor_of x = if x.seq == 1 then "1-0" else "2-0"

abbrev first_stored : StoredEvent
first_stored = record {
  cursor = "1-0";
  event = to_json (record opening { stream_id = some "main" });
}

abbrev second_stored : StoredEvent
second_stored = record { cursor = "2-0"; event = to_json (on_intro "lo") }

abbrev all_stored : List StoredEvent
all_stored = first_stored ∷ second_stored ∷ []

quick_closed :
    (f : Finalized) × (execute_run strict cutting begun quick ≡ ok f)
    × (stored_as cursor_of f.context.stream ≡ all_stored)
unfolding execute_run after_business run_business deliver outgoing check_stream publish coerce_event
    apply_event apply_append get set split remove_prefix py_eq append_blocks read_delta scan_value
    scan merge_field join has_dot publish_start construct validate_operation check_operation to_json
    extract_patch_op start parse_ui_model model_validate finalize publish_terminal verdict end
quick_closed = (_, refl, refl)

abbrev read_stored : String → List StoredEvent
read_stored k =
    if str_eq k "0-0" then all_stored else if str_eq k "1-0" then second_stored ∷ [] else []

abbrev while_running : Poll
while_running = record { read = read_stored; execution = none; emitter = quick.emitter; now = 5 }

abbrev at_last : Poll
at_last = record while_running { execution = some quick_closed.0.events }

abbrev cursors : List StoredEvent → List String
cursors xs = map (λ x. x.cursor) xs

read_stored-rest :
    (pre rest : List StoredEvent)
    → all_stored ≡ pre ++ rest
    → rest ≡ read_stored (last_cursor "0-0" pre)
read_stored-rest [] rest whole = sym whole
read_stored-rest (x ∷ []) rest whole =
    let at : x.cursor ≡ "1-0" = cc whole in
    let tail : second_stored ∷ [] ≡ rest = cc whole in rw at (sym tail)
read_stored-rest (x ∷ y ∷ []) rest whole =
    let at : y.cursor ≡ "2-0" = cc whole in let tail : [] ≡ rest = cc whole in rw at (sym tail)
read_stored-rest (x ∷ y ∷ z ∷ xs) rest whole = absurd (cc whole)

abbrev IsReadingQuick : Poll → Type 0
IsReadingQuick = IsReading strict quick_closed.0.events all_stored "0-0"

while_running-IsReading : IsReadingQuick while_running
while_running-IsReading = record {
  reads = λ pre rest whole. ([], read_stored-rest pre rest whole ∙ sym (append-nil _));
  settles = λ pre rest us whole empty running. absurd (cc running);
}

at_last-IsReading : IsReadingQuick at_last
at_last-IsReading = record {
  reads = λ pre rest whole. ([], read_stored-rest pre rest whole ∙ sym (append-nil _));
  settles = λ pre rest us whole empty over.
      (sym (some-injective _ _ over), read_stored-rest pre rest whole ∙ empty);
}

quick-returned : (stream_live [] "0-0" (while_running ∷ at_last ∷ [])).returned ≡ true
unfolding stream_live visit deliver_stored extract_patch_op get to_json
quick-returned = refl

stream_live-replays_example :
    let v = verdict quick.closing quick.waited in
    let over = after_business strict cutting begun quick in
    apply_patches strict page (heard (stream_live [] "0-0" (while_running ∷ at_last ∷ [])).events)
    ≡ done (
        closed_snapshot
          (report_of v.error quick.completion_error v.source)
          quick_meta.0
          over.snapshot)
stream_live-replays_example =
    stream_live-replays cursor_of strict cutting fresh begun page (λ f. access_lost) none quick page
      quick_meta.0 quick_closed.0 "0-0" (while_running ∷ at_last ∷ []) refl fresh-begun
      (accepted "lo", tt) quick-passes quick_meta.1 quick_closed.1
      (subst
        (λ l. All (IsReading strict quick_closed.0.events l "0-0") (while_running ∷ at_last ∷ []))
        (sym quick_closed.2) (while_running-IsReading, (at_last-IsReading, tt)))
      quick-returned
