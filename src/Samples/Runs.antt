-- ===== src/Samples/Runs.antt =====
-- Sample runs: from the settings and the start event to the deliveries and the terminal events.
use agentue.Prelude.{
  String, ◌≡◌, ◌≢◌, refl, true, false, none, some, [], ◌∷◌, ◌++◌, arith, if◌then◌else◌, str_eq,
}
use agentue.Prelude.Text.{split, remove_prefix, has_dot}
use agentue.Json.{str, empty, get, set}
use agentue.Json.Equality.{py_eq}
use agentue.Result.{ok}
use agentue.Event.{
  extract_patch_op, PatchOp, validate_operation, check_operation, to_json,
  validate_block_field_patch,
}
use agentue.Apply.{apply_append, append_blocks, read_delta, apply_event, coerce_event, event}
use agentue.Apply.Blocks.{scan, scan_value, merge_field, join}
use agentue.Runner.{RunnerContext, Bridge, complete, run_business, returned}
use agentue.Runner.Stream.{Run, run_business-Run}
use agentue.Runner.Terminal.{Report, Finalized, finalize, ops, finalize-closing}
use agentue.Samples.{page, strict, on_intro, accepted, opening, set_link}
use agentue.Prelude.{sym, ap, ℕ, ◌≤◌, ◌↔◌, List, All}
use agentue.Emitter.{tagged, advance}
use agentue.Runner.{Entry, deliver, outgoing, check_stream, publish}
use agentue.Runner.Stream.{Run}
use agentue.Json.Double.{float_le}
use agentue.Runner.Options.{
  defaults, post_init, check_positive, IsValid, post_init-IsValid, post_init-nan_timeout,
}
use agentue.Runner.Errors.{
  Exception, execute, error_code, error_message, IsShown, error_code-message,
}
use agentue.Runner.EventBridge.{StoredEvent}
use agentue.Runner.Terminal.{TerminalEvent}
use agentue.Runner.Live.{Poll, stream_live}
use agentue.Runner.Live.Stored.{last_cursor}
use agentue.Runner.Live.Order.{IsFaithful}
use agentue.Runner.Live.Ending.{IsInOrder, stream_live-returns}
use agentue.Runner.Numbering.{IsNumbered}
use agentue.Runner.Execute
use agentue.Runner.Execute.Outcomes.{
  IsSuccess, IsBegun, execute_run-completed, execute_run-IsNumbered, begin-IsBegun,
}

link-accepted : validate_operation set_link ≡ ok set_link
unfolding validate_operation check_operation validate_block_field_patch get split
link-accepted = refl

-- a run whose start event is out, on a bridge that takes everything
abbrev pub running : RunnerContext
running = record {
  emitter = record { offset = 1; stream_id = some "main" };
  snapshot = page;
  published_seq = 1;
  stream = record { seq = 1; json = to_json opening } ∷ [];
}

abbrev pub steady : Bridge
steady = record { ends = λ entries entry. complete }

run_business-Run_example :
    Run strict running
      (run_business strict steady running (event (on_intro "lo") ∷ event set_link ∷ []) returned)
run_business-Run_example =
    run_business-Run strict steady running (event (on_intro "lo") ∷ event set_link ∷ []) returned
      (accepted "lo", (link-accepted, tt))

abbrev pub timed_out : Report
timed_out = record { code = "timeout"; message = "too slow" }

finalize-closing_example :
    (f : Finalized) × (finalize strict steady running (some timed_out) ≡ ok f)
    × (ops f ≡ some (str "error") ∷ some (str "end") ∷ [])
finalize-closing_example = finalize-closing strict steady running (some timed_out)

running-IsNumbered : IsNumbered running
running-IsNumbered = (omega arith, omega arith)

-- a run that has published nothing
abbrev pub fresh : RunnerContext
fresh = record {
  emitter = record { offset = 0; stream_id = some "main" };
  snapshot = empty;
  published_seq = 0;
  stream = [];
}

fresh-IsNumbered : IsNumbered fresh
fresh-IsNumbered = omega arith

abbrev no_access : Exception
no_access = record { is_cancelled = false; class_name = "PermissionError"; text = " no access\n" }

error_code-message_example :
    (error_code no_access execute ≢ "") × IsShown (error_message no_access execute)
error_code-message_example = error_code-message no_access execute

begin-IsBegun_example :
    IsBegun
      (λ f. no_access)
      (Execute.begin strict steady fresh page (λ f. no_access) (some no_access) none)
begin-IsBegun_example =
    begin-IsBegun strict steady fresh page (λ f. no_access) (some no_access) none fresh-IsNumbered

-- a run whose callback yields one patch and returns
abbrev pub quick : Execute.Run
quick = record {
  patches = event (on_intro "lo") ∷ [];
  ending = returned;
  emitter = record { offset = 2; stream_id = some "main" };
  closing = false;
  waited =
      Execute.first_done false
        (record { business = some Execute.returned; pulse = none; heartbeat = none });
  completion_error = none;
}

quick_end : (f : Finalized) × (Execute.execute_run strict steady running quick ≡ ok f)
unfolding Execute.execute_run
quick_end =
    let v = Execute.verdict quick.closing quick.waited in
    let (f, e, _) =
      finalize-closing strict steady (Execute.after_business strict steady running quick)
        (Execute.report_of v.error quick.completion_error v.source) in
    (f, e)

execute_run-completed_example :
    (quick_end.0.status ≡ "completed") ↔ (IsSuccess quick.waited × (quick.completion_error ≡ none))
execute_run-completed_example =
    execute_run-completed strict steady running quick quick_end.0 quick_end.1

quick_stream :
    All (λ (x : Entry). x.seq ≤ 2) (Execute.after_business strict steady running quick).stream
unfolding Execute.after_business run_business deliver outgoing check_stream publish coerce_event
    apply_event apply_append get set split remove_prefix py_eq append_blocks read_delta scan_value
    scan merge_field join has_dot
quick_stream = (omega arith, (omega arith, tt))

execute_run-IsNumbered_example :
    (f : Finalized) × (Execute.execute_run strict steady running quick ≡ ok f)
    × IsNumbered f.context
execute_run-IsNumbered_example =
    execute_run-IsNumbered strict steady running quick (accepted "lo", tt)
      (omega arith, omega arith) (omega arith) quick_stream

defaults-accepted : post_init defaults ≡ ok tt
unfolding post_init check_positive float_le
defaults-accepted = refl

post_init-IsValid_example : (post_init defaults ≡ ok tt) ↔ IsValid defaults
post_init-IsValid_example = post_init-IsValid defaults

-- the double 0x7ff8000000000000
abbrev nan : ℕ
nan = 9_221_120_237_041_090_560

post_init-nan_timeout_example : post_init (record defaults { heartbeat_timeout = nan }) ≡ ok tt
post_init-nan_timeout_example = post_init-nan_timeout defaults nan refl defaults-accepted

-- the start event of a run, as its reader gets it from the stream
abbrev stored_opening : StoredEvent
stored_opening = record { cursor = "1-0"; event = to_json opening }

abbrev unpublished_end : TerminalEvent
unpublished_end = record {
  json = to_json (tagged PatchOp.end (advance quick.emitter));
  persisted = false;
}

abbrev reading : Poll
reading = record {
  read = λ cursor. if str_eq cursor "0-0" then stored_opening ∷ [] else [];
  execution = none;
  emitter = fresh.emitter;
  now = 5;
}

abbrev ended : Poll
ended = record reading { read = λ cursor. []; execution = some (unpublished_end ∷ []) }

first_cursor : List StoredEvent → String
first_cursor [] = ""
first_cursor (x ∷ xs) = x.cursor

reading_reads :
    (pre rest : List StoredEvent)
    → stored_opening ∷ [] ≡ pre ++ rest
    → (later : List StoredEvent) × (rest ≡ reading.read (last_cursor "0-0" pre) ++ later)
unfolding first_cursor
reading_reads [] rest whole = ([], sym whole)
reading_reads (x ∷ []) rest whole = (rest, rw (← ap first_cursor whole) refl)
reading_reads (x ∷ y ∷ xs) rest whole = absurd (cc whole)

reading-IsFaithful : IsFaithful (stored_opening ∷ []) "0-0" reading
reading-IsFaithful = record {
  reads = reading_reads;
  settles = λ pre rest ts whole empty running. absurd (cc running);
}

ended-IsFaithful : IsFaithful (stored_opening ∷ []) "0-0" ended
unfolding extract_patch_op get to_json
ended-IsFaithful = record {
  reads = λ pre rest whole. (rest, refl);
  settles =
      λ pre rest ts whole empty done. ([], unpublished_end, cc done, refl, λ out. absurd (cc out));
}

reading-IsInOrder : IsInOrder (stored_opening ∷ []) "0-0" reading
reading-IsInOrder = record { reads = reading-IsFaithful.reads }

ended-IsInOrder : IsInOrder (stored_opening ∷ []) "0-0" ended
ended-IsInOrder = record { reads = ended-IsFaithful.reads }

stream_live-returns_example : (stream_live [] "0-0" (reading ∷ ended ∷ ended ∷ [])).returned ≡ true
stream_live-returns_example =
    stream_live-returns (stored_opening ∷ []) "0-0" (reading ∷ ended ∷ ended ∷ []) []
      (reading-IsInOrder, (ended-IsInOrder, (ended-IsInOrder, tt))) (omega arith)
