-- ===== src/Runner/Live/Whole.antt =====
-- What a live reader has of a whole run, from its start event to its terminal events.
use mathlib.Core.Path.{subst}
use agentue.Prelude.{
  String, ◌≡◌, refl, sym, ap, ◌∙◌, true, false, Option, none, some, List, [], ◌∷◌, ◌++◌, map,
  map-append, map-map, All, if◌then◌else◌,
}
use agentue.Json.{Fields, obj, get}
use agentue.Result.{ok, ok-injective}
use agentue.Model.{member}
use agentue.Event.{Pydantic}
use agentue.Apply.{done, mapping, apply_patches}
use agentue.Apply.Replay.{IsAccepted}
use agentue.Runner.Failures.{Failure}
use agentue.Runner.Errors.{Exception}
use agentue.Runner.{Entry, Bridge, RunnerContext, run_business}
use agentue.Emitter.{start}
use agentue.Runner.Terminal.{Finalized}
use agentue.Runner.Stream.{received}
use agentue.Runner.Execute.{Run, executing, verdict, report_of, after_business, execute_run, begin}
use agentue.Runner.Execute.Replayed.{closed_snapshot, execute_run-replayed}
use agentue.Runner.Live.{DeliveryEvent, Live, op_of_event, noted, deliver_stored, Poll, stream_live}
use agentue.Runner.Quiet.{IsQuiet, AreQuiet, run_business-AreQuiet, begin-AreQuiet}
use agentue.Runner.Live.Deliveries.{last_deliveries, stored_as, events_of, jsons, IsDelivered}
use agentue.Runner.Live.Closing.{finalize-IsDelivered}
use agentue.Runner.Live.Stored.{noted-other}
use agentue.Runner.Live.Continuing.{heard, deliver_stored-continuing}
use agentue.Runner.Live.Heard.{IsReading, stream_live-heard}

-- what a reader has delivered that has read a quiet part of the stream
record HasRead (xs : List Entry) (live : Live) : Type 0 where
  open_on : live.returned ≡ false
  deliveries : events_of live.events ≡ map (λ x. x.json) xs
  no_error : member "error" live.control_ops ≡ false
  no_end : member "end" live.control_ops ≡ false

module _ (cursor_of : Entry → String) where
  deliver_stored-HasRead :
      (ops : List String) (c : String) (xs : List Entry)
      → All IsQuiet xs
      → member "error" ops ≡ false
      → member "end" ops ≡ false
      → HasRead xs (deliver_stored ops c (stored_as cursor_of xs))
  unfolding deliver_stored
  deliver_stored-HasRead ops c [] q e d = record {
    open_on = refl;
    deliveries = refl;
    no_error = e;
    no_end = d;
  }
  deliver_stored-HasRead ops c (x ∷ xs) ((not_error, not_end), qs) e d =
      let op = op_of_event x.json in
      let h =
        deliver_stored-HasRead (noted op ops) (cursor_of x) xs qs
          (noted-other "error" op ops not_error e) (noted-other "end" op ops not_end d) in
      rw not_end (record {
        open_on = h.open_on;
        deliveries = ap (λ l. x.json ∷ l) h.deliveries;
        no_error = h.no_error;
        no_end = h.no_end;
      })

  -- the deliveries of a stream that was quiet when its run was finalized
  whole-deliveries :
      (start : String) (before : List Entry) (f : Finalized)
      → All IsQuiet before
      → ((ops : List String) (c : String)
          → member "error" ops ≡ false
          → member "end" ops ≡ false
          → IsDelivered cursor_of ops c before f)
      → events_of (last_deliveries [] start (stored_as cursor_of f.context.stream) f.events)
        ≡ map (λ (x : Entry). x.json) before ++ jsons f.events
  whole-deliveries start before f q delivered =
      let live = deliver_stored [] start (stored_as cursor_of before) in
      let h = deliver_stored-HasRead [] start before q refl refl in
      let d = delivered live.control_ops live.cursor h.no_error h.no_end in
      let on = last_deliveries live.control_ops live.cursor (stored_as cursor_of d.new) f.events in
      ap (λ xs. events_of (last_deliveries [] start (stored_as cursor_of xs) f.events)) d.stream
      ∙ ap (λ xs. events_of (last_deliveries [] start xs f.events)) (map-append _ before d.new)
      ∙ ap events_of (
          deliver_stored-continuing f.events [] start (stored_as cursor_of before)
            (stored_as cursor_of d.new))
      ∙ ap (λ b. events_of (if b then live.events else live.events ++ on)) h.open_on
      ∙ map-append (λ (x : DeliveryEvent). x.event) live.events on
      ∙ ap (λ l. l ++ events_of on) h.deliveries
      ∙ ap (λ l. map (λ (x : Entry). x.json) before ++ l) d.deliveries

-- A live reader that starts before the stream of a run and applies what it gets to any snapshot, where
-- the run begins on an empty stream, its start event goes out, its business phase ends without a
-- failure, its snapshot has metadata, and its result is `f`. The polls answer in order, and when the
-- run is done and there is nothing to read, the reader has read the whole stream. Then, once the
-- delivery has returned, the reader has the runner's snapshot, with the error of the run under
-- `meta.error` if it has one to report.
pub stream_live-replays :
    (cursor_of : Entry → String) (py : Pydantic) (bridge : Bridge)
    (context context' : RunnerContext) (model : Fields) (describe : Failure → Exception)
    (completion_error : Option Exception) (run : Run) (base m : Fields) (f : Finalized)
    (cursor : String) (polls : List Poll)
    → context.stream ≡ []
    → begin py bridge context model describe none completion_error ≡ executing context'
    → All IsAccepted run.patches
    → (run_business py bridge context' run.patches run.ending).failure ≡ none
    → get "meta" (after_business py bridge context' run).snapshot ≡ some (obj m)
    → execute_run py bridge context' run ≡ ok f
    → All (IsReading py f.events (stored_as cursor_of f.context.stream) cursor) polls
    → (stream_live [] cursor polls).returned ≡ true
    → let v = verdict run.closing run.waited in
      let over = after_business py bridge context' run in
      apply_patches py base (heard (stream_live [] cursor polls).events)
      ≡ done (closed_snapshot (report_of v.error run.completion_error v.source) m over.snapshot)
unfolding execute_run after_business
stream_live-replays cursor_of py bridge context context' model describe c run base m f cursor polls
      fresh began accepted fine meta executed reading over_now =
    let v = verdict run.closing run.waited in
    let report = report_of v.error run.completion_error v.source in
    let over = after_business py bridge context' run in
    let (g, made, replayed) =
      execute_run-replayed py bridge context context' model describe c run base m fresh began
        accepted fine meta in
    let same : g ≡ f = ok-injective (sym made ∙ executed) in
    let begun : AreQuiet context' =
      begin-AreQuiet py bridge context context' model describe c
        (subst (All IsQuiet) (sym fresh) tt) began in
    let quiet : All IsQuiet over.stream =
      run_business-AreQuiet py bridge context' run.patches run.ending begun in
    let delivered : (ops : List String) (k : String)
        → member "error" ops ≡ false
        → member "end" ops ≡ false
        → IsDelivered cursor_of ops k over.stream f =
      λ ops k no_error no_end.
        let (h, finalized, d) =
          finalize-IsDelivered cursor_of ops k no_error no_end py bridge over report in
        subst (IsDelivered cursor_of ops k over.stream) (ok-injective (sym finalized ∙ executed))
          d in
    stream_live-heard py f.events (stored_as cursor_of f.context.stream) cursor polls [] []
      (stored_as cursor_of f.context.stream) reading refl over_now base
    ∙ ap (λ l. apply_patches py base (map mapping l))
        (whole-deliveries cursor_of cursor over.stream f quiet delivered)
    ∙ ap (apply_patches py base) (map-append mapping _ (jsons f.events))
    ∙ ap (λ l. apply_patches py base (l ++ map mapping (jsons f.events)))
        (map-map mapping (λ (x : Entry). x.json) over.stream)
    ∙ ap
        (λ (h : Finalized).
          apply_patches py base (received over.stream ++ map mapping (jsons h.events)))
        (sym same)
    ∙ replayed
