-- ===== src/Runner/Execute/Replayed.antt =====
-- `run` of runner/runner.py: the events of a whole run, as a reader applies them.
use mathlib.Core.Path.{subst}
use agentue.Prelude.{
  ◌≡◌, sym, ap, ◌∙◌, String, Bool, true, Option, none, some, List, [], ◌∷◌, ◌++◌, map, map-append,
  All,
}
use agentue.Json.{Fields, obj, get, set}
use agentue.Result.{Result, ok, ok-injective, >>=-eq-ok}
use agentue.Event.{Pydantic}
use agentue.Apply.{Outcome, done, mapping, apply_patch, apply_patches, and_then}
use agentue.Apply.Replay.{IsAccepted, apply_patches-append}
use agentue.Emitter.{Emitted, error, end, error_payload}
use agentue.Emitter.Reports.{error-reported, signals-keep}
use agentue.Runner.Failures.{Failure}
use agentue.Runner.{Entry, Bridge, RunnerContext, run_business}
use agentue.Runner.Stream.{received, run_business-Run}
use agentue.Runner.Terminal.{
  TerminalEvent, Report, Finalized, finish, finalize, publish_terminal, finalize-closing,
}
use agentue.Runner.Live.Deliveries.{jsons}
use agentue.Runner.Errors.{Exception}
use agentue.Runner.Execute.{Run, executing, verdict, report_of, after_business, execute_run, begin}
use agentue.Runner.Execute.Beginning.{replay_one, replay_two, begin-replays}

-- the snapshot that a run leaves its readers with
abbrev pub closed_snapshot : Option Report → Fields → Fields → Fields
closed_snapshot none m s = s
closed_snapshot (some report) m s =
    set "meta" (obj (set "error" (obj (error_payload report.code report.message none none)) m)) s

module _ (py : Pydantic) (bridge : Bridge) where
  finish-jsons :
      (context : RunnerContext) (last : Emitted) (persisted : Bool) (events : List TerminalEvent)
      (status : String) (f : Finalized)
      → finish py bridge context last persisted events status ≡ ok f
      → (json : Fields) × (last.result ≡ ok json) × (jsons f.events ≡ jsons events ++ json ∷ [])
  finish-jsons context last persisted events status f h =
      let (json, made, rest) = >>=-eq-ok last.result _ h in
      (
        json,
        made,
        ap (λ (g : Finalized). jsons g.events) (sym (ok-injective rest))
            ∙ map-append (λ (t : TerminalEvent). t.json) events _,
      )

  -- an event that the emitter gave is the one that it gives
  given :
      {r : Result Fields} {a b : Fields} (apply_to : Fields → Outcome) {o : Outcome}
      → r ≡ ok a
      → r ≡ ok b
      → apply_to a ≡ o
      → apply_to b ≡ o
  given apply_to {o = o} h k applied =
      subst (λ j. apply_to j ≡ o) (ok-injective (sym h ∙ k)) applied

  finalize-replays :
      (context : RunnerContext) (report : Option Report) (s m : Fields) (f : Finalized)
      → get "meta" s ≡ some (obj m)
      → finalize py bridge context report ≡ ok f
      → apply_patches py s (map mapping (jsons f.events)) ≡ done (closed_snapshot report m s)
  unfolding finalize
  finalize-replays context none s m f meta h =
      let (json, made, listed) =
        finish-jsons context (end context.emitter) true [] "completed" f h in
      let (there, ended, kept) = (signals-keep py context.emitter 0 s).1 in
      ap (λ js. apply_patches py s (map mapping js)) listed
      ∙ replay_one py s s (mapping json) (given (λ j. apply_patch py s (mapping j)) ended made kept)
  finalize-replays context (some report) s m f meta h =
      let failed = error context.emitter report.code report.message none none in
      let (first, made_first, rest) = >>=-eq-ok failed.result _ h in
      let sent = publish_terminal py bridge (record context { emitter = failed.emitter }) first in
      let (json, made, listed) =
        finish-jsons sent.context (end sent.context.emitter) sent.persisted
          (record { json = first; persisted = sent.persisted } ∷ []) "failed" f rest in
      let (there, reported, written) =
        error-reported py context.emitter report.code report.message none none s m meta in
      let s' = closed_snapshot (some report) m s in
      let (last, ended, kept) = (signals-keep py sent.context.emitter 0 s').1 in
      ap (λ js. apply_patches py s (map mapping js)) listed
      ∙ replay_two py s s' s' (mapping first) (mapping json)
          (given (λ j. apply_patch py s (mapping j)) reported made_first written)
          (given (λ j. apply_patch py s' (mapping j)) ended made kept)

-- A whole run: it begins on an empty stream and its start event goes out; the business phase ends
-- without a failure, and its snapshot has metadata. Then the run gives its result, and a reader that
-- applies the events of the stream up to there, and then the terminal events, to any snapshot has the
-- runner's snapshot: as it is if the run has no error to report, and with that error under
-- `meta.error` if it has one.
pub execute_run-replayed :
    (py : Pydantic) (bridge : Bridge) (context context' : RunnerContext) (model : Fields)
    (describe : Failure → Exception) (completion_error : Option Exception) (run : Run)
    (base m : Fields)
    → context.stream ≡ []
    → begin py bridge context model describe none completion_error ≡ executing context'
    → All IsAccepted run.patches
    → (run_business py bridge context' run.patches run.ending).failure ≡ none
    → get "meta" (after_business py bridge context' run).snapshot ≡ some (obj m)
    → let v = verdict run.closing run.waited in
      let over = after_business py bridge context' run in
      (f : Finalized) × (execute_run py bridge context' run ≡ ok f)
      × (apply_patches py base (received over.stream ++ map mapping (jsons f.events))
          ≡ done
              (closed_snapshot (report_of v.error run.completion_error v.source) m over.snapshot))
unfolding execute_run after_business
execute_run-replayed py bridge context context' model describe c run base m fresh began accepted
      fine meta =
    let v = verdict run.closing run.waited in
    let report = report_of v.error run.completion_error v.source in
    let over = after_business py bridge context' run in
    let b = run_business-Run py bridge context' run.patches run.ending accepted in
    let (f, e, _) = finalize-closing py bridge over report in
    let replayed : apply_patches py base (received over.stream) ≡ done over.snapshot =
      ap (λ xs. apply_patches py base (received xs)) b.stream
      ∙ ap (apply_patches py base)
          (map-append (λ (x : Entry). mapping x.json) context'.stream b.new)
      ∙ apply_patches-append py base (received context'.stream) (received b.new)
      ∙ ap (λ o. and_then o (λ s. apply_patches py s (received b.new)))
          (begin-replays py bridge context context' model base describe none c fresh began)
      ∙ b.replay fine in
    (
      f,
      e,
      apply_patches-append py base (received over.stream) (map mapping (jsons f.events))
          ∙ ap (λ o. and_then o (λ s. apply_patches py s (map mapping (jsons f.events)))) replayed
          ∙ finalize-replays py bridge over report over.snapshot m f meta e,
    )
