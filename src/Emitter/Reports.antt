-- ===== src/Emitter/Reports.antt =====
-- Events from emitter.py that apply.py receives: the error report, the heartbeat and the end.
use agentue.Prelude.{ℕ, String, ◌≡◌, refl, Option, some, ap, ◌∙◌}
use agentue.Json.{obj, Fields, empty, field, get, set}
use agentue.Result.{ok, validated}
use agentue.Event.{
  PatchOp, PatchEvent, Pydantic, to_json, construct, check_operation, validate_operation,
}
use agentue.Prelude.Text.{partition, split}
use agentue.Apply.Replay.{apply_patch-to_json}
use agentue.Apply.{done, mapping, apply_patch, apply_event, set_by_mask}
use agentue.Apply.Path.{write_value, write_path, read_from}
use agentue.Emitter.{PatchEmitter, json_of, emit, advance, tagged, error, error_payload, ping, end}

-- the event that `error` builds
abbrev report : PatchEmitter → Fields → PatchEvent
report em payload = record (tagged PatchOp.error (advance em)) {
  mask = some "meta.error";
  meta = some (field "error" (obj payload) empty);
}

report-valid :
    (em : PatchEmitter) (payload : Fields)
    → validate_operation (report em payload) ≡ ok (report em payload)
unfolding validate_operation check_operation get
report-valid em payload = refl

-- `meta.error` is written into the metadata of the snapshot.
set-meta-error :
    (s m payload : Fields)
    → get "meta" s ≡ some (obj m)
    → set_by_mask s "meta.error" (field "error" (obj payload) empty)
      ≡ done (set "meta" (obj (set "error" (obj payload) m)) s)
unfolding set_by_mask read_from get write_value write_path partition split
set-meta-error s m payload h = rw (h, h) refl

module _ (py : Pydantic) where
  -- `error` always gives an event, whatever its texts are. A reader that holds a snapshot with
  -- metadata and applies it has the code, the message, a detail that is not the message and the trace
  -- id under `meta.error`, in place of an earlier error, and everything else as it was.
  pub error-reported :
      (em : PatchEmitter) (code message : String) (trace_id detail : Option String) (s m : Fields)
      → get "meta" s ≡ some (obj m)
      → (json : Fields) × ((error em code message trace_id detail).result ≡ ok json)
        × (apply_patch py s (mapping json)
            ≡ done (
                set "meta"
                  (obj (set "error" (obj (error_payload code message trace_id detail)) m))
                  s))
  unfolding error emit construct apply_event
  error-reported em code message trace_id detail s m h =
      let payload = error_payload code message trace_id detail in
      let valid = report-valid em payload in
      (
        to_json (report em payload),
        ap (λ r. json_of (validated r)) valid,
        apply_patch-to_json py s (report em payload) valid ∙ set-meta-error s m payload h,
      )

  -- `ping` and `end` always give an event, and a reader that applies it keeps its snapshot.
  pub signals-keep :
      (em : PatchEmitter) (now : ℕ) (s : Fields)
      → ((json : Fields) × ((ping em now).result ≡ ok json)
          × (apply_patch py s (mapping json) ≡ done s))
        × ((json : Fields) × ((end em).result ≡ ok json)
            × (apply_patch py s (mapping json) ≡ done s))
  unfolding ping end emit construct validate_operation check_operation apply_event
  signals-keep em now s =
      let beat = record (tagged PatchOp.ping em) { ts = some now } in
      let last = tagged PatchOp.end (advance em) in
      (
        (to_json beat, refl, apply_patch-to_json py s beat refl ∙ refl),
        (to_json last, refl, apply_patch-to_json py s last refl ∙ refl),
      )
