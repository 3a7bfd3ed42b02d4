-- ===== src/Emitter/Order.antt =====
-- The sequence numbers of what an emitter hands out.
use mathlib.Core.Option
use agentue.Prelude.{
  ◌∙◌, ℕ, sym, not, ◌+◌, ◌≤◌, ◌≡◌, refl, true, false, none, some, arith, ap, ltb, Bool-cases, inl,
  inr,
}
use agentue.Json.{pos, negsuc, str, obj, Fields, field, empty, is_some, get}
use agentue.Result.{
  err-ne-ok, Result, ok, validation_error, value_error, type_error, attribute_error, key_error,
  ok-injective, err, validated,
}
use agentue.Event.{PatchOp, PatchEvent, construct, to_json, number, validate_operation}
use agentue.Event.Valid.{validate_operation-same}
use agentue.Event.Wire.{get-seq, get-stream_id}
use agentue.Emitter.{
  error_payload, block_set, meta_set, block_append, error, set_stats, ping, end, PatchEmitter,
  advance, json_of, emit, start, run, Call, start_call, block_set_call, meta_set_call,
  block_append_call, error_call, set_stats_call, ping_call, end_call, tagged,
}

-- How the number of an event lies to the emitter's number before the call.
abbrev pub Fits : Call → ℕ → ℕ → Type 0
Fits (ping_call now) before n = n ≡ before
Fits (start_call model (some seq)) before n = (pos n ≡ seq) × (before ≤ n)
Fits c before n = n ≡ before + 1

validated-emitted :
    (r : Result PatchEvent) (e : PatchEvent) (json : Fields)
    → ((a : PatchEvent) → r ≡ ok a → a ≡ e)
    → json_of (validated r) ≡ ok json
    → json ≡ to_json e
validated-emitted (ok a) e json same h = cc (ok-injective h, same a refl)
validated-emitted (err validation_error) e json same h = ground arith
validated-emitted (err (value_error r)) e json same h = ground arith
validated-emitted (err type_error) e json same h = ground arith
validated-emitted (err attribute_error) e json same h = ground arith
validated-emitted (err key_error) e json same h = ground arith

emit-inv :
    (em : PatchEmitter) (e : PatchEvent) (json : Fields)
    → (emit em e).result ≡ ok json
    → json ≡ to_json e
unfolding emit construct
emit-inv em e json h =
    validated-emitted (validate_operation e) e json
      (λ a same. sym (validate_operation-same e a same)) h

-- the event of a call, at the emitter's number
abbrev event_of : PatchEmitter → Call → PatchEvent
event_of em (start_call model seq) = record (tagged PatchOp.start em) { model = some model }
event_of em (block_set_call block mask event_type) = record (tagged PatchOp.set em) {
  mask = mask;
  event_type = event_type;
  block = some (block (not (is_some mask)) (is_some mask));
}
event_of em (meta_set_call mask meta event_type) = record (tagged PatchOp.set em) {
  mask = some mask;
  event_type = event_type;
  meta = some meta;
}
event_of em (block_append_call block mask event_type) = record (tagged PatchOp.append em) {
  mask = some mask;
  event_type = event_type;
  block = some (block true false);
}
event_of em (error_call code message trace_id detail) = record (tagged PatchOp.error em) {
  mask = some "meta.error";
  meta = some (field "error" (obj (error_payload code message trace_id detail)) empty);
}
event_of em (set_stats_call stats) = record (tagged PatchOp.set em) {
  mask = some "meta.stats";
  meta = some (field "stats" (obj stats) empty);
}
event_of em (ping_call now) = record (tagged PatchOp.ping em) { ts = some now }
event_of em end_call = tagged PatchOp.end em

event_of-tags :
    (em : PatchEmitter) (c : Call)
    → ((event_of em c).seq ≡ em.offset) × ((event_of em c).stream_id ≡ em.stream_id)
event_of-tags em (start_call model seq) = (refl, refl)
event_of-tags em (block_set_call block mask event_type) = (refl, refl)
event_of-tags em (meta_set_call mask meta event_type) = (refl, refl)
event_of-tags em (block_append_call block mask event_type) = (refl, refl)
event_of-tags em (error_call code message trace_id detail) = (refl, refl)
event_of-tags em (set_stats_call stats) = (refl, refl)
event_of-tags em (ping_call now) = (refl, refl)
event_of-tags em end_call = (refl, refl)

-- what an event says that is tagged with an emitter's number and stream
emit-tags :
    (em : PatchEmitter) (c : Call) (json : Fields)
    → (emit em (event_of em c)).result ≡ ok json
    → (get "seq" json ≡ some (number em.offset))
      × (get "stream_id" json ≡ Option.map str em.stream_id)
emit-tags em c json h =
    let same = emit-inv em (event_of em c) json h in
    let (at, of) = event_of-tags em c in
    (
      ap (get "seq") same ∙ get-seq (event_of em c) ∙ ap (λ n. some (number n)) at,
      ap (get "stream_id") same ∙ get-stream_id (event_of em c) ∙ ap (λ o. Option.map str o) of,
    )

not_below : (k n : ℕ) → ltb k n ≡ false → n ≤ k
not_below k n h = ground arith

-- Every event that a method returns carries the emitter's number after the call and the emitter's
-- stream id, which stays. A ping has the number of before, a `start` that is given a number has that
-- number, which is not below that of before, and every other event has the next number.
pub run-Fits :
    (em : PatchEmitter) (c : Call) (json : Fields)
    → (run em c).result ≡ ok json
    → (get "seq" json ≡ some (number (run em c).emitter.offset))
      × (get "stream_id" json ≡ Option.map str em.stream_id)
      × ((run em c).emitter.stream_id ≡ em.stream_id)
      × Fits c em.offset (run em c).emitter.offset
unfolding run start block_set meta_set block_append error set_stats ping end
run-Fits em (start_call model none) json h =
    let (n, i) = emit-tags (advance em) (start_call model none) json h in (n, i, refl, refl)
run-Fits em (start_call model (some (negsuc k))) json h = ground arith
run-Fits em (start_call model (some (pos k))) json h = elim (Bool-cases (ltb k em.offset)) [
  | inl low ↦ absurd (err-ne-ok (rw low at h))
  | inr high ↦
      let at = record em { offset = k } in
      let (n, i) = emit-tags at (start_call model (some (pos k))) json (rw high at h) in
      rw high (n, i, refl, (refl, not_below k em.offset high))
]
run-Fits em (block_set_call block mask event_type) json h =
    let (n, i) = emit-tags (advance em) (block_set_call block mask event_type) json h in
    (n, i, refl, refl)
run-Fits em (meta_set_call mask meta event_type) json h =
    let (n, i) = emit-tags (advance em) (meta_set_call mask meta event_type) json h in
    (n, i, refl, refl)
run-Fits em (block_append_call block mask event_type) json h =
    let (n, i) = emit-tags (advance em) (block_append_call block mask event_type) json h in
    (n, i, refl, refl)
run-Fits em (error_call code message trace_id detail) json h =
    let (n, i) = emit-tags (advance em) (error_call code message trace_id detail) json h in
    (n, i, refl, refl)
run-Fits em (set_stats_call stats) json h =
    let (n, i) = emit-tags (advance em) (set_stats_call stats) json h in (n, i, refl, refl)
run-Fits em (ping_call now) json h =
    let (n, i) = emit-tags em (ping_call now) json h in (n, i, refl, refl)
run-Fits em end_call json h =
    let (n, i) = emit-tags (advance em) end_call json h in (n, i, refl, refl)
