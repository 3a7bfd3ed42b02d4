-- ===== src/Emitter.antt =====
-- emitter.py: the stateful builder of events. A method gives its JSON text or raises, and leaves the
-- emitter in a new state either way: the sequence number is taken before the event is validated.
pub mod Order
pub mod Reports
use agentue.Prelude.{
  ℕ, ◌+◌, String, Bool, true, false, not, ◌&&◌, Option, none, some, List, [], ◌∷◌, ltb, str_eq,
  if◌then◌else◌,
}
use agentue.Json.{ℤ, pos, negsuc, Value, str, obj, Fields, empty, field, is_some}
use agentue.Result.{Result, ok, err, Error, value_error, negative_offset, start_backwards}
use agentue.Event.{PatchOp, PatchEvent, bare, construct, to_json}

pub record PatchEmitter : Type 0 where
  pub offset : ℕ
  pub stream_id : Option String

-- a method's result: the JSON object of the event, or what it raises, and the emitter afterwards
pub record Emitted : Type 0 where
  pub result : Result Fields
  pub emitter : PatchEmitter

-- What `model_dump` gives of a pydantic instance, for `exclude_none` and `exclude_unset`.
abbrev pub Dump : Type 0
Dump = Bool → Bool → Fields

-- `__init__`
unfoldable pub create : ℤ → Option String → Result PatchEmitter
create (pos n) stream_id = ok (record { offset = n; stream_id = stream_id })
create (negsuc n) stream_id = err (value_error negative_offset)

-- `_next_offset`
abbrev pub advance : PatchEmitter → PatchEmitter
advance em = record em { offset = em.offset + 1 }

abbrev pub json_of : Result PatchEvent → Result Fields
json_of (ok e) = ok (to_json e)
json_of (err x) = err x

-- `PatchEvent(…).to_json()`
unfoldable pub emit : PatchEmitter → PatchEvent → Emitted
unfolding construct to_json
emit em e = record { result = json_of (construct e); emitter = em }

-- an event of the emitter's stream, with the number that it is at
abbrev pub tagged : PatchOp → PatchEmitter → PatchEvent
tagged op em = bare op em.offset em.stream_id

abbrev pub start_at : PatchEmitter → Fields → Emitted
start_at em model = emit em (record (tagged PatchOp.start em) { model = some model })

-- `start`; `model` is the dump of the `UIModel`
unfoldable pub start : PatchEmitter → Fields → Option ℤ → Emitted
unfolding emit
start em model none = start_at (advance em) model
start em model (some (negsuc n)) = record {
  result = err (value_error start_backwards);
  emitter = em;
}
start em model (some (pos n)) =
    if ltb n em.offset
    then record { result = err (value_error start_backwards); emitter = em }
    else start_at (record em { offset = n }) model

-- `block_set`
unfoldable pub block_set : PatchEmitter → Dump → Option String → Option String → Emitted
unfolding emit
block_set em block mask event_type = emit (advance em) (record (tagged PatchOp.set (advance em)) {
  mask = mask;
  event_type = event_type;
  block = some (block (not (is_some mask)) (is_some mask));
})

-- `meta_set`
unfoldable pub meta_set : PatchEmitter → String → Fields → Option String → Emitted
unfolding emit
meta_set em mask meta event_type = emit (advance em) (record (tagged PatchOp.set (advance em)) {
  mask = some mask;
  event_type = event_type;
  meta = some meta;
})

-- `block_append`
unfoldable pub block_append : PatchEmitter → Dump → String → Option String → Emitted
unfolding emit
block_append em block mask event_type =
    emit (advance em) (record (tagged PatchOp.append (advance em)) {
      mask = some mask;
      event_type = event_type;
      block = some (block true false);
    })

abbrev add_text : String → Option String → Fields → Fields
add_text k none rest = rest
add_text k (some s) rest = field k (str s) rest

-- `detail`, unless it repeats the message
abbrev pub distinct_detail : String → Option String → Option String
distinct_detail message none = none
distinct_detail message (some detail) = if str_eq detail message then none else some detail

unfoldable pub error_payload : String → String → Option String → Option String → Fields
error_payload code message trace_id detail = field "code" (str code) (
    field "message" (str message)
      (add_text "detail" (distinct_detail message detail) (add_text "trace_id" trace_id empty)))

-- `error`
unfoldable pub error : PatchEmitter → String → String → Option String → Option String → Emitted
unfolding emit error_payload
error em code message trace_id detail =
    emit (advance em) (record (tagged PatchOp.error (advance em)) {
      mask = some "meta.error";
      meta = some (field "error" (obj (error_payload code message trace_id detail)) empty);
    })

-- `set_stats`
unfoldable pub set_stats : PatchEmitter → Fields → Emitted
unfolding meta_set
set_stats em stats = meta_set em "meta.stats" (field "stats" (obj stats) empty) none

-- `ping`, at a time in milliseconds
unfoldable pub ping : PatchEmitter → ℕ → Emitted
unfolding emit
ping em now = emit em (record (tagged PatchOp.ping em) { ts = some now })

-- `end`
unfoldable pub end : PatchEmitter → Emitted
unfolding emit
end em = emit (advance em) (tagged PatchOp.end (advance em))

-- A call of a method, with its arguments.
pub data Call : Type 0 where
  start_call : Fields → Option ℤ → Call
  block_set_call : Dump → Option String → Option String → Call
  meta_set_call : String → Fields → Option String → Call
  block_append_call : Dump → String → Option String → Call
  error_call : String → String → Option String → Option String → Call
  set_stats_call : Fields → Call
  ping_call : ℕ → Call
  end_call : Call

unfoldable pub run : PatchEmitter → Call → Emitted
unfolding start block_set meta_set block_append error set_stats ping end
run em (start_call model seq) = start em model seq
run em (block_set_call block mask event_type) = block_set em block mask event_type
run em (meta_set_call mask meta event_type) = meta_set em mask meta event_type
run em (block_append_call block mask event_type) = block_append em block mask event_type
run em (error_call code message trace_id detail) = error em code message trace_id detail
run em (set_stats_call stats) = set_stats em stats
run em (ping_call now) = ping em now
run em end_call = end em
