-- ===== src/Runner/Live.antt =====
-- `_stream_live` of runner/runner.py: what a run delivers to its live reader. The generator is run on
-- a list of polls, one for each time around its loop.
pub mod Stored
pub mod Order
pub mod Ending
pub mod Deliveries
pub mod Closing
pub mod Continuing
pub mod Heard
pub mod Whole
use agentue.Prelude.{
  ℕ, String, Bool, true, false, not, ◌&&◌, ◌||◌, Option, none, some, List, [], ◌∷◌, ◌++◌, str_eq,
  if◌then◌else◌,
}
use agentue.Json.{Value, obj, Fields}
use agentue.Result.{Result, ok, err}
use agentue.Event.{extract_patch_op}
use agentue.Emitter.{PatchEmitter, ping}
use agentue.Model.{member}
use agentue.Runner.EventBridge.{StoredEvent}
use agentue.Runner.Terminal.{TerminalEvent}

-- `DeliveryEvent`
pub record DeliveryEvent : Type 0 where
  pub event : Fields
  pub cursor : Option String
  pub persisted : Bool

-- What the loop meets when it comes around: what `read` answers at a cursor; the terminal events of
-- the execution, if it is done; the emitter, which the application goes on to use; and the time.
pub record Poll : Type 0 where
  pub read : String → List StoredEvent
  pub execution : Option (List TerminalEvent)
  pub emitter : PatchEmitter
  pub now : ℕ

-- the operation of an event of the stream
abbrev pub op_of_event : Fields → Option String
op_of_event e = extract_patch_op (some (obj e))

abbrev pub is_op : String → Option String → Bool
is_op name none = false
is_op name (some op) = str_eq op name

abbrev pub control_op : Option String → Bool
control_op none = false
control_op (some op) = member op ("start" ∷ "error" ∷ "end" ∷ [])

-- `delivered_control_ops.add(op)`
abbrev pub noted : Option String → List String → List String
noted none ops = ops
noted (some op) ops = if control_op (some op) then op ∷ ops else ops

abbrev pub stored_delivery : StoredEvent → DeliveryEvent
stored_delivery item = record { event = item.event; cursor = some item.cursor; persisted = true }

-- the generator's variables, what it yielded, and whether it has returned
pub record Live : Type 0 where
  pub events : List DeliveryEvent
  pub returned : Bool
  pub control_ops : List String
  pub cursor : String

abbrev pub prepend : DeliveryEvent → Live → Live
prepend e live = record live { events = e ∷ live.events }

-- the loop over what was read
unfoldable pub deliver_stored : List String → String → List StoredEvent → Live
unfolding extract_patch_op
deliver_stored ops cursor [] = record {
  events = [];
  returned = false;
  control_ops = ops;
  cursor = cursor;
}
deliver_stored ops cursor (item ∷ items) =
    let op = op_of_event item.event in
    let rest = deliver_stored (noted op ops) item.cursor items in
    prepend (stored_delivery item) (
      if is_op "end" op
      then record { events = []; returned = true; control_ops = noted op ops; cursor = item.cursor }
      else rest)

abbrev pub is_delivered : List String → Option String → Bool
is_delivered ops none = false
is_delivered ops (some op) = member op ops

-- the terminal events that the stream may not hold
unfoldable pub deliver_terminal : List String → List TerminalEvent → List DeliveryEvent
unfolding extract_patch_op
deliver_terminal ops [] = []
deliver_terminal ops (t ∷ ts) =
    let rest = deliver_terminal ops ts in
    if not t.persisted && not (is_delivered ops (op_of_event t.json))
    then record { event = t.json; cursor = none; persisted = false } ∷ rest
    else rest

-- the ping of an idle reader; `ping` raises nothing
abbrev pub idle : Result Fields → List DeliveryEvent
idle (ok e) = record { event = e; cursor = none; persisted = false } ∷ []
idle (err x) = []

-- one time around the loop when nothing was read
abbrev pub visit_idle : List String → String → Poll → Option (List TerminalEvent) → Live
visit_idle ops cursor poll none = record {
  events = idle (ping poll.emitter poll.now).result;
  returned = false;
  control_ops = ops;
  cursor = cursor;
}
visit_idle ops cursor poll (some terminal_events) = record {
  events = deliver_terminal ops terminal_events;
  returned = true;
  control_ops = ops;
  cursor = cursor;
}

abbrev pub visit_read : List String → String → Poll → List StoredEvent → Live
visit_read ops cursor poll [] = visit_idle ops cursor poll poll.execution
visit_read ops cursor poll (item ∷ items) = deliver_stored ops cursor (item ∷ items)

-- one time around the loop
unfoldable pub visit : List String → String → Poll → Live
unfolding deliver_stored deliver_terminal ping
visit ops cursor poll = visit_read ops cursor poll (poll.read cursor)

-- the loop goes around unless the generator has returned
abbrev pub continued : Live → Live → Live
continued live rest =
    if live.returned then live else record rest { events = live.events ++ rest.events }

-- `_stream_live`, with the operations noted so far and the cursor
unfoldable pub stream_live : List String → String → List Poll → Live
unfolding visit
stream_live ops cursor [] = record {
  events = [];
  returned = false;
  control_ops = ops;
  cursor = cursor;
}
stream_live ops cursor (poll ∷ polls) =
    let live = visit ops cursor poll in
    let rest = stream_live live.control_ops live.cursor polls in continued live rest
