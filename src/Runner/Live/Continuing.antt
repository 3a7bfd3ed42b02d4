-- ===== src/Runner/Live/Continuing.antt =====
-- Where the loop of a live reader goes on after what it has read.
use agentue.Prelude.{
  true≢false, String, ◌≡◌, refl, sym, ap, ◌∙◌, Bool, true, false, List, [], ◌∷◌, ◌++◌, map,
  map-append, if◌then◌else◌,
}
use agentue.Json.{Fields}
use agentue.Apply.{Outcome, done, raised, and_then, PatchInput, mapping}
use agentue.Runner.EventBridge.{StoredEvent}
use agentue.Runner.Terminal.{TerminalEvent}
use agentue.Runner.Live.{
  DeliveryEvent, Live, op_of_event, is_op, noted, stored_delivery, prepend, deliver_stored,
  deliver_terminal,
}
use agentue.Runner.Live.Stored.{last_cursor}
use agentue.Runner.Live.Deliveries.{last_deliveries, events_of}

-- deliveries, as a reader applies them
abbrev pub heard : List DeliveryEvent → List PatchInput
heard deliveries = map mapping (events_of deliveries)

pub heard-append : (xs ys : List DeliveryEvent) → heard (xs ++ ys) ≡ heard xs ++ heard ys
heard-append xs ys =
    ap (map mapping) (map-append (λ (d : DeliveryEvent). d.event) xs ys)
    ∙ map-append mapping (events_of xs) (events_of ys)

if-cons :
    (b : Bool) (d : DeliveryEvent) (xs ys : List DeliveryEvent)
    → (if b then d ∷ xs else d ∷ ys) ≡ d ∷ (if b then xs else ys)
if-cons true d xs ys = refl
if-cons false d xs ys = refl

pub and_then_cong :
    (o : Outcome) (f g : Fields → Outcome)
    → ((s : Fields) → f s ≡ g s)
    → and_then o f ≡ and_then o g
and_then_cong (done s) f g h = h s
and_then_cong (raised e s) f g h = refl

-- the loop over what was read leaves the cursor at the last event
last_cursor-step :
    (item : StoredEvent) (ops : List String) (items : List StoredEvent) (rest : Live) (ends : Bool)
    → (rest.returned ≡ false → rest.cursor ≡ last_cursor item.cursor items)
    → let live = prepend (stored_delivery item) (
        if ends
        then record { events = []; returned = true; control_ops = ops; cursor = item.cursor }
        else rest) in
      live.returned ≡ false → live.cursor ≡ last_cursor item.cursor items
last_cursor-step item ops items rest true h going = absurd (true≢false going)
last_cursor-step item ops items rest false h going = h going

pub deliver_stored-last_cursor :
    (ops : List String) (c : String) (items : List StoredEvent)
    → (deliver_stored ops c items).returned ≡ false
    → (deliver_stored ops c items).cursor ≡ last_cursor c items
unfolding deliver_stored
deliver_stored-last_cursor ops c [] h = refl
deliver_stored-last_cursor ops c (item ∷ items) h =
    let ops' = noted (op_of_event item.event) ops in
    last_cursor-step item ops' items (deliver_stored ops' item.cursor items)
      (is_op "end" (op_of_event item.event)) (deliver_stored-last_cursor ops' item.cursor items) h

module _ (ts : List TerminalEvent) where
  -- what is delivered if the loop goes on after `live`, with `later` still to read
  abbrev pub continuing : Live → List StoredEvent → List DeliveryEvent
  continuing live later =
      if live.returned
      then live.events
      else live.events ++ last_deliveries live.control_ops live.cursor later ts

  abbrev finished : Live → List DeliveryEvent
  finished live =
      if live.returned then live.events else live.events ++ deliver_terminal live.control_ops ts

  prepend-continuing :
      (d : DeliveryEvent) (ops : List String) (c : String) (later : List StoredEvent)
      (whole part : Live) (ends : Bool)
      → finished whole ≡ continuing part later
      → let stop : Live = record { events = []; returned = true; control_ops = ops; cursor = c } in
        finished (prepend d (if ends then stop else whole))
        ≡ continuing (prepend d (if ends then stop else part)) later
  prepend-continuing d ops c later whole part true h = refl
  prepend-continuing d ops c later whole part false h =
      if-cons whole.returned d whole.events (whole.events ++ deliver_terminal whole.control_ops ts)
      ∙ ap (λ l. d ∷ l) h
      ∙ sym (
          if-cons part.returned d part.events
            (part.events ++ last_deliveries part.control_ops part.cursor later ts))

  pub deliver_stored-continuing :
      (ops : List String) (c : String) (items later : List StoredEvent)
      → last_deliveries ops c (items ++ later) ts ≡ continuing (deliver_stored ops c items) later
  unfolding deliver_stored
  deliver_stored-continuing ops c [] later = refl
  deliver_stored-continuing ops c (item ∷ items) later =
      let op = op_of_event item.event in
      prepend-continuing (stored_delivery item) (noted op ops) item.cursor later
        (deliver_stored (noted op ops) item.cursor (items ++ later))
        (deliver_stored (noted op ops) item.cursor items) (is_op "end" op)
        (deliver_stored-continuing (noted op ops) item.cursor items later)
