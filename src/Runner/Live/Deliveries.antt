-- ===== src/Runner/Live/Deliveries.antt =====
-- What a live reader gets of the terminal events, by what their publications left on the stream.
use agentue.Prelude.{
  String, ◌≡◌, refl, sym, true≢false, Bool, true, false, not, some, List, [], ◌∷◌, ◌++◌, map,
  append-nil, append_assoc, if◌then◌else◌,
}
use agentue.Json.{Fields, is_some}
use agentue.Model.{member}
use agentue.Emitter.{PatchEmitter}
use agentue.Runner.{Entry, Publication, complete, interrupted, refused, RunnerContext, published}
use agentue.Runner.EventBridge.{StoredEvent}
use agentue.Runner.Terminal.{TerminalEvent, Finalized}
use agentue.Runner.Live.{DeliveryEvent, op_of_event, deliver_stored, deliver_terminal}

-- what a reader gets that reads the rest of the stream and then finds the run done
abbrev pub last_deliveries :
    List String → String → List StoredEvent → List TerminalEvent → List DeliveryEvent
last_deliveries ops cursor items terminal_events =
    let live = deliver_stored ops cursor items in
    if live.returned
    then live.events
    else live.events ++ deliver_terminal live.control_ops terminal_events

-- entries of the stream, as a reader gets them
abbrev pub stored_as : (Entry → String) → List Entry → List StoredEvent
stored_as cursor_of entries = map (λ x. record { cursor = cursor_of x; event = x.json }) entries

abbrev pub events_of : List DeliveryEvent → List Fields
events_of deliveries = map (λ d. d.event) deliveries

abbrev pub jsons : List TerminalEvent → List Fields
jsons terminal_events = map (λ t. t.json) terminal_events

module _ (cursor_of : Entry → String) (ops : List String) (cursor : String) where
  -- the finalization put these entries on the stream, and a reader gets its terminal events
  pub record IsDelivered (before : List Entry) (f : Finalized) : Type 0 where
    pub new : List Entry
    pub stream : f.context.stream ≡ before ++ new
    pub deliveries :
        events_of (last_deliveries ops cursor (stored_as cursor_of new) f.events) ≡ jsons f.events

-- the entries that a publication leaves
abbrev left : Publication → Entry → List Entry
left complete x = x ∷ []
left interrupted x = x ∷ []
left refused x = []

abbrev is_complete : Publication → Bool
is_complete complete = true
is_complete interrupted = false
is_complete refused = false

module _ (cursor_of : Entry → String) (ops : List String) (cursor : String)
    (no_error : member "error" ops ≡ false) (no_end : member "end" ops ≡ false) where
  abbrev gets : List Entry → List TerminalEvent → List Fields
  gets entries ts = events_of (last_deliveries ops cursor (stored_as cursor_of entries) ts)

  end-gets :
      (x : Entry) (how : Publication)
      → op_of_event x.json ≡ some "end"
      → gets (left how x) (record { json = x.json; persisted = is_complete how } ∷ []) ≡ x.json ∷ []
  unfolding deliver_stored deliver_terminal
  end-gets x complete e = rw e refl
  end-gets x interrupted e = rw e refl
  end-gets x refused e = rw (e, no_end) refl

  error-end-gets :
      (x y : Entry) (how : Publication)
      → op_of_event x.json ≡ some "error"
      → op_of_event y.json ≡ some "end"
      → gets (x ∷ left how y) (
          record { json = x.json; persisted = true }
          ∷ record { json = y.json; persisted = is_complete how }
          ∷ [])
        ≡ x.json ∷ y.json ∷ []
  unfolding deliver_stored deliver_terminal
  error-end-gets x y complete e d = rw (e, d) refl
  error-end-gets x y interrupted e d = rw (e, d) refl
  error-end-gets x y refused e d = rw (e, d, no_end) refl

  pub unpublished-gets :
      (x y : Entry) (how : Publication)
      → (is_complete how ≡ false)
      → op_of_event x.json ≡ some "error"
      → op_of_event y.json ≡ some "end"
      → gets (left how x) (
          record { json = x.json; persisted = false }
          ∷ record { json = y.json; persisted = false }
          ∷ [])
        ≡ x.json ∷ y.json ∷ []
  unfolding deliver_stored deliver_terminal
  unpublished-gets x y complete c e d = absurd (true≢false c)
  unpublished-gets x y interrupted c e d = rw (e, d, no_end) refl
  unpublished-gets x y refused c e d = rw (e, d, no_error, no_end) refl

  published-left :
      (context : RunnerContext) (x : Entry) (how : Publication)
      → (published context x how).context.stream ≡ context.stream ++ left how x
  published-left context x complete = refl
  published-left context x interrupted = refl
  published-left context x refused = sym (append-nil context.stream)

  abbrev Delivered : List Entry → Finalized → Type 0
  Delivered = IsDelivered cursor_of ops cursor

  -- what a publication of the end event leaves, alone and after the error event
  pub end-IsDelivered :
      (context : RunnerContext) (x : Entry) (how : Publication)
      → op_of_event x.json ≡ some "end"
      → let sent = published context x how in
        Delivered context.stream (record {
          events = record { json = x.json; persisted = not (is_some sent.failure) } ∷ [];
          status = "completed";
          context = sent.context;
        })
  end-IsDelivered context x complete e = record {
    new = x ∷ [];
    stream = refl;
    deliveries = end-gets x complete e;
  }
  end-IsDelivered context x interrupted e = record {
    new = x ∷ [];
    stream = refl;
    deliveries = end-gets x interrupted e;
  }
  end-IsDelivered context x refused e = record {
    new = [];
    stream = sym (append-nil context.stream);
    deliveries = end-gets x refused e;
  }

  pub error-end-IsDelivered :
      (context : RunnerContext) (em : PatchEmitter) (x y : Entry) (how : Publication)
      → op_of_event x.json ≡ some "error"
      → op_of_event y.json ≡ some "end"
      → let sent =
          published (record (published context x complete).context { emitter = em }) y how in
        Delivered context.stream (record {
          events =
              record { json = x.json; persisted = true }
              ∷ record { json = y.json; persisted = not (is_some sent.failure) }
              ∷ [];
          status = "failed";
          context = sent.context;
        })
  error-end-IsDelivered context em x y complete e d = record {
    new = x ∷ y ∷ [];
    stream = append_assoc context.stream (x ∷ []) (y ∷ []);
    deliveries = error-end-gets x y complete e d;
  }
  error-end-IsDelivered context em x y interrupted e d = record {
    new = x ∷ y ∷ [];
    stream = append_assoc context.stream (x ∷ []) (y ∷ []);
    deliveries = error-end-gets x y interrupted e d;
  }
  error-end-IsDelivered context em x y refused e d = record {
    new = x ∷ [];
    stream = refl;
    deliveries = error-end-gets x y refused e d;
  }
