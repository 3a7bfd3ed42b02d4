-- ===== src/Runner/Live/Heard.antt =====
-- `_stream_live` of runner/runner.py: what a reader makes of its deliveries.
use mathlib.Core.Path.{subst}
use agentue.Prelude.{
  true≢false, String, ◌≡◌, refl, sym, ap, ◌∙◌, Bool, true, false, Option, none, some, List, [], ◌∷◌,
  ◌++◌, append_assoc, All, if◌then◌else◌, ℕ,
}
use agentue.Json.{Fields}
use agentue.Event.{Pydantic}
use agentue.Emitter.{PatchEmitter, ping}
use agentue.Emitter.Reports.{signals-keep}
use agentue.Apply.{apply_patches}
use agentue.Apply.Replay.{apply_patches-append}
use agentue.Runner.EventBridge.{StoredEvent}
use agentue.Runner.Terminal.{TerminalEvent}
use agentue.Runner.Live.{
  DeliveryEvent, Live, Poll, idle, deliver_stored, visit, visit_idle, visit_read, stream_live,
}
use agentue.Runner.Live.Stored.{last_cursor, last_cursor-append}
use agentue.Runner.Live.Deliveries.{last_deliveries}
use agentue.Runner.Live.Continuing.{
  heard, heard-append, and_then_cong, deliver_stored-last_cursor, deliver_stored-continuing,
}

module _ (py : Pydantic) where
  -- a ping changes nothing
  idle-heard :
      (em : PatchEmitter) (now : ℕ) (es : List DeliveryEvent) (s : Fields)
      → apply_patches py s (heard (idle (ping em now).result ++ es)) ≡ apply_patches py s (heard es)
  unfolding apply_patches
  idle-heard em now es s =
      let (json, made, kept) = (signals-keep py em now s).0 in rw (made, kept) refl

  module _ (ts : List TerminalEvent) where
    -- a reader applies the one as the other
    abbrev AreHeard : List DeliveryEvent → List DeliveryEvent → Type 0
    AreHeard es es' = (s : Fields) → apply_patches py s (heard es) ≡ apply_patches py s (heard es')

    append-AreHeard :
        (front es es' : List DeliveryEvent)
        → AreHeard es es'
        → AreHeard (front ++ es) (front ++ es')
    append-AreHeard front es es' h s =
        ap (apply_patches py s) (heard-append front es)
        ∙ apply_patches-append py s (heard front) (heard es)
        ∙ and_then_cong (apply_patches py s (heard front)) _ _ h
        ∙ sym (apply_patches-append py s (heard front) (heard es'))
        ∙ sym (ap (apply_patches py s) (heard-append front es'))

    -- What one time around the loop delivers, where `rest` of the stream lies ahead.
    record Visited (ops : List String) (c : String) (rest : List StoredEvent) (live : Live)
        : Type 0 where
      took : List StoredEvent
      later : List StoredEvent
      parts : rest ≡ took ++ later
      over : live.returned ≡ true → AreHeard live.events (last_deliveries ops c rest ts)
      at : live.returned ≡ false → live.cursor ≡ last_cursor c took
      goes_on :
          live.returned ≡ false
          → (es : List DeliveryEvent)
          → AreHeard es (last_deliveries live.control_ops live.cursor later ts)
          → AreHeard (live.events ++ es) (last_deliveries ops c rest ts)

    deliver_stored-Visited :
        (ops : List String) (c : String) (rest items later : List StoredEvent)
        → rest ≡ items ++ later
        → Visited ops c rest (deliver_stored ops c items)
    deliver_stored-Visited ops c rest items later parts =
        let live = deliver_stored ops c items in
        let on = live.events ++ last_deliveries live.control_ops live.cursor later ts in
        let whole : (b : Bool)
            → live.returned ≡ b
            → last_deliveries ops c rest ts ≡ (if b then live.events else on) =
          λ b h.
            ap (λ l. last_deliveries ops c l ts) parts
            ∙ deliver_stored-continuing ts ops c items later
            ∙ ap (λ r. if r then live.events else on) h in
        record {
          took = items;
          later = later;
          parts = parts;
          over = λ h s. ap (λ l. apply_patches py s (heard l)) (sym (whole true h));
          at = deliver_stored-last_cursor ops c items;
          goes_on = λ h es same s.
              append-AreHeard live.events es _ same s
              ∙ ap (λ l. apply_patches py s (heard l)) (sym (whole false h));
        }

    module _ (total : List StoredEvent) (start : String) where
      -- What the runner relies on at a poll, where `total` is what the stream holds in the end: `read`
      -- answers with events that follow the cursor, in order; and when the execution is done and
      -- there is nothing to read, its terminal events are these, and nothing follows the cursor.
      pub record IsReading (poll : Poll) : Type 0 where
        pub reads :
            (pre rest : List StoredEvent)
            → total ≡ pre ++ rest
            → (later : List StoredEvent) × (rest ≡ poll.read (last_cursor start pre) ++ later)
        pub settles :
            (pre rest : List StoredEvent) (us : List TerminalEvent)
            → total ≡ pre ++ rest
            → poll.read (last_cursor start pre) ≡ []
            → poll.execution ≡ some us
            → (us ≡ ts) × (rest ≡ [])

      idle-Visited :
          (ops : List String) (poll : Poll) (pre rest : List StoredEvent)
          (execution : Option (List TerminalEvent))
          → IsReading poll
          → total ≡ pre ++ rest
          → poll.read (last_cursor start pre) ≡ []
          → poll.execution ≡ execution
          → Visited ops
              (last_cursor start pre)
              rest
              (visit_idle ops (last_cursor start pre) poll execution)
      unfolding deliver_stored
      idle-Visited ops poll pre rest none f whole empty e = record {
        took = [];
        later = rest;
        parts = refl;
        over = λ h. absurd (true≢false (sym h));
        at = λ h. refl;
        goes_on = λ h es same s. idle-heard poll.emitter poll.now es s ∙ same s;
      }
      idle-Visited ops poll pre rest (some us) f whole empty e =
          let (all_there, nothing_left) = f.settles pre rest us whole empty e in
          record {
            took = [];
            later = rest;
            parts = refl;
            over = λ h s. rw (all_there, nothing_left) refl;
            at = λ h. refl;
            goes_on = λ h. absurd (true≢false h);
          }

      read-Visited :
          (ops : List String) (poll : Poll) (pre rest later items : List StoredEvent)
          → IsReading poll
          → total ≡ pre ++ rest
          → rest ≡ items ++ later
          → poll.read (last_cursor start pre) ≡ items
          → Visited ops
              (last_cursor start pre)
              rest
              (visit_read ops (last_cursor start pre) poll items)
      read-Visited ops poll pre rest later [] f whole parts r =
          idle-Visited ops poll pre rest poll.execution f whole r refl
      read-Visited ops poll pre rest later (item ∷ items) f whole parts r =
          deliver_stored-Visited ops (last_cursor start pre) rest (item ∷ items) later parts

      visit-Visited :
          (ops : List String) (poll : Poll) (pre rest : List StoredEvent)
          → IsReading poll
          → total ≡ pre ++ rest
          → Visited ops (last_cursor start pre) rest (visit ops (last_cursor start pre) poll)
      unfolding visit
      visit-Visited ops poll pre rest f whole =
          let (later, parts) = f.reads pre rest whole in
          read-Visited ops poll pre rest later (poll.read (last_cursor start pre)) f whole parts
            refl

      joined-AreHeard :
          (ops : List String) (c : String) (rest : List StoredEvent) (live next : Live)
          (returned : Bool)
          → live.returned ≡ returned
          → (v : Visited ops c rest live)
          → (returned ≡ false
              → next.returned ≡ true
              → AreHeard next.events (last_deliveries live.control_ops live.cursor v.later ts))
          → let joined : Live =
              if returned then live else record next { events = live.events ++ next.events } in
            joined.returned ≡ true → AreHeard joined.events (last_deliveries ops c rest ts)
      joined-AreHeard ops c rest live next true e v further h = v.over e
      joined-AreHeard ops c rest live next false e v further h =
          v.goes_on e next.events (further refl h)

      -- Whatever the polls, a reader that applies what it gets until the delivery returns has what
      -- one has that reads the rest of the stream at once and then finds the run done.
      pub stream_live-heard :
          (polls : List Poll) (ops : List String) (pre rest : List StoredEvent)
          → All IsReading polls
          → total ≡ pre ++ rest
          → (stream_live ops (last_cursor start pre) polls).returned ≡ true
          → AreHeard
              (stream_live ops (last_cursor start pre) polls).events
              (last_deliveries ops (last_cursor start pre) rest ts)
      unfolding stream_live
      stream_live-heard [] ops pre rest f whole h = absurd (true≢false (sym h))
      stream_live-heard (poll ∷ polls) ops pre rest (f, fs) whole h =
          let c = last_cursor start pre in
          let live = visit ops c poll in
          let v = visit-Visited ops poll pre rest f whole in
          joined-AreHeard ops c rest live (stream_live live.control_ops live.cursor polls)
            live.returned refl v
            (λ going.
              subst
                (λ k.
                  (stream_live live.control_ops k polls).returned ≡ true
                  → AreHeard (stream_live live.control_ops k polls).events
                      (last_deliveries live.control_ops k v.later ts))
                (last_cursor-append start pre v.took ∙ sym (v.at going))
                (stream_live-heard polls live.control_ops (pre ++ v.took) v.later fs
                  (whole ∙ ap (λ l. pre ++ l) v.parts ∙ sym (append_assoc pre v.took v.later))))
            h
