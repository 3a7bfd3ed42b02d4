-- ===== src/Runner/Live/Stored.antt =====
-- What one time around the loop of a live reader delivers, from the stream and of the terminal events.
use agentue.Prelude.{
  true≢false, String, ◌≡◌, refl, sym, ap, ◌∙◌, Bool, true, false, not, ◌&&◌, Option, none, some,
  List, [], ◌∷◌, ◌++◌, map, eq_iff, All, if-either, if◌then◌else◌,
}
use agentue.Json.{Fields}
use agentue.Result.{Result, ok, err}
use agentue.Model.{member}
use agentue.Runner.EventBridge.{StoredEvent}
use agentue.Runner.Terminal.{TerminalEvent}
use agentue.Runner.Live.{
  DeliveryEvent, Live, op_of_event, is_op, noted, stored_delivery, prepend, deliver_stored,
  deliver_terminal, is_delivered, idle,
}

-- the cursor of the last event
abbrev pub last_cursor : String → List StoredEvent → String
last_cursor c [] = c
last_cursor c (x ∷ xs) = last_cursor x.cursor xs

pub last_cursor-append :
    (c : String) (xs ys : List StoredEvent)
    → last_cursor c (xs ++ ys) ≡ last_cursor (last_cursor c xs) ys
last_cursor-append c [] ys = refl
last_cursor-append c (x ∷ xs) ys = last_cursor-append x.cursor xs ys

abbrev kept : Bool → DeliveryEvent → List DeliveryEvent → List DeliveryEvent
kept true e es = e ∷ es
kept false e es = es

-- the deliveries that stand on the stream
abbrev pub persisted_of : List DeliveryEvent → List DeliveryEvent
persisted_of [] = []
persisted_of (e ∷ es) = kept e.persisted e (persisted_of es)

kept-append :
    (b : Bool) (e : DeliveryEvent) (xs ys zs : List DeliveryEvent)
    → zs ≡ xs ++ ys
    → kept b e zs ≡ kept b e xs ++ ys
kept-append true e xs ys zs h = ap (λ l. e ∷ l) h
kept-append false e xs ys zs h = h

pub persisted_of-append :
    (xs ys : List DeliveryEvent) → persisted_of (xs ++ ys) ≡ persisted_of xs ++ persisted_of ys
persisted_of-append [] ys = refl
persisted_of-append (x ∷ xs) ys =
    kept-append x.persisted x (persisted_of xs) (persisted_of ys) _ (persisted_of-append xs ys)

persisted_of-stored :
    (xs : List StoredEvent) → persisted_of (map stored_delivery xs) ≡ map stored_delivery xs
persisted_of-stored [] = refl
persisted_of-stored (x ∷ xs) = ap (λ l. stored_delivery x ∷ l) (persisted_of-stored xs)

abbrev pub is_end : Fields → Bool
is_end e = is_op "end" (op_of_event e)

abbrev pub NotEnd : StoredEvent → Type 0
NotEnd x = is_end x.event ≡ false

-- nothing stands after an end event
abbrev pub NoneAfterEnd : List StoredEvent → Type 0
NoneAfterEnd [] = Unit
NoneAfterEnd (x ∷ xs) = (is_end x.event ≡ true → xs ≡ []) × NoneAfterEnd xs

pub NoneAfterEnd-append :
    (xs ys : List StoredEvent) → All NotEnd xs → NoneAfterEnd ys → NoneAfterEnd (xs ++ ys)
NoneAfterEnd-append [] ys h q = q
NoneAfterEnd-append (x ∷ xs) ys (h, hs) q =
    ((λ e. absurd (true≢false (sym e ∙ h))), NoneAfterEnd-append xs ys hs q)

-- the last delivery is an end event
pub record LastIsEnd (es : List DeliveryEvent) : Type 0 where
  pub front : List DeliveryEvent
  pub last : DeliveryEvent
  pub split_off : es ≡ front ++ last ∷ []
  pub is_last : is_end last.event ≡ true

-- What the deliveries of a part of the loop are, where `rest` of the stream lies ahead.
pub record Took (c : String) (rest : List StoredEvent) (live : Live) : Type 0 where
  pub took : List StoredEvent
  pub later : List StoredEvent
  pub parts : rest ≡ took ++ later
  pub stored : persisted_of live.events ≡ map stored_delivery took
  pub at : live.cursor ≡ last_cursor c took
  pub none_after : NoneAfterEnd took
  pub open_on : live.returned ≡ false → All NotEnd took × (member "end" live.control_ops ≡ false)
  pub ends : live.returned ≡ true → LastIsEnd live.events

-- an operation that was not delivered, and is not the one that is noted
pub noted-other :
    (name : String) (op : Option String) (ops : List String)
    → is_op name op ≡ false
    → member name ops ≡ false
    → member name (noted op ops) ≡ false
noted-other name none ops h m = m
noted-other name (some op) ops h m =
    if-either (λ l. member name l ≡ false) _ (op ∷ ops) ops (rw h m) m

item-Took :
    (c : String) (ops : List String) (item : StoredEvent) (rest : List StoredEvent) (live : Live)
    (ends : Bool)
    → is_end item.event ≡ ends
    → (ends ≡ false → Took item.cursor rest live)
    → Took c (item ∷ rest) (
        prepend (stored_delivery item) (
          if ends
          then record { events = []; returned = true; control_ops = ops; cursor = item.cursor }
          else live))
item-Took c ops item rest live true e t = record {
  took = item ∷ [];
  later = rest;
  parts = refl;
  stored = refl;
  at = refl;
  none_after = ((λ h. refl), tt);
  open_on = λ h. absurd (true≢false h);
  ends = λ h. record { front = []; last = stored_delivery item; split_off = refl; is_last = e };
}
item-Took c ops item rest live false e later_on =
    let t = later_on refl in
    record {
      took = item ∷ t.took;
      later = t.later;
      parts = ap (λ l. item ∷ l) t.parts;
      stored = ap (λ l. stored_delivery item ∷ l) t.stored;
      at = t.at;
      none_after = ((λ h. absurd (true≢false (sym h ∙ e))), t.none_after);
      open_on = λ h. ((e, (t.open_on h).0), (t.open_on h).1);
      ends = λ h.
          let l = t.ends h in
          record {
            front = stored_delivery item ∷ l.front;
            last = l.last;
            split_off = ap (λ es. stored_delivery item ∷ es) l.split_off;
            is_last = l.is_last;
          };
    }

pub deliver_stored-Took :
    (c : String) (ops : List String) (items later : List StoredEvent)
    → member "end" ops ≡ false
    → Took c (items ++ later) (deliver_stored ops c items)
unfolding deliver_stored
deliver_stored-Took c ops [] later m = record {
  took = [];
  later = later;
  parts = refl;
  stored = refl;
  at = refl;
  none_after = tt;
  open_on = λ h. (tt, m);
  ends = λ h. absurd (true≢false (sym h));
}
deliver_stored-Took c ops (item ∷ items) later m =
    let ops' = noted (op_of_event item.event) ops in
    item-Took c ops' item (items ++ later) (deliver_stored ops' item.cursor items)
      (is_end item.event) refl
      (λ e.
        deliver_stored-Took item.cursor ops' items later
          (noted-other "end" (op_of_event item.event) ops e m))

-- a terminal event that the stream does not hold
abbrev pub terminal : TerminalEvent → DeliveryEvent
terminal t = record { event = t.json; cursor = none; persisted = false }

pub persisted_of-terminal :
    (ops : List String) (ts : List TerminalEvent) → persisted_of (deliver_terminal ops ts) ≡ []
unfolding deliver_terminal
persisted_of-terminal ops [] = refl
persisted_of-terminal ops (t ∷ ts) =
    if-either (λ es. persisted_of es ≡ [])
      (not t.persisted && not (is_delivered ops (op_of_event t.json)))
      (terminal t ∷ deliver_terminal ops ts) (deliver_terminal ops ts)
      (persisted_of-terminal ops ts) (persisted_of-terminal ops ts)

pub persisted_of-idle : (r : Result Fields) → persisted_of (idle r) ≡ []
persisted_of-idle (ok e) = refl
persisted_of-idle (err x) = refl

-- an end event that is not delivered yet
end-undelivered :
    (ops : List String) (op : Option String)
    → is_op "end" op ≡ true
    → member "end" ops ≡ false
    → is_delivered ops op ≡ false
end-undelivered ops none h m = absurd (true≢false (sym h))
end-undelivered ops (some op) h m = ap (λ s. member s ops) ((eq_iff op "end").0 h) ∙ m

pub deliver_terminal-LastIsEnd :
    (ops : List String) (front : List TerminalEvent) (t : TerminalEvent)
    → member "end" ops ≡ false
    → is_end t.json ≡ true
    → t.persisted ≡ false
    → LastIsEnd (deliver_terminal ops (front ++ t ∷ []))
unfolding deliver_terminal
deliver_terminal-LastIsEnd ops [] t m e p =
    rw (p, end-undelivered ops (op_of_event t.json) e m)
      (record { front = []; last = terminal t; split_off = refl; is_last = e })
deliver_terminal-LastIsEnd ops (x ∷ front) t m e p =
    let l = deliver_terminal-LastIsEnd ops front t m e p in
    if-either LastIsEnd _ _ _
      (record {
        front = terminal x ∷ l.front;
        last = l.last;
        split_off = ap (λ es. terminal x ∷ es) l.split_off;
        is_last = l.is_last;
      })
      l
