-- ===== src/Runner/Live/Ending.antt =====
-- `_stream_live` of runner/runner.py: how the delivery to a live reader ends.
use mathlib.Core.Path.{subst}
use agentue.Prelude.{
  true≢false, ℕ, ◌+◌, ◌<◌, ◌≤◌, String, ◌≡◌, ◌⊎◌, inl, inr, refl, sym, ap, ◌∙◌, Bool, true, false,
  Bool-cases, Option, none, some, List, [], ◌∷◌, ◌++◌, append_assoc, All, length, length-append,
  arith, if◌then◌else◌,
}
use agentue.Runner.EventBridge.{StoredEvent}
use agentue.Runner.Terminal.{TerminalEvent}
use agentue.Runner.Live.{Poll, Live, visit, visit_idle, visit_read, stream_live, deliver_stored}
use agentue.Runner.Live.Stored.{last_cursor, last_cursor-append}
use agentue.Runner.Live.Continuing.{deliver_stored-last_cursor}

if_returned :
    (live rest : Live) (b : Bool)
    → live.returned ≡ b
    → (b ≡ false → rest.returned ≡ true)
    → (if b then live else record rest { events = live.events ++ rest.events }).returned ≡ true
if_returned live rest true e h = e
if_returned live rest false e h = h refl

-- 1 for a poll that finds the execution done
abbrev settled : Option (List TerminalEvent) → ℕ
settled none = 0
settled (some ts) = 1

-- the number of such polls
abbrev pub settled_polls : List Poll → ℕ
settled_polls [] = 0
settled_polls (poll ∷ polls) = settled poll.execution + settled_polls polls

-- `read` answers with events that follow the cursor, in order.
pub record IsInOrder (total : List StoredEvent) (start : String) (poll : Poll) : Type 0 where
  pub reads :
      (pre rest : List StoredEvent)
      → total ≡ pre ++ rest
      → (later : List StoredEvent) × (rest ≡ poll.read (last_cursor start pre) ++ later)

-- the loop goes on past these events, at least one if the execution is done
record Passes (c : String) (poll : Poll) (items : List StoredEvent) (live : Live) : Type 0 where
  at : live.cursor ≡ last_cursor c items
  enough : settled poll.execution ≤ length items

idle-Passes :
    (ops : List String) (c : String) (poll : Poll) (execution : Option (List TerminalEvent))
    → poll.execution ≡ execution
    → ((visit_idle ops c poll execution).returned ≡ true)
      ⊎ Passes c poll [] (visit_idle ops c poll execution)
idle-Passes ops c poll (some ts) e = inl refl
idle-Passes ops c poll none e = inr (record { at = refl; enough = rw e (omega arith) })

settled-le : (o : Option (List TerminalEvent)) → settled o ≤ 1
settled-le none = omega arith
settled-le (some ts) = omega arith

read-Passes :
    (ops : List String) (c : String) (poll : Poll) (items : List StoredEvent)
    → ((visit_read ops c poll items).returned ≡ true)
      ⊎ Passes c poll items (visit_read ops c poll items)
read-Passes ops c poll [] = idle-Passes ops c poll poll.execution refl
read-Passes ops c poll (item ∷ items) =
    elim (Bool-cases (deliver_stored ops c (item ∷ items)).returned) [
      | inl over ↦ inl over
      | inr going ↦ inr (record {
        at = deliver_stored-last_cursor ops c (item ∷ items) going;
        enough = let one = settled-le poll.execution in omega (arith, one);
      })
    ]

module _ (total : List StoredEvent) (start : String) where
  passed-returns :
      (polls : List Poll) (ops : List String) (pre rest : List StoredEvent)
      → All (IsInOrder total start) polls
      → total ≡ pre ++ rest
      → length rest < settled_polls polls
      → (stream_live ops (last_cursor start pre) polls).returned ≡ true
  unfolding stream_live visit
  passed-returns [] ops pre rest f whole more = absurd (omega (arith, more))
  passed-returns (poll ∷ polls) ops pre rest (f, fs) whole more =
      let c = last_cursor start pre in
      let items = poll.read c in
      let live = visit_read ops c poll items in
      let (later, parts) = f.reads pre rest whole in
      if_returned live (stream_live live.control_ops live.cursor polls) live.returned refl (λ going.
        elim (read-Passes ops c poll items) [
          | inl over ↦ absurd (true≢false (sym over ∙ going))
          | inr p ↦
              let enough = p.enough in
              let size : length rest ≡ length items + length later =
                ap length parts ∙ length-append items later in
              subst (λ k. (stream_live live.control_ops k polls).returned ≡ true)
                (last_cursor-append start pre items ∙ sym p.at)
                (passed-returns polls live.control_ops (pre ++ items) later fs
                  (whole ∙ ap (λ l. pre ++ l) parts ∙ sym (append_assoc pre items later))
                  (omega (arith, size, enough, more)))
        ])

  -- The loop ends: where polls answer in order, the delivery has returned once more polls have found
  -- the execution done than there are events on the stream, whatever the others found.
  pub stream_live-returns :
      (polls : List Poll) (ops : List String)
      → All (IsInOrder total start) polls
      → length total < settled_polls polls
      → (stream_live ops start polls).returned ≡ true
  stream_live-returns polls ops f more = passed-returns polls ops [] total f refl more
