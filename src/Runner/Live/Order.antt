-- ===== src/Runner/Live/Order.antt =====
-- `_stream_live` of runner/runner.py: what a live reader gets of the stream of its task.
use agentue.Prelude.{String, ◌≡◌, true, some, List, [], ◌∷◌, ◌++◌, All}
use agentue.Runner.EventBridge.{StoredEvent}
use agentue.Runner.Terminal.{TerminalEvent}
use agentue.Runner.Live.{Poll, Live}
use agentue.Runner.Live.Stored.{last_cursor, is_end, NotEnd}

module _ (total : List StoredEvent) (start : String) where
  -- What the runner relies on at a poll, where `total` is what the stream holds in the end: `read`
  -- answers with events that follow the cursor, in order; and when an execution is done and there
  -- is nothing to read, its terminal events end with an end event, which, if it was published,
  -- stands before the cursor.
  pub record IsFaithful (poll : Poll) : Type 0 where
    pub reads :
        (pre rest : List StoredEvent)
        → total ≡ pre ++ rest
        → (later : List StoredEvent) × (rest ≡ poll.read (last_cursor start pre) ++ later)
    pub settles :
        (pre rest : List StoredEvent) (ts : List TerminalEvent)
        → total ≡ pre ++ rest
        → poll.read (last_cursor start pre) ≡ []
        → poll.execution ≡ some ts
        → (front : List TerminalEvent) × (t : TerminalEvent) × (ts ≡ front ++ t ∷ [])
          × (is_end t.json ≡ true)
          × (t.persisted ≡ true → All NotEnd pre → ⊥)
