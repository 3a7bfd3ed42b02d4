-- ===== src/Runner/EventBridge.antt =====
-- runner/redis_bridge.py: `RedisEventBridge`, on a Redis client. What a reply's bytes decode to is in
-- the client's answers, and the readings of the clock are arguments.
pub mod Publication
use Prim.Native.String
use agentue.Prelude.{
  ℕ, String, Bool, true, false, Option, none, some, List, [], ◌∷◌, ◌++◌, str_eq, if◌then◌else◌,
}
use agentue.Json.{Fields}
use agentue.Result.{Result, ok, err, value_error, not_a_number}
use agentue.Runner.Options.{RunnerOptions}
use agentue.Runner.Redis.{
  Redis, Io, Datum, plain, decimal, document, Message, pure, lift, ◌>>=◌, ◌>>◌,
}

-- `StoredEvent`
pub record StoredEvent : Type 0 where
  pub cursor : String
  pub event : Fields

-- `int(_text(value))`, and 0 for a field that is not there
abbrev pub number_of : Option Datum → Result ℕ
number_of none = ok 0
number_of (some (decimal n)) = ok n
number_of (some v) = err (value_error not_a_number)

-- `value == "running"`
abbrev pub is_running : Option Datum → Bool
is_running (some (plain s)) = str_eq s "running"
is_running v = false

-- the loop of `read` over the messages of the stream
unfoldable pub stored_events : List Message → List StoredEvent
stored_events [] = []
stored_events (m ∷ ms) = elim m.event [
  | none ↦ stored_events ms
  | some e ↦ record { cursor = m.id; event = e } ∷ stored_events ms
]

-- `_stream_key`, `_state_key`, `_claim_key` and `_heartbeat_key`
module _ (o : RunnerOptions) where
  abbrev pub key_of : String → String → String
  key_of task_id suffix = String.◌++◌ o.key_prefix (String.◌++◌ ":" (String.◌++◌ task_id suffix))

  abbrev pub stream_key : String → String
  stream_key task_id = key_of task_id ":events"

  abbrev pub state_key : String → String
  state_key task_id = key_of task_id ":state"

  abbrev pub claim_key : String → String
  claim_key task_id = key_of task_id ":recovery-claim"

  abbrev pub heartbeat_key : String
  heartbeat_key = String.◌++◌ o.key_prefix ":heartbeats"

module _ (redis : Redis) (o : RunnerOptions) where
  -- `touch`, at a reading of the clock
  unfoldable pub touch : String → redis.Time → Io redis.State (Unit {0})
  touch task_id now = redis.zadd (heartbeat_key o) task_id now

  unfoldable pub initialize : String → Fields → redis.Time → Io redis.State (Unit {0})
  unfolding touch
  initialize task_id initial_model now = do
    redis.hset (state_key o task_id) (
        ("status", plain "running")
        ∷ ("last_seq", decimal 0)
        ∷ ("initial_model", document initial_model)
        ∷ [])
    redis.expire (state_key o task_id) o.task_ttl
    touch task_id now

  unfoldable pub publish_event : String → Fields → ℕ → Io redis.State String
  publish_event task_id event seq = do
    event_id ← redis.xadd (stream_key o task_id) event
    redis.expire (stream_key o task_id) o.task_ttl
    redis.hset (state_key o task_id) (("last_seq", decimal seq) ∷ [])
    pure event_id

  unfoldable pub read : String → String → Io redis.State (List StoredEvent)
  unfolding stored_events
  read task_id cursor = do
    messages ← redis.xread (stream_key o task_id) cursor o.stream_read_count o.stream_block_ms
    pure (stored_events messages)

  -- `expired_task_ids`, at a cutoff that lies the heartbeat timeout before now
  unfoldable pub expired_task_ids : redis.Time → Io redis.State (List String)
  expired_task_ids cutoff = redis.zrangebyscore (heartbeat_key o) cutoff

  unfoldable pub claim_recovery : String → Io redis.State Bool
  claim_recovery task_id = redis.set_nx (claim_key o task_id) o.recovery_claim_ttl

  unfoldable pub release_recovery : String → Io redis.State (Unit {0})
  release_recovery task_id = redis.delete (claim_key o task_id)

  unfoldable pub status : String → Io redis.State (Option Datum)
  status task_id = redis.hget (state_key o task_id) "status"

  unfoldable pub last_seq : String → Io redis.State ℕ
  last_seq task_id = do v ← redis.hget (state_key o task_id) "last_seq"; lift (number_of v)

  unfoldable pub initial_model : String → Io redis.State (Option Datum)
  initial_model task_id = redis.hget (state_key o task_id) "initial_model"

  unfoldable pub mark_terminal : String → String → Io redis.State (Unit {0})
  mark_terminal task_id status = do
    redis.hset (state_key o task_id) (("status", plain status) ∷ [])
    redis.expire (state_key o task_id) o.task_ttl
    redis.zrem (heartbeat_key o) task_id

  unfoldable pub forget_heartbeat : String → Io redis.State (Unit {0})
  forget_heartbeat task_id = redis.zrem (heartbeat_key o) task_id
