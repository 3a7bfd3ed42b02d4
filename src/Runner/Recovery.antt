-- ===== src/Runner/Recovery.antt =====
-- `_recover_task` and `recover_timeouts` of runner/runner.py: what a Runner instance does for a task
-- whose process stopped.
pub mod Keeps
pub mod Claims
pub mod Success
pub mod Fresh
pub mod Expired
use agentue.Prelude.{
  ℕ, suc, ◌+◌, String, Bool, true, false, not, Option, none, some, List, [], ◌∷◌, ◌==◌,
  if◌then◌else◌,
}
use agentue.Json.{pos, Fields}
use agentue.Result.{Result, ok, err, validation_error}
use agentue.Model.{UiModel, parse_ui_model}
use agentue.Emitter.{PatchEmitter, Emitted, start, error, end}
use agentue.Runner.Options.{RunnerOptions}
use agentue.Runner.Redis.{
  Redis, Io, Datum, plain, decimal, document, pure, lift, finally, ◌>>=◌, ◌>>◌,
}
use agentue.Runner.EventBridge.{
  publish_event, last_seq, initial_model, mark_terminal, expired_task_ids, claim_recovery,
  release_recovery, status, forget_heartbeat, is_running,
}

-- `UIModel.model_validate_json(initial_model)`
abbrev pub model_of : Datum → Result UiModel
model_of (document fs) = parse_ui_model fs
model_of v = err validation_error

module _ (redis : Redis) (o : RunnerOptions) (dump : UiModel → Fields) where
  -- an event of the recovering emitter, put on the task's stream at the emitter's number
  unfoldable pub publish_emitted : String → Emitted → Io redis.State PatchEmitter
  publish_emitted task_id emitted = do
    json ← lift emitted.result
    event_id ← publish_event redis o task_id json emitted.emitter.offset
    pure emitted.emitter

  -- the start event of a task that published nothing, if its model is there
  unfoldable pub restart : String → PatchEmitter → Option Datum → Io redis.State PatchEmitter
  unfolding publish_emitted
  restart task_id em none = pure em
  restart task_id em (some v) = do
    model ← lift (model_of v)
    publish_emitted task_id (start em (dump model) none)

  unfoldable pub restarted : String → ℕ → Io redis.State PatchEmitter
  unfolding restart
  restarted task_id offset =
      let em : PatchEmitter = record { offset = offset; stream_id = none } in
      if offset == 0
      then (do stored ← initial_model redis o task_id; restart task_id em stored)
      else pure em

  -- `_recover_task`, after the `complete` callback, whose exceptions are only logged; `dump` is what
  -- `model_dump` gives
  unfoldable pub recover_task : String → Io redis.State (Unit {0})
  unfolding restarted publish_emitted
  recover_task task_id = do
    offset ← last_seq redis o task_id
    em ← restarted task_id offset
    failing ←
        publish_emitted task_id
          (error em "heartbeat_timeout" "execute event loop heartbeat expired" none none)
    ended ← publish_emitted task_id (end failing)
    mark_terminal redis o task_id "failed"

  -- a claimed task: it is recovered if it still runs
  unfoldable pub recover_claimed : String → Io redis.State ℕ
  unfolding recover_task
  recover_claimed task_id = do
    stored ← status redis o task_id
    if is_running stored
        then (do recover_task task_id; pure 1)
        else (do forget_heartbeat redis o task_id; pure 0)

  -- an iteration of `recover_timeouts`, and what it adds to the count
  unfoldable pub recover_expired : String → Io redis.State ℕ
  unfolding recover_claimed
  recover_expired task_id = do
    claimed ← claim_recovery redis o task_id
    if claimed then finally (recover_claimed task_id) (release_recovery redis o task_id) else pure 0

  unfoldable pub recover_all : List String → ℕ → Io redis.State ℕ
  unfolding recover_expired
  recover_all [] recovered = pure recovered
  recover_all (task_id ∷ rest) recovered = do
    more ← recover_expired task_id
    recover_all rest (recovered + more)

  -- `recover_timeouts`, at a cutoff of the clock
  unfoldable pub recover_timeouts : redis.Time → Io redis.State ℕ
  unfolding recover_all
  recover_timeouts cutoff = do task_ids ← expired_task_ids redis o cutoff; recover_all task_ids 0
