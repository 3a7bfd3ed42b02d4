-- ===== src/Runner/Recovery/Success.antt =====
-- What the recovery of a task does when the Redis commands answer.
use mathlib.Core.Path.{subst}
use agentue.Prelude.{
  append_assoc, ℕ, suc, ◌+◌, String, ◌≡◌, refl, eq_refl, false, Option, none, some, List, [], ◌∷◌,
  ◌++◌, ◌==◌, arith,
}
use agentue.Json.{ℤ, Value, Fields, get}
use agentue.Result.{ok}
use agentue.Model.{UiModel}
use agentue.Event.{PatchOp, bare, to_json, construct, validate_operation, check_operation}
use agentue.Emitter.{PatchEmitter, Emitted, start, error, end, emit, error_payload}
use agentue.Runner.Options.{RunnerOptions}
use agentue.Runner.Redis.{
  finished, Redis, Io, Db, Datum, plain, decimal, push_event, put_fields, put_score, ◌>>=◌, lift,
}
use agentue.Runner.Redis.Runs.{
  IsAnswer, Returns, Returns->>=, Returns->>, Returns-pure, Returns-lift, Writes-Returns,
  Reads-Returns,
}
use agentue.Runner.EventBridge.{
  stream_key, state_key, heartbeat_key, publish_event, last_seq, number_of, initial_model,
  mark_terminal,
}
use agentue.Runner.Recovery.{publish_emitted, restart, restarted, recover_task, model_of}

-- The commands that a recovery issues answer.
pub record Answers (redis : Redis) : Type 0 where
  pub xadd_answers : (k : String) (e : Fields) (s : redis.State) → IsAnswer (redis.xadd k e s).0
  pub expire_answers : (k : String) (n : ℤ) (s : redis.State) → IsAnswer (redis.expire k n s).0
  pub hset_answers :
      (k : String) (fs : List (String × Datum)) (s : redis.State) → IsAnswer (redis.hset k fs s).0
  pub hget_answers : (k f : String) (s : redis.State) → IsAnswer (redis.hget k f s).0
  pub zrem_answers : (k m : String) (s : redis.State) → IsAnswer (redis.zrem k m s).0

module _ {Time : Type 0} (o : RunnerOptions) (task_id : String) where
  -- an event put on the stream of the task, with its number as the last one
  unfoldable pub put_event : Fields → ℕ → Db Time → Db Time
  unfolding push_event put_fields
  put_event e seq db =
      put_fields (state_key o task_id) (("last_seq", decimal seq) ∷ [])
        (push_event (stream_key o task_id) e db)

  -- the task marked as failed, without a heartbeat
  unfoldable pub put_failed : Db Time → Db Time
  unfolding put_fields put_score
  put_failed db =
      put_score (heartbeat_key o) task_id none
        (put_fields (state_key o task_id) (("status", plain "failed") ∷ []) db)

abbrev silent : ℕ → PatchEmitter
silent n = record { offset = n; stream_id = none }

-- the error event of a recovery
unfoldable pub timeout_event : ℕ → Fields
timeout_event n = to_json (record (bare PatchOp.error n none) {
  mask = some "meta.error";
  meta = some (
      Fields.field "error"
        (Value.obj
          (error_payload "heartbeat_timeout" "execute event loop heartbeat expired" none none))
        Fields.empty);
})

unfoldable pub end_event : ℕ → Fields
end_event n = to_json (bare PatchOp.end n none)

error_emitted :
    (n : ℕ)
    → error (silent n) "heartbeat_timeout" "execute event loop heartbeat expired" none none
      ≡ record { result = ok (timeout_event (n + 1)); emitter = silent (n + 1) }
unfolding error emit construct validate_operation check_operation timeout_event get
error_emitted n = refl

end_emitted :
    (n : ℕ) → end (silent n) ≡ record { result = ok (end_event (n + 1)); emitter = silent (n + 1) }
unfolding end emit construct validate_operation check_operation end_event
end_emitted n = refl

module _ (redis : Redis) (answers : Answers redis) (o : RunnerOptions) (dump : UiModel → Fields)
    (t : String) where
  publish_event-Returns :
      (e : Fields) (seq : ℕ) (s : redis.State) {db : Db redis.Time}
      → redis.view s ≡ db
      → (id : String) × Returns redis.view
          (publish_event redis o t e seq s)
          id
          (put_event o t e seq db)
  unfolding publish_event put_event
  publish_event-Returns e seq s v =
      let (id, added) =
        Writes-Returns redis.view (push_event (stream_key o t) e) s
          (redis.xadd (stream_key o t) e s) (redis.xadd-Writes _ e s) (answers.xadd_answers _ e s)
          v in
      (
        id,
        Returns->>= redis.view (redis.xadd (stream_key o t) e) _ s added (λ s₁ v₁.
            let (u, kept) =
              Writes-Returns redis.view (λ d. d) s₁ (redis.expire (stream_key o t) o.task_ttl s₁)
                (redis.expire-Writes _ _ s₁) (answers.expire_answers _ _ s₁) v₁ in
            Returns->> redis.view (redis.expire (stream_key o t) o.task_ttl) _ s₁ kept (λ s₂ v₂.
              let (w, set) =
                Writes-Returns redis.view
                  (put_fields (state_key o t) (("last_seq", decimal seq) ∷ [])) s₂
                  (redis.hset (state_key o t) (("last_seq", decimal seq) ∷ []) s₂)
                  (redis.hset-Writes _ _ s₂) (answers.hset_answers _ _ s₂) v₂ in
              Returns->> redis.view (redis.hset (state_key o t) (("last_seq", decimal seq) ∷ [])) _
                s₂ set (λ s₃ v₃. Returns-pure redis.view id s₃ v₃))),
      )

  publish_emitted-Returns :
      (emitted : Emitted) (json : Fields) (s : redis.State) {db : Db redis.Time}
      → emitted.result ≡ ok json
      → redis.view s ≡ db
      → Returns redis.view
          (publish_emitted redis o dump t emitted s)
          emitted.emitter
          (put_event o t json emitted.emitter.offset db)
  unfolding publish_emitted
  publish_emitted-Returns emitted json s made v =
      Returns->>= redis.view (lift emitted.result) _ s
        (Returns-lift redis.view emitted.result s made v)
        (λ s₁ v₁.
          let (id, out) = publish_event-Returns json emitted.emitter.offset s₁ v₁ in
          Returns->>= redis.view (publish_event redis o t json emitted.emitter.offset) _ s₁ out
            (λ s₂ v₂. Returns-pure redis.view emitted.emitter s₂ v₂))

  mark_terminal-Returns :
      (s : redis.State) {db : Db redis.Time}
      → redis.view s ≡ db
      → Returns redis.view (mark_terminal redis o t "failed" s) tt (put_failed o t db)
  unfolding mark_terminal put_failed
  mark_terminal-Returns s v =
      let fields = ("status", plain "failed") ∷ [] in
      let (u, set) =
        Writes-Returns redis.view (put_fields (state_key o t) fields) s
          (redis.hset (state_key o t) fields s) (redis.hset-Writes _ _ s)
          (answers.hset_answers _ _ s) v in
      Returns->> redis.view (redis.hset (state_key o t) fields) _ s set (λ s₁ v₁.
        let (w, kept) =
          Writes-Returns redis.view (λ d. d) s₁ (redis.expire (state_key o t) o.task_ttl s₁)
            (redis.expire-Writes _ _ s₁) (answers.expire_answers _ _ s₁) v₁ in
        Returns->> redis.view (redis.expire (state_key o t) o.task_ttl) _ s₁ kept (λ s₂ v₂.
          (Writes-Returns redis.view (put_score (heartbeat_key o) t none) s₂
            (redis.zrem (heartbeat_key o) t s₂) (redis.zrem-Writes _ _ s₂)
            (answers.zrem_answers _ _ s₂) v₂).1))

  -- the database once the error, the end and the status are in, from the number `n` on
  abbrev pub reported : ℕ → Db redis.Time → Db redis.Time
  reported n db = put_failed o t (
      put_event o t (end_event (n + 1 + 1)) (n + 1 + 1)
        (put_event o t (timeout_event (n + 1)) (n + 1) db))

  report : PatchEmitter → Io redis.State (Unit {0})
  report em = do
    failing ←
        publish_emitted redis o dump t
          (error em "heartbeat_timeout" "execute event loop heartbeat expired" none none)
    ended ← publish_emitted redis o dump t (end failing)
    mark_terminal redis o t "failed"

  report-Returns :
      (n : ℕ) (s : redis.State) {db : Db redis.Time}
      → redis.view s ≡ db
      → Returns redis.view (report (silent n) s) tt (reported n db)
  unfolding report
  report-Returns n s v =
      let failing =
        publish_emitted-Returns
          (record { result = ok (timeout_event (n + 1)); emitter = silent (n + 1) })
          (timeout_event (n + 1)) s refl v in
      rw error_emitted (
        Returns->>= redis.view (publish_emitted redis o dump t _) _ s failing (λ s₁ v₁.
          let ended =
            publish_emitted-Returns
              (record { result = ok (end_event (n + 1 + 1)); emitter = silent (n + 1 + 1) })
              (end_event (n + 1 + 1)) s₁ refl v₁ in
          rw end_emitted (
            Returns->>= redis.view (publish_emitted redis o dump t _) _ s₁ ended
              (λ s₂ v₂. mark_terminal-Returns s₂ v₂))))

  -- How the recovery of a task with a last number begins: the number and the database that the
  -- error event meets. Only a task that published nothing gets a start event, if its model is there.
  pub data Begins (db : Db redis.Time) : ℕ → ℕ → Db redis.Time → Type 0 where
    numbered : (n : ℕ) → Begins db (suc n) (suc n) db
    without_model : db.hashes (state_key o t) "initial_model" ≡ none → Begins db 0 0 db
    from_model :
        (v : Datum) (m : UiModel) (json : Fields)
        → db.hashes (state_key o t) "initial_model" ≡ some v
        → model_of v ≡ ok m
        → (start (silent 0) (dump m) none).result ≡ ok json
        → Begins db 0 1 (put_event o t json 1 db)

  stored_model :
      (s : redis.State) {db : Db redis.Time} {stored : Option Datum}
      → db.hashes (state_key o t) "initial_model" ≡ stored
      → redis.view s ≡ db
      → Returns redis.view (redis.hget (state_key o t) "initial_model" s) stored db
  stored_model s {db = db} there v =
      subst (λ v. Returns redis.view (redis.hget (state_key o t) "initial_model" s) v db) there
        (Reads-Returns redis.view (λ (d : Db redis.Time). d.hashes (state_key o t) "initial_model")
          s _ (redis.hget-Reads _ _ s) (answers.hget_answers _ _ s) v)

  restarted-Returns :
      {n k : ℕ} {db db' : Db redis.Time} (s : redis.State)
      → Begins db n k db'
      → redis.view s ≡ db
      → Returns redis.view (restarted redis o dump t n s) (silent k) db'
  unfolding restarted restart initial_model start emit
  restarted-Returns s (numbered n) v =
      let positive : (suc n == 0) ≡ false = ground arith in
      rw positive (Returns-pure redis.view (silent (suc n)) s v)
  restarted-Returns {db = db} s (without_model missing) v =
      Returns->>= redis.view (redis.hget (state_key o t) "initial_model") _ s
        (stored_model s missing v) (λ s₁ v₁. Returns-pure redis.view (silent 0) s₁ v₁)
  restarted-Returns {db = db} s (from_model stored m json there parsed made) v =
      Returns->>= redis.view (redis.hget (state_key o t) "initial_model") _ s
        (stored_model s there v)
        (λ s₁ v₁.
          Returns->>= redis.view (lift (model_of stored)) _ s₁
            (Returns-lift redis.view (model_of stored) s₁ parsed v₁)
            (λ s₂ v₂. publish_emitted-Returns (start (silent 0) (dump m) none) json s₂ made v₂))

  pub recover_task-Returns :
      (n k : ℕ) (s : redis.State) {db db' : Db redis.Time}
      → redis.view s ≡ db
      → number_of (db.hashes (state_key o t) "last_seq") ≡ ok n
      → Begins db n k db'
      → Returns redis.view (recover_task redis o dump t s) tt (reported k db')
  unfolding recover_task last_seq report
  recover_task-Returns n k s {db = db} v number begins =
      Returns->>= redis.view (last_seq redis o t) _ s
        (Returns->>= redis.view (redis.hget (state_key o t) "last_seq") _ s
          (Reads-Returns redis.view (λ d. d.hashes (state_key o t) "last_seq") s _
            (redis.hget-Reads _ _ s) (answers.hget_answers _ _ s) v)
          (λ s₁ v₁. Returns-lift redis.view _ s₁ number v₁))
        (λ s₂ v₂.
          Returns->>= redis.view (restarted redis o dump t n) _ s₂ (restarted-Returns s₂ begins v₂)
            (λ s₃ v₃. report-Returns k s₃ v₃))

  -- What readers and other instances find of a recovered task.
  pub record IsRecovered (n : ℕ) (before after : Db redis.Time) : Type 0 where
    pub stream :
        after.streams (stream_key o t)
        ≡ before.streams (stream_key o t) ++ timeout_event (n + 1) ∷ end_event (n + 1 + 1) ∷ []
    pub status : after.hashes (state_key o t) "status" ≡ some (plain "failed")
    pub last : after.hashes (state_key o t) "last_seq" ≡ some (decimal (n + 1 + 1))
    pub heartbeat : after.scores (heartbeat_key o) t ≡ none

  pub reported-IsRecovered : (n : ℕ) (db : Db redis.Time) → IsRecovered n db (reported n db)
  unfolding put_failed put_event push_event put_fields put_score
  reported-IsRecovered n db = record {
    stream = rw eq_refl (append_assoc (db.streams (stream_key o t)) _ _);
    status = rw eq_refl refl;
    last = rw eq_refl refl;
    heartbeat = rw (eq_refl, eq_refl) refl;
  }

  -- If the Redis commands answer, the recovery of a task returns, and the stream of the task has then
  -- an error event and an end event more, with the two numbers that follow the last one; before them
  -- a start event, if nothing was published and the task's model is stored. The task is marked as
  -- failed with the number of the end event, and has no heartbeat.
  pub recover_task-IsRecovered :
      (n k : ℕ) (s : redis.State) (db : Db redis.Time)
      → number_of ((redis.view s).hashes (state_key o t) "last_seq") ≡ ok n
      → Begins (redis.view s) n k db
      → (s' : redis.State) × (recover_task redis o dump t s ≡ (finished tt, s'))
        × IsRecovered k db (redis.view s')
  recover_task-IsRecovered n k s db number begins =
      let (s', e, v) = recover_task-Returns n k s refl number begins in
      (s', e, rw v (reported-IsRecovered k db))
