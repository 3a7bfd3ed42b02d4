-- ===== src/Runner/Recovery/Keeps.antt =====
-- `recover_timeouts` of runner/runner.py: what the turn of one task writes.
use mathlib.Core.Path.{subst}
use agentue.Prelude.{
  ℕ, String, ◌≡◌, sym, true, false, inl, inr, Bool, Option, none, some, List, [], ◌∷◌, ◌==◌, ◌+◌,
  All,
}
use agentue.Json.{Fields}
use agentue.Model.{UiModel}
use agentue.Emitter.{PatchEmitter, Emitted}
use agentue.Runner.Options.{RunnerOptions}
use agentue.Runner.Redis.{
  Redis, Db, Datum, AreDue, Ended, finished, stopped, Claims, push_event, put_fields, put_score,
  put_claim,
}
use agentue.Runner.Redis.Runs.{
  Keeps, Keeps->>=, Keeps->>, Keeps-pure, Keeps-lift, Keeps-if, Keeps-finally, Writes-Keeps,
  Reads-Keeps,
}
use agentue.Runner.EventBridge.{
  stream_key, state_key, heartbeat_key, claim_key, expired_task_ids, claim_recovery,
  release_recovery, publish_event, last_seq, initial_model, status, mark_terminal, forget_heartbeat,
  is_running,
}
use agentue.Runner.Recovery.{
  publish_emitted, restart, restarted, recover_task, recover_claimed, recover_expired, recover_all,
}

module _ (redis : Redis) (o : RunnerOptions) (Q : Db redis.Time → Type 0) (task_id : String) where
  -- A property of the database that events on the task's stream, fields of its state and the end of
  -- its heartbeat keep.
  pub record IsSpared : Type 0 where
    pub pushed :
        (e : Fields) (db : Db redis.Time) → Q db → Q (push_event (stream_key o task_id) e db)
    pub hashed :
        (fs : List (String × Datum)) (db : Db redis.Time)
        → Q db
        → Q (put_fields (state_key o task_id) fs db)
    pub scored : (db : Db redis.Time) → Q db → Q (put_score (heartbeat_key o) task_id none db)

module _ {S Time : Type 0} (view : S → Db Time) (Q : Db Time → Type 0) where
  pub Claims-Keeps :
      (key : String) (s : S) (r : Ended Bool × S)
      → Claims view key s r
      → (Q (view s) → Q (put_claim key true (view s)))
      → Q (view s)
      → Q (view r.1)
  Claims-Keeps key s (finished true, s') (free, e) keep q = subst Q (sym e) (keep q)
  Claims-Keeps key s (finished false, s') (held, e) keep q = subst Q (sym e) q
  Claims-Keeps key s (stopped x, s') (inl e) keep q = subst Q (sym e) q
  Claims-Keeps key s (stopped x, s') (inr e) keep q = subst Q (sym e) (keep q)

module _ (redis : Redis) (o : RunnerOptions) (Q : Db redis.Time → Type 0) where
  pub expired_task_ids-Keeps :
      (cutoff : redis.Time) → Keeps redis.view Q (expired_task_ids redis o cutoff)
  unfolding expired_task_ids
  expired_task_ids-Keeps cutoff = record {
    holds = λ s q.
        Reads-Keeps redis.view Q
          (λ db ms. AreDue redis.AtMost cutoff (db.scores (heartbeat_key o)) ms) s _
          (redis.zrangebyscore-Reads (heartbeat_key o) cutoff s) q;
  }

module _ (redis : Redis) (o : RunnerOptions) (dump : UiModel → Fields) (Q : Db redis.Time → Type 0)
    (task_id : String) (spared : IsSpared redis o Q task_id) where
  expire-Keeps : {k : String} → Keeps redis.view Q (redis.expire k o.task_ttl)
  expire-Keeps {k = k} = record {
    holds = λ s q.
        Writes-Keeps redis.view Q (λ db. db) s _ (redis.expire-Writes k o.task_ttl s) (λ p. p) q;
  }

  hset-Keeps :
      {fs : List (String × Datum)} → Keeps redis.view Q (redis.hset (state_key o task_id) fs)
  hset-Keeps {fs = fs} = record {
    holds = λ s q.
        Writes-Keeps redis.view Q (put_fields (state_key o task_id) fs) s _
          (redis.hset-Writes (state_key o task_id) fs s) (spared.hashed fs (redis.view s)) q;
  }

  hget-Keeps : {k f : String} → Keeps redis.view Q (redis.hget k f)
  hget-Keeps {k = k} {f = f} = record {
    holds =
        λ s q. Reads-Keeps redis.view Q (λ db v. v ≡ db.hashes k f) s _ (redis.hget-Reads k f s) q;
  }

  zrem-Keeps : Keeps redis.view Q (redis.zrem (heartbeat_key o) task_id)
  zrem-Keeps = record {
    holds = λ s q.
        Writes-Keeps redis.view Q (put_score (heartbeat_key o) task_id none) s _
          (redis.zrem-Writes (heartbeat_key o) task_id s) (spared.scored (redis.view s)) q;
  }

  xadd-Keeps : {e : Fields} → Keeps redis.view Q (redis.xadd (stream_key o task_id) e)
  xadd-Keeps {e = e} = record {
    holds = λ s q.
        Writes-Keeps redis.view Q (push_event (stream_key o task_id) e) s _
          (redis.xadd-Writes (stream_key o task_id) e s) (spared.pushed e (redis.view s)) q;
  }

  publish_event-Keeps :
      (e : Fields) (seq : ℕ) → Keeps redis.view Q (publish_event redis o task_id e seq)
  unfolding publish_event
  publish_event-Keeps e seq = Keeps->>= redis.view Q xadd-Keeps (λ id.
      Keeps->> redis.view Q expire-Keeps
        (Keeps->> redis.view Q hset-Keeps (Keeps-pure redis.view Q _)))

  publish_emitted-Keeps :
      (emitted : Emitted) → Keeps redis.view Q (publish_emitted redis o dump task_id emitted)
  unfolding publish_emitted
  publish_emitted-Keeps emitted = Keeps->>= redis.view Q (Keeps-lift redis.view Q _) (λ json.
      Keeps->>= redis.view Q (publish_event-Keeps json _) (λ id. Keeps-pure redis.view Q _))

  restart-Keeps :
      (em : PatchEmitter) (stored : Option Datum)
      → Keeps redis.view Q (restart redis o dump task_id em stored)
  unfolding restart
  restart-Keeps em none = Keeps-pure redis.view Q em
  restart-Keeps em (some v) =
      Keeps->>= redis.view Q (Keeps-lift redis.view Q _) (λ m. publish_emitted-Keeps _)

  mark_terminal-Keeps : (t : String) → Keeps redis.view Q (mark_terminal redis o task_id t)
  unfolding mark_terminal
  mark_terminal-Keeps t =
      Keeps->> redis.view Q hset-Keeps (Keeps->> redis.view Q expire-Keeps zrem-Keeps)

  recover_task-Keeps : Keeps redis.view Q (recover_task redis o dump task_id)
  unfolding recover_task restarted last_seq initial_model
  recover_task-Keeps =
      Keeps->>= redis.view Q (Keeps->>= redis.view Q hget-Keeps (λ v. Keeps-lift redis.view Q _))
        (λ offset.
          Keeps->>= redis.view Q
            (Keeps-if redis.view Q (offset == 0)
              (Keeps->>= redis.view Q hget-Keeps (restart-Keeps _)) (Keeps-pure redis.view Q _))
            (λ em. Keeps->>= redis.view Q (publish_emitted-Keeps _) (λ failing.
              Keeps->>= redis.view Q (publish_emitted-Keeps _) (λ ended. mark_terminal-Keeps _))))

  -- The recovery of a claimed task keeps what its own writes keep.
  pub recover_claimed-Keeps : Keeps redis.view Q (recover_claimed redis o dump task_id)
  unfolding recover_claimed status forget_heartbeat
  recover_claimed-Keeps = Keeps->>= redis.view Q hget-Keeps (λ stored.
      Keeps-if redis.view Q (is_running stored)
        (Keeps->> redis.view Q recover_task-Keeps (Keeps-pure redis.view Q _))
        (Keeps->> redis.view Q zrem-Keeps (Keeps-pure redis.view Q _)))

  -- So does a turn of the scan, if setting and giving back the task's claim keeps it too.
  pub recover_expired-Keeps :
      ((set : Bool) (db : Db redis.Time) → Q db → Q (put_claim (claim_key o task_id) set db))
      → Keeps redis.view Q (recover_expired redis o dump task_id)
  unfolding recover_expired claim_recovery release_recovery
  recover_expired-Keeps claimed =
      Keeps->>= redis.view Q
        (record {
          holds = λ s q.
              Claims-Keeps redis.view Q (claim_key o task_id) s _ (redis.set_nx-Claims _ _ s)
                (claimed true (redis.view s)) q;
        })
        (λ mine.
          Keeps-if redis.view Q mine
            (Keeps-finally redis.view Q recover_claimed-Keeps (record {
              holds = λ s q.
                  Writes-Keeps redis.view Q (put_claim (claim_key o task_id) false) s _
                    (redis.delete-Writes _ s) (claimed false (redis.view s)) q;
            }))
            (Keeps-pure redis.view Q 0))

module _ (redis : Redis) (o : RunnerOptions) (dump : UiModel → Fields)
    (Q : Db redis.Time → Type 0) where
  -- A scan keeps what each of its turns keeps.
  pub recover_all-Keeps :
      (task_ids : List String) (n : ℕ)
      → All (λ u. Keeps redis.view Q (recover_expired redis o dump u)) task_ids
      → Keeps redis.view Q (recover_all redis o dump task_ids n)
  unfolding recover_all
  recover_all-Keeps [] n turns = Keeps-pure redis.view Q n
  recover_all-Keeps (u ∷ rest) n (turn, turns) =
      Keeps->>= redis.view Q turn (λ more. recover_all-Keeps rest (n + more) turns)
