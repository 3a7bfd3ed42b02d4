-- ===== src/Runner/Recovery/Fresh.antt =====
-- `recover_timeouts` of runner/runner.py: what its turns leave of a task that they are not about.
use agentue.Prelude.{Bool, ℕ, String, ◌≡◌, ◌≢◌, List, Option, str_eq-ne, eq_refl, All, All-map}
use agentue.Json.{Fields}
use agentue.Model.{UiModel}
use agentue.Runner.Options.{RunnerOptions}
use agentue.Runner.Redis.{Redis, Db, Datum, push_event, put_fields, put_score, put_claim}
use agentue.Runner.Redis.Runs.{Keeps}
use agentue.Runner.EventBridge.{claim_key, stream_key, state_key, heartbeat_key}
use agentue.Runner.Recovery.{recover_expired, recover_all}
use agentue.Runner.Recovery.Keeps.{IsSpared, recover_expired-Keeps, recover_all-Keeps}
use agentue.Runner.Recovery.Claims.{key_of-ne}

module _ (redis : Redis) (o : RunnerOptions) (t : String) (events : List Fields)
    (fields : String → Option Datum) (score : Option redis.Time) where
  -- the task's stream, its state and its heartbeat
  pub record IsLeft (db : Db redis.Time) : Type 0 where
    pub stream : db.streams (stream_key o t) ≡ events
    pub state : (f : String) → db.hashes (state_key o t) f ≡ fields f
    pub heartbeat : db.scores (heartbeat_key o) t ≡ score

  pub other-IsSpared : (u : String) → u ≢ t → IsSpared redis o IsLeft u
  unfolding push_event put_fields put_score
  other-IsSpared u other = record {
    pushed = λ e db q. record {
      stream = rw (str_eq-ne _ _ (key_of-ne o u t ":events" other)) q.stream;
      state = q.state;
      heartbeat = q.heartbeat;
    };
    hashed = λ fs db q. record {
      stream = q.stream;
      state = λ f. rw (str_eq-ne _ _ (key_of-ne o u t ":state" other)) (q.state f);
      heartbeat = q.heartbeat;
    };
    scored = λ db q. record {
      stream = q.stream;
      state = q.state;
      heartbeat = rw (eq_refl, str_eq-ne u t other) q.heartbeat;
    };
  }

  pub other-put_claim :
      (u : String) (set : Bool) (db : Db redis.Time)
      → IsLeft db
      → IsLeft (put_claim (claim_key o u) set db)
  unfolding put_claim
  other-put_claim u set db q = record {
    stream = q.stream;
    state = q.state;
    heartbeat = q.heartbeat;
  }

module _ (redis : Redis) (o : RunnerOptions) (dump : UiModel → Fields) (t : String)
    (events : List Fields) (fields : String → Option Datum) (score : Option redis.Time) where
  abbrev Left : Db redis.Time → Type 0
  Left = IsLeft redis o t events fields score

  pub recover_all-IsLeft :
      (task_ids : List String) (n : ℕ)
      → All (λ u. u ≢ t) task_ids
      → Keeps redis.view Left (recover_all redis o dump task_ids n)
  recover_all-IsLeft task_ids n others = recover_all-Keeps redis o dump Left task_ids n (
      All-map (λ u. u ≢ t) (λ u. Keeps redis.view Left (recover_expired redis o dump u))
        (λ u other.
          recover_expired-Keeps redis o dump Left u
            (other-IsSpared redis o t events fields score u other)
            (λ set db q. other-put_claim redis o t events fields score u set db q))
        task_ids others)
