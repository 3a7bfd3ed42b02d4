-- ===== src/Runner/EventBridge/Publication.antt =====
-- `publish` of runner/redis_bridge.py, seen as the runner model sees it.
use agentue.Prelude.{
  ℕ, String, ◌≡◌, ◌≢◌, ◌↔◌, refl, ap, ◌∙◌, some, List, [], ◌∷◌, ◌++◌, str_eq-ne, eq_refl, inl, inr,
}
use agentue.Json.{Fields}
use agentue.Runner.{Publication, complete, interrupted, refused}
use agentue.Runner.Options.{RunnerOptions}
use agentue.Runner.Redis.{
  Redis, Io, Ended, finished, stopped, Db, Datum, decimal, push_event, put_fields, after, Writes,
  ◌>>=◌, ◌>>◌, pure,
}
use agentue.Runner.Redis.Runs.{IsAnswer}
use agentue.Runner.EventBridge.{stream_key, state_key, publish_event}

-- the events that a publication leaves on the stream
abbrev pub left_by : Publication → List Fields → Fields → List Fields
left_by complete events e = events ++ e ∷ []
left_by interrupted events e = events ++ e ∷ []
left_by refused events e = events

refused≢complete : Path Publication refused complete → ⊥
refused≢complete h = cc h

interrupted≢complete : Path Publication interrupted complete → ⊥
interrupted≢complete h = cc h

module _ (redis : Redis) (o : RunnerOptions) (task_id : String) (e : Fields) (seq : ℕ)
    (db : Db redis.Time) where
  -- How a call ended, on a database as given.
  pub record Published (r : Ended String × redis.State) : Type 0 where
    pub how : Publication
    pub stream :
        (redis.view r.1).streams (stream_key o task_id)
        ≡ left_by how (db.streams (stream_key o task_id)) e
    pub others :
        (key : String) → stream_key o task_id ≢ key → (redis.view r.1).streams key ≡ db.streams key
    pub answers : (how ≡ complete) ↔ IsAnswer r.0
    pub numbered :
        how ≡ complete
        → (redis.view r.1).hashes (state_key o task_id) "last_seq" ≡ some (decimal seq)

  pushed : Db redis.Time
  pushed = push_event (stream_key o task_id) e db

  pushed-own : pushed.streams (stream_key o task_id) ≡ db.streams (stream_key o task_id) ++ e ∷ []
  unfolding pushed push_event
  pushed-own = rw eq_refl refl

  pushed-others : (key : String) → stream_key o task_id ≢ key → pushed.streams key ≡ db.streams key
  unfolding pushed push_event
  pushed-others key h = rw (str_eq-ne _ _ h) refl

  -- a call that raised before the stream changed
  refused-Published :
      (r : Ended String × redis.State) → (IsAnswer r.0 → ⊥) → redis.view r.1 ≡ db → Published r
  refused-Published r raised v = record {
    how = refused;
    stream = ap (λ (d : Db redis.Time). d.streams (stream_key o task_id)) v;
    others = λ key h. ap (λ (d : Db redis.Time). d.streams key) v;
    answers = ((λ h. absurd (refused≢complete h)), λ a. absurd (raised a));
    numbered = λ h. absurd (refused≢complete h);
  }

  -- a call that raised afterwards
  interrupted-Published :
      (r : Ended String × redis.State)
      → (IsAnswer r.0 → ⊥)
      → (redis.view r.1).streams ≡ pushed.streams
      → Published r
  interrupted-Published r raised v = record {
    how = interrupted;
    stream = ap (λ streams. streams (stream_key o task_id)) v ∙ pushed-own;
    others = λ key h. ap (λ streams. streams key) v ∙ pushed-others key h;
    answers = ((λ h. absurd (interrupted≢complete h)), λ a. absurd (raised a));
    numbered = λ h. absurd (interrupted≢complete h);
  }

  abbrev number : List (String × Datum)
  number = ("last_seq", decimal seq) ∷ []

  put_number :
      (s : redis.State) (db' : Db redis.Time)
      → redis.view s ≡ put_fields (state_key o task_id) number db'
      → db' ≡ pushed
      → (redis.view s).streams ≡ pushed.streams
  unfolding put_fields
  put_number s db' v p =
      ap (λ (d : Db redis.Time). d.streams) (v ∙ ap (put_fields (state_key o task_id) number) p)

  numbered-Published :
      (id : String) (s : redis.State) (r : Ended (Unit {0}) × redis.State)
      → Writes redis.view (put_fields (state_key o task_id) number) s r
      → redis.view s ≡ pushed
      → Published (after r (λ _. pure id))
  unfolding pure put_fields
  numbered-Published id s (finished u, s') w p = record {
    how = complete;
    stream =
        ap (λ streams. streams (stream_key o task_id)) (put_number s' (redis.view s) w p)
        ∙ pushed-own;
    others = λ key h.
        ap (λ streams. streams key) (put_number s' (redis.view s) w p) ∙ pushed-others key h;
    answers = ((λ h. tt), λ a. refl);
    numbered = λ h.
        ap (λ (d : Db redis.Time). d.hashes (state_key o task_id) "last_seq") w ∙ rw eq_refl refl;
  }
  numbered-Published id s (stopped x, s') (inl w) p =
      interrupted-Published _ (λ a. a) (ap (λ (d : Db redis.Time). d.streams) (w ∙ p))
  numbered-Published id s (stopped x, s') (inr w) p =
      interrupted-Published _ (λ a. a) (put_number s' (redis.view s) w p)

  abbrev tail : String → Io redis.State String
  tail id = redis.hset (state_key o task_id) number >> pure id

  expired-Published :
      (id : String) (s : redis.State) (r : Ended (Unit {0}) × redis.State)
      → Writes redis.view (λ d. d) s r
      → redis.view s ≡ pushed
      → Published (after r (λ _. tail id))
  unfolding ◌>>◌
  expired-Published id s (finished u, s') w p =
      numbered-Published id s' (redis.hset (state_key o task_id) number s')
        (redis.hset-Writes (state_key o task_id) number s') (w ∙ p)
  expired-Published id s (stopped x, s') (inl w) p =
      interrupted-Published _ (λ a. a) (ap (λ (d : Db redis.Time). d.streams) (w ∙ p))
  expired-Published id s (stopped x, s') (inr w) p =
      interrupted-Published _ (λ a. a) (ap (λ (d : Db redis.Time). d.streams) (w ∙ p))

  added-Published :
      (s : redis.State) (r : Ended String × redis.State)
      → Writes redis.view (push_event (stream_key o task_id) e) s r
      → redis.view s ≡ db
      → Published (after r (λ id. redis.expire (stream_key o task_id) o.task_ttl >> tail id))
  unfolding ◌>>◌ pushed
  added-Published s (finished id, s') w p =
      expired-Published id s' (redis.expire (stream_key o task_id) o.task_ttl s')
        (redis.expire-Writes (stream_key o task_id) o.task_ttl s')
        (w ∙ ap (push_event (stream_key o task_id) e) p)
  added-Published s (stopped x, s') (inl w) p = refused-Published _ (λ a. a) (w ∙ p)
  added-Published s (stopped x, s') (inr w) p =
      interrupted-Published _ (λ a. a)
        (ap (λ (d : Db redis.Time). d.streams) (w ∙ ap (push_event (stream_key o task_id) e) p))

-- However the Redis commands of a call of `publish` end, the call is one of the three publications of
-- the runner model: its event is at the end of the task's stream or the stream is as it was, no other
-- stream has changed, the call answers exactly if it is complete, and then `last_seq` holds the number.
pub publish_event-Published :
    (redis : Redis) (o : RunnerOptions) (task_id : String) (e : Fields) (seq : ℕ) (s : redis.State)
    → Published redis o task_id e seq (redis.view s) (publish_event redis o task_id e seq s)
unfolding publish_event ◌>>=◌
publish_event-Published redis o task_id e seq s =
    added-Published redis o task_id e seq (redis.view s) s (redis.xadd (stream_key o task_id) e s)
      (redis.xadd-Writes (stream_key o task_id) e s) refl
