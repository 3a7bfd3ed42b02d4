-- ===== src/Runner/Recovery/Expired.antt =====
-- `recover_timeouts` of runner/runner.py, and a task whose heartbeat has expired.
use mathlib.Core.Path.{subst}
use agentue.Prelude.{
  eq_refl, ℕ, ◌+◌, String, ◌≡◌, ◌≢◌, refl, sym, ap, ◌∙◌, true, false, some, List, [], ◌∷◌, ◌++◌,
  All, All-map, str_eq-ne,
}
use agentue.Json.{Fields}
use agentue.Result.{ok}
use agentue.Model.{UiModel}
use agentue.Runner.Options.{RunnerOptions}
use agentue.Runner.Redis.{
  Redis, Io, Ended, finished, stopped, Db, plain, after, Reads, AreDue, push_event, put_fields,
  put_score, put_claim, pure, ◌>>=◌,
}
use agentue.Runner.Redis.Runs.{
  Keeps, Returns, Returns->>=, Returns->>, Returns-pure, Returns-finally, Claims-Returns,
  Writes-Returns, Reads-Returns,
}
use agentue.Runner.EventBridge.{
  stream_key, state_key, heartbeat_key, claim_key, expired_task_ids, claim_recovery,
  release_recovery, status, number_of,
}
use agentue.Runner.Recovery.{
  recover_task, recover_claimed, recover_expired, recover_all, recover_timeouts,
}
use agentue.Runner.Recovery.Keeps.{recover_expired-Keeps, recover_all-Keeps}
use agentue.Runner.Recovery.Claims.{AnswersClaims, key_of-ne}
use agentue.Runner.Recovery.Success.{
  Answers, Begins, without_model, from_model, put_event, IsRecovered, timeout_event, end_event,
  numbered, reported, recover_task-Returns, reported-IsRecovered,
}
use agentue.Runner.Recovery.Fresh.{IsLeft, other-IsSpared, other-put_claim, recover_all-IsLeft}

module _ {S : Type 0} where
  after_assoc :
      {A B C : Type 0} (r : Ended A × S) (f : A → Io S B) (g : B → Io S C)
      → after (after r f) g ≡ after r (λ a s. after (f a s) g)
  after_assoc (finished a, s) f g = refl
  after_assoc (stopped x, s) f g = refl

  after_cong :
      {A B : Type 0} (r : Ended A × S) (f g : A → Io S B)
      → ((a : A) (s : S) → f a s ≡ g a s)
      → after r f ≡ after r g
  after_cong (finished a, s) f g h = h a s
  after_cong (stopped x, s) f g h = refl

module _ (redis : Redis) (o : RunnerOptions) (dump : UiModel → Fields) where
  recover_all-append :
      (pre task_ids : List String) (n : ℕ) (s : redis.State)
      → recover_all redis o dump (pre ++ task_ids) n s
        ≡ after (recover_all redis o dump pre n s) (recover_all redis o dump task_ids)
  unfolding recover_all pure ◌>>=◌
  recover_all-append [] task_ids n s = refl
  recover_all-append (u ∷ pre) task_ids n s =
      let turn = recover_expired redis o dump u s in
      after_cong turn _
        (λ more s'.
          after (recover_all redis o dump pre (n + more) s') (recover_all redis o dump task_ids))
        (λ more s'. recover_all-append pre task_ids (n + more) s')
      ∙ sym (after_assoc turn _ _)

module _ (redis : Redis) (answers : Answers redis) (answers_claims : AnswersClaims redis)
    (o : RunnerOptions) (dump : UiModel → Fields) (t : String) where
  -- the beginning of a recovery, as the claim and other tasks leave it alone
  record Moved (before db : Db redis.Time) (n k : ℕ) (begun : Db redis.Time) : Type 0 where
    moved : Db redis.Time
    begins : Begins redis answers o dump t db n k moved
    stream : moved.streams (stream_key o t) ≡ begun.streams (stream_key o t)

  Begins-Moved :
      (before db : Db redis.Time) {n k : ℕ} {begun : Db redis.Time}
      → Begins redis answers o dump t before n k begun
      → db.streams (stream_key o t) ≡ before.streams (stream_key o t)
      → db.hashes (state_key o t) "initial_model" ≡ before.hashes (state_key o t) "initial_model"
      → Moved before db n k begun
  unfolding put_event push_event put_fields
  Begins-Moved before db (numbered n) s h = record { moved = db; begins = numbered n; stream = s }
  Begins-Moved before db (without_model missing) s h = record {
    moved = db;
    begins = without_model (h ∙ missing);
    stream = s;
  }
  Begins-Moved before db (from_model v m json there parsed made) s h = record {
    moved = put_event o t json 1 db;
    begins = from_model v m json (h ∙ there) parsed made;
    stream = rw eq_refl (ap (λ es. es ++ json ∷ []) s);
  }

  recover_expired-Returns :
      (n k : ℕ) (s : redis.State) {db begun : Db redis.Time}
      → redis.view s ≡ db
      → db.claims (claim_key o t) ≡ false
      → db.hashes (state_key o t) "status" ≡ some (plain "running")
      → number_of (db.hashes (state_key o t) "last_seq") ≡ ok n
      → Begins redis answers o dump t (put_claim (claim_key o t) true db) n k begun
      → Returns redis.view
          (recover_expired redis o dump t s)
          1
          (put_claim (claim_key o t) false (reported redis answers o dump t k begun))
  unfolding recover_expired recover_claimed claim_recovery release_recovery status put_claim
  recover_expired-Returns n k s {db = db} v free running number begins =
      let key = claim_key o t in
      Returns->>= redis.view (redis.set_nx key o.recovery_claim_ttl) _ s
        (Claims-Returns redis.view key s _ (redis.set_nx-Claims _ _ s)
          (answers_claims.set_answers _ _ s) v free)
        (λ s₁ v₁.
          Returns-finally redis.view (recover_claimed redis o dump t) (redis.delete key) s₁
            (Returns->>= redis.view (redis.hget (state_key o t) "status") _ s₁
              (subst
                (λ stored.
                  Returns redis.view (redis.hget (state_key o t) "status" s₁) stored
                    (put_claim key true db))
                running
                (Reads-Returns redis.view (λ (d : Db redis.Time). d.hashes (state_key o t) "status")
                  s₁ _ (redis.hget-Reads _ _ s₁) (answers.hget_answers _ _ s₁) v₁))
              (λ s₂ v₂.
                Returns->> redis.view (recover_task redis o dump t) _ s₂
                  (recover_task-Returns redis answers o dump t n k s₂ v₂ number begins)
                  (λ s₃ v₃. Returns-pure redis.view 1 s₃ v₃)))
            (λ s₄ v₄.
              (Writes-Returns redis.view (put_claim key false) s₄ (redis.delete key s₄)
                (redis.delete-Writes _ s₄) (answers_claims.delete_answers _ s₄) v₄).1))

  -- the task as it was
  abbrev Left : Db redis.Time → Db redis.Time → Type 0
  Left before =
      IsLeft redis o t (before.streams (stream_key o t)) (before.hashes (state_key o t))
        (before.scores (heartbeat_key o) t)

  -- the same, and free to be claimed
  record IsWaiting (before db : Db redis.Time) : Type 0 where
    left : Left before db
    free : db.claims (claim_key o t) ≡ false

  turn-IsWaiting :
      (before : Db redis.Time) (u : String)
      → u ≢ t
      → Keeps redis.view (IsWaiting before) (recover_expired redis o dump u)
  unfolding put_claim push_event put_fields put_score
  turn-IsWaiting before u other =
      let spared =
        other-IsSpared redis o t (before.streams (stream_key o t)) (before.hashes (state_key o t))
          (before.scores (heartbeat_key o) t) u other in
      recover_expired-Keeps redis o dump (IsWaiting before) u
        (record {
          pushed = λ e db q. record { left = spared.pushed e db q.left; free = q.free };
          hashed = λ fs db q. record { left = spared.hashed fs db q.left; free = q.free };
          scored = λ db q. record { left = spared.scored db q.left; free = q.free };
        })
        (λ set db q. record {
          left =
              other-put_claim redis o t (before.streams (stream_key o t))
                (before.hashes (state_key o t)) (before.scores (heartbeat_key o) t) u set db q.left;
          free = rw (str_eq-ne _ _ (key_of-ne o u t ":recovery-claim" other)) q.free;
        })

  -- what a scan leaves of a recovered task, whose events others leave alone
  left-IsRecovered :
      (k : ℕ) (begun moved mid last : Db redis.Time)
      → moved.streams (stream_key o t) ≡ begun.streams (stream_key o t)
      → mid ≡ put_claim (claim_key o t) false (reported redis answers o dump t k moved)
      → Left mid last
      → IsRecovered redis answers o dump t k begun last
  unfolding put_claim
  left-IsRecovered k begun moved mid last same made left =
      let done = reported-IsRecovered redis answers o dump t k moved in
      record {
        stream =
            left.stream
            ∙ ap (λ (d : Db redis.Time). d.streams (stream_key o t)) made
            ∙ done.stream
            ∙ ap (λ es. es ++ timeout_event (k + 1) ∷ end_event (k + 1 + 1) ∷ []) same;
        status =
            left.state "status"
            ∙ ap (λ (d : Db redis.Time). d.hashes (state_key o t) "status") made
            ∙ done.status;
        last =
            left.state "last_seq"
            ∙ ap (λ (d : Db redis.Time). d.hashes (state_key o t) "last_seq") made
            ∙ done.last;
        heartbeat =
            left.heartbeat
            ∙ ap (λ (d : Db redis.Time). d.scores (heartbeat_key o) t) made
            ∙ done.heartbeat;
      }

  listed-view :
      (cutoff : redis.Time) (s s₀ : redis.State) (r : Ended (List String) × redis.State)
      (ids : List String)
      → Reads redis.view (λ db ms. AreDue redis.AtMost cutoff (db.scores (heartbeat_key o)) ms) s r
      → r ≡ (finished ids, s₀)
      → redis.view s₀ ≡ redis.view s
  listed-view cutoff s s₀ r ids reads e =
      (subst
        (Reads redis.view (λ db ms. AreDue redis.AtMost cutoff (db.scores (heartbeat_key o)) ms) s)
        e reads).0

  -- A scan recovers a task that it lists once: if the task runs and is not claimed, its last number can
  -- be read, and so can its model if it has one and nothing was published, the Redis commands that a
  -- scan issues answer, and none of the turns before the task's raises. Then the stream has an error
  -- event and an end event more, at the next numbers, after a start event if nothing was published and
  -- the model is there; the task is marked as failed and has no heartbeat. What the turns after it do
  -- or raise does not matter.
  pub recover_timeouts-IsRecovered :
      (cutoff : redis.Time) (s s₀ s₁ : redis.State) (pre post : List String) (n k count : ℕ)
      (begun : Db redis.Time)
      → expired_task_ids redis o cutoff s ≡ (finished (pre ++ t ∷ post), s₀)
      → All (λ u. u ≢ t) pre
      → All (λ u. u ≢ t) post
      → recover_all redis o dump pre 0 s₀ ≡ (finished count, s₁)
      → (redis.view s).claims (claim_key o t) ≡ false
      → (redis.view s).hashes (state_key o t) "status" ≡ some (plain "running")
      → number_of ((redis.view s).hashes (state_key o t) "last_seq") ≡ ok n
      → Begins redis answers o dump t (redis.view s) n k begun
      → IsRecovered redis answers o dump t k begun
          (redis.view (recover_timeouts redis o dump cutoff s).1)
  unfolding recover_timeouts expired_task_ids recover_all ◌>>=◌ put_claim
  recover_timeouts-IsRecovered cutoff s s₀ s₁ pre post n k count begun listed before after_it turns
        free running number begins =
      let db = redis.view s in
      let same : redis.view s₀ ≡ db =
        listed-view cutoff s s₀ (redis.zrangebyscore (heartbeat_key o) cutoff s) (pre ++ t ∷ post)
          (redis.zrangebyscore-Reads (heartbeat_key o) cutoff s) listed in
      let at_first : IsWaiting db db = record {
        left = record { stream = refl; state = λ f. refl; heartbeat = refl };
        free = free;
      } in
      let kept : IsWaiting db (redis.view (recover_all redis o dump pre 0 s₀).1) =
        (recover_all-Keeps redis o dump (IsWaiting db) pre 0
            (All-map (λ u. u ≢ t) _ (turn-IsWaiting db) pre before)).holds
          s₀ (subst (IsWaiting db) (sym same) at_first) in
      let waiting : IsWaiting db (redis.view s₁) =
        subst (λ r. IsWaiting db (redis.view r.1)) turns kept in
      let from =
        Begins-Moved db (put_claim (claim_key o t) true (redis.view s₁)) begins waiting.left.stream
          (waiting.left.state "initial_model") in
      let (s₂, turn, v) =
        recover_expired-Returns n k s₁ refl waiting.free (waiting.left.state "status" ∙ running)
          (ap number_of (waiting.left.state "last_seq") ∙ number) from.begins in
      let whole : recover_timeouts redis o dump cutoff s
          ≡ recover_all redis o dump post (count + 1) s₂ =
        ap (λ r. after r (λ ids. recover_all redis o dump ids 0)) listed
        ∙ recover_all-append redis o dump pre (t ∷ post) 0 s₀
        ∙ ap (λ r. after r (recover_all redis o dump (t ∷ post))) turns
        ∙ ap (λ r. after r (λ more. recover_all redis o dump post (count + more))) turn in
      let mid = redis.view s₂ in
      left-IsRecovered k begun from.moved mid _ from.stream v (
        subst (λ r. Left mid (redis.view r.1)) (sym whole)
          ((recover_all-IsLeft redis o dump t (mid.streams (stream_key o t))
              (mid.hashes (state_key o t)) (mid.scores (heartbeat_key o) t) post (count + 1)
              after_it).holds
            s₂ (record { stream = refl; state = λ f. refl; heartbeat = refl })))
