-- ===== src/Samples/Recoveries.antt =====
-- Sample recoveries of tasks, and publications, on the Redis client in memory.
use agentue.Prelude.{
  ℕ, String, ◌≡◌, refl, true, false, Option, none, some, [], ◌∷◌, str_eq, if◌then◌else◌,
}
use agentue.Json.{Fields, empty}
use agentue.Model.{UiModel}
use agentue.Runner.Options.{defaults}
use agentue.Runner.Redis.{Redis, stopped, Db, Datum, plain, decimal, finished}
use agentue.Runner.EventBridge.{stream_key, claim_key, publish_event}
use agentue.Runner.EventBridge.Publication.{Published, publish_event-Published}
use agentue.Runner.Recovery.{recover_task, recover_all, recover_timeouts}
use agentue.Runner.Recovery.Claims.{recover_timeouts-Held, recover_timeouts-claims}
use agentue.Runner.Recovery.Success.{numbered, IsRecovered, recover_task-IsRecovered}
use agentue.Runner.Redis.{pure}
use agentue.Runner.Recovery.Expired.{recover_timeouts-IsRecovered}
use agentue.Runner.EventBridge.{expired_task_ids}
use agentue.Runner.Failures.{bridge_failure}
use agentue.Samples.Store.{store, store-Answers, store-AnswersClaims}

-- the hash of a task that has published two events
abbrev two_published : String → Option Datum
two_published f =
    if str_eq f "status"
    then some (plain "running")
    else if str_eq f "last_seq"
    then some (decimal 2)
    else none

-- a database with that task, whose last heartbeat was at 5
abbrev stalled : Db ℕ
stalled = record {
  streams = λ key. [];
  hashes = λ key. two_published;
  scores = λ key member. if str_eq member "t1" then some 5 else none;
  claims = λ key. false;
}

-- the same, where another instance recovers the task
abbrev taken : Db ℕ
taken = record stalled { claims = λ key. str_eq key (claim_key defaults "t1") }

abbrev dump : UiModel → Fields
dump m = empty

publish_event-Published_example :
    Published store defaults "t1" empty 3 stalled
      (publish_event store defaults "t1" empty 3 stalled)
publish_event-Published_example = publish_event-Published store defaults "t1" empty 3 stalled

recover_task-IsRecovered_example :
    (s' : Db ℕ) × (recover_task store defaults dump "t1" stalled ≡ (finished tt, s'))
    × IsRecovered store store-Answers defaults dump "t1" 2 stalled s'
recover_task-IsRecovered_example =
    recover_task-IsRecovered store store-Answers defaults dump "t1" 2 2 stalled stalled refl
      (numbered 1)

recover_timeouts-Held_example :
    ((recover_timeouts store defaults dump 9 taken).1.claims (claim_key defaults "t1") ≡ true)
    × ((recover_timeouts store defaults dump 9 taken).1.streams (stream_key defaults "t1") ≡ [])
recover_timeouts-Held_example =
    recover_timeouts-Held store defaults dump "t1" [] 9 taken (refl, refl)

recover_timeouts-claims_example :
    (recover_timeouts store defaults dump 9 stalled).1.claims (claim_key defaults "t1") ≡ false
recover_timeouts-claims_example =
    recover_timeouts-claims store store-AnswersClaims defaults dump (claim_key defaults "t1") 9
      stalled

-- a client whose scan for heartbeats raises
abbrev unreachable : Redis
unreachable = record store {
  zrangebyscore = λ key t db. (stopped bridge_failure, db);
  zrangebyscore-Reads = λ k t s. refl;
}

stalled_listed : expired_task_ids store defaults 9 stalled ≡ (finished ("t1" ∷ []), stalled)
unfolding expired_task_ids
stalled_listed = refl

none_before : recover_all store defaults dump [] 0 stalled ≡ (finished 0, stalled)
unfolding recover_all pure
none_before = refl

recover_timeouts-IsRecovered_example :
    IsRecovered store store-Answers defaults dump "t1" 2 stalled
      (recover_timeouts store defaults dump 9 stalled).1
recover_timeouts-IsRecovered_example =
    recover_timeouts-IsRecovered store store-Answers store-AnswersClaims defaults dump "t1" 9
      stalled stalled stalled [] [] 2 2 0 stalled stalled_listed tt tt none_before refl refl refl
      (numbered 1)
