-- ===== src/Samples/Store.antt =====
-- A Redis client that always answers, on a database in memory.
use agentue.Prelude.{
  ◌≤◌, Bool-cases, inl, inr, arith, ℕ, String, ◌≡◌, refl, Bool, true, false, Option, none, some,
  List, [], ◌∷◌, leb, if◌then◌else◌,
}
use agentue.Runner.Redis.{
  AreDue, Redis, Ended, finished, Db, push_event, put_fields, put_score, put_claim, Claims,
}
use agentue.Runner.Redis.Runs.{IsAnswer}
use agentue.Runner.Recovery.Claims.{AnswersClaims}
use agentue.Runner.Recovery.Success.{Answers}

abbrev set_if_free : String → Bool → Db ℕ → Ended Bool × Db ℕ
set_if_free key true db = (finished false, db)
set_if_free key false db = (finished true, put_claim key true db)

pub set_if_free-Claims :
    (key : String) (taken : Bool) (db : Db ℕ)
    → db.claims key ≡ taken
    → Claims (λ (d : Db ℕ). d) key db (set_if_free key taken db)
set_if_free-Claims key true db h = (h, refl)
set_if_free-Claims key false db h = (h, refl)

-- the one task of the samples, if its score is at most the cutoff
abbrev up_to : ℕ → Option ℕ → List String
up_to cutoff none = []
up_to cutoff (some score) = if leb score cutoff then "t1" ∷ [] else []

pub up_to-AreDue :
    (cutoff : ℕ) (scores : String → Option ℕ) (score : Option ℕ)
    → scores "t1" ≡ score
    → AreDue (λ a b. a ≤ b) cutoff scores (up_to cutoff score)
up_to-AreDue cutoff scores none h = tt
up_to-AreDue cutoff scores (some n) h = elim (Bool-cases (leb n cutoff)) [
  | inl due ↦ rw (due, h) (ground arith, tt)
  | inr later ↦ rw later tt
]

abbrev pub store : Redis
store = record {
  State = Db ℕ;
  Time = ℕ;
  AtMost = λ a b. a ≤ b;
  view = λ db. db;
  xadd = λ key event db. (finished "7-0", push_event key event db);
  xread = λ key cursor n ms db. (finished [], db);
  expire = λ key n db. (finished tt, db);
  hset = λ key fields db. (finished tt, put_fields key fields db);
  hget = λ key f db. (finished (db.hashes key f), db);
  zadd = λ key member t db. (finished tt, put_score key member (some t) db);
  zrem = λ key member db. (finished tt, put_score key member none db);
  zrangebyscore = λ key t db. (finished (up_to t (db.scores key "t1")), db);
  set_nx = λ key n db. set_if_free key (db.claims key) db;
  delete = λ key db. (finished tt, put_claim key false db);
  xadd-Writes = λ k e s. refl;
  expire-Writes = λ k n s. refl;
  hset-Writes = λ k fs s. refl;
  hget-Reads = λ k f s. (refl, refl);
  zadd-Writes = λ k m t s. refl;
  zrem-Writes = λ k m s. refl;
  zrangebyscore-Reads = λ k t s. (refl, up_to-AreDue t (s.scores k) (s.scores k "t1") refl);
  set_nx-Claims = λ k n s. set_if_free-Claims k (s.claims k) s refl;
  delete-Writes = λ k s. refl;
}

pub store-Answers : Answers store
store-Answers = record {
  xadd_answers = λ k e s. tt;
  expire_answers = λ k n s. tt;
  hset_answers = λ k fs s. tt;
  hget_answers = λ k f s. tt;
  zrem_answers = λ k m s. tt;
}

set_answers-store :
    (key : String) (taken : Bool) (db : Db ℕ) → IsAnswer (set_if_free key taken db).0
set_answers-store key true db = tt
set_answers-store key false db = tt

pub store-AnswersClaims : AnswersClaims store
store-AnswersClaims = record {
  set_answers = λ k n s. set_answers-store k (s.claims k) s;
  delete_answers = λ k s. tt;
}
