-- ===== src/Runner/Redis.antt =====
-- The Redis client that runner/redis_bridge.py calls, as an interface: its commands, what they say of
-- the database, and nothing of how they work. A command either answers or raises; one that raises has
-- taken effect or not.
pub mod Runs
use agentue.Prelude.{
  All, ℕ, String, ◌≡◌, ◌⊎◌, Bool, true, false, Option, none, some, List, [], ◌∷◌, ◌++◌, str_eq,
  if◌then◌else◌,
}
use agentue.Json.{ℤ, Fields}
use agentue.Result.{Result, ok, err}
use agentue.Runner.Failures.{Failure, patch_failure}

-- what a command, or a method that issues commands, ends with
pub data Ended (A : Type 0) : Type 0 where
  finished : A → Ended A
  stopped : Failure → Ended A

-- an action on a database in some state
abbrev pub Io : Type 0 → Type 0 → Type 0
Io S A = S → Ended A × S

abbrev pub after : {S A B : Type 0} → Ended A × S → (A → Io S B) → Ended B × S
after (finished a, s) f = f a s
after (stopped x, s) f = (stopped x, s)

infixl 5 ◌>>=◌
unfoldable pub ◌>>=◌ : {S A B : Type 0} → Io S A → (A → Io S B) → Io S B
◌>>=◌ c f = λ s. after (c s) f

infixl 5 ◌>>◌
unfoldable pub ◌>>◌ : {S B : Type 0} → Io S (Unit {0}) → Io S B → Io S B
unfolding ◌>>=◌
◌>>◌ c d = c >>= λ _. d

unfoldable pub pure : {S A : Type 0} → A → Io S A
pure a = λ s. (finished a, s)

unfoldable pub raise : {S A : Type 0} → Failure → Io S A
raise x = λ s. (stopped x, s)

-- `try: … except Exception: log`, where some exceptions pass
abbrev pub logged_end : {S A : Type 0} → (Failure → Bool) → Ended A × S → Ended (Unit {0}) × S
logged_end passes (finished a, s) = (finished tt, s)
logged_end passes (stopped x, s) = if passes x then (stopped x, s) else (finished tt, s)

unfoldable pub logged : {S A : Type 0} → (Failure → Bool) → Io S A → Io S (Unit {0})
logged passes c = λ s. logged_end passes (c s)

-- a computation that may raise, among the commands
unfoldable pub lift : {S A : Type 0} → Result A → Io S A
lift (ok a) = λ s. (finished a, s)
lift (err x) = λ s. (stopped (patch_failure x), s)

-- `try: … finally: …`
abbrev pub closed_by : {S A : Type 0} → Ended A → Ended (Unit {0}) × S → Ended A × S
closed_by result (finished u, s) = (result, s)
closed_by result (stopped x, s) = (stopped x, s)

unfoldable pub finally : {S A : Type 0} → Io S A → Io S (Unit {0}) → Io S A
finally c close = λ s. closed_by (c s).0 (close (c s).1)

-- A value of a hash: a plain text, the decimal text of a number, or the JSON text of an object.
pub data Datum : Type 0 where
  plain : String → Datum
  decimal : ℕ → Datum
  document : Fields → Datum

-- What a reader may learn of a database: the events of each stream in order, the hashes, the sorted
-- sets with the time of each member, and whether a claim is set.
pub record Db (Time : Type 0) : Type 0 where
  pub streams : String → List Fields
  pub hashes : String → String → Option Datum
  pub scores : String → String → Option Time
  pub claims : String → Bool

-- a stream's message, which may lack the field `event`
pub record Message : Type 0 where
  pub id : String
  pub event : Option Fields

abbrev pub find_field : String → List (String × Datum) → Option Datum → Option Datum
find_field k [] otherwise = otherwise
find_field k ((j, v) ∷ rest) otherwise = if str_eq j k then some v else find_field k rest otherwise

module _ {Time : Type 0} where
  -- `XADD key event`
  unfoldable pub push_event : String → Fields → Db Time → Db Time
  push_event key event db = record db {
    streams = λ k. if str_eq key k then db.streams k ++ event ∷ [] else db.streams k;
  }

  -- `HSET key fields`
  unfoldable pub put_fields : String → List (String × Datum) → Db Time → Db Time
  put_fields key fields db = record db {
    hashes = λ k f. if str_eq key k then find_field f fields (db.hashes k f) else db.hashes k f;
  }

  -- `ZADD key member` and `ZREM key member`
  unfoldable pub put_score : String → String → Option Time → Db Time → Db Time
  put_score key member score db = record db {
    scores = λ k m.
        if str_eq key k then (if str_eq member m then score else db.scores k m) else db.scores k m;
  }

  -- a claim set or deleted
  unfoldable pub put_claim : String → Bool → Db Time → Db Time
  put_claim key set db = record db { claims = λ k. if str_eq key k then set else db.claims k }

module _ {S A Time : Type 0} (view : S → Db Time) (effect : Db Time → Db Time) (s : S) where
  -- A write: it takes effect if it answers, and perhaps if it raises.
  abbrev pub Writes : Ended A × S → Type 0
  Writes (finished a, s') = view s' ≡ effect (view s)
  Writes (stopped x, s') = (view s' ≡ view s) ⊎ (view s' ≡ effect (view s))

-- a read: it changes nothing, and answers as the database has it
abbrev pub Reads :
    {S A Time : Type 0} → (S → Db Time) → (Db Time → A → Type 0) → S → Ended A × S → Type 0
Reads view Right s (finished a, s') = (view s' ≡ view s) × Right (view s) a
Reads view Right s (stopped x, s') = view s' ≡ view s

-- the effect of `SET key NX`, which sets only what is not set
abbrev pub Claims : {S Time : Type 0} → (S → Db Time) → String → S → Ended Bool × S → Type 0
Claims view key s (finished true, s') =
    ((view s).claims key ≡ false) × (view s' ≡ put_claim key true (view s))
Claims view key s (finished false, s') = ((view s).claims key ≡ true) × (view s' ≡ view s)
Claims view key s (stopped x, s') = (view s' ≡ view s) ⊎ (view s' ≡ put_claim key true (view s))

-- a score that is at most the cutoff
abbrev pub IsDue : {Time : Type 0} → (Time → Time → Type 0) → Time → Option Time → Type 0
IsDue AtMost cutoff none = ⊥
IsDue AtMost cutoff (some score) = AtMost score cutoff

-- members of a sorted set with such scores
abbrev pub AreDue :
    {Time : Type 0} → (Time → Time → Type 0) → Time → (String → Option Time) → List String → Type 0
AreDue AtMost cutoff scores members = All (λ m. IsDue AtMost cutoff (scores m)) members

pub record Redis : Type 1 where
  pub State : Type 0
  pub Time : Type 0
  pub AtMost : Time → Time → Type 0
  pub view : State → Db Time
  pub xadd : String → Fields → Io State String
  pub xread : String → String → ℤ → ℤ → Io State (List Message)
  pub expire : String → ℤ → Io State (Unit {0})
  pub hset : String → List (String × Datum) → Io State (Unit {0})
  pub hget : String → String → Io State (Option Datum)
  pub zadd : String → String → Time → Io State (Unit {0})
  pub zrem : String → String → Io State (Unit {0})
  pub zrangebyscore : String → Time → Io State (List String)
  pub set_nx : String → ℤ → Io State Bool
  pub delete : String → Io State (Unit {0})
  -- What the commands do, as Redis documents them. Expiry takes effect later, in nobody's command.
  pub xadd-Writes :
      (k : String) (e : Fields) (s : State) → Writes view (push_event k e) s (xadd k e s)
  pub expire-Writes : (k : String) (n : ℤ) (s : State) → Writes view (λ db. db) s (expire k n s)
  pub hset-Writes :
      (k : String) (fs : List (String × Datum)) (s : State)
      → Writes view (put_fields k fs) s (hset k fs s)
  pub hget-Reads :
      (k f : String) (s : State) → Reads view (λ db v. v ≡ db.hashes k f) s (hget k f s)
  pub zadd-Writes :
      (k m : String) (t : Time) (s : State) → Writes view (put_score k m (some t)) s (zadd k m t s)
  pub zrem-Writes : (k m : String) (s : State) → Writes view (put_score k m none) s (zrem k m s)
  pub zrangebyscore-Reads :
      (k : String) (t : Time) (s : State)
      → Reads view (λ db ms. AreDue AtMost t (db.scores k) ms) s (zrangebyscore k t s)
  pub set_nx-Claims : (k : String) (n : ℤ) (s : State) → Claims view k s (set_nx k n s)
  pub delete-Writes : (k : String) (s : State) → Writes view (put_claim k false) s (delete k s)
