-- ===== src/Runner/Recovery/Claims.antt =====
-- Recovery claims: who holds one recovers the task, alone, and gives it back.
use text.Mathlib.TextLemmas.{append_cancel_left, append_cancel_right}
use mathlib.Core.Path.{subst}
use agentue.Prelude.{
  true≢false, ℕ, ◌+◌, String, ◌≡◌, ◌≢◌, refl, sym, ap, ◌∙◌, Bool, true, false, List, [], ◌∷◌,
  str_eq, str_eq-ne, eq_iff, eq_refl, inl, inr, String-cases, if◌then◌else◌,
}
use agentue.Json.{ℤ, Fields}
use agentue.Model.{UiModel}
use agentue.Runner.Options.{RunnerOptions}
use agentue.Runner.Redis.{
  Redis, Io, Ended, finished, stopped, Db, push_event, put_fields, put_score, put_claim, after,
  Claims, Writes, ◌>>=◌, pure, finally, closed_by,
}
use agentue.Runner.Redis.Runs.{Keeps, Keeps->>=, Keeps-pure, IsAnswer}
use agentue.Runner.EventBridge.{key_of, stream_key, claim_key, claim_recovery, release_recovery}
use agentue.Runner.Recovery.{recover_claimed, recover_expired, recover_all, recover_timeouts}
use agentue.Runner.Recovery.Keeps.{
  expired_task_ids-Keeps, recover_claimed-Keeps, recover_expired-Keeps,
}

-- tasks with different ids have different keys
pub key_of-ne :
    (o : RunnerOptions) (u t suffix : String) → u ≢ t → key_of o u suffix ≢ key_of o t suffix
key_of-ne o u t suffix h e = h (
    append_cancel_right u t suffix
      (append_cancel_left ":" _ _ (append_cancel_left o.key_prefix _ _ e)))

module _ {S Time : Type 0} (view : S → Db Time) (Q : Db Time → Type 0) where
  -- a claim that is held is refused
  held-Keeps :
      {A : Type 0} (key : String) (s : S) (r : Ended Bool × S) (c d : Io S A)
      → Claims view key s r
      → (view s).claims key ≡ true
      → Keeps view Q d
      → (Q (view s) → Q (put_claim key true (view s)))
      → Q (view s)
      → Q (view (after r (λ claimed. if claimed then c else d)).1)
  held-Keeps key s (finished true, s') c d (free, e) held kd keep q =
      absurd (true≢false (sym held ∙ free))
  held-Keeps key s (finished false, s') c d (taken, e) held kd keep q =
      kd.holds s' (subst Q (sym e) q)
  held-Keeps key s (stopped x, s') c d (inl e) held kd keep q = subst Q (sym e) q
  held-Keeps key s (stopped x, s') c d (inr e) held kd keep q = subst Q (sym e) (keep q)

module _ (redis : Redis) (o : RunnerOptions) (dump : UiModel → Fields) (t : String)
    (events : List Fields) where
  -- the task is claimed, and its stream holds these events
  abbrev IsHeld : (String → List Fields) → (String → Bool) → Type 0
  IsHeld streams claims = (claims (claim_key o t) ≡ true) × (streams (stream_key o t) ≡ events)

  abbrev Held : Db redis.Time → Type 0
  Held db = IsHeld db.streams db.claims

  put_claim-Held :
      (u : String) (b : Bool) (db : Db redis.Time)
      → u ≢ t
      → Held db
      → Held (put_claim (claim_key o u) b db)
  unfolding put_claim
  put_claim-Held u b db other (claimed, same) =
      (rw (str_eq-ne _ _ (key_of-ne o u t ":recovery-claim" other)) claimed, same)

  other_task : (u : String) → u ≢ t → Keeps redis.view Held (recover_expired redis o dump u)
  unfolding push_event put_fields put_score
  other_task u other =
      recover_expired-Keeps redis o dump Held u
        (record {
          pushed = λ e db (held, same).
              (held, rw (str_eq-ne _ _ (key_of-ne o u t ":events" other)) same);
          hashed = λ fs db q. q;
          scored = λ db q. q;
        })
        (λ set db q. put_claim-Held u set db other q)

  same_task : Keeps redis.view Held (recover_expired redis o dump t)
  unfolding recover_expired claim_recovery put_claim ◌>>=◌
  same_task = record {
    holds = λ s q.
        held-Keeps redis.view Held (claim_key o t) s _ _ _ (redis.set_nx-Claims _ _ s) q.0
          (Keeps-pure redis.view Held 0) (λ (claimed, same). (rw eq_refl refl, same)) q;
  }

  any_task : (u : String) → Keeps redis.view Held (recover_expired redis o dump u)
  any_task u = elim (String-cases u t) [
    | inl same ↦ rw same same_task
    | inr other ↦ other_task u other
  ]

  recover_all-Held :
      (task_ids : List String) (n : ℕ) → Keeps redis.view Held (recover_all redis o dump task_ids n)
  unfolding recover_all
  recover_all-Held [] n = Keeps-pure redis.view Held n
  recover_all-Held (u ∷ rest) n =
      Keeps->>= redis.view Held (any_task u) (λ more. recover_all-Held rest (n + more))

  -- While another instance holds the claim of a task, a scan for timeouts puts nothing on the stream
  -- of the task and leaves the claim, also if Redis commands raise in between.
  pub recover_timeouts-Held :
      (cutoff : redis.Time) (s : redis.State)
      → Held (redis.view s)
      → Held (redis.view (recover_timeouts redis o dump cutoff s).1)
  unfolding recover_timeouts
  recover_timeouts-Held cutoff s held =
      (Keeps->>= redis.view Held (expired_task_ids-Keeps redis o Held cutoff)
          (λ task_ids. recover_all-Held task_ids 0)).holds
        s held

if_given :
    (same b : Bool) {now : Bool}
    → now ≡ (if same then true else b)
    → (same ≡ true → b ≡ false)
    → (if same then false else now) ≡ b
if_given true b h free = sym (free refl)
if_given false b h free = h

-- The commands that set and delete claims answer; the others may raise.
pub record AnswersClaims (redis : Redis) : Type 0 where
  pub set_answers : (k : String) (n : ℤ) (s : redis.State) → IsAnswer (redis.set_nx k n s).0
  pub delete_answers : (k : String) (s : redis.State) → IsAnswer (redis.delete k s).0

module _ (redis : Redis) (answers : AnswersClaims redis) (o : RunnerOptions)
    (dump : UiModel → Fields) (k : String) where
  -- giving back a claim that was free before, after the recovery
  given_back :
      (key : String) (b : Bool) (result : Ended ℕ) (s : redis.State)
      (r : Ended (Unit {0}) × redis.State)
      → Writes redis.view (put_claim key false) s r
      → IsAnswer r.0
      → (redis.view s).claims k ≡ (if str_eq key k then true else b)
      → (str_eq key k ≡ true → b ≡ false)
      → (redis.view (closed_by result r).1).claims k ≡ b
  unfolding put_claim
  given_back key b result s (finished u, s') e answer now free =
      ap (λ (db : Db redis.Time). db.claims k) e ∙ if_given (str_eq key k) b now free
  given_back key b result s (stopped x, s') e answer now free = absurd answer

  scanned :
      (b : Bool) (u : String) (s : redis.State) (r : Ended Bool × redis.State)
      → Claims redis.view (claim_key o u) s r
      → IsAnswer r.0
      → (redis.view s).claims k ≡ b
      → (redis.view
            (after r (λ claimed.
              if claimed
              then finally (recover_claimed redis o dump u) (release_recovery redis o u)
              else pure 0)).1).claims
          k
        ≡ b
  unfolding put_claim finally release_recovery pure push_event put_fields put_score
  scanned b u s (finished true, s₁) (free, e) answer q =
      let key = claim_key o u in
      let now : (redis.view s₁).claims k ≡ (if str_eq key k then true else b) =
        ap (λ (db : Db redis.Time). db.claims k) e ∙ ap (λ c. if str_eq key k then true else c) q in
      let kept =
        (recover_claimed-Keeps redis o dump (λ db. db.claims k ≡ (if str_eq key k then true else b))
            u (record { pushed = λ e db h. h; hashed = λ fs db h. h; scored = λ db h. h })).holds
          s₁ now in
      let s₂ = (recover_claimed redis o dump u s₁).1 in
      given_back key b (recover_claimed redis o dump u s₁).0 s₂ (redis.delete key s₂)
        (redis.delete-Writes key s₂) (answers.delete_answers key s₂) kept
        (λ same. sym q ∙ ap (λ j. (redis.view s).claims j) (sym ((eq_iff key k).0 same)) ∙ free)
  scanned b u s (finished false, s₁) (held, e) answer q =
      ap (λ (db : Db redis.Time). db.claims k) e ∙ q
  scanned b u s (stopped x, s₁) c answer q = absurd answer

  expired-claims :
      (b : Bool) (u : String)
      → Keeps redis.view (λ db. db.claims k ≡ b) (recover_expired redis o dump u)
  unfolding recover_expired claim_recovery ◌>>=◌
  expired-claims b u = record {
    holds = λ s q.
        scanned b u s (redis.set_nx (claim_key o u) o.recovery_claim_ttl s)
          (redis.set_nx-Claims _ _ s) (answers.set_answers _ _ s) q;
  }

  recover_all-claims :
      (b : Bool) (task_ids : List String) (n : ℕ)
      → Keeps redis.view (λ db. db.claims k ≡ b) (recover_all redis o dump task_ids n)
  unfolding recover_all
  recover_all-claims b [] n = Keeps-pure redis.view _ n
  recover_all-claims b (u ∷ rest) n =
      Keeps->>= redis.view _ (expired-claims b u) (λ more. recover_all-claims b rest (n + more))

  -- A scan for timeouts leaves every claim as it was before, one of its own set and given back again
  -- included, also if the recovery of a task raises: as long as the commands on claims answer.
  pub recover_timeouts-claims :
      (cutoff : redis.Time) (s : redis.State)
      → (redis.view (recover_timeouts redis o dump cutoff s).1).claims k ≡ (redis.view s).claims k
  unfolding recover_timeouts
  recover_timeouts-claims cutoff s =
      let b = (redis.view s).claims k in
      (Keeps->>= redis.view (λ db. db.claims k ≡ b)
          (expired_task_ids-Keeps redis o (λ db. db.claims k ≡ b) cutoff)
          (λ task_ids. recover_all-claims b task_ids 0)).holds
        s refl
