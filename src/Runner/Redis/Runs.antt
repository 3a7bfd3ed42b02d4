-- ===== src/Runner/Redis/Runs.antt =====
-- Proof rules for actions on a database: what an action keeps, also when it raises, and what it ends
-- with when its commands answer.
use mathlib.Core.Path.{subst}
use agentue.Runner.Failures.{Failure}
use agentue.Prelude.{
  String, true≢false, if-either, ◌≡◌, refl, sym, ap, ◌∙◌, Bool, true, false, inl, inr,
  if◌then◌else◌,
}
use agentue.Result.{Result, ok, err}
use agentue.Runner.Redis.{
  logged, logged_end, Ended, finished, stopped, Io, after, ◌>>=◌, ◌>>◌, pure, lift, closed_by,
  finally, Db, Writes, Reads, Claims, put_claim,
}

module _ {S Time : Type 0} (view : S → Db Time) (Q : Db Time → Type 0) where
  -- The action keeps a property of the database, whether it answers or raises.
  pub record Keeps {A : Type 0} (c : Io S A) : Type 0 where
    pub holds : (s : S) → Q (view s) → Q (view (c s).1)

  after-Keeps :
      {A B : Type 0} (r : Ended A × S) (f : A → Io S B)
      → ((a : A) → Keeps (f a))
      → Q (view r.1)
      → Q (view (after r f).1)
  after-Keeps (finished a, s) f keep q = (keep a).holds s q
  after-Keeps (stopped x, s) f keep q = q

  pub Keeps->>= :
      {A B : Type 0} {c : Io S A} {f : A → Io S B}
      → Keeps c
      → ((a : A) → Keeps (f a))
      → Keeps (c >>= f)
  unfolding ◌>>=◌
  Keeps->>= {c = c} {f = f} first next = record {
    holds = λ s q. after-Keeps (c s) f next (first.holds s q);
  }

  pub Keeps->> :
      {B : Type 0} {c : Io S (Unit {0})} {d : Io S B} → Keeps c → Keeps d → Keeps (c >> d)
  unfolding ◌>>◌
  Keeps->> {c = c} {d = d} first next = record {
    holds = λ s q. after-Keeps (c s) (λ _. d) (λ _. next) (first.holds s q);
  }

  pub Keeps-pure : {A : Type 0} (a : A) → Keeps (pure a)
  unfolding pure
  Keeps-pure a = record { holds = λ s q. q }

  pub Keeps-lift : {A : Type 0} (r : Result A) → Keeps (lift r)
  unfolding lift
  Keeps-lift (ok a) = record { holds = λ s q. q }
  Keeps-lift (err x) = record { holds = λ s q. q }

  pub Keeps-if :
      {A : Type 0} (b : Bool) {c d : Io S A} → Keeps c → Keeps d → Keeps (if b then c else d)
  Keeps-if true kc kd = kc
  Keeps-if false kc kd = kd

  logged_end-Keeps :
      {A : Type 0} (passes : Failure → Bool) (r : Ended A × S)
      → Q (view r.1)
      → Q (view (logged_end passes r).1)
  logged_end-Keeps passes (finished a, s) q = q
  logged_end-Keeps passes (stopped x, s) q =
      if-either (λ (r : Ended (Unit {0}) × S). Q (view r.1)) (passes x) (stopped x, s)
        (finished tt, s) q q

  pub Keeps-logged :
      {A : Type 0} (passes : Failure → Bool) {c : Io S A} → Keeps c → Keeps (logged passes c)
  unfolding logged
  Keeps-logged passes {c = c} kc = record {
    holds = λ s q. logged_end-Keeps passes (c s) (kc.holds s q);
  }

  closed_by-Keeps :
      {A : Type 0} (result : Ended A) (r : Ended (Unit {0}) × S)
      → Q (view r.1)
      → Q (view (closed_by result r).1)
  closed_by-Keeps result (finished u, s) q = q
  closed_by-Keeps result (stopped x, s) q = q

  pub Keeps-finally :
      {A : Type 0} {c : Io S A} {close : Io S (Unit {0})}
      → Keeps c
      → Keeps close
      → Keeps (finally c close)
  unfolding finally
  Keeps-finally {c = c} {close = close} kc kd = record {
    holds = λ s q. closed_by-Keeps (c s).0 (close (c s).1) (kd.holds (c s).1 (kc.holds s q));
  }

  pub Writes-Keeps :
      {A : Type 0} (effect : Db Time → Db Time) (s : S) (r : Ended A × S)
      → Writes view effect s r
      → (Q (view s) → Q (effect (view s)))
      → Q (view s)
      → Q (view r.1)
  Writes-Keeps effect s (finished a, s') e keep q = subst Q (sym e) (keep q)
  Writes-Keeps effect s (stopped x, s') (inl e) keep q = subst Q (sym e) q
  Writes-Keeps effect s (stopped x, s') (inr e) keep q = subst Q (sym e) (keep q)

  pub Reads-Keeps :
      {A : Type 0} (Right : Db Time → A → Type 0) (s : S) (r : Ended A × S)
      → Reads view Right s r
      → Q (view s)
      → Q (view r.1)
  Reads-Keeps Right s (finished a, s') (e, right) q = subst Q (sym e) q
  Reads-Keeps Right s (stopped x, s') e q = subst Q (sym e) q

-- the command did not raise
abbrev pub IsAnswer : {A : Type 0} → Ended A → Type 0
IsAnswer (finished a) = Unit
IsAnswer (stopped x) = ⊥

-- the action answers with the value, and leaves the database as given
abbrev pub Returns : {S A Time : Type 0} → (S → Db Time) → Ended A × S → A → Db Time → Type 0
Returns {S = S} view r a db = (s' : S) × (r ≡ (finished a, s')) × (view s' ≡ db)

module _ {S Time : Type 0} (view : S → Db Time) where
  pub Returns->>= :
      {A B : Type 0} (c : Io S A) (f : A → Io S B) (s : S) {a : A} {db db' : Db Time} {b : B}
      → Returns view (c s) a db
      → ((s' : S) → view s' ≡ db → Returns view (f a s') b db')
      → Returns view ((c >>= f) s) b db'
  unfolding ◌>>=◌
  Returns->>= c f s (s₁, e, v) next =
      let (s₂, e', v') = next s₁ v in (s₂, ap (λ r. after r f) e ∙ e', v')

  pub Returns->> :
      {B : Type 0} (c : Io S (Unit {0})) (d : Io S B) (s : S) {u : Unit {0}} {db db' : Db Time}
      {b : B}
      → Returns view (c s) u db
      → ((s' : S) → view s' ≡ db → Returns view (d s') b db')
      → Returns view ((c >> d) s) b db'
  unfolding ◌>>◌
  Returns->> c d s (s₁, e, v) next =
      let (s₂, e', v') = next s₁ v in (s₂, ap (λ r. after r (λ _. d)) e ∙ e', v')

  pub Returns-pure :
      {A : Type 0} (a : A) (s : S) {db : Db Time} → view s ≡ db → Returns view (pure a s) a db
  unfolding pure
  Returns-pure a s v = (s, refl, v)

  pub Returns-lift :
      {A : Type 0} (r : Result A) (s : S) {a : A} {db : Db Time}
      → r ≡ ok a
      → view s ≡ db
      → Returns view (lift r s) a db
  unfolding lift
  Returns-lift r s e v = (s, ap (λ r. lift r s) e, v)

  pub Writes-Returns :
      {A : Type 0} (effect : Db Time → Db Time) (s : S) (r : Ended A × S) {db : Db Time}
      → Writes view effect s r
      → IsAnswer r.0
      → view s ≡ db
      → (a : A) × Returns view r a (effect db)
  Writes-Returns effect s (finished a, s') e answer v = (a, (s', refl, e ∙ ap effect v))
  Writes-Returns effect s (stopped x, s') e answer v = absurd answer

  pub Reads-Returns :
      {A : Type 0} (f : Db Time → A) (s : S) (r : Ended A × S) {db : Db Time}
      → Reads view (λ db a. a ≡ f db) s r
      → IsAnswer r.0
      → view s ≡ db
      → Returns view r (f db) db
  Reads-Returns f s (finished a, s') (e, right) answer v =
      (s', ap (λ a. (finished a, s')) (right ∙ ap f v), e ∙ v)
  Reads-Returns f s (stopped x, s') e answer v = absurd answer

  pub Returns-finally :
      {A : Type 0} (c : Io S A) (close : Io S (Unit {0})) (s : S) {a : A} {db db' : Db Time}
      → Returns view (c s) a db
      → ((s' : S) → view s' ≡ db → Returns view (close s') tt db')
      → Returns view (finally c close s) a db'
  unfolding finally
  Returns-finally c close s {a = a} (s₁, e, v) next =
      let (s₂, e', v') = next s₁ v in
      (s₂, ap (λ r. closed_by r.0 (close r.1)) e ∙ ap (closed_by (finished a)) e', v')

  pub Claims-Returns :
      (key : String) (s : S) (r : Ended Bool × S) {db : Db Time}
      → Claims view key s r
      → IsAnswer r.0
      → view s ≡ db
      → db.claims key ≡ false
      → Returns view r true (put_claim key true db)
  Claims-Returns key s (finished true, s') (free, e) answer v f =
      (s', refl, e ∙ ap (put_claim key true) v)
  Claims-Returns key s (finished false, s') (held, e) answer v f =
      absurd (true≢false (sym held ∙ ap (λ (d : Db Time). d.claims key) v ∙ f))
  Claims-Returns key s (stopped x, s') e answer v f = absurd answer

pub stopped-ne-finished :
    {A : Type 0} {x : Failure} {a : A} → Path (Ended A) (stopped x) (finished a) → ⊥
stopped-ne-finished h = cc h

-- an action that answered has come past its first part
pub after-eq-finished :
    {S A B : Type 0} (r : Ended A × S) (f : A → Io S B) {b : B} {s' : S}
    → after r f ≡ (finished b, s')
    → (a : A) × (s : S) × (r ≡ (finished a, s)) × (f a s ≡ (finished b, s'))
after-eq-finished (finished a, s) f h = (a, s, refl, h)
after-eq-finished (stopped x, s) f h = absurd (stopped-ne-finished (ap (λ r. r.0) h))
