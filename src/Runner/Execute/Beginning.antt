-- ===== src/Runner/Execute/Beginning.antt =====
-- `_publish_start` of runner/runner.py: its event, as a reader of the stream applies it.
use mathlib.Core.Path.{subst}
use agentue.Prelude.{
  some-ne-none, some-injective, ◌≡◌, ◌≢◌, refl, sym, ap, ◌∙◌, Option, none, some, [], ◌∷◌, ◌++◌,
}
use agentue.Json.{Fields}
use agentue.Result.{Result, ok, err, ◌>>=◌}
use agentue.Event.{PatchOp, PatchEvent, Pydantic, to_json, validate_operation, construct}
use agentue.Apply.{
  Outcome, done, raised, PatchInput, mapping, apply_event, apply_patch, apply_patches,
}
use agentue.Apply.Replay.{apply_patch-to_json}
use agentue.Apply.WellFormed.Preserved.{start-restarts}
use agentue.Emitter.{start, emit, advance, json_of}
use agentue.Runner.Failures.{Failure}
use agentue.Runner.{
  Publication, complete, interrupted, refused, Bridge, RunnerContext, Ran, Outgoing, published,
  publish, publish_applied, send, publish_start,
}
use agentue.Runner.Stream.{received}
use agentue.Runner.Numbering.{outgoing_of, tagged_start, start_outgoing}
use agentue.Runner.Errors.{Exception}
use agentue.Runner.Execute.{given_up, give_up, retry, executing, started, begin}

module _ (bridge : Bridge) where
  -- what went out without a failure
  record WentOut (context : RunnerContext) (out : Outgoing) (ran : Ran) : Type 0 where
    applied : apply_event context.snapshot out.event ≡ done ran.context.snapshot
    stream :
        ran.context.stream ≡ context.stream ++ record { seq = out.event.seq; json = out.json } ∷ []

  published-WentOut :
      (context : RunnerContext) (out : Outgoing) (s : Fields) (how : Publication)
      → apply_event context.snapshot out.event ≡ done s
      → let ran =
          published
            (record context { snapshot = s })
            (record { seq = out.event.seq; json = out.json })
            how in
        ran.failure ≡ none → WentOut context out ran
  published-WentOut context out s complete h fine = record { applied = h; stream = refl }
  published-WentOut context out s interrupted h fine = absurd (some-ne-none _ fine)
  published-WentOut context out s refused h fine = absurd (some-ne-none _ fine)

  applied-WentOut :
      (context : RunnerContext) (out : Outgoing) (o : Outcome)
      → apply_event context.snapshot out.event ≡ o
      → (publish_applied bridge context out o).failure ≡ none
      → WentOut context out (publish_applied bridge context out o)
  unfolding publish
  applied-WentOut context out (done s) h fine = published-WentOut context out s _ h fine
  applied-WentOut context out (raised x s) h fine = absurd (some-ne-none _ fine)

  send-WentOut :
      (context : RunnerContext) (r : Result Outgoing)
      → (send bridge context r).failure ≡ none
      → (out : Outgoing) × (r ≡ ok out) × WentOut context out (send bridge context r)
  send-WentOut context (ok out) fine =
      (out, refl, applied-WentOut context out (apply_event context.snapshot out.event) refl fine)
  send-WentOut context (err x) fine = absurd (some-ne-none _ fine)

module _ (py : Pydantic) where
  pub replay_one :
      (base s : Fields) (p : PatchInput)
      → apply_patch py base p ≡ done s
      → apply_patches py base (p ∷ []) ≡ done s
  unfolding apply_patches
  replay_one base s p h = rw h refl

  pub replay_two :
      (base s s' : Fields) (p q : PatchInput)
      → apply_patch py base p ≡ done s
      → apply_patch py s q ≡ done s'
      → apply_patches py base (p ∷ q ∷ []) ≡ done s'
  unfolding apply_patches
  replay_two base s s' p q h k = rw (h, k) refl

  -- a start event has the same effect on any snapshot
  start_anywhere :
      (base s s' : Fields) (e : PatchEvent)
      → e.op ≡ PatchOp.start
      → validate_operation e ≡ ok e
      → apply_event s e ≡ done s'
      → apply_event base e ≡ done s'
  start_anywhere base s s' e op valid h =
      let (model, there, applied, _) = start-restarts base e op valid in
      let (other, here, again, _) = start-restarts s e op valid in
      applied ∙ ap done (some-injective _ _ (sym there ∙ here)) ∙ sym again ∙ h

  module _ (bridge : Bridge) where
    started-replays :
        (context : RunnerContext) (base : Fields) (e : PatchEvent) (out : Outgoing) (ran : Ran)
        → context.stream ≡ []
        → e.op ≡ PatchOp.start
        → validate_operation e ≡ ok e
        → out ≡ record { event = e; json = to_json e }
        → WentOut bridge context out ran
        → apply_patches py base (received ran.context.stream) ≡ done ran.context.snapshot
    started-replays context base e out ran fresh op valid same went =
        let only : ran.context.stream ≡ record { seq = out.event.seq; json = out.json } ∷ [] =
          went.stream ∙ ap (λ l. l ++ record { seq = out.event.seq; json = out.json } ∷ []) fresh in
        let applied : apply_event context.snapshot e ≡ done ran.context.snapshot =
          ap (λ (o : Outgoing). apply_event context.snapshot o.event) (sym same) ∙ went.applied in
        ap (λ xs. apply_patches py base (received xs)) only
        ∙ ap (λ (o : Outgoing). apply_patches py base (mapping o.json ∷ [])) same
        ∙ replay_one base ran.context.snapshot (mapping (to_json e)) (
            apply_patch-to_json py base e valid
            ∙ start_anywhere base context.snapshot ran.context.snapshot e op valid applied)

    -- a start event that went out, read on any snapshot
    publish_start-replays :
        (context : RunnerContext) (model base : Fields)
        → context.stream ≡ []
        → (publish_start py bridge context model).failure ≡ none
        → apply_patches py base (received (publish_start py bridge context model).context.stream)
          ≡ done (publish_start py bridge context model).context.snapshot
    unfolding publish_start start emit
    publish_start-replays context model base fresh fine =
        let next = record context { emitter = advance context.emitter } in
        let e = tagged_start py bridge context model in
        let (out, made, went) =
          send-WentOut bridge next (json_of (construct e) >>= outgoing_of py bridge) fine in
        let (same, valid) = start_outgoing py bridge e out made in
        started-replays next base e out (publish_start py bridge context model) fresh refl valid
          same went

    given_up-ne-executing :
        (describe : Failure → Exception) (context context' : RunnerContext) (x : Exception)
        (completion_error y : Option Exception)
        → given_up py bridge context x completion_error y ≢ executing context'
    given_up-ne-executing describe context context' x c (some y) h = cc h
    given_up-ne-executing describe context context' x c none h = cc h

    give_up-ne-executing :
        (model : Fields) (describe : Failure → Exception) (context context' : RunnerContext)
        (x : Exception) (completion_error : Option Exception)
        → give_up py bridge context model describe x completion_error ≢ executing context'
    unfolding give_up
    give_up-ne-executing model describe context context' x c h =
        given_up-ne-executing describe (retry py bridge context model).context context' x c _ h

    pub started-executing :
        (model : Fields) (describe : Failure → Exception) (completion_error : Option Exception)
        (context context' : RunnerContext) (failure : Option Failure)
        → started py bridge model describe completion_error context failure ≡ executing context'
        → (context ≡ context') × (failure ≡ none)
    started-executing model describe c context context' none h = (cc h, refl)
    started-executing model describe c context context' (some f) h =
        absurd (give_up-ne-executing model describe context context' (describe f) c h)

    -- what a reader makes of the start of a run
    pub begin-replays :
        (context context' : RunnerContext) (model base : Fields) (describe : Failure → Exception)
        (raised completion_error : Option Exception)
        → context.stream ≡ []
        → begin py bridge context model describe raised completion_error ≡ executing context'
        → apply_patches py base (received context'.stream) ≡ done context'.snapshot
    unfolding begin
    begin-replays context context' model base describe (some x) c fresh h =
        absurd (give_up-ne-executing model describe context context' x c h)
    begin-replays context context' model base describe none c fresh h =
        let ran = publish_start py bridge context model in
        let (same, fine) = started-executing model describe c ran.context context' ran.failure h in
        subst (λ (k : RunnerContext). apply_patches py base (received k.stream) ≡ done k.snapshot)
          same (publish_start-replays context model base fresh fine)
