-- ===== src/Runner/Numbering.antt =====
-- The numbers on a task's stream, from its start event to its terminal events.
use mathlib.Core.Path.{subst}
use agentue.Prelude.{
  ℕ, ◌+◌, ◌≤◌, ◌<◌, ◌≡◌, refl, sym, ap, ◌∙◌, Bool, true, false, Option, none, some, List, [], ◌∷◌,
  ◌++◌, arith, if◌then◌else◌,
}
use agentue.Json.{Fields, field, empty, obj, get}
use agentue.Result.{err-ne-ok, Result, ok, err, ◌>>=◌, >>=-eq-ok, ok-injective}
use agentue.Event.{
  PatchOp, PatchEvent, Pydantic, to_json, model_validate, construct, validate_operation,
  check_operation,
}
use agentue.Event.Valid.{construct-valid, construct-same}
use agentue.Event.Wire.{model_validate-to_json}
use agentue.Emitter.{emit, start, error, end, advance, tagged, json_of, error_payload}
use agentue.Apply.{Outcome, done, raised, apply_event}
use agentue.Runner.{
  Entry, Publication, complete, interrupted, refused, Bridge, RunnerContext, published, publish,
  send, publish_applied, publish_start, Outgoing,
}
use agentue.Runner.Terminal.{Report, Finalized, publish_terminal, finalize}

-- the numbers rise, from above the first bound on, and stay within the second
abbrev pub Rising : ℕ → List Entry → ℕ → Type 0
Rising n [] bound = n ≤ bound
Rising n (x ∷ xs) bound = (n < x.seq) × Rising x.seq xs bound

Rising-concat :
    (n bound : ℕ) (xs : List Entry) (x : Entry)
    → Rising n xs bound
    → bound < x.seq
    → Rising n (xs ++ x ∷ []) x.seq
Rising-concat n bound [] x h above = (omega arith, omega arith)
Rising-concat n bound (y ∷ ys) x (h, hs) above = (h, Rising-concat y.seq bound ys x hs above)

Rising-weaken :
    (n bound more : ℕ) (xs : List Entry) → bound ≤ more → Rising n xs bound → Rising n xs more
Rising-weaken n bound more [] le h = omega arith
Rising-weaken n bound more (x ∷ xs) le (h, hs) = (h, Rising-weaken x.seq bound more xs le hs)

-- Rising numbers on the stream, none of them above the emitter's.
abbrev pub IsNumbered : RunnerContext → Type 0
IsNumbered context = Rising 0 context.stream context.emitter.offset

-- a publication of an event with the number that the emitter has reached
publish-IsNumbered :
    (context : RunnerContext) (before seq : ℕ) (json : Fields) (how : Publication)
    → Rising 0 context.stream before
    → before < seq
    → seq ≡ context.emitter.offset
    → IsNumbered (published context (record { seq = seq; json = json }) how).context
publish-IsNumbered context before seq json complete h above at =
    rw (← at) (Rising-concat 0 before context.stream (record { seq = seq; json = json }) h above)
publish-IsNumbered context before seq json interrupted h above at =
    rw (← at) (Rising-concat 0 before context.stream (record { seq = seq; json = json }) h above)
publish-IsNumbered context before seq json refused h above at =
    Rising-weaken 0 before context.emitter.offset context.stream (omega arith) h

json_of-inv :
    (r : Result PatchEvent) (json : Fields)
    → json_of r ≡ ok json
    → (e : PatchEvent) × (r ≡ ok e) × (json ≡ to_json e)
json_of-inv (ok e) json h = (e, refl, sym (ok-injective h))
json_of-inv (err x) json h = absurd (err-ne-ok h)

module _ (py : Pydantic) (bridge : Bridge) where
  publish_terminal-IsNumbered :
      (context : RunnerContext) (before : ℕ) (e : PatchEvent)
      → validate_operation e ≡ ok e
      → Rising 0 context.stream before
      → before < e.seq
      → e.seq ≡ context.emitter.offset
      → IsNumbered (publish_terminal py bridge context (to_json e)).context
  unfolding publish_terminal publish
  publish_terminal-IsNumbered context before e valid h above at =
      rw (model_validate-to_json py e valid)
        (publish-IsNumbered context before e.seq (to_json e) _ h above at)

  -- the emitter of the context at its next number
  abbrev advanced : RunnerContext → RunnerContext
  advanced context = record context { emitter = advance context.emitter }

  -- a terminal event, published at the next number
  next-IsNumbered :
      (context : RunnerContext) (e : PatchEvent)
      → validate_operation e ≡ ok e
      → e.seq ≡ context.emitter.offset + 1
      → IsNumbered context
      → IsNumbered (publish_terminal py bridge (advanced context) (to_json e)).context
  next-IsNumbered context e valid at h =
      publish_terminal-IsNumbered (advanced context) context.emitter.offset e valid h
        (omega (arith, at)) at

  abbrev ending : RunnerContext → PatchEvent
  ending context = tagged PatchOp.end (advance context.emitter)

  end-IsNumbered :
      (context : RunnerContext) (persisted : Bool)
      → IsNumbered context
      → IsNumbered
          (if persisted
            then publish_terminal py bridge (advanced context) (to_json (ending context))
            else record { persisted = false; context = advanced context }).context
  unfolding validate_operation check_operation
  end-IsNumbered context true h = next-IsNumbered context (ending context) refl refl h
  end-IsNumbered context false h =
      Rising-weaken 0 context.emitter.offset (context.emitter.offset + 1) context.stream
        (omega arith) h

  -- Finalizing gives its result, and keeps the numbers on the stream rising and none of them above
  -- the emitter's, however the bridge behaves.
  pub finalize-IsNumbered :
      (context : RunnerContext) (report : Option Report)
      → IsNumbered context
      → (f : Finalized) × (finalize py bridge context report ≡ ok f) × IsNumbered f.context
  unfolding finalize end error emit construct validate_operation check_operation get
  finalize-IsNumbered context none h = (_, refl, end-IsNumbered context true h)
  finalize-IsNumbered context (some report) h =
      let failed = record (tagged PatchOp.error (advance context.emitter)) {
        mask = some "meta.error";
        meta =
            some (field "error" (obj (error_payload report.code report.message none none)) empty);
      } in
      let sent = publish_terminal py bridge (advanced context) (to_json failed) in
      (
        _,
        refl,
        end-IsNumbered sent.context sent.persisted (next-IsNumbered context failed refl refl h),
      )

  applied-IsNumbered :
      (context : RunnerContext) (out : Outgoing) (o : Outcome)
      → out.event.seq ≡ context.emitter.offset + 1
      → IsNumbered context
      → IsNumbered (publish_applied bridge (advanced context) out o).context
  unfolding publish
  applied-IsNumbered context out (done s) at h =
      publish-IsNumbered (record (advanced context) { snapshot = s }) context.emitter.offset
        out.event.seq out.json _ h (omega (arith, at)) at
  applied-IsNumbered context out (raised x s) at h =
      Rising-weaken 0 context.emitter.offset (context.emitter.offset + 1) context.stream
        (omega arith) h

  send-IsNumbered :
      (context : RunnerContext) (r : Result Outgoing)
      → ((out : Outgoing) → r ≡ ok out → out.event.seq ≡ context.emitter.offset + 1)
      → IsNumbered context
      → IsNumbered (send bridge (advanced context) r).context
  send-IsNumbered context (ok out) at h =
      applied-IsNumbered context out (apply_event context.snapshot out.event) (at out refl) h
  send-IsNumbered context (err x) at h =
      Rising-weaken 0 context.emitter.offset (context.emitter.offset + 1) context.stream
        (omega arith) h

  abbrev pub outgoing_of : Fields → Result Outgoing
  outgoing_of json = model_validate py json >>= λ e. ok (record { event = e; json = json })

  -- an event that was built and read back is the event itself
  pub start_outgoing :
      (e : PatchEvent) (out : Outgoing)
      → (json_of (construct e) >>= outgoing_of) ≡ ok out
      → (out ≡ record { event = e; json = to_json e }) × (validate_operation e ≡ ok e)
  start_outgoing e out h =
      let (json, made, rest) = >>=-eq-ok (json_of (construct e)) outgoing_of h in
      let (built, good, text) = json_of-inv (construct e) json made in
      let (event, read, same) = >>=-eq-ok (model_validate py json) _ rest in
      let valid = construct-valid e built good in
      let as_built = construct-same e built good in
      let back : ok event ≡ ok built =
        sym read ∙ ap (model_validate py) text ∙ model_validate-to_json py built valid in
      let outgoing : PatchEvent → Fields → Outgoing = λ e json. record { event = e; json = json } in
      (
        sym (ok-injective same)
            ∙ ap (λ j. outgoing event j) text
            ∙ ap (λ e. outgoing e (to_json built)) (ok-injective back)
            ∙ ap (λ e. outgoing e (to_json e)) (sym as_built),
        subst (λ a. validate_operation a ≡ ok a) (sym as_built) valid,
      )

  abbrev pub tagged_start : RunnerContext → Fields → PatchEvent
  tagged_start context model = record (tagged PatchOp.start (advance context.emitter)) {
    model = some model;
  }

  -- Publishing the start event keeps the numbers on the stream rising and none of them above the
  -- emitter's, also if the model is refused or the bridge fails.
  pub publish_start-IsNumbered :
      (context : RunnerContext) (model : Fields)
      → IsNumbered context
      → IsNumbered (publish_start py bridge context model).context
  unfolding publish_start start emit
  publish_start-IsNumbered context model h =
      send-IsNumbered context _
        (λ out e.
          ap (λ (o : Outgoing). o.event.seq) (start_outgoing (tagged_start context model) out e).0)
        h
