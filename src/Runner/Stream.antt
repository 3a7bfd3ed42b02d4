-- ===== src/Runner/Stream.antt =====
-- What a run puts on the stream of its task, and what a reader of the stream makes of it.
use agentue.Prelude.{
  some-ne-none, append-nil, append_assoc, ℕ, ◌<◌, ◌≡◌, refl, sym, ap, ◌∙◌, not, none, some, List,
  [], ◌∷◌, ◌++◌, map, leb, arith, ◌⊎◌, inl, inr, All,
}
use mathlib.Core.Path.{subst}
use agentue.Json.{Fields}
use agentue.Result.{
  Result-cases, ok, Error, raise_if, stream_op, stream_seq, >>=-eq-ok, raise_if-eq-ok, raise_if-ok,
  ok-injective,
}
use agentue.Event.{PatchEvent, Pydantic, to_json, validate_operation}
use agentue.Apply.{
  Outcome, done, raised, PatchInput, mapping, coerce_event, apply_event, apply_patch, apply_patches,
}
use agentue.Apply.Replay.{IsAccepted, coerce_event-valid, apply_patch-to_json}
use agentue.Runner.Failures.{Failure, patch_failure, bridge_failure}
use agentue.Runner.{
  Entry, Publication, complete, interrupted, refused, Bridge, RunnerContext, patch_failure, Ran,
  published, publish, is_patch, check_stream, Outgoing, Ending, returned, raised_error, outgoing,
  deliver, go_on, unless, run_business,
}

-- the numbers of the entries rise, from above the given one on
abbrev pub Increasing : ℕ → List Entry → Type 0
Increasing n [] = Unit
Increasing n (x ∷ xs) = (n < x.seq) × Increasing x.seq xs

-- the entries as a reader takes them
abbrev pub received : List Entry → List PatchInput
received xs = map (λ x. mapping x.json) xs

Outcome-cases :
    (o : Outcome) → ((s : Fields) × (o ≡ done s)) ⊎ ((x : Error) × (s : Fields) × (o ≡ raised x s))
Outcome-cases (done s) = inl (s, refl)
Outcome-cases (raised x s) = inr (x, s, refl)

module _ (py : Pydantic) where
  -- What a phase added to the stream.
  pub record Run (context : RunnerContext) (r : Ran) : Type 0 where
    pub new : List Entry
    pub stream : r.context.stream ≡ context.stream ++ new
    pub increasing : Increasing context.published_seq new
    pub replay :
        r.failure ≡ none
        → apply_patches py context.snapshot (received new) ≡ done r.context.snapshot

  -- an event that went out, and the number that the runner has then
  record Sent (context : RunnerContext) (r : Ran) : Type 0 where
    entry : Entry
    stream : r.context.stream ≡ context.stream ++ entry ∷ []
    above : context.published_seq < entry.seq
    at : r.context.published_seq ≡ entry.seq
    applied : apply_patch py context.snapshot (mapping entry.json) ≡ done r.context.snapshot

  abbrev Step : RunnerContext → Ran → Type 0
  Step context r =
      ((r.failure ≡ none) × Sent context r) ⊎ ((f : Failure) × (r.failure ≡ some f) × Run context r)

  -- What an iteration has checked of the event that it sends.
  record IsChecked (n : ℕ) (out : Outgoing) : Type 0 where
    above : n < out.event.seq
    json : out.json ≡ to_json out.event
    valid : validate_operation out.event ≡ ok out.event

  nothing_new :
      (context : RunnerContext) (r : Ran) {f : Failure}
      → r.context.stream ≡ context.stream
      → r.failure ≡ some f
      → Run context r
  nothing_new context r same failed = record {
    new = [];
    stream = same ∙ sym (append-nil context.stream);
    increasing = tt;
    replay = λ e. absurd (some-ne-none _ (sym failed ∙ e));
  }

  raise_if-above : (n k : ℕ) (u : Unit {0}) → raise_if (leb k n) stream_seq ≡ ok u → n < k
  raise_if-above n k u h = let above = raise_if-ok (leb k n) stream_seq u h in ground arith

  check_stream-above : (n : ℕ) (e : PatchEvent) (u : Unit {0}) → check_stream n e ≡ ok u → n < e.seq
  unfolding check_stream
  check_stream-above n e u h =
      let (patch_op, rest) =
        raise_if-eq-ok (not (is_patch e.op)) stream_op (raise_if (leb e.seq n) stream_seq) h in
      raise_if-above n e.seq u rest

  outgoing-IsChecked :
      (n : ℕ) (patch : PatchInput) (out : Outgoing)
      → IsAccepted patch
      → outgoing py n patch ≡ ok out
      → IsChecked n out
  unfolding outgoing
  outgoing-IsChecked n patch out v h =
      let (e, read, rest) = >>=-eq-ok (coerce_event py patch) _ h in
      let (u, checked, same) = >>=-eq-ok (check_stream n e) _ rest in
      rw (← ok-injective same) (record {
        above = check_stream-above n e u checked;
        json = refl;
        valid = coerce_event-valid py patch e v read;
      })

  applied-json :
      (s s' : Fields) (n : ℕ) (out : Outgoing)
      → IsChecked n out
      → apply_event s out.event ≡ done s'
      → apply_patch py s (mapping out.json) ≡ done s'
  applied-json s s' n out c h =
      ap (λ json. apply_patch py s (mapping json)) c.json
      ∙ apply_patch-to_json py s out.event c.valid
      ∙ h

  published-Step :
      (context : RunnerContext) (out : Outgoing) (s : Fields) (how : Publication)
      → IsChecked context.published_seq out
      → apply_event context.snapshot out.event ≡ done s
      → Step context (
          published
            (record context { snapshot = s })
            (record { seq = out.event.seq; json = out.json })
            how)
  published-Step context out s complete c h =
      let applied = applied-json context.snapshot s context.published_seq out c h in
      inl (
        refl,
        record {
          entry = record { seq = out.event.seq; json = out.json };
          stream = refl;
          above = c.above;
          at = refl;
          applied = applied;
        },
      )
  published-Step context out s interrupted c h = inr (
    bridge_failure,
    refl,
    record {
      new = record { seq = out.event.seq; json = out.json } ∷ [];
      stream = refl;
      increasing = (c.above, tt);
      replay = λ e. absurd (some-ne-none _ e);
    },
  )
  published-Step context out s refused c h =
      inr (bridge_failure, refl, nothing_new context _ refl refl)

  deliver-Step :
      (bridge : Bridge) (context : RunnerContext) (patch : PatchInput)
      → IsAccepted patch
      → Step context (deliver py bridge context patch)
  unfolding deliver publish
  deliver-Step bridge context patch v =
      elim (Result-cases (outgoing py context.published_seq patch)) [
        | inl (x, bad) ↦ rw bad (inr (patch_failure x, refl, nothing_new context _ refl refl))
        | inr (out, good) ↦
            let c = outgoing-IsChecked context.published_seq patch out v good in
            rw good (elim (Outcome-cases (apply_event context.snapshot out.event)) [
              | inl (s, fine) ↦ rw fine (published-Step context out s _ c fine)
              | inr (x, s, bad) ↦
                  rw bad (inr (patch_failure x, refl, nothing_new context _ refl refl))
            ])
      ]

  -- the rest of a run, after an event that went out
  Sent-Run :
      (context : RunnerContext) (step last : Ran)
      → Sent context step
      → Run step.context last
      → Run context last
  unfolding apply_patches
  Sent-Run context step last sent rest = record {
    new = sent.entry ∷ rest.new;
    stream =
        rest.stream
        ∙ ap (λ l. l ++ rest.new) sent.stream
        ∙ append_assoc context.stream (sent.entry ∷ []) rest.new;
    increasing = (sent.above, subst (λ n. Increasing n rest.new) sent.at rest.increasing);
    replay = λ e. rw sent.applied (rest.replay e);
  }

  go_on-Run :
      (bridge : Bridge) (context : RunnerContext) (step : Ran) (next : RunnerContext → Ran)
      → Step context step
      → Run step.context (next step.context)
      → Run context (go_on py bridge step next)
  go_on-Run bridge context step next (inl (fine, sent)) rest =
      rw fine (Sent-Run context step (next step.context) sent rest)
  go_on-Run bridge context step next (inr (f, failed, run)) rest =
      subst (λ o. Run context (unless py bridge o step (next step.context))) (sym failed) run

  -- Whatever the stream callback yields, and however it ends, the entries that a run of the business
  -- phase adds to the stream have numbers that rise from above the last published one. If the phase
  -- ends without a failure, a reader that replays these entries on the snapshot of before has the
  -- runner's snapshot. Instances that the callback yields have passed their validator.
  pub run_business-Run :
      (bridge : Bridge) (context : RunnerContext) (patches : List PatchInput) (ending : Ending)
      → All IsAccepted patches
      → Run context (run_business py bridge context patches ending)
  unfolding run_business apply_patches
  run_business-Run bridge context [] returned v = record {
    new = [];
    stream = sym (append-nil context.stream);
    increasing = tt;
    replay = λ e. refl;
  }
  run_business-Run bridge context [] raised_error v = nothing_new context _ refl refl
  run_business-Run bridge context (p ∷ ps) ending v =
      let next = deliver py bridge context p in
      go_on-Run bridge context next (λ c. run_business py bridge c ps ending)
        (deliver-Step bridge context p v.0) (run_business-Run bridge next.context ps ending v.1)
