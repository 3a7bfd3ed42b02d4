-- ===== src/Runner/Quiet.antt =====
-- `_run_business` and `_publish_start` of runner/runner.py: which operations their events have.
use mathlib.Core.Path.{subst}
use agentue.Prelude.{
  true≢false, ℕ, ◌≡◌, refl, sym, false, not, Option, none, some, List, [], ◌∷◌, leb, All,
  All-append,
}
use agentue.Json.{Fields, get}
use agentue.Result.{
  Result, ok, err, ok-injective, ◌>>=◌, >>=-eq-ok, raise_if, raise_if-eq-ok, stream_op, stream_seq,
}
use agentue.Event.{PatchOp, op_name, PatchEvent, Pydantic, construct, to_json, extract_patch_op}
use agentue.Apply.{Outcome, done, raised, PatchInput, coerce_event, apply_event}
use agentue.Runner.Failures.{Failure}
use agentue.Runner.Errors.{Exception}
use agentue.Runner.{
  Entry, Publication, complete, interrupted, refused, Bridge, RunnerContext, Ran, Outgoing, Ending,
  returned, raised_error, published, publish, publish_applied, send, publish_start, is_patch,
  check_stream, outgoing, deliver, unless, run_business,
}
use agentue.Emitter.{start, emit, advance, json_of}
use agentue.Runner.Numbering.{outgoing_of, tagged_start, start_outgoing}
use agentue.Runner.Execute.{executing, begin}
use agentue.Runner.Execute.Beginning.{started-executing}
use agentue.Runner.Live.{op_of_event, is_op}

-- an entry that tells a reader neither of an error nor of the end
abbrev pub IsQuiet : Entry → Type 0
IsQuiet x =
    (is_op "error" (op_of_event x.json) ≡ false) × (is_op "end" (op_of_event x.json) ≡ false)

abbrev pub AreQuiet : RunnerContext → Type 0
AreQuiet context = All IsQuiet context.stream

op_of_event-to_json : (e : PatchEvent) → op_of_event (to_json e) ≡ some (op_name e.op)
unfolding extract_patch_op to_json get
op_of_event-to_json e = refl

abbrev NamesQuiet : PatchOp → Type 0
NamesQuiet op =
    (is_op "error" (some (op_name op)) ≡ false) × (is_op "end" (some (op_name op)) ≡ false)

patch-NamesQuiet : (op : PatchOp) → not (is_patch op) ≡ false → NamesQuiet op
patch-NamesQuiet PatchOp.set h = (refl, refl)
patch-NamesQuiet PatchOp.append h = (refl, refl)
patch-NamesQuiet PatchOp.start h = absurd (true≢false h)
patch-NamesQuiet PatchOp.error h = absurd (true≢false h)
patch-NamesQuiet PatchOp.ping h = absurd (true≢false h)
patch-NamesQuiet PatchOp.end h = absurd (true≢false h)

to_json-IsQuiet :
    (e : PatchEvent) (out : Outgoing)
    → record { event = e; json = to_json e } ≡ out
    → NamesQuiet e.op
    → IsQuiet (record { seq = out.event.seq; json = out.json })
to_json-IsQuiet e out same q =
    subst (λ (o : Outgoing). IsQuiet (record { seq = o.event.seq; json = o.json })) same
      (rw (op_of_event-to_json e) q)

published-AreQuiet :
    (context : RunnerContext) (x : Entry) (how : Publication)
    → IsQuiet x
    → AreQuiet context
    → AreQuiet (published context x how).context
published-AreQuiet context x complete q h = All-append IsQuiet context.stream (x ∷ []) h (q, tt)
published-AreQuiet context x interrupted q h = All-append IsQuiet context.stream (x ∷ []) h (q, tt)
published-AreQuiet context x refused q h = h

applied-AreQuiet :
    (bridge : Bridge) (context : RunnerContext) (out : Outgoing) (o : Outcome)
    → IsQuiet (record { seq = out.event.seq; json = out.json })
    → AreQuiet context
    → AreQuiet (publish_applied bridge context out o).context
unfolding publish
applied-AreQuiet bridge context out (done s) q h =
    published-AreQuiet (record context { snapshot = s })
      (record { seq = out.event.seq; json = out.json }) _ q h
applied-AreQuiet bridge context out (raised x s) q h = h

send-AreQuiet :
    (bridge : Bridge) (context : RunnerContext) (r : Result Outgoing)
    → ((out : Outgoing) → r ≡ ok out → IsQuiet (record { seq = out.event.seq; json = out.json }))
    → AreQuiet context
    → AreQuiet (send bridge context r).context
send-AreQuiet bridge context (ok out) q h =
    applied-AreQuiet bridge context out (apply_event context.snapshot out.event) (q out refl) h
send-AreQuiet bridge context (err x) q h = h

module _ (py : Pydantic) (bridge : Bridge) where
  outgoing-IsQuiet :
      (n : ℕ) (patch : PatchInput) (out : Outgoing)
      → outgoing py n patch ≡ ok out
      → IsQuiet (record { seq = out.event.seq; json = out.json })
  unfolding outgoing check_stream
  outgoing-IsQuiet n patch out h =
      let (e, read, rest) = >>=-eq-ok (coerce_event py patch) _ h in
      let (u, checked, same) = >>=-eq-ok (check_stream n e) _ rest in
      let (patch_op, _) =
        raise_if-eq-ok (not (is_patch e.op)) stream_op (raise_if (leb e.seq n) stream_seq)
          checked in
      to_json-IsQuiet e out (ok-injective same) (patch-NamesQuiet e.op patch_op)

  go_on-AreQuiet :
      (ran : Ran) (failure : Option Failure) (next : RunnerContext → Ran)
      → AreQuiet ran.context
      → AreQuiet (next ran.context).context
      → AreQuiet (unless py bridge failure ran (next ran.context)).context
  go_on-AreQuiet ran none next h k = k
  go_on-AreQuiet ran (some f) next h k = h

  pub run_business-AreQuiet :
      (context : RunnerContext) (patches : List PatchInput) (ending : Ending)
      → AreQuiet context
      → AreQuiet (run_business py bridge context patches ending).context
  unfolding run_business deliver
  run_business-AreQuiet context [] returned h = h
  run_business-AreQuiet context [] raised_error h = h
  run_business-AreQuiet context (p ∷ ps) ending h =
      let ran = deliver py bridge context p in
      let sent =
        send-AreQuiet bridge context (outgoing py context.published_seq p)
          (outgoing-IsQuiet context.published_seq p) h in
      go_on-AreQuiet ran ran.failure (λ c. run_business py bridge c ps ending) sent
        (run_business-AreQuiet ran.context ps ending sent)

  publish_start-AreQuiet :
      (context : RunnerContext) (model : Fields)
      → AreQuiet context
      → AreQuiet (publish_start py bridge context model).context
  unfolding publish_start start emit
  publish_start-AreQuiet context model h =
      let e = tagged_start py bridge context model in
      send-AreQuiet bridge (record context { emitter = advance context.emitter })
        (json_of (construct e) >>= outgoing_of py bridge)
        (λ out made.
          to_json-IsQuiet e out (sym (start_outgoing py bridge e out made).0) (refl, refl))
        h

  pub begin-AreQuiet :
      (context context' : RunnerContext) (model : Fields) (describe : Failure → Exception)
      (completion_error : Option Exception)
      → AreQuiet context
      → begin py bridge context model describe none completion_error ≡ executing context'
      → AreQuiet context'
  unfolding begin
  begin-AreQuiet context context' model describe c h began =
      let ran = publish_start py bridge context model in
      let (same, fine) =
        started-executing py bridge model describe c ran.context context' ran.failure began in
      subst AreQuiet same (publish_start-AreQuiet context model h)
