-- ===== src/Runner/Lifecycle/Started.antt =====
-- An instance that is not closing: what `start` gives, and that an execute task finds what it needs.
use mathlib.Core.Path.{subst}
use agentue.Prelude.{
  true≢false, ℕ, ◌≡◌, refl, sym, ap, ◌∙◌, Bool, true, false, ◌⊎◌, inl, inr, Option, some, List, [],
  ◌∷◌, Bool-cases, arith,
}
use agentue.Runner.Lifecycle.{
  Scanner, scanning, ended, serving, Service, new, runner_closed, event_loop_stalled, Start,
  refused, waiting, started, finish_start, start, spawn_execute, without, begin_aclose, stop_pulse,
  finish_aclose, can_execute, ◌⟶◌, starts, waits, connects, fails_to_connect, runs_on, executes,
  gives_up, ends, stalls, scanner_ends, uses_bridge, closes, drained, stops, ◌⟶*◌, here, next,
}

-- Everything that a run needs is there.
pub record IsUp (s : Service) : Type 0 where
  pub bridge : s.bridge ≡ true
  pub watchdog : s.watchdog ≡ true
  pub pulse : s.pulse_task ≡ true
  pub scanner : s.scanner_task ≡ some scanning

-- What holds of an instance until it is closed.
pub record IsServing (s : Service) : Type 0 where
  pub phase : s.phase ≡ serving
  pub paired : s.pulse_task ≡ s.watchdog
  pub bridged : s.watchdog ≡ true → s.bridge ≡ true
  pub runs : s.watchdog ≡ false → s.runs ≡ []
  pub tasks : s.watchdog ≡ false → s.execute_tasks ≡ []

abbrev pub Serves : Service → Type 0
Serves s = s.closing ≡ false → IsServing s

finish_start-IsServing : (s : Service) → IsServing s → IsServing (finish_start s)
unfolding finish_start
finish_start-IsServing s h = ground arith

-- a start that ends has found the instance open
start-finish :
    (connector : Bool) (s s' : Service)
    → start connector s ≡ started s'
    → (s.closing ≡ false) × (s' ≡ finish_start s)
unfolding start
start-finish connector s s' h = ground arith

start-waiting :
    (connector : Bool) (s s' : Service)
    → start connector s ≡ waiting s'
    → s' ≡ record s { starting = true }
unfolding start
start-waiting connector s s' h = ground arith

without-nil : (n : ℕ) (tasks : List ℕ) → tasks ≡ [] → without n tasks ≡ []
without-nil n tasks h = rw h refl

finish_start-watchdog : (s : Service) → (finish_start s).watchdog ≡ true
unfolding finish_start
finish_start-watchdog s = ground arith

finish_start-closing : (s : Service) → (finish_start s).closing ≡ s.closing
unfolding finish_start
finish_start-closing s = ground arith

-- the fields that the invariant is about, as they were
keep-IsServing :
    (s : Service) (starting stalled : Bool) (scanner : Option Scanner)
    → IsServing s
    → IsServing (record s { starting = starting; loop_stalled = stalled; scanner_task = scanner })
keep-IsServing s starting stalled scanner v = record {
  phase = v.phase;
  paired = v.paired;
  bridged = v.bridged;
  runs = v.runs;
  tasks = v.tasks;
}

-- a step of a run keeps its tasks from an instance without a watchdog
run-IsServing :
    (s : Service) (runs tasks : List ℕ)
    → IsServing s
    → (s.watchdog ≡ false → runs ≡ [])
    → (s.watchdog ≡ false → tasks ≡ [])
    → IsServing (record s { runs = runs; execute_tasks = tasks })
run-IsServing s runs tasks v r t = record {
  phase = v.phase;
  paired = v.paired;
  bridged = v.bridged;
  runs = r;
  tasks = t;
}

step-Serves : {s s' : Service} → s ⟶ s' → Serves s → Serves s'
unfolding spawn_execute begin_aclose stop_pulse finish_aclose
step-Serves {s = s} {s' = s'} (starts c free e) h o =
    let (ready, same) = start-finish c s s' e in
    subst IsServing (sym same) (finish_start-IsServing s (h ready))
step-Serves {s = s} {s' = s'} (waits c free e) h o =
    let same = start-waiting c s s' e in
    subst IsServing (sym same) (
      keep-IsServing s true s.loop_stalled s.scanner_task
        (h (sym (ap (λ (x : Service). x.closing) same) ∙ o)))
step-Serves {s = s} (connects w) h o =
    finish_start-IsServing s (h (sym (finish_start-closing s) ∙ o))
step-Serves {s = s} (fails_to_connect w) h o =
    keep-IsServing s false s.loop_stalled s.scanner_task (h o)
step-Serves {s = s} (runs_on {s' = s₁} task c free e) h o =
    let (ready, same) = start-finish c s s₁ e in
    let v = subst IsServing (sym same) (finish_start-IsServing s (h ready)) in
    let up = ap (λ (x : Service). x.watchdog) same ∙ finish_start-watchdog s in
    run-IsServing s₁ (task ∷ s₁.runs) s₁.execute_tasks v (λ off. absurd (true≢false (sym up ∙ off)))
      v.tasks
step-Serves {s = s} (executes task mine) h o =
    let v = h o in
    run-IsServing s (without task s.runs) (task ∷ s.execute_tasks) v
      (λ off. without-nil task s.runs (v.runs off))
      (λ off. absurd (mine (without-nil task s.runs (v.runs off) ∙ sym (v.runs off))))
step-Serves {s = s} (gives_up task) h o =
    let v = h o in
    run-IsServing s (without task s.runs) s.execute_tasks v
      (λ off. without-nil task s.runs (v.runs off)) v.tasks
step-Serves {s = s} (ends task) h o =
    let v = h o in
    run-IsServing s s.runs (without task s.execute_tasks) v v.runs
      (λ off. without-nil task s.execute_tasks (v.tasks off))
step-Serves {s = s} (stalls w) h o = keep-IsServing s s.starting true s.scanner_task (h o)
step-Serves {s = s} (scanner_ends w) h o =
    keep-IsServing s s.starting s.loop_stalled (some ended) (h o)
step-Serves uses_bridge h o =
    let v = h o in
    record {
      phase = v.phase;
      paired = v.paired;
      bridged = λ w. refl;
      runs = v.runs;
      tasks = v.tasks;
    }
step-Serves (closes p) h o = absurd (true≢false o)
step-Serves (drained tasks p over) h o = absurd (cc (sym (h o).phase ∙ p))
step-Serves (stops p) h o = absurd (cc (sym (h o).phase ∙ p))

steps-Serves : {s s' : Service} → s ⟶* s' → Serves s → Serves s'
steps-Serves here h = h
steps-Serves (next t ts) h = steps-Serves ts (step-Serves t h)

new-Serves : Serves new
new-Serves o = record {
  phase = refl;
  paired = refl;
  bridged = λ h. absurd (true≢false (sym h));
  runs = λ h. refl;
  tasks = λ h. refl;
}

-- Whatever happens to a new instance: as long as it is not closing, the pulse task is there if and
-- only if the watchdog is, a watchdog comes with a bridge, and without a watchdog there is no run
-- and no execute task; the guard of `_execute` lets a task pass, unless there is none.
pub new-IsServing :
    (s : Service)
    → new ⟶* s
    → s.closing ≡ false
    → IsServing s × ((can_execute s ≡ true) ⊎ ((s.runs ≡ []) × (s.execute_tasks ≡ [])))
new-IsServing s steps o =
    let v = steps-Serves steps new-Serves o in
    (
      v,
      elim (Bool-cases s.watchdog) [
        | inl on ↦ inl (v.paired ∙ on)
        | inr off ↦ inr (v.runs off, v.tasks off)
      ],
    )

-- What `start` comes to. Of the four results no two fit the same instance.
abbrev pub IsStart : Bool → Service → Start → Type 0
IsStart connector s (refused runner_closed) = s.closing ≡ true
IsStart connector s (refused event_loop_stalled) = (s.closing ≡ false) × (s.loop_stalled ≡ true)
IsStart connector s (waiting s') =
    (s.closing ≡ false)
    × (s.loop_stalled ≡ false)
    × (s.bridge ≡ false)
    × (connector ≡ true)
    × (s' ≡ record s { starting = true })
IsStart connector s (started s') =
    (s.closing ≡ false)
    × (s.loop_stalled ≡ false)
    × (s.bridge ≡ false → connector ≡ false)
    × IsUp s'
    × (s'.runs ≡ s.runs)
    × (s'.execute_tasks ≡ s.execute_tasks)
    × (start connector s' ≡ started s')

-- `start` on every branch, for an instance whose pulse task is there if and only if its watchdog is:
-- it is refused as closed exactly if the instance is closing, and as stalled exactly if it is not and
-- the event loop had stalled; otherwise it waits if a connector has to give a bridge that is not
-- there, and ends if not. Where it ends, the bridge, the watchdog, the pulse task and a scanner that
-- runs are there, the runs and tasks are as they were, and another `start` changes nothing.
pub start-IsStart :
    (connector : Bool) (s : Service)
    → s.pulse_task ≡ s.watchdog
    → IsStart connector s (start connector s)
unfolding start finish_start
start-IsStart connector s paired = ground arith
