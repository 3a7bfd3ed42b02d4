-- ===== src/Runner/Lifecycle/Closing.antt =====
-- What `aclose` leaves of an instance.
use mathlib.Core.Path.{subst}
use agentue.Prelude.{
  true≢false, ℕ, ◌≡◌, refl, sym, ◌∙◌, Bool, true, false, none, some, List, [], ◌∷◌, All,
}
use agentue.Runner.Lifecycle.{
  scanning, Phase, serving, draining, pulse_stopped, closed, Service, runner_closed, refused,
  waiting, finish_start, start, spawn_execute, without, IsOver, begin_aclose, stop_pulse,
  finish_aclose, ◌⟶◌, starts, waits, connects, fails_to_connect, runs_on, executes, gives_up, ends,
  stalls, scanner_ends, uses_bridge, closes, drained, stops, ◌⟶*◌, here, next,
}

-- what is gone at a point of `aclose`
abbrev pub Stopped : Phase → Bool → Bool → Type 0
Stopped serving pulse watchdog = ⊥
Stopped (draining tasks) pulse watchdog = Unit
Stopped pulse_stopped pulse watchdog = pulse ≡ false
Stopped closed pulse watchdog = (pulse ≡ false) × (watchdog ≡ false)

-- An instance that `aclose` has begun to close: it takes no start, none is under way, no scanner is
-- left, and what has been stopped is gone.
pub record IsClosing (s : Service) : Type 0 where
  pub closing : s.closing ≡ true
  pub not_starting : s.starting ≡ false
  pub scanner : s.scanner_task ≡ none
  pub stopped : Stopped s.phase s.pulse_task s.watchdog

start-refused :
    (connector : Bool) (s : Service) → s.closing ≡ true → start connector s ≡ refused runner_closed
unfolding start
start-refused connector s h = rw h refl

-- the fields that this is about, as they were
keep-IsClosing :
    (s : Service) (stalled bridge : Bool) (runs tasks : List ℕ)
    → IsClosing s
    → IsClosing
        (record s { loop_stalled = stalled; bridge = bridge; runs = runs; execute_tasks = tasks })
keep-IsClosing s stalled bridge runs tasks h = record {
  closing = h.closing;
  not_starting = h.not_starting;
  scanner = h.scanner;
  stopped = h.stopped;
}

begin_aclose-IsClosing : (s : Service) → s.starting ≡ false → IsClosing (begin_aclose s)
unfolding begin_aclose
begin_aclose-IsClosing s free = record {
  closing = refl;
  not_starting = free;
  scanner = refl;
  stopped = tt;
}

step-IsClosing : {s s' : Service} → s ⟶ s' → IsClosing s → IsClosing s'
unfolding spawn_execute begin_aclose stop_pulse finish_aclose
step-IsClosing {s = s} (starts c free e) h = absurd (cc (sym (start-refused c s h.closing) ∙ e))
step-IsClosing {s = s} (waits c free e) h = absurd (cc (sym (start-refused c s h.closing) ∙ e))
step-IsClosing (connects w) h = absurd (true≢false (sym w ∙ h.not_starting))
step-IsClosing (fails_to_connect w) h = absurd (true≢false (sym w ∙ h.not_starting))
step-IsClosing {s = s} (runs_on task c free e) h =
    absurd (cc (sym (start-refused c s h.closing) ∙ e))
step-IsClosing {s = s} (executes task mine) h =
    keep-IsClosing s s.loop_stalled s.bridge (without task s.runs) (task ∷ s.execute_tasks) h
step-IsClosing {s = s} (gives_up task) h =
    keep-IsClosing s s.loop_stalled s.bridge (without task s.runs) s.execute_tasks h
step-IsClosing {s = s} (ends task) h =
    keep-IsClosing s s.loop_stalled s.bridge s.runs (without task s.execute_tasks) h
step-IsClosing {s = s} (stalls w) h = keep-IsClosing s true s.bridge s.runs s.execute_tasks h
step-IsClosing (scanner_ends w) h = absurd (cc (sym h.scanner ∙ w))
step-IsClosing {s = s} uses_bridge h = keep-IsClosing s s.loop_stalled true s.runs s.execute_tasks h
step-IsClosing {s = s} (closes p) h = begin_aclose-IsClosing s h.not_starting
step-IsClosing (drained tasks p over) h = record {
  closing = h.closing;
  not_starting = h.not_starting;
  scanner = h.scanner;
  stopped = refl;
}
step-IsClosing {s = s} (stops p) h = record {
  closing = h.closing;
  not_starting = h.not_starting;
  scanner = h.scanner;
  stopped = (subst (λ phase. Stopped phase s.pulse_task s.watchdog) p h.stopped, refl);
}

steps-IsClosing : {s s' : Service} → s ⟶* s' → IsClosing s → IsClosing s'
steps-IsClosing here h = h
steps-IsClosing (next t ts) h = steps-IsClosing ts (step-IsClosing t h)

-- Once `aclose` has begun while no `start` is under way: whatever happens then, no `start` is taken
-- any more and no scanner is there, and from the points on where `aclose` has stopped them, neither
-- the pulse task nor the watchdog is there.
pub begin_aclose-steps :
    (s s' : Service) (connector : Bool)
    → s.starting ≡ false
    → begin_aclose s ⟶* s'
    → IsClosing s' × (start connector s' ≡ refused runner_closed)
begin_aclose-steps s s' connector free steps =
    let h = steps-IsClosing steps (begin_aclose-IsClosing s free) in
    (h, start-refused connector s' h.closing)

-- the instance after a `start` that `aclose` overtook
unfoldable overtaken : Service → Service
unfolding finish_start begin_aclose stop_pulse finish_aclose
overtaken s =
    finish_start (finish_aclose (stop_pulse (begin_aclose (record s { starting = true }))))

-- A `start` that waits for its connection is not held up by `aclose`: an open instance without a
-- bridge can get to where `aclose` has returned and then the scanner, the watchdog and the pulse task
-- are created all the same.
pub start-overtaken :
    (s : Service)
    → s.closing ≡ false
    → s.loop_stalled ≡ false
    → s.bridge ≡ false
    → s.starting ≡ false
    → s.phase ≡ serving
    → s.execute_tasks ≡ []
    → (s' : Service) × (s ⟶* s')
      × (s'.closing ≡ true)
      × (s'.phase ≡ closed)
      × (s'.scanner_task ≡ some scanning)
      × (s'.watchdog ≡ true)
      × (s'.pulse_task ≡ true)
unfolding finish_start begin_aclose stop_pulse finish_aclose overtaken start
start-overtaken s ready going no_bridge free p idle =
    let s₁ = record s { starting = true } in
    let waiting_now : start true s ≡ waiting s₁ = rw (ready, going, no_bridge) refl in
    let over : All (IsOver s.execute_tasks) s.execute_tasks = rw idle tt in
    (
      overtaken s,
      next (waits true free waiting_now) (
          next (closes {s = s₁} p) (
            next (drained {s = begin_aclose s₁} s.execute_tasks refl over)
              (next (stops refl) (next (connects refl) here)))),
      refl,
      refl,
      refl,
      refl,
      refl,
    )
