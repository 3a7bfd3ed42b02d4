-- ===== src/Runner/Lifecycle.antt =====
-- A Runner instance of runner/runner.py: `start`, `aclose`, `_get_bridge`, `_ensure_scanner`,
-- `_spawn_execute` and the guard of `_execute`, on the fields that they set. A method is cut at the
-- points where it may be suspended, so that other methods run in between; `aclose` is called once.
pub mod Started
pub mod Closing
use agentue.Prelude.{
  ℕ, ◌≡◌, ◌≢◌, Bool, true, false, not, ◌&&◌, ◌||◌, Option, none, some, List, [], ◌∷◌, All, ◌==◌,
  if◌then◌else◌,
}

-- the timeout scanner, as a task
pub data Scanner : Type 0 where
  scanning ended : Scanner

-- how far `aclose` is: it waits for these execute tasks, it has stopped the pulse, or it has returned
pub data Phase : Type 0 where
  serving : Phase
  draining : List ℕ → Phase
  pulse_stopped closed : Phase

-- The fields of the instance, those that hold an object as whether they do, and beside them whether
-- `start` waits for its connection, the runs that have started but have no execute task yet, and how
-- far `aclose` is.
pub record Service : Type 0 where
  pub closing : Bool
  pub loop_stalled : Bool
  pub bridge : Bool
  pub watchdog : Bool
  pub pulse_task : Bool
  pub scanner_task : Option Scanner
  pub execute_tasks : List ℕ
  pub starting : Bool
  pub runs : List ℕ
  pub phase : Phase

-- `__init__`
abbrev pub new : Service
new = record {
  closing = false;
  loop_stalled = false;
  bridge = false;
  watchdog = false;
  pulse_task = false;
  scanner_task = none;
  execute_tasks = [];
  starting = false;
  runs = [];
  phase = serving;
}

pub data Refusal : Type 0 where
  runner_closed event_loop_stalled : Refusal

-- What `start` does up to where it waits, or up to its end.
pub data Start : Type 0 where
  refused : Refusal → Start
  waiting : Service → Start
  started : Service → Start

abbrev pub scanner_for : Option Scanner → Option Scanner
scanner_for (some scanning) = some scanning
scanner_for (some ended) = some scanning
scanner_for none = some scanning

-- `_ensure_scanner`
abbrev pub ensure_scanner : Service → Service
ensure_scanner s = record s { scanner_task = scanner_for s.scanner_task }

-- the watchdog and the pulse task, created together
abbrev pub ensure_watchdog : Service → Service
ensure_watchdog s = if s.watchdog then s else record s { watchdog = true; pulse_task = true }

-- `start` from where it has the bridge
unfoldable pub finish_start : Service → Service
finish_start s = ensure_scanner (ensure_watchdog (record s { bridge = true; starting = false }))

-- `start` once it has its lock; with a `RedisConnector` it waits for the connection unless there is
-- a bridge
unfoldable pub start : Bool → Service → Start
unfolding finish_start
start connector s =
    if s.closing
    then refused runner_closed
    else if s.loop_stalled
    then refused event_loop_stalled
    else if s.bridge || not connector
    then started (finish_start s)
    else waiting (record s { starting = true })

-- `_spawn_execute`, in a run that has started
unfoldable pub spawn_execute : ℕ → Service → Service
spawn_execute task s = record s { execute_tasks = task ∷ s.execute_tasks }

abbrev pub without : ℕ → List ℕ → List ℕ
without n [] = []
without n (m ∷ ms) = let rest = without n ms in if m == n then rest else m ∷ rest

-- `aclose` up to where it waits for the execute tasks
unfoldable pub begin_aclose : Service → Service
begin_aclose s = record s { closing = true; scanner_task = none; phase = draining s.execute_tasks }

-- `aclose` up to where it waits for the pulse task
unfoldable pub stop_pulse : Service → Service
stop_pulse s = record s { pulse_task = false; phase = pulse_stopped }

-- the rest of `aclose`
unfoldable pub finish_aclose : Service → Service
finish_aclose s = record s { watchdog = false; bridge = false; phase = closed }

-- whether `_execute` finds the pulse task, or raises
abbrev pub can_execute : Service → Bool
can_execute s = s.pulse_task

-- the task is not in the list
abbrev pub IsOver : List ℕ → ℕ → Type 0
IsOver tasks n = without n tasks ≡ tasks

-- What may happen next to an instance.
infix 40 ◌⟶◌ ◌⟶*◌
pub data ◌⟶◌ : Service → Service → Type 0 where
  starts :
      {s s' : Service} (connector : Bool)
      → s.starting ≡ false
      → start connector s ≡ started s'
      → s ⟶ s'
  waits :
      {s s' : Service} (connector : Bool)
      → s.starting ≡ false
      → start connector s ≡ waiting s'
      → s ⟶ s'
  connects : {s : Service} → s.starting ≡ true → s ⟶ finish_start s
  fails_to_connect : {s : Service} → s.starting ≡ true → s ⟶ record s { starting = false }
  -- a run whose `start` has just ended goes on
  runs_on :
      {s s' : Service} (task : ℕ) (connector : Bool)
      → s.starting ≡ false
      → start connector s ≡ started s'
      → s ⟶ record s' { runs = task ∷ s'.runs }
  executes :
      {s : Service} (task : ℕ)
      → without task s.runs ≢ s.runs
      → s ⟶ record (spawn_execute task s) { runs = without task s.runs }
  gives_up : {s : Service} (task : ℕ) → s ⟶ record s { runs = without task s.runs }
  ends : {s : Service} (task : ℕ) → s ⟶ record s { execute_tasks = without task s.execute_tasks }
  stalls : {s : Service} → s.watchdog ≡ true → s ⟶ record s { loop_stalled = true }
  scanner_ends :
      {s : Service} → s.scanner_task ≡ some scanning → s ⟶ record s { scanner_task = some ended }
  -- `_get_bridge`, in another method
  uses_bridge : {s : Service} → s ⟶ record s { bridge = true }
  closes : {s : Service} → s.phase ≡ serving → s ⟶ begin_aclose s
  drained :
      {s : Service} (tasks : List ℕ)
      → s.phase ≡ draining tasks
      → All (IsOver s.execute_tasks) tasks
      → s ⟶ stop_pulse s
  stops : {s : Service} → s.phase ≡ pulse_stopped → s ⟶ finish_aclose s

pub data ◌⟶*◌ : Service → Service → Type 0 where
  here : {s : Service} → s ⟶* s
  next : {s t u : Service} → s ⟶ t → t ⟶* u → s ⟶* u
