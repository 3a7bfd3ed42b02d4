-- ===== src/Samples/Lifecycles.antt =====
-- Sample lives of a Runner instance.
use agentue.Prelude.{◌≡◌, ◌⊎◌, refl, true, false, some, [], ◌∷◌}
use agentue.Runner.Lifecycle.{
  Service, new, start, refused, runner_closed, finish_start, begin_aclose, stop_pulse,
  finish_aclose, can_execute, scanning, closed, runs_on, drained, stops, ◌⟶*◌, here, next,
}
use agentue.Runner.Lifecycle.Started.{IsServing, IsStart, new-IsServing, start-IsStart}
use agentue.Runner.Lifecycle.Closing.{IsClosing, begin_aclose-steps, start-overtaken}

-- an instance that has started, with one run
abbrev up : Service
up = record (finish_start new) { runs = 1 ∷ [] }

steps_up : new ⟶* up
unfolding start finish_start
steps_up = next (runs_on 1 false refl refl) here

up_open : up.closing ≡ false
unfolding finish_start
up_open = refl

up_ready : up.starting ≡ false
unfolding finish_start
up_ready = refl

new-IsServing_example :
    IsServing up × ((can_execute up ≡ true) ⊎ ((up.runs ≡ []) × (up.execute_tasks ≡ [])))
new-IsServing_example = new-IsServing up steps_up up_open

start-IsStart_example : IsStart true new (start true new)
start-IsStart_example = start-IsStart true new refl

-- it is closed while the run goes on
abbrev down : Service
down = finish_aclose (stop_pulse (begin_aclose up))

steps_down : begin_aclose up ⟶* down
unfolding finish_start begin_aclose stop_pulse finish_aclose
steps_down = next (drained [] refl tt) (next (stops refl) here)

begin_aclose-steps_example : IsClosing down × (start true down ≡ refused runner_closed)
begin_aclose-steps_example = begin_aclose-steps up down true up_ready steps_down

start-overtaken_example :
    (s' : Service) × (new ⟶* s')
    × (s'.closing ≡ true)
    × (s'.phase ≡ closed)
    × (s'.scanner_task ≡ some scanning)
    × (s'.watchdog ≡ true)
    × (s'.pulse_task ≡ true)
start-overtaken_example = start-overtaken new refl refl refl refl refl refl
