-- ===== src/Examples/Turns.antt =====
-- Turns of a poller: two calls while one task is under way, and one after `dispose`.
use agent_workflow_fast_api.Base.{ℕ, ◌≡◌, refl}
use agent_workflow_fast_api.Polling.Poller.{
  World, initial, create_single_flight_poller, begin_run, dispose, call_run, call_dispose, settle,
  runs, settles, Turns, still, turn,
}
use agent_workflow_fast_api.Polling.Flights.{IsSingleFlight, Turns-IsSingleFlight}

abbrev two_calls : World
two_calls = call_run (call_run initial)

abbrev closed : World
closed = call_dispose two_calls

calls_twice : Turns initial two_calls
calls_twice = turn (turn still (runs initial)) (runs (call_run initial))

one_started : ◌≡◌ {A = ℕ} two_calls.started 1
unfolding call_run begin_run initial create_single_flight_poller
one_started = refl

settles_and_runs : Turns closed (call_run (settle 0 closed))
unfolding call_run begin_run call_dispose dispose initial create_single_flight_poller
settles_and_runs = turn (turn still (settles 0 closed refl)) (runs (settle 0 closed))

Turns-IsSingleFlight_example : IsSingleFlight two_calls
Turns-IsSingleFlight_example = Turns-IsSingleFlight two_calls calls_twice
