-- ===== src/Polling/Poller.antt =====
-- frontend/src/components/upload/knowledgeFileLibraryPolling.ts: `createSingleFlightPoller`, under calls
-- that overlap. What is between two steps is one turn of the event loop.
use agent_workflow_fast_api.Base.{
  ℕ, zero, suc, Bool, true, false, not, ◌||◌, List, [], ◌∷◌, ◌≡◌, ◌==◌, number_eq, contains, filter,
  if◌then◌else◌,
}

pub record Poller : Type 0 where
  pub disposed : Bool
  pub running : Bool

unfoldable pub create_single_flight_poller : Poller
create_single_flight_poller = record { disposed = false; running = false }

unfoldable pub dispose : Poller → Poller
dispose p = record p { disposed = true }

-- What `run` does before it waits for its task, and whether it starts the task.
unfoldable pub begin_run : Poller → Bool × Poller
begin_run p = if p.disposed || p.running then (false, p) else (true, record p { running = true })

-- What it does once the task has settled, in either way.
unfoldable pub end_run : Poller → Poller
end_run p = record p { running = false }

-- The poller, the tasks that have not settled and how many were started.
pub record World : Type 0 where
  pub poller : Poller
  pub under_way : List ℕ
  pub started : ℕ

unfoldable pub initial : World
unfolding create_single_flight_poller
initial = record { poller = create_single_flight_poller; under_way = []; started = zero }

abbrev pub begun : Bool × Poller → World → World
begun (true, q) w = record {
  poller = q;
  under_way = w.started ∷ w.under_way;
  started = suc w.started;
}
begun (false, q) w = record w { poller = q }

unfoldable pub call_run : World → World
unfolding begin_run
call_run w = begun (begin_run w.poller) w

unfoldable pub call_dispose : World → World
unfolding dispose
call_dispose w = record w { poller = dispose w.poller }

-- A task settles, and its `run` goes on.
unfoldable pub settle : ℕ → World → World
unfolding end_run
settle i w = record w {
  poller = end_run w.poller;
  under_way = filter (λ j. not (j == i)) w.under_way;
}

pub data Turn : World → World → Type 0 where
  runs : (w : World) → Turn w (call_run w)
  disposes : (w : World) → Turn w (call_dispose w)
  settles : (i : ℕ) (w : World) → contains w.under_way i ≡ true → Turn w (settle i w)

pub data Turns : World → World → Type 0 where
  still : {w : World} → Turns w w
  turn : {w v u : World} → Turns w v → Turn v u → Turns w u
