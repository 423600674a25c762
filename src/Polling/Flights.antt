-- ===== src/Polling/Flights.antt =====
-- frontend/src/components/upload/knowledgeFileLibraryPolling.ts: one task at a time, and none after
-- `dispose`.
use agent_workflow_fast_api.Base.{
  ℕ, Bool, true, false, List, [], ◌∷◌, ◌≡◌, refl, arith, ◌==◌, number_eq, contains,
}
use agent_workflow_fast_api.Polling.Poller.{
  World, initial, create_single_flight_poller, begin_run, end_run, dispose, begun, call_run,
  call_dispose, settle, Turn, runs, disposes, settles, Turns, still, turn,
}

-- `running` says whether a task is under way, and there is never a second one.
abbrev IsMirrored : Bool → List ℕ → Type 0
IsMirrored running [] = running ≡ false
IsMirrored running (i ∷ []) = running ≡ true
IsMirrored running (i ∷ j ∷ l) = ⊥

abbrev pub IsSingleFlight : World → Type 0
IsSingleFlight w = IsMirrored w.poller.running w.under_way

IsSingleFlight-begun :
    (d r : Bool) (l : List ℕ) (n : ℕ)
    → IsMirrored r l
    → IsSingleFlight (
        begun
          (begin_run (record { disposed = d; running = r }))
          (record { poller = record { disposed = d; running = r }; under_way = l; started = n }))
unfolding begin_run
IsSingleFlight-begun true r l n m = m
IsSingleFlight-begun false true l n m = m
IsSingleFlight-begun false false [] n m = refl
IsSingleFlight-begun false false (i ∷ []) n m = absurd (cc m)
IsSingleFlight-begun false false (i ∷ j ∷ l) n m = absurd m

IsSingleFlight-settle :
    (i : ℕ) (d r : Bool) (l : List ℕ) (n : ℕ)
    → IsMirrored r l
    → contains l i ≡ true
    → IsSingleFlight (
        settle i
          (record { poller = record { disposed = d; running = r }; under_way = l; started = n }))
unfolding settle end_run
IsSingleFlight-settle i d r [] n m h = refl
IsSingleFlight-settle i d r (j ∷ []) n m h =
    let same : (j == i) ≡ true = ground arith in rw same refl
IsSingleFlight-settle i d r (j ∷ k ∷ l) n m h = absurd m

IsSingleFlight-turn : {w u : World} → Turn w u → IsSingleFlight w → IsSingleFlight u
unfolding call_run call_dispose dispose
IsSingleFlight-turn (runs w) m =
    IsSingleFlight-begun w.poller.disposed w.poller.running w.under_way w.started m
IsSingleFlight-turn (disposes w) m = m
IsSingleFlight-turn (settles i w h) m =
    IsSingleFlight-settle i w.poller.disposed w.poller.running w.under_way w.started m h

from_the_start : {w u : World} → Turns w u → IsSingleFlight w → IsSingleFlight u
from_the_start still m = m
from_the_start (turn turns last) m = IsSingleFlight-turn last (from_the_start turns m)

-- However calls of `run` and `dispose` and the ends of tasks follow each other, at most one task is
-- under way, and `running` says whether one is.
pub Turns-IsSingleFlight : (w : World) → Turns initial w → IsSingleFlight w
unfolding initial create_single_flight_poller
Turns-IsSingleFlight w turns = from_the_start turns refl

-- The poller stays disposed, and has started as many tasks as before.
pub record IsClosed (started : ℕ) (w : World) : Type 0 where
  pub disposed : w.poller.disposed ≡ true
  pub no_more : w.started ≡ started

IsClosed-turn : (n : ℕ) {w u : World} → Turn w u → IsClosed n w → IsClosed n u
unfolding call_run begin_run call_dispose dispose settle end_run
IsClosed-turn n (runs w) c = rw c.disposed (record { disposed = refl; no_more = c.no_more })
IsClosed-turn n (disposes w) c = record { disposed = refl; no_more = c.no_more }
IsClosed-turn n (settles i w h) c = record { disposed = c.disposed; no_more = c.no_more }

-- Once the poller is disposed, it stays so and starts no task any more, whatever is called and
-- whatever settles.
Turns-IsClosed : (w u : World) → Turns w u → w.poller.disposed ≡ true → IsClosed w.started u
Turns-IsClosed w u still closed = record { disposed = closed; no_more = refl }
Turns-IsClosed w u (turn turns last) closed =
    IsClosed-turn w.started last (Turns-IsClosed w _ turns closed)
