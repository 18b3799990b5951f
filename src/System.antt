-- ===== src/System.antt =====
-- main.cpp: the threads around the request queue, in any order in which they take its mutex. A
-- worker that is serving a round holds a request; the files and sockets of a round are whatever
-- they are at that time, so a round may start in any World. Ids of requests are kept beside the
-- state as they enter, and requests as they leave.
pub mod Next
pub mod Invariant
pub mod Drain
use link_scheduling.Prelude.{
  ℕ, suc, ◌+◌, ◌<◌, ◌≡◌, Bool, true, false, List, [], ◌∷◌, ◌++◌, if◌then◌else◌, length,
}
use link_scheduling.Request.{Request}
use link_scheduling.Queue.{RequestQueue, empty_queue, push, requeue, complete, close}
use link_scheduling.Scheduling.{Decision, invalid, valid, next}
use link_scheduling.World.{World}
use link_scheduling.Metrics.{RequestMetrics}
use link_scheduling.Worker.{Setup, Outcome, dropped, again, finished, Shared, settle, worker_round}

-- A request that a worker serves, with its budget.
pub record Held : Type 0 where
  pub request : Request
  pub budget : ℕ

pub record System : Type 0 where
  pub shared : Shared
  pub held : List Held
  -- Workers whose loop has ended.
  pub ended : ℕ
  -- Requests that push has let in, and those that were dropped or served to the end.
  pub entered : List Request
  pub left : List Request

abbrev pub start : System
start = record {
  shared = record { requests = empty_queue; records = [] };
  held = [];
  ended = 0;
  entered = [];
  left = [];
}

-- The requests that leave the server with an outcome.
abbrev pub leaving : Outcome → List Request
leaving (dropped r) = r ∷ []
leaving (again r) = []
leaving (finished r) = r ∷ []

abbrev pub with_requests : Shared → RequestQueue → Shared
with_requests sh q = record sh { requests = q }

-- One step of one thread, with `workers` worker threads.
pub data Step (su : Setup) (workers : ℕ) (s : System) : System → Type 0 where
  -- A parser thread calls push.
  admits :
      (r : Request)
      → Step su workers s (record s {
        shared = with_requests s.shared (push s.shared.requests r).0;
        entered = if (push s.shared.requests r).1 then r ∷ s.entered else s.entered;
      })
  -- A worker thread that holds nothing gets a decision.
  takes :
      {r : Request} {budget : ℕ} {q : RequestQueue}
      → length s.held + s.ended < workers
      → next su.scheduler s.shared.requests ≡ valid r budget q
      → Step su workers s (record s {
        shared = with_requests s.shared q;
        held = record { request = r; budget = budget } ∷ s.held;
      })
  -- A worker thread serves the round of the request that it holds.
  serves :
      (before behind : List Held) (h : Held) (w : World)
      → s.held ≡ before ++ h ∷ behind
      → Step su workers s (record s {
        shared = settle (worker_round su h.request h.budget w).0 s.shared;
        held = before ++ behind;
        left = leaving (worker_round su h.request h.budget w).0 ++ s.left;
      })
  -- A worker thread that holds nothing ends its loop.
  ends :
      {q : RequestQueue}
      → length s.held + s.ended < workers
      → next su.scheduler s.shared.requests ≡ invalid q
      → Step su workers s (record s { shared = with_requests s.shared q; ended = suc s.ended })
  -- The main thread closes the queue, once the acceptor and the parsers are done.
  closes :
      Step su workers s (record s { shared = with_requests s.shared (close s.shared.requests) })

pub data Reach (su : Setup) (workers : ℕ) : System → Type 0 where
  starts : Reach su workers start
  then_step : {s t : System} → Reach su workers s → Step su workers s t → Reach su workers t
