-- ===== src/Scheduling/Sjf.antt =====
-- SJF: the request that Scheduler::next takes (scheduling.cpp with wait_pop_best of queue.h).
use link_scheduling.Prelude.{ℕ, ◌≤◌, ◌<◌, ◌≡◌, ◌⊎◌, true, false, List, [], ◌∷◌, ◌++◌, arith, All}
use link_scheduling.Request.{Request, remaining}
use link_scheduling.Queue.{RequestQueue, Popped, waits, ends, pops, wait_pop_best}
use link_scheduling.Queue.Best.{IsOrder, BestOutcome, wait_pop_best-BestOutcome}
use link_scheduling.Scheduling.{
  sjf, Scheduler, shorter, next, decide, Decision, waiting, invalid, valid, get_budget,
}

pub shorter-IsOrder : IsOrder shorter
unfolding shorter
shorter-IsOrder = record { asym = λ a b h. ground arith; neg_trans = λ a b c h k. ground arith }

-- `r` is at least as short as `x`, and no later where they are equally short.
abbrev pub Precedes : Request → Request → Type 0
Precedes r x =
    (r.total_bytes < x.total_bytes)
    ⊎ ((r.total_bytes ≡ x.total_bytes) × (r.arrival_ns ≤ x.arrival_ns))

-- The same, and strictly before it.
abbrev pub StrictlyPrecedes : Request → Request → Type 0
StrictlyPrecedes r x =
    (r.total_bytes < x.total_bytes)
    ⊎ ((r.total_bytes ≡ x.total_bytes) × (r.arrival_ns < x.arrival_ns))

beats-StrictlyPrecedes :
    (r : Request) (xs : List Request)
    → All (λ x. shorter r x ≡ true) xs
    → All (StrictlyPrecedes r) xs
unfolding shorter
beats-StrictlyPrecedes r [] h = tt
beats-StrictlyPrecedes r (x ∷ xs) h = (ground arith, beats-StrictlyPrecedes r xs h.1)

unbeaten-Precedes :
    (r : Request) (xs : List Request) → All (λ x. shorter x r ≡ false) xs → All (Precedes r) xs
unfolding shorter
unbeaten-Precedes r [] h = tt
unbeaten-Precedes r (x ∷ xs) h = (ground arith, unbeaten-Precedes r xs h.1)

sjf_budget :
    (quantum : ℕ) (r : Request)
    → let s : Scheduler = record { policy = sjf; quantum = quantum } in
      ((get_budget s r).0 ≡ r) × ((get_budget s r).1 ≡ remaining r)
unfolding get_budget
sjf_budget quantum r = (ground arith, ground arith)

-- The queue with the shortest job taken out.
pub record TakesShortest (quantum : ℕ) (q : RequestQueue) (r : Request) (b : ℕ) (q' : RequestQueue)
    : Type 0 where
  pub front : List Request
  pub behind : List Request
  pub job : Request
  pub splits : front ++ job ∷ behind ≡ q.queue
  pub left : q'.queue ≡ front ++ behind
  pub before : All (StrictlyPrecedes job) front
  pub after : All (Precedes job) behind
  pub granted : (r ≡ job) × (b ≡ remaining job)

-- Each way in which Scheduler::next can come out under SJF: it waits on an empty queue, it stops
-- on an empty closed queue with nothing in flight, or it takes the shortest job.
abbrev pub SjfOutcome : ℕ → RequestQueue → Decision → Type 0
SjfOutcome quantum q waiting = q.queue ≡ []
SjfOutcome quantum q (invalid q') = (q.queue ≡ []) × (q.closed ≡ true) × (q.inflight ≡ 0)
SjfOutcome quantum q (valid r b q') = TakesShortest quantum q r b q'

module _ (quantum : ℕ) (q : RequestQueue) where
  abbrev shortest_first : Scheduler
  shortest_first = record { policy = sjf; quantum = quantum }

  decide_cases :
      (p : Popped)
      → BestOutcome shorter shorter-IsOrder q.queue q p
      → SjfOutcome quantum q (decide shortest_first p)
  decide_cases waits h = h.0
  decide_cases (ends q') h = (h.1, h.2, h.3)
  decide_cases (pops r q') h = record {
    front = h.first.front;
    behind = h.first.behind;
    job = r;
    splits = h.first.splits;
    left = h.left;
    before = beats-StrictlyPrecedes r h.first.front h.first.beats;
    after = unbeaten-Precedes r h.first.behind h.first.unbeaten;
    granted = sjf_budget quantum r;
  }

  -- Under SJF Scheduler::next takes out a request that is strictly before, by declared size and
  -- then by arrival, all that were queued in front of it, and not after any queued behind it; the
  -- others stay in their order, and the request is given all that it has left.
  pub next-SjfOutcome : SjfOutcome quantum q (next shortest_first q)
  unfolding next
  next-SjfOutcome =
      decide_cases (wait_pop_best shorter q) (wait_pop_best-BestOutcome shorter shorter-IsOrder q)
