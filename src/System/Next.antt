-- ===== src/System/Next.antt =====
-- What a decision of the scheduler does to the queue, under each policy (scheduling.cpp).
use link_scheduling.Prelude.{◌≡◌, ◌≢◌, ◌⊎◌, refl, sym, true, false, List, [], ◌∷◌, ◌++◌, add64}
use link_scheduling.Request.{Request}
use link_scheduling.Queue.{RequestQueue, Popped, waits, ends, pops, wait_pop, wait_pop_best}
use link_scheduling.Queue.Order.{FifoOutcome, wait_pop-FifoOutcome}
use link_scheduling.Queue.Best.{BestOutcome, wait_pop_best-BestOutcome}
use link_scheduling.Scheduling.{
  SchedulingPolicy, fcfs, sjf, rr, drr, Scheduler, shorter, select, Decision, waiting, invalid,
  valid, decide, next,
}
use link_scheduling.Scheduling.Sjf.{shorter-IsOrder}
use link_scheduling.Worker.Keeps.{Same, get_budget-Same}

-- One request is taken out of the queue, the others stay in their order, and it is counted in.
pub record TakesOne (q : RequestQueue) (r : Request) (q' : RequestQueue) : Type 0 where
  pub front : List Request
  pub behind : List Request
  pub job : Request
  pub splits : q.queue ≡ front ++ job ∷ behind
  pub left : q'.queue ≡ front ++ behind
  pub same : Same job r
  pub counted : q'.inflight ≡ add64 q.inflight 1
  pub open_as_before : q'.closed ≡ q.closed

abbrev pub NextOutcome : RequestQueue → Decision → Type 0
NextOutcome q waiting = (q.queue ≡ []) × ((q.closed ≡ false) ⊎ (q.inflight ≢ 0))
NextOutcome q (invalid q') = (q' ≡ q) × (q.queue ≡ []) × (q.closed ≡ true) × (q.inflight ≡ 0)
NextOutcome q (valid r budget q') = TakesOne q r q'

fifo_case :
    (s : Scheduler) (q : RequestQueue) (p : Popped)
    → FifoOutcome q.queue q p
    → NextOutcome q (decide s p)
fifo_case s q waits h = h
fifo_case s q (ends q') h = h
fifo_case s q (pops r q') h = record {
  front = [];
  behind = q'.queue;
  job = r;
  splits = h.0;
  left = refl;
  same = get_budget-Same s r;
  counted = h.1;
  open_as_before = h.2;
}

best_case :
    (s : Scheduler) (q : RequestQueue) (p : Popped)
    → BestOutcome shorter shorter-IsOrder q.queue q p
    → NextOutcome q (decide s p)
best_case s q waits h = h
best_case s q (ends q') h = h
best_case s q (pops r q') h = record {
  front = h.first.front;
  behind = h.first.behind;
  job = r;
  splits = sym h.first.splits;
  left = h.left;
  same = get_budget-Same s r;
  counted = h.counted;
  open_as_before = h.same;
}

-- Under every policy a decision waits only on an empty queue that is open or has a request in
-- flight, is not valid only on an empty closed queue with none in flight, and otherwise takes one
-- request out of the queue and counts it in.
pub next-NextOutcome : (s : Scheduler) (q : RequestQueue) → NextOutcome q (next s q)
unfolding next
next-NextOutcome s q = by_policy s.policy
  where
    by_policy : (p : SchedulingPolicy) → NextOutcome q (decide s (select p q))
    by_policy fcfs = fifo_case s q (wait_pop q) (wait_pop-FifoOutcome q)
    by_policy sjf =
        best_case s q (wait_pop_best shorter q)
          (wait_pop_best-BestOutcome shorter shorter-IsOrder q)
    by_policy rr = fifo_case s q (wait_pop q) (wait_pop-FifoOutcome q)
    by_policy drr = fifo_case s q (wait_pop q) (wait_pop-FifoOutcome q)
