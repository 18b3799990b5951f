-- ===== src/System/Drain.antt =====
-- Shutdown: "finish admitted requests (including RR/DRR requeues)" (README.md), with the wait
-- condition of queue.cpp and the loop of worker_thread in main.cpp.
use link_scheduling.Prelude.{ℕ, ◌+◌, ◌^◌, ◌<◌, ◌≡◌, ◌≢◌, ap, ◌∙◌, true, [], arith, inl, inr, length}
use mathlib.Core.Path.{subst}
use link_scheduling.Scheduling.{waiting, next}
use link_scheduling.Worker.{Setup}
use link_scheduling.System.{System, Reach}
use link_scheduling.System.Next.{NextOutcome, next-NextOutcome}
use link_scheduling.System.Invariant.{tally, tally_held, Reach-Inv}

module _ {su : Setup} {workers : ℕ} {s : System} (few : workers < 2 ^ 64)
    (reach : Reach su workers s) where
  -- However the threads are interleaved, each request that push let in is in exactly one place, as
  -- often as it was let in: in the queue, in the hands of a worker, or among those that have left.
  pub requests_kept :
      (id : ℕ)
      → tally id s.entered
        ≡ tally id s.shared.requests.queue + tally_held id s.held + tally id s.left
  requests_kept = (Reach-Inv few reach).kept

  -- Once a worker thread has ended, the queue is closed and empty, no other worker holds a request,
  -- and every request that was let in has left the server, preempted ones included.
  pub ended_drained :
      0 < s.ended
      → (s.shared.requests.queue ≡ [])
        × (s.held ≡ [])
        × (s.shared.requests.closed ≡ true)
        × ((id : ℕ) → tally id s.entered ≡ tally id s.left)
  ended_drained h =
      let inv = Reach-Inv few reach in
      let (none_queued, none_held, closed) = inv.drained h in
      (
        none_queued,
        none_held,
        closed,
        λ id. omega (arith, inv.kept id, ap (tally id) none_queued, ap (tally_held id) none_held),
      )

  held-ne : s.shared.requests.inflight ≢ 0 → s.held ≢ []
  held-ne h e = h ((Reach-Inv few reach).counted ∙ ap length e)

  -- A worker that finds nothing to do on a closed queue waits for another one that holds a request:
  -- a closed queue never leaves all workers waiting.
  pub closed_waits_for_worker :
      s.shared.requests.closed ≡ true
      → next su.scheduler s.shared.requests ≡ waiting
      → (s.shared.requests.queue ≡ []) × (s.held ≢ [])
  closed_waits_for_worker closed e =
      by_cause
        (subst (NextOutcome s.shared.requests) e (next-NextOutcome su.scheduler s.shared.requests))
    where
      by_cause :
          NextOutcome s.shared.requests waiting → (s.shared.requests.queue ≡ []) × (s.held ≢ [])
      by_cause (none_queued, inl h) = cc
      by_cause (none_queued, inr h) = (none_queued, held-ne h)
