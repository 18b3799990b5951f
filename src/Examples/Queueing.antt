-- ===== src/Examples/Queueing.antt =====
-- The queue and the scheduler on three jobs.
use link_scheduling.Prelude.{
  ℕ, ◌+◌, ◌*◌, ◌<◌, ◌≡◌, ◌≢◌, refl, arith, false, List, [], ◌∷◌, ◌++◌, map, min, some, none, length,
  ltb, add64,
}
use link_scheduling.Request.{Request, remaining, IsSound}
use link_scheduling.Queue.{push, wait_pop, wait_pop_best, close, requeue, try_pop, complete}
use link_scheduling.Queue.Order.{
  FifoOutcome, Call, pushes, requeues, takes, tries, completes, closes, call, run, run_fifo,
  wait_pop-FifoOutcome,
}
use link_scheduling.Queue.Best.{BestOutcome, wait_pop_best-BestOutcome}
use link_scheduling.Queue.Fd
use link_scheduling.Queue.Fd.{FdQueue, FdOutcome, close_drains}
use link_scheduling.Scheduling.{
  sjf, rr, drr, Scheduler, make_scheduler, shorter, next, get_budget, account, should_requeue,
}
use link_scheduling.Scheduling.Sjf.{shorter-IsOrder, SjfOutcome, next-SjfOutcome}
use link_scheduling.Scheduling.Budget.{allowance, get_budget-min, get_budget_pos, account-IsSound}
use link_scheduling.Scheduling.Deficit.{
  deficit_round_robin, WithinBudget, rounds_after, sum, rounds-deficit,
}
use link_scheduling.Examples.{job, three_jobs}

-- A history with a refused push, a requeue and a pop after the close.
abbrev history : List Call
history =
    takes
    ∷ pushes (job 4 5 13)
    ∷ closes
    ∷ pushes (job 5 5 14)
    ∷ requeues (job 1 90 10)
    ∷ tries
    ∷ takes
    ∷ completes
    ∷ []

abbrev ids : List Request → List ℕ
ids = map (λ (r : Request). r.request_id)

history_order : ids (run three_jobs history).left ≡ 1 ∷ 2 ∷ 3 ∷ []
unfolding run call push requeue wait_pop try_pop complete close
history_order = refl

history_rest : ids (run three_jobs history).after.queue ≡ 4 ∷ 1 ∷ []
unfolding run call push requeue wait_pop try_pop complete close
history_rest = refl

run_fifo_example :
    three_jobs.queue ++ (run three_jobs history).entered
    ≡ (run three_jobs history).left ++ (run three_jobs history).after.queue
run_fifo_example = run_fifo three_jobs history

wait_pop-FifoOutcome_example : FifoOutcome three_jobs.queue three_jobs (wait_pop three_jobs)
wait_pop-FifoOutcome_example = wait_pop-FifoOutcome three_jobs

wait_pop_best-BestOutcome_example :
    BestOutcome shorter shorter-IsOrder three_jobs.queue three_jobs
      (wait_pop_best shorter three_jobs)
wait_pop_best-BestOutcome_example = wait_pop_best-BestOutcome shorter shorter-IsOrder three_jobs

abbrev two_sockets : FdQueue
two_sockets = record { queue = 7 ∷ 9 ∷ []; closed = false }

close_drains_example :
    FdOutcome two_sockets.queue (Fd.close two_sockets) (Fd.wait_pop (Fd.close two_sockets))
    × (Fd.wait_pop (Fd.close two_sockets) ≢ Fd.waits)
    × ((Fd.push (Fd.close two_sockets) 11).1 ≡ false)
    × ((Fd.push (Fd.close two_sockets) 11).0 ≡ Fd.close two_sockets)
close_drains_example = close_drains two_sockets 11

abbrev shortest_first : Scheduler
shortest_first = record { policy = sjf; quantum = 0 }

next-SjfOutcome_example : SjfOutcome 0 three_jobs (next shortest_first three_jobs)
next-SjfOutcome_example = next-SjfOutcome 0 three_jobs

get_budget-min_example :
    (get_budget (deficit_round_robin 32) (job 1 90 10)).1
    ≡ min (remaining (job 1 90 10)) (allowance drr 32 (job 1 90 10))
get_budget-min_example = get_budget-min (deficit_round_robin 32) (job 1 90 10) (omega arith)

make_drr : make_scheduler drr 32 ≡ some (deficit_round_robin 32)
unfolding make_scheduler
make_drr = refl

no_quantum : make_scheduler rr 0 ≡ none
unfolding make_scheduler
no_quantum = refl

get_budget_pos_example : 0 < (get_budget (deficit_round_robin 32) (job 1 90 10)).1
get_budget_pos_example =
    get_budget_pos drr 32 (deficit_round_robin 32) (job 1 90 10) make_drr (omega arith)
      (omega arith)

job-IsSound : IsSound (job 1 90 10)
job-IsSound = record { total_fits = omega arith; offset_le = omega arith }

account-IsSound_example :
    IsSound (account shortest_first (job 1 90 10) 100)
    × ((account shortest_first (job 1 90 10) 100).offset ≡ min (0 + 100) 90)
    × ((account shortest_first (job 1 90 10) 100).total_bytes ≡ 90)
    × (should_requeue (account shortest_first (job 1 90 10) 100) ≡ ltb (0 + 100) 90)
account-IsSound_example = account-IsSound shortest_first (job 1 90 10) 100 job-IsSound

-- A round that sends nothing, and one that sends two quanta.
abbrev lengths : List ℕ
lengths = 0 ∷ 64 ∷ []

within : WithinBudget (deficit_round_robin 32) (job 1 90 10) lengths
unfolding get_budget account add64
within = (omega arith, omega arith, (omega arith, omega arith, tt))

rounds-deficit_example :
    (rounds_after (deficit_round_robin 32) (job 1 90 10) lengths).deficit + sum lengths
    ≡ 0 + length lengths * 32
rounds-deficit_example = rounds-deficit 32 (job 1 90 10) lengths (omega arith) within
