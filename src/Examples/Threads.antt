-- ===== src/Examples/Threads.antt =====
-- A run with one worker: a request is let in, served and recorded, the queue is closed, and the
-- worker ends.
use link_scheduling.Prelude.{ℕ, ◌+◌, ◌≡◌, ◌≢◌, refl, arith, true, false, add64, ◌++◌, [], ◌∷◌}
use link_scheduling.Prelude.Text.{eq_bytes}
use link_scheduling.Queue.{RequestQueue, push, close, complete, wait_pop, is_ready}
use link_scheduling.Scheduling.{fcfs, waiting, invalid, next, get_budget, account, should_requeue}
use link_scheduling.Request.{Request}
use link_scheduling.Worker.{
  Setup, Outcome, finished, settle, worker_round, stamp_start, serve, book_round, finish_request,
  forfeit, commit,
}
use link_scheduling.World.{monotonic_ns, close_socket, send_all}
use link_scheduling.Metrics.{record_request}
use link_scheduling.FileIo.{is_valid_filename, contains, file_exists}
use link_scheduling.Protocol.{send_response}
use link_scheduling.Server.Get.{serve_get, send_header, get_round}
use link_scheduling.System.{
  System, Reach, starts, then_step, admits, takes, serves, ends, closes, start, with_requests,
  leaving,
}
use link_scheduling.System.Next.{NextOutcome, next-NextOutcome}
use link_scheduling.System.Invariant.{tally, tally_held}
use link_scheduling.System.Drain.{requests_kept, ended_drained, closed_waits_for_worker}
use link_scheduling.Examples.{job, three_jobs, directory, disk}

abbrev setup : Setup
setup = record {
  file_dir = directory;
  scheduler = record { policy = fcfs; quantum = 0 };
  packetization = 1;
}

next-NextOutcome_example : NextOutcome three_jobs (next setup.scheduler three_jobs)
next-NextOutcome_example = next-NextOutcome setup.scheduler three_jobs

abbrev only_job : Request
only_job = job 1 0 10

abbrev admitted : System
admitted = record start {
  shared = with_requests start.shared (push start.shared.requests only_job).0;
  entered = only_job ∷ [];
}

abbrev nothing_queued : RequestQueue
nothing_queued = record { queue = []; closed = false; inflight = 1 }

abbrev serving : System
serving = record admitted {
  shared = with_requests admitted.shared nothing_queued;
  held = record { request = only_job; budget = 0 } ∷ [];
}

abbrev served_once : Outcome
served_once = (worker_round setup only_job 0 disk).0

abbrev served_all : System
served_all = record serving {
  shared = settle served_once serving.shared;
  held = [];
  left = leaving served_once ++ [];
}

abbrev shut : System
shut = record served_all {
  shared = with_requests served_all.shared (close served_all.shared.requests);
}

abbrev over : System
over = record shut { ended = 1 }

admitted-Reach : Reach setup 1 admitted
unfolding push
admitted-Reach = then_step starts (admits only_job)

serving-Reach : Reach setup 1 serving
unfolding push next wait_pop is_ready get_budget add64
serving-Reach = then_step admitted-Reach (takes (omega arith) refl)

served_all-Reach : Reach setup 1 served_all
served_all-Reach =
    then_step serving-Reach (serves [] [] (record { request = only_job; budget = 0 }) disk refl)

shut-Reach : Reach setup 1 shut
shut-Reach = then_step served_all-Reach closes

done :
    served_once
    ≡ finished (record only_job {
      response_sent = true;
      rounds = 1;
      start_ns = 1000000000;
      finish_ns = 2000000000;
    })
unfolding worker_round stamp_start serve serve_get is_valid_filename contains eq_bytes file_exists
    send_header send_response get_round monotonic_ns book_round account should_requeue
    finish_request forfeit commit close_socket send_all add64
done = refl

none_left : next setup.scheduler shut.shared.requests ≡ invalid shut.shared.requests
unfolding settle next wait_pop is_ready close complete record_request
none_left = rw done refl

over-Reach : Reach setup 1 over
over-Reach = then_step shut-Reach (ends (omega arith) none_left)

requests_kept_example :
    tally 1 over.entered
    ≡ tally 1 over.shared.requests.queue + tally_held 1 over.held + tally 1 over.left
requests_kept_example = requests_kept (omega arith) over-Reach 1

ended_drained_example :
    (over.shared.requests.queue ≡ [])
    × (over.held ≡ [])
    × (over.shared.requests.closed ≡ true)
    × ((id : ℕ) → tally id over.entered ≡ tally id over.left)
ended_drained_example = ended_drained (omega arith) over-Reach (omega arith)

-- The queue is closed while the worker serves.
abbrev busy : System
busy = record serving { shared = with_requests serving.shared (close nothing_queued) }

busy-Reach : Reach setup 1 busy
busy-Reach = then_step serving-Reach closes

busy_waits : next setup.scheduler busy.shared.requests ≡ waiting
unfolding next wait_pop is_ready close
busy_waits = refl

busy_closed : busy.shared.requests.closed ≡ true
unfolding close
busy_closed = refl

closed_waits_for_worker_example : (busy.shared.requests.queue ≡ []) × (busy.held ≢ [])
closed_waits_for_worker_example =
    closed_waits_for_worker (omega arith) busy-Reach busy_closed busy_waits
