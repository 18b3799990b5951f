-- ===== src/Worker.antt =====
-- main.cpp: worker_thread. A turn of its loop takes a decision of the scheduler, serves one round
-- of the request and hands the request back to the queue, or to the metrics.
pub mod Keeps
pub mod Commit
pub mod Deliver
use link_scheduling.Prelude.{
  ℕ, ◌-◌, Bool, true, false, not, ◌&&◌, Option, none, some, List, ltb, ◌==◌, if◌then◌else◌, add64,
}
use link_scheduling.Prelude.Text.{Bytes, codes}
use link_scheduling.Request.{Operation, get, put, health, Request}
use link_scheduling.Queue.{RequestQueue, is_empty, requeue, complete}
use link_scheduling.Scheduling.{
  SchedulingPolicy, rr, Scheduler, Decision, waiting, invalid, valid, next, account, should_requeue,
}
use link_scheduling.World.{
  World, M, pure, ◌>>=◌, ◌>>◌, at_path, draw_fault, monotonic_ns, close_socket,
}
use link_scheduling.FileIo.{path_in}
use link_scheduling.Protocol.{send_response, send_error}
use link_scheduling.Server.Get.{Served, served, serve_get}
use link_scheduling.Server.Put.{serve_put}
use link_scheduling.Metrics.{RequestMetrics, record_request}

-- What a worker thread is started with.
pub record Setup : Type 0 where
  pub file_dir : Bytes
  pub scheduler : Scheduler
  pub packetization : ℕ

abbrev pub is_rr : SchedulingPolicy → Bool
is_rr rr = true
is_rr _ = false

abbrev pub is_get : Operation → Bool
is_get get = true
is_get _ = false

abbrev pub is_put : Operation → Bool
is_put put = true
is_put _ = false

-- `if (req.start_ns == 0) req.start_ns = monotonic_ns();`
unfoldable pub stamp_start : Request → M Request
stamp_start req =
    if req.start_ns == 0
    then (do now ← monotonic_ns; pure (record req { start_ns = now }))
    else pure req

-- The call of the handler; HEALTH is never queued, and would not be served.
unfoldable pub serve : Operation → Setup → Request → ℕ → M Served
serve get su req budget =
    serve_get req su.file_dir budget (is_rr su.scheduler.policy) su.packetization
serve put su req budget = do
  first ← (if req.offset == 0 then send_response req.client_fd 0 else pure tt)
  serve_put req su.file_dir budget
serve health su req budget = pure (served false req 0)

-- `std::remove`, whose result is not looked at.
unfoldable pub remove_file : Bytes → M (Unit {0})
remove_file path = do
  fails ← draw_fault
  (λ w. (tt, if fails then w else record w { files = at_path w.files path none }))

-- `std::rename`; `true` is the result 0.
abbrev pub rename_content : Bytes → Bytes → Option Bytes → World → Bool × World
rename_content from to none w = (false, w)
rename_content from to (some content) w =
    (true, record w { files = at_path (at_path w.files from none) to (some content) })

unfoldable pub rename_file : Bytes → Bytes → M Bool
rename_file from to = do
  fails ← draw_fault
  (λ w. if fails then (false, w) else rename_content from to (w.files from) w)

-- What becomes of a request behind its round: it is dropped, goes back to the queue, or is served.
pub data Outcome : Type 0 where
  dropped : Request → Outcome
  again : Request → Outcome
  finished : Request → Outcome

-- `if (!success)`: the staging file goes, and the connection is closed.
unfoldable pub drop_request : Setup → Request → M Outcome
drop_request su req = do
  gone ←
      (if not (is_empty req.staging_filename)
        then remove_file (path_in su.file_dir req.staging_filename)
        else pure tt)
  close_socket req.client_fd
  pure (dropped req)

-- A PUT that is complete is moved to its final name.
unfoldable pub commit : Operation → Setup → Request → M Bool
commit put su req = do
  renamed ←
      rename_file (path_in su.file_dir req.staging_filename) (path_in su.file_dir req.filename)
  reported ←
      (if renamed
        then send_response req.client_fd 0
        else send_error req.client_fd (codes "cannot commit file"))
  pure renamed
commit _ su req = pure true

-- The end of a request with nothing left to send or receive.
unfoldable pub finish_request : Setup → Request → M Outcome
finish_request su req = do
  committed ← commit req.op su req
  if committed
      then (do
        now ← monotonic_ns
        close_socket req.client_fd
        pure (finished (record req { finish_ns = now })))
      else (do close_socket req.client_fd; pure (dropped req))

-- RR: what a GET round leaves of its budget is lost, if the request goes on.
unfoldable pub forfeit : Setup → Request → Bool → ℕ → ℕ → Request
forfeit su req requeued budget bytes_processed =
    if requeued && (is_rr su.scheduler.policy && (is_get req.op && ltb bytes_processed budget))
    then record req { forfeited_bytes = add64 req.forfeited_bytes (budget - bytes_processed) }
    else req

-- The bookkeeping behind a round that succeeded.
unfoldable pub book_round : Setup → Request → ℕ → ℕ → M Outcome
book_round su served_req budget bytes_processed =
    let req = account su.scheduler served_req bytes_processed in
    let requeued = should_requeue req in
    let req' = forfeit su req requeued budget bytes_processed in
    if requeued then pure (again req') else finish_request su req'

unfoldable pub worker_round : Setup → Request → ℕ → M Outcome
worker_round su req budget = do
  started ← stamp_start req
  result ← serve started.op su started budget
  if result.success
      then book_round su result.request budget result.bytes_processed
      else drop_request su result.request

-- What the worker threads share.
pub record Shared : Type 0 where
  pub requests : RequestQueue
  pub records : List RequestMetrics

-- The call of the queue, and of the metrics, that ends the round.
unfoldable pub settle : Outcome → Shared → Shared
settle (dropped r) sh = record sh { requests = complete sh.requests }
settle (again r) sh = record sh { requests = (requeue sh.requests r).0 }
settle (finished r) sh = record sh {
  requests = complete sh.requests;
  records = record_request sh.records r;
}

-- A turn of the loop: it waits in the scheduler, it ends the thread, or it goes on.
pub data Turn : Type 0 where
  blocked : Turn
  stopped : Shared → Turn
  went_on : Shared → Turn

abbrev pub turn_on : Setup → Shared → Decision → M Turn
turn_on su sh waiting = pure blocked
turn_on su sh (invalid q) = pure (stopped (record sh { requests = q }))
turn_on su sh (valid req budget q) = do
  outcome ← worker_round su req budget
  pure (went_on (settle outcome (record sh { requests = q })))

unfoldable pub worker_turn : Setup → Shared → M Turn
worker_turn su sh = turn_on su sh (next su.scheduler sh.requests)
