-- ===== src/Worker/Deliver/Moves.antt =====
-- How far a worker's round of a GET takes the request (main.cpp, server.cpp).
use mathlib.Core.Path.{subst}
use link_scheduling.Prelude.{
  ℕ, min, ◌+◌, ◌<◌, ◌≡◌, refl, sym, ap, ◌∙◌, inl, inr, Bool, true, false, ◌&&◌, ◌++◌, arith, ltb,
  ◌==◌, if◌then◌else◌, length, concat, Bool-cases, ltb→lt,
}
use link_scheduling.Prelude.Text.{Bytes}
use link_scheduling.Request.{Request, get, remaining, IsSound}
use link_scheduling.World.{World, monotonic_ns, close_socket}
use link_scheduling.World.Send.{delivered}
use link_scheduling.Scheduling.{SchedulingPolicy, Scheduler, account, should_requeue, spend}
use link_scheduling.Scheduling.Budget.{account-IsSound}
use link_scheduling.Server.Get.Round.{sent_lines, after_round, header, serve_get-sent_lines}
use link_scheduling.Worker.{
  Setup, Outcome, dropped, again, finished, stamp_start, serve, is_rr, is_get, forfeit,
  finish_request, commit, book_round, drop_request, worker_round,
}
use link_scheduling.Worker.Deliver.{IsDownload}
use link_scheduling.Worker.Deliver.Round.{IsDownload-stamp_start}

-- A round that served `n` bytes of a request, with this offset, deficit and size, has left `r`,
-- which is not done.
pub record MovedFrom (policy : SchedulingPolicy) (offset deficit total : ℕ) (r : Request) (n : ℕ)
    : Type 0 where
  pub moved : r.offset ≡ offset + n
  pub spent : r.deficit ≡ spend policy n deficit
  pub unfinished : offset + n < total
  pub size : r.total_bytes ≡ total

abbrev pub Moved : SchedulingPolicy → Request → Request → ℕ → Type 0
Moved policy req r n = MovedFrom policy req.offset req.deficit req.total_bytes r n

abbrev pub MovedOutcome : SchedulingPolicy → Request → ℕ → Outcome × World → Type 0
MovedOutcome policy req n (dropped r, w) = Unit
MovedOutcome policy req n (again r, w) = Moved policy req r n
MovedOutcome policy req n (finished r, w) = Unit

forfeit-Moved :
    (su : Setup) (policy : SchedulingPolicy) (req r : Request) (requeued : Bool)
    (budget bytes n : ℕ)
    → Moved policy req r n
    → Moved policy req (forfeit su r requeued budget bytes) n
unfolding forfeit
forfeit-Moved su policy req r requeued budget bytes n m =
    elim (Bool-cases
      (requeued && (is_rr su.scheduler.policy && (is_get r.op && ltb bytes budget)))) [
        | inl h ↦
            rw (h, forfeit)
              (record {
                moved = m.moved;
                spent = m.spent;
                unfinished = m.unfinished;
                size = m.size;
              })
        | inr h ↦ rw (h, forfeit) m
      ]

finish_request-MovedOutcome :
    (su : Setup) (policy : SchedulingPolicy) (req r : Request) (n : ℕ) (w : World)
    → r.op ≡ get
    → MovedOutcome policy req n (finish_request su r w)
unfolding finish_request commit monotonic_ns close_socket
finish_request-MovedOutcome su policy req r n w op = rw (op, finish_request) tt

account-deficit :
    (s : Scheduler) (req : Request) (n : ℕ)
    → req.offset + n < req.total_bytes
    → (account s req n).deficit ≡ spend s.policy n req.deficit
unfolding account
account-deficit s req n h =
    let all : min n (remaining req) ≡ n = ground arith in
    ap (λ (k : ℕ). spend s.policy k req.deficit) all

booked-op :
    (su : Setup) (req : Request) (budget n : ℕ)
    → req.op ≡ get
    → (forfeit su (account su.scheduler req n) false budget n).op ≡ get
unfolding account forfeit
booked-op su req budget n op = op

book_round-MovedOutcome :
    (su : Setup) (req : Request) (budget n : ℕ) (w : World)
    → req.op ≡ get
    → IsSound req
    → MovedOutcome su.scheduler.policy req n (book_round su req budget n w)
unfolding book_round
book_round-MovedOutcome su req budget n w op sound =
    let booked = account su.scheduler req n in
    let (still_sound, offset, total, more) = account-IsSound su.scheduler req n sound in
    elim (Bool-cases (should_requeue booked)) [
      | inl h ↦
          let unfinished : req.offset + n < req.total_bytes = ltb→lt _ _ (sym more ∙ h) in
          rw (h, book_round)
            (forfeit-Moved su su.scheduler.policy req booked true budget n n (record {
              moved = omega (arith, offset, unfinished);
              spent = account-deficit su.scheduler req n unfinished;
              unfinished = unfinished;
              size = total;
            }))
      | inr h ↦
          rw (h, book_round)
            (finish_request-MovedOutcome su su.scheduler.policy req _ n w
              (booked-op su req budget n op))
    ]

-- How much a round sends.
abbrev pub round_size : Setup → ℕ → Request → Bytes → ℕ
round_size su budget req content =
    length (concat (sent_lines budget (is_rr su.scheduler.policy) req content))

stamp_start-start_ns :
    (req : Request) (w : World) → (s : ℕ) × ((stamp_start req w).0 ≡ record req { start_ns = s })
unfolding stamp_start monotonic_ns
stamp_start-start_ns req w = elim (Bool-cases (req.start_ns == 0)) [
  | inl h ↦ rw (h, stamp_start) (_, refl)
  | inr h ↦ rw (h, stamp_start) (req.start_ns, refl)
]

module _ (su : Setup) (before content : Bytes) (budget : ℕ) (positive : 0 < su.packetization) where
  round-MovedOutcome :
      (req : Request) (w : World)
      → IsDownload before content su.file_dir req w
      → MovedOutcome su.scheduler.policy req (round_size su budget req content) (
          let result = serve get su req budget w in
          (if result.0.success
              then book_round su result.0.request budget result.0.bytes_processed
              else drop_request su result.0.request)
            result.1)
  unfolding serve
  round-MovedOutcome req w d =
      let allow = is_rr su.scheduler.policy in
      let ts = concat (sent_lines budget allow req content) in
      rw
        (serve_get-sent_lines req su.file_dir content budget allow su.packetization w d.valid_name
          d.holds d.sends_all d.about positive)
        (book_round-MovedOutcome su
          (record (after_round budget allow req content) { response_sent = true }) budget
          (length ts) (delivered req.client_fd (header req ++ ts) w) d.op
          (record {
            total_fits = omega (arith, d.about.total, d.holds.seekable);
            offset_le = omega (arith, d.about.total, d.about.reached);
          }))

  -- A round that does not finish a download has moved the offset by what it has sent, and spent that.
  pub worker_round-MovedOutcome :
      (req : Request) (w : World)
      → IsDownload before content su.file_dir req w
      → MovedOutcome su.scheduler.policy req
          (round_size su budget req content)
          (worker_round su req budget w)
  unfolding worker_round
  worker_round-MovedOutcome req w d =
      let started = stamp_start req w in
      let e = IsDownload-stamp_start su before content budget positive req w d in
      let (s, same) = stamp_start-start_ns req w in
      rw (e.op, worker_round)
        (subst
          (λ r. MovedOutcome su.scheduler.policy r (round_size su budget r content) (
            let result = serve get su started.0 budget started.1 in
            (if result.0.success
                then book_round su result.0.request budget result.0.bytes_processed
                else drop_request su result.0.request)
              result.1))
          same (round-MovedOutcome started.0 started.1 e))
