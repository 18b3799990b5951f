-- ===== src/Worker/Deliver/Round.antt =====
-- A worker's round of a GET (main.cpp, server.cpp).
use link_scheduling.Prelude.{
  ℕ, ◌+◌, ◌≤◌, ◌<◌, ◌≡◌, refl, sym, ap, ◌∙◌, inl, inr, true, [], ◌++◌, arith, ◌==◌, if◌then◌else◌,
  length, take, concat, take_all, length-append, length-drop, Bool-cases, ltb→le,
}
use link_scheduling.Prelude.Text.{Bytes}
use link_scheduling.Request.{Request, get, IsSound}
use link_scheduling.World.{World, monotonic_ns}
use link_scheduling.World.Send.{delivered}
use link_scheduling.FileIo.{is_valid_filename, path_in}
use link_scheduling.FileIo.Lines.Read.{Holds}
use link_scheduling.Protocol.{ok_line}
use link_scheduling.Scheduling.{account, should_requeue}
use link_scheduling.Scheduling.Budget.{account-IsSound}
use link_scheduling.Server.Get.Round.{
  IsAbout, sent_lines, after_round, header, serve_get-sent_lines,
}
use link_scheduling.Worker.{
  Setup, stamp_start, serve, is_rr, forfeit, book_round, drop_request, worker_round,
}
use link_scheduling.Worker.Deliver.{
  part_sent, IsDownload, DeliverOutcome, sent_here, round_bytes-Splits, sent_progress,
  finish_request-DeliverOutcome, HasSent-same, IsDownload-forfeit,
}

module _ (su : Setup) (before content : Bytes) (req : Request) (n : ℕ) (w : World)
    (op : req.op ≡ get) (valid : is_valid_filename req.filename ≡ true)
    (holds : Holds w (path_in su.file_dir req.filename) content) (sends_all : w.sends ≡ [])
    (about : IsAbout req content) (responded : req.response_sent ≡ true)
    (fits : req.offset + n ≤ length content)
    (sent : w.sent req.client_fd
      ≡ before ++ (ok_line (length content) ++ take (req.offset + n) content)) where
  sound : IsSound req
  sound = record {
    total_fits = omega (arith, about.total, holds.seekable);
    offset_le = omega (arith, about.total, about.reached);
  }

  booked_offset : (account su.scheduler req n).offset ≡ req.offset + n
  booked_offset = omega (arith, (account-IsSound su.scheduler req n sound).1, about.total, fits)

  booked-IsDownload : IsDownload before content su.file_dir (account su.scheduler req n) w
  unfolding account
  booked-IsDownload = record {
    op = op;
    valid_name = valid;
    holds = holds;
    sends_all = sends_all;
    about = record { total = about.total; reached = omega (arith, booked_offset, fits) };
    has_sent = part_sent responded (
        sent
        ∙ ap (λ (k : ℕ). before ++ (ok_line (length content) ++ take k content))
            (sym booked_offset));
  }

  booked_done :
      req.total_bytes ≤ req.offset + n
      → w.sent (account su.scheduler req n).client_fd
        ≡ before ++ (ok_line (length content) ++ content)
  unfolding account
  booked_done h =
      sent
      ∙ ap (λ (b : Bytes). before ++ (ok_line (length content) ++ b))
          (take_all (req.offset + n) content (omega (arith, about.total, h)))

  book_round-DeliverOutcome :
      (budget : ℕ) → DeliverOutcome before content su.file_dir (book_round su req budget n w)
  unfolding book_round forfeit
  book_round-DeliverOutcome budget =
      let booked = account su.scheduler req n in
      let more = (account-IsSound su.scheduler req n sound).3 in
      elim (Bool-cases (should_requeue booked)) [
        | inl h ↦
            rw (h, book_round)
              (IsDownload-forfeit su before content booked true budget n w booked-IsDownload)
        | inr h ↦
            rw (h, book_round)
              (finish_request-DeliverOutcome su before content booked w booked-IsDownload.op
                (booked_done (ltb→le (req.offset + n) req.total_bytes (sym more ∙ h))))
      ]

module _ (su : Setup) (before content : Bytes) (budget : ℕ) (positive : 0 < su.packetization) where
  round-DeliverOutcome :
      (req : Request) (w : World)
      → IsDownload before content su.file_dir req w
      → DeliverOutcome before content su.file_dir (
          let result = serve get su req budget w in
          (if result.0.success
              then book_round su result.0.request budget result.0.bytes_processed
              else drop_request su result.0.request)
            result.1)
  unfolding serve
  round-DeliverOutcome req w d =
      let allow = is_rr su.scheduler.policy in
      let ts = concat (sent_lines budget allow req content) in
      let (rest, splits) = round_bytes-Splits budget allow req content in
      rw
        (serve_get-sent_lines req su.file_dir content budget allow su.packetization w d.valid_name
          d.holds d.sends_all d.about positive)
        (book_round-DeliverOutcome su before content
          (record (after_round budget allow req content) { response_sent = true }) (length ts)
          (delivered req.client_fd (header req ++ ts) w) d.op d.valid_name
          (record { opens = d.holds.opens; stored = d.holds.stored; seekable = d.holds.seekable })
          d.sends_all (record { total = d.about.total; reached = d.about.reached }) refl
          (omega (
            arith,
            d.about.reached,
            ap length splits,
            length-append ts rest,
            length-drop req.offset content,
          ))
          (sent_here w.sent req.client_fd _
            ∙ sent_progress before content req w ts rest d.about d.has_sent splits)
          budget)

  pub IsDownload-stamp_start :
      (req : Request) (w : World)
      → IsDownload before content su.file_dir req w
      → IsDownload before content su.file_dir (stamp_start req w).0 (stamp_start req w).1
  unfolding stamp_start monotonic_ns
  IsDownload-stamp_start req w d = elim (Bool-cases (req.start_ns == 0)) [
    | inl h ↦
        rw (h, stamp_start)
          (record {
            op = d.op;
            valid_name = d.valid_name;
            holds = record {
              opens = d.holds.opens;
              stored = d.holds.stored;
              seekable = d.holds.seekable;
            };
            sends_all = d.sends_all;
            about = record { total = d.about.total; reached = d.about.reached };
            has_sent = HasSent-same refl refl refl d.has_sent;
          })
    | inr h ↦ rw (h, stamp_start) d
  ]

  -- A worker's round, with any budget and a positive packetization, for a GET with a valid name, of
  -- a file that can be read and is as long as the request says, with no send to fail, where the peer has nothing yet
  -- or the response header and the content up to the offset: the request is not dropped; if it goes
  -- back to the queue, the same holds of it again; and if it is recorded as served, the peer has
  -- the response header and the whole content, once and in order, and nothing else.
  pub worker_round-DeliverOutcome :
      (req : Request) (w : World)
      → IsDownload before content su.file_dir req w
      → DeliverOutcome before content su.file_dir (worker_round su req budget w)
  unfolding worker_round
  worker_round-DeliverOutcome req w d =
      let started = stamp_start req w in
      let e = IsDownload-stamp_start req w d in
      rw (e.op, worker_round) (round-DeliverOutcome started.0 started.1 e)
