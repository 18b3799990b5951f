-- ===== src/Worker/Commit/Round.antt =====
-- A worker's round of a PUT (main.cpp, server.cpp).
use mathlib.Core.Path.{subst}
use link_scheduling.Prelude.{
  ℕ, ◌+◌, ◌<◌, ◌≡◌, refl, sym, ◌∙◌, inl, inr, true, arith, ◌==◌, if◌then◌else◌, Bool-cases,
}
use link_scheduling.Prelude.Text.{Bytes}
use link_scheduling.Request.{Request, put}
use link_scheduling.World.{World, monotonic_ns, send_all}
use link_scheduling.Protocol.{send_response}
use link_scheduling.Server.Put.{staged, serve_put}
use link_scheduling.Server.Put.Stream.{Uploads}
use link_scheduling.Server.Put.Unflushed.{serve_put-unflushed}
use link_scheduling.Server.Put.Upload.{
  Receiving, not_begun, begun, Uploads-rebase, serve_put-Uploads,
}
use link_scheduling.Worker.{Setup, stamp_start, serve, drop_request, book_round, worker_round}
use link_scheduling.Worker.Commit.{IsUpload, CommitOutcome, book_round-CommitOutcome}

-- Neither a time stamp nor a response touches the upload.
Receiving-moved :
    {up dir : Bytes} {req : Request} {w w' : World} (now : ℕ)
    → w'.files ≡ w.files
    → w'.arrivals ≡ w.arrivals
    → Receiving up dir req w
    → Receiving up dir (record req { start_ns = now }) w'
Receiving-moved now e f (not_begun z whole fits) = not_begun z (rw f whole) fits
Receiving-moved now e f (begun nz u) = begun nz (record {
  content = u.content;
  stored = rw e u.stored;
  kept = (refl, refl, refl, refl, refl);
  reached = u.reached;
  whole = rw f u.whole;
  pending_fits = u.pending_fits;
})

IsUpload-stamp_start :
    (up dir : Bytes) (req : Request) (w : World)
    → IsUpload up dir req w
    → IsUpload up dir (stamp_start req w).0 (stamp_start req w).1
unfolding stamp_start monotonic_ns
IsUpload-stamp_start up dir req w u = elim (Bool-cases (req.start_ns == 0)) [
  | inl h ↦
      rw (h, stamp_start)
        (record {
          op = u.op;
          part = record { total_fits = u.part.total_fits; offset_le = u.part.offset_le };
          unfinished = u.unfinished;
          none_lost = u.none_lost;
          receiving = Receiving-moved _ refl refl u.receiving;
        })
  | inr h ↦ rw (h, stamp_start) u
]

staged-kept :
    (req : Request)
    → ((staged req).op ≡ req.op)
      × ((staged req).filename ≡ req.filename)
      × ((staged req).total_bytes ≡ req.total_bytes)
      × ((staged req).offset ≡ req.offset)
unfolding staged
staged-kept req = elim (Bool-cases (req.offset == 0)) [
  | inl h ↦ rw h (refl, refl, refl, refl)
  | inr h ↦ rw h (refl, refl, refl, refl)
]

module _ (su : Setup) (up : Bytes) (req : Request) (budget : ℕ) (some_budget : 0 < budget) where
  serve_put-CommitOutcome :
      (w : World)
      → IsUpload up su.file_dir req w
      → let (s, w') = serve_put req su.file_dir budget w in
        s.success ≡ true
        → CommitOutcome up su.file_dir (book_round su s.request budget s.bytes_processed w')
  serve_put-CommitOutcome w u good =
      let (s, w') = serve_put req su.file_dir budget w in
      let (written, counted) =
        serve_put-Uploads up su.file_dir req budget w u.part u.none_lost
          (omega (arith, u.unfinished)) u.receiving good in
      let (op, name, total, offset) = staged-kept req in
      let same_total = written.kept.3 ∙ total in
      let same_offset = written.kept.4 ∙ offset in
      book_round-CommitOutcome su up s.request s.bytes_processed w' (written.kept.1 ∙ op ∙ u.op)
        (record {
          total_fits = omega (arith, same_total, u.part.total_fits);
          offset_le = omega (arith, same_total, same_offset, u.part.offset_le);
        })
        budget (omega (arith, same_total, same_offset, counted))
        (omega (arith, counted, same_offset, u.unfinished))
        (serve_put-unflushed req su.file_dir budget w u.none_lost)
        (subst (λ n. Uploads up su.file_dir s.request s.request (n + s.bytes_processed) w')
          (sym same_offset) (Uploads-rebase written))

  serve-CommitOutcome :
      (w : World)
      → IsUpload up su.file_dir req w
      → let (s, w') = serve put su req budget w in
        s.success ≡ true
        → CommitOutcome up su.file_dir (book_round su s.request budget s.bytes_processed w')
  unfolding serve send_response send_all
  serve-CommitOutcome w u = elim (Bool-cases (req.offset == 0)) [
    | inl h ↦
        rw (h, serve)
          (serve_put-CommitOutcome (send_response req.client_fd 0 w).1 (record {
            op = u.op;
            part = u.part;
            unfinished = u.unfinished;
            none_lost = u.none_lost;
            receiving = Receiving-moved req.start_ns refl refl u.receiving;
          }))
    | inr h ↦ rw (h, serve) (serve_put-CommitOutcome w u)
  ]

round-CommitOutcome :
    (su : Setup) (up : Bytes) (req : Request) (budget : ℕ) (w : World)
    → 0 < budget
    → IsUpload up su.file_dir req w
    → CommitOutcome up su.file_dir (
        let result = serve put su req budget w in
        (if result.0.success
            then book_round su result.0.request budget result.0.bytes_processed
            else drop_request su result.0.request)
          result.1)
unfolding drop_request
round-CommitOutcome su up req budget w pos u =
    let result = serve put su req budget w in
    elim (Bool-cases result.0.success) [
      | inl h ↦ rw h (serve-CommitOutcome su up req budget pos w u h)
      | inr h ↦ rw h tt
    ]

-- If no close of a stream loses bytes: a worker's round with some budget, for an unfinished PUT whose upload is `up` and of which the
-- first bytes, as many as the offset says, are in its staging file (or which has not begun): if the
-- request goes back to the queue, then it is again an unfinished PUT of which as many bytes of `up`
-- as its offset says are in its staging file, and the next ones are unread; and if it is recorded as
-- served, then the file of its name holds exactly the first `total_bytes` bytes of `up`.
pub worker_round-CommitOutcome :
    (su : Setup) (up : Bytes) (req : Request) (budget : ℕ) (w : World)
    → 0 < budget
    → IsUpload up su.file_dir req w
    → CommitOutcome up su.file_dir (worker_round su req budget w)
unfolding worker_round
worker_round-CommitOutcome su up req budget w pos u =
    let started = stamp_start req w in
    let v = IsUpload-stamp_start up su.file_dir req w u in
    rw (v.op, worker_round) (round-CommitOutcome su up started.0 budget started.1 pos v)
