-- ===== src/Worker/Commit.antt =====
-- A PUT in a worker: the round, the bookkeeping, and the move of a complete upload to its name
-- (main.cpp).
pub mod Round
use mathlib.Core.Path.{subst}
use link_scheduling.Prelude.{
  ℕ, ◌+◌, ◌-◌, ◌≤◌, ◌<◌, ◌≡◌, refl, sym, ap, ◌∙◌, inl, inr, Bool, true, some, none, [], arith, ◌==◌,
  if◌then◌else◌, take, take-append, Bool-cases, ltb→le, ltb→lt,
}
use link_scheduling.Prelude.Text.{Bytes}
use link_scheduling.Request.{Request, put, IsSound}
use link_scheduling.World.{
  World, draw_fault, at_path, next_fault, monotonic_ns, close_socket, send_all,
}
use link_scheduling.FileIo.{path_in}
use link_scheduling.Protocol.{send_response, send_error}
use link_scheduling.Scheduling.{account, should_requeue}
use link_scheduling.Scheduling.Budget.{account-IsSound}
use link_scheduling.Server.Put.{staged, serve_put}
use link_scheduling.Server.Put.Stream.{unread, Uploads, at_path_here}
use link_scheduling.Server.Put.Upload.{
  Receiving, not_begun, begun, Uploads-rebase, serve_put-Uploads,
}
use link_scheduling.Worker.{
  Setup, Outcome, dropped, again, finished, stamp_start, serve, rename_file, drop_request, commit,
  finish_request, forfeit, book_round, worker_round,
}

-- Between two rounds: an unfinished upload, where no close of a stream loses bytes.
pub record IsUpload (up dir : Bytes) (req : Request) (w : World) : Type 0 where
  pub op : req.op ≡ put
  pub part : IsSound req
  pub unfinished : req.offset < req.total_bytes
  pub none_lost : w.unflushed ≡ []
  pub receiving : Receiving up dir req w

-- An upload behind a round: on its way, or in the directory under its name.
abbrev pub CommitOutcome : Bytes → Bytes → Outcome × World → Type 0
CommitOutcome up dir (dropped r, w) = Unit
CommitOutcome up dir (again r, w) = IsUpload up dir r w
CommitOutcome up dir (finished r, w) =
    w.files (path_in dir r.filename) ≡ some (take r.total_bytes up)

-- A complete upload is all that is in the staging file.
content-take :
    {up dir : Bytes} {base req : Request} {n : ℕ} {w : World} (u : Uploads up dir base req n w)
    → u.content ≡ take n up
content-take {req = req} {n} {w} u =
    sym (take-append u.content (unread req w)) ∙ rw (u.reached, u.whole) refl

finish_request-CommitOutcome :
    (su : Setup) (up : Bytes) (req : Request) (w : World)
    → req.op ≡ put
    → Uploads up su.file_dir req req req.total_bytes w
    → CommitOutcome up su.file_dir (finish_request su req w)
unfolding finish_request commit rename_file draw_fault send_response send_error send_all
    monotonic_ns close_socket
finish_request-CommitOutcome su up req w op u = elim (Bool-cases (next_fault w.faults).0) [
  | inl h ↦ rw (op, finish_request) (rw h tt)
  | inr h ↦
      rw (op, finish_request)
        (rw h (
          rw u.stored (
            at_path_here (at_path w.files (path_in su.file_dir req.staging_filename) none)
              (path_in su.file_dir req.filename) (some u.content)
            ∙ ap some (content-take u))))
]

-- Only a GET forfeits bytes.
forfeit_put :
    (su : Setup) (req : Request) (requeued : Bool) (budget n : ℕ)
    → req.op ≡ put
    → forfeit su req requeued budget n ≡ req
unfolding forfeit
forfeit_put su req requeued budget n op = rw op (ground arith)

module _ (su : Setup) (up : Bytes) (req : Request) (n : ℕ) (w : World) (op : req.op ≡ put)
    (part : IsSound req) where
  -- The round's bytes are booked, and nothing else changes for the upload.
  booked-Uploads :
      (m : ℕ)
      → req.offset + n ≡ m
      → Uploads up su.file_dir req req (req.offset + n) w
      → Uploads up su.file_dir (account su.scheduler req n) (account su.scheduler req n) m w
  unfolding account
  booked-Uploads m e u = record {
    content = u.content;
    stored = u.stored;
    kept = (refl, refl, refl, refl, refl);
    reached = u.reached ∙ e;
    whole = u.whole;
    pending_fits = u.pending_fits;
  }

  booked_put : (account su.scheduler req n).op ≡ put
  unfolding account
  booked_put = op

  pub book_round-CommitOutcome :
      (budget : ℕ)
      → n ≤ req.total_bytes - req.offset
      → 0 < req.offset + n
      → w.unflushed ≡ []
      → Uploads up su.file_dir req req (req.offset + n) w
      → CommitOutcome up su.file_dir (book_round su req budget n w)
  unfolding book_round
  book_round-CommitOutcome budget fits pos none_lost u =
      let booked = account su.scheduler req n in
      let (sound, at, total, more) = account-IsSound su.scheduler req n part in
      let at_sum : req.offset + n ≡ booked.offset = omega (arith, at, part.offset_le) in
      rw (forfeit_put su booked (should_requeue booked) budget n booked_put)
        (elim (Bool-cases (should_requeue booked)) [
          | inl h ↦ rw h (record {
            op = booked_put;
            part = sound;
            unfinished =
                omega
                  (arith, total, at_sum, ltb→lt (req.offset + n) req.total_bytes (sym more ∙ h));
            none_lost = none_lost;
            receiving = begun (omega (arith, at_sum)) (booked-Uploads booked.offset at_sum u);
          })
          | inr h ↦ rw h (
              finish_request-CommitOutcome su up booked w booked_put (
                booked-Uploads booked.total_bytes
                  (omega (
                    arith,
                    total,
                    part.offset_le,
                    ltb→le (req.offset + n) req.total_bytes (sym more ∙ h),
                  ))
                  u))
        ])
