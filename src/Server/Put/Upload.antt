-- ===== src/Server/Put/Upload.antt =====
-- A round of serve_put: which bytes of the upload it adds to the staging file (server.cpp).
use link_scheduling.Prelude.{
  ℕ, suc, ◌+◌, ◌-◌, ◌^◌, ◌<◌, ◌≡◌, ◌≢◌, refl, sym, ◌∙◌, Bool, true, false, not, [], arith, min,
  if◌then◌else◌, length, sub64-eq, ne→==, eq→==,
}
use link_scheduling.Prelude.Text.{Bytes, codes}
use link_scheduling.Request.{Request, IsSound}
use link_scheduling.World.{World, M, next_fault, draw_fault}
use link_scheduling.FileIo.{is_valid_filename, path_in, is_streamoff, store}
use link_scheduling.Server.Get.{Served, refuse}
use link_scheduling.Server.Put.{
  Progress, chunk_size, create_file, open_update, pending_loop, put_loops, put_bytes, put_round,
  put_staged, staged, staging_name, serve_put,
}
use link_scheduling.Server.Put.Stream.{close_stream-none, at_path_here, unread, Kept, Uploads}
use link_scheduling.Server.Put.Unflushed.{put_loops-unflushed, create_file-unflushed}
use link_scheduling.Server.Put.Loops.{Uploads-move, pending_loop-PendingDone}
use link_scheduling.Server.Put.Loops.Receive.{
  ReceiveOutcome, ReceiveOutcome-if, receive_loop-ReceiveOutcome,
}

module _ (up dir : Bytes) (base : Request) where
  abbrev path : Bytes
  path = path_in dir base.staging_filename

  put_loops-ReceiveOutcome :
      (req : Request) (budget : ℕ) (w : World)
      → IsSound req
      → Uploads up dir base req req.offset w
      → ReceiveOutcome up dir base req.offset
          (min budget (req.total_bytes - req.offset))
          (put_loops req path budget w)
  unfolding put_loops
  put_loops-ReceiveOutcome req budget w part u =
      rw (sub64-eq req.total_bytes req.offset part.offset_le part.total_fits, put_loops)
        (ReceiveOutcome-if up dir base req.offset total pending.0.good _ _
          (λ good.
            let done =
              pending_loop-PendingDone up dir base (suc total) req req.offset total req.offset 0
                total w (omega arith) (omega (arith, part.total_fits)) (omega arith) (omega arith) u
                good in
            receive_loop-ReceiveOutcome up dir base (suc total) pending.0.request
              (min chunk_size total) req.offset total (req.offset + pending.0.processed)
              pending.0.processed pending.0.left pending.1 (omega (arith, part.total_fits))
              done.counted refl done.ended done.uploads)
          refl)
    where
      total : ℕ
      total = min budget (req.total_bytes - req.offset)

      pending : Progress × World
      pending = pending_loop (suc total) path req req.offset 0 total w

  put_bytes-ReceiveOutcome :
      (req : Request) (budget : ℕ) (w : World)
      → IsSound req
      → w.unflushed ≡ []
      → Uploads up dir base req req.offset w
      → ReceiveOutcome up dir base req.offset
          (min budget (req.total_bytes - req.offset))
          (put_bytes req path budget w)
  unfolding put_bytes
  put_bytes-ReceiveOutcome req budget w part none_lost u good =
      let run = put_loops req path budget w in
      let kept = put_loops-unflushed req path budget w none_lost in
      rw (good, close_stream-none path req.offset run.1 kept, put_bytes)
        (put_loops-ReceiveOutcome req budget w part u good)

  ReceiveOutcome-refuse :
      (start total : ℕ) (req : Request) (reason : Bytes) (refused : Bool) (m : M Served) (w : World)
      → ReceiveOutcome up dir base start total (m w)
      → ReceiveOutcome up dir base start total ((if refused then refuse req reason 0 else m) w)
  ReceiveOutcome-refuse start total req reason true m w h good = cc
  ReceiveOutcome-refuse start total req reason false m w h good = h good

  ReceiveOutcome-or_refuse :
      (start total : ℕ) (req : Request) (reason : Bytes) (good : Bool) (m : M Served) (w : World)
      → (good ≡ true → ReceiveOutcome up dir base start total (m w))
      → ReceiveOutcome up dir base start total ((if good then m else refuse req reason 0) w)
  ReceiveOutcome-or_refuse start total req reason true m w h e = h refl e
  ReceiveOutcome-or_refuse start total req reason false m w h e = cc

  -- The request's staging file, with the changes to the world that the round begins with.
  Uploads-world :
      {req : Request} {n : ℕ} {w w' : World}
      → w'.files ≡ w.files
      → w'.arrivals ≡ w.arrivals
      → Uploads up dir base req n w
      → Uploads up dir base req n w'
  Uploads-world e f u = record {
    content = u.content;
    stored = rw e u.stored;
    kept = u.kept;
    reached = u.reached;
    whole = rw f u.whole;
    pending_fits = u.pending_fits;
  }

  put_round-ReceiveOutcome :
      (req : Request) (budget : ℕ) (w : World)
      → IsSound req
      → w.unflushed ≡ []
      → Uploads up dir base req req.offset w
      → ReceiveOutcome up dir base req.offset
          (min budget (req.total_bytes - req.offset))
          (put_round req path budget w)
  unfolding put_round open_update draw_fault
  put_round-ReceiveOutcome req budget w part none_lost u =
      let opened = open_update path w in
      let total = min budget (req.total_bytes - req.offset) in
      ReceiveOutcome-refuse req.offset total req (codes "cannot open file") (not opened.0) _
        opened.1
        (ReceiveOutcome-refuse req.offset total req (codes "file seek error")
          (not (is_streamoff req.offset)) (put_bytes req path budget) opened.1
          (put_bytes-ReceiveOutcome req budget opened.1 part none_lost (Uploads-world refl refl u)))

  -- The first round empties the staging file.
  create_file-Uploads :
      (req : Request) (w : World)
      → Kept base req
      → unread req w ≡ up
      → length req.pending_bytes < 2 ^ 64
      → (create_file path w).0 ≡ true
      → Uploads up dir base req 0 (create_file path w).1
  unfolding create_file draw_fault
  create_file-Uploads req w kept whole fits created = by_fault (next_fault w.faults).0 created
    where
      drawn : World
      drawn = record w { faults = (next_fault w.faults).1 }

      by_fault :
          (fails : Bool)
          → not fails ≡ true
          → Uploads up dir base req 0
              (if fails then drawn else store drawn (path_in dir base.staging_filename) [])
      by_fault true e = cc
      by_fault false e = record {
        content = [];
        stored = at_path_here w.files (path_in dir base.staging_filename) _;
        kept = kept;
        reached = omega arith;
        whole = whole;
        pending_fits = fits;
      }

  -- Behind the choice of the staging file: a first round, and a later one.
  put_staged-first :
      (req : Request) (budget : ℕ) (w : World)
      → IsSound req
      → w.unflushed ≡ []
      → req.total_bytes ≢ 0
      → req.offset ≡ 0
      → Kept base req
      → unread req w ≡ up
      → length req.pending_bytes < 2 ^ 64
      → ReceiveOutcome up dir base req.offset
          (min budget (req.total_bytes - req.offset))
          (put_staged req path budget w)
  unfolding put_staged
  put_staged-first req budget w part none_lost ne z kept whole fits =
      rw (ne→== req.total_bytes 0 ne, eq→== req.offset 0 z, put_staged)
        (ReceiveOutcome-or_refuse req.offset _ req (codes "cannot create file")
          (create_file path w).0 (put_round req path budget) (create_file path w).1
          (λ created.
            put_round-ReceiveOutcome req budget (create_file path w).1 part
              (create_file-unflushed path w ∙ none_lost)
              (Uploads-move up dir base (sym z)
                (create_file-Uploads req w kept whole fits created))))

  put_staged-later :
      (req : Request) (budget : ℕ) (w : World)
      → IsSound req
      → w.unflushed ≡ []
      → req.total_bytes ≢ 0
      → req.offset ≢ 0
      → Uploads up dir base req req.offset w
      → ReceiveOutcome up dir base req.offset
          (min budget (req.total_bytes - req.offset))
          (put_staged req path budget w)
  unfolding put_staged
  put_staged-later req budget w part none_lost ne nz u =
      rw (ne→== req.total_bytes 0 ne, ne→== req.offset 0 nz, put_staged)
        (put_round-ReceiveOutcome req budget w part none_lost u)

-- Where an upload stands between two rounds: the handler has not begun with it, or its first bytes
-- are in the staging file.
pub data Receiving (up dir : Bytes) (req : Request) (w : World) : Type 0 where
  not_begun :
      req.offset ≡ 0
      → unread req w ≡ up
      → length req.pending_bytes < 2 ^ 64
      → Receiving up dir req w
  begun : req.offset ≢ 0 → Uploads up dir req req req.offset w → Receiving up dir req w

-- A round ends where the next one begins.
pub Uploads-rebase :
    {up dir : Bytes} {base req : Request} {n : ℕ} {w : World}
    → Uploads up dir base req n w
    → Uploads up dir req req n w
Uploads-rebase u = record {
  content = u.content;
  stored = rw u.kept.0 u.stored;
  kept = (refl, refl, refl, refl, refl);
  reached = u.reached;
  whole = u.whole;
  pending_fits = u.pending_fits;
}

serve_staged :
    (up dir : Bytes) (req : Request) (budget : ℕ) (w : World)
    → IsSound req
    → w.unflushed ≡ []
    → req.total_bytes ≢ 0
    → Receiving up dir req w
    → ReceiveOutcome up dir
        (staged req)
        req.offset
        (min budget (req.total_bytes - req.offset))
        (put_staged (staged req) (path_in dir (staged req).staging_filename) budget w)
unfolding staged
serve_staged up dir req budget w part none_lost ne (not_begun z whole fits) =
    rw (eq→== req.offset 0 z, staged)
      (put_staged-first up dir _ (record req { staging_filename = staging_name req }) budget w
        (record { total_fits = part.total_fits; offset_le = part.offset_le }) none_lost ne z
        (refl, refl, refl, refl, refl) whole fits)
serve_staged up dir req budget w part none_lost ne (begun nz u) =
    rw (ne→== req.offset 0 nz, staged)
      (put_staged-later up dir _ req budget w part none_lost ne nz u)

-- If no close of a stream loses bytes: a round of serve_put that succeeds, for an unfinished upload `up` of which the first bytes, as many
-- as the offset says, are in the staging file (or which has not begun): it adds the next bytes of
-- the upload to the staging file, as many as the budget allows and the request still needs, however
-- they are split between the bytes that came with the header and any pieces from the socket; it
-- leaves the others unread, and counts exactly those that it has added.
pub serve_put-Uploads :
    (up dir : Bytes) (req : Request) (budget : ℕ) (w : World)
    → IsSound req
    → w.unflushed ≡ []
    → req.total_bytes ≢ 0
    → Receiving up dir req w
    → (serve_put req dir budget w).0.success ≡ true
    → let (s, w') = serve_put req dir budget w in
      Uploads up dir (staged req) s.request (req.offset + s.bytes_processed) w'
      × (s.bytes_processed ≡ min budget (req.total_bytes - req.offset))
unfolding serve_put
serve_put-Uploads up dir req budget w part none_lost ne r =
    ReceiveOutcome-refuse up dir _ req.offset _ req (codes "invalid filename")
      (not (is_valid_filename req.filename)) _ w
      (serve_staged up dir req budget w part none_lost ne r)
