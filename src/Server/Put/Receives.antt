-- ===== src/Server/Put/Receives.antt =====
-- A round of serve_put whose bytes come in time, from its call to its result (server.cpp).
use link_scheduling.Prelude.{
  ℕ, suc, ◌+◌, ◌-◌, ◌^◌, ◌<◌, ◌≡◌, ◌≢◌, refl, true, some, [], arith, min, length, sub64-eq, ne→==,
  eq→==, lt→ltb,
}
use link_scheduling.Prelude.Text.{Bytes}
use link_scheduling.Request.{Request, IsSound}
use link_scheduling.World.{World, draw_fault}
use link_scheduling.FileIo.{is_valid_filename}
use link_scheduling.Server.Put.{
  chunk_size, create_file, open_update, pending_loop, put_loops, put_bytes, put_round, put_staged,
  staged, staging_name, serve_put,
}
use link_scheduling.Server.Put.Stream.{Uploads, at_path_here}
use link_scheduling.Server.Put.Upload.{Receiving, not_begun, begun, serve_put-Uploads}
use link_scheduling.Server.Put.Success.{
  Delivers, PendingGood, pending_loop-PendingGood, receive_loop-success,
}

-- What a round needs: no call that writes a file fails, no close of a stream loses bytes, the offset can be sought, and the bytes that
-- are not pending already come from the socket without a pause.
pub record Flows (req : Request) (budget : ℕ) (w : World) : Type 0 where
  pub no_fault : w.faults ≡ []
  pub none_lost : w.unflushed ≡ []
  pub seekable : req.offset < 2 ^ 63
  pub pending_fits : length req.pending_bytes < 2 ^ 64
  pub delivers :
      Delivers
        (min budget (req.total_bytes - req.offset)
          - (length req.pending_bytes - req.pending_offset))
        (w.arrivals req.client_fd)

put_loops-success :
    (req : Request) (path : Bytes) (budget : ℕ) (w : World)
    → IsSound req
    → Flows req budget w
    → (put_loops req path budget w).0.success ≡ true
unfolding put_loops
put_loops-success req path budget w part f =
    let total = min budget (req.total_bytes - req.offset) in
    let (p, w') = pending_loop (suc total) path req req.offset 0 total w in
    let g : PendingGood req total w p w' =
      pending_loop-PendingGood (suc total) path req req.offset 0 total w (omega arith)
        f.pending_fits f.no_fault in
    rw (sub64-eq req.total_bytes req.offset part.offset_le part.total_fits, put_loops)
      (rw g.good (
        receive_loop-success (suc total) path p.request (min chunk_size total)
          (req.offset + p.processed) p.processed p.left w' (omega (arith, g.uncovered))
          (omega (arith, g.uncovered, part.total_fits)) (omega (arith, g.uncovered)) g.no_fault
          (rw (g.client_fd, g.arrivals, g.uncovered) f.delivers)))

put_bytes-success :
    (req : Request) (path : Bytes) (budget : ℕ) (w : World)
    → IsSound req
    → Flows req budget w
    → (put_bytes req path budget w).0.success ≡ true
unfolding put_bytes
put_bytes-success req path budget w part f = put_loops-success req path budget w part f

put_round-success :
    (req : Request) (path content : Bytes) (budget : ℕ) (w : World)
    → IsSound req
    → Flows req budget w
    → w.files path ≡ some content
    → (put_round req path budget w).0.success ≡ true
unfolding put_round open_update draw_fault
put_round-success req path content budget w part f s =
    rw (f.no_fault, s, lt→ltb req.offset (2 ^ 63) f.seekable)
      (put_bytes-success req path budget (record w { faults = [] }) part
        (record {
          no_fault = refl;
          none_lost = f.none_lost;
          seekable = f.seekable;
          pending_fits = f.pending_fits;
          delivers = f.delivers;
        }))

first-success :
    (req : Request) (path : Bytes) (budget : ℕ) (w : World)
    → IsSound req
    → req.total_bytes ≢ 0
    → req.offset ≡ 0
    → Flows req budget w
    → (put_staged req path budget w).0.success ≡ true
unfolding put_staged create_file draw_fault
first-success req path budget w part ne z f =
    rw (ne→== req.total_bytes 0 ne, eq→== req.offset 0 z, put_staged)
      (rw f.no_fault (
        put_round-success req path [] budget _ part
          (record {
            no_fault = refl;
            none_lost = f.none_lost;
            seekable = f.seekable;
            pending_fits = f.pending_fits;
            delivers = f.delivers;
          })
          (at_path_here w.files path _)))

later-success :
    (req : Request) (path content : Bytes) (budget : ℕ) (w : World)
    → IsSound req
    → req.total_bytes ≢ 0
    → req.offset ≢ 0
    → Flows req budget w
    → w.files path ≡ some content
    → (put_staged req path budget w).0.success ≡ true
unfolding put_staged
later-success req path content budget w part ne nz f s =
    rw (ne→== req.total_bytes 0 ne, ne→== req.offset 0 nz, put_staged)
      (put_round-success req path content budget w part f s)

serve_put-success :
    (up dir : Bytes) (req : Request) (budget : ℕ) (w : World)
    → is_valid_filename req.filename ≡ true
    → IsSound req
    → req.total_bytes ≢ 0
    → Receiving up dir req w
    → Flows req budget w
    → (serve_put req dir budget w).0.success ≡ true
unfolding serve_put staged
serve_put-success up dir req budget w v part ne (not_begun z whole fits) f =
    rw (v, eq→== req.offset 0 z)
      (first-success (record req { staging_filename = staging_name req }) _ budget w
        (record { total_fits = part.total_fits; offset_le = part.offset_le }) ne z
        (record {
          no_fault = f.no_fault;
          none_lost = f.none_lost;
          seekable = f.seekable;
          pending_fits = f.pending_fits;
          delivers = f.delivers;
        }))
serve_put-success up dir req budget w v part ne (begun nz u) f =
    rw (v, ne→== req.offset 0 nz) (later-success req _ u.content budget w part ne nz f u.stored)

-- A round of serve_put for an unfinished upload with a valid name, of which as many bytes as the
-- offset says are in the staging file (or which has not begun), when no call that writes a file
-- fails, no close of a stream loses bytes and the bytes that the round needs come without a pause: it succeeds, has added the next
-- bytes of the upload to the staging file, as many as the budget allows and the request still needs,
-- leaves the others unread, and counts exactly those that it has added.
pub serve_put-receives :
    (up dir : Bytes) (req : Request) (budget : ℕ) (w : World)
    → is_valid_filename req.filename ≡ true
    → IsSound req
    → req.total_bytes ≢ 0
    → Receiving up dir req w
    → Flows req budget w
    → let (s, w') = serve_put req dir budget w in
      (s.success ≡ true)
      × Uploads up dir (staged req) s.request (req.offset + s.bytes_processed) w'
      × (s.bytes_processed ≡ min budget (req.total_bytes - req.offset))
serve_put-receives up dir req budget w v part ne r f =
    let good = serve_put-success up dir req budget w v part ne r f in
    let (written, counted) = serve_put-Uploads up dir req budget w part f.none_lost ne r good in
    (good, written, counted)
