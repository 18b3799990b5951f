-- ===== src/Server/Put/Unflushed.antt =====
-- A round of serve_put keeps it that no close of a stream will lose bytes (server.cpp).
use link_scheduling.Prelude.{
  ℕ, zero, suc, ◌+◌, ◌≡◌, refl, ◌∙◌, inl, inr, Bool, true, false, [], arith, min, if◌then◌else◌,
  Bool-cases, sub64,
}
use link_scheduling.Prelude.Text.{Bytes}
use link_scheduling.Request.{Request}
use link_scheduling.World.{World, M, pure, draw_fault, recv_data_with_timeout, send_all}
use link_scheduling.Protocol.{send_error}
use link_scheduling.FileIo.{path_in}
use link_scheduling.Server.Put.{
  chunk_size, write_bytes, create_file, open_update, pending_loop, receive_loop, put_loops,
  put_bytes, put_round, put_staged, staged, serve_put,
}
use link_scheduling.FileIo.{close_stream}
use link_scheduling.Server.Put.Stream.{close_stream-none}

pub write_bytes-unflushed :
    (path : Bytes) (pos : ℕ) (bytes : Bytes) (w : World)
    → (write_bytes path pos bytes w).1.unflushed ≡ w.unflushed
unfolding write_bytes draw_fault
write_bytes-unflushed path pos bytes w = ground arith

-- Behind a write.
pub if_good-unflushed :
    {A : Type 0} (good : Bool) (again : M A) (failed : A) (v w : World)
    → v.unflushed ≡ w.unflushed
    → (again v).1.unflushed ≡ v.unflushed
    → ((if good then again else pure failed) v).1.unflushed ≡ w.unflushed
if_good-unflushed true again failed v w e k = k ∙ e
if_good-unflushed false again failed v w e k = e

pub create_file-unflushed :
    (path : Bytes) (w : World) → (create_file path w).1.unflushed ≡ w.unflushed
unfolding create_file draw_fault
create_file-unflushed path w = ground arith

pending_loop-unflushed :
    (fuel : ℕ) (path : Bytes) (req : Request) (pos processed left : ℕ) (w : World)
    → (pending_loop fuel path req pos processed left w).1.unflushed ≡ w.unflushed
unfolding pending_loop
pending_loop-unflushed zero path req pos processed left w = refl
pending_loop-unflushed (suc fuel) path req pos processed left w = grind (
  arith,
  write_bytes-unflushed,
  λ (r : Request) (o l n : ℕ) (v : World). pending_loop-unflushed fuel path r o l n v,
)

close_stream-unflushed :
    (path : Bytes) (start : ℕ) (w : World)
    → w.unflushed ≡ []
    → (close_stream path start w).1.unflushed ≡ []
close_stream-unflushed path start w h = rw (close_stream-none path start w h) h

receive_loop-unflushed :
    (fuel : ℕ) (path : Bytes) (req : Request) (size pos processed left : ℕ) (w : World)
    → w.unflushed ≡ []
    → (receive_loop fuel path req size pos processed left w).1.unflushed ≡ []
unfolding receive_loop recv_data_with_timeout send_error send_all
receive_loop-unflushed zero path req size pos processed left w h = h
receive_loop-unflushed (suc fuel) path req size pos processed left w h = grind (
  arith,
  h,
  write_bytes-unflushed,
  close_stream-unflushed,
  λ (o l n : ℕ) (v : World). receive_loop-unflushed fuel path req size o l n v,
)

pub put_loops-unflushed :
    (req : Request) (path : Bytes) (budget : ℕ) (w : World)
    → w.unflushed ≡ []
    → (put_loops req path budget w).1.unflushed ≡ []
unfolding put_loops send_error send_all
put_loops-unflushed req path budget w h =
    let n = min budget (sub64 req.total_bytes req.offset) in
    let p = pending_loop (suc n) path req req.offset 0 n w in
    let k : p.1.unflushed ≡ [] = pending_loop-unflushed (suc n) path req req.offset 0 n w ∙ h in
    elim (Bool-cases p.0.good) [
      | inl e ↦
          rw (e, put_loops)
            (receive_loop-unflushed (suc n) path p.0.request (min chunk_size n)
              (req.offset + p.0.processed) p.0.processed p.0.left p.1 k)
      | inr e ↦ rw (e, put_loops) (close_stream-unflushed path p.0.request.offset p.1 k)
    ]

put_bytes-unflushed :
    (req : Request) (path : Bytes) (budget : ℕ) (w : World)
    → w.unflushed ≡ []
    → (put_bytes req path budget w).1.unflushed ≡ []
unfolding put_bytes
put_bytes-unflushed req path budget w h =
    let k = put_loops-unflushed req path budget w h in
    elim (Bool-cases (put_loops req path budget w).0.success) [
      | inl e ↦
          rw (e, put_bytes)
            (close_stream-unflushed path req.offset (put_loops req path budget w).1 k)
      | inr e ↦ rw (e, put_bytes) k
    ]

put_round-unflushed :
    (req : Request) (path : Bytes) (budget : ℕ) (w : World)
    → w.unflushed ≡ []
    → (put_round req path budget w).1.unflushed ≡ []
unfolding put_round open_update draw_fault send_error send_all
put_round-unflushed req path budget w h =
    ground (arith, h, put_bytes-unflushed req path budget (open_update path w).1 h)

put_staged-unflushed :
    (req : Request) (path : Bytes) (budget : ℕ) (w : World)
    → w.unflushed ≡ []
    → (put_staged req path budget w).1.unflushed ≡ []
unfolding put_staged send_error send_all
put_staged-unflushed req path budget w h =
    let k : (create_file path w).1.unflushed ≡ [] = create_file-unflushed path w ∙ h in
    ground (
      arith,
      h,
      k,
      put_round-unflushed req path budget (create_file path w).1 k,
      put_round-unflushed req path budget w h,
    )

pub serve_put-unflushed :
    (req : Request) (dir : Bytes) (budget : ℕ) (w : World)
    → w.unflushed ≡ []
    → (serve_put req dir budget w).1.unflushed ≡ []
unfolding serve_put send_error send_all
serve_put-unflushed req dir budget w h = ground (
  arith,
  h,
  put_staged-unflushed (staged req) (path_in dir (staged req).staging_filename) budget w h,
)
