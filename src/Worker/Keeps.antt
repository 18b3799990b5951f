-- ===== src/Worker/Keeps.antt =====
-- A round leaves a request its identity: the id, the connection, the name and the size stay, in
-- every branch of the handlers (server.cpp, scheduling.cpp, main.cpp).
use link_scheduling.Prelude.{
  ℕ, zero, suc, ◌≡◌, ◌∙◌, refl, inl, inr, Bool, arith, ◌+◌, min, sub64, Bool-cases,
}
use link_scheduling.Prelude.Text.{Bytes}
use link_scheduling.Request.{Operation, get, put, health, Request}
use link_scheduling.World.{World}
use link_scheduling.Scheduling.{Scheduler, get_budget, account, should_requeue}
use link_scheduling.Server.Get.{
  send_packets, transfer, round_choice, get_round, send_header, serve_get,
}
use link_scheduling.FileIo.{is_valid_filename, path_in}
use link_scheduling.Server.Put.{
  chunk_size, create_file, open_update, staged, put_staged, pending_loop, receive_loop, put_loops,
  put_bytes, put_round, serve_put,
}
use link_scheduling.Worker.{
  Setup, is_rr, Outcome, dropped, again, finished, serve, stamp_start, drop_request, finish_request,
  forfeit, book_round, worker_round,
}

-- The fields by which a request is known.
pub record Same (r r' : Request) : Type 0 where
  pub request_id : r'.request_id ≡ r.request_id
  pub client_fd : r'.client_fd ≡ r.client_fd
  pub op : r'.op ≡ r.op
  pub filename : r'.filename ≡ r.filename
  pub total_bytes : r'.total_bytes ≡ r.total_bytes

pub Same-refl : (r : Request) → Same r r
Same-refl r = record {
  request_id = refl;
  client_fd = refl;
  op = refl;
  filename = refl;
  total_bytes = refl;
}

pub Same-trans : {a b c : Request} → Same a b → Same b c → Same a c
Same-trans p q = record {
  request_id = q.request_id ∙ p.request_id;
  client_fd = q.client_fd ∙ p.client_fd;
  op = q.op ∙ p.op;
  filename = q.filename ∙ p.filename;
  total_bytes = q.total_bytes ∙ p.total_bytes;
}

send_packets-Same :
    (fuel p : ℕ) (req : Request) (path : Bytes) (offset left processed : ℕ) (w : World)
    → (send_packets fuel p req path offset left processed w).0.request ≡ req
unfolding send_packets
send_packets-Same zero p req path offset left processed w = refl
send_packets-Same (suc fuel) p req path offset left processed w =
    grind (arith, λ (o l n : ℕ) (v : World). send_packets-Same fuel p req path o l n v)

transfer-Same :
    (req : Request) (path : Bytes) (n p : ℕ) (w : World) → (transfer req path n p w).0.request ≡ req
unfolding transfer
transfer-Same req path n p w = ground (arith, send_packets-Same (suc n) p req path req.offset n 0 w)

get_round-Same :
    (req : Request) (path : Bytes) (budget : ℕ) (allow : Bool) (p : ℕ) (w : World)
    → Same req (get_round req path budget allow p w).0.request
unfolding get_round
get_round-Same req path budget allow p w =
    let choice = round_choice w req path budget allow in
    ground (arith, transfer-Same (record req { a14_events = choice.1 }) path choice.0 p w)

send_header-Same : (req : Request) (w : World) → Same req (send_header req w).0
unfolding send_header
send_header-Same req w = ground arith

serve_get-Same :
    (req : Request) (dir : Bytes) (budget : ℕ) (allow : Bool) (p : ℕ) (w : World)
    → Same req (serve_get req dir budget allow p w).0.request
unfolding serve_get
serve_get-Same req dir budget allow p w =
    let sent = send_header req w in
    ground (
      arith,
      send_header-Same req w,
      get_round-Same sent.0 (path_in dir req.filename) budget allow p sent.1,
    )

pending_loop-Same :
    (fuel : ℕ) (path : Bytes) (req : Request) (pos processed left : ℕ) (w : World)
    → Same req (pending_loop fuel path req pos processed left w).0.request
unfolding pending_loop
pending_loop-Same zero path req pos processed left w = Same-refl req
pending_loop-Same (suc fuel) path req pos processed left w =
    grind (arith, λ (r : Request) (o l n : ℕ) (v : World). pending_loop-Same fuel path r o l n v)

receive_loop-Same :
    (fuel : ℕ) (path : Bytes) (req : Request) (size pos processed left : ℕ) (w : World)
    → (receive_loop fuel path req size pos processed left w).0.request ≡ req
unfolding receive_loop
receive_loop-Same zero path req size pos processed left w = refl
receive_loop-Same (suc fuel) path req size pos processed left w =
    grind (arith, λ (o l n : ℕ) (v : World). receive_loop-Same fuel path req size o l n v)

put_bytes-Same :
    (req : Request) (path : Bytes) (budget : ℕ) (w : World)
    → Same req (put_bytes req path budget w).0.request
unfolding put_bytes put_loops
put_bytes-Same req path budget w =
    let n = min budget (sub64 req.total_bytes req.offset) in
    let got = pending_loop (suc n) path req req.offset 0 n w in
    ground (
      arith,
      pending_loop-Same (suc n) path req req.offset 0 n w,
      receive_loop-Same (suc n) path got.0.request (min chunk_size n) (req.offset + got.0.processed)
          got.0.processed got.0.left got.1,
    )

put_round-Same :
    (req : Request) (path : Bytes) (budget : ℕ) (w : World)
    → Same req (put_round req path budget w).0.request
unfolding put_round
put_round-Same req path budget w =
    ground (arith, put_bytes-Same req path budget (open_update path w).1)

staged-Same : (req : Request) → Same req (staged req)
unfolding staged
staged-Same req = ground arith

put_staged-Same :
    (req : Request) (path : Bytes) (budget : ℕ) (w : World)
    → Same req (put_staged req path budget w).0.request
unfolding put_staged
put_staged-Same req path budget w =
    ground (
      arith,
      put_round-Same req path budget w,
      put_round-Same req path budget (create_file path w).1,
    )

serve_put-Same :
    (req : Request) (dir : Bytes) (budget : ℕ) (w : World)
    → Same req (serve_put req dir budget w).0.request
unfolding serve_put
serve_put-Same req dir budget w = elim (Bool-cases (is_valid_filename req.filename)) [
  | inl h ↦ rw h (
      Same-trans (staged-Same req)
        (put_staged-Same (staged req) (path_in dir (staged req).staging_filename) budget w))
  | inr h ↦ rw h (Same-refl req)
]

serve-Same :
    (op : Operation) (su : Setup) (req : Request) (budget : ℕ) (w : World)
    → Same req (serve op su req budget w).0.request
unfolding serve
serve-Same get su req budget w =
    serve_get-Same req su.file_dir budget (is_rr su.scheduler.policy) su.packetization w
serve-Same put su req budget w = serve_put-Same req su.file_dir budget _
serve-Same health su req budget w = Same-refl req

pub get_budget-Same : (s : Scheduler) (r : Request) → Same r (get_budget s r).0
unfolding get_budget
get_budget-Same s r = ground arith

-- The request that an outcome is about.
abbrev pub about : Outcome → Request
about (dropped r) = r
about (again r) = r
about (finished r) = r

stamp_start-Same : (req : Request) (w : World) → Same req (stamp_start req w).0
unfolding stamp_start
stamp_start-Same req w = ground arith

finish_request-Same :
    (su : Setup) (req : Request) (w : World) → Same req (about (finish_request su req w).0)
unfolding finish_request
finish_request-Same su req w = ground arith

account-Same : (s : Scheduler) (r : Request) (n : ℕ) → Same r (account s r n)
unfolding account
account-Same s r n = record {
  request_id = refl;
  client_fd = refl;
  op = refl;
  filename = refl;
  total_bytes = refl;
}

forfeit-Same :
    (su : Setup) (r : Request) (requeued : Bool) (budget n : ℕ)
    → Same r (forfeit su r requeued budget n)
unfolding forfeit
forfeit-Same su r requeued budget n = ground arith

book_round-Same :
    (su : Setup) (req : Request) (budget n : ℕ) (w : World)
    → Same req (about (book_round su req budget n w).0)
unfolding book_round
book_round-Same su req budget n w =
    let booked = account su.scheduler req n in
    let kept =
      Same-trans (account-Same su.scheduler req n)
        (forfeit-Same su booked (should_requeue booked) budget n) in
    elim (Bool-cases (should_requeue booked)) [
      | inl h ↦ rw h (rw h at kept)
      | inr h ↦ rw h (Same-trans (rw h at kept) (finish_request-Same su _ w))
    ]

drop_request-Same :
    (su : Setup) (req : Request) (w : World) → Same req (about (drop_request su req w).0)
unfolding drop_request
drop_request-Same su req w = Same-refl req

-- A round, whatever happens in it, is still about the request that it was given: the one that is
-- dropped, put back or recorded has the same id, connection, operation, name and size.
pub worker_round-Same :
    (su : Setup) (req : Request) (budget : ℕ) (w : World)
    → Same req (about (worker_round su req budget w).0)
unfolding worker_round
worker_round-Same su req budget w =
    let started = stamp_start req w in
    let result = serve started.0.op su started.0 budget started.1 in
    let kept =
      Same-trans (stamp_start-Same req w) (serve-Same started.0.op su started.0 budget started.1) in
    elim (Bool-cases result.0.success) [
      | inl h ↦ rw h (
          Same-trans kept
            (book_round-Same su result.0.request budget result.0.bytes_processed result.1))
      | inr h ↦ rw h (Same-trans kept (drop_request-Same su result.0.request result.1))
    ]
