-- ===== src/Admission/Accepts.antt =====
-- What a turn of parser_thread does to the queue (main.cpp).
use link_scheduling.Prelude.{
  ℕ, List, Bool, none, ◌≡◌, ◌⊎◌, refl, ap, ◌∙◌, inl, inr, true, false, [], ◌∷◌, ◌++◌, Bool-cases,
}
use link_scheduling.Prelude.Text.{Bytes, codes}
use link_scheduling.Request.{Operation, get, put, health, Request}
use link_scheduling.Queue.{is_empty, push, size}
use link_scheduling.World.{World, at_path, monotonic_ns, close_socket, send_all}
use link_scheduling.FileIo.{is_valid_filename, path_in, file_exists, get_file_size}
use link_scheduling.Protocol.{
  Result, ok, throws, ok_line, err_line, header_request, parse_request_header, send_response,
  send_error,
}
use link_scheduling.Protocol.Fresh.{FreshOutcome, parse_request_header-FreshOutcome}
use link_scheduling.Socket.{read_header_line}
use link_scheduling.Socket.Header.{
  Listened, HeaderOutcome, read_header_line-HeaderOutcome, read_header_line-Listened,
}
use link_scheduling.Server.Put.Stream.{stream, unread}
use link_scheduling.Admission.{
  Entry, reject, enqueue, vanish, look_again, measure, admit, admit_parsed, parser_turn,
}

-- The request that was pushed: its operation, name and, for a PUT, size are those of the header.
pub record Accepted (file_dir header : Bytes) (fd : ℕ) (w w' : World) (r : Request) : Type 0 where
  pub total : ℕ
  pub parsed : parse_request_header header fd ≡ ok (header_request fd r.op r.filename total)
  pub valid_name : is_valid_filename r.filename ≡ true
  pub connection : r.client_fd ≡ fd
  pub not_begun : r.offset ≡ 0
  pub read : header ++ unread r w' ≡ stream (w.arrivals fd)
  pub size :
      ((r.op ≡ get)
        × (file_exists w (path_in file_dir r.filename) ≡ true)
        × (r.total_bytes ≡ get_file_size w' (path_in file_dir r.filename)))
      ⊎ ((r.op ≡ put) × (r.total_bytes ≡ total))

-- Nothing has been sent on a socket, and none has been closed.
abbrev Silent : World → World → Type 0
Silent w v = (v.sends ≡ w.sends) × (v.sent ≡ w.sent) × (v.closed ≡ w.closed)

-- The peer gets a response, as far as its socket takes it: an OK with a number, or an ERR with a reason.
abbrev pub IsAnswered : ℕ → World → World → Type 0
IsAnswered fd w w' =
    (text : Bytes) × (((n : ℕ) × (text ≡ ok_line n))
      ⊎ ((reason : Bytes) × (text ≡ err_line reason)))
    × (w'.sent ≡ (send_all fd text w).1.sent)

-- Answered: the queue is as it was and the socket is closed. Or accepted: the request stands at the
-- end of an open queue.
abbrev pub ParserOutcome : Bytes → ℕ → Entry → World → Entry × World → Type 0
ParserOutcome file_dir fd entry w (entry', w') =
    ((entry'.requests ≡ entry.requests) × (w'.closed ≡ fd ∷ w.closed) × IsAnswered fd w w')
    ⊎ ((header : Bytes) × (r : Request) × Accepted file_dir header fd w w' r
        × (r.request_id ≡ entry.next_request_id)
        × (entry.requests.closed ≡ false)
        × (entry'.requests ≡ record entry.requests { queue = entry.requests.queue ++ r ∷ [] }))

-- The sockets that are closed, and the rest of the world, behind a header that has been read.
reject_closes :
    (fd : ℕ) (reason : Bytes) (entry entry' : Entry) (file_dir : Bytes) (w v : World)
    → Silent w v
    → entry'.requests ≡ entry.requests
    → ParserOutcome file_dir fd entry w (reject fd reason entry' v)
unfolding reject send_error send_all close_socket
reject_closes fd reason entry entry' file_dir w v (sends, sent, closed) f =
    inl (f, ap (◌∷◌ fd) closed, (err_line reason, inr (reason, refl), rw (sends, sent) refl))

file_exists-same :
    (path : Bytes) (w v : World) → v.files ≡ w.files → file_exists w path ≡ file_exists v path
unfolding file_exists
file_exists-same path w v e = rw e refl

module _ (file_dir header : Bytes) (fd : ℕ) (entry : Entry) (w : World) where
  -- A time stamp and a number change nothing else.
  Accepted-numbered :
      (req : Request) (v : World)
      → Accepted file_dir header fd w v req
      → Accepted file_dir header fd w
          (monotonic_ns v).1
          (record req { request_id = entry.next_request_id; arrival_ns = (monotonic_ns v).0 })
  unfolding monotonic_ns file_exists get_file_size
  Accepted-numbered req v a = record {
    total = a.total;
    parsed = a.parsed;
    valid_name = a.valid_name;
    connection = a.connection;
    not_begun = a.not_begun;
    read = a.read;
    size = a.size;
  }

  enqueue-ParserOutcome :
      (req : Request) (v : World)
      → Silent w v
      → Accepted file_dir header fd w v req
      → ParserOutcome file_dir fd entry w (enqueue fd req entry v)
  unfolding enqueue push monotonic_ns reject send_error send_all close_socket
  enqueue-ParserOutcome req v e a =
      let reason = codes "server shutting down" in
      elim (Bool-cases entry.requests.closed) [
        | inl h ↦
            let (sends, sent, closed) = e in
            rw (h, enqueue)
              (inl (
                refl,
                ap (◌∷◌ fd) closed,
                (err_line reason, inr (reason, refl), rw (sends, sent) refl),
              ))
        | inr h ↦ rw (h, enqueue) (inr (header, _, Accepted-numbered req v a, refl, refl, refl))
      ]

  module _ (leftover : Bytes) (v : World) (same : Listened w v) where
    -- What the header makes, with the bytes that came behind it.
    abbrev fresh : Operation → Bytes → ℕ → Request
    fresh op name total = record (header_request fd op name total) { pending_bytes = leftover }

    quiet : Silent w v
    quiet = (same.1, same.2, same.3)

    -- What the second look at an existing file has found.
    vanish-ParserOutcome :
        (seen : List Bool) (name : Bytes) (total : ℕ)
        → parse_request_header header fd ≡ ok (header_request fd get name total)
        → header ++ (leftover ++ stream (v.arrivals fd)) ≡ stream (w.arrivals fd)
        → is_valid_filename name ≡ true
        → file_exists w (path_in file_dir name) ≡ true
        → let run = vanish seen (path_in file_dir name) v in
          ParserOutcome file_dir fd entry w
            (enqueue fd (record (fresh get name total) { total_bytes = run.0 }) entry run.1)
    vanish-ParserOutcome [] name total p r valid h = enqueue-ParserOutcome _ v quiet (record {
      total = total;
      parsed = p;
      valid_name = valid;
      connection = refl;
      not_begun = refl;
      read = r;
      size = inl (refl, h, refl);
    })
    vanish-ParserOutcome (false ∷ later) name total p r valid h =
        enqueue-ParserOutcome _ (record v { vanishings = later }) quiet
          (record {
            total = total;
            parsed = p;
            valid_name = valid;
            connection = refl;
            not_begun = refl;
            read = r;
            size = inl (refl, h, unfold get_file_size in refl);
          })
    vanish-ParserOutcome (true ∷ later) name total p r valid h =
        enqueue-ParserOutcome _
          (record v { vanishings = later; files = at_path v.files (path_in file_dir name) none })
          quiet
          (record {
            total = total;
            parsed = p;
            valid_name = valid;
            connection = refl;
            not_begun = refl;
            read = r;
            size = inl (refl, h, refl);
          })

    measure-ParserOutcome :
        (name : Bytes) (total : ℕ)
        → parse_request_header header fd ≡ ok (header_request fd get name total)
        → header ++ (leftover ++ stream (v.arrivals fd)) ≡ stream (w.arrivals fd)
        → is_valid_filename name ≡ true
        → ParserOutcome file_dir fd entry w (measure file_dir fd (fresh get name total) entry v)
    unfolding measure look_again
    measure-ParserOutcome name total p r valid =
        elim (Bool-cases (file_exists v (path_in file_dir name))) [
          | inl h ↦
              rw (h, measure)
                (vanish-ParserOutcome v.vanishings name total p r valid
                  (file_exists-same (path_in file_dir name) w v same.0 ∙ h))
          | inr h ↦
              rw (h, measure)
                (reject_closes fd (codes "file not found") entry entry file_dir w v quiet refl)
        ]

    admit-ParserOutcome :
        (op : Operation) (name : Bytes) (total : ℕ)
        → parse_request_header header fd ≡ ok (header_request fd op name total)
        → header ++ (leftover ++ stream (v.arrivals fd)) ≡ stream (w.arrivals fd)
        → ParserOutcome file_dir fd entry w (admit op file_dir fd (fresh op name total) entry v)
    unfolding admit
    admit-ParserOutcome health name total p r =
        unfold send_response send_all close_socket in
        let (sends, sent, closed) = quiet in
        inl (
          refl,
          ap (◌∷◌ fd) closed,
          (ok_line (size entry.requests), inl (size entry.requests, refl), rw (sends, sent) refl),
        )
    admit-ParserOutcome get name total p r = elim (Bool-cases (is_valid_filename name)) [
      | inl h ↦ rw (h, admit) (measure-ParserOutcome name total p r h)
      | inr h ↦
          rw (h, admit)
            (reject_closes fd (codes "invalid filename") entry entry file_dir w v quiet refl)
    ]
    admit-ParserOutcome put name total p r = elim (Bool-cases (is_valid_filename name)) [
      | inl h ↦
          rw (h, admit)
            (enqueue-ParserOutcome (fresh put name total) v quiet (record {
              total = total;
              parsed = p;
              valid_name = h;
              connection = refl;
              not_begun = refl;
              read = r;
              size = inr (refl, refl);
            }))
      | inr h ↦
          rw (h, admit)
            (reject_closes fd (codes "invalid filename") entry entry file_dir w v quiet refl)
    ]

    admit_parsed-ParserOutcome :
        (result : Result Request)
        → parse_request_header header fd ≡ result
        → FreshOutcome fd result
        → header ++ (leftover ++ stream (v.arrivals fd)) ≡ stream (w.arrivals fd)
        → ParserOutcome file_dir fd entry w (admit_parsed file_dir fd leftover result entry v)
    unfolding admit_parsed
    admit_parsed-ParserOutcome (throws reason) p f r =
        reject_closes fd reason entry entry file_dir w v quiet refl
    admit_parsed-ParserOutcome (ok req) p (op, name, total, e) r =
        rw e (admit-ParserOutcome op name total (p ∙ ap ok e) r)

is_empty-snoc : (s : Bytes) (c : ℕ) → is_empty (s ++ c ∷ []) ≡ false
is_empty-snoc [] c = refl
is_empty-snoc (x ∷ s) c = refl

-- A turn of parser_thread leaves the queue as it was, closes the connection, and sends on it, as far as
-- its socket takes it, a line of OK and a number or of ERR and a reason; or it puts at the end of an open
-- queue a request that has not begun, with the next number, on this connection, with a valid name, and
-- with the operation and name of the header: for a GET, of a file that existed and with the size that it
-- has at the second look, 0 if it has gone; for a PUT, with the size of the header, and such that the
-- header, what came with it and what the socket still delivers are all that arrived.
pub parser_turn-ParserOutcome :
    (file_dir : Bytes) (fd : ℕ) (entry : Entry) (w : World)
    → ParserOutcome file_dir fd entry w (parser_turn file_dir fd entry w)
unfolding parser_turn
parser_turn-ParserOutcome file_dir fd entry w = by_header (read_header_line-HeaderOutcome fd 1000 w)
  where
    got : (Bytes × Bytes) × World
    got = read_header_line fd 1000 w

    same : Listened w got.1
    same = read_header_line-Listened fd 1000 w

    by_header :
        HeaderOutcome fd (stream (w.arrivals fd)) got
        → ParserOutcome file_dir fd entry w (parser_turn file_dir fd entry w)
    by_header (inl (none_read, _)) =
        rw (none_read, parser_turn)
          (reject_closes fd (codes "timeout or invalid request") entry entry file_dir w got.1
            (same.1, same.2, same.3) refl)
    by_header (inr (line, e, _, whole)) =
        rw (ap is_empty e ∙ is_empty-snoc line b'\n', parser_turn)
          (admit_parsed-ParserOutcome file_dir got.0.0 fd entry w got.0.1 got.1 same
            (parse_request_header got.0.0 fd) refl (parse_request_header-FreshOutcome got.0.0 fd)
            whole)
